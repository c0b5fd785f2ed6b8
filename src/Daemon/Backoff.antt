-- ===== src/Daemon/Backoff.antt =====
-- `backoff` of internal/scp/daemon/dispatcher.go, in int64 nanoseconds.
use native.Mathlib.Nat.{pow-suc, suc-add, zero-add}
use native.Mathlib.Decide.{dec_lt}
use secret_control_panel.Base.{
  ltb, if◌then◌else◌, ◌==◌, nat_eq, eq_iff, all, ℕ, zero, suc, ◌+◌, ◌-◌, ◌*◌, ◌%◌, ◌^◌, ◌≤◌, min,
  max, ◌≡◌, refl, ap, subst, Bool, true, ◌&&◌, arith,
}
use secret_control_panel.Wire.{second, minute}

abbrev pub max_backoff : ℕ
max_backoff = 5 * minute

-- a > b of two int64 bit patterns, read in two's complement.
abbrev gt_int64 : ℕ → ℕ → Bool
gt_int64 a b = ltb ((b + 2 ^ 63) % 2 ^ 64) ((a + 2 ^ 63) % 2 ^ 64)

unfoldable pub backoff : ℕ → ℕ
backoff attempts =
    let attempts' = if ltb attempts 1 then 1 else attempts in
    if ltb 30 attempts'
    then max_backoff
    else let d = ((2 ^ attempts') % 2 ^ 64) * second % 2 ^ 64 in
      if gt_int64 d max_backoff then max_backoff else d

-- min(2^attempts, 300) seconds, with 0 attempts taken as 1, over the unbounded numbers.
abbrev pub backoff_ideal : ℕ → ℕ
backoff_ideal attempts = min (2 ^ max 1 attempts * second) max_backoff

-- The two agree on every number up to a bound.
agree_up_to : ℕ → Bool
agree_up_to zero = backoff 0 == backoff_ideal 0
agree_up_to (suc bound) = backoff (suc bound) == backoff_ideal (suc bound) && agree_up_to bound

agree_small :
    (bound a : ℕ) → agree_up_to bound ≡ true → a ≤ bound → (backoff a == backoff_ideal a) ≡ true
unfolding agree_up_to
agree_small zero a all small =
    let here : 0 ≡ a = omega arith in subst (λ n. (backoff n == backoff_ideal n) ≡ true) here all
agree_small (suc bound) a all small = elim (dec_lt a (suc bound)) [
  | yes below ↦ agree_small bound a (ground arith) (omega arith)
  | no at_bound ↦
      let here : suc bound ≡ a = omega arith in
      subst (λ n. (backoff n == backoff_ideal n) ≡ true) here (ground arith)
]

table : agree_up_to 30 ≡ true
unfolding agree_up_to backoff
table = refl

pow_grows : (k : ℕ) → 2 ^ 31 ≤ 2 ^ (k + 31)
pow_grows zero = omega arith
pow_grows (suc k) = omega (arith, pow_grows k, pow-suc 2 (k + 31), ap (λ n. 2 ^ n) (suc-add k 31))

large : (k : ℕ) → backoff (k + 31) ≡ backoff_ideal (k + 31)
unfolding backoff
large k =
    let floor = pow_grows k in
    let atLeast : max 1 (k + 31) ≡ k + 31 = omega arith in rw atLeast (ground arith)

-- The guard on the shift and the int64 arithmetic lose nothing: for every number of attempts the
-- backoff is min(2^attempts, 300) seconds, where 0 attempts count as 1.
pub backoff_lem : (attempts : ℕ) → backoff attempts ≡ backoff_ideal attempts
backoff_lem a = elim (dec_lt a 31) [
  | yes small ↦ (eq_iff (backoff a) (backoff_ideal a)).0 (agree_small 30 a table (omega arith))
  | no big ↦
      let e : (a - 31) + 31 ≡ a = omega arith in
      subst (λ n. backoff n ≡ backoff_ideal n) e (large (a - 31))
]

pow_mono_step : (n : ℕ) → 2 ^ n ≤ 2 ^ suc n
pow_mono_step n = omega (arith, pow-suc 2 n)

pow_mono : (k n : ℕ) → 2 ^ n ≤ 2 ^ (k + n)
pow_mono zero n = omega (arith, ap (λ m. 2 ^ m) (zero-add n))
pow_mono (suc k) n = omega (arith, pow_mono k n, pow-suc 2 (k + n), ap (λ m. 2 ^ m) (suc-add k n))

-- A later attempt never waits less than an earlier one.
backoff_mono : (a b : ℕ) → a ≤ b → backoff a ≤ backoff b
backoff_mono a b h =
    let lo = max 1 a in
    let hi = max 1 b in
    let gap : (hi - lo) + lo ≡ hi = omega arith in
    let grows : 2 ^ lo ≤ 2 ^ hi = subst (λ n. 2 ^ lo ≤ 2 ^ n) gap (pow_mono (hi - lo) lo) in
    rw (backoff_lem a, backoff_lem b) (omega arith)

-- Every wait between two attempts is at least 2 seconds and at most 5 minutes.
pub backoff_bounds : (a : ℕ) → (2 * second ≤ backoff a) × (backoff a ≤ max_backoff)
backoff_bounds a =
    let lo = max 1 a in
    let gap : (lo - 1) + 1 ≡ lo = omega arith in
    let grows : 2 ^ 1 ≤ 2 ^ lo = subst (λ n. 2 ^ 1 ≤ 2 ^ n) gap (pow_mono (lo - 1) 1) in
    rw (backoff_lem a) (omega arith)

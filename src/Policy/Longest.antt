-- ===== src/Policy/Longest.antt =====
-- The wildcard half of Resolve: the first match in the sorted rules is the longest match, whatever
-- order the sort gives to rules of equal length.
use mathlib.Core.List.Permᴰ
use mathlib.Core.List.Memᴰ
use secret_control_panel.Base.{
  ltb, if◌then◌else◌, Bool-cases, nat_eq, length, find?, All-mem, mem-perm, ◌≤◌, ◌≡◌, refl, sym, ap,
  ◌∙◌, inl, inr, true, false, false≢true, Option, none, some, List, [], ◌∷◌, ◌++◌, Memᴰ, Permᴰ,
  le_antisymm, arith,
}
use secret_control_panel.Text.{Str, has_prefix}
use secret_control_panel.Text.Cut.{append_of-has_prefix}
use secret_control_panel.Sort.{IsStrictWeak, Ordered, Sorter}
use secret_control_panel.Policy.{PrefixRule, longer}

pub longer-IsStrictWeak : IsStrictWeak longer
longer-IsStrictWeak = record {
  asymm = λ x y h. ground arith;
  neg_trans = λ x y z h k. ground arith;
}

-- The rule to keep of `r` and the best of the rules behind it.
abbrev keep_longer : PrefixRule → Option PrefixRule → Option PrefixRule
keep_longer r none = some r
keep_longer r (some q) = if ltb (length r.prefix) (length q.prefix) then some q else some r

-- The rule with the longest prefix of `key`, by a pass over the rules in any order.
unfoldable pub longest : Str → List PrefixRule → Option PrefixRule
longest key [] = none
longest key (r ∷ rs) =
    let best = longest key rs in if has_prefix key r.prefix then keep_longer r best else best

-- No two rules share a prefix.
abbrev pub Distinct : List PrefixRule → Type 0
Distinct rs = (r q : PrefixRule) → Memᴰ r rs → Memᴰ q rs → r.prefix ≡ q.prefix → r ≡ q

-- `b` is a match, and no match is longer.
abbrev IsMax : Str → List PrefixRule → PrefixRule → Type 0
IsMax key rs b =
    Memᴰ b rs
    × (has_prefix key b.prefix ≡ true)
    × ((r : PrefixRule)
        → Memᴰ r rs
        → has_prefix key r.prefix ≡ true
        → length r.prefix ≤ length b.prefix)

abbrev IsBest : Str → List PrefixRule → Option PrefixRule → Type 0
IsBest key rs none = (r : PrefixRule) → Memᴰ r rs → has_prefix key r.prefix ≡ false
IsBest key rs (some b) = IsMax key rs b

module _ (key : Str) where
  skip :
      (r : PrefixRule) (rs : List PrefixRule) (o : Option PrefixRule)
      → has_prefix key r.prefix ≡ false
      → IsBest key rs o
      → IsBest key (r ∷ rs) o
  skip r rs none h k = unmatched
    where
      unmatched : (q : PrefixRule) → Memᴰ q (r ∷ rs) → has_prefix key q.prefix ≡ false
      unmatched q (Memᴰ.head e) = ground arith
      unmatched q (Memᴰ.tail m) = k q m
  skip r rs (some b) h (m, hit, top) = (Memᴰ.tail m, hit, above)
    where
      above :
          (q : PrefixRule)
          → Memᴰ q (r ∷ rs)
          → has_prefix key q.prefix ≡ true
          → length q.prefix ≤ length b.prefix
      above q (Memᴰ.head e) g = absurd (ground arith)
      above q (Memᴰ.tail n) g = top q n g

  first-IsMax :
      (r : PrefixRule) (rs : List PrefixRule)
      → has_prefix key r.prefix ≡ true
      → ((q : PrefixRule)
          → Memᴰ q rs
          → has_prefix key q.prefix ≡ true
          → length q.prefix ≤ length r.prefix)
      → IsMax key (r ∷ rs) r
  first-IsMax r rs h top = (Memᴰ.head refl, h, above)
    where
      above :
          (q : PrefixRule)
          → Memᴰ q (r ∷ rs)
          → has_prefix key q.prefix ≡ true
          → length q.prefix ≤ length r.prefix
      above q (Memᴰ.head e) g = ground arith
      above q (Memᴰ.tail n) g = top q n g

  find?-IsBest :
      (rs : List PrefixRule)
      → Ordered longer rs
      → IsBest key rs (find? (λ r. has_prefix key r.prefix) rs)
  find?-IsBest [] s = λ q m. absurd (Memᴰ.not-nil m)
  find?-IsBest (r ∷ rs) s = elim (Bool-cases (has_prefix key r.prefix)) [
    | inl e ↦
        rw e (first-IsMax r rs e (λ q m g. ordered q (All-mem (λ q. longer q r ≡ false) s.0 m)))
    | inr e ↦ rw e (skip r rs (find? (λ r. has_prefix key r.prefix) rs) e (find?-IsBest rs s.1))
  ]
    where
      ordered : (q : PrefixRule) → longer q r ≡ false → length q.prefix ≤ length r.prefix
      ordered q h = ground arith

  keep_longer-IsBest :
      (r : PrefixRule) (rs : List PrefixRule) (o : Option PrefixRule)
      → has_prefix key r.prefix ≡ true
      → IsBest key rs o
      → IsBest key (r ∷ rs) (keep_longer r o)
  keep_longer-IsBest r rs none h k =
      first-IsMax r rs h (λ q m g. absurd (false≢true (sym (k q m) ∙ g)))
  keep_longer-IsBest r rs (some b) h (m, hit, top) =
      elim (Bool-cases (ltb (length r.prefix) (length b.prefix))) [
        | inl e ↦ rw e (Memᴰ.tail m, hit, above (ground arith))
        | inr e ↦ rw e (first-IsMax r rs h (λ q n g. unshorter q (top q n g) e))
      ]
    where
      above :
          length r.prefix ≤ length b.prefix
          → (q : PrefixRule) → Memᴰ q (r ∷ rs)
          → has_prefix key q.prefix ≡ true
          → length q.prefix ≤ length b.prefix
      above le q (Memᴰ.head e) g = ground arith
      above le q (Memᴰ.tail n) g = top q n g

      unshorter :
          (q : PrefixRule)
          → length q.prefix ≤ length b.prefix
          → ltb (length r.prefix) (length b.prefix) ≡ false
          → length q.prefix ≤ length r.prefix
      unshorter q le e = ground arith

  longest-IsBest : (rs : List PrefixRule) → IsBest key rs (longest key rs)
  unfolding longest
  longest-IsBest [] = λ q m. absurd (Memᴰ.not-nil m)
  longest-IsBest (r ∷ rs) = elim (Bool-cases (has_prefix key r.prefix)) [
    | inl e ↦ rw e (keep_longer-IsBest r rs (longest key rs) e (longest-IsBest rs))
    | inr e ↦ rw e (skip r rs (longest key rs) e (longest-IsBest rs))
  ]

same_prefix : (p q a b : Str) → length p ≡ length q → p ++ a ≡ q ++ b → p ≡ q
same_prefix [] [] a b h e = refl
same_prefix [] (y ∷ q) a b h e = absurd (omega arith)
same_prefix (x ∷ p) [] a b h e = absurd (omega arith)
same_prefix (x ∷ p) (y ∷ q) a b h e = ground (arith, same_prefix p q a b)

prefixes_agree :
    (key : Str) (p q : Str)
    → has_prefix key p ≡ true
    → has_prefix key q ≡ true
    → length p ≡ length q
    → p ≡ q
prefixes_agree key p q h k e =
    let (a, pa) = append_of-has_prefix key p h in
    let (b, qb) = append_of-has_prefix key q k in same_prefix p q a b e (sym pa ∙ qb)

IsBest-unique :
    (key : Str) (xs ys : List PrefixRule)
    → Permᴰ xs ys
    → Distinct xs
    → (o o' : Option PrefixRule) → IsBest key xs o
    → IsBest key ys o'
    → o ≡ o'
IsBest-unique key xs ys p d none none h k = refl
IsBest-unique key xs ys p d none (some b) h (m, hit, top) =
    absurd (false≢true (sym (h b (mem-perm (Permᴰ.symm p) m)) ∙ hit))
IsBest-unique key xs ys p d (some a) none (m, hit, top) k =
    absurd (false≢true (sym (k a (mem-perm p m)) ∙ hit))
IsBest-unique key xs ys p d (some a) (some b) (m, hit, top) (n, hit', top') =
    let back = mem-perm (Permᴰ.symm p) n in
    ap some (
      d a b m back (
        prefixes_agree key a.prefix b.prefix hit hit'
          (le_antisymm (top' a (mem-perm p m) hit) (top b back hit'))))

-- The first match in the sorted rules is the longest match of the rules as they were read.
pub find?-sort :
    (sorter : Sorter PrefixRule) (key : Str) (rs : List PrefixRule)
    → Distinct rs
    → find? (λ r. has_prefix key r.prefix) (sorter.sort longer rs) ≡ longest key rs
find?-sort sorter key rs d =
    let sorted = sorter.sort longer rs in
    sym (
      IsBest-unique key rs sorted (sorter.sort-perm longer rs) d (longest key rs)
        (find? (λ r. has_prefix key r.prefix) sorted) (longest-IsBest key rs)
        (find?-IsBest key sorted (sorter.sort-Ordered longer rs longer-IsStrictWeak)))

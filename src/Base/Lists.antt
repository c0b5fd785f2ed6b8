-- ===== src/Base/Lists.antt =====
-- Lists measured by native numbers, predicates on lists, and what the components share about them.
use Prim.Native.Nat.{ℕ, zero, suc, ◌+◌, ◌≤◌, ◌<◌}
use mathlib.Core.Path.{◌≡◌, refl, sym, subst, ap, ◌∙◌}
use mathlib.Core.Bool.{Bool, true, false, ◌&&◌, ◌||◌}
use mathlib.Core.Option.{Option, none, some}
use mathlib.Core.List.{List, [], ◌∷◌, ◌++◌, map}
use mathlib.Core.List.{Memᴰ, Permᴰ}
use mathlib.Core.List.Permᴰ
use mathlib.Core.List.Memᴰ
use native.Mathlib.Omega.{arith}
use secret_control_panel.Base.Tests.{if◌then◌else◌}

module _ {ℓ} {A : Type ℓ} where
  abbrev pub length : List A → ℕ
  length [] = 0
  length (x ∷ xs) = suc (length xs)

  abbrev pub take : ℕ → List A → List A
  take zero xs = []
  take (suc n) [] = []
  take (suc n) (x ∷ xs) = x ∷ take n xs

  abbrev pub any : (A → Bool) → List A → Bool
  any p [] = false
  any p (x ∷ xs) = p x || any p xs

  abbrev pub all : (A → Bool) → List A → Bool
  all p [] = true
  all p (x ∷ xs) = p x && all p xs

  -- The elements that pass the test, in order.
  abbrev pub filter : (A → Bool) → List A → List A
  filter p [] = []
  filter p (x ∷ xs) = if p x then x ∷ filter p xs else filter p xs

  -- The first element that passes the test.
  abbrev pub find? : (A → Bool) → List A → Option A
  find? p [] = none
  find? p (x ∷ xs) = if p x then some x else find? p xs

  abbrev pub All {κ} : (A → Type κ) → List A → Type κ
  All P [] = Unit
  All P (x ∷ xs) = P x × All P xs

  pub length-append : (xs ys : List A) → length (xs ++ ys) ≡ length xs + length ys
  length-append [] ys = omega arith
  length-append (x ∷ xs) ys = omega (arith, length-append xs ys)

module _ {ℓ κ} {A : Type ℓ} (P : A → Type κ) where
  pub All-append : (xs ys : List A) → All P xs → All P ys → All P (xs ++ ys)
  All-append [] ys h k = k
  All-append (x ∷ xs) ys h k = (h.0, All-append xs ys h.1 k)

  pub All-mem : {a : A} {xs : List A} → All P xs → Memᴰ a xs → P a
  All-mem h (Memᴰ.head e) = subst P (sym e) h.0
  All-mem h (Memᴰ.tail m) = All-mem h.1 m

  pub All-of-mem : (xs : List A) → ((a : A) → Memᴰ a xs → P a) → All P xs
  All-of-mem [] h = tt
  All-of-mem (x ∷ xs) h = (h x (Memᴰ.head refl), All-of-mem xs (λ a m. h a (Memᴰ.tail m)))

  pub All-perm : {xs ys : List A} → Permᴰ xs ys → All P xs → All P ys
  All-perm Permᴰ.nil h = tt
  All-perm (Permᴰ.cons e p) h = (subst P e h.0, All-perm p h.1)
  All-perm (Permᴰ.swap e f) h = (subst P f h.1.0, (subst P e h.0, h.1.1))
  All-perm (Permᴰ.trans p q) h = All-perm q (All-perm p h)

module _ {ℓ} {A : Type ℓ} where
  pub mem-perm : {a : A} {xs ys : List A} → Permᴰ xs ys → Memᴰ a xs → Memᴰ a ys
  mem-perm {a} {xs} {ys} p m =
      All-mem (λ b. Memᴰ b ys)
        (All-perm (λ b. Memᴰ b ys) (Permᴰ.symm p) (All-of-mem (λ b. Memᴰ b ys) ys (λ b n. n))) m

module _ {ℓ κ} {A : Type ℓ} (P : A → Type κ) where
  pub All-take : (n : ℕ) (xs : List A) → All P xs → All P (take n xs)
  All-take zero xs h = tt
  All-take (suc n) [] h = tt
  All-take (suc n) (x ∷ xs) h = (h.0, All-take n xs h.1)

module _ {ℓ κ μ} {A : Type ℓ} {B : Type κ} (P : B → Type μ) where
  pub All-map : (f : A → B) (xs : List A) → All (λ x. P (f x)) xs → All P (map f xs)
  All-map f [] h = tt
  All-map f (x ∷ xs) h = (h.0, All-map f xs h.1)

module _ {ℓ} {A : Type ℓ} where
  pub mem-filter :
      (p : A → Bool) (xs : List A) {a : A} → Memᴰ a xs → p a ≡ true → Memᴰ a (filter p xs)
  mem-filter p [] m h = absurd (Memᴰ.not-nil m)
  mem-filter p (x ∷ xs) {a} m h = by_test (p x) refl m (λ k. mem-filter p xs {a = a} k h)
    where
      by_test :
          (b : Bool)
          → p x ≡ b
          → Memᴰ a (x ∷ xs)
          → (Memᴰ a xs → Memᴰ a (filter p xs))
          → Memᴰ a (if b then x ∷ filter p xs else filter p xs)
      by_test true e (Memᴰ.head f) rest = Memᴰ.head f
      by_test true e (Memᴰ.tail k) rest = Memᴰ.tail (rest k)
      by_test false e (Memᴰ.head f) rest = cc (ap p f, h)
      by_test false e (Memᴰ.tail k) rest = rest k

  pub mem_of-filter :
      (p : A → Bool) (xs : List A) {a : A} → Memᴰ a (filter p xs) → Memᴰ a xs × (p a ≡ true)
  mem_of-filter p [] m = absurd (Memᴰ.not-nil m)
  mem_of-filter p (x ∷ xs) {a} m = by_test (p x) refl m (mem_of-filter p xs {a = a})
    where
      by_test :
          (b : Bool)
          → p x ≡ b
          → Memᴰ a (if b then x ∷ filter p xs else filter p xs)
          → (Memᴰ a (filter p xs) → Memᴰ a xs × (p a ≡ true))
          → Memᴰ a (x ∷ xs) × (p a ≡ true)
      by_test true e (Memᴰ.head f) rest = (Memᴰ.head f, subst (λ y. p y ≡ true) (sym f) e)
      by_test true e (Memᴰ.tail k) rest = let (i, j) = rest k in (Memᴰ.tail i, j)
      by_test false e k rest = let (i, j) = rest k in (Memᴰ.tail i, j)

module _ {ℓ} {A : Type ℓ} (p : A → Bool) where
  pub length-filter-le : (xs : List A) → length (filter p xs) ≤ length xs
  length-filter-le [] = omega arith
  length-filter-le (x ∷ xs) = ground (arith, length-filter-le xs)

  -- Filtering shortens a list that holds an element which fails the test.
  pub length-filter-lt :
      (xs : List A) {a : A} → Memᴰ a xs → p a ≡ false → length (filter p xs) < length xs
  length-filter-lt [] m h = absurd (Memᴰ.not-nil m)
  length-filter-lt (x ∷ xs) {a} m h = by_place m (λ k. length-filter-lt xs {a = a} k h)
    where
      by_place :
          Memᴰ a (x ∷ xs)
          → (Memᴰ a xs → length (filter p xs) < length xs)
          → length (if p x then x ∷ filter p xs else filter p xs) < suc (length xs)
      by_place (Memᴰ.head e) rest = ground (arith, length-filter-le xs, ap p e)
      by_place (Memᴰ.tail k) rest = ground (arith, rest k)

pub length-perm {ℓ} : {A : Type ℓ} {xs ys : List A} → Permᴰ xs ys → length xs ≡ length ys
length-perm Permᴰ.nil = refl
length-perm (Permᴰ.cons e p) = ap suc (length-perm p)
length-perm (Permᴰ.swap e f) = refl
length-perm (Permᴰ.trans p q) = length-perm p ∙ length-perm q

pub length-map {ℓ κ} :
    {A : Type ℓ} {B : Type κ} (f : A → B) (xs : List A) → length (map f xs) ≡ length xs
length-map f [] = refl
length-map f (x ∷ xs) = ap suc (length-map f xs)

pub mem_last {ℓ} : {A : Type ℓ} (xs : List A) (a : A) → Memᴰ a (xs ++ a ∷ [])
mem_last [] a = Memᴰ.head refl
mem_last (x ∷ xs) a = Memᴰ.tail (mem_last xs a)

pub mem_appended {ℓ} :
    {A : Type ℓ} {a : A} {xs : List A} (ys : List A) → Memᴰ a xs → Memᴰ a (xs ++ ys)
mem_appended ys (Memᴰ.head e) = Memᴰ.head e
mem_appended ys (Memᴰ.tail m) = Memᴰ.tail (mem_appended ys m)

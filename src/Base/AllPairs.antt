-- ===== src/Base/AllPairs.antt =====
-- A relation between every element of a list and each behind it.
use Prim.Native.Nat.{ℕ, zero, suc}
use mathlib.Core.Path.{◌≡◌, sym, subst, ap, ◌∙◌}
use mathlib.Core.Logic.{◌≢◌}
use mathlib.Core.Bool.{Bool, true, false}
use mathlib.Core.List.{List, [], ◌∷◌, ◌++◌, map, Memᴰ, Permᴰ}
use secret_control_panel.Base.Tests.{if◌then◌else◌}
use secret_control_panel.Base.Lists.{
  All, All-append, All-perm, All-take, All-of-mem, All-mem, filter, take, mem_of-filter,
}

abbrev pub Pairs {ℓ κ} : {A : Type ℓ} → (A → A → Type κ) → List A → Type κ
Pairs R [] = Unit
Pairs R (x ∷ xs) = All (R x) xs × Pairs R xs

module _ {ℓ κ} {A : Type ℓ} (R : A → A → Type κ) where
  pub Pairs-take : (n : ℕ) (xs : List A) → Pairs R xs → Pairs R (take n xs)
  Pairs-take zero xs h = tt
  Pairs-take (suc n) [] h = tt
  Pairs-take (suc n) (x ∷ xs) h = (All-take (R x) n xs h.0, Pairs-take n xs h.1)

  pub Pairs-filter : (p : A → Bool) (xs : List A) → Pairs R xs → Pairs R (filter p xs)
  Pairs-filter p [] h = tt
  Pairs-filter p (x ∷ xs) h = by_test (p x) (Pairs-filter p xs h.1)
    where
      by_test :
          (b : Bool) → Pairs R (filter p xs) → Pairs R (if b then x ∷ filter p xs else filter p xs)
      by_test true rest =
          (All-of-mem (R x) (filter p xs) (λ a m. All-mem (R x) h.0 (mem_of-filter p xs m).0), rest)
      by_test false rest = rest

module _ {ℓ κ} {A : Type ℓ} (R : A → A → Type κ) (flip : (x y : A) → R x y → R y x) where
  pub Pairs-perm : {xs ys : List A} → Permᴰ xs ys → Pairs R xs → Pairs R ys
  Pairs-perm Permᴰ.nil h = tt
  Pairs-perm (Permᴰ.cons {b = b} {l₁ = k} e p) h =
      (All-perm (R b) p (subst (λ t. All (R t) k) e h.0), Pairs-perm p h.1)
  Pairs-perm (Permᴰ.swap {a = a} {b = b} {b' = b'} {l = l} e f) h = (
    (subst (λ t. R t b') f (subst (R b) e (flip a b h.0.0)), subst (λ t. All (R t) l) f h.1.0),
    (subst (λ t. All (R t) l) e h.0.1, h.1.1),
  )
  Pairs-perm (Permᴰ.trans p q) h = Pairs-perm q (Pairs-perm p h)

module _ {ℓ κ μ} {A : Type ℓ} {B : Type κ} (R : B → B → Type μ) (f : A → B) where
  Alls-map : (x : A) (xs : List A) → All (λ y. R (f x) (f y)) xs → All (R (f x)) (map f xs)
  Alls-map x [] h = tt
  Alls-map x (y ∷ ys) h = (h.0, Alls-map x ys h.1)

  pub Pairs-map : (xs : List A) → Pairs (λ x y. R (f x) (f y)) xs → Pairs R (map f xs)
  Pairs-map [] h = tt
  Pairs-map (x ∷ xs) h = (Alls-map x xs h.0, Pairs-map xs h.1)

  Alls-unmap : (x : A) (xs : List A) → All (R (f x)) (map f xs) → All (λ y. R (f x) (f y)) xs
  Alls-unmap x [] h = tt
  Alls-unmap x (y ∷ ys) h = (h.0, Alls-unmap x ys h.1)

  pub Pairs-of-map : (xs : List A) → Pairs R (map f xs) → Pairs (λ x y. R (f x) (f y)) xs
  Pairs-of-map [] h = tt
  Pairs-of-map (x ∷ xs) h = (Alls-unmap x xs h.0, Pairs-of-map xs h.1)

-- Where no two elements of a list agree on `f`, two members that agree are one.
pub Pairs-eq {ℓ κ} :
    {A : Type ℓ} {B : Type κ} (f : A → B) (xs : List A)
    → Pairs (λ x y. f x ≢ f y) xs
    → (a b : A) → Memᴰ a xs
    → Memᴰ b xs
    → f a ≡ f b
    → a ≡ b
Pairs-eq f [] h a b m n k = elim m [ ]
Pairs-eq f (x ∷ xs) h a b (Memᴰ.head e) (Memᴰ.head g) k = e ∙ sym g
Pairs-eq f (x ∷ xs) h a b (Memᴰ.head e) (Memᴰ.tail n) k =
    absurd (All-mem (λ y. f x ≢ f y) h.0 n (ap f (sym e) ∙ k))
Pairs-eq f (x ∷ xs) h a b (Memᴰ.tail m) (Memᴰ.head g) k =
    absurd (All-mem (λ y. f x ≢ f y) h.0 m (ap f (sym g) ∙ sym k))
Pairs-eq f (x ∷ xs) h a b (Memᴰ.tail m) (Memᴰ.tail n) k = Pairs-eq f xs h.1 a b m n k

module _ {ℓ κ} {A : Type ℓ} (R : A → A → Type κ) where
  pub Pairs-append-one :
      (xs : List A) (y : A) → Pairs R xs → All (λ x. R x y) xs → Pairs R (xs ++ y ∷ [])
  Pairs-append-one [] y p h = (tt, tt)
  Pairs-append-one (x ∷ xs) y (q, p) (r, h) =
      (All-append (R x) xs (y ∷ []) q (r, tt), Pairs-append-one xs y p h)

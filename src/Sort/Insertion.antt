-- ===== src/Sort/Insertion.antt =====
-- Insertion sort, which sort.Slice uses on short slices, is a `Sorter`.
use mathlib.Core.List.Permᴰ
use secret_control_panel.Base.{
  if◌then◌else◌, Bool-cases, nat_eq, All-mem, All-of-mem, All-perm, ◌≡◌, refl, inl, inr, Bool,
  false, List, [], ◌∷◌, Permᴰ,
}
use secret_control_panel.Sort.{IsStrictWeak, Ordered, Sorter}

module _ {ℓ} {A : Type ℓ} (less : A → A → Bool) where
  unfoldable pub insert : A → List A → List A
  insert x [] = x ∷ []
  insert x (y ∷ ys) = if less y x then y ∷ insert x ys else x ∷ y ∷ ys

  unfoldable pub insertion_sort : List A → List A
  unfolding insert
  insertion_sort [] = []
  insertion_sort (x ∷ xs) = insert x (insertion_sort xs)

  insert-perm : (x : A) (ys : List A) → Permᴰ (x ∷ ys) (insert x ys)
  unfolding insert
  insert-perm x [] = Permᴰ.refl (x ∷ [])
  insert-perm x (y ∷ ys) = elim (Bool-cases (less y x)) [
    | inl e ↦
        rw e (
          Permᴰ.trans (Permᴰ.swap {a' = y} {b' = x} refl refl) (Permᴰ.cons refl (insert-perm x ys)))
    | inr e ↦ rw e (Permᴰ.refl (x ∷ y ∷ ys))
  ]

  pub insertion_sort-perm : (xs : List A) → Permᴰ xs (insertion_sort xs)
  unfolding insertion_sort
  insertion_sort-perm [] = Permᴰ.nil
  insertion_sort-perm (x ∷ xs) =
      Permᴰ.trans (Permᴰ.cons refl (insertion_sort-perm xs)) (insert-perm x (insertion_sort xs))

  insert-Ordered :
      IsStrictWeak less → (x : A) (ys : List A) → Ordered less ys → Ordered less (insert x ys)
  unfolding insert
  insert-Ordered w x [] h = (tt, tt)
  insert-Ordered w x (y ∷ ys) h = elim (Bool-cases (less y x)) [
    | inl e ↦ rw e (
      All-perm (λ z. less z y ≡ false) (insert-perm x ys) (w.asymm y x e, h.0),
      insert-Ordered w x ys h.1,
    )
    | inr e ↦ rw e (
      (
        e,
        All-of-mem (λ z. less z x ≡ false) ys
            (λ z m. w.neg_trans x y z e (All-mem (λ z. less z y ≡ false) h.0 m)),
      ),
      h,
    )
  ]

  pub insertion_sort-Ordered : IsStrictWeak less → (xs : List A) → Ordered less (insertion_sort xs)
  unfolding insertion_sort
  insertion_sort-Ordered w [] = tt
  insertion_sort-Ordered w (x ∷ xs) =
      insert-Ordered w x (insertion_sort xs) (insertion_sort-Ordered w xs)

abbrev pub insertion {ℓ} : {A : Type ℓ} → Sorter A
insertion = record {
  sort = insertion_sort;
  sort-perm = insertion_sort-perm;
  sort-Ordered = λ less xs w. insertion_sort-Ordered less w xs;
}

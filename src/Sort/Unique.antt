-- ===== src/Sort/Unique.antt =====
-- What a sort promises fixes its result, as far as the order tells elements apart.
use mathlib.Core.Path.{ap₂}
use mathlib.Core.Logic.{∥∥₁_elim}
use mathlib.Core.List.{Perm}
use mathlib.Core.List.Perm
use mathlib.Core.List.Permᴰ
use secret_control_panel.Base.{
  nat_eq, All-mem, mem-perm, ◌≡◌, refl, sym, subst, Bool, false, List, [], ◌∷◌, Memᴰ, Permᴰ,
}
use secret_control_panel.Sort.{Ordered}

module _ {ℓ} {K : Type ℓ} (K_set : IsSet K) (less : K → K → Bool)
    (irrefl : (a : K) → less a a ≡ false)
    (connex : (a b : K) → less a b ≡ false → less b a ≡ false → a ≡ b) where
  -- Nothing is less than the head of an ordered list.
  least : (a : K) (l : List K) → Ordered less (a ∷ l) → (b : K) → Memᴰ b (a ∷ l) → less b a ≡ false
  least a l h b (Memᴰ.head e) = subst (λ x. less x a ≡ false) (sym e) (irrefl a)
  least a l h b (Memᴰ.tail m) = All-mem (λ y. less y a ≡ false) h.0 m

  heads :
      (a b : K) (l r : List K)
      → Ordered less (a ∷ l)
      → Ordered less (b ∷ r)
      → Permᴰ (a ∷ l) (b ∷ r)
      → a ≡ b
  heads a b l r h k p =
      connex a b (least b r k a (mem-perm p (Memᴰ.head refl)))
        (least a l h b (mem-perm (Permᴰ.symm p) (Memᴰ.head refl)))

  unique_of_perm : (xs ys : List K) → Ordered less xs → Ordered less ys → Perm xs ys → xs ≡ ys
  unique_of_perm [] ys h k p = Perm.nil-eq p
  unique_of_perm (a ∷ l) [] h k p = Perm.eq-nil p
  unique_of_perm (a ∷ l) (b ∷ r) h k p =
      let same : a ≡ b = ∥∥₁_elim p (K_set a b) (heads a b l r h k) in
      let tails = Perm.cons_inv (Perm.trans p (Perm.symm (Perm.cons' same Perm.rfl))) in
      ap₂ ◌∷◌ same (unique_of_perm l r h.1 k.1 tails)

  -- Two ordered lists with the same elements are one.
  pub Ordered-unique : (xs ys : List K) → Ordered less xs → Ordered less ys → Permᴰ xs ys → xs ≡ ys
  Ordered-unique xs ys h k p = unique_of_perm xs ys h k ∣ p ∣₁

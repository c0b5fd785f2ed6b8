-- ===== src/Text/Cut.antt =====
-- What `cut_prefix` and `cut_suffix` of Text find.
use mathlib.Core.List.{reverse-append, reverse-reverse}
use secret_control_panel.Base.{
  Option-cases, nat_eq, ℕ, ◌+◌, ◌≡◌, refl, sym, ap, ◌∙◌, inl, inr, true, some, [], ◌∷◌, ◌++◌,
  reverse, arith,
}
use secret_control_panel.Text.{
  Str, cut_prefix, has_prefix, trim_prefix, cut_suffix, has_suffix, trim_suffix, count,
}

pub cut_prefix-append : (p r : Str) → cut_prefix (p ++ r) p ≡ some r
unfolding cut_prefix
cut_prefix-append [] [] = refl
cut_prefix-append [] (x ∷ r) = refl
cut_prefix-append (c ∷ p) r = ground (arith, cut_prefix-append p r)

pub append_of-cut_prefix : (s p : Str) {r : Str} → cut_prefix s p ≡ some r → s ≡ p ++ r
unfolding cut_prefix
append_of-cut_prefix [] [] h = ground arith
append_of-cut_prefix (x ∷ s) [] h = ground arith
append_of-cut_prefix [] (c ∷ p) h = cc
append_of-cut_prefix (x ∷ s) (c ∷ p) {r} h = ground (arith, append_of-cut_prefix s p {r = r})

-- A text begins with `p` exactly when it is `p` and a rest.
pub has_prefix-append : (p r : Str) → has_prefix (p ++ r) p ≡ true
unfolding has_prefix
has_prefix-append p r = rw (cut_prefix-append p r)

pub append_of-has_prefix : (s p : Str) → has_prefix s p ≡ true → (r : Str) × (s ≡ p ++ r)
unfolding has_prefix
append_of-has_prefix s p h = elim (Option-cases (cut_prefix s p)) [
  | inl e ↦ absurd (ground arith)
  | inr (r, e) ↦ (r, append_of-cut_prefix s p e)
]

pub trim_prefix-append : (p r : Str) → trim_prefix (p ++ r) p ≡ r
unfolding trim_prefix
trim_prefix-append p r = rw (cut_prefix-append p r)

pub cut_suffix-append : (r p : Str) → cut_suffix (r ++ p) p ≡ some r
unfolding cut_suffix
cut_suffix-append r p =
    rw (reverse-append r p, cut_prefix-append (reverse p) (reverse r)) (ap some (reverse-reverse r))

pub append_of-cut_suffix : (s p : Str) {r : Str} → cut_suffix s p ≡ some r → s ≡ r ++ p
unfolding cut_suffix
append_of-cut_suffix s p {r} h = elim (Option-cases (cut_prefix (reverse s) (reverse p))) [
  | inl e ↦ absurd (ground arith)
  | inr (t, e) ↦
      let found : r ≡ reverse t = ground arith in
      let whole : s ≡ reverse (reverse p ++ t) =
        sym (reverse-reverse s) ∙ ap reverse (append_of-cut_prefix (reverse s) (reverse p) e) in
      whole ∙ rw (reverse-append (reverse p) t, reverse-reverse p, found) refl
]

pub append_of-has_suffix : (s p : Str) → has_suffix s p ≡ true → (r : Str) × (s ≡ r ++ p)
unfolding has_suffix
append_of-has_suffix s p h = elim (Option-cases (cut_suffix s p)) [
  | inl e ↦ absurd (ground arith)
  | inr (r, e) ↦ (r, append_of-cut_suffix s p e)
]

pub has_suffix-append : (r p : Str) → has_suffix (r ++ p) p ≡ true
unfolding has_suffix
has_suffix-append r p = rw (cut_suffix-append r p)

pub trim_suffix-append : (r p : Str) → trim_suffix (r ++ p) p ≡ r
unfolding trim_suffix
trim_suffix-append r p = rw (cut_suffix-append r p)

pub count-append : (s t : Str) (c : ℕ) → count (s ++ t) c ≡ count s c + count t c
unfolding count
count-append [] t c = omega arith
count-append (x ∷ s) t c = ground (arith, count-append s t c)

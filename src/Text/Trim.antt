-- ===== src/Text/Trim.antt =====
-- What `trim` of Text leaves: a text with no `c` at either end, and all that stood between.
use mathlib.Core.List.{reverse-append, reverse-reverse, reverse-cons}
use secret_control_panel.Base.{
  Bool-cases, ◌==◌, nat_eq, eq_iff, ne_of_beq, beq_of_ne, All, ℕ, ◌≡◌, refl, sym, ap, subst, ◌∙◌,
  ◌≢◌, inl, inr, [], ◌∷◌, ◌++◌, reverse,
}
use secret_control_panel.Text.{Str, trim_left, trim_right, trim}

-- The text does not begin with `c`.
abbrev pub NoHead : ℕ → Str → Type 0
NoHead c [] = Unit
NoHead c (x ∷ s) = x ≢ c

-- The text neither begins nor ends with `c`.
abbrev pub NoEdge : ℕ → Str → Type 0
NoEdge c s = NoHead c s × NoHead c (reverse s)

-- The text is made of `c` alone.
abbrev pub Only : ℕ → Str → Type 0
Only c = All (λ x. x ≡ c)

NoHead-left : (c : ℕ) (s t : Str) → NoHead c (s ++ t) → NoHead c s
NoHead-left c [] t h = tt
NoHead-left c (x ∷ s) t h = h

pub NoHead-append : (c : ℕ) (s t : Str) → s ≢ [] → NoHead c s → NoHead c (s ++ t)
NoHead-append c [] t n h = absurd (n refl)
NoHead-append c (x ∷ s) t n h = h

trim_left-NoHead : (s : Str) (c : ℕ) → NoHead c (trim_left s c)
unfolding trim_left
trim_left-NoHead [] c = tt
trim_left-NoHead (x ∷ s) c = elim (Bool-cases (x == c)) [
  | inl e ↦ rw e (trim_left-NoHead s c)
  | inr e ↦ rw e (ne_of_beq x c e)
]

trim_left_of-NoHead : (s : Str) (c : ℕ) → NoHead c s → trim_left s c ≡ s
unfolding trim_left
trim_left_of-NoHead [] c h = refl
trim_left_of-NoHead (x ∷ s) c h = rw (beq_of_ne x c h)

trim_left_split : (s : Str) (c : ℕ) → (pre : Str) × Only c pre × (s ≡ pre ++ trim_left s c)
unfolding trim_left
trim_left_split [] c = ([], tt, refl)
trim_left_split (x ∷ s) c = elim (Bool-cases (x == c)) [
  | inl e ↦
      let (pre, only, eq) = trim_left_split s c in
      (x ∷ pre, ((eq_iff x c).0 e, only), rw e (ap (◌∷◌ x) eq))
  | inr e ↦ ([], tt, rw e)
]

Only-append : (c : ℕ) (s t : Str) → Only c s → Only c t → Only c (s ++ t)
Only-append c [] t h k = k
Only-append c (x ∷ s) t h k = (h.0, Only-append c s t h.1 k)

Only-reverse : (c : ℕ) (s : Str) → Only c s → Only c (reverse s)
Only-reverse c [] h = tt
Only-reverse c (x ∷ s) h =
    rw (reverse-cons x s) (Only-append c (reverse s) (x ∷ []) (Only-reverse c s h.1) (h.0, tt))

trim_right_split : (s : Str) (c : ℕ) → (post : Str) × Only c post × (s ≡ trim_right s c ++ post)
unfolding trim_right
trim_right_split s c =
    let (pre, only, eq) = trim_left_split (reverse s) c in
    (
      reverse pre,
      Only-reverse c pre only,
      sym (reverse-reverse s) ∙ ap reverse eq ∙ reverse-append pre (trim_left (reverse s) c),
    )

-- Trimming takes bytes `c` off the two ends and nothing else.
pub trim_split :
    (s : Str) (c : ℕ)
    → (pre post : Str) × Only c pre × Only c post × (s ≡ pre ++ (trim s c ++ post))
unfolding trim
trim_split s c =
    let (pre, only, eq) = trim_left_split s c in
    let (post, only', eq') = trim_right_split (trim_left s c) c in
    (pre, post, only, only', eq ∙ ap (◌++◌ pre) eq')

pub trim-NoEdge : (s : Str) (c : ℕ) → NoEdge c (trim s c)
unfolding trim
trim-NoEdge s c = (
  NoHead-left c (trim_right (trim_left s c) c) (trim_right_split (trim_left s c) c).0
      (subst (NoHead c) (trim_right_split (trim_left s c) c).2 (trim_left-NoHead s c)),
  unfold trim_right in
      rw (reverse-reverse (trim_left (reverse (trim_left s c)) c))
        (trim_left-NoHead (reverse (trim_left s c)) c),
)

-- A text with no `c` at either end is left as it is.
pub trim_of-NoEdge : (s : Str) (c : ℕ) → NoEdge c s → trim s c ≡ s
unfolding trim trim_right
trim_of-NoEdge s c h =
    rw (trim_left_of-NoHead s c h.0, trim_left_of-NoHead (reverse s) c h.1) (reverse-reverse s)

pub trim_idem : (s : Str) (c : ℕ) → trim (trim s c) c ≡ trim s c
trim_idem s c = trim_of-NoEdge (trim s c) c (trim-NoEdge s c)

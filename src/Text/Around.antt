-- ===== src/Text/Around.antt =====
-- What a text with white space or bytes `c` around it is trimmed to.
use mathlib.Core.List.{reverse-append, reverse-reverse, reverse-cons}
use secret_control_panel.Base.{
  leb, nat_eq, eq_iff, beq_of_ne, length, all, All, length-append, All-append, ℕ, zero, suc, ◌≤◌,
  ◌<◌, ◌≡◌, refl, ◌≢◌, ◌⊎◌, inl, inr, Bool, true, false, ◌||◌, none, some, List, [], ◌∷◌, ◌++◌, map,
  reverse, arith,
}
use secret_control_panel.Text.{Str, cut_prefix, trim_left, trim_right, trim}
use secret_control_panel.Text.Space.{
  spaces, cut_any, trim_any, trim_left_space, trim_right_space, trim_space,
}
use secret_control_panel.Text.Trim.{NoHead, NoEdge, Only}

-- Space and tab.
abbrev pub IsBlank : ℕ → Type 0
IsBlank c = (c ≡ 32) ⊎ (c ≡ 9)

-- A byte of ASCII that can be seen.
abbrev pub IsGraphic : ℕ → Type 0
IsGraphic c = (32 < c) × (c < 127)

abbrev pub HasGraphicHead : Str → Type 0
HasGraphicHead [] = ⊥
HasGraphicHead (c ∷ s) = IsGraphic c

cut_prefix-other : (c p : ℕ) (s ps : Str) → c ≢ p → cut_prefix (c ∷ s) (p ∷ ps) ≡ none
unfolding cut_prefix
cut_prefix-other c p s ps h = rw (beq_of_ne c p h) refl

-- The text begins with none of the prefixes, by its first byte.
abbrev Differs : ℕ → Str → Type 0
Differs c [] = ⊥
Differs c (p ∷ ps) = c ≢ p

cut_any-none : (ps : List Str) (c : ℕ) (s : Str) → All (Differs c) ps → cut_any ps (c ∷ s) ≡ none
unfolding cut_any
cut_any-none [] c s h = refl
cut_any-none ([] ∷ ps) c s h = absurd h.0
cut_any-none ((p ∷ q) ∷ ps) c s h =
    rw (cut_prefix-other c p s q h.0, cut_any) (cut_any-none ps c s h.1)

far : (c p : ℕ) → IsGraphic c → (p ≤ 32) ⊎ (127 ≤ p) → c ≢ p
far c p h k e = omega (arith, h, k, e)

-- The first byte is no white space.
abbrev IsOutside : Str → Type 0
IsOutside [] = ⊥
IsOutside (p ∷ ps) = (p ≤ 32) ⊎ (127 ≤ p)

outside-Differs : (c : ℕ) (ps : List Str) → IsGraphic c → All IsOutside ps → All (Differs c) ps
outside-Differs c [] g h = tt
outside-Differs c ([] ∷ ps) g h = absurd h.0
outside-Differs c ((p ∷ q) ∷ ps) g h = (far c p g h.0, outside-Differs c ps g h.1)

abbrev is_outside : Str → Bool
is_outside [] = false
is_outside (p ∷ ps) = leb p 32 || leb 127 p

outside : (ps : List Str) → all is_outside ps ≡ true → All IsOutside ps
outside [] h = tt
outside ([] ∷ ps) h = absurd (ground arith)
outside ((p ∷ q) ∷ ps) h = (ground arith, outside ps (ground arith))

-- The blanks in front go, one at a time.
trim_any-blanks :
    (ps : List Str) (pre s : Str) (fuel : ℕ)
    → ((c : ℕ) (t : Str) → IsBlank c → cut_any ps (c ∷ t) ≡ some t)
    → All IsBlank pre
    → length pre ≤ fuel
    → cut_any ps s ≡ none
    → trim_any fuel ps (pre ++ s) ≡ s
unfolding trim_any
trim_any-blanks ps [] s zero cut h enough e = refl
trim_any-blanks ps [] s (suc fuel) cut h enough e = rw (e, trim_any) refl
trim_any-blanks ps (c ∷ pre) s zero cut h enough e = absurd (omega (arith, enough))
trim_any-blanks ps (c ∷ pre) s (suc fuel) cut h enough e =
    rw (cut c (pre ++ s) h.0, trim_any)
      (trim_any-blanks ps pre s fuel cut h.1 (omega (arith, enough)) e)

blank-cut : (c : ℕ) (t : Str) → IsBlank c → cut_any spaces (c ∷ t) ≡ some t
unfolding cut_any cut_prefix
blank-cut c t (inl e) = rw e refl
blank-cut c t (inr e) = rw e refl

blank-cut_reversed : (c : ℕ) (t : Str) → IsBlank c → cut_any (map reverse spaces) (c ∷ t) ≡ some t
unfolding cut_any cut_prefix
blank-cut_reversed c t (inl e) = rw e refl
blank-cut_reversed c t (inr e) = rw e refl

graphic-cut : (s : Str) → HasGraphicHead s → cut_any spaces s ≡ none
graphic-cut [] h = absurd h
graphic-cut (c ∷ s) h = cut_any-none spaces c s (outside-Differs c spaces h (outside spaces refl))

graphic-cut_reversed : (s : Str) → HasGraphicHead s → cut_any (map reverse spaces) s ≡ none
graphic-cut_reversed [] h = absurd h
graphic-cut_reversed (c ∷ s) h =
    cut_any-none (map reverse spaces) c s
      (outside-Differs c (map reverse spaces) h (outside (map reverse spaces) refl))

pub HasGraphicHead-append : (s t : Str) → HasGraphicHead s → HasGraphicHead (s ++ t)
HasGraphicHead-append [] t h = absurd h
HasGraphicHead-append (c ∷ s) t h = h

pub All-reverse : (P : ℕ → Type 0) (s : Str) → All P s → All P (reverse s)
All-reverse P [] h = tt
All-reverse P (c ∷ s) h =
    rw (reverse-cons c s) (All-append _ (reverse s) (c ∷ []) (All-reverse P s h.1) (h.0, tt))

-- Blanks around a text that begins and ends with a graphic byte are trimmed.
pub trim_space-around :
    (pre s post : Str)
    → All IsBlank pre
    → All IsBlank post
    → HasGraphicHead s
    → HasGraphicHead (reverse s)
    → trim_space (pre ++ (s ++ post)) ≡ s
unfolding trim_space trim_left_space trim_right_space
trim_space-around pre s post hp hq front back =
    rw
      (
        trim_any-blanks spaces pre (s ++ post) (length (pre ++ (s ++ post))) blank-cut hp
            (omega (arith, length-append pre (s ++ post)))
            (graphic-cut (s ++ post) (HasGraphicHead-append s post front)),
        reverse-append s post,
        trim_any-blanks (map reverse spaces) (reverse post) (reverse s) (length (s ++ post))
            blank-cut_reversed (All-reverse _ post hq)
            (omega (arith, length-append s post, length-reverse post))
            (graphic-cut_reversed (reverse s) back),
      )
      (reverse-reverse s)
  where
    length-reverse : (t : Str) → length (reverse t) ≡ length t
    length-reverse [] = refl
    length-reverse (c ∷ t) =
        rw (reverse-cons c t, length-append (reverse t) (c ∷ [])) (omega (arith, length-reverse t))

trim_left-around : (pre s : Str) (c : ℕ) → Only c pre → NoHead c s → trim_left (pre ++ s) c ≡ s
unfolding trim_left
trim_left-around [] [] c h k = refl
trim_left-around [] (x ∷ s) c h k = rw (beq_of_ne x c k) refl
trim_left-around (x ∷ pre) s c h k =
    rw ((eq_iff x c).1 h.0, trim_left) (trim_left-around pre s c h.1 k)

-- Bytes `c` around a text that has none at its ends are trimmed.
pub trim-around :
    (pre s post : Str) (c : ℕ)
    → Only c pre
    → Only c post
    → s ≢ []
    → NoEdge c s
    → trim (pre ++ (s ++ post)) c ≡ s
unfolding trim trim_right
trim-around pre s post c hp hq ne (front, back) =
    rw
      (
        trim_left-around pre (s ++ post) c hp (head_kept s ne front),
        reverse-append s post,
        trim_left-around (reverse post) (reverse s) c (All-reverse _ post hq) back,
      )
      (reverse-reverse s)
  where
    head_kept : (t : Str) → t ≢ [] → NoHead c t → NoHead c (t ++ post)
    head_kept [] n h = absurd (n refl)
    head_kept (x ∷ t) n h = h

-- ===== src/Text/Space.antt =====
-- strings.TrimSpace and strings.FieldsFunc. A text is the bytes of its UTF-8 encoding, so white space
-- is a list of byte sequences.
use secret_control_panel.Base.{
  Option-cases, nat_eq, length, All, length-append, ℕ, zero, suc, ◌≤◌, ◌<◌, ◌≡◌, refl, ap, ◌∙◌, ◌≢◌,
  inl, inr, Bool, true, false, Option, none, some, List, [], ◌∷◌, ◌++◌, map, reverse, arith,
}
use secret_control_panel.Text.{Str, cut_prefix, str_eq}
use secret_control_panel.Text.Cut.{append_of-cut_prefix}

-- The characters of unicode.IsSpace.
abbrev pub spaces : List Str
spaces =
    (9 ∷ [])
    ∷ (10 ∷ [])
    ∷ (11 ∷ [])
    ∷ (12 ∷ [])
    ∷ (13 ∷ [])
    ∷ (32 ∷ [])
    ∷ (0xc2 ∷ 0x85 ∷ [])
    ∷ (0xc2 ∷ 0xa0 ∷ [])
    ∷ (0xe1 ∷ 0x9a ∷ 0x80 ∷ [])
    ∷ (0xe2 ∷ 0x80 ∷ 0x80 ∷ [])
    ∷ (0xe2 ∷ 0x80 ∷ 0x81 ∷ [])
    ∷ (0xe2 ∷ 0x80 ∷ 0x82 ∷ [])
    ∷ (0xe2 ∷ 0x80 ∷ 0x83 ∷ [])
    ∷ (0xe2 ∷ 0x80 ∷ 0x84 ∷ [])
    ∷ (0xe2 ∷ 0x80 ∷ 0x85 ∷ [])
    ∷ (0xe2 ∷ 0x80 ∷ 0x86 ∷ [])
    ∷ (0xe2 ∷ 0x80 ∷ 0x87 ∷ [])
    ∷ (0xe2 ∷ 0x80 ∷ 0x88 ∷ [])
    ∷ (0xe2 ∷ 0x80 ∷ 0x89 ∷ [])
    ∷ (0xe2 ∷ 0x80 ∷ 0x8a ∷ [])
    ∷ (0xe2 ∷ 0x80 ∷ 0xa8 ∷ [])
    ∷ (0xe2 ∷ 0x80 ∷ 0xa9 ∷ [])
    ∷ (0xe2 ∷ 0x80 ∷ 0xaf ∷ [])
    ∷ (0xe2 ∷ 0x81 ∷ 0x9f ∷ [])
    ∷ (0xe3 ∷ 0x80 ∷ 0x80 ∷ [])
    ∷ []

-- What follows the first of the prefixes that the text begins with.
unfoldable pub cut_any : List Str → Str → Option Str
cut_any [] s = none
cut_any (p ∷ ps) s = elim (cut_prefix s p) [ some r ↦ some r | none ↦ cut_any ps s ]

-- The text without the prefixes at its front, one after the other.
unfoldable pub trim_any : ℕ → List Str → Str → Str
trim_any zero ps s = s
trim_any (suc fuel) ps s = elim (cut_any ps s) [ some r ↦ trim_any fuel ps r | none ↦ s ]

unfoldable pub trim_left_space : Str → Str
trim_left_space s = trim_any (length s) spaces s

unfoldable pub trim_right_space : Str → Str
trim_right_space s = reverse (trim_any (length s) (map reverse spaces) (reverse s))

unfoldable pub trim_space : Str → Str
trim_space s = trim_right_space (trim_left_space s)

abbrev pub emit : Str → List Str → List Str
emit [] fields = fields
emit (c ∷ field) fields = (c ∷ field) ∷ fields

-- The fields of the text, where `field` is the part of the first one that has been read.
unfoldable pub fields_from : (ℕ → Bool) → Str → Str → List Str
fields_from sep field [] = emit field []
fields_from sep field (c ∷ s) = elim (sep c) [
  | true ↦ emit field (fields_from sep [] s)
  | false ↦ fields_from sep (field ++ c ∷ []) s
]

unfoldable pub fields_func : (ℕ → Bool) → Str → List Str
fields_func sep s = fields_from sep [] s

-- A cut takes something away, so as many rounds as the text has bytes are enough.
cut_any-shorter :
    (ps : List Str) (s : Str) {r : Str}
    → All (λ p. p ≢ []) ps
    → cut_any ps s ≡ some r
    → length r < length s
unfolding cut_any
cut_any-shorter [] s full h = cc
cut_any-shorter (p ∷ ps) s {r} full h = by_first (cut_prefix s p) refl (cut_any-shorter ps s full.1)
  where
    longer_than : (q : Str) → q ≢ [] → s ≡ q ++ r → length r < length s
    longer_than [] ne e = absurd (ne refl)
    longer_than (c ∷ q) ne e = rw e (omega (arith, length-append q r))

    by_first :
        (o : Option Str)
        → cut_prefix s p ≡ o
        → (cut_any ps s ≡ some r → length r < length s)
        → length r < length s
    by_first none e later = later (ground arith)
    by_first (some t) e later =
        let same : t ≡ r = ground arith in
        longer_than p full.0 (append_of-cut_prefix s p (e ∙ ap some same))

pub cut_any-trim_any :
    (fuel : ℕ) (ps : List Str) (s : Str)
    → All (λ p. p ≢ []) ps
    → length s ≤ fuel
    → cut_any ps (trim_any fuel ps s) ≡ none
unfolding trim_any
cut_any-trim_any zero ps s full h = elim (Option-cases (cut_any ps s)) [
  | inl e ↦ e
  | inr (r, e) ↦ absurd (let less = cut_any-shorter ps s full e in omega arith)
]
cut_any-trim_any (suc fuel) ps s full h = by_cut (cut_any ps s) refl (cut_any-trim_any fuel ps)
  where
    by_cut :
        (o : Option Str)
        → cut_any ps s ≡ o
        → ((r : Str)
            → All (λ p. p ≢ []) ps
            → length r ≤ fuel
            → cut_any ps (trim_any fuel ps r) ≡ none)
        → cut_any ps (trim_any (suc fuel) ps s) ≡ none
    by_cut none e later = rw (e, trim_any) e
    by_cut (some r) e later =
        let less = cut_any-shorter ps s full e in rw (e, trim_any) (later r full (omega arith))

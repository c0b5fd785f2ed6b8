-- ===== src/Policy/Wildcard.antt =====
-- What parse_wildcard accepts.
use mathlib.Core.List.{append_assoc}
use secret_control_panel.Base.{
  Bool-cases, ◌==◌, nat_eq, ok, ℕ, ◌+◌, ◌≤◌, ◌≡◌, refl, sym, ap, ◌∙◌, ◌≢◌, ◌↔◌, ◌⊎◌, inl, inr, [],
  ◌∷◌, ◌++◌, arith,
}
use secret_control_panel.Text.{Str, codes, str_eq, count, has_suffix, trim_suffix}
use secret_control_panel.Text.Cut.{
  append_of-has_suffix, has_suffix-append, trim_suffix-append, count-append,
}
use secret_control_panel.Policy.{parse_wildcard}

-- `q` is what an accepted path `p` stands for: nothing for an exact key with no "*", and "<r>/" for
-- a path "<r>/*" with no other "*".
abbrev pub AcceptedAs : Str → Str → Type 0
AcceptedAs p q =
    ((count p b'*' ≡ 0) × (q ≡ []))
    ⊎ ((r : Str) × (count r b'*' ≡ 0) × (p ≡ r ++ codes "/*") × (q ≡ r ++ codes "/"))

count-starred : (r : Str) → count (r ++ codes "/*") b'*' ≡ count r b'*' + 1
count-starred r = count-append r (codes "/*") b'*' ∙ unfold count in refl

trimmed : (r : Str) → trim_suffix (r ++ codes "/*") (codes "*") ≡ r ++ codes "/"
trimmed r =
    rw (← append_assoc r (codes "/") (codes "*")) (trim_suffix-append (r ++ codes "/") (codes "*"))

parse_starred :
    (r : Str) → count r b'*' ≡ 0 → parse_wildcard (r ++ codes "/*") ≡ ok (r ++ codes "/")
unfolding parse_wildcard
parse_starred r h = rw (count-starred r, h, has_suffix-append r (codes "/*"), trimmed r)

pub parse_exact : (p : Str) → count p b'*' ≡ 0 → parse_wildcard p ≡ ok []
unfolding parse_wildcard
parse_exact p h = rw h

parse_accepts : (p q : Str) → parse_wildcard p ≡ ok q → AcceptedAs p q
unfolding parse_wildcard
parse_accepts p q h = elim (Bool-cases (count p b'*' == 0)) [
  | inl e ↦ inl (ground arith, ground arith)
  | inr e ↦ elim (Bool-cases (has_suffix p (codes "/*"))) [
    | inl f ↦
        let (r, whole) = append_of-has_suffix p (codes "/*") f in
        let few : count p b'*' ≤ 1 = ground arith in
        let alone : count r b'*' ≡ 0 =
          omega (arith, count-starred r, ap (λ t. count t b'*') whole) in
        let result : trim_suffix p (codes "*") ≡ q = ground arith in
        inr (r, alone, whole, sym result ∙ ap (λ t. trim_suffix t (codes "*")) whole ∙ trimmed r)
    | inr f ↦ absurd (ground arith)
  ]
]

-- parse_wildcard accepts a path with prefix `q` exactly when the path is an exact key with no "*"
-- and `q` is empty, or the path is "<r>/*" with no other "*" and `q` is "<r>/". So it refuses a
-- bare "*", an embedded "*", several "*" and a trailing "*" without "/".
pub parse_wildcard_iff : (p q : Str) → (parse_wildcard p ≡ ok q) ↔ AcceptedAs p q
parse_wildcard_iff p q = (parse_accepts p q, accepted)
  where
    accepted : AcceptedAs p q → parse_wildcard p ≡ ok q
    accepted (inl (h, e)) = parse_exact p h ∙ ap ok (sym e)
    accepted (inr (r, h, e, f)) = ap parse_wildcard e ∙ parse_starred r h ∙ ap ok (sym f)

slash_ne : (r : Str) → r ++ codes "/" ≢ []
slash_ne [] e = cc
slash_ne (x ∷ r) e = cc

-- The empty prefix is given to the paths with no "*" only.
pub parse-nil : (p : Str) → parse_wildcard p ≡ ok [] → count p b'*' ≡ 0
parse-nil p h = no_star ((parse_wildcard_iff p []).0 h)
  where
    no_star : AcceptedAs p [] → count p b'*' ≡ 0
    no_star (inl (z, _)) = z
    no_star (inr (r, _, _, e)) = absurd (slash_ne r (sym e))

pub parse-cons : (p q : Str) (c : ℕ) → parse_wildcard p ≡ ok (c ∷ q) → count p b'*' ≡ 1
parse-cons p q c h = starred ((parse_wildcard_iff p (c ∷ q)).0 h)
  where
    starred : AcceptedAs p (c ∷ q) → count p b'*' ≡ 1
    starred (inl (_, e)) = cc
    starred (inr (r, z, e, _)) = omega (arith, count-starred r, ap (λ t. count t b'*') e)

-- ===== src/Policy/Checks.antt =====
-- The checks that Load makes of a policy, and what its index knows of the policies before.
use mathlib.Core.List.{append_assoc}
use secret_control_panel.Base.{
  if◌then◌else◌, Bool-cases, Option-cases, is_some, ◌==◌, ◌!=◌, nat_eq, eq_iff, ne_of_beq,
  beq_of_ne, list_beq, length, any, all, Result, ok, err, ℕ, suc, ◌≡◌, refl, sym, ap, ◌∙◌, ◌↔◌, inl,
  inr, Bool, true, false, false≢true, not, ◌&&◌, ◌||◌, Option, none, some, List, [], ◌∷◌, ◌++◌,
  arith,
}
use secret_control_panel.Text.{Str, codes, str_eq, count}
use secret_control_panel.VaultPath.{normalize}
use secret_control_panel.Policy.{
  Policy, PrefixRule, Index, WildcardError, lookup, parse_wildcard, first_unnamed, add_rule,
  load_one,
}
use secret_control_panel.Policy.Wildcard.{AcceptedAs, parse_wildcard_iff, parse-nil, parse-cons}
use secret_control_panel.Policy.Loading.{Added, exact, wildcard, rule_of, lookup-append, or_else}

abbrev pub is_ok {ℓ} : {E A : Type ℓ} → Result E A → Bool
is_ok (ok a) = true
is_ok (err e) = false

-- A path, at least one cluster, no cluster without a name, and "*" at most as a trailing "/*".
abbrev pub well_formed : Policy → Bool
well_formed p =
    p.vault_path != []
    && not (length p.clusters == 0)
    && all (λ c. c != []) p.clusters
    && is_ok (parse_wildcard (normalize p.vault_path))

abbrev pub same_path : Policy → Policy → Bool
same_path p q = normalize p.vault_path == normalize q.vault_path

-- Every policy is well formed, and its path is not that of a policy before it, where `before` are
-- those before the list.
abbrev pub acceptable_after : List Policy → List Policy → Bool
acceptable_after before [] = true
acceptable_after before (p ∷ ps) =
    well_formed p && not (any (same_path p) before) && acceptable_after (p ∷ before) ps

abbrev pub acceptable : List Policy → Bool
acceptable = acceptable_after []

-- The check for a duplicate, by what the path stands for.
abbrev pub taken_as : Result WildcardError Str → Str → Index → Bool
taken_as (err e) path n = false
taken_as (ok []) path n = is_some (lookup path n.next_exact)
taken_as (ok (c ∷ q)) path n = any (λ s. s == c ∷ q) n.seen_prefix

abbrev pub taken : Policy → Index → Bool
taken p n = taken_as (parse_wildcard (normalize p.vault_path)) (normalize p.vault_path) n

first_unnamed-all :
    (j : ℕ) (cs : List Str) → is_some (first_unnamed j cs) ≡ not (all (λ c. c != []) cs)
unfolding first_unnamed
first_unnamed-all j [] = refl
first_unnamed-all j (c ∷ cs) = ground (arith, first_unnamed-all (suc j) cs)

module _ (i : ℕ) (p : Policy) (n : Index) where
  add_rule-is_ok :
      (o : Result WildcardError Str)
      → parse_wildcard (normalize p.vault_path) ≡ o
      → first_unnamed 0 p.clusters ≡ none
      → (p.vault_path == []) ≡ false
      → (length p.clusters == 0) ≡ false
      → is_ok (load_one i p n) ≡ (is_ok o && not (taken_as o (normalize p.vault_path) n))
  unfolding load_one add_rule list_beq
  add_rule-is_ok (err e) f a b c = rw (b, c, a, f)
  add_rule-is_ok (ok []) f a b c = rw (b, c, a, f) (ground arith)
  add_rule-is_ok (ok (x ∷ q)) f a b c = rw (b, c, a, f) (ground arith)

  pub load_one-is_ok : is_ok (load_one i p n) ≡ (well_formed p && not (taken p n))
  load_one-is_ok = elim (Bool-cases (p.vault_path == [])) [
    | inl b ↦ unfold load_one in rw b
    | inr b ↦ elim (Bool-cases (length p.clusters == 0)) [
      | inl c ↦ unfold load_one in rw (b, c)
      | inr c ↦ elim (Option-cases (first_unnamed 0 p.clusters)) [
        | inl a ↦
            let named : all (λ c. c != []) p.clusters ≡ true =
              let e = first_unnamed-all 0 p.clusters in ground arith in
            add_rule-is_ok (parse_wildcard (normalize p.vault_path)) refl a b c ∙ rw (b, c, named)
        | inr (j, a) ↦
            let unnamed : all (λ c. c != []) p.clusters ≡ false =
              let e = first_unnamed-all 0 p.clusters in ground arith in
            unfold load_one in rw (b, c, a, unnamed)
      ]
    ]
  ]

-- Two tests of equality agree where the equalities do.
beq_iff_beq : (a b c d : Str) → (a ≡ b) ↔ (c ≡ d) → (a == b) ≡ (c == d)
beq_iff_beq a b c d (f, g) = elim (Bool-cases (a == b)) [
  | inl h ↦ h ∙ sym ((eq_iff c d).1 (f ((eq_iff a b).0 h)))
  | inr h ↦ h ∙ sym (beq_of_ne c d (λ e. ne_of_beq a b h (g e)))
]

-- A wildcard path is its prefix and "*".
prefix-path : (s q : Str) (c : ℕ) → parse_wildcard s ≡ ok (c ∷ q) → s ≡ (c ∷ q) ++ codes "*"
prefix-path s q c h = starred ((parse_wildcard_iff s (c ∷ q)).0 h)
  where
    starred : AcceptedAs s (c ∷ q) → s ≡ (c ∷ q) ++ codes "*"
    starred (inl (_, e)) = cc
    starred (inr (r, _, whole, e)) =
        whole ∙ sym (append_assoc r (codes "/") (codes "*")) ∙ ap (λ t. t ++ codes "*") (sym e)

rule-parse :
    (p : Policy) (r : PrefixRule)
    → rule_of p ≡ some r
    → parse_wildcard (normalize p.vault_path) ≡ ok r.prefix
unfolding rule_of
rule-parse p r h = by_parse (parse_wildcard (normalize p.vault_path)) refl
  where
    by_parse :
        (o : Result WildcardError Str)
        → parse_wildcard (normalize p.vault_path) ≡ o
        → parse_wildcard (normalize p.vault_path) ≡ ok r.prefix
    by_parse (err e) f = absurd (ground arith)
    by_parse (ok []) f = absurd (ground arith)
    by_parse (ok (c ∷ q)) f = ground arith

module _ (p : Policy) (n n' : Index) where
  pub taken_after :
      (path : Str) (o : Result WildcardError Str)
      → parse_wildcard path ≡ o
      → is_ok o ≡ true
      → Added p n n'
      → taken_as o path n' ≡ ((path == normalize p.vault_path) || taken_as o path n)
  taken_after path (err e) f k a = absurd (false≢true k)
  taken_after path (ok []) f k (exact z _ e) =
      ap (λ (m : Index). is_some (lookup path m.next_exact)) e
      ∙ ap is_some (lookup-append path (normalize p.vault_path) p.clusters n.next_exact)
      ∙ rw (beq_iff_beq (normalize p.vault_path) path path (normalize p.vault_path) (sym, sym))
          (either (lookup path n.next_exact) (path == normalize p.vault_path))
    where
      either :
          (o : Option (List Str)) (b : Bool)
          → is_some (or_else o (if b then some p.clusters else none)) ≡ (b || is_some o)
      either none true = refl
      either none false = refl
      either (some c) true = refl
      either (some c) false = refl
  taken_after path (ok []) f k (wildcard r z _ _ e) =
      let other : (path == normalize p.vault_path) ≡ false =
        beq_of_ne path (normalize p.vault_path)
          (λ s. z (ap (λ t. count t b'*') (sym s) ∙ parse-nil path f)) in
      ap (λ (m : Index). is_some (lookup path m.next_exact)) e ∙ rw other
  taken_after path (ok (c ∷ q)) f k (exact z _ e) =
      let other : (path == normalize p.vault_path) ≡ false =
        beq_of_ne path (normalize p.vault_path) (λ s.
          let one = parse-cons path q c f in
          let same = ap (λ t. count t b'*') s in omega (arith, z)) in
      ap (λ (m : Index). any (λ s. s == c ∷ q) m.seen_prefix) e ∙ rw other
  taken_after path (ok (c ∷ q)) f k (wildcard r _ h _ e) =
      ap (λ (m : Index). any (λ s. s == c ∷ q) m.seen_prefix) e
      ∙ ap (λ b. b || any (λ s. s == c ∷ q) n.seen_prefix)
          (beq_iff_beq r.prefix (c ∷ q) path (normalize p.vault_path)
            (same_path_of, same_prefix_of))
    where
      parsed : parse_wildcard (normalize p.vault_path) ≡ ok r.prefix
      parsed = rule-parse p r h

      same_path_of : r.prefix ≡ c ∷ q → path ≡ normalize p.vault_path
      same_path_of s =
          prefix-path path q c f ∙ sym (prefix-path (normalize p.vault_path) q c (parsed ∙ ap ok s))

      same_prefix_of : path ≡ normalize p.vault_path → r.prefix ≡ c ∷ q
      same_prefix_of s =
          let both : ok r.prefix ≡ ok (c ∷ q) = sym parsed ∙ ap parse_wildcard (sym s) ∙ f in cc

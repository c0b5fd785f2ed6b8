-- ===== src/Policy/Loading.antt =====
-- What one round of Load's loop adds to the index, and what the whole loop has built.
use mathlib.Core.List.Memᴰ
use secret_control_panel.Base.{
  if◌then◌else◌, ◌==◌, nat_eq, eq_refl, list_beq, any, Result, ok, err, ℕ, ◌≡◌, refl, sym, ap,
  subst, ◌∙◌, ◌≢◌, ◌⊎◌, inl, inr, Bool, true, false, false≢true, ◌&&◌, Option, none, some, List, [],
  ◌∷◌, ◌++◌, Memᴰ, arith,
}
use secret_control_panel.Text.{Str, str_eq, count}
use secret_control_panel.VaultPath.{normalize}
use secret_control_panel.Policy.Wildcard.{parse-nil, parse-cons}
use secret_control_panel.Policy.Longest.{Distinct}
use secret_control_panel.Policy.{
  Policy, PrefixRule, Index, WildcardError, parse_wildcard, lookup, add_rule, load_one,
}

-- The rule of a wildcard policy.
abbrev pub wildcard_rule : Policy → Str → Option PrefixRule
wildcard_rule p [] = none
wildcard_rule p (c ∷ q) =
    some (record { prefix = c ∷ q; raw = p.vault_path; clusters = p.clusters })

unfoldable pub rule_of : Policy → Option PrefixRule
rule_of p = elim (parse_wildcard (normalize p.vault_path)) [
  | ok q ↦ wildcard_rule p q
  | err e ↦ none
]

abbrev pub cons_some : Option PrefixRule → List PrefixRule → List PrefixRule
cons_some none rs = rs
cons_some (some r) rs = r ∷ rs

-- The rules of the wildcard policies, in the order of the file.
unfoldable pub rules : List Policy → List PrefixRule
rules [] = []
rules (p ∷ ps) = cons_some (rule_of p) (rules ps)

-- The policy is an exact one for `key`.
abbrev pub is_exact_for : Str → Policy → Bool
is_exact_for key p = count (normalize p.vault_path) b'*' == 0 && normalize p.vault_path == key

abbrev pub policy_clusters : Option Policy → Option (List Str)
policy_clusters none = none
policy_clusters (some p) = some p.clusters

abbrev pub or_else {ℓ} : {A : Type ℓ} → Option A → Option A → Option A
or_else none o = o
or_else (some a) o = some a

-- What a round adds: an exact key that was not there, or a wildcard rule with a new prefix.
pub data Added (p : Policy) (n n' : Index) : Type 0 where
  exact :
      count (normalize p.vault_path) b'*' ≡ 0
      → lookup (normalize p.vault_path) n.next_exact ≡ none
      → n' ≡ record n { next_exact = n.next_exact ++ (normalize p.vault_path, p.clusters) ∷ [] }
      → Added p n n'
  wildcard :
      (r : PrefixRule)
      → count (normalize p.vault_path) b'*' ≢ 0
      → rule_of p ≡ some r
      → any (λ q. q == r.prefix) n.seen_prefix ≡ false
      → n' ≡ record n {
        next_prefixes = n.next_prefixes ++ r ∷ [];
        seen_prefix = r.prefix ∷ n.seen_prefix;
      }
      → Added p n n'

-- A round that succeeds has added its policy.
pub load_one-Added : (i : ℕ) (p : Policy) (n n' : Index) → load_one i p n ≡ ok n' → Added p n n'
unfolding load_one
load_one-Added i p n n' h = by_parse (parse_wildcard (normalize p.vault_path)) refl
  where
    by_parse :
        (o : Result WildcardError Str) → parse_wildcard (normalize p.vault_path) ≡ o → Added p n n'
    by_parse (err e) f = absurd (ground arith)
    by_parse (ok []) f =
        exact (parse-nil (normalize p.vault_path) f) (unfold add_rule list_beq in ground arith)
          (unfold add_rule list_beq in ground arith)
    by_parse (ok (c ∷ q)) f =
        wildcard (record { prefix = c ∷ q; raw = p.vault_path; clusters = p.clusters })
          (omega (arith, parse-cons (normalize p.vault_path) q c f))
          (unfold rule_of in rw (f, rule_of)) (unfold add_rule list_beq in ground arith)
          (unfold add_rule list_beq in ground arith)

pub lookup-append :
    (key k : Str) (c : List Str) (m : List (Str × List Str))
    → lookup key (m ++ (k, c) ∷ []) ≡ or_else (lookup key m) (if k == key then some c else none)
unfolding lookup
lookup-append key k c [] = ground arith
lookup-append key k c ((j, d) ∷ m) = ground (arith, lookup-append key k c m)

-- The clusters of the exact policy for `key`.
unfoldable pub exact_clusters : Str → List Policy → Option (List Str)
exact_clusters key [] = none
exact_clusters key (p ∷ ps) = if is_exact_for key p then some p.clusters else exact_clusters key ps

pub or_else_assoc {ℓ} :
    {A : Type ℓ} (a b c : Option A) → or_else (or_else a b) c ≡ or_else a (or_else b c)
or_else_assoc none b c = refl
or_else_assoc (some a) b c = refl

-- The prefixes seen are those of the rules, and no two rules share one.
pub record IsIndexed (n : Index) : Type 0 where
  pub distinct : Distinct n.next_prefixes
  pub seen :
      (r : PrefixRule) → Memᴰ r n.next_prefixes → any (λ q. q == r.prefix) n.seen_prefix ≡ true

pub Added-IsIndexed : (p : Policy) (n n' : Index) → Added p n n' → IsIndexed n → IsIndexed n'
Added-IsIndexed p n n' (exact _ _ e) v =
    subst IsIndexed (sym e) (record { distinct = v.distinct; seen = v.seen })
Added-IsIndexed p n n' (wildcard r _ _ new e) v =
    subst IsIndexed (sym e) (record { distinct = distinct'; seen = seen' })
  where
    fresh : (q : PrefixRule) → Memᴰ q n.next_prefixes → q.prefix ≡ r.prefix → ⊥
    fresh q m f =
        false≢true (sym new ∙ subst (λ t. any (λ q. q == t) n.seen_prefix ≡ true) f (v.seen q m))

    split_last :
        (q : PrefixRule) → Memᴰ q (n.next_prefixes ++ r ∷ []) → Memᴰ q n.next_prefixes ⊎ (q ≡ r)
    split_last q m = elim (Memᴰ.append_cases n.next_prefixes m) [
      | inl old ↦ inl old
      | inr last ↦ inr (Memᴰ.eq_of_singleton last)
    ]

    pick :
        (a b : PrefixRule)
        → Memᴰ a n.next_prefixes ⊎ (a ≡ r)
        → Memᴰ b n.next_prefixes ⊎ (b ≡ r)
        → a.prefix ≡ b.prefix
        → a ≡ b
    pick a b (inl m) (inl k) f = v.distinct a b m k f
    pick a b (inl m) (inr e) f = absurd (fresh a m (f ∙ ap (λ (q : PrefixRule). q.prefix) e))
    pick a b (inr e) (inl k) f = absurd (fresh b k (sym f ∙ ap (λ (q : PrefixRule). q.prefix) e))
    pick a b (inr e) (inr e') f = e ∙ sym e'

    distinct' : Distinct (n.next_prefixes ++ r ∷ [])
    distinct' a b m k f = pick a b (split_last a m) (split_last b k) f

    seen_one :
        (q : PrefixRule)
        → Memᴰ q n.next_prefixes ⊎ (q ≡ r)
        → any (λ t. t == q.prefix) (r.prefix ∷ n.seen_prefix) ≡ true
    seen_one q (inl m) = ground (arith, v.seen q m)
    seen_one q (inr e) = rw (e, eq_refl r.prefix)

    seen' :
        (q : PrefixRule)
        → Memᴰ q (n.next_prefixes ++ r ∷ [])
        → any (λ t. t == q.prefix) (r.prefix ∷ n.seen_prefix) ≡ true
    seen' q m = seen_one q (split_last q m)

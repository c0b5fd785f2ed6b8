-- ===== src/Policy/Routing.antt =====
-- Resolve on a loaded store against a description that reads the policies in the order of the file,
-- with no index and no sort.
use mathlib.Core.List.{append_assoc, append-nil}
use mathlib.Core.List.Memᴰ
use secret_control_panel.Base.{
  nat_eq, >>=-ok, Result, ok, err, ℕ, suc, ◌≡◌, refl, sym, ap, subst, ◌∙◌, Option, none, some, List,
  [], ◌∷◌, ◌++◌, arith,
}
use secret_control_panel.Text.{Str, str_eq, count}
use secret_control_panel.VaultPath.{normalize, join}
use secret_control_panel.Sort.{Sorter}
use secret_control_panel.Policy.Wildcard.{parse_exact}
use secret_control_panel.Policy.Longest.{longest, find?-sort}
use secret_control_panel.Policy.Loading.{
  Added, exact, wildcard, IsIndexed, Added-IsIndexed, load_one-Added, rule_of, rules,
  exact_clusters, lookup-append, cons_some, or_else, or_else_assoc,
}
use secret_control_panel.Policy.{
  Policy, PrefixRule, Store, Index, LoadError, no_index, lookup, load_one, load_all, load, resolve,
  clusters_of, longer,
}

exact-rule_of : (p : Policy) → count (normalize p.vault_path) b'*' ≡ 0 → rule_of p ≡ none
unfolding rule_of
exact-rule_of p h = rw (parse_exact (normalize p.vault_path) h, rule_of)

Added-prefixes :
    (p : Policy) (n n' : Index)
    → Added p n n'
    → n'.next_prefixes ≡ n.next_prefixes ++ cons_some (rule_of p) []
Added-prefixes p n n' (exact z _ e) =
    ap (λ (m : Index). m.next_prefixes) e
    ∙ rw (exact-rule_of p z) (sym (append-nil n.next_prefixes))
Added-prefixes p n n' (wildcard r _ f _ e) = ap (λ (m : Index). m.next_prefixes) e ∙ rw f

Added-lookup :
    (p : Policy) (n n' : Index) (key : Str)
    → Added p n n'
    → lookup key n'.next_exact ≡ or_else (lookup key n.next_exact) (exact_clusters key (p ∷ []))
unfolding exact_clusters
Added-lookup p n n' key (exact z _ e) =
    ap (λ (m : Index). lookup key m.next_exact) e
    ∙ lookup-append key (normalize p.vault_path) p.clusters n.next_exact
    ∙ rw z
Added-lookup p n n' key (wildcard r z _ _ e) =
    ap (λ (m : Index). lookup key m.next_exact) e ∙ ground arith

cons_some-rules :
    (p : Policy) (ps : List Policy) (rs : List PrefixRule)
    → (rs ++ cons_some (rule_of p) []) ++ rules ps ≡ rs ++ rules (p ∷ ps)
unfolding rules
cons_some-rules p ps rs =
    append_assoc rs (cons_some (rule_of p) []) (rules ps) ∙ ap (◌++◌ rs) (joined (rule_of p))
  where
    joined : (o : Option PrefixRule) → cons_some o [] ++ rules ps ≡ cons_some o (rules ps)
    joined none = refl
    joined (some r) = refl

exact_clusters-cons :
    (key : Str) (p : Policy) (ps : List Policy)
    → or_else (exact_clusters key (p ∷ [])) (exact_clusters key ps) ≡ exact_clusters key (p ∷ ps)
unfolding exact_clusters
exact_clusters-cons key p ps = ground arith

or_else-none {ℓ} : {A : Type ℓ} (o : Option A) → or_else o none ≡ o
or_else-none none = refl
or_else-none (some a) = refl

-- What the loop has built from index `n`.
pub record Built (ps : List Policy) (n n' : Index) : Type 0 where
  prefixes : n'.next_prefixes ≡ n.next_prefixes ++ rules ps
  exacts :
      (key : Str)
      → lookup key n'.next_exact ≡ or_else (lookup key n.next_exact) (exact_clusters key ps)
  indexed : IsIndexed n → IsIndexed n'

load_all-Built : (i : ℕ) (ps : List Policy) (n n' : Index) → load_all i ps n ≡ ok n' → Built ps n n'
unfolding load_all
load_all-Built i [] n n' h =
    let same : n ≡ n' = cc in
    subst (Built [] n) same (record {
      prefixes = unfold rules in sym (append-nil n.next_prefixes);
      exacts = λ key. unfold exact_clusters in sym (or_else-none (lookup key n.next_exact));
      indexed = λ v. v;
    })
load_all-Built i (p ∷ ps) n n' h =
    let (m, first, later) = >>=-ok (load_one i p n) (load_all (suc i) ps) h in
    let added = load_one-Added i p n m first in
    let built = load_all-Built (suc i) ps m n' later in
    record {
      prefixes =
          built.prefixes
          ∙ ap (λ t. t ++ rules ps) (Added-prefixes p n m added)
          ∙ cons_some-rules p ps n.next_prefixes;
      exacts = λ key.
          built.exacts key
          ∙ ap (λ o. or_else o (exact_clusters key ps)) (Added-lookup p n m key added)
          ∙ or_else_assoc (lookup key n.next_exact) (exact_clusters key (p ∷ []))
              (exact_clusters key ps)
          ∙ ap (or_else (lookup key n.next_exact)) (exact_clusters-cons key p ps);
      indexed = λ v. built.indexed (Added-IsIndexed p n m added v);
    }

no_index-IsIndexed : IsIndexed no_index
no_index-IsIndexed = record {
  distinct = λ r q m k e. absurd (Memᴰ.not-nil m);
  seen = λ r m. absurd (Memᴰ.not-nil m);
}

-- The clusters of the exact policy for the key; else those of the wildcard policy with the longest
-- prefix of the key; else none.
unfoldable pub route : List Policy → Str → List Str
route ps key = elim (exact_clusters key ps) [
  | some c ↦ c
  | none ↦ clusters_of (longest key (rules ps))
]

-- When Load accepts a set of policies, Resolve gives each (mount, path) the clusters of the exact
-- policy for its key if there is one, otherwise those of the wildcard policy with the longest
-- matching prefix, otherwise none, whatever order the sort gives to prefixes of equal length.
pub resolve-load :
    (sorter : Sorter PrefixRule) (s s' : Store) (ps : List Policy)
    → load sorter s ps ≡ (ok tt, s')
    → (mount path : Str) → resolve s' mount path ≡ route ps (join mount path)
unfolding load resolve route
resolve-load sorter s s' ps h mount path = by_result (load_all 0 ps no_index) refl
  where
    key : Str
    key = join mount path

    stored : Index → Store
    stored n = record { by_key = n.next_exact; prefixes = sorter.sort longer n.next_prefixes }

    on_stored : (n : Index) → Built ps no_index n → resolve (stored n) mount path ≡ route ps key
    on_stored n b =
        let exacts : lookup key n.next_exact ≡ exact_clusters key ps =
          unfold lookup in b.exacts key in
        let longest_first =
          find?-sort sorter key n.next_prefixes (b.indexed no_index-IsIndexed).distinct in
        ground (arith, longest_first ∙ ap (longest key) b.prefixes)

    by_result :
        (o : Result LoadError Index)
        → load_all 0 ps no_index ≡ o
        → resolve s' mount path ≡ route ps key
    by_result (err e) f = absurd (ground arith)
    by_result (ok n) f =
        let same : s' ≡ stored n = ground arith in
        rw same (on_stored n (load_all-Built 0 ps no_index n f))

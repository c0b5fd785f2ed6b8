-- ===== src/Policy.antt =====
-- internal/scp/policy/store.go: the routing rules and their index. The lock is not modelled: each
-- operation holds it throughout, so it is one step on the store. `slices.Clone` copies a value and
-- is the identity here. A `map[string][]string` is an association list.
pub mod Wildcard
pub mod Loading
pub mod Longest
pub mod Routing
pub mod Checks
pub mod Acceptance
pub mod Listing
pub mod Tests
use secret_control_panel.Base.{
  ltb, leb, nat_beq, if◌then◌else◌, leb_iff, nat_beq_iff, Bool-cases, Option-cases, is_some, ◌==◌,
  ◌!=◌, nat_eq, eq_iff, eq_refl, ne_of_beq, beq_of_ne, list_beq, list_beq_iff, Eq, length, take,
  any, all, filter, find?, All, length-append, All-append, All-mem, All-of-mem, All-perm, mem-perm,
  pos_part, neg_part, ◌≤ℤ◌, leb_ℤ, ℤ, pos, negsuc, ◌>>=◌, ◌>>◌, Result, ok, err, ℕ, zero, suc, ◌+◌,
  ◌-◌, ◌*◌, ◌%◌, ◌^◌, ◌≤◌, ◌<◌, min, max, ◌≡◌, refl, sym, ap, subst, ◌∙◌, ◌≢◌, ◌↔◌, ◌⊎◌, inl, inr,
  Bool, true, false, not, ◌&&◌, ◌||◌, Option, none, some, List, [], ◌∷◌, ◌++◌, map, reverse, Memᴰ,
  Permᴰ, arith,
}
use secret_control_panel.Text.{
  Str, codes, str_eq, cut_prefix, has_prefix, has_suffix, trim_suffix, count, str_lt,
}
use secret_control_panel.VaultPath.{normalize, join, split}
use secret_control_panel.Sort.{Sorter}

pub record Policy : Type 0 where
  pub vault_path : Str
  pub clusters : List Str

pub record Summary : Type 0 where
  pub mount : Str
  pub path : Str
  pub cluster_count : ℕ
  pub wildcard : Bool

pub record PrefixRule : Type 0 where
  pub prefix : Str
  pub raw : Str
  pub clusters : List Str

pub record Store : Type 0 where
  pub by_key : List (Str × List Str)
  pub prefixes : List PrefixRule

abbrev pub new_store : Store
new_store = record { by_key = []; prefixes = [] }

pub data WildcardError : Type 0 where
  multiple_stars : WildcardError
  not_trailing : WildcardError

-- The errors of Load, with the policy's index and path, and the cluster's index.
pub data LoadError : Type 0 where
  vault_path_required : ℕ → LoadError
  clusters_empty : ℕ → Str → LoadError
  cluster_name_required : ℕ → Str → ℕ → LoadError
  bad_wildcard : ℕ → Str → WildcardError → LoadError
  duplicate : ℕ → Str → LoadError

abbrev wildcard_suffix : Str
wildcard_suffix = codes "/*"

-- The prefix of a "<prefix>/*" path with its "/", or the empty text for an exact key.
unfoldable pub parse_wildcard : Str → Result WildcardError Str
parse_wildcard vault_path =
    let stars = count vault_path b'*' in
    if stars == 0
    then ok []
    else if ltb 1 stars
    then err multiple_stars
    else if not (has_suffix vault_path wildcard_suffix)
    then err not_trailing
    else ok (trim_suffix vault_path (codes "*"))

unfoldable pub lookup : Str → List (Str × List Str) → Option (List Str)
lookup key [] = none
lookup key ((k, c) ∷ m) = if k == key then some c else lookup key m

-- The maps and the slice that Load fills before it touches the store.
pub record Index : Type 0 where
  pub next_exact : List (Str × List Str)
  pub next_prefixes : List PrefixRule
  pub seen_prefix : List Str

abbrev pub no_index : Index
no_index = record { next_exact = []; next_prefixes = []; seen_prefix = [] }

-- The position, counted from `j`, of the first cluster with no name.
unfoldable pub first_unnamed : ℕ → List Str → Option ℕ
first_unnamed j [] = none
first_unnamed j (c ∷ cs) = if c == [] then some j else first_unnamed (suc j) cs

-- The end of the loop body of Load: the rule goes among the prefixes or among the exact keys.
unfoldable pub add_rule : ℕ → Policy → Str → Str → Index → Result LoadError Index
add_rule i p normalized prefix n =
    if prefix != []
    then if any (λ q. q == prefix) n.seen_prefix
      then err (duplicate i p.vault_path)
      else ok (record n {
        seen_prefix = prefix ∷ n.seen_prefix;
        next_prefixes =
            n.next_prefixes
            ++ (record { prefix = prefix; raw = p.vault_path; clusters = p.clusters }) ∷ [];
      })
    else if is_some (lookup normalized n.next_exact)
    then err (duplicate i p.vault_path)
    else ok (record n { next_exact = n.next_exact ++ (normalized, p.clusters) ∷ [] })

abbrev pub at_policy : {A : Type 0} → ℕ → Policy → Result WildcardError A → Result LoadError A
at_policy i p (ok a) = ok a
at_policy i p (err e) = err (bad_wildcard i p.vault_path e)

-- The loop body of Load.
unfoldable pub load_one : ℕ → Policy → Index → Result LoadError Index
load_one i p n =
    if p.vault_path == []
    then err (vault_path_required i)
    else if length p.clusters == 0
    then err (clusters_empty i p.vault_path)
    else elim (first_unnamed 0 p.clusters) [
      | some j ↦ err (cluster_name_required i p.vault_path j)
      | none ↦ do
        let normalized = normalize p.vault_path
        prefix ← at_policy i p (parse_wildcard normalized)
        add_rule i p normalized prefix n
    ]

-- The loop of Load, at policy `i`.
unfoldable pub load_all : ℕ → List Policy → Index → Result LoadError Index
load_all i [] n = ok n
load_all i (p ∷ ps) n = load_one i p n >>= load_all (suc i) ps

abbrev pub longer : PrefixRule → PrefixRule → Bool
longer r q = ltb (length q.prefix) (length r.prefix)

-- The result of Load and the store after it.
unfoldable pub load : Sorter PrefixRule → Store → List Policy → Result LoadError (Unit {0}) × Store
load sorter s policies = elim (load_all 0 policies no_index) [
  | err e ↦ (err e, s)
  | ok n ↦ (ok tt, record { by_key = n.next_exact; prefixes = sorter.sort longer n.next_prefixes })
]

abbrev pub clusters_of : Option PrefixRule → List Str
clusters_of none = []
clusters_of (some r) = r.clusters

-- A nil result is the empty list.
unfoldable pub resolve : Store → Str → Str → List Str
resolve s mount path =
    let key = join mount path in
    elim (lookup key s.by_key) [
      | some c ↦ c
      | none ↦ clusters_of (find? (λ r. has_prefix key r.prefix) s.prefixes)
    ]

unfoldable pub size : Store → ℕ
size s = length s.by_key + length s.prefixes

abbrev pub exact_summary : Str × List Str → Summary
exact_summary (k, clusters) =
    let (mount, path) = split k in
    record { mount = mount; path = path; cluster_count = length clusters; wildcard = false }

abbrev pub prefix_summary : PrefixRule → Summary
prefix_summary r =
    let (mount, path) = split r.raw in
    record { mount = mount; path = path; cluster_count = length r.clusters; wildcard = true }

abbrev pub before : Summary → Summary → Bool
before a b = if a.mount != b.mount then str_lt a.mount b.mount else str_lt a.path b.path

-- Go ranges over a map in no fixed order: `range_order` rearranges the entries.
unfoldable pub listing :
    Sorter Summary → (List (Str × List Str) → List (Str × List Str)) → Store → List Summary
listing sorter range_order s =
    sorter.sort before (map exact_summary (range_order s.by_key) ++ map prefix_summary s.prefixes)

-- ===== src/Policy/Tests.antt =====
-- The cases of internal/scp/policy/store_test.go, and the theorems at concrete policies.
use mathlib.Core.List.Permᴰ
use secret_control_panel.Base.{
  nat_eq, list_beq, length, err, ◌≡◌, refl, List, [], ◌∷◌, map, reverse,
}
use secret_control_panel.Text.{
  Str, str_eq, str_lt, cut_byte, codes, count, has_suffix, trim_suffix, cut_suffix, has_prefix,
  cut_prefix, trim, trim_left, trim_right,
}
use secret_control_panel.VaultPath.{normalize, join, split}
use secret_control_panel.Sort.{Ordered}
use secret_control_panel.Sort.Insertion.{insertion, insertion_sort, insert}
use secret_control_panel.Policy.{
  Policy, Store, parse_wildcard, duplicate, multiple_stars, not_trailing, lookup, first_unnamed,
  add_rule, load_one, load_all, load, new_store, resolve, size,
}
use secret_control_panel.Policy.{listing, before}
use secret_control_panel.Policy.Listing.{key, listing-determined}
use secret_control_panel.Policy.Routing.{route, resolve-load}
use secret_control_panel.Policy.Checks.{is_ok, acceptable}
use secret_control_panel.Policy.Acceptance.{load-acceptable}

abbrev rule : Str → Str → Policy
rule path cluster = record { vault_path = path; clusters = cluster ∷ [] }

-- Two wildcard policies and an exact one, all for the key "kv/app/db".
abbrev three_rules : List Policy
three_rules =
    rule (codes "kv/*") (codes "west")
    ∷ rule (codes "/kv/app/*") (codes "east")
    ∷ rule (codes "kv/app/db") (codes "both")
    ∷ []

abbrev three_stored : Store
three_stored = (load insertion new_store three_rules).1

refused_wildcards :
    (parse_wildcard (codes "*") ≡ err not_trailing)
    × (parse_wildcard (codes "kv/*/db") ≡ err not_trailing)
    × (parse_wildcard (codes "kv*") ≡ err not_trailing)
    × (parse_wildcard (codes "kv/*/*") ≡ err multiple_stars)
unfolding parse_wildcard count has_suffix cut_suffix cut_prefix
refused_wildcards = (refl, refl, refl, refl)

stored_size : size three_stored ≡ 3
unfolding size load load_all load_one add_rule first_unnamed parse_wildcard count has_suffix
    trim_suffix cut_suffix cut_prefix normalize trim trim_left trim_right insertion_sort insert
    list_beq lookup
stored_size = refl

-- A batch with a duplicate is refused and the store stays as it was.
duplicate_refused :
    load insertion three_stored
      (rule (codes "a/b") (codes "x") ∷ rule (codes "/a/b/") (codes "y") ∷ [])
    ≡ (err (duplicate 1 (codes "/a/b/")), three_stored)
unfolding load load_all load_one add_rule first_unnamed parse_wildcard count has_suffix trim_suffix
    cut_suffix cut_prefix normalize trim trim_left trim_right list_beq lookup
duplicate_refused = refl

resolve-load_example :
    resolve three_stored (codes "kv") (codes "app/cache")
    ≡ route three_rules (join (codes "kv") (codes "app/cache"))
unfolding load load_all load_one add_rule first_unnamed parse_wildcard count has_suffix trim_suffix
    cut_suffix cut_prefix normalize trim trim_left trim_right list_beq lookup
resolve-load_example =
    resolve-load insertion new_store three_stored three_rules refl (codes "kv") (codes "app/cache")

resolved :
    (resolve three_stored (codes "kv") (codes "app/cache") ≡ codes "east" ∷ [])
    × (resolve three_stored (codes "kv") (codes "app/db") ≡ codes "both" ∷ [])
    × (resolve three_stored (codes "kv") (codes "other") ≡ codes "west" ∷ [])
    × (resolve three_stored (codes "pki") (codes "app") ≡ [])
unfolding resolve join load load_all load_one add_rule first_unnamed parse_wildcard count has_suffix
    has_prefix trim_suffix cut_suffix cut_prefix normalize trim trim_left trim_right insertion_sort
    insert list_beq lookup
resolved = (refl, refl, refl, refl)

load-acceptable_example : is_ok (load insertion new_store three_rules).0 ≡ acceptable three_rules
load-acceptable_example = load-acceptable insertion new_store three_rules

-- A rule for one path twice.
abbrev twice : List Policy
twice = rule (codes "a/b") (codes "x") ∷ rule (codes "/a/b/") (codes "y") ∷ []

listed_rules :
    map key (listing insertion reverse three_stored)
    ≡ (codes "kv", codes "*") ∷ (codes "kv", codes "app/*") ∷ (codes "kv", codes "app/db") ∷ []
unfolding listing split str_lt cut_byte load load_all load_one add_rule first_unnamed parse_wildcard
    count has_suffix trim_suffix cut_suffix cut_prefix normalize trim trim_left trim_right
    insertion_sort insert list_beq lookup
listed_rules = refl

listing-determined_example :
    (map key (listing insertion (λ xs. xs) three_stored)
      ≡ map key (listing insertion reverse three_stored))
    × Ordered before (listing insertion (λ xs. xs) three_stored)
    × (length (listing insertion (λ xs. xs) three_stored) ≡ size three_stored)
listing-determined_example =
    listing-determined insertion insertion (λ xs. xs) reverse three_stored (λ xs. Permᴰ.refl xs)
      (λ xs. Permᴰ.symm (Permᴰ.reverse xs))

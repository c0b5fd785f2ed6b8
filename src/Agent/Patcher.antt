-- ===== src/Agent/Patcher.antt =====
-- internal/agent/patcher/patcher.go and k8s.go. The Kubernetes API is outside the repository: a
-- client is a record of its two calls on a state of the cluster, and the clock.
use secret_control_panel.Base.{
  ltb, leb, nat_beq, if◌then◌else◌, leb_iff, nat_beq_iff, Bool-cases, Option-cases, is_some, ◌==◌,
  ◌!=◌, nat_eq, eq_iff, eq_refl, ne_of_beq, beq_of_ne, list_beq, list_beq_iff, Eq, length, take,
  any, all, filter, find?, All, length-append, All-append, All-mem, All-of-mem, All-perm, mem-perm,
  All-take, All-map, mem-filter, mem_of-filter, length-filter-le, length-filter-lt, pos_part,
  neg_part, ◌≤ℤ◌, leb_ℤ, ℤ, pos, negsuc, ◌>>=◌, ◌>>◌, >>=-ok, Result, ok, err, Pairs, Pairs-take,
  Pairs-filter, Pairs-perm, Pairs-map, Pairs-of-map, Pairs-eq, Pairs-append-one, ℕ, zero, suc, ◌+◌,
  ◌-◌, ◌*◌, ◌%◌, ◌^◌, ◌≤◌, ◌<◌, min, max, ◌≡◌, refl, sym, ap, subst, ◌∙◌, ◌≢◌, ◌↔◌, ◌⊎◌, inl, inr,
  Bool, true, false, false≢true, not, ◌&&◌, ◌||◌, Option, none, some, List, [], ◌∷◌, ◌++◌, map,
  reverse, Memᴰ, Permᴰ, le_antisymm, le_trans, le_refl, arith,
}
use secret_control_panel.Text.{Str, codes, str_eq}
use secret_control_panel.Wire.{Time}
use secret_control_panel.VaultPath.{normalize}
use secret_control_panel.Agent.Selector.{selector_annotation, selector_matches}
pub mod Attempts

pub record Job : Type 0 where
  pub vault_path : Str
  pub operation : Str
  pub version : ℤ

-- Result of the source.
pub record PatchResult : Type 0 where
  pub matched : ℕ
  pub patched : ℕ

-- A value of an unstructured object.
mutual
  pub data Value : Type 0 where
    text : Str → Value
    object : Fields → Value
    other : Value

  pub data Fields : Type 0 where
    end : Fields
    field : Str → Value → Fields → Fields

-- An ExternalSecret as the API lists it.
pub record Resource : Type 0 where
  pub namespace : Str
  pub name : Str
  pub annotations : List (Str × Str)
  pub fields : Fields

-- The error of a call of Patch: apierrors.IsNotFound, or another one.
pub data PatchError : Type 0 where
  not_found : PatchError
  refused : Str → PatchError

-- `patch` merges the given value into the trigger annotation of a namespace and name.
pub record Client (S : Type 0) : Type 0 where
  pub list : S → Result Str (List Resource) × S
  pub patch : Str → Str → Str → S → Option PatchError × S
  pub now : S → Time

-- Why Patch fails.
pub data PatchFailure : Type 0 where
  empty_vault_path : PatchFailure
  list_failed : Str → PatchFailure
  patches_failed : List (Str × Str × Str) → PatchFailure

-- m[key] on a Go map: the empty text where the key is missing.
abbrev pub annotation : Str → List (Str × Str) → Str
annotation key [] = []
annotation key ((k, v) ∷ m) = if k == key then v else annotation key m

abbrev pub is_bound : Str → Resource → Bool
is_bound target item = selector_matches (annotation selector_annotation item.annotations) target

-- `res` and `errsAll` of the loop.
pub record Tally : Type 0 where
  pub matched : ℕ
  pub patched : ℕ
  pub errors : List (Str × Str × Str)

abbrev pub no_tally : Tally
no_tally = record { matched = 0; patched = 0; errors = [] }

-- The end of the loop body, with the outcome of the call.
abbrev pub tally_one : Resource → Option PatchError → Tally → Tally
tally_one item none t = record t { matched = suc t.matched; patched = suc t.patched }
tally_one item (some not_found) t = record t { matched = suc t.matched }
tally_one item (some (refused message)) t = record t {
  matched = suc t.matched;
  errors = t.errors ++ (item.namespace, item.name, message) ∷ [];
}

module _ {S : Type 0} (client : Client S) where
  -- The loop over the listed items.
  unfoldable pub patch_items : Str → Str → List Resource → Tally → S → Tally × S
  patch_items target trigger [] t s = (t, s)
  patch_items target trigger (item ∷ items) t s = elim (is_bound target item) [
    | false ↦ patch_items target trigger items t s
    | true ↦
        let (e, s') = client.patch item.namespace item.name trigger s in
        patch_items target trigger items (tally_one item e t) s'
  ]

  -- What Patch returns of the tally.
  abbrev pub patch_result : Tally → PatchResult × Option PatchFailure
  patch_result t =
      let res : PatchResult = record { matched = t.matched; patched = t.patched } in
      (res, if ltb 0 (length t.errors) then some (patches_failed t.errors) else none)

  -- K8sPatcher.Patch, with time.Format as `format_time`.
  unfoldable pub patch_job : (Time → Str) → Job → S → (PatchResult × Option PatchFailure) × S
  patch_job format_time job s =
      let target = normalize job.vault_path in
      let nothing : PatchResult = record { matched = 0; patched = 0 } in
      if target == []
      then ((nothing, some empty_vault_path), s)
      else let (r, s') = client.list s in
        elim r [
          | err message ↦ ((nothing, some (list_failed message)), s')
          | ok items ↦
              let trigger = format_time (client.now s') in
              let (t, s'') = patch_items target trigger items no_tally s' in (patch_result t, s'')
        ]

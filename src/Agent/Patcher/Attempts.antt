-- ===== src/Agent/Patcher/Attempts.antt =====
-- Patch against a description without its loop: the bound resources are found first, and each is
-- patched once, in the order of the list.
use secret_control_panel.Base.{
  ltb, if◌then◌else◌, nat_eq, length, filter, ℕ, ◌+◌, Bool, true, false, Option, none, some, List,
  [], ◌∷◌, ◌++◌,
}
use secret_control_panel.Text.{Str, str_eq}
use secret_control_panel.Wire.{Time}
use secret_control_panel.Agent.Patcher.{
  PatchResult, Resource, PatchError, not_found, refused, Client, PatchFailure, patches_failed,
  is_bound, Tally,
}

-- A call of Patch that was not refused: the resource is patched or has gone.
abbrev pub is_patched : Option PatchError → Bool
is_patched none = true
is_patched (some e) = false

-- The refusals, with the resources that they are about.
abbrev pub refusals : List (Resource × Option PatchError) → List (Str × Str × Str)
refusals [] = []
refusals ((item, some (refused message)) ∷ outcomes) =
    (item.namespace, item.name, message) ∷ refusals outcomes
refusals ((item, some not_found) ∷ outcomes) = refusals outcomes
refusals ((item, none) ∷ outcomes) = refusals outcomes

abbrev pub count_patched : List (Resource × Option PatchError) → ℕ
count_patched outcomes =
    length (filter (λ (o : Resource × Option PatchError). is_patched o.1) outcomes)

-- The result for the outcomes: an error exactly if there is a refusal.
abbrev pub report : List (Resource × Option PatchError) → PatchResult × Option PatchFailure
report outcomes = (
  record { matched = length outcomes; patched = count_patched outcomes },
  if ltb 0 (length (refusals outcomes)) then some (patches_failed (refusals outcomes)) else none,
)

module _ {S : Type 0} (client : Client S) where
  -- One call for each resource.
  abbrev pub attempts : Str → List Resource → S → List (Resource × Option PatchError) × S
  attempts trigger [] s = ([], s)
  attempts trigger (item ∷ items) s =
      let (e, s') = client.patch item.namespace item.name trigger s in
      let (outcomes, s'') = attempts trigger items s' in ((item, e) ∷ outcomes, s'')

  -- The result and the state after one call for each bound resource, all with one trigger.
  abbrev pub described :
      Str → (Time → Str) → List Resource → S → (PatchResult × Option PatchFailure) × S
  described target format_time items s =
      let (outcomes, s') =
        attempts (format_time (client.now s)) (filter (is_bound target) items) s in
      (report outcomes, s')

  -- The tally with the outcomes added.
  abbrev tallied : Tally → List (Resource × Option PatchError) → Tally
  tallied t outcomes = record {
    matched = t.matched + length outcomes;
    patched = t.patched + count_patched outcomes;
    errors = t.errors ++ refusals outcomes;
  }

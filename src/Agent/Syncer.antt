-- ===== src/Agent/Syncer.antt =====
-- internal/agent/syncer/syncer.go. time.Parse and the POST to the panel are parameters, and so is
-- `select` on the context and the timer.
pub mod Truthful
pub mod Ending
pub mod Reporting
use Prim.Native.Nat.{◌/◌}
use secret_control_panel.Base.{
  ltb, leb, nat_beq, if◌then◌else◌, leb_iff, nat_beq_iff, Bool-cases, Option-cases, is_some, ◌==◌,
  ◌!=◌, nat_eq, eq_iff, eq_refl, ne_of_beq, beq_of_ne, list_beq, list_beq_iff, Eq, length, take,
  any, all, filter, find?, All, length-append, All-append, All-mem, All-of-mem, All-perm, mem-perm,
  All-take, All-map, mem-filter, mem_of-filter, length-filter-le, length-filter-lt, pos_part,
  neg_part, ◌≤ℤ◌, leb_ℤ, ℤ, pos, negsuc, ◌>>=◌, ◌>>◌, >>=-ok, Result, ok, err, Pairs, Pairs-take,
  Pairs-filter, Pairs-perm, Pairs-map, Pairs-of-map, Pairs-eq, Pairs-append-one, ℕ, zero, suc, ◌+◌,
  ◌-◌, ◌*◌, ◌%◌, ◌^◌, ◌≤◌, ◌<◌, min, max, ◌≡◌, refl, sym, ap, subst, ◌∙◌, ◌≢◌, ◌↔◌, ◌⊎◌, inl, inr,
  Bool, true, false, false≢true, not, ◌&&◌, ◌||◌, Option, none, some, List, [], ◌∷◌, ◌++◌, map,
  reverse, Memᴰ, Permᴰ, le_antisymm, le_trans, le_refl, arith,
}
use secret_control_panel.Text.{Str, codes, str_eq}
use secret_control_panel.Wire.{Time, second, SecretEvent, Callback, auth_scheme, callback_path}
use secret_control_panel.VaultPath.{join}
use secret_control_panel.Agent.Selector.{selector_annotation, selector_matches}
use secret_control_panel.Agent.Patcher.{
  Value, text, object, other, Fields, end, field, Resource, Client,
}

abbrev pub poll_interval : ℕ
poll_interval = 2 * second

abbrev pub poll_timeout : ℕ
poll_timeout = 30 * second

unfoldable pub field_of : Str → Fields → Option Value
field_of key end = none
field_of key (field k v rest) = if k == key then some v else field_of key rest

abbrev pub text_of : Option Value → Option Str
text_of (some (text t)) = some t
text_of (some (object fields)) = none
text_of (some other) = none
text_of none = none

abbrev pub object_of : Option Value → Option Fields
object_of (some (object fields)) = some fields
object_of (some (text t)) = none
object_of (some other) = none
object_of none = none

-- nestedString; none stands for ok=false.
unfoldable pub nested_string : Fields → List Str → Option Str
nested_string obj [] = none
nested_string obj (key ∷ []) = text_of (field_of key obj)
nested_string obj (key ∷ next ∷ keys) = elim (object_of (field_of key obj)) [
  | some inner ↦ nested_string inner (next ∷ keys)
  | none ↦ none
]

-- patchedAt.Truncate(time.Second)
abbrev pub truncate : Time → Time
truncate t = t - t % second

abbrev pub matches_annotation : Str → Option Str → Bool
matches_annotation vault_path none = false
matches_annotation vault_path (some ann) = selector_matches ann vault_path

-- The item's annotation names the path.
abbrev pub is_watched : Str → Resource → Bool
is_watched vault_path item =
    matches_annotation vault_path (
      nested_string item.fields (codes "metadata" ∷ codes "annotations" ∷ selector_annotation ∷ []))

abbrev pub is_late : Time → Option Time → Bool
is_late patched_at none = false
is_late patched_at (some t) = not (ltb t (truncate patched_at))

abbrev pub parsed : (Str → Option Time) → Option Str → Option Time
parsed parse_time none = none
parsed parse_time (some rt) = parse_time rt

-- The item has a refreshTime, and it is not before the second of the patch.
abbrev pub is_refreshed : (Str → Option Time) → Time → Resource → Bool
is_refreshed parse_time patched_at item =
    is_late patched_at
      (parsed parse_time (nested_string item.fields (codes "status" ∷ codes "refreshTime" ∷ [])))

-- The watcher's fields and its surroundings. `wait` is the `select` of the poll loop: true when the
-- timer of pollInterval is first, false when the context is done. `post` is the POST of a callback:
-- the URL, the header Authorization and the body, to the status code or none.
pub record Watcher (S : Type 0) : Type 0 where
  pub k8s : Client S
  pub parse_time : Str → Option Time
  pub wait : S → Bool × S
  pub post : Str → Str → Callback → S → Option ℕ × S
  pub cluster : Str
  pub panel_url : Str
  pub token : Str

module _ {S : Type 0} (w : Watcher S) where
  -- The loop of allSynced: `matched` and `synced`.
  unfoldable pub count_synced : Str → Time → List Resource → ℕ → ℕ → ℕ × ℕ
  count_synced vault_path patched_at [] matched synced = (matched, synced)
  count_synced vault_path patched_at (item ∷ items) matched synced =
      elim (is_watched vault_path item) [
        | false ↦ count_synced vault_path patched_at items matched synced
        | true ↦ elim (is_refreshed w.parse_time patched_at item) [
          | false ↦ count_synced vault_path patched_at items (suc matched) synced
          | true ↦ count_synced vault_path patched_at items (suc matched) (suc synced)
        ]
      ]

  unfoldable pub all_synced : Str → Time → S → Bool × S
  all_synced vault_path patched_at s =
      let (r, s') = w.k8s.list s in
      elim r [
        | err e ↦ (false, s')
        | ok items ↦
            let (matched, synced) = count_synced vault_path patched_at items 0 0 in
            (ltb 0 matched && synced == matched, s')
      ]

  -- pollUntilSynced. The loop has no bound of its own: `none` means that the fuel has run out.
  unfoldable pub poll_until_synced : ℕ → Str → Time → S → Option Bool × S
  poll_until_synced zero vault_path patched_at s = (none, s)
  poll_until_synced (suc fuel) vault_path patched_at s =
      let (synced, s') = all_synced vault_path patched_at s in
      elim synced [
        | true ↦ (some true, s')
        | false ↦
            let (timer, s'') = w.wait s' in
            elim timer [
              | true ↦ poll_until_synced fuel vault_path patched_at s''
              | false ↦ (some false, s'')
            ]
      ]

  -- sendCallback: whether the panel has answered with a status below 300.
  unfoldable pub send_callback : Callback → S → Bool × S
  send_callback cb s =
      let (status, s') = w.post (w.panel_url ++ callback_path) (auth_scheme ++ w.token) cb s in
      (elim status [ none ↦ false | some code ↦ ltb code 300 ], s')

  abbrev pub callback_for : SecretEvent → ℕ → ℕ → Bool → ℕ → Callback
  callback_for ev matched patched synced elapsed = record {
    request_id = ev.request_id;
    cluster = w.cluster;
    synced = synced;
    matched = pos matched;
    patched = pos patched;
    elapsed_ms = pos (elapsed / 1_000_000);
  }

  -- watch: the callback that it has made, and whether that was sent.
  unfoldable pub watch : ℕ → SecretEvent → ℕ → ℕ → Time → S → Option (Callback × Bool) × S
  watch fuel ev matched patched patched_at s =
      let start = w.k8s.now s in
      let (polled, s') = poll_until_synced fuel (join ev.mount ev.path) patched_at s in
      elim polled [
        | none ↦ (none, s')
        | some synced ↦
            let cb = callback_for ev matched patched synced (w.k8s.now s' - start) in
            if w.panel_url == []
            then (some (cb, false), s')
            else let (sent, s'') = send_callback cb s' in (some (cb, sent), s'')
      ]

-- ===== src/Agent/Server.antt =====
-- internal/agent/server/server.go. The body's decoding is encoding/json's, a parameter; the patcher
-- and the watcher are the interfaces Patcher and SyncWatcher of the source.
pub mod Replies
use secret_control_panel.Base.{
  ltb, leb, nat_beq, if◌then◌else◌, leb_iff, nat_beq_iff, Bool-cases, Option-cases, is_some, ◌==◌,
  ◌!=◌, nat_eq, eq_iff, eq_refl, ne_of_beq, beq_of_ne, list_beq, list_beq_iff, Eq, length, take,
  any, all, filter, find?, All, length-append, All-append, All-mem, All-of-mem, All-perm, mem-perm,
  All-take, All-map, mem-filter, mem_of-filter, length-filter-le, length-filter-lt, pos_part,
  neg_part, ◌≤ℤ◌, leb_ℤ, ℤ, pos, negsuc, ◌>>=◌, ◌>>◌, >>=-ok, Result, ok, err, Pairs, Pairs-take,
  Pairs-filter, Pairs-perm, Pairs-map, Pairs-of-map, Pairs-eq, Pairs-append-one, ℕ, zero, suc, ◌+◌,
  ◌-◌, ◌*◌, ◌%◌, ◌^◌, ◌≤◌, ◌<◌, min, max, ◌≡◌, refl, sym, ap, subst, ◌∙◌, ◌≢◌, ◌↔◌, ◌⊎◌, inl, inr,
  Bool, true, false, false≢true, not, ◌&&◌, ◌||◌, Option, none, some, List, [], ◌∷◌, ◌++◌, map,
  reverse, Memᴰ, Permᴰ, le_antisymm, le_trans, le_refl, arith,
}
use secret_control_panel.Text.{Str, codes, str_eq}
use secret_control_panel.Wire.{Time, SecretEvent, auth_scheme}
use secret_control_panel.VaultPath.{join}
use secret_control_panel.Api.{Request, Decoder}
use secret_control_panel.Agent.Patcher.{Job, PatchResult, PatchFailure}

abbrev pub max_event_body_bytes : ℕ
max_event_body_bytes = 65_536

-- The interface Patcher.
abbrev pub Patcher : Type 0 → Type 0
Patcher S = Job → S → (PatchResult × Option PatchFailure) × S

-- The interface SyncWatcher: Watch(ev, matched, patched, patchedAt).
abbrev pub SyncWatcher : Type 0 → Type 0
SyncWatcher S = SecretEvent → ℕ → ℕ → Time → S → S

-- The server's fields; `now` is the clock.
pub record Server (S : Type 0) : Type 0 where
  pub token : Str
  pub patcher : Patcher S
  pub watcher : Option (SyncWatcher S)
  pub now : S → Time

unfoldable pub check_auth : Str → Request → Bool
check_auth token r = r.authorization == auth_scheme ++ token

abbrev pub job_of : SecretEvent → Job
job_of ev = record {
  vault_path = join ev.mount ev.path;
  operation = ev.operation;
  version = ev.version;
}

abbrev pub watched :
    {S : Type 0} → Option (SyncWatcher S) → SecretEvent → PatchResult → Time → S → S
watched none ev res patched_at s = s
watched (some watch) ev res patched_at s = watch ev res.matched res.patched patched_at s

abbrev pub event_body : Request → Str
event_body r = take max_event_body_bytes r.body

module _ {S : Type 0} (server : Server S) where
  -- handleEvents after the body is decoded.
  unfoldable pub accept_event : SecretEvent → S → ℕ × S
  accept_event ev s =
      let patched_at = server.now s in
      let ((res, failure), s') = server.patcher (job_of ev) s in
      elim failure [
        | some e ↦ (500, s')
        | none ↦ (202, watched server.watcher ev res patched_at s')
      ]

  -- handleEvents: the status code of the answer and the state after it.
  unfoldable pub handle_events : Decoder SecretEvent → Request → S → ℕ × S
  handle_events decode r s =
      if not (check_auth server.token r)
      then (401, s)
      else elim (decode (event_body r)) [ none ↦ (400, s) | some ev ↦ accept_event ev s ]

-- handleHealthz
abbrev pub handle_healthz : ℕ × Str
handle_healthz = (200, codes "ok\n")

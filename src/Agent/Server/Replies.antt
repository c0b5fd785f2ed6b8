-- ===== src/Agent/Server/Replies.antt =====
-- The event handler with its patcher: handleEvents of internal/agent/server.go on the K8sPatcher of
-- k8s.go, with the watcher that is told of a change.
use secret_control_panel.Base.{nat_eq, filter, ℕ, Option, none, some, List, ◌∷◌, ◌++◌}
use secret_control_panel.Text.{Str, str_eq}
use secret_control_panel.Wire.{Time, SecretEvent}
use secret_control_panel.VaultPath.{normalize}
use secret_control_panel.Agent.Patcher.{
  PatchResult, Resource, PatchError, PatchFailure, Client, is_bound, patch_job,
}
use secret_control_panel.Agent.Patcher.Attempts.{attempts}
use secret_control_panel.Agent.Server.{SyncWatcher, Server}

-- The path of an event with its outer slashes trimmed.
abbrev pub path_key : SecretEvent → Str
path_key ev = normalize ev.mount ++ b'/' ∷ normalize ev.path

module _ {S : Type 0} (client : Client S) (format_time : Time → Str) (watch : SyncWatcher S)
    (now : S → Time) (token : Str) where
  -- The server as main builds it.
  abbrev pub wired : Server S
  wired = record {
    token = token;
    patcher = patch_job client format_time;
    watcher = some watch;
    now = now;
  }

  -- One call of Patch for each of the items that are bound to the path of the event, after the listing.
  abbrev pub calls : SecretEvent → List Resource → S → List (Resource × Option PatchError) × S
  calls ev items s =
      let listed = (client.list s).1 in
      attempts client (format_time (client.now listed)) (filter (is_bound (path_key ev)) items)
        listed

  -- The answer for what the patcher returns.
  abbrev answer : SecretEvent → Time → (PatchResult × Option PatchFailure) × S → ℕ × S
  answer ev at ((res, none), s) = (202, watch ev res.matched res.patched at s)
  answer ev at ((res, some e), s) = (500, s)

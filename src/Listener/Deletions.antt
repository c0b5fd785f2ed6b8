-- ===== src/Listener/Deletions.antt =====
-- Records of deletes: parseLine of internal/scp/audit/parser.go, followed by Ingest of
-- internal/scp/listener/store.go.
use secret_control_panel.Base.{
  nat_eq, ℤ, pos, ok, ℕ, ◌≡◌, sym, ap, subst, ◌∙◌, inl, inr, true, false≢true, Option, none, some,
  List, arith,
}
use secret_control_panel.Text.{Str}
use secret_control_panel.Wire.{Time, SecretEvent}
use secret_control_panel.Db.{Db, rollback}
use secret_control_panel.Db.World.{World, after_call}
use secret_control_panel.Audit.{RawEntry, version_in, parse_entry}
use secret_control_panel.Audit.Records.{parse_entry-IsEventOf}
use secret_control_panel.Listener.{IngestResult, is_old, ingest, pump}
use secret_control_panel.Listener.Outcomes.{Outcome, stale, duplicate, queued}
use secret_control_panel.Listener.Atomic.{ingest_atomic}
use secret_control_panel.Listener.Watermark.{watermark, AtMost, pump-watermark}

above_zero :
    (n : ℕ) (o : Option ℤ) (ev : SecretEvent)
    → ev.version ≡ pos 0
    → AtMost (some (pos n)) o
    → is_old o ev ≡ true
above_zero n none ev v h = absurd h
above_zero n (some u) ev v h = rw v (ground arith)

-- The record of a KV v2 delete has no version in its response. Once a version from 0 on of its path is
-- stored, and after any number of other events and whichever calls fail, then and before, Ingest of
-- the event that parseLine makes of such a record leaves the tasks as they are: no cluster hears of
-- the deletion.
pub unversioned-dropped :
    (parse_time : Str → Time) (raw : RawEntry) (evs : List SecretEvent) (w : World) (n : ℕ)
    {ev : SecretEvent}
    → raw.response_version ≡ none
    → parse_entry parse_time raw ≡ ok ev
    → watermark ev.mount ev.path w.db ≡ some (pos n)
    → (ingest ev (pump evs w).1).1.db.tasks ≡ (pump evs w).1.db.tasks
unversioned-dropped parse_time raw evs w n {ev} missing parsed seen =
    elim (ingest_atomic ev later) [
      | inl same ↦ unfold rollback in ap (λ (db : Db). db.tasks) same
      | inr (r, out) ↦ by_outcome out
    ]
  where
    later : World
    later = (pump evs w).1

    old : is_old (watermark ev.mount ev.path later.db) ev ≡ true
    old =
        above_zero n (watermark ev.mount ev.path later.db) ev
          ((parse_entry-IsEventOf parse_time raw parsed).version ∙ ap version_in missing)
          (subst (λ o. AtMost o (watermark ev.mount ev.path later.db)) seen
            (pump-watermark evs w ev.mount ev.path))

    by_outcome :
        {r : IngestResult}
        → Outcome (after_call later).clock ev later.db (ingest ev later).1.db r
        → (ingest ev later).1.db.tasks ≡ later.db.tasks
    by_outcome (stale _ _ _ e) = ap (λ (db : Db). db.tasks) e
    by_outcome (duplicate newer _ _) = absurd (false≢true (sym newer ∙ old))
    by_outcome (queued newer _ _) = absurd (false≢true (sym newer ∙ old))

-- ===== src/Listener/Interleaved/Alone.antt =====
-- One call of Ingest without others: the steps of Listener/Interleaved against the transaction.
use secret_control_panel.Base.{
  nat_eq, eq_refl, ℤ, ok, ℕ, ◌≡◌, refl, sym, ap, subst, ◌∙◌, false, Option, none, some, arith,
}
use secret_control_panel.Text.{str_eq}
use secret_control_panel.Wire.{SecretEvent}
use secret_control_panel.Db.{Db}
use secret_control_panel.Db.World.{World, after_call}
use secret_control_panel.Listener.{IngestResult, version_of, upsert, is_old, ingest}
use secret_control_panel.Listener.Outcomes.{
  Outcome, stale, duplicate, queued, IsNewer, ingest-Outcome,
}
use secret_control_panel.Listener.Watermark.{version_of-upsert}
use secret_control_panel.Listener.Interleaved.{
  Stage, ready, checked, ended, Race, move_to, lock, drop, find_none, write, Turns, start, turn,
}

-- The race of a call that runs alone on a database, as call 0.
abbrev alone : SecretEvent → Db → Race
alone ev db = record {
  stored = version_of ev.mount ev.path db.versions;
  holder = none;
  stage = λ i. ready ev;
}

-- The steps of call 0 lead to its end with the stored version of a database.
abbrev EndsAt : SecretEvent → Db → Db → Type 0
EndsAt ev old new =
    (t : Race) × Turns (alone ev old) t
    × (t.stored ≡ version_of ev.mount ev.path new.versions)
    × (t.stage 0 ≡ ended)

written-EndsAt :
    (ev : SecretEvent) (old new : Db)
    → IsNewer ev old
    → new.versions ≡ upsert ev.mount ev.path ev.version old.versions
    → EndsAt ev old new
written-EndsAt ev old new newer e = by_row (version_of ev.mount ev.path old.versions) refl
  where
    stage' : ℕ → Stage
    stage' = move_to 0 ended (move_to 0 (checked ev) (λ i. ready ev))

    after : Race
    after = record { stored = some ev.version; holder = none; stage = stage' }

    now_stored : some ev.version ≡ version_of ev.mount ev.path new.versions
    now_stored = sym (
        ap (version_of ev.mount ev.path) e
        ∙ version_of-upsert ev.mount ev.path ev.mount ev.path ev.version old.versions
        ∙ rw (eq_refl ev.mount, eq_refl ev.path) refl)

    by_row : (o : Option ℤ) → version_of ev.mount ev.path old.versions ≡ o → EndsAt ev old new
    by_row none h =
        (after, turn (turn start (find_none 0 ev refl h)) (write 0 ev refl refl), now_stored, refl)
    by_row (some v) h = (
      after,
      turn (turn start (lock 0 ev v refl h refl (subst (λ o. is_old o ev ≡ false) h newer)))
          (write 0 ev refl refl),
      now_stored,
      refl,
    )

-- These steps are those of the transaction: a call of Ingest that succeeds, with no other call at the
-- same time, changes the stored version of its path as the steps of one call do.
pub ingest-EndsAt :
    (ev : SecretEvent) (w : World) {r : IngestResult}
    → (ingest ev w).0 ≡ ok r
    → EndsAt ev w.db (ingest ev w).1.db
ingest-EndsAt ev w h = by_outcome (ingest-Outcome ev w h)
  where
    new : Db
    new = (ingest ev w).1.db

    by_outcome :
        {r : IngestResult} → Outcome (after_call w).clock ev w.db new r → EndsAt ev w.db new
    by_outcome (stale v is_v le e) = (
      _,
      turn start (drop 0 ev v refl is_v refl (ground arith)),
      ap (λ (d : Db). version_of ev.mount ev.path d.versions) (sym e),
      refl,
    )
    by_outcome (duplicate newer there e) =
        written-EndsAt ev w.db new newer (ap (λ (d : Db). d.versions) e)
    by_outcome (queued newer missing e) =
        written-EndsAt ev w.db new newer (ap (λ (d : Db). d.versions) e)

-- ===== src/Listener/Atomic.antt =====
-- Ingest is one transaction: whichever call fails, it leaves the old rows or a whole outcome.
use secret_control_panel.Base.{nat_eq, ok, ℕ, ◌≡◌, refl, ◌⊎◌, inl, inr, Option, none, some}
use secret_control_panel.Wire.{SecretEvent}
use secret_control_panel.Db.{rollback}
use secret_control_panel.Db.World.{World, after_call}
use secret_control_panel.Db.Steps.{SameRows, transaction_cases}
use secret_control_panel.Db.Smooth.{Smooth, Succeeds, succeeds_rules}
use secret_control_panel.Listener.{IngestResult, notify_if_new, ingest_body, advance, ingest}
use secret_control_panel.Listener.Outcomes.{Outcome, body-Outcome, ingest-Outcome}

-- However the calls of the database end, Ingest leaves every row as it was, or the whole effect of
-- one of its outcomes.
pub ingest_atomic :
    (ev : SecretEvent) (w : World)
    → SameRows w.db (ingest ev w).1.db
      ⊎ ((r : IngestResult) × Outcome (after_call w).clock ev w.db (ingest ev w).1.db r)
unfolding ingest rollback
ingest_atomic ev w = elim (transaction_cases (ingest_body ev) w) [
  | inl same ↦ inl (rw same refl)
  | inr (inl undone) ↦ inl (rw undone refl)
  | inr (inr (r, ran, db)) ↦
      inr (r, rw db (body-Outcome (after_call w).clock ev (after_call w) ran))
]

notify_if_new-Succeeds : (task_id : Option ℕ) → Succeeds (notify_if_new task_id)
notify_if_new-Succeeds none = search succeeds_rules
notify_if_new-Succeeds (some id) = search succeeds_rules

pub ingest-Succeeds : (ev : SecretEvent) → Succeeds (ingest ev)
unfolding ingest ingest_body advance
ingest-Succeeds ev = search (succeeds_rules, notify_if_new-Succeeds) depth 9

-- Where no call of the database fails, Ingest succeeds with one of its three outcomes.
pub ingest-total :
    (ev : SecretEvent) (w : World)
    → Smooth w
    → (r : IngestResult) × ((ingest ev w).0 ≡ ok r)
      × Outcome (after_call w).clock ev w.db (ingest ev w).1.db r
ingest-total ev w s = let (r, e) = (ingest-Succeeds ev).result w s in (r, e, ingest-Outcome ev w e)

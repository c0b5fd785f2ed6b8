-- ===== src/Daemon/Dispatcher/Keeping.antt =====
-- The dispatcher removes no event and moves none to another request or cluster.
use secret_control_panel.Base.{
  Bool-cases, ◌==◌, nat_eq, Result, ok, err, ℕ, zero, suc, ◌≡◌, refl, ap, ◌∙◌, inl, inr, Bool, List,
  [], ◌∷◌,
}
use secret_control_panel.Text.{Str, str_eq}
use secret_control_panel.Db.{Db, EventRow}
use secret_control_panel.Db.World.{World, Error, select_pending}
use secret_control_panel.Db.Steps.{autocommit-read}
use secret_control_panel.Daemon.Store.{
  is_for, PendingEvent, fetch_pending, update_event, set_dispatched,
}
use secret_control_panel.Daemon.Store.Inserts.{has_event}
use secret_control_panel.Daemon.Processor.{batch_size}
use secret_control_panel.Daemon.Dispatcher.{dispatch_one, dispatch_batch, drain_pending}
use secret_control_panel.Daemon.Dispatcher.Rows.{
  fail_once, fails, delivers, Tried, dispatch_one-Tried,
}

module _ (request_id cluster : Str) where
  abbrev has : Db → Bool
  has db = has_event request_id cluster db.events

  update-has_event :
      (id : ℕ) (f : EventRow → EventRow)
      → ((e : EventRow) → is_for request_id cluster (f e) ≡ is_for request_id cluster e)
      → (events : List EventRow)
      → has_event request_id cluster (update_event id f events)
        ≡ has_event request_id cluster events
  unfolding update_event
  update-has_event id f keep [] = refl
  update-has_event id f keep (e ∷ events) = elim (Bool-cases (e.id == id)) [
    | inl hit ↦ rw (hit, keep e, update-has_event id f keep events) refl
    | inr miss ↦ rw (miss, update-has_event id f keep events) refl
  ]

  Tried-has_event : (ev : PendingEvent) (old new : Db) → Tried ev old new → has new ≡ has old
  Tried-has_event ev old new (inl e) = ap has e
  Tried-has_event ev old new (inr (fails next e)) =
      ap has e ∙ update-has_event ev.id (fail_once ev next) (λ r. refl) old.events
  Tried-has_event ev old new (inr (delivers now e)) =
      ap has e ∙ update-has_event ev.id (set_dispatched now) (λ r. refl) old.events

  batch-has_event :
      (batch : List PendingEvent) (w : World) → has (dispatch_batch batch w).db ≡ has w.db
  unfolding dispatch_batch
  batch-has_event [] w = refl
  batch-has_event (ev ∷ batch) w =
      batch-has_event batch (dispatch_one ev w).1
      ∙ Tried-has_event ev w.db (dispatch_one ev w).1.db (dispatch_one-Tried ev w)

  -- Whatever its calls and POSTs end in, drainPending leaves an event of the request for the cluster
  -- exactly where there was one.
  pub drain_pending-has_event : (fuel : ℕ) (w : World) → has (drain_pending fuel w).1.db ≡ has w.db
  unfolding drain_pending
  drain_pending-has_event zero w = refl
  drain_pending-has_event (suc fuel) w =
      by_batch (fetch_pending batch_size w).0 refl (drain_pending-has_event fuel)
    where
      w' : World
      w' = (fetch_pending batch_size w).1

      same : w'.db ≡ w.db
      same = unfold fetch_pending in autocommit-read select_pending _ w

      looked : has w'.db ≡ has w.db
      looked = ap has same

      by_batch :
          (r : Result Error (List PendingEvent))
          → (fetch_pending batch_size w).0 ≡ r
          → ((v : World) → has (drain_pending fuel v).1.db ≡ has v.db)
          → has (drain_pending (suc fuel) w).1.db ≡ has w.db
      by_batch (err e) k later = rw (k, drain_pending) looked
      by_batch (ok []) k later = rw (k, drain_pending) looked
      by_batch (ok (ev ∷ batch)) k later =
          rw (k, drain_pending)
            (later (dispatch_batch (ev ∷ batch) w') ∙ batch-has_event (ev ∷ batch) w' ∙ looked)

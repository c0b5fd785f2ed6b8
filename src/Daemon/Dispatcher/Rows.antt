-- ===== src/Daemon/Dispatcher/Rows.antt =====
-- What dispatchOne does to the events table: it updates the rows of its event once, or not at all.
use secret_control_panel.Base.{
  leb, Bool-cases, nat_eq, Result, ok, err, ℕ, ◌+◌, ◌≡◌, refl, ap, subst, ◌⊎◌, inl, inr, Option,
  none, some,
}
use secret_control_panel.Text.{Str}
use secret_control_panel.Db.{Db, EventRow}
use secret_control_panel.Db.World.{
  World, Error, after_call, select_agent, mark_failed_failed, mark_dispatched_failed,
}
use secret_control_panel.Db.Steps.{autocommit-read, autocommit_cases}
use secret_control_panel.Db.Smooth.{
  Smooth, Smooth-next, Succeeds, Succeeds-autocommit, autocommit-done,
}
use secret_control_panel.Daemon.Store.{
  PendingEvent, agent_endpoint, mark_failed, mark_dispatched, update_event, set_failed,
  set_dispatched,
}
use secret_control_panel.Daemon.Backoff.{backoff}
use secret_control_panel.Daemon.Dispatcher.{
  max_attempts, record_failure, post_event, deliver, dispatch_one,
}

-- The update of a failed attempt.
abbrev pub fail_once : PendingEvent → ℕ → EventRow → EventRow
fail_once ev next = set_failed (ev.attempts + 1) (leb max_attempts (ev.attempts + 1)) next

-- The one update of the event's rows.
pub data Moved (ev : PendingEvent) (old new : Db) : Type 0 where
  fails :
      (next : ℕ)
      → new ≡ record old { events = update_event ev.id (fail_once ev next) old.events }
      → Moved ev old new
  delivers :
      (now : ℕ)
      → new ≡ record old { events = update_event ev.id (set_dispatched now) old.events }
      → Moved ev old new

-- The event's rows are updated once, or not at all.
abbrev pub Tried : PendingEvent → Db → Db → Type 0
Tried ev old new = (new ≡ old) ⊎ Moved ev old new

module _ (ev : PendingEvent) where
  pub record_failure-Tried : (w : World) → Tried ev w.db (record_failure ev w).1.db
  unfolding record_failure mark_failed
  record_failure-Tried w = elim (autocommit_cases mark_failed_failed _ w) [
    | inl e ↦ inl e
    | inr e ↦ inr (fails _ e)
  ]

  record_failure-Moved : (w : World) → Smooth w → Moved ev w.db (record_failure ev w).1.db
  unfolding record_failure mark_failed
  record_failure-Moved w s = fails (w.clock + backoff (ev.attempts + 1)) (
      ap (λ (r : Result Error (Unit {0}) × World). r.1.db)
        (autocommit-done mark_failed_failed _ w (Smooth-next w s)))

  record_failure-Smooth : (w : World) → Smooth w → Smooth (record_failure ev w).1
  unfolding record_failure mark_failed
  record_failure-Smooth w s = (Succeeds-autocommit mark_failed_failed _).smooth w s

  mark_dispatched-Tried : (w : World) → Tried ev w.db (mark_dispatched ev.id w).1.db
  unfolding mark_dispatched
  mark_dispatched-Tried w = elim (autocommit_cases mark_dispatched_failed _ w) [
    | inl e ↦ inl e
    | inr e ↦ inr (delivers _ e)
  ]

  mark_dispatched-Moved : (w : World) → Smooth w → Moved ev w.db (mark_dispatched ev.id w).1.db
  unfolding mark_dispatched
  mark_dispatched-Moved w s = delivers (after_call w).clock (
      ap (λ (r : Result Error (Unit {0}) × World). r.1.db)
        (autocommit-done mark_dispatched_failed _ w (Smooth-next w s)))

  mark_dispatched-Smooth : (w : World) → Smooth w → Smooth (mark_dispatched ev.id w).1
  unfolding mark_dispatched
  mark_dispatched-Smooth w s = (Succeeds-autocommit mark_dispatched_failed _).smooth w s

  -- A statement on the parts of `deliver`, for any property of the database and the world after it.
  pub deliver_rule :
      (P : World → Type 0) (url token : Str) (w : World)
      → P (record_failure ev (post_event url token ev.event w).1).1
      → P (mark_dispatched ev.id (post_event url token ev.event w).1).1
      → P (deliver ev url token w).1
  unfolding deliver
  deliver_rule P url token w f d = elim (Bool-cases (post_event url token ev.event w).0) [
    | inl e ↦ rw (e, deliver) d
    | inr e ↦ rw (e, deliver) f
  ]

  pub dispatch_rule :
      (P : World → Type 0) (w : World)
      → ((e : Error) → (agent_endpoint ev.cluster w).0 ≡ err e → P (agent_endpoint ev.cluster w).1)
      → P (record_failure ev (agent_endpoint ev.cluster w).1).1
      → ((url token : Str) → P (deliver ev url token (agent_endpoint ev.cluster w).1).1)
      → P (dispatch_one ev w).1
  dispatch_rule P w broken missing found = by_lookup (agent_endpoint ev.cluster w).0 refl
    where
      by_lookup :
          (o : Result Error (Option (Str × Str)))
          → (agent_endpoint ev.cluster w).0 ≡ o
          → P (dispatch_one ev w).1
      by_lookup (err e) h = unfold dispatch_one in rw (h, dispatch_one) (broken e h)
      by_lookup (ok none) h = unfold dispatch_one in rw (h, dispatch_one) missing
      by_lookup (ok (some (url, token))) h =
          unfold dispatch_one in rw (h, dispatch_one) (found url token)

  pub agent_endpoint-db : (w : World) → (agent_endpoint ev.cluster w).1.db ≡ w.db
  unfolding agent_endpoint
  agent_endpoint-db w = autocommit-read select_agent _ w

  -- However its calls end, dispatchOne leaves the database as it is or updates the rows of its event.
  pub dispatch_one-Tried : (w : World) → Tried ev w.db (dispatch_one ev w).1.db
  unfolding post_event
  dispatch_one-Tried w =
      let w' = (agent_endpoint ev.cluster w).1 in
      subst (λ d. Tried ev d (dispatch_one ev w).1.db) (agent_endpoint-db w)
        (dispatch_rule (λ v. Tried ev w'.db v.db) w (λ e h. inl refl) (record_failure-Tried w')
          (λ url token.
            let posted = (post_event url token ev.event w').1 in
            deliver_rule (λ v. Tried ev w'.db v.db) url token w' (record_failure-Tried posted)
              (mark_dispatched-Tried posted)))

  agent_endpoint-Succeeds : Succeeds (agent_endpoint ev.cluster)
  unfolding agent_endpoint
  agent_endpoint-Succeeds = Succeeds-autocommit select_agent _

  abbrev Well : Db → World → Type 0
  Well old v = Moved ev old v.db × Smooth v

  -- Where no call fails, it updates them.
  pub dispatch_one-Moved :
      (w : World) → Smooth w → Moved ev w.db (dispatch_one ev w).1.db × Smooth (dispatch_one ev w).1
  unfolding post_event
  dispatch_one-Moved w s =
      let w' = (agent_endpoint ev.cluster w).1 in
      let s' = agent_endpoint-Succeeds.smooth w s in
      let (found, good) = agent_endpoint-Succeeds.result w s in
      subst (λ d. Well d (dispatch_one ev w).1) (agent_endpoint-db w)
        (dispatch_rule (Well w'.db) w (λ e h. cc (good, h))
          (record_failure-Moved w' s', record_failure-Smooth w' s')
          (λ url token.
            let posted = (post_event url token ev.event w').1 in
            deliver_rule (Well w'.db) url token w'
              (record_failure-Moved posted s', record_failure-Smooth posted s')
              (mark_dispatched-Moved posted s', mark_dispatched-Smooth posted s')))

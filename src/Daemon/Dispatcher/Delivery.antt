-- ===== src/Daemon/Dispatcher/Delivery.antt =====
-- Which answers of an agent let dispatchOne mark an event as dispatched.
use secret_control_panel.Base.{
  nat_eq, ℕ, ◌≡◌, refl, ap, subst, ◌∙◌, ◌⊎◌, inl, inr, Bool, false, arith,
}
use secret_control_panel.Text.{Str}
use secret_control_panel.Db.{Db}
use secret_control_panel.Db.World.{World, autocommit, mark_failed_failed}
use secret_control_panel.Db.Steps.{autocommit_cases}
use secret_control_panel.Daemon.Store.{PendingEvent, agent_endpoint, mark_failed, update_event}
use secret_control_panel.Daemon.Dispatcher.{
  accepted, head_answer, post_event, record_failure, deliver, dispatch_one,
}
use secret_control_panel.Daemon.Dispatcher.Rows.{fail_once, dispatch_rule, agent_endpoint-db}

-- The next POST succeeds: it is answered with a status below 300.
abbrev pub next_accepted : World → Bool
next_accepted w = accepted (head_answer w.answers).status

-- The event's rows have one more failed attempt, or nothing has changed.
abbrev pub Failed : PendingEvent → Db → Db → Type 0
Failed ev old new =
    (new ≡ old)
    ⊎ ((next : ℕ) × (new
          ≡ record old { events = update_event ev.id (fail_once ev next) old.events }))

module _ (ev : PendingEvent) where
  record_failure-Failed : (w : World) → Failed ev w.db (record_failure ev w).1.db
  unfolding record_failure mark_failed
  record_failure-Failed w = elim (autocommit_cases mark_failed_failed _ w) [
    | inl e ↦ inl e
    | inr e ↦ inr (_, e)
  ]

  agent_endpoint-answers : (w : World) → (agent_endpoint ev.cluster w).1.answers ≡ w.answers
  unfolding agent_endpoint autocommit
  agent_endpoint-answers w = ground arith

  deliver_refused :
      (url token : Str) (w : World)
      → next_accepted w ≡ false
      → Failed ev w.db (deliver ev url token w).1.db
  unfolding deliver post_event
  deliver_refused url token w h = rw h (record_failure-Failed (post_event url token ev.event w).1)

  -- dispatchOne marks an event as dispatched only after a POST that was answered with a status below
  -- 300: where the next POST is not, whichever calls of the database fail, the events table is as it
  -- was or the event has one more failed attempt.
  pub undelivered-Failed :
      (w : World) → next_accepted w ≡ false → Failed ev w.db (dispatch_one ev w).1.db
  undelivered-Failed w h =
      let w' = (agent_endpoint ev.cluster w).1 in
      subst (λ d. Failed ev d (dispatch_one ev w).1.db) (agent_endpoint-db ev w)
        (dispatch_rule ev (λ v. Failed ev w'.db v.db) w (λ e k. inl refl) (record_failure-Failed w')
          (λ url token.
            deliver_refused url token w'
              (ap (λ l. accepted (head_answer l).status) (agent_endpoint-answers w) ∙ h)))

-- ===== src/Pipeline/Attempted.antt =====
-- The delivery of a change, whatever the agents answer.
use secret_control_panel.Base.{
  nat_eq, length, All, All-mem, All-of-mem, Pairs-map, ℕ, ◌≤◌, ◌<◌, ◌≡◌, refl, sym, subst, ◌∙◌, ◌≢◌,
  ◌⊎◌, inl, inr, false, List, Memᴰ, arith,
}
use secret_control_panel.Text.{Str, str_eq}
use secret_control_panel.Wire.{SecretEvent}
use secret_control_panel.Db.{AgentRow, EventRow, Status, pending, dispatched, failed, dead}
use secret_control_panel.Db.World.{World, Post, after_call}
use secret_control_panel.Db.Smooth.{Smooth}
use secret_control_panel.Listener.{has_task}
use secret_control_panel.Listener.Outcomes.{task_of, IsNewer}
use secret_control_panel.Listener.Atomic.{ingest-Succeeds, ingest-total}
use secret_control_panel.Daemon.Store.{scan_event}
use secret_control_panel.Daemon.Processor.{Resolver}
use secret_control_panel.Daemon.Processor.Total.{drain_tasks-Smooth, drain_tasks-Covered}
use secret_control_panel.Daemon.Processor.Keyed.{drain_tasks-IsKeyed}
use secret_control_panel.Daemon.Dispatcher.Ready.{UniqueEvents}
use secret_control_panel.Daemon.Dispatcher.Rounds.{all_rounds}
use secret_control_panel.Daemon.Dispatcher.Draining.{not-pending, drain_pending-IsDrained}
use secret_control_panel.Daemon.Dispatcher.Keeping.{drain_pending-has_event}
use secret_control_panel.Daemon.Dispatcher.Keeps.{Keeps, drain_pending-Keeps}
use secret_control_panel.Daemon.Dispatcher.Receipt.{IsHonest, HasPost, IsReceived, IsHonoured}
use secret_control_panel.Daemon.Dispatcher.Honoured.{Keeps-IsHonoured}
use secret_control_panel.Daemon.Dispatcher.Lifecycle.{Attempted, IsSound, Keeps-IsSound}
use secret_control_panel.Pipeline.{
  IsNumbered, Outcome-IsQueued, found_row, queued_world, fanned_world, drained_world,
}
use secret_control_panel.Pipeline.Carrying.{IsFresh, Carries}
use secret_control_panel.Pipeline.Carried.{ingest-Carrying, drain_tasks-carried}
use secret_control_panel.Pipeline.Delivered.{starts}

-- The event is dispatched, and the agent of its cluster has received the request with its URL and
-- token; or one attempt at least has failed, and the event says so.
abbrev pub HasOutcome : List AgentRow → List Post → EventRow → Type 0
HasOutcome agents posts e =
    ((e.status ≡ dispatched) × HasPost agents posts (scan_event e))
    ⊎ (((e.status ≡ failed) ⊎ (e.status ≡ dead)) × (1 ≤ e.attempts))

-- The event of the request for the cluster has an outcome.
abbrev pub IsTried : Str → World → Str → Type 0
IsTried request_id w cluster =
    (e : EventRow) × Memᴰ e w.db.events
    × (e.request_id ≡ request_id)
    × (e.cluster ≡ cluster)
    × HasOutcome w.db.agents w.posts e

-- Every event is in a lawful state, and was received if it is dispatched.
abbrev pub AreLawful : World → Type 0
AreLawful w = All IsSound w.db.events × All (IsReceived w.db.agents w.posts) w.db.events

fresh-IsSound : (e : EventRow) → IsFresh e → IsSound e
fresh-IsSound e (is_pending, none_yet) = rw is_pending none_yet

has_outcome :
    (agents : List AgentRow) (posts : List Post) (e : EventRow) (status : Status)
    → e.status ≡ status
    → e.status ≢ pending
    → Attempted status e.attempts
    → IsReceived agents posts e
    → HasOutcome agents posts e
has_outcome agents posts e pending k waits sound received = absurd (waits k)
has_outcome agents posts e dispatched k waits sound received = inl (k, received k)
has_outcome agents posts e failed k waits sound received = inr (inl k, sound.0)
has_outcome agents posts e dead k waits sound received = inr (inr k, omega (arith, sound))

Keeps-both : (P Q : World → Type 0) → Keeps P → Keeps Q → Keeps (λ w. P w × Q w)
Keeps-both P Q p q = record {
  fetch = λ w h. (p.fetch w h.0, q.fetch w h.1);
  dispatch = λ ev w copy h. (p.dispatch ev w copy h.0, q.dispatch ev w copy h.1);
}

module _ (resolver : Resolver) (ev : SecretEvent) (w : World) (f g : ℕ) where
  abbrev queued : World
  queued = queued_world resolver ev w f g

  abbrev fanned : World
  fanned = fanned_world resolver ev w f g

  abbrev drained : World
  drained = drained_world resolver ev w f g

  -- What drainTasks adds is fresh.
  fanned-IsHonoured :
      Carries ev w fanned
      → AreLawful w
      → IsHonest w.answers
      → IsHonoured w.db.agents fanned × All IsSound fanned.db.events
  fanned-IsHonoured carried (sound, received) honest = (
    record {
      same_agents = carried.carried.same_agents;
      honest = subst IsHonest (sym carried.same_answers) honest;
      received = All-of-mem _ fanned.db.events (λ e m.
          subst (λ posts. IsReceived w.db.agents posts e) (sym carried.same_posts)
            (elim (All-mem _ carried.carried.rows m) [
              | inl fresh ↦ λ done. absurd (not_both e fresh.0 done)
              | inr old ↦ All-mem _ received old
            ]));
    },
    All-of-mem _ fanned.db.events (λ e m. elim (All-mem _ carried.carried.rows m) [
      | inl fresh ↦ fresh-IsSound e fresh
      | inr old ↦ All-mem _ sound old
    ]),
  )
    where
      not_both : (e : EventRow) → e.status ≡ pending → e.status ≡ dispatched → ⊥
      not_both e p d = ground arith

  -- A change goes all the way, whatever the agents answer: where no call of the database fails, an
  -- agent that answers with a success has received the request, ids are unique and below their
  -- sequences, every event is in a lawful state and was received if it is dispatched, the change is
  -- newer than the stored version of its path, and no task and no event has its request id, then after
  -- Ingest, drainTasks and drainPending every cluster that the resolver names for the path has an
  -- event of the request for which one of two holds: it is dispatched, and the agents table has a row
  -- for the cluster, at whose URL the event has arrived with its token; or it is failed or dead, with
  -- at least one failed attempt counted. The fuels are above the number of tasks and above
  -- `all_rounds` of the events.
  pub ingested-IsTried :
      Smooth w
      → IsNumbered w.db
      → IsNewer ev w.db
      → has_task ev.request_id w.db.tasks ≡ false
      → All (λ (e : EventRow). e.request_id ≢ ev.request_id) w.db.events
      → AreLawful w
      → IsHonest w.answers
      → length queued.db.tasks < f
      → all_rounds fanned.db.events < g
      → All (IsTried ev.request_id drained) (resolver ev.mount ev.path)
  ingested-IsTried s n newer missing unheard lawful honest f_enough g_enough =
      let (r, ran, out) = ingest-total ev w s in
      let q = Outcome-IsQueued ev (after_call w).clock w.db queued.db n newer missing out in
      let sq : Smooth queued = (ingest-Succeeds ev).smooth w s in
      let keyed = drain_tasks-IsKeyed resolver f queued q.keyed in
      let unique : UniqueEvents fanned.db.events =
        Pairs-map ◌≢◌ (λ (e : EventRow). e.id) fanned.db.events keyed.ids in
      let carried =
        drain_tasks-carried ev w f resolver queued
          ((ingest-Carrying ev w).carries w (starts ev w missing unheard)) in
      let (_, (kept, sound)) =
        drain_pending-Keeps _ (Keeps-both _ _ (Keeps-IsHonoured w.db.agents) Keeps-IsSound) g fanned
          unique (fanned-IsHonoured carried lawful honest) in
      let none_due =
        (drain_pending-IsDrained g fanned (drain_tasks-Smooth f resolver queued sq) unique
          g_enough).1 in
      let covered =
        drain_tasks-Covered f resolver queued sq q.unique f_enough
          (task_of (after_call w).clock ev w.db.next_task_id) q.there in
      All-of-mem _ (resolver ev.mount ev.path) (λ c named.
        let (e, m, of_request, of_cluster) =
          found_row ev.request_id c drained.db.events
            (drain_pending-has_event ev.request_id c g fanned ∙ All-mem _ covered named) in
        (
          e,
          m,
          of_request,
          of_cluster,
          subst (λ agents. HasOutcome agents drained.posts e) (sym kept.same_agents)
              (has_outcome w.db.agents drained.posts e e.status refl
                (not-pending drained.clock drained.db.events e none_due m) (All-mem _ sound m)
                (All-mem _ kept.received m)),
        ))

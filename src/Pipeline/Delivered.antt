-- ===== src/Pipeline/Delivered.antt =====
-- The way of a change to the agents.
use secret_control_panel.Base.{
  Bool-cases, ◌==◌, nat_eq, ne_of_beq, length, All, All-mem, All-of-mem, Pairs-map, ℕ, ◌≤◌, ◌<◌,
  ◌≡◌, refl, sym, ap, subst, ◌∙◌, ◌≢◌, inl, inr, false, some, List, [], ◌∷◌, ◌++◌, Memᴰ, arith,
}
use secret_control_panel.Text.{Str, str_eq, trim_right}
use secret_control_panel.Wire.{SecretEvent, events_path, auth_scheme}
use secret_control_panel.Db.{TaskRow, EventRow, dispatched}
use secret_control_panel.Db.World.{World, Post, after_call}
use secret_control_panel.Db.Smooth.{Smooth}
use secret_control_panel.Listener.{has_task}
use secret_control_panel.Listener.Outcomes.{task_of, IsNewer}
use secret_control_panel.Listener.Atomic.{ingest-Succeeds, ingest-total}
use secret_control_panel.Daemon.Store.{scan_event, agent_of}
use secret_control_panel.Daemon.Processor.{Resolver}
use secret_control_panel.Daemon.Processor.Total.{drain_tasks-Smooth, drain_tasks-Covered}
use secret_control_panel.Daemon.Processor.Keyed.{drain_tasks-IsKeyed}
use secret_control_panel.Daemon.Dispatcher.Rounds.{all_rounds}
use secret_control_panel.Daemon.Dispatcher.Serving.{IsSuccess}
use secret_control_panel.Daemon.Dispatcher.Delivered.{drain_pending-IsDelivered}
use secret_control_panel.Pipeline.{
  IsNumbered, Outcome-IsQueued, found_row, queued_world, fanned_world, drained_world,
}
use secret_control_panel.Pipeline.Carrying.{untimed, Carries}
use secret_control_panel.Pipeline.Carried.{ingest-Carrying, drain_tasks-carried}

-- The request that the agent at `url` with `token` is due for a change.
abbrev pub request_of : SecretEvent → Str → Str → Post
request_of ev url token = record {
  url = trim_right url b'/' ++ events_path;
  authorization = auth_scheme ++ token;
  event = untimed ev;
}

-- The event of the change for the cluster is dispatched, and its request has arrived.
abbrev pub HasReached : SecretEvent → Str → Str → Str → World → Type 0
HasReached ev cluster url token w =
    ((r : EventRow) × Memᴰ r w.db.events
      × (r.cluster ≡ cluster)
      × ((scan_event r).event ≡ untimed ev)
      × (r.status ≡ dispatched))
    × Memᴰ (request_of ev url token) w.posts

no_task :
    (request_id : Str) (tasks : List TaskRow)
    → has_task request_id tasks ≡ false
    → All (λ (t : TaskRow). t.request_id ≢ request_id) tasks
no_task r [] h = tt
no_task r (t ∷ tasks) h = elim (Bool-cases (t.request_id == r)) [
  | inl e ↦ absurd (ground arith)
  | inr e ↦ (ne_of_beq t.request_id r e, no_task r tasks (ground arith))
]

-- A change that no table has a trace of.
pub starts :
    (ev : SecretEvent) (w : World)
    → has_task ev.request_id w.db.tasks ≡ false
    → All (λ (e : EventRow). e.request_id ≢ ev.request_id) w.db.events
    → Carries ev w w
starts ev w missing unheard = record {
  carried = record {
    tasks =
        All-of-mem _ w.db.tasks
          (λ t m same. absurd (All-mem _ (no_task ev.request_id w.db.tasks missing) m same));
    events = All-of-mem _ w.db.events (λ e m same. absurd (All-mem _ unheard m same));
    rows = All-of-mem _ w.db.events (λ e m. inr m);
    same_agents = refl;
  };
  same_answers = refl;
  same_posts = refl;
}

module _ (resolver : Resolver) (ev : SecretEvent) (w : World) (f g : ℕ) where
  abbrev queued : World
  queued = queued_world resolver ev w f g

  abbrev fanned : World
  fanned = fanned_world resolver ev w f g

  -- A change reaches the agents: where no call of the database fails, every POST is received and
  -- answered with a status below 300, ids are unique and below their sequences, the event is newer
  -- than the stored version of its path, and no task and no event has its request id, then after
  -- Ingest, drainTasks and drainPending, for every cluster that the resolver names for the path and
  -- that has an agent, the event is dispatched, and a request with the operation, mount, path and
  -- version of the change has arrived, at the URL and with the token of the agent. The fuels are above
  -- the number of tasks and above `all_rounds` of the events, and there are as many answers as that.
  pub ingested-HasReached :
      Smooth w
      → IsNumbered w.db
      → IsNewer ev w.db
      → has_task ev.request_id w.db.tasks ≡ false
      → All (λ (e : EventRow). e.request_id ≢ ev.request_id) w.db.events
      → length queued.db.tasks < f
      → all_rounds fanned.db.events < g
      → All IsSuccess w.answers
      → all_rounds fanned.db.events ≤ length w.answers
      → (cluster url token : Str) → Memᴰ cluster (resolver ev.mount ev.path)
      → agent_of cluster w.db.agents ≡ some (url, token)
      → HasReached ev cluster url token (drained_world resolver ev w f g)
  ingested-HasReached s n newer missing unheard f_enough g_enough good a_enough c url token named
        found =
      let (r, ran, out) = ingest-total ev w s in
      let q = Outcome-IsQueued ev (after_call w).clock w.db queued.db n newer missing out in
      let sq : Smooth queued = (ingest-Succeeds ev).smooth w s in
      let keyed = drain_tasks-IsKeyed resolver f queued q.keyed in
      let carried =
        drain_tasks-carried ev w f resolver queued
          ((ingest-Carrying ev w).carries w (starts ev w missing unheard)) in
      let covered =
        drain_tasks-Covered f resolver queued sq q.unique f_enough
          (task_of (after_call w).clock ev w.db.next_task_id) q.there in
      let (e, m, of_request, of_cluster) =
        found_row ev.request_id c fanned.db.events (All-mem _ covered named) in
      let (waits, says) = All-mem _ carried.carried.events m of_request in
      let (row, k, same, in_c, same_says, done, arrived) =
        drain_pending-IsDelivered g fanned e url token (drain_tasks-Smooth f resolver queued sq)
          (Pairs-map ◌≢◌ (λ (x : EventRow). x.id) fanned.db.events keyed.ids) g_enough
          (subst (All IsSuccess) (sym carried.same_answers) good)
          (subst (λ a. all_rounds fanned.db.events ≤ length a) (sym carried.same_answers) a_enough)
          m waits
          (ap (λ x. agent_of x fanned.db.agents) of_cluster
            ∙ ap (agent_of c) carried.carried.same_agents
            ∙ found) in
      (
        (row, k, in_c ∙ of_cluster, same_says ∙ says, done),
        subst
            (λ x.
              Memᴰ (record (request_of ev url token) { event = x })
                (drained_world resolver ev w f g).posts)
            says arrived,
      )

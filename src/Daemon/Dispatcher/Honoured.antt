-- ===== src/Daemon/Dispatcher/Honoured.antt =====
-- Which events RunDispatcher marks as dispatched, step by step.
use secret_control_panel.Base.{
  if◌then◌else◌, Bool-cases, nat_eq, All, All-mem, All-of-mem, mem_last, mem_appended, Result, ok,
  err, ℕ, ◌≡◌, refl, sym, ap, subst, ◌∙◌, inl, inr, Bool, true, false, Option, none, some, List, [],
  ◌∷◌, ◌++◌,
}
use secret_control_panel.Text.{Str}
use secret_control_panel.Db.{Db, AgentRow}
use secret_control_panel.Db.World.{World, Error, Post, select_agent, select_pending}
use secret_control_panel.Db.Steps.{autocommit-ok, autocommit-read}
use secret_control_panel.Daemon.Store.{
  PendingEvent, scan_event, fetch_pending, agent_of, agent_endpoint,
}
use secret_control_panel.Daemon.Processor.{batch_size, Wake}
use secret_control_panel.Daemon.Dispatcher.{
  head_answer, post_event, deliver, dispatch_one, run_dispatcher,
}
use secret_control_panel.Daemon.Dispatcher.Rows.{agent_endpoint-db}
use secret_control_panel.Daemon.Dispatcher.Ready.{UniqueEvents}
use secret_control_panel.Daemon.Dispatcher.Posting.{post_for, autocommit-posts}
use secret_control_panel.Daemon.Dispatcher.Unaltered.{IsRow}
use secret_control_panel.Daemon.Dispatcher.Keeps.{Keeps, run_dispatcher-Keeps}
use secret_control_panel.Daemon.Dispatcher.Receipt.{
  IsHonest, HasPost, IsReceived, IsHonoured, updated-IsHonoured, autocommit-answers,
  record_failure-IsHonoured, mark_dispatched-IsHonoured, honest-head, IsHonest-rest,
}

-- The requests of an agent that did or did not receive one more.
abbrev one_more : Bool → List Post → Post → List Post
one_more received posts p = if received then posts ++ p ∷ [] else posts

HasPost-one_more :
    (agents : List AgentRow) (received : Bool) (posts : List Post) (p : Post) (ev : PendingEvent)
    → HasPost agents posts ev
    → HasPost agents (one_more received posts p) ev
HasPost-one_more agents true posts p ev (url, token, found, m) =
    (url, token, found, mem_appended (p ∷ []) m)
HasPost-one_more agents false posts p ev h = h

-- A step that leaves the database, the answers and the requests as they are.
same-IsHonoured :
    (agents : List AgentRow) (w v : World)
    → v.posts ≡ w.posts
    → v.answers ≡ w.answers
    → v.db ≡ w.db
    → IsHonoured agents w
    → IsHonoured agents v
same-IsHonoured agents w v ps answers db h =
    updated-IsHonoured agents 0 (λ e. e) w v ps answers (inl db) (λ r m hit. All-mem _ h.received m)
      h

module _ (agents : List AgentRow) (ev : PendingEvent) where
  module _ (url token : Str) (w : World) where
    posted : World
    posted = (post_event url token ev.event w).1

    post_event-IsHonoured : IsHonoured agents w → IsHonoured agents posted
    unfolding posted post_event
    post_event-IsHonoured h = record {
      same_agents = h.same_agents;
      honest = IsHonest-rest agents w.answers h.honest;
      received = All-of-mem _ w.db.events (λ r m done.
          HasPost-one_more agents (head_answer w.answers).received w.posts (post_for ev url token)
            (scan_event r) (All-mem _ h.received m done));
    }

    -- The POST that succeeds has arrived.
    delivered-HasPost :
        agent_of ev.cluster agents ≡ some (url, token)
        → IsHonest w.answers
        → (post_event url token ev.event w).0 ≡ true
        → HasPost agents posted.posts ev
    unfolding posted post_event
    delivered-HasPost found honest success =
        rw (honest-head agents w.answers honest success)
          (url, token, found, mem_last w.posts (post_for ev url token))

    deliver-IsHonoured :
        agent_of ev.cluster agents ≡ some (url, token)
        → IsRow w.db.events ev
        → IsHonoured agents w
        → IsHonoured agents (deliver ev url token w).1
    unfolding deliver posted post_event
    deliver-IsHonoured found row h = elim (Bool-cases (post_event url token ev.event w).0) [
      | inl e ↦
          rw (e, deliver)
            (mark_dispatched-IsHonoured agents ev posted row (delivered-HasPost found h.honest e)
              (post_event-IsHonoured h))
      | inr e ↦
          rw (e, deliver) (record_failure-IsHonoured agents ev posted (post_event-IsHonoured h))
    ]

  agent_endpoint-IsHonoured :
      (w : World) → IsHonoured agents w → IsHonoured agents (agent_endpoint ev.cluster w).1
  unfolding agent_endpoint
  agent_endpoint-IsHonoured w h =
      same-IsHonoured agents w (agent_endpoint ev.cluster w).1 (autocommit-posts select_agent _ w)
        (autocommit-answers select_agent _ w) (autocommit-read select_agent _ w) h

  agent_endpoint-found :
      (w : World) (o : Option (Str × Str))
      → (agent_endpoint ev.cluster w).0 ≡ ok o
      → o ≡ agent_of ev.cluster w.db.agents
  unfolding agent_endpoint
  agent_endpoint-found w o k = (autocommit-ok select_agent _ w k).0

  dispatch_one-IsHonoured :
      (w : World)
      → IsRow w.db.events ev
      → IsHonoured agents w
      → IsHonoured agents (dispatch_one ev w).1
  dispatch_one-IsHonoured w row h = by_lookup (agent_endpoint ev.cluster w).0 refl
    where
      w' : World
      w' = (agent_endpoint ev.cluster w).1

      h' : IsHonoured agents w'
      h' = agent_endpoint-IsHonoured w h

      by_lookup :
          (o : Result Error (Option (Str × Str)))
          → (agent_endpoint ev.cluster w).0 ≡ o
          → IsHonoured agents (dispatch_one ev w).1
      by_lookup (err e) k = unfold dispatch_one in rw (k, dispatch_one) h'
      by_lookup (ok none) k =
          unfold dispatch_one in rw (k, dispatch_one) (record_failure-IsHonoured agents ev w' h')
      by_lookup (ok (some (url, token))) k =
          unfold dispatch_one in
          rw (k, dispatch_one)
            (deliver-IsHonoured url token w'
              (ap (agent_of ev.cluster) (sym h.same_agents)
                ∙ sym (agent_endpoint-found w (some (url, token)) k))
              (subst (λ (d : Db). IsRow d.events ev) (sym (agent_endpoint-db ev w)) row) h')

module _ (agents : List AgentRow) where
  fetch-IsHonoured :
      (w : World) → IsHonoured agents w → IsHonoured agents (fetch_pending batch_size w).1
  unfolding fetch_pending
  fetch-IsHonoured w h =
      same-IsHonoured agents w (fetch_pending batch_size w).1 (autocommit-posts select_pending _ w)
        (autocommit-answers select_pending _ w) (autocommit-read select_pending _ w) h

  pub Keeps-IsHonoured : Keeps (IsHonoured agents)
  Keeps-IsHonoured = record {
    fetch = fetch-IsHonoured;
    dispatch = λ ev w copy h. dispatch_one-IsHonoured agents ev w copy.row h;
  }

  run_dispatcher-IsHonoured :
      (fuel : ℕ) (wakes : List Wake) (w : World)
      → UniqueEvents w.db.events
      → IsHonoured agents w
      → IsHonoured agents (run_dispatcher fuel wakes w)
  run_dispatcher-IsHonoured fuel wakes w u h =
      (run_dispatcher-Keeps (IsHonoured agents) Keeps-IsHonoured
        (λ t w h. record { same_agents = h.same_agents; honest = h.honest; received = h.received })
        fuel wakes w u h).1

-- However the calls of the database and the POSTs end, whenever the dispatcher wakes and however long
-- its rounds are: if an agent that answers with a success has received the request, the ids of the
-- events are unique, and every event that is dispatched was received, then every event that is
-- dispatched after RunDispatcher was received. That is, the agents table has a row for its cluster,
-- and a request with the event, for the URL and with the token of that row, has arrived.
pub run_dispatcher-IsReceived :
    (fuel : ℕ) (wakes : List Wake) (w : World)
    → IsHonest w.answers
    → UniqueEvents w.db.events
    → All (IsReceived w.db.agents w.posts) w.db.events
    → All
        (IsReceived w.db.agents (run_dispatcher fuel wakes w).posts)
        (run_dispatcher fuel wakes w).db.events
run_dispatcher-IsReceived fuel wakes w honest unique received =
    (run_dispatcher-IsHonoured w.db.agents fuel wakes w unique
      (record { same_agents = refl; honest = honest; received = received })).received

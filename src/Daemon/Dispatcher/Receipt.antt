-- ===== src/Daemon/Dispatcher/Receipt.antt =====
-- What "dispatched" says: the agent of the event's cluster has received the event.
use secret_control_panel.Base.{
  nat_eq, All, All-mem, All-of-mem, ℕ, ◌+◌, ◌≡◌, sym, ap, subst, ◌∙◌, ◌≢◌, ◌⊎◌, inl, inr, true,
  false≢true, some, List, [], ◌∷◌, Memᴰ, arith,
}
use secret_control_panel.Text.{Str}
use secret_control_panel.Wire.{Time}
use secret_control_panel.Db.{Db, AgentRow, EventRow, dispatched}
use secret_control_panel.Db.World.{
  World, Error, Answer, Post, after_call, autocommit, mark_failed_failed, mark_dispatched_failed,
}
use secret_control_panel.Db.Steps.{autocommit_cases}
use secret_control_panel.Daemon.Store.{
  PendingEvent, scan_event, agent_of, mark_failed, mark_dispatched, update_event, set_dispatched,
}
use secret_control_panel.Daemon.Backoff.{backoff}
use secret_control_panel.Daemon.Dispatcher.{accepted, head_answer, rest_answers, record_failure}
use secret_control_panel.Daemon.Dispatcher.Rows.{fail_once}
use secret_control_panel.Daemon.Dispatcher.Ready.{All-update}
use secret_control_panel.Daemon.Dispatcher.Unaltered.{IsRow}
use secret_control_panel.Daemon.Dispatcher.Posting.{post_for, autocommit-posts}

-- An agent that answers with a success has received the request.
abbrev pub IsHonest : List Answer → Type 0
IsHonest = All (λ a. accepted a.status ≡ true → a.received ≡ true)

-- The agent that is registered for the cluster has received the event, with its own token.
abbrev pub HasPost : List AgentRow → List Post → PendingEvent → Type 0
HasPost agents posts ev =
    (url : Str) × (token : Str) × (agent_of ev.cluster agents ≡ some (url, token))
    × Memᴰ (post_for ev url token) posts

abbrev pub IsReceived : List AgentRow → List Post → EventRow → Type 0
IsReceived agents posts e = e.status ≡ dispatched → HasPost agents posts (scan_event e)

-- Every event that is dispatched was received.
pub record IsHonoured (agents : List AgentRow) (w : World) : Type 0 where
  pub same_agents : w.db.agents ≡ agents
  pub honest : IsHonest w.answers
  pub received : All (IsReceived agents w.posts) w.db.events

pub autocommit-answers :
    {A : Type 0} (e : Error) (f : Time → Db → A × Db) (w : World)
    → (autocommit e f w).1.answers ≡ w.answers
unfolding autocommit
autocommit-answers e f w = ground arith

-- The same row behind two views of an event.
same-HasPost :
    (agents : List AgentRow) (posts : List Post) (p q : PendingEvent)
    → p.cluster ≡ q.cluster
    → p.event ≡ q.event
    → HasPost agents posts q
    → HasPost agents posts p
same-HasPost agents posts p q c e (url, token, found, m) = (
  url,
  token,
  ap (λ k. agent_of k agents) c ∙ found,
  subst (λ ev. Memᴰ (record (post_for q url token) { event = ev }) posts) (sym e) m,
)

module _ (agents : List AgentRow) where
  -- The rows change by an update, with the posts and answers as they were.
  pub updated-IsHonoured :
      (id : ℕ) (f : EventRow → EventRow) (w v : World)
      → v.posts ≡ w.posts
      → v.answers ≡ w.answers
      → (v.db ≡ w.db) ⊎ (v.db ≡ record w.db { events = update_event id f w.db.events })
      → ((e : EventRow) → Memᴰ e w.db.events → e.id ≡ id → IsReceived agents w.posts (f e))
      → IsHonoured agents w
      → IsHonoured agents v
  updated-IsHonoured id f w v ps as' (inl e) good h = record {
    same_agents = ap (λ (d : Db). d.agents) e ∙ h.same_agents;
    honest = subst IsHonest (sym as') h.honest;
    received =
        subst (λ (d : Db). All (IsReceived agents v.posts) d.events) (sym e)
          (subst (λ q. All (IsReceived agents q) w.db.events) (sym ps) h.received);
  }
  updated-IsHonoured id f w v ps as' (inr e) good h = record {
    same_agents = ap (λ (d : Db). d.agents) e ∙ h.same_agents;
    honest = subst IsHonest (sym as') h.honest;
    received =
        subst (λ (d : Db). All (IsReceived agents v.posts) d.events) (sym e)
          (subst (λ q. All (IsReceived agents q) (update_event id f w.db.events)) (sym ps)
            (All-update id f (IsReceived agents w.posts) w.db.events
              (All-of-mem _ w.db.events (λ r m. (good r m, λ miss. All-mem _ h.received m)))));
  }

  failed_status :
      (ev : PendingEvent) (next : ℕ) (e : EventRow) → (fail_once ev next e).status ≢ dispatched
  failed_status ev next e h = ground arith

  pub record_failure-IsHonoured :
      (ev : PendingEvent) (w : World)
      → IsHonoured agents w
      → IsHonoured agents (record_failure ev w).1
  unfolding record_failure mark_failed
  record_failure-IsHonoured ev w h =
      updated-IsHonoured ev.id (fail_once ev (w.clock + backoff (ev.attempts + 1))) w
        (record_failure ev w).1 (autocommit-posts mark_failed_failed _ w)
        (autocommit-answers mark_failed_failed _ w) (autocommit_cases mark_failed_failed _ w)
        (λ r m hit bad. absurd (failed_status ev (w.clock + backoff (ev.attempts + 1)) r bad)) h

  pub mark_dispatched-IsHonoured :
      (ev : PendingEvent) (w : World)
      → IsRow w.db.events ev
      → HasPost agents w.posts ev
      → IsHonoured agents w
      → IsHonoured agents (mark_dispatched ev.id w).1
  unfolding mark_dispatched
  mark_dispatched-IsHonoured ev w row there h =
      updated-IsHonoured ev.id (set_dispatched (after_call w).clock) w (mark_dispatched ev.id w).1
        (autocommit-posts mark_dispatched_failed _ w)
        (autocommit-answers mark_dispatched_failed _ w)
        (autocommit_cases mark_dispatched_failed _ w)
        (λ r m hit is_dispatched.
          let (c, e) = All-mem _ row m hit in
          same-HasPost agents w.posts (scan_event r) ev c e there)
        h

  pub honest-head :
      (as' : List Answer)
      → IsHonest as'
      → accepted (head_answer as').status ≡ true
      → (head_answer as').received ≡ true
  honest-head [] h a = absurd (false≢true a)
  honest-head (x ∷ as') h a = h.0 a

  pub IsHonest-rest : (as' : List Answer) → IsHonest as' → IsHonest (rest_answers as')
  IsHonest-rest [] h = tt
  IsHonest-rest (x ∷ as') h = h.1

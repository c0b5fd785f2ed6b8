-- ===== src/Daemon/Dispatcher/Posting.antt =====
-- What dispatchOne sends to an agent.
use secret_control_panel.Base.{
  if◌then◌else◌, nat_eq, Result, ◌≡◌, ap, Option, some, List, [], ◌∷◌, ◌++◌, arith,
}
use secret_control_panel.Text.{Str, trim_right}
use secret_control_panel.Wire.{Time, events_path, auth_scheme}
use secret_control_panel.Db.{Db}
use secret_control_panel.Db.World.{World, Post, Error, autocommit, after_call, select_agent}
use secret_control_panel.Db.Smooth.{Smooth, Smooth-next, autocommit-done}
use secret_control_panel.Daemon.Store.{
  PendingEvent, agent_of, agent_endpoint, mark_dispatched, mark_failed,
}
use secret_control_panel.Daemon.Dispatcher.{
  head_answer, post_event, record_failure, deliver, dispatch_one,
}
use secret_control_panel.Daemon.Dispatcher.Rows.{deliver_rule}

-- The request for an event, to the agent at `url` with `token`.
abbrev pub post_for : PendingEvent → Str → Str → Post
post_for ev url token = record {
  url = trim_right url b'/' ++ events_path;
  authorization = auth_scheme ++ token;
  event = ev.event;
}

pub autocommit-posts :
    {A : Type 0} (e : Error) (f : Time → Db → A × Db) (w : World)
    → (autocommit e f w).1.posts ≡ w.posts
unfolding autocommit
autocommit-posts e f w = ground arith

module _ (ev : PendingEvent) where
  -- The requests that the agent has received after the POST.
  abbrev pub sent : Str → Str → World → List Post
  sent url token w =
      if (head_answer w.answers).received then w.posts ++ post_for ev url token ∷ [] else w.posts

  deliver-posts :
      (url token : Str) (w : World) → (deliver ev url token w).1.posts ≡ sent url token w
  unfolding post_event
  deliver-posts url token w =
      let posted = (post_event url token ev.event w).1 in
      deliver_rule ev (λ v. v.posts ≡ sent url token w) url token w
        (unfold record_failure mark_failed in autocommit-posts _ _ posted)
        (unfold mark_dispatched in autocommit-posts _ _ posted)

  -- Where no call of the database fails, dispatchOne POSTs the event once, to the URL and with the
  -- token that the agents table has for its cluster.
  pub dispatch_one-posts :
      (url token : Str) (w : World)
      → Smooth w
      → agent_of ev.cluster w.db.agents ≡ some (url, token)
      → (dispatch_one ev w).1.posts ≡ sent url token w
  unfolding dispatch_one agent_endpoint
  dispatch_one-posts url token w s h =
      let found =
        autocommit-done select_agent (λ now (db : Db). (agent_of ev.cluster db.agents, db)) w
          (Smooth-next w s) in
      rw
        (
          ap (λ (q : Result Error (Option (Str × Str)) × World). q.0) found,
          h,
          dispatch_one,
          ap (λ (q : Result Error (Option (Str × Str)) × World). q.1) found,
        )
        (deliver-posts url token (after_call w))

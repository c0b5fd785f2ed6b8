-- ===== src/Daemon/Dispatcher/Serving.antt =====
-- One dispatch where neither the database nor the agent fails.
use secret_control_panel.Base.{
  if◌then◌else◌, nat_eq, mem_last, mem_appended, Result, ℕ, ◌≡◌, sym, ap, subst, ◌∙◌, ◌⊎◌, inl, inr,
  Bool, true, false, Option, some, List, [], ◌∷◌, ◌++◌, Memᴰ, arith,
}
use secret_control_panel.Text.{Str}
use secret_control_panel.Db.{Db}
use secret_control_panel.Db.World.{
  World, Error, Answer, Post, after_call, select_agent, mark_dispatched_failed, autocommit,
}
use secret_control_panel.Db.Smooth.{Smooth, Smooth-next, Smooth-after_call, autocommit-done}
use secret_control_panel.Daemon.Store.{
  PendingEvent, agent_of, agent_endpoint, mark_dispatched, mark_failed, update_event,
  set_dispatched,
}
use secret_control_panel.Daemon.Dispatcher.{
  accepted, head_answer, rest_answers, post_event, record_failure, deliver, dispatch_one,
}
use secret_control_panel.Daemon.Dispatcher.Rows.{deliver_rule, dispatch_rule}
use secret_control_panel.Daemon.Dispatcher.Posting.{post_for, dispatch_one-posts}

-- An answer of an agent that has the event: received, and with a status below 300.
abbrev pub IsSuccess : Answer → Type 0
IsSuccess a = (accepted a.status ≡ true) × (a.received ≡ true)

-- What an attempt may take of the answers to come.
abbrev pub IsRestOf : List Answer → List Answer → Type 0
IsRestOf answers rest = (rest ≡ answers) ⊎ (rest ≡ rest_answers answers)

-- A dispatch uses one answer at most, and takes no request back.
pub record Sends (w v : World) : Type 0 where
  pub used : IsRestOf w.answers v.answers
  pub kept : (p : Post) → Memᴰ p w.posts → Memᴰ p v.posts
  pub same_agents : v.db.agents ≡ w.db.agents

quiet-Sends :
    (w v : World)
    → v.answers ≡ w.answers
    → v.posts ≡ w.posts
    → v.db.agents ≡ w.db.agents
    → Sends w v
quiet-Sends w v a p g = record {
  used = inl a;
  kept = λ q m. subst (Memᴰ q) (sym p) m;
  same_agents = g;
}

module _ (ev : PendingEvent) where
  lookup_quiet :
      (w : World)
      → ((agent_endpoint ev.cluster w).1.answers ≡ w.answers)
        × ((agent_endpoint ev.cluster w).1.posts ≡ w.posts)
        × ((agent_endpoint ev.cluster w).1.db.agents ≡ w.db.agents)
  unfolding agent_endpoint autocommit
  lookup_quiet w = ground arith

  failure_quiet :
      (w : World)
      → ((record_failure ev w).1.answers ≡ w.answers)
        × ((record_failure ev w).1.posts ≡ w.posts)
        × ((record_failure ev w).1.db.agents ≡ w.db.agents)
  unfolding record_failure mark_failed autocommit
  failure_quiet w = ground arith

  success_quiet :
      (w : World)
      → ((mark_dispatched ev.id w).1.answers ≡ w.answers)
        × ((mark_dispatched ev.id w).1.posts ≡ w.posts)
        × ((mark_dispatched ev.id w).1.db.agents ≡ w.db.agents)
  unfolding mark_dispatched autocommit
  success_quiet w = ground arith

  posted-kept :
      (received : Bool) (posts : List Post) (p q : Post)
      → Memᴰ q posts
      → Memᴰ q (if received then posts ++ p ∷ [] else posts)
  posted-kept true posts p q m = mem_appended (p ∷ []) m
  posted-kept false posts p q m = m

  deliver-Sends : (url token : Str) (w : World) → Sends w (deliver ev url token w).1
  unfolding post_event
  deliver-Sends url token w =
      let posted = (post_event url token ev.event w).1 in
      deliver_rule ev (Sends w) url token w
        (let (a, p, g) = failure_quiet posted in after_post a p g)
        (let (a, p, g) = success_quiet posted in after_post a p g)
    where
      after_post :
          {v : World}
          → v.answers ≡ rest_answers w.answers
          → v.posts ≡ (post_event url token ev.event w).1.posts
          → v.db.agents ≡ w.db.agents
          → Sends w v
      after_post a p g = record {
        used = inr a;
        kept = λ q m.
            subst (Memᴰ q) (sym p)
              (posted-kept (head_answer w.answers).received w.posts (post_for ev url token) q m);
        same_agents = g;
      }

  -- However its calls end.
  pub dispatch_one-Sends : (w : World) → Sends w (dispatch_one ev w).1
  dispatch_one-Sends w =
      let w' = (agent_endpoint ev.cluster w).1 in
      let (a, p, g) = lookup_quiet w in
      let (a', p', g') = failure_quiet w' in
      dispatch_rule ev (Sends w) w (λ e k. quiet-Sends w w' a p g)
        (quiet-Sends w (record_failure ev w').1 (a' ∙ a) (p' ∙ p) (g' ∙ g))
        (λ url token.
          let d = deliver-Sends url token w' in
          record {
            used = elim d.used [ inl e ↦ inl (e ∙ a) | inr e ↦ inr (e ∙ ap rest_answers a) ];
            kept = λ q m. d.kept q (subst (Memᴰ q) (sym p) m);
            same_agents = d.same_agents ∙ g;
          })

  -- What a success leaves.
  pub record Served (url token : Str) (w v : World) : Type 0 where
    pub now : ℕ
    pub moved : v.db ≡ record w.db { events = update_event ev.id (set_dispatched now) w.db.events }
    pub arrived : Memᴰ (post_for ev url token) v.posts

  deliver-moved :
      (url token : Str) (w : World)
      → Smooth w
      → accepted (head_answer w.answers).status ≡ true
      → (now : ℕ) × ((deliver ev url token w).1.db
          ≡ record w.db { events = update_event ev.id (set_dispatched now) w.db.events })
  unfolding deliver post_event mark_dispatched
  deliver-moved url token w s success =
      let posted = (post_event url token ev.event w).1 in
      let done_now =
        autocommit-done mark_dispatched_failed
          (λ now (db : Db).
            (tt, record db { events = update_event ev.id (set_dispatched now) db.events }))
          posted (Smooth-next posted s) in
      rw (success, deliver)
        ((after_call posted).clock, ap (λ (r : Result Error (Unit {0}) × World). r.1.db) done_now)

  pub dispatch_one-Served :
      (url token : Str) (a : Answer) (rest : List Answer) (w : World)
      → Smooth w
      → agent_of ev.cluster w.db.agents ≡ some (url, token)
      → w.answers ≡ a ∷ rest
      → IsSuccess a
      → Served url token w (dispatch_one ev w).1
  unfolding dispatch_one agent_endpoint
  dispatch_one-Served url token a rest w s found answers (success, received) =
      let looked =
        autocommit-done select_agent (λ now (db : Db). (agent_of ev.cluster db.agents, db)) w
          (Smooth-next w s) in
      let (now, moved) =
        deliver-moved url token (after_call w) (Smooth-after_call w s) (rw answers success) in
      record {
        now = now;
        moved =
            rw
              (
                ap (λ (q : Result Error (Option (Str × Str)) × World). q.0) looked,
                found,
                dispatch_one,
                ap (λ (q : Result Error (Option (Str × Str)) × World). q.1) looked,
              )
              moved;
        arrived =
            subst (Memᴰ (post_for ev url token)) (sym (dispatch_one-posts ev url token w s found))
              (rw (answers, received) (mem_last w.posts (post_for ev url token)));
      }

-- ===== src/Daemon/Dispatcher/Delivered.antt =====
-- The loop of drainPending where neither the database nor the agents fail.
use secret_control_panel.Base.{
  nat_eq, length, filter, All, All-mem, All-of-mem, Pairs-of-map, Pairs-eq, ℕ, ◌≤◌, ◌<◌, ◌≡◌, sym,
  ap, subst, ◌∙◌, ◌≢◌, ◌⊎◌, inl, inr, some, [], Memᴰ,
}
use secret_control_panel.Text.{Str}
use secret_control_panel.Wire.{SecretEvent}
use secret_control_panel.Db.{Db, EventRow, pending, dispatched}
use secret_control_panel.Db.World.{World, select_pending}
use secret_control_panel.Db.Steps.{autocommit-read}
use secret_control_panel.Db.Smooth.{Smooth}
use secret_control_panel.Daemon.Store.{scan_event, agent_of, fetch_pending, is_due}
use secret_control_panel.Daemon.Processor.{batch_size}
use secret_control_panel.Daemon.Dispatcher.{drain_pending}
use secret_control_panel.Daemon.Dispatcher.Ready.{UniqueEvents, ids}
use secret_control_panel.Daemon.Dispatcher.Rounds.{all_rounds}
use secret_control_panel.Daemon.Dispatcher.Draining.{
  not-pending, fetch_pending-Succeeds, drain_pending-IsDrained,
}
use secret_control_panel.Daemon.Dispatcher.Posting.{post_for, autocommit-posts}
use secret_control_panel.Daemon.Dispatcher.Receipt.{autocommit-answers}
use secret_control_panel.Daemon.Dispatcher.Unaltered.{found_id, id_of}
use secret_control_panel.Daemon.Dispatcher.Keeps.{Keeps, drain_pending-Keeps}
use secret_control_panel.Daemon.Dispatcher.Serving.{IsSuccess}
use secret_control_panel.Daemon.Dispatcher.Progress.{IsServed, Serving, dispatch_one-Serving}

module _ (i : ℕ) (c url token : Str) (secret : SecretEvent) where
  abbrev Good : World → Type 0
  Good = Serving i c url token secret

  fetch-Serving : (w : World) → Good w → Good (fetch_pending batch_size w).1
  unfolding fetch_pending
  fetch-Serving w h =
      let v = (fetch_pending batch_size w).1 in
      let read : v.db ≡ w.db = autocommit-read select_pending _ w in
      let answers : v.answers ≡ w.answers = autocommit-answers select_pending _ w in
      let posts : v.posts ≡ w.posts = autocommit-posts select_pending _ w in
      record {
        smooth = fetch_pending-Succeeds.smooth w h.smooth;
        unique = subst (λ (d : Db). UniqueEvents d.events) (sym read) h.unique;
        successes = subst (All IsSuccess) (sym answers) h.successes;
        enough = rw (read, answers) h.enough;
        registered = ap (λ (d : Db). agent_of c d.agents) read ∙ h.registered;
        there = subst (λ (d : Db). Memᴰ i (ids d.events)) (sym read) h.there;
        served = rw (read, posts) h.served;
      }

  Keeps-Serving : Keeps Good
  Keeps-Serving = record {
    fetch = fetch-Serving;
    dispatch = λ ev w copy h.
        dispatch_one-Serving i c url token secret ev w h copy.ready copy.row copy.known;
  }

-- The event, of which only the state has changed, is dispatched, and its request has arrived.
abbrev pub IsDelivered : EventRow → Str → Str → World → Type 0
IsDelivered e url token w =
    (r : EventRow) × Memᴰ r w.db.events
    × (r.id ≡ e.id)
    × (r.cluster ≡ e.cluster)
    × ((scan_event r).event ≡ (scan_event e).event)
    × (r.status ≡ dispatched)
    × Memᴰ (post_for (scan_event e) url token) w.posts

-- Where no call of the database fails, every POST is received and answered with a status below 300,
-- and the ids of the events are unique, drainPending delivers every pending event whose cluster has an
-- agent: when it returns, the event is dispatched, and a request with the event has arrived, at the
-- URL and with the token that the agents table has. Fuel above `all_rounds` of the events, and as many
-- answers as that, are enough.
pub drain_pending-IsDelivered :
    (fuel : ℕ) (w : World) (e : EventRow) (url token : Str)
    → Smooth w
    → UniqueEvents w.db.events
    → all_rounds w.db.events < fuel
    → All IsSuccess w.answers
    → all_rounds w.db.events ≤ length w.answers
    → Memᴰ e w.db.events
    → e.status ≡ pending
    → agent_of e.cluster w.db.agents ≡ some (url, token)
    → IsDelivered e url token (drain_pending fuel w).1
drain_pending-IsDelivered fuel w e url token s u fuel_left good answers_left m waits found =
    let start : Serving e.id e.cluster url token (scan_event e).event w = record {
      smooth = s;
      unique = u;
      successes = good;
      enough = answers_left;
      registered = found;
      there = id_of e w.db.events m;
      served = All-of-mem _ w.db.events (λ r k same. waiting r k same);
    } in
    let after =
      (drain_pending-Keeps _ (Keeps-Serving e.id e.cluster url token (scan_event e).event) fuel w u
        start).1 in
    let (r, k, same) = found_id e.id v.db.events after.there in
    let (in_c, says, state) = All-mem _ after.served k same in
    let drained = drain_pending-IsDrained fuel w s u fuel_left in
    let (done, arrived) = by_state r k drained.1 state in (r, k, same, in_c, says, done, arrived)
  where
    v : World
    v = (drain_pending fuel w).1

    waiting :
        (r : EventRow)
        → Memᴰ r w.db.events
        → IsServed e.id e.cluster url token (scan_event e).event w.posts r
    waiting r k same =
        let one : r ≡ e =
          Pairs-eq (λ (q : EventRow). q.id) w.db.events
            (Pairs-of-map ◌≢◌ (λ (q : EventRow). q.id) w.db.events u) r e k m same in
        (
          ap (λ (q : EventRow). q.cluster) one,
          ap (λ (q : EventRow). (scan_event q).event) one,
          inl (ap (λ (q : EventRow). q.status) one ∙ waits),
        )

    by_state :
        (r : EventRow)
        → Memᴰ r v.db.events
        → filter (is_due v.clock) v.db.events ≡ []
        → (r.status ≡ pending)
          ⊎ ((r.status ≡ dispatched) × Memᴰ (post_for (scan_event e) url token) v.posts)
        → (r.status ≡ dispatched) × Memᴰ (post_for (scan_event e) url token) v.posts
    by_state r k none_left (inl p) = absurd (not-pending v.clock v.db.events r none_left k p)
    by_state r k none_left (inr d) = d

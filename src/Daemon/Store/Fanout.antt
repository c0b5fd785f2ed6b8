-- ===== src/Daemon/Store/Fanout.antt =====
-- What FanoutTask does to the tables.
use mathlib.Core.List.{append-nil}
use secret_control_panel.Base.{
  ltb, if◌then◌else◌, Bool-cases, nat_eq, length, All, Result, ok, ℕ, ◌+◌, ◌≡◌, refl, sym, ap,
  subst, ◌∙◌, ◌⊎◌, inl, inr, true, List, [], ◌∷◌, ◌++◌, arith,
}
use secret_control_panel.Text.{Str, str_eq}
use secret_control_panel.Wire.{Time, SecretEvent}
use secret_control_panel.Db.{Db, EventRow, rollback}
use secret_control_panel.Db.World.{
  World, M, Error, insert_event, delete_task, after_call, statement, ◌>>◌,
}
use secret_control_panel.Db.Steps.{bind-ok, transaction-ok, transaction_cases, SameRows}
use secret_control_panel.Db.Smooth.{
  Smooth, Succeeds, succeeds_rules, Succeeds-bind, Succeeds-statement,
}
use secret_control_panel.Daemon.Store.{
  insert_event_row, insert_events, remove_task, notify_if_any, events_channel, fanout_body,
  fanout_task,
}
use secret_control_panel.Daemon.Store.Inserts.{has_event, IsAdded, Fanned, insert_events-ok}

-- What a successful FanoutTask did: every cluster has an event of the request, the new events are
-- pending and for clusters that had none, the old events and all else are as they were, the task is
-- gone, and a notification is sent exactly if there is a new event.
pub record FannedOut (now : Time) (task_id : ℕ) (ev : SecretEvent) (clusters : List Str)
    (old new : Db) : Type 0 where
  pub added : List EventRow
  pub events : new.events ≡ old.events ++ added
  pub fresh : All (IsAdded now ev clusters old.events) added
  pub covered : All (λ c. has_event ev.request_id c new.events ≡ true) clusters
  pub tasks : new.tasks ≡ remove_task task_id old.tasks
  pub notices :
      new.notices ≡ old.notices ++ (if ltb 0 (length added) then events_channel ∷ [] else [])
  pub others : new ≡ record old {
    events = new.events;
    next_event_id = new.next_event_id;
    tasks = new.tasks;
    notices = new.notices;
  }

-- The end of the body, after the inserts.
abbrev finish : ℕ → ℕ → M (Unit {0})
finish task_id count =
    statement delete_task (λ db. (tt {0}, record db { tasks = remove_task task_id db.tasks }))
    >> notify_if_any count

finish-ok :
    (task_id count : ℕ) (w : World)
    → (finish task_id count w).0 ≡ ok tt
    → (finish task_id count w).1.db ≡ record w.db {
      tasks = remove_task task_id w.db.tasks;
      notices = w.db.notices ++ (if ltb 0 count then events_channel ∷ [] else []);
    }
unfolding statement
finish-ok task_id count w h = elim (Bool-cases (ltb 0 count)) [
  | inl some_new ↦ ground arith
  | inr none_new ↦ ground (arith, append-nil w.db.notices)
]

module _ (task_id : ℕ) (ev : SecretEvent) (clusters : List Str) where
  assemble :
      (now : Time) (db d new : Db) (added : List EventRow) (total : ℕ)
      → Fanned now ev clusters db d added
      → total ≡ 0 + length added
      → new ≡ record d {
        tasks = remove_task task_id d.tasks;
        notices = d.notices ++ (if ltb 0 total then events_channel ∷ [] else []);
      }
      → FannedOut now task_id ev clusters db new
  assemble now db d new added total f sum e =
      let counted : total ≡ length added = omega arith in
      let same_events : d.events ≡ new.events = sym (ap (λ (t : Db). t.events) e) in
      let same_tasks : d.tasks ≡ db.tasks = ap (λ (t : Db). t.tasks) f.others in
      let same_notices : d.notices ≡ db.notices = ap (λ (t : Db). t.notices) f.others in
      record {
        added = added;
        events = sym same_events ∙ f.events;
        fresh = f.fresh;
        covered =
            subst (λ es. All (λ c. has_event ev.request_id c es ≡ true) clusters) same_events
              f.covered;
        tasks = ap (λ (t : Db). t.tasks) e ∙ ap (remove_task task_id) same_tasks;
        notices = ap (λ (t : Db). t.notices) e ∙ rw (counted, same_notices);
        others = ground (arith, e, f.others);
      }

  body-FannedOut :
      (now : Time) (w : World)
      → (fanout_body task_id ev clusters now w).0 ≡ ok tt
      → FannedOut now task_id ev clusters w.db (fanout_body task_id ev clusters now w).1.db
  unfolding fanout_body
  body-FannedOut now w h =
      let inserts = insert_events now ev clusters 0 in
      let (total, first, whole) = bind-ok inserts (finish task_id) w h in
      let (added, f, sum) = insert_events-ok now ev clusters 0 w first in
      let w' = (inserts w).1 in
      let last =
        finish-ok task_id total w'
          (sym (ap (λ (r : Result Error (Unit {0}) × World). r.0) whole) ∙ h) in
      subst (λ (r : Result Error (Unit {0}) × World). FannedOut now task_id ev clusters w.db r.1.db)
        (sym whole) (assemble now w.db w'.db (finish task_id total w').1.db added total f sum last)

  -- However its calls end, FanoutTask leaves the rows as they were, or has its whole effect.
  pub fanout_atomic :
      (w : World)
      → SameRows w.db (fanout_task task_id ev clusters w).1.db
        ⊎ FannedOut
            (after_call w).clock
            task_id
            ev
            clusters
            w.db
            (fanout_task task_id ev clusters w).1.db
  unfolding fanout_task rollback
  fanout_atomic w = elim (transaction_cases (fanout_body task_id ev clusters) w) [
    | inl same ↦ inl (rw same refl)
    | inr (inl undone) ↦ inl (rw undone refl)
    | inr (inr (tt, ran, db)) ↦ inr (rw db (body-FannedOut (after_call w).clock (after_call w) ran))
  ]

  -- A FanoutTask that succeeds has its whole effect: every cluster has an event of the request, the
  -- new events are pending and for clusters that had none, the old events are as they were, the task
  -- is gone, and a notification is sent exactly if there is a new event.
  pub fanout-FannedOut :
      (w : World)
      → (fanout_task task_id ev clusters w).0 ≡ ok tt
      → FannedOut
          (after_call w).clock
          task_id
          ev
          clusters
          w.db
          (fanout_task task_id ev clusters w).1.db
  unfolding fanout_task
  fanout-FannedOut w h =
      let (ran, db) = transaction-ok (fanout_body task_id ev clusters) w h in
      rw db (body-FannedOut (after_call w).clock (after_call w) ran)

insert_events-Succeeds :
    (now : Time) (ev : SecretEvent) (cs : List Str) (count : ℕ)
    → Succeeds (insert_events now ev cs count)
unfolding insert_events
insert_events-Succeeds now ev [] count = search succeeds_rules
insert_events-Succeeds now ev (c ∷ cs) count =
    Succeeds-bind (statement (insert_event c) (insert_event_row now ev c)) _
      (Succeeds-statement (insert_event c) (insert_event_row now ev c))
      (λ n. insert_events-Succeeds now ev cs (count + n))

pub fanout-Succeeds :
    (task_id : ℕ) (ev : SecretEvent) (clusters : List Str)
    → Succeeds (fanout_task task_id ev clusters)
unfolding fanout_task fanout_body
fanout-Succeeds task_id ev clusters = search (succeeds_rules, insert_events-Succeeds) depth 9

-- Where no call of the database fails, FanoutTask succeeds, with its whole effect.
fanout-total :
    (task_id : ℕ) (ev : SecretEvent) (clusters : List Str) (w : World)
    → Smooth w
    → ((fanout_task task_id ev clusters w).0 ≡ ok tt)
      × FannedOut
          (after_call w).clock
          task_id
          ev
          clusters
          w.db
          (fanout_task task_id ev clusters w).1.db
fanout-total task_id ev clusters w s =
    let (tt, e) = (fanout-Succeeds task_id ev clusters).result w s in
    (e, fanout-FannedOut task_id ev clusters w e)

-- ===== src/Daemon/Store/Unique.antt =====
-- The keys of the events table under FanoutTask: the ids that the sequence gives out, and the
-- constraint UNIQUE (request_id, cluster).
use mathlib.Core.Path.{subst₂}
use secret_control_panel.Base.{
  ltb, Bool-cases, nat_eq, eq_iff, any, All, All-append, All-mem, All-of-mem, Result, ok, err,
  Pairs, Pairs-append-one, ℕ, suc, ◌+◌, ◌≤◌, ◌<◌, ◌≡◌, refl, sym, subst, ◌∙◌, ◌≢◌, ◌⊎◌, inl, inr,
  true, false, false≢true, List, [], ◌∷◌, le_trans, le_refl, arith,
}
use secret_control_panel.Text.{Str, str_eq}
use secret_control_panel.Wire.{Time, SecretEvent}
use secret_control_panel.Db.{Db, EventRow, rollback}
use secret_control_panel.Db.World.{
  World, M, Error, insert_event, delete_task, notify_failed, after_call, continue, statement, ◌>>=◌,
  pure,
}
use secret_control_panel.Db.Steps.{transaction_cases}
use secret_control_panel.Daemon.Store.{
  is_for, pending_row, insert_event_row, insert_events, remove_task, notify_if_any, fanout_body,
  fanout_task,
}

abbrev pub SameKey : EventRow → EventRow → Type 0
SameKey a b = (a.request_id ≡ b.request_id) × (a.cluster ≡ b.cluster)

-- Ids are unique and below the sequence, and no two events are of one request and cluster.
pub record IsKeyed (db : Db) : Type 0 where
  pub ids : Pairs (λ (a : EventRow) (b : EventRow). a.id ≢ b.id) db.events
  pub bounded : All (λ (e : EventRow). e.id < db.next_event_id) db.events
  pub keys : Pairs (λ a b. ¬ SameKey a b) db.events

-- What each part of the transaction keeps.
abbrev Grows : Db → Db → Type 0
Grows old new = IsKeyed new × (old.next_event_id ≤ new.next_event_id)

record Keeps {A : Type 0} (m : M A) : Type 0 where
  kept : (w : World) → IsKeyed w.db → Grows w.db (m w).1.db

Keeps-pure : {A : Type 0} (a : A) → Keeps (pure a)
Keeps-pure a = record { kept = λ w k. (k, le_refl w.db.next_event_id) }

Keeps-bind :
    {A B : Type 0} (m : M A) (f : A → M B) → Keeps m → ((a : A) → Keeps (f a)) → Keeps (m >>= f)
Keeps-bind {A} {B} m f km kf = record { kept = λ w k. by_result w (m w).0 refl (km.kept w k) }
  where
    by_result :
        (w : World) (r : Result Error A)
        → (m w).0 ≡ r
        → Grows w.db (m w).1.db
        → Grows w.db ((m >>= f) w).1.db
    by_result w (err e) h g = rw (h, continue) g
    by_result w (ok a) h g =
        let (k, le) = (kf a).kept (m w).1 g.0 in rw (h, continue) (k, le_trans g.1 le)

Keeps-statement :
    {A : Type 0} (e : Error) (f : Db → A × Db)
    → ((db : Db) → IsKeyed db → Grows db (f db).1)
    → Keeps (statement e f)
Keeps-statement {A} e f h = record { kept = λ w k. ended w k (statement_cases w) }
  where
    statement_cases :
        (w : World) → ((statement e f w).1.db ≡ w.db) ⊎ ((statement e f w).1.db ≡ (f w.db).1)
    statement_cases w = unfold statement in ground arith

    ended :
        (w : World)
        → IsKeyed w.db
        → ((statement e f w).1.db ≡ w.db) ⊎ ((statement e f w).1.db ≡ (f w.db).1)
        → Grows w.db (statement e f w).1.db
    ended w k (inl same) = subst (Grows w.db) (sym same) (k, le_refl w.db.next_event_id)
    ended w k (inr done) = subst (Grows w.db) (sym done) (h w.db k)

missing_key :
    (request_id cluster : Str) (events : List EventRow)
    → any (is_for request_id cluster) events ≡ false
    → All (λ (e : EventRow). is_for request_id cluster e ≡ false) events
missing_key r c [] h = tt
missing_key r c (e ∷ events) h = (ground arith, missing_key r c events (ground arith))

module _ (now : Time) (ev : SecretEvent) where
  insert-IsKeyed :
      (cluster : Str) (db : Db) → IsKeyed db → Grows db (insert_event_row now ev cluster db).1
  unfolding insert_event_row
  insert-IsKeyed cluster db k = elim (Bool-cases (any (is_for ev.request_id cluster) db.events)) [
    | inl there ↦ rw there (record { ids = k.ids; bounded = wider; keys = k.keys }, omega arith)
    | inr missing ↦ rw missing (
      record {
        ids =
            Pairs-append-one (λ (a : EventRow) (b : EventRow). a.id ≢ b.id) db.events row k.ids
              (All-of-mem _ db.events (λ e m h. let below = All-mem _ k.bounded m in omega arith));
        bounded =
            All-append (λ (e : EventRow). e.id < suc db.next_event_id) db.events (row ∷ []) wider
              (omega arith, tt);
        keys = Pairs-append-one (λ a b. ¬ SameKey a b) db.events row k.keys (fresh missing);
      },
      omega arith,
    )
  ]
    where
      row : EventRow
      row = pending_row now ev cluster db.next_event_id

      wider : All (λ (e : EventRow). e.id < suc db.next_event_id) db.events
      wider = All-of-mem _ db.events (λ e m. let below = All-mem _ k.bounded m in omega arith)

      fresh :
          any (is_for ev.request_id cluster) db.events ≡ false
          → All (λ (e : EventRow). ¬ SameKey e row) db.events
      fresh missing = All-of-mem _ db.events (λ e m (same_request, same_cluster).
          let other = All-mem _ (missing_key ev.request_id cluster db.events missing) m in
          let hit : is_for ev.request_id cluster e ≡ true = rw (
            (eq_iff e.request_id ev.request_id).1 same_request,
            (eq_iff e.cluster cluster).1 same_cluster,
          ) in
          false≢true (sym other ∙ hit))

  inserts-Keeps : (clusters : List Str) (count : ℕ) → Keeps (insert_events now ev clusters count)
  unfolding insert_events
  inserts-Keeps [] count = Keeps-pure count
  inserts-Keeps (c ∷ clusters) count =
      Keeps-bind (statement (insert_event c) (insert_event_row now ev c)) _
        (Keeps-statement (insert_event c) (insert_event_row now ev c) (insert-IsKeyed c))
        (λ affected. inserts-Keeps clusters (count + affected))

-- The parts after the inserts leave the events as they are.
same-Grows :
    (old new : Db)
    → new.events ≡ old.events
    → new.next_event_id ≡ old.next_event_id
    → IsKeyed old
    → Grows old new
same-Grows old new e n k =
    let events = sym e in
    (
      record {
        ids = subst (Pairs (λ (a : EventRow) (b : EventRow). a.id ≢ b.id)) events k.ids;
        bounded =
            subst₂ (λ es next. All (λ (r : EventRow). r.id < next) es) events (sym n) k.bounded;
        keys = subst (Pairs (λ a b. ¬ SameKey a b)) events k.keys;
      },
      omega (arith, n),
    )

notify-Keeps : (count : ℕ) → Keeps (notify_if_any count)
notify-Keeps count = elim (Bool-cases (ltb 0 count)) [
  | inl some_new ↦
      rw some_new (Keeps-statement notify_failed _ (λ db k. same-Grows db _ refl refl k))
  | inr none_new ↦ rw none_new (Keeps-pure tt)
]

fanout_body-Keeps :
    (task_id : ℕ) (ev : SecretEvent) (clusters : List Str) (now : Time)
    → Keeps (fanout_body task_id ev clusters now)
unfolding fanout_body
fanout_body-Keeps task_id ev clusters now =
    Keeps-bind (insert_events now ev clusters 0) _ (inserts-Keeps now ev clusters 0) (λ count.
      Keeps-bind
        (statement delete_task (λ db. (tt {0}, record db { tasks = remove_task task_id db.tasks })))
        _ (Keeps-statement delete_task _ (λ db k. same-Grows db _ refl refl k))
        (λ _. notify-Keeps count))

-- However its calls end, FanoutTask keeps the ids of the events unique and below the sequence, and
-- there is at most one event of a request for a cluster.
pub fanout-IsKeyed :
    (task_id : ℕ) (ev : SecretEvent) (clusters : List Str) (w : World)
    → IsKeyed w.db
    → IsKeyed (fanout_task task_id ev clusters w).1.db
unfolding fanout_task
fanout-IsKeyed task_id ev clusters w k =
    elim (transaction_cases (fanout_body task_id ev clusters) w) [
      | inl same ↦ subst IsKeyed (sym same) k
      | inr (inl undone) ↦ subst IsKeyed (sym undone) rolled
      | inr (inr (tt, ran, db)) ↦ subst IsKeyed (sym db) body.0
    ]
  where
    new : Db
    new = (fanout_body task_id ev clusters (after_call w).clock (after_call w)).1.db

    body : Grows w.db new
    body = (fanout_body-Keeps task_id ev clusters (after_call w).clock).kept (after_call w) k

    rolled : IsKeyed (rollback w.db new)
    rolled =
        unfold rollback in
        record {
          ids = k.ids;
          bounded =
              All-of-mem _ w.db.events
                (λ e m. let below = All-mem _ k.bounded m in let grown = body.1 in omega arith);
          keys = k.keys;
        }

-- ===== src/Daemon/Dispatcher/Ageing.antt =====
-- The rounds that are left of an event, from one round of the dispatcher to the next.
use mathlib.Core.List.Memᴰ
use mathlib.Core.Path.{ap₂, subst₂}
use secret_control_panel.Base.{
  Bool-cases, nat_eq, filter, All, All-mem, All-of-mem, mem-filter, Pairs-of-map, Pairs-eq, ℕ, ◌-◌,
  ◌≤◌, ◌<◌, ◌≡◌, refl, sym, ap, subst, ◌∙◌, ◌≢◌, ◌⊎◌, inl, inr, true, false≢true, Option, none,
  some, List, [], Memᴰ, le_trans, le_refl, arith,
}
use secret_control_panel.Wire.{Time}
use secret_control_panel.Db.{Db, EventRow, Status, pending, dispatched, failed, dead}
use secret_control_panel.Db.World.{World}
use secret_control_panel.Db.Smooth.{Smooth}
use secret_control_panel.Daemon.Store.{
  PendingEvent, is_due, is_due_status, update_event, set_dispatched,
}
use secret_control_panel.Daemon.Dispatcher.{dispatch_one, drain_pending}
use secret_control_panel.Daemon.Dispatcher.Rows.{
  fail_once, fails, delivers, Tried, dispatch_one-Tried, dispatch_one-Moved,
}
use secret_control_panel.Daemon.Dispatcher.Ready.{
  IsRetryable, UniqueEvents, ids, IsReady, All-update, Tried-ids,
}
use secret_control_panel.Daemon.Dispatcher.Rounds.{
  rounds_left, event_rounds, all_rounds, Falls, fails-Falls, delivers-Falls, Moved-le,
}
use secret_control_panel.Daemon.Dispatcher.Draining.{
  fetch_pending-Succeeds, drain_pending-IsDrained,
}
use secret_control_panel.Daemon.Dispatcher.Keeps.{IsCopy, fetch-read, Keeps, drain_pending-Keeps}
use secret_control_panel.Daemon.Dispatcher.Waiting.{IsSoon, Keeps-IsWaiting}
use secret_control_panel.Daemon.Dispatcher.Unaltered.{found_id, id_of}

-- A property of the rows is kept by a fetch.
Keeps-rows :
    (Q : List EventRow → Type 0)
    → ((ev : PendingEvent) (w : World)
        → IsCopy w.db.events ev
        → Q w.db.events
        → Q (dispatch_one ev w).1.db.events)
    → Keeps (λ w. Q w.db.events)
Keeps-rows Q step = record {
  fetch = λ w q. subst (λ (d : Db). Q d.events) (sym (fetch-read w)) q;
  dispatch = step;
}

-- The row of an id is as it was, or it has fewer rounds left.
abbrev IsAged : EventRow → EventRow → Type 0
IsAged e r =
    r.id ≡ e.id
    → ((r.status ≡ e.status) × (r.attempts ≡ e.attempts) × (r.next_retry_at ≡ e.next_retry_at))
      ⊎ (event_rounds r < event_rounds e)

aged-rounds :
    (e r : EventRow)
    → ((r.status ≡ e.status) × (r.attempts ≡ e.attempts) × (r.next_retry_at ≡ e.next_retry_at))
      ⊎ (event_rounds r < event_rounds e)
    → event_rounds r ≤ event_rounds e
aged-rounds e r (inl (s, a, n)) =
    let same : event_rounds r ≡ event_rounds e = ap₂ rounds_left s a in omega (arith, same)
aged-rounds e r (inr less) = omega (arith, less)

module _ (e : EventRow) where
  IsAged-update :
      (id : ℕ) (f : EventRow → EventRow) (events : List EventRow)
      → ((r : EventRow) → (f r).id ≡ r.id)
      → All (Falls id f) events
      → All (IsAged e) events
      → All (IsAged e) (update_event id f events)
  IsAged-update id f events keep falls aged = All-update id f (IsAged e) events (
      All-of-mem _ events (λ r m. (
        λ hit same.
            let less = All-mem _ falls m hit in
            let le = aged-rounds e r (All-mem _ aged m (sym (keep r) ∙ same)) in
            inr (omega (arith, less, le)),
        λ miss. All-mem _ aged m,
      )))

  Tried-IsAged :
      (ev : PendingEvent) (old new : Db)
      → Tried ev old new
      → IsReady old.events ev
      → All (IsAged e) old.events
      → All (IsAged e) new.events
  Tried-IsAged ev old new (inl same) ready aged =
      subst (λ (d : Db). All (IsAged e) d.events) (sym same) aged
  Tried-IsAged ev old new (inr (fails next same)) ready aged =
      subst (λ (d : Db). All (IsAged e) d.events) (sym same)
        (IsAged-update ev.id (fail_once ev next) old.events (λ r. refl)
          (fails-Falls ev old new (fails next same) ready next) aged)
  Tried-IsAged ev old new (inr (delivers now same)) ready aged =
      subst (λ (d : Db). All (IsAged e) d.events) (sym same)
        (IsAged-update ev.id (set_dispatched now) old.events (λ r. refl)
          (delivers-Falls ev old new (delivers now same) ready now) aged)

  Keeps-IsAged : Keeps (λ w. All (IsAged e) w.db.events)
  Keeps-IsAged = Keeps-rows (All (IsAged e)) (λ ev w copy aged.
      Tried-IsAged ev w.db (dispatch_one ev w).1.db (dispatch_one-Tried ev w) copy.ready aged)

Keeps-ids : (is : List ℕ) → Keeps (λ w. ids w.db.events ≡ is)
Keeps-ids is =
    Keeps-rows (λ events. ids events ≡ is)
      (λ ev w copy same.
        Tried-ids ev w.db (dispatch_one ev w).1.db (dispatch_one-Tried ev w) ∙ same)

-- No call of the database fails, and there are no more rounds than `n`.
abbrev pub IsCalm : ℕ → World → Type 0
IsCalm n w = Smooth w × (all_rounds w.db.events ≤ n)

pub Keeps-IsCalm : (n : ℕ) → Keeps (IsCalm n)
Keeps-IsCalm n = record {
  fetch = λ w (s, le). (
    fetch_pending-Succeeds.smooth w s,
    subst (λ (d : Db). all_rounds d.events ≤ n) (sym (fetch-read w)) le,
  );
  dispatch = λ ev w copy (s, le).
      let (moved, s') = dispatch_one-Moved ev w s in
      (s', le_trans (Moved-le ev w.db (dispatch_one ev w).1.db moved copy.ready) le);
}

-- A row that is due stays so.
due-later :
    (s : Status) (at : Option Time) (now now' : ℕ)
    → now ≤ now'
    → is_due_status now at s ≡ true
    → is_due_status now' at s ≡ true
due-later pending at now now' le h = refl
due-later failed none now now' le h = refl
due-later failed (some t) now now' le h = ground arith
due-later dispatched at now now' le h = h
due-later dead at now now' le h = h

not_retryable : (s : Status) (n : ℕ) → ¬ IsRetryable s → rounds_left s n ≡ 0
not_retryable pending n h = absurd (h tt)
not_retryable failed n h = absurd (h tt)
not_retryable dispatched n h = refl
not_retryable dead n h = refl

abbrev pub AllDue : ℕ → List EventRow → Type 0
AllDue now = All (λ (e : EventRow). IsRetryable e.status → is_due now e ≡ true)

-- Where every event that waits is due and no call fails, a round leaves each with one round less.
pub drain_pending-falls :
    (fuel : ℕ) (w : World) (m : ℕ)
    → Smooth w
    → UniqueEvents w.db.events
    → all_rounds w.db.events < fuel
    → IsSoon w.clock w.db.events
    → AllDue w.clock w.db.events
    → All (λ e. event_rounds e ≤ m) w.db.events
    → All (λ e. event_rounds e ≤ m - 1) (drain_pending fuel w).1.db.events
drain_pending-falls fuel w m s u enough soon due bound = All-of-mem _ v.db.events (λ r k.
    let same_ids = (drain_pending-Keeps _ (Keeps-ids (ids w.db.events)) fuel w u refl).1 in
    let (e, k', same) =
      found_id r.id w.db.events (subst (Memᴰ r.id) same_ids (id_of r v.db.events k)) in
    let aged = (drain_pending-Keeps _ (Keeps-IsAged e) fuel w u (start e k')).1 in
    let le = All-mem _ bound k' in by_age r e k (All-mem _ due k') le (All-mem _ aged k (sym same)))
  where
    v : World
    v = (drain_pending fuel w).1

    none_left : filter (is_due v.clock) v.db.events ≡ []
    none_left = (drain_pending-IsDrained fuel w s u enough).1

    later : w.clock ≤ v.clock
    later = (drain_pending-Keeps _ (Keeps-IsWaiting w.clock) fuel w u (le_refl w.clock, soon)).1.0

    start : (e : EventRow) → Memᴰ e w.db.events → All (IsAged e) w.db.events
    start e k' = All-of-mem _ w.db.events (λ q j same.
        let one : q ≡ e =
          Pairs-eq (λ (x : EventRow). x.id) w.db.events
            (Pairs-of-map ◌≢◌ (λ (x : EventRow). x.id) w.db.events u) q e j k' same in
        inl (
          ap (λ (x : EventRow). x.status) one,
          ap (λ (x : EventRow). x.attempts) one,
          ap (λ (x : EventRow). x.next_retry_at) one,
        ))

    by_age :
        (r e : EventRow)
        → Memᴰ r v.db.events
        → (IsRetryable e.status → is_due w.clock e ≡ true)
        → event_rounds e ≤ m
        → ((r.status ≡ e.status) × (r.attempts ≡ e.attempts) × (r.next_retry_at ≡ e.next_retry_at))
          ⊎ (event_rounds r < event_rounds e)
        → event_rounds r ≤ m - 1
    by_age r e k waits le (inr less) = omega arith
    by_age r e k waits le (inl (st, at, next)) = elim (Bool-cases (is_due w.clock e)) [
      | inl now_due ↦ absurd (
          Memᴰ.not-nil (
            subst (Memᴰ r) none_left (
              mem-filter (is_due v.clock) v.db.events k (
                subst₂ (λ x y. is_due_status v.clock x y ≡ true) (sym next) (sym st)
                  (due-later e.status e.next_retry_at w.clock v.clock later now_due)))))
      | inr not_due ↦
          let ended =
            not_retryable e.status e.attempts (λ wants. false≢true (sym not_due ∙ waits wants)) in
          let same : event_rounds r ≡ event_rounds e = ap₂ rounds_left st at in
          omega (arith, ended, same)
    ]

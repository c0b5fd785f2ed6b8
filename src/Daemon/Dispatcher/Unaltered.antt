-- ===== src/Daemon/Dispatcher/Unaltered.antt =====
-- What the dispatcher leaves of an event as it is: its cluster, and what it says.
use mathlib.Core.List.Memᴰ
use secret_control_panel.Base.{
  ltb, nat_eq, take, filter, All, All-mem, All-of-mem, All-perm, All-take, All-map, mem_of-filter,
  ok, Pairs-of-map, Pairs-eq, ℕ, ◌≡◌, refl, sym, ap, subst, ◌∙◌, ◌≢◌, inl, inr, Bool, List, [], ◌∷◌,
  Memᴰ,
}
use secret_control_panel.Db.{Db, EventRow}
use secret_control_panel.Db.World.{World, after_call, select_pending}
use secret_control_panel.Db.Steps.{autocommit-ok}
use secret_control_panel.Sort.Insertion.{insertion_sort, insertion_sort-perm}
use secret_control_panel.Daemon.Store.{
  PendingEvent, scan_event, is_due, fetch_pending, update_event,
}
use secret_control_panel.Daemon.Processor.{batch_size}
use secret_control_panel.Daemon.Dispatcher.Rows.{fails, delivers, Tried}
use secret_control_panel.Daemon.Dispatcher.Ready.{ids, UniqueEvents, All-update}

pub found_id :
    (i : ℕ) (events : List EventRow)
    → Memᴰ i (ids events)
    → (r : EventRow) × Memᴰ r events × (r.id ≡ i)
found_id i [] m = absurd (Memᴰ.not-nil m)
found_id i (e ∷ events) (Memᴰ.head h) = (e, Memᴰ.head refl, sym h)
found_id i (e ∷ events) (Memᴰ.tail m) =
    let (r, k, same) = found_id i events m in (r, Memᴰ.tail k, same)

pub id_of : (e : EventRow) (events : List EventRow) → Memᴰ e events → Memᴰ e.id (ids events)
id_of e [] m = absurd (Memᴰ.not-nil m)
id_of e (x ∷ events) (Memᴰ.head h) = Memᴰ.head (ap (λ (q : EventRow). q.id) h)
id_of e (x ∷ events) (Memᴰ.tail m) = Memᴰ.tail (id_of e events m)

-- The rows of the event still are what was fetched.
abbrev pub IsRow : List EventRow → PendingEvent → Type 0
IsRow events ev =
    All
      (λ (e : EventRow).
        e.id ≡ ev.id → (e.cluster ≡ ev.cluster) × ((scan_event e).event ≡ ev.event))
      events

IsRow-update :
    (id : ℕ) (f : EventRow → EventRow)
    → ((e : EventRow)
        → ((f e).id ≡ e.id)
          × ((f e).cluster ≡ e.cluster)
          × ((scan_event (f e)).event ≡ (scan_event e).event))
    → (events : List EventRow) (ev : PendingEvent) → IsRow events ev
    → IsRow (update_event id f events) ev
IsRow-update id f keep events ev row = All-update id f _ events (
    All-of-mem _ events (λ r m. (
      λ hit same.
          let (i, c, e) = keep r in
          let (c', e') = All-mem _ row m (sym i ∙ same) in (c ∙ c', e ∙ e'),
      λ miss. All-mem _ row m,
    )))

-- A dispatch keeps the cluster and the event of every row.
pub Tried-IsRow :
    (ev q : PendingEvent) (old new : Db)
    → Tried ev old new
    → IsRow old.events q
    → IsRow new.events q
Tried-IsRow ev q old new (inl e) row = subst (λ (d : Db). IsRow d.events q) (sym e) row
Tried-IsRow ev q old new (inr (fails next e)) row =
    subst (λ (d : Db). IsRow d.events q) (sym e)
      (IsRow-update ev.id _ (λ r. (refl, refl, refl)) old.events q row)
Tried-IsRow ev q old new (inr (delivers now e)) row =
    subst (λ (d : Db). IsRow d.events q) (sym e)
      (IsRow-update ev.id _ (λ r. (refl, refl, refl)) old.events q row)

-- What holds of every row that is due holds of a fetched batch.
pub fetched_rule :
    (P : PendingEvent → Type 0) (w : World) (batch : List PendingEvent)
    → (fetch_pending batch_size w).0 ≡ ok batch
    → ((e : EventRow) → Memᴰ e w.db.events → P (scan_event e))
    → All P batch
unfolding fetch_pending
fetched_rule P w batch h good = subst (All P) (sym (autocommit-ok select_pending _ w h).0) (
    All-map P scan_event (take batch_size (insertion_sort before due)) (
      All-take IsGood batch_size (insertion_sort before due) (
        All-perm IsGood (insertion_sort-perm before due)
          (All-of-mem IsGood due (λ e m. good e (mem_of-filter (is_due now) w.db.events m).0)))))
  where
    now : ℕ
    now = (after_call w).clock

    before : EventRow → EventRow → Bool
    before a b = ltb a.id b.id

    due : List EventRow
    due = filter (is_due now) w.db.events

    IsGood : EventRow → Type 0
    IsGood e = P (scan_event e)

-- The rows of the events of a fetched batch.
pub fetched-IsRow :
    (w : World) (batch : List PendingEvent)
    → UniqueEvents w.db.events
    → (fetch_pending batch_size w).0 ≡ ok batch
    → All (IsRow w.db.events) batch
fetched-IsRow w batch unique h = fetched_rule (IsRow w.db.events) w batch h (λ e m.
    All-of-mem _ w.db.events (λ r k same.
      let one =
        Pairs-eq (λ (q : EventRow). q.id) w.db.events
          (Pairs-of-map ◌≢◌ (λ (q : EventRow). q.id) w.db.events unique) r e k m same in
      (ap (λ (q : EventRow). q.cluster) one, ap (λ q. (scan_event q).event) one)))

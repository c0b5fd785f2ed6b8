-- ===== src/Daemon/Dispatcher/Ready.antt =====
-- A fetched batch agrees with the events table, event by event, until the event is dispatched.
use secret_control_panel.Base.{
  ltb, Bool-cases, ◌==◌, nat_eq, eq_iff, ne_of_beq, take, filter, All, All-mem, All-of-mem,
  All-perm, All-take, All-map, mem_of-filter, ok, Pairs, Pairs-take, Pairs-filter, Pairs-perm,
  Pairs-map, Pairs-of-map, Pairs-eq, ℕ, ◌≡◌, refl, sym, ap, subst, ◌∙◌, ◌≢◌, inl, inr, Bool, true,
  List, [], ◌∷◌, map, Memᴰ,
}
use secret_control_panel.Db.{Db, EventRow, Status, pending, dispatched, failed, dead}
use secret_control_panel.Db.World.{World, after_call, select_pending}
use secret_control_panel.Db.Steps.{autocommit-ok}
use secret_control_panel.Sort.Insertion.{insertion_sort, insertion_sort-perm}
use secret_control_panel.Daemon.Store.{
  PendingEvent, scan_event, is_due, due_rows, fetch_pending, update_event,
}
use secret_control_panel.Daemon.Processor.{batch_size}
use secret_control_panel.Daemon.Dispatcher.Rows.{Moved, fails, delivers, Tried}

-- The statuses that FetchPending looks for.
abbrev pub IsRetryable : Status → Type 0
IsRetryable pending = Unit
IsRetryable failed = Unit
IsRetryable dispatched = ⊥
IsRetryable dead = ⊥

abbrev pub ids : List EventRow → List ℕ
ids = map (λ (e : EventRow). e.id)

-- Event ids are unique, as a primary key is.
abbrev pub UniqueEvents : List EventRow → Type 0
UniqueEvents events = Pairs ◌≢◌ (ids events)

-- The table still has the event as it was fetched.
abbrev pub IsReady : List EventRow → PendingEvent → Type 0
IsReady events ev =
    All (λ (e : EventRow). e.id ≡ ev.id → (e.attempts ≡ ev.attempts) × IsRetryable e.status) events

pub record IsBatch (events : List EventRow) (batch : List PendingEvent) : Type 0 where
  pub ready : All (IsReady events) batch
  pub apart : Pairs (λ p q. p.id ≢ q.id) batch

module _ (id : ℕ) (f : EventRow → EventRow) where
  pub All-update :
      (P : EventRow → Type 0) (events : List EventRow)
      → All (λ (e : EventRow). (e.id ≡ id → P (f e)) × (e.id ≢ id → P e)) events
      → All P (update_event id f events)
  unfolding update_event
  All-update P [] h = tt
  All-update P (e ∷ events) h = elim (Bool-cases (e.id == id)) [
    | inl hit ↦ rw hit (h.0.0 ((eq_iff e.id id).0 hit), All-update P events h.1)
    | inr miss ↦ rw miss (h.0.1 (ne_of_beq e.id id miss), All-update P events h.1)
  ]

  pub ids-update :
      ((e : EventRow) → (f e).id ≡ e.id)
      → (events : List EventRow) → ids (update_event id f events) ≡ ids events
  unfolding update_event
  ids-update keep [] = refl
  ids-update keep (e ∷ events) = elim (Bool-cases (e.id == id)) [
    | inl hit ↦ rw (hit, keep e, ids-update keep events)
    | inr miss ↦ rw (miss, ids-update keep events)
  ]

  IsReady-update :
      ((e : EventRow) → (f e).id ≡ e.id)
      → (events : List EventRow) (q : PendingEvent) → id ≢ q.id
      → IsReady events q
      → IsReady (update_event id f events) q
  IsReady-update keep events q other ready =
      All-update (λ e. e.id ≡ q.id → (e.attempts ≡ q.attempts) × IsRetryable e.status) events
        (All-of-mem _ events (λ e m.
          (λ hit same. absurd (other (sym hit ∙ sym (keep e) ∙ same)), λ miss. All-mem _ ready m)))

module _ (ev : PendingEvent) (old new : Db) where
  pub Moved-ids : Moved ev old new → ids new.events ≡ ids old.events
  Moved-ids (fails next e) =
      ap (λ (d : Db). ids d.events) e ∙ ids-update ev.id _ (λ r. refl) old.events
  Moved-ids (delivers now e) =
      ap (λ (d : Db). ids d.events) e ∙ ids-update ev.id _ (λ r. refl) old.events

  pub Tried-ids : Tried ev old new → ids new.events ≡ ids old.events
  Tried-ids (inl e) = ap (λ (d : Db). ids d.events) e
  Tried-ids (inr m) = Moved-ids m

  Tried-IsReady :
      (q : PendingEvent)
      → ev.id ≢ q.id
      → Tried ev old new
      → IsReady old.events q
      → IsReady new.events q
  Tried-IsReady q other (inl e) ready = subst (λ (d : Db). IsReady d.events q) (sym e) ready
  Tried-IsReady q other (inr (fails next e)) ready =
      subst (λ (d : Db). IsReady d.events q) (sym e)
        (IsReady-update ev.id _ (λ r. refl) old.events q other ready)
  Tried-IsReady q other (inr (delivers now e)) ready =
      subst (λ (d : Db). IsReady d.events q) (sym e)
        (IsReady-update ev.id _ (λ r. refl) old.events q other ready)

  -- The rest of a batch is not touched by the dispatch of its first event.
  pub Tried-IsBatch :
      (rest : List PendingEvent)
      → Tried ev old new
      → IsBatch old.events (ev ∷ rest)
      → IsBatch new.events rest
  Tried-IsBatch rest t b = record {
    ready = All-of-mem (IsReady new.events) rest (λ q m.
        Tried-IsReady q (All-mem (λ q. ev.id ≢ q.id) b.apart.0 m) t
          (All-mem (IsReady old.events) b.ready.1 m));
    apart = b.apart.1;
  }

due-IsRetryable : (now : ℕ) (e : EventRow) → is_due now e ≡ true → IsRetryable e.status
due-IsRetryable now e h = by_status e.status h
  where
    open e use {next_retry_at}

    by_status : (s : Status) → is_due now (record e { status = s }) ≡ true → IsRetryable s
    by_status pending h = tt
    by_status failed h = tt
    by_status dispatched h = cc
    by_status dead h = cc

scan-IsReady :
    (events : List EventRow) (now : ℕ) (e : EventRow)
    → UniqueEvents events
    → Memᴰ e events
    → is_due now e ≡ true
    → IsReady events (scan_event e)
scan-IsReady events now e unique m due = All-of-mem _ events (λ r k same.
    let one =
      Pairs-eq (λ (q : EventRow). q.id) events
        (Pairs-of-map ◌≢◌ (λ (q : EventRow). q.id) events unique) r e k m same in
    subst (λ (q : EventRow). (q.attempts ≡ e.attempts) × IsRetryable q.status) (sym one)
      (refl, due-IsRetryable now e due))

-- What FetchPending returns are distinct events, as the table has them.
pub fetched-IsBatch :
    (w : World) (batch : List PendingEvent)
    → UniqueEvents w.db.events
    → (fetch_pending batch_size w).0 ≡ ok batch
    → IsBatch w.db.events batch
unfolding fetch_pending
fetched-IsBatch w batch unique h =
    subst (IsBatch events) (sym (autocommit-ok select_pending _ w h).0) scanned
  where
    events : List EventRow
    events = w.db.events

    now : ℕ
    now = (after_call w).clock

    before : EventRow → EventRow → Bool
    before a b = ltb a.id b.id

    due : List EventRow
    due = filter (is_due now) events

    sorted : List EventRow
    sorted = insertion_sort before due

    IsGood : EventRow → Type 0
    IsGood e = IsReady events (scan_event e)

    good : All IsGood sorted
    good = All-perm IsGood (insertion_sort-perm before due) (
        All-of-mem IsGood due (λ e m.
          let (k, d) = mem_of-filter (is_due now) events m in scan-IsReady events now e unique k d))

    Apart : EventRow → EventRow → Type 0
    Apart a b = a.id ≢ b.id

    apart : Pairs Apart sorted
    apart =
        Pairs-perm Apart (λ a b n e. n (sym e)) (insertion_sort-perm before due)
          (Pairs-filter Apart (is_due now) events
            (Pairs-of-map ◌≢◌ (λ (q : EventRow). q.id) events unique))

    scanned : IsBatch events (map scan_event (due_rows batch_size now events))
    scanned = record {
      ready =
          All-map (IsReady events) scan_event (take batch_size sorted)
            (All-take IsGood batch_size sorted good);
      apart =
          Pairs-map (λ p q. p.id ≢ q.id) scan_event (take batch_size sorted)
            (Pairs-take Apart batch_size sorted apart);
    }

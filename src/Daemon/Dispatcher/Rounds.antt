-- ===== src/Daemon/Dispatcher/Rounds.antt =====
-- The attempts that are left of the events: every update of dispatchOne lowers their number.
use mathlib.Core.List.Memᴰ
use secret_control_panel.Base.{
  leb, Bool-cases, ◌==◌, nat_eq, eq_iff, All, All-mem, All-of-mem, ℕ, suc, ◌+◌, ◌-◌, ◌≤◌, ◌<◌, ◌≡◌,
  refl, sym, ap, subst, ◌∙◌, inl, inr, true, List, [], ◌∷◌, Memᴰ, arith,
}
use secret_control_panel.Db.{Db, EventRow, Status, pending, dispatched, failed, dead}
use secret_control_panel.Daemon.Store.{PendingEvent, update_event, set_dispatched}
use secret_control_panel.Daemon.Dispatcher.{max_attempts}
use secret_control_panel.Daemon.Dispatcher.Rows.{fail_once, Moved, fails, delivers}
use secret_control_panel.Daemon.Dispatcher.Ready.{IsRetryable, IsReady}

-- How many rounds may still fetch an event of a status with a number of attempts.
abbrev pub rounds_left : Status → ℕ → ℕ
rounds_left pending n = suc (max_attempts - n)
rounds_left failed n = suc (max_attempts - n)
rounds_left dispatched n = 0
rounds_left dead n = 0

abbrev pub event_rounds : EventRow → ℕ
event_rounds e = rounds_left e.status e.attempts

-- The sum over all events.
abbrev pub all_rounds : List EventRow → ℕ
all_rounds [] = 0
all_rounds (e ∷ events) = event_rounds e + all_rounds events

module _ (id : ℕ) (f : EventRow → EventRow) where
  abbrev pub Falls : EventRow → Type 0
  Falls e = e.id ≡ id → event_rounds (f e) < event_rounds e

  update-le :
      (events : List EventRow)
      → All Falls events
      → all_rounds (update_event id f events) ≤ all_rounds events
  unfolding update_event
  update-le [] h = omega arith
  update-le (e ∷ events) h = elim (Bool-cases (e.id == id)) [
    | inl hit ↦
        let falls = h.0 ((eq_iff e.id id).0 hit) in
        let rest = update-le events h.1 in rw hit (omega arith)
    | inr miss ↦ let rest = update-le events h.1 in rw miss (omega arith)
  ]

  update-lt :
      (events : List EventRow) {r : EventRow}
      → All Falls events
      → Memᴰ r events
      → r.id ≡ id
      → all_rounds (update_event id f events) < all_rounds events
  unfolding update_event
  update-lt [] h m k = absurd (Memᴰ.not-nil m)
  update-lt (e ∷ events) h (Memᴰ.head same) k =
      let hit : (e.id == id) ≡ true =
        (eq_iff e.id id).1 (sym (ap (λ (q : EventRow). q.id) same) ∙ k) in
      let falls = h.0 ((eq_iff e.id id).0 hit) in
      let rest = update-le events h.1 in rw hit (omega arith)
  update-lt (e ∷ events) h (Memᴰ.tail m) k = elim (Bool-cases (e.id == id)) [
    | inl hit ↦
        let falls = h.0 ((eq_iff e.id id).0 hit) in
        let rest = update-le events h.1 in rw hit (omega arith)
    | inr miss ↦ let rest = update-lt events h.1 m k in rw miss (omega arith)
  ]

retryable-rounds : (s : Status) (n : ℕ) → IsRetryable s → rounds_left s n ≡ suc (max_attempts - n)
retryable-rounds pending n h = refl
retryable-rounds failed n h = refl
retryable-rounds dispatched n h = absurd h
retryable-rounds dead n h = absurd h

fail_once-rounds :
    (ev : PendingEvent) (next : ℕ) (e : EventRow)
    → event_rounds (fail_once ev next e) < suc (max_attempts - ev.attempts)
fail_once-rounds ev next e = elim (Bool-cases (leb max_attempts (ev.attempts + 1))) [
  | inl over ↦ rw over (omega arith)
  | inr more ↦ rw more (ground arith)
]

module _ (ev : PendingEvent) (old new : Db) (moved : Moved ev old new)
    (ready : IsReady old.events ev) where
  pub fails-Falls : (next : ℕ) → All (Falls ev.id (fail_once ev next)) old.events
  fails-Falls next = All-of-mem _ old.events (λ r m hit.
      let (same, retryable) = All-mem _ ready m hit in
      let before = retryable-rounds r.status r.attempts retryable in
      let after = fail_once-rounds ev next r in
      subst (λ n. event_rounds (fail_once ev next r) < n)
        (sym (before ∙ ap (λ n. suc (max_attempts - n)) same)) after)

  pub delivers-Falls : (now : ℕ) → All (Falls ev.id (set_dispatched now)) old.events
  delivers-Falls now = All-of-mem _ old.events (λ r m hit.
      let (same, retryable) = All-mem _ ready m hit in
      let before = retryable-rounds r.status r.attempts retryable in omega (arith, before))

  pub Moved-le : all_rounds new.events ≤ all_rounds old.events
  Moved-le = by_move moved
    where
      by_move : Moved ev old new → all_rounds new.events ≤ all_rounds old.events
      by_move (fails next e) =
          rw e (update-le ev.id (fail_once ev next) old.events (fails-Falls next))
      by_move (delivers now e) =
          rw e (update-le ev.id (set_dispatched now) old.events (delivers-Falls now))

  pub Moved-lt :
      {r : EventRow}
      → Memᴰ r old.events
      → r.id ≡ ev.id
      → all_rounds new.events < all_rounds old.events
  Moved-lt {r} m k = by_move moved
    where
      by_move : Moved ev old new → all_rounds new.events < all_rounds old.events
      by_move (fails next e) =
          rw e (update-lt ev.id (fail_once ev next) old.events (fails-Falls next) m k)
      by_move (delivers now e) =
          rw e (update-lt ev.id (set_dispatched now) old.events (delivers-Falls now) m k)

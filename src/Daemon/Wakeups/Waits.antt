-- ===== src/Daemon/Wakeups/Waits.antt =====
-- The waits of Subscribe between two connections.
use secret_control_panel.Base.{
  ltb, if◌then◌else◌, nat_eq, ℕ, zero, suc, ◌*◌, ◌^◌, ◌≤◌, min, ◌≡◌, refl, List, [], ◌∷◌, arith,
}
use secret_control_panel.Wire.{Time, second}
use secret_control_panel.Daemon.Wakeups.{
  subscribe_backoff_max, wake_capacity, offer, offers, Session, acquire_failed, listen_failed,
  listened, subscribe_once, Stop, before_session, after_session, in_wait, never, subscribe_from,
  subscribe,
}

-- The wait after `k` others: one second, doubled `k` times, and at most thirty seconds.
abbrev pub nth_wait : ℕ → ℕ
nth_wait k = if ltb k 5 then 2 ^ k * second else 30 * second

-- `waits` are the waits from the `k`th on, with none left out.
abbrev pub AreWaits : ℕ → List Time → Type 0
AreWaits k [] = Unit
AreWaits k (t ∷ ts) = (t ≡ nth_wait k) × AreWaits (suc k) ts

late_wait : (k : ℕ) → nth_wait (suc (suc (suc (suc (suc k))))) ≡ 30 * second
late_wait k = ground arith

next_wait : (k : ℕ) → min (nth_wait k * 2) subscribe_backoff_max ≡ nth_wait (suc k)
next_wait zero = refl
next_wait (suc zero) = refl
next_wait (suc (suc zero)) = refl
next_wait (suc (suc (suc zero))) = refl
next_wait (suc (suc (suc (suc zero)))) = refl
next_wait (suc (suc (suc (suc (suc k))))) = rw (late_wait k, late_wait (suc k)) refl

offers-le : (notices n : ℕ) → n ≤ wake_capacity → offers notices n ≤ wake_capacity
unfolding offers
offers-le zero n h = h
offers-le (suc notices) n h = offers-le notices (offer n) (ground arith)

session-le :
    (session : Session) (n : ℕ) → n ≤ wake_capacity → (subscribe_once session n).1 ≤ wake_capacity
unfolding subscribe_once
session-le (acquire_failed e) n h = h
session-le (listen_failed e) n h = h
session-le (listened notices ending) n h = offers-le notices n h

subscribe_from-waits :
    (k : ℕ) (rounds : List (Session × Stop)) (n : ℕ)
    → n ≤ wake_capacity
    → AreWaits k (subscribe_from (nth_wait k) rounds n).0
      × ((subscribe_from (nth_wait k) rounds n).1 ≤ wake_capacity)
unfolding subscribe_from
subscribe_from-waits k [] n h = (tt, h)
subscribe_from-waits k ((session, before_session) ∷ rounds) n h = (tt, h)
subscribe_from-waits k ((session, after_session) ∷ rounds) n h = (tt, session-le session n h)
subscribe_from-waits k ((session, in_wait) ∷ rounds) n h = ((refl, tt), session-le session n h)
subscribe_from-waits k ((session, never) ∷ rounds) n h =
    let (waits, le) =
      subscribe_from-waits (suc k) rounds (subscribe_once session n).1 (session-le session n h) in
    rw (next_wait k) ((refl, waits), le)

-- The waits that Subscribe begins are one second, then the double of the wait before, and thirty
-- seconds from the sixth on, whatever its connections have met in between: a connection that has
-- served for long does not bring the wait back to one second. The channel, with room for one wakeup,
-- never holds more.
pub subscribe-AreWaits :
    (rounds : List (Session × Stop)) (n : ℕ)
    → n ≤ wake_capacity
    → AreWaits 0 (subscribe rounds n).0 × ((subscribe rounds n).1 ≤ wake_capacity)
unfolding subscribe
subscribe-AreWaits rounds n h = subscribe_from-waits 0 rounds n h

-- ===== src/Commands/Stopping/Freeing.antt =====
-- The steps of the listener alone, once the context is done.
use secret_control_panel.Base.{nat_eq, ℕ, zero, suc, ◌≡◌, refl, ap, subst, Bool, true, Option}
use secret_control_panel.Commands.{WorkerError, canceled, RunError}
use secret_control_panel.Commands.Stopping.{
  Acceptor, has_listener, binding, accepting, draining, run_ended, ListenerMain, pumping, awaiting,
  returned, ListenerRun, conns, listen_cancelled, close_listener, accept_stopped, close_conn,
  scan_ended, send_cancelled, conns_ended, pump_ended, exit, OwnSteps, settled, on_own,
  OwnSteps-trans,
}

end_shut : (n : ℕ) (s : ListenerRun) → s.shut ≡ n → OwnSteps s (record s { shut = 0 })
end_shut zero s h = subst (λ k. OwnSteps s (record s { shut = k })) h settled
end_shut (suc n) s h =
    OwnSteps-trans (on_own settled (scan_ended n h)) (end_shut n (record s { shut = n }) refl)

end_sending :
    (n : ℕ) (s : ListenerRun)
    → s.cancelled ≡ true
    → s.sending ≡ n
    → OwnSteps s (record s { sending = 0 })
end_sending zero s c h = subst (λ k. OwnSteps s (record s { sending = k })) h settled
end_sending (suc n) s c h =
    OwnSteps-trans (on_own settled (send_cancelled n h c))
      (end_sending n (record s { sending = n }) c refl)

-- Each connection is closed, and its Read then fails.
end_reading :
    (n : ℕ) (s : ListenerRun)
    → s.cancelled ≡ true
    → s.reading ≡ n
    → OwnSteps s (record s { reading = 0 })
end_reading zero s c h = subst (λ k. OwnSteps s (record s { reading = k })) h settled
end_reading (suc n) s c h =
    OwnSteps-trans (on_own (on_own settled (close_conn n h c)) (scan_ended s.shut refl))
      (end_reading n (record s { reading = n }) c refl)

abbrev freed : ListenerRun → ListenerRun
freed s = record s { reading = 0; sending = 0; shut = 0 }

end_conns : (s : ListenerRun) → s.cancelled ≡ true → OwnSteps s (freed s)
end_conns s c =
    OwnSteps-trans
      (OwnSteps-trans (end_shut s.shut s refl)
        (end_sending s.sending (record s { shut = 0 }) c refl))
      (end_reading s.reading (record s { shut = 0; sending = 0 }) c refl)

-- Run ends: the listener is closed first, where there is one.
run_can_end :
    (a : Acceptor) (s : ListenerRun)
    → s.acceptor ≡ a
    → s.cancelled ≡ true
    → (e : WorkerError) × (closed : Bool) × OwnSteps s
        (record (freed s) { acceptor = run_ended e; closed = closed })
run_can_end binding s h c = (canceled, s.closed, on_own (end_conns s c) (listen_cancelled h c))
run_can_end accepting s h c = (
  canceled,
  true,
  on_own
      (on_own (on_own (end_conns s c) (close_listener (ap has_listener h) c))
        (accept_stopped h c refl))
      (conns_ended refl refl),
)
run_can_end draining s h c = (canceled, s.closed, on_own (end_conns s c) (conns_ended h refl))
run_can_end (run_ended e) s h c =
    (e, s.closed, subst (λ a. OwnSteps s (record (freed s) { acceptor = a })) h (end_conns s c))

-- From every state in which the context is done, there are steps of the listener's own that bring it to
-- its exit, with every handler at its end: they need no peer to close its connection, no other
-- connection, and no room in the channel.
pub cancelled-exits :
    (s : ListenerRun)
    → s.cancelled ≡ true
    → (t : ListenerRun) × (r : Option RunError) × OwnSteps s t
      × (t.main ≡ returned r)
      × (conns t ≡ 0)
cancelled-exits s c =
    let (e, closed, ended) = run_can_end s.acceptor s refl c in
    let (t, r, finished, m, k) =
      main_can_end s.main (record (freed s) { acceptor = run_ended e; closed = closed }) e refl refl
        c in
    (t, r, OwnSteps-trans ended finished, m, k)
  where
    main_can_end :
        (m : ListenerMain) (u : ListenerRun) (e : WorkerError)
        → u.main ≡ m
        → u.acceptor ≡ run_ended e
        → u.cancelled ≡ true
        → (t : ListenerRun) × (r : Option RunError) × OwnSteps u t
          × (t.main ≡ returned r)
          × (conns t ≡ conns u)
    main_can_end pumping u e m a d =
        (_, _, on_own (on_own settled (pump_ended m d)) (exit e refl a), refl, refl)
    main_can_end awaiting u e m a d = (_, _, on_own settled (exit e m a), refl, refl)
    main_can_end (returned r) u e m a d = (u, r, settled, m, refl)

-- ===== src/Commands/Stopping/Unbound.antt =====
-- A listener that cannot bind its address.
use secret_control_panel.Base.{nat_eq, ◌≡◌, refl, sym, subst, ◌∙◌, false, false≢true, arith}
use secret_control_panel.Text.{Str}
use secret_control_panel.Commands.{WorkerError, stopped}
use secret_control_panel.Commands.Stopping.{
  run_ended, ListenerMain, pumping, awaiting, returned, ListenerRun, conns, launched, OwnStep,
  listen_cancelled, close_listener, accept_stopped, close_conn, scan_ended, send_cancelled,
  conns_ended, pump_ended, exit, ListenerStep, own, interrupt, listen_failed, listen, accept,
  accept_failed, accept_broken, peer_ended, event_read, event_sent, ListenerSteps, stay, after,
  steps_trans,
}
use secret_control_panel.Commands.Stopping.Exiting.{IsFor, IsLeft, reached-IsProper}

-- An end of Run is final.
own-ended :
    (a : WorkerError) (s t : ListenerRun)
    → OwnStep s t
    → s.acceptor ≡ run_ended a
    → t.acceptor ≡ run_ended a
own-ended a s t (listen_cancelled b c) h = ground arith
own-ended a s t (close_listener b c) h = h
own-ended a s t (accept_stopped b c d) h = ground arith
own-ended a s t (close_conn n k c) h = h
own-ended a s t (scan_ended n k) h = h
own-ended a s t (send_cancelled n k c) h = h
own-ended a s t (conns_ended b k) h = ground arith
own-ended a s t (pump_ended m c) h = h
own-ended a s t (exit e m b) h = h

step-ended :
    (a : WorkerError) (s t : ListenerRun)
    → ListenerStep s t
    → s.acceptor ≡ run_ended a
    → t.acceptor ≡ run_ended a
step-ended a s t (own step) h = own-ended a s t step h
step-ended a s t interrupt h = h
step-ended a s t (listen_failed e b) h = ground arith
step-ended a s t (listen b) h = ground arith
step-ended a s t (accept b c) h = h
step-ended a s t (accept_failed b c) h = h
step-ended a s t (accept_broken b c) h = ground arith
step-ended a s t (peer_ended n k) h = h
step-ended a s t (event_read n k) h = h
step-ended a s t (event_sent n k) h = h

stays_ended :
    (a : WorkerError) (s t : ListenerRun)
    → ListenerSteps s t
    → s.acceptor ≡ run_ended a
    → t.acceptor ≡ run_ended a
stays_ended a s t stay h = h
stays_ended a s t (after {t = m} before step) h = step-ended a m t step (stays_ended a s m before h)

-- Nothing looks at the error of Run before the context is done: once lc.Listen has failed, and until
-- the signal comes, every state has main in pump, Run at its end, and no connection. The process
-- goes on without a listener.
pub unbound-waits :
    (e : Str) (s t : ListenerRun)
    → ListenerSteps launched s
    → s.acceptor ≡ run_ended (stopped e)
    → ListenerSteps s t
    → t.cancelled ≡ false
    → (t.main ≡ pumping) × (t.acceptor ≡ run_ended (stopped e)) × (conns t ≡ 0)
unbound-waits e s t run h more calm =
    let proper = reached-IsProper t (steps_trans run more) in
    let a = stays_ended (stopped e) s t more h in
    (by_main t.main refl proper.of_main, a, subst (λ q. IsLeft q t) a proper.of_acceptor)
  where
    by_main : (m : ListenerMain) → t.main ≡ m → IsFor m t → t.main ≡ pumping
    by_main pumping k f = k
    by_main awaiting k f = absurd (false≢true (sym calm ∙ f))
    by_main (returned r) k f = absurd (false≢true (sym calm ∙ f.0))

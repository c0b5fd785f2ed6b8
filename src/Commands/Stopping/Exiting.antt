-- ===== src/Commands/Stopping/Exiting.antt =====
-- The way of the listener to its exit.
use secret_control_panel.Base.{
  nat_eq, ◌≤◌, ◌≡◌, refl, sym, subst, ◌∙◌, ◌≢◌, true, Option, none, some, le_refl, arith,
}
use secret_control_panel.Text.{Str}
use secret_control_panel.Commands.{
  WorkerError, canceled, stopped, RunError, worker_error, exit_error,
}
use secret_control_panel.Commands.Stopping.{
  Acceptor, binding, accepting, draining, run_ended, ListenerMain, pumping, awaiting, returned,
  ListenerRun, conns, launched, OwnStep, listen_cancelled, close_listener, accept_stopped,
  close_conn, scan_ended, send_cancelled, conns_ended, pump_ended, exit, ListenerStep, own,
  interrupt, listen_failed, listen, accept, accept_failed, accept_broken, peer_ended, event_read,
  event_sent, ListenerSteps, stay, after,
}

-- What has happened before main is where it is.
abbrev pub IsFor : ListenerMain → ListenerRun → Type 0
IsFor pumping s = Unit
IsFor awaiting s = s.cancelled ≡ true
IsFor (returned r) s =
    (s.cancelled ≡ true)
    × (e : WorkerError) × (s.acceptor ≡ run_ended e)
    × (r ≡ exit_error (some canceled, some e))

-- What Run has left behind.
abbrev pub IsLeft : Acceptor → ListenerRun → Type 0
IsLeft binding s = conns s ≡ 0
IsLeft accepting s = Unit
IsLeft draining s = s.cancelled ≡ true
IsLeft (run_ended canceled) s = (s.cancelled ≡ true) × (conns s ≡ 0)
IsLeft (run_ended (stopped e)) s = conns s ≡ 0

pub record IsProper (s : ListenerRun) : Type 0 where
  pub of_main : IsFor s.main s
  pub of_acceptor : IsLeft s.acceptor s

IsFor-cancelled :
    (m : ListenerMain) (s : ListenerRun) → IsFor m s → IsFor m (record s { cancelled = true })
IsFor-cancelled pumping s h = tt
IsFor-cancelled awaiting s h = refl
IsFor-cancelled (returned r) s (k, e, ended, out) = (refl, e, ended, out)

IsLeft-cancelled :
    (a : Acceptor) (s : ListenerRun) → IsLeft a s → IsLeft a (record s { cancelled = true })
IsLeft-cancelled binding s h = h
IsLeft-cancelled accepting s h = tt
IsLeft-cancelled draining s h = refl
IsLeft-cancelled (run_ended canceled) s h = (refl, h.1)
IsLeft-cancelled (run_ended (stopped e)) s h = h

-- Fewer handlers, or the same number in other places.
IsLeft-fewer :
    (a : Acceptor) (s t : ListenerRun)
    → t.cancelled ≡ s.cancelled
    → conns t ≤ conns s
    → IsLeft a s
    → IsLeft a t
IsLeft-fewer binding s t c n h = omega (arith, n, h)
IsLeft-fewer accepting s t c n h = tt
IsLeft-fewer draining s t c n h = c ∙ h
IsLeft-fewer (run_ended canceled) s t c n h = (c ∙ h.0, omega (arith, n, h.1))
IsLeft-fewer (run_ended (stopped e)) s t c n h = omega (arith, n, h)

-- Main does not see Run before it has ended.
IsFor-running :
    (m : ListenerMain) (s t : ListenerRun)
    → t.cancelled ≡ s.cancelled
    → ((e : WorkerError) → s.acceptor ≢ run_ended e)
    → IsFor m s
    → IsFor m t
IsFor-running pumping s t c open_ h = tt
IsFor-running awaiting s t c open_ h = c ∙ h
IsFor-running (returned r) s t c open_ (k, e, ended, out) = absurd (open_ e ended)

IsFor-same :
    (m : ListenerMain) (s t : ListenerRun)
    → t.cancelled ≡ s.cancelled
    → t.acceptor ≡ s.acceptor
    → IsFor m s
    → IsFor m t
IsFor-same pumping s t c a h = tt
IsFor-same awaiting s t c a h = c ∙ h
IsFor-same (returned r) s t c a (k, e, ended, out) = (c ∙ k, e, a ∙ ended, out)

OwnStep-IsProper : (s t : ListenerRun) → OwnStep s t → IsProper s → IsProper t
OwnStep-IsProper s t (listen_cancelled b c) h = record {
  of_main = IsFor-running s.main s t refl (λ x k. ground arith) h.of_main;
  of_acceptor = (c, subst (λ a. IsLeft a s) b h.of_acceptor);
}
OwnStep-IsProper s t (close_listener b c) h = record {
  of_main = IsFor-same s.main s t refl refl h.of_main;
  of_acceptor = IsLeft-fewer s.acceptor s t refl (le_refl (conns s)) h.of_acceptor;
}
OwnStep-IsProper s t (accept_stopped a c d) h = record {
  of_main = IsFor-running s.main s t refl (λ x k. ground arith) h.of_main;
  of_acceptor = c;
}
OwnStep-IsProper s t (close_conn n k c) h = record {
  of_main = IsFor-same s.main s t refl refl h.of_main;
  of_acceptor = IsLeft-fewer s.acceptor s t refl (omega (arith, k)) h.of_acceptor;
}
OwnStep-IsProper s t (scan_ended n k) h = record {
  of_main = IsFor-same s.main s t refl refl h.of_main;
  of_acceptor = IsLeft-fewer s.acceptor s t refl (omega (arith, k)) h.of_acceptor;
}
OwnStep-IsProper s t (send_cancelled n k c) h = record {
  of_main = IsFor-same s.main s t refl refl h.of_main;
  of_acceptor = IsLeft-fewer s.acceptor s t refl (omega (arith, k)) h.of_acceptor;
}
OwnStep-IsProper s t (conns_ended a k) h = record {
  of_main = IsFor-running s.main s t refl (λ x k. ground arith) h.of_main;
  of_acceptor = (subst (λ q. IsLeft q s) a h.of_acceptor, k);
}
OwnStep-IsProper s t (pump_ended m c) h = record {
  of_main = c;
  of_acceptor = IsLeft-fewer s.acceptor s t refl (le_refl (conns s)) h.of_acceptor;
}
OwnStep-IsProper s t (exit e m a) h = record {
  of_main = (subst (λ q. IsFor q s) m h.of_main, e, a, refl);
  of_acceptor = IsLeft-fewer s.acceptor s t refl (le_refl (conns s)) h.of_acceptor;
}

ListenerStep-IsProper : (s t : ListenerRun) → ListenerStep s t → IsProper s → IsProper t
ListenerStep-IsProper s t (own step) h = OwnStep-IsProper s t step h
ListenerStep-IsProper s t interrupt h = record {
  of_main = IsFor-cancelled s.main s h.of_main;
  of_acceptor = IsLeft-cancelled s.acceptor s h.of_acceptor;
}
ListenerStep-IsProper s t (listen_failed e b) h = record {
  of_main = IsFor-running s.main s t refl (λ x k. ground arith) h.of_main;
  of_acceptor = subst (λ a. IsLeft a s) b h.of_acceptor;
}
ListenerStep-IsProper s t (listen b) h = record {
  of_main = IsFor-running s.main s t refl (λ x k. ground arith) h.of_main;
  of_acceptor = tt;
}
ListenerStep-IsProper s t (accept a c) h = record {
  of_main = IsFor-same s.main s t refl refl h.of_main;
  of_acceptor = subst (λ q. IsLeft q t) (sym a) tt;
}
ListenerStep-IsProper s t (accept_failed a c) h = h
ListenerStep-IsProper s t (accept_broken a c) h = record {
  of_main = IsFor-running s.main s t refl (λ x k. ground arith) h.of_main;
  of_acceptor = c;
}
ListenerStep-IsProper s t (peer_ended n k) h = record {
  of_main = IsFor-same s.main s t refl refl h.of_main;
  of_acceptor = IsLeft-fewer s.acceptor s t refl (omega (arith, k)) h.of_acceptor;
}
ListenerStep-IsProper s t (event_read n k) h = record {
  of_main = IsFor-same s.main s t refl refl h.of_main;
  of_acceptor = IsLeft-fewer s.acceptor s t refl (omega (arith, k)) h.of_acceptor;
}
ListenerStep-IsProper s t (event_sent n k) h = record {
  of_main = IsFor-same s.main s t refl refl h.of_main;
  of_acceptor = IsLeft-fewer s.acceptor s t refl (omega (arith, k)) h.of_acceptor;
}

pub reached-IsProper : (s : ListenerRun) → ListenerSteps launched s → IsProper s
reached-IsProper s stay = record { of_main = tt; of_acceptor = refl }
reached-IsProper s (after {t = m} before step) =
    ListenerStep-IsProper m s step (reached-IsProper m before)

-- Run has ended, and how main returns then.
pub data Ended (a : Acceptor) (r : Option RunError) : Type 0 where
  orderly : a ≡ run_ended canceled → r ≡ none → Ended a r
  failed_to_listen : (e : Str) → a ≡ run_ended (stopped e) → r ≡ some (worker_error e) → Ended a r

-- In every order of its steps: when run of the listener returns, the context is done, no connection
-- is being read, and Run has ended. The exit code is 0 where Run had stopped for the context, and
-- otherwise run returns the error that lc.Listen had.
pub returned-Ended :
    (s : ListenerRun) (r : Option RunError)
    → ListenerSteps launched s
    → s.main ≡ returned r
    → (s.cancelled ≡ true) × (conns s ≡ 0) × Ended s.acceptor r
returned-Ended s r run m =
    let h = reached-IsProper s run in
    let (done, e, a, out) = subst (λ q. IsFor q s) m h.of_main in
    by_end e a out done (subst (λ q. IsLeft q s) a h.of_acceptor)
  where
    by_end :
        (e : WorkerError)
        → s.acceptor ≡ run_ended e
        → r ≡ exit_error (some canceled, some e)
        → s.cancelled ≡ true
        → IsLeft (run_ended e) s
        → (s.cancelled ≡ true) × (conns s ≡ 0) × Ended s.acceptor r
    by_end canceled a out done left = (done, left.1, orderly a out)
    by_end (stopped e) a out done left = (done, left, failed_to_listen e a out)

-- ===== src/Commands/Stopping.antt =====
-- cmd/scp-listener/main.go: run after the set-up; internal/scp/audit/socket_listener.go: Run, and the
-- end of handleConn. There are the goroutines of main (pump and the wait for the socket), of Run, of
-- the connections, the one that closes the listener when the context is done, and for each connection
-- the one that then closes it. net is modelled by its documentation: a listener that is closed accepts
-- nothing and Accept returns an error, and a Read of a connection that is closed returns an error. The
-- closing of a connection is a step of its own at the time when the handler is in its Read.
pub mod Exiting
pub mod Freeing
pub mod Unbound
pub mod Tests
use secret_control_panel.Base.{
  ltb, leb, nat_beq, if◌then◌else◌, leb_iff, nat_beq_iff, Bool-cases, Option-cases, is_some, ◌==◌,
  ◌!=◌, nat_eq, eq_iff, eq_refl, ne_of_beq, beq_of_ne, list_beq, list_beq_iff, Eq, length, take,
  any, all, filter, find?, All, length-append, All-append, All-mem, All-of-mem, All-perm, mem-perm,
  All-take, All-map, mem-filter, mem_of-filter, length-filter-le, length-filter-lt, length-perm,
  length-map, mem_last, mem_appended, pos_part, neg_part, ◌≤ℤ◌, leb_ℤ, ℤ, pos, negsuc, ◌>>=◌, ◌>>◌,
  >>=-ok, Result, ok, err, Pairs, Pairs-take, Pairs-filter, Pairs-perm, Pairs-map, Pairs-of-map,
  Pairs-eq, Pairs-append-one, ℕ, zero, suc, ◌+◌, ◌-◌, ◌*◌, ◌%◌, ◌^◌, ◌≤◌, ◌<◌, min, max, ◌≡◌, refl,
  sym, ap, subst, ◌∙◌, ◌≢◌, ◌↔◌, ◌⊎◌, inl, inr, Bool, true, false, false≢true, not, ◌&&◌, ◌||◌,
  Option, none, some, List, [], ◌∷◌, ◌++◌, map, reverse, Memᴰ, Permᴰ, le_antisymm, le_trans,
  le_refl, arith,
}
use secret_control_panel.Text.{Str}
use secret_control_panel.Commands.{WorkerError, canceled, stopped, RunError, exit_error}

-- Run: before lc.Listen, in its loop, in wg.Wait, or back with its error.
pub data Acceptor : Type 0 where
  binding : Acceptor
  accepting : Acceptor
  draining : Acceptor
  run_ended : WorkerError → Acceptor

-- Past lc.Listen, where the goroutine that closes the listener is started.
abbrev pub has_listener : Acceptor → Bool
has_listener binding = false
has_listener accepting = true
has_listener draining = true
has_listener (run_ended e) = true

-- run of the command: in pump, at the receive from socketErr, or back with what it returns.
pub data ListenerMain : Type 0 where
  pumping : ListenerMain
  awaiting : ListenerMain
  returned : Option RunError → ListenerMain

-- `cancelled` says that the context is done, `closed` that the listener is closed. Of the handlers in
-- the WaitGroup of Run, `reading` are in Scan, `sending` in the select of a send, and `shut` in Scan
-- with their connection closed by the program.
pub record ListenerRun : Type 0 where
  pub cancelled : Bool
  pub acceptor : Acceptor
  pub closed : Bool
  pub reading : ℕ
  pub sending : ℕ
  pub shut : ℕ
  pub main : ListenerMain

-- The WaitGroup of Run.
abbrev pub conns : ListenerRun → ℕ
conns s = s.reading + s.sending + s.shut

abbrev pub launched : ListenerRun
launched = record {
  cancelled = false;
  acceptor = binding;
  closed = false;
  reading = 0;
  sending = 0;
  shut = 0;
  main = pumping;
}

-- What the program does by itself once the context is done.
pub data OwnStep (s : ListenerRun) : ListenerRun → Type 0 where
  -- A context that is done makes Listen fail with its error.
  listen_cancelled :
      s.acceptor ≡ binding
      → s.cancelled ≡ true
      → OwnStep s (record s { acceptor = run_ended canceled })
  close_listener :
      has_listener s.acceptor ≡ true → s.cancelled ≡ true → OwnStep s (record s { closed = true })
  -- Accept fails because the listener is closed.
  accept_stopped :
      s.acceptor ≡ accepting
      → s.cancelled ≡ true
      → s.closed ≡ true
      → OwnStep s (record s { acceptor = draining })
  close_conn :
      (n : ℕ)
      → s.reading ≡ suc n
      → s.cancelled ≡ true
      → OwnStep s (record s { reading = n; shut = suc s.shut })
  scan_ended : (n : ℕ) → s.shut ≡ suc n → OwnStep s (record s { shut = n })
  send_cancelled :
      (n : ℕ) → s.sending ≡ suc n → s.cancelled ≡ true → OwnStep s (record s { sending = n })
  conns_ended :
      s.acceptor ≡ draining → conns s ≡ 0 → OwnStep s (record s { acceptor = run_ended canceled })
  pump_ended : s.main ≡ pumping → s.cancelled ≡ true → OwnStep s (record s { main = awaiting })
  exit :
      (e : WorkerError)
      → s.main ≡ awaiting
      → s.acceptor ≡ run_ended e
      → OwnStep s (record s { main = returned (exit_error (some canceled, some e)) })

-- With what comes from outside: the signal, the network, the peers, and the room in the channel.
pub data ListenerStep (s : ListenerRun) : ListenerRun → Type 0 where
  own : {t : ListenerRun} → OwnStep s t → ListenerStep s t
  interrupt : ListenerStep s (record s { cancelled = true })
  listen_failed :
      (e : Str)
      → s.acceptor ≡ binding
      → ListenerStep s (record s { acceptor = run_ended (stopped e) })
  listen : s.acceptor ≡ binding → ListenerStep s (record s { acceptor = accepting })
  accept :
      s.acceptor ≡ accepting
      → s.closed ≡ false
      → ListenerStep s (record s { reading = suc s.reading })
  -- Logged, and the loop goes on.
  accept_failed : s.acceptor ≡ accepting → s.cancelled ≡ false → ListenerStep s s
  -- Another error of Accept, when the context is done.
  accept_broken :
      s.acceptor ≡ accepting
      → s.cancelled ≡ true
      → ListenerStep s (record s { acceptor = draining })
  peer_ended : (n : ℕ) → s.reading ≡ suc n → ListenerStep s (record s { reading = n })
  event_read :
      (n : ℕ)
      → s.reading ≡ suc n
      → ListenerStep s (record s { reading = n; sending = suc s.sending })
  event_sent :
      (n : ℕ)
      → s.sending ≡ suc n
      → ListenerStep s (record s { sending = n; reading = suc s.reading })

pub data ListenerSteps (s : ListenerRun) : ListenerRun → Type 0 where
  stay : ListenerSteps s s
  after : {t u : ListenerRun} → ListenerSteps s t → ListenerStep t u → ListenerSteps s u

-- Steps of the program alone.
pub data OwnSteps (s : ListenerRun) : ListenerRun → Type 0 where
  settled : OwnSteps s s
  on_own : {t u : ListenerRun} → OwnSteps s t → OwnStep t u → OwnSteps s u

pub steps_trans : {s t u : ListenerRun} → ListenerSteps s t → ListenerSteps t u → ListenerSteps s u
steps_trans a stay = a
steps_trans a (after b step) = after (steps_trans a b) step

pub OwnSteps-trans : {s t u : ListenerRun} → OwnSteps s t → OwnSteps t u → OwnSteps s u
OwnSteps-trans a settled = a
OwnSteps-trans a (on_own b step) = on_own (OwnSteps-trans a b) step

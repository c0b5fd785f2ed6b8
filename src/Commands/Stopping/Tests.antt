-- ===== src/Commands/Stopping/Tests.antt =====
-- A listener with one connection, and one whose address is taken.
use secret_control_panel.Base.{nat_eq, ◌≡◌, refl, true, Option, none}
use secret_control_panel.Text.{Str, codes}
use secret_control_panel.Commands.{canceled, stopped, RunError}
use secret_control_panel.Commands.Stopping.{
  accepting, run_ended, pumping, returned, ListenerRun, conns, launched, close_listener,
  accept_stopped, close_conn, scan_ended, conns_ended, pump_ended, exit, own, interrupt,
  listen_failed, listen, accept, ListenerSteps, stay, after, OwnSteps,
}
use secret_control_panel.Commands.Stopping.Exiting.{Ended, returned-Ended}
use secret_control_panel.Commands.Stopping.Freeing.{cancelled-exits}
use secret_control_panel.Commands.Stopping.Unbound.{unbound-waits}

abbrev stopping : ListenerRun
stopping = record launched { cancelled = true; acceptor = accepting; reading = 1 }

to_stopping : ListenerSteps launched stopping
to_stopping = after (after (after stay (listen refl)) (accept refl refl)) interrupt

abbrev all_ended : ListenerRun
all_ended = record launched {
  cancelled = true;
  closed = true;
  acceptor = run_ended canceled;
  main = returned none;
}

to_all_ended : ListenerSteps launched all_ended
to_all_ended =
    after
      (after
        (after
          (after
            (after
              (after (after to_stopping (own (close_listener refl refl)))
                (own (close_conn 0 refl refl)))
              (own (scan_ended 0 refl)))
            (own (accept_stopped refl refl refl)))
          (own (conns_ended refl refl)))
        (own (pump_ended refl refl)))
      (own (exit canceled refl refl))

returned-Ended_example :
    (all_ended.cancelled ≡ true) × (conns all_ended ≡ 0) × Ended all_ended.acceptor none
returned-Ended_example = returned-Ended all_ended none to_all_ended refl

cancelled-exits_example :
    (t : ListenerRun) × (r : Option RunError) × OwnSteps stopping t
    × (t.main ≡ returned r)
    × (conns t ≡ 0)
cancelled-exits_example = cancelled-exits stopping refl

abbrev taken : Str
taken = codes "address already in use"

abbrev unbound : ListenerRun
unbound = record launched { acceptor = run_ended (stopped taken) }

unbound-waits_example :
    (unbound.main ≡ pumping) × (unbound.acceptor ≡ run_ended (stopped taken)) × (conns unbound ≡ 0)
unbound-waits_example =
    unbound-waits taken unbound unbound (after stay (listen_failed taken refl)) refl stay refl

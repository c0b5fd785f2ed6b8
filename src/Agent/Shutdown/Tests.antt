-- ===== src/Agent/Shutdown/Tests.antt =====
-- An agent with one watcher that still polls when the signal comes.
use secret_control_panel.Base.{nat_eq, ◌≡◌, refl, true, none}
use secret_control_panel.Agent.Shutdown.{
  returned, in_shutdown, finished, AgentRun, fresh, accept, watch, called_back, signal, shut, idle,
  awaited, server_closed, AgentSteps, begin, then_step,
}
use secret_control_panel.Agent.Shutdown.Overtaking.{exit-overtakes}
use secret_control_panel.Agent.Shutdown.Promise.{IsSettled, reached-IsSettled}

abbrev one_watcher : AgentRun
one_watcher = record fresh { watchers = 1 }

to_one_watcher : AgentSteps fresh one_watcher
to_one_watcher = then_step (then_step begin refl (accept refl)) refl (watch 0 refl)

exit-overtakes_example :
    (t : AgentRun) × AgentSteps one_watcher t
    × (t.exited ≡ true)
    × (t.main ≡ returned none)
    × (t.closer ≡ in_shutdown)
    × (t.handlers ≡ 0)
    × (t.watchers ≡ 1)
exit-overtakes_example = exit-overtakes one_watcher refl refl refl

-- The order that the comments of the code have in mind.
abbrev all_done : AgentRun
all_done = record fresh { signalled = true; closer = finished; main = returned none }

reached-IsSettled_example : IsSettled all_done
reached-IsSettled_example = reached-IsSettled all_done (
    then_step
      (then_step
        (then_step
          (then_step (then_step (then_step to_one_watcher refl signal) refl (shut refl refl)) refl
            (idle refl refl))
          refl (called_back 0 refl))
        refl (awaited refl refl))
      refl (server_closed refl refl))

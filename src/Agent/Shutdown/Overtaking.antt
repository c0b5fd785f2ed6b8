-- ===== src/Agent/Shutdown/Overtaking.antt =====
-- The exit of the agent against its callbacks.
use secret_control_panel.Base.{nat_eq, ◌≡◌, refl, true, false, none}
use secret_control_panel.Agent.Shutdown.{
  serving, returned, before_signal, in_shutdown, AgentRun, signal, shut, server_closed, exit,
  AgentSteps, begin, then_step,
}

-- Run does not wait for the goroutine that waits for the callbacks: from every state in which the
-- agent serves, the process can exit after the signal, with code 0, with every handler and every
-- watcher that was running still unfinished, and before Wait is called.
pub exit-overtakes :
    (s : AgentRun)
    → s.main ≡ serving
    → s.closer ≡ before_signal
    → s.exited ≡ false
    → (t : AgentRun) × AgentSteps s t
      × (t.exited ≡ true)
      × (t.main ≡ returned none)
      × (t.closer ≡ in_shutdown)
      × (t.handlers ≡ s.handlers)
      × (t.watchers ≡ s.watchers)
exit-overtakes s m c running = (
  record s { signalled = true; closer = in_shutdown; main = returned none; exited = true },
  then_step
      (then_step (then_step (then_step begin running signal) running (shut c refl)) running
        (server_closed m refl))
      running (exit none refl),
  refl,
  refl,
  refl,
  refl,
  refl,
)

-- ===== src/Agent/Shutdown/Promise.antt =====
-- What a shutdown of the agent keeps to.
use secret_control_panel.Base.{
  nat_eq, ℕ, suc, ◌≡◌, refl, sym, subst, ◌∙◌, ◌⊎◌, inl, inr, Bool, true, false, false≢true, not,
  ◌||◌, none, some, arith,
}
use secret_control_panel.Text.{Str}
use secret_control_panel.Agent.Shutdown.{
  returned, Closer, before_signal, in_shutdown, in_wait, finished, AgentRun, fresh, is_closing,
  is_shut, cancelled, AgentStep, accept, refuse, watch, called_back, signal, shut, deadline, idle,
  shut_expired, awaited, wait_expired, server_closed, serve_failed, exit, AgentSteps, begin,
  then_step,
}

-- What the closer may rely on, while its context is not done.
abbrev pub IsIdle : Closer → ℕ → ℕ → Type 0
IsIdle before_signal handlers watchers = Unit
IsIdle in_shutdown handlers watchers = Unit
IsIdle in_wait handlers watchers = handlers ≡ 0
IsIdle finished handlers watchers = (handlers ≡ 0) × (watchers ≡ 0)

-- A clean return of run comes after a signal, and a closer at its end has seen every handler and
-- every watcher end, unless its time was up.
pub record IsSettled (s : AgentRun) : Type 0 where
  pub asked :
      is_closing s.closer ≡ true → (s.signalled ≡ true) ⊎ ((e : Str) × (s.main ≡ returned (some e)))
  pub clean : s.main ≡ returned none → s.signalled ≡ true
  pub drained : s.expired ≡ false → IsIdle s.closer s.handlers s.watchers

fewer_handlers : (c : Closer) (h n w v : ℕ) → h ≡ suc n → IsIdle c h w → IsIdle c n v
fewer_handlers before_signal h n w v e idle_so_far = tt
fewer_handlers in_shutdown h n w v e idle_so_far = tt
fewer_handlers in_wait h n w v e idle_so_far = absurd (omega (arith, e, idle_so_far))
fewer_handlers finished h n w v e idle_so_far = absurd (omega (arith, e, idle_so_far.0))

fewer_watchers : (c : Closer) (h w n : ℕ) → w ≡ suc n → IsIdle c h w → IsIdle c h n
fewer_watchers before_signal h w n e idle_so_far = tt
fewer_watchers in_shutdown h w n e idle_so_far = tt
fewer_watchers in_wait h w n e idle_so_far = idle_so_far
fewer_watchers finished h w n e idle_so_far = absurd (omega (arith, e, idle_so_far.1))

-- While a request may come, the closer relies on nothing.
still_open :
    (c : Closer) (h w : ℕ) (late : Bool)
    → not (is_shut c) || late ≡ true
    → late ≡ false
    → IsIdle c (suc h) w
still_open before_signal h w late takes e = tt
still_open in_shutdown h w late takes e = tt
still_open in_wait h w late takes e = absurd (false≢true (sym e ∙ takes))
still_open finished h w late takes e = absurd (false≢true (sym e ∙ takes))

AgentStep-IsSettled : (s t : AgentRun) → AgentStep s t → IsSettled s → IsSettled t
AgentStep-IsSettled s t (accept takes) h = record {
  asked = h.asked;
  clean = h.clean;
  drained = λ e. still_open s.closer s.handlers s.watchers s.expired takes e;
}
AgentStep-IsSettled s t (refuse n k) h = record {
  asked = h.asked;
  clean = h.clean;
  drained = λ e. fewer_handlers s.closer s.handlers n s.watchers s.watchers k (h.drained e);
}
AgentStep-IsSettled s t (watch n k) h = record {
  asked = h.asked;
  clean = h.clean;
  drained = λ e. fewer_handlers s.closer s.handlers n s.watchers (suc s.watchers) k (h.drained e);
}
AgentStep-IsSettled s t (called_back n k) h = record {
  asked = h.asked;
  clean = h.clean;
  drained = λ e. fewer_watchers s.closer s.handlers s.watchers n k (h.drained e);
}
AgentStep-IsSettled s t signal h = record {
  asked = λ e. inl refl;
  clean = λ e. refl;
  drained = h.drained;
}
AgentStep-IsSettled s t (shut c k) h = record {
  asked = λ e. inl k;
  clean = h.clean;
  drained = λ e. tt;
}
AgentStep-IsSettled s t (cancelled e m c) h = record {
  asked = λ k. inr (e, m);
  clean = h.clean;
  drained = λ k. tt;
}
AgentStep-IsSettled s t (deadline c) h = record {
  asked = h.asked;
  clean = h.clean;
  drained = λ e. absurd (ground arith);
}
AgentStep-IsSettled s t (idle c k) h = record {
  asked = λ e. h.asked (rw c refl);
  clean = h.clean;
  drained = λ e. k;
}
AgentStep-IsSettled s t (shut_expired c late) h = record {
  asked = λ e. h.asked (rw c refl);
  clean = h.clean;
  drained = λ e. absurd (ground arith);
}
AgentStep-IsSettled s t (awaited c k) h = record {
  asked = λ e. h.asked (rw c refl);
  clean = h.clean;
  drained = λ e. (subst (λ q. IsIdle q s.handlers s.watchers) c (h.drained e), k);
}
AgentStep-IsSettled s t (wait_expired c late) h = record {
  asked = λ e. h.asked (rw c refl);
  clean = h.clean;
  drained = λ e. absurd (ground arith);
}
AgentStep-IsSettled s t (server_closed m c) h = record {
  asked = λ e. elim (h.asked e) [ inl k ↦ inl k | inr (x, k) ↦ absurd (ground arith) ];
  clean = λ e. elim (h.asked c) [ inl k ↦ k | inr (x, k) ↦ absurd (ground arith) ];
  drained = h.drained;
}
AgentStep-IsSettled s t (serve_failed e m) h = record {
  asked = λ k. inr (e, refl);
  clean = λ k. absurd (ground arith);
  drained = h.drained;
}
AgentStep-IsSettled s t (exit e m) h = record {
  asked = h.asked;
  clean = h.clean;
  drained = h.drained;
}

-- In every order of its steps, an agent that returns from run without an error was signalled; and
-- where the goroutine of the shutdown has come to its end before its five seconds were over, every
-- handler and every watcher had ended.
pub reached-IsSettled : (s : AgentRun) → AgentSteps fresh s → IsSettled s
reached-IsSettled s begin = record {
  asked = λ e. absurd (ground arith);
  clean = λ e. absurd (ground arith);
  drained = λ e. tt;
}
reached-IsSettled s (then_step {t = m} before running step) =
    AgentStep-IsSettled m s step (reached-IsSettled m before)

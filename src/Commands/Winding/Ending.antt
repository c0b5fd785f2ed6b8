-- ===== src/Commands/Winding/Ending.antt =====
-- The way of the daemon's run to its end.
use secret_control_panel.Base.{nat_eq, ℕ, zero, suc, ◌≡◌, refl, subst, true, Option, none, arith}
use secret_control_panel.Commands.{RunError}
use secret_control_panel.Commands.Winding.{
  DaemonMain, on_processor, on_dispatcher, on_subscribers, came_back, DaemonRun, all_started,
  DaemonStep, interrupt, end_processor, end_dispatcher, end_subscriber, take_processor,
  take_dispatcher, take_subscribers, DaemonSteps, here, next, DaemonSteps-trans,
}

-- What main has waited for.
abbrev pub HasEnded : DaemonMain → DaemonRun → Type 0
HasEnded on_processor s = Unit
HasEnded on_dispatcher s = (s.cancelled ≡ true) × (s.processor_ended ≡ true)
HasEnded on_subscribers s =
    (s.cancelled ≡ true) × (s.processor_ended ≡ true) × (s.dispatcher_ended ≡ true)
HasEnded (came_back r) s =
    (s.cancelled ≡ true)
    × (s.processor_ended ≡ true)
    × (s.dispatcher_ended ≡ true)
    × (s.subscribers ≡ 0)
    × (r ≡ none)

-- Flags are only raised, and the wait group only falls.
record Onward (s t : DaemonRun) : Type 0 where
  cancelled : s.cancelled ≡ true → t.cancelled ≡ true
  processor : s.processor_ended ≡ true → t.processor_ended ≡ true
  dispatcher : s.dispatcher_ended ≡ true → t.dispatcher_ended ≡ true
  subscribers : s.subscribers ≡ 0 → t.subscribers ≡ 0

HasEnded-Onward : (m : DaemonMain) (s t : DaemonRun) → Onward s t → HasEnded m s → HasEnded m t
HasEnded-Onward on_processor s t o h = tt
HasEnded-Onward on_dispatcher s t o (c, p) = (o.cancelled c, o.processor p)
HasEnded-Onward on_subscribers s t o (c, p, d) = (o.cancelled c, o.processor p, o.dispatcher d)
HasEnded-Onward (came_back r) s t o (c, p, d, w, e) =
    (o.cancelled c, o.processor p, o.dispatcher d, o.subscribers w, e)

Step-HasEnded : (s t : DaemonRun) → DaemonStep s t → HasEnded s.main s → HasEnded t.main t
Step-HasEnded s t interrupt h =
    HasEnded-Onward s.main s t
      (record {
        cancelled = λ k. refl;
        processor = λ k. k;
        dispatcher = λ k. k;
        subscribers = λ k. k;
      })
      h
Step-HasEnded s t (end_processor c) h =
    HasEnded-Onward s.main s t
      (record {
        cancelled = λ k. k;
        processor = λ k. refl;
        dispatcher = λ k. k;
        subscribers = λ k. k;
      })
      h
Step-HasEnded s t (end_dispatcher c) h =
    HasEnded-Onward s.main s t
      (record {
        cancelled = λ k. k;
        processor = λ k. k;
        dispatcher = λ k. refl;
        subscribers = λ k. k;
      })
      h
Step-HasEnded s t (end_subscriber n c w) h =
    HasEnded-Onward s.main s t
      (record {
        cancelled = λ k. k;
        processor = λ k. k;
        dispatcher = λ k. k;
        subscribers = λ k. absurd (omega (arith, k, w));
      })
      h
Step-HasEnded s t (take_processor m p) h = (refl, p)
Step-HasEnded s t (take_dispatcher m d) h = let (c, p) = subst (λ q. HasEnded q s) m h in (c, p, d)
Step-HasEnded s t (take_subscribers m w) h =
    let (c, p, d) = subst (λ q. HasEnded q s) m h in (c, p, d, w, refl)

-- In every order of its steps, run of the daemon comes back with code 0, and only when the context is
-- done and the processor, the dispatcher and both subscribers have ended.
pub reached-HasEnded : (s : DaemonRun) → DaemonSteps all_started s → HasEnded s.main s
reached-HasEnded s here = tt
reached-HasEnded s (next {t = m} before step) = Step-HasEnded m s step (reached-HasEnded m before)

end_subscribers :
    (n : ℕ) (s : DaemonRun)
    → s.cancelled ≡ true
    → s.subscribers ≡ n
    → DaemonSteps s (record s { subscribers = 0 })
end_subscribers zero s c h = subst (λ k. DaemonSteps s (record s { subscribers = k })) h here
end_subscribers (suc n) s c h =
    DaemonSteps-trans (next here (end_subscriber n c h))
      (end_subscribers n (record s { subscribers = n }) c refl)

-- From every state in which the context is done, the daemon can come to its exit.
pub cancelled-comes_back :
    (s : DaemonRun)
    → s.cancelled ≡ true
    → (t : DaemonRun) × (r : Option RunError) × DaemonSteps s t × (t.main ≡ came_back r)
cancelled-comes_back s c =
    let ended =
      next (next (end_subscribers s.subscribers s c refl) (end_processor c)) (end_dispatcher c) in
    let (t, r, steps, back) =
      by_main s.main (record s { subscribers = 0; processor_ended = true; dispatcher_ended = true })
        refl c refl refl refl in
    (t, r, DaemonSteps-trans ended steps, back)
  where
    by_main :
        (m : DaemonMain) (u : DaemonRun)
        → u.main ≡ m
        → u.cancelled ≡ true
        → u.processor_ended ≡ true
        → u.dispatcher_ended ≡ true
        → u.subscribers ≡ 0
        → (t : DaemonRun) × (r : Option RunError) × DaemonSteps u t × (t.main ≡ came_back r)
    by_main on_processor u m c p d w = (
      _,
      _,
      next (next (next here (take_processor m p)) (take_dispatcher refl d))
          (take_subscribers refl w),
      refl,
    )
    by_main on_dispatcher u m c p d w =
        (_, _, next (next here (take_dispatcher m d)) (take_subscribers refl w), refl)
    by_main on_subscribers u m c p d w = (_, _, next here (take_subscribers m w), refl)
    by_main (came_back r) u m c p d w = (u, r, here, m)

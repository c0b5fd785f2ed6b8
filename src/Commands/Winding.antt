-- ===== src/Commands/Winding.antt =====
-- cmd/scp-daemon/main.go: run after the set-up. There are the goroutines of main, of RunProcessor, of
-- RunDispatcher and the two of Subscribe; the loops of the four end when the context is done, which
-- RunProcessor and RunDispatcher return as context.Canceled.
pub mod Ending
use secret_control_panel.Base.{
  ltb, leb, nat_beq, if◌then◌else◌, leb_iff, nat_beq_iff, Bool-cases, Option-cases, is_some, ◌==◌,
  ◌!=◌, nat_eq, eq_iff, eq_refl, ne_of_beq, beq_of_ne, list_beq, list_beq_iff, Eq, length, take,
  any, all, filter, find?, All, length-append, All-append, All-mem, All-of-mem, All-perm, mem-perm,
  All-take, All-map, mem-filter, mem_of-filter, length-filter-le, length-filter-lt, length-perm,
  length-map, mem_last, mem_appended, pos_part, neg_part, ◌≤ℤ◌, leb_ℤ, ℤ, pos, negsuc, ◌>>=◌, ◌>>◌,
  >>=-ok, Result, ok, err, Pairs, Pairs-take, Pairs-filter, Pairs-perm, Pairs-map, Pairs-of-map,
  Pairs-eq, Pairs-append-one, ℕ, zero, suc, ◌+◌, ◌-◌, ◌*◌, ◌%◌, ◌^◌, ◌≤◌, ◌<◌, min, max, ◌≡◌, refl,
  sym, ap, subst, ◌∙◌, ◌≢◌, ◌↔◌, ◌⊎◌, inl, inr, Bool, true, false, false≢true, not, ◌&&◌, ◌||◌,
  Option, none, some, List, [], ◌∷◌, ◌++◌, map, reverse, Memᴰ, Permᴰ, le_antisymm, le_trans,
  le_refl, arith,
}
use secret_control_panel.Commands.{canceled, RunError, exit_error}

-- run: at the receive from procErr, at that from dispErr, in listenWG.Wait, or back.
pub data DaemonMain : Type 0 where
  on_processor : DaemonMain
  on_dispatcher : DaemonMain
  on_subscribers : DaemonMain
  came_back : Option RunError → DaemonMain

-- `subscribers` is listenWG.
pub record DaemonRun : Type 0 where
  pub cancelled : Bool
  pub processor_ended : Bool
  pub dispatcher_ended : Bool
  pub subscribers : ℕ
  pub main : DaemonMain

abbrev pub all_started : DaemonRun
all_started = record {
  cancelled = false;
  processor_ended = false;
  dispatcher_ended = false;
  subscribers = 2;
  main = on_processor;
}

pub data DaemonStep (s : DaemonRun) : DaemonRun → Type 0 where
  interrupt : DaemonStep s (record s { cancelled = true })
  end_processor : s.cancelled ≡ true → DaemonStep s (record s { processor_ended = true })
  end_dispatcher : s.cancelled ≡ true → DaemonStep s (record s { dispatcher_ended = true })
  end_subscriber :
      (n : ℕ)
      → s.cancelled ≡ true
      → s.subscribers ≡ suc n
      → DaemonStep s (record s { subscribers = n })
  -- With cancel().
  take_processor :
      s.main ≡ on_processor
      → s.processor_ended ≡ true
      → DaemonStep s (record s { cancelled = true; main = on_dispatcher })
  take_dispatcher :
      s.main ≡ on_dispatcher
      → s.dispatcher_ended ≡ true
      → DaemonStep s (record s { main = on_subscribers })
  take_subscribers :
      s.main ≡ on_subscribers
      → s.subscribers ≡ 0
      → DaemonStep s (record s { main = came_back (exit_error (some canceled, some canceled)) })

pub data DaemonSteps (s : DaemonRun) : DaemonRun → Type 0 where
  here : DaemonSteps s s
  next : {t u : DaemonRun} → DaemonSteps s t → DaemonStep t u → DaemonSteps s u

pub DaemonSteps-trans : {s t u : DaemonRun} → DaemonSteps s t → DaemonSteps t u → DaemonSteps s u
DaemonSteps-trans a here = a
DaemonSteps-trans a (next b step) = next (DaemonSteps-trans a b) step

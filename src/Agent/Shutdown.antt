-- ===== src/Agent/Shutdown.antt =====
-- cmd/scp-agent/main.go: run after the set-up, with the goroutine that shuts the server down, and
-- Watch and Wait of internal/agent/syncer/syncer.go. net/http is modelled by its documentation: once
-- Shutdown is called, ListenAndServe returns ErrServerClosed at once; Shutdown itself closes the idle
-- connections, and returns when no handler runs or its context is done. The process ends when main
-- returns.
pub mod Overtaking
pub mod Promise
pub mod Tests
use secret_control_panel.Base.{
  ltb, leb, nat_beq, if◌then◌else◌, leb_iff, nat_beq_iff, Bool-cases, Option-cases, is_some, ◌==◌,
  ◌!=◌, nat_eq, eq_iff, eq_refl, ne_of_beq, beq_of_ne, list_beq, list_beq_iff, Eq, length, take,
  any, all, filter, find?, All, length-append, All-append, All-mem, All-of-mem, All-perm, mem-perm,
  All-take, All-map, mem-filter, mem_of-filter, length-filter-le, length-filter-lt, length-perm,
  length-map, mem_last, mem_appended, pos_part, neg_part, ◌≤ℤ◌, leb_ℤ, ℤ, pos, negsuc, ◌>>=◌, ◌>>◌,
  >>=-ok, Result, ok, err, Pairs, Pairs-take, Pairs-filter, Pairs-perm, Pairs-map, Pairs-of-map,
  Pairs-eq, Pairs-append-one, ℕ, zero, suc, ◌+◌, ◌-◌, ◌*◌, ◌%◌, ◌^◌, ◌≤◌, ◌<◌, min, max, ◌≡◌, refl,
  sym, ap, subst, ◌∙◌, ◌≢◌, ◌↔◌, ◌⊎◌, inl, inr, Bool, true, false, false≢true, not, ◌&&◌, ◌||◌,
  Option, none, some, List, [], ◌∷◌, ◌++◌, map, reverse, Memᴰ, Permᴰ, le_antisymm, le_trans,
  le_refl, arith,
}
use secret_control_panel.Text.{Str}

-- The goroutine of main: in ListenAndServe, or back in main with the error of run.
pub data Main : Type 0 where
  serving : Main
  returned : Option Str → Main

-- The goroutine that waits for the signal: before it, in Shutdown, in Wait, or at its end.
pub data Closer : Type 0 where
  before_signal : Closer
  in_shutdown : Closer
  in_wait : Closer
  finished : Closer

-- `handlers` counts the calls of handleEvents that run, `watchers` the WaitGroup of the syncer; `expired`
-- says that shutCtx is done.
pub record AgentRun : Type 0 where
  pub main : Main
  pub closer : Closer
  pub signalled : Bool
  pub expired : Bool
  pub handlers : ℕ
  pub watchers : ℕ
  pub exited : Bool

abbrev pub fresh : AgentRun
fresh = record {
  main = serving;
  closer = before_signal;
  signalled = false;
  expired = false;
  handlers = 0;
  watchers = 0;
  exited = false;
}

abbrev pub is_closing : Closer → Bool
is_closing before_signal = false
is_closing in_shutdown = true
is_closing in_wait = true
is_closing finished = true

-- Whether Shutdown has returned.
abbrev pub is_shut : Closer → Bool
is_shut before_signal = false
is_shut in_shutdown = false
is_shut in_wait = true
is_shut finished = true

-- Whether a connection may be open on which a request comes.
abbrev pub takes_requests : AgentRun → Bool
takes_requests s = not (is_shut s.closer) || s.expired

pub data AgentStep (s : AgentRun) : AgentRun → Type 0 where
  accept : takes_requests s ≡ true → AgentStep s (record s { handlers = suc s.handlers })
  refuse : (n : ℕ) → s.handlers ≡ suc n → AgentStep s (record s { handlers = n })
  -- Watch: wg.Add(1), and the goroutine.
  watch :
      (n : ℕ)
      → s.handlers ≡ suc n
      → AgentStep s (record s { handlers = n; watchers = suc s.watchers })
  called_back : (n : ℕ) → s.watchers ≡ suc n → AgentStep s (record s { watchers = n })
  signal : AgentStep s (record s { signalled = true })
  shut :
      s.closer ≡ before_signal
      → s.signalled ≡ true
      → AgentStep s (record s { closer = in_shutdown })
  -- The deferred cancel() of run, after ListenAndServe has failed.
  cancelled :
      (e : Str)
      → s.main ≡ returned (some e)
      → s.closer ≡ before_signal
      → AgentStep s (record s { closer = in_shutdown })
  deadline : is_closing s.closer ≡ true → AgentStep s (record s { expired = true })
  idle : s.closer ≡ in_shutdown → s.handlers ≡ 0 → AgentStep s (record s { closer = in_wait })
  shut_expired :
      s.closer ≡ in_shutdown → s.expired ≡ true → AgentStep s (record s { closer = in_wait })
  awaited : s.closer ≡ in_wait → s.watchers ≡ 0 → AgentStep s (record s { closer = finished })
  wait_expired :
      s.closer ≡ in_wait → s.expired ≡ true → AgentStep s (record s { closer = finished })
  server_closed :
      s.main ≡ serving
      → is_closing s.closer ≡ true
      → AgentStep s (record s { main = returned none })
  serve_failed : (e : Str) → s.main ≡ serving → AgentStep s (record s { main = returned (some e) })
  exit : (e : Option Str) → s.main ≡ returned e → AgentStep s (record s { exited = true })

-- Nothing happens after the exit.
pub data AgentSteps (s : AgentRun) : AgentRun → Type 0 where
  begin : AgentSteps s s
  then_step : {t u : AgentRun} → AgentSteps s t → t.exited ≡ false → AgentStep t u → AgentSteps s u

-- ===== src/Daemon/Dispatcher.antt =====
-- internal/scp/daemon/dispatcher.go. Marshalling an event does not fail. An answer with no status
-- stands for every failure of http.NewRequest and client.Do, and its time is at most what
-- httpTimeout allows, which nothing here depends on.
pub mod Rows
pub mod Ready
pub mod Lifecycle
pub mod Keeping
pub mod Rounds
pub mod Draining
pub mod Delivery
pub mod Posting
pub mod Unaltered
pub mod Receipt
pub mod Keeps
pub mod Waiting
pub mod Ageing
pub mod Finished
pub mod Honoured
pub mod Serving
pub mod Progress
pub mod Delivered
use secret_control_panel.Base.{
  ltb, leb, nat_beq, if◌then◌else◌, leb_iff, nat_beq_iff, Bool-cases, Option-cases, is_some, ◌==◌,
  ◌!=◌, nat_eq, eq_iff, eq_refl, ne_of_beq, beq_of_ne, list_beq, list_beq_iff, Eq, length, take,
  any, all, filter, find?, All, length-append, All-append, All-mem, All-of-mem, All-perm, mem-perm,
  All-take, All-map, mem-filter, mem_of-filter, length-filter-le, length-filter-lt, pos_part,
  neg_part, ◌≤ℤ◌, leb_ℤ, ℤ, pos, negsuc, ◌>>=◌, ◌>>◌, >>=-ok, Result, ok, err, Pairs, Pairs-take,
  Pairs-filter, Pairs-perm, Pairs-map, Pairs-of-map, Pairs-eq, ℕ, zero, suc, ◌+◌, ◌-◌, ◌*◌, ◌%◌,
  ◌^◌, ◌≤◌, ◌<◌, min, max, ◌≡◌, refl, sym, ap, subst, ◌∙◌, ◌≢◌, ◌↔◌, ◌⊎◌, inl, inr, Bool, true,
  false, false≢true, not, ◌&&◌, ◌||◌, Option, none, some, List, [], ◌∷◌, ◌++◌, map, reverse, Memᴰ,
  Permᴰ, le_antisymm, le_trans, le_refl, arith,
}
use secret_control_panel.Text.{Str, trim_right}
use secret_control_panel.Wire.{SecretEvent, events_path, auth_scheme}
use secret_control_panel.Db.World.{World, Error, Answer, Post, M}
use secret_control_panel.Daemon.Store.{
  PendingEvent, fetch_pending, agent_endpoint, mark_dispatched, mark_failed,
}
use secret_control_panel.Daemon.Processor.{batch_size, Wake, woken, context_done, pass}
use secret_control_panel.Daemon.Backoff.{backoff}

abbrev pub max_attempts : ℕ
max_attempts = 5

-- What is left of a POST for the caller: success or not.
abbrev pub accepted : Option ℕ → Bool
accepted none = false
accepted (some status) = ltb status 300

abbrev pub head_answer : List Answer → Answer
head_answer [] = record { status = none; received = false; took = 0 }
head_answer (a ∷ answers) = a

abbrev rest_answers : List Answer → List Answer
rest_answers [] = []
rest_answers (a ∷ answers) = answers

unfoldable pub post_event : Str → Str → SecretEvent → World → Bool × World
post_event url token ev w =
    let a = head_answer w.answers in
    let post : Post = record {
      url = trim_right url b'/' ++ events_path;
      authorization = auth_scheme ++ token;
      event = ev;
    } in
    (
      accepted a.status,
      record w {
        answers = rest_answers w.answers;
        clock = w.clock + a.took;
        posts = if a.received then w.posts ++ post ∷ [] else w.posts;
      },
    )

-- What dispatchOne and recordFailure log of an event.
pub data EventLog : Type 0 where
  lookup_failed : Error → EventLog
  mark_failed_error : Error → EventLog
  marked_dead : ℕ → EventLog
  will_retry : ℕ → ℕ → EventLog
  mark_dispatched_error : Error → EventLog
  event_dispatched : EventLog

abbrev failure_log : ℕ → Bool → ℕ → Result Error (Unit {0}) → EventLog
failure_log attempts is_dead next (err e) = mark_failed_error e
failure_log attempts is_dead next (ok _) =
    if is_dead then marked_dead attempts else will_retry attempts next

unfoldable pub record_failure : PendingEvent → World → EventLog × World
record_failure ev w =
    let attempts = ev.attempts + 1 in
    let is_dead = leb max_attempts attempts in
    let next = w.clock + backoff attempts in
    let (r, w') = mark_failed ev.id attempts is_dead next w in
    (failure_log attempts is_dead next r, w')

abbrev dispatch_log : Result Error (Unit {0}) → EventLog
dispatch_log (err e) = mark_dispatched_error e
dispatch_log (ok _) = event_dispatched

-- The part of dispatchOne after the lookup of a registered agent.
unfoldable pub deliver : PendingEvent → Str → Str → World → EventLog × World
deliver ev url token w =
    let (delivered, w') = post_event url token ev.event w in
    if not delivered
    then record_failure ev w'
    else let (r, w'') = mark_dispatched ev.id w' in (dispatch_log r, w'')

unfoldable pub dispatch_one : PendingEvent → World → EventLog × World
dispatch_one ev w =
    let (r, w') = agent_endpoint ev.cluster w in
    elim r [
      | err e ↦ (lookup_failed e, w')
      | ok none ↦ record_failure ev w'
      | ok (some (url, token)) ↦ deliver ev url token w'
    ]

-- The inner loop of drainPending.
unfoldable pub dispatch_batch : List PendingEvent → World → World
dispatch_batch [] w = w
dispatch_batch (ev ∷ pending) w = dispatch_batch pending (dispatch_one ev w).1

-- drainPending. The loop has no bound of its own: `none` means that the fuel has run out.
unfoldable pub drain_pending : ℕ → World → Option (Result Error (Unit {0})) × World
drain_pending zero w = (none, w)
drain_pending (suc fuel) w =
    let (r, w') = fetch_pending batch_size w in
    elim r [
      | err e ↦ (some (err e), w')
      | ok [] ↦ (some (ok tt), w')
      | ok (ev ∷ pending) ↦ drain_pending fuel (dispatch_batch (ev ∷ pending) w')
    ]

-- RunDispatcher: an error of a round is logged, and the loop goes on.
unfoldable pub run_dispatcher : ℕ → List Wake → World → World
run_dispatcher fuel [] w = w
run_dispatcher fuel (context_done ∷ wakes) w = w
run_dispatcher fuel (woken t ∷ wakes) w =
    run_dispatcher fuel wakes (drain_pending fuel (pass t w)).1

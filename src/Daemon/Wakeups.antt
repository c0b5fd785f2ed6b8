-- ===== src/Daemon/Wakeups.antt =====
-- internal/scp/daemon/listen.go, and the loop of RunProcessor of processor.go in small steps: how a
-- notification of the listener's transaction comes to wake the processor. PostgreSQL's delivery of
-- notifications is modelled by its documentation: a connection that listens gets each one that is
-- committed, until it breaks.
pub mod Waits
pub mod Attended
pub mod Woken
pub mod Tests
use secret_control_panel.Base.{
  ltb, leb, nat_beq, if◌then◌else◌, leb_iff, nat_beq_iff, Bool-cases, Option-cases, is_some, ◌==◌,
  ◌!=◌, nat_eq, eq_iff, eq_refl, ne_of_beq, beq_of_ne, list_beq, list_beq_iff, Eq, length, take,
  any, all, filter, find?, All, length-append, All-append, All-mem, All-of-mem, All-perm, mem-perm,
  All-take, All-map, mem-filter, mem_of-filter, length-filter-le, length-filter-lt, pos_part,
  neg_part, ◌≤ℤ◌, leb_ℤ, ℤ, pos, negsuc, ◌>>=◌, ◌>>◌, >>=-ok, Result, ok, err, Pairs, Pairs-take,
  Pairs-filter, Pairs-perm, Pairs-map, Pairs-of-map, Pairs-eq, Pairs-append-one, ℕ, zero, suc, ◌+◌,
  ◌-◌, ◌*◌, ◌%◌, ◌^◌, ◌≤◌, ◌<◌, min, max, ◌≡◌, refl, sym, ap, subst, ◌∙◌, ◌≢◌, ◌↔◌, ◌⊎◌, inl, inr,
  Bool, true, false, false≢true, not, ◌&&◌, ◌||◌, Option, none, some, List, [], ◌∷◌, ◌++◌, map,
  reverse, Memᴰ, Permᴰ, le_antisymm, le_trans, le_refl, arith,
}
use secret_control_panel.Text.{Str}
use secret_control_panel.Wire.{Time, second, SecretEvent}
use secret_control_panel.Db.{Db, Channel, tasks_new, events_new}
use secret_control_panel.Db.World.{World, Error}
use secret_control_panel.Listener.{ingest}
use secret_control_panel.Daemon.Store.{Task, fetch_tasks, fanout_task}
use secret_control_panel.Daemon.Processor.{Resolver, batch_size, pass}

abbrev pub subscribe_backoff_start : ℕ
subscribe_backoff_start = 1 * second

abbrev pub subscribe_backoff_max : ℕ
subscribe_backoff_max = 30 * second

-- make(chan struct{}, 1)
abbrev pub wake_capacity : ℕ
wake_capacity = 1

-- select { case out <- struct{}{}: default: }, on the number of wakeups in the channel.
abbrev pub offer : ℕ → ℕ
offer n = if ltb n wake_capacity then suc n else n

unfoldable pub offers : ℕ → ℕ → ℕ
offers zero n = n
offers (suc notices) n = offers notices (offer n)

-- How WaitForNotification fails.
pub data Ending : Type 0 where
  canceled : Ending
  broken : Str → Ending

-- What a call of subscribeOnce meets: the pool or LISTEN fails, or notices arrive until an error.
pub data Session : Type 0 where
  acquire_failed : Str → Session
  listen_failed : Str → Session
  listened : ℕ → Ending → Session

-- What subscribeOnce returns of the error that has ended its loop.
abbrev pub lost_connection : Ending → Option Str
lost_connection canceled = none
lost_connection (broken e) = some e

-- The error and the wakeups in the channel.
unfoldable pub subscribe_once : Session → ℕ → Option Str × ℕ
subscribe_once (acquire_failed e) n = (some e, n)
subscribe_once (listen_failed e) n = (some e, n)
subscribe_once (listened notices ending) n = (lost_connection ending, offers notices n)

-- Where in a round of the loop the context is found to be done.
pub data Stop : Type 0 where
  before_session : Stop
  after_session : Stop
  in_wait : Stop
  never : Stop

-- Subscribe, over the rounds of its loop: the waits that it has begun, and the wakeups in the channel.
unfoldable pub subscribe_from : Time → List (Session × Stop) → ℕ → List Time × ℕ
subscribe_from backoff [] n = ([], n)
subscribe_from backoff ((session, stop) ∷ rounds) n =
    let n' = (subscribe_once session n).1 in
    elim stop [
      | before_session ↦ ([], n)
      | after_session ↦ ([], n')
      | in_wait ↦ (backoff ∷ [], n')
      | never ↦
          let (waits, n'') = subscribe_from (min (backoff * 2) subscribe_backoff_max) rounds n' in
          (backoff ∷ waits, n'')
    ]

unfoldable pub subscribe : List (Session × Stop) → ℕ → List Time × ℕ
subscribe rounds n = subscribe_from subscribe_backoff_start rounds n

-- Where the processor stands: in the select, before FetchTasks, or in the loop over a batch.
pub data Phase : Type 0 where
  selecting : Phase
  fetching : Phase
  fanning : Task → List Task → Phase

-- `unread` counts the notices on tasks_new that the listening connection has not read; `wakeups`
-- those in the channel. `missed` says that a task may wait for which there is neither: a notice was
-- lost or a fetch failed after the last fetch that found nothing.
pub record System : Type 0 where
  pub world : World
  pub listening : Bool
  pub unread : ℕ
  pub wakeups : ℕ
  pub phase : Phase
  pub missed : Bool

-- The daemon's start; the inbox may have tasks.
abbrev pub started : World → System
started w = record {
  world = w;
  listening = false;
  unread = 0;
  wakeups = 0;
  phase = selecting;
  missed = true;
}

abbrev pub task_notices : List Channel → ℕ
task_notices [] = 0
task_notices (tasks_new ∷ notices) = suc (task_notices notices)
task_notices (events_new ∷ notices) = task_notices notices

-- The notices on tasks_new that are in `new` and not in `old`.
abbrev pub notified : Db → Db → ℕ
notified old new = task_notices new.notices - task_notices old.notices

-- Ingest, with its notices delivered.
abbrev pub delivered : World → System → System
delivered w s =
    let n = notified s.world.db w.db in
    if s.listening
    then record s { world = w; unread = s.unread + n }
    else record s { world = w; missed = s.missed || ltb 0 n }

abbrev pub ingested : SecretEvent → System → System
ingested ev s = delivered (ingest ev s.world).1 s

-- drainTasks after FetchTasks.
abbrev pub after_fetch : Result Error (List Task) → World → System → System
after_fetch (err e) w s = record s { world = w; phase = selecting; missed = true }
after_fetch (ok []) w s = record s { world = w; phase = selecting; missed = false }
after_fetch (ok (t ∷ tasks)) w s = record s { world = w; phase = fanning t tasks }

abbrev pub fetched : System → System
fetched s = let (r, w) = fetch_tasks batch_size s.world in after_fetch r w s

abbrev pub next_phase : List Task → Phase
next_phase [] = fetching
next_phase (t ∷ tasks) = fanning t tasks

abbrev pub fanned : Resolver → Task → List Task → System → System
fanned resolver t tasks s = record s {
  world = (fanout_task t.id t.event (resolver t.event.mount t.event.path) s.world).1;
  phase = next_phase tasks;
}

-- The steps of the daemon that wait for nothing else: of the subscriber, and of the processor.
pub data Own (resolver : Resolver) (s : System) : System → Type 0 where
  read :
      (n : ℕ)
      → s.listening ≡ true
      → s.unread ≡ suc n
      → Own resolver s (record s { unread = n; wakeups = offer s.wakeups })
  wake :
      (n : ℕ)
      → s.phase ≡ selecting
      → s.wakeups ≡ suc n
      → Own resolver s (record s { wakeups = n; phase = fetching })
  fetch : s.phase ≡ fetching → Own resolver s (fetched s)
  fan :
      (t : Task) (tasks : List Task)
      → s.phase ≡ fanning t tasks
      → Own resolver s (fanned resolver t tasks s)

-- Every step: these, the ticker, the listener, and the end and the start of a LISTEN connection.
pub data Move (resolver : Resolver) (s : System) : System → Type 0 where
  own : {t : System} → Own resolver s t → Move resolver s t
  tick :
      (t : ℕ)
      → s.phase ≡ selecting
      → Move resolver s (record s { world = pass t s.world; phase = fetching })
  queue : (ev : SecretEvent) → Move resolver s (ingested ev s)
  disconnect :
      Move resolver s
        (record s { listening = false; unread = 0; missed = s.missed || ltb 0 s.unread })
  connect : s.listening ≡ false → Move resolver s (record s { listening = true })

pub data Reaches (Step : System → System → Type 0) (s : System) : System → Type 0 where
  here : Reaches Step s s
  then_step : {t u : System} → Reaches Step s t → Step t u → Reaches Step s u

-- ===== src/Daemon/Wakeups/Attended.antt =====
-- No wakeup is lost between the listener's transaction and the processor's select.
use secret_control_panel.Base.{
  ltb, Bool-cases, nat_eq, Result, ok, err, suc, ◌+◌, ◌≤◌, ◌<◌, ◌≡◌, refl, ap, ◌∙◌, ◌≢◌, ◌⊎◌, inl,
  inr, false, ◌||◌, List, [], ◌∷◌, ◌++◌, arith,
}
use secret_control_panel.Text.{str_eq}
use secret_control_panel.Wire.{Time, SecretEvent}
use secret_control_panel.Db.{Db, Channel, tasks_new, events_new, rollback}
use secret_control_panel.Db.World.{World, Error, after_call}
use secret_control_panel.Listener.{IngestResult, ingest}
use secret_control_panel.Listener.Outcomes.{Outcome, stale, duplicate, queued}
use secret_control_panel.Listener.Atomic.{ingest_atomic}
use secret_control_panel.Daemon.Store.{Task, fetch_tasks}
use secret_control_panel.Daemon.Processor.{Resolver, batch_size}
use secret_control_panel.Daemon.Processor.Total.{no_rows, fetched-db}
use secret_control_panel.Daemon.Wakeups.{
  wake_capacity, selecting, System, started, task_notices, notified, delivered, after_fetch,
  fetched, Own, read, wake, fetch, fan, Move, own, tick, queue, disconnect, connect, Reaches, here,
  then_step,
}

-- A processor that waits in its select, with tasks in the inbox and nothing missed, has a wakeup in
-- its channel or a notice on its connection.
pub record IsAttended (s : System) : Type 0 where
  pub wake_le : s.wakeups ≤ wake_capacity
  pub unheard : s.listening ≡ false → s.unread ≡ 0
  pub attended :
      s.phase ≡ selecting → s.missed ≡ false → s.world.db.tasks ≢ [] → 0 < s.unread + s.wakeups

-- An ingest that lets the inbox grow sends a notice.
Announces : Db → Db → Type 0
Announces old new = (new.tasks ≡ old.tasks) ⊎ (0 < notified old new)

task_notices-append :
    (ns : List Channel) → task_notices (ns ++ tasks_new ∷ []) ≡ suc (task_notices ns)
task_notices-append [] = refl
task_notices-append (tasks_new ∷ ns) = ap suc (task_notices-append ns)
task_notices-append (events_new ∷ ns) = task_notices-append ns

Outcome-Announces :
    (now : Time) (ev : SecretEvent) (old new : Db) {r : IngestResult}
    → Outcome now ev old new r
    → Announces old new
unfolding Announces
Outcome-Announces now ev old new (stale stored is_stored le e) = inl (ap (λ (d : Db). d.tasks) e)
Outcome-Announces now ev old new (duplicate newer there e) = inl (ap (λ (d : Db). d.tasks) e)
Outcome-Announces now ev old new (queued newer missing e) =
    inr (rw (ap (λ (d : Db). d.notices) e, task_notices-append old.notices) (omega arith))

ingest-Announces : (ev : SecretEvent) (w : World) → Announces w.db (ingest ev w).1.db
unfolding Announces rollback
ingest-Announces ev w = elim (ingest_atomic ev w) [
  | inl same ↦ inl (ap (λ (d : Db). d.tasks) same)
  | inr (r, out) ↦ Outcome-Announces (after_call w).clock ev w.db (ingest ev w).1.db out
]

heard :
    (w : World) (s : System)
    → Announces s.world.db w.db
    → IsAttended s
    → s.phase ≡ selecting
    → s.missed ≡ false
    → w.db.tasks ≢ []
    → 0 < s.unread + notified s.world.db w.db + s.wakeups
unfolding Announces
heard w s (inl same) h p m ne = omega (arith, h.attended p m (λ none_wait. ne (same ∙ none_wait)))
heard w s (inr sent) h p m ne = omega (arith, sent)

unmissed :
    (w : World) (s : System)
    → Announces s.world.db w.db
    → IsAttended s
    → s.phase ≡ selecting
    → s.missed || ltb 0 (notified s.world.db w.db) ≡ false
    → w.db.tasks ≢ []
    → 0 < s.unread + s.wakeups
unfolding Announces
unmissed w s (inl same) h p m ne = h.attended p (ground arith) (λ none_wait. ne (same ∙ none_wait))
unmissed w s (inr sent) h p m ne = absurd (ground arith)

delivered-IsAttended :
    (w : World) (s : System) → Announces s.world.db w.db → IsAttended s → IsAttended (delivered w s)
delivered-IsAttended w s a h = elim (Bool-cases s.listening) [
  | inl on ↦ rw on (record {
    wake_le = h.wake_le;
    unheard = λ off. absurd (ground arith);
    attended = λ p m ne. heard w s a h p m ne;
  })
  | inr off ↦ rw off (record {
    wake_le = h.wake_le;
    unheard = λ e. h.unheard off;
    attended = λ p m ne. unmissed w s a h p m ne;
  })
]

fetched-IsAttended : (s : System) → IsAttended s → IsAttended (fetched s)
fetched-IsAttended s h = by_batch (fetch_tasks batch_size s.world).0 refl
  where
    w : World
    w = (fetch_tasks batch_size s.world).1

    by_batch :
        (r : Result Error (List Task))
        → (fetch_tasks batch_size s.world).0 ≡ r
        → IsAttended (after_fetch r w s)
    by_batch (err e) k = record {
      wake_le = h.wake_le;
      unheard = h.unheard;
      attended = λ p m ne. absurd (ground arith);
    }
    by_batch (ok []) k = record {
      wake_le = h.wake_le;
      unheard = h.unheard;
      attended =
          λ p m ne. absurd (ne (ap (λ (d : Db). d.tasks) (fetched-db s.world) ∙ no_rows s.world k));
    }
    by_batch (ok (t ∷ tasks)) k = record {
      wake_le = h.wake_le;
      unheard = h.unheard;
      attended = λ p m ne. absurd (ground arith);
    }

Own-IsAttended :
    (resolver : Resolver) (s t : System) → Own resolver s t → IsAttended s → IsAttended t
Own-IsAttended resolver s t (read n l e) h = record {
  wake_le = ground (arith, h.wake_le);
  unheard = λ off. absurd (ground arith);
  attended = λ p m ne. ground arith;
}
Own-IsAttended resolver s t (wake n p e) h = record {
  wake_le = omega (arith, h.wake_le);
  unheard = h.unheard;
  attended = λ q m ne. absurd (ground arith);
}
Own-IsAttended resolver s t (fetch p) h = fetched-IsAttended s h
Own-IsAttended resolver s t (fan b [] p) h = record {
  wake_le = h.wake_le;
  unheard = h.unheard;
  attended = λ q m ne. absurd (ground arith);
}
Own-IsAttended resolver s t (fan b (c ∷ tasks) p) h = record {
  wake_le = h.wake_le;
  unheard = h.unheard;
  attended = λ q m ne. absurd (ground arith);
}

Move-IsAttended :
    (resolver : Resolver) (s t : System) → Move resolver s t → IsAttended s → IsAttended t
Move-IsAttended resolver s t (own o) h = Own-IsAttended resolver s t o h
Move-IsAttended resolver s t (tick d p) h = record {
  wake_le = h.wake_le;
  unheard = h.unheard;
  attended = λ q m ne. absurd (ground arith);
}
Move-IsAttended resolver s t (queue ev) h =
    delivered-IsAttended (ingest ev s.world).1 s (ingest-Announces ev s.world) h
Move-IsAttended resolver s t disconnect h = record {
  wake_le = h.wake_le;
  unheard = λ off. refl;
  attended = λ q m ne. let some_wait = h.attended q (ground arith) ne in ground arith;
}
Move-IsAttended resolver s t (connect off) h = record {
  wake_le = h.wake_le;
  unheard = λ on. absurd (ground arith);
  attended = h.attended;
}

-- However the steps of the listener, the subscriber, the processor and the ticker interleave, and
-- whichever calls of the database fail: from the start of the daemon on, a processor that waits in
-- its select while tasks are in the inbox has a wakeup in its channel or a notice on its connection,
-- unless a notice was lost or a fetch failed after the last fetch that found the inbox empty. The
-- channel never holds more than one wakeup.
pub reached-IsAttended :
    (resolver : Resolver) (w : World) (s : System)
    → Reaches (Move resolver) (started w) s
    → IsAttended s
reached-IsAttended resolver w s here = record {
  wake_le = omega arith;
  unheard = λ off. refl;
  attended = λ p m ne. absurd (ground arith);
}
reached-IsAttended resolver w s (then_step {t} before step) =
    Move-IsAttended resolver t s step (reached-IsAttended resolver w t before)

-- ===== src/Listener/Intake/Fifo.antt =====
-- The events of a connection on their way through the channel.
use mathlib.Core.List.{append_assoc, append-nil, map-append}
use secret_control_panel.Base.{
  if◌then◌else◌, Bool-cases, ◌==◌, nat_eq, eq_iff, ne_of_beq, beq_of_ne, length, length-append, ℕ,
  ◌≤◌, ◌≡◌, refl, sym, ap, subst, ◌∙◌, inl, inr, false, Option, none, some, List, [], ◌∷◌, ◌++◌,
  map, arith,
}
use secret_control_panel.Wire.{SecretEvent}
use secret_control_panel.Db.World.{World}
use secret_control_panel.Listener.{ingest, pump}
use secret_control_panel.Listener.Refinement.{Run, view, pump-Run}
use secret_control_panel.Listener.Intake.{
  events_channel_buf, Feed, Flow, opened, put_back, FlowStep, send, receive, ingested, FlowSteps,
  flow_start, flow_on,
}

-- The events of a feed that came from a connection.
unfoldable pub from : ℕ → Feed → List SecretEvent
from i [] = []
from i ((j, ev) ∷ feed) = if j == i then ev ∷ from i feed else from i feed

abbrev pub events_of : Feed → List SecretEvent
events_of = map (λ q. q.1)

unfoldable pub held : Option (ℕ × SecretEvent) → Feed
held none = []
held (some q) = q ∷ []

-- What was sent to the channel so far.
abbrev pub all_sent : Flow → Feed
all_sent s = s.pumped ++ (held s.in_hand ++ s.channel)

-- What pump has done with, what it is at, what is in the channel and what is still to be sent make up
-- the stream of each connection; the channel holds no more than its buffer; and the database is that
-- of a run of pump on what it has done with.
pub record IsFifo (streams : ℕ → List SecretEvent) (w : World) (s : Flow) : Type 0 where
  pub whole : (i : ℕ) → from i (all_sent s) ++ s.unsent i ≡ streams i
  pub bounded : length s.channel ≤ events_channel_buf
  pub ran : s.world ≡ (pump (events_of s.pumped) w).1

from-append : (i : ℕ) (a b : Feed) → from i (a ++ b) ≡ from i a ++ from i b
unfolding from
from-append i [] b = refl
from-append i ((j, ev) ∷ a) b = elim (Bool-cases (j == i)) [
  | inl e ↦ rw (e, from-append i a b) refl
  | inr e ↦ rw (e, from-append i a b) refl
]

pump-last :
    (evs : List SecretEvent) (ev : SecretEvent) (w : World)
    → (pump (evs ++ ev ∷ []) w).1 ≡ (ingest ev (pump evs w).1).1
unfolding pump
pump-last [] ev w = refl
pump-last (e ∷ evs) ev w = pump-last evs ev (ingest e w).1

-- A send moves the first unsent event of its connection to the end of the channel.
sent-whole :
    (i j : ℕ) (ev : SecretEvent) (rest : List SecretEvent) (s : Flow) (feed : Feed)
    → s.unsent i ≡ ev ∷ rest
    → from j (feed ++ (i, ev) ∷ []) ++ put_back i rest s.unsent j ≡ from j feed ++ s.unsent j
unfolding from
sent-whole i j ev rest s feed h = elim (Bool-cases (i == j)) [
  | inl e ↦
      let same : i ≡ j = (eq_iff i j).0 e in
      rw (from-append j feed ((i, ev) ∷ []), e, (eq_iff j i).1 (sym same))
        (append_assoc (from j feed) (ev ∷ []) rest
          ∙ ap (λ k. from j feed ++ k) (sym h ∙ ap s.unsent same))
  | inr e ↦
      let other : (j == i) ≡ false = beq_of_ne j i (λ k. ne_of_beq i j e (sym k)) in
      rw (from-append j feed ((i, ev) ∷ []), e, other, append-nil (from j feed)) refl
]

sent_last :
    (s : Flow) (q : ℕ × SecretEvent)
    → s.pumped ++ (held s.in_hand ++ (s.channel ++ q ∷ [])) ≡ all_sent s ++ q ∷ []
sent_last s q =
    ap (λ k. s.pumped ++ k) (sym (append_assoc (held s.in_hand) s.channel (q ∷ [])))
    ∙ sym (append_assoc s.pumped (held s.in_hand ++ s.channel) (q ∷ []))

received_same :
    (s : Flow) (q : ℕ × SecretEvent) (rest : Feed)
    → s.in_hand ≡ none
    → s.channel ≡ q ∷ rest
    → s.pumped ++ (held (some q) ++ rest) ≡ all_sent s
unfolding held
received_same s q rest free h = rw (free, h) refl

ingested_same :
    (s : Flow) (q : ℕ × SecretEvent)
    → s.in_hand ≡ some q
    → (s.pumped ++ q ∷ []) ++ (held none ++ s.channel) ≡ all_sent s
unfolding held
ingested_same s q h = rw h (append_assoc s.pumped (q ∷ []) s.channel)

FlowStep-IsFifo :
    (streams : ℕ → List SecretEvent) (w : World) (s t : Flow)
    → FlowStep s t
    → IsFifo streams w s
    → IsFifo streams w t
FlowStep-IsFifo streams w s t (send i ev rest h room) f = record {
  whole = λ j.
      ap (λ feed. from j feed ++ put_back i rest s.unsent j) (sent_last s (i, ev))
      ∙ sent-whole i j ev rest s (all_sent s) h
      ∙ f.whole j;
  bounded = omega (arith, length-append s.channel ((i, ev) ∷ []));
  ran = f.ran;
}
FlowStep-IsFifo streams w s t (receive q rest free h) f = record {
  whole = λ j. ap (λ feed. from j feed ++ s.unsent j) (received_same s q rest free h) ∙ f.whole j;
  bounded = omega (arith, f.bounded, ap length h);
  ran = f.ran;
}
FlowStep-IsFifo streams w s t (ingested q h) f = record {
  whole = λ j. ap (λ feed. from j feed ++ s.unsent j) (ingested_same s q h) ∙ f.whole j;
  bounded = f.bounded;
  ran =
      ap (λ v. (ingest q.1 v).1) f.ran
      ∙ sym (pump-last (events_of s.pumped) q.1 w)
      ∙ ap (λ evs. (pump evs w).1) (sym (map-append (λ p. p.1) s.pumped (q ∷ [])));
}

-- At every state of the listener, however the connections and pump interleave: for each connection,
-- the events whose Ingest has returned (with a result, or with an error, which pump logs and leaves),
-- the event that pump is at, those in the channel and those still to be sent are, in this order, the
-- events of its stream, each once; at most 16 are in the channel; and the database is in a run of the
-- listener's contract on the events whose Ingest has returned.
pub reached-IsFifo :
    (streams : ℕ → List SecretEvent) (w : World) (s : Flow)
    → FlowSteps (opened streams w) s
    → IsFifo streams w s
      × Run (events_of s.pumped) (pump (events_of s.pumped) w).0 (view w.db) (view s.world.db)
reached-IsFifo streams w s run =
    let f = reached streams w s run in
    (
      f,
      subst
          (λ (v : World).
            Run (events_of s.pumped) (pump (events_of s.pumped) w).0 (view w.db) (view v.db))
          (sym f.ran) (pump-Run (events_of s.pumped) w),
    )
  where
    reached :
        (streams : ℕ → List SecretEvent) (w : World) (s : Flow)
        → FlowSteps (opened streams w) s
        → IsFifo streams w s
    reached streams w s flow_start = record {
      whole = λ i. unfold from in unfold held in refl;
      bounded = omega arith;
      ran = unfold pump in refl;
    }
    reached streams w s (flow_on {t = m} before step) =
        FlowStep-IsFifo streams w m s step (reached streams w m before)

-- ===== src/Listener/Intake.antt =====
-- The channel between the connections and pump: the sends of handleConn
-- (internal/scp/audit/socket_listener.go) and the receives of pump (cmd/scp-listener/main.go), one
-- goroutine for each connection and one for pump. The process may stop at any state.
pub mod Fifo
use secret_control_panel.Base.{
  ltb, leb, nat_beq, if◌then◌else◌, leb_iff, nat_beq_iff, Bool-cases, Option-cases, is_some, ◌==◌,
  ◌!=◌, nat_eq, eq_iff, eq_refl, ne_of_beq, beq_of_ne, list_beq, list_beq_iff, Eq, length, take,
  any, all, filter, find?, All, length-append, All-append, All-mem, All-of-mem, All-perm, mem-perm,
  All-take, All-map, mem-filter, mem_of-filter, length-filter-le, length-filter-lt, length-perm,
  length-map, mem_last, mem_appended, pos_part, neg_part, ◌≤ℤ◌, leb_ℤ, ℤ, pos, negsuc, ◌>>=◌, ◌>>◌,
  >>=-ok, Result, ok, err, Pairs, Pairs-take, Pairs-filter, Pairs-perm, Pairs-map, Pairs-of-map,
  Pairs-eq, Pairs-append-one, ℕ, zero, suc, ◌+◌, ◌-◌, ◌*◌, ◌%◌, ◌^◌, ◌≤◌, ◌<◌, min, max, ◌≡◌, refl,
  sym, ap, subst, ◌∙◌, ◌≢◌, ◌↔◌, ◌⊎◌, inl, inr, Bool, true, false, false≢true, not, ◌&&◌, ◌||◌,
  Option, none, some, List, [], ◌∷◌, ◌++◌, map, reverse, Memᴰ, Permᴰ, le_antisymm, le_trans,
  le_refl, arith,
}
use secret_control_panel.Text.{Str}
use secret_control_panel.Wire.{SecretEvent}
use secret_control_panel.Db.World.{World}
use secret_control_panel.Listener.{ingest}
use secret_control_panel.Audit.{DropReason}
use secret_control_panel.Audit.Socket.{handle_conn}

abbrev pub events_channel_buf : ℕ
events_channel_buf = 16

-- Events, each with the connection that it came from.
abbrev pub Feed : Type 0
Feed = List (ℕ × SecretEvent)

-- `unsent` has what the goroutine of each connection has still to send; `in_hand` is the event that
-- pump has received and whose Ingest has not returned; `pumped` has those whose Ingest has returned,
-- with a result or an error, in their order.
pub record Flow : Type 0 where
  pub unsent : ℕ → List SecretEvent
  pub channel : Feed
  pub in_hand : Option (ℕ × SecretEvent)
  pub pumped : Feed
  pub world : World

-- The events of each connection: what handleConn sends of its bytes.
abbrev pub streams : (Str → Result DropReason SecretEvent) → (ℕ → Str) → ℕ → List SecretEvent
streams parse bytes i = (handle_conn parse (bytes i) []).events

abbrev pub opened : (ℕ → List SecretEvent) → World → Flow
opened streams w = record { unsent = streams; channel = []; in_hand = none; pumped = []; world = w }

abbrev pub put_back : ℕ → List SecretEvent → (ℕ → List SecretEvent) → ℕ → List SecretEvent
put_back i events unsent j = if j == i then events else unsent j

pub data FlowStep (s : Flow) : Flow → Type 0 where
  -- l.out <- ev, which blocks while the channel is full.
  send :
      (i : ℕ) (ev : SecretEvent) (rest : List SecretEvent)
      → s.unsent i ≡ ev ∷ rest
      → length s.channel < events_channel_buf
      → FlowStep s
          (record s { unsent = put_back i rest s.unsent; channel = s.channel ++ (i, ev) ∷ [] })
  -- ev := <-in, by a pump that is at its select.
  receive :
      (q : ℕ × SecretEvent) (rest : Feed)
      → s.in_hand ≡ none
      → s.channel ≡ q ∷ rest
      → FlowStep s (record s { channel = rest; in_hand = some q })
  -- Ingest returns, and pump is back at its select.
  ingested :
      (q : ℕ × SecretEvent)
      → s.in_hand ≡ some q
      → FlowStep s
          (record s { in_hand = none; pumped = s.pumped ++ q ∷ []; world = (ingest q.1 s.world).1 })

pub data FlowSteps (s : Flow) : Flow → Type 0 where
  flow_start : FlowSteps s s
  flow_on : {t u : Flow} → FlowSteps s t → FlowStep t u → FlowSteps s u

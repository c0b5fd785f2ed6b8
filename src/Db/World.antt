-- ===== src/Db/World.antt =====
-- The program's surroundings: the database, the clock, the agents' HTTP answers, and which calls of
-- the database fail. Operations are functions of the world with a result or an error.
use secret_control_panel.Base.{nat_eq, Result, ok, err, ℕ, ◌+◌, Bool, Option, List, [], ◌∷◌}
use secret_control_panel.Text.{Str}
use secret_control_panel.Wire.{Time, SecretEvent}
use secret_control_panel.Db.{Db, rollback}

-- How a call of the database ends: it is done; it is refused and has no effect; or it has its
-- effect and the reply is lost, so the program sees an error.
pub data Reply : Type 0 where
  done : Reply
  refused : Reply
  lost : Reply

-- One call: how it ends, and the time that passes until it has ended.
pub record Call : Type 0 where
  pub reply : Reply
  pub took : ℕ

-- What becomes of a POST to an agent: the status code of the answer, or none where the client
-- fails or runs into its timeout, and whether the agent has received the request.
pub record Answer : Type 0 where
  pub status : Option ℕ
  pub received : Bool
  pub took : ℕ

-- A POST that an agent has received.
pub record Post : Type 0 where
  pub url : Str
  pub authorization : Str
  pub event : SecretEvent

-- `calls` says how the next calls of the database end; after those, every call is done at once.
-- `answers` does so for the POSTs; after those, every POST fails.
pub record World : Type 0 where
  pub db : Db
  pub clock : Time
  pub calls : List Call
  pub answers : List Answer
  pub posts : List Post

-- Why an operation failed.
pub data Error : Type 0 where
  begin_tx : Error
  commit_tx : Error
  notify_failed : Error
  select_version : Error
  upsert_version : Error
  insert_task : Error
  select_tasks : Error
  insert_event : Str → Error
  delete_task : Error
  select_pending : Error
  select_agent : Error
  mark_dispatched_failed : Error
  mark_failed_failed : Error
  validate_token_failed : Error
  upsert_agent_failed : Error
  update_event_failed : Error

-- An operation that may fail. What was written before an error stays written.
abbrev pub M : Type 0 → Type 0
M A = World → Result Error A × World

-- The call at hand.
abbrev pub head_call : List Call → Call
head_call [] = record { reply = done; took = 0 }
head_call (c ∷ cs) = c

abbrev pub rest_calls : List Call → List Call
rest_calls [] = []
rest_calls (c ∷ cs) = cs

abbrev pub next_reply : World → Reply
next_reply w = (head_call w.calls).reply

abbrev pub after_call : World → World
after_call w = record w { calls = rest_calls w.calls; clock = w.clock + (head_call w.calls).took }

abbrev pub continue : {A B : Type 0} → Result Error A → (A → M B) → M B
continue (ok a) f w = f a w
continue (err e) f w = (err e, w)

infixl 5 ◌>>=◌ ◌>>◌
abbrev pub ◌>>=◌ : {A B : Type 0} → M A → (A → M B) → M B
◌>>=◌ m f w = let (r, w') = m w in continue r f w'

abbrev pub ◌>>◌ : {A B : Type 0} → M A → M B → M B
m >> k = m >>= λ _. k

abbrev pub pure : {A : Type 0} → A → M A
pure a w = (ok a, w)

-- A statement inside a transaction.
unfoldable pub statement : {A : Type 0} → Error → (Db → A × Db) → M A
statement e f w =
    let w' = after_call w in
    elim (next_reply w) [
      | done ↦ let (a, db) = f w'.db in (ok a, record w' { db = db })
      | refused ↦ (err e, w')
      | lost ↦ (err e, w')
    ]

-- A statement on the pool: it is its own transaction, begun at the time that it is given, and may
-- take effect with its reply lost.
unfoldable pub autocommit : {A : Type 0} → Error → (Time → Db → A × Db) → M A
autocommit e f w =
    let w' = after_call w in
    elim (next_reply w) [
      | done ↦ let (a, db) = f w'.clock w'.db in (ok a, record w' { db = db })
      | refused ↦ (err e, w')
      | lost ↦ (err e, record w' { db = (f w'.clock w'.db).1 })
    ]

abbrev undo : World → World → World
undo old w = record w { db = rollback old.db w.db }

-- tx.Commit
abbrev commit : {A : Type 0} → World → A → World → Result Error A × World
commit old a w =
    let w' = after_call w in
    elim (next_reply w) [
      | done ↦ (ok a, w')
      | refused ↦ (err commit_tx, undo old w')
      | lost ↦ (err commit_tx, w')
    ]

-- Go's shape `tx := BeginTx(); defer tx.Rollback(); …; return a, tx.Commit()`, where every path of
-- the body that does not fail ends in the commit. `now()` is the time of its begin throughout.
unfoldable pub transaction : {A : Type 0} → (Time → M A) → M A
transaction body w =
    let begun = after_call w in
    let (r, w') = body begun.clock begun in
    elim (next_reply w) [
      | done ↦ elim r [ ok a ↦ commit begun a w' | err e ↦ (err e, undo begun w') ]
      | refused ↦ (err begin_tx, begun)
      | lost ↦ (err begin_tx, begun)
    ]

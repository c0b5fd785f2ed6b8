-- ===== src/Db/Steps.antt =====
-- How the actions of Db/World end: what a success says of the parts, and what a transaction leaves
-- behind however its calls end.
use secret_control_panel.Base.{nat_eq, Result, ok, err, ◌≡◌, refl, ◌⊎◌, arith}
use secret_control_panel.Wire.{Time}
use secret_control_panel.Db.{Db, rollback}
use secret_control_panel.Db.World.{
  World, Error, M, after_call, ◌>>=◌, statement, autocommit, transaction,
}

-- A chain that succeeds has run its first part with success, and then the rest.
pub bind-ok :
    {A B : Type 0} (m : M A) (f : A → M B) (w : World) {b : B}
    → ((m >>= f) w).0 ≡ ok b
    → (a : A) × ((m w).0 ≡ ok a) × ((m >>= f) w ≡ f a (m w).1)
bind-ok {A} {B} m f w {b} h = by_result (m w).0 refl
  where
    by_result :
        (r : Result Error A)
        → (m w).0 ≡ r
        → (a : A) × ((m w).0 ≡ ok a) × ((m >>= f) w ≡ f a (m w).1)
    by_result (ok a) e = (a, e, rw e)
    by_result (err x) e = absurd (ground arith)

pub statement-ok :
    {A : Type 0} (e : Error) (f : Db → A × Db) (w : World) {a : A}
    → (statement e f w).0 ≡ ok a
    → (a ≡ (f w.db).0) × ((statement e f w).1.db ≡ (f w.db).1)
unfolding statement
statement-ok e f w h = ground arith

pub autocommit-ok :
    {A : Type 0} (e : Error) (f : Time → Db → A × Db) (w : World) {a : A}
    → (autocommit e f w).0 ≡ ok a
    → (a ≡ (f (after_call w).clock w.db).0)
      × ((autocommit e f w).1.db ≡ (f (after_call w).clock w.db).1)
unfolding autocommit
autocommit-ok e f w h = ground arith

-- The database after a statement on the pool: as it was, or with the statement's effect.
pub autocommit_cases :
    {A : Type 0} (e : Error) (f : Time → Db → A × Db) (w : World)
    → ((autocommit e f w).1.db ≡ w.db) ⊎ ((autocommit e f w).1.db ≡ (f (after_call w).clock w.db).1)
unfolding autocommit
autocommit_cases e f w = ground arith

module _ {A : Type 0} (body : Time → M A) (w : World) where
  -- The run of the body.
  abbrev pub body_run : Result Error A × World
  body_run = body (after_call w).clock (after_call w)

  -- A transaction that succeeds has the result and the database of its body.
  pub transaction-ok :
      {a : A}
      → (transaction body w).0 ≡ ok a
      → (body_run.0 ≡ ok a) × ((transaction body w).1.db ≡ body_run.1.db)
  unfolding transaction
  transaction-ok h = ground arith

  -- However its calls end, a transaction leaves the old rows, or what its successful body wrote.
  pub transaction_cases :
      ((transaction body w).1.db ≡ w.db)
      ⊎ ((transaction body w).1.db ≡ rollback w.db body_run.1.db)
      ⊎ ((a : A) × (body_run.0 ≡ ok a) × ((transaction body w).1.db ≡ body_run.1.db))
  unfolding transaction
  transaction_cases = ground arith

-- Only the sequences differ.
abbrev pub SameRows : Db → Db → Type 0
SameRows old new = new ≡ rollback old new

-- A query leaves the database as it is, however it ends.
pub autocommit-read :
    {A : Type 0} (e : Error) (q : Time → Db → A) (w : World)
    → (autocommit e (λ now db. (q now db, db)) w).1.db ≡ w.db
unfolding autocommit
autocommit-read e q w = ground arith

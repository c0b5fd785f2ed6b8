-- ===== src/Db/Smooth.antt =====
-- Runs in which no call of the database fails: a rule for each way to build an action.
use secret_control_panel.Base.{
  if◌then◌else◌, nat_eq, All, ok, ◌≡◌, refl, Bool, true, false, List, [], ◌∷◌, arith,
}
use secret_control_panel.Wire.{Time}
use secret_control_panel.Db.{Db}
use secret_control_panel.Db.World.{
  World, Call, head_call, rest_calls, done, Error, M, next_reply, after_call, continue, ◌>>=◌, pure,
  statement, autocommit, transaction,
}

-- The calls to come are all done.
abbrev pub Smooth : World → Type 0
Smooth w = All (λ c. c.reply ≡ done) w.calls

pub Smooth-next : (w : World) → Smooth w → next_reply w ≡ done
Smooth-next w h = first w.calls h
  where
    first : (cs : List Call) → All (λ c. c.reply ≡ done) cs → (head_call cs).reply ≡ done
    first [] h = refl
    first (c ∷ cs) h = h.0

pub Smooth-after_call : (w : World) → Smooth w → Smooth (after_call w)
Smooth-after_call w h = rest w.calls h
  where
    rest :
        (cs : List Call) → All (λ c. c.reply ≡ done) cs → All (λ c. c.reply ≡ done) (rest_calls cs)
    rest [] h = tt
    rest (c ∷ cs) h = h.1

-- Without failing calls the action succeeds, and leaves no failing calls.
pub record Succeeds {A : Type 0} (m : M A) : Type 0 where
  pub result : (w : World) → Smooth w → (a : A) × ((m w).0 ≡ ok a)
  pub smooth : (w : World) → Smooth w → Smooth (m w).1

pub Succeeds-pure : {A : Type 0} (a : A) → Succeeds (pure a)
Succeeds-pure a = record { result = λ w s. (a, refl); smooth = λ w s. s }

pub Succeeds-bind :
    {A B : Type 0} (m : M A) (f : A → M B)
    → Succeeds m
    → ((a : A) → Succeeds (f a))
    → Succeeds (m >>= f)
Succeeds-bind {A} {B} m f sm sf = record {
  result =
      λ w s. let (a, e) = sm.result w s in rw (e, continue) ((sf a).result (m w).1 (sm.smooth w s));
  smooth =
      λ w s. let (a, e) = sm.result w s in rw (e, continue) ((sf a).smooth (m w).1 (sm.smooth w s));
}

pub Succeeds-if :
    {A : Type 0} (b : Bool) (m n : M A) → Succeeds m → Succeeds n → Succeeds (if b then m else n)
Succeeds-if true m n sm sn = sm
Succeeds-if false m n sm sn = sn

statement-done :
    {A : Type 0} (e : Error) (f : Db → A × Db) (w : World)
    → next_reply w ≡ done
    → statement e f w ≡ (ok (f w.db).0, record (after_call w) { db = (f w.db).1 })
unfolding statement
statement-done e f w h = ground arith

pub Succeeds-statement : {A : Type 0} (e : Error) (f : Db → A × Db) → Succeeds (statement e f)
Succeeds-statement e f = record {
  result = λ w s. ((f w.db).0, rw (statement-done e f w (Smooth-next w s)));
  smooth = λ w s. rw (statement-done e f w (Smooth-next w s)) (Smooth-after_call w s);
}

pub autocommit-done :
    {A : Type 0} (e : Error) (f : Time → Db → A × Db) (w : World)
    → next_reply w ≡ done
    → autocommit e f w ≡ (
      ok (f (after_call w).clock w.db).0,
      record (after_call w) { db = (f (after_call w).clock w.db).1 },
    )
unfolding autocommit
autocommit-done e f w h = ground arith

pub Succeeds-autocommit :
    {A : Type 0} (e : Error) (f : Time → Db → A × Db) → Succeeds (autocommit e f)
Succeeds-autocommit e f = record {
  result = λ w s. ((f (after_call w).clock w.db).0, rw (autocommit-done e f w (Smooth-next w s)));
  smooth = λ w s. rw (autocommit-done e f w (Smooth-next w s)) (Smooth-after_call w s);
}

transaction-done :
    {A : Type 0} (body : Time → M A) (w : World) {a : A}
    → next_reply w ≡ done
    → (body (after_call w).clock (after_call w)).0 ≡ ok a
    → next_reply (body (after_call w).clock (after_call w)).1 ≡ done
    → transaction body w ≡ (ok a, after_call (body (after_call w).clock (after_call w)).1)
unfolding transaction
transaction-done body w h k l = ground arith

pub Succeeds-transaction :
    {A : Type 0} (body : Time → M A)
    → ((now : Time) → Succeeds (body now))
    → Succeeds (transaction body)
Succeeds-transaction {A} body sb = record {
  result = λ w s. let (a, e, _) = run w s in (a, rw e);
  smooth = λ w s. let (a, e, sl) = run w s in rw e sl;
}
  where
    run :
        (w : World)
        → Smooth w
        → (a : A) × (transaction body w
            ≡ (ok a, after_call (body (after_call w).clock (after_call w)).1))
          × Smooth (after_call (body (after_call w).clock (after_call w)).1)
    run w s =
        let begun = after_call w in
        let sb' = Smooth-after_call w s in
        let (a, e) = (sb begun.clock).result begun sb' in
        let sl = (sb begun.clock).smooth begun sb' in
        (
          a,
          transaction-done body w (Smooth-next w s) e (Smooth-next (body begun.clock begun).1 sl),
          Smooth-after_call (body begun.clock begun).1 sl,
        )

pub ruleset succeeds_rules = (
  Succeeds-pure, Succeeds-bind, Succeeds-if, Succeeds-statement, Succeeds-autocommit,
  Succeeds-transaction,
)

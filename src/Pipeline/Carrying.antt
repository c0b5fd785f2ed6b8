-- ===== src/Pipeline/Carrying.antt =====
-- What the listener and the processor keep of a change on its way to the dispatcher: tasks and events
-- of its request say what it says, its events still wait, and the agents are not heard of.
use secret_control_panel.Base.{
  if◌then◌else◌, nat_eq, All, Result, ok, err, ◌≡◌, refl, sym, subst, ◌∙◌, ◌⊎◌, inl, inr, Bool,
  true, false, Memᴰ, arith,
}
use secret_control_panel.Text.{str_eq}
use secret_control_panel.Wire.{Time, SecretEvent}
use secret_control_panel.Db.{Db, TaskRow, EventRow, pending, rollback}
use secret_control_panel.Db.World.{
  World, M, Error, after_call, continue, statement, transaction, ◌>>=◌, pure,
}
use secret_control_panel.Db.Steps.{transaction_cases, body_run}
use secret_control_panel.Daemon.Store.{scan_task, scan_event}

-- An event as the tables keep it.
abbrev pub untimed : SecretEvent → SecretEvent
untimed ev = record ev { time = 0 }

-- An event of the same request says the same.
abbrev pub Agrees : SecretEvent → SecretEvent → Type 0
Agrees ev other = other.request_id ≡ ev.request_id → untimed other ≡ untimed ev

abbrev pub IsOwnEvent : SecretEvent → EventRow → Type 0
IsOwnEvent ev e =
    e.request_id ≡ ev.request_id → (e.status ≡ pending) × ((scan_event e).event ≡ untimed ev)

-- As FanoutTask makes it.
abbrev pub IsFresh : EventRow → Type 0
IsFresh e = (e.status ≡ pending) × (e.attempts ≡ 0)

pub record CarriesDb (ev : SecretEvent) (start db : Db) : Type 0 where
  pub tasks : All (λ (t : TaskRow). Agrees ev (scan_task t).event) db.tasks
  pub events : All (IsOwnEvent ev) db.events
  pub rows : All (λ e. IsFresh e ⊎ Memᴰ e start.events) db.events
  pub same_agents : db.agents ≡ start.agents

pub record Carries (ev : SecretEvent) (start w : World) : Type 0 where
  pub carried : CarriesDb ev start.db w.db
  pub same_answers : w.answers ≡ start.answers
  pub same_posts : w.posts ≡ start.posts

module _ (ev : SecretEvent) (start : World) where
  abbrev pub Good : World → Type 0
  Good = Carries ev start

  abbrev pub GoodDb : Db → Type 0
  GoodDb = CarriesDb ev start.db

  pub record Carrying {A : Type 0} (m : M A) : Type 0 where
    pub carries : (w : World) → Good w → Good (m w).1

  -- A step that leaves the answers and the requests as they are.
  pub moved :
      (w v : World)
      → v.answers ≡ w.answers
      → v.posts ≡ w.posts
      → (GoodDb w.db → GoodDb v.db)
      → Good w
      → Good v
  moved w v a p keep h = record {
    carried = keep h.carried;
    same_answers = a ∙ h.same_answers;
    same_posts = p ∙ h.same_posts;
  }

  pub Carrying-pure : {A : Type 0} (a : A) → Carrying (pure a)
  Carrying-pure a = record { carries = λ w h. h }

  pub Carrying-bind :
      {A B : Type 0} (m : M A) (f : A → M B)
      → Carrying m
      → ((a : A) → Carrying (f a))
      → Carrying (m >>= f)
  Carrying-bind {A} {B} m f cm cf = record {
    carries = λ w h. by_result w (m w).0 refl (cm.carries w h);
  }
    where
      by_result :
          (w : World) (r : Result Error A) → (m w).0 ≡ r → Good (m w).1 → Good ((m >>= f) w).1
      by_result w (err e) k g = rw (k, continue) g
      by_result w (ok a) k g = rw (k, continue) ((cf a).carries (m w).1 g)

  pub Carrying-if :
      {A : Type 0} (b : Bool) (m n : M A) → Carrying m → Carrying n → Carrying (if b then m else n)
  Carrying-if true m n cm cn = cm
  Carrying-if false m n cm cn = cn

  pub Carrying-statement :
      {A : Type 0} (e : Error) (f : Db → A × Db)
      → ((db : Db) → GoodDb db → GoodDb (f db).1)
      → Carrying (statement e f)
  Carrying-statement {A} e f keep = record {
    carries = λ w h.
        let (a, p) = quiet w in
        moved w (statement e f w).1 a p (λ g. by_case w g (statement_cases w)) h;
  }
    where
      quiet :
          (w : World)
          → ((statement e f w).1.answers ≡ w.answers) × ((statement e f w).1.posts ≡ w.posts)
      quiet w = unfold statement in ground arith

      statement_cases :
          (w : World) → ((statement e f w).1.db ≡ w.db) ⊎ ((statement e f w).1.db ≡ (f w.db).1)
      statement_cases w = unfold statement in ground arith

      by_case :
          (w : World)
          → GoodDb w.db
          → ((statement e f w).1.db ≡ w.db) ⊎ ((statement e f w).1.db ≡ (f w.db).1)
          → GoodDb (statement e f w).1.db
      by_case w g (inl same) = subst GoodDb (sym same) g
      by_case w g (inr done) = subst GoodDb (sym done) (keep w.db g)

  rolled-back : (old new : Db) → GoodDb old → GoodDb (rollback old new)
  unfolding rollback
  rolled-back old new h = record {
    tasks = h.tasks;
    events = h.events;
    rows = h.rows;
    same_agents = h.same_agents;
  }

  transaction_quiet :
      {A : Type 0} (body : Time → M A) (w : World)
      → (((transaction body w).1.answers ≡ w.answers) × ((transaction body w).1.posts ≡ w.posts))
        ⊎ (((transaction body w).1.answers ≡ (body_run body w).1.answers)
            × ((transaction body w).1.posts ≡ (body_run body w).1.posts))
  unfolding transaction
  transaction_quiet body w = ground arith

  pub Carrying-transaction :
      {A : Type 0} (body : Time → M A)
      → ((now : Time) → Carrying (body now))
      → Carrying (transaction body)
  Carrying-transaction {A} body cb = record {
    carries = λ w h.
        let ran : Good (body_run body w).1 =
          (cb (after_call w).clock).carries (after_call w) (record {
            carried = h.carried;
            same_answers = h.same_answers;
            same_posts = h.same_posts;
          }) in
        let rows = by_end w h.carried ran.carried (transaction_cases body w) in
        elim (transaction_quiet body w) [
          | inl (a, p) ↦ moved w (transaction body w).1 a p (λ g. rows) h
          | inr (a, p) ↦ moved (body_run body w).1 (transaction body w).1 a p (λ g. rows) ran
        ];
  }
    where
      by_end :
          (w : World)
          → GoodDb w.db
          → GoodDb (body_run body w).1.db
          → ((transaction body w).1.db ≡ w.db)
            ⊎ ((transaction body w).1.db ≡ rollback w.db (body_run body w).1.db)
            ⊎ ((a : A) × ((body_run body w).0 ≡ ok a)
                × ((transaction body w).1.db ≡ (body_run body w).1.db))
          → GoodDb (transaction body w).1.db
      by_end w old new (inl e) = subst GoodDb (sym e) old
      by_end w old new (inr (inl e)) =
          subst GoodDb (sym e) (rolled-back w.db (body_run body w).1.db old)
      by_end w old new (inr (inr (a, k, e))) = subst GoodDb (sym e) new

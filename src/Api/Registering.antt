-- ===== src/Api/Registering.antt =====
-- What an accepted registration leaves behind for the dispatcher.
use mathlib.Core.Path.{subst₂}
use secret_control_panel.Base.{
  if◌then◌else◌, Bool-cases, ◌==◌, nat_eq, eq_iff, ne_of_beq, beq_of_ne, Result, ok, err, ℕ, ◌≡◌,
  refl, sym, ap, ◌∙◌, inl, inr, true, false, Option, none, some, List, [], ◌∷◌, arith,
}
use secret_control_panel.Text.{Str, str_eq}
use secret_control_panel.Wire.{Time, Registration}
use secret_control_panel.Db.{Db, AgentRow}
use secret_control_panel.Db.World.{World, Error, after_call, upsert_agent_failed}
use secret_control_panel.Db.Steps.{autocommit-ok}
use secret_control_panel.Daemon.Store.{agent_of}
use secret_control_panel.Api.{
  UuidCast, Decoder, Request, put_agent, upsert_agent, lacks_field, authorize, readable, register,
  handle_register,
}
use secret_control_panel.Api.Access.{
  allowed, authorize-db, authorize_cases, refusal-204, register_refused,
}

-- The agent of `cluster` after the registration `reg`.
abbrev pub registered : Registration → Str → List AgentRow → Option (Str × Str)
registered reg cluster agents =
    if reg.cluster == cluster then some (reg.url, reg.token) else agent_of cluster agents

pub put_agent-agent_of :
    (now : Time) (reg : Registration) (cluster : Str) (agents : List AgentRow)
    → agent_of cluster (put_agent now reg agents) ≡ registered reg cluster agents
unfolding put_agent agent_of
put_agent-agent_of now reg c [] = refl
put_agent-agent_of now reg c (a ∷ agents) = elim (Bool-cases (a.cluster == reg.cluster)) [
  | inl e ↦ rw e (elim (Bool-cases (reg.cluster == c)) [
    | inl f ↦ rw ((eq_iff a.cluster reg.cluster).0 e, f)
    | inr f ↦ rw ((eq_iff a.cluster reg.cluster).0 e, f)
  ])
  | inr e ↦ rw e (elim (Bool-cases (a.cluster == c)) [
    | inl f ↦
        let other : (reg.cluster == c) ≡ false =
          beq_of_ne reg.cluster c
            (λ k. ne_of_beq a.cluster reg.cluster e ((eq_iff a.cluster c).0 f ∙ sym k)) in
        rw (f, other)
    | inr f ↦ rw f (put_agent-agent_of now reg c agents)
  ])
]

-- What a registration that is answered 204 did: the body was one, with its three fields; the agent
-- of its cluster is the one that it names, that of every other cluster is as it was, and only the
-- table `agents` has changed.
pub record Registered (decoded : Option Registration) (cluster : Str) (old new : Db) : Type 0 where
  pub reg : Registration
  pub body : decoded ≡ some reg
  pub complete : lacks_field reg ≡ false
  pub endpoint : agent_of cluster new.agents ≡ registered reg cluster old.agents
  pub others : new ≡ record old { agents = new.agents }

register-Registered :
    (reg : Registration) (w : World) (cluster : Str)
    → (register reg w).0 ≡ 204
    → Registered (some reg) cluster w.db (register reg w).1.db
register-Registered reg w cluster h = elim (Bool-cases (lacks_field reg)) [
  | inl e ↦ absurd (unfold register in ground arith)
  | inr e ↦ by_result e (upsert_agent reg w).0 refl
]
  where
    by_result :
        lacks_field reg ≡ false
        → (o : Result Error (Unit {0})) → (upsert_agent reg w).0 ≡ o
        → Registered (some reg) cluster w.db (register reg w).1.db
    by_result e (err x) k = absurd (unfold register in ground arith)
    by_result e (ok _) k =
        let db : (upsert_agent reg w).1.db
            ≡ record w.db { agents = put_agent (after_call w).clock reg w.db.agents } =
          unfold upsert_agent in (autocommit-ok upsert_agent_failed _ w k).1 in
        let same : (register reg w).1.db ≡ (upsert_agent reg w).1.db =
          unfold register in rw e refl in
        let new = same ∙ db in
        let agents = ap (λ (d : Db). d.agents) new in
        record {
          reg = reg;
          body = refl;
          complete = e;
          endpoint =
              ap (agent_of cluster) agents
              ∙ put_agent-agent_of (after_call w).clock reg cluster w.db.agents;
          others = new ∙ ap (λ a. record w.db { agents = a }) (sym agents);
        }

-- A registration that is answered 204 came with the token of an active row, and AgentEndpoint gives
-- for its cluster the URL and the token of the body from then on; the endpoints of the other clusters
-- and the other tables are as they were.
pub handle_register-Registered :
    (uuid_of : UuidCast) (decode : Decoder Registration) (r : Request) (w : World) (cluster : Str)
    → (handle_register uuid_of decode r w).0 ≡ 204
    → (allowed uuid_of w.db r ≡ true)
      × Registered (decode (readable r)) cluster w.db (handle_register uuid_of decode r w).1.db
handle_register-Registered uuid_of decode r w cluster h = elim (authorize_cases uuid_of r w) [
  | inl (e, granted) ↦ (granted, by_body e (decode (readable r)) refl)
  | inr (status, e, f) ↦ absurd (
      refusal-204 uuid_of r w f
        (sym (ap (λ (q : ℕ × World). q.0) (register_refused uuid_of r w decode e)) ∙ h))
]
  where
    w' : World
    w' = (authorize uuid_of r w).1

    by_body :
        (authorize uuid_of r w).0 ≡ none
        → (o : Option Registration) → decode (readable r) ≡ o
        → Registered o cluster w.db (handle_register uuid_of decode r w).1.db
    by_body e none k = absurd (unfold handle_register in ground arith)
    by_body e (some reg) k =
        let run : handle_register uuid_of decode r w ≡ register reg w' =
          unfold handle_register in rw (e, handle_register, k) refl in
        subst₂ (λ old new. Registered (some reg) cluster old new) (authorize-db uuid_of r w)
          (sym (ap (λ (q : ℕ × World). q.1.db) run))
          (register-Registered reg w' cluster (sym (ap (λ (q : ℕ × World). q.0) run) ∙ h))

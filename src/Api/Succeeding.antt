-- ===== src/Api/Succeeding.antt =====
-- Registrations that the panel carries out.
use secret_control_panel.Base.{nat_eq, ℕ, ◌≡◌, refl, ap, true, false, Option, none, some}
use secret_control_panel.Text.{Str, str_eq}
use secret_control_panel.Wire.{Registration}
use secret_control_panel.Db.World.{World, after_call, validate_token_failed, upsert_agent_failed}
use secret_control_panel.Db.Smooth.{Smooth, Smooth-next, Smooth-after_call, autocommit-done}
use secret_control_panel.Api.{
  UuidCast, Decoder, Request, is_active, validate_token, put_agent, upsert_agent, token_of,
  lacks_field, authorize, readable, register, handle_register,
}

module _ (uuid_of : UuidCast) (decode : Decoder Registration) (r : Request) (w : World) where
  authorize-active :
      {token : Str}
      → Smooth w
      → token_of r ≡ some token
      → is_active w.db.api_tokens (uuid_of token) ≡ true
      → authorize uuid_of r w ≡ (none, after_call w)
  unfolding authorize validate_token
  authorize-active {token} s t active =
      rw
        (
          t,
          authorize,
          autocommit-done validate_token_failed
              (λ now db. (is_active db.api_tokens (uuid_of token), db)) w (Smooth-next w s),
          active,
        )
        refl

  -- The world after the registration.
  abbrev pub after_registration : Registration → World
  after_registration reg =
      let w' = after_call (after_call w) in
      record w' { db = record w.db { agents = put_agent w'.clock reg w.db.agents } }

  -- With the token of an active row, a complete registration and no failing call, the answer is 204.
  pub handle_register-done :
      {token : Str} {reg : Registration}
      → Smooth w
      → token_of r ≡ some token
      → is_active w.db.api_tokens (uuid_of token) ≡ true
      → decode (readable r) ≡ some reg
      → lacks_field reg ≡ false
      → handle_register uuid_of decode r w ≡ (204, after_registration reg)
  unfolding handle_register
  handle_register-done {token} {reg} s t active d complete =
      let a = authorize-active s t active in
      rw
        (
          ap (λ (q : Option ℕ × World). q.0) a,
          handle_register,
          d,
          ap (λ (q : Option ℕ × World). q.1) a,
        )
        (registers (after_call w) (Smooth-after_call w s))
    where
      registers :
          (v : World)
          → Smooth v
          → register reg v ≡ (
            204,
            record (after_call v) {
              db = record v.db { agents = put_agent (after_call v).clock reg v.db.agents };
            },
          )
      registers v sv =
          unfold register upsert_agent in
          rw
            (
              complete,
              autocommit-done upsert_agent_failed
                  (λ now db. (tt {0}, record db { agents = put_agent now reg db.agents })) v
                  (Smooth-next v sv),
            )
            refl

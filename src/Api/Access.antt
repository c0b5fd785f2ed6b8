-- ===== src/Api/Access.antt =====
-- authorize: who may change the panel's tables through the API.
use secret_control_panel.Base.{
  Option-cases, nat_eq, Result, ok, err, ℕ, ◌≡◌, refl, sym, ◌≢◌, ◌⊎◌, inl, inr, Bool, true, false,
  Option, none, some, List, arith,
}
use secret_control_panel.Text.{Str, str_eq, cut_prefix}
use secret_control_panel.Wire.{Registration, Callback}
use secret_control_panel.Db.{Db, TokenRow}
use secret_control_panel.Db.World.{World, Error, validate_token_failed}
use secret_control_panel.Db.Steps.{autocommit-read, autocommit-ok}
use secret_control_panel.Api.{
  UuidCast, Decoder, Request, is_active, validate_token, token_of, authorize, handle_register,
  handle_callback,
}

abbrev pub is_active_token : UuidCast → List TokenRow → Option Str → Bool
is_active_token uuid_of tokens none = false
is_active_token uuid_of tokens (some token) = is_active tokens (uuid_of token)

-- The request carries, after the scheme, a token whose uuid is that of an active row.
abbrev pub allowed : UuidCast → Db → Request → Bool
allowed uuid_of db r = is_active_token uuid_of db.api_tokens (token_of r)

abbrev pub IsRefusal : ℕ → Type 0
IsRefusal status = (status ≡ 401) ⊎ (status ≡ 500)

module _ (uuid_of : UuidCast) (r : Request) (w : World) where
  pub authorize-db : (authorize uuid_of r w).1.db ≡ w.db
  unfolding authorize validate_token token_of cut_prefix
  authorize-db = elim (Option-cases (token_of r)) [
    | inl e ↦ rw e refl
    | inr (token, e) ↦ rw e (
        autocommit-read validate_token_failed (λ now db. is_active db.api_tokens (uuid_of token)) w)
  ]

  -- The three ends of `authorize`.
  pub authorize_cases :
      ((authorize uuid_of r w).0 ≡ none) × (allowed uuid_of w.db r ≡ true)
      ⊎ ((status : ℕ) × ((authorize uuid_of r w).0 ≡ some status) × IsRefusal status)
  unfolding token_of cut_prefix
  authorize_cases = by_token (token_of r) refl
    where
      by_valid :
          (token : Str)
          → token_of r ≡ some token
          → (o : Result Error Bool) → (validate_token uuid_of token w).0 ≡ o
          → ((authorize uuid_of r w).0 ≡ none) × (allowed uuid_of w.db r ≡ true)
            ⊎ ((status : ℕ) × ((authorize uuid_of r w).0 ≡ some status) × IsRefusal status)
      by_valid token e (err x) h = unfold authorize in rw (e, h) (inr (500, refl, inr refl))
      by_valid token e (ok false) h = unfold authorize in rw (e, h) (inr (401, refl, inl refl))
      by_valid token e (ok true) h =
          unfold authorize validate_token in
          inl (
            rw (e, h) refl,
            rw e (
                sym
                  (autocommit-ok validate_token_failed
                    (λ now db. (is_active db.api_tokens (uuid_of token), db)) w h).0),
          )

      by_token :
          (o : Option Str)
          → token_of r ≡ o
          → ((authorize uuid_of r w).0 ≡ none) × (allowed uuid_of w.db r ≡ true)
            ⊎ ((status : ℕ) × ((authorize uuid_of r w).0 ≡ some status) × IsRefusal status)
      by_token none e = unfold authorize in rw e (inr (401, refl, inl refl))
      by_token (some token) e = by_valid token e (validate_token uuid_of token w).0 refl

  -- A refusal is not the answer to a request that was carried out.
  pub refusal-204 : {status : ℕ} → IsRefusal status → status ≢ 204
  refusal-204 (inl e) f = omega arith
  refusal-204 (inr e) f = omega arith

  pub register_refused :
      (decode : Decoder Registration) {status : ℕ}
      → (authorize uuid_of r w).0 ≡ some status
      → handle_register uuid_of decode r w ≡ (status, (authorize uuid_of r w).1)
  unfolding handle_register
  register_refused decode e = rw (e, handle_register) refl

  pub callback_refused :
      (decode : Decoder Callback) {status : ℕ}
      → (authorize uuid_of r w).0 ≡ some status
      → handle_callback uuid_of decode r w ≡ (status, (authorize uuid_of r w).1)
  unfolding handle_callback
  callback_refused decode e = rw (e, handle_callback) refl

  abbrev pub Refused : ℕ × World → Type 0
  Refused (status, w') = (w'.db ≡ w.db) × IsRefusal status

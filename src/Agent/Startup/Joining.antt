-- ===== src/Agent/Startup/Joining.antt =====
-- The agent's registration against the panel's handler, and the panel's POSTs against the agent's
-- server.
use secret_control_panel.Base.{
  ltb, ◌==◌, nat_eq, eq_iff, ℕ, ◌≡◌, refl, sym, ap, subst, ◌∙◌, ◌≢◌, Bool, true, false, none, some,
  [], ◌++◌, arith,
}
use secret_control_panel.Text.{Str, str_eq}
use secret_control_panel.Text.Cut.{cut_prefix-append}
use secret_control_panel.Wire.{SecretEvent, Registration, auth_scheme}
use secret_control_panel.Db.World.{World, after_call}
use secret_control_panel.Db.Smooth.{Smooth, Smooth-after_call}
use secret_control_panel.Daemon.Store.{PendingEvent, agent_of}
use secret_control_panel.Daemon.Dispatcher.{dispatch_one}
use secret_control_panel.Daemon.Dispatcher.Posting.{post_for, sent, dispatch_one-posts}
use secret_control_panel.Api.{
  UuidCast, Decoder, Request, is_active, token_of, bearer, lacks_field, readable, handle_register,
}
use secret_control_panel.Api.Registering.{put_agent-agent_of}
use secret_control_panel.Api.Succeeding.{after_registration, handle_register-done}
use secret_control_panel.Agent.Server.{Server, check_auth, accept_event, handle_events}
use secret_control_panel.Agent.Startup
use secret_control_panel.Agent.Startup.{
  Config, validate, registration_of, register_max_attempts, Network, JoinResult, post_registration,
  attempt_registration, register_with_panel,
}

-- The panel as the network of an agent: its handler answers each POST, and no time is waited.
abbrev pub to_panel : UuidCast → Decoder Registration → (Registration → Str) → Network World
to_panel uuid_of decode encode = record {
  post = λ url authorization reg w.
      let (status, w') =
        handle_register uuid_of decode (record { authorization = authorization; body = encode reg })
          w in
      (some status, w');
  wait = λ w. (true, w);
}

-- The request of the agent's registration.
abbrev pub request_of : (Registration → Str) → Config → Request
request_of encode c = record {
  authorization = auth_scheme ++ c.panel_token;
  body = encode (registration_of c);
}

validate-lacks_field : (c : Config) → validate c ≡ none → lacks_field (registration_of c) ≡ false
unfolding validate
validate-lacks_field c h = ground arith

validate-panel_token : (c : Config) → validate c ≡ none → (c.panel_token == []) ≡ false
unfolding validate
validate-panel_token c h = ground arith

module _ (uuid_of : UuidCast) (decode : Decoder Registration) (encode : Registration → Str)
    (c : Config) where
  request_of-token_of : validate c ≡ none → token_of (request_of encode c) ≡ some c.panel_token
  unfolding token_of
  request_of-token_of h =
      ap bearer (cut_prefix-append auth_scheme c.panel_token) ∙ rw (validate-panel_token c h) refl

  abbrev net : Network World
  net = to_panel uuid_of decode encode

  -- The world after the registration.
  abbrev joined_world : World → World
  joined_world w = after_registration uuid_of decode (request_of encode c) w (registration_of c)

  answered :
      (w : World)
      → Smooth w
      → validate c ≡ none
      → is_active w.db.api_tokens (uuid_of c.panel_token) ≡ true
      → decode (readable (request_of encode c)) ≡ some (registration_of c)
      → handle_register uuid_of decode (request_of encode c) w ≡ (204, joined_world w)
  answered w s v active d =
      handle_register-done uuid_of decode (request_of encode c) w s (request_of-token_of v) active d
        (validate-lacks_field c v)

  joined :
      (w : World)
      → Smooth w
      → validate c ≡ none
      → is_active w.db.api_tokens (uuid_of c.panel_token) ≡ true
      → decode (readable (request_of encode c)) ≡ some (registration_of c)
      → register_with_panel net c w ≡ (Startup.registered, joined_world w)
  unfolding register_with_panel attempt_registration
  joined w s v active d =
      rw
        (
          ap (λ (q : Bool × World). q.0) posted,
          attempt_registration,
          ap (λ (q : Bool × World). q.1) posted,
        )
        refl
    where
      posted : post_registration net c w ≡ (true, joined_world w)
      posted =
          unfold post_registration in
          ap (λ (q : ℕ × World). (ltb q.0 300, q.1)) (answered w s v active d)

  -- The run of the agent's registration.
  abbrev pub run : World → JoinResult × World
  run w = register_with_panel net c w

  abbrev pub call : World → ℕ × World
  call w = handle_register uuid_of decode (request_of encode c) w

  event_accepted :
      {S : Type 0} (server : Server S) (decode_event : Decoder SecretEvent) (r : Request) (t : S)
      → r.authorization ≡ auth_scheme ++ server.token
      → (handle_events server decode_event r t).0 ≢ 401
  unfolding handle_events check_auth accept_event
  event_accepted server decode_event r t h e =
      ground (arith, (eq_iff r.authorization (auth_scheme ++ server.token)).1 h)

  -- An agent whose configuration is complete and has the token of an active row joins by one call of
  -- the panel's handler, where no call of the database fails and its registration can be decoded from
  -- what it sends: the handler answers 204, and the run of the registration ends as registered in the
  -- world that this call leaves. When the next event for its cluster is dispatched from there, the
  -- requests that have arrived are those before and, if the answer to the POST is marked as received,
  -- one more, to its URL and with its token; and whatever body a request with the header of that POST
  -- has, the event handler of a server with the agent's token does not answer it 401.
  pub joined-dispatched :
      {S : Type 0} (server : Server S) (decode_event : Decoder SecretEvent) (t : S) (w : World)
      (ev : PendingEvent) (body : Str)
      → Smooth w
      → validate c ≡ none
      → is_active w.db.api_tokens (uuid_of c.panel_token) ≡ true
      → decode (readable (request_of encode c)) ≡ some (registration_of c)
      → ev.cluster ≡ c.cluster
      → server.token ≡ c.token
      → ((call w).0 ≡ 204)
        × (run w ≡ (Startup.registered, (call w).1))
        × ((dispatch_one ev (run w).1).1.posts ≡ sent ev c.url c.token (run w).1)
        × ((handle_events server decode_event
              (record { authorization = (post_for ev c.url c.token).authorization; body = body })
              t).0
            ≢ 401)
  joined-dispatched server decode_event t w ev body s v active d same own =
      let ran = joined w s v active d in
      let called = answered w s v active d in
      (
        ap (λ (q : ℕ × World). q.0) called,
        ran ∙ ap (λ (q : ℕ × World). (Startup.registered, q.1)) (sym called),
        subst
            (λ (q : JoinResult × World). (dispatch_one ev q.1).1.posts ≡ sent ev c.url c.token q.1)
            (sym ran)
            (dispatch_one-posts ev c.url c.token (joined_world w)
              (Smooth-after_call (after_call w) (Smooth-after_call w s)) endpoint),
        event_accepted server decode_event _ t (ap (λ k. auth_scheme ++ k) (sym own)),
      )
    where
      endpoint : agent_of ev.cluster (joined_world w).db.agents ≡ some (c.url, c.token)
      endpoint =
          put_agent-agent_of (after_call (after_call w)).clock (registration_of c) ev.cluster
            w.db.agents
          ∙ rw ((eq_iff c.cluster ev.cluster).1 (sym same)) refl

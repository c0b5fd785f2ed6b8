-- ===== src/Agent/Syncer/Reporting.antt =====
-- The agent's callback against the panel's handler.
use secret_control_panel.Base.{
  Bool-cases, ◌==◌, nat_eq, take, all, All, ℕ, ◌-◌, ◌≡◌, refl, sym, ap, subst, ◌∙◌, ◌⊎◌, inl, inr,
  Bool, true, false, Option, none, some, [], ◌++◌, arith,
}
use secret_control_panel.Text.{Str, str_eq}
use secret_control_panel.Wire.{Time, SecretEvent, Callback, auth_scheme}
use secret_control_panel.VaultPath.{join}
use secret_control_panel.Db.World.{World}
use secret_control_panel.Api.{
  UuidCast, Decoder, Request, max_request_body_bytes, readable, handle_callback,
}
use secret_control_panel.Api.Callbacks.{Reported, handle_callback-below, handle_callback-Reported}
use secret_control_panel.Agent.Syncer.{
  Watcher, poll_until_synced, callback_for, send_callback, watch,
}
use secret_control_panel.Agent.Syncer.Truthful.{Confirmed, watch-Confirmed}

-- The agent's cluster beside the panel's world.
abbrev beside : {A K : Type 0} → World → A × K → A × (World × K)
beside w (a, k) = (a, (w, k))

abbrev posted : {K : Type 0} → K → ℕ × World → Option ℕ × (World × K)
posted k (status, w) = (some status, (w, k))

-- A watcher whose POSTs reach the panel's handler, with `encode` as json.Marshal.
abbrev pub reporting_to :
    {K : Type 0} → UuidCast → Decoder Callback → (Callback → Str) → Watcher K → Watcher (World × K)
reporting_to uuid_of decode encode v = record {
  k8s = record {
    list = λ s. beside s.0 (v.k8s.list s.1);
    patch = λ namespace name trigger s. beside s.0 (v.k8s.patch namespace name trigger s.1);
    now = λ s. v.k8s.now s.1;
  };
  parse_time = v.parse_time;
  wait = λ s. beside s.0 (v.wait s.1);
  post = λ url authorization cb s. posted s.1 (
      handle_callback uuid_of decode (record { authorization = authorization; body = encode cb })
        s.0);
  cluster = v.cluster;
  panel_url = v.panel_url;
  token = v.token;
}

-- What the handler decodes of the start of the encoded callback is that callback, or nothing.
abbrev pub Decodes : Decoder Callback → (Callback → Str) → Callback → Type 0
Decodes decode encode cb =
    (got : Callback) → decode (take max_request_body_bytes (encode cb)) ≡ some got → got ≡ cb

both :
    {a c : Callback} {b : Bool}
    → Path (Option (Callback × Bool)) (some (a, b)) (some (c, true))
    → (a ≡ c) × (b ≡ true)
both e = ground arith

module _ {K : Type 0} (uuid_of : UuidCast) (decode : Decoder Callback) (encode : Callback → Str)
    (v : Watcher K) where
  abbrev w : Watcher (World × K)
  w = reporting_to uuid_of decode encode v

  send_callback-Reported :
      (cb : Callback) (s : World × K)
      → Decodes decode encode cb
      → (send_callback w cb s).0 ≡ true
      → All (Reported cb) (send_callback w cb s).1.0.db.events
  unfolding send_callback readable
  send_callback-Reported cb s round h =
      let r : Request = record { authorization = auth_scheme ++ v.token; body = encode cb } in
      let (granted, (got, decoded, all)) =
        handle_callback-Reported uuid_of decode r s.0
          (handle_callback-below uuid_of decode r s.0 h) in
      subst (λ c. All (Reported c) (handle_callback uuid_of decode r s.0).1.db.events)
        (round got decoded) all

-- A callback that was sent was sent by sendCallback, last.
watch-sent :
    {S : Type 0} (w : Watcher S) (fuel : ℕ) (ev : SecretEvent) (matched patched : ℕ)
    (patched_at : Time) (s : S) {cb : Callback}
    → (watch w fuel ev matched patched patched_at s).0 ≡ some (cb, true)
    → (t : S) × ((send_callback w cb t).0 ≡ true)
      × ((watch w fuel ev matched patched patched_at s).1 ≡ (send_callback w cb t).1)
watch-sent {S} w fuel ev matched patched patched_at s {cb} h =
    by_poll (poll_until_synced w fuel (join ev.mount ev.path) patched_at s).0 refl
  where
    s' : S
    s' = (poll_until_synced w fuel (join ev.mount ev.path) patched_at s).1

    made : Bool → Callback
    made synced = callback_for w ev matched patched synced (w.k8s.now s' - w.k8s.now s)

    Sent : Type 0
    Sent =
        (t : S) × ((send_callback w cb t).0 ≡ true)
        × ((watch w fuel ev matched patched patched_at s).1 ≡ (send_callback w cb t).1)

    ran :
        (synced : Bool)
        → watch w fuel ev matched patched patched_at s ≡ (
          some (made synced, (send_callback w (made synced) s').0),
          (send_callback w (made synced) s').1,
        )
        → Sent
    ran synced run =
        let (same, sent) = both (sym (ap (λ (q : Option (Callback × Bool) × S). q.0) run) ∙ h) in
        (
          s',
          subst (λ c. (send_callback w c s').0 ≡ true) same sent,
          ap (λ (q : Option (Callback × Bool) × S). q.1) run
              ∙ ap (λ c. (send_callback w c s').1) same,
        )

    by_poll :
        (o : Option Bool)
        → (poll_until_synced w fuel (join ev.mount ev.path) patched_at s).0 ≡ o
        → Sent
    by_poll none e = absurd (unfold watch in ground arith)
    by_poll (some synced) e = elim (Bool-cases (w.panel_url == [])) [
      | inl f ↦ absurd (unfold watch in ground arith)
      | inr f ↦ ran synced (unfold watch in rw (e, watch, f) refl)
    ]

-- A callback that the agent has sent, in that the panel answered below 300, is in the panel's
-- database: whatever calls of the database failed on the way, every event of the request and of the
-- agent's cluster carries the callback's report; and the report is "synced" only if at some moment
-- the API of the cluster listed at least one resource of the event's path, and all of those with a
-- refresh time that is not before the second of the patch.
pub watch-Reported :
    {K : Type 0} (uuid_of : UuidCast) (decode : Decoder Callback) (encode : Callback → Str)
    (v : Watcher K) (fuel : ℕ) (ev : SecretEvent) (matched patched : ℕ) (patched_at : Time)
    (s : World × K) {cb : Callback}
    → Decodes decode encode cb
    → (watch (reporting_to uuid_of decode encode v) fuel ev matched patched patched_at s).0
      ≡ some (cb, true)
    → (cb.request_id ≡ ev.request_id)
      × (cb.cluster ≡ v.cluster)
      × All
          (Reported cb)
          (watch
            (reporting_to uuid_of decode encode v)
            fuel
            ev
            matched
            patched
            patched_at
            s).1.0.db.events
      × ((cb.synced ≡ false)
          ⊎ Confirmed (reporting_to uuid_of decode encode v) (join ev.mount ev.path) patched_at)
watch-Reported uuid_of decode encode v fuel ev matched patched patched_at s {cb} round h =
    let w = reporting_to uuid_of decode encode v in
    let (same_request, same_cluster, truthful) =
      watch-Confirmed w fuel ev matched patched patched_at s h in
    let (t, sent, end_state) = watch-sent w fuel ev matched patched patched_at s h in
    (
      same_request,
      same_cluster,
      subst (λ q. All (Reported cb) q.0.db.events) (sym end_state)
          (send_callback-Reported uuid_of decode encode v cb t round sent),
      truthful,
    )

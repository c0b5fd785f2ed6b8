-- ===== src/Api/Callbacks.antt =====
-- What an agent's callback does to the events.
use secret_control_panel.Base.{
  ltb, Bool-cases, ◌==◌, nat_eq, All, Result, ok, err, ℕ, ◌≡◌, refl, sym, ap, subst, ◌∙◌, ◌⊎◌, inl,
  inr, true, false, ◌||◌, Option, none, some, List, [], ◌∷◌, map, arith,
}
use secret_control_panel.Text.{str_eq}
use secret_control_panel.Wire.{Time, Callback}
use secret_control_panel.Db.{Db, EventRow}
use secret_control_panel.Db.World.{World, Error, after_call, update_event_failed}
use secret_control_panel.Db.Steps.{autocommit-ok, autocommit_cases}
use secret_control_panel.Api.{
  UuidCast, Decoder, Request, is_of, sync_events, apply_callback, authorize, readable, sync,
  handle_callback,
}
use secret_control_panel.Api.Access.{
  authorize-db, authorize_cases, refusal-204, callback_refused, allowed,
}

-- An event without what a callback reports.
abbrev pub unsynced : EventRow → EventRow
unsynced e = record e {
  synced = none;
  matched = none;
  patched = none;
  elapsed_ms = none;
  synced_at = none;
}

-- The event carries the report of the callback.
abbrev pub IsSynced : Callback → EventRow → Type 0
IsSynced cb e =
    (e.synced ≡ some cb.synced)
    × (e.matched ≡ some cb.matched)
    × (e.patched ≡ some cb.patched)
    × (e.elapsed_ms ≡ some cb.elapsed_ms)

-- The event is not of the request and cluster of the callback, or carries its report.
abbrev pub Reported : Callback → EventRow → Type 0
Reported cb e = (is_of cb e ≡ false) ⊎ IsSynced cb e

-- The events differ in what a callback reports at most, and the other tables not at all.
abbrev pub OnlySync : Db → Db → Type 0
OnlySync old new =
    (map unsynced new.events ≡ map unsynced old.events) × (new ≡ record old { events = new.events })

module _ (now : Time) (cb : Callback) where
  sync_events-unsynced :
      (events : List EventRow) → map unsynced (sync_events now cb events) ≡ map unsynced events
  unfolding sync_events
  sync_events-unsynced [] = refl
  sync_events-unsynced (e ∷ events) = elim (Bool-cases (is_of cb e)) [
    | inl h ↦ rw (h, sync_events-unsynced events)
    | inr h ↦ rw (h, sync_events-unsynced events)
  ]

  sync_events-Reported : (events : List EventRow) → All (Reported cb) (sync_events now cb events)
  unfolding sync_events
  sync_events-Reported [] = tt
  sync_events-Reported (e ∷ events) = elim (Bool-cases (is_of cb e)) [
    | inl h ↦ rw h (inr (refl, refl, refl, refl), sync_events-Reported events)
    | inr h ↦ rw h (inl h, sync_events-Reported events)
  ]

  synced-OnlySync :
      (old new : Db)
      → new ≡ record old { events = sync_events now cb old.events }
      → OnlySync old new
  synced-OnlySync old new e =
      let events = ap (λ (d : Db). d.events) e in
      (
        ap (map unsynced) events ∙ sync_events-unsynced old.events,
        e ∙ ap (λ es. record old { events = es }) (sym events),
      )

same-OnlySync : (old new : Db) → new ≡ old → OnlySync old new
same-OnlySync old new e = (
  ap (λ (d : Db). map unsynced d.events) e,
  e ∙ ap (λ es. record old { events = es }) (sym (ap (λ (d : Db). d.events) e)),
)

sync-OnlySync : (cb : Callback) (w : World) → OnlySync w.db (sync cb w).1.db
unfolding apply_callback
sync-OnlySync cb w = elim (Bool-cases (cb.request_id == [] || cb.cluster == [])) [
  | inl e ↦ unfold sync in rw e (same-OnlySync w.db w.db refl)
  | inr e ↦ unfold sync in rw e applied
]
  where
    applied : OnlySync w.db (apply_callback cb w).1.db
    applied = elim (autocommit_cases update_event_failed _ w) [
      | inl same ↦ same-OnlySync w.db (apply_callback cb w).1.db same
      | inr e ↦ synced-OnlySync (after_call w).clock cb w.db (apply_callback cb w).1.db e
    ]

-- Whatever the request and whichever calls fail, the callback handler changes nothing but the five
-- columns of the sync report: status, attempts and retry time of every event, and so what the
-- dispatcher will do, are as they were.
pub handle_callback-OnlySync :
    (uuid_of : UuidCast) (decode : Decoder Callback) (r : Request) (w : World)
    → OnlySync w.db (handle_callback uuid_of decode r w).1.db
handle_callback-OnlySync uuid_of decode r w =
    subst (λ d. OnlySync d (handle_callback uuid_of decode r w).1.db) (authorize-db uuid_of r w)
      (by_access (authorize uuid_of r w).0 refl)
  where
    w' : World
    w' = (authorize uuid_of r w).1

    by_body :
        (authorize uuid_of r w).0 ≡ none
        → (o : Option Callback) → decode (readable r) ≡ o
        → OnlySync w'.db (handle_callback uuid_of decode r w).1.db
    by_body e none k =
        unfold handle_callback in rw (e, handle_callback, k) (same-OnlySync w'.db w'.db refl)
    by_body e (some cb) k =
        unfold handle_callback in rw (e, handle_callback, k) (sync-OnlySync cb w')

    by_access :
        (o : Option ℕ)
        → (authorize uuid_of r w).0 ≡ o
        → OnlySync w'.db (handle_callback uuid_of decode r w).1.db
    by_access none e = by_body e (decode (readable r)) refl
    by_access (some status) e =
        same-OnlySync w'.db (handle_callback uuid_of decode r w).1.db
          (ap (λ (q : ℕ × World). q.1.db) (callback_refused uuid_of r w decode e))

sync-Reported :
    (cb : Callback) (w : World) → (sync cb w).0 ≡ 204 → All (Reported cb) (sync cb w).1.db.events
unfolding apply_callback
sync-Reported cb w h = elim (Bool-cases (cb.request_id == [] || cb.cluster == [])) [
  | inl e ↦ absurd (unfold sync in ground arith)
  | inr e ↦ by_result e (apply_callback cb w).0 refl
]
  where
    by_result :
        (cb.request_id == [] || cb.cluster == []) ≡ false
        → (o : Result Error ℕ) → (apply_callback cb w).0 ≡ o
        → All (Reported cb) (sync cb w).1.db.events
    by_result e (err x) k = absurd (unfold sync in ground arith)
    by_result e (ok n) k =
        let db = (autocommit-ok update_event_failed _ w k).1 in
        let events : (sync cb w).1.db.events ≡ sync_events (after_call w).clock cb w.db.events =
          unfold sync in rw e (ap (λ (d : Db). d.events) db) in
        subst (All (Reported cb)) (sym events)
          (sync_events-Reported (after_call w).clock cb w.db.events)

-- After a callback that is answered 204, every event of its request and cluster carries its report;
-- the request came with the token of an active row, and its body was a callback.
pub handle_callback-Reported :
    (uuid_of : UuidCast) (decode : Decoder Callback) (r : Request) (w : World)
    → (handle_callback uuid_of decode r w).0 ≡ 204
    → (allowed uuid_of w.db r ≡ true)
      × ((cb : Callback) × (decode (readable r) ≡ some cb)
          × All (Reported cb) (handle_callback uuid_of decode r w).1.db.events)
handle_callback-Reported uuid_of decode r w h = elim (authorize_cases uuid_of r w) [
  | inl (e, granted) ↦ (granted, by_body e (decode (readable r)) refl)
  | inr (status, e, f) ↦ absurd (
      refusal-204 uuid_of r w f
        (sym (ap (λ (q : ℕ × World). q.0) (callback_refused uuid_of r w decode e)) ∙ h))
]
  where
    w' : World
    w' = (authorize uuid_of r w).1

    by_body :
        (authorize uuid_of r w).0 ≡ none
        → (o : Option Callback) → decode (readable r) ≡ o
        → (cb : Callback) × (o ≡ some cb)
          × All (Reported cb) (handle_callback uuid_of decode r w).1.db.events
    by_body e none k = absurd (unfold handle_callback in ground arith)
    by_body e (some cb) k =
        let run : handle_callback uuid_of decode r w ≡ sync cb w' =
          unfold handle_callback in rw (e, handle_callback, k) refl in
        (
          cb,
          refl,
          subst (λ (q : ℕ × World). All (Reported cb) q.1.db.events) (sym run)
              (sync-Reported cb w' (sym (ap (λ (q : ℕ × World). q.0) run) ∙ h)),
        )

sync-below : (cb : Callback) (w : World) → ltb (sync cb w).0 300 ≡ true → (sync cb w).0 ≡ 204
unfolding sync
sync-below cb w h = ground arith

-- The answers of the callback handler that an agent takes for a success are all 204.
pub handle_callback-below :
    (uuid_of : UuidCast) (decode : Decoder Callback) (r : Request) (w : World)
    → ltb (handle_callback uuid_of decode r w).0 300 ≡ true
    → (handle_callback uuid_of decode r w).0 ≡ 204
handle_callback-below uuid_of decode r w h = elim (authorize_cases uuid_of r w) [
  | inl (e, granted) ↦ by_body e (decode (readable r)) refl
  | inr (status, e, inl f) ↦
      let answer = ap (λ (q : ℕ × World). q.0) (callback_refused uuid_of r w decode e) in
      absurd (ground arith)
  | inr (status, e, inr f) ↦
      let answer = ap (λ (q : ℕ × World). q.0) (callback_refused uuid_of r w decode e) in
      absurd (ground arith)
]
  where
    by_body :
        (authorize uuid_of r w).0 ≡ none
        → (o : Option Callback) → decode (readable r) ≡ o
        → (handle_callback uuid_of decode r w).0 ≡ 204
    by_body e none k = absurd (unfold handle_callback in ground arith)
    by_body e (some cb) k =
        let run : handle_callback uuid_of decode r w ≡ sync cb (authorize uuid_of r w).1 =
          unfold handle_callback in rw (e, handle_callback, k) refl in
        let status = ap (λ (q : ℕ × World). q.0) run in
        status ∙ sync-below cb (authorize uuid_of r w).1 (subst (λ n. ltb n 300 ≡ true) status h)

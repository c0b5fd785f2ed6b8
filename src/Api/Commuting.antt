-- ===== src/Api/Commuting.antt =====
-- The callback of an agent against the daemon's record of the same delivery. An agent may call back
-- before dispatchOne of internal/scp/daemon/dispatcher.go has written how the delivery ended.
use secret_control_panel.Base.{
  Bool-cases, ◌==◌, nat_eq, ℕ, ◌≡◌, refl, ap, ◌∙◌, inl, inr, List, [], ◌∷◌,
}
use secret_control_panel.Text.{str_eq}
use secret_control_panel.Wire.{Time, Callback}
use secret_control_panel.Db.{Db, EventRow}
use secret_control_panel.Db.World.{World}
use secret_control_panel.Daemon.Store.{PendingEvent, update_event}
use secret_control_panel.Daemon.Dispatcher.{dispatch_one}
use secret_control_panel.Daemon.Dispatcher.Rows.{Moved, fails, delivers, Tried, dispatch_one-Tried}
use secret_control_panel.Api.{is_of, set_synced, sync_events}

-- The database after the UPDATE of ApplyCallback at the time `now`.
abbrev pub synced_db : Time → Callback → Db → Db
synced_db now cb db = record db { events = sync_events now cb db.events }

module _ (now : Time) (cb : Callback) where
  -- An update of other columns.
  sync-update :
      (id : ℕ) (f : EventRow → EventRow)
      → ((e : EventRow) → is_of cb (f e) ≡ is_of cb e)
      → ((e : EventRow) → set_synced now cb (f e) ≡ f (set_synced now cb e))
      → ((e : EventRow) → (set_synced now cb e).id ≡ e.id)
      → (events : List EventRow)
      → sync_events now cb (update_event id f events)
        ≡ update_event id f (sync_events now cb events)
  unfolding sync_events update_event
  sync-update id f of commute keep [] = refl
  sync-update id f of commute keep (e ∷ events) = elim (Bool-cases (is_of cb e)) [
    | inl own ↦ elim (Bool-cases (e.id == id)) [
      | inl hit ↦
          rw (hit, own, of e, own, hit, sync-update id f of commute keep events)
            (ap (λ r. r ∷ update_event id f (sync_events now cb events)) (commute e))
      | inr miss ↦ rw (miss, own, miss, sync-update id f of commute keep events) refl
    ]
    | inr other ↦ elim (Bool-cases (e.id == id)) [
      | inl hit ↦ rw (hit, other, of e, other, hit, sync-update id f of commute keep events) refl
      | inr miss ↦ rw (miss, other, miss, sync-update id f of commute keep events) refl
    ]
  ]

  Moved-synced :
      (ev : PendingEvent) (old new : Db)
      → Moved ev old new
      → Moved ev (synced_db now cb old) (synced_db now cb new)
  Moved-synced ev old new (fails next e) = fails next (
      ap (synced_db now cb) e
      ∙ ap (λ es. record old { events = es })
          (sync-update ev.id _ (λ r. refl) (λ r. refl) (λ r. refl) old.events))
  Moved-synced ev old new (delivers at e) = delivers at (
      ap (synced_db now cb) e
      ∙ ap (λ es. record old { events = es })
          (sync-update ev.id _ (λ r. refl) (λ r. refl) (λ r. refl) old.events))

  -- A callback may come before dispatchOne has recorded its outcome: however the calls of
  -- dispatchOne end, what the UPDATE of a callback after it leaves is an outcome of dispatchOne on
  -- the table in which that UPDATE is already written. So in either order the report of the agent and
  -- the state of the delivery are both there.
  pub dispatch_one-synced :
      (ev : PendingEvent) (w : World)
      → Tried ev (synced_db now cb w.db) (synced_db now cb (dispatch_one ev w).1.db)
  dispatch_one-synced ev w = elim (dispatch_one-Tried ev w) [
    | inl e ↦ inl (ap (synced_db now cb) e)
    | inr m ↦ inr (Moved-synced ev w.db (dispatch_one ev w).1.db m)
  ]

-- ===== src/Daemon/Store/Inserts.antt =====
-- What the loop of FanoutTask over the clusters does to the events.
use mathlib.Core.List.{append_assoc, append-nil}
use secret_control_panel.Base.{
  Bool-cases, nat_eq, eq_refl, length, any, All, Result, ok, ℕ, suc, ◌+◌, ◌≡◌, refl, sym, ap, subst,
  ◌∙◌, inl, inr, Bool, true, false, ◌||◌, List, [], ◌∷◌, ◌++◌, Memᴰ, arith,
}
use secret_control_panel.Text.{Str, str_eq}
use secret_control_panel.Wire.{Time, SecretEvent}
use secret_control_panel.Db.{Db, EventRow}
use secret_control_panel.Db.World.{World, Error, insert_event, statement}
use secret_control_panel.Db.Steps.{bind-ok, statement-ok}
use secret_control_panel.Daemon.Store.{is_for, pending_row, insert_event_row, insert_events}

abbrev pub has_event : Str → Str → List EventRow → Bool
has_event request_id cluster = any (is_for request_id cluster)

pub any-append {ℓ} :
    {A : Type ℓ} (p : A → Bool) (xs ys : List A) → any p (xs ++ ys) ≡ (any p xs || any p ys)
any-append p [] ys = refl
any-append p (x ∷ xs) ys = ground (arith, any-append p xs ys)

-- A row that the fanout of `ev` to `clusters` may add to `events`: pending, for one of the clusters
-- that had no event of the request.
abbrev pub IsAdded : Time → SecretEvent → List Str → List EventRow → EventRow → Type 0
IsAdded now ev clusters events e =
    (e ≡ pending_row now ev e.cluster e.id)
    × Memᴰ e.cluster clusters
    × (has_event ev.request_id e.cluster events ≡ false)

-- The events after the inserts: the old ones and `added` behind them, and an event for every cluster.
pub record Fanned (now : Time) (ev : SecretEvent) (clusters : List Str) (old new : Db)
    (added : List EventRow) : Type 0 where
  pub events : new.events ≡ old.events ++ added
  pub fresh : All (IsAdded now ev clusters old.events) added
  pub covered : All (λ c. has_event ev.request_id c new.events ≡ true) clusters
  pub others : new ≡ record old { events = new.events; next_event_id = new.next_event_id }

module _ (now : Time) (ev : SecretEvent) where
  insert_old :
      (c : Str) (db : Db)
      → has_event ev.request_id c db.events ≡ true
      → insert_event_row now ev c db ≡ (0, record db { next_event_id = suc db.next_event_id })
  unfolding insert_event_row
  insert_old c db h = rw h

  insert_new :
      (c : Str) (db : Db)
      → has_event ev.request_id c db.events ≡ false
      → insert_event_row now ev c db ≡ (
        1,
        record db {
          next_event_id = suc db.next_event_id;
          events = db.events ++ pending_row now ev c db.next_event_id ∷ [];
        },
      )
  unfolding insert_event_row
  insert_new c db h = rw h

  kept_covered :
      (c : Str) (xs ys zs : List EventRow)
      → ys ≡ xs ++ zs
      → has_event ev.request_id c xs ≡ true
      → has_event ev.request_id c ys ≡ true
  kept_covered c xs ys zs e h = rw (e, any-append (is_for ev.request_id c) xs zs, h)

  kept_missing :
      (c : Str) (xs ys zs : List EventRow)
      → ys ≡ xs ++ zs
      → has_event ev.request_id c ys ≡ false
      → has_event ev.request_id c xs ≡ false
  kept_missing c xs ys zs e h =
      let whole : (has_event ev.request_id c xs || has_event ev.request_id c zs) ≡ false =
        sym (any-append (is_for ev.request_id c) xs zs) ∙ rw e at h in
      ground arith

  widen :
      (c : Str) (cs : List Str) (xs ys zs : List EventRow)
      → ys ≡ xs ++ zs
      → (added : List EventRow) → All (IsAdded now ev cs ys) added
      → All (IsAdded now ev (c ∷ cs) xs) added
  widen c cs xs ys zs e [] h = tt
  widen c cs xs ys zs e (a ∷ added) ((same, m, missing), h) = (
    (same, Memᴰ.tail m, kept_missing a.cluster xs ys zs e missing),
    widen c cs xs ys zs e added h,
  )

  fan_old :
      (c : Str) (cs : List Str) (db new : Db) (added : List EventRow)
      → has_event ev.request_id c db.events ≡ true
      → Fanned now ev cs (record db { next_event_id = suc db.next_event_id }) new added
      → Fanned now ev (c ∷ cs) db new added
  fan_old c cs db new added h f = record {
    events = f.events;
    fresh = widen c cs db.events db.events [] (sym (append-nil db.events)) added f.fresh;
    covered = (kept_covered c db.events new.events added f.events h, f.covered);
    others = f.others;
  }

  fan_new :
      (c : Str) (cs : List Str) (db new : Db) (added : List EventRow)
      → has_event ev.request_id c db.events ≡ false
      → Fanned now ev cs
          (record db {
            next_event_id = suc db.next_event_id;
            events = db.events ++ pending_row now ev c db.next_event_id ∷ [];
          })
          new
          added
      → Fanned now ev (c ∷ cs) db new (pending_row now ev c db.next_event_id ∷ added)
  fan_new c cs db new added h f =
      let row = pending_row now ev c db.next_event_id in
      record {
        events = f.events ∙ append_assoc db.events (row ∷ []) added;
        fresh = (
          (refl, Memᴰ.head refl, h),
          widen c cs db.events (db.events ++ row ∷ []) (row ∷ []) refl added f.fresh,
        );
        covered = (
          kept_covered c (db.events ++ row ∷ []) new.events added f.events (
              any-append (is_for ev.request_id c) db.events (row ∷ [])
              ∙ rw (h, eq_refl ev.request_id, eq_refl c)),
          f.covered,
        );
        others = f.others;
      }

  -- One insert in front of those for the other clusters.
  fan_one :
      (c : Str) (cs : List Str) (db d new : Db) (affected : ℕ) (added : List EventRow)
      → affected ≡ (insert_event_row now ev c db).0
      → d ≡ (insert_event_row now ev c db).1
      → Fanned now ev cs d new added
      → (added' : List EventRow) × Fanned now ev (c ∷ cs) db new added'
        × (affected + length added ≡ length added')
  fan_one c cs db d new affected added n e f =
      elim (Bool-cases (has_event ev.request_id c db.events)) [
        | inl old ↦
            let row = insert_old c db old in
            (
              added,
              fan_old c cs db new added old
                  (subst (λ t. Fanned now ev cs t new added) (e ∙ ap (λ (r : ℕ × Db). r.1) row) f),
              omega (arith, n ∙ ap (λ (r : ℕ × Db). r.0) row),
            )
        | inr none_yet ↦
            let row = insert_new c db none_yet in
            (
              pending_row now ev c db.next_event_id ∷ added,
              fan_new c cs db new added none_yet
                  (subst (λ t. Fanned now ev cs t new added) (e ∙ ap (λ (r : ℕ × Db). r.1) row) f),
              omega (arith, n ∙ ap (λ (r : ℕ × Db). r.0) row),
            )
      ]

  pub insert_events-ok :
      (cs : List Str) (count : ℕ) (w : World) {total : ℕ}
      → (insert_events now ev cs count w).0 ≡ ok total
      → (added : List EventRow) × Fanned now ev cs w.db (insert_events now ev cs count w).1.db added
        × (total ≡ count + length added)
  unfolding insert_events
  insert_events-ok [] count w h = (
    [],
    record { events = sym (append-nil w.db.events); fresh = tt; covered = tt; others = refl },
    ground arith,
  )
  insert_events-ok (c ∷ cs) count w {total} h =
      let insert = statement (insert_event c) (insert_event_row now ev c) in
      let (affected, first, whole) =
        bind-ok insert (λ n. insert_events now ev cs (count + n)) w h in
      let (number, db) = statement-ok (insert_event c) (insert_event_row now ev c) w first in
      let w' = (insert w).1 in
      let rest : (insert_events now ev cs (count + affected) w').0 ≡ ok total =
        sym (ap (λ (r : Result Error ℕ × World). r.0) whole) ∙ h in
      let (added, f, sum) = insert_events-ok cs (count + affected) w' rest in
      let final = (insert_events now ev cs (count + affected) w').1.db in
      let (added', f', more) = fan_one c cs w.db w'.db final affected added number db f in
      (
        added',
        subst (λ (r : Result Error ℕ × World). Fanned now ev (c ∷ cs) w.db r.1.db added')
            (sym whole) f',
        omega arith,
      )

-- ===== src/Listener/Watermark.antt =====
-- The versions table as a watermark per path.
use mathlib.Core.Path.{subst₂}
use secret_control_panel.Base.{
  if◌then◌else◌, ◌==◌, nat_eq, eq_iff, eq_refl, ◌≤ℤ◌, ℤ, ok, ℕ, ◌≡◌, refl, ap, subst, ◌∙◌, inl, inr,
  Bool, true, false, ◌&&◌, Option, none, some, List, [], ◌∷◌, arith,
}
use secret_control_panel.Text.{Str, str_eq}
use secret_control_panel.Wire.{SecretEvent}
use secret_control_panel.Db.{Db, VersionRow, rollback}
use secret_control_panel.Db.World.{World, after_call}
use secret_control_panel.Listener.{IngestResult, inserted, version_of, upsert, is_old, ingest, pump}
use secret_control_panel.Listener.Outcomes.{Outcome, stale, duplicate, queued, ingest-Outcome}
use secret_control_panel.Listener.Atomic.{ingest_atomic}

pub version_of-upsert :
    (m p mount path : Str) (v : ℤ) (vs : List VersionRow)
    → version_of m p (upsert mount path v vs)
      ≡ (if mount == m && path == p then some v else version_of m p vs)
unfolding version_of upsert
version_of-upsert m p mount path v [] = ground arith
version_of-upsert m p mount path v (r ∷ vs) = ground (
  arith,
  eq_iff r.mount mount,
  eq_iff r.path path,
  eq_iff r.mount m,
  eq_iff r.path p,
  eq_iff mount m,
  eq_iff path p,
  version_of-upsert m p mount path v vs,
)

-- The watermark of a path in a database.
abbrev pub watermark : Str → Str → Db → Option ℤ
watermark mount path db = version_of mount path db.versions

-- The watermark `a` is at most `b`; a path with no watermark is below every other.
abbrev pub AtMost : Option ℤ → Option ℤ → Type 0
AtMost none o = Unit
AtMost (some a) none = ⊥
AtMost (some a) (some b) = a ≤ℤ b

AtMost-refl : (o : Option ℤ) → AtMost o o
AtMost-refl none = tt
AtMost-refl (some a) = omega arith

AtMost-trans : (a b c : Option ℤ) → AtMost a b → AtMost b c → AtMost a c
AtMost-trans none b c h k = tt
AtMost-trans (some a) (some b) (some c) h k = omega arith
AtMost-trans (some a) (some b) none h k = k
AtMost-trans (some a) none c h k = absurd h

advances :
    (m p : Str) (ev : SecretEvent) (vs : List VersionRow)
    → is_old (version_of ev.mount ev.path vs) ev ≡ false
    → AtMost (version_of m p vs) (version_of m p (upsert ev.mount ev.path ev.version vs))
advances m p ev vs newer =
    rw (version_of-upsert m p ev.mount ev.path ev.version vs)
      (by_key (ev.mount == m) (ev.path == p) refl refl)
  where
    above : (o : Option ℤ) → is_old o ev ≡ false → AtMost o (some ev.version)
    above none h = tt
    above (some v) h = ground arith

    by_key :
        (a b : Bool)
        → (ev.mount == m) ≡ a
        → (ev.path == p) ≡ b
        → AtMost (version_of m p vs) (if a && b then some ev.version else version_of m p vs)
    by_key true true e f = above (version_of m p vs) (
        subst (λ k. is_old (version_of k p vs) ev ≡ false) ((eq_iff ev.mount m).0 e)
          (subst (λ k. is_old (version_of ev.mount k vs) ev ≡ false) ((eq_iff ev.path p).0 f)
            newer))
    by_key true false e f = AtMost-refl (version_of m p vs)
    by_key false b e f = AtMost-refl (version_of m p vs)

-- Whatever Ingest does and whichever of its calls fail, no path's watermark goes down.
pub ingest-watermark :
    (ev : SecretEvent) (w : World) (mount path : Str)
    → AtMost (watermark mount path w.db) (watermark mount path (ingest ev w).1.db)
ingest-watermark ev w m p = elim (ingest_atomic ev w) [
  | inl same ↦ kept (ingest ev w).1.db (unfold rollback in ap mark same)
  | inr (r, out) ↦ by_outcome (ingest ev w).1.db out
]
  where
    mark : Db → Option ℤ
    mark = watermark m p

    kept : (db' : Db) → mark db' ≡ mark w.db → AtMost (mark w.db) (mark db')
    kept db' e = rw e (AtMost-refl (mark w.db))

    by_outcome :
        (db' : Db) {r : IngestResult}
        → Outcome (after_call w).clock ev w.db db' r
        → AtMost (mark w.db) (mark db')
    by_outcome db' (stale v _ _ e) = kept db' (ap mark e)
    by_outcome db' (duplicate newer _ e) = rw (ap mark e) (advances m p ev w.db.versions newer)
    by_outcome db' (queued newer _ e) = rw (ap mark e) (advances m p ev w.db.versions newer)

pub pump-watermark :
    (evs : List SecretEvent) (w : World) (mount path : Str)
    → AtMost (watermark mount path w.db) (watermark mount path (pump evs w).1.db)
unfolding pump
pump-watermark [] w m p = AtMost-refl (watermark m p w.db)
pump-watermark (ev ∷ evs) w m p =
    AtMost-trans (watermark m p w.db) (watermark m p (ingest ev w).1.db)
      (watermark m p (pump evs (ingest ev w).1).1.db) (ingest-watermark ev w m p)
      (pump-watermark evs (ingest ev w).1 m p)

inserted-watermark :
    (now : ℕ) (ev : SecretEvent) (db db' : Db)
    → Outcome now ev db db' inserted
    → watermark ev.mount ev.path db' ≡ some ev.version
inserted-watermark now ev db db' (queued _ _ e) =
    ap (watermark ev.mount ev.path) e
    ∙ version_of-upsert ev.mount ev.path ev.mount ev.path ev.version db.versions
    ∙ rw (eq_refl ev.mount, eq_refl ev.path)

inserted-newer :
    (now : ℕ) (ev : SecretEvent) (db db' : Db)
    → Outcome now ev db db' inserted
    → is_old (watermark ev.mount ev.path db) ev ≡ false
inserted-newer now ev db db' (queued newer _ _) = newer

not_old-above :
    (v : ℤ) (o : Option ℤ) (ev : SecretEvent)
    → AtMost (some v) o
    → is_old o ev ≡ false
    → ¬ (ev.version ≤ℤ v)
not_old-above v none ev h n = absurd h
not_old-above v (some u) ev h n = ground arith

-- Two events of one path that are both queued, the second after any number of others and whatever
-- calls fail between, have versions that increase: no version of a secret is queued twice, and
-- none after a newer one.
pub queued_versions_increase :
    (ev ev' : SecretEvent) (evs : List SecretEvent) (w : World)
    → ev'.mount ≡ ev.mount
    → ev'.path ≡ ev.path
    → (ingest ev w).0 ≡ ok inserted
    → (ingest ev' (pump evs (ingest ev w).1).1).0 ≡ ok inserted
    → ¬ (ev'.version ≤ℤ ev.version)
queued_versions_increase ev ev' evs w em ep h k =
    not_old-above ev.version (watermark ev.mount ev.path between.db) ev' above newer
  where
    between : World
    between = (pump evs (ingest ev w).1).1

    above : AtMost (some ev.version) (watermark ev.mount ev.path between.db)
    above =
        subst (λ o. AtMost o (watermark ev.mount ev.path between.db))
          (inserted-watermark (after_call w).clock ev w.db (ingest ev w).1.db
            (ingest-Outcome ev w h))
          (pump-watermark evs (ingest ev w).1 ev.mount ev.path)

    newer : is_old (watermark ev.mount ev.path between.db) ev' ≡ false
    newer =
        subst₂ (λ mo pa. is_old (watermark mo pa between.db) ev' ≡ false) em ep
          (inserted-newer (after_call between).clock ev' between.db (ingest ev' between).1.db
            (ingest-Outcome ev' between k))

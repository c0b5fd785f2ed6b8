-- ===== src/Listener/Interleaved.antt =====
-- Concurrent calls of Ingest for one path (internal/scp/listener/store.go), as interleaved steps of
-- their transactions. By PostgreSQL's documentation SELECT … FOR UPDATE locks the row that it finds
-- until the end of the transaction, and waits while another one has it; it locks nothing where there
-- is no row; and ON CONFLICT DO UPDATE waits for the lock too.
pub mod Alone
pub mod Overtaking
use mathlib.Core.Path.{subst₂}
use secret_control_panel.Base.{
  ltb, leb, nat_beq, if◌then◌else◌, leb_iff, nat_beq_iff, Bool-cases, Option-cases, is_some, ◌==◌,
  ◌!=◌, nat_eq, eq_iff, eq_refl, ne_of_beq, beq_of_ne, list_beq, list_beq_iff, Eq, length, take,
  any, all, filter, find?, All, length-append, All-append, All-mem, All-of-mem, All-perm, mem-perm,
  All-take, All-map, mem-filter, mem_of-filter, length-filter-le, length-filter-lt, pos_part,
  neg_part, ◌≤ℤ◌, leb_ℤ, ℤ, pos, negsuc, ◌>>=◌, ◌>>◌, >>=-ok, Result, ok, err, Pairs, Pairs-take,
  Pairs-filter, Pairs-perm, Pairs-map, Pairs-of-map, Pairs-eq, Pairs-append-one, ℕ, zero, suc, ◌+◌,
  ◌-◌, ◌*◌, ◌%◌, ◌^◌, ◌≤◌, ◌<◌, min, max, ◌≡◌, refl, sym, ap, subst, ◌∙◌, ◌≢◌, ◌↔◌, ◌⊎◌, inl, inr,
  Bool, true, false, false≢true, not, ◌&&◌, ◌||◌, Option, none, some, List, [], ◌∷◌, ◌++◌, map,
  reverse, Memᴰ, Permᴰ, le_antisymm, le_trans, le_refl, arith,
}
use secret_control_panel.Wire.{SecretEvent}
use secret_control_panel.Listener.{is_old}

-- How far a call has come: before the SELECT, after the check of the version, or at its end.
pub data Stage : Type 0 where
  ready : SecretEvent → Stage
  checked : SecretEvent → Stage
  ended : Stage

-- The committed version of the path, the call that holds the lock on its row, and the calls.
pub record Race : Type 0 where
  pub stored : Option ℤ
  pub holder : Option ℕ
  pub stage : ℕ → Stage

abbrev pub move_to : ℕ → Stage → (ℕ → Stage) → ℕ → Stage
move_to i st stage j = if j == i then st else stage j

-- The end of a transaction gives its lock back.
abbrev pub unlock : ℕ → Option ℕ → Option ℕ
unlock i none = none
unlock i (some k) = if k == i then none else some k

-- One step of call `i`. The upsert, the insert of the task and the commit are one step: until the
-- commit, other calls see and wait for what they would before it.
pub data Turn (s : Race) : Race → Type 0 where
  lock :
      (i : ℕ) (ev : SecretEvent) (v : ℤ)
      → s.stage i ≡ ready ev
      → s.stored ≡ some v
      → s.holder ≡ none
      → is_old (some v) ev ≡ false
      → Turn s (record s { holder = some i; stage = move_to i (checked ev) s.stage })
  drop :
      (i : ℕ) (ev : SecretEvent) (v : ℤ)
      → s.stage i ≡ ready ev
      → s.stored ≡ some v
      → s.holder ≡ none
      → is_old (some v) ev ≡ true
      → Turn s (record s { stage = move_to i ended s.stage })
  find_none :
      (i : ℕ) (ev : SecretEvent)
      → s.stage i ≡ ready ev
      → s.stored ≡ none
      → Turn s (record s { stage = move_to i (checked ev) s.stage })
  write :
      (i : ℕ) (ev : SecretEvent)
      → s.stage i ≡ checked ev
      → unlock i s.holder ≡ none
      → Turn s (record { stored = some ev.version; holder = none; stage = move_to i ended s.stage })
  roll_back :
      (i : ℕ) (ev : SecretEvent)
      → s.stage i ≡ checked ev
      → Turn s (record s { holder = unlock i s.holder; stage = move_to i ended s.stage })

pub data Turns (s : Race) : Race → Type 0 where
  start : Turns s s
  turn : {t u : Race} → Turns s t → Turn t u → Turns s u

-- The path has a row with a version from `low` on, and a call that has passed the check holds the
-- lock on it and is newer.
record IsGuarded (low : ℤ) (s : Race) : Type 0 where
  current : ℤ
  is_stored : s.stored ≡ some current
  above : low ≤ℤ current
  locked :
      (i : ℕ) (ev : SecretEvent)
      → s.stage i ≡ checked ev
      → (s.holder ≡ some i) × (is_old (some current) ev ≡ false)

-- A call that is checked after `i` has moved on is another one, or `i` itself.
moved_on :
    (i j : ℕ) (st : Stage) (stage : ℕ → Stage) (ev : SecretEvent)
    → move_to i st stage j ≡ checked ev
    → ((j ≡ i) × (st ≡ checked ev)) ⊎ ((j ≢ i) × (stage j ≡ checked ev))
moved_on i j st stage ev h = elim (Bool-cases (j == i)) [
  | inl hit ↦ inl ((eq_iff j i).0 hit, rw hit at h)
  | inr miss ↦ inr (ne_of_beq j i miss, rw miss at h)
]

ended-checked : {ev : SecretEvent} → ended ≢ checked ev
ended-checked e = absurd (ground arith)

newer-le : (v : ℤ) (ev : SecretEvent) → is_old (some v) ev ≡ false → v ≤ℤ ev.version
newer-le v ev h = ground arith

checked_event : {a b : SecretEvent} → checked a ≡ checked b → a ≡ b
checked_event e = ground arith

same_version : {a b : ℤ} → Path (Option ℤ) (some a) (some b) → a ≡ b
same_version e = ground arith

unlock-other : (i j : ℕ) (holder : Option ℕ) → j ≢ i → holder ≡ some j → unlock i holder ≡ some j
unlock-other i j holder other e = ap (unlock i) e ∙ rw (beq_of_ne j i other) refl

module _ (low : ℤ) where
  Turn-IsGuarded : (s t : Race) → Turn s t → IsGuarded low s → IsGuarded low t
  Turn-IsGuarded s t (lock i ev v st is_v free new) h = record {
    current = h.current;
    is_stored = h.is_stored;
    above = h.above;
    locked = λ j q k. elim (moved_on i j (checked ev) s.stage q k) [
      | inl (same, e) ↦ (
        ap some (sym same),
        subst₂ (λ x (r : SecretEvent). is_old (some x) r ≡ false)
            (same_version (sym is_v ∙ h.is_stored)) (checked_event e) new,
      )
      | inr (other, e) ↦ absurd (let held = (h.locked j q e).0 in ground arith)
    ];
  }
  Turn-IsGuarded s t (drop i ev v st is_v free old) h = record {
    current = h.current;
    is_stored = h.is_stored;
    above = h.above;
    locked = λ j q k. elim (moved_on i j ended s.stage q k) [
      | inl (same, e) ↦ absurd (ended-checked e)
      | inr (other, e) ↦ h.locked j q e
    ];
  }
  Turn-IsGuarded s t (find_none i ev st empty) h = absurd (let there = h.is_stored in ground arith)
  Turn-IsGuarded s t (write i ev st free) h = record {
    current = ev.version;
    is_stored = refl;
    above =
        let le = h.above in let newer = newer-le h.current ev (h.locked i ev st).1 in omega arith;
    locked = λ j q k. elim (moved_on i j ended s.stage q k) [
      | inl (same, e) ↦ absurd (ended-checked e)
      | inr (other, e) ↦
          absurd (let held = unlock-other i j s.holder other (h.locked j q e).0 in ground arith)
    ];
  }
  Turn-IsGuarded s t (roll_back i ev st) h = record {
    current = h.current;
    is_stored = h.is_stored;
    above = h.above;
    locked = λ j q k. elim (moved_on i j ended s.stage q k) [
      | inl (same, e) ↦ absurd (ended-checked e)
      | inr (other, e) ↦
          let (held, new) = h.locked j q e in (unlock-other i j s.holder other held, new)
    ];
  }

  Turns-IsGuarded : (s t : Race) → Turns s t → IsGuarded low s → IsGuarded low t
  Turns-IsGuarded s t start h = h
  Turns-IsGuarded s t (turn {t = m} before step) h =
      Turn-IsGuarded m t step (Turns-IsGuarded s m before h)

-- Where the path has a row, concurrent calls of Ingest are safe: from a state in which no call has
-- passed its check, whatever their number and however they interleave and fail, the stored version of
-- the path never goes back.
pub raced-AtLeast :
    (low : ℤ) (s t : Race)
    → s.stored ≡ some low
    → ((i : ℕ) (ev : SecretEvent) → s.stage i ≢ checked ev)
    → Turns s t
    → (v : ℤ) × (t.stored ≡ some v) × (low ≤ℤ v)
raced-AtLeast low s t h none_checked run =
    let g = Turns-IsGuarded low s t run (record {
      current = low;
      is_stored = h;
      above = omega arith;
      locked = λ i ev e. absurd (none_checked i ev e);
    }) in
    (g.current, g.is_stored, g.above)

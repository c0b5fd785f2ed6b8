-- ===== src/Listener/Interleaved/Overtaking.antt =====
-- Concurrent first calls of Ingest for a path.
use secret_control_panel.Base.{nat_eq, eq_refl, beq_of_ne, ℕ, ◌≡◌, refl, sym, ◌∙◌, ◌≢◌, none, some}
use secret_control_panel.Wire.{SecretEvent}
use secret_control_panel.Listener.Interleaved.{
  Stage, ready, checked, ended, Race, move_to, find_none, write, Turns, start, turn,
}

stays : (i j : ℕ) (st : Stage) (stage : ℕ → Stage) → j ≢ i → move_to i st stage j ≡ stage j
stays i j st stage other = rw (beq_of_ne j i other) refl

moves : (i : ℕ) (st : Stage) (stage : ℕ → Stage) → move_to i st stage i ≡ st
moves i st stage = rw (eq_refl i) refl

-- Where the path has no row yet, they are not: of any two calls, the first can commit its version and
-- be overwritten by the other's, also when that version is the older one.
pub first_calls-overtake :
    (s : Race) (i j : ℕ) (a b : SecretEvent)
    → i ≢ j
    → s.stored ≡ none
    → s.holder ≡ none
    → s.stage i ≡ ready a
    → s.stage j ≡ ready b
    → (t u : Race) × Turns s t
      × (t.stored ≡ some a.version)
      × Turns t u
      × (u.stored ≡ some b.version)
first_calls-overtake s i j a b apart empty free ri rj = (
  one_written,
  both_written,
  turn
      (turn (turn start (find_none i a ri empty))
        (find_none j b (stays i j (checked a) s.stage back ∙ rj) empty))
      (write i a (stays j i (checked b) one_checked apart ∙ moves i (checked a) s.stage)
        (rw free refl)),
  refl,
  turn start (write j b (stays i j ended both_checked back ∙ moves j (checked b) one_checked) refl),
  refl,
)
  where
    back : j ≢ i
    back e = apart (sym e)

    one_checked : ℕ → Stage
    one_checked = move_to i (checked a) s.stage

    both_checked : ℕ → Stage
    both_checked = move_to j (checked b) one_checked

    one_written : Race
    one_written = record {
      stored = some a.version;
      holder = none;
      stage = move_to i ended both_checked;
    }

    both_written : Race
    both_written = record {
      stored = some b.version;
      holder = none;
      stage = move_to j ended (move_to i ended both_checked);
    }

-- ===== src/Text/Order.antt =====
-- `<` on strings is a strict total order.
use mathlib.Core.Path.{ap₂}
use secret_control_panel.Base.{nat_eq, ◌≡◌, refl, sym, true, false, false≢true, [], ◌∷◌, arith}
use secret_control_panel.Text.{Str, str_lt}

pub str_lt-asymm : (s t : Str) → str_lt s t ≡ true → str_lt t s ≡ false
unfolding str_lt
str_lt-asymm [] [] h = refl
str_lt-asymm [] (y ∷ t) h = refl
str_lt-asymm (x ∷ s) [] h = absurd (false≢true h)
str_lt-asymm (x ∷ s) (y ∷ t) h = ground (arith, str_lt-asymm s t)

pub str_lt-connex : (s t : Str) → str_lt s t ≡ false → str_lt t s ≡ false → s ≡ t
unfolding str_lt
str_lt-connex [] [] h k = refl
str_lt-connex [] (y ∷ t) h k = absurd (false≢true (sym h))
str_lt-connex (x ∷ s) [] h k = absurd (false≢true (sym k))
str_lt-connex (x ∷ s) (y ∷ t) h k =
    ap₂ ◌∷◌ (ground arith) (str_lt-connex s t (ground arith) (ground arith))

pub str_lt_trans : (s t u : Str) → str_lt s t ≡ true → str_lt t u ≡ true → str_lt s u ≡ true
unfolding str_lt
str_lt_trans [] [] u h k = k
str_lt_trans [] (y ∷ t) [] h k = k
str_lt_trans [] (y ∷ t) (z ∷ u) h k = refl
str_lt_trans (x ∷ s) [] u h k = absurd (false≢true h)
str_lt_trans (x ∷ s) (y ∷ t) [] h k = k
str_lt_trans (x ∷ s) (y ∷ t) (z ∷ u) h k = ground (arith, str_lt_trans s t u)

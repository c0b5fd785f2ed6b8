-- ===== src/Base/Results.antt =====
-- Fallible code: a value or an error, chained by `do`.
use mathlib.Core.Path.{◌≡◌, refl}

pub data Result {ℓ} (E A : Type ℓ) : Type ℓ where
  ok : A → Result E A
  err : E → Result E A

infixl 5 ◌>>=◌ ◌>>◌
abbrev pub ◌>>=◌ {ℓ} : {E A B : Type ℓ} → Result E A → (A → Result E B) → Result E B
ok a >>= f = f a
err e >>= f = err e

abbrev pub ◌>>◌ {ℓ} : {E A B : Type ℓ} → Result E A → Result E B → Result E B
m >> k = m >>= λ _. k

-- A chain that succeeds has succeeded at its first step and at the rest.
pub >>=-ok {ℓ} :
    {E A B : Type ℓ} (first : Result E A) (rest : A → Result E B) {whole : B}
    → (first >>= rest) ≡ ok whole
    → (mid : A) × (first ≡ ok mid) × (rest mid ≡ ok whole)
>>=-ok (ok mid) rest h = (mid, refl, h)
>>=-ok (err e) rest h = cc

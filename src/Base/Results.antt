-- ===== src/Base/Results.antt =====
-- Values or thrown errors, with the bind that `do` blocks use.
use mathlib.Core.Path.{◌≡◌, refl}

pub data Result {ℓ} (E : Type 0) (A : Type ℓ) : Type ℓ where
  ok : A → Result E A
  err : E → Result E A

module _ {ℓ κ} {E : Type 0} {A : Type ℓ} {B : Type κ} where
  infixl 5 ◌>>=◌
  abbrev pub ◌>>=◌ : Result E A → (A → Result E B) → Result E B
  err thrown >>= _ = err thrown
  ok value >>= next = next value

  -- What a successful bind came from.
  pub bind-eq-ok :
      (r : Result E A) (next : A → Result E B) {last : B}
      → r >>= next ≡ ok last
      → (value : A) × (r ≡ ok value) × (next value ≡ ok last)
  bind-eq-ok (err thrown) next e = cc
  bind-eq-ok (ok value) next e = (value, refl, e)

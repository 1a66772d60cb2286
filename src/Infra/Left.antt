-- ===== src/Infra/Left.antt =====
-- What the collectors of lib/web/infra/index.js leave is no longer than what they get.
use undici.Base.{ℕ, ◌≤◌, arith, Bool, [], ◌∷◌, Bytes, length, ◌==◌, Bool-cases, inl, inr}
use undici.Infra.{collect_fast, collect_sequence}

pub length-collect_fast :
    (char : ℕ) (text : Bytes) → length (collect_fast char text).1 ≤ length text
unfolding collect_fast
length-collect_fast char [] = omega arith
length-collect_fast char (c ∷ text) = elim (Bool-cases (c == char)) [
  | inl e ↦ rw e (omega arith)
  | inr e ↦ rw e (omega (arith, length-collect_fast char text))
]

pub length-collect_sequence :
    (p : ℕ → Bool) (text : Bytes) → length (collect_sequence p text).1 ≤ length text
unfolding collect_sequence
length-collect_sequence p [] = omega arith
length-collect_sequence p (c ∷ text) = elim (Bool-cases (p c)) [
  | inl e ↦ rw e (omega (arith, length-collect_sequence p text))
  | inr e ↦ rw e (omega arith)
]

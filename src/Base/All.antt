-- ===== src/Base/All.antt =====
-- Texts whose characters all pass a test.
use Prim.Native.Nat.{ℕ}
use mathlib.Core.Path.{◌≡◌, refl, sym, ap, ◌∙◌}
use mathlib.Core.Logic.{inl, inr}
use mathlib.Core.Bool.{Bool, true, false}
use mathlib.Core.List.{[], ◌∷◌, ◌++◌}
use native.Mathlib.Omega.{arith}
use undici.Base.Lists.{Bytes}
use undici.Base.Tests.{if◌then◌else◌, Bool-cases}

-- whether all characters pass a test
unfoldable pub all : (ℕ → Bool) → Bytes → Bool
all p [] = true
all p (c ∷ text) = if p c then all p text else false

pub all_imp :
    (p q : ℕ → Bool) (text : Bytes)
    → ((c : ℕ) → p c ≡ true → q c ≡ true)
    → all p text ≡ true
    → all q text ≡ true
unfolding all
all_imp p q [] f h = refl
all_imp p q (c ∷ text) f h = elim (Bool-cases (p c)) [
  | inl e ↦ rw (f c e) (all_imp p q text f (ap (λ b. if b then all p text else false) (sym e) ∙ h))
  | inr e ↦ absurd (ground (arith, sym (ap (λ b. if b then all p text else false) e) ∙ h))
]

pub all-append :
    (p : ℕ → Bool) (xs ys : Bytes) → all p xs ≡ true → all p ys ≡ true → all p (xs ++ ys) ≡ true
unfolding all
all-append p [] ys h k = k
all-append p (c ∷ xs) ys h k = elim (Bool-cases (p c)) [
  | inl e ↦ rw e (all-append p xs ys (ap (λ b. if b then all p xs else false) (sym e) ∙ h) k)
  | inr e ↦ absurd (ground (arith, sym (ap (λ b. if b then all p xs else false) e) ∙ h))
]

-- the first character and the rest
pub all_first : (p : ℕ → Bool) (c : ℕ) (text : Bytes) → all p (c ∷ text) ≡ true → p c ≡ true
unfolding all
all_first p c text h = elim (Bool-cases (p c)) [
  | inl e ↦ e
  | inr e ↦ absurd (ground (arith, sym (ap (λ b. if b then all p text else false) e) ∙ h))
]

pub all_rest : (p : ℕ → Bool) (c : ℕ) (text : Bytes) → all p (c ∷ text) ≡ true → all p text ≡ true
unfolding all
all_rest p c text h = ap (λ b. if b then all p text else false) (sym (all_first p c text h)) ∙ h

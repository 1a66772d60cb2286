-- ===== src/Base/Bits.antt =====
-- A mask of low ones takes the rest of a division, and a test of all small numbers by evaluation.
use Prim.Native.Nat.{
  ℕ, zero, suc, ◌+◌, ◌*◌, ◌/◌, ◌%◌, ◌≤◌, ◌<◌, min, bit_and, digits, bit_and-bitwise,
}
use mathlib.Core.Path.{◌≡◌, refl, ap}
use mathlib.Core.Bool.{Bool, true, ◌&&◌}
use native.Mathlib.Omega.{arith}

-- whether a test passes at every number below a bound
unfoldable pub passes_below : ℕ → (ℕ → Bool) → Bool
passes_below zero test = true
passes_below (suc bound) test = passes_below bound test && test bound

pub passes_below_lem :
    (bound : ℕ) (test : ℕ → Bool) (i : ℕ)
    → passes_below bound test ≡ true
    → i < bound
    → test i ≡ true
unfolding passes_below
passes_below_lem zero test i all below = absurd (omega arith)
passes_below_lem (suc bound) test i all below = ground (arith, passes_below_lem bound test i)

-- the digits that `bit_and` stands for, with the fuel last
abbrev common : ℕ → ℕ → ℕ → ℕ
common a mask fuel = digits (λ _. zero) min fuel a mask

-- Fuel that `a` does not need changes nothing.
common_more : (big a mask fuel : ℕ) → a ≤ fuel → fuel ≤ big → common a mask big ≡ common a mask fuel
common_more zero a mask zero enough more = refl
common_more zero a mask (suc fuel) enough more = absurd (omega arith)
common_more (suc big) zero mask zero enough more = refl
common_more (suc big) zero mask (suc fuel) enough more = refl
common_more (suc big) (suc a) mask zero enough more = absurd (omega arith)
common_more (suc big) (suc a) mask (suc fuel) enough more =
    omega (arith, common_more big (suc a / 2) (mask / 2) fuel (omega arith) (omega arith))

-- `bit_and` works on the last binary digits and on the others apart.
halves : (a mask : ℕ) → bit_and a mask ≡ min (a % 2) (mask % 2) + 2 * bit_and (a / 2) (mask / 2)
halves zero mask = omega (arith, bit_and-bitwise 0 mask, bit_and-bitwise 0 (mask / 2))
halves (suc a) mask =
    let half = suc a / 2 in
    let same = common_more a half (mask / 2) half (omega arith) (omega arith) in
    omega (arith, bit_and-bitwise (suc a) mask, bit_and-bitwise half (mask / 2), same)

no_mask : (fuel a : ℕ) → a ≤ fuel → bit_and a 0 ≡ 0
no_mask fuel zero enough = bit_and-bitwise 0 0
no_mask zero (suc a) enough = absurd (omega arith)
no_mask (suc fuel) (suc a) enough =
    omega (arith, halves (suc a) 0, no_mask fuel (suc a / 2) (omega arith))

last_one :
    (a mask half : ℕ) → mask ≡ 2 * half + 1 → bit_and a mask ≡ a % 2 + 2 * bit_and (a / 2) half
last_one a mask half odd =
    let shifted : mask / 2 ≡ half = omega arith in
    omega (arith, halves a mask, ap (bit_and (a / 2)) shifted)

pub bit_and-three : (a : ℕ) → bit_and a 3 ≡ a % 4
bit_and-three a = omega (
  arith,
  last_one a 3 1 refl,
  last_one (a / 2) 1 0 refl,
  no_mask (a / 2 / 2) (a / 2 / 2) (omega arith),
)

-- Three digits more at each step.
bit_and-five_ones : (a : ℕ) → bit_and a 31 ≡ a % 32
bit_and-five_ones a = omega (
  arith,
  last_one a 31 15 refl,
  last_one (a / 2) 15 7 refl,
  last_one (a / 2 / 2) 7 3 refl,
  bit_and-three (a / 2 / 2 / 2),
)

bit_and-eight_ones : (a : ℕ) → bit_and a 255 ≡ a % 256
bit_and-eight_ones a = omega (
  arith,
  last_one a 255 127 refl,
  last_one (a / 2) 127 63 refl,
  last_one (a / 2 / 2) 63 31 refl,
  bit_and-five_ones (a / 2 / 2 / 2),
)

pub bit_and-2047 : (a : ℕ) → bit_and a 2047 ≡ a % 2048
bit_and-2047 a = omega (
  arith,
  last_one a 2047 1023 refl,
  last_one (a / 2) 1023 511 refl,
  last_one (a / 2 / 2) 511 255 refl,
  bit_and-eight_ones (a / 2 / 2 / 2),
)

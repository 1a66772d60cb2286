-- ===== src/Pools/Balanced/Divisor.antt =====
-- The greatest common divisor that `BalancedPool` lowers the current weight by.
use Prim.Native.Nat.{◌∣◌}
use native.Mathlib.Nat.{dvd-mod_iff, dvd-zero, mod-lt}
use undici.Base.{
  ℕ, zero, suc, ◌%◌, ◌<◌, ◌≡◌, ◌↔◌, inl, inr, arith, false, List, [], ◌∷◌, ◌==◌, Bool-cases, ==_iff,
}
use undici.Pools.Balanced.{
  divisor_loop, get_greatest_common_divisor, divisor_of, Upstream, BalancedPool,
  update_balanced_pool_stats,
}

zero_first : (d a b : ℕ) → b ≡ 0 → (d ∣ a) ↔ ((d ∣ a) × (d ∣ b))
zero_first d a b e = (λ h. (h, rw e (dvd-zero d)), λ h. h.0)

positive : (b : ℕ) → (b == 0) ≡ false → 0 < b
positive b h = ground (arith, h)

divisor_loop_divides :
    (fuel d a b : ℕ) → b < fuel → (d ∣ divisor_loop fuel a b) ↔ ((d ∣ a) × (d ∣ b))
unfolding divisor_loop
divisor_loop_divides zero d a b h = absurd (omega (arith, h))
divisor_loop_divides (suc fuel) d a b h = elim (Bool-cases (b == 0)) [
  | inl e ↦ rw e (zero_first d a b ((==_iff b 0).0 e))
  | inr e ↦
      let less : a % b < b = mod-lt a (positive b e) in
      let more = divisor_loop_divides fuel d b (a % b) (omega (arith, less, h)) in
      rw e (
        λ k. let (l, m) = more.0 k in ((dvd-mod_iff d {m = a} {n = b} l).0 m, l),
        λ (k, l). more.1 (l, (dvd-mod_iff d {m = a} {n = b} l).1 k),
      )
]

get_greatest_common_divisor_divides :
    (d a b : ℕ) → (d ∣ get_greatest_common_divisor a b) ↔ ((d ∣ a) × (d ∣ b))
unfolding get_greatest_common_divisor
get_greatest_common_divisor_divides d a b = elim (Bool-cases (a == 0)) [
  | inl e ↦ rw e (λ h. (rw ((==_iff a 0).0 e) (dvd-zero d), h), λ h. h.1)
  | inr e ↦ rw e (divisor_loop_divides (suc b) d a b (omega arith))
]

-- A number divides every weight.
abbrev pub AllDivided : ℕ → List Upstream → Type 0
AllDivided d [] = Unit
AllDivided d (u ∷ us) = (d ∣ u.weight) × AllDivided d us

divisor_of_divides :
    (d : ℕ) (us : List Upstream) (result : ℕ)
    → (d ∣ divisor_of us result) ↔ (AllDivided d us × (d ∣ result))
unfolding divisor_of
divisor_of_divides d [] result = (λ h. (tt, h), λ h. h.1)
divisor_of_divides d (u ∷ us) result =
    let rest = divisor_of_divides d us (get_greatest_common_divisor u.weight result) in
    let one = get_greatest_common_divisor_divides d u.weight result in
    (
      λ h. let (a, b) = rest.0 h in let (c, e) = one.0 b in ((c, a), e),
      λ ((c, a), e). rest.1 (a, one.1 (c, e)),
    )

-- What the weights are lowered by is their greatest common divisor: a number divides it just if it divides the
-- weight of every upstream, and Euclid's loop always ends.
pub update_balanced_pool_stats_lem :
    (d : ℕ) (p : BalancedPool)
    → (d ∣ (update_balanced_pool_stats p).greatest_common_divisor) ↔ AllDivided d p.clients
unfolding update_balanced_pool_stats
update_balanced_pool_stats_lem d p =
    let all = divisor_of_divides d p.clients 0 in (λ h. (all.0 h).0, λ h. all.1 (h, dvd-zero d))

-- ===== src/Pools/Cycle.antt =====
-- The places of a list, taken in turn.
use native.Mathlib.Nat.{mod-eq_of_lt, mod_self}
use undici.Base.{
  ℕ, suc, ◌+◌, ◌%◌, ◌<◌, ◌≡◌, ◌⊎◌, inl, inr, ap, ◌∙◌, arith, ◌==◌, Bool-cases, ==_iff,
}

-- The place behind a place is the next one, or the first one behind the last.
pub after_place :
    (i n : ℕ) → i < n → (((i + 1) % n ≡ suc i) × (suc i < n)) ⊎ (((i + 1) % n ≡ 0) × (suc i ≡ n))
after_place i n h = elim (Bool-cases (suc i == n)) [
  | inl e ↦ inr (
    ap (λ x. x % n) {x = i + 1} {y = n} (omega (arith, (==_iff (suc i) n).0 e)) ∙ mod_self n,
    (==_iff (suc i) n).0 e,
  )
  | inr e ↦
      let less : i + 1 < n = ground (arith, e, h) in
      inl (mod-eq_of_lt less ∙ omega arith, omega (arith, less))
]

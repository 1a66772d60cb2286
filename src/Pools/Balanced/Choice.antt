-- ===== src/Pools/Balanced/Choice.antt =====
-- Which upstream `BalancedPool` chooses.
use native.Mathlib.Nat.{mod-lt}
use undici.Base.{
  ℕ, zero, suc, ◌+◌, ◌≤◌, ◌<◌, ◌≡◌, ◌⊎◌, inl, inr, refl, sym, ap, ◌∙◌, arith, true, false, ◌&&◌,
  Option, none, some, List, [], ◌∷◌, length, leb, ltb, ◌==◌, if◌then◌else◌, Bool-cases, ==_iff,
  lt_or_eq_or_gt, Result, ok, err,
}
use undici.Pools.Cycle.{after_place}
use undici.Pools.Balanced.{
  PoolError, Upstream, BalancedPool, next_index, turn, weight_at, available_at, better, seek,
  get_dispatcher,
}

next_index_below : (index : Option ℕ) (n : ℕ) → 0 < n → next_index index n < n
next_index_below none n h = h
next_index_below (some i) n h = mod-lt (i + 1) h

-- The places that a number of rounds visits, from a place on.
abbrev Visited : ℕ → ℕ → ℕ → ℕ → Type 0
Visited n first k i = ((first ≤ i) × (i < first + k)) ⊎ (i + n < first + k)

-- An available pool was found, or none so far and none at the places visited.
abbrev IsFound : List Upstream → Option ℕ → Type 0
IsFound us none = Unit
IsFound us (some m) = available_at us m ≡ true

abbrev Chosen : List Upstream → ℕ → ℕ → Option ℕ → Option ℕ → Type 0
Chosen us first k best (some i) = available_at us i ≡ true
Chosen us first k best none =
    (best ≡ none)
    × ((i : ℕ) → i < length us → Visited (length us) first k i → available_at us i ≡ false)

better-IsFound :
    (us : List Upstream) (best : Option ℕ) (i : ℕ)
    → available_at us i ≡ true
    → IsFound us best
    → IsFound us (better us best i)
unfolding better
better-IsFound us none i h k = h
better-IsFound us (some m) i h k = elim (Bool-cases (ltb (weight_at us m) (weight_at us i))) [
  | inl e ↦ rw e h
  | inr e ↦ rw e k
]

better_some : (us : List Upstream) (best : Option ℕ) (i : ℕ) → better us best i ≡ none → ⊥
unfolding better
better_some us best i h = ground (arith, h)

-- behind a round on an available pool
after_available :
    (us : List Upstream) (best : Option ℕ) (i first k : ℕ) (r : Option ℕ)
    → Chosen us first k (better us best i) r
    → Chosen us i (suc k) best r
after_available us best i first k (some j) h = h
after_available us best i first k none (e, h) = absurd (better_some us best i e)

-- A place that is visited is this one or a later one.
Visited-later :
    (n i k j : ℕ)
    → i < n
    → j < n
    → Visited n i (suc k) j
    → (j ≡ i) ⊎ Visited n (next_index (some i) n) k j
Visited-later n i k j l m' v = elim (after_place i n l) [
  | inl (e, m) ↦ rw e (ground (arith, v))
  | inr (e, m) ↦ rw e (ground (arith, v, m))
]

-- behind a round on a pool that cannot be asked
after_busy :
    (us : List Upstream) (best : Option ℕ) (i k : ℕ) (r : Option ℕ)
    → i < length us
    → available_at us i ≡ false
    → Chosen us (next_index (some i) (length us)) k best r
    → Chosen us i (suc k) best r
after_busy us best i k (some j) l a h = h
after_busy us best i k none l a (e, h) =
    (e, λ j m v. elim (Visited-later (length us) i k j l m v) [ inl q ↦ rw q a | inr w ↦ h j m w ])

seek-Chosen :
    (k : ℕ) (p : BalancedPool) (best : Option ℕ)
    → 0 < length p.clients
    → IsFound p.clients best
    → Chosen p.clients (next_index p.index (length p.clients)) k best (seek k p best).1
unfolding seek turn
seek-Chosen zero p none n f = (refl, λ i m v. absurd (ground (arith, v, m)))
seek-Chosen zero p (some m) n f = f
seek-Chosen (suc k) p best n f =
    let i = next_index p.index (length p.clients) in
    let l = next_index_below p.index (length p.clients) n in
    elim (Bool-cases (available_at p.clients i)) [
      | inl a ↦ elim (Bool-cases (leb (turn p).current_weight (weight_at p.clients i))) [
        | inl e ↦ rw (a, e) a
        | inr e ↦
            rw (a, e)
              (after_available p.clients best i _ k _ (
                seek-Chosen k (turn p) (better p.clients best i) n
                  (better-IsFound p.clients best i a f)))
      ]
      | inr a ↦ rw a (after_busy p.clients best i k _ l a (seek-Chosen k (turn p) best n f))
    ]

-- What a choice leaves: the pools as they are, the index at the chosen one, and its weight reached.
abbrev Settled : BalancedPool → BalancedPool × Option ℕ → Type 0
Settled p (p', none) = p'.clients ≡ p.clients
Settled p (p', some i) =
    (p'.clients ≡ p.clients) × (p'.index ≡ some i) × (p'.current_weight ≤ weight_at p.clients i)

Settled-later :
    (p p' : BalancedPool) (r : BalancedPool × Option ℕ)
    → p'.clients ≡ p.clients
    → Settled p' r
    → Settled p r
Settled-later p p' (q, none) e h = h ∙ e
Settled-later p p' (q, some i) e (a, b, c) = (a ∙ e, b, rw (sym (ap (λ us. weight_at us i) e)) c)

seek-Settled : (k : ℕ) (p : BalancedPool) (best : Option ℕ) → Settled p (seek k p best)
unfolding seek turn
seek-Settled zero p none = refl
seek-Settled zero p (some m) = (refl, refl, ground arith)
seek-Settled (suc k) p best =
    let i = next_index p.index (length p.clients) in
    let best' = if available_at p.clients i then better p.clients best i else best in
    elim (Bool-cases
      (available_at p.clients i && leb (turn p).current_weight (weight_at p.clients i))) [
        | inl e ↦ rw e (refl, refl, ground (arith, e))
        | inr e ↦
            rw e (
              Settled-later p (turn p) (seek k (turn p) best') refl (seek-Settled k (turn p) best'))
      ]

abbrev pub IsChoice : BalancedPool → Result PoolError (BalancedPool × Option ℕ) → Type 0
IsChoice p (err e) = p.clients ≡ []
IsChoice p (ok (p', some i)) =
    (available_at p.clients i ≡ true)
    × (p'.clients ≡ p.clients)
    × (p'.index ≡ some i)
    × (p'.current_weight ≤ weight_at p.clients i)
IsChoice p (ok (p', none)) = (p'.clients ≡ p.clients) × ((i : ℕ) → available_at p.clients i ≡ false)

available_below : (us : List Upstream) (i : ℕ) → length us ≤ i → available_at us i ≡ false
unfolding available_at
available_below [] i h = refl
available_below (u ∷ us) zero h = absurd (omega (arith, h))
available_below (u ∷ us) (suc i) h = available_below us i (omega (arith, h))

Visited-all : (n first i : ℕ) → i < n → Visited n first n i
Visited-all n first i h = ground arith

answer_of :
    (p : BalancedPool) (r : BalancedPool × Option ℕ)
    → Chosen p.clients (next_index p.index (length p.clients)) (length p.clients) none r.1
    → Settled p r
    → IsChoice p (ok r)
answer_of p (p', some i) h (a, b, c) = (h, a, b, c)
answer_of p (p', none) (_, h) e = (
  e,
  λ i. elim (lt_or_eq_or_gt i (length p.clients)) [
    | inl l ↦ h i l (Visited-all (length p.clients) (next_index p.index (length p.clients)) i l)
    | inr (inl q) ↦ available_below p.clients i (omega (arith, q))
    | inr (inr g) ↦ available_below p.clients i (omega (arith, g))
  ],
)

no_items : (us : List Upstream) → length us ≡ 0 → us ≡ []
no_items [] h = refl
no_items (u ∷ us) h = absurd (omega (arith, h))

-- The choice of an upstream ends after one round for each, and throws only where there is none. It is a pool
-- that can be asked, of at least the weight that is current behind the choice, with the index at it; it
-- is no pool only where none can be asked; and the list of pools is as before.
pub get_dispatcher-IsChoice : (p : BalancedPool) → IsChoice p (get_dispatcher p)
unfolding get_dispatcher
get_dispatcher-IsChoice p = elim (Bool-cases (length p.clients == 0)) [
  | inl e ↦ rw e (no_items p.clients ((==_iff (length p.clients) 0).0 e))
  | inr e ↦
      let n : 0 < length p.clients = ground (arith, e) in
      rw e (
        answer_of p (seek (length p.clients) p none) (seek-Chosen (length p.clients) p none n tt)
          (seek-Settled (length p.clients) p none))
]

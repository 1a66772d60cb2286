-- ===== src/Pools/RoundRobin/Turns.antt =====
-- Which connection `RoundRobinPool` chooses.
use native.Mathlib.Nat.{mod-lt}
use undici.Base.{
  ℕ, zero, suc, ◌+◌, ◌-◌, ◌≤◌, ◌<◌, ◌≡◌, ◌⊎◌, inl, inr, refl, ap, ◌∙◌, arith, Bool, true, false,
  ◌&&◌, ◌||◌, not, Option, none, some, List, [], ◌∷◌, ◌++◌, length, get_elem?, ltb, ◌==◌,
  Bool-cases, Option-cases, ==_iff, lt_or_eq_or_gt,
}
use undici.Pools.Cycle.{after_place}
use undici.Pools.RoundRobin.{
  Connection, RoundRobinPool, fresh_connection, add_client, remove_at, retire_client, remove_client,
  is_stale, decrement, following, Dispatcher, reused, created, refused, make_room, Round, halt,
  keep_going, check_client, next_round, carry_on, seek_idle, get_dispatcher,
}

-- A client that can take a request, and a place without one.
abbrev pub is_usable : ℕ → ℕ → Connection → Bool
is_usable client_ttl now c = not (is_stale client_ttl now c) && not c.need_drain

unfoldable pub usable_at : ℕ → ℕ → List Connection → ℕ → Bool
usable_at client_ttl now [] i = false
usable_at client_ttl now (c ∷ cs) zero = is_usable client_ttl now c
usable_at client_ttl now (c ∷ cs) (suc i) = usable_at client_ttl now cs i

usable_at-get :
    (t now : ℕ) (cs : List Connection) (i : ℕ) (c : Connection)
    → get_elem? cs i ≡ some c
    → usable_at t now cs i ≡ is_usable t now c
unfolding usable_at
usable_at-get t now [] i c h = absurd (ground (arith, h))
usable_at-get t now (x ∷ cs) zero c h = ground (arith, h)
usable_at-get t now (x ∷ cs) (suc i) c h = usable_at-get t now cs i c h

usable_at-remove_at_below :
    (t now : ℕ) (cs : List Connection) (i j : ℕ)
    → j < i
    → usable_at t now (remove_at cs i) j ≡ usable_at t now cs j
unfolding usable_at remove_at
usable_at-remove_at_below t now [] i j h = refl
usable_at-remove_at_below t now (c ∷ cs) zero j h = absurd (omega (arith, h))
usable_at-remove_at_below t now (c ∷ cs) (suc i) zero h = refl
usable_at-remove_at_below t now (c ∷ cs) (suc i) (suc j) h =
    usable_at-remove_at_below t now cs i j (omega (arith, h))

usable_at-remove_at_above :
    (t now : ℕ) (cs : List Connection) (i j : ℕ)
    → i ≤ j
    → usable_at t now (remove_at cs i) j ≡ usable_at t now cs (suc j)
unfolding usable_at remove_at
usable_at-remove_at_above t now [] i j h = refl
usable_at-remove_at_above t now (c ∷ cs) zero j h = refl
usable_at-remove_at_above t now (c ∷ cs) (suc i) zero h = absurd (omega (arith, h))
usable_at-remove_at_above t now (c ∷ cs) (suc i) (suc j) h =
    usable_at-remove_at_above t now cs i j (omega (arith, h))

length-remove_at :
    (cs : List Connection) (i : ℕ) → i < length cs → suc (length (remove_at cs i)) ≡ length cs
unfolding remove_at
length-remove_at [] i h = absurd (omega (arith, h))
length-remove_at (c ∷ cs) zero h = refl
length-remove_at (c ∷ cs) (suc i) h = ap suc (length-remove_at cs i (omega (arith, h)))

-- No place among the last ones checked, which end in front of `first`, holds a usable client.
abbrev Seen : ℕ → ℕ → List Connection → ℕ → ℕ → Type 0
Seen t now cs first checked =
    (j : ℕ)
    → j < length cs
    → ((j < first) × (first ≤ j + checked)) ⊎ (first + length cs ≤ j + checked)
    → usable_at t now cs j ≡ false

-- The place checked holds no usable client.
Seen-next :
    (t now : ℕ) (cs : List Connection) (i checked : ℕ)
    → i < length cs
    → usable_at t now cs i ≡ false
    → Seen t now cs i checked
    → Seen t now cs (following (some i) (length cs)) (suc checked)
Seen-next t now cs i checked l u h j m v =
    let at_once : (j ≡ i) ⊎ (((j < i) × (i ≤ j + checked)) ⊎ (i + length cs ≤ j + checked)) =
      elim (after_place i (length cs) l) [
        | inl (e, n) ↦ ground (arith, rw e at v, m)
        | inr (e, n) ↦ ground (arith, rw e at v, m, n)
      ] in
    elim at_once [ inl e ↦ rw e u | inr w ↦ h j m w ]

-- The place that is next when a client was taken out.
following-decrement :
    (i m : ℕ)
    → i ≤ m
    → 0 < m
    → ((following (decrement (some i)) m ≡ i) × (i < m))
      ⊎ ((following (decrement (some i)) m ≡ 0) × (i ≡ m))
following-decrement zero m h l = inl (refl, l)
following-decrement (suc i) m h l = after_place i m (omega (arith, h))

-- The client checked is taken out.
Seen-removed :
    (t now : ℕ) (cs : List Connection) (i checked : ℕ)
    → i < length cs
    → checked < length cs
    → Seen t now cs i checked
    → Seen t now (remove_at cs i) (following (decrement (some i)) (length (remove_at cs i))) checked
Seen-removed t now cs i checked l b h j m v =
    let shorter = length-remove_at cs i l in
    let place : ((j < i) × (((j < i) × (i ≤ j + checked)) ⊎ (i + length cs ≤ j + checked)))
        ⊎ ((i ≤ j) × (((suc j < i) × (i ≤ suc j + checked)) ⊎ (i + length cs ≤ suc j + checked))) =
      elim (following-decrement i (length (remove_at cs i)) (omega (arith, shorter, l))
        (omega (arith, m))) [
          | inl (e, n) ↦ ground (arith, rw e at v, m, shorter, b)
          | inr (e, n) ↦ ground (arith, rw e at v, m, n, shorter, b)
        ] in
    elim place [
      | inl (k, w) ↦ usable_at-remove_at_below t now cs i j k ∙ h j (omega (arith, m, shorter)) w
      | inr (k, w) ↦
          usable_at-remove_at_above t now cs i j k ∙ h (suc j) (omega (arith, m, shorter)) w
    ]

following_below : (index : Option ℕ) (n : ℕ) → 0 < n → following index n < n
following_below none n h = h
following_below (some i) n h = mod-lt (i + 1) h

usable_beyond :
    (t now : ℕ) (cs : List Connection) (j : ℕ) → length cs ≤ j → usable_at t now cs j ≡ false
unfolding usable_at
usable_beyond t now [] j h = refl
usable_beyond t now (c ∷ cs) zero h = absurd (omega (arith, h))
usable_beyond t now (c ∷ cs) (suc j) h = usable_beyond t now cs j (omega (arith, h))

Seen-all :
    (t now : ℕ) (cs : List Connection) (first checked : ℕ)
    → (0 < length cs → first < length cs)
    → checked ≡ length cs
    → Seen t now cs first checked
    → (j : ℕ) → usable_at t now cs j ≡ false
Seen-all t now cs first checked l e h j = elim (lt_or_eq_or_gt j (length cs)) [
  | inl m ↦ h j m (ground (arith, l, e, m))
  | inr (inl q) ↦ usable_beyond t now cs j (omega (arith, q))
  | inr (inr g) ↦ usable_beyond t now cs j (omega (arith, g))
]

-- What is left of a pool's clients when some whose time is over are taken out, in the same order.
pub data Trimmed (t now : ℕ) : List Connection → List Connection → Type 0 where
  ended : Trimmed t now [] []
  kept :
      {c : Connection} {cs ds : List Connection}
      → Trimmed t now cs ds
      → Trimmed t now (c ∷ cs) (c ∷ ds)
  retired :
      {c : Connection} {cs ds : List Connection}
      → (0 < t) × ((0 < c.ttl) × (t < now - c.ttl))
      → Trimmed t now cs ds
      → Trimmed t now (c ∷ cs) ds

Trimmed-same : (t now : ℕ) (cs : List Connection) → Trimmed t now cs cs
Trimmed-same t now [] = ended
Trimmed-same t now (c ∷ cs) = kept (Trimmed-same t now cs)

Trimmed-remove_at :
    (t now : ℕ) (cs ds : List Connection) (i : ℕ) (c : Connection)
    → Trimmed t now cs ds
    → get_elem? ds i ≡ some c
    → is_stale t now c ≡ true
    → Trimmed t now cs (remove_at ds i)
unfolding remove_at is_stale
Trimmed-remove_at t now [] [] i c ended g e = ended
Trimmed-remove_at t now [] (y ∷ ds) i c w g e = elim w [ ]
Trimmed-remove_at t now (x ∷ cs) ds i c (retired h v) g e =
    retired h (Trimmed-remove_at t now cs ds i c v g e)
Trimmed-remove_at t now (x ∷ cs) (y ∷ ds) zero c (kept v) g e = retired (ground (arith, g, e)) v
Trimmed-remove_at t now (x ∷ cs) (y ∷ ds) (suc i) c (kept v) g e =
    kept (Trimmed-remove_at t now cs ds i c v g e)

-- What the pool `o` becomes while its method runs.
record Stems (o : RoundRobinPool) (now : ℕ) (p : RoundRobinPool) : Type 0 where
  ttl : p.client_ttl ≡ o.client_ttl
  limit : p.connections ≡ o.connections
  count : p.made ≡ o.made
  trimmed : Trimmed o.client_ttl now o.clients p.clients

-- What a choice is, by the pool and by what is returned. The clients are always those of the pool, less
-- some whose time is over: one that is usable, with the index at it; a new one behind them, where
-- none of them is usable and there may be more; or none, where none is usable and there may not.
abbrev pub IsTurn : RoundRobinPool → ℕ → RoundRobinPool × Dispatcher → Type 0
IsTurn o now (q, reused i) =
    Trimmed o.client_ttl now o.clients q.clients
    × ((usable_at o.client_ttl now q.clients i ≡ true) × (q.index ≡ some i))
IsTurn o now (q, created) =
    (cs : List Connection) × Trimmed o.client_ttl now o.clients cs
    × (q.clients ≡ cs ++ (fresh_connection o.made ∷ []))
    × ((o.connections ≡ 0) ⊎ (length cs < o.connections))
    × ((j : ℕ) → usable_at o.client_ttl now cs j ≡ false)
IsTurn o now (q, refused) =
    Trimmed o.client_ttl now o.clients q.clients
    × ((0 < o.connections) × (o.connections ≤ length q.clients))
    × ((j : ℕ) → usable_at o.client_ttl now q.clients j ≡ false)

make_room-IsTurn :
    (o : RoundRobinPool) (now : ℕ) (p : RoundRobinPool)
    → Stems o now p
    → ((j : ℕ) → usable_at o.client_ttl now p.clients j ≡ false)
    → IsTurn o now (make_room p)
unfolding make_room add_client
make_room-IsTurn o now p v h =
    elim (Bool-cases (p.connections == 0 || ltb (length p.clients) p.connections)) [
      | inl e ↦ rw e (
        p.clients,
        v.trimmed,
        ap (λ n. p.clients ++ (fresh_connection n ∷ [])) v.count,
        ground (arith, e, v.limit),
        h,
      )
      | inr e ↦ rw e (v.trimmed, (ground (arith, e, v.limit), ground (arith, e, v.limit)), h)
    ]

-- what a round leaves for the next ones
abbrev RoundOk : RoundRobinPool → ℕ → ℕ → Round → Type 0
RoundOk o now k (halt q d) = IsTurn o now (q, d)
RoundOk o now k (keep_going q) =
    Stems o now q
    × ((checked : ℕ) × (checked + k ≡ length q.clients)
        × Seen o.client_ttl now q.clients (following q.index (length q.clients)) checked)

check_client-RoundOk :
    (o : RoundRobinPool) (now k checked : ℕ) (p : RoundRobinPool) (i : ℕ) (c : Connection)
    → Stems o now p
    → i < length p.clients
    → get_elem? p.clients i ≡ some c
    → checked + suc k ≡ length p.clients
    → Seen o.client_ttl now p.clients i checked
    → RoundOk o now k (check_client p now i (some c))
unfolding check_client remove_client retire_client
check_client-RoundOk o now k checked p i c v l g e h =
    let u = usable_at-get o.client_ttl now p.clients i c g in
    let same : is_stale p.client_ttl now c ≡ is_stale o.client_ttl now c =
      ap (λ t. is_stale t now c) v.ttl in
    elim (Bool-cases (is_stale o.client_ttl now c)) [
      | inl a ↦
          rw (same, a)
            (
              record {
                ttl = v.ttl;
                limit = v.limit;
                count = v.count;
                trimmed = Trimmed-remove_at o.client_ttl now o.clients p.clients i c v.trimmed g a;
              },
              (
                checked,
                omega (arith, length-remove_at p.clients i l, e),
                Seen-removed o.client_ttl now p.clients i checked l (omega (arith, e)) h,
              ),
            )
      | inr a ↦ elim (Bool-cases c.need_drain) [
        | inl b ↦
            rw (same, a, b)
              (
                record { ttl = v.ttl; limit = v.limit; count = v.count; trimmed = v.trimmed },
                (
                  suc checked,
                  omega (arith, e),
                  Seen-next o.client_ttl now p.clients i checked l (u ∙ ground (arith, a, b)) h,
                ),
              )
        | inr b ↦ rw (same, a, b) (v.trimmed, (u ∙ ground (arith, a, b), refl))
      ]
    ]

get_below : (cs : List Connection) (i : ℕ) → i < length cs → get_elem? cs i ≡ none → ⊥
get_below [] i h e = omega (arith, h)
get_below (c ∷ cs) zero h e = ground (arith, e)
get_below (c ∷ cs) (suc i) h e = get_below cs i (omega (arith, h)) e

next_round-RoundOk :
    (o : RoundRobinPool) (now k checked : ℕ) (p : RoundRobinPool)
    → Stems o now p
    → checked + suc k ≡ length p.clients
    → Seen o.client_ttl now p.clients (following p.index (length p.clients)) checked
    → RoundOk o now k (next_round p now)
unfolding next_round
next_round-RoundOk o now k checked p v e h =
    let i = following p.index (length p.clients) in
    let l = following_below p.index (length p.clients) (omega (arith, e)) in
    elim (Option-cases (get_elem? p.clients i)) [
      | inl g ↦ absurd (get_below p.clients i l g)
      | inr (c, g) ↦ rw g (check_client-RoundOk o now k checked p i c v l g e h)
    ]

carry_on-IsTurn :
    (o : RoundRobinPool) (now k : ℕ) (r : Round) (f : RoundRobinPool → RoundRobinPool × Dispatcher)
    → ((q : RoundRobinPool) → RoundOk o now k (keep_going q) → IsTurn o now (f q))
    → RoundOk o now k r
    → IsTurn o now (carry_on r f)
carry_on-IsTurn o now k (halt q d) f g h = h
carry_on-IsTurn o now k (keep_going q) f g h = g q h

seek_idle-IsTurn :
    (k : ℕ) (o p : RoundRobinPool) (now checked : ℕ)
    → Stems o now p
    → checked + k ≡ length p.clients
    → Seen o.client_ttl now p.clients (following p.index (length p.clients)) checked
    → IsTurn o now (seek_idle k p now)
unfolding seek_idle
seek_idle-IsTurn zero o p now checked v e h = make_room-IsTurn o now p v (
    Seen-all o.client_ttl now p.clients (following p.index (length p.clients)) checked
      (following_below p.index (length p.clients)) (omega (arith, e)) h)
seek_idle-IsTurn (suc k) o p now checked v e h =
    carry_on-IsTurn o now k (next_round p now) (λ p'. seek_idle k p' now)
      (λ p' (r, (c, d, w)). seek_idle-IsTurn k o p' now c r d w)
      (next_round-RoundOk o now k checked p v e h)

-- The choice of a client ends. The clients are then those the pool had, in their order, less some whose
-- time is over, and: it is one of them that is neither stale nor busy, with the index at it; or it is a
-- new client behind them, where none of them is usable and no limit is set or reached; or it is none,
-- where none of them is usable and a limit is set and reached.
pub get_dispatcher-IsTurn : (p : RoundRobinPool) (now : ℕ) → IsTurn p now (get_dispatcher p now)
unfolding get_dispatcher add_client
get_dispatcher-IsTurn p now =
    let start : Stems p now p = record {
      ttl = refl;
      limit = refl;
      count = refl;
      trimmed = Trimmed-same p.client_ttl now p.clients;
    } in
    elim (Bool-cases (length p.clients == 0)) [
      | inl e ↦
          let none_there = (==_iff (length p.clients) 0).0 e in
          rw e (
            p.clients,
            start.trimmed,
            refl,
            ground (arith, none_there),
            λ j. usable_beyond p.client_ttl now p.clients j (omega (arith, none_there)),
          )
      | inr e ↦ rw e (
          seek_idle-IsTurn (length p.clients) p p now 0 start (omega arith)
            (λ j m w. absurd (ground (arith, w, m))))
    ]

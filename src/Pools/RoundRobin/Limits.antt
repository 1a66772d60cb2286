-- ===== src/Pools/RoundRobin/Limits.antt =====
-- How many clients `RoundRobinPool` has.
use undici.Base.{
  ℕ, zero, suc, ◌≤◌, ◌<◌, ◌≡◌, ◌⊎◌, inl, inr, arith, Bool, ◌||◌, Option, none, some, List, [], ◌∷◌,
  length, length-append, get_elem?, ltb, ◌==◌, Bool-cases,
}
use undici.Pools.RoundRobin.{
  Connection, RoundRobinPool, new_round_robin_pool, fresh_connection, add_client, remove_at,
  remove_client, retire_client, is_stale, Dispatcher, reused, created, refused, make_room, Round,
  halt, keep_going, check_client, next_round, carry_on, seek_idle, get_dispatcher, Scan, found,
  onward, scan_client, scan_on, has_room, scan_idle, has_dispatcher, following,
}

-- There are no more clients than the limit, where one is set.
abbrev pub IsLimited : RoundRobinPool → Type 0
IsLimited p = (p.connections ≡ 0) ⊎ (length p.clients ≤ p.connections)

length-remove_at_le : (cs : List Connection) (i : ℕ) → length (remove_at cs i) ≤ length cs
unfolding remove_at
length-remove_at_le [] i = omega arith
length-remove_at_le (c ∷ cs) zero = omega arith
length-remove_at_le (c ∷ cs) (suc i) = omega (arith, length-remove_at_le cs i)

add_client-IsLimited :
    (p : RoundRobinPool)
    → (p.connections ≡ 0) ⊎ (length p.clients < p.connections)
    → IsLimited (add_client p)
unfolding add_client
add_client-IsLimited p h = ground (arith, h, length-append p.clients (fresh_connection p.made ∷ []))

remove_client-IsLimited :
    (p : RoundRobinPool) (i : ℕ) (c : Connection) → IsLimited p → IsLimited (remove_client p i c)
unfolding remove_client
remove_client-IsLimited p i c h = ground (arith, h, length-remove_at_le p.clients i)

make_room-IsLimited : (p : RoundRobinPool) → IsLimited p → IsLimited (make_room p).0
unfolding make_room
make_room-IsLimited p h =
    elim (Bool-cases (p.connections == 0 || ltb (length p.clients) p.connections)) [
      | inl e ↦ rw e (add_client-IsLimited p (ground (arith, e)))
      | inr e ↦ rw e h
    ]

abbrev RoundLimited : Round → Type 0
RoundLimited (halt q d) = IsLimited q
RoundLimited (keep_going q) = IsLimited q

check_client-RoundLimited :
    (p : RoundRobinPool) (now i : ℕ) (o : Option Connection)
    → IsLimited p
    → RoundLimited (check_client p now i o)
unfolding check_client
check_client-RoundLimited p now i none h = h
check_client-RoundLimited p now i (some c) h = elim (Bool-cases (is_stale p.client_ttl now c)) [
  | inl e ↦ rw e (remove_client-IsLimited p i c h)
  | inr e ↦ elim (Bool-cases c.need_drain) [ inl b ↦ rw (e, b) h | inr b ↦ rw (e, b) h ]
]

carry_on-IsLimited :
    (r : Round) (f : RoundRobinPool → RoundRobinPool × Dispatcher)
    → ((q : RoundRobinPool) → IsLimited q → IsLimited (f q).0)
    → RoundLimited r
    → IsLimited (carry_on r f).0
carry_on-IsLimited (halt q d) f g h = h
carry_on-IsLimited (keep_going q) f g h = g q h

seek_idle-IsLimited :
    (k : ℕ) (p : RoundRobinPool) (now : ℕ) → IsLimited p → IsLimited (seek_idle k p now).0
unfolding seek_idle next_round
seek_idle-IsLimited zero p now h = make_room-IsLimited p h
seek_idle-IsLimited (suc k) p now h =
    let i = following p.index (length p.clients) in
    carry_on-IsLimited (check_client p now i (get_elem? p.clients i)) (λ q. seek_idle k q now)
      (λ q g. seek_idle-IsLimited k q now g)
      (check_client-RoundLimited p now i (get_elem? p.clients i) h)

get_dispatcher-IsLimited :
    (p : RoundRobinPool) (now : ℕ) → IsLimited p → IsLimited (get_dispatcher p now).0
unfolding get_dispatcher
get_dispatcher-IsLimited p now h = elim (Bool-cases (length p.clients == 0)) [
  | inl e ↦ rw e (add_client-IsLimited p (ground (arith, e)))
  | inr e ↦ rw e (seek_idle-IsLimited (length p.clients) p now h)
]

abbrev ScanLimited : Scan → Type 0
ScanLimited (found q) = IsLimited q
ScanLimited (onward q i) = IsLimited q

scan_client-ScanLimited :
    (p : RoundRobinPool) (now i : ℕ) (o : Option Connection)
    → IsLimited p
    → ScanLimited (scan_client p now i o)
unfolding scan_client
scan_client-ScanLimited p now i none h = h
scan_client-ScanLimited p now i (some c) h = elim (Bool-cases (is_stale p.client_ttl now c)) [
  | inl e ↦ rw e (remove_client-IsLimited p i c h)
  | inr e ↦ elim (Bool-cases c.need_drain) [ inl b ↦ rw (e, b) h | inr b ↦ rw (e, b) h ]
]

scan_on-IsLimited :
    (r : Scan) (f : RoundRobinPool → ℕ → RoundRobinPool × Bool)
    → ((q : RoundRobinPool) (i : ℕ) → IsLimited q → IsLimited (f q i).0)
    → ScanLimited r
    → IsLimited (scan_on r f).0
scan_on-IsLimited (found q) f g h = h
scan_on-IsLimited (onward q i) f g h = g q i h

has_room-IsLimited : (r : RoundRobinPool × Dispatcher) → IsLimited r.0 → IsLimited (has_room r).0
has_room-IsLimited (p, reused i) h = h
has_room-IsLimited (p, created) h = h
has_room-IsLimited (p, refused) h = h

scan_idle-IsLimited :
    (k : ℕ) (p : RoundRobinPool) (now i : ℕ) → IsLimited p → IsLimited (scan_idle k p now i).0
unfolding scan_idle
scan_idle-IsLimited zero p now i h = has_room-IsLimited (make_room p) (make_room-IsLimited p h)
scan_idle-IsLimited (suc k) p now i h =
    scan_on-IsLimited (scan_client p now i (get_elem? p.clients i)) (λ q j. scan_idle k q now j)
      (λ q j g. scan_idle-IsLimited k q now j g)
      (scan_client-ScanLimited p now i (get_elem? p.clients i) h)

-- what happens to a pool
pub data Step (p : RoundRobinPool) : RoundRobinPool → Type 0 where
  got : (now : ℕ) → Step p (get_dispatcher p now).0
  asked : (now : ℕ) → Step p (has_dispatcher p now).0
  retired : (i : ℕ) (c : Connection) → get_elem? p.clients i ≡ some c → Step p (retire_client p i c)
  -- the clients change, but not their number
  changed :
      (cs : List Connection) → length cs ≡ length p.clients → Step p (record p { clients = cs })

pub data Reach (connections client_ttl : ℕ) : RoundRobinPool → Type 0 where
  made_new : Reach connections client_ttl (new_round_robin_pool connections client_ttl)
  next :
      {p q : RoundRobinPool}
      → Reach connections client_ttl p
      → Step p q
      → Reach connections client_ttl q

retire_client-IsLimited :
    (p : RoundRobinPool) (i : ℕ) (c : Connection) → IsLimited p → IsLimited (retire_client p i c)
unfolding retire_client
retire_client-IsLimited p i c h = ground (arith, h, length-remove_at_le p.clients i)

Step-IsLimited : {p q : RoundRobinPool} → Step p q → IsLimited p → IsLimited q
unfolding has_dispatcher
Step-IsLimited {p} (got now) h = get_dispatcher-IsLimited p now h
Step-IsLimited {p} (asked now) h = scan_idle-IsLimited (length p.clients) p now 0 h
Step-IsLimited {p} (retired i c e) h = retire_client-IsLimited p i c h
Step-IsLimited {p} (changed cs e) h = ground (arith, h, e)

-- Whatever requests, failed connections and changes of its clients a pool meets, in whatever order, it
-- never has more clients than its limit, where one is set.
pub Reach-IsLimited :
    (connections client_ttl : ℕ) {p : RoundRobinPool} → Reach connections client_ttl p → IsLimited p
Reach-IsLimited connections client_ttl made_new = inr (omega arith)
Reach-IsLimited connections client_ttl (next r a) =
    Step-IsLimited a (Reach-IsLimited connections client_ttl r)

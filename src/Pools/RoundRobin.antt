-- ===== src/Pools/RoundRobin.antt =====
-- lib/dispatcher/round-robin-pool.js: `RoundRobinPool`, with what lib/dispatcher/pool-base.js does when it
-- adds, retires or removes a client. `Date.now()` is one time for the whole of a call.
pub mod Turns
pub mod Limits
mod Tests
use undici.Base.{
  ℕ, zero, suc, ◌+◌, ◌-◌, ◌%◌, Bool, true, false, ◌&&◌, ◌||◌, not, Option, none, some, List, [],
  ◌∷◌, ◌++◌, length, get_elem?, ltb, leb, ◌==◌, if◌then◌else◌,
}

-- A connection; `id` tells the objects apart. `ttl` is 0 where it is not set.
pub record Connection : Type 0 where
  pub id : ℕ
  pub ttl : ℕ
  pub need_drain : Bool
  pub closed : Bool
  pub destroyed : Bool

-- `connections` and `client_ttl` are 0 for none, `index` is none for -1. `retiring` holds the clients that
-- are closing, `made` counts those the factory made.
pub record RoundRobinPool : Type 0 where
  pub clients : List Connection
  pub index : Option ℕ
  pub connections : ℕ
  pub client_ttl : ℕ
  pub need_drain : Bool
  pub retiring : List ℕ
  pub made : ℕ

-- the constructor
abbrev pub new_round_robin_pool : ℕ → ℕ → RoundRobinPool
new_round_robin_pool connections client_ttl = record {
  clients = [];
  index = none;
  connections = connections;
  client_ttl = client_ttl;
  need_drain = false;
  retiring = [];
  made = 0;
}

abbrev pub fresh_connection : ℕ → Connection
fresh_connection id = record {
  id = id;
  ttl = 0;
  need_drain = false;
  closed = false;
  destroyed = false;
}

-- the factory and `[kAddClient]`
unfoldable pub add_client : RoundRobinPool → RoundRobinPool
add_client p = record p { clients = p.clients ++ (fresh_connection p.made ∷ []); made = suc p.made }

-- `splice(i, 1)`
unfoldable pub remove_at : List Connection → ℕ → List Connection
remove_at [] i = []
remove_at (c ∷ cs) zero = cs
remove_at (c ∷ cs) (suc i) = c ∷ remove_at cs i

unfoldable pub has_id : ℕ → List ℕ → Bool
has_id id [] = false
has_id id (x ∷ xs) = x == id || has_id id xs

-- `[kRetireClient]` of the client at a place
unfoldable pub retire_client : RoundRobinPool → ℕ → Connection → RoundRobinPool
retire_client p i c = record p {
  clients = remove_at p.clients i;
  retiring =
      if c.destroyed || has_id c.id p.retiring then p.retiring else p.retiring ++ (c.id ∷ []);
}

unfoldable pub some_idle : List Connection → Bool
some_idle [] = false
some_idle (c ∷ cs) = (not c.need_drain && (not c.closed && not c.destroyed)) || some_idle cs

-- `[kRemoveClient]`
unfoldable pub remove_client : RoundRobinPool → ℕ → Connection → RoundRobinPool
unfolding retire_client
remove_client p i c =
    let p' = retire_client p i c in record p' { need_drain = not (some_idle p'.clients) }

-- the time of a client is over
unfoldable pub is_stale : ℕ → ℕ → Connection → Bool
is_stale client_ttl now c = ltb 0 client_ttl && (ltb 0 c.ttl && ltb client_ttl (now - c.ttl))

-- `this[kIndex]--`
abbrev pub decrement : Option ℕ → Option ℕ
decrement none = none
decrement (some zero) = none
decrement (some (suc i)) = some i

-- `(this[kIndex] + 1) % this[kClients].length`
abbrev pub following : Option ℕ → ℕ → ℕ
following none n = 0
following (some i) n = (i + 1) % n

-- What `[kGetDispatcher]` returns: the client at a place, a new one at the end, or none.
pub data Dispatcher : Type 0 where
  reused : ℕ → Dispatcher
  created refused : Dispatcher

-- the end of `[kGetDispatcher]` and of `[kHasDispatcher]`
unfoldable pub make_room : RoundRobinPool → RoundRobinPool × Dispatcher
make_room p =
    if p.connections == 0 || ltb (length p.clients) p.connections
    then (add_client p, created)
    else (p, refused)

-- how a round of the loop ends: the method returns, or the loop goes on
pub data Round : Type 0 where
  halt : RoundRobinPool → Dispatcher → Round
  keep_going : RoundRobinPool → Round

-- A round on the client at a place. There always is one, since the index is taken modulo the length.
unfoldable pub check_client : RoundRobinPool → ℕ → ℕ → Option Connection → Round
check_client p now i none = halt p refused
check_client p now i (some c) =
    if is_stale p.client_ttl now c
    then keep_going (record (remove_client p i c) { index = decrement (some i) })
    else if not c.need_drain
    then halt (record p { index = some i }) (reused i)
    else keep_going (record p { index = some i })

unfoldable pub next_round : RoundRobinPool → ℕ → Round
next_round p now =
    let i = following p.index (length p.clients) in check_client p now i (get_elem? p.clients i)

abbrev pub carry_on :
    Round → (RoundRobinPool → RoundRobinPool × Dispatcher) → RoundRobinPool × Dispatcher
carry_on (halt p d) f = (p, d)
carry_on (keep_going p) f = f p

-- The loop of `[kGetDispatcher]`, by `length - checked`, which every round makes smaller by one: it takes
-- a client out or counts one.
unfoldable pub seek_idle : ℕ → RoundRobinPool → ℕ → RoundRobinPool × Dispatcher
seek_idle zero p now = make_room p
seek_idle (suc k) p now = carry_on (next_round p now) (λ p'. seek_idle k p' now)

-- `[kGetDispatcher]`
unfoldable pub get_dispatcher : RoundRobinPool → ℕ → RoundRobinPool × Dispatcher
get_dispatcher p now =
    if length p.clients == 0 then (add_client p, created) else seek_idle (length p.clients) p now

-- how a round of the loop of `[kHasDispatcher]` ends
pub data Scan : Type 0 where
  found : RoundRobinPool → Scan
  onward : RoundRobinPool → ℕ → Scan

-- An index at the place or behind it moves with the clients.
abbrev pub moved : Option ℕ → ℕ → Option ℕ
moved none i = none
moved (some j) i = if leb i j then decrement (some j) else some j

unfoldable pub scan_client : RoundRobinPool → ℕ → ℕ → Option Connection → Scan
scan_client p now i none = found p
scan_client p now i (some c) =
    if is_stale p.client_ttl now c
    then onward (record (remove_client p i c) { index = moved p.index i }) i
    else if not c.need_drain
    then found p
    else onward p (suc i)

abbrev pub scan_on : Scan → (RoundRobinPool → ℕ → RoundRobinPool × Bool) → RoundRobinPool × Bool
scan_on (found p) f = (p, true)
scan_on (onward p i) f = f p i

abbrev pub has_room : RoundRobinPool × Dispatcher → RoundRobinPool × Bool
has_room (p, refused) = (p, false)
has_room (p, _) = (p, true)

-- The loop of `[kHasDispatcher]` from a place on, by `length - i`, which every round makes smaller by one.
unfoldable pub scan_idle : ℕ → RoundRobinPool → ℕ → ℕ → RoundRobinPool × Bool
scan_idle zero p now i = has_room (make_room p)
scan_idle (suc k) p now i =
    scan_on (scan_client p now i (get_elem? p.clients i)) (λ p' i'. scan_idle k p' now i')

-- `[kHasDispatcher]`
unfoldable pub has_dispatcher : RoundRobinPool → ℕ → RoundRobinPool × Bool
has_dispatcher p now = scan_idle (length p.clients) p now 0

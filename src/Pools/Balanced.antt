-- ===== src/Pools/Balanced.antt =====
-- lib/dispatcher/balanced-pool.js: `BalancedPool`, the weighted round robin over upstreams.
-- What `kOnDrain` and `kDispatch` of lib/dispatcher/pool-base.js do to `need_drain` is not modelled.
-- A pool is known by its place in `clients`; what it is asked for (need of drain, closed, destroyed) are
-- flags that the environment sets. Origins come parsed, and the options are natural numbers.
pub mod Divisor
pub mod Choice
pub mod Weights
mod Tests
use undici.Base.{
  ℕ, zero, suc, ◌+◌, ◌-◌, ◌%◌, Bool, true, false, ◌&&◌, ◌||◌, not, Option, none, some, List, [],
  ◌∷◌, ◌++◌, Bytes, length, get_elem?, equal, leb, ltb, ◌==◌, if◌then◌else◌, map, Result, ok, err,
}

-- `getGreatestCommonDivisor`, its loop; the second number gets smaller in every round, so its successor
-- is fuel enough.
unfoldable pub divisor_loop : ℕ → ℕ → ℕ → ℕ
divisor_loop zero a b = a
divisor_loop (suc fuel) a b = let rest = divisor_loop fuel b (a % b) in if b == 0 then a else rest

-- `getGreatestCommonDivisor`
unfoldable pub get_greatest_common_divisor : ℕ → ℕ → ℕ
get_greatest_common_divisor a b = if a == 0 then b else divisor_loop (suc b) a b

pub record Upstream : Type 0 where
  pub origin : Bytes
  pub weight : ℕ
  pub need_drain : Bool
  pub closed : Bool
  pub destroyed : Bool

-- `index` is none for -1; `retiring` holds the pools that were taken out and are closing.
pub record BalancedPool : Type 0 where
  pub clients : List Upstream
  pub index : Option ℕ
  pub current_weight : ℕ
  pub greatest_common_divisor : ℕ
  pub max_weight_per_server : ℕ
  pub error_penalty : ℕ
  pub need_drain : Bool
  pub retiring : List Upstream

-- the constructor, up to the upstreams; 0 is falsy
abbrev pub new_balanced_pool : ℕ → ℕ → BalancedPool
new_balanced_pool max_weight penalty = record {
  clients = [];
  index = none;
  current_weight = 0;
  greatest_common_divisor = 0;
  max_weight_per_server = if max_weight == 0 then 100 else max_weight;
  error_penalty = if penalty == 0 then 15 else penalty;
  need_drain = false;
  retiring = [];
}

-- the loop of `_updateBalancedPoolStats`
unfoldable pub divisor_of : List Upstream → ℕ → ℕ
divisor_of [] result = result
divisor_of (u ∷ us) result = divisor_of us (get_greatest_common_divisor u.weight result)

-- `_updateBalancedPoolStats`
unfoldable pub update_balanced_pool_stats : BalancedPool → BalancedPool
update_balanced_pool_stats p = record p { greatest_common_divisor = divisor_of p.clients 0 }

-- an open pool with this origin
abbrev pub is_upstream : Bytes → Upstream → Bool
is_upstream origin u = equal u.origin origin && (not u.closed && not u.destroyed)

unfoldable pub find_upstream : Bytes → List Upstream → Option Upstream
find_upstream origin [] = none
find_upstream origin (u ∷ us) = if is_upstream origin u then some u else find_upstream origin us

abbrev pub reset_weight : ℕ → Upstream → Upstream
reset_weight w u = record u { weight = w }

-- a pool that the factory makes
abbrev pub fresh_upstream : Bytes → Upstream
fresh_upstream origin = record {
  origin = origin;
  weight = 0;
  need_drain = false;
  closed = false;
  destroyed = false;
}

-- `addUpstream`, by the open pool that there is already
unfoldable pub enroll : BalancedPool → Bytes → Option Upstream → BalancedPool
enroll p origin (some u) = p
enroll p origin none = update_balanced_pool_stats (record p {
  clients = map (reset_weight p.max_weight_per_server) (p.clients ++ (fresh_upstream origin ∷ []));
})

-- `addUpstream`
unfoldable pub add_upstream : BalancedPool → Bytes → BalancedPool
add_upstream p origin = enroll p origin (find_upstream origin p.clients)

-- the constructor
unfoldable pub add_upstreams : BalancedPool → List Bytes → BalancedPool
add_upstreams p [] = update_balanced_pool_stats p
add_upstreams p (origin ∷ origins) = add_upstreams (add_upstream p origin) origins

-- the first pool with this origin is taken out
unfoldable pub without_upstream : Bytes → List Upstream → List Upstream
without_upstream origin [] = []
without_upstream origin (u ∷ us) =
    if is_upstream origin u then us else u ∷ without_upstream origin us

abbrev pub is_available : Upstream → Bool
is_available u = not u.need_drain && (not u.closed && not u.destroyed)

-- a pool that can be asked, among those that are left
unfoldable pub some_available : List Upstream → Bool
some_available [] = false
some_available (u ∷ us) = is_available u || some_available us

-- `[kRemoveClient]` and `[kRetireClient]` of lib/dispatcher/pool-base.js, for the open pool that was found,
-- which is closed; an open pool is not among the retiring ones
unfoldable pub withdraw : BalancedPool → Bytes → Option Upstream → BalancedPool
withdraw p origin none = p
withdraw p origin (some u) =
    let left = without_upstream origin p.clients in
    record p {
      clients = left;
      need_drain = not (some_available left);
      retiring = p.retiring ++ (u ∷ []);
    }

-- `removeUpstream`
unfoldable pub remove_upstream : BalancedPool → Bytes → BalancedPool
remove_upstream p origin = withdraw p origin (find_upstream origin p.clients)

-- `getUpstream` and `upstreams`
abbrev pub get_upstream : BalancedPool → Bytes → Option Upstream
get_upstream p origin = find_upstream origin p.clients

unfoldable pub open_origins : List Upstream → List Bytes
open_origins [] = []
open_origins (u ∷ us) =
    if not u.closed && not u.destroyed then u.origin ∷ open_origins us else open_origins us

-- a change of the pool at one place
unfoldable pub change_at : List Upstream → ℕ → (Upstream → Upstream) → List Upstream
change_at [] i f = []
change_at (u ∷ us) zero f = f u ∷ us
change_at (u ∷ us) (suc i) f = u ∷ change_at us i f

abbrev pub smaller : ℕ → ℕ → ℕ
smaller a b = if leb a b then a else b

-- the listener on 'connect'
unfoldable pub on_connect : BalancedPool → ℕ → BalancedPool
on_connect p i = record p {
  clients =
      change_at p.clients i
        (λ u. record u { weight = smaller p.max_weight_per_server (u.weight + p.error_penalty) });
}

-- `Math.max(1, weight - penalty)`
abbrev pub penalized : ℕ → ℕ → ℕ
penalized weight penalty = if ltb 1 (weight - penalty) then weight - penalty else 1

-- the listener on 'connectionError', and that on 'disconnect' with the error UND_ERR_SOCKET; with another
-- error or none it does nothing
unfoldable pub on_connection_error : BalancedPool → ℕ → BalancedPool
on_connection_error p i = update_balanced_pool_stats (record p {
  clients = change_at p.clients i (λ u. record u { weight = penalized u.weight p.error_penalty });
})

-- `(this[kIndex] + 1) % this[kClients].length`
abbrev pub next_index : Option ℕ → ℕ → ℕ
next_index none n = 0
next_index (some i) n = (i + 1) % n

-- the next lower weight, or the highest one when there is none
abbrev pub lower_weight : BalancedPool → ℕ
lower_weight p =
    if leb p.current_weight p.greatest_common_divisor
    then p.max_weight_per_server
    else p.current_weight - p.greatest_common_divisor

-- the turn of the index, and of the weight with it
unfoldable pub turn : BalancedPool → BalancedPool
turn p =
    let i = next_index p.index (length p.clients) in
    record p {
      index = some i;
      current_weight = if i == 0 then lower_weight p else p.current_weight;
    }

-- `clients[i][kWeight]`, where there is such a pool
unfoldable pub weight_at : List Upstream → ℕ → ℕ
weight_at us i = elim (get_elem? us i) [ none ↦ 0 | some u ↦ u.weight ]

-- whether a place holds a pool that can be asked
unfoldable pub available_at : List Upstream → ℕ → Bool
available_at us i = elim (get_elem? us i) [ none ↦ false | some u ↦ is_available u ]

-- `maxWeightIndex` behind the pool at a place
unfoldable pub better : List Upstream → Option ℕ → ℕ → Option ℕ
better us none i = some i
better us (some m) i = if ltb (weight_at us m) (weight_at us i) then some i else some m

-- The loop of `[kGetDispatcher]`, by the rounds that are left, and what follows it. A place stands for
-- the pool that is returned.
unfoldable pub seek : ℕ → BalancedPool → Option ℕ → BalancedPool × Option ℕ
seek zero p none = (p, none)
seek zero p (some m) = (record p { current_weight = weight_at p.clients m; index = some m }, some m)
seek (suc k) p best =
    let p' = turn p in
    let i = next_index p.index (length p.clients) in
    let available = available_at p.clients i in
    let rest = seek k p' (if available then better p.clients best i else best) in
    if available && leb p'.current_weight (weight_at p.clients i) then (p', some i) else rest

pub data PoolError : Type 0 where
  missing_upstream : PoolError

-- `[kGetDispatcher]`
unfoldable pub get_dispatcher : BalancedPool → Result PoolError (BalancedPool × Option ℕ)
get_dispatcher p =
    if length p.clients == 0 then err missing_upstream else ok (seek (length p.clients) p none)

-- ===== src/Pools/RoundRobin/Tests.antt =====
-- `RoundRobinPool` on concrete clients.
use undici.Base.{◌≡◌, refl, true, false, [], ◌∷◌, some}
use undici.Pools.RoundRobin.{
  Connection, RoundRobinPool, new_round_robin_pool, fresh_connection, remove_at, has_id,
  retire_client, some_idle, remove_client, is_stale, reused, refused, make_room, check_client,
  next_round, seek_idle, get_dispatcher, scan_client, scan_idle, has_dispatcher,
}
use undici.Pools.RoundRobin.Turns.{IsTurn, get_dispatcher-IsTurn}
use undici.Pools.RoundRobin.Limits.{IsLimited, made_new, next, got, Reach-IsLimited}

-- a busy client, one whose time is over, and an idle one
abbrev busy : Connection
busy = record (fresh_connection 0) { need_drain = true }

abbrev stale : Connection
stale = record (fresh_connection 1) { ttl = 10 }

abbrev three : RoundRobinPool
three = record (new_round_robin_pool 3 100) {
  clients = busy ∷ stale ∷ fresh_connection 2 ∷ [];
  made = 3;
}

idle_chosen : get_dispatcher three 200 ≡ (
  record three { clients = busy ∷ fresh_connection 2 ∷ []; index = some 1; retiring = 1 ∷ [] },
  reused 1,
)
unfolding get_dispatcher seek_idle next_round check_client is_stale remove_client retire_client
    remove_at has_id some_idle
idle_chosen = refl

abbrev full : RoundRobinPool
full = record (new_round_robin_pool 1 0) { clients = busy ∷ []; made = 1 }

none_chosen : get_dispatcher full 0 ≡ (record full { index = some 0 }, refused)
unfolding get_dispatcher seek_idle next_round check_client is_stale make_room
none_chosen = refl

none_found : has_dispatcher full 0 ≡ (full, false)
unfolding has_dispatcher scan_idle scan_client is_stale make_room
none_found = refl

get_dispatcher-IsTurn_example : IsTurn three 200 (get_dispatcher three 200)
get_dispatcher-IsTurn_example = get_dispatcher-IsTurn three 200

Reach-IsLimited_example : IsLimited (get_dispatcher (new_round_robin_pool 2 0) 5).0
Reach-IsLimited_example = Reach-IsLimited 2 0 (next made_new (got 5))

-- ===== src/Pools/Balanced/Tests.antt =====
-- `BalancedPool` on concrete upstreams.
use Prim.Native.Nat.{◌∣◌}
use undici.Base.{◌≡◌, ◌↔◌, refl, false, List, [], ◌∷◌, Bytes, none, some, ok, err}
use undici.Pools.Balanced.{
  BalancedPool, missing_upstream, new_balanced_pool, add_upstream, add_upstreams,
  on_connection_error, get_dispatcher, update_balanced_pool_stats, get_greatest_common_divisor,
  divisor_loop, divisor_of, find_upstream, enroll, change_at, seek, turn, weight_at, available_at,
  better,
}
use undici.Pools.Balanced.Divisor.{AllDivided, update_balanced_pool_stats_lem}
use undici.Pools.Balanced.Choice.{IsChoice, get_dispatcher-IsChoice}
use undici.Pools.Balanced.Weights.{IsTop, IsWeighed, faulted, made, next, Reach-IsWeighed}

divisor_run : get_greatest_common_divisor 85 100 ≡ 5
unfolding get_greatest_common_divisor divisor_loop
divisor_run = refl

abbrev origins : List Bytes
origins = (97 ∷ []) ∷ (98 ∷ []) ∷ (97 ∷ []) ∷ []

-- Two upstreams, the first of them with an error.
abbrev penalized_first : BalancedPool
penalized_first = on_connection_error (add_upstreams (new_balanced_pool 0 0) origins) 0

abbrev expected : BalancedPool
expected = record {
  clients =
      record {
        origin = 97 ∷ [];
        weight = 85;
        need_drain = false;
        closed = false;
        destroyed = false;
      }
      ∷ record {
        origin = 98 ∷ [];
        weight = 100;
        need_drain = false;
        closed = false;
        destroyed = false;
      }
      ∷ [];
  index = none;
  current_weight = 0;
  greatest_common_divisor = 5;
  max_weight_per_server = 100;
  error_penalty = 15;
  need_drain = false;
  retiring = [];
}

penalized_run : penalized_first ≡ expected
unfolding on_connection_error add_upstreams add_upstream enroll find_upstream
    update_balanced_pool_stats divisor_of get_greatest_common_divisor divisor_loop change_at
penalized_run = refl

second_chosen :
    get_dispatcher expected ≡ ok (record expected { index = some 1; current_weight = 100 }, some 1)
unfolding get_dispatcher seek turn weight_at available_at better
second_chosen = refl

none_there : get_dispatcher (new_balanced_pool 0 0) ≡ err missing_upstream
unfolding get_dispatcher
none_there = refl

get_dispatcher-IsChoice_example : IsChoice expected (get_dispatcher expected)
get_dispatcher-IsChoice_example = get_dispatcher-IsChoice expected

Reach-IsWeighed_example : IsTop 0 100 × IsWeighed penalized_first
unfolding on_connection_error update_balanced_pool_stats add_upstreams add_upstream enroll
    find_upstream
Reach-IsWeighed_example = Reach-IsWeighed 0 0 (next (made origins) (faulted 0))

update_balanced_pool_stats_lem_example :
    (5 ∣ (update_balanced_pool_stats expected).greatest_common_divisor)
    ↔ AllDivided 5 expected.clients
update_balanced_pool_stats_lem_example = update_balanced_pool_stats_lem 5 expected

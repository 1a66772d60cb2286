-- ===== src/Pools/Balanced/Weights.antt =====
-- The weights of `BalancedPool`, in every state that its operations and the events of its pools lead to.
use undici.Base.{
  ℕ, zero, suc, ◌≤◌, ◌<◌, ◌≡◌, ◌⊎◌, refl, sym, ◌∙◌, inl, inr, arith, Bool, ◌&&◌, Option, none, some,
  List, [], ◌∷◌, ◌++◌, Bytes, length, leb, ◌==◌, if◌then◌else◌, map, Bool-cases, Result, ok, err,
  subst,
}
use undici.Pools.Balanced.{
  PoolError, fresh_upstream, enroll, Upstream, BalancedPool, new_balanced_pool, reset_weight,
  find_upstream, add_upstream, add_upstreams, is_upstream, without_upstream, withdraw,
  remove_upstream, update_balanced_pool_stats, change_at, on_connect, on_connection_error, turn,
  next_index, weight_at, available_at, better, seek, get_dispatcher,
}

abbrev AllWeighed : ℕ → List Upstream → Type 0
AllWeighed top [] = Unit
AllWeighed top (u ∷ us) = ((1 ≤ u.weight) × (u.weight ≤ top)) × AllWeighed top us

-- Every weight is between 1 and the highest, and the current weight is the highest at most.
pub record IsWeighed (p : BalancedPool) : Type 0 where
  pub top : 1 ≤ p.max_weight_per_server
  pub weights : AllWeighed p.max_weight_per_server p.clients
  pub current : p.current_weight ≤ p.max_weight_per_server

reset_weight-AllWeighed :
    (top : ℕ) (us : List Upstream) → 1 ≤ top → AllWeighed top (map (reset_weight top) us)
reset_weight-AllWeighed top [] h = tt
reset_weight-AllWeighed top (u ∷ us) h = ((h, omega arith), reset_weight-AllWeighed top us h)

change_at-AllWeighed :
    (top : ℕ) (us : List Upstream) (i : ℕ) (f : Upstream → Upstream)
    → ((u : Upstream) → 1 ≤ u.weight → u.weight ≤ top → (1 ≤ (f u).weight) × ((f u).weight ≤ top))
    → AllWeighed top us
    → AllWeighed top (change_at us i f)
unfolding change_at
change_at-AllWeighed top [] i f h v = tt
change_at-AllWeighed top (u ∷ us) zero f h ((a, b), v) = (h u a b, v)
change_at-AllWeighed top (u ∷ us) (suc i) f h (a, v) = (a, change_at-AllWeighed top us i f h v)

without_upstream-AllWeighed :
    (top : ℕ) (origin : Bytes) (us : List Upstream)
    → AllWeighed top us
    → AllWeighed top (without_upstream origin us)
unfolding without_upstream
without_upstream-AllWeighed top origin [] v = tt
without_upstream-AllWeighed top origin (u ∷ us) (a, v) = elim (Bool-cases (is_upstream origin u)) [
  | inl e ↦ rw e v
  | inr e ↦ rw e (a, without_upstream-AllWeighed top origin us v)
]

enroll-IsWeighed :
    (p : BalancedPool) (origin : Bytes) (there : Option Upstream)
    → IsWeighed p
    → IsWeighed (enroll p origin there)
unfolding enroll update_balanced_pool_stats
enroll-IsWeighed p origin (some u) v = v
enroll-IsWeighed p origin none v = record {
  top = v.top;
  weights =
      reset_weight-AllWeighed p.max_weight_per_server (p.clients ++ (fresh_upstream origin ∷ []))
        v.top;
  current = v.current;
}

add_upstream-IsWeighed :
    (p : BalancedPool) (origin : Bytes) → IsWeighed p → IsWeighed (add_upstream p origin)
unfolding add_upstream
add_upstream-IsWeighed p origin v = enroll-IsWeighed p origin (find_upstream origin p.clients) v

add_upstreams-IsWeighed :
    (p : BalancedPool) (origins : List Bytes) → IsWeighed p → IsWeighed (add_upstreams p origins)
unfolding add_upstreams update_balanced_pool_stats
add_upstreams-IsWeighed p [] v = record { top = v.top; weights = v.weights; current = v.current }
add_upstreams-IsWeighed p (o ∷ origins) v =
    add_upstreams-IsWeighed (add_upstream p o) origins (add_upstream-IsWeighed p o v)

withdraw-IsWeighed :
    (p : BalancedPool) (origin : Bytes) (there : Option Upstream)
    → IsWeighed p
    → IsWeighed (withdraw p origin there)
unfolding withdraw
withdraw-IsWeighed p origin none v = v
withdraw-IsWeighed p origin (some u) v = record {
  top = v.top;
  weights = without_upstream-AllWeighed p.max_weight_per_server origin p.clients v.weights;
  current = v.current;
}

remove_upstream-IsWeighed :
    (p : BalancedPool) (origin : Bytes) → IsWeighed p → IsWeighed (remove_upstream p origin)
unfolding remove_upstream
remove_upstream-IsWeighed p origin v =
    withdraw-IsWeighed p origin (find_upstream origin p.clients) v

on_connect-IsWeighed : (p : BalancedPool) (i : ℕ) → IsWeighed p → IsWeighed (on_connect p i)
unfolding on_connect
on_connect-IsWeighed p i v = record {
  top = v.top;
  weights =
      change_at-AllWeighed p.max_weight_per_server p.clients i _
        (λ u a b. ground (arith, v.top, a, b)) v.weights;
  current = v.current;
}

on_connection_error-IsWeighed :
    (p : BalancedPool) (i : ℕ) → IsWeighed p → IsWeighed (on_connection_error p i)
unfolding on_connection_error update_balanced_pool_stats
on_connection_error-IsWeighed p i v = record {
  top = v.top;
  weights =
      change_at-AllWeighed p.max_weight_per_server p.clients i _
        (λ u a b. ground (arith, v.top, a, b)) v.weights;
  current = v.current;
}

turn-IsWeighed : (p : BalancedPool) → IsWeighed p → IsWeighed (turn p)
unfolding turn
turn-IsWeighed p v = record {
  top = v.top;
  weights = v.weights;
  current = ground (arith, v.current);
}

weight_at_top : (top : ℕ) (us : List Upstream) (i : ℕ) → AllWeighed top us → weight_at us i ≤ top
unfolding weight_at
weight_at_top top [] i v = omega arith
weight_at_top top (u ∷ us) zero ((a, b), v) = b
weight_at_top top (u ∷ us) (suc i) (a, v) = weight_at_top top us i v

seek-IsWeighed :
    (k : ℕ) (p : BalancedPool) (best : Option ℕ) → IsWeighed p → IsWeighed (seek k p best).0
unfolding seek
seek-IsWeighed zero p none v = v
seek-IsWeighed zero p (some m) v = record {
  top = v.top;
  weights = v.weights;
  current = weight_at_top p.max_weight_per_server p.clients m v.weights;
}
seek-IsWeighed (suc k) p best v =
    let i = next_index p.index (length p.clients) in
    elim (Bool-cases
      (available_at p.clients i && leb (turn p).current_weight (weight_at p.clients i))) [
        | inl e ↦ rw e (turn-IsWeighed p v)
        | inr e ↦ rw e (
            seek-IsWeighed k (turn p)
              (if available_at p.clients i then better p.clients best i else best)
              (turn-IsWeighed p v))
      ]

-- what happens to a pool of pools
pub data Step (p : BalancedPool) : BalancedPool → Type 0 where
  added : (origin : Bytes) → Step p (add_upstream p origin)
  removed : (origin : Bytes) → Step p (remove_upstream p origin)
  connected : (i : ℕ) → Step p (on_connect p i)
  faulted : (i : ℕ) → Step p (on_connection_error p i)
  -- a pool gets busy or idle, or closes
  flagged :
      (i : ℕ) (busy closed destroyed : Bool)
      → Step p (record p {
        clients =
            change_at p.clients i
              (λ u. record u { need_drain = busy; closed = closed; destroyed = destroyed });
      })
  chosen : {q : BalancedPool} {r : Option ℕ} → get_dispatcher p ≡ ok (q, r) → Step p q

pub data Reach (max_weight penalty : ℕ) : BalancedPool → Type 0 where
  made :
      (origins : List Bytes)
      → Reach max_weight penalty (add_upstreams (new_balanced_pool max_weight penalty) origins)
  next : {p q : BalancedPool} → Reach max_weight penalty p → Step p q → Reach max_weight penalty q

abbrev OkWeighed : Result PoolError (BalancedPool × Option ℕ) → Type 0
OkWeighed (err e) = Unit
OkWeighed (ok (q, r)) = IsWeighed q

get_dispatcher-OkWeighed : (p : BalancedPool) → IsWeighed p → OkWeighed (get_dispatcher p)
unfolding get_dispatcher
get_dispatcher-OkWeighed p v = elim (Bool-cases (length p.clients == 0)) [
  | inl e ↦ rw e tt
  | inr e ↦ rw e (seek-IsWeighed (length p.clients) p none v)
]

chosen-IsWeighed :
    (p q : BalancedPool) (r : Option ℕ) → get_dispatcher p ≡ ok (q, r) → IsWeighed p → IsWeighed q
chosen-IsWeighed p q r e v = subst OkWeighed e (get_dispatcher-OkWeighed p v)

Step-IsWeighed : {p q : BalancedPool} → Step p q → IsWeighed p → IsWeighed q
Step-IsWeighed {p} (added origin) v = add_upstream-IsWeighed p origin v
Step-IsWeighed {p} (removed origin) v = remove_upstream-IsWeighed p origin v
Step-IsWeighed {p} (connected i) v = on_connect-IsWeighed p i v
Step-IsWeighed {p} (faulted i) v = on_connection_error-IsWeighed p i v
Step-IsWeighed {p} (flagged i busy closed destroyed) v = record {
  top = v.top;
  weights = change_at-AllWeighed p.max_weight_per_server p.clients i _ (λ u a b. (a, b)) v.weights;
  current = v.current;
}
Step-IsWeighed {p} {q} (chosen {r = r} e) v = chosen-IsWeighed p q r e v

-- The highest weight, by the option `maxWeightPerServer`.
abbrev pub IsTop : ℕ → ℕ → Type 0
IsTop max_weight top = ((max_weight ≡ 0) × (top ≡ 100)) ⊎ ((0 < max_weight) × (top ≡ max_weight))

-- Nothing changes the highest weight.
enroll_top :
    (p : BalancedPool) (origin : Bytes) (there : Option Upstream)
    → (enroll p origin there).max_weight_per_server ≡ p.max_weight_per_server
unfolding enroll update_balanced_pool_stats
enroll_top p origin (some u) = refl
enroll_top p origin none = refl

add_upstreams_top :
    (p : BalancedPool) (origins : List Bytes)
    → (add_upstreams p origins).max_weight_per_server ≡ p.max_weight_per_server
unfolding add_upstreams add_upstream update_balanced_pool_stats
add_upstreams_top p [] = refl
add_upstreams_top p (o ∷ origins) =
    add_upstreams_top (add_upstream p o) origins ∙ enroll_top p o (find_upstream o p.clients)

seek_top :
    (k : ℕ) (p : BalancedPool) (best : Option ℕ)
    → (seek k p best).0.max_weight_per_server ≡ p.max_weight_per_server
unfolding seek turn
seek_top zero p none = refl
seek_top zero p (some m) = refl
seek_top (suc k) p best =
    let i = next_index p.index (length p.clients) in
    elim (Bool-cases
      (available_at p.clients i && leb (turn p).current_weight (weight_at p.clients i))) [
        | inl e ↦ rw e refl
        | inr e ↦ rw e (
            seek_top k (turn p)
              (if available_at p.clients i then better p.clients best i else best))
      ]

withdraw_top :
    (p : BalancedPool) (origin : Bytes) (there : Option Upstream)
    → (withdraw p origin there).max_weight_per_server ≡ p.max_weight_per_server
unfolding withdraw
withdraw_top p origin none = refl
withdraw_top p origin (some u) = refl

abbrev OkTop : ℕ → Result PoolError (BalancedPool × Option ℕ) → Type 0
OkTop top (err e) = Unit
OkTop top (ok (q, r)) = q.max_weight_per_server ≡ top

get_dispatcher-OkTop : (p : BalancedPool) → OkTop p.max_weight_per_server (get_dispatcher p)
unfolding get_dispatcher
get_dispatcher-OkTop p = elim (Bool-cases (length p.clients == 0)) [
  | inl e ↦ rw e tt
  | inr e ↦ rw e (seek_top (length p.clients) p none)
]

Step-top : {p q : BalancedPool} → Step p q → q.max_weight_per_server ≡ p.max_weight_per_server
unfolding add_upstream remove_upstream on_connect on_connection_error update_balanced_pool_stats
Step-top {p} (added origin) = enroll_top p origin (find_upstream origin p.clients)
Step-top {p} (removed origin) = withdraw_top p origin (find_upstream origin p.clients)
Step-top (connected i) = refl
Step-top (faulted i) = refl
Step-top (flagged i busy closed destroyed) = refl
Step-top {p} (chosen e) = subst (OkTop p.max_weight_per_server) e (get_dispatcher-OkTop p)

-- Whatever is added and removed, connects and fails, and is chosen, in whatever order: the highest
-- weight is the option `maxWeightPerServer`, or 100 where that is 0; each weight stays between 1 and
-- the highest, and the current weight never gets beyond it.
pub Reach-IsWeighed :
    (max_weight penalty : ℕ) {p : BalancedPool}
    → Reach max_weight penalty p
    → IsTop max_weight p.max_weight_per_server × IsWeighed p
Reach-IsWeighed max_weight penalty (made origins) = (
  subst (IsTop max_weight) (sym (add_upstreams_top (new_balanced_pool max_weight penalty) origins))
      (ground arith),
  add_upstreams-IsWeighed (new_balanced_pool max_weight penalty) origins
      (record { top = ground arith; weights = tt; current = omega arith }),
)
Reach-IsWeighed max_weight penalty (next r a) =
    let (t, v) = Reach-IsWeighed max_weight penalty r in
    (subst (IsTop max_weight) (sym (Step-top a)) t, Step-IsWeighed a v)

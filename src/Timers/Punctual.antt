-- ===== src/Timers/Punctual.antt =====
-- Which timers run out, and when, in every state that calls and ticks lead to.
use undici.Base.{
  ℕ, zero, suc, ◌+◌, ◌-◌, ◌≤◌, ◌≡◌, refl, arith, true, false, Option, none, some, List, [], ◌∷◌,
  length, get_elem?, ◌==◌, if◌then◌else◌, Bool-cases, inl, inr, ==_iff, ==_refl, subst, not, ◌||◌,
}
use undici.Timers.{
  TimerState, not_in_list, to_be_cleared, pending, active, FastTimer, Entry, refreshed, fired,
  cleared, Timers, no_timers, with_timer, note, enlist, ensure_tick, refresh, clear, new_fast_timer,
  Call, start, again, stop, call, calls, is_due, Callbacks, run_out, visit_in, leave, round,
  round_at, sweep, go_on_ticking, on_tick, is_not_in_list, is_to_be_cleared, tick_ms,
}

-- The timeout and the time of the last refresh, if the timer was neither cleared nor run out since.
abbrev pub last_refresh : ℕ → List Entry → Option (ℕ × ℕ)
last_refresh id [] = none
last_refresh id (refreshed i d r ∷ es) = if i == id then some (d, r) else last_refresh id es
last_refresh id (fired i t ∷ es) = if i == id then none else last_refresh id es
last_refresh id (cleared i ∷ es) = if i == id then none else last_refresh id es

abbrev pub RanOut : Option (ℕ × ℕ) → ℕ → Type 0
RanOut none t = ⊥
RanOut (some (d, r)) t = r + d ≤ t + tick_ms

-- Every timer that ran out had been refreshed last, its timeout ago or up to a tick less.
abbrev pub IsPunctual : List Entry → Type 0
IsPunctual [] = Unit
IsPunctual (fired i t ∷ es) = RanOut (last_refresh i es) t × IsPunctual es
IsPunctual (e ∷ es) = IsPunctual es

-- what a timer that waits was last refreshed with
abbrev Waits : TimerState → FastTimer → ℕ → Option (ℕ × ℕ) → Type 0
Waits pending t now last = (r : ℕ) × (last ≡ some (t.idle_timeout, r)) × (r ≤ now)
Waits active t now last =
    (r : ℕ) × (began : ℕ) × (last ≡ some (t.idle_timeout, r))
    × (t.idle_start ≡ some began)
    × (began ≤ now)
    × (r ≤ began + tick_ms)
Waits _ t now last = Unit

abbrev WaitsIn : (ℕ → FastTimer) → ℕ → List Entry → ℕ → Type 0
WaitsIn ts now es i = Waits (ts i).state (ts i) now (last_refresh i es)

record IsKept (ts : ℕ → FastTimer) (now : ℕ) (es : List Entry) : Type 0 where
  waits : (i : ℕ) → WaitsIn ts now es i
  punctual : IsPunctual es

abbrev Kept : Timers → Type 0
Kept s = IsKept s.timers s.fast_now s.log

-- One timer changes, and the log changes for it alone.
Waits-set :
    (ts : ℕ → FastTimer) (now : ℕ) (es es' : List Entry) (id : ℕ) (t : FastTimer)
    → ((i : ℕ) → (i == id) ≡ false → last_refresh i es' ≡ last_refresh i es)
    → Waits t.state t now (last_refresh id es')
    → ((i : ℕ) → WaitsIn ts now es i)
    → (i : ℕ) → WaitsIn (λ j. if j == id then t else ts j) now es' i
Waits-set ts now es es' id t same w v i = elim (Bool-cases (i == id)) [
  | inl e ↦ rw (e, (==_iff i id).0 e) w
  | inr e ↦ rw (e, same i e) (v i)
]

pub ne_sym : (i j : ℕ) → (i == j) ≡ false → (j == i) ≡ false
ne_sym i j h = ground (arith, h)

enlist_fields :
    (s : Timers) (id : ℕ)
    → ((enlist s id).timers ≡ s.timers)
      × ((enlist s id).fast_now ≡ s.fast_now)
      × ((enlist s id).log ≡ s.log)
unfolding enlist
enlist_fields s id = elim (Bool-cases (is_not_in_list (s.timers id).state)) [
  | inl e ↦ rw e (refl, refl, refl)
  | inr e ↦ rw e (refl, refl, refl)
]

ensure_tick_fields :
    (s : Timers)
    → ((ensure_tick s).timers ≡ s.timers)
      × ((ensure_tick s).fast_now ≡ s.fast_now)
      × ((ensure_tick s).log ≡ s.log)
unfolding ensure_tick
ensure_tick_fields s = elim (Bool-cases (not s.fast_now_timeout || (length s.fast_timers == 1))) [
  | inl e ↦ rw e (refl, refl, refl)
  | inr e ↦ rw e (refl, refl, refl)
]

-- A refresh, behind its push.
mark_pending :
    (s : Timers) (id : ℕ)
    → Kept s
    → Kept (
        note
          (with_timer s id (record (s.timers id) { state = pending }))
          (refreshed id (s.timers id).idle_timeout s.fast_now))
mark_pending s id v = record {
  waits =
      Waits-set s.timers s.fast_now s.log
        (refreshed id (s.timers id).idle_timeout s.fast_now ∷ s.log) id
        (record (s.timers id) { state = pending }) (λ i h. rw (ne_sym i id h) refl)
        (s.fast_now, rw (==_refl id) refl, omega arith) v.waits;
  punctual = v.punctual;
}

refresh-IsKept : (s : Timers) (id : ℕ) → Kept s → Kept (refresh s id)
unfolding refresh
refresh-IsKept s id v =
    let (a, b, c) = enlist_fields s id in
    let (d, e, f) = ensure_tick_fields (enlist s id) in
    mark_pending (ensure_tick (enlist s id)) id (rw (d, e, f, a, b, c) v)

clear-IsKept : (s : Timers) (id : ℕ) → Kept s → Kept (clear s id)
unfolding clear
clear-IsKept s id v = record {
  waits =
      Waits-set s.timers s.fast_now s.log (cleared id ∷ s.log) id
        (record (s.timers id) { state = to_be_cleared; idle_start = none })
        (λ i h. rw (ne_sym i id h) refl) tt v.waits;
  punctual = v.punctual;
}

new_fast_timer-IsKept : (s : Timers) (delay : ℕ) → Kept s → Kept (new_fast_timer s delay)
unfolding new_fast_timer
new_fast_timer-IsKept s delay v = refresh-IsKept _ s.created (record {
  waits =
      Waits-set s.timers s.fast_now s.log s.log s.created
        (record { state = not_in_list; idle_timeout = delay; idle_start = none }) (λ i h. refl) tt
        v.waits;
  punctual = v.punctual;
})

call-IsKept : (s : Timers) (c : Call) → Kept s → Kept (call s c)
unfolding call
call-IsKept s (start delay) v = new_fast_timer-IsKept s delay v
call-IsKept s (again id) v = refresh-IsKept s id v
call-IsKept s (stop id) v = clear-IsKept s id v

calls-IsKept : (s : Timers) (cs : List Call) → Kept s → Kept (calls s cs)
unfolding calls
calls-IsKept s [] v = v
calls-IsKept s (c ∷ cs) v = calls-IsKept (call s c) cs (call-IsKept s c v)

-- A timer that is active and due.
ran_out :
    (t : FastTimer) (now : ℕ) (last : Option (ℕ × ℕ))
    → Waits active t now last
    → is_due now t ≡ true
    → RanOut last now
ran_out t now last (r, began, a, b, c, d) h = rw a (ground (arith, b, h, c, d))

run_out-IsKept :
    (callbacks : Callbacks) (s : Timers) (id : ℕ)
    → RanOut (last_refresh id s.log) s.fast_now
    → Kept s
    → Kept (run_out callbacks s id)
unfolding run_out
run_out-IsKept callbacks s id h v = calls-IsKept _ _ (record {
  waits =
      Waits-set s.timers s.fast_now s.log (fired id s.fast_now ∷ s.log) id
        (record (s.timers id) { state = to_be_cleared; idle_start = none })
        (λ i k. rw (ne_sym i id k) refl) tt v.waits;
  punctual = (h, v.punctual);
})

start_waiting :
    (t : FastTimer) (now : ℕ) (last : Option (ℕ × ℕ))
    → Waits pending t now last
    → Waits active (record t { idle_start = some (now - tick_ms) }) now last
start_waiting t now last (r, a, b) = (r, now - tick_ms, a, refl, omega arith, omega arith)

visit_in-IsKept :
    (callbacks : Callbacks) (s : Timers) (id : ℕ) (st : TimerState)
    → (s.timers id).state ≡ st
    → Kept s
    → Kept (visit_in callbacks s id st)
unfolding visit_in
visit_in-IsKept callbacks s id not_in_list e v = v
visit_in-IsKept callbacks s id to_be_cleared e v = v
visit_in-IsKept callbacks s id pending e v = record {
  waits =
      Waits-set s.timers s.fast_now s.log s.log id _ (λ i h. refl)
        (start_waiting (s.timers id) s.fast_now _
          (subst (λ x. Waits x (s.timers id) s.fast_now (last_refresh id s.log)) e (v.waits id)))
        v.waits;
  punctual = v.punctual;
}
visit_in-IsKept callbacks s id active e v = elim (Bool-cases (is_due s.fast_now (s.timers id))) [
  | inl h ↦ rw h (
      run_out-IsKept callbacks s id
        (ran_out (s.timers id) s.fast_now _
          (subst (λ x. Waits x (s.timers id) s.fast_now (last_refresh id s.log)) e (v.waits id)) h)
        v)
  | inr h ↦ rw h v
]

leave-IsKept : (s : Timers) (id idx len : ℕ) → Kept s → Kept (leave s id idx len).0
unfolding leave
leave-IsKept s id idx len v = elim (Bool-cases (is_to_be_cleared (s.timers id).state)) [
  | inl h ↦ rw h (record {
    waits =
        Waits-set s.timers s.fast_now s.log s.log id (record (s.timers id) { state = not_in_list })
          (λ i k. refl) tt v.waits;
    punctual = v.punctual;
  })
  | inr h ↦ rw h v
]

round_at-IsKept :
    (callbacks : Callbacks) (s : Timers) (at : Option ℕ) (idx len : ℕ)
    → Kept s
    → Kept (round_at callbacks s at idx len).0
unfolding round_at
round_at-IsKept callbacks s none idx len v = v
round_at-IsKept callbacks s (some id) idx len v =
    leave-IsKept (visit_in callbacks s id (s.timers id).state) id idx len
      (visit_in-IsKept callbacks s id (s.timers id).state refl v)

sweep-IsKept :
    (callbacks : Callbacks) (s : Timers) (idx k : ℕ) → Kept s → Kept (sweep callbacks s idx k)
unfolding sweep round
sweep-IsKept callbacks s idx zero v = record { waits = v.waits; punctual = v.punctual }
sweep-IsKept callbacks s idx (suc k) v =
    sweep-IsKept callbacks (round callbacks s idx (idx + k)).0 (round callbacks s idx (idx + k)).1 k
      (round_at-IsKept callbacks s (get_elem? s.fast_timers idx) idx (idx + k) v)

later :
    (st : TimerState) (t : FastTimer) (now : ℕ) (last : Option (ℕ × ℕ))
    → Waits st t now last
    → Waits st t (now + tick_ms) last
later not_in_list t now last h = tt
later to_be_cleared t now last h = tt
later pending t now last (r, a, b) = (r, a, omega arith)
later active t now last (r, began, a, b, c, d) = (r, began, a, b, omega arith, d)

go_on_ticking-IsKept : (s : Timers) (ids : List ℕ) → Kept s → Kept (go_on_ticking s ids)
unfolding go_on_ticking
go_on_ticking-IsKept s [] v = v
go_on_ticking-IsKept s (id ∷ ids) v = v

on_tick-IsKept : (callbacks : Callbacks) (s : Timers) → Kept s → Kept (on_tick callbacks s)
unfolding on_tick
on_tick-IsKept callbacks s v = go_on_ticking-IsKept _ _ (
    sweep-IsKept callbacks _ 0 (length s.fast_timers) (record {
      waits =
          λ i. later (s.timers i).state (s.timers i) s.fast_now (last_refresh i s.log) (v.waits i);
      punctual = v.punctual;
    }))

-- What happens to the module: calls of it, and ticks when the platform has one scheduled.
module _ (callbacks : Callbacks) where
  pub data Step (s : Timers) : Timers → Type 0 where
    called : (c : Call) → Step s (call s c)
    ticked : s.scheduled ≡ true → Step s (on_tick callbacks s)

  pub data Reach : Timers → Type 0 where
    here : Reach no_timers
    next : {s s' : Timers} → Reach s → Step s s' → Reach s'

  Step-IsKept : {s s' : Timers} → Step s s' → Kept s → Kept s'
  Step-IsKept {s} (called c) v = call-IsKept s c v
  Step-IsKept {s} (ticked _) v = on_tick-IsKept callbacks s v

  Reach-IsKept : {s : Timers} → Reach s → Kept s
  Reach-IsKept here = record { waits = λ i. tt; punctual = tt }
  Reach-IsKept (next r a) = Step-IsKept a (Reach-IsKept r)

  -- Whatever is called, in whatever order, by callbacks too, and however many ticks there are: each timer
  -- that runs out was created or refreshed before, with neither a clear nor a run between, and
  -- its timeout had passed on the clock of the fast timers but for one tick at most.
  pub Reach-IsPunctual : {s : Timers} → Reach s → IsPunctual s.log
  Reach-IsPunctual r = (Reach-IsKept r).punctual

-- ===== src/Timers/Lost.antt =====
-- A timer that waits and is not in the array stays out of it.
use undici.Base.{
  ℕ, zero, suc, ◌+◌, ◌<◌, ◌≡◌, refl, sym, ap, ◌∙◌, arith, true, false, none, some, List, [], ◌∷◌,
  ◌++◌, length, take, get_elem?, ◌==◌, if◌then◌else◌, Bool-cases, Option-cases, inl, inr, ==_iff,
  not, ◌||◌,
}
use undici.Base.Split.{Lacks}
use undici.Timers.{
  TimerState, not_in_list, to_be_cleared, pending, active, FastTimer, Entry, refreshed, fired,
  cleared, Timers, with_timer, note, enlist, ensure_tick, refresh, clear, new_fast_timer, Call,
  start, again, stop, call, calls, is_due, Callbacks, run_out, visit_in, leave, round, round_at,
  sweep, go_on_ticking, on_tick, is_not_in_list, is_to_be_cleared, move_last, set_at,
}
use undici.Timers.Punctual.{Step, called, ticked, ne_sym}

-- how often a timer ran out
abbrev pub run_outs : ℕ → List Entry → ℕ
run_outs id [] = 0
run_outs id (fired i t ∷ es) = if i == id then suc (run_outs id es) else run_outs id es
run_outs id (e ∷ es) = run_outs id es

Lacks-append : (c : ℕ) (xs ys : List ℕ) → Lacks c xs → Lacks c ys → Lacks c (xs ++ ys)
Lacks-append c [] ys h k = k
Lacks-append c (x ∷ xs) ys (h, hs) k = (h, Lacks-append c xs ys hs k)

Lacks-take : (c n : ℕ) (xs : List ℕ) → Lacks c xs → Lacks c (take n xs)
Lacks-take c zero xs h = tt
Lacks-take c (suc n) [] h = tt
Lacks-take c (suc n) (x ∷ xs) (h, hs) = (h, Lacks-take c n xs hs)

Lacks-get_elem? :
    (c : ℕ) (xs : List ℕ) (i x : ℕ) → Lacks c xs → get_elem? xs i ≡ some x → (x == c) ≡ false
Lacks-get_elem? c [] i x h e = ground (arith, e)
Lacks-get_elem? c (y ∷ xs) zero x (h, hs) e = ground (arith, h, e)
Lacks-get_elem? c (y ∷ xs) (suc i) x (h, hs) e = Lacks-get_elem? c xs i x hs e

Lacks-set_at :
    (c : ℕ) (xs : List ℕ) (i x : ℕ) → Lacks c xs → (x == c) ≡ false → Lacks c (set_at xs i x)
unfolding set_at
Lacks-set_at c [] i x h e = tt
Lacks-set_at c (y ∷ xs) zero x (h, hs) e = (e, hs)
Lacks-set_at c (y ∷ xs) (suc i) x (h, hs) e = (h, Lacks-set_at c xs i x hs e)

Lacks-move_last : (c : ℕ) (xs : List ℕ) (i n : ℕ) → Lacks c xs → Lacks c (move_last xs i n)
unfolding move_last
Lacks-move_last c xs i zero h = h
Lacks-move_last c xs i (suc n) h = elim (Option-cases (get_elem? xs (suc n))) [
  | inl e ↦ rw e h
  | inr (x, e) ↦ rw e (Lacks-set_at c xs i x h (Lacks-get_elem? c xs (suc n) x h e))
]

ne_below : (i j : ℕ) → i < j → (i == j) ≡ false
ne_below i j h = ground arith

true-ne-false : true ≡ false → ⊥
true-ne-false h = ground (arith, h)

-- A timer that waits outside of the array, and ran out `n` times so far.
pub record IsLost (id n : ℕ) (s : Timers) : Type 0 where
  pub waits : is_not_in_list (s.timers id).state ≡ false
  pub absent : Lacks id s.fast_timers
  pub exists : id < s.created
  pub count : run_outs id s.log ≡ n

-- Another entry of the log, and a state of a timer other than NOT_IN_LIST.
relabel_IsLost :
    (id n : ℕ) (s : Timers) (j : ℕ) (t : FastTimer)
    → is_not_in_list t.state ≡ false
    → IsLost id n s
    → IsLost id n (with_timer s j t)
relabel_IsLost id n s j t h v = record {
  waits = elim (Bool-cases (id == j)) [ inl e ↦ rw e h | inr e ↦ rw e v.waits ];
  absent = v.absent;
  exists = v.exists;
  count = v.count;
}

enlist-IsLost : (id n : ℕ) (s : Timers) (j : ℕ) → IsLost id n s → IsLost id n (enlist s j)
unfolding enlist
enlist-IsLost id n s j v = elim (Bool-cases (is_not_in_list (s.timers j).state)) [
  | inl e ↦ rw e (record {
    waits = v.waits;
    absent = Lacks-append id s.fast_timers (j ∷ []) v.absent (
      elim (Bool-cases (j == id)) [
        | inl k ↦ absurd (
            true-ne-false
              (sym e ∙ (ap (λ x. is_not_in_list (s.timers x).state) ((==_iff j id).0 k) ∙ v.waits)))
        | inr k ↦ k
      ],
      tt,
    );
    exists = v.exists;
    count = v.count;
  })
  | inr e ↦ rw e v
]

ensure_tick-IsLost : (id n : ℕ) (s : Timers) → IsLost id n s → IsLost id n (ensure_tick s)
unfolding ensure_tick
ensure_tick-IsLost id n s v =
    elim (Bool-cases (not s.fast_now_timeout || (length s.fast_timers == 1))) [
      | inl e ↦
          rw e (record { waits = v.waits; absent = v.absent; exists = v.exists; count = v.count })
      | inr e ↦ rw e v
    ]

-- an entry that is no run
noted-IsLost :
    (id n : ℕ) (s : Timers) (e : Entry)
    → run_outs id (e ∷ s.log) ≡ run_outs id s.log
    → IsLost id n s
    → IsLost id n (note s e)
noted-IsLost id n s e h v = record {
  waits = v.waits;
  absent = v.absent;
  exists = v.exists;
  count = h ∙ v.count;
}

refresh-IsLost : (id n : ℕ) (s : Timers) (j : ℕ) → IsLost id n s → IsLost id n (refresh s j)
unfolding refresh
refresh-IsLost id n s j v =
    let s' = ensure_tick (enlist s j) in
    noted-IsLost id n (with_timer s' j (record (s'.timers j) { state = pending }))
      (refreshed j (s'.timers j).idle_timeout s'.fast_now) refl
      (relabel_IsLost id n s' j (record (s'.timers j) { state = pending }) refl
        (ensure_tick-IsLost id n (enlist s j) (enlist-IsLost id n s j v)))

clear-IsLost : (id n : ℕ) (s : Timers) (j : ℕ) → IsLost id n s → IsLost id n (clear s j)
unfolding clear
clear-IsLost id n s j v =
    noted-IsLost id n
      (with_timer s j (record (s.timers j) { state = to_be_cleared; idle_start = none }))
      (cleared j) refl
      (relabel_IsLost id n s j (record (s.timers j) { state = to_be_cleared; idle_start = none })
        refl v)

new_fast_timer-IsLost :
    (id n : ℕ) (s : Timers) (delay : ℕ) → IsLost id n s → IsLost id n (new_fast_timer s delay)
unfolding new_fast_timer
new_fast_timer-IsLost id n s delay v = refresh-IsLost id n _ s.created (record {
  waits = rw (ne_below id s.created v.exists) v.waits;
  absent = v.absent;
  exists = (omega (arith, v.exists));
  count = v.count;
})

call-IsLost : (id n : ℕ) (s : Timers) (c : Call) → IsLost id n s → IsLost id n (call s c)
unfolding call
call-IsLost id n s (start delay) v = new_fast_timer-IsLost id n s delay v
call-IsLost id n s (again j) v = refresh-IsLost id n s j v
call-IsLost id n s (stop j) v = clear-IsLost id n s j v

calls-IsLost : (id n : ℕ) (s : Timers) (cs : List Call) → IsLost id n s → IsLost id n (calls s cs)
unfolding calls
calls-IsLost id n s [] v = v
calls-IsLost id n s (c ∷ cs) v = calls-IsLost id n (call s c) cs (call-IsLost id n s c v)

run_out-IsLost :
    (id n : ℕ) (callbacks : Callbacks) (s : Timers) (j : ℕ)
    → (j == id) ≡ false
    → IsLost id n s
    → IsLost id n (run_out callbacks s j)
unfolding run_out
run_out-IsLost id n callbacks s j h v = calls-IsLost id n _ _ (
    noted-IsLost id n
      (with_timer s j (record (s.timers j) { state = to_be_cleared; idle_start = none }))
      (fired j s.fast_now) (rw h refl)
      (relabel_IsLost id n s j (record (s.timers j) { state = to_be_cleared; idle_start = none })
        refl v))

visit_in-IsLost :
    (id n : ℕ) (callbacks : Callbacks) (s : Timers) (j : ℕ) (st : TimerState)
    → (j == id) ≡ false
    → IsLost id n s
    → IsLost id n (visit_in callbacks s j st)
unfolding visit_in
visit_in-IsLost id n callbacks s j not_in_list h v = v
visit_in-IsLost id n callbacks s j to_be_cleared h v = v
visit_in-IsLost id n callbacks s j pending h v = relabel_IsLost id n s j _ refl v
visit_in-IsLost id n callbacks s j active h v = elim (Bool-cases (is_due s.fast_now (s.timers j))) [
  | inl e ↦ rw e (run_out-IsLost id n callbacks s j h v)
  | inr e ↦ rw e v
]

leave-IsLost :
    (id n : ℕ) (s : Timers) (j idx len : ℕ)
    → (j == id) ≡ false
    → IsLost id n s
    → IsLost id n (leave s j idx len).0
unfolding leave
leave-IsLost id n s j idx len h v = elim (Bool-cases (is_to_be_cleared (s.timers j).state)) [
  | inl e ↦ rw e (record {
    waits = rw (ne_sym j id h) v.waits;
    absent = Lacks-move_last id s.fast_timers idx len v.absent;
    exists = v.exists;
    count = v.count;
  })
  | inr e ↦ rw e v
]

round-IsLost :
    (id n : ℕ) (callbacks : Callbacks) (s : Timers) (idx len : ℕ)
    → IsLost id n s
    → IsLost id n (round callbacks s idx len).0
unfolding round round_at
round-IsLost id n callbacks s idx len v = elim (Option-cases (get_elem? s.fast_timers idx)) [
  | inl e ↦ rw e v
  | inr (j, e) ↦
      let h = Lacks-get_elem? id s.fast_timers idx j v.absent e in
      rw e (
        leave-IsLost id n (visit_in callbacks s j (s.timers j).state) j idx len h
          (visit_in-IsLost id n callbacks s j (s.timers j).state h v))
]

sweep-IsLost :
    (id n : ℕ) (callbacks : Callbacks) (s : Timers) (idx k : ℕ)
    → IsLost id n s
    → IsLost id n (sweep callbacks s idx k)
unfolding sweep
sweep-IsLost id n callbacks s idx zero v = record {
  waits = v.waits;
  absent = Lacks-take id idx s.fast_timers v.absent;
  exists = v.exists;
  count = v.count;
}
sweep-IsLost id n callbacks s idx (suc k) v =
    sweep-IsLost id n callbacks (round callbacks s idx (idx + k)).0
      (round callbacks s idx (idx + k)).1 k (round-IsLost id n callbacks s idx (idx + k) v)

go_on_ticking-IsLost :
    (id n : ℕ) (s : Timers) (ids : List ℕ) → IsLost id n s → IsLost id n (go_on_ticking s ids)
unfolding go_on_ticking
go_on_ticking-IsLost id n s [] v = v
go_on_ticking-IsLost id n s (x ∷ ids) v = record {
  waits = v.waits;
  absent = v.absent;
  exists = v.exists;
  count = v.count;
}

on_tick-IsLost :
    (id n : ℕ) (callbacks : Callbacks) (s : Timers)
    → IsLost id n s
    → IsLost id n (on_tick callbacks s)
unfolding on_tick
on_tick-IsLost id n callbacks s v = go_on_ticking-IsLost id n _ _ (
    sweep-IsLost id n callbacks _ 0 (length s.fast_timers)
      (record { waits = v.waits; absent = v.absent; exists = v.exists; count = v.count }))

-- steps from a state on
pub data Onward (callbacks : Callbacks) (s : Timers) : Timers → Type 0 where
  stay : Onward callbacks s s
  then_ : {t u : Timers} → Onward callbacks s t → Step callbacks t u → Onward callbacks s u

Step-IsLost :
    (id n : ℕ) (callbacks : Callbacks) {s t : Timers}
    → Step callbacks s t
    → IsLost id n s
    → IsLost id n t
Step-IsLost id n callbacks {s} (called c) v = call-IsLost id n s c v
Step-IsLost id n callbacks {s} (ticked _) v = on_tick-IsLost id n callbacks s v

-- A timer whose state is not NOT_IN_LIST and that is not in the array never runs out again, whatever is
-- called, a refresh of it or a clear among others, and however many ticks there are.
pub Onward-IsLost :
    (id n : ℕ) (callbacks : Callbacks) {s t : Timers}
    → IsLost id n s
    → Onward callbacks s t
    → IsLost id n t
Onward-IsLost id n callbacks v stay = v
Onward-IsLost id n callbacks v (then_ r a) =
    Step-IsLost id n callbacks a (Onward-IsLost id n callbacks v r)

-- ===== src/Timers/Sweep.antt =====
-- A tick whose callbacks leave the timers alone: what it does to one timer, wherever the swaps put it.
use undici.Base.{
  ℕ, zero, suc, ◌+◌, ◌-◌, ◌≤◌, ◌≡◌, refl, sym, ap, ap₂, ◌∙◌, arith, false, none, some, List, [],
  ◌∷◌, ◌++◌, length, take, get_elem?, ◌==◌, if◌then◌else◌, Bool-cases, inl, inr, ==_iff, ==_refl,
  take-length-append, append_assoc, length-append, subst,
}
use undici.Timers.{
  TimerState, not_in_list, to_be_cleared, pending, active, FastTimer, Timers, calls, is_due,
  Callbacks, run_out, visit_in, leave, round, round_at, sweep, is_to_be_cleared, move_last, move_to,
  set_at, tick_ms,
}
use undici.Timers.Punctual.{ne_sym}
use undici.Timers.Lost.{run_outs}

-- Callbacks that call nothing here.
abbrev pub silent : Callbacks
silent id s = []

-- how often a number is in a list
abbrev pub count : ℕ → List ℕ → ℕ
count i [] = 0
count i (x ∷ xs) = if x == i then suc (count i xs) else count i xs

count-append : (i : ℕ) (xs ys : List ℕ) → count i (xs ++ ys) ≡ count i xs + count i ys
count-append i [] ys = omega arith
count-append i (x ∷ xs) ys = ground (arith, count-append i xs ys)

get_elem?-append :
    (xs : List ℕ) (x : ℕ) (ys : List ℕ) → get_elem? (xs ++ (x ∷ ys)) (length xs) ≡ some x
get_elem?-append [] x ys = refl
get_elem?-append (y ∷ xs) x ys = get_elem?-append xs x ys

set_at-append :
    (xs : List ℕ) (x y : ℕ) (ys : List ℕ) → set_at (xs ++ (x ∷ ys)) (length xs) y ≡ xs ++ (y ∷ ys)
unfolding set_at
set_at-append [] x y ys = refl
set_at-append (z ∷ xs) x y ys = ap (◌∷◌ z) (set_at-append xs x y ys)

-- A list that is not empty ends in an item.
last_of : (x : ℕ) (xs : List ℕ) → (init : List ℕ) × (last : ℕ) × (x ∷ xs ≡ init ++ (last ∷ []))
last_of x [] = ([], x, refl)
last_of x (y ∷ xs) = let (init, last, e) = last_of y xs in (x ∷ init, last, ap (◌∷◌ x) e)

-- What the removal leaves: as many places to visit as were left, with the same timers.
abbrev Moved : ℕ → List ℕ → List ℕ → List ℕ → Type 0
Moved i front mid result =
    (mid' : List ℕ) × (tail : List ℕ) × (result ≡ front ++ (mid' ++ tail))
    × (length mid' ≡ length mid)
    × (count i mid' ≡ count i mid)

move_last_none :
    (i : ℕ) (front : List ℕ) (x : ℕ) (tail : List ℕ) (n : ℕ)
    → n ≡ length front
    → Moved i front [] (move_last (front ++ (x ∷ tail)) (length front) n)
unfolding move_last
move_last_none i front x tail zero e = ([], x ∷ tail, refl, refl, refl)
move_last_none i front x tail (suc n) e = (
  [],
  x ∷ tail,
  ap (λ m. move_to (front ++ (x ∷ tail)) (length front) (get_elem? (front ++ (x ∷ tail)) m)) e
      ∙ (ap (move_to (front ++ (x ∷ tail)) (length front)) (get_elem?-append front x tail)
          ∙ set_at-append front x x tail),
  refl,
  refl,
)

move_last_some :
    (i : ℕ) (front : List ℕ) (x : ℕ) (init : List ℕ) (last : ℕ) (tail : List ℕ) (n : ℕ)
    → n ≡ length (front ++ (x ∷ init))
    → Moved i front
        (init ++ (last ∷ []))
        (move_last (front ++ (x ∷ ((init ++ (last ∷ [])) ++ tail))) (length front) n)
unfolding move_last
move_last_some i front x init last tail zero e =
    absurd (ground (arith, e, length-append front (x ∷ init)))
move_last_some i front x init last tail (suc n) e =
    let all = front ++ (x ∷ ((init ++ (last ∷ [])) ++ tail)) in
    let shape : all ≡ (front ++ (x ∷ init)) ++ (last ∷ tail) =
      ap (λ ys. front ++ (x ∷ ys)) (append_assoc init (last ∷ []) tail)
      ∙ sym (append_assoc front (x ∷ init) (last ∷ tail)) in
    let found : get_elem? all (suc n) ≡ some last =
      ap₂ (λ ys m. get_elem? ys m) shape e ∙ get_elem?-append (front ++ (x ∷ init)) last tail in
    (
      last ∷ init,
      last ∷ tail,
      ap (move_to all (length front)) found
          ∙ (set_at-append front x last ((init ++ (last ∷ [])) ++ tail)
              ∙ ap (λ ys. front ++ (last ∷ ys)) (append_assoc init (last ∷ []) tail)),
      ground (arith, length-append init (last ∷ [])),
      ground (arith, count-append i init (last ∷ [])),
    )

move_last_lem :
    (i : ℕ) (front : List ℕ) (x : ℕ) (rest tail : List ℕ)
    → Moved i front rest
        (move_last (front ++ (x ∷ (rest ++ tail))) (length front) (length front + length rest))
move_last_lem i front x [] tail = move_last_none i front x tail (length front + 0) (omega arith)
move_last_lem i front x (y ∷ rest) tail =
    let (init, last, e) = last_of y rest in
    subst
      (λ ys.
        Moved i front ys
          (move_last (front ++ (x ∷ (ys ++ tail))) (length front) (length front + length ys)))
      (sym e)
      (move_last_some i front x init last tail _
        (ground (arith, length-append init (last ∷ []), length-append front (x ∷ init))))

-- what a tick makes of a timer, by its state
unfoldable pub settled_in : TimerState → ℕ → FastTimer → FastTimer
settled_in pending now t = record t { state = active; idle_start = some (now - tick_ms) }
settled_in active now t =
    if is_due now t then record t { state = to_be_cleared; idle_start = none } else t
settled_in _ now t = t

abbrev pub settled : ℕ → FastTimer → FastTimer
settled now t = settled_in t.state now t

abbrev pub runs_out_in : TimerState → ℕ → FastTimer → ℕ
runs_out_in active now t = if is_due now t then 1 else 0
runs_out_in _ now t = 0

abbrev pub left : FastTimer → FastTimer
left t = if is_to_be_cleared t.state then record t { state = not_in_list } else t

-- A visit, of a timer or of another one.
record IsVisit (i x : ℕ) (st : TimerState) (s r : Timers) : Type 0 where
  time : r.fast_now ≡ s.fast_now
  array : r.fast_timers ≡ s.fast_timers
  timer : r.timers i ≡ (if i == x then settled_in st s.fast_now (s.timers x) else s.timers i)
  runs :
      run_outs i r.log
      ≡ run_outs i s.log + (if i == x then runs_out_in st s.fast_now (s.timers x) else 0)

same_timer : (ts : ℕ → FastTimer) (i x : ℕ) → ts i ≡ (if i == x then ts x else ts i)
same_timer ts i x = elim (Bool-cases (i == x)) [
  | inl e ↦ rw e (ap ts ((==_iff i x).0 e))
  | inr e ↦ rw e refl
]

no_run : (n i x : ℕ) → n ≡ n + (if i == x then 0 else 0)
no_run n i x = ground arith

visit_in-IsVisit :
    (i x : ℕ) (st : TimerState) (s : Timers) → IsVisit i x st s (visit_in silent s x st)
unfolding visit_in settled_in run_out calls
visit_in-IsVisit i x not_in_list s = record {
  time = refl;
  array = refl;
  timer = same_timer s.timers i x;
  runs = no_run _ i x;
}
visit_in-IsVisit i x to_be_cleared s = record {
  time = refl;
  array = refl;
  timer = same_timer s.timers i x;
  runs = no_run _ i x;
}
visit_in-IsVisit i x pending s = record {
  time = refl;
  array = refl;
  timer = refl;
  runs = no_run _ i x;
}
visit_in-IsVisit i x active s = elim (Bool-cases (is_due s.fast_now (s.timers x))) [
  | inl e ↦
      rw e (record { time = refl; array = refl; timer = rw e refl; runs = rw e (ground arith) })
  | inr e ↦ rw e (record {
    time = refl;
    array = refl;
    timer = rw e (same_timer s.timers i x);
    runs = rw e (no_run _ i x);
  })
]

-- The end of a round, and the places in front of the next one and from it on.
record IsLeave (i x : ℕ) (front rest : List ℕ) (s r : Timers) (idx : ℕ) : Type 0 where
  time : r.fast_now ≡ s.fast_now
  timer : r.timers i ≡ (if i == x then left (s.timers x) else s.timers i)
  runs : run_outs i r.log ≡ run_outs i s.log
  front' : List ℕ
  rest' : List ℕ
  tail' : List ℕ
  array : r.fast_timers ≡ front' ++ (rest' ++ tail')
  index : length front' ≡ idx
  size : length rest' ≡ length rest
  later : count i rest' ≡ count i rest
  kept :
      count i front'
      ≡ count i front
        + (if i == x then (if is_to_be_cleared (s.timers x).state then 0 else 1) else 0)

leave-IsLeave :
    (i x : ℕ) (front rest tail : List ℕ) (s : Timers)
    → s.fast_timers ≡ front ++ (x ∷ (rest ++ tail))
    → let r = leave s x (length front) (length front + length rest) in
      IsLeave i x front rest s r.0 r.1
unfolding leave
leave-IsLeave i x front rest tail s a = elim (Bool-cases (is_to_be_cleared (s.timers x).state)) [
  | inl e ↦
      let (rest', tail', b, c, d) = move_last_lem i front x rest tail in
      rw e (record {
        time = refl;
        timer = rw e refl;
        runs = refl;
        front' = front;
        rest' = rest';
        tail' = tail';
        array = ap (λ ys. move_last ys (length front) (length front + length rest)) a ∙ b;
        index = refl;
        size = c;
        later = d;
        kept = rw e (no_run (count i front) i x);
      })
  | inr e ↦ rw e (record {
    time = refl;
    timer = rw e (same_timer s.timers i x);
    runs = refl;
    front' = front ++ (x ∷ []);
    rest' = rest;
    tail' = tail;
    array = a ∙ sym (append_assoc front (x ∷ []) (rest ++ tail));
    index = ground (arith, length-append front (x ∷ []));
    size = refl;
    later = refl;
    kept = rw e (ground (arith, count-append i front (x ∷ [])));
  })
]

-- What the places from one on make of a timer that is `c` times in them.
pub record IsSwept (i c : ℕ) (front : List ℕ) (s r : Timers) : Type 0 where
  pub time : r.fast_now ≡ s.fast_now
  pub timer : r.timers i ≡ (if c == 0 then s.timers i else left (settled s.fast_now (s.timers i)))
  pub runs :
      run_outs i r.log
      ≡ run_outs i s.log
        + (if c == 0 then 0 else runs_out_in (s.timers i).state s.fast_now (s.timers i))
  pub place :
      count i r.fast_timers
      ≡ count i front
        + (if c == 0
            then 0
            else (if is_to_be_cleared (settled s.fast_now (s.timers i)).state then 0 else 1))

round_first :
    (s : Timers) (front : List ℕ) (x : ℕ) (more : List ℕ) (n : ℕ)
    → s.fast_timers ≡ front ++ (x ∷ more)
    → round silent s (length front) n
      ≡ leave (visit_in silent s x (s.timers x).state) x (length front) n
unfolding round round_at
round_first s front x more n a =
    ap (λ o. round_at silent s o (length front) n)
      (ap (λ ys. get_elem? ys (length front)) a ∙ get_elem?-append front x more)

plus_zero : (n : ℕ) → n + 0 ≡ n
plus_zero n = omega arith

-- the timer itself was visited
IsSwept-here :
    (i : ℕ) (front rest : List ℕ) (s s1 r q : Timers) (idx : ℕ)
    → count i rest ≡ 0
    → IsVisit i i (s.timers i).state s s1
    → (l : IsLeave i i front rest s1 r idx) → IsSwept i (count i l.rest') l.front' r q
    → IsSwept i 1 front s q
IsSwept-here i front rest s s1 r q idx z v l h =
    let none_left = l.later ∙ z in
    let visited = rw (==_refl i) at v.timer in
    record {
      time = h.time ∙ (l.time ∙ v.time);
      timer = (rw none_left at h.timer) ∙ ((rw (==_refl i) at l.timer) ∙ ap left visited);
      runs = omega (arith, rw none_left at h.runs, l.runs, rw (==_refl i) at v.runs);
      place =
          (rw none_left at h.place)
          ∙ (plus_zero (count i l.front') ∙ rw (==_refl i, visited) at l.kept);
    }

IsSwept-same :
    (i x : ℕ) (front rest : List ℕ) (s s1 r q : Timers) (idx : ℕ)
    → i ≡ x
    → count i rest ≡ 0
    → IsVisit i x (s.timers x).state s s1
    → (l : IsLeave i x front rest s1 r idx) → IsSwept i (count i l.rest') l.front' r q
    → IsSwept i 1 front s q
IsSwept-same i x front rest s s1 r q idx p z =
    subst
      (λ y.
        IsVisit i y (s.timers y).state s s1
        → (l : IsLeave i y front rest s1 r idx) → IsSwept i (count i l.rest') l.front' r q
        → IsSwept i 1 front s q)
      p (IsSwept-here i front rest s s1 r q idx z)

IsSwept-there :
    (i x : ℕ) (front rest : List ℕ) (s s1 r q : Timers) (idx : ℕ)
    → (i == x) ≡ false
    → IsVisit i x (s.timers x).state s s1
    → (l : IsLeave i x front rest s1 r idx) → IsSwept i (count i l.rest') l.front' r q
    → IsSwept i (count i rest) front s q
IsSwept-there i x front rest s s1 r q idx e v l h =
    let timer = (rw e at l.timer) ∙ rw e at v.timer in
    let time = l.time ∙ v.time in
    record {
      time = h.time ∙ time;
      timer = rw (l.later, timer, time) at h.timer;
      runs =
          rw (l.later, timer, time, l.runs ∙ ((rw e at v.runs) ∙ plus_zero (run_outs i s.log))) at
            h.runs;
      place = rw (l.later, timer, time, (rw e at l.kept) ∙ plus_zero (count i front)) at h.place;
    }

pub sweep-IsSwept :
    (k i : ℕ) (s : Timers) (front mid tail : List ℕ)
    → s.fast_timers ≡ front ++ (mid ++ tail)
    → length mid ≡ k
    → count i mid ≤ 1
    → IsSwept i (count i mid) front s (sweep silent s (length front) k)
unfolding sweep
sweep-IsSwept zero i s front [] tail a b c = record {
  time = refl;
  timer = refl;
  runs = omega arith;
  place =
      ap (λ ys. count i (take (length front) ys)) a
      ∙ (ap (count i) (take-length-append front tail) ∙ sym (plus_zero (count i front)));
}
sweep-IsSwept zero i s front (x ∷ mid) tail a b c = absurd (omega (arith, b))
sweep-IsSwept (suc k) i s front [] tail a b c = absurd (omega (arith, b))
sweep-IsSwept (suc k) i s front (x ∷ rest) tail a b c =
    let s1 = visit_in silent s x (s.timers x).state in
    let v = visit_in-IsVisit i x (s.timers x).state s in
    let n = length front + length rest in
    let r = leave s1 x (length front) n in
    let l = leave-IsLeave i x front rest tail s1 (v.array ∙ a) in
    let h =
      sweep-IsSwept k i r.0 l.front' l.rest' l.tail' l.array (l.size ∙ omega (arith, b))
        (ground (arith, l.later, c)) in
    let q = sweep silent r.0 (length l.front') k in
    let core : IsSwept i (count i (x ∷ rest)) front s q = elim (Bool-cases (x == i)) [
      | inl e ↦
          let z : count i rest ≡ 0 = ground (arith, c, e) in
          rw (e, z) (IsSwept-same i x front rest s s1 r.0 q r.1 (sym ((==_iff x i).0 e)) z v l h)
      | inr e ↦ rw e (IsSwept-there i x front rest s s1 r.0 q r.1 (ne_sym x i e) v l h)
    ] in
    let first : round silent s (length front) (length front + k) ≡ r =
      round_first s front x (rest ++ tail) (length front + k) a
      ∙ ap (λ m. leave s1 x (length front) (length front + m)) {x = k} {y = length rest}
          (omega (arith, b)) in
    subst (λ o. IsSwept i (count i (x ∷ rest)) front s (sweep silent o.0 o.1 k)) (sym first)
      (subst (λ j. IsSwept i (count i (x ∷ rest)) front s (sweep silent r.0 j k)) l.index core)

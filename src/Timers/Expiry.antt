-- ===== src/Timers/Expiry.antt =====
-- A fast timer that waits runs out, once, within a known number of ticks.
use undici.Base.{
  ℕ, zero, suc, ◌+◌, ◌-◌, ◌*◌, ◌≤◌, ◌≡◌, refl, sym, ap, ◌∙◌, arith, false, Option, some, List, [],
  ◌∷◌, length, leb, Bool-cases, inl, inr, append-nil, subst,
}
use undici.Timers.{pending, active, Timers, sweep, go_on_ticking, on_tick, tick_ms}
use undici.Timers.Lost.{run_outs}
use undici.Timers.Sweep.{silent, count, settled_in, IsSwept, sweep-IsSwept}

-- a tick after another
unfoldable pub ticks : ℕ → Timers → Timers
ticks zero s = s
ticks (suc n) s = ticks n (on_tick silent s)

abbrev ticking : Timers → Timers
ticking s = record s { scheduled = false; fast_now = s.fast_now + tick_ms }

go_on_ticking-IsSwept :
    (i c : ℕ) (s r : Timers) (ids : List ℕ)
    → IsSwept i c [] s r
    → IsSwept i c [] s (go_on_ticking r ids)
unfolding go_on_ticking
go_on_ticking-IsSwept i c s r [] h = h
go_on_ticking-IsSwept i c s r (x ∷ ids) h = record {
  time = h.time;
  timer = h.timer;
  runs = h.runs;
  place = h.place;
}

on_tick-IsSwept :
    (i : ℕ) (s : Timers)
    → count i s.fast_timers ≤ 1
    → IsSwept i (count i s.fast_timers) [] (ticking s) (on_tick silent s)
unfolding on_tick
on_tick-IsSwept i s h =
    go_on_ticking-IsSwept i _ (ticking s) (sweep silent (ticking s) 0 (length s.fast_timers)) _ (
      sweep-IsSwept (length s.fast_timers) i (ticking s) [] s.fast_timers []
        (sym (append-nil s.fast_timers)) refl h)

tick_of :
    (i c : ℕ) (s : Timers)
    → count i s.fast_timers ≡ c
    → c ≤ 1
    → IsSwept i c [] (ticking s) (on_tick silent s)
tick_of i c s e h =
    subst (λ m. IsSwept i m [] (ticking s) (on_tick silent s)) e
      (on_tick-IsSwept i s (omega (arith, e, h)))

-- A timer that is not in the array does not run out.
run_outs-ticks_gone :
    (n i : ℕ) (s : Timers)
    → count i s.fast_timers ≡ 0
    → run_outs i (ticks n s).log ≡ run_outs i s.log
unfolding ticks
run_outs-ticks_gone zero i s h = refl
run_outs-ticks_gone (suc n) i s h =
    let w = tick_of i 0 s h (omega arith) in
    run_outs-ticks_gone n i (on_tick silent s) w.place ∙ (w.runs ∙ omega arith)

more_ticks : (n due now : ℕ) → leb due (now + tick_ms) ≡ false → due ≤ now + suc n * tick_ms → 1 ≤ n
more_ticks zero due now g l = absurd (ground (arith, g, l))
more_ticks (suc n) due now g l = omega arith

-- an active timer
run_outs-ticks_active :
    (n i d began : ℕ) (s : Timers)
    → s.timers i ≡ record { state = active; idle_timeout = d; idle_start = some began }
    → count i s.fast_timers ≡ 1
    → 1 ≤ n
    → began + d ≤ s.fast_now + n * tick_ms
    → run_outs i (ticks n s).log ≡ suc (run_outs i s.log)
unfolding ticks settled_in
run_outs-ticks_active zero i d began s e h k l = absurd (omega (arith, k))
run_outs-ticks_active (suc n) i d began s e h k l =
    let w = tick_of i 1 s h (omega arith) in
    elim (Bool-cases (leb (began + d) (s.fast_now + tick_ms))) [
      | inl g ↦
          run_outs-ticks_gone n i (on_tick silent s) (rw (e, g) at w.place)
          ∙ ((rw (e, g) at w.runs) ∙ omega arith)
      | inr g ↦
          run_outs-ticks_active n i d began (on_tick silent s) (rw (e, g) at w.timer)
            (rw (e, g) at w.place) (more_ticks n (began + d) s.fast_now g l)
            (omega (arith, l, w.time))
          ∙ ap suc ((rw (e, g) at w.runs) ∙ omega arith)
    ]

-- A timer that waits for its first tick, is in the array just once and has the timeout `d` runs out exactly once in any
-- number of ticks from two on that take `d` ms together, where the callbacks of these ticks leave the
-- timers alone: whatever other timers are in the array, wherever it stands and is moved to.
pub run_outs-ticks :
    (n i d : ℕ) (last : Option ℕ) (s : Timers)
    → s.timers i ≡ record { state = pending; idle_timeout = d; idle_start = last }
    → count i s.fast_timers ≡ 1
    → 2 ≤ n
    → d ≤ n * tick_ms
    → run_outs i (ticks n s).log ≡ suc (run_outs i s.log)
unfolding ticks settled_in
run_outs-ticks zero i d last s e h k l = absurd (omega (arith, k))
run_outs-ticks (suc n) i d last s e h k l =
    let w = tick_of i 1 s h (omega arith) in
    run_outs-ticks_active n i d (s.fast_now + tick_ms - tick_ms) (on_tick silent s)
      (rw e at w.timer) (rw e at w.place) (omega (arith, k)) (omega (arith, l, w.time))
    ∙ ap suc ((rw e at w.runs) ∙ omega arith)

-- ===== src/Timers/Tests.antt =====
-- The fast timers on concrete calls.
use undici.Base.{none, suc, zero, ◌≡◌, refl, arith, [], ◌∷◌}
use undici.Timers.{
  Timers, no_timers, refreshed, fired, start, again, stop, call, calls, Callbacks, on_tick,
  new_fast_timer, refresh, enlist, ensure_tick, sweep, round, round_at, visit_in, leave, run_out,
  move_last, go_on_ticking,
}
use undici.Timers.Punctual.{IsPunctual, called, ticked, here, next, Reach-IsPunctual}
use undici.Timers.Ticking.{IsTicking, Reach-IsTicking}
use undici.Timers.Expiry.{ticks, run_outs-ticks}
use undici.Timers.Lost.{run_outs, IsLost, stay, then_, Onward-IsLost}

-- The first timer's callback starts another one.
abbrev renewing : Callbacks
renewing zero s = start 2000 ∷ []
renewing _ s = []

abbrev first_started : Timers
first_started = call no_timers (start 1001)

abbrev second_tick : Timers
second_tick = on_tick renewing (on_tick renewing first_started)

abbrev third_tick : Timers
third_tick = on_tick renewing second_tick

first_ran_out : third_tick.log ≡ refreshed 1 2000 1497 ∷ fired 0 1497 ∷ refreshed 0 1001 0 ∷ []
unfolding call new_fast_timer refresh enlist ensure_tick on_tick sweep round round_at visit_in leave
    run_out move_last go_on_ticking calls
first_ran_out = refl

second-IsLost : IsLost 1 0 third_tick
unfolding call new_fast_timer refresh enlist ensure_tick on_tick sweep round round_at visit_in leave
    run_out move_last go_on_ticking calls
second-IsLost = record { waits = refl; absent = tt; exists = omega arith; count = refl }

Onward-IsLost_example : IsLost 1 0 (call (call third_tick (again 1)) (stop 1))
Onward-IsLost_example =
    Onward-IsLost 1 0 renewing second-IsLost
      (then_ (then_ stay (called (again 1))) (called (stop 1)))

Reach-IsPunctual_example : IsPunctual third_tick.log
unfolding call new_fast_timer refresh enlist ensure_tick on_tick sweep round round_at visit_in leave
    run_out move_last go_on_ticking calls
Reach-IsPunctual_example =
    Reach-IsPunctual renewing (
      next (next (next (next here (called (start 1001))) (ticked refl)) (ticked refl))
        (ticked refl))

Reach-IsTicking_example : IsTicking first_started
Reach-IsTicking_example = Reach-IsTicking renewing (next here (called (start 1001)))

-- The second of two timers, in the ticks in which the first one runs out and it takes its place.
abbrev both_started : Timers
both_started = call first_started (start 1200)

run_outs-ticks_example : run_outs 1 (ticks 3 both_started).log ≡ suc (run_outs 1 both_started.log)
unfolding call new_fast_timer refresh enlist ensure_tick
run_outs-ticks_example =
    run_outs-ticks 3 1 1200 none both_started refl refl (omega arith) (omega arith)

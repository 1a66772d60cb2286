-- ===== src/Timers/Ticking.antt =====
-- While the array holds timers, a tick is scheduled.
use undici.Base.{ℕ, ◌<◌, ◌≡◌, refl, arith, true, List, [], ◌∷◌, length, length-append}
use undici.Timers.{
  Timers, enlist, ensure_tick, refresh, clear, new_fast_timer, Call, start, again, stop, call,
  Callbacks, go_on_ticking, on_tick,
}
use undici.Timers.Punctual.{Step, called, ticked, Reach, here, next}

abbrev pub IsTicking : Timers → Type 0
IsTicking s = 0 < length s.fast_timers → s.scheduled ≡ true

-- The push of a refresh, and the test behind it.
ensure_tick-enlist : (s : Timers) (id : ℕ) → IsTicking s → IsTicking (ensure_tick (enlist s id))
unfolding enlist ensure_tick
ensure_tick-enlist s id h = ground (arith, h, length-append s.fast_timers (id ∷ []))

refresh-IsTicking : (s : Timers) (id : ℕ) → IsTicking s → IsTicking (refresh s id)
unfolding refresh
refresh-IsTicking s id h = ensure_tick-enlist s id h

call-IsTicking : (s : Timers) (c : Call) → IsTicking s → IsTicking (call s c)
unfolding call clear new_fast_timer
call-IsTicking s (start delay) h = refresh-IsTicking _ s.created h
call-IsTicking s (again id) h = refresh-IsTicking s id h
call-IsTicking s (stop id) h = h

go_on_ticking-IsTicking :
    (s : Timers) (ids : List ℕ) → s.fast_timers ≡ ids → IsTicking (go_on_ticking s ids)
unfolding go_on_ticking
go_on_ticking-IsTicking s [] e h = absurd (ground (arith, h, e))
go_on_ticking-IsTicking s (id ∷ ids) e h = refl

on_tick-IsTicking : (callbacks : Callbacks) (s : Timers) → IsTicking (on_tick callbacks s)
unfolding on_tick
on_tick-IsTicking callbacks s = go_on_ticking-IsTicking _ _ refl

Step-IsTicking :
    (callbacks : Callbacks) {s s' : Timers} → Step callbacks s s' → IsTicking s → IsTicking s'
Step-IsTicking callbacks {s} (called c) h = call-IsTicking s c h
Step-IsTicking callbacks {s} (ticked _) h = on_tick-IsTicking callbacks s

-- Whatever is called and however many ticks there are, and whatever the callbacks do: while the array
-- holds a timer, a tick is scheduled.
pub Reach-IsTicking : (callbacks : Callbacks) {s : Timers} → Reach callbacks s → IsTicking s
Reach-IsTicking callbacks here = λ h. absurd (omega (arith, h))
Reach-IsTicking callbacks (next {s} r a) = Step-IsTicking callbacks a (Reach-IsTicking callbacks r)

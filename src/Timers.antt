-- ===== src/Timers.antt =====
-- lib/util/timers.js: the fast timers. A FastTimer is known by the number of its creation, and `timers`
-- holds the fields of each; `fast_timers` is the array. What a callback does to the timers is the
-- environment's and may depend on all that is so far; it does not throw. Delays are natural numbers.
pub mod Punctual
pub mod Lost
pub mod Ticking
pub mod Sweep
pub mod Expiry
mod Tests
use undici.Base.{
  ℕ, zero, suc, ◌+◌, ◌-◌, Bool, true, false, ◌&&◌, ◌||◌, not, Option, none, some, List, [], ◌∷◌,
  ◌++◌, length, take, get_elem?, leb, ◌==◌, if◌then◌else◌,
}

-- `RESOLUTION_MS` and `TICK_MS`
abbrev pub resolution_ms : ℕ
resolution_ms = 1000

abbrev pub tick_ms : ℕ
tick_ms = 499

pub data TimerState : Type 0 where
  not_in_list to_be_cleared pending active : TimerState

-- `idle_start` is none for -1.
pub record FastTimer : Type 0 where
  pub state : TimerState
  pub idle_timeout : ℕ
  pub idle_start : Option ℕ

-- what happened, with the timer and the time of `fast_now`
pub data Entry : Type 0 where
  -- with the timeout too
  refreshed : ℕ → ℕ → ℕ → Entry
  fired : ℕ → ℕ → Entry
  cleared : ℕ → Entry

-- `fast_now_timeout` says whether that variable is set, `scheduled` whether the platform will call `onTick`.
pub record Timers : Type 0 where
  pub fast_now : ℕ
  pub created : ℕ
  pub timers : ℕ → FastTimer
  pub fast_timers : List ℕ
  pub fast_now_timeout : Bool
  pub scheduled : Bool
  pub log : List Entry

-- the module when it is loaded
abbrev pub no_timers : Timers
no_timers = record {
  fast_now = 0;
  created = 0;
  timers = λ id. record { state = not_in_list; idle_timeout = 0; idle_start = none };
  fast_timers = [];
  fast_now_timeout = false;
  scheduled = false;
  log = [];
}

-- an assignment to the fields of one timer
abbrev pub with_timer : Timers → ℕ → FastTimer → Timers
with_timer s id t = record s { timers = λ i. if i == id then t else s.timers i }

abbrev pub note : Timers → Entry → Timers
note s e = record s { log = e ∷ s.log }

-- `refreshTimeout`
abbrev pub refresh_timeout : Timers → Timers
refresh_timeout s = record s { fast_now_timeout = true; scheduled = true }

abbrev pub is_not_in_list : TimerState → Bool
is_not_in_list not_in_list = true
is_not_in_list _ = false

abbrev pub is_to_be_cleared : TimerState → Bool
is_to_be_cleared to_be_cleared = true
is_to_be_cleared _ = false

-- the push of `refresh`
unfoldable pub enlist : Timers → ℕ → Timers
enlist s id =
    if is_not_in_list (s.timers id).state
    then record s { fast_timers = s.fast_timers ++ (id ∷ []) }
    else s

-- the test of `refresh` whether a tick has to be scheduled
unfoldable pub ensure_tick : Timers → Timers
ensure_tick s =
    if not s.fast_now_timeout || (length s.fast_timers == 1) then refresh_timeout s else s

-- `FastTimer.refresh`
unfoldable pub refresh : Timers → ℕ → Timers
refresh s id =
    let s' = ensure_tick (enlist s id) in
    note (with_timer s' id (record (s'.timers id) { state = pending }))
      (refreshed id (s'.timers id).idle_timeout s'.fast_now)

-- `FastTimer.clear`
unfoldable pub clear : Timers → ℕ → Timers
clear s id =
    note (with_timer s id (record (s.timers id) { state = to_be_cleared; idle_start = none }))
      (cleared id)

-- the constructor, and `setFastTimeout`; the new timer's number is `s.created`
unfoldable pub new_fast_timer : Timers → ℕ → Timers
new_fast_timer s delay =
    refresh
      (record (with_timer s s.created
        (record { state = not_in_list; idle_timeout = delay; idle_start = none })) {
          created = suc s.created;
        })
      s.created

-- the calls of a callback
pub data Call : Type 0 where
  start : ℕ → Call
  again : ℕ → Call
  stop : ℕ → Call

unfoldable pub call : Timers → Call → Timers
call s (start delay) = new_fast_timer s delay
call s (again id) = refresh s id
call s (stop id) = clear s id

unfoldable pub calls : Timers → List Call → Timers
calls s [] = s
calls s (c ∷ cs) = calls (call s c) cs

-- `fastNow >= timer._idleStart + timer._idleTimeout`
abbrev pub is_due : ℕ → FastTimer → Bool
is_due now t = elim t.idle_start [
  | none ↦ leb t.idle_timeout (now + 1)
  | some began ↦ leb (began + t.idle_timeout) now
]

-- The callbacks: what each timer's calls, when it runs out.
abbrev pub Callbacks : Type 0
Callbacks = ℕ → Timers → List Call

-- a timer that has run out
unfoldable pub run_out : Callbacks → Timers → ℕ → Timers
run_out callbacks s id =
    let s' =
      note (with_timer s id (record (s.timers id) { state = to_be_cleared; idle_start = none }))
        (fired id s.fast_now) in
    calls s' (callbacks id s')

-- the first test of a round of `onTick`
unfoldable pub visit_in : Callbacks → Timers → ℕ → TimerState → Timers
visit_in callbacks s id pending =
    with_timer s id
      (record (s.timers id) { state = active; idle_start = some (s.fast_now - tick_ms) })
visit_in callbacks s id active =
    if is_due s.fast_now (s.timers id) then run_out callbacks s id else s
visit_in callbacks s id _ = s

-- `fastTimers[idx] = …`
unfoldable pub set_at : List ℕ → ℕ → ℕ → List ℕ
set_at [] idx id = []
set_at (x ∷ xs) zero id = id ∷ xs
set_at (x ∷ xs) (suc idx) id = x ∷ set_at xs idx id

abbrev pub move_to : List ℕ → ℕ → Option ℕ → List ℕ
move_to xs idx none = xs
move_to xs idx (some last) = set_at xs idx last

-- `if (--len !== 0) fastTimers[idx] = fastTimers[len]`, for the new length
unfoldable pub move_last : List ℕ → ℕ → ℕ → List ℕ
move_last xs idx zero = xs
move_last xs idx (suc n) = move_to xs idx (get_elem? xs (suc n))

-- the second test of a round, with the index of the next round
unfoldable pub leave : Timers → ℕ → ℕ → ℕ → Timers × ℕ
leave s id idx len =
    if is_to_be_cleared (s.timers id).state
    then (
      record (with_timer s id (record (s.timers id) { state = not_in_list })) {
        fast_timers = move_last s.fast_timers idx len;
      },
      idx,
    )
    else (s, suc idx)

-- A round of `onTick`, where `len` is one less than in the code. The array does not get shorter before the
-- last round, so the index is in range.
unfoldable pub round_at : Callbacks → Timers → Option ℕ → ℕ → ℕ → Timers × ℕ
round_at callbacks s none idx len = (s, suc idx)
round_at callbacks s (some id) idx len =
    leave (visit_in callbacks s id (s.timers id).state) id idx len

unfoldable pub round : Callbacks → Timers → ℕ → ℕ → Timers × ℕ
round callbacks s idx len = round_at callbacks s (get_elem? s.fast_timers idx) idx len

-- The loop of `onTick`, by `len - idx`, which every round makes smaller by one; then the array is cut.
unfoldable pub sweep : Callbacks → Timers → ℕ → ℕ → Timers
sweep callbacks s idx zero = record s { fast_timers = take idx s.fast_timers }
sweep callbacks s idx (suc k) =
    let (s', idx') = round callbacks s idx (idx + k) in sweep callbacks s' idx' k

-- the end of `onTick`
unfoldable pub go_on_ticking : Timers → List ℕ → Timers
go_on_ticking s [] = s
go_on_ticking s (id ∷ ids) = refresh_timeout s

-- `onTick`, called when the platform's timeout has run out
unfoldable pub on_tick : Callbacks → Timers → Timers
on_tick callbacks s =
    let s' =
      sweep callbacks (record s { scheduled = false; fast_now = s.fast_now + tick_ms }) 0
        (length s.fast_timers) in
    go_on_ticking s' s'.fast_timers

-- what `setTimeout` returns: the platform's timeout, or the number of a fast timer
pub data Handle : Type 0 where
  platform : Handle
  fast : ℕ → Handle

-- `setTimeout`
unfoldable pub set_timeout : Timers → ℕ → Timers × Handle
set_timeout s delay =
    if leb delay resolution_ms then (s, platform) else (new_fast_timer s delay, fast s.created)

-- `clearTimeout`
unfoldable pub clear_timeout : Timers → Handle → Timers
clear_timeout s platform = s
clear_timeout s (fast id) = clear s id

-- ===== src/WebSocket/Receiver/Invariant.antt =====
-- What holds of `ByteParser` at every ending of `run`.
use undici.Base.{
  ℕ, ◌+◌, ◌≤◌, ◌<◌, ◌≡◌, arith, false, Option, some, List, [], ◌∷◌, ◌++◌, Bytes, length, ◌==◌,
  if◌then◌else◌, codes,
}
use undici.WebSocket.{close_op}
use undici.WebSocket.Consume.{joined}
use undici.WebSocket.Connection.{
  Effect, write, abort, socket_close, destroy, Handler, open_state, close_body, drop_connection,
  start_closing, fail_connection,
}
use undici.WebSocket.Machine.{
  Settings, Machine, Outcome, next, callback, stop, inflate, throws, accept_header, keep_header,
  FrameHeader, failed,
}
use undici.WebSocket.Payload.{echo_body, answer_close}
use undici.WebSocket.Receiver.{ByteParser, Run, waits, called, stopped, inflating, thrown, spinning}

-- the number of Close frames that were written
abbrev pub closes : List Effect → ℕ
closes [] = 0
closes (write op body ∷ es) = (if op == close_op then 1 else 0) + closes es
closes (e ∷ es) = closes es

pub closes-append : (es fs : List Effect) → closes (es ++ fs) ≡ closes es + closes fs
closes-append [] fs = omega arith
closes-append (write op body ∷ es) fs = omega (arith, closes-append es fs)
closes-append (e ∷ es) fs = closes-append es fs

-- A Close frame was written once if `sent` says so, and never otherwise; an open connection has
-- neither sent nor received one.
pub record IsCoherent (h : Handler) : Type 0 where
  pub one_close : closes h.log ≡ (if h.sent then 1 else 0)
  pub open_unclosed : h.ready_state ≡ open_state → (h.sent ≡ false) × (h.received ≡ false)

pub start_closing-IsCoherent :
    (h : Handler) (code : Option ℕ) (reason : Bytes)
    → IsCoherent h
    → IsCoherent (start_closing h code reason)
unfolding start_closing
start_closing-IsCoherent h code reason v =
    ground (arith, closes-append h.log (write close_op (close_body code reason) ∷ []))

pub drop_connection-IsCoherent : (h : Handler) → IsCoherent h → IsCoherent (drop_connection h)
unfolding drop_connection
drop_connection-IsCoherent h v = ground (
  arith,
  v.open_unclosed,
  closes-append h.log (abort ∷ []),
  closes-append (h.log ++ (abort ∷ [])) (socket_close ∷ []),
  closes-append (h.log ++ (abort ∷ [])) (destroy ∷ []),
)

pub fail_connection-IsCoherent :
    (h : Handler) (code : ℕ) (reason : Bytes)
    → IsCoherent h
    → IsCoherent (fail_connection h code reason)
unfolding fail_connection
fail_connection-IsCoherent h code reason v = ground (
  arith,
  start_closing-IsCoherent h (some code) reason v,
  drop_connection-IsCoherent h v,
  drop_connection-IsCoherent (start_closing h (some code) reason),
)

pub answer_close-IsCoherent :
    (h : Handler) (code : Option ℕ) → IsCoherent h → IsCoherent (answer_close h code)
unfolding answer_close
answer_close-IsCoherent h code v =
    ground (arith, closes-append h.log (write close_op (echo_body code) ∷ []))

-- The size that `consumeFragments` allocates is the size of the fragments, there are never more of
-- them than `maxFragments` allows, and the handler is coherent.
pub record IsSound (cfg : Settings) (m : Machine) : Type 0 where
  pub sizes : m.fragments_bytes ≡ length (joined m.fragments)
  pub few : 0 < cfg.max_fragments → length m.fragments ≤ cfg.max_fragments
  pub coherent : IsCoherent m.handler

-- `P` holds of the machine at the end of a round, or of a run.
abbrev pub OutcomeOf : (Machine → Type 0) → Outcome → Type 0
OutcomeOf P (next m) = P m
OutcomeOf P (callback m) = P m
OutcomeOf P (stop m) = P m
OutcomeOf P (inflate m b) = P m
OutcomeOf P (throws m) = P m

abbrev pub RunOf : (Machine → Type 0) → Run ByteParser → Type 0
RunOf P (waits p) = P p.machine
RunOf P (called p) = P p.machine
RunOf P (stopped p) = P p.machine
RunOf P (inflating p b) = P p.machine
RunOf P (thrown p) = P p.machine
RunOf P (spinning p) = P p.machine

pub failed-IsSound :
    {cfg : Settings} {m : Machine} (code : ℕ) (reason : Bytes)
    → IsSound cfg m
    → IsSound cfg (failed m code reason)
failed-IsSound {m = m} code reason v = record {
  sizes = v.sizes;
  few = v.few;
  coherent = fail_connection-IsCoherent m.handler code reason v.coherent;
}

pub accept_header-IsSound :
    (cfg : Settings) (m : Machine) (f : FrameHeader)
    → IsSound cfg m
    → OutcomeOf (IsSound cfg) (accept_header cfg m f)
unfolding accept_header keep_header
accept_header-IsSound cfg m f v = ground (
  arith,
  v.few,
  v.coherent.open_unclosed,
  fail_connection-IsCoherent m.handler 1009 (codes "Payload size exceeds maximum allowed size")
      v.coherent,
)

-- ===== src/WebSocket/Receiver/Safe.antt =====
-- Nothing that `ByteParser.run` calls throws, where the parser's counts are right.
use undici.Base.{
  ℕ, zero, suc, ◌∙◌, ◌≤◌, subst, ◌-◌, ◌≡◌, inl, inr, refl, ap, arith, Bool, true, false, Option,
  none, some, [], ◌∷◌, Bytes, length, ltb, ◌==◌, ◌&&◌, ◌||◌, not, Bool-cases, take, length-drop,
  if_elim, if◌then◌else◌,
}
use undici.WebSocket.{close_op, ping_op, pong_op, is_control_frame}
use undici.WebSocket.Consume.{joined, consume_lem}
use undici.WebSocket.Machine.{
  ParserState, info, payload_length_16, payload_length_64, read_data, Settings, Machine, Outcome,
  next, callback, stop, inflate, throws, CloseInfo, Refusal, calling, silent, FrameHeader, on_info,
  on_length_16, on_length_64, obey, accept_header, check_length, read_uint32_be,
}
use undici.WebSocket.Payload.{
  parse_close_body, close_with, parse_control_frame, end_control, announce, consume_fragments,
  deliver, finish_fragment, write_fragments, add_fragment, on_payload,
}
use undici.WebSocket.Receiver.{
  ByteParser, Run, waits, called, stopped, inflating, thrown, spinning, needed_in, handle_in, go_on,
  run_rounds,
}
use undici.WebSocket.Receiver.Flat.{IsBuffered, run_none, run_wait, run_go}
use undici.WebSocket.Receiver.Invariant.{IsSound, OutcomeOf}
use undici.WebSocket.Receiver.Sound.{Written, handle_in-IsSound, write_fragments-Written}

length-take_of : (k : ℕ) (b : Bytes) → k ≤ length b → length (take k b) ≡ k
length-take_of zero b h = refl
length-take_of (suc k) [] h = absurd (omega arith)
length-take_of (suc k) (c ∷ b) h = ap suc (length-take_of k b (omega (arith, h)))

abbrev pub NoThrow : Outcome → Type 0
NoThrow (throws m) = ⊥
NoThrow _ = Unit

accept_header-NoThrow :
    (cfg : Settings) (m : Machine) (f : FrameHeader) → NoThrow (accept_header cfg m f)
unfolding accept_header
accept_header-NoThrow cfg m f = ground arith

obey-NoThrow :
    (cfg : Settings) (m : Machine) (f : FrameHeader) (r : Option Refusal) → NoThrow (obey cfg m f r)
unfolding obey
obey-NoThrow cfg m f none = accept_header-NoThrow cfg m f
obey-NoThrow cfg m f (some (calling reason)) = tt
obey-NoThrow cfg m f (some (silent reason)) = tt

check_length-NoThrow : (cfg : Settings) (m : Machine) → NoThrow (check_length cfg m)
check_length-NoThrow cfg m = ground arith

on_length_64-NoThrow : (cfg : Settings) (m : Machine) (b : Bytes) → NoThrow (on_length_64 cfg m b)
unfolding on_length_64
on_length_64-NoThrow cfg m b =
    if_elim NoThrow (not (read_uint32_be b 0 == 0) || ltb 0x7fff_ffff (read_uint32_be b 4)) tt
      (check_length-NoThrow cfg _)

-- what was parsed, and not thrown
abbrev IsSome : {A : Type 0} → Option A → Type 0
IsSome none = ⊥
IsSome (some a) = Unit

parse_close_body-IsSome : (b : Bytes) → (length b == 1) ≡ false → IsSome (parse_close_body b)
unfolding parse_close_body
parse_close_body-IsSome [] h = tt
parse_close_body-IsSome (a ∷ []) h = absurd (ground (arith, h))
parse_close_body-IsSome (a ∷ b ∷ rest) h = tt

close_with-IsSome : (m : Machine) (o : Option CloseInfo) → IsSome o → IsSome (close_with m o)
unfolding close_with
close_with-IsSome m none h = h
close_with-IsSome m (some i) h = tt

-- The guard against a Close frame of one byte keeps the assertion.
parse_control_frame-IsSome :
    (m : Machine) (b : Bytes) → length b ≡ m.payload_length → IsSome (parse_control_frame m b)
unfolding parse_control_frame
parse_control_frame-IsSome m b e =
    if_elim IsSome (m.opcode == close_op)
      (elim (Bool-cases (m.payload_length == 1)) [
        | inl one ↦ rw one tt
        | inr other ↦ rw other (
            close_with-IsSome m (parse_close_body b)
              (parse_close_body-IsSome b (ap (λ n. n == 1) e ∙ other)))
      ])
      (if_elim IsSome (m.opcode == ping_op) tt (if_elim IsSome (m.opcode == pong_op) tt tt))

end_control-NoThrow :
    (m : Machine) (o : Option (Bool × Machine)) → IsSome o → NoThrow (end_control m o)
unfolding end_control
end_control-NoThrow m none h = h
end_control-NoThrow m (some (true, m')) h = tt
end_control-NoThrow m (some (false, m')) h = tt

-- The buffer of `consumeFragments` has the size of the fragments.
deliver-IsSome :
    (m : Machine) → m.fragments_bytes ≡ length (joined m.fragments) → IsSome (deliver m)
unfolding deliver announce consume_fragments
deliver-IsSome m e = ground (arith, e)

finish_fragment-NoThrow :
    (m : Machine) (o : Option Machine) → IsSome o → NoThrow (finish_fragment m o)
unfolding finish_fragment
finish_fragment-NoThrow m none h = h
finish_fragment-NoThrow m (some m') h = tt

add_fragment-NoThrow :
    (cfg : Settings) (m : Machine) (o : Option Machine)
    → ((m' : Machine) → o ≡ some m' → m'.fragments_bytes ≡ length (joined m'.fragments))
    → NoThrow (add_fragment m o)
unfolding add_fragment
add_fragment-NoThrow cfg m none h = tt
add_fragment-NoThrow cfg m (some m') h =
    finish_fragment-NoThrow m' (if not m'.fragmented && m'.fin then deliver m' else some m')
      (if_elim IsSome (not m'.fragmented && m'.fin) (deliver-IsSome m' (h m' refl)) tt)

on_payload-NoThrow :
    (cfg : Settings) (m : Machine) (b : Bytes)
    → IsSound cfg m
    → length b ≡ m.payload_length
    → NoThrow (on_payload cfg m b)
unfolding on_payload
on_payload-NoThrow cfg m b v e =
    if_elim NoThrow (is_control_frame m.opcode)
      (end_control-NoThrow m (parse_control_frame m b) (parse_control_frame-IsSome m b e))
      (if_elim NoThrow (not m.compressed)
        (add_fragment-NoThrow cfg m (write_fragments cfg m b)
          (λ m' k. (subst (Written cfg) k (write_fragments-Written cfg m b v)).sizes))
        tt)

handle_in-NoThrow :
    (s : ParserState) (cfg : Settings) (m : Machine) (b : Bytes)
    → IsSound cfg m
    → length b ≡ needed_in s m
    → NoThrow (handle_in s cfg m b)
unfolding handle_in needed_in on_info on_length_16
handle_in-NoThrow info cfg m b v e = obey-NoThrow cfg m _ _
handle_in-NoThrow payload_length_16 cfg m b v e = check_length-NoThrow cfg _
handle_in-NoThrow payload_length_64 cfg m b v e = on_length_64-NoThrow cfg m b
handle_in-NoThrow read_data cfg m b v e = on_payload-NoThrow cfg m b v e

-- The parser's count is right at every ending, more bytes are asked for only where they are needed,
-- the invariant holds, and nothing is thrown.
abbrev pub Safe : Settings → Run ByteParser → Type 0
Safe cfg (waits p) =
    IsBuffered p
    × ((ltb p.byte_offset (needed_in p.machine.state p.machine) ≡ true) × IsSound cfg p.machine)
Safe cfg (called p) = IsBuffered p × IsSound cfg p.machine
Safe cfg (stopped p) = IsBuffered p × IsSound cfg p.machine
Safe cfg (inflating p b) = IsBuffered p × IsSound cfg p.machine
Safe cfg (thrown p) = ⊥
Safe cfg (spinning p) = IsBuffered p × IsSound cfg p.machine

Safe-go_on :
    (cfg : Settings) (again : Machine → Run ByteParser) (at : Machine → ByteParser) (o : Outcome)
    → ((m : Machine) → IsBuffered (at m))
    → ((m : Machine) → (at m).machine ≡ m)
    → ((m : Machine) → IsSound cfg m → Safe cfg (again m))
    → NoThrow o
    → OutcomeOf (IsSound cfg) o
    → Safe cfg (go_on again at o)
Safe-go_on cfg again at (next m) h same k n v = k m v
Safe-go_on cfg again at (callback m) h same k n v = (h m, rw (same m) v)
Safe-go_on cfg again at (stop m) h same k n v = (h m, rw (same m) v)
Safe-go_on cfg again at (inflate m b) h same k n v = (h m, rw (same m) v)
Safe-go_on cfg again at (throws m) h same k n v = n

pub run_rounds-Safe :
    (rounds : ℕ) (cfg : Settings) (p : ByteParser)
    → IsBuffered p
    → IsSound cfg p.machine
    → Safe cfg (run_rounds rounds cfg p)
run_rounds-Safe zero cfg p e v = rw (run_none cfg p) (e, v)
run_rounds-Safe (suc rounds) cfg p e v =
    let k = needed_in p.machine.state p.machine in
    elim (Bool-cases (ltb p.byte_offset k)) [
      | inl short ↦ rw (run_wait rounds cfg p short) (e, (short, v))
      | inr long ↦
          let (left, taken, rest) = consume_lem k p.byte_offset p.buffers e (ground arith) in
          let still : p.byte_offset - k ≡ length (joined left) =
            omega (arith, e, ap length rest, length-drop k (joined p.buffers)) in
          let body = take k (joined p.buffers) in
          let size : length body ≡ k = length-take_of k (joined p.buffers) (ground (arith, e)) in
          rw (run_go rounds cfg p long taken) (
            Safe-go_on cfg _ _ (handle_in p.machine.state cfg p.machine body) (λ m. still)
              (λ m. refl) (λ m w. run_rounds-Safe rounds cfg _ still w)
              (handle_in-NoThrow p.machine.state cfg p.machine body v size)
              (handle_in-IsSound p.machine.state cfg p.machine body v))
    ]

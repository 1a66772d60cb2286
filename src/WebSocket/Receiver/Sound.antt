-- ===== src/WebSocket/Receiver/Sound.antt =====
-- Every part of a round of `ByteParser.run` keeps the invariant, and so does a run.
use undici.Base.{
  ℕ, zero, suc, ◌≡◌, inl, inr, refl, ap, arith, Bool, true, false, Option, none, some, [], ◌∷◌,
  Bytes, length, length-append, ◌==◌, ltb, Bool-cases, Option-cases, if_elim, if◌then◌else◌, ltb,
  not, ◌||◌, ◌&&◌,
}
use undici.WebSocket.{close_op, ping_op, pong_op, is_control_frame}
use undici.WebSocket.Consume.{joined, consume}
use undici.WebSocket.Connection.{Effect, write, on_ping, on_pong, Handler, emit}
use undici.WebSocket.Machine.{
  ParserState, info, payload_length_16, payload_length_64, read_data, Settings, Machine, Outcome,
  next, callback, stop, inflate, throws, CloseInfo, close_info, close_error, on_info, on_length_16,
  on_length_64, Refusal, calling, silent, FrameHeader, payload_fits, check_length, obey,
  read_uint32_be,
}
use undici.WebSocket.Payload.{
  end_close, end_control, add_fragment, add_inflated, parse_close_body, parse_control_frame,
  write_fragments, deliver, announce, consume_fragments, finish_fragment, close_with, on_payload,
  on_inflated, Inflated, inflate_error, inflated,
}
use undici.WebSocket.Receiver.{
  ByteParser, Run, needed_in, handle_in, go_on, run_rounds, run, write_chunk, resume,
}
use undici.WebSocket.Receiver.Flat.{joined-concat, run_none, run_wait, run_throw, run_go}
use undici.WebSocket.Receiver.Invariant.{
  closes, closes-append, IsCoherent, IsSound, OutcomeOf, RunOf, failed-IsSound,
  accept_header-IsSound, answer_close-IsCoherent,
}

emit-IsCoherent :
    (h : Handler) (e : Effect) → closes (e ∷ []) ≡ 0 → IsCoherent h → IsCoherent (emit h e)
emit-IsCoherent h e z v = record {
  one_close = omega (arith, closes-append h.log (e ∷ []), z, v.one_close);
  open_unclosed = v.open_unclosed;
}

abbrev SoundOutcome : Settings → Outcome → Type 0
SoundOutcome cfg = OutcomeOf (IsSound cfg)

obey-IsSound :
    (cfg : Settings) (m : Machine) (f : FrameHeader) (r : Option Refusal)
    → IsSound cfg m
    → SoundOutcome cfg (obey cfg m f r)
unfolding obey
obey-IsSound cfg m f none v = accept_header-IsSound cfg m f v
obey-IsSound cfg m f (some (calling reason)) v = failed-IsSound 1002 reason v
obey-IsSound cfg m f (some (silent reason)) v = failed-IsSound 1002 reason v

-- No field of the invariant is among those that the lengths set.
with_length :
    {cfg : Settings} {m : Machine} (n : ℕ)
    → IsSound cfg m
    → IsSound cfg (record m { payload_length = n; state = read_data })
with_length n v = record { sizes = v.sizes; few = v.few; coherent = v.coherent }

with_state :
    {cfg : Settings} {m : Machine} (s : ParserState)
    → IsSound cfg m
    → IsSound cfg (record m { state = s })
with_state s v = record { sizes = v.sizes; few = v.few; coherent = v.coherent }

with_handler :
    {cfg : Settings} {m : Machine} {h : Handler}
    → IsCoherent h
    → IsSound cfg m
    → IsSound cfg (record m { handler = h })
with_handler c v = record { sizes = v.sizes; few = v.few; coherent = c }

with_closing :
    {cfg : Settings} {m : Machine} (i : Option CloseInfo)
    → IsSound cfg m
    → IsSound cfg (record m { closing_info = i })
with_closing i v = record { sizes = v.sizes; few = v.few; coherent = v.coherent }

check_length-IsSound :
    {cfg : Settings} {m : Machine} → IsSound cfg m → SoundOutcome cfg (check_length cfg m)
check_length-IsSound {cfg} {m} v = elim (Bool-cases (payload_fits cfg m)) [
  | inl fits ↦ rw fits v
  | inr large ↦ rw large (failed-IsSound 1009 _ v)
]

on_length_64-IsSound :
    (cfg : Settings) (m : Machine) (b : Bytes)
    → IsSound cfg m
    → SoundOutcome cfg (on_length_64 cfg m b)
unfolding on_length_64
on_length_64-IsSound cfg m b v =
    elim (Bool-cases (not (read_uint32_be b 0 == 0) || ltb 0x7fff_ffff (read_uint32_be b 4))) [
      | inl large ↦ rw large (failed-IsSound 1009 _ v)
      | inr fits ↦ rw fits (check_length-IsSound (with_length _ v))
    ]

end_close-IsSound :
    {cfg : Settings} {m : Machine} (i : CloseInfo) → IsSound cfg m → IsSound cfg (end_close m i)
unfolding end_close
end_close-IsSound {m = m} (close_info code reason) v =
    with_closing _ (with_handler (answer_close-IsCoherent m.handler code v.coherent) v)
end_close-IsSound (close_error code reason) v = failed-IsSound code reason (with_closing _ v)

-- what `parseControlFrame` returns
abbrev Controlled : Settings → Option (Bool × Machine) → Type 0
Controlled cfg none = Unit
Controlled cfg (some (loop, m)) = IsSound cfg m

close_with-IsSound :
    {cfg : Settings} (m : Machine) (o : Option CloseInfo)
    → IsSound cfg m
    → Controlled cfg (close_with m o)
unfolding close_with
close_with-IsSound m none v = tt
close_with-IsSound m (some i) v = end_close-IsSound i v

parse_control_frame-IsSound :
    {cfg : Settings} (m : Machine) (b : Bytes)
    → IsSound cfg m
    → Controlled cfg (parse_control_frame m b)
unfolding parse_control_frame
parse_control_frame-IsSound {cfg} m b v =
    if_elim P (m.opcode == close_op)
      (if_elim P (m.payload_length == 1) (failed-IsSound 1002 _ v)
        (close_with-IsSound m (parse_close_body b) v))
      (if_elim P (m.opcode == ping_op)
        (if_elim (IsSound cfg) (not m.handler.received) (with_handler ping v) v)
        (if_elim P (m.opcode == pong_op)
          (with_handler (emit-IsCoherent m.handler (on_pong b) refl v.coherent) v) v))
  where
    P : Option (Bool × Machine) → Type 0
    P = Controlled cfg

    ping : IsCoherent (emit (emit m.handler (write pong_op b)) (on_ping b))
    ping =
        emit-IsCoherent (emit m.handler (write pong_op b)) (on_ping b) refl
          (emit-IsCoherent m.handler (write pong_op b) refl v.coherent)

end_control-IsSound :
    {cfg : Settings} (m : Machine) (r : Option (Bool × Machine))
    → IsSound cfg m
    → Controlled cfg r
    → SoundOutcome cfg (end_control m r)
unfolding end_control
end_control-IsSound m none v w = v
end_control-IsSound m (some (true, m')) v w = with_state info w
end_control-IsSound m (some (false, m')) v w = with_state info w

-- what `writeFragments` returns
abbrev pub Written : Settings → Option Machine → Type 0
Written cfg none = Unit
Written cfg (some m) = IsSound cfg m

announce-Written :
    {cfg : Settings} (m : Machine) (o : Option Bytes) → IsSound cfg m → Written cfg (announce m o)
unfolding announce
announce-Written m none v = tt
announce-Written m (some body) v = record {
  sizes = refl;
  few = λ h. omega arith;
  coherent = emit-IsCoherent m.handler _ refl v.coherent;
}

deliver-Written : {cfg : Settings} (m : Machine) → IsSound cfg m → Written cfg (deliver m)
unfolding deliver
deliver-Written m v = announce-Written m (consume_fragments m) v

finish_fragment-IsSound :
    {cfg : Settings} (m : Machine) (o : Option Machine)
    → IsSound cfg m
    → Written cfg o
    → SoundOutcome cfg (finish_fragment m o)
unfolding finish_fragment
finish_fragment-IsSound m none v w = v
finish_fragment-IsSound m (some m') v w = with_state info w

pub write_fragments-Written :
    (cfg : Settings) (m : Machine) (b : Bytes)
    → IsSound cfg m
    → Written cfg (write_fragments cfg m b)
unfolding write_fragments
write_fragments-Written cfg m b v =
    elim (Bool-cases (ltb 0 cfg.max_fragments && length m.fragments == cfg.max_fragments)) [
      | inl full ↦ rw full tt
      | inr room ↦ rw room (record {
        sizes = omega (
          arith,
          v.sizes,
          ap length (joined-concat m.fragments b),
          length-append (joined m.fragments) b,
        );
        few = λ h. ground (arith, v.few h, length-append m.fragments (b ∷ []));
        coherent = v.coherent;
      })
    ]

add_fragment-IsSound :
    (cfg : Settings) (m : Machine) (o : Option Machine)
    → IsSound cfg m
    → Written cfg o
    → SoundOutcome cfg (add_fragment m o)
unfolding add_fragment
add_fragment-IsSound cfg m none v w = failed-IsSound 1008 _ v
add_fragment-IsSound cfg m (some m') v w =
    finish_fragment-IsSound m' (if not m'.fragmented && m'.fin then deliver m' else some m') w
      (if_elim (Written cfg) (not m'.fragmented && m'.fin) (deliver-Written m' w) w)

on_payload-IsSound :
    (cfg : Settings) (m : Machine) (b : Bytes)
    → IsSound cfg m
    → SoundOutcome cfg (on_payload cfg m b)
unfolding on_payload
on_payload-IsSound cfg m b v = elim (Bool-cases (is_control_frame m.opcode)) [
  | inl control ↦
      rw control
        (end_control-IsSound m (parse_control_frame m b) v (parse_control_frame-IsSound m b v))
  | inr dataframe ↦ elim (Bool-cases m.compressed) [
    | inl packed ↦ simp (dataframe, packed) v
    | inr plain ↦
        simp (dataframe, plain) (add_fragment-IsSound cfg m _ v (write_fragments-Written cfg m b v))
  ]
]

pub handle_in-IsSound :
    (s : ParserState) (cfg : Settings) (m : Machine) (b : Bytes)
    → IsSound cfg m
    → SoundOutcome cfg (handle_in s cfg m b)
unfolding handle_in on_info on_length_16
handle_in-IsSound info cfg m b v = obey-IsSound cfg m _ _ v
handle_in-IsSound payload_length_16 cfg m b v = check_length-IsSound (with_length _ v)
handle_in-IsSound payload_length_64 cfg m b v = on_length_64-IsSound cfg m b v
handle_in-IsSound read_data cfg m b v = on_payload-IsSound cfg m b v

add_inflated-IsSound :
    (cfg : Settings) (m : Machine) (o : Option Machine)
    → IsSound cfg m
    → Written cfg o
    → SoundOutcome cfg (add_inflated cfg m o)
unfolding add_inflated
add_inflated-IsSound cfg m none v w = failed-IsSound 1008 _ v
add_inflated-IsSound cfg m (some m') v w =
    if_elim (SoundOutcome cfg)
      (ltb 0 cfg.max_payload_size && ltb cfg.max_payload_size m'.fragments_bytes)
      (failed-IsSound 1009 _ w)
      (finish_fragment-IsSound m' (if not m'.fin then some m' else deliver m') w
        (if_elim (Written cfg) (not m'.fin) w (deliver-Written m' w)))

on_inflated-IsSound :
    (cfg : Settings) (m : Machine) (r : Inflated)
    → IsSound cfg m
    → SoundOutcome cfg (on_inflated cfg m r)
unfolding on_inflated
on_inflated-IsSound cfg m (inflate_error large reason) v = failed-IsSound _ reason v
on_inflated-IsSound cfg m (inflated b) v =
    add_inflated-IsSound cfg m _ v (write_fragments-Written cfg m b v)

go_on-IsSound :
    (cfg : Settings) (again : Machine → Run ByteParser) (at : Machine → ByteParser) (o : Outcome)
    → ((m : Machine) → (at m).machine ≡ m)
    → ((m : Machine) → IsSound cfg m → RunOf (IsSound cfg) (again m))
    → SoundOutcome cfg o
    → RunOf (IsSound cfg) (go_on again at o)
go_on-IsSound cfg again at (next m) same h v = h m v
go_on-IsSound cfg again at (callback m) same h v = rw (same m) v
go_on-IsSound cfg again at (stop m) same h v = rw (same m) v
go_on-IsSound cfg again at (inflate m b) same h v = rw (same m) v
go_on-IsSound cfg again at (throws m) same h v = rw (same m) v

run_rounds-IsSound :
    (rounds : ℕ) (cfg : Settings) (p : ByteParser)
    → IsSound cfg p.machine
    → RunOf (IsSound cfg) (run_rounds rounds cfg p)
run_rounds-IsSound zero cfg p v = rw (run_none cfg p) v
run_rounds-IsSound (suc rounds) cfg p v = elim (Bool-cases (ltb p.byte_offset k)) [
  | inl short ↦ rw (run_wait rounds cfg p short) v
  | inr long ↦ elim (Option-cases (consume k p.byte_offset p.buffers)) [
    | inl nothing ↦ rw (run_throw rounds cfg p long nothing) v
    | inr (taken, e) ↦ rw (run_go rounds cfg p long e) (
        go_on-IsSound cfg _ _ (handle_in p.machine.state cfg p.machine taken.0) (λ m. refl)
          (λ m w. run_rounds-IsSound rounds cfg _ w)
          (handle_in-IsSound p.machine.state cfg p.machine taken.0 v))
  ]
]
  where
    k : ℕ
    k = needed_in p.machine.state p.machine

-- Whatever bytes arrive, in whatever state the invariant IsSound holds, a `write` ends in a state where it
-- holds: the buffer that `consumeFragments` allocates has the size of the fragments, no more
-- fragments than `maxFragments` are kept, and a Close frame was written once if `closeState` says that
-- one was sent and never otherwise.
pub write_chunk-IsSound :
    (cfg : Settings) (p : ByteParser) (c : Bytes)
    → IsSound cfg p.machine
    → RunOf (IsSound cfg) (write_chunk cfg p c)
unfolding write_chunk run
write_chunk-IsSound cfg p c v = run_rounds-IsSound _ cfg _ v

-- Whatever the decompressor calls back with, in whatever state the invariant IsSound holds, its callback
-- and the `run` at its end leave a state where it holds.
pub resume-IsSound :
    (cfg : Settings) (p : ByteParser) (r : Inflated)
    → IsSound cfg p.machine
    → RunOf (IsSound cfg) (resume cfg p r)
unfolding resume run
resume-IsSound cfg p r v =
    go_on-IsSound cfg _ _ (on_inflated cfg p.machine r) (λ m. refl)
      (λ m w. run_rounds-IsSound _ cfg _ w) (on_inflated-IsSound cfg p.machine r v)

-- ===== src/WebSocket/Receiver/Chunks.antt =====
-- `ByteParser` written to chunk by chunk, and what the cutting into chunks changes.
use undici.Base.{
  ◌+◌, ◌*◌, ◌≡◌, refl, sym, ◌∙◌, ap, arith, List, [], ◌∷◌, ◌++◌, Bytes, length, length-append,
  append_assoc, append-nil, subst,
}
use undici.WebSocket.Consume.{joined}
use undici.WebSocket.Connection.{Handler}
use undici.WebSocket.Machine.{Settings}
use undici.WebSocket.Receiver.{
  ByteParser, Run, waits, called, stopped, inflating, thrown, spinning, needed_in, run, enough,
  write_chunk, new_machine, new_parser,
}
use undici.WebSocket.Receiver.Flat.{
  View, view, map_run, joined-concat, Counted, run_rounds-Counted, flat_wait, IsBuffered,
  run_rounds-flat_rounds,
}
use undici.WebSocket.Receiver.Safe.{Safe, run_rounds-Safe}
use undici.WebSocket.Receiver.Invariant.{IsSound}
use undici.WebSocket.Receiver.Fuel.{
  flat, extend, flat-append, measure-lt-enough, IsSpinning, flat-not-IsSpinning,
}

-- `run` over chunks is the loop over their bytes.
pub run-flat :
    (cfg : Settings) (p : ByteParser)
    → IsBuffered p
    → map_run view (run cfg p) ≡ flat cfg p.machine (joined p.buffers)
unfolding run
run-flat cfg p e = run_rounds-flat_rounds (enough p.byte_offset) cfg p e ∙ rw e

write_chunk-flat :
    (cfg : Settings) (p : ByteParser) (c : Bytes)
    → IsBuffered p
    → map_run view (write_chunk cfg p c) ≡ flat cfg p.machine (joined p.buffers ++ c)
unfolding write_chunk
write_chunk-flat cfg p c e =
    run-flat cfg _
      (omega (arith, e, ap length (joined-concat p.buffers c), length-append (joined p.buffers) c))
    ∙ rw (joined-concat p.buffers c)

-- Every `write` ends, where the count of buffered bytes was right: the rounds that the model gives the
-- loop never run out.
pub write_chunk-ends :
    (cfg : Settings) (p : ByteParser) (c : Bytes)
    → IsBuffered p
    → ¬ IsSpinning (write_chunk cfg p c)
write_chunk-ends cfg p c e s =
    flat-not-IsSpinning _ cfg p.machine (joined p.buffers ++ c)
      (measure-lt-enough p.machine (joined p.buffers ++ c))
      (rw (← write_chunk-flat cfg p c e) (view_spinning (write_chunk cfg p c) s))
  where
    view_spinning : (r : Run ByteParser) → IsSpinning r → IsSpinning (map_run view r)
    view_spinning (spinning q) h = tt
    view_spinning (waits q) h = h
    view_spinning (called q) h = h
    view_spinning (stopped q) h = h
    view_spinning (inflating q b) h = h
    view_spinning (thrown q) h = h

-- Where the count of buffered bytes is right and the invariant IsSound holds, a `write` never throws, be it
-- in `consume`, by the assertion of `parseCloseBody` or in `consumeFragments`; it keeps both, and asks
-- for more bytes only where there are too few for a round.
pub write_chunk-Safe :
    (cfg : Settings) (p : ByteParser) (c : Bytes)
    → IsBuffered p
    → IsSound cfg p.machine
    → Safe cfg (write_chunk cfg p c)
unfolding write_chunk run
write_chunk-Safe cfg p c e v =
    run_rounds-Safe (enough (p.byte_offset + length c)) cfg _
      (omega (arith, e, ap length (joined-concat p.buffers c), length-append (joined p.buffers) c))
      v

write_chunk-Counted :
    (cfg : Settings) (p : ByteParser) (c : Bytes) → IsBuffered p → Counted (write_chunk cfg p c)
unfolding write_chunk run
write_chunk-Counted cfg p c e =
    run_rounds-Counted (enough (p.byte_offset + length c)) cfg _
      (omega (arith, e, ap length (joined-concat p.buffers c), length-append (joined p.buffers) c))

-- What the Writable does behind a `write`: where the parser called back, since it needs more bytes or
-- since it failed the connection, the next chunk is written. After any other ending the other chunks
-- stay unread, behind the bytes that the parser holds.
abbrev and_then : Settings → (ByteParser → Run View) → Bytes → Run ByteParser → Run View
and_then cfg again c (waits p) = again p
and_then cfg again c (called p) = again p
and_then cfg again c r = extend cfg c (map_run view r)

-- The chunks are written one by one.
unfoldable pub feed : Settings → ByteParser → List Bytes → Run View
feed cfg p [] = waits (view p)
feed cfg p (c ∷ cs) = and_then cfg (λ p'. feed cfg p' cs) (joined cs) (write_chunk cfg p c)

-- A run that ends by a failure behind which the parser calls back.
abbrev pub HasFailed : {P : Type 0} → Run P → Type 0
HasFailed (called p) = Unit
HasFailed _ = ⊥

-- The parser has no frame or length to read from what it holds.
abbrev pub IsWaiting : Settings → ByteParser → Type 0
IsWaiting cfg p = flat cfg p.machine (joined p.buffers) ≡ waits (view p)

and_then-extend :
    (cfg : Settings) (again : ByteParser → Run View) (c : Bytes) (r : Run ByteParser)
    → Counted r
    → ¬ HasFailed (extend cfg c (map_run view r))
    → ((p : ByteParser)
        → IsBuffered p
        → IsWaiting cfg p
        → ¬ HasFailed (flat cfg p.machine (joined p.buffers ++ c))
        → again p ≡ flat cfg p.machine (joined p.buffers ++ c))
    → and_then cfg again c r ≡ extend cfg c (map_run view r)
and_then-extend cfg again c (waits p) s f h =
    h p s.0
      (flat_wait (2 * length (joined p.buffers) + 1) cfg p.machine (joined p.buffers)
        (rw s.0 at (s.1)))
      f
and_then-extend cfg again c (called p) s f h = absurd (f tt)
and_then-extend cfg again c (stopped p) s f h = refl
and_then-extend cfg again c (inflating p b) s f h = refl
and_then-extend cfg again c (thrown p) s f h = refl
and_then-extend cfg again c (spinning p) s f h = refl

-- The loop over a chunk more.
flat-extend :
    (cfg : Settings) (p : ByteParser) (c rest : Bytes)
    → IsBuffered p
    → extend cfg rest (map_run view (write_chunk cfg p c))
      ≡ flat cfg p.machine (joined p.buffers ++ (c ++ rest))
flat-extend cfg p c rest e =
    ap (extend cfg rest) (write_chunk-flat cfg p c e)
    ∙ sym (
        flat-append (enough (length (joined p.buffers ++ c))) cfg p.machine (joined p.buffers ++ c)
          rest (measure-lt-enough p.machine (joined p.buffers ++ c)))
    ∙ ap (flat cfg p.machine) (append_assoc (joined p.buffers) c rest)

pub feed-flat :
    (cfg : Settings) (cs : List Bytes) (p : ByteParser)
    → IsBuffered p
    → IsWaiting cfg p
    → ¬ HasFailed (flat cfg p.machine (joined p.buffers ++ joined cs))
    → feed cfg p cs ≡ flat cfg p.machine (joined p.buffers ++ joined cs)
unfolding feed
feed-flat cfg [] p e w f = rw (append-nil (joined p.buffers)) (sym w)
feed-flat cfg (c ∷ cs) p e w f =
    let whole = flat-extend cfg p c (joined cs) e in
    and_then-extend cfg _ (joined cs) (write_chunk cfg p c) (write_chunk-Counted cfg p c e)
      (subst (λ r. ¬ HasFailed r) (sym whole) f) (λ p'. feed-flat cfg cs p')
    ∙ whole

pub new_parser-IsWaiting : (cfg : Settings) (h : Handler) → IsWaiting cfg (new_parser h)
unfolding needed_in
new_parser-IsWaiting cfg h = flat_wait 1 cfg (new_machine h) [] refl

-- Where the bytes that a server sends do not fail the connection when they are written at once, a new
-- parser does the same however they are cut into chunks: the same messages and answers in the same
-- order, the same ending (waiting, stopped without a callback, or waiting for the decompressor), and
-- the same bytes unread.
pub feed_chunks :
    (cfg : Settings) (h : Handler) (cs : List Bytes)
    → ¬ HasFailed (write_chunk cfg (new_parser h) (joined cs))
    → feed cfg (new_parser h) cs ≡ map_run view (write_chunk cfg (new_parser h) (joined cs))
feed_chunks cfg h cs f =
    let whole = write_chunk-flat cfg (new_parser h) (joined cs) refl in
    feed-flat cfg cs (new_parser h) refl (new_parser-IsWaiting cfg h)
      (λ s. f (failed_view (write_chunk cfg (new_parser h) (joined cs)) (rw whole s)))
    ∙ sym whole
  where
    failed_view : (r : Run ByteParser) → HasFailed (map_run view r) → HasFailed r
    failed_view (called q) s = tt
    failed_view (waits q) s = s
    failed_view (stopped q) s = s
    failed_view (inflating q b) s = s
    failed_view (thrown q) s = s
    failed_view (spinning q) s = s

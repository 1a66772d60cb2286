-- ===== src/WebSocket/Consume.antt =====
-- `ByteParser.consume` of lib/web/websocket/receiver.js: taking bytes from the buffered chunks.
pub use undici.Base.{joined}
use undici.Base.{
  ℕ, zero, suc, ◌+◌, ◌-◌, ◌≤◌, ◌<◌, ◌≡◌, refl, sym, arith, inl, inr, Option, none, some, List, [],
  ◌∷◌, ◌++◌, Bytes, length, take, drop, length-append, ltb, ◌==◌, if◌then◌else◌, append_assoc,
  lt_or_eq_or_gt, take-append, drop-append, take-append_ge, drop-append_ge, take-length-append,
  drop-length-append,
}

-- The loop over the chunks, with `out` written up to `offset`. `none` is the TypeError at a missing
-- chunk. The test `offset !== n` holds at every round: the round that reaches `n` breaks.
unfoldable pub gather : ℕ → ℕ → List Bytes → Bytes → Option (Bytes × List Bytes)
gather n offset [] out = none
gather n offset (b ∷ bs) out =
    let more = gather n (offset + length b) bs (out ++ b) in
    if length b + offset == n
    then some (out ++ b, bs)
    else if ltb n (length b + offset)
    then some (out ++ take (n - offset) b, drop (n - offset) b ∷ bs)
    else more

-- the part behind the first tests, on a non-empty request
unfoldable pub consume_chunks : ℕ → List Bytes → Option (Bytes × List Bytes)
unfolding gather
consume_chunks n [] = none
consume_chunks n (first ∷ bs) =
    if ltb n (length first)
    then some (take n first, drop n first ∷ bs)
    else if length first == n
    then some (first, bs)
    else gather n 0 (first ∷ bs) []

-- `consume(n)` on `#byteOffset` and `#buffers`; `none` is a thrown error
unfoldable pub consume : ℕ → ℕ → List Bytes → Option (Bytes × ℕ × List Bytes)
unfolding consume_chunks
consume n byte_offset buffers =
    if ltb byte_offset n
    then none
    else if n == 0
    then some ([], byte_offset, buffers)
    else elim (consume_chunks n buffers) [
      | none ↦ none
      | some (body, rest) ↦ some (body, byte_offset - n, rest)
    ]

-- What was taken, and that the rest is what follows it.
record Took (n : ℕ) (chunks : List Bytes) (out : Bytes) (r : Option (Bytes × List Bytes))
    : Type 0 where
  left : List Bytes
  result : r ≡ some (out ++ take n (joined chunks), left)
  left_is : joined left ≡ drop n (joined chunks)

gather-Took :
    (n offset : ℕ) (bs : List Bytes) (out : Bytes)
    → offset < n
    → n ≤ offset + length (joined bs)
    → Took (n - offset) bs out (gather n offset bs out)
unfolding gather
gather-Took n offset [] out h k = absurd (omega arith)
gather-Took n offset (b ∷ bs) out h k = elim (lt_or_eq_or_gt (length b + offset) n) [
  | inl more ↦
      let ih =
        gather-Took n (offset + length b) bs (out ++ b) (omega arith)
          (omega (arith, length-append b (joined bs))) in
      let e : n - (offset + length b) ≡ n - offset - length b = omega arith in
      record {
        left = ih.left;
        result = ground (
          arith,
          ih.result,
          e,
          take-append_ge (n - offset) b (joined bs),
          append_assoc out b (take (n - offset - length b) (joined bs)),
        );
        left_is = ground (arith, ih.left_is, e, drop-append_ge (n - offset) b (joined bs));
      }
  | inr (inl exact) ↦
      let e : n - offset ≡ length b = omega arith in
      record {
        left = bs;
        result = ground (arith, e, take-length-append b (joined bs));
        left_is = ground (arith, e, drop-length-append b (joined bs));
      }
  | inr (inr less) ↦ record {
    left = drop (n - offset) b ∷ bs;
    result = ground (arith, take-append (n - offset) b (joined bs));
    left_is = sym (drop-append (n - offset) b (joined bs) (omega arith));
  }
]

consume_chunks-Took :
    (n : ℕ) (bs : List Bytes) → 0 < n → n ≤ length (joined bs) → Took n bs [] (consume_chunks n bs)
unfolding consume_chunks
consume_chunks-Took n [] h k = absurd (omega arith)
consume_chunks-Took n (b ∷ bs) h k = elim (lt_or_eq_or_gt (length b) n) [
  | inl more ↦
      let ih = gather-Took n 0 (b ∷ bs) [] h (omega arith) in
      let e : n - 0 ≡ n = omega arith in
      record {
        left = ih.left;
        result = ground (arith, ih.result, e);
        left_is = ground (arith, ih.left_is, e);
      }
  | inr (inl exact) ↦ record {
    left = bs;
    result = ground (arith, exact, take-length-append b (joined bs));
    left_is = ground (arith, exact, drop-length-append b (joined bs));
  }
  | inr (inr less) ↦ record {
    left = drop n b ∷ bs;
    result = ground (arith, take-append n b (joined bs));
    left_is = sym (drop-append n b (joined bs) (omega arith));
  }
]

-- `consume(n)` never throws where `n` bytes are buffered: it returns the first `n` bytes of the
-- chunks, as if they were one buffer, and keeps the rest in order.
pub consume_lem :
    (n byte_offset : ℕ) (buffers : List Bytes)
    → byte_offset ≡ length (joined buffers)
    → n ≤ byte_offset
    → (left : List Bytes) × (consume n byte_offset buffers
        ≡ some (take n (joined buffers), byte_offset - n, left))
      × (joined left ≡ drop n (joined buffers))
unfolding consume
consume_lem zero byte_offset buffers e h =
    let same : byte_offset - 0 ≡ byte_offset = omega arith in (buffers, ground (arith, same), refl)
consume_lem (suc n) byte_offset buffers e h =
    let t = consume_chunks-Took (suc n) buffers (omega arith) (omega arith) in
    (t.left, ground (arith, t.result), t.left_is)

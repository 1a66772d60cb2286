-- ===== src/EventSource/Stream/Settle.antt =====
-- `syncLineStartToCursor` and `dropConsumedChunks` of eventsource-stream.js: a line starts at the cursor, in
-- the first chunk that is kept.
use undici.Base.{
  ℕ, zero, suc, ◌-◌, ◌≡◌, refl, ap, ◌∙◌, subst, arith, false, List, [], ◌∷◌, ◌++◌, Bytes, length,
  take, drop, ◌==◌,
}
use undici.EventSource.Stream.{
  Stream, advance_cursor, shift_chunks, reset_chunks, drop_consumed_chunks,
  sync_line_start_to_cursor, slices, consume_current_byte,
}
use undici.EventSource.Stream.Cursor.{IsAt, Ordered-zero, drop_none, roll_on}

-- The line starts at the cursor, and the chunks before it are dropped.
pub IsAt-drop :
    (cs : List Bytes) (start : ℕ) (line ahead : Bytes) (i p : ℕ)
    → IsAt cs start line ahead i p
    → IsAt (drop i cs) p [] ahead 0 p
unfolding slices
IsAt-drop [] start line ahead zero p v = record {
  valid = v.valid;
  ordered = v.valid;
  line_is = refl;
  ahead_is = v.ahead_is;
}
IsAt-drop [] start line ahead (suc i) p v = absurd v.valid
IsAt-drop (c ∷ cs) start line ahead zero p v = record {
  valid = v.valid;
  ordered = omega arith;
  line_is = ap (λ n. take n (drop p c)) {x = p - p} {y = 0} (omega arith);
  ahead_is = v.ahead_is;
}
IsAt-drop (c ∷ cs) start line ahead (suc i) p v =
    IsAt-drop cs 0 (slices cs 0 i p) ahead i p (record {
      valid = v.valid;
      ordered = Ordered-zero cs i p;
      line_is = refl;
      ahead_is = v.ahead_is;
    })

shift_chunks_lem : (n : ℕ) (cs : List Bytes) (i : ℕ) → shift_chunks n cs i ≡ (drop n cs, i - n)
unfolding shift_chunks
shift_chunks_lem zero cs i = ap (λ k. (cs, k)) (omega arith)
shift_chunks_lem (suc n) [] i =
    shift_chunks_lem n [] (i - 1)
    ∙ ap (λ a. (a, i - 1 - n)) (drop_none n)
    ∙ ap (λ k. ([], k)) (omega arith)
shift_chunks_lem (suc n) (c ∷ cs) i =
    shift_chunks_lem n cs (i - 1) ∙ ap (λ k. (drop n cs, k)) (omega arith)

-- the stream with nothing but these bytes, at the start of a line
abbrev pub settled : Stream → List Bytes → ℕ → Stream
settled s cs p = record s {
  chunks = cs;
  chunk_index = 0;
  pos = p;
  line_chunk_index = 0;
  line_pos = p;
  current_line_size = 0;
}

-- a stream at the start of a line, with these bytes ahead
abbrev pub Settles : Stream → Bytes → Stream → Type 0
Settles s ahead s' =
    (cs : List Bytes) × ((p : ℕ) × ((s' ≡ settled s cs p) × IsAt cs p [] ahead 0 p))

not_reached : (n : ℕ) → (0 == suc n) ≡ false
not_reached n = ground arith

reset-Settles :
    (s : Stream) (cs : List Bytes) (p : ℕ) (ahead : Bytes)
    → IsAt cs p [] ahead 0 p
    → Settles s ahead (reset_chunks (settled s cs p))
unfolding reset_chunks
reset-Settles s [] p ahead v = ([], (0, (refl, subst (λ q. IsAt [] q [] ahead 0 q) v.valid v)))
reset-Settles s (c ∷ cs) p ahead v = (c ∷ cs, (p, (rw (not_reached (length cs)) refl, v)))

pub drop_consumed-Settles :
    (s : Stream) (start : ℕ) (line ahead : Bytes)
    → IsAt s.chunks start line ahead s.chunk_index s.pos
    → Settles s ahead (sync_line_start_to_cursor s)
unfolding drop_consumed_chunks sync_line_start_to_cursor
drop_consumed-Settles s start line ahead v =
    let none_left : s.chunk_index - s.chunk_index ≡ 0 = omega arith in
    rw (shift_chunks_lem s.chunk_index s.chunks s.chunk_index, none_left)
      (reset-Settles s (drop s.chunk_index s.chunks) s.pos ahead
        (IsAt-drop s.chunks start line ahead s.chunk_index s.pos v))

pub consume-Settles :
    (s : Stream) (start : ℕ) (line : Bytes) (b : ℕ) (rest : Bytes)
    → IsAt s.chunks start line (b ∷ rest) s.chunk_index s.pos
    → Settles s rest (consume_current_byte s)
unfolding consume_current_byte advance_cursor
consume-Settles s start line b rest v =
    drop_consumed-Settles (advance_cursor s) start (line ++ (b ∷ [])) rest
      (roll_on s.chunks start line b rest s.chunk_index s.pos v)

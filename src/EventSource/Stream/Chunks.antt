-- ===== src/EventSource/Stream/Chunks.antt =====
-- The chunks that `EventSourceStream` buffers: one more at their end, and their size.
use undici.Base.{
  ℕ, zero, suc, ◌+◌, ◌*◌, ◌≤◌, ◌≡◌, refl, sym, ap, ◌∙◌, subst, arith, List, [], ◌∷◌, ◌++◌, Bytes,
  joined, length, drop, append_assoc, append-nil, length-drop, length-append,
}
use undici.EventSource.Stream.{Stream, read_all, buffered, slices}
use undici.EventSource.Stream.Cursor.{IsAt, ahead_of, Ordered-zero}
use undici.EventSource.Stream.Bytewise.{going, read}
use undici.EventSource.Stream.Rounds.{reader_of, Reads, Finishes}
use undici.EventSource.Stream.Loop.{rounds-read}
use undici.EventSource.Stream.Mark.{Filled}

pub joined_last : (cs : List Bytes) (c : Bytes) → joined (cs ++ (c ∷ [])) ≡ joined cs ++ c
joined_last [] c = append-nil c
joined_last (b ∷ cs) c = ap (λ l. b ++ l) (joined_last cs c) ∙ sym (append_assoc b (joined cs) c)

pub Filled-last : (cs : List Bytes) (b : ℕ) (c : Bytes) → Filled cs → Filled (cs ++ ((b ∷ c) ∷ []))
Filled-last [] b c f = (omega arith, tt)
Filled-last (d ∷ cs) b c (f, fs) = (f, Filled-last cs b c fs)

-- a chunk more
pub IsAt-last :
    (cs : List Bytes) (start : ℕ) (line ahead : Bytes) (i p b : ℕ) (c : Bytes)
    → IsAt cs start line ahead i p
    → IsAt (cs ++ ((b ∷ c) ∷ [])) start line (ahead ++ (b ∷ c)) i p
unfolding slices
IsAt-last [] start line ahead zero p b c v =
    rw (v.valid, v.ordered)
      (record {
        valid = omega arith;
        ordered = omega arith;
        line_is = v.line_is;
        ahead_is = append-nil (b ∷ c) ∙ ap (λ a. a ++ (b ∷ c)) v.ahead_is;
      })
IsAt-last [] start line ahead (suc i) p b c v = absurd v.valid
IsAt-last (d ∷ cs) start line ahead zero p b c v = record {
  valid = v.valid;
  ordered = v.ordered;
  line_is = v.line_is;
  ahead_is =
      ap (λ l. drop p d ++ l) (joined_last cs (b ∷ c))
      ∙ (sym (append_assoc (drop p d) (joined cs) (b ∷ c)) ∙ ap (λ a. a ++ (b ∷ c)) v.ahead_is);
}
IsAt-last (d ∷ cs) start line ahead (suc i) p b c v =
    let w = IsAt-last cs 0 (slices cs 0 i p) ahead i p b c (record {
      valid = v.valid;
      ordered = Ordered-zero cs i p;
      line_is = refl;
      ahead_is = v.ahead_is;
    }) in
    record {
      valid = w.valid;
      ordered = v.ordered;
      line_is = ap (λ l. drop start d ++ l) w.line_is ∙ v.line_is;
      ahead_is = w.ahead_is;
    }

joined-buffered : (cs : List Bytes) → length (joined cs) ≡ buffered cs
unfolding buffered
joined-buffered [] = refl
joined-buffered (c ∷ cs) = omega (arith, length-append c (joined cs), joined-buffered cs)

ahead-buffered : (cs : List Bytes) (i p : ℕ) → length (ahead_of cs i p) ≤ buffered cs
unfolding buffered
ahead-buffered [] i p = omega arith
ahead-buffered (c ∷ cs) zero p =
    omega (arith, length-append (drop p c) (joined cs), length-drop p c, joined-buffered cs)
ahead-buffered (c ∷ cs) (suc i) p = omega (arith, ahead-buffered cs i p)

-- what is buffered is read in full
pub read_all-read :
    (s : Stream) (line ahead : Bytes)
    → Reads s line ahead
    → Finishes (read_all s) (read (going (reader_of s line)) ahead)
read_all-read s line ahead v =
    let bound : length ahead ≤ buffered s.chunks =
      subst (λ a. length a ≤ buffered s.chunks) v.is_at.ahead_is
        (ahead-buffered s.chunks s.chunk_index s.pos) in
    rounds-read (2 * buffered s.chunks + 1) s line ahead (omega (arith, bound)) v

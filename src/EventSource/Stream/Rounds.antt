-- ===== src/EventSource/Stream/Rounds.antt =====
-- A round of the loop of `_transform` in eventsource-stream.js against the reader of bytes.
use undici.Base.{
  ℕ, suc, ◌-◌, ◌≡◌, refl, sym, ap, ◌∙◌, subst, arith, true, false, Option, none, some, [], ◌∷◌,
  ◌++◌, ◌&&◌, Bytes, length, Bool-cases, inl, inr, length-append, ◌==◌, drop,
}
use undici.EventSource.{Pending, parse_line, has_pending_event, end_event}
use undici.EventSource.Stream.{
  Stream, slices, read_line, Ended, done, failed, stuck, Round, next, fail, finish_event, mark_cr,
  check_event_end, end_line, extend_line, round, follow, is_line_end, line_round, lf,
  advance_cursor, consume_current_byte, cr,
}
use undici.EventSource.Stream.Cursor.{IsAt, roll_on}
use undici.EventSource.Stream.Settle.{Settles, consume-Settles}
use undici.EventSource.Stream.Bytewise.{
  Reader, Reading, going, broken, blank_line, note_cr, close_line, is_over, grow_line, line_byte,
  byte_after_line, read,
}

-- the reader that a stream is, with this line
abbrev pub reader_of : Stream → Bytes → Reader
reader_of s line = record {
  settings = s.settings;
  after_cr = s.crlf_check;
  after_line = s.event_end_check;
  line = line;
  event = s.event;
  log = s.log;
}

-- a stream with this line behind its cursor and these bytes ahead
pub record Reads (s : Stream) (line ahead : Bytes) : Type 0 where
  pub past_mark : s.check_bom ≡ false
  pub first_chunk : s.line_chunk_index ≡ 0
  pub size_is : s.current_line_size ≡ length line
  pub is_at : IsAt s.chunks s.line_pos line ahead s.chunk_index s.pos

-- what a round, and what the loop, does of a reading
abbrev pub Follows : Round → Bytes → Reading → Type 0
Follows (next s) rest r = (line : Bytes) × (Reads s line rest × (going (reader_of s line) ≡ r))
Follows (fail s) rest r = (line : Bytes) × (broken (reader_of s line) ≡ r)

abbrev pub Finishes : Ended → Reading → Type 0
Finishes (done s) r = (line : Bytes) × (Reads s line [] × (going (reader_of s line) ≡ r))
Finishes (failed s) r = (line : Bytes) × (broken (reader_of s line) ≡ r)
Finishes (stuck s) r = ⊥

pub read-broken : (r : Reader) (bytes : Bytes) → read (broken r) bytes ≡ broken r
unfolding read
read-broken r [] = refl
read-broken r (b ∷ bytes) = refl

pub follow-Finishes :
    (x : Round) (f : Stream → Ended) (rest : Bytes) (r : Reading)
    → Follows x rest r
    → ((s : Stream) (line : Bytes)
        → Reads s line rest
        → Finishes (f s) (read (going (reader_of s line)) rest))
    → Finishes (follow x f) (read r rest)
follow-Finishes (next s) f rest r (line, (v, e)) k =
    subst (λ x. Finishes (f s) (read x rest)) e (k s line v)
follow-Finishes (fail s) f rest r (line, e) k =
    (line, sym (read-broken (reader_of s line) rest) ∙ ap (λ x. read x rest) e)

-- the line is what `readLine` gives
read_line-Reads : (s : Stream) (line ahead : Bytes) → Reads s line ahead → read_line s ≡ line
unfolding read_line
read_line-Reads s line ahead v =
    ap (λ i. slices (drop i s.chunks) s.line_pos (s.chunk_index - i) s.pos) v.first_chunk
    ∙ (ap (λ k. slices s.chunks s.line_pos k s.pos) {x = s.chunk_index - 0} {y = s.chunk_index}
          (omega arith)
        ∙ v.is_at.line_is)

pub Settles-Reads :
    (s s' : Stream) (rest : Bytes)
    → s.check_bom ≡ false
    → Settles s rest s'
    → Reads s' [] rest × (reader_of s' [] ≡ reader_of s [])
Settles-Reads s s' rest h (cs, (p, (e, v))) =
    subst (λ t. Reads t [] rest × (reader_of t [] ≡ reader_of s [])) (sym e)
      (record { past_mark = h; first_chunk = refl; size_is = refl; is_at = v }, refl)

consume-Reads :
    (s : Stream) (line : Bytes) (b : ℕ) (rest : Bytes)
    → Reads s line (b ∷ rest)
    → Reads (consume_current_byte s) [] rest
      × (reader_of (consume_current_byte s) [] ≡ reader_of s [])
consume-Reads s line b rest v =
    Settles-Reads s (consume_current_byte s) rest v.past_mark
      (consume-Settles s s.line_pos line b rest v.is_at)

-- flags and the event do not matter to the cursor
mark_cr-Reads :
    (s : Stream) (b : ℕ) (line ahead : Bytes)
    → Reads s line ahead
    → Reads (mark_cr s b) line ahead × (reader_of (mark_cr s b) line ≡ note_cr (reader_of s line) b)
mark_cr-Reads s b line ahead v = elim (Bool-cases (b == cr)) [
  | inl e ↦ rw e (
    record {
      past_mark = v.past_mark;
      first_chunk = v.first_chunk;
      size_is = v.size_is;
      is_at = v.is_at;
    },
    refl,
  )
  | inr e ↦ rw e (v, refl)
]

end_line-Follows :
    (s : Stream) (line : Bytes) (b : ℕ) (rest : Bytes) (parsed : Option Pending)
    → Reads s line (b ∷ rest)
    → Follows (end_line s parsed) rest (close_line (reader_of s line) parsed)
unfolding end_line close_line
end_line-Follows s line b rest none v = (line, refl)
end_line-Follows s line b rest (some event) v =
    let (w, e) =
      consume-Reads (record s { event = event }) line b rest
        (record {
          past_mark = v.past_mark;
          first_chunk = v.first_chunk;
          size_is = v.size_is;
          is_at = v.is_at;
        }) in
    (
      [],
      (
        record {
          past_mark = w.past_mark;
          first_chunk = w.first_chunk;
          size_is = w.size_is;
          is_at = w.is_at;
        },
        ap (λ r. going (record r { after_line = true })) e,
      ),
    )

extend_line-Follows :
    (s : Stream) (line : Bytes) (b : ℕ) (rest : Bytes)
    → Reads s line (b ∷ rest)
    → Follows
        (extend_line s)
        rest
        (grow_line (record (reader_of s line) { line = line ++ (b ∷ []) }))
unfolding extend_line grow_line advance_cursor
extend_line-Follows s line b rest v =
    let size : suc s.current_line_size ≡ length (line ++ (b ∷ [])) =
      omega (arith, length-append line (b ∷ []), v.size_is) in
    elim (Bool-cases (is_over s.event (line ++ (b ∷ [])))) [
      | inl e ↦ rw (size, e) (line ++ (b ∷ []), refl)
      | inr e ↦
          rw (size, e)
            (
              line ++ (b ∷ []),
              (
                record {
                  past_mark = v.past_mark;
                  first_chunk = v.first_chunk;
                  size_is = refl;
                  is_at = roll_on s.chunks s.line_pos line b rest s.chunk_index s.pos v.is_at;
                },
                refl,
              ),
            )
    ]

finish_event-Reads :
    (s : Stream) (rest : Bytes)
    → Reads s [] rest
    → Reads (finish_event s) [] rest × (reader_of (finish_event s) [] ≡ blank_line (reader_of s []))
unfolding finish_event blank_line end_event
finish_event-Reads s rest v = elim (Bool-cases (has_pending_event s.event)) [
  | inl e ↦ rw e (
    record {
      past_mark = v.past_mark;
      first_chunk = v.first_chunk;
      size_is = v.size_is;
      is_at = v.is_at;
    },
    refl,
  )
  | inr e ↦ rw e (
    record {
      past_mark = v.past_mark;
      first_chunk = v.first_chunk;
      size_is = v.size_is;
      is_at = v.is_at;
    },
    refl,
  )
]

pub line_byte-Follows :
    (s : Stream) (line : Bytes) (b : ℕ) (rest : Bytes)
    → Reads s line (b ∷ rest)
    → Follows (line_round s b) rest (line_byte (reader_of s line) b)
unfolding line_round line_byte
line_byte-Follows s line b rest v = elim (Bool-cases (is_line_end b)) [
  | inl h ↦
      let (w, same) = mark_cr-Reads s b line (b ∷ rest) v in
      rw (h, read_line-Reads s line (b ∷ rest) v)
        (subst
          (λ r.
            Follows (end_line (mark_cr s b) (parse_line s.event line)) rest
              (close_line r (parse_line s.event line)))
          same (end_line-Follows (mark_cr s b) line b rest (parse_line s.event line) w))
  | inr h ↦ rw h (extend_line-Follows s line b rest v)
]

-- the LF of a CR
pub line_feed-Follows :
    (s : Stream) (line : Bytes) (b : ℕ) (rest : Bytes)
    → s.crlf_check && b == lf ≡ true
    → Reads s line (b ∷ rest)
    → Follows (next (check_event_end s b)) rest (byte_after_line (reader_of s line) b)
unfolding byte_after_line check_event_end
line_feed-Follows s line b rest h v =
    let (w, e) =
      consume-Reads (record s { crlf_check = false }) line b rest
        (record {
          past_mark = v.past_mark;
          first_chunk = v.first_chunk;
          size_is = v.size_is;
          is_at = v.is_at;
        }) in
    rw h ([], (w, ap (λ r. going r) e))

-- the end of an event
pub blank_line-Follows :
    (s : Stream) (line : Bytes) (b : ℕ) (rest : Bytes)
    → s.crlf_check && b == lf ≡ false
    → is_line_end b ≡ true
    → Reads s line (b ∷ rest)
    → Follows (next (check_event_end s b)) rest (byte_after_line (reader_of s line) b)
unfolding byte_after_line check_event_end blank_line
blank_line-Follows s line b rest h k v =
    let s' = mark_cr (record s { crlf_check = false }) b in
    let (w, e) =
      mark_cr-Reads (record s { crlf_check = false }) b line (b ∷ rest)
        (record {
          past_mark = v.past_mark;
          first_chunk = v.first_chunk;
          size_is = v.size_is;
          is_at = v.is_at;
        }) in
    let (u, f) = consume-Reads s' line b rest w in
    let (x, g) = finish_event-Reads (consume_current_byte s') rest u in
    rw (h, k)
      ([], (x, ap (λ r. going r) (g ∙ (ap (λ r. blank_line r) f ∙ ap (λ r. blank_line r) e))))

-- a byte behind a line's end that starts a line
pub check_event_end-Follows :
    (s : Stream) (line : Bytes) (b : ℕ) (rest : Bytes)
    → s.crlf_check && b == lf ≡ false
    → is_line_end b ≡ false
    → Reads s line (b ∷ rest)
    → Follows (round (check_event_end s b) b) rest (byte_after_line (reader_of s line) b)
unfolding byte_after_line check_event_end round
check_event_end-Follows s line b rest h k v =
    rw (h, k)
      (line_byte-Follows (record s { crlf_check = false; event_end_check = false }) line b rest
        (record {
          past_mark = v.past_mark;
          first_chunk = v.first_chunk;
          size_is = v.size_is;
          is_at = v.is_at;
        }))

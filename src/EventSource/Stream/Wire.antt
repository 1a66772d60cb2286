-- ===== src/EventSource/Stream/Wire.antt =====
-- An event as a server writes it, its lines with one of the three line ends, in any chunks.
use undici.Base.{
  ℕ, ◌+◌, ◌≤◌, ◌≡◌, refl, sym, ap, ◌∙◌, subst, arith, Bool, true, false, ◌&&◌, Option, none, some,
  List, [], ◌∷◌, ◌++◌, Bytes, joined, length, ◌==◌, ◌⊎◌, inl, inr, append_assoc, append-nil,
  length-append, Option-cases,
}
use undici.EventSource.{
  Pending, clear_event, parse_line, parse_lines, EventSourceSettings, Dispatched, end_event,
  data_field,
}
use undici.EventSource.Message.{receive, parse_lines_step}
use undici.EventSource.Stream.{lf, cr, is_line_end, logged, new_stream, done, feed}
use undici.EventSource.Stream.Bytewise.{
  Reader, going, new_reader, blank_line, close_line, is_over, grow_line, line_byte, byte_after_line,
  read_byte, read, seen,
}
use undici.EventSource.Stream.Shown.{read_append}
use undici.EventSource.Stream.Mark.{unmarked}
use undici.EventSource.Stream.Feed.{view, view-feed}
use undici.EventSource.Stream.Bound.{parse_line-Kept}

pub data LineEnd : Type 0 where
  lf_end cr_end crlf_end : LineEnd

abbrev pub bytes_of : LineEnd → Bytes
bytes_of lf_end = lf ∷ []
bytes_of cr_end = cr ∷ []
bytes_of crlf_end = cr ∷ lf ∷ []

-- the lines and a blank one
unfoldable pub wire : LineEnd → List Bytes → Bytes
wire end [] = bytes_of end
wire end (line ∷ lines) = line ++ (bytes_of end ++ wire end lines)

-- no byte ends a line
abbrev pub Endless : Bytes → Type 0
Endless [] = Unit
Endless (b ∷ line) = (is_line_end b ≡ false) × Endless line

-- A line is not blank, it is one line, and it is within the bound where one is set.
abbrev pub IsLine : ℕ → Bytes → Type 0
IsLine max_size [] = ⊥
IsLine max_size (b ∷ line) =
    Endless (b ∷ line) × ((max_size ≡ 0) ⊎ (length (b ∷ line) ≤ max_size + (length data_field + 2)))

abbrev pub AllLines : ℕ → List Bytes → Type 0
AllLines max_size [] = Unit
AllLines max_size (line ∷ lines) = IsLine max_size line × AllLines max_size lines

abbrev get_pending : Option Pending → Pending → Pending
get_pending none e = e
get_pending (some e) d = e

-- whether a reader is behind the CR of a line end
abbrev ends_in_cr : LineEnd → Bool
ends_in_cr lf_end = false
ends_in_cr cr_end = true
ends_in_cr crlf_end = false

module _ (settings : EventSourceSettings) (log : List Dispatched) (max_size : ℕ) where
  abbrev at : Bool → Bool → Bytes → Pending → Reader
  at after_cr after_line line event = record {
    settings = settings;
    after_cr = after_cr;
    after_line = after_line;
    line = line;
    event = event;
    log = log;
  }

  -- what the end of an event shows
  abbrev shown : Pending → Bool × (EventSourceSettings × List Dispatched)
  shown e = let (settings', pushed) = end_event settings e in (true, (settings', logged log pushed))

  abbrev Fits : Bytes → Type 0
  Fits line = (max_size ≡ 0) ⊎ (length line ≤ max_size + (length data_field + 2))

  not_over :
      (e : Pending) (line : Bytes)
      → e.max_event_size ≡ max_size
      → Fits line
      → is_over e line ≡ false
  not_over e line h k = ground (arith, h, k)

  -- a byte of a line
  read_more :
      (e : Pending) (line : Bytes) (b : ℕ)
      → e.max_event_size ≡ max_size
      → is_line_end b ≡ false
      → Fits (line ++ (b ∷ []))
      → line_byte (at false false line e) b ≡ going (at false false (line ++ (b ∷ [])) e)
  unfolding line_byte grow_line
  read_more e line b h k f = rw (k, not_over e (line ++ (b ∷ [])) h f) refl

  shorter :
      (line : Bytes) (b : ℕ) (more : Bytes) → Fits (line ++ (b ∷ more)) → Fits (line ++ (b ∷ []))
  shorter line b more (inl h) = inl h
  shorter line b more (inr h) =
      inr (omega (arith, h, length-append line (b ∷ more), length-append line (b ∷ [])))

  -- the bytes of a line
  read_rest :
      (e : Pending) (line more : Bytes)
      → e.max_event_size ≡ max_size
      → Endless more
      → Fits (line ++ more)
      → read (going (at false false line e)) more ≡ going (at false false (line ++ more) e)
  unfolding read read_byte
  read_rest e line [] h k f = ap (λ l. going (at false false l e)) (sym (append-nil line))
  read_rest e line (b ∷ more) h (k, ks) f =
      let one = append_assoc line (b ∷ []) more in
      rw (read_more e line b h k (shorter line b more f)) (
        read_rest e (line ++ (b ∷ [])) more h ks (subst (λ l. Fits l) (sym one) f)
        ∙ ap (λ l. going (at false false l e)) one)

  not_lf : (c : Bool) (b : ℕ) → is_line_end b ≡ false → (c && b == lf) ≡ false
  not_lf c b h = ground (arith, h)

  -- the first byte of a line
  read_first :
      (e : Pending) (after_cr after_line : Bool) (b : ℕ)
      → (after_line ≡ true) ⊎ (after_cr ≡ false)
      → e.max_event_size ≡ max_size
      → is_line_end b ≡ false
      → Fits (b ∷ [])
      → read_byte (at after_cr after_line [] e) b ≡ going (at false false (b ∷ []) e)
  unfolding read_byte byte_after_line
  read_first e c true b o h k f = rw (not_lf c b k, k) (read_more e [] b h k f)
  read_first e c false b (inl o) h k f = absurd (ground (arith, o))
  read_first e c false b (inr o) h k f = rw o (read_more e [] b h k f)

  -- a line's end
  read_end :
      (e e' : Pending) (end : LineEnd) (line : Bytes)
      → parse_line e line ≡ some e'
      → read (going (at false false line e)) (bytes_of end) ≡ going (at (ends_in_cr end) true [] e')
  unfolding read read_byte byte_after_line line_byte close_line
  read_end e e' lf_end line h = rw h refl
  read_end e e' cr_end line h = rw h refl
  read_end e e' crlf_end line h = ap (λ o. read (close_line (at true false line e) o) (lf ∷ [])) h

  -- a line and its end
  read_line_end :
      (e e' : Pending) (after_cr after_line : Bool) (end : LineEnd) (line : Bytes)
      → (after_line ≡ true) ⊎ (after_cr ≡ false)
      → e.max_event_size ≡ max_size
      → IsLine max_size line
      → parse_line e line ≡ some e'
      → read (going (at after_cr after_line [] e)) (line ++ bytes_of end)
        ≡ going (at (ends_in_cr end) true [] e')
  unfolding read
  read_line_end e e' c l end [] o h k p = absurd k
  read_line_end e e' c l end (b ∷ line) o h ((k, ks), f) p =
      ap (λ x. read x (line ++ bytes_of end)) (read_first e c l b o h k (shorter [] b line f))
      ∙ (read_append (going (at false false (b ∷ []) e)) line (bytes_of end)
          ∙ (ap (λ x. read x (bytes_of end)) (read_rest e (b ∷ []) line h ks f)
              ∙ read_end e e' end (b ∷ line) p))

  read_one :
      (e e' : Pending) (after_cr after_line : Bool) (end : LineEnd) (line : Bytes)
      (lines : List Bytes)
      → (after_line ≡ true) ⊎ (after_cr ≡ false)
      → e.max_event_size ≡ max_size
      → IsLine max_size line
      → parse_line e line ≡ some e'
      → seen (read (going (at after_cr after_line [] e)) (wire end (line ∷ lines)))
        ≡ seen (read (going (at (ends_in_cr end) true [] e')) (wire end lines))
  unfolding wire
  read_one e e' c l end line lines o h k p = ap seen (
      ap (λ b. read (going (at c l [] e)) b)
        (sym (append_assoc line (bytes_of end) (wire end lines)))
      ∙ (read_append (going (at c l [] e)) (line ++ bytes_of end) (wire end lines)
          ∙ ap (λ x. read x (wire end lines)) (read_line_end e e' c l end line o h k p)))

  read_blank :
      (e : Pending) (end : LineEnd)
      → seen (read (going (at (ends_in_cr end) true [] e)) (bytes_of end)) ≡ shown e
  unfolding read read_byte byte_after_line blank_line
  read_blank e lf_end = refl
  read_blank e cr_end = refl
  read_blank e crlf_end = refl

  -- the lines of an event, where those behind the first one are read
  read_event :
      (e e' : Pending) (after_cr after_line : Bool) (end : LineEnd) (line : Bytes)
      (lines : List Bytes)
      → (after_line ≡ true) ⊎ (after_cr ≡ false)
      → e.max_event_size ≡ max_size
      → IsLine max_size line
      → parse_lines e (line ∷ lines) ≡ some e'
      → ((e1 : Pending)
          → e1.max_event_size ≡ max_size
          → parse_lines e1 lines ≡ some e'
          → seen (read (going (at (ends_in_cr end) true [] e1)) (wire end lines)) ≡ shown e')
      → seen (read (going (at after_cr after_line [] e)) (wire end (line ∷ lines))) ≡ shown e'
  unfolding parse_lines
  read_event e e' c l end line lines o h k p rest = elim (Option-cases (parse_line e line)) [
    | inl q ↦ absurd (
        ground (arith, sym (ap (λ o. elim o [ none ↦ none | some x ↦ parse_lines x lines ]) q) ∙ p))
    | inr (e1, q) ↦
        read_one e e1 c l end line lines o h k q
        ∙ rest e1 (parse_line-Kept e e1 line q ∙ h) (sym (parse_lines_step e e1 line lines q) ∙ p)
  ]

  -- more lines of an event
  read_lines :
      (e e' : Pending) (end : LineEnd) (lines : List Bytes)
      → e.max_event_size ≡ max_size
      → AllLines max_size lines
      → parse_lines e lines ≡ some e'
      → seen (read (going (at (ends_in_cr end) true [] e)) (wire end lines)) ≡ shown e'
  unfolding wire parse_lines
  read_lines e e' end [] h k p =
      ap (λ o. seen (read (going (at (ends_in_cr end) true [] (get_pending o e))) (bytes_of end))) p
      ∙ read_blank e' end
  read_lines e e' end (line ∷ lines) h (k, ks) p =
      read_event e e' (ends_in_cr end) true end line lines (inl refl) h k p
        (λ e1 m q. read_lines e1 e' end lines m ks q)

abbrev received :
    EventSourceSettings → Option Pending → Option (EventSourceSettings × Option Dispatched)
received s o = elim o [ none ↦ none | some e ↦ some (end_event s e) ]

abbrev shown_of :
    Option (EventSourceSettings × Option Dispatched)
    → Option (Bool × (EventSourceSettings × List Dispatched))
shown_of none = none
shown_of (some (settings, pushed)) = some (true, (settings, logged [] pushed))

-- An event's lines, with any of the three line ends, are an event for the application when the blank line has
-- come, however the bytes are cut into chunks, and with a byte order mark in front or not. A line is not blank and
-- has no CR or LF, and it is within the bound where one is set.
pub view-wire :
    (settings s' : EventSourceSettings) (pushed : Option Dispatched) (max_size : ℕ) (end : LineEnd)
    (line : Bytes) (lines chunks : List Bytes)
    → AllLines max_size (line ∷ lines)
    → receive settings max_size (line ∷ lines) ≡ some (s', pushed)
    → unmarked (joined chunks) ≡ wire end (line ∷ lines)
    → view (feed (done (new_stream settings max_size)) chunks) ≡ some (true, (s', logged [] pushed))
view-wire settings s' pushed max_size end line lines chunks (k, ks) r w =
    let e = clear_event max_size in
    view-feed settings max_size chunks
    ∙ ap (λ b. some (seen (read (going (new_reader settings max_size)) b))) w
    ∙ elim (Option-cases (parse_lines e (line ∷ lines))) [
      | inl q ↦ absurd (ground (arith, sym (ap (λ o. received settings o) q) ∙ r))
      | inr (e', q) ↦
          ap some (
            read_event settings [] max_size e e' false false end line lines (inr refl) refl k q
              (λ e1 m p. read_lines settings [] max_size e1 e' end lines m ks p))
          ∙ ap (λ o. shown_of o) (sym (ap (λ o. received settings o) q) ∙ r)
    ]

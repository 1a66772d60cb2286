-- ===== src/EventSource/Stream/Loop.antt =====
-- The loop of `_transform` in eventsource-stream.js reads what is buffered, in two rounds for a byte at most.
use undici.Base.{
  ℕ, zero, suc, ◌*◌, ◌<◌, ◌≡◌, refl, ap, ◌∙◌, arith, true, false, [], ◌∷◌, ◌&&◌, Bytes, length,
  get_elem?, Bool-cases, inl, inr, ◌==◌, if◌then◌else◌,
}
use undici.EventSource.Stream.{
  Stream, next, check_event_end, round, follow, rounds, current_byte, is_line_end, line_round, lf,
}
use undici.EventSource.Stream.Cursor.{byte_at-ahead_of}
use undici.EventSource.Stream.Bytewise.{Reader, going, line_byte, byte_after_line, read_byte, read}
use undici.EventSource.Stream.Rounds.{
  reader_of, Reads, Follows, Finishes, follow-Finishes, line_byte-Follows, line_feed-Follows,
  blank_line-Follows, check_event_end-Follows,
}

round-after :
    (s : Stream) (b : ℕ) → s.event_end_check ≡ true → round s b ≡ next (check_event_end s b)
unfolding round
round-after s b e = ap (λ t. if t then next (check_event_end s b) else line_round s b) e

round-within : (s : Stream) (b : ℕ) → s.event_end_check ≡ false → round s b ≡ line_round s b
unfolding round
round-within s b e = ap (λ t. if t then next (check_event_end s b) else line_round s b) e

read_byte-after : (r : Reader) (b : ℕ) → r.after_line ≡ true → read_byte r b ≡ byte_after_line r b
unfolding read_byte
read_byte-after r b e = ap (λ t. if t then byte_after_line r b else line_byte r b) e

read_byte-within : (r : Reader) (b : ℕ) → r.after_line ≡ false → read_byte r b ≡ line_byte r b
unfolding read_byte
read_byte-within r b e = ap (λ t. if t then byte_after_line r b else line_byte r b) e

-- the loop does a reading from any stream with these bytes ahead
abbrev pub LoopReads : Bytes → Type 0
LoopReads rest =
    (fuel : ℕ) (s : Stream) (line : Bytes)
    → 2 * length rest < fuel
    → Reads s line rest
    → Finishes (rounds fuel s) (read (going (reader_of s line)) rest)

check_event_end-current :
    (s : Stream) (b : ℕ)
    → s.crlf_check && b == lf ≡ false
    → is_line_end b ≡ false
    → current_byte (check_event_end s b) ≡ current_byte s
unfolding check_event_end
check_event_end-current s b h k = rw (h, k) refl

pub current_byte-Reads :
    (s : Stream) (line ahead : Bytes) → Reads s line ahead → current_byte s ≡ get_elem? ahead 0
current_byte-Reads s line ahead v =
    byte_at-ahead_of s.chunks s.chunk_index s.pos v.is_at.valid
    ∙ ap (λ a. get_elem? a 0) v.is_at.ahead_is

-- a byte that starts a line takes two rounds
two_rounds-Finishes :
    (fuel : ℕ) (s : Stream) (line : Bytes) (b : ℕ) (rest : Bytes)
    → 2 * length rest < fuel
    → s.crlf_check && b == lf ≡ false
    → is_line_end b ≡ false
    → Reads s line (b ∷ rest)
    → LoopReads rest
    → Finishes
        (rounds (suc fuel) (check_event_end s b))
        (read (byte_after_line (reader_of s line) b) rest)
unfolding rounds
two_rounds-Finishes fuel s line b rest h c e v k =
    rw (check_event_end-current s b c e, current_byte-Reads s line (b ∷ rest) v)
      (follow-Finishes (round (check_event_end s b) b) (λ t. rounds fuel t) rest _
        (check_event_end-Follows s line b rest c e v) (λ t line'. k fuel t line' h))

-- a byte behind a line
after-Finishes :
    (fuel : ℕ) (s : Stream) (line : Bytes) (b : ℕ) (rest : Bytes)
    → 2 * length (b ∷ rest) < suc fuel
    → Reads s line (b ∷ rest)
    → LoopReads rest
    → Finishes
        (rounds fuel (check_event_end s b))
        (read (byte_after_line (reader_of s line) b) rest)
after-Finishes zero s line b rest h v k = absurd (omega (arith, h))
after-Finishes (suc fuel) s line b rest h v k =
    let one : Follows (next (check_event_end s b)) rest (byte_after_line (reader_of s line) b)
        → Finishes (rounds (suc fuel) (check_event_end s b))
            (read (byte_after_line (reader_of s line) b) rest) =
      λ x.
        follow-Finishes (next (check_event_end s b)) (λ t. rounds (suc fuel) t) rest
          (byte_after_line (reader_of s line) b) x
          (λ t line'. k (suc fuel) t line' (omega (arith, h))) in
    elim (Bool-cases (s.crlf_check && b == lf)) [
      | inl c ↦ one (line_feed-Follows s line b rest c v)
      | inr c ↦ elim (Bool-cases (is_line_end b)) [
        | inl e ↦ one (blank_line-Follows s line b rest c e v)
        | inr e ↦ two_rounds-Finishes fuel s line b rest (omega (arith, h)) c e v k
      ]
    ]

byte-Finishes :
    (fuel : ℕ) (s : Stream) (line : Bytes) (b : ℕ) (rest : Bytes)
    → 2 * length (b ∷ rest) < suc fuel
    → Reads s line (b ∷ rest)
    → LoopReads rest
    → Finishes
        (follow (round s b) (λ t. rounds fuel t))
        (read (read_byte (reader_of s line) b) rest)
byte-Finishes fuel s line b rest h v k = elim (Bool-cases s.event_end_check) [
  | inl e ↦
      rw (round-after s b e, read_byte-after (reader_of s line) b e)
        (after-Finishes fuel s line b rest h v k)
  | inr e ↦
      rw (round-within s b e, read_byte-within (reader_of s line) b e)
        (follow-Finishes (line_round s b) (λ t. rounds fuel t) rest _
          (line_byte-Follows s line b rest v) (λ t line'. k fuel t line' (omega (arith, h))))
]

-- The loop on what is buffered is the reader on these bytes, and it ends.
pub rounds-read :
    (fuel : ℕ) (s : Stream) (line ahead : Bytes)
    → 2 * length ahead < fuel
    → Reads s line ahead
    → Finishes (rounds fuel s) (read (going (reader_of s line)) ahead)
unfolding rounds read
rounds-read zero s line ahead h v = absurd (omega (arith, h))
rounds-read (suc fuel) s line [] h v = rw (current_byte-Reads s line _ v) (line, (v, refl))
rounds-read (suc fuel) s line (b ∷ rest) h v =
    rw (current_byte-Reads s line _ v)
      (byte-Finishes fuel s line b rest h v (λ g s' line'. rounds-read g s' line' rest))

-- ===== src/EventSource/Stream/Feed.antt =====
-- `_transform` in eventsource-stream.js, chunk by chunk, against the reader of all the bytes.
use undici.Base.{
  ℕ, ◌≤◌, ◌<◌, ◌≡◌, refl, sym, ap, ap₂, ◌∙◌, subst, arith, Bool, true, false, ◌&&◌, not, Option,
  none, some, List, [], ◌∷◌, ◌++◌, Bytes, joined, length, take, drop, get_elem?, ◌==◌,
  if◌then◌else◌, Bool-cases, ◌⊎◌, inl, inr, append_assoc, append-nil, length-append,
}
use undici.EventSource.{EventSourceSettings, Dispatched}
use undici.EventSource.Stream.{
  Stream, new_stream, Ended, done, failed, stuck, handle_bom, handle_bom_on, peek_buffered_byte,
  discard_leading_bytes, read_all, unless_waiting, is_some_byte, transform, feed, current_byte,
  discard, sync_line_start_to_cursor,
}
use undici.EventSource.Stream.Cursor.{IsAt}
use undici.EventSource.Stream.Settle.{drop_consumed-Settles}
use undici.EventSource.Stream.Shown.{read_append, seen_byte, seen_part}
use undici.EventSource.Stream.Bytewise.{new_reader, Reading, going, broken, read, seen}
use undici.EventSource.Stream.Rounds.{reader_of, Reads, Finishes, read-broken}
use undici.EventSource.Stream.Loop.{current_byte-Reads}
use undici.EventSource.Stream.Chunks.{joined_last, Filled-last, IsAt-last, read_all-read}
use undici.EventSource.Stream.Mark.{
  unmarked, may_be_mark, unmarked-append, Filled, peek-joined, discard_on, IsAt-first,
  may_be_mark-append, unmarked_short, unmarked_two, is_bom, unmarked-bom, unmarked_rest,
}

-- what an application sees of a stream, with whether there was an error
abbrev pub view : Ended → Option (Bool × (EventSourceSettings × List Dispatched))
view (done s) = some (true, (s.settings, s.log))
view (failed s) = some (false, (s.settings, s.log))
view (stuck s) = none

module _ (settings : EventSourceSettings) (max_size : ℕ) where
  -- a stream that waits for the rest of a mark, and one that does not look for it any more
  abbrev held : List Bytes → Stream
  held cs = record (new_stream settings max_size) { chunks = cs }

  abbrev opened : List Bytes → Stream
  opened cs = record (held cs) { check_bom = false }

  abbrev whole : Bytes → Reading
  whole total = read (going (new_reader settings max_size)) (unmarked total)

  abbrev Held : Bytes → Stream → Type 0
  Held total s =
      (cs : List Bytes) × (Filled cs
        × ((joined cs ≡ total) × ((may_be_mark total ≡ true) × (s ≡ held cs))))

  -- nothing is left to read, or the one byte that `handleBOM` has looked at
  abbrev Shown : Bytes → Stream → Bytes → Type 0
  Shown total s ahead =
      (ahead ≡ []) ⊎ ((a : ℕ) × ((total ≡ a ∷ []) × ((s.settings ≡ settings) × (s.log ≡ []))))

  abbrev Started : Bytes → Stream → Type 0
  Started total s =
      (may_be_mark total ≡ false)
      × ((line : Bytes) × ((ahead : Bytes) × (Reads s line ahead
              × ((read (going (reader_of s line)) ahead ≡ whole total) × Shown total s ahead))))

  -- what is true after these bytes
  abbrev Progress : Bytes → Ended → Type 0
  Progress total (done s) = Held total s ⊎ Started total s
  Progress total (failed s) =
      (may_be_mark total ≡ false) × ((line : Bytes) × (broken (reader_of s line) ≡ whole total))
  Progress total (stuck s) = ⊥

  Finishes-Progress :
      (total : Bytes) (e : Ended)
      → may_be_mark total ≡ false
      → Finishes e (whole total)
      → Progress total e
  unfolding read
  Finishes-Progress total (done s) h (line, (v, e)) = inr (h, (line, ([], (v, (e, inl refl)))))
  Finishes-Progress total (failed s) h (line, e) = (h, (line, e))
  Finishes-Progress total (stuck s) h v = absurd v

  opened-Reads :
      (cs : List Bytes) (b : ℕ) (rest : Bytes)
      → Filled cs
      → joined cs ≡ b ∷ rest
      → Reads (opened cs) [] (b ∷ rest)
  opened-Reads [] b rest f e = absurd (ground (arith, e))
  opened-Reads (c ∷ cs) b rest (f, fs) e = record {
    past_mark = refl;
    first_chunk = refl;
    size_is = refl;
    is_at = subst (λ a. IsAt (c ∷ cs) 0 [] a 0 0) e (IsAt-first c cs 0 f);
  }

  -- the mark is dropped
  abbrev dropped : List Bytes → Stream
  dropped cs = record (discard_leading_bytes (held cs) 3) { check_bom = false }

  dropped-Reads :
      (cs : List Bytes) (a b c : ℕ) (rest : Bytes)
      → Filled cs
      → joined cs ≡ a ∷ b ∷ c ∷ rest
      → Reads (dropped cs) [] rest × (reader_of (dropped cs) [] ≡ new_reader settings max_size)
  unfolding discard_leading_bytes sync_line_start_to_cursor
  dropped-Reads cs a b c rest f e =
      let (i, p) = discard cs 0 0 3 in
      let enough : 3 ≤ length (joined cs) = subst (λ l. 3 ≤ length l) (sym e) (omega arith) in
      let (ds, (q, (settles, v))) =
        drop_consumed-Settles (record (held cs) { chunk_index = i; pos = p }) 0 (take 3 (joined cs))
          rest
          (subst (λ l. IsAt cs 0 (take 3 (joined cs)) l i p) (ap (λ l. drop 3 l) e)
            (discard_on cs 3 f enough)) in
      subst
        (λ t.
          Reads (record t { check_bom = false }) [] rest
          × (reader_of (record t { check_bom = false }) [] ≡ new_reader settings max_size))
        (sym settles)
        (record { past_mark = refl; first_chunk = refl; size_is = refl; is_at = v }, refl)

  -- `_transform` behind `handleBOM`, where it has looked at the cursor
  opened-Finishes :
      (s : Stream) (ahead : Bytes)
      → Reads s [] ahead
      → Finishes
          (unless_waiting (s, not (is_some_byte (current_byte s))))
          (read (going (reader_of s [])) ahead)
  unfolding read
  opened-Finishes s [] v = rw (current_byte-Reads s [] [] v) ([], (v, refl))
  opened-Finishes s (b ∷ ahead) v =
      rw (current_byte-Reads s [] (b ∷ ahead) v) (read_all-read s [] (b ∷ ahead) v)

  mark-Progress :
      (cs : List Bytes) (a b c : ℕ) (rest : Bytes)
      → Filled cs
      → joined cs ≡ a ∷ b ∷ c ∷ rest
      → Progress
          (a ∷ b ∷ c ∷ rest)
          (unless_waiting (handle_bom_on (held cs) (some a) (some b) (some c)))
  unfolding handle_bom_on may_be_mark
  mark-Progress cs a b c rest f e = elim (Bool-cases (is_bom a b c)) [
    | inl k ↦
        let (v, same) = dropped-Reads cs a b c rest f e in
        rw k (
          Finishes-Progress (a ∷ b ∷ c ∷ rest) _ refl (
            subst
              (λ r.
                Finishes
                  (unless_waiting (dropped cs, not (is_some_byte (current_byte (dropped cs))))) r)
              (ap (λ r. read (going r) rest) same
                ∙ ap (λ l. read (going (new_reader settings max_size)) l)
                    (sym (unmarked-bom a b c rest k)))
              (opened-Finishes (dropped cs) rest v)))
    | inr k ↦ rw k (
        Finishes-Progress (a ∷ b ∷ c ∷ rest) _ refl (
          subst
            (λ l.
              Finishes (unless_waiting (opened cs, not (is_some_byte (current_byte (opened cs)))))
                (read (going (new_reader settings max_size)) l))
            (sym (unmarked_rest a b c rest k))
            (opened-Finishes (opened cs) (a ∷ b ∷ c ∷ rest)
              (opened-Reads cs a (b ∷ c ∷ rest) f e))))
  ]

  handle_bom_on-Progress :
      (cs : List Bytes) (total : Bytes)
      → Filled cs
      → joined cs ≡ total
      → 0 < length total
      → Progress total (
          unless_waiting
            (handle_bom_on (held cs) (get_elem? total 0) (get_elem? total 1) (get_elem? total 2)))
  unfolding handle_bom_on may_be_mark
  handle_bom_on-Progress cs [] f e h = absurd (omega (arith, h))
  handle_bom_on-Progress cs (a ∷ []) f e h = elim (Bool-cases (a == 0xEF)) [
    | inl k ↦ rw k (inl (cs, (f, (e, (k, refl)))))
    | inr k ↦ rw k (
        inr (
          k,
          (
            [],
            (
              a ∷ [],
              (
                opened-Reads cs a [] f e,
                (
                  ap (λ l. read (going (new_reader settings max_size)) l) (sym (unmarked_short a)),
                  inr (a, (refl, (refl, refl))),
                ),
              ),
            ),
          ),
        ))
  ]
  handle_bom_on-Progress cs (a ∷ b ∷ []) f e h = elim (Bool-cases (a == 0xEF && b == 0xBB)) [
    | inl k ↦ rw k (inl (cs, (f, (e, (k, refl)))))
    | inr k ↦ rw k (
        Finishes-Progress (a ∷ b ∷ []) (read_all (opened cs)) k (
          subst
            (λ l. Finishes (read_all (opened cs)) (read (going (new_reader settings max_size)) l))
            (sym (unmarked_two a b))
            (read_all-read (opened cs) [] (a ∷ b ∷ []) (opened-Reads cs a (b ∷ []) f e))))
  ]
  handle_bom_on-Progress cs (a ∷ b ∷ c ∷ rest) f e h = mark-Progress cs a b c rest f e

  -- A chunk keeps the progress.
  Held-Progress :
      (total : Bytes) (s : Stream) (b : ℕ) (c : Bytes)
      → Held total s
      → Progress (total ++ (b ∷ c)) (transform s (b ∷ c))
  unfolding transform handle_bom peek_buffered_byte
  Held-Progress total s b c (cs, (f, (e, (h, same)))) =
      let ds = cs ++ ((b ∷ c) ∷ []) in
      let all : joined ds ≡ total ++ (b ∷ c) = joined_last cs (b ∷ c) ∙ ap (λ l. l ++ (b ∷ c)) e in
      subst (λ t. Progress (total ++ (b ∷ c)) (transform t (b ∷ c))) (sym same)
        (rw (peek-joined ds 0, peek-joined ds 1, peek-joined ds 2, all)
          (handle_bom_on-Progress ds (total ++ (b ∷ c)) (Filled-last cs b c f) all
            (omega (arith, length-append total (b ∷ c)))))

  Started-Progress :
      (total : Bytes) (s : Stream) (b : ℕ) (c : Bytes)
      → Started total s
      → Progress (total ++ (b ∷ c)) (transform s (b ∷ c))
  unfolding transform
  Started-Progress total s b c (h, (line, (ahead, (v, (e, shown))))) =
      let s' = record s { chunks = s.chunks ++ ((b ∷ c) ∷ []) } in
      let w : Reads s' line (ahead ++ (b ∷ c)) = record {
        past_mark = v.past_mark;
        first_chunk = v.first_chunk;
        size_is = v.size_is;
        is_at = IsAt-last s.chunks s.line_pos line ahead s.chunk_index s.pos b c v.is_at;
      } in
      let all : read (going (reader_of s line)) (ahead ++ (b ∷ c)) ≡ whole (total ++ (b ∷ c)) =
        read_append (going (reader_of s line)) ahead (b ∷ c)
        ∙ (ap (λ r. read r (b ∷ c)) e
            ∙ (sym (read_append (going (new_reader settings max_size)) (unmarked total) (b ∷ c))
                ∙ ap (λ l. read (going (new_reader settings max_size)) l)
                    (sym (unmarked-append total (b ∷ c) h)))) in
      subst
        (λ t.
          Progress (total ++ (b ∷ c)) (if t then unless_waiting (handle_bom s') else read_all s'))
        (sym v.past_mark)
        (Finishes-Progress (total ++ (b ∷ c)) (read_all s') (may_be_mark-append total (b ∷ c) h)
          (subst (λ r. Finishes (read_all s') r) all (read_all-read s' line (ahead ++ (b ∷ c)) w)))

  transform-Progress :
      (total : Bytes) (s : Stream) (chunk : Bytes)
      → Progress total (done s)
      → Progress (total ++ chunk) (transform s chunk)
  unfolding transform
  transform-Progress total s [] v = subst (λ t. Progress t (done s)) (sym (append-nil total)) v
  transform-Progress total s (b ∷ c) (inl v) = Held-Progress total s b c v
  transform-Progress total s (b ∷ c) (inr v) = Started-Progress total s b c v

  feed-Progress :
      (chunks : List Bytes) (total : Bytes) (e : Ended)
      → Progress total e
      → Progress (total ++ joined chunks) (feed e chunks)
  unfolding feed
  feed-Progress [] total e v = subst (λ t. Progress t e) (sym (append-nil total)) v
  feed-Progress (c ∷ chunks) total (done s) v =
      subst (λ t. Progress t (feed (transform s c) chunks)) (append_assoc total c (joined chunks))
        (feed-Progress chunks (total ++ c) (transform s c) (transform-Progress total s c v))
  feed-Progress (c ∷ chunks) total (failed s) (h, (line, e)) =
      let more = c ++ joined chunks in
      (
        may_be_mark-append total more h,
        (
          line,
          sym (read-broken (reader_of s line) more)
              ∙ (ap (λ r. read r more) e
                  ∙ (sym (read_append (going (new_reader settings max_size)) (unmarked total) more)
                      ∙ ap (λ l. read (going (new_reader settings max_size)) l)
                          (sym (unmarked-append total more h)))),
        ),
      )
  feed-Progress (c ∷ chunks) total (stuck s) v = absurd v

  view-Progress :
      (total : Bytes) (e : Ended) → Progress total e → view e ≡ some (seen (whole total))
  unfolding read
  view-Progress total (done s) (inl (cs, (f, (e, (h, same))))) =
      ap (λ t. some (true, (t.settings, t.log))) same
      ∙ ap (λ r. some r) (sym (seen_part settings max_size total h))
  view-Progress total (done s) (inr (h, (line, (ahead, (v, (e, inl k)))))) =
      ap (λ r. some (seen r)) (ap (λ a. read (going (reader_of s line)) a) (sym k) ∙ e)
  view-Progress total (done s)
        (inr (h, (line, (ahead, (v, (e, inr (a, (one, (same, none_yet))))))))) =
      ap₂ (λ x y. some (true, (x, y))) same none_yet
      ∙ ap (λ r. some r)
          (sym (
            ap (λ l. seen (whole l)) one
            ∙ (ap (λ l. seen (read (going (new_reader settings max_size)) l)) (unmarked_short a)
                ∙ seen_byte settings max_size a)))
  view-Progress total (failed s) (h, (line, e)) = ap (λ r. some (seen r)) e
  view-Progress total (stuck s) v = absurd v

-- The chunks in which an event stream comes do not matter: what is dispatched, the settings and whether the
-- size of a line or an event is an error are what the reader has of the bytes, without a byte order mark in front.
pub view-feed :
    (settings : EventSourceSettings) (max_size : ℕ) (chunks : List Bytes)
    → view (feed (done (new_stream settings max_size)) chunks)
      ≡ some (seen (read (going (new_reader settings max_size)) (unmarked (joined chunks))))
unfolding may_be_mark
view-feed settings max_size chunks =
    view-Progress settings max_size (joined chunks)
      (feed (done (new_stream settings max_size)) chunks)
      (feed-Progress settings max_size chunks [] (done (new_stream settings max_size))
        (inl ([], (tt, (refl, (refl, refl))))))

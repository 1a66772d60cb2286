-- ===== src/EventSource/Stream/Shown.antt =====
-- What a reader of an event stream's first bytes shows: nothing before the end of an event.
use undici.Base.{
  ℕ, ◌+◌, ◌≤◌, ◌≡◌, refl, sym, ap, ap₂, ◌∙◌, arith, true, false, ◌&&◌, [], ◌∷◌, ◌++◌, Bytes, length,
  ltb, ◌==◌, Bool-cases, inl, inr,
}
use undici.EventSource.{begins_with, EventSourceSettings, data_field, parse_line}
use undici.EventSource.Stream.{is_line_end, cr}
use undici.EventSource.Stream.Bytewise.{
  new_reader, Reading, going, broken, read, read_byte, line_byte, close_line, grow_line, seen,
}
use undici.EventSource.Stream.Rounds.{read-broken}
use undici.EventSource.Stream.Mark.{unmarked, may_be_mark, unmarked_short, unmarked_two}

pub read_append : (r : Reading) (xs ys : Bytes) → read r (xs ++ ys) ≡ read (read r xs) ys
unfolding read
read_append (going r) [] ys = refl
read_append (going r) (x ∷ xs) ys = read_append (read_byte r x) xs ys
read_append (broken r) [] ys = refl
read_append (broken r) (x ∷ xs) ys = sym (read-broken r ys)

module _ (settings : EventSourceSettings) (max_size : ℕ) where
  small : (n : ℕ) → n ≤ 2 → (ltb 0 max_size && ltb (max_size + (length data_field + 2)) n) ≡ false
  small n h = ground (arith, h)

  -- a byte, or a part of a mark, shows nothing
  pub seen_byte :
      (a : ℕ) → seen (read (going (new_reader settings max_size)) (a ∷ [])) ≡ (true, (settings, []))
  unfolding read read_byte line_byte close_line grow_line parse_line
  seen_byte a = elim (Bool-cases (is_line_end a)) [
    | inl e ↦ elim (Bool-cases (a == cr)) [ inl k ↦ rw (e, k) refl | inr k ↦ rw (e, k) refl ]
    | inr e ↦ rw (e, small 1 (omega arith)) refl
  ]

  read_mark :
      (line : Bytes) (b : ℕ)
      → is_line_end b ≡ false
      → length (line ++ (b ∷ [])) ≤ 2
      → read_byte (record (new_reader settings max_size) { line = line }) b
        ≡ going (record (new_reader settings max_size) { line = line ++ (b ∷ []) })
  unfolding read_byte line_byte grow_line
  read_mark line b e h = rw (e, small (length (line ++ (b ∷ []))) h) refl

  seen_mark :
      seen (read (going (new_reader settings max_size)) (0xEF ∷ 0xBB ∷ [])) ≡ (true, (settings, []))
  unfolding read
  seen_mark =
      ap (λ r. seen (read r (0xBB ∷ []))) (read_mark [] 0xEF refl (omega arith))
      ∙ ap (λ r. seen r) (read_mark (0xEF ∷ []) 0xBB refl (omega arith))

  seen_none :
      seen (read (going (new_reader settings max_size)) (unmarked [])) ≡ (true, (settings, []))
  unfolding read unmarked begins_with
  seen_none = refl

  pub seen_part :
      (total : Bytes)
      → may_be_mark total ≡ true
      → seen (read (going (new_reader settings max_size)) (unmarked total)) ≡ (true, (settings, []))
  unfolding may_be_mark
  seen_part [] h = seen_none
  seen_part (a ∷ []) h =
      ap (λ l. seen (read (going (new_reader settings max_size)) l)) (unmarked_short a)
      ∙ seen_byte a
  seen_part (a ∷ b ∷ []) h =
      ap (λ l. seen (read (going (new_reader settings max_size)) l))
        (unmarked_two a b ∙ ap₂ (λ x y. x ∷ y ∷ []) (ground (arith, h)) (ground (arith, h)))
      ∙ seen_mark
  seen_part (a ∷ b ∷ c ∷ rest) h = absurd (ground (arith, h))

-- ===== src/EventSource/Stream/Mark.antt =====
-- The byte order mark in front of an event stream: `handleBOM` in eventsource-stream.js.
use undici.Base.{
  ℕ, zero, suc, ◌+◌, ◌-◌, ◌≤◌, ◌<◌, ◌≡◌, refl, sym, ap, ◌∙◌, arith, Bool, true, false, ◌&&◌, List,
  [], ◌∷◌, ◌++◌, Bytes, joined, length, take, drop, get_elem?, ltb, ◌==◌, if◌then◌else◌, Bool-cases,
  inl, inr, ltb→lt, length-append, drop-append, drop-append_ge, take-append, take-append_ge,
}
use undici.EventSource.{begins_with}
use undici.EventSource.Stream.{peek, discard, slices}
use undici.EventSource.Stream.Cursor.{IsAt, IsAt-next}

abbrev pub bom : Bytes
bom = 0xEF ∷ 0xBB ∷ 0xBF ∷ []

-- the stream without the mark
unfoldable pub unmarked : Bytes → Bytes
unmarked bytes = if begins_with bytes bom then drop 3 bytes else bytes

-- whether these bytes may be a part of a mark
unfoldable pub may_be_mark : Bytes → Bool
may_be_mark [] = true
may_be_mark (a ∷ []) = a == 0xEF
may_be_mark (a ∷ b ∷ []) = a == 0xEF && b == 0xBB
may_be_mark (a ∷ b ∷ c ∷ rest) = false

pub unmarked-append :
    (bytes more : Bytes)
    → may_be_mark bytes ≡ false
    → unmarked (bytes ++ more) ≡ unmarked bytes ++ more
unfolding unmarked may_be_mark begins_with
unmarked-append [] more h = absurd (ground (arith, h))
unmarked-append (a ∷ []) more h = rw h refl
unmarked-append (a ∷ b ∷ []) more h = ground (arith, h)
unmarked-append (a ∷ b ∷ c ∷ rest) more h = ground arith

pub may_be_mark-append :
    (bytes more : Bytes) → may_be_mark bytes ≡ false → may_be_mark (bytes ++ more) ≡ false
unfolding may_be_mark
may_be_mark-append [] more h = absurd (ground (arith, h))
may_be_mark-append (a ∷ []) [] h = h
may_be_mark-append (a ∷ []) (b ∷ []) h = ground (arith, h)
may_be_mark-append (a ∷ []) (b ∷ c ∷ more) h = refl
may_be_mark-append (a ∷ b ∷ []) [] h = h
may_be_mark-append (a ∷ b ∷ []) (c ∷ more) h = refl
may_be_mark-append (a ∷ b ∷ c ∷ rest) more h = refl

pub unmarked_short : (a : ℕ) → unmarked (a ∷ []) ≡ a ∷ []
unfolding unmarked begins_with
unmarked_short a = ground arith

pub unmarked_two : (a b : ℕ) → unmarked (a ∷ b ∷ []) ≡ a ∷ b ∷ []
unfolding unmarked begins_with
unmarked_two a b = ground arith

-- the test of `handleBOM` on three bytes
abbrev pub is_bom : ℕ → ℕ → ℕ → Bool
is_bom a b c = a == 0xEF && (b == 0xBB && c == 0xBF)

pub unmarked-bom :
    (a b c : ℕ) (rest : Bytes) → is_bom a b c ≡ true → unmarked (a ∷ b ∷ c ∷ rest) ≡ rest
unfolding unmarked begins_with
unmarked-bom a b c rest h = ground (arith, h)

pub unmarked_rest :
    (a b c : ℕ) (rest : Bytes)
    → is_bom a b c ≡ false
    → unmarked (a ∷ b ∷ c ∷ rest) ≡ a ∷ b ∷ c ∷ rest
unfolding unmarked begins_with
unmarked_rest a b c rest h = ground (arith, h)

-- no chunk is empty
abbrev pub Filled : List Bytes → Type 0
Filled [] = Unit
Filled (c ∷ cs) = (0 < length c) × Filled cs

get_elem?-front : (xs ys : Bytes) (k : ℕ) → k < length xs → get_elem? (xs ++ ys) k ≡ get_elem? xs k
get_elem?-front [] ys k h = absurd (omega (arith, h))
get_elem?-front (x ∷ xs) ys zero h = refl
get_elem?-front (x ∷ xs) ys (suc k) h = get_elem?-front xs ys k (omega (arith, h))

get_elem?-back :
    (xs ys : Bytes) (k : ℕ) → length xs ≤ k → get_elem? (xs ++ ys) k ≡ get_elem? ys (k - length xs)
get_elem?-back [] ys k h = ap (λ i. get_elem? ys i) (omega arith)
get_elem?-back (x ∷ xs) ys zero h = absurd (omega (arith, h))
get_elem?-back (x ∷ xs) ys (suc k) h =
    get_elem?-back xs ys k (omega (arith, h)) ∙ ap (λ i. get_elem? ys i) (omega arith)

not_ltb→le : (a b : ℕ) → ltb a b ≡ false → b ≤ a
not_ltb→le a b h = ground (arith, h)

-- a byte that `peekBufferedByte` gives
pub peek-joined : (cs : List Bytes) (k : ℕ) → peek cs 0 k ≡ get_elem? (joined cs) k
unfolding peek
peek-joined [] k = refl
peek-joined (c ∷ cs) k =
    let size : length c - 0 ≡ length c = omega arith in
    elim (Bool-cases (ltb k (length c))) [
      | inl e ↦
          rw (size, e)
            (ap (λ i. get_elem? c i) {x = 0 + k} {y = k} (omega arith)
              ∙ sym (get_elem?-front c (joined cs) k (ltb→lt k (length c) e)))
      | inr e ↦
          rw (size, e)
            (peek-joined cs (k - length c)
              ∙ sym (get_elem?-back c (joined cs) k (not_ltb→le k (length c) e)))
    ]

discard_shift :
    (cs : List Bytes) (i p n : ℕ)
    → discard cs (suc i) p n ≡ (suc (discard cs i p n).0, (discard cs i p n).1)
unfolding discard
discard_shift [] i p n = refl
discard_shift (c ∷ cs) i p n = elim (Bool-cases (n == 0)) [
  | inl e ↦ rw e refl
  | inr e ↦ elim (Bool-cases (ltb n (length c - p))) [
    | inl h ↦ rw (e, h) refl
    | inr h ↦ rw (e, h) (discard_shift cs (suc i) 0 (n - (length c - p)))
  ]
]

-- nothing is discarded
pub IsAt-first :
    (c : Bytes) (cs : List Bytes) (n : ℕ)
    → n < length c
    → IsAt (c ∷ cs) 0 (take n (c ++ joined cs)) (drop n (c ++ joined cs)) 0 n
unfolding slices
IsAt-first c cs n h = record {
  valid = h;
  ordered = omega arith;
  line_is =
      ap (λ k. take k c) {x = n - 0} {y = n} (omega arith)
      ∙ sym (take-append n c (joined cs) (omega (arith, h)));
  ahead_is = sym (drop-append n c (joined cs) (omega (arith, h)));
}

not_none : (n : ℕ) → (suc n == 0) ≡ false
not_none n = ground arith

pub discard_on :
    (cs : List Bytes) (n : ℕ)
    → Filled cs
    → n ≤ length (joined cs)
    → let (i, p) = discard cs 0 0 n in IsAt cs 0 (take n (joined cs)) (drop n (joined cs)) i p
unfolding discard slices
discard_on [] zero f h = record { valid = refl; ordered = refl; line_is = refl; ahead_is = refl }
discard_on [] (suc n) f h = absurd (omega (arith, h))
discard_on (c ∷ cs) zero (f, fs) h = IsAt-first c cs 0 f
discard_on (c ∷ cs) (suc n) (f, fs) h =
    let size : length c - 0 ≡ length c = omega arith in
    let here : 0 + suc n ≡ suc n = omega arith in
    elim (Bool-cases (ltb (suc n) (length c))) [
      | inl k ↦
          rw (not_none n, size, k, here) (IsAt-first c cs (suc n) (ltb→lt (suc n) (length c) k))
      | inr k ↦
          let over = not_ltb→le (suc n) (length c) k in
          rw
            (
              not_none n,
              size,
              k,
              discard_shift cs 0 0 (suc n - length c),
              drop-append_ge (suc n) c (joined cs) over,
            )
            (IsAt-next c cs 0 (take (suc n) (c ++ joined cs)) (take (suc n - length c) (joined cs))
              _ _ _ (omega arith) (sym (take-append_ge (suc n) c (joined cs) over))
              (discard_on cs (suc n - length c) fs (omega (arith, h, length-append c (joined cs)))))
    ]

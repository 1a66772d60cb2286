-- ===== src/EventSource/Stream/Cursor.antt =====
-- The cursor of `EventSourceStream` as the bytes in front of it and behind it.
use undici.Base.{
  ℕ, zero, suc, ◌-◌, ◌≤◌, ◌<◌, ◌≡◌, refl, sym, ap, ◌∙◌, subst, arith, false, List, [], ◌∷◌, ◌++◌,
  Bytes, joined, length, take, drop, get_elem?, leb, Bool-cases, inl, inr, append_assoc, append-nil,
  leb→le, length-drop, take_all, drop_all,
}
use undici.EventSource.Stream.{byte_at, roll, slices}

-- the bytes from a cursor on
abbrev pub ahead_of : List Bytes → ℕ → ℕ → Bytes
ahead_of [] i p = []
ahead_of (c ∷ cs) zero p = drop p c ++ joined cs
ahead_of (c ∷ cs) (suc i) p = ahead_of cs i p

-- A cursor is at a byte, or behind the last chunk.
abbrev pub Valid : List Bytes → ℕ → ℕ → Type 0
Valid [] zero p = p ≡ 0
Valid [] (suc i) p = ⊥
Valid (c ∷ cs) zero p = p < length c
Valid (c ∷ cs) (suc i) p = Valid cs i p

-- the line's start is not behind the cursor
abbrev pub Ordered : List Bytes → ℕ → ℕ → ℕ → Type 0
Ordered [] start i p = start ≡ 0
Ordered (c ∷ cs) start zero p = start ≤ p
Ordered (c ∷ cs) start (suc i) p = start ≤ length c

-- `currentByte` is the first byte ahead.
drop_get :
    (xs : Bytes) (p : ℕ) (ys : Bytes)
    → p < length xs
    → get_elem? (drop p xs ++ ys) 0 ≡ get_elem? xs p
drop_get [] p ys h = absurd (omega (arith, h))
drop_get (x ∷ xs) zero ys h = refl
drop_get (x ∷ xs) (suc p) ys h = drop_get xs p ys (omega (arith, h))

pub byte_at-ahead_of :
    (cs : List Bytes) (i p : ℕ) → Valid cs i p → byte_at cs i p ≡ get_elem? (ahead_of cs i p) 0
unfolding byte_at
byte_at-ahead_of [] i p v = refl
byte_at-ahead_of (c ∷ cs) zero p v = sym (drop_get c p (joined cs) v)
byte_at-ahead_of (c ∷ cs) (suc i) p v = byte_at-ahead_of cs i p v

roll_shift :
    (cs : List Bytes) (i p : ℕ) → roll cs (suc i) p ≡ (suc (roll cs i p).0, (roll cs i p).1)
unfolding roll
roll_shift [] i p = refl
roll_shift (c ∷ cs) i p = elim (Bool-cases (leb (length c) p)) [
  | inl e ↦ rw e (roll_shift cs (suc i) 0)
  | inr e ↦ rw e refl
]

-- What a cursor stands for.
pub record IsAt (chunks : List Bytes) (start : ℕ) (line ahead : Bytes) (i p : ℕ) : Type 0 where
  pub valid : Valid chunks i p
  pub ordered : Ordered chunks start i p
  pub line_is : slices chunks start i p ≡ line
  pub ahead_is : ahead_of chunks i p ≡ ahead

none_longer : (n : ℕ) → leb (suc n) 0 ≡ false
none_longer n = ground arith

-- a cursor in the chunks behind the first one
pub IsAt-next :
    (c : Bytes) (cs : List Bytes) (start : ℕ) (line line' ahead : Bytes) (i p : ℕ)
    → start ≤ length c
    → drop start c ++ line' ≡ line
    → IsAt cs 0 line' ahead i p
    → IsAt (c ∷ cs) start line ahead (suc i) p
unfolding slices
IsAt-next c cs start line line' ahead i p h e v = record {
  valid = v.valid;
  ordered = h;
  line_is = ap (λ l. drop start c ++ l) v.line_is ∙ e;
  ahead_is = v.ahead_is;
}

-- the first cursor
pub roll_start : (cs : List Bytes) → let (i, p) = roll cs 0 0 in IsAt cs 0 [] (joined cs) i p
unfolding roll slices
roll_start [] = record { valid = refl; ordered = refl; line_is = refl; ahead_is = refl }
roll_start ([] ∷ cs) =
    rw (roll_shift cs 0 0)
      (IsAt-next [] cs 0 [] [] (joined cs) _ _ (omega arith) refl (roll_start cs))
roll_start ((b ∷ c) ∷ cs) =
    rw (none_longer (length c))
      (record { valid = omega arith; ordered = omega arith; line_is = refl; ahead_is = refl })

drop_more :
    (xs : Bytes) (p b : ℕ) (ys rest : Bytes)
    → p < length xs
    → drop p xs ++ ys ≡ b ∷ rest
    → drop (suc p) xs ++ ys ≡ rest
drop_more [] p b ys rest h e = absurd (omega (arith, h))
drop_more (x ∷ xs) zero b ys rest h e = ap (drop 1) e
drop_more (x ∷ xs) (suc p) b ys rest h e = drop_more xs p b ys rest (omega (arith, h)) e

take_next :
    (xs : Bytes) (n b : ℕ) (ys rest : Bytes)
    → n < length xs
    → drop n xs ++ ys ≡ b ∷ rest
    → take (suc n) xs ≡ take n xs ++ (b ∷ [])
take_next [] n b ys rest h e = absurd (omega (arith, h))
take_next (x ∷ xs) zero b ys rest h e = ap (take 1) e
take_next (x ∷ xs) (suc n) b ys rest h e =
    ap (◌∷◌ x) (take_next xs n b ys rest (omega (arith, h)) e)

pub drop_none : {A : Type 0} → (n : ℕ) → drop {A = A} n [] ≡ []
drop_none zero = refl
drop_none (suc n) = refl

drop_twice : (xs : Bytes) (m n : ℕ) → m ≤ n → drop n xs ≡ drop (n - m) (drop m xs)
drop_twice xs zero n h = ap (λ k. drop k xs) (omega arith)
drop_twice [] (suc m) n h = drop_none n ∙ sym (drop_none (n - suc m))
drop_twice (x ∷ xs) (suc m) zero h = absurd (omega (arith, h))
drop_twice (x ∷ xs) (suc m) (suc n) h =
    drop_twice xs m n (omega (arith, h)) ∙ ap (λ k. drop k (drop m xs)) (omega arith)

-- a byte more of the chunk
line_more :
    (c : Bytes) (start p b : ℕ) (ys rest : Bytes)
    → start ≤ p
    → p < length c
    → drop p c ++ ys ≡ b ∷ rest
    → take (suc p - start) (drop start c) ≡ take (p - start) (drop start c) ++ (b ∷ [])
line_more c start p b ys rest h k e =
    ap (λ n. take n (drop start c)) {x = suc p - start} {y = suc (p - start)} (omega (arith, h))
    ∙ take_next (drop start c) (p - start) b ys rest (omega (arith, length-drop start c, h, k))
        (ap (λ l. l ++ ys) (sym (drop_twice c start p h)) ∙ e)

pub Ordered-zero : (cs : List Bytes) (i p : ℕ) → Ordered cs 0 i p
Ordered-zero [] i p = refl
Ordered-zero (c ∷ cs) zero p = omega arith
Ordered-zero (c ∷ cs) (suc i) p = omega arith

-- The cursor moves on by a byte.
pub roll_on :
    (cs : List Bytes) (start : ℕ) (line : Bytes) (b : ℕ) (rest : Bytes) (i p : ℕ)
    → IsAt cs start line (b ∷ rest) i p
    → let (j, q) = roll (drop i cs) i (suc p) in IsAt cs start (line ++ (b ∷ [])) rest j q
unfolding roll slices
roll_on [] start line b rest i p v = absurd (ground (arith, v.ahead_is))
roll_on (c ∷ cs) start line b rest zero p v =
    let more = line_more c start p b (joined cs) rest v.ordered v.valid v.ahead_is in
    let on = drop_more c p b (joined cs) rest v.valid v.ahead_is in
    elim (Bool-cases (leb (length c) (suc p))) [
      | inl e ↦
          let all =
            take_all (suc p - start) (drop start c)
              (omega (arith, length-drop start c, v.valid, leb→le (length c) (suc p) e)) in
          let gone = drop_all (suc p) c (leb→le (length c) (suc p) e) in
          rw (e, roll_shift cs 0 0)
            (IsAt-next c cs start (line ++ (b ∷ [])) [] rest _ _ (omega (arith, v.ordered, v.valid))
              (append-nil (drop start c) ∙ (sym all ∙ (more ∙ ap (λ l. l ++ (b ∷ [])) v.line_is)))
              (subst (λ a. IsAt cs 0 [] a (roll cs 0 0).0 (roll cs 0 0).1)
                ((ap (λ l. l ++ joined cs) (sym gone)) ∙ on) (roll_start cs)))
      | inr e ↦ rw e (record {
        valid = ground (arith, e);
        ordered = omega (arith, v.ordered);
        line_is = more ∙ ap (λ l. l ++ (b ∷ [])) v.line_is;
        ahead_is = on;
      })
    ]
roll_on (c ∷ cs) start line b rest (suc i) p v = rw (roll_shift (drop i cs) i (suc p)) (
    IsAt-next c cs start (line ++ (b ∷ [])) (slices cs 0 i p ++ (b ∷ [])) rest _ _ v.ordered
      (sym (append_assoc (drop start c) (slices cs 0 i p) (b ∷ []))
        ∙ ap (λ l. l ++ (b ∷ [])) v.line_is)
      (roll_on cs 0 (slices cs 0 i p) b rest i p (record {
        valid = v.valid;
        ordered = Ordered-zero cs i p;
        line_is = refl;
        ahead_is = v.ahead_is;
      })))

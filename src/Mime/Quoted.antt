-- ===== src/Mime/Quoted.antt =====
-- The pieces that `parseMIMEType` of lib/web/fetch/data-url.js takes from a text.
use undici.Base.{
  ℕ, ◌≡◌, ◌<◌, refl, sym, ap, ◌∙◌, arith, Bool, true, false, ◌||◌, not, List, [], ◌∷◌, ◌++◌, Bytes,
  length, ◌==◌, Bool-cases, inl, inr, append-nil, length-append,
}
use undici.Base.All.{all, all_first, all_rest}
use undici.Infra.{collect_fast, collect_sequence, remove_trailing, keep_before}
use undici.Mime.{collect_quoted, escaped, goes_on, parameters_text}

abbrev pub differs : ℕ → ℕ → Bool
differs char c = not (c == char)

differs_lem : (char c : ℕ) → differs char c ≡ true → (c == char) ≡ false
differs_lem char c h = elim (Bool-cases (c == char)) [
  | inl e ↦ absurd (ground (arith, sym (ap not e) ∙ h))
  | inr e ↦ e
]

pub collect_fast_stop :
    (char : ℕ) (xs ys : Bytes)
    → all (differs char) xs ≡ true
    → collect_fast char (xs ++ (char ∷ ys)) ≡ (xs, char ∷ ys)
unfolding collect_fast
collect_fast_stop char [] ys h = let e : (char == char) ≡ true = ground arith in rw e refl
collect_fast_stop char (c ∷ xs) ys h =
    rw (differs_lem char c (all_first (differs char) c xs h))
      (ap (λ r. (c ∷ r.0, r.1)) (collect_fast_stop char xs ys (all_rest (differs char) c xs h)))

collect_fast_end :
    (char : ℕ) (xs : Bytes) → all (differs char) xs ≡ true → collect_fast char xs ≡ (xs, [])
unfolding collect_fast
collect_fast_end char [] h = refl
collect_fast_end char (c ∷ xs) h =
    rw (differs_lem char c (all_first (differs char) c xs h))
      (ap (λ r. (c ∷ r.0, r.1)) (collect_fast_end char xs (all_rest (differs char) c xs h)))

-- a piece in front of parameters
pub collect_fast-parameters_text :
    (xs : Bytes) (ps : List (Bytes × Bytes))
    → all (differs 0x3B) xs ≡ true
    → collect_fast 0x3B (xs ++ parameters_text ps) ≡ (xs, parameters_text ps)
unfolding parameters_text
collect_fast-parameters_text xs [] h =
    ap (λ t. collect_fast 0x3B t) (append-nil xs) ∙ collect_fast_end 0x3B xs h
collect_fast-parameters_text xs ((n, v) ∷ ps) h = collect_fast_stop 0x3B xs _ h

pub collect_sequence-name :
    (name rest : Bytes)
    → all goes_on name ≡ true
    → collect_sequence goes_on (name ++ (0x3D ∷ rest)) ≡ (name, 0x3D ∷ rest)
unfolding collect_sequence
collect_sequence-name [] rest h = refl
collect_sequence-name (c ∷ name) rest h =
    rw (all_first goes_on c name h)
      (ap (λ r. (c ∷ r.0, r.1)) (collect_sequence-name name rest (all_rest goes_on c name h)))

pub collect_sequence-none :
    (p : ℕ → Bool) (c : ℕ) (text : Bytes)
    → p c ≡ false
    → collect_sequence p (c ∷ text) ≡ ([], c ∷ text)
unfolding collect_sequence
collect_sequence-none p c text h = rw h refl

collect_more :
    (c : ℕ) (text : Bytes)
    → 0 < length text
    → (c == 0x22) ≡ false
    → (c == 0x5C) ≡ false
    → collect_quoted (c ∷ text) ≡ (c ∷ (collect_quoted text).0, (collect_quoted text).1)
unfolding collect_quoted
collect_more c [] l h k = absurd (omega (arith, l))
collect_more c (d ∷ text) l h k = rw (h, k) refl

-- A value that was escaped is collected up to its closing quotation mark.
pub collect_quoted-escaped :
    (value rest : Bytes) → collect_quoted (escaped value ++ (0x22 ∷ rest)) ≡ (value, rest)
unfolding escaped collect_quoted
collect_quoted-escaped [] [] = refl
collect_quoted-escaped [] (d ∷ rest) = refl
collect_quoted-escaped (c ∷ value) rest = elim (Bool-cases (c == 0x22 || c == 0x5C)) [
  | inl e ↦ rw e (ap (λ r. (c ∷ r.0, r.1)) (collect_quoted-escaped value rest))
  | inr e ↦
      let h : (c == 0x22) ≡ false = ground (arith, e) in
      let k : (c == 0x5C) ≡ false = ground (arith, e) in
      rw e (
        collect_more c (escaped value ++ (0x22 ∷ rest))
          (omega (arith, length-append (escaped value) (0x22 ∷ rest))) h k
        ∙ ap (λ r. (c ∷ r.0, r.1)) (collect_quoted-escaped value rest))
]

kept_before :
    (p : ℕ → Bool) (c : ℕ) (text : Bytes) → 0 < length text → keep_before p c text ≡ c ∷ text
kept_before p c [] l = absurd (omega (arith, l))
kept_before p c (d ∷ text) l = refl

kept : (p : ℕ → Bool) (c : ℕ) (text : Bytes) → p c ≡ false → keep_before p c text ≡ c ∷ text
kept p c [] h = rw h refl
kept p c (d ∷ text) h = refl

refused : (b : Bool) → not b ≡ true → b ≡ false
refused true h = absurd (ground (arith, h))
refused false h = refl

-- a text that does not end in a character to remove
pub remove_trailing-append :
    (p : ℕ → Bool) (xs ys : Bytes)
    → 0 < length ys
    → remove_trailing p ys ≡ ys
    → remove_trailing p (xs ++ ys) ≡ xs ++ ys
unfolding remove_trailing
remove_trailing-append p [] ys l h = h
remove_trailing-append p (x ∷ xs) ys l h =
    ap (λ t. keep_before p x t) (remove_trailing-append p xs ys l h)
    ∙ kept_before p x (xs ++ ys) (omega (arith, l, length-append xs ys))

pub remove_trailing-all :
    (p : ℕ → Bool) (xs : Bytes) → all (λ c. not (p c)) xs ≡ true → remove_trailing p xs ≡ xs
unfolding remove_trailing
remove_trailing-all p [] h = refl
remove_trailing-all p (x ∷ xs) h =
    ap (λ t. keep_before p x t) (remove_trailing-all p xs (all_rest (λ c. not (p c)) x xs h))
    ∙ kept p x xs (refused (p x) (all_first (λ c. not (p c)) x xs h))

-- ===== src/Cookies/Text.antt =====
-- Texts without white space, and texts put together and taken apart at a character, for lib/web/cookies.
use undici.Base.{
  ℕ, zero, suc, ◌≡◌, ◌≤◌, refl, sym, ap, ◌∙◌, arith, Bool, true, false, ◌&&◌, not, List, [], Option,
  ◌∷◌, ◌++◌, Bytes, length, ◌==◌, if◌then◌else◌, Bool-cases, inl, inr, length-append,
}
use undici.Base.All.{all, all-append, all_first, all_rest}
use undici.Infra.Left.{length-collect_fast}
use undici.Cookies.{
  Cookie, is_ctl, is_ctl_excluding_htab, is_white_space, trim, trim_start, trim_end,
  cons_unless_blank, join_parts, includes,
}
use undici.Infra.{collect_fast}
use undici.Cookies.Parse.{add_attribute, attribute_loop, parse_unparsed_attributes}
use undici.Date.Calendar.{UtcDate}

if_same {ℓ} : {A : Type ℓ} (b : Bool) (x : A) → (if b then x else x) ≡ x
if_same true x = refl
if_same false x = refl

-- a character of a part of a `Set-Cookie` header
abbrev pub is_part : ℕ → Bool
is_part c = not (is_ctl c) && not (c == 0x3B)

abbrev pub is_solid : ℕ → Bool
is_solid c = not (is_white_space c)

abbrev pub differs : ℕ → ℕ → Bool
differs char c = not (c == char)

not_blank : (c : ℕ) → is_solid c ≡ true → is_white_space c ≡ false
not_blank c h = elim (Bool-cases (is_white_space c)) [
  | inl e ↦ absurd (ground (arith, sym (ap not e) ∙ h))
  | inr e ↦ e
]

cons_solid : (c : ℕ) (text : Bytes) → is_solid c ≡ true → cons_unless_blank c text ≡ c ∷ text
cons_solid c [] h = rw (not_blank c h) refl
cons_solid c (d ∷ text) h = refl

trim_end-solid : (text : Bytes) → all is_solid text ≡ true → trim_end text ≡ text
unfolding trim_end
trim_end-solid [] h = refl
trim_end-solid (c ∷ text) h =
    ap (λ t. cons_unless_blank c t) (trim_end-solid text (all_rest is_solid c text h))
    ∙ cons_solid c text (all_first is_solid c text h)

-- `trim` keeps a text without white space, and takes away a space in front of a text.
pub trim-solid : (text : Bytes) → all is_solid text ≡ true → trim text ≡ text
unfolding trim_start
trim-solid [] h = trim_end-solid [] h
trim-solid (c ∷ text) h =
    ap (λ b. trim_end (if b then trim_start text else c ∷ text))
      (not_blank c (all_first is_solid c text h))
    ∙ trim_end-solid (c ∷ text) h

not_semicolon : (c : ℕ) → is_part c ≡ true → (c == 0x3B) ≡ false
not_semicolon c h = ground (arith, h)

not_ctl : (c : ℕ) → is_part c ≡ true → is_ctl c ≡ false
not_ctl c h = elim (Bool-cases (is_ctl c)) [
  | inl e ↦ absurd (ground (arith, sym (ap (λ b. not b && not (c == 0x3B)) e) ∙ h))
  | inr e ↦ e
]

-- a part ends at the next one
pub collect_fast-join_parts :
    (part : Bytes) (parts : List Bytes)
    → all is_part part ≡ true
    → collect_fast 0x3B (part ++ join_parts parts) ≡ (part, join_parts parts)
unfolding collect_fast join_parts
collect_fast-join_parts [] [] h = refl
collect_fast-join_parts [] (part ∷ parts) h = refl
collect_fast-join_parts (c ∷ text) parts h =
    rw (not_semicolon c (all_first is_part c text h))
      (ap (λ r. (c ∷ r.0, r.1)) (collect_fast-join_parts text parts (all_rest is_part c text h)))

-- a name ends at the first `=`
pub collect_fast-append :
    (name value : Bytes)
    → all (differs 0x3D) name ≡ true
    → collect_fast 0x3D (name ++ (0x3D ∷ value)) ≡ (name, 0x3D ∷ value)
unfolding collect_fast
collect_fast-append [] value h = refl
collect_fast-append (c ∷ name) value h =
    let e : (c == 0x3D) ≡ false = ground (arith, all_first (differs 0x3D) c name h) in
    rw e
      (ap (λ r. (c ∷ r.0, r.1)) (collect_fast-append name value (all_rest (differs 0x3D) c name h)))

pub includes-append : (name value : Bytes) → includes 0x3D (name ++ (0x3D ∷ value)) ≡ true
unfolding includes
includes-append [] value = refl
includes-append (c ∷ name) value = rw (includes-append name value) (if_same (c == 0x3D) true)

-- every part has these characters only
abbrev pub AllParts : List Bytes → Type 0
AllParts [] = Unit
AllParts (part ∷ parts) = (all is_part part ≡ true) × AllParts parts

pub AllParts-append : (xs ys : List Bytes) → AllParts xs → AllParts ys → AllParts (xs ++ ys)
AllParts-append [] ys h k = k
AllParts-append (x ∷ xs) ys (h, hs) k = (h, AllParts-append xs ys hs k)

-- no control character is in a header of such parts
pub is_ctl_excluding_htab-parts :
    (part : Bytes) (parts : List Bytes)
    → all is_part part ≡ true
    → AllParts parts
    → is_ctl_excluding_htab (part ++ join_parts parts) ≡ false
unfolding is_ctl_excluding_htab join_parts
is_ctl_excluding_htab-parts [] [] h k = refl
is_ctl_excluding_htab-parts [] (part ∷ parts) h (k, ks) =
    is_ctl_excluding_htab-parts part parts k ks
is_ctl_excluding_htab-parts (c ∷ text) parts h k =
    rw (not_ctl c (all_first is_part c text h))
      (is_ctl_excluding_htab-parts text parts (all_rest is_part c text h) k)

module _ (new_date : Bytes → Option UtcDate) where
  -- the attributes of the parts, each behind a space
  abbrev pub add_all : Cookie → List Bytes → Cookie
  add_all c [] = c
  add_all c (part ∷ parts) = add_all (add_attribute new_date c (0x20 ∷ part)) parts

  pub add_all-append :
      (c : Cookie) (xs ys : List Bytes) → add_all c (xs ++ ys) ≡ add_all (add_all c xs) ys
  add_all-append c [] ys = refl
  add_all-append c (x ∷ xs) ys = add_all-append (add_attribute new_date c (0x20 ∷ x)) xs ys

  -- A round for each character is enough for the attributes.
  attribute_loop_enough :
      (k l : ℕ) (c : Cookie) (text : Bytes)
      → length text ≤ k
      → length text ≤ l
      → attribute_loop new_date k c text ≡ attribute_loop new_date l c text
  unfolding attribute_loop
  attribute_loop_enough k l c [] h g = refl
  attribute_loop_enough zero l c (d ∷ text) h g = absurd (omega (arith, h))
  attribute_loop_enough (suc k) zero c (d ∷ text) h g = absurd (omega (arith, g))
  attribute_loop_enough (suc k) (suc l) c (d ∷ text) h g =
      let shorter = length-collect_fast 0x3B text in
      attribute_loop_enough k l (add_attribute new_date c (collect_fast 0x3B text).0)
        (collect_fast 0x3B text).1 (omega (arith, h, shorter)) (omega (arith, g, shorter))

  attribute_loop-parts :
      (rounds : ℕ) (c : Cookie) (parts : List Bytes)
      → length (join_parts parts) ≤ rounds
      → AllParts parts
      → attribute_loop new_date rounds c (join_parts parts) ≡ add_all c parts
  unfolding attribute_loop join_parts all
  attribute_loop-parts rounds c [] h k = refl
  attribute_loop-parts zero c (part ∷ parts) h k = absurd (omega (arith, h))
  attribute_loop-parts (suc rounds) c (part ∷ parts) h (k, ks) =
      ap (λ r. attribute_loop new_date rounds (add_attribute new_date c r.0) r.1)
        (collect_fast-join_parts (0x20 ∷ part) parts (all-append is_part (0x20 ∷ []) part refl k))
      ∙ (attribute_loop-parts rounds (add_attribute new_date c (0x20 ∷ part)) parts
          (omega (arith, h, length-append part (join_parts parts))) ks)

  -- The attributes that `stringify` joins are taken one by one.
  pub parse_unparsed_attributes-join_parts :
      (c : Cookie) (parts : List Bytes)
      → AllParts parts
      → parse_unparsed_attributes new_date (join_parts parts) c ≡ add_all c parts
  parse_unparsed_attributes-join_parts c parts k =
      attribute_loop-parts (length (join_parts parts)) c parts (omega arith) k

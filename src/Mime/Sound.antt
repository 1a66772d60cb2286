-- ===== src/Mime/Sound.antt =====
-- What `parseMIMEType` of lib/web/fetch/data-url.js gives is a MIME type record.
use undici.Base.{
  ℕ, zero, suc, ◌+◌, ◌≤◌, ◌<◌, ◌≡◌, ◌⊎◌, length, equal, equal_iff, refl, sym, subst, arith, Bool,
  true, false, ◌&&◌, not, Option, none, some, List, [], ◌∷◌, ◌++◌, Bytes, leb, ◌==◌, if◌then◌else◌,
  Bool-cases, if_elim, inl, inr, append-nil, append_assoc,
}
use undici.Base.All.{all, all_first, all_rest}
use undici.Infra.{collect_fast, ascii_lowercase, remove_trailing}
use undici.Mime.{
  MimeType, is_token, is_quoted_token, is_http_token, is_empty_text, is_http_white_space, has,
  set_parameter, set_unless_empty, take_value, end_name, next_parameter, parameter_loop,
  behind_slash, parse_trimmed, parse_mime_type,
}
use undici.Mime.RoundTrip.{IsName, AllNew, IsMimeType}

abbrev lower : ℕ → ℕ
lower code = if leb 0x41 code && leb code 0x5A then code + 0x20 else code

lower_twice : (c : ℕ) → lower (lower c) ≡ lower c
lower_twice c = ground arith

lower-token : (c : ℕ) → is_token c ≡ true → is_token (lower c) ≡ true
lower-token c h = ground (arith, h)

ascii_lowercase_twice :
    (text : Bytes) → ascii_lowercase (ascii_lowercase text) ≡ ascii_lowercase text
ascii_lowercase_twice [] = refl
ascii_lowercase_twice (c ∷ text) = rw (lower_twice c, ascii_lowercase_twice text) refl

ascii_lowercase-token :
    (text : Bytes) → all is_token text ≡ true → all is_token (ascii_lowercase text) ≡ true
unfolding all
ascii_lowercase-token [] h = refl
ascii_lowercase-token (c ∷ text) h =
    rw (lower-token c (all_first is_token c text h))
      (ascii_lowercase-token text (all_rest is_token c text h))

IsName-ascii_lowercase : (text : Bytes) → is_http_token text ≡ true → IsName (ascii_lowercase text)
IsName-ascii_lowercase [] h = absurd (ground (arith, h))
IsName-ascii_lowercase (c ∷ text) h =
    (ascii_lowercase-token (c ∷ text) h, ascii_lowercase_twice (c ∷ text))

-- one parameter more
AllNew-last :
    (before ps : List (Bytes × Bytes)) (name value : Bytes)
    → AllNew before ps
    → IsName name
    → all is_quoted_token value ≡ true
    → has name (before ++ ps) ≡ false
    → AllNew before (ps ++ ((name, value) ∷ []))
AllNew-last before [] name value h n k m =
    (n, (k, (subst (λ b. has name b ≡ false) (append-nil before) m, tt)))
AllNew-last before ((n1, v1) ∷ ps) name value (h, (h1, (h2, hs))) n k m = (
  h,
  (
    h1,
    (
      h2,
      AllNew-last (before ++ ((n1, v1) ∷ [])) ps name value hs n k
          (subst (λ b. has name b ≡ false) (sym (append_assoc before ((n1, v1) ∷ []) ps)) m),
    ),
  ),
)

three : (a b c : Bool) → a && (b && not c) ≡ true → (a ≡ true) × ((b ≡ true) × (c ≡ false))
three true true false h = (refl, (refl, refl))
three true true true h = absurd (ground (arith, h))
three true false c h = absurd (ground (arith, h))
three false b c h = absurd (ground (arith, h))

set_parameter-AllNew :
    (ps : List (Bytes × Bytes)) (name value : Bytes)
    → AllNew [] ps
    → ascii_lowercase name ≡ name
    → AllNew [] (set_parameter ps name value)
unfolding set_parameter
set_parameter-AllNew ps name value h l =
    elim (Bool-cases (is_http_token name && (all is_quoted_token value && not (has name ps)))) [
      | inl e ↦
          let (t, (q, n)) =
            three (is_http_token name) (all is_quoted_token value) (has name ps) e in
          rw e (AllNew-last [] ps name value h (t, l) q n)
      | inr e ↦ rw e h
    ]

set_unless_empty-AllNew :
    (ps : List (Bytes × Bytes)) (name value : Bytes)
    → AllNew [] ps
    → ascii_lowercase name ≡ name
    → AllNew [] (set_unless_empty ps name value)
set_unless_empty-AllNew ps name [] h l = h
set_unless_empty-AllNew ps name (c ∷ value) h l = set_parameter-AllNew ps name (c ∷ value) h l

abbrev Kept : Option (List (Bytes × Bytes) × Bytes) → Type 0
Kept none = Unit
Kept (some (ps, rest)) = AllNew [] ps

take_value-Kept :
    (ps : List (Bytes × Bytes)) (name text : Bytes)
    → AllNew [] ps
    → ascii_lowercase name ≡ name
    → Kept (take_value ps name text)
unfolding take_value
take_value-Kept ps name [] h l = tt
take_value-Kept ps name (c ∷ text) h l =
    if_elim Kept (c == 0x22) (set_parameter-AllNew ps name _ h l)
      (set_unless_empty-AllNew ps name _ h l)

end_name-Kept :
    (ps : List (Bytes × Bytes)) (name text : Bytes)
    → AllNew [] ps
    → ascii_lowercase name ≡ name
    → Kept (end_name ps name text)
unfolding end_name
end_name-Kept ps name [] h l = tt
end_name-Kept ps name (c ∷ text) h l = if_elim Kept (c == 0x3B) h (take_value-Kept ps name text h l)

carried :
    (rounds : ℕ) (ps : List (Bytes × Bytes)) (o : Option (List (Bytes × Bytes) × Bytes))
    → AllNew [] ps
    → Kept o
    → ((ps' : List (Bytes × Bytes)) (rest : Bytes)
        → AllNew [] ps'
        → AllNew [] (parameter_loop rounds ps' rest))
    → AllNew [] (elim o [ none ↦ ps | some (ps', rest) ↦ parameter_loop rounds ps' rest ])
carried rounds ps none h k f = h
carried rounds ps (some (ps', rest)) h k f = f ps' rest k

parameter_loop-AllNew :
    (rounds : ℕ) (ps : List (Bytes × Bytes)) (text : Bytes)
    → AllNew [] ps
    → AllNew [] (parameter_loop rounds ps text)
unfolding parameter_loop next_parameter
parameter_loop-AllNew rounds ps [] h = h
parameter_loop-AllNew zero ps (c ∷ text) h = h
parameter_loop-AllNew (suc rounds) ps (c ∷ text) h =
    carried rounds ps (next_parameter ps text) h (end_name-Kept ps _ _ h (ascii_lowercase_twice _))
      (λ ps' rest. parameter_loop-AllNew rounds ps' rest)

-- a record, or the failure
abbrev IsRead : Option MimeType → Type 0
IsRead none = Unit
IsRead (some m) = IsMimeType m

accepted : (b : Bool) → not b ≡ false → b ≡ true
accepted true h = refl
accepted false h = absurd (ground (arith, h))

parse_trimmed-IsRead : (input : Bytes) → IsRead (parse_trimmed input)
unfolding parse_trimmed
parse_trimmed-IsRead input =
    let kind = (collect_fast 0x2F input).0 in
    let behind = (collect_fast 0x2F input).1 in
    let subtype = remove_trailing is_http_white_space (collect_fast 0x3B (behind_slash behind)).0 in
    elim (Bool-cases (not (is_http_token kind))) [
      | inl e ↦ rw e tt
      | inr e ↦ elim (Bool-cases (is_empty_text behind)) [
        | inl f ↦ rw (e, f) tt
        | inr f ↦ elim (Bool-cases (not (is_http_token subtype))) [
          | inl g ↦ rw (e, f, g) tt
          | inr g ↦
              rw (e, f, g)
                (
                  IsName-ascii_lowercase kind (accepted _ e),
                  (IsName-ascii_lowercase subtype (accepted _ g), parameter_loop-AllNew _ [] _ tt),
                )
        ]
      ]
    ]

-- A token of RFC 9110 in lower case: it is not empty, and each character is a lower-case letter, a digit
-- or one of ! # $ % & ' * + - . ^ _ ` | ~.
abbrev IsLowerTokenChar : ℕ → Type 0
IsLowerTokenChar c =
    ((0x61 ≤ c) × (c ≤ 0x7A))
    ⊎ (((0x30 ≤ c) × (c ≤ 0x39))
        ⊎ (((0x23 ≤ c) × (c ≤ 0x27))
            ⊎ (((0x5E ≤ c) × (c ≤ 0x60))
                ⊎ ((c ≡ 0x21)
                    ⊎ ((c ≡ 0x2A)
                        ⊎ ((c ≡ 0x2B)
                            ⊎ ((c ≡ 0x2D) ⊎ ((c ≡ 0x2E) ⊎ ((c ≡ 0x7C) ⊎ (c ≡ 0x7E))))))))))

-- A character of a quoted string: a tab, a space, a visible ASCII character or one from 0x80 to 0xFF.
abbrev IsQuotedChar : ℕ → Type 0
IsQuotedChar c = (c ≡ 9) ⊎ (((32 ≤ c) × (c ≤ 126)) ⊎ ((128 ≤ c) × (c ≤ 255)))

abbrev Every : (ℕ → Type 0) → Bytes → Type 0
Every P [] = Unit
Every P (c ∷ text) = P c × Every P text

abbrev IsLowerToken : Bytes → Type 0
IsLowerToken text = (0 < length text) × Every IsLowerTokenChar text

-- A name that no parameter has.
abbrev Absent : Bytes → List (Bytes × Bytes) → Type 0
Absent name [] = Unit
Absent name ((key, value) ∷ ps) = (¬ (key ≡ name)) × Absent name ps

-- Every name is a token in lower case, and comes once; every value is of a quoted string's characters.
abbrev AllProper : List (Bytes × Bytes) → Type 0
AllProper [] = Unit
AllProper ((name, value) ∷ ps) =
    (IsLowerToken name × (Every IsQuotedChar value × Absent name ps)) × AllProper ps

abbrev pub IsProper : MimeType → Type 0
IsProper m = IsLowerToken m.kind × (IsLowerToken m.subtype × AllProper m.parameters)

lower_token-char : (c : ℕ) → is_token c ≡ true → lower c ≡ c → IsLowerTokenChar c
lower_token-char c h l = ground (arith, h, l)

quoted-char : (c : ℕ) → is_quoted_token c ≡ true → IsQuotedChar c
quoted-char c h = ground (arith, h)

Every-lower_token :
    (text : Bytes)
    → all is_token text ≡ true
    → ascii_lowercase text ≡ text
    → Every IsLowerTokenChar text
Every-lower_token [] h l = tt
Every-lower_token (c ∷ text) h l = (
  lower_token-char c (all_first is_token c text h) (ground (arith, l)),
  Every-lower_token text (all_rest is_token c text h) (ground (arith, l)),
)

Every-quoted : (text : Bytes) → all is_quoted_token text ≡ true → Every IsQuotedChar text
Every-quoted [] h = tt
Every-quoted (c ∷ text) h = (
  quoted-char c (all_first is_quoted_token c text h),
  Every-quoted text (all_rest is_quoted_token c text h),
)

IsName-IsLowerToken : (text : Bytes) → IsName text → IsLowerToken text
IsName-IsLowerToken [] (h, l) = absurd (ground (arith, h))
IsName-IsLowerToken (c ∷ text) (h, l) = (omega arith, Every-lower_token (c ∷ text) h l)

has-append :
    (name : Bytes) (ps qs : List (Bytes × Bytes)) → has name ps ≡ true → has name (ps ++ qs) ≡ true
unfolding has
has-append name [] qs h = absurd (ground (arith, h))
has-append name ((key, value) ∷ ps) qs h = elim (Bool-cases (equal key name)) [
  | inl e ↦ rw e refl
  | inr e ↦ rw e (has-append name ps qs (rw e at h))
]

has_last :
    (name value : Bytes) (ps : List (Bytes × Bytes)) → has name (ps ++ ((name, value) ∷ [])) ≡ true
unfolding has
has_last name value [] = rw ((equal_iff name name).1 refl) refl
has_last name value ((key, v) ∷ ps) = elim (Bool-cases (equal key name)) [
  | inl e ↦ rw e refl
  | inr e ↦ rw e (has_last name value ps)
]

contradiction : {b : Bool} → b ≡ true → b ≡ false → ⊥
contradiction h k = cc

AllNew-Absent :
    (name : Bytes) (before ps : List (Bytes × Bytes))
    → has name before ≡ true
    → AllNew before ps
    → Absent name ps
AllNew-Absent name before [] h v = tt
AllNew-Absent name before ((key, value) ∷ ps) h (n, (k, (m, hs))) = (
  λ e. contradiction h (subst (λ x. has x before ≡ false) e m),
  AllNew-Absent name (before ++ ((key, value) ∷ [])) ps (has-append name before _ h) hs,
)

AllNew-AllProper : (before ps : List (Bytes × Bytes)) → AllNew before ps → AllProper ps
AllNew-AllProper before [] v = tt
AllNew-AllProper before ((name, value) ∷ ps) (n, (k, (m, hs))) = (
  (
    IsName-IsLowerToken name n,
    (
      Every-quoted value k,
      AllNew-Absent name (before ++ ((name, value) ∷ [])) ps (has_last name value before) hs,
    ),
  ),
  AllNew-AllProper (before ++ ((name, value) ∷ [])) ps hs,
)

IsMimeType-IsProper : (m : MimeType) → IsMimeType m → IsProper m
IsMimeType-IsProper m (h, (k, v)) = (
  IsName-IsLowerToken m.kind h,
  (IsName-IsLowerToken m.subtype k, AllNew-AllProper [] m.parameters v),
)

-- A MIME type that is parsed from any text satisfies what the round trip asks for. Its type, its subtype
-- and the names of its parameters are tokens without an upper-case letter, no two parameters have
-- the same name, and each character of a value is a tab, one from 32 to 126 or one from 128 to 255.
pub parse_mime_type-IsMimeType :
    (input : Bytes) (m : MimeType) → parse_mime_type input ≡ some m → IsMimeType m × IsProper m
unfolding parse_mime_type
parse_mime_type-IsMimeType input m h =
    let v : IsMimeType m = subst IsRead h (parse_trimmed-IsRead _) in (v, IsMimeType-IsProper m v)

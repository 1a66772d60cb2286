-- ===== src/Mime/RoundTrip.antt =====
-- What `serializeAMimeType` of lib/web/fetch/data-url.js writes, `parseMIMEType` reads.
use undici.Base.{
  ℕ, zero, suc, ◌≡◌, ◌≤◌, ◌<◌, refl, sym, ap, ap₂, ◌∙◌, arith, Bool, true, false, not, none, some,
  List, [], ◌∷◌, ◌++◌, Bytes, length, ◌==◌, Bool-cases, ==_iff, inl, inr, append-nil, append_assoc,
  length-append,
}
use undici.Base.All.{all, all_imp, all_first}
use undici.Infra.{collect_fast, collect_sequence, ascii_lowercase, remove_leading, remove_trailing}
use undici.Mime.{
  MimeType, is_token, is_quoted_token, is_http_token, is_http_white_space, escaped, goes_on, has,
  set_parameter, set_unless_empty, take_value, end_name, next_parameter, parameter_loop,
  parse_trimmed, parse_mime_type, value_text, parameters_text, serialize_a_mime_type,
}
use undici.Mime.Quoted.{
  differs, collect_fast_stop, collect_fast-parameters_text, collect_sequence-name,
  collect_sequence-none, collect_quoted-escaped, remove_trailing-append, remove_trailing-all,
}

-- a token in lower case
abbrev pub IsName : Bytes → Type 0
IsName text = (is_http_token text ≡ true) × (ascii_lowercase text ≡ text)

-- parameters that the parser adds to those before
abbrev pub AllNew : List (Bytes × Bytes) → List (Bytes × Bytes) → Type 0
AllNew before [] = Unit
AllNew before ((name, value) ∷ parameters) =
    IsName name
    × ((all is_quoted_token value ≡ true)
        × ((has name before ≡ false) × AllNew (before ++ ((name, value) ∷ [])) parameters))

-- a MIME type record as the parser makes it
abbrev pub IsMimeType : MimeType → Type 0
IsMimeType m = IsName m.kind × (IsName m.subtype × AllNew [] m.parameters)

abbrev is_solid : ℕ → Bool
is_solid c = not (is_http_white_space c)

token-solid : (c : ℕ) → is_token c ≡ true → is_solid c ≡ true
token-solid c h = ground (arith, h)

token-differs :
    (char : ℕ) → is_token char ≡ false → (c : ℕ) → is_token c ≡ true → differs char c ≡ true
token-differs char k c h = elim (Bool-cases (c == char)) [
  | inl e ↦ absurd (ground (arith, sym (ap is_token ((==_iff c char).0 e) ∙ k) ∙ h))
  | inr e ↦ ap not e
]

token-goes_on : (c : ℕ) → is_token c ≡ true → goes_on c ≡ true
token-goes_on c h = ground (arith, h)

token_text :
    (text : Bytes) → is_http_token text ≡ true → (0 < length text) × (all is_token text ≡ true)
token_text [] h = absurd (ground (arith, h))
token_text (c ∷ text) h = (omega arith, h)

-- the text of a value
value_text-trailing :
    (value : Bytes)
    → (0 < length (value_text value))
      × (remove_trailing is_http_white_space (value_text value) ≡ value_text value)
unfolding value_text remove_trailing
value_text-trailing value = elim (Bool-cases (is_http_token value)) [
  | inl e ↦
      let (l, t) = token_text value e in
      rw e (
        l,
        remove_trailing-all is_http_white_space value
            (all_imp is_token is_solid value token-solid t),
      )
  | inr e ↦ rw e (
    omega arith,
    remove_trailing-append is_http_white_space (0x22 ∷ escaped value) (0x22 ∷ []) (omega arith)
        refl,
  )
]

-- nothing is removed behind parameters
trailing-parameters :
    (xs : Bytes) (ps : List (Bytes × Bytes))
    → 0 < length xs
    → remove_trailing is_http_white_space xs ≡ xs
    → remove_trailing is_http_white_space (xs ++ parameters_text ps) ≡ xs ++ parameters_text ps
unfolding parameters_text
trailing-parameters xs [] l h =
    ap (λ t. remove_trailing is_http_white_space t) (append-nil xs) ∙ (h ∙ sym (append-nil xs))
trailing-parameters xs ((n, v) ∷ ps) l h =
    let (m, k) = value_text-trailing v in
    let rest = trailing-parameters (value_text v) ps m k in
    let end = value_text v ++ parameters_text ps in
    let some_end : 0 < length end =
      omega (arith, m, length-append (value_text v) (parameters_text ps)) in
    let from_equals = remove_trailing-append is_http_white_space (0x3D ∷ []) end some_end rest in
    let from_name =
      remove_trailing-append is_http_white_space (0x3B ∷ n) (0x3D ∷ end) (omega arith)
        from_equals in
    remove_trailing-append is_http_white_space xs (0x3B ∷ (n ++ (0x3D ∷ end))) (omega arith)
      from_name

set_parameter-new :
    (before : List (Bytes × Bytes)) (name value : Bytes)
    → is_http_token name ≡ true
    → all is_quoted_token value ≡ true
    → has name before ≡ false
    → set_parameter before name value ≡ before ++ ((name, value) ∷ [])
unfolding set_parameter
set_parameter-new before name value h k n = rw (h, k, n) refl

-- a value that is a token
take_value-token :
    (before ps : List (Bytes × Bytes)) (name value : Bytes)
    → is_http_token name ≡ true
    → is_http_token value ≡ true
    → all is_quoted_token value ≡ true
    → has name before ≡ false
    → take_value before name (value ++ parameters_text ps)
      ≡ some (before ++ ((name, value) ∷ []), parameters_text ps)
unfolding take_value
take_value-token before ps name [] h t k n = absurd (ground (arith, t))
take_value-token before ps name (c ∷ value) h t k n =
    let (_, tokens) = token_text (c ∷ value) t in
    let plain : (c == 0x22) ≡ false = ground (arith, all_first is_token c value tokens) in
    rw plain (
      ap (λ r. some (set_unless_empty before name (remove_trailing is_http_white_space r.0), r.1))
        (collect_fast-parameters_text (c ∷ value) ps
          (all_imp is_token (differs 0x3B) (c ∷ value) (token-differs 0x3B refl) tokens))
      ∙ (ap (λ v. some (set_unless_empty before name v, parameters_text ps))
            (remove_trailing-all is_http_white_space (c ∷ value)
              (all_imp is_token is_solid (c ∷ value) token-solid tokens))
          ∙ ap (λ a. some (a, parameters_text ps))
              (set_parameter-new before name (c ∷ value) h k n)))

-- a value in quotation marks
take_value-quoted :
    (before ps : List (Bytes × Bytes)) (name value : Bytes)
    → is_http_token name ≡ true
    → all is_quoted_token value ≡ true
    → has name before ≡ false
    → take_value before name (0x22 ∷ (escaped value ++ (0x22 ∷ parameters_text ps)))
      ≡ some (before ++ ((name, value) ∷ []), parameters_text ps)
unfolding take_value all
take_value-quoted before ps name value h k n =
    ap (λ r. some (set_parameter before name r.0, (collect_fast 0x3B r.1).1))
      (collect_quoted-escaped value (parameters_text ps))
    ∙ ap₂ (λ a b. some (a, b)) (set_parameter-new before name value h k n)
        (ap (λ r. r.1) (collect_fast-parameters_text [] ps refl))

take_value-text :
    (before ps : List (Bytes × Bytes)) (name value : Bytes)
    → is_http_token name ≡ true
    → all is_quoted_token value ≡ true
    → has name before ≡ false
    → take_value before name (value_text value ++ parameters_text ps)
      ≡ some (before ++ ((name, value) ∷ []), parameters_text ps)
unfolding value_text
take_value-text before ps name value h k n = elim (Bool-cases (is_http_token value)) [
  | inl e ↦ rw e (take_value-token before ps name value h e k n)
  | inr e ↦ rw e (
      ap (λ t. take_value before name (0x22 ∷ t))
        (append_assoc (escaped value) (0x22 ∷ []) (parameters_text ps))
      ∙ take_value-quoted before ps name value h k n)
]

next_parameter-text :
    (before ps : List (Bytes × Bytes)) (name value : Bytes)
    → IsName name
    → all is_quoted_token value ≡ true
    → has name before ≡ false
    → next_parameter before (name ++ (0x3D ∷ (value_text value ++ parameters_text ps)))
      ≡ some (before ++ ((name, value) ∷ []), parameters_text ps)
unfolding next_parameter end_name
next_parameter-text before ps [] value (h, l) k n = absurd (ground (arith, h))
next_parameter-text before ps (c ∷ name) value (h, l) k n =
    let (_, tokens) = token_text (c ∷ name) h in
    let rest = value_text value ++ parameters_text ps in
    let no_space : is_http_white_space c ≡ false =
      ground (arith, all_first is_token c name tokens) in
    ap
      (λ r.
        end_name before (ascii_lowercase (collect_sequence goes_on r.1).0)
          (collect_sequence goes_on r.1).1)
      (collect_sequence-none is_http_white_space c (name ++ (0x3D ∷ rest)) no_space)
    ∙ (ap (λ r. end_name before (ascii_lowercase r.0) r.1)
          (collect_sequence-name (c ∷ name) rest
            (all_imp is_token goes_on (c ∷ name) token-goes_on tokens))
        ∙ (ap (λ t. end_name before t (0x3D ∷ rest)) l
            ∙ take_value-text before ps (c ∷ name) value h k n))

parameter_loop-text :
    (rounds : ℕ) (before ps : List (Bytes × Bytes))
    → length (parameters_text ps) ≤ rounds
    → AllNew before ps
    → parameter_loop rounds before (parameters_text ps) ≡ before ++ ps
unfolding parameter_loop parameters_text
parameter_loop-text rounds before [] l h = sym (append-nil before)
parameter_loop-text zero before ((n, v) ∷ ps) l h = absurd (omega (arith, l))
parameter_loop-text (suc rounds) before ((n, v) ∷ ps) l (h, (k, (m, hs))) =
    ap
      (λ o. elim o [
        | none ↦ before
        | some (parameters, rest) ↦ parameter_loop rounds parameters rest
      ])
      (next_parameter-text before ps n v h k m)
    ∙ (parameter_loop-text rounds (before ++ ((n, v) ∷ [])) ps
          (omega (
            arith,
            l,
            length-append n (0x3D ∷ (value_text v ++ parameters_text ps)),
            length-append (value_text v) (parameters_text ps),
          ))
          hs
        ∙ append_assoc before ((n, v) ∷ []) ps)

-- the type and the subtype
parse_trimmed-serialize :
    (kind subtype : Bytes) (ps : List (Bytes × Bytes))
    → IsName kind
    → IsName subtype
    → AllNew [] ps
    → parse_trimmed (kind ++ (0x2F ∷ (subtype ++ parameters_text ps)))
      ≡ some (record { kind = kind; subtype = subtype; parameters = ps })
unfolding parse_trimmed
parse_trimmed-serialize kind subtype ps (h, l) (k, m) n =
    let tokens = (token_text subtype k).1 in
    rw
      (
        collect_fast_stop 0x2F kind (subtype ++ parameters_text ps)
            (all_imp is_token (differs 0x2F) kind (token-differs 0x2F refl) (token_text kind h).1),
        collect_fast-parameters_text subtype ps
            (all_imp is_token (differs 0x3B) subtype (token-differs 0x3B refl) tokens),
        remove_trailing-all is_http_white_space subtype
            (all_imp is_token is_solid subtype token-solid tokens),
        h,
        k,
        l,
        m,
        parameter_loop-text (length (parameters_text ps)) [] ps (omega arith) n,
      )
      refl

remove_leading-token :
    (text rest : Bytes)
    → is_http_token text ≡ true
    → remove_leading is_http_white_space (text ++ rest) ≡ text ++ rest
unfolding remove_leading
remove_leading-token [] rest h = absurd (ground (arith, h))
remove_leading-token (c ∷ text) rest h =
    let no_space : is_http_white_space c ≡ false = ground (arith, all_first is_token c text h) in
    rw no_space refl

-- Every MIME type, with any parameters, reads back from what is written for it: its type, its subtype and the
-- parameters' names are tokens in lower case, no name comes twice, and a value is any text of the characters of a
-- quoted string, with quotation marks, backslashes and semicolons, or empty.
pub parse_mime_type-serialize_a_mime_type :
    (m : MimeType) → IsMimeType m → parse_mime_type (serialize_a_mime_type m) ≡ some m
unfolding parse_mime_type serialize_a_mime_type
parse_mime_type-serialize_a_mime_type m (h, (k, n)) =
    let (l, tokens) = token_text m.subtype (k.0) in
    let solid =
      remove_trailing-all is_http_white_space m.subtype
        (all_imp is_token is_solid m.subtype token-solid tokens) in
    let end = m.subtype ++ parameters_text m.parameters in
    let some_end : 0 < length end =
      omega (arith, l, length-append m.subtype (parameters_text m.parameters)) in
    let kept_end = trailing-parameters m.subtype m.parameters l solid in
    let kept = remove_trailing-append is_http_white_space (0x2F ∷ []) end some_end kept_end in
    ap (λ t. parse_trimmed (remove_trailing is_http_white_space t))
      (remove_leading-token m.kind (0x2F ∷ end) (h.0))
    ∙ (ap parse_trimmed
          (remove_trailing-append is_http_white_space m.kind (0x2F ∷ end) (omega arith) kept)
        ∙ parse_trimmed-serialize m.kind m.subtype m.parameters h k n)

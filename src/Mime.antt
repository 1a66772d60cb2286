-- ===== src/Mime.antt =====
-- lib/web/fetch/data-url.js: `parseMIMEType` and `serializeAMimeType`. A position in a string is what is left from
-- it on.
pub mod Quoted
pub mod RoundTrip
pub mod Sound
pub mod Fuel
mod Tests
use undici.Base.{
  ℕ, zero, suc, ◌+◌, Bool, true, false, ◌&&◌, ◌||◌, not, Option, none, some, List, [], ◌∷◌, ◌++◌,
  Bytes, length, codes, leb, ◌==◌, equal, if◌then◌else◌,
}
use undici.Base.All.{all}
use undici.Infra.{collect_fast, collect_sequence, ascii_lowercase, remove_leading, remove_trailing}

-- a MIME type record, whose essence is its type, a slash and its subtype; the parameters in their order
pub record MimeType : Type 0 where
  pub kind : Bytes
  pub subtype : Bytes
  pub parameters : List (Bytes × Bytes)

-- a character of `HTTP_TOKEN_CODEPOINTS`
abbrev pub is_token : ℕ → Bool
is_token c =
    (leb 0x30 c && leb c 0x39)
    || ((leb 0x41 c && leb c 0x5A)
        || ((leb 0x5E c && leb c 0x7A)
            || (c == 0x21
                || ((leb 0x23 c && leb c 0x27)
                    || (c == 0x2A
                        || (c == 0x2B
                            || (c == 0x2D || (c == 0x2E || (c == 0x7C || c == 0x7E)))))))))

abbrev pub is_empty_text : Bytes → Bool
is_empty_text [] = true
is_empty_text (c ∷ text) = false

-- `HTTP_TOKEN_CODEPOINTS.test`
abbrev pub is_http_token : Bytes → Bool
is_http_token text = not (is_empty_text text) && all is_token text

-- a character of `HTTP_QUOTED_STRING_TOKENS`
abbrev pub is_quoted_token : ℕ → Bool
is_quoted_token c = c == 0x09 || ((leb 0x20 c && leb c 0x7E) || (leb 0x80 c && leb c 0xFF))

-- `isHTTPWhiteSpace`, and `HTTP_WHITESPACE_REGEX`
abbrev pub is_http_white_space : ℕ → Bool
is_http_white_space c = c == 0x0D || (c == 0x0A || (c == 0x09 || c == 0x20))

-- `collectAnHTTPQuotedString` with the extract-value flag, from behind the quotation mark
unfoldable pub collect_quoted : Bytes → Bytes × Bytes
collect_quoted [] = ([], [])
collect_quoted (c ∷ []) = if c == 0x22 then ([], []) else (c ∷ [], [])
collect_quoted (c ∷ d ∷ text) =
    let (value, rest) = collect_quoted (d ∷ text) in
    let (value', rest') = collect_quoted text in
    if c == 0x22
    then ([], d ∷ text)
    else if c == 0x5C
    then (d ∷ value', rest')
    else (c ∷ value, rest)

-- `parameters.has`
unfoldable pub has : Bytes → List (Bytes × Bytes) → Bool
has name [] = false
has name ((key, value) ∷ parameters) = if equal key name then true else has name parameters

-- step 10 of the loop
unfoldable pub set_parameter : List (Bytes × Bytes) → Bytes → Bytes → List (Bytes × Bytes)
set_parameter parameters name value =
    if is_http_token name && (all is_quoted_token value && not (has name parameters))
    then parameters ++ ((name, value) ∷ [])
    else parameters

-- step 9: a value that is empty is left out
abbrev pub set_unless_empty : List (Bytes × Bytes) → Bytes → Bytes → List (Bytes × Bytes)
set_unless_empty parameters name [] = parameters
set_unless_empty parameters name (c ∷ value) = set_parameter parameters name (c ∷ value)

-- steps 7 to 10, from behind the `=`, with what is left; none where the loop breaks
unfoldable pub take_value :
    List (Bytes × Bytes) → Bytes → Bytes → Option (List (Bytes × Bytes) × Bytes)
take_value parameters name [] = none
take_value parameters name (c ∷ text) =
    let (value, behind) = collect_quoted text in
    let (bare, rest) = collect_fast 0x3B (c ∷ text) in
    if c == 0x22
    then some (set_parameter parameters name value, (collect_fast 0x3B behind).1)
    else some (set_unless_empty parameters name (remove_trailing is_http_white_space bare), rest)

-- steps 5 and 6, where the name ends
unfoldable pub end_name :
    List (Bytes × Bytes) → Bytes → Bytes → Option (List (Bytes × Bytes) × Bytes)
end_name parameters name [] = none
end_name parameters name (c ∷ text) =
    if c == 0x3B then some (parameters, c ∷ text) else take_value parameters name text

abbrev pub goes_on : ℕ → Bool
goes_on c = not (c == 0x3B) && not (c == 0x3D)

-- a round of the loop, from behind the semicolon
unfoldable pub next_parameter : List (Bytes × Bytes) → Bytes → Option (List (Bytes × Bytes) × Bytes)
next_parameter parameters text =
    let (name, rest) = collect_sequence goes_on (collect_sequence is_http_white_space text).1 in
    end_name parameters (ascii_lowercase name) rest

-- the loop of `parseMIMEType`, with rounds to go
unfoldable pub parameter_loop : ℕ → List (Bytes × Bytes) → Bytes → List (Bytes × Bytes)
parameter_loop rounds parameters [] = parameters
parameter_loop zero parameters (c ∷ text) = parameters
parameter_loop (suc rounds) parameters (c ∷ text) = elim (next_parameter parameters text) [
  | none ↦ parameters
  | some (parameters', rest) ↦ parameter_loop rounds parameters' rest
]

-- step 6
abbrev pub behind_slash : Bytes → Bytes
behind_slash [] = []
behind_slash (c ∷ text) = text

-- `parseMIMEType` on an input without white space around it; none is the failure
unfoldable pub parse_trimmed : Bytes → Option MimeType
parse_trimmed input =
    let (kind, rest) = collect_fast 0x2F input in
    let (subtype', unparsed) = collect_fast 0x3B (behind_slash rest) in
    let subtype = remove_trailing is_http_white_space subtype' in
    if not (is_http_token kind)
    then none
    else if is_empty_text rest
    then none
    else if not (is_http_token subtype)
    then none
    else some (record {
      kind = ascii_lowercase kind;
      subtype = ascii_lowercase subtype;
      parameters = parameter_loop (length unparsed) [] unparsed;
    })

-- `parseMIMEType`
unfoldable pub parse_mime_type : Bytes → Option MimeType
parse_mime_type input =
    parse_trimmed (remove_trailing is_http_white_space (remove_leading is_http_white_space input))

-- the replacement in `serializeAMimeType`
unfoldable pub escaped : Bytes → Bytes
escaped [] = []
escaped (c ∷ value) = if c == 0x22 || c == 0x5C then 0x5C ∷ c ∷ escaped value else c ∷ escaped value

unfoldable pub value_text : Bytes → Bytes
value_text value =
    if not (is_http_token value) then 0x22 ∷ (escaped value ++ (0x22 ∷ [])) else value

-- the loop of `serializeAMimeType`
unfoldable pub parameters_text : List (Bytes × Bytes) → Bytes
parameters_text [] = []
parameters_text ((name, value) ∷ parameters) =
    0x3B ∷ (name ++ (0x3D ∷ (value_text value ++ parameters_text parameters)))

-- `serializeAMimeType`
unfoldable pub serialize_a_mime_type : MimeType → Bytes
serialize_a_mime_type m = m.kind ++ (0x2F ∷ (m.subtype ++ parameters_text m.parameters))

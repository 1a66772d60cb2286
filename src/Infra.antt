-- ===== src/Infra.antt =====
-- lib/web/infra/index.js: pieces of a string, and its letters. A position in a string is what is left from it on.
pub mod Left
use undici.Base.{ℕ, ◌+◌, Bool, ◌&&◌, [], ◌∷◌, Bytes, map, leb, ◌==◌, if◌then◌else◌}

-- `collectASequenceOfCodePointsFast` at position 0, with what is left from the new
-- position on
unfoldable pub collect_fast : ℕ → Bytes → Bytes × Bytes
collect_fast char [] = ([], [])
collect_fast char (code ∷ text) =
    let (collected, rest) = collect_fast char text in
    if code == char then ([], code ∷ text) else (code ∷ collected, rest)

-- `collectASequenceOfCodePoints`
unfoldable pub collect_sequence : (ℕ → Bool) → Bytes → Bytes × Bytes
collect_sequence condition [] = ([], [])
collect_sequence condition (code ∷ text) =
    let (collected, rest) = collect_sequence condition text in
    if condition code then (code ∷ collected, rest) else ([], code ∷ text)

-- `asciiLowercase`
abbrev pub ascii_lowercase : Bytes → Bytes
ascii_lowercase = map (λ code. if leb 0x41 code && leb code 0x5A then code + 0x20 else code)

-- the leading characters of `removeChars`
unfoldable pub remove_leading : (ℕ → Bool) → Bytes → Bytes
remove_leading predicate [] = []
remove_leading predicate (code ∷ text) =
    let rest = remove_leading predicate text in if predicate code then rest else code ∷ text

abbrev pub keep_before : (ℕ → Bool) → ℕ → Bytes → Bytes
keep_before predicate code [] = if predicate code then [] else code ∷ []
keep_before predicate code (c ∷ text) = code ∷ c ∷ text

-- the trailing characters
unfoldable pub remove_trailing : (ℕ → Bool) → Bytes → Bytes
remove_trailing predicate [] = []
remove_trailing predicate (code ∷ text) =
    keep_before predicate code (remove_trailing predicate text)

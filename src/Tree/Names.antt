-- ===== src/Tree/Names.antt =====
-- The tree of header names as an optimisation: a hit gives what lower-casing would.
use undici.Base.{
  ℕ, Bool, true, false, ◌≡◌, ◌≤◌, ◌<◌, ◌⊎◌, inl, inr, refl, arith, none, some, List, [], ◌∷◌, ◌&&◌,
  ◌||◌, ltb, ap, Bytes, map, ◌==◌, if◌then◌else◌, ok, equal, equal_iff, Bool-cases, bind-eq-ok,
  ==_iff, ap₂,
}
use undici.Base.Bits.{passes_below, passes_below_lem}
use undici.Tree.{
  TstNode, null, fold_case, insert, lookup, lower_code, to_lower_case, insert_names,
  lower_header_name,
}
use undici.Tree.Lookup.{lookup-insert}
use undici.Tree.Errors.{is_ascii, error_of-insert}

fold_table : passes_below 128 (λ c. fold_case c == lower_code c) ≡ true
unfolding passes_below fold_case lower_code
fold_table = refl

-- Above ASCII `fold_case` changes nothing, so an ASCII result comes from an ASCII code.
fold_case_lt : (c : ℕ) → fold_case c ≤ 0x7f → c < 128
unfolding fold_case
fold_case_lt c h = ground arith

fold_case-eq-lower_code : (c : ℕ) → fold_case c ≤ 0x7f → fold_case c ≡ lower_code c
fold_case-eq-lower_code c h =
    (==_iff _ _).0 (passes_below_lem 128 _ c fold_table (fold_case_lt c h))

map-fold_case : (k : Bytes) → is_ascii (map fold_case k) ≡ true → map fold_case k ≡ to_lower_case k
map-fold_case [] h = refl
map-fold_case (c ∷ k) h =
    ap₂ ◌∷◌ (fold_case-eq-lower_code c (ground arith)) (map-fold_case k (ground arith))

-- A hit in the tree gives the lower-cased key.
abbrev IsSound : TstNode Bytes → Type 0
IsSound t = (k : Bytes) → (lookup t k ≡ none) ⊎ (lookup t k ≡ some (to_lower_case k))

null-IsSound : IsSound null
unfolding lookup
null-IsSound k = inl refl

is_ascii_of_ok :
    (t : TstNode Bytes) (key : Bytes) (v : Bytes) {t' : TstNode Bytes}
    → insert t key v ≡ ok t'
    → is_ascii key ≡ true
is_ascii_of_ok t [] v h = refl
is_ascii_of_ok t (c ∷ key) v h = ground (arith, error_of-insert t (c ∷ key) v, h)

insert-IsSound :
    (t : TstNode Bytes) (key : Bytes) {t' : TstNode Bytes}
    → insert t key key ≡ ok t'
    → IsSound t
    → IsSound t'
insert-IsSound t key h s k = elim (Bool-cases (equal (map fold_case k) key)) [
  | inl hit ↦ ground (
    arith,
    lookup-insert t key key k h,
    (equal_iff (map fold_case k) key),
    map-fold_case k,
    is_ascii_of_ok t key key h,
  )
  | inr miss ↦ ground (arith, lookup-insert t key key k h, s k)
]

insert_names-IsSound :
    (t : TstNode Bytes) (names : List Bytes) {t' : TstNode Bytes}
    → insert_names t names ≡ ok t'
    → IsSound t
    → IsSound t'
unfolding insert_names
insert_names-IsSound t [] h s = λ k. ground (arith, s k)
insert_names-IsSound t (n ∷ names) h s =
    let (t₁, e, later) =
      bind-eq-ok (insert t (to_lower_case n) (to_lower_case n)) (λ t₁. insert_names t₁ names) h in
    insert_names-IsSound t₁ names later (insert-IsSound t (to_lower_case n) e s)

-- Whatever names the tree was filled with, `bufferToLowerCasedHeaderName` gives the lower-cased
-- value: the lookup in the tree changes no result.
pub lower_header_name-eq-to_lower_case :
    (names : List Bytes) {t : TstNode Bytes} (value : Bytes)
    → insert_names null names ≡ ok t
    → lower_header_name t value ≡ to_lower_case value
unfolding lower_header_name
lower_header_name-eq-to_lower_case names value h =
    ground (arith, insert_names-IsSound null names h null-IsSound value)

-- A key is one of the names, where upper and lower case are the same.
abbrev pub is_name_of : List Bytes → Bytes → Bool
is_name_of [] k = false
is_name_of (n ∷ names) k = is_name_of names k || equal (to_lower_case k) (to_lower_case n)

-- No code above ASCII has an ASCII code as its lower case.
lower_code_lt : (c : ℕ) → lower_code c ≤ 0x7f → c < 128
unfolding lower_code
lower_code_lt c h = ground arith

same_code : (c d : ℕ) → d ≤ 0x7f → (fold_case c == d) ≡ (lower_code c == d)
same_code c d h = elim (Bool-cases (ltb c 128)) [
  | inl e ↦
      ap (λ x. x == d) ((==_iff _ _).0 (passes_below_lem 128 _ c fold_table (ground (arith, e))))
  | inr e ↦ ground (arith, fold_case_lt c, lower_code_lt c, e, h)
]

-- An ASCII text is met by a key folded exactly if it is by the key in lower case.
same_text :
    (k text : Bytes)
    → is_ascii text ≡ true
    → equal (map fold_case k) text ≡ equal (to_lower_case k) text
same_text [] [] h = refl
same_text [] (d ∷ text) h = refl
same_text (c ∷ k) [] h = refl
same_text (c ∷ k) (d ∷ text) h =
    ap₂ ◌&&◌ (same_code c d (ground (arith, h))) (same_text k text (ground (arith, h)))

lookup-insert_names_from :
    (names : List Bytes) (t : TstNode Bytes) {t' : TstNode Bytes} (k : Bytes)
    → insert_names t names ≡ ok t'
    → lookup t' k ≡ (if is_name_of names k then some (to_lower_case k) else lookup t k)
unfolding insert_names
lookup-insert_names_from [] t k h = ground arith
lookup-insert_names_from (n ∷ names) t k h =
    let key = to_lower_case n in
    let (t₁, e, later) = bind-eq-ok (insert t key key) (λ t₁. insert_names t₁ names) h in
    ground (
      arith,
      lookup-insert_names_from names t₁ k later,
      lookup-insert t key key k e,
      same_text k key (is_ascii_of_ok t key key e),
      equal_iff (to_lower_case k) key,
    )

-- The tree filled with some names knows a key exactly if the key in lower case is one of the names in
-- lower case, and then it gives the key in lower case. Lower case is here what `toLowerCase` makes of
-- codes below 256, and not the folding that the tree does.
pub lookup-insert_names :
    (names : List Bytes) {t : TstNode Bytes} (k : Bytes)
    → insert_names null names ≡ ok t
    → lookup t k ≡ (if is_name_of names k then some (to_lower_case k) else none)
unfolding lookup
lookup-insert_names names k h = lookup-insert_names_from names null k h

-- ===== src/Tree/Tests.antt =====
-- Runs of the tree on concrete names, and the theorems at these inputs.
use undici.Base.{◌≡◌, refl, some, none, List, [], ◌∷◌, Bytes, ok, err, codes}
use undici.Tree.{
  TstNode, null, unreachable, not_ascii, fold_case, create, insert, lookup, lower_code,
  to_lower_case, insert_names, lower_header_name,
}
use undici.Tree.Names.{lower_header_name-eq-to_lower_case, lookup-insert_names}
use undici.Tree.Errors.{error_of, error_of-insert}

abbrev names : List Bytes
names = codes "Age" ∷ codes "Allow" ∷ codes "Date" ∷ []

abbrev tail_of : Bytes → Bytes → TstNode Bytes
tail_of key v = elim (create key v) [ ok t ↦ t | err e ↦ null ]

abbrev age_tree : TstNode Bytes
unfolding create
age_tree = tail_of (codes "age") (codes "age")

abbrev filled : TstNode Bytes
unfolding insert_names
filled = elim (insert_names null names) [ ok t ↦ t | err e ↦ null ]

filled_lem : insert_names null names ≡ ok filled
unfolding insert_names
filled_lem = refl

filled_hits :
    (lookup filled (codes "aLLow") ≡ some (codes "allow"))
    × (lookup filled (codes "al") ≡ none)
    × (lookup filled (codes "dates") ≡ none)
unfolding insert_names lookup fold_case
filled_hits = (refl, refl, refl)

bad_keys :
    (insert filled [] [] ≡ err unreachable) × (insert filled (0x41 ∷ 0xe9 ∷ []) [] ≡ err not_ascii)
unfolding insert insert_names
bad_keys = (refl, refl)

error_of-insert_example : error_of (insert filled (0x41 ∷ 0xe9 ∷ []) []) ≡ some not_ascii
error_of-insert_example = error_of-insert filled (0x41 ∷ 0xe9 ∷ []) []

lower_header_name-eq-to_lower_case_example :
    lower_header_name filled (codes "X-Age") ≡ to_lower_case (codes "X-Age")
lower_header_name-eq-to_lower_case_example =
    lower_header_name-eq-to_lower_case names (codes "X-Age") filled_lem

lookup-insert_names_example : lookup filled (codes "DATE") ≡ some (codes "date")
unfolding insert_names fold_case lower_code
lookup-insert_names_example = lookup-insert_names names (codes "DATE") filled_lem

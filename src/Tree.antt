-- ===== src/Tree.antt =====
-- lib/core/tree.js: the ternary search tree of the well-known header names, with the loop of
-- lib/core/constants.js that lower-cases the names and its use in lib/core/util.js.
-- A key is the list of its char codes, and `key.charCodeAt(index)` is the head of what is left.
-- A node is mutated along one path only, so an insertion returns the new tree.
pub mod Lookup
pub mod Errors
pub mod Names
mod Tests
use Prim.Native.Nat.{bit_or}
use undici.Base.{
  ℕ, ◌+◌, ◌&&◌, ◌||◌, not, Option, none, some, List, [], ◌∷◌, Bytes, map, ltb, leb, ◌==◌,
  if◌then◌else◌, Result, ok, err, ◌>>=◌,
}

-- The two messages of the TypeErrors that the tree throws.
pub data TreeError : Type 0 where
  unreachable not_ascii : TreeError

-- A `TstNode` or `null`. The fields are value (its `null` is `none`), left, middle, right, code.
pub data TstNode {ℓ} (V : Type ℓ) : Type ℓ where
  null : TstNode V
  node : Option V → TstNode V → TstNode V → TstNode V → ℕ → TstNode V

-- `code |= 32` for A-Z, and any other code as it is.
unfoldable pub fold_case : ℕ → ℕ
fold_case code = if leb code 0x5a && leb 0x41 code then bit_or code 32 else code

module _ {ℓ} {V : Type ℓ} where
  -- `new TstNode(key, value, index)`, on the key from `index` on
  unfoldable pub create : Bytes → V → Result TreeError (TstNode V)
  create [] v = err unreachable
  create (c ∷ []) v = if ltb 0x7f c then err not_ascii else ok (node (some v) null null null c)
  create (c ∷ d ∷ rest) v =
      let middle = create (d ∷ rest) v in
      if ltb 0x7f c then err not_ascii else (do m ← middle; ok (node none null m null c))

  -- `add`, on the key from `index` on; at `null` the caller's `new TstNode(key, value, index)`
  unfoldable pub add : TstNode V → Bytes → V → Result TreeError (TstNode V)
  unfolding create
  add null key v = create key v
  add (node val l m r code) [] v = err unreachable
  add (node val l m r code) (c ∷ []) v =
      if ltb 0x7f c
      then err not_ascii
      else if code == c
      then ok (node (some v) l m r code)
      else if ltb code c
      then (do l' ← add l (c ∷ []) v; ok (node val l' m r code))
      else (do r' ← add r (c ∷ []) v; ok (node val l m r' code))
  add (node val l m r code) (c ∷ d ∷ rest) v =
      if ltb 0x7f c
      then err not_ascii
      else if code == c
      then (do m' ← add m (d ∷ rest) v; ok (node val l m' r code))
      else if ltb code c
      then (do l' ← add l (c ∷ d ∷ rest) v; ok (node val l' m r code))
      else (do r' ← add r (c ∷ d ∷ rest) v; ok (node val l m r' code))

  -- `search`, on the key from `index` on; the inner loop goes on at the same index
  unfoldable pub search_from : TstNode V → Bytes → TstNode V
  unfolding fold_case
  search_from null key = null
  search_from (node val l m r code) [] = null
  search_from (node val l m r code) (c ∷ []) =
      let left = search_from l (c ∷ []) in
      let right = search_from r (c ∷ []) in
      if fold_case c == code
      then node val l m r code
      else if ltb code (fold_case c)
      then left
      else right
  search_from (node val l m r code) (c ∷ d ∷ rest) =
      let middle = search_from m (d ∷ rest) in
      let left = search_from l (c ∷ d ∷ rest) in
      let right = search_from r (c ∷ d ∷ rest) in
      if fold_case c == code then middle else if ltb code (fold_case c) then left else right

  -- `TernarySearchTree.insert`
  unfoldable pub insert : TstNode V → Bytes → V → Result TreeError (TstNode V)
  unfolding add
  insert null key v = create key v
  insert (node val l m r code) key v = add (node val l m r code) key v

  -- `?.value ?? null`
  unfoldable pub value : TstNode V → Option V
  value null = none
  value (node val l m r code) = val

  -- `TernarySearchTree.lookup`
  unfoldable pub lookup : TstNode V → Bytes → Option V
  unfolding search_from value
  lookup t key = value (search_from t key)

-- `toLowerCase` of a string whose char codes are below 256
unfoldable pub lower_code : ℕ → ℕ
lower_code c =
    if (leb 0x41 c && leb c 0x5a) || (leb 0xc0 c && leb c 0xde && not (c == 0xd7))
    then c + 32
    else c

abbrev pub to_lower_case : Bytes → Bytes
to_lower_case = map lower_code

-- The loop that fills `tree`, from a tree that holds some of the names already; the value is the
-- lower-cased name, as `headerNameLowerCasedRecord` gives it.
unfoldable pub insert_names : TstNode Bytes → List Bytes → Result TreeError (TstNode Bytes)
unfolding insert lower_code
insert_names t [] = ok t
insert_names t (n ∷ names) = do
  t' ← insert t (to_lower_case n) (to_lower_case n)
  insert_names t' names

-- `bufferToLowerCasedHeaderName` of lib/core/util.js: `tree.lookup(value) ?? …toLowerCase()`
unfoldable pub lower_header_name : TstNode Bytes → Bytes → Bytes
unfolding lookup
lower_header_name t value = elim (lookup t value) [ none ↦ to_lower_case value | some name ↦ name ]

-- ===== src/Tree/Errors.antt =====
-- Which keys can be inserted, and which error each of the others gives.
use undici.Base.{
  Bool, true, ◌≡◌, refl, arith, Option, none, some, [], ◌∷◌, ◌&&◌, Bytes, leb, if◌then◌else◌,
  Result, ok, err,
}
use undici.Tree.{TstNode, null, node, TreeError, unreachable, not_ascii, create, add, insert}

-- Every code of a key is ASCII.
abbrev pub is_ascii : Bytes → Bool
is_ascii [] = true
is_ascii (c ∷ key) = leb c 0x7f && is_ascii key

-- What is wrong with a key: `none` for a non-empty ASCII one.
abbrev pub key_error : Bytes → Option TreeError
key_error [] = some unreachable
key_error (c ∷ key) = if is_ascii (c ∷ key) then none else some not_ascii

module _ {ℓ} {V : Type ℓ} where
  abbrev pub error_of : Result TreeError (TstNode V) → Option TreeError
  error_of (ok t) = none
  error_of (err e) = some e

  error_of-create : (key : Bytes) (v : V) → error_of (create key v) ≡ key_error key
  unfolding create
  error_of-create [] v = refl
  error_of-create (c ∷ []) v = ground arith
  error_of-create (c ∷ d ∷ rest) v = ground (arith, error_of-create (d ∷ rest) v)

  error_of-add : (t : TstNode V) (key : Bytes) (v : V) → error_of (add t key v) ≡ key_error key
  unfolding add
  error_of-add null key v = error_of-create key v
  error_of-add (node val l m r code) [] v = refl
  error_of-add (node val l m r code) (c ∷ []) v =
      ground (arith, error_of-add l (c ∷ []) v, error_of-add r (c ∷ []) v)
  error_of-add (node val l m r code) (c ∷ d ∷ rest) v = ground (
    arith,
    error_of-add l (c ∷ d ∷ rest) v,
    error_of-add r (c ∷ d ∷ rest) v,
    error_of-add m (d ∷ rest) v,
  )

  -- `insert` throws 'Unreachable' at the empty key, 'key must be ascii string' at a key with a code
  -- above 0x7F, and returns at every other key, whatever the tree holds.
  pub error_of-insert :
      (t : TstNode V) (key : Bytes) (v : V) → error_of (insert t key v) ≡ key_error key
  unfolding insert
  error_of-insert null key v = error_of-create key v
  error_of-insert (node val l m r code) key v = error_of-add (node val l m r code) key v

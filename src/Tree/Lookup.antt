-- ===== src/Tree/Lookup.antt =====
-- What a lookup finds after an insertion, and which keys can be inserted.
use undici.Base.{
  ◌≡◌, arith, Option, none, some, [], ◌∷◌, Bytes, map, if◌then◌else◌, Result, ok, err, equal,
}
use undici.Tree.{TstNode, null, node, TreeError, fold_case, create, add, insert, lookup}

module _ {ℓ} {V : Type ℓ} where
  -- If an operation returns a tree, a lookup of `k` in it gives `o`.
  abbrev Finds : Bytes → Option V → Result TreeError (TstNode V) → Type ℓ
  Finds k o (ok t) = lookup t k ≡ o
  Finds k o (err e) = Unit

  lookup-create :
      (key : Bytes) (v : V) (k : Bytes)
      → Finds k (if equal (map fold_case k) key then some v else none) (create key v)
  unfolding create lookup
  lookup-create [] v k = tt
  lookup-create (c ∷ []) v [] = ground arith
  lookup-create (c ∷ []) v (x ∷ []) = ground arith
  lookup-create (c ∷ []) v (x ∷ y ∷ k) = ground arith
  lookup-create (c ∷ d ∷ rest) v [] = ground arith
  lookup-create (c ∷ d ∷ rest) v (x ∷ []) = ground arith
  lookup-create (c ∷ d ∷ rest) v (x ∷ y ∷ k) = ground (arith, lookup-create (d ∷ rest) v (y ∷ k))

  lookup-add :
      (t : TstNode V) (key : Bytes) (v : V) (k : Bytes)
      → Finds k (if equal (map fold_case k) key then some v else lookup t k) (add t key v)
  unfolding add lookup
  lookup-add null key v k = ground (arith, lookup-create key v k)
  lookup-add (node val l m r code) [] v k = tt
  lookup-add (node val l m r code) (c ∷ []) v [] = ground arith
  lookup-add (node val l m r code) (c ∷ []) v (x ∷ []) =
      ground (arith, lookup-add l (c ∷ []) v (x ∷ []), lookup-add r (c ∷ []) v (x ∷ []))
  lookup-add (node val l m r code) (c ∷ []) v (x ∷ y ∷ k) =
      ground (arith, lookup-add l (c ∷ []) v (x ∷ y ∷ k), lookup-add r (c ∷ []) v (x ∷ y ∷ k))
  lookup-add (node val l m r code) (c ∷ d ∷ rest) v [] = ground arith
  lookup-add (node val l m r code) (c ∷ d ∷ rest) v (x ∷ []) =
      ground (arith, lookup-add l (c ∷ d ∷ rest) v (x ∷ []), lookup-add r (c ∷ d ∷ rest) v (x ∷ []))
  lookup-add (node val l m r code) (c ∷ d ∷ rest) v (x ∷ y ∷ k) = ground (
    arith,
    lookup-add l (c ∷ d ∷ rest) v (x ∷ y ∷ k),
    lookup-add r (c ∷ d ∷ rest) v (x ∷ y ∷ k),
    lookup-add m (d ∷ rest) v (y ∷ k),
  )

  -- After `insert(key, value)` returns, `lookup` gives the new value at every name that equals the key
  -- once its A-Z are lower-cased, and what it gave before at every other name.
  pub lookup-insert :
      (t : TstNode V) (key : Bytes) (v : V) {t' : TstNode V} (k : Bytes)
      → insert t key v ≡ ok t'
      → lookup t' k ≡ (if equal (map fold_case k) key then some v else lookup t k)
  unfolding insert
  lookup-insert null key v k h = ground (arith, lookup-add null key v k, h)
  lookup-insert (node val l m r code) key v k h =
      ground (arith, lookup-add (node val l m r code) key v k, h)

-- ===== src/FixedQueue/Spec.antt =====
-- What a queue promises: a first-in first-out list, and the calls that a client makes.
use undici.Base.{Bool, true, false, Option, none, some, List, [], ◌∷◌, ◌++◌}
use undici.FixedQueue.{FixedQueue, is_empty, push, shift}

pub data Call {ℓ} (A : Type ℓ) : Type ℓ where
  put : A → Call A
  get : Call A
  ask : Call A

-- What the client sees: nothing, an item or `null`, a Boolean.
pub data Answer {ℓ} (A : Type ℓ) : Type ℓ where
  done : Answer A
  item : Option A → Answer A
  empty : Bool → Answer A

module _ {ℓ} {A : Type ℓ} where
  abbrev pub first : List A → Option A
  first [] = none
  first (x ∷ xs) = some x

  abbrev pub rest : List A → List A
  rest [] = []
  rest (x ∷ xs) = xs

  abbrev pub is_nil : List A → Bool
  is_nil [] = true
  is_nil (x ∷ xs) = false

  -- the answers of a list used as a queue
  unfoldable pub spec_run : List A → List (Call A) → List (Answer A)
  spec_run xs [] = []
  spec_run xs (put x ∷ calls) = done ∷ spec_run (xs ++ (x ∷ [])) calls
  spec_run xs (get ∷ calls) = item (first xs) ∷ spec_run (rest xs) calls
  spec_run xs (ask ∷ calls) = empty (is_nil xs) ∷ spec_run xs calls

  -- the answers of the queue of circular buffers
  unfoldable pub run : FixedQueue A → List (Call A) → List (Answer A)
  run q [] = []
  run q (put x ∷ calls) = done ∷ run (push q x) calls
  run q (get ∷ calls) = let (x, q') = shift q in item x ∷ run q' calls
  run q (ask ∷ calls) = empty (is_empty q) ∷ run q calls

-- ===== src/FixedQueue/Links.antt =====
-- The linked list of buffers between the tail and the head, and what a write elsewhere leaves of it.
use undici.Base.{ℕ, ◌+◌, ◌≤◌, ◌<◌, ◌≡◌, ◌≢◌, ap, arith, some, List, [], ◌∷◌, ◌++◌}
use undici.FixedQueue.{FixedCircularBuffer}
use undici.FixedQueue.Circular.{Holds}

-- The buffers from address `i` up to `h`, without `h`, hold these lists, none of them empty.
pub data Links {ℓ} {A : Type ℓ} (bufs : ℕ → FixedCircularBuffer A) (h : ℕ)
    : ℕ → List (List A) → Type ℓ where
  here : {i : ℕ} → i ≡ h → Links bufs h i []
  link :
      {i : ℕ} {xs : List A} {xss : List (List A)}
      → Holds (bufs i) xs
      → xs ≢ []
      → (bufs i).next ≡ some (i + 1)
      → Links bufs h (i + 1) xss
      → Links bufs h i (xs ∷ xss)

module _ {ℓ} {A : Type ℓ} {bufs : ℕ → FixedCircularBuffer A} {h : ℕ} where
  pub Links-le : {i : ℕ} {xss : List (List A)} → Links bufs h i xss → i ≤ h
  Links-le (here e) = omega (arith, e)
  Links-le (link v ne n l) = omega (arith, Links-le l)

  -- Only the buffers from `i` up to `h` matter.
  pub Links-agree :
      {i : ℕ} {xss : List (List A)} (bufs' : ℕ → FixedCircularBuffer A)
      → Links bufs h i xss
      → ((j : ℕ) → i ≤ j → j < h → bufs' j ≡ bufs j)
      → Links bufs' h i xss
  Links-agree bufs' (here e) agree = here e
  Links-agree bufs' (link {i} {xs} v ne n l) agree =
      let same = agree i (omega arith) (omega (arith, Links-le l)) in
      link (rw same v) ne (rw same n) (Links-agree bufs' l (λ j p q. agree j (omega arith) q))

  -- One more full buffer before the head.
  pub Links-concat :
      {i : ℕ} {xss : List (List A)} {xs : List A}
      → Links bufs h i xss
      → Holds (bufs h) xs
      → xs ≢ []
      → (bufs h).next ≡ some (h + 1)
      → Links bufs (h + 1) i (xss ++ (xs ∷ []))
  Links-concat (here {i} e) v ne n = link (rw e v) ne (rw e n) (here (ap (λ k. k + 1) e))
  Links-concat (link v' ne' n' l) v ne n = link v' ne' n' (Links-concat l v ne n)

-- ===== src/FixedQueue/Circular.antt =====
-- One circular buffer holds a list of fewer than `k_size` items.
use undici.Base.{
  ℕ, zero, suc, ◌+◌, ◌%◌, ◌≤◌, ◌<◌, ◌≡◌, refl, arith, Option, none, some, List, [], ◌∷◌, ◌++◌,
  length, get_elem?, length-append, ◌==◌, if◌then◌else◌, dec_lt, update,
}
use undici.Base.Bits.{bit_and-2047}
use Prim.Native.Nat.{bit_and}
use undici.FixedQueue.{
  k_size, k_mask, FixedCircularBuffer, new_buffer, buffer_is_empty, buffer_is_full, buffer_push,
  buffer_shift,
}
use undici.FixedQueue.Spec.{is_nil}

module _ {ℓ} {A : Type ℓ} where
  -- The items lie from `bottom` on, round the end of the array, and every other slot is free.
  pub record Holds (b : FixedCircularBuffer A) (xs : List A) : Type ℓ where
    pub fits : length xs < k_size
    pub bottom_in : b.bottom < k_size
    pub top_is : b.top ≡ (b.bottom + length xs) % k_size
    pub slot : (k : ℕ) → k < k_size → b.list ((b.bottom + k) % k_size) ≡ get_elem? xs k

  get_elem?-ge : (xs : List A) (k : ℕ) → length xs ≤ k → get_elem? xs k ≡ none
  get_elem?-ge [] k h = refl
  get_elem?-ge (x ∷ xs) zero h = absurd (omega arith)
  get_elem?-ge (x ∷ xs) (suc k) h = get_elem?-ge xs k (omega arith)

  get_elem?-concat :
      (xs : List A) (x : A) (k : ℕ)
      → get_elem? (xs ++ (x ∷ [])) k ≡ (if k == length xs then some x else get_elem? xs k)
  get_elem?-concat [] x zero = refl
  get_elem?-concat [] x (suc k) = ground arith
  get_elem?-concat (y ∷ xs) x zero = ground arith
  get_elem?-concat (y ∷ xs) x (suc k) = ground (arith, get_elem?-concat xs x k)

  pub new_buffer-Holds : Holds new_buffer []
  new_buffer-Holds = record {
    fits = omega arith;
    bottom_in = omega arith;
    top_is = refl;
    slot = λ k h. refl;
  }

  -- `next` plays no part.
  pub Holds-next :
      {b : FixedCircularBuffer A} {xs : List A} (n : Option ℕ)
      → Holds b xs
      → Holds (record b { next = n }) xs
  Holds-next n v = record {
    fits = v.fits;
    bottom_in = v.bottom_in;
    top_is = v.top_is;
    slot = v.slot;
  }

  pub buffer_is_empty_lem :
      (b : FixedCircularBuffer A) (xs : List A) → Holds b xs → buffer_is_empty b ≡ is_nil xs
  unfolding buffer_is_empty
  buffer_is_empty_lem b [] v = ground (arith, v.top_is, v.bottom_in)
  buffer_is_empty_lem b (x ∷ xs) v = ground (arith, v.top_is, v.bottom_in, v.fits)

  pub buffer_is_full_lem :
      (b : FixedCircularBuffer A) (xs : List A)
      → Holds b xs
      → buffer_is_full b ≡ (length xs + 1 == k_size)
  unfolding buffer_is_full
  buffer_is_full_lem b xs v =
      ground (arith, v.top_is, v.bottom_in, v.fits, bit_and-2047 (b.top + 1))

  pub buffer_push-Holds :
      {b : FixedCircularBuffer A} {xs : List A} (x : A)
      → Holds b xs
      → length xs + 1 < k_size
      → Holds (buffer_push b x) (xs ++ (x ∷ []))
  unfolding buffer_push
  buffer_push-Holds {b} {xs} x v h = record {
    fits = omega (arith, length-append xs (x ∷ []));
    bottom_in = v.bottom_in;
    top_is = omega (arith, v.top_is, bit_and-2047 (b.top + 1), length-append xs (x ∷ []));
    slot = λ k hk. ground (arith, v.top_is, v.bottom_in, v.slot k hk, get_elem?-concat xs x k);
  }

  pub buffer_shift-Holds_nil : {b : FixedCircularBuffer A} → Holds b [] → buffer_shift b ≡ (none, b)
  unfolding buffer_shift
  buffer_shift-Holds_nil {b} v = ground (arith, v.slot 0 (omega arith), v.bottom_in)

  -- the buffer after its first item was taken
  abbrev pub shifted : FixedCircularBuffer A → FixedCircularBuffer A
  shifted b = record b {
    list = update b.list b.bottom none;
    bottom = bit_and (b.bottom + 1) k_mask;
  }

  pub buffer_shift-Holds_cons :
      {b : FixedCircularBuffer A} {x : A} {xs : List A}
      → Holds b (x ∷ xs)
      → buffer_shift b ≡ (some x, shifted b)
  unfolding buffer_shift
  buffer_shift-Holds_cons {b} {x} {xs} v = ground (arith, v.slot 0 (omega arith), v.bottom_in)

  -- one slot of `shifted b`; past the last item the slot is the one that was cleared
  slot-shifted :
      {b : FixedCircularBuffer A} {x : A} {xs : List A}
      → Holds b (x ∷ xs)
      → (k : ℕ) → k < k_size
      → (shifted b).list (((shifted b).bottom + k) % k_size) ≡ get_elem? xs k
  slot-shifted {b} {x} {xs} v k hk = elim (dec_lt (k + 1) k_size) [
    | yes more ↦
        ground (arith, e, bit_and-2047 (b.bottom + 1), v.bottom_in, v.slot (suc k) (omega arith))
    | no last ↦ ground (arith, bit_and-2047 (b.bottom + 1), v.bottom_in, v.fits, get_elem?-ge xs k)
  ]
    where
      e : ((b.bottom + 1) % k_size + k) % k_size ≡ (b.bottom + suc k) % k_size
      e = omega arith

  pub shifted-Holds :
      {b : FixedCircularBuffer A} {x : A} {xs : List A} → Holds b (x ∷ xs) → Holds (shifted b) xs
  shifted-Holds {b} v = record {
    fits = omega (arith, v.fits);
    bottom_in = omega (arith, bit_and-2047 (b.bottom + 1));
    top_is = omega (arith, v.top_is, bit_and-2047 (b.bottom + 1));
    slot = slot-shifted v;
  }

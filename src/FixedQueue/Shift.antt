-- ===== src/FixedQueue/Shift.antt =====
-- `shift` takes the first item, and leaves an emptied buffer behind for the next one.
use undici.Base.{
  ℕ, ◌+◌, ◌≡◌, ◌≢◌, ◌⊎◌, inl, inr, refl, ◌∙◌, ap, arith, Option, none, some, List, [], ◌∷◌, ◌++◌,
  if◌then◌else◌, update, update_self, update_ne,
}
use undici.FixedQueue.{
  FixedCircularBuffer, FixedQueue, buffer_is_empty, buffer_shift, is_empty, advance, settle, shift,
}
use undici.FixedQueue.Spec.{first, rest, is_nil}
use undici.FixedQueue.Circular.{
  Holds, buffer_is_empty_lem, buffer_shift-Holds_nil, shifted, buffer_shift-Holds_cons,
  shifted-Holds,
}
use undici.FixedQueue.Links.{Links, here, link, Links-le, Links-agree}
use undici.FixedQueue.Refine.{Repr, joined}

module _ {ℓ} {A : Type ℓ} where
  -- the queue with another buffer at its tail
  abbrev stored : FixedQueue A → FixedCircularBuffer A → FixedQueue A
  stored q b = record q { buffers = update q.buffers q.tail b }

  -- the queue whose tail moved to `n`, with `b` where the tail was
  abbrev advanced : FixedQueue A → FixedCircularBuffer A → ℕ → FixedQueue A
  advanced q b n = record q {
    tail = n;
    buffers = update (update q.buffers q.tail b) q.tail (record b { next = none });
  }

  shift-stored :
      (q : FixedQueue A) (o : Option A) (b : FixedCircularBuffer A)
      → buffer_shift (q.buffers q.tail) ≡ (o, b)
      → shift q ≡ (o, if buffer_is_empty b then advance (stored q b) else stored q b)
  unfolding shift
  shift-stored q o b e = ap (settle q) e

  advance-none :
      (q : FixedQueue A) (b : FixedCircularBuffer A)
      → b.next ≡ none
      → advance (stored q b) ≡ stored q b
  unfolding advance
  advance-none q b e = ground (arith, update_self q.buffers q.tail b)

  advance-some :
      (q : FixedQueue A) (b : FixedCircularBuffer A) {n : ℕ}
      → b.next ≡ some n
      → advance (stored q b) ≡ advanced q b n
  unfolding advance
  advance-some q b e = ground (arith, update_self q.buffers q.tail b)

  stored-Repr_single :
      (q : FixedQueue A) (b : FixedCircularBuffer A) (xs : List A)
      → q.tail ≡ q.head
      → q.fresh ≡ q.head + 1
      → Holds b xs
      → b.next ≡ none
      → Repr (stored q b) xs
  stored-Repr_single q b xs t f v n = record {
    chain = record {
      before = [];
      last = xs;
      links = here t;
      head_holds = rw t (rw (update_self q.buffers q.head b) v);
      head_next = rw t (rw (update_self q.buffers q.head b) n);
      fresh_is = f;
      items_are = refl;
    };
    tidy = inl refl;
  }

  -- A shift, computed, where the tail buffer holds `xs` and an item was taken from it or not.
  shift_kept :
      (q : FixedQueue A) (o : Option A) (b : FixedCircularBuffer A) (xs : List A)
      → buffer_shift (q.buffers q.tail) ≡ (o, b)
      → Holds b xs
      → (b.next ≡ none) ⊎ (xs ≢ [])
      → shift q ≡ (o, stored q b)
  shift_kept q o b [] e v (inl n) =
      rw (shift-stored q o b e, buffer_is_empty_lem b [] v, advance-none q b n)
  shift_kept q o b [] e v (inr ne) = absurd (ne refl)
  shift_kept q o b (x ∷ xs) e v k = rw (shift-stored q o b e, buffer_is_empty_lem b (x ∷ xs) v)

  shift_moved :
      (q : FixedQueue A) (o : Option A) (b : FixedCircularBuffer A) {n : ℕ}
      → buffer_shift (q.buffers q.tail) ≡ (o, b)
      → Holds b []
      → b.next ≡ some n
      → shift q ≡ (o, advanced q b n)
  shift_moved q o b e v n =
      rw (shift-stored q o b e, buffer_is_empty_lem b [] v, advance-some q b n)

  -- at a head that is the tail
  shift_single :
      (q : FixedQueue A) (last : List A)
      → q.tail ≡ q.head
      → Holds (q.buffers q.tail) last
      → (q.buffers q.tail).next ≡ none
      → q.fresh ≡ q.head + 1
      → ((shift q).0 ≡ first last) × Repr (shift q).1 (rest last)
  shift_single q [] t v n f =
      rw (shift_kept q none _ [] (buffer_shift-Holds_nil v) v (inl n))
        (refl, stored-Repr_single q (q.buffers q.tail) [] t f v n)
  shift_single q (x ∷ last) t v n f =
      rw (shift_kept q (some x) _ last (buffer_shift-Holds_cons v) (shifted-Holds v) (inl n))
        (refl, stored-Repr_single q (shifted (q.buffers q.tail)) last t f (shifted-Holds v) n)

  module _ (q : FixedQueue A) (last : List A) (v : Holds (q.buffers q.head) last)
      (n : (q.buffers q.head).next ≡ none) (f : q.fresh ≡ q.head + 1) where
    stored-Repr_more :
        (b : FixedCircularBuffer A) (xs : List A) (xss : List (List A))
        → last ≢ []
        → Holds b xs
        → xs ≢ []
        → b.next ≡ some (q.tail + 1)
        → Links q.buffers q.head (q.tail + 1) xss
        → Repr (stored q b) (joined (xs ∷ xss) ++ last)
    stored-Repr_more b xs xss ne v' ne' n' l = record {
      chain = record {
        before = xs ∷ xss;
        last = last;
        links =
            link (rw (update_self q.buffers q.tail b) v') ne'
              (rw (update_self q.buffers q.tail b) n') (Links-agree _ l (λ j p h. ground arith));
        head_holds = rw (update_ne q.buffers q.tail b {j = q.head} (omega (arith, Links-le l))) v;
        head_next = rw (update_ne q.buffers q.tail b {j = q.head} (omega (arith, Links-le l))) n;
        fresh_is = f;
        items_are = refl;
      };
      tidy = inr ne;
    }

    advanced-Repr :
        (b : FixedCircularBuffer A) (xss : List (List A))
        → last ≢ []
        → Links q.buffers q.head (q.tail + 1) xss
        → Repr (advanced q b (q.tail + 1)) (joined xss ++ last)
    advanced-Repr b xss ne l = record {
      chain = record {
        before = xss;
        last = last;
        links = Links-agree _ l (λ j p h. ground arith);
        head_holds = rw other v;
        head_next = rw other n;
        fresh_is = f;
        items_are = refl;
      };
      tidy = inr ne;
    }
      where
        other : (advanced q b (q.tail + 1)).buffers q.head ≡ q.buffers q.head
        other = ground (arith, Links-le l)

    shift_go :
        (xss : List (List A))
        → Links q.buffers q.head q.tail xss
        → (xss ≡ []) ⊎ (last ≢ [])
        → ((shift q).0 ≡ first (joined xss ++ last)) × Repr (shift q).1 (rest (joined xss ++ last))
    shift_go _ (here e) t = shift_single q last e (rw e v) (rw e n) f
    shift_go _ (link {xs = []} v' ne n' l) t = absurd (ne refl)
    shift_go _ (link {xs = x ∷ []} v' ne n' l) (inl t) = cc
    shift_go _ (link {xs = x ∷ []} {xss} v' ne n' l) (inr t) =
        rw (shift_moved q (some x) _ (buffer_shift-Holds_cons v') (shifted-Holds v') n')
          (refl, advanced-Repr (shifted (q.buffers q.tail)) xss t l)
    shift_go _ (link {xs = x ∷ y ∷ xs} v' ne n' l) (inl t) = cc
    shift_go _ (link {xs = x ∷ y ∷ xs} {xss} v' ne n' l) (inr t) =
        rw
          (shift_kept q (some x) _ (y ∷ xs) (buffer_shift-Holds_cons v') (shifted-Holds v')
            (inr (λ h. cc)))
          (
            refl,
            stored-Repr_more (shifted (q.buffers q.tail)) (y ∷ xs) xss t (shifted-Holds v')
                (λ h. cc) n' l,
          )

  -- On a queue that stands for a list (Repr), `shift` returns the first item, or `null` from an empty
  -- list, and leaves the others in order.
  pub shift-Repr :
      {q : FixedQueue A} {items : List A}
      → Repr q items
      → ((shift q).0 ≡ first items) × Repr (shift q).1 (rest items)
  shift-Repr {q} v =
      let c = v.chain in
      rw (← c.items_are)
        (shift_go q c.last c.head_holds c.head_next c.fresh_is c.before c.links v.tidy)

  is_nil-joined :
      (q : FixedQueue A) (xss : List (List A)) (last : List A)
      → Links q.buffers q.head q.tail xss
      → (xss ≡ []) ⊎ (last ≢ [])
      → is_nil last ≡ is_nil (joined xss ++ last)
  is_nil-joined q _ last (here e) t = refl
  is_nil-joined q _ last (link {xs = []} v ne n l) t = absurd (ne refl)
  is_nil-joined q _ [] (link {xs = x ∷ xs} v ne n l) (inl t) = cc
  is_nil-joined q _ [] (link {xs = x ∷ xs} v ne n l) (inr t) = absurd (t refl)
  is_nil-joined q _ (y ∷ last) (link {xs = x ∷ xs} v ne n l) t = refl

  -- On a queue that stands for a list (Repr), `isEmpty` looks at the head alone, and still tells whether
  -- the list is empty.
  pub is_empty-Repr : {q : FixedQueue A} {items : List A} → Repr q items → is_empty q ≡ is_nil items
  unfolding is_empty
  is_empty-Repr {q} v =
      let c = v.chain in
      buffer_is_empty_lem _ c.last c.head_holds
      ∙ is_nil-joined q c.before c.last c.links v.tidy
      ∙ ap is_nil c.items_are

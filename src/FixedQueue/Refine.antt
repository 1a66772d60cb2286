-- ===== src/FixedQueue/Refine.antt =====
-- The queue of circular buffers behaves as a first-in first-out list.
use undici.Base.{
  ℕ, ◌+◌, ◌<◌, ◌≡◌, ◌≢◌, ◌⊎◌, inl, inr, refl, sym, ◌∙◌, ap, arith, append-nil, append_assoc, none,
  some, List, [], ◌∷◌, ◌++◌, length, ◌==◌, ==_iff, Bool-cases, update, update_self,
}
use undici.FixedQueue.{
  k_size, FixedCircularBuffer, FixedQueue, new_buffer, buffer_push, new_queue, grow, push,
}
use undici.FixedQueue.Circular.{
  Holds, Holds-next, new_buffer-Holds, buffer_is_full_lem, buffer_push-Holds,
}
use undici.FixedQueue.Links.{Links, here, Links-agree, Links-concat}

module _ {ℓ} {A : Type ℓ} where
  -- `contents` of a concatenation of buffers
  abbrev pub joined : List (List A) → List A
  joined [] = []
  joined (xs ∷ xss) = xs ++ joined xss

  joined-concat : (xss : List (List A)) (xs : List A) → joined (xss ++ (xs ∷ [])) ≡ joined xss ++ xs
  joined-concat [] xs = append-nil xs
  joined-concat (ys ∷ xss) xs = rw (joined-concat xss xs) (sym (append_assoc ys (joined xss) xs))

  -- The queue holds `items`: the buffers before the head hold `before`, the head holds `last`.
  pub record Chain (q : FixedQueue A) (items : List A) : Type ℓ where
    pub before : List (List A)
    pub last : List A
    pub links : Links q.buffers q.head q.tail before
    pub head_holds : Holds (q.buffers q.head) last
    pub head_next : (q.buffers q.head).next ≡ none
    pub fresh_is : q.fresh ≡ q.head + 1
    pub items_are : joined before ++ last ≡ items

  -- Between calls the head is empty only if it is the tail.
  pub record Repr (q : FixedQueue A) (items : List A) : Type ℓ where
    pub chain : Chain q items
    pub tidy : (chain.before ≡ []) ⊎ (chain.last ≢ [])

  pub new_queue-Repr : Repr new_queue []
  new_queue-Repr = record {
    chain = record {
      before = [];
      last = [];
      links = here refl;
      head_holds = new_buffer-Holds;
      head_next = refl;
      fresh_is = refl;
      items_are = refl;
    };
    tidy = inl refl;
  }

  concat-ne_nil : (xs : List A) (x : A) → (xs ++ (x ∷ [])) ≢ []
  concat-ne_nil [] x h = cc
  concat-ne_nil (y ∷ xs) x h = cc

  -- the state after `grow`
  head-grow : (q : FixedQueue A) → q.fresh ≡ q.head + 1 → (grow q).head ≡ q.head + 1
  unfolding grow
  head-grow q e = e

  tail-grow : (q : FixedQueue A) → (grow q).tail ≡ q.tail
  unfolding grow
  tail-grow q = refl

  fresh-grow : (q : FixedQueue A) → (grow q).fresh ≡ q.fresh + 1
  unfolding grow
  fresh-grow q = refl

  head_grown :
      (q : FixedQueue A)
      → q.fresh ≡ q.head + 1
      → ((grow q).buffers q.head ≡ record (q.buffers q.head) { next = some (q.head + 1) })
        × ((grow q).buffers (q.head + 1) ≡ new_buffer)
  unfolding grow
  head_grown q e = (ground arith, ground arith)

  below_grown :
      (q : FixedQueue A) (j : ℕ)
      → q.fresh ≡ q.head + 1
      → j < q.head
      → (grow q).buffers j ≡ q.buffers j
  unfolding grow
  below_grown q j e h = ground arith

  ne_nil_of_full : (xs : List A) → length xs + 1 ≡ k_size → xs ≢ []
  ne_nil_of_full [] h e = absurd (omega arith)
  ne_nil_of_full (x ∷ xs) h e = cc

  -- The old head, full, becomes the last buffer before an empty new head.
  grow-Chain :
      {q : FixedQueue A} {items : List A} (v : Chain q items)
      → length v.last + 1 ≡ k_size
      → Chain (grow q) items
  grow-Chain {q} {items} v full = record {
    before = v.before ++ (v.last ∷ []);
    last = [];
    links =
        rw (head-grow q v.fresh_is, tail-grow)
          (Links-concat
            (Links-agree (grow q).buffers v.links (λ j p h. below_grown q j v.fresh_is h))
            (rw (head_grown q v.fresh_is).0 (Holds-next _ v.head_holds))
            (ne_nil_of_full v.last full)
            (ap (λ (b : FixedCircularBuffer A). b.next) (head_grown q v.fresh_is).0));
    head_holds = rw (head-grow q v.fresh_is) (rw (head_grown q v.fresh_is).1 new_buffer-Holds);
    head_next =
        rw (head-grow q v.fresh_is)
          (ap (λ (b : FixedCircularBuffer A). b.next) (head_grown q v.fresh_is).1);
    fresh_is = omega (arith, v.fresh_is, head-grow q v.fresh_is, fresh-grow q);
    items_are =
        append-nil (joined (v.before ++ (v.last ∷ [])))
        ∙ joined-concat v.before v.last
        ∙ v.items_are;
  }

  -- a push into a buffer that has room
  push-Repr_fits :
      {q : FixedQueue A} {items : List A} (x : A) (v : Chain q items)
      → length v.last + 1 < k_size
      → Repr
          (record q { buffers = update q.buffers q.head (buffer_push (q.buffers q.head) x) })
          (items ++ (x ∷ []))
  unfolding buffer_push
  push-Repr_fits {q} {items} x v fits = record {
    chain = record {
      before = v.before;
      last = v.last ++ (x ∷ []);
      links = Links-agree _ v.links (λ j p h. ground arith);
      head_holds = rw (update_self q.buffers q.head) (buffer_push-Holds x v.head_holds fits);
      head_next = rw (update_self q.buffers q.head) v.head_next;
      fresh_is = v.fresh_is;
      items_are =
          sym (append_assoc (joined v.before) v.last (x ∷ []))
          ∙ ap (λ l. l ++ (x ∷ [])) v.items_are;
    };
    tidy = inr (concat-ne_nil v.last x);
  }

  -- `push` on a queue that stands for a list (Repr) gives one that stands for the list with the item
  -- appended.
  pub push-Repr :
      {q : FixedQueue A} {items : List A} (x : A)
      → Repr q items
      → Repr (push q x) (items ++ (x ∷ []))
  unfolding push grow-Chain
  push-Repr {q} {items} x v = elim (Bool-cases (length v.chain.last + 1 == k_size)) [
    | inl full ↦
        rw (buffer_is_full_lem _ _ v.chain.head_holds, full)
          (push-Repr_fits x (grow-Chain v.chain ((==_iff _ _).0 full)) (omega arith))
    | inr room ↦
        rw (buffer_is_full_lem _ _ v.chain.head_holds, room)
          (push-Repr_fits x v.chain (ground (arith, v.chain.head_holds.fits)))
  ]

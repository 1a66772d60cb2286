-- ===== src/FixedQueue.antt =====
-- lib/dispatcher/fixed-queue.js: `FixedCircularBuffer` and `FixedQueue`.
-- A queue is a linked list of circular buffers that the class mutates through `head`, `tail` and
-- `next`, which may be the same object: buffers lie in a store, and a reference is an address.
pub mod Spec
pub mod Circular
pub mod Links
pub mod Shift
pub mod Run
pub mod Refine
mod Tests
use Prim.Native.Nat.{bit_and}
use undici.Base.{ℕ, ◌+◌, ◌-◌, Bool, Option, none, some, update, ◌==◌, if◌then◌else◌}

abbrev pub k_size : ℕ
k_size = 2048

abbrev pub k_mask : ℕ
k_mask = k_size - 1

-- `undefined` in a slot is `none`; no item is `undefined`. `next` is an address or `null`.
pub record FixedCircularBuffer {ℓ} (A : Type ℓ) : Type ℓ where
  pub bottom : ℕ
  pub top : ℕ
  pub list : ℕ → Option A
  pub next : Option ℕ

-- `fresh` is the address that the next `new FixedCircularBuffer()` gets.
pub record FixedQueue {ℓ} (A : Type ℓ) : Type ℓ where
  pub head : ℕ
  pub tail : ℕ
  pub buffers : ℕ → FixedCircularBuffer A
  pub fresh : ℕ

-- the methods of `FixedCircularBuffer`
module _ {ℓ} {A : Type ℓ} where
  abbrev pub new_buffer : FixedCircularBuffer A
  new_buffer = record { bottom = 0; top = 0; list = λ _. none; next = none }

  unfoldable pub buffer_is_empty : FixedCircularBuffer A → Bool
  buffer_is_empty b = b.top == b.bottom

  unfoldable pub buffer_is_full : FixedCircularBuffer A → Bool
  buffer_is_full b = bit_and (b.top + 1) k_mask == b.bottom

  unfoldable pub buffer_push : FixedCircularBuffer A → A → FixedCircularBuffer A
  buffer_push b item = record b {
    list = update b.list b.top (some item);
    top = bit_and (b.top + 1) k_mask;
  }

  unfoldable pub buffer_shift : FixedCircularBuffer A → Option A × FixedCircularBuffer A
  buffer_shift b = elim (b.list b.bottom) [
    | none ↦ (none, b)
    | some item ↦ (
      some item,
      record b { list = update b.list b.bottom none; bottom = bit_and (b.bottom + 1) k_mask },
    )
  ]

-- the methods of `FixedQueue`
module _ {ℓ} {A : Type ℓ} where
  -- the constructor: one buffer, which is head and tail
  abbrev pub new_queue : FixedQueue A
  new_queue = record { head = 0; tail = 0; buffers = λ _. new_buffer; fresh = 1 }

  unfoldable pub is_empty : FixedQueue A → Bool
  unfolding buffer_is_empty
  is_empty q = buffer_is_empty (q.buffers q.head)

  -- `this.head = this.head.next = new FixedCircularBuffer()`
  unfoldable pub grow : FixedQueue A → FixedQueue A
  grow q = record q {
    head = q.fresh;
    buffers =
        update (update q.buffers q.fresh new_buffer) q.head
          (record (q.buffers q.head) { next = some q.fresh });
    fresh = q.fresh + 1;
  }

  unfoldable pub push : FixedQueue A → A → FixedQueue A
  unfolding buffer_is_full buffer_push grow
  push q item =
      let q' = if buffer_is_full (q.buffers q.head) then grow q else q in
      record q' { buffers = update q'.buffers q'.head (buffer_push (q'.buffers q'.head) item) }

  -- `this.tail = tail.next; tail.next = null`, where `tail.next` is not `null`
  unfoldable pub advance : FixedQueue A → FixedQueue A
  advance q = elim (q.buffers q.tail).next [
    | none ↦ q
    | some next ↦ record q {
      tail = next;
      buffers = update q.buffers q.tail (record (q.buffers q.tail) { next = none });
    }
  ]

  -- what `shift` does after `tail.shift()`, which gave `next` and left `tail`
  unfoldable pub settle : FixedQueue A → Option A × FixedCircularBuffer A → Option A × FixedQueue A
  unfolding buffer_is_empty advance
  settle q (next, tail) =
      let q' = record q { buffers = update q.buffers q.tail tail } in
      (next, if buffer_is_empty tail then advance q' else q')

  unfoldable pub shift : FixedQueue A → Option A × FixedQueue A
  unfolding buffer_shift settle
  shift q = settle q (buffer_shift (q.buffers q.tail))

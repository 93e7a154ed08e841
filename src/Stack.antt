-- ===== src/Stack.antt =====
-- src/ek_stack.c: the stack (`ek_stack_t`), over the lock macros of the configuration. A function
-- that updates `*sk` returns its code and the new stack; a pointer that may be `NULL` is an option.
mod Tests
pub mod Bounds
pub mod Refine
pub mod Trace
use ek_utils.Base.{
  ℕ, ◌+◌, ◌-◌, ◌*◌, ◌/◌, ◌%◌, Bool, true, false, not, ◌||◌, Option, none, some, ◌==◌, ltb, leb,
  if◌then◌else◌, take, drop, Bytes, blit, slice, max_word, add32, sub32, mul32,
}
use ek_utils.Err.{Err, ok, busy, inval, full, empty}
use ek_utils.Lock.{LockOps}

-- `struct ek_stack`; `bytes` is its flexible member `data`.
pub record Stack (Lock : Type 0) : Type 0 where
  pub sp : ℕ
  pub item_size : ℕ
  pub cap : ℕ
  pub lock : Lock
  pub bytes : Bytes

module _ {Lock : Type 0} where
  pub is_full : Option (Stack Lock) → Bool
  is_full none = false
  is_full (some sk) = leb sk.cap sk.sp

  pub is_empty : Option (Stack Lock) → Bool
  is_empty none = false
  is_empty (some sk) = sk.sp == 0

  -- What `init_static` and `create` make of a block.
  abbrev pub fresh : Lock → Bytes → ℕ → ℕ → Stack Lock
  fresh l bytes item_size item_amount = record {
    sp = 0;
    cap = item_amount;
    item_size = item_size;
    lock = l;
    bytes = bytes;
  }

module _ {Lock : Type 0} (ops : LockOps Lock) where
  pub init_static : Option (Stack Lock) → ℕ → ℕ → Err × Option (Stack Lock)
  init_static none item_size item_amount = (inval, none)
  init_static (some sk) item_size item_amount =
      if item_size == 0 || item_amount == 0
      then (inval, some sk)
      else (ok, some (fresh (ops.init sk.lock) sk.bytes item_size item_amount))

  pub deinit_static : Option (Stack Lock) → Option (Stack Lock)
  deinit_static none = none
  deinit_static (some sk) = some (fresh (ops.deinit sk.lock) sk.bytes 0 0)

  -- `malloc` is `ek_malloc`, `header` is `sizeof(ek_stack_t)`, and `raw` is what the lock field of the
  -- block holds before `EK_LOCK_INIT`.
  pub create : (ℕ → Option Bytes) → ℕ → Lock → ℕ → ℕ → Option (Stack Lock)
  create malloc header raw item_size item_amount =
      if item_amount == 0 || item_size == 0
      then none
      else if ltb ((max_word - header) / item_size) item_amount
      then none
      else elim (malloc (add32 header (mul32 item_amount item_size))) [
        | none ↦ none
        | some block ↦ some (fresh (ops.init raw) (drop header block) item_size item_amount)
      ]

  -- `free` is what `ek_free` does to the heap.
  pub destroy : {Heap : Type 0} → (Stack Lock → Heap → Heap) → Option (Stack Lock) → Heap → Heap
  destroy free none h = h
  destroy free (some sk) h = free (record sk { lock = ops.deinit sk.lock }) h

  -- `ek_stack_push` behind its tests for `NULL`.
  pub push_item : Stack Lock → Bytes → Err × Stack Lock
  push_item sk item =
      let (got, l) = ops.try sk.lock in
      if not got
      then (busy, record sk { lock = l })
      else if is_full (some sk)
      then (full, record sk { lock = ops.release l })
      else (
        ok,
        record sk {
          bytes = blit sk.bytes (mul32 sk.sp sk.item_size) (take sk.item_size item);
          sp = add32 sk.sp 1;
          lock = ops.release l;
        },
      )

  pub push : Option (Stack Lock) → Option Bytes → Err × Option (Stack Lock)
  push none item = (inval, none)
  push (some sk) none = (inval, some sk)
  push (some sk) (some item) = let (e, sk') = push_item sk item in (e, some sk')

  -- `ek_stack_pop` behind its tests for `NULL`; the bytes are the caller's buffer.
  pub pop_item : Stack Lock → Bytes → Err × Bytes × Stack Lock
  pop_item sk item =
      let (got, l) = ops.try sk.lock in
      if not got
      then (busy, item, record sk { lock = l })
      else if is_empty (some sk)
      then (empty, item, record sk { lock = ops.release l })
      else (
        ok,
        blit item 0 (slice sk.bytes (mul32 (sub32 sk.sp 1) sk.item_size) sk.item_size),
        record sk { sp = sub32 sk.sp 1; lock = ops.release l },
      )

  pub pop : Option (Stack Lock) → Option Bytes → Err × Option Bytes × Option (Stack Lock)
  pop none item = (inval, item, none)
  pop (some sk) none = (inval, none, some sk)
  pop (some sk) (some item) = let (e, out, sk') = pop_item sk item in (e, some out, some sk')

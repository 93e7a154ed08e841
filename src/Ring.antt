-- ===== src/Ring.antt =====
-- src/ek_ringbuf.c, the general ring buffer (`ek_ringbuf_t`), over the lock macros of the
-- configuration. A function that updates `*rb` returns its code and the new ring; a pointer that
-- may be `NULL` is an option.
mod Tests
pub mod Bounds
pub mod Refine
pub mod Trace
use ek_utils.Base.{
  ℕ, ◌+◌, ◌-◌, ◌*◌, ◌/◌, ◌%◌, Bool, true, false, not, ◌||◌, Option, none, some, ◌==◌, ltb,
  if◌then◌else◌, take, drop, Bytes, blit, slice, copy_out, max_word, add32, sub32, mul32,
}
use ek_utils.Err.{Err, ok, busy, inval, full, empty}
use ek_utils.Lock.{LockOps}

-- `struct ek_ringbuf`; `bytes` is its flexible member `data`.
pub record Ring (Lock : Type 0) : Type 0 where
  pub write_idx : ℕ
  pub read_idx : ℕ
  pub item_amount : ℕ
  pub cap : ℕ
  pub item_size : ℕ
  pub lock : Lock
  pub bytes : Bytes

module _ {Lock : Type 0} where
  unfoldable pub is_full : Option (Ring Lock) → Bool
  is_full none = false
  is_full (some rb) = rb.item_amount == rb.cap

  unfoldable pub is_empty : Option (Ring Lock) → Bool
  is_empty none = false
  is_empty (some rb) = rb.item_amount == 0

  -- What `init_static` and `create` make of a block.
  abbrev pub fresh : Lock → Bytes → ℕ → ℕ → Ring Lock
  fresh l bytes item_size item_amount = record {
    write_idx = 0;
    read_idx = 0;
    item_amount = 0;
    cap = item_amount;
    item_size = item_size;
    lock = l;
    bytes = bytes;
  }

module _ {Lock : Type 0} (ops : LockOps Lock) where
  unfoldable pub init_static : Option (Ring Lock) → ℕ → ℕ → Err × Option (Ring Lock)
  init_static none item_size item_amount = (inval, none)
  init_static (some rb) item_size item_amount =
      if item_size == 0 || item_amount == 0
      then (inval, some rb)
      else (ok, some (fresh (ops.init rb.lock) rb.bytes item_size item_amount))

  unfoldable pub deinit_static : Option (Ring Lock) → Option (Ring Lock)
  deinit_static none = none
  deinit_static (some rb) = some (fresh (ops.deinit rb.lock) rb.bytes 0 0)

  -- `free` is what `ek_free` does to the heap.
  pub destroy : {Heap : Type 0} → (Ring Lock → Heap → Heap) → Option (Ring Lock) → Heap → Heap
  destroy free none h = h
  destroy free (some rb) h = free (record rb { lock = ops.deinit rb.lock }) h

  -- `malloc` is `ek_malloc`, `header` is `sizeof(ek_ringbuf_t)`, and `raw` is what the lock field of
  -- the block holds before `EK_LOCK_INIT`.
  pub create : (ℕ → Option Bytes) → ℕ → Lock → ℕ → ℕ → Option (Ring Lock)
  create malloc header raw item_size item_amount =
      if item_amount == 0 || item_size == 0
      then none
      else if ltb ((max_word - header) / item_size) item_amount
      then none
      else elim (malloc (add32 header (mul32 item_amount item_size))) [
        | none ↦ none
        | some block ↦ some (fresh (ops.init raw) (drop header block) item_size item_amount)
      ]

  -- `ek_ringbuf_write` behind its tests for `NULL`.
  unfoldable pub write_item : Ring Lock → Bytes → Err × Ring Lock
  write_item rb item =
      let (got, l) = ops.try rb.lock in
      if not got
      then (busy, record rb { lock = l })
      else if is_full (some rb)
      then (full, record rb { lock = ops.release l })
      else (
        ok,
        record rb {
          bytes = blit rb.bytes (mul32 rb.write_idx rb.item_size) (take rb.item_size item);
          write_idx = add32 rb.write_idx 1 % rb.cap;
          item_amount = add32 rb.item_amount 1;
          lock = ops.release l;
        },
      )

  unfoldable pub write : Option (Ring Lock) → Option Bytes → Err × Option (Ring Lock)
  write none item = (inval, none)
  write (some rb) none = (inval, some rb)
  write (some rb) (some item) = let (e, rb') = write_item rb item in (e, some rb')

  -- `ek_ringbuf_read` behind its test for `NULL`. The option is the caller's buffer, which may be
  -- `NULL` to drop an item.
  unfoldable pub read_item : Ring Lock → Option Bytes → Err × Option Bytes × Ring Lock
  read_item rb item =
      let (got, l) = ops.try rb.lock in
      if not got
      then (busy, item, record rb { lock = l })
      else if is_empty (some rb)
      then (empty, item, record rb { lock = ops.release l })
      else (
        ok,
        copy_out item (slice rb.bytes (mul32 rb.read_idx rb.item_size) rb.item_size),
        record rb {
          read_idx = add32 rb.read_idx 1 % rb.cap;
          item_amount = sub32 rb.item_amount 1;
          lock = ops.release l;
        },
      )

  unfoldable pub read : Option (Ring Lock) → Option Bytes → Err × Option Bytes × Option (Ring Lock)
  read none item = (inval, item, none)
  read (some rb) item = let (e, out, rb') = read_item rb item in (e, out, some rb')

  -- `ek_ringbuf_peek` behind its tests for `NULL`.
  pub peek_item : Ring Lock → Bytes → Err × Option Bytes × Ring Lock
  peek_item rb item =
      let (got, l) = ops.try rb.lock in
      if not got
      then (busy, some item, record rb { lock = l })
      else if is_empty (some rb)
      then (empty, some item, record rb { lock = ops.release l })
      else (
        ok,
        copy_out (some item) (slice rb.bytes (mul32 rb.read_idx rb.item_size) rb.item_size),
        record rb { lock = ops.release l },
      )

  pub peek : Option (Ring Lock) → Option Bytes → Err × Option Bytes × Option (Ring Lock)
  peek none item = (inval, item, none)
  peek (some rb) none = (inval, none, some rb)
  peek (some rb) (some item) = let (e, out, rb') = peek_item rb item in (e, out, some rb')

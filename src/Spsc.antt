-- ===== src/Spsc.antt =====
-- src/ek_ringbuf.c, the ring for one producer and one consumer (`ek_ringbuf_spsc_t`). It takes no
-- lock and keeps no count: one slot stays empty, so that a full ring and an empty one differ.
mod Tests
pub mod Bounds
pub mod Refine
pub mod Interleave
use ek_utils.Base.{
  ℕ, ◌+◌, ◌-◌, ◌*◌, ◌/◌, ◌%◌, Bool, true, false, ◌||◌, Option, none, some, ◌==◌, ltb, leb,
  if◌then◌else◌, take, drop, Bytes, blit, slice, copy_out, max_word, add32, mul32,
}
use ek_utils.Err.{Err, ok, inval, full, empty}

-- `struct ek_ringbuf_spsc`; `bytes` is its flexible member `data`.
pub record Spsc : Type 0 where
  pub write_idx : ℕ
  pub read_idx : ℕ
  pub cap : ℕ
  pub item_size : ℕ
  pub bytes : Bytes

unfoldable pub next_idx : Spsc → ℕ → ℕ
next_idx rb idx = add32 idx 1 % rb.cap

unfoldable pub is_full : Option Spsc → Bool
is_full none = false
is_full (some rb) = next_idx rb rb.write_idx == rb.read_idx

unfoldable pub is_empty : Option Spsc → Bool
is_empty none = false
is_empty (some rb) = rb.read_idx == rb.write_idx

abbrev pub fresh : Bytes → ℕ → ℕ → Spsc
fresh bytes item_size amount = record {
  write_idx = 0;
  read_idx = 0;
  cap = amount;
  item_size = item_size;
  bytes = bytes;
}

unfoldable pub init_static : Option Spsc → ℕ → ℕ → Err × Option Spsc
init_static none item_size amount = (inval, none)
init_static (some rb) item_size amount =
    if item_size == 0 || leb amount 1
    then (inval, some rb)
    else (ok, some (fresh rb.bytes item_size amount))

pub deinit_static : Option Spsc → Option Spsc
deinit_static none = none
deinit_static (some rb) = some (fresh rb.bytes 0 0)

-- `malloc` is `ek_malloc`, `header` is `sizeof(ek_ringbuf_spsc_t)`.
pub create : (ℕ → Option Bytes) → ℕ → ℕ → ℕ → Option Spsc
create malloc header item_size item_amount =
    if leb item_amount 1 || item_size == 0
    then none
    else if ltb ((max_word - header) / item_size) item_amount
    then none
    else elim (malloc (add32 header (mul32 item_amount item_size))) [
      | none ↦ none
      | some block ↦ some (fresh (drop header block) item_size item_amount)
    ]

-- `free` is what `ek_free` does to the heap.
pub destroy : {Heap : Type 0} → (Spsc → Heap → Heap) → Option Spsc → Heap → Heap
destroy free none h = h
destroy free (some rb) h = free rb h

-- `ek_ringbuf_write_spsc` behind its tests for `NULL`.
unfoldable pub write_item : Spsc → Bytes → Err × Spsc
write_item rb item =
    let next = next_idx rb rb.write_idx in
    if next == rb.read_idx then (full, rb) else (
      ok,
      record rb {
        bytes = blit rb.bytes (mul32 rb.write_idx rb.item_size) (take rb.item_size item);
        write_idx = next;
      },
    )

pub write : Option Spsc → Option Bytes → Err × Option Spsc
write none item = (inval, none)
write (some rb) none = (inval, some rb)
write (some rb) (some item) = let (e, rb') = write_item rb item in (e, some rb')

-- `ek_ringbuf_read_spsc` behind its test for `NULL`; the option is the caller's buffer.
unfoldable pub read_item : Spsc → Option Bytes → Err × Option Bytes × Spsc
read_item rb item = if rb.read_idx == rb.write_idx then (empty, item, rb) else (
  ok,
  copy_out item (slice rb.bytes (mul32 rb.read_idx rb.item_size) rb.item_size),
  record rb { read_idx = next_idx rb rb.read_idx },
)

pub read : Option Spsc → Option Bytes → Err × Option Bytes × Option Spsc
read none item = (inval, item, none)
read (some rb) item = let (e, out, rb') = read_item rb item in (e, out, some rb')

pub peek : Option Spsc → Option Bytes → Err × Option Bytes
peek none item = (inval, item)
peek (some rb) none = (inval, none)
peek (some rb) (some item) =
    if rb.read_idx == rb.write_idx
    then (empty, some item)
    else (ok, copy_out (some item) (slice rb.bytes (mul32 rb.read_idx rb.item_size) rb.item_size))

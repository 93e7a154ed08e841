-- ===== src/Snapshot.antt =====
-- src/ek_snapshot.c: one slot that a writer overwrites whole (`ek_snapshot_t`), over the lock macros.
mod Tests
pub mod Laws
use ek_utils.Base.{
  ℕ, ◌+◌, ◌%◌, Bool, true, false, not, Option, none, some, ◌==◌, if◌then◌else◌, take, drop,
  replicate, Bytes, blit, slice, add32,
}
use ek_utils.Err.{Err, ok, busy, inval, nodata}
use ek_utils.Lock.{LockOps}

-- `struct ek_snapshot`; `bytes` is its flexible member `data`. Id 0 says that there is no data.
pub record Snapshot (Lock : Type 0) : Type 0 where
  pub unique : ℕ
  pub data_size : ℕ
  pub lock : Lock
  pub bytes : Bytes

module _ {Lock : Type 0} (ops : LockOps Lock) where
  pub init_static : Option (Snapshot Lock) → ℕ → Err × Option (Snapshot Lock)
  init_static none data_size = (inval, none)
  init_static (some sn) data_size = if data_size == 0 then (inval, some sn) else (
    ok,
    some (record {
      unique = 0;
      data_size = data_size;
      lock = ops.init sn.lock;
      bytes = blit sn.bytes 0 (replicate data_size 0);
    }),
  )

  pub deinit_static : Option (Snapshot Lock) → Option (Snapshot Lock)
  deinit_static none = none
  deinit_static (some sn) = some (record {
    unique = 0;
    data_size = 0;
    lock = ops.deinit sn.lock;
    bytes = blit sn.bytes 0 (replicate sn.data_size 0);
  })

  -- `malloc` is `ek_malloc`, `header` is `sizeof(ek_snapshot_t)`, and `raw` is what the lock field of
  -- the block holds before `EK_LOCK_INIT`.
  pub create : (ℕ → Option Bytes) → ℕ → Lock → ℕ → Option (Snapshot Lock)
  create malloc header raw data_size =
      if data_size == 0 then none else elim (malloc (add32 header data_size)) [
        | none ↦ none
        | some block ↦ some (record {
          unique = 0;
          data_size = data_size;
          lock = ops.init raw;
          bytes = blit (drop header block) 0 (replicate data_size 0);
        })
      ]

  -- `free` is what `ek_free` does to the heap.
  pub destroy :
      {Heap : Type 0} → (Snapshot Lock → Heap → Heap) → Option (Snapshot Lock) → Heap → Heap
  destroy free none h = h
  destroy free (some sn) h = free (record sn { lock = ops.deinit sn.lock }) h

  -- `ek_snapshot_set` behind its tests for `NULL`.
  pub set_data : Snapshot Lock → Bytes → ℕ → Err × Snapshot Lock
  set_data sn bytes unique =
      if unique == sn.unique
      then (inval, sn)
      else let (got, l) = ops.try sn.lock in
        if not got then (busy, record sn { lock = l }) else (
          ok,
          record sn {
            bytes = blit sn.bytes 0 (take sn.data_size bytes);
            unique = unique;
            lock = ops.release l;
          },
        )

  pub set : Option (Snapshot Lock) → Option Bytes → ℕ → Err × Option (Snapshot Lock)
  set none bytes unique = (inval, none)
  set (some sn) none unique = (inval, some sn)
  set (some sn) (some bytes) unique = let (e, sn') = set_data sn bytes unique in (e, some sn')

  -- `ek_snapshot_get` behind its tests for `NULL`; the bytes are the caller's buffer. Where there is
  -- no data the code returns with the lock taken.
  pub get_data : Snapshot Lock → Bytes → Err × Bytes × Snapshot Lock
  get_data sn out =
      let (got, l) = ops.try sn.lock in
      if not got
      then (busy, out, record sn { lock = l })
      else if sn.unique == 0
      then (nodata, out, record sn { lock = l })
      else (ok, blit out 0 (slice sn.bytes 0 sn.data_size), record sn { lock = ops.release l })

  pub get : Option (Snapshot Lock) → Option Bytes → Err × Option Bytes × Option (Snapshot Lock)
  get none out = (inval, out, none)
  get (some sn) none = (inval, none, some sn)
  get (some sn) (some out) = let (e, out', sn') = get_data sn out in (e, some out', some sn')

pub get_unique : {Lock : Type 0} → Option (Snapshot Lock) → ℕ
get_unique none = 0
get_unique (some sn) = sn.unique

-- ===== src/Snapshot/Laws.antt =====
-- What a snapshot gives back, what it refuses, and the lock that `ek_snapshot_get` keeps.
use ek_utils.Base.{
  ℕ, ◌≤◌, ◌≡◌, ◌≢◌, refl, sym, ap, ◌∙◌, arith, true, false, some, ◌==◌, length, take_all, Bytes,
  blit, slice, slice-blit_self,
}
use ek_utils.Err.{ok, busy, inval, nodata}
use ek_utils.Lock.{LockOps, IsLock, Excludes}
use ek_utils.Snapshot.{Snapshot, set_data, get_data, set, get_unique}

module _ {Lock : Type 0} (ops : LockOps Lock) where
  -- The lock can be taken.
  abbrev pub Free : Snapshot Lock → Type 0
  Free sn = (ops.try sn.lock).0 ≡ true

  -- With the lock free, `ek_snapshot_set` of data of the snapshot's size under a new id other than 0
  -- succeeds and frees the lock; `ek_snapshot_get` then gives back that data, `ek_snapshot_get_unique`
  -- that id, and the lock is free again.
  pub get-set :
      (sn : Snapshot Lock) (bytes out : Bytes) (unique : ℕ)
      → IsLock ops
      → Free sn
      → sn.data_size ≤ length sn.bytes
      → length bytes ≡ sn.data_size
      → unique ≢ sn.unique
      → unique ≢ 0
      → let (e, sn') = set_data ops sn bytes unique in
        let (e', out', sn'') = get_data ops sn' out in
        (e ≡ ok)
        × (e' ≡ ok)
        × (out' ≡ blit out 0 bytes)
        × (get_unique (some sn'') ≡ unique)
        × Free sn'
        × Free sn''
  unfolding set_data get_data get_unique
  get-set sn bytes out unique m free room size new some_data =
      let t1 : (unique == sn.unique) ≡ false = ground arith in
      let t2 : (unique == 0) ≡ false = ground arith in
      rw (t1, free, m.release_frees _, t2)
        (
          refl,
          refl,
          ap (blit out 0) (
              ap (λ b. slice (blit sn.bytes 0 b) 0 sn.data_size) (take_all sn.data_size bytes size)
              ∙ slice-blit_self sn.bytes 0 sn.data_size bytes (sym size) (omega arith)),
          refl,
          refl,
          m.release_frees _,
        )

  leaves_taken :
      (sn : Snapshot Lock) (out : Bytes)
      → Excludes ops
      → Free sn
      → sn.unique ≡ 0
      → let (e, _, sn') = get_data ops sn out in
        (e ≡ nodata) × ((ops.try sn'.lock).0 ≡ false) × (sn'.unique ≡ sn.unique)
  unfolding get_data
  leaves_taken sn out ex free no_data =
      let t : (sn.unique == 0) ≡ true = ground arith in rw (free, t) (refl, ex sn.lock free, refl)

  -- `ek_snapshot_set` under the id that the snapshot has already refuses and changes nothing.
  pub set_same_id :
      (sn : Snapshot Lock) (bytes : Bytes)
      → set ops (some sn) (some bytes) sn.unique ≡ (inval, some sn)
  unfolding set set_data
  set_same_id sn bytes = let t : (sn.unique == sn.unique) ≡ true = ground arith in rw t refl

  -- While the lock is held, setting under a new id and getting return `EK_ERR_BUSY` and change
  -- nothing.
  pub snapshot_busy_changes_nothing :
      (sn : Snapshot Lock) (bytes out : Bytes) (unique : ℕ)
      → IsLock ops
      → (ops.try sn.lock).0 ≡ false
      → unique ≢ sn.unique
      → (set_data ops sn bytes unique ≡ (busy, sn)) × (get_data ops sn out ≡ (busy, out, sn))
  unfolding set_data get_data
  snapshot_busy_changes_nothing sn bytes out unique m held new =
      let t : (unique == sn.unique) ≡ false = ground arith in
      rw (t, held, m.refused_same sn.lock held) (refl, refl)

  -- On a snapshot with no data whose lock is free and excludes, `ek_snapshot_get` returns
  -- `EK_ERR_NODATA` and leaves the lock taken. In the snapshot that it leaves, `ek_snapshot_set` under
  -- an id other than 0 and `ek_snapshot_get` return `EK_ERR_BUSY` and change nothing, so no call of
  -- theirs can ever fill it or free the lock.
  pub get_nodata_keeps_lock :
      (sn : Snapshot Lock) (out bytes out' : Bytes) (unique : ℕ)
      → IsLock ops
      → Excludes ops
      → Free sn
      → sn.unique ≡ 0
      → unique ≢ 0
      → let (e, _, sn') = get_data ops sn out in
        (e ≡ nodata)
        × (set_data ops sn' bytes unique ≡ (busy, sn'))
        × (get_data ops sn' out' ≡ (busy, out', sn'))
  get_nodata_keeps_lock sn out bytes out' unique m ex free no_data new =
      let (e, taken, same) = leaves_taken sn out ex free no_data in
      let (b, b') =
        snapshot_busy_changes_nothing (get_data ops sn out).2 bytes out' unique m taken
          (λ p. new (p ∙ same ∙ no_data)) in
      (e, b, b')

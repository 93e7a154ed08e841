-- ===== src/Snapshot/Tests.antt =====
-- The theorems about snapshots at concrete states.
use ek_utils.Base.{◌+◌, none, replicate, ◌≡◌, refl, arith, Bool, true, false, some, [], ◌∷◌, blit}
use ek_utils.Err.{inval, ok, busy, nodata}
use ek_utils.Lock.{mutex, mutex-IsLock, mutex-Excludes}
use ek_utils.Snapshot.{
  create, init_static, deinit_static, destroy, set, get, Snapshot, set_data, get_data, get_unique,
}
use ek_utils.Snapshot.Laws

abbrev no_data : Snapshot Bool
no_data = record { unique = 0; data_size = 2; lock = false; bytes = 0 ∷ 0 ∷ [] }

get-set_example :
    let (e, sn) = set_data mutex no_data (5 ∷ 6 ∷ []) 3 in
    let (e', out, sn') = get_data mutex sn (1 ∷ 1 ∷ []) in
    (e ≡ ok)
    × (e' ≡ ok)
    × (out ≡ blit (1 ∷ 1 ∷ []) 0 (5 ∷ 6 ∷ []))
    × (get_unique (some sn') ≡ 3)
    × Laws.Free mutex sn
    × Laws.Free mutex sn'
get-set_example =
    Laws.get-set mutex no_data (5 ∷ 6 ∷ []) (1 ∷ 1 ∷ []) 3 mutex-IsLock refl (omega arith) refl
      (omega arith) (omega arith)

get_nodata_keeps_lock_example :
    let (e, _, sn) = get_data mutex no_data (1 ∷ 1 ∷ []) in
    (e ≡ nodata)
    × (set_data mutex sn (5 ∷ 6 ∷ []) 3 ≡ (busy, sn))
    × (get_data mutex sn (2 ∷ 2 ∷ []) ≡ (busy, 2 ∷ 2 ∷ [], sn))
get_nodata_keeps_lock_example =
    Laws.get_nodata_keeps_lock mutex no_data (1 ∷ 1 ∷ []) (5 ∷ 6 ∷ []) (2 ∷ 2 ∷ []) 3 mutex-IsLock
      mutex-Excludes refl refl (omega arith)

busy_example :
    let held = record no_data { lock = true } in
    (set_data mutex held (5 ∷ 6 ∷ []) 3 ≡ (busy, held))
    × (get_data mutex held (2 ∷ 2 ∷ []) ≡ (busy, 2 ∷ 2 ∷ [], held))
busy_example =
    Laws.snapshot_busy_changes_nothing mutex (record no_data { lock = true }) (5 ∷ 6 ∷ [])
      (2 ∷ 2 ∷ []) 3 mutex-IsLock refl (omega arith)

-- `create` and `init_static` fill with zeros; `deinit_static` does so for the size that was set.
lifecycle :
    (create mutex (λ n. some (replicate n 9)) 2 true 2 ≡ some no_data)
    × (create mutex (λ n. none) 2 true 2 ≡ none)
    × (init_static mutex (some (record no_data { bytes = 3 ∷ 3 ∷ 3 ∷ [] })) 2
        ≡ (ok, some (record no_data { bytes = 0 ∷ 0 ∷ 3 ∷ [] })))
    × (deinit_static mutex (some (record no_data { bytes = 3 ∷ 3 ∷ [] }))
        ≡ some (record no_data { data_size = 0 }))
    × (destroy mutex (λ sn n. n + sn.data_size) (some no_data) 5 ≡ 7)
    × (set mutex none (some []) 1 ≡ (inval, none))
    × (get mutex (some no_data) none ≡ (inval, none, some no_data))
unfolding create init_static deinit_static destroy set get blit
lifecycle = (refl, refl, refl, refl, refl, refl, refl)

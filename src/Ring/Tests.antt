-- ===== src/Ring/Tests.antt =====
-- Small rings: runs, and the theorems about them at concrete states.
use ek_utils.Base.{
  ◌+◌, ℕ, ◌≡◌, ◌≤◌, refl, arith, Bool, true, false, Option, none, some, List, [], ◌∷◌, length,
  replicate, length-replicate, Bytes, blit, slice, copy_out, ap,
}
use mathlib.Core.Option.{some-injective}
use ek_utils.Err.{inval, ok, full, empty}
use ek_utils.Lock.{mutex, mutex-IsLock}
use ek_utils.Fifo
use ek_utils.Fifo.{Op, put, get, look}
use ek_utils.Ring.{
  init_static, deinit_static, destroy, Ring, fresh, write, read, peek, write_item, read_item,
  peek_item, is_full, is_empty, create,
}
use ek_utils.Ring.Bounds.{IsValid, write_item-IsValid, read_item-IsValid, ring_create-IsValid}
use ek_utils.Ring.Trace.{run, ring_refines_fifo}

-- Two slots of two bytes: the second is read next and holds an item, the first is written next.
abbrev two_slots : Ring Bool
two_slots = record {
  write_idx = 0;
  read_idx = 1;
  item_amount = 1;
  cap = 2;
  item_size = 2;
  lock = false;
  bytes = 9 ∷ 9 ∷ 5 ∷ 6 ∷ [];
}

two_slots-IsValid : IsValid two_slots
two_slots-IsValid = omega arith

abbrev script : List Op
script =
    put (1 ∷ 2 ∷ [])
    ∷ put (3 ∷ 4 ∷ [])
    ∷ look (0 ∷ 0 ∷ [])
    ∷ get none
    ∷ get (some (0 ∷ 0 ∷ []))
    ∷ get (some (7 ∷ 8 ∷ []))
    ∷ []

run_of_script :
    run mutex (some two_slots) script
    ≡ (ok, none)
      ∷ (full, none)
      ∷ (ok, some (5 ∷ 6 ∷ []))
      ∷ (ok, none)
      ∷ (ok, some (1 ∷ 2 ∷ []))
      ∷ (empty, some (7 ∷ 8 ∷ []))
      ∷ []
unfolding run write read peek write_item read_item peek_item is_full is_empty blit slice copy_out
run_of_script = refl

ring_refines_fifo_example :
    run mutex (some two_slots) script ≡ Fifo.run 2 ((5 ∷ 6 ∷ []) ∷ []) script
unfolding slice
ring_refines_fifo_example =
    ring_refines_fifo mutex 2 2 script mutex-IsLock
      (record { valid = two_slots-IsValid; free = refl; cap_same = refl; size_same = refl })
      (refl, (refl, tt))

write_item-IsValid_example : IsValid (write_item mutex two_slots (1 ∷ 2 ∷ [])).1
write_item-IsValid_example = write_item-IsValid mutex (1 ∷ 2 ∷ []) two_slots-IsValid

read_item-IsValid_example : IsValid (read_item mutex two_slots none).2
read_item-IsValid_example = read_item-IsValid mutex none two_slots-IsValid

-- An allocator that never fails.
abbrev zeros : ℕ → Option Bytes
zeros n = some (replicate n 0)

zeros_long : (n : ℕ) (b : Bytes) → zeros n ≡ some b → n ≤ length b
zeros_long n b e = omega (arith, length-replicate {A = ℕ} n 0, ap length (some-injective _ _ e))

ring_create-IsValid_example :
    let rb = fresh false (replicate 6 0) 2 3 in IsValid rb × (rb.item_amount ≡ 0) × (rb.cap ≡ 3)
unfolding create
ring_create-IsValid_example =
    ring_create-IsValid mutex zeros 24 true 2 3 zeros_long (omega arith) (omega arith) refl

-- `init_static` after `deinit_static`, `NULL`, and refused arguments; `destroy` hands the block on.
lifecycle :
    (init_static mutex none 2 2 ≡ (inval, none))
    × (init_static mutex (deinit_static mutex (some two_slots)) 0 2
        ≡ (inval, deinit_static mutex (some two_slots)))
    × (init_static mutex (deinit_static mutex (some two_slots)) 1 4
        ≡ (ok, some (fresh false (9 ∷ 9 ∷ 5 ∷ 6 ∷ []) 1 4)))
    × (destroy mutex (λ rb n. n + rb.cap) (some two_slots) 5 ≡ 7)
unfolding init_static deinit_static destroy
lifecycle = (refl, refl, refl, refl)

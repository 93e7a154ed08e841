-- ===== src/Spsc/Tests.antt =====
-- Small SPSC rings: runs, and the theorems about them at concrete states.
use ek_utils.Base.{
  ◌+◌, false, ◌≡◌, ◌<◌, refl, arith, none, some, List, [], ◌∷◌, ◌++◌, length, blit, slice, copy_out,
}
use ek_utils.Err.{inval, ok, full, empty}
use ek_utils.Fifo
use ek_utils.Fifo.{Op, put, get, look}
use ek_utils.Spsc.{
  fresh, is_full, is_empty, init_static, deinit_static, destroy, Spsc, write, read, peek,
  write_item, read_item, next_idx,
}
use ek_utils.Spsc.Bounds.{IsValid, write_item-IsValid, read_item-IsValid}
use ek_utils.Spsc.Refine.{contents, run, spsc_refines_fifo}
use ek_utils.Spsc.Interleave
use ek_utils.Spsc.Interleave.{
  System, Producer, Consumer, produce, consume, step, Turn, producer_turn, consumer_turn,
}
use ek_utils.Spsc.Interleave.Order.{start, run_in_order}

-- Three slots of one byte, with one item in the last slot.
abbrev three_slots : Spsc
three_slots = record { write_idx = 0; read_idx = 2; cap = 3; item_size = 1; bytes = 0 ∷ 0 ∷ 7 ∷ [] }

three_slots-IsValid : IsValid three_slots
three_slots-IsValid = omega arith

abbrev script : List Op
script =
    put (1 ∷ []) ∷ put (2 ∷ []) ∷ look (0 ∷ []) ∷ get (some (0 ∷ [])) ∷ get none ∷ get none ∷ []

run_of_script :
    run (some three_slots) script
    ≡ (ok, none)
      ∷ (full, none)
      ∷ (ok, some (7 ∷ []))
      ∷ (ok, some (7 ∷ []))
      ∷ (ok, none)
      ∷ (empty, none)
      ∷ []
unfolding run write read peek write_item read_item next_idx blit slice copy_out
run_of_script = refl

spsc_refines_fifo_example : run (some three_slots) script ≡ Fifo.run 2 ((7 ∷ []) ∷ []) script
unfolding slice
spsc_refines_fifo_example =
    spsc_refines_fifo 3 1 script three_slots-IsValid refl refl (refl, (refl, tt))

write_item-IsValid_example : IsValid (write_item three_slots (1 ∷ [])).1
write_item-IsValid_example = write_item-IsValid (1 ∷ []) three_slots-IsValid

read_item-IsValid_example : IsValid (read_item three_slots none).2
read_item-IsValid_example = read_item-IsValid none three_slots-IsValid

-- The consumer copies its item while the producer is between its copy and its store.
abbrev turns : List Turn
turns =
    producer_turn (1 ∷ [])
    ∷ consumer_turn
    ∷ producer_turn (2 ∷ [])
    ∷ consumer_turn
    ∷ producer_turn (3 ∷ [])
    ∷ consumer_turn
    ∷ consumer_turn
    ∷ []

turns_received : (Interleave.run turns (start three_slots)).received ≡ (7 ∷ []) ∷ []
unfolding Interleave.run step produce consume next_idx blit slice
turns_received = refl

run_in_order_example :
    let s = Interleave.run turns (start three_slots) in
    (s.sent ≡ s.received ++ contents s.rb) × IsValid s.rb × (length (contents s.rb) < s.rb.cap)
run_in_order_example = run_in_order turns three_slots-IsValid (refl, (refl, (refl, tt)))

-- `init_static` after `deinit_static`, `NULL`, and refused arguments; `destroy` hands the block on.
lifecycle :
    (init_static none 2 2 ≡ (inval, none))
    × (init_static (deinit_static (some three_slots)) 1 1
        ≡ (inval, deinit_static (some three_slots)))
    × (init_static (deinit_static (some three_slots)) 1 3 ≡ (ok, some (fresh (0 ∷ 0 ∷ 7 ∷ []) 1 3)))
    × (destroy (λ rb n. n + rb.cap) (some three_slots) 5 ≡ 8)
    × (is_full (some three_slots) ≡ false)
    × (is_empty (some three_slots) ≡ false)
    × (is_full none ≡ false)
    × (is_empty none ≡ false)
unfolding init_static deinit_static destroy is_full is_empty next_idx
lifecycle = (refl, refl, refl, refl, refl, refl, refl, refl)

-- ===== src/Stack/Tests.antt =====
-- Small stacks: runs, and the theorems about them at concrete states.
use mathlib.Core.Option.{some-injective}
use ek_utils.Base.{
  ◌+◌, ℕ, ◌≡◌, ◌≤◌, refl, ap, arith, Bool, false, Option, none, some, List, [], ◌∷◌, length,
  replicate, length-replicate, Bytes, blit, slice,
}
use ek_utils.Err.{inval, ok, full, empty}
use ek_utils.Lock.{mutex, mutex-IsLock}
use ek_utils.Lifo
use ek_utils.Lifo.{Op, put, pull}
use ek_utils.Stack.{
  init_static, deinit_static, destroy, Stack, fresh, push, pop, push_item, pop_item, is_full,
  is_empty,
}
use ek_utils.Stack.Bounds.{IsValid, push_item-IsValid, pop_item-IsValid}
use ek_utils.Stack.Trace.{run, stack_refines_lifo}

abbrev two_slots : Stack Bool
two_slots = record { sp = 1; item_size = 2; cap = 2; lock = false; bytes = 5 ∷ 6 ∷ 0 ∷ 0 ∷ [] }

two_slots-IsValid : IsValid two_slots
two_slots-IsValid = omega arith

abbrev script : List Op
script =
    put (1 ∷ 2 ∷ [])
    ∷ put (3 ∷ 4 ∷ [])
    ∷ pull (0 ∷ 0 ∷ [])
    ∷ pull (0 ∷ 0 ∷ [])
    ∷ pull (0 ∷ 0 ∷ [])
    ∷ []

run_of_script :
    run mutex (some two_slots) script
    ≡ (ok, none)
      ∷ (full, none)
      ∷ (ok, some (1 ∷ 2 ∷ []))
      ∷ (ok, some (5 ∷ 6 ∷ []))
      ∷ (empty, some (0 ∷ 0 ∷ []))
      ∷ []
unfolding run push pop push_item pop_item is_full is_empty blit slice
run_of_script = refl

stack_refines_lifo_example :
    run mutex (some two_slots) script ≡ Lifo.run 2 ((5 ∷ 6 ∷ []) ∷ []) script
unfolding slice
stack_refines_lifo_example =
    stack_refines_lifo mutex 2 2 script mutex-IsLock
      (record { valid = two_slots-IsValid; free = refl; cap_same = refl; size_same = refl })
      (refl, (refl, tt))

push_item-IsValid_example : IsValid (push_item mutex two_slots (1 ∷ 2 ∷ [])).1
push_item-IsValid_example = push_item-IsValid mutex (1 ∷ 2 ∷ []) two_slots-IsValid

pop_item-IsValid_example : IsValid (pop_item mutex two_slots (1 ∷ 2 ∷ [])).2
pop_item-IsValid_example = pop_item-IsValid mutex (1 ∷ 2 ∷ []) two_slots-IsValid

-- An allocator that never fails.
abbrev zeros : ℕ → Option Bytes
zeros n = some (replicate n 0)

zeros_long : (n : ℕ) (b : Bytes) → zeros n ≡ some b → n ≤ length b
zeros_long n b e = omega (arith, length-replicate {A = ℕ} n 0, ap length (some-injective _ _ e))

-- `init_static` after `deinit_static`, `NULL`, and refused arguments; `destroy` hands the block on.
lifecycle :
    (init_static mutex none 2 2 ≡ (inval, none))
    × (init_static mutex (deinit_static mutex (some two_slots)) 0 2
        ≡ (inval, deinit_static mutex (some two_slots)))
    × (init_static mutex (deinit_static mutex (some two_slots)) 1 4
        ≡ (ok, some (fresh false (5 ∷ 6 ∷ 0 ∷ 0 ∷ []) 1 4)))
    × (destroy mutex (λ sk n. n + sk.cap) (some two_slots) 5 ≡ 7)
unfolding init_static deinit_static destroy
lifecycle = (refl, refl, refl, refl)

-- ===== src/Pt/StaticsTests.antt =====
-- Static threads made at start-up.
use ek_utils.Base.{ℕ, zero, suc, ◌≡◌, refl, arith, true, some, [], ◌∷◌}
use ek_utils.Err.{ok, inval}
use ek_utils.Startup.StaticAlloc.{init_items}
use ek_utils.Ring
use ek_utils.Pt.Sem.{sem_init}
use ek_utils.Pt.Msg.{msg_init_static}
use ek_utils.Pt.Kernel.{Kernel}
use ek_utils.Pt.Threads.{init}
use ek_utils.Pt.Kept.{IsKept}
use ek_utils.Pt.Reached.{nobody, init-IsKept}
use ek_utils.Pt.Statics.{
  Static, thread, semaphore, queue, entry, init_object, with_all, static_threads-IsKept,
}
use ek_utils.Pt.Tests.{boot}
use ek_utils.Pt.ReachedTests.{boot-IsFresh}

-- The objects of a program: two threads, a semaphore, and a message queue of no items.
abbrev objects : ℕ → Static
objects zero = thread 1 true 5
objects (suc zero) = thread 2 true 9
objects (suc (suc zero)) = semaphore 0 3
objects (suc (suc (suc f))) = queue 0 4 0

static_threads-IsKept_example :
    (k' : Kernel) × (init_items
        (λ f. init_object (objects f))
        (entry 0 ∷ entry 1 ∷ [])
        ok
        (some (init boot))
      ≡ (ok, some k'))
    × IsKept
        (with_all objects nobody ((0, 1, 5) ∷ (1, 2, 9) ∷ []))
        (with_all objects nobody ((0, 1, 5) ∷ (1, 2, 9) ∷ []))
        k'
static_threads-IsKept_example =
    static_threads-IsKept objects nobody ((0, 1, 5) ∷ (1, 2, 9) ∷ []) (init boot)
      (init-IsKept boot boot-IsFresh) (refl, refl, ground arith, (refl, refl, ground arith, tt))

-- The queue of no items is refused, and the error is kept.
queue_refused :
    (init_items (λ f. init_object (objects f)) (entry 2 ∷ entry 3 ∷ []) ok (some boot)).0 ≡ inval
unfolding init_items sem_init msg_init_static Ring.init_static
queue_refused = refl

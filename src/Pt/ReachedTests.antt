-- ===== src/Pt/ReachedTests.antt =====
-- Concrete instances of what calls and rounds of the scheduler of microthreads keep.
use ek_utils.Base.{
  ℕ, ◌≡◌, refl, arith, Bool, true, false, not, Option, none, is_some, some, update, ◌>>=◌,
  bind_some,
}
use ek_utils.Pt.Kernel.{Kernel}
use ek_utils.Pt.Queues.{
  event_linked, ready_enqueue, ready_dequeue, remove_state_node, block_insert, insert_by_time,
  insert_by_prio, next_ready, ctz, head_of, remove_from_sem,
}
use ek_utils.Pt.Threads.{init, create, is_cur, block, suspend, resume, leave_queue}
use ek_utils.Pt.Schedule.{schedule, wake_due, dispatch, after_callback, wake_time, idle_until}
use ek_utils.Pt.Sem.{sem_take, sem_wait, sem_give, sem_give_to, sem_release}
use ek_utils.Pt.Macros.{sem_take_enter}
use ek_utils.Pt.Kept.{IsKept}
use ek_utils.Pt.Api.{creates, blocks, gives, suspends, resumes, run, run-IsKept}
use ek_utils.Pt.Rounds.{Friendly, schedule-IsKept}
use ek_utils.Pt.Leave.{sem_take_enter-IsLeft}
use ek_utils.Pt.Reached.{IsFresh, nobody, reached-IsKept, Reached, started, called, reached_goes_on}
use ek_utils.Pt.Tests.{boot}

pub boot-IsFresh : IsFresh boot
boot-IsFresh = record {
  off = refl;
  beyond = λ p h. refl;
  no_sem = λ s. refl;
  no_recv = λ m. refl;
  no_send = λ m. refl;
}

-- Every thread takes the semaphore 0, and waits for it at most ten ticks.
abbrev takes_it : ℕ → Kernel → Option Kernel
takes_it i k = do (r, k) ← sem_take_enter (some 0) 10 k; some k

takes_it-Friendly : (live : ℕ → Bool) → Friendly live takes_it
takes_it-Friendly live i k l is c s w =
    let (r, k', e, left) = sem_take_enter-IsLeft live i k l 0 10 is c s w in
    (k', bind_some _ (r, k') _ _ e refl, left)

-- Thread 1, made at the priority 5.
abbrev kernel_of : Option Kernel → Kernel
kernel_of none = boot
kernel_of (some k) = k

abbrev one_thread : Kernel
one_thread = kernel_of (run (creates 1 5) (init boot))

abbrev only_one : ℕ → Bool
only_one = update nobody 1 true

made : run (creates 1 5) (init boot) ≡ some one_thread
unfolding run create init ready_enqueue event_linked
made = refl

one_reached : Reached takes_it only_one one_thread
one_reached =
    called nobody (init boot) (creates 1 5) one_thread (started boot boot-IsFresh)
      (refl, ground arith) made

one-IsKept : IsKept only_one only_one one_thread
one-IsKept = reached-IsKept takes_it only_one one_thread one_reached

nobody_runs : true ≡ not (is_cur 1 one_thread)
unfolding run create init ready_enqueue event_linked
nobody_runs = refl

run-IsKept_example :
    (k' : Kernel) × (run (blocks 1 7) one_thread ≡ some k')
    × IsKept only_one only_one k'
    × (k'.cur ≡ one_thread.cur)
run-IsKept_example =
    run-IsKept only_one only_one (blocks 1 7) one_thread one-IsKept (nobody_runs, refl)

schedule-IsKept_example :
    (tick : ℕ) × (k' : Kernel) × (schedule takes_it 100 one_thread ≡ some (tick, k'))
    × IsKept only_one only_one k'
schedule-IsKept_example =
    schedule-IsKept only_one takes_it (takes_it-Friendly only_one) 100 one_thread one-IsKept

reached_goes_on_example :
    IsKept only_one only_one one_thread
    × ((k' : Kernel) × (run (blocks 1 7) one_thread ≡ some k'))
    × ((tick : ℕ) × (k' : Kernel) × (schedule takes_it 100 one_thread ≡ some (tick, k')))
reached_goes_on_example =
    reached_goes_on takes_it only_one one_thread (blocks 1 7) 100 one_reached (nobody_runs, refl)
      (takes_it-Friendly only_one)

-- A thread that waits for the semaphore and is suspended by another: the semaphore cannot be given.
abbrev suspended_waiter : Option Bool
suspended_waiter = do
  k ← run (creates 2 6) one_thread
  (_, k) ← schedule takes_it 0 k
  k ← run (suspends (some 1)) (record k { cur = some 2 })
  some (is_some (run (gives 0) k))

suspended_waiter_breaks : suspended_waiter ≡ some false
unfolding run create init ready_enqueue event_linked schedule wake_due dispatch after_callback
    sem_take_enter sem_take sem_wait block block_insert insert_by_time insert_by_prio ready_dequeue
    remove_state_node next_ready ctz head_of wake_time idle_until suspend leave_queue sem_give
    sem_give_to sem_release remove_from_sem
suspended_waiter_breaks = refl

-- Thread 1 ran last and is ready; suspended and resumed between two rounds, it is linked twice.
abbrev stale_current : Option Bool
stale_current = do
  (_, k) ← schedule (λ i k. some k) 0 one_thread
  k ← run (suspends (some 1)) k
  some (is_some (run (resumes 1) k))

stale_current_breaks : stale_current ≡ some false
unfolding run create init ready_enqueue event_linked schedule wake_due dispatch after_callback
    ready_dequeue remove_state_node next_ready ctz head_of wake_time idle_until suspend resume
stale_current_breaks = refl

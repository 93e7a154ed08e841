-- ===== src/Pt/Token.antt =====
-- src/ek_picothread.c and inc/ek_picothread.h: what a semaphore gives to the threads that wait.
use ek_utils.Base.{
  refl_eq, ℕ, ◌<◌, ◌≡◌, refl, ◌∙◌, arith, true, false, some, List, ◌∷◌, ◌∈◌, ◌∉◌, erase,
}
use ek_utils.Err.{ok}
use ek_utils.Pt.Kernel.{Kernel, levels, blocked}
use ek_utils.Pt.Queues.{
  event_linked, remove_state_node, remove_from_sem, ready_enqueue, insert_by_prio,
}
use ek_utils.Pt.Threads.{block, wake_tick}
use ek_utils.Pt.Sem.{sem_take, sem_give, sem_give_to, sem_release, sem_wait}
use ek_utils.Pt.Macros.{yielded, sem_take_return}
use ek_utils.Pt.Order.{has-insert_by_prio}
use ek_utils.Pt.ReadyQueue.{IsReady, ready_queue, joined-enqueue}

-- When the bit mask agrees with the ready lists, each ready thread stands in the list of its
-- priority, and the first thread that waits for a semaphore, of a priority below 32, is once in the
-- block list and not in its ready list: `ek_pt_sem_give` succeeds, takes that thread out of the list
-- of those that wait and out of the block list, tells it `EK_OK`, puts it into the ready queue by its
-- priority, and leaves the count as it is.
pub sem_give-waiting :
    (s i : ℕ) (rest : List ℕ) (k : Kernel)
    → IsReady k
    → (k.sem s).wait_list ≡ i ∷ rest
    → (k.thread i).prio < levels
    → i ∉ k.ready_list (k.thread i).prio
    → i ∈ k.block_list
    → i ∉ erase i k.block_list
    → (k' : Kernel) × (sem_give (some s) k ≡ some k')
      × ((k'.sem s).wait_list ≡ rest)
      × ((k'.sem s).count ≡ (k.sem s).count)
      × ((k'.thread i).wait_result ≡ ok)
      × (k'.block_list ≡ erase i k.block_list)
      × (ready_queue k' ≡ insert_by_prio k.thread i (ready_queue k))
unfolding sem_give sem_give_to sem_release remove_from_sem remove_state_node ready_enqueue
sem_give-waiting s i rest k is w lt out asleep once =
    rw (w, w, refl_eq i, out, asleep, out, once)
      (
        _,
        refl,
        rw (refl_eq s) refl,
        rw (refl_eq s) refl,
        rw (refl_eq i) refl,
        refl,
        joined-enqueue k.thread i levels 0 k.ready_list is.home (omega arith) lt,
      )

-- A running thread that returns from its wait in `EK_PT_SEM_TAKE` with the result `EK_OK`, at a
-- count of 0 and in no list of waiting threads, does not leave the macro: it waits again for the
-- semaphore, blocked until the wake tick of the time-out given.
pub sem_take_return-waits :
    (s i tick : ℕ) (k : Kernel)
    → k.inited ≡ true
    → k.cur ≡ some i
    → (k.thread i).wait_result ≡ ok
    → (k.sem s).count ≡ 0
    → event_linked i k ≡ false
    → (k' : Kernel) × (sem_take_return (some s) tick k ≡ some (yielded, k'))
      × (i ∈ (k'.sem s).wait_list)
      × ((k'.thread i).state ≡ blocked)
      × ((k'.thread i).tick ≡ wake_tick k.now tick)
unfolding sem_take_return sem_take sem_wait block event_linked
sem_take_return-waits s i tick k on c won none_left free =
    rw (c, won, none_left, free, on, refl_eq i)
      (
        _,
        refl,
        rw (refl_eq s) (has-insert_by_prio _ i i (k.sem s).wait_list ∙ rw (refl_eq i) refl),
        rw (refl_eq i) refl,
        rw (refl_eq i) refl,
      )

-- ===== src/Pt/Examples.antt =====
-- Concrete instances of what is proved of the scheduler of microthreads.
use ek_utils.Base.{
  ℕ, ◌+◌, ◌≡◌, refl, arith, true, false, some, [], ◌∷◌, ◌==◌, update, inl, inr, Bool-cases, ◌∈◌,
}
use ek_utils.Err.{ok}
use ek_utils.Pt.Kernel.{blocked, Thread, Kernel}
use ek_utils.Pt.Queues.{ready_enqueue, ready_dequeue, insert_by_prio, next_ready, event_linked}
use ek_utils.Pt.Threads.{new_thread}
use ek_utils.Pt.Sem.{sem_give}
use ek_utils.Pt.Macros.{yielded, sem_take_return}
use ek_utils.Pt.Order.{more_urgent, insert_by_prio-Sorted}
use ek_utils.Sorting.{Sorted}
use ek_utils.Pt.ReadyQueue.{IsReady, ready_queue, next_ready_lem}
use ek_utils.Pt.Refine.{ready_enqueue_refines, ready_dequeue_refines}
use ek_utils.Pt.Tests.{boot}
use ek_utils.Pt.Token.{sem_give-waiting, sem_take_return-waits}

-- Thread `i` has the priority `i` and sleeps until the tick `10 + i`.
abbrev sleeper : ℕ → Thread
sleeper i = let t = new_thread i in record t { prio = i; tick = 10 + i }

two_in_prio : Sorted (more_urgent sleeper) (1 ∷ 4 ∷ [])
two_in_prio = ((λ c m. ground (arith, m)), ((λ c m. ground (arith, m)), tt))

insert_by_prio-Sorted_example : Sorted (more_urgent sleeper) (insert_by_prio sleeper 0 (1 ∷ 4 ∷ []))
insert_by_prio-Sorted_example = insert_by_prio-Sorted sleeper 0 (1 ∷ 4 ∷ []) two_in_prio

-- Thread 7 is ready at the priority 3, as all the other threads would be.
abbrev one_ready : Kernel
one_ready = record boot {
  thread = λ i. new_thread 3;
  ready_list = update (λ p. []) 3 (7 ∷ []);
  mask = update (λ p. false) 3 true;
}

one_ready-IsReady : IsReady one_ready
one_ready-IsReady = record {
  masked = λ p. elim (Bool-cases (p == 3)) [ inl e ↦ rw e refl | inr e ↦ rw e refl ];
  home = λ p c m. ground (arith, m);
}

next_ready_lem_example : next_ready one_ready ≡ some (some 7)
next_ready_lem_example = next_ready_lem one_ready one_ready-IsReady

ready_enqueue_refines_example :
    (k' : Kernel) × (ready_enqueue 8 one_ready ≡ some k')
    × IsReady k'
    × (ready_queue k' ≡ insert_by_prio one_ready.thread 8 (ready_queue one_ready))
ready_enqueue_refines_example =
    ready_enqueue_refines 8 one_ready one_ready-IsReady (ground arith) refl

ready_dequeue_refines_example :
    (k' : Kernel) × (ready_dequeue 7 one_ready ≡ some k') × IsReady k' × (ready_queue k' ≡ [])
ready_dequeue_refines_example =
    ready_dequeue_refines 7 one_ready one_ready-IsReady (ground arith) refl

-- Thread 9 waits for the semaphore 0.
abbrev one_waits : Kernel
one_waits = record one_ready {
  inited = true;
  sem = λ s. record { count = 0; wait_list = 9 ∷ [] };
  block_list = 9 ∷ [];
}

one_waits-IsReady : IsReady one_waits
one_waits-IsReady = record { masked = one_ready-IsReady.masked; home = one_ready-IsReady.home }

sem_give-waiting_example :
    (k' : Kernel) × (sem_give (some 0) one_waits ≡ some k')
    × ((k'.sem 0).wait_list ≡ [])
    × ((k'.sem 0).count ≡ 0)
    × ((k'.thread 9).wait_result ≡ ok)
    × (k'.block_list ≡ [])
    × (ready_queue k' ≡ insert_by_prio one_waits.thread 9 (7 ∷ []))
sem_give-waiting_example =
    sem_give-waiting 0 9 [] one_waits one_waits-IsReady refl (ground arith) refl refl refl

sem_take_return-waits_example :
    (k' : Kernel) × (sem_take_return (some 0) 50 (record one_ready { inited = true; cur = some 7 })
      ≡ some (yielded, k'))
    × (7 ∈ (k'.sem 0).wait_list)
    × ((k'.thread 7).state ≡ blocked)
    × ((k'.thread 7).tick ≡ 50)
unfolding event_linked
sem_take_return-waits_example =
    sem_take_return-waits 0 7 50 (record one_ready { inited = true; cur = some 7 }) refl refl refl
      refl refl

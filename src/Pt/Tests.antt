-- ===== src/Pt/Tests.antt =====
-- Runs of the scheduler of microthreads.
use ek_utils.Base.{
  ℕ, ◌≡◌, refl, true, false, Option, none, some, List, [], ◌∷◌, ◌==◌, ◌>>=◌, if◌then◌else◌,
}
use ek_utils.Err.{Err, aborted, timeout}
use ek_utils.Ring.{fresh}
use ek_utils.Pt.Kernel.{State, ready, Kernel}
use ek_utils.Pt.Queues.{
  set_thread, remove_state_node, ready_enqueue, ready_dequeue, insert_by_prio, insert_by_time,
  block_insert, ctz, head_of, next_ready, event_linked, remove_from_sem,
}
use ek_utils.Pt.Threads.{
  new_thread, init, create, leave_queue, leave_sem, leave_msg, detach, destroy, block, suspend,
  resume, active,
}
use ek_utils.Pt.Schedule.{wake, wake_due, after_callback, dispatch, idle_until, wake_time, schedule}
use ek_utils.Pt.Sem.{
  sem_init, sem_release, sem_release_all, sem_deinit_static, sem_wait, sem_take, sem_give_to,
  sem_give,
}
use ek_utils.Pt.Macros.{sem_take_enter, sem_take_return}

-- The memory before anything ran.
abbrev pub boot : Kernel
boot = record {
  inited = false;
  thread = λ i. new_thread 0;
  sem = λ s. record { count = 0; wait_list = [] };
  msg = λ m. record { recv_wait = []; send_wait = []; rb = fresh tt [] 1 1 };
  ready_list = λ p. [];
  mask = λ p. false;
  block_list = [];
  cur = none;
  next = none;
  now = 0;
}

-- Threads 1 and 2, at the priorities 2 and 5, and the semaphore 0 with a count of 0.
abbrev pub two_threads : Option Kernel
two_threads = do
  (_, k) ← create (some 1) true 2 (init boot)
  (_, k) ← create (some 2) true 5 k
  some ((sem_init (some 0) 0 k).1)

-- Thread 1 takes the semaphore, thread 2 gives it.
abbrev takes_or_gives : ℕ → Kernel → Option Kernel
takes_or_gives i k =
    let first = (do (_, k) ← sem_take_enter (some 0) 100 k; some k) in
    let back = (do (_, k) ← sem_take_return (some 0) 100 k; some k) in
    let t = k.thread i in
    let give = sem_give (some 0) k in
    let take = if t.line == 0 then first else back in
    if i == 1
    then (do k ← take; let t = k.thread i; some (set_thread i (record t { line = 1 }) k))
    else give

-- What a round leaves: the tick to sleep to, who ran, the block list, those that wait, the count.
abbrev Report : Type 0
Report = Option (ℕ × Option ℕ × List ℕ × List ℕ × ℕ)

abbrev report : Option (ℕ × Kernel) → Report
report r = do (t, k) ← r; some (t, k.next, k.block_list, (k.sem 0).wait_list, (k.sem 0).count)

abbrev round : ℕ → Option Kernel → Option (ℕ × Kernel)
round now k = k >>= schedule takes_or_gives now

abbrev behind : Option (ℕ × Kernel) → Option Kernel
behind r = do (_, k) ← r; some k

-- Thread 1 finds no token and waits.
taken : report (round 10 two_threads) ≡ some (10, some 1, 1 ∷ [], 1 ∷ [], 0)
unfolding schedule sem_take_enter wake_due next_ready dispatch wake_time ready_enqueue ready_dequeue
    remove_state_node sem_take sem_wait block create init sem_init ctz head_of block_insert
    insert_by_time insert_by_prio after_callback event_linked
taken = refl

-- Thread 2 gives; thread 1 comes back, finds the count at 0 and waits again: the token is lost.
given :
    report (round 30 (behind (round 20 (behind (round 10 two_threads)))))
    ≡ some (30, some 1, 1 ∷ [], 1 ∷ [], 0)
unfolding schedule sem_take_enter sem_take_return wake_due next_ready dispatch wake_time
    ready_enqueue ready_dequeue remove_state_node sem_take sem_wait block create init sem_init ctz
    head_of block_insert insert_by_time insert_by_prio after_callback event_linked sem_give
    sem_give_to sem_release remove_from_sem
given = refl

-- A time-out, an abort, a thread that suspends another, a thread that ends.
abbrev waits_only : ℕ → Kernel → Option Kernel
waits_only i k =
    let take = (do (_, k) ← sem_take_enter (some 0) 5 k; some k) in if i == 1 then take else some k

abbrev result_of : ℕ → Option (ℕ × Kernel) → Option (Err × State × Option ℕ)
result_of i r = do (_, k) ← r; let t = k.thread i; some (t.wait_result, t.state, t.wait_sem)

abbrev waiting_round : Option (ℕ × Kernel)
waiting_round = two_threads >>= schedule waits_only 10

timed_out :
    result_of 1 (behind waiting_round >>= schedule (λ i k. some k) 15) ≡ some (timeout, ready, none)
unfolding schedule sem_take_enter wake_due wake next_ready dispatch wake_time ready_enqueue
    ready_dequeue leave_sem leave_msg remove_state_node sem_take sem_wait block create init sem_init
    ctz head_of block_insert insert_by_time insert_by_prio after_callback event_linked
    remove_from_sem idle_until
timed_out = refl

abbrev abort_all : Option Kernel → Option (ℕ × Kernel)
abort_all k = do k ← k; k ← sem_deinit_static (some 0) k; some (0, k)

aborted_all : result_of 1 (abort_all (behind waiting_round)) ≡ some (aborted, ready, none)
unfolding schedule sem_take_enter wake_due wake next_ready dispatch wake_time ready_enqueue
    ready_dequeue leave_sem leave_msg remove_state_node sem_take sem_wait block create init sem_init
    ctz head_of block_insert sem_release sem_release_all sem_deinit_static insert_by_time
    insert_by_prio after_callback event_linked remove_from_sem
aborted_all = refl

abbrev end_both : Option Kernel → Option (Option ℕ × List ℕ × List ℕ × List ℕ)
end_both k = do
  k ← k
  (_, k) ← suspend (some 2) k
  k ← resume (some 2) k
  k ← destroy (some 2) k
  k ← destroy (some 1) (record k { cur = none })
  some (active k, k.ready_list 5, k.block_list, (k.sem 0).wait_list)

ended : end_both (behind waiting_round) ≡ some (none, [], [], [])
unfolding schedule sem_take_enter wake_due wake next_ready dispatch wake_time ready_enqueue
    ready_dequeue leave_sem leave_msg remove_state_node sem_take sem_wait block create init sem_init
    ctz head_of block_insert destroy detach leave_queue insert_by_time insert_by_prio after_callback
    event_linked remove_from_sem suspend resume active
ended = refl

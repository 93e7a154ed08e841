-- ===== src/Pt/Sem.antt =====
-- src/ek_picothread.c: semaphores of microthreads.
use ek_utils.Base.{
  ℕ, ◌+◌, ◌-◌, ◌%◌, ◌^◌, Bool, true, false, Option, none, some, List, [], ◌∷◌, ◌==◌, if◌then◌else◌,
  update, ◌>>=◌,
}
use ek_utils.Err.{Err, ok, inval, aborted}
use ek_utils.Pt.Kernel.{ready, Kernel}
use ek_utils.Pt.Queues.{
  set_thread, set_state, remove_state_node, ready_enqueue, insert_by_prio, event_linked,
  remove_from_sem,
}

-- `ek_pt_sem_init_static`, and what `ek_pt_sem_create` makes of a block.
unfoldable pub sem_init : Option ℕ → ℕ → Kernel → Err × Kernel
sem_init none count k = (inval, k)
sem_init (some s) count k =
    (ok, record k { sem = update k.sem s (record { count = count; wait_list = [] }) })

-- `fresh` is what `ek_malloc` returns.
unfoldable pub sem_create : Option ℕ → ℕ → Kernel → Option ℕ × Kernel
sem_create none count k = (none, k)
sem_create (some s) count k = (some s, (sem_init (some s) count k).1)

-- Makes a waiting thread ready, with a result.
unfoldable pub sem_release : ℕ → Err → ℕ → Kernel → Option Kernel
sem_release s e i k = do
  k ← remove_from_sem i s k
  k ← remove_state_node i k
  let t = k.thread i
  k ← ready_enqueue i (set_thread i (record t { wait_sem = none; wait_result = e }) k)
  some (set_state i ready k)

-- The loop of `ek_pt_sem_deinit_static` and `ek_pt_sem_destroy` over the waiting threads.
unfoldable pub sem_release_all : ℕ → List ℕ → Kernel → Option Kernel
sem_release_all s [] k = some k
sem_release_all s (i ∷ rest) k = do k ← sem_release s aborted i k; sem_release_all s rest k

unfoldable pub sem_deinit_static : Option ℕ → Kernel → Option Kernel
sem_deinit_static none k = some k
sem_deinit_static (some s) k = sem_release_all s (k.sem s).wait_list k

-- `ek_free` gives the block of the semaphore back.
unfoldable pub sem_destroy : Option ℕ → Kernel → Option Kernel
sem_destroy none k = some k
sem_destroy (some s) k = sem_release_all s (k.sem s).wait_list k

-- Puts the current thread among those that wait.
unfoldable pub sem_wait : ℕ → ℕ → Kernel → Option Kernel
sem_wait s i k =
    if event_linked i k
    then none
    else let q = k.sem s in
      let t = k.thread i in
      let k = set_thread i (record t { wait_sem = some s }) k in
      some (record k {
        sem = update k.sem s (record q { wait_list = insert_by_prio k.thread i q.wait_list });
      })

unfoldable pub sem_take : Option ℕ → Kernel → Option (Bool × Kernel)
sem_take none k = some (false, k)
sem_take (some s) k = elim k.cur [
  | none ↦ none
  | some i ↦
      let q = k.sem s in
      let wait = (do k ← sem_wait s i k; some (false, k)) in
      if q.count == 0
      then wait
      else some (true, record k { sem = update k.sem s (record q { count = q.count - 1 }) })
]

-- `give` on the list of waiting threads; `count` is a `uint8_t`.
unfoldable pub sem_give_to : ℕ → List ℕ → Kernel → Option Kernel
sem_give_to s [] k =
    let q = k.sem s in
    some (record k { sem = update k.sem s (record q { count = (q.count + 1) % 2 ^ 8 }) })
sem_give_to s (i ∷ rest) k = sem_release s ok i k

unfoldable pub sem_give : Option ℕ → Kernel → Option Kernel
sem_give none k = some k
sem_give (some s) k = sem_give_to s (k.sem s).wait_list k

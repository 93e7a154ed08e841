-- ===== src/Pt/Schedule.antt =====
-- src/ek_picothread.c: `ek_pt_schedule`, one round of the scheduler.
use ek_utils.Base.{ℕ, not, Option, none, some, List, [], ◌∷◌, ltb, if◌then◌else◌, ◌>>=◌}
use ek_utils.Err.{timeout}
use ek_utils.Pt.Kernel.{State, ready, suspended, blocked, running, Kernel, levels}
use ek_utils.Pt.Queues.{
  set_state, remove_state_node, ready_enqueue, ready_dequeue, block_insert, ctz, next_ready,
}
use ek_utils.Pt.Threads.{leave_sem, leave_msg}

-- What the loop does with one thread whose tick has come.
unfoldable pub wake : ℕ → Kernel → Option Kernel
wake i k = do
  k ← remove_state_node i k
  let k = set_state i ready k
  k ← leave_sem (k.thread i).wait_sem timeout i k
  k ← leave_msg (k.thread i).wait_msg timeout i k
  ready_enqueue i k

-- The loop over the block list. It reads the next node before it changes the one in hand, so it goes
-- along the list as it was.
unfoldable pub wake_due : List ℕ → Kernel → Option Kernel
wake_due [] k = some k
wake_due (i ∷ rest) k =
    let more = (do k ← wake i k; wake_due rest k) in
    if ltb k.now (k.thread i).tick then some k else more

-- What follows a callback: by the state in which it left its thread.
unfoldable pub after_callback : State → ℕ → Kernel → Option Kernel
after_callback running i k = ready_enqueue i (set_state i ready k)
after_callback blocked i k = block_insert i k
after_callback ready i k = some k
after_callback suspended i k = some k

-- Runs the thread that `_pt_next_ready` chose. `callback i` is what the callback of thread `i` does.
unfoldable pub dispatch : (ℕ → Kernel → Option Kernel) → Option ℕ → Kernel → Option Kernel
dispatch callback none k = some (record k { cur = none })
dispatch callback (some i) k = do
  k ← ready_dequeue i (record k { cur = some i })
  k ← callback i (set_state i running k)
  elim k.cur [ none ↦ none | some c ↦ after_callback (k.thread c).state c k ]

-- The tick that `ek_pt_schedule` returns.
unfoldable pub idle_until : Kernel → List ℕ → ℕ
idle_until k [] = 0
idle_until k (i ∷ rest) = (k.thread i).tick

unfoldable pub wake_time : Kernel → ℕ
wake_time k = elim (ctz levels 0 k.mask) [ some p ↦ k.now | none ↦ idle_until k k.block_list ]

unfoldable pub schedule : (ℕ → Kernel → Option Kernel) → ℕ → Kernel → Option (ℕ × Kernel)
schedule callback now k = if not k.inited then none else do
  let k = record k { now = now }
  k ← wake_due k.block_list k
  chosen ← next_ready k
  k ← dispatch callback chosen (record k { next = chosen })
  some (wake_time k, k)

-- ===== src/Pt/Threads.antt =====
-- src/ek_picothread.c: making, ending, blocking, suspending and resuming threads.
use ek_utils.Base.{
  ℕ, Bool, true, false, ◌||◌, not, Option, none, some, [], ◌==◌, ltb, if◌then◌else◌, ◌>>=◌, add32,
  max_word,
}
use ek_utils.Err.{Err, ok, inval, aborted}
use ek_utils.Pt.Kernel.{
  State, ready, suspended, blocked, running, Thread, Kernel, prio_lowest, levels,
}
use ek_utils.Pt.Queues.{
  set_thread, set_state, state_linked, event_linked, remove_state_node, ready_enqueue,
  ready_dequeue, block_insert, remove_from_sem, remove_from_msg,
}

unfoldable pub init : Kernel → Kernel
init k = if k.inited then k else record k {
  inited = true;
  mask = λ p. false;
  ready_list = λ p. if ltb p levels then [] else k.ready_list p;
  block_list = [];
}

-- What `ek_pt_create` and `ek_pt_init_static` write into a thread.
abbrev pub new_thread : ℕ → Thread
new_thread prio = record {
  prio = prio;
  state = ready;
  tick = 0;
  line = 0;
  wait_result = ok;
  wait_sem = none;
  wait_msg = none;
}

-- Makes the thread and its two nodes anew, and ready. No list may link the nodes at that time.
abbrev pub enlist : ℕ → ℕ → Kernel → Option Kernel
enlist i prio k =
    if state_linked i k || event_linked i k
    then none
    else ready_enqueue i (set_thread i (new_thread prio) k)

-- `has_cb` is `cb != NULL`.
unfoldable pub init_static : Option ℕ → Bool → ℕ → Kernel → Option (Err × Kernel)
init_static none has_cb prio k = some (inval, k)
init_static (some i) has_cb prio k =
    if not has_cb || not k.inited || ltb prio_lowest prio
    then some (inval, k)
    else do k ← enlist i prio k; some (ok, k)

-- `fresh` is what `ek_malloc` returns.
unfoldable pub create : Option ℕ → Bool → ℕ → Kernel → Option (Option ℕ × Kernel)
create fresh has_cb prio k =
    if not k.inited
    then none
    else if not has_cb || ltb prio_lowest prio
    then some (none, k)
    else elim fresh [ none ↦ some (none, k) | some i ↦ do k ← enlist i prio k; some (some i, k) ]

-- Takes the node `state_node` out of the list in which the state says that it is.
unfoldable pub leave_queue : State → ℕ → Kernel → Option Kernel
leave_queue ready i k = ready_dequeue i k
leave_queue blocked i k = remove_state_node i k
leave_queue suspended i k = some k
leave_queue running i k = some k

-- Takes the node `event_node` out of the list of what the thread waits for, and stores a result.
unfoldable pub leave_sem : Option ℕ → Err → ℕ → Kernel → Option Kernel
leave_sem none e i k = some k
leave_sem (some s) e i k = do
  k ← remove_from_sem i s k
  let t = k.thread i
  some (set_thread i (record t { wait_sem = none; wait_result = e }) k)

unfoldable pub leave_msg : Option ℕ → Err → ℕ → Kernel → Option Kernel
leave_msg none e i k = some k
leave_msg (some m) e i k = do
  k ← remove_from_msg i m k
  let t = k.thread i
  some (set_thread i (record t { wait_msg = none; wait_result = e }) k)

abbrev pub is_cur : ℕ → Kernel → Bool
is_cur i k = elim k.cur [ none ↦ false | some c ↦ i == c ]

-- The body that `ek_pt_destroy` and `ek_pt_deinit_static` share.
unfoldable pub detach : ℕ → Kernel → Option Kernel
detach i k = do
  k ← leave_queue (k.thread i).state i k
  k ← leave_sem (k.thread i).wait_sem aborted i k
  k ← leave_msg (k.thread i).wait_msg aborted i k
  let t = k.thread i
  some (set_thread i (record t { wait_result = aborted }) k)

unfoldable pub deinit_static : Option ℕ → Kernel → Option Kernel
deinit_static none k = some k
deinit_static (some i) k =
    if is_cur i k then some k else do k ← detach i k; some (set_state i suspended k)

-- `ek_free` gives the block of the thread back.
unfoldable pub destroy : Option ℕ → Kernel → Option Kernel
destroy none k = some k
destroy (some i) k = if is_cur i k then some k else detach i k

-- The tick at which a thread that blocks for `xtick` wakes; all ones is never.
abbrev pub wake_tick : ℕ → ℕ → ℕ
wake_tick now xtick = if xtick == max_word then max_word else add32 now xtick

unfoldable pub block : Option ℕ → ℕ → Kernel → Option Kernel
block none xtick k = if k.inited then some k else none
block (some i) xtick k =
    if not k.inited
    then none
    else let t = k.thread i in
      let k = set_thread i (record t { tick = wake_tick k.now xtick }) k in
      if is_cur i k
      then some (set_state i blocked k)
      else do k ← leave_queue (k.thread i).state i k; block_insert i (set_state i blocked k)

-- The thread that `ek_pt_suspend` is about: `NULL` is the current one.
abbrev pub target : Option ℕ → Kernel → Option ℕ
target none k = k.cur
target (some i) k = some i

-- The result is the thread that suspended itself.
unfoldable pub suspend : Option ℕ → Kernel → Option (Option ℕ × Kernel)
suspend pt k = if not k.inited then none else elim (target pt k) [
  | none ↦ some (none, k)
  | some i ↦
      if is_cur i k
      then some (some i, set_state i suspended k)
      else do k ← leave_queue (k.thread i).state i k; some (none, set_state i suspended k)
]

abbrev pub is_suspended : State → Bool
is_suspended suspended = true
is_suspended _ = false

unfoldable pub resume : Option ℕ → Kernel → Option Kernel
resume none k = if k.inited then some k else none
resume (some i) k =
    if not k.inited
    then none
    else if not (is_suspended (k.thread i).state)
    then some k
    else ready_enqueue i (set_state i ready k)

unfoldable pub active : Kernel → Option ℕ
active k = k.cur

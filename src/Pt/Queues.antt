-- ===== src/Pt/Queues.antt =====
-- src/ek_picothread.c: the ready queues, the sorted lists, and the nodes of a thread. `none` is a
-- run that leaves the contract of the lists: a node is removed that no list links, which reads
-- through `NULL`, or one is inserted that a list links already; or an assertion that fails.
use ek_utils.Base.{
  ℕ, zero, suc, ◌+◌, Bool, true, false, ◌&&◌, ◌||◌, Option, none, some, List, [], ◌∷◌, ◌++◌, ◌==◌,
  ltb, if◌then◌else◌, has, erase, update, is_nil, ◌>>=◌,
}
use ek_utils.Pt.Kernel.{State, Thread, Kernel, levels}

abbrev pub set_thread : ℕ → Thread → Kernel → Kernel
set_thread i t k = record k { thread = update k.thread i t }

abbrev pub set_state : ℕ → State → Kernel → Kernel
set_state i s k = let t = k.thread i in set_thread i (record t { state = s }) k

-- Whether the node `state_node` of a thread is in a list.
abbrev pub state_linked : ℕ → Kernel → Bool
state_linked i k = has i (k.ready_list (k.thread i).prio) || has i k.block_list

-- `ek_list_remove (&pt->state_node)`
unfoldable pub remove_state_node : ℕ → Kernel → Option Kernel
remove_state_node i k =
    let p = (k.thread i).prio in
    if has i (k.ready_list p)
    then some (record k { ready_list = update k.ready_list p (erase i (k.ready_list p)) })
    else if has i k.block_list
    then some (record k { block_list = erase i k.block_list })
    else none

-- `_ready_enqueue`
unfoldable pub ready_enqueue : ℕ → Kernel → Option Kernel
ready_enqueue i k =
    let p = (k.thread i).prio in
    if state_linked i k
    then none
    else some (record k {
      ready_list = update k.ready_list p (k.ready_list p ++ (i ∷ []));
      mask = update k.mask p true;
    })

-- `_ready_dequeue`
unfoldable pub ready_dequeue : ℕ → Kernel → Option Kernel
ready_dequeue i k = do
  k ← remove_state_node i k
  let p = (k.thread i).prio
  some (if is_nil (k.ready_list p) then record k { mask = update k.mask p false } else k)

-- The walk of `_insert_event_by_prio`: in front of the first thread of a greater number.
unfoldable pub insert_by_prio : (ℕ → Thread) → ℕ → List ℕ → List ℕ
insert_by_prio t i [] = i ∷ []
insert_by_prio t i (x ∷ xs) =
    if ltb (t i).prio (t x).prio then i ∷ x ∷ xs else x ∷ insert_by_prio t i xs

-- The test of `_insert_state_by_time`: `x` wakes later than `i`, or as early with a greater number.
abbrev pub later : (ℕ → Thread) → ℕ → ℕ → Bool
later t i x = ltb (t i).tick (t x).tick || ((t x).tick == (t i).tick && ltb (t i).prio (t x).prio)

unfoldable pub insert_by_time : (ℕ → Thread) → ℕ → List ℕ → List ℕ
insert_by_time t i [] = i ∷ []
insert_by_time t i (x ∷ xs) = if later t i x then i ∷ x ∷ xs else x ∷ insert_by_time t i xs

-- `_insert_state_by_time (&s_block_list, pt)`
unfoldable pub block_insert : ℕ → Kernel → Option Kernel
block_insert i k =
    if state_linked i k
    then none
    else some (record k { block_list = insert_by_time k.thread i k.block_list })

-- `__builtin_ctz` over the levels: the lowest bit that is set, from bit `p` on, of `n` bits.
unfoldable pub ctz : ℕ → ℕ → (ℕ → Bool) → Option ℕ
ctz zero p mask = none
ctz (suc n) p mask = let rest = ctz n (p + 1) mask in if mask p then some p else rest

-- The container of the first node of a ready list: no thread, if the list is empty.
unfoldable pub head_of : List ℕ → Option (Option ℕ)
head_of [] = none
head_of (x ∷ xs) = some (some x)

-- `_pt_next_ready`. The mask is 0 where no bit is set.
unfoldable pub next_ready : Kernel → Option (Option ℕ)
next_ready k = elim (ctz levels 0 k.mask) [ none ↦ some none | some p ↦ head_of (k.ready_list p) ]

-- Whether the node `event_node` of a thread is in a list.
unfoldable pub event_linked : ℕ → Kernel → Bool
event_linked i k =
    elim (k.thread i).wait_sem [ none ↦ false | some s ↦ has i (k.sem s).wait_list ]
    || elim (k.thread i).wait_msg [
      | none ↦ false
      | some m ↦ has i (k.msg m).recv_wait || has i (k.msg m).send_wait
    ]

-- `ek_list_remove (&pt->event_node)` from the list of a semaphore, or of a message queue
unfoldable pub remove_from_sem : ℕ → ℕ → Kernel → Option Kernel
remove_from_sem i s k =
    let q = k.sem s in
    if has i q.wait_list
    then some (record k { sem = update k.sem s (record q { wait_list = erase i q.wait_list }) })
    else none

unfoldable pub remove_from_msg : ℕ → ℕ → Kernel → Option Kernel
remove_from_msg i m k =
    let q = k.msg m in
    if has i q.recv_wait
    then some (record k { msg = update k.msg m (record q { recv_wait = erase i q.recv_wait }) })
    else if has i q.send_wait
    then some (record k { msg = update k.msg m (record q { send_wait = erase i q.send_wait }) })
    else none

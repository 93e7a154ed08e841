-- ===== src/Pt/MsgTests.antt =====
-- A run of two microthreads over a message queue, and ends of everything.
use ek_utils.Base.{
  ℕ, ◌≡◌, refl, true, Option, some, List, [], ◌∷◌, ◌>>=◌, Bytes, copy_out, blit, slice,
}
use ek_utils.Err.{Err, ok, aborted}
use ek_utils.Ring
use ek_utils.Pt.Kernel.{Kernel}
use ek_utils.Pt.Queues.{
  remove_state_node, ready_enqueue, ready_dequeue, insert_by_prio, insert_by_time, block_insert,
  event_linked, remove_from_msg,
}
use ek_utils.Pt.Threads.{
  init, init_static, create, leave_queue, leave_sem, leave_msg, detach, deinit_static, block,
}
use ek_utils.Pt.Sem.{sem_init, sem_create, sem_destroy, sem_release_all}
use ek_utils.Pt.Msg.{
  msg_init_static, msg_create, msg_release, msg_release_all, msg_destroy, msg_deinit_static,
  msg_wake, wait_to_send, wait_to_recv, msg_send, msg_recv,
}
use ek_utils.Pt.Macros.{
  Outcome, done, yielded, msg_send_enter, msg_send_return, msg_recv_enter, msg_recv_return,
}
use ek_utils.Pt.Tests.{boot, two_threads}

-- A queue of one message of two bytes, behind a header of one byte.
abbrev with_queue : Option Kernel
with_queue = do
  k ← two_threads
  let (_, k) = msg_create (λ n. some (0, 0 ∷ 0 ∷ 0 ∷ [])) 1 2 1 k
  some k

abbrev run_as : ℕ → Kernel → Kernel
run_as i k = record k { cur = some i }

-- Thread 1 waits for a message, thread 2 sends one and then waits to send another. Thread 1 is woken
-- and receives the first, which wakes thread 2.
abbrev exchange :
    Option Kernel → Option (Outcome × Outcome × Outcome × Outcome × Option Bytes × Outcome)
exchange k = do
  k ← k
  k ← ready_dequeue 1 (run_as 1 k)
  (a, _, k) ← msg_recv_enter (some 0) (some (0 ∷ 0 ∷ [])) 10 k
  k ← block_insert 1 k
  k ← ready_dequeue 2 (run_as 2 k)
  (b, k) ← msg_send_enter (some 0) (some (5 ∷ 6 ∷ [])) 10 k
  (c, k) ← msg_send_enter (some 0) (some (7 ∷ 8 ∷ [])) 10 k
  k ← block_insert 2 k
  k ← ready_dequeue 1 (run_as 1 k)
  (d, out, k) ← msg_recv_return (some 0) (some (0 ∷ 0 ∷ [])) 10 k
  (e, k) ← msg_send_return (some 0) (some (7 ∷ 8 ∷ [])) 10 (run_as 2 k)
  some (a, b, c, d, out, e)

exchanged :
    exchange with_queue ≡ some (yielded, done ok, yielded, done ok, some (5 ∷ 6 ∷ []), done ok)
unfolding create init sem_init ready_enqueue ready_dequeue remove_state_node block_insert
    insert_by_time insert_by_prio event_linked remove_from_msg msg_create msg_release msg_wake
    wait_to_send wait_to_recv msg_send msg_recv msg_send_enter msg_send_return msg_recv_enter
    msg_recv_return block Ring.write Ring.write_item Ring.read Ring.read_item Ring.is_full
    Ring.is_empty copy_out blit slice
exchanged = refl

-- A thread that waits is told that its queue ends.
abbrev abort_one : (ℕ → Kernel → Option Kernel) → Option Kernel → Option (Err × List ℕ)
abort_one end k = do
  k ← k
  k ← ready_dequeue 1 (run_as 1 k)
  (_, _, k) ← msg_recv_enter (some 0) (some (0 ∷ 0 ∷ [])) 10 k
  k ← block_insert 1 k
  k ← end 0 k
  some ((k.thread 1).wait_result, (k.msg 0).recv_wait)

destroyed : abort_one (λ m. msg_destroy (some m)) with_queue ≡ some (aborted, [])
unfolding create init sem_init ready_enqueue ready_dequeue remove_state_node block_insert
    insert_by_time insert_by_prio event_linked remove_from_msg msg_create msg_release
    msg_release_all wait_to_recv msg_recv msg_recv_enter block msg_destroy Ring.read Ring.read_item
    Ring.is_empty
destroyed = refl

deinitialised : abort_one (λ m. msg_deinit_static (some m)) with_queue ≡ some (aborted, [])
unfolding create init sem_init ready_enqueue ready_dequeue remove_state_node block_insert
    insert_by_time insert_by_prio event_linked remove_from_msg msg_create msg_release
    msg_release_all wait_to_recv msg_recv msg_recv_enter block msg_deinit_static Ring.read
    Ring.read_item Ring.is_empty
deinitialised = refl

-- The objects that the user gives the memory of.
abbrev static_run : Option (Err × Err × List ℕ)
static_run = do
  (e, k) ← init_static (some 3) true 4 (init boot)
  let (f, k) = msg_init_static (some 0) 1 1 k
  let (_, k) = sem_create (some 1) 2 k
  k ← deinit_static (some 3) k
  k ← sem_destroy (some 1) k
  some (e, f, k.ready_list 4)

static_ran : static_run ≡ some (ok, ok, [])
unfolding init init_static ready_enqueue ready_dequeue remove_state_node event_linked deinit_static
    detach leave_queue leave_sem leave_msg msg_init_static sem_create sem_init sem_destroy
    sem_release_all Ring.init_static
static_ran = refl

-- ===== src/Pt/Msg.antt =====
-- src/ek_picothread.c: message queues of microthreads, over the ring buffer.
use ek_utils.Base.{
  ℕ, ◌/◌, ◌-◌, ◌||◌, Bool, true, false, Option, none, some, List, [], ◌∷◌, ◌==◌, ltb, if◌then◌else◌,
  update, ◌>>=◌, drop, Bytes, add32, mul32, max_word,
}
use ek_utils.Err.{Err, ok, inval, aborted, is_ok}
use ek_utils.Lock.{bare}
use ek_utils.Ring
use ek_utils.Ring.{Ring, fresh, write, read}
use ek_utils.Pt.Kernel.{ready, Queue, Kernel}
use ek_utils.Pt.Queues.{
  set_thread, set_state, remove_state_node, ready_enqueue, insert_by_prio, event_linked,
  remove_from_msg,
}

abbrev pub set_msg : ℕ → Queue → Kernel → Kernel
set_msg m q k = record k { msg = update k.msg m q }

-- The ring behind an initialisation that did not fail.
abbrev pub ring_or : Ring (Unit {0}) → Option (Ring (Unit {0})) → Ring (Unit {0})
ring_or rb none = rb
ring_or rb (some rb') = rb'

unfoldable pub msg_init_static : Option ℕ → ℕ → ℕ → Kernel → Err × Kernel
msg_init_static none item_size item_amount k = (inval, k)
msg_init_static (some m) item_size item_amount k =
    let q = k.msg m in
    let (e, rb) = Ring.init_static bare (some q.rb) item_size item_amount in
    if is_ok e
    then (ok, set_msg m (record { recv_wait = []; send_wait = []; rb = ring_or q.rb rb }) k)
    else (e, k)

-- `malloc` is `ek_malloc`: a number for the queue and its bytes; `header` is `sizeof(ek_pt_msg_t)`.
unfoldable pub msg_create : (ℕ → Option (ℕ × Bytes)) → ℕ → ℕ → ℕ → Kernel → Option ℕ × Kernel
msg_create malloc header item_size item_amount k =
    if item_size == 0 || item_amount == 0
    then (none, k)
    else if ltb ((max_word - header) / item_size) item_amount
    then (none, k)
    else elim (malloc (add32 header (mul32 item_amount item_size))) [
      | none ↦ (none, k)
      | some (m, block) ↦ (
        some m,
        set_msg m
            (record {
              recv_wait = [];
              send_wait = [];
              rb = fresh tt (drop header block) item_size item_amount;
            })
            k,
      )
    ]

-- Makes a waiting thread ready, with a result.
unfoldable pub msg_release : ℕ → Err → ℕ → Kernel → Option Kernel
msg_release m e i k = do
  k ← remove_from_msg i m k
  k ← remove_state_node i k
  let t = k.thread i
  k ← ready_enqueue i (set_thread i (record t { wait_msg = none; wait_result = e }) k)
  some (set_state i ready k)

-- A loop of `ek_pt_msg_deinit_static` and `ek_pt_msg_destroy` over waiting threads.
unfoldable pub msg_release_all : ℕ → List ℕ → Kernel → Option Kernel
msg_release_all m [] k = some k
msg_release_all m (i ∷ rest) k = do k ← msg_release m aborted i k; msg_release_all m rest k

-- `ek_free` gives the block of the queue back.
unfoldable pub msg_destroy : Option ℕ → Kernel → Option Kernel
msg_destroy none k = some k
msg_destroy (some m) k = do
  k ← msg_release_all m (k.msg m).recv_wait k
  msg_release_all m (k.msg m).send_wait k

unfoldable pub msg_deinit_static : Option ℕ → Kernel → Option Kernel
msg_deinit_static none k = some k
msg_deinit_static (some m) k = do
  k ← msg_release_all m (k.msg m).recv_wait k
  k ← msg_release_all m (k.msg m).send_wait k
  let q = k.msg m
  some (set_msg m (record q { rb = ring_or q.rb (Ring.deinit_static bare (some q.rb)) }) k)

-- Wakes the first of the threads that wait on the other side, if there is one.
unfoldable pub msg_wake : ℕ → List ℕ → Kernel → Option Kernel
msg_wake m [] k = some k
msg_wake m (i ∷ rest) k = msg_release m ok i k

-- Puts the current thread among those that wait to send, or to receive.
unfoldable pub wait_to_send : ℕ → ℕ → Kernel → Option Kernel
wait_to_send m i k =
    if event_linked i k
    then none
    else let q = k.msg m in
      let t = k.thread i in
      let k = set_thread i (record t { wait_msg = some m }) k in
      some (set_msg m (record q { send_wait = insert_by_prio k.thread i q.send_wait }) k)

unfoldable pub wait_to_recv : ℕ → ℕ → Kernel → Option Kernel
wait_to_recv m i k =
    if event_linked i k
    then none
    else let q = k.msg m in
      let t = k.thread i in
      let k = set_thread i (record t { wait_msg = some m }) k in
      some (set_msg m (record q { recv_wait = insert_by_prio k.thread i q.recv_wait }) k)

unfoldable pub msg_send : Option ℕ → Option Bytes → Kernel → Option (Bool × Kernel)
msg_send none item k = some (false, k)
msg_send (some m) none k = some (false, k)
msg_send (some m) (some item) k = elim k.cur [
  | none ↦ none
  | some i ↦
      let q = k.msg m in
      let (e, rb) = write bare (some q.rb) (some item) in
      let k = set_msg m (record q { rb = ring_or q.rb rb }) k in
      let sent = (do k ← msg_wake m q.recv_wait k; some (true, k)) in
      let wait = (do k ← wait_to_send m i k; some (false, k)) in if is_ok e then sent else wait
]

-- The option is the caller's buffer, before and after.
unfoldable pub msg_recv : Option ℕ → Option Bytes → Kernel → Option (Bool × Option Bytes × Kernel)
msg_recv none item k = some (false, item, k)
msg_recv (some m) item k = elim k.cur [
  | none ↦ none
  | some i ↦
      let q = k.msg m in
      let (e, out, rb) = read bare (some q.rb) item in
      let k = set_msg m (record q { rb = ring_or q.rb rb }) k in
      let received = (do k ← msg_wake m q.send_wait k; some (true, out, k)) in
      let wait = (do k ← wait_to_recv m i k; some (false, out, k)) in
      if is_ok e then received else wait
]

-- ===== src/Pt/Macros.antt =====
-- inc/ek_picothread.h: the macros with which a thread takes a semaphore or uses a message queue, as
-- the parts between two yields: the first entry, and the return into the loop after a wait.
use ek_utils.Base.{ℕ, Bool, Option, none, some, Bytes, if◌then◌else◌, ◌>>=◌}
use ek_utils.Err.{Err, is_ok}
use ek_utils.Pt.Kernel.{Kernel}
use ek_utils.Pt.Threads.{block}
use ek_utils.Pt.Sem.{sem_take}
use ek_utils.Pt.Msg.{msg_send, msg_recv}

-- The macro is done, with the result in `err`, or the callback has returned to wait.
pub data Outcome : Type 0 where
  done : Err → Outcome
  yielded : Outcome

-- `ek_pt_active()->wait_result`
abbrev pub active_result : Kernel → Option Err
active_result k = elim k.cur [ none ↦ none | some i ↦ some (k.thread i).wait_result ]

abbrev pub finish : Kernel → Option (Outcome × Kernel)
finish k = do e ← active_result k; some (done e, k)

-- The head of the loop, to the end or to the yield.
abbrev pub attempt : (Kernel → Option (Bool × Kernel)) → ℕ → Kernel → Option (Outcome × Kernel)
attempt try tick k = do
  (got, k) ← try k
  let wait = (do k ← block k.cur tick k; some (yielded, k))
  if got then finish k else wait

-- From behind the yield: out of the loop on an error, else round again.
abbrev pub again : (Kernel → Option (Bool × Kernel)) → ℕ → Kernel → Option (Outcome × Kernel)
again try tick k = do
  e ← active_result k
  let round = attempt try tick k
  if is_ok e then round else finish k

-- `EK_PT_SEM_TAKE`
unfoldable pub sem_take_enter : Option ℕ → ℕ → Kernel → Option (Outcome × Kernel)
sem_take_enter sem tick k = attempt (sem_take sem) tick k

unfoldable pub sem_take_return : Option ℕ → ℕ → Kernel → Option (Outcome × Kernel)
sem_take_return sem tick k = again (sem_take sem) tick k

-- `EK_PT_MSG_SEND`
unfoldable pub msg_send_enter : Option ℕ → Option Bytes → ℕ → Kernel → Option (Outcome × Kernel)
msg_send_enter msg item tick k = attempt (msg_send msg item) tick k

unfoldable pub msg_send_return : Option ℕ → Option Bytes → ℕ → Kernel → Option (Outcome × Kernel)
msg_send_return msg item tick k = again (msg_send msg item) tick k

-- `EK_PT_MSG_RECV`, with the caller's buffer before and after
unfoldable pub msg_recv_enter :
    Option ℕ → Option Bytes → ℕ → Kernel → Option (Outcome × Option Bytes × Kernel)
msg_recv_enter msg item tick k = do
  (got, out, k) ← msg_recv msg item k
  let wait = (do k ← block k.cur tick k; some (yielded, out, k))
  let end = (do (e, k) ← finish k; some (e, out, k))
  if got then end else wait

unfoldable pub msg_recv_return :
    Option ℕ → Option Bytes → ℕ → Kernel → Option (Outcome × Option Bytes × Kernel)
msg_recv_return msg item tick k = do
  e ← active_result k
  let round = msg_recv_enter msg item tick k
  let end = (do (e, k) ← finish k; some (e, item, k))
  if is_ok e then round else end

-- ===== src/Pt/Api.antt =====
-- inc/ek_picothread.h: the calls on threads, semaphores and message queues, and when each is in order.
use ek_utils.Base.{
  ℕ, ◌<◌, ◌≡◌, refl, ◌∙◌, arith, Bool, true, false, not, Option, some, ◌||◌, ltb, [], update, ◌>>=◌,
  bind_some, unless_true, if_false, Bytes,
}
use ek_utils.Err.{ok}
use ek_utils.Pt.Kernel.{suspended, Kernel, levels, prio_lowest}
use ek_utils.Pt.Kept.{IsKept, waits_for_none}
use ek_utils.Pt.Objects.{AllOn}
use ek_utils.Pt.SemCalls.{sem_take-IsKept, sem_give-IsKept, sem_destroy-IsKept}
use ek_utils.Pt.MsgCalls.{msg_send-IsKept, msg_recv-IsKept}
use ek_utils.Pt.MsgWake.{msg_destroy-IsKept}
use ek_utils.Pt.Lifetimes.{
  sem_init-IsKept, sem_init-cur, sem_deinit_static-IsKept, msg_create-IsKept,
  msg_init_static-IsKept, msg_deinit_static-IsKept,
}
use ek_utils.Pt.ThreadCalls.{block-IsKept, resume-IsKept, suspend-IsKept}
use ek_utils.Pt.Born.{enlist-IsKept}
use ek_utils.Pt.Ended.{destroy-IsKept, deinit_static-IsKept}
use ek_utils.Pt.Threads.{
  create, init_static, destroy, deinit_static, block, suspend, resume, target, is_cur,
}
use ek_utils.Pt.Sem.{sem_init, sem_create, sem_deinit_static, sem_take, sem_give, sem_destroy}
use ek_utils.Pt.Msg.{
  msg_init_static, msg_create, msg_deinit_static, msg_send, msg_recv, msg_destroy,
}

-- A call, with the thread or semaphore that the allocator gives where one is made. A queue is made
-- with what the allocator returns for each size, and the size of the header.
pub data Call : Type 0 where
  creates inits : ℕ → ℕ → Call
  destroys deinits resumes : ℕ → Call
  blocks : ℕ → ℕ → Call
  suspends : Option ℕ → Call
  takes gives drops_sem : ℕ → Call
  sends : ℕ → Bytes → Call
  receives : ℕ → Option Bytes → Call
  drops_msg : ℕ → Call
  creates_sem inits_sem : ℕ → ℕ → Call
  deinits_sem : ℕ → Call
  creates_msg : (ℕ → Option (ℕ × Bytes)) → ℕ → ℕ → ℕ → Call
  inits_msg : ℕ → ℕ → ℕ → Call
  deinits_msg : ℕ → Call

unfoldable pub run : Call → Kernel → Option Kernel
run (creates i prio) k = do (r, k) ← create (some i) true prio k; some k
run (inits i prio) k = do (r, k) ← init_static (some i) true prio k; some k
run (destroys i) k = destroy (some i) k
run (deinits i) k = deinit_static (some i) k
run (resumes i) k = resume (some i) k
run (blocks i x) k = block (some i) x k
run (suspends pt) k = do (r, k) ← suspend pt k; some k
run (takes s) k = do (b, k) ← sem_take (some s) k; some k
run (gives s) k = sem_give (some s) k
run (drops_sem s) k = sem_destroy (some s) k
run (sends m item) k = do (b, k) ← msg_send (some m) (some item) k; some k
run (receives m item) k = do (b, out, k) ← msg_recv (some m) item k; some k
run (drops_msg m) k = msg_destroy (some m) k
run (creates_sem s count) k = some (sem_create (some s) count k).1
run (inits_sem s count) k = some (sem_init (some s) count k).1
run (deinits_sem s) k = sem_deinit_static (some s) k
run (creates_msg malloc header size amount) k = some (msg_create malloc header size amount k).1
run (inits_msg m size amount) k = some (msg_init_static (some m) size amount k).1
run (deinits_msg m) k = msg_deinit_static (some m) k

-- The threads that are made, or out of their callbacks, when a call has returned.
abbrev pub after : Call → (ℕ → Bool) → ℕ → Bool
after (creates i prio) f = update f i true
after (inits i prio) f = update f i true
after (destroys i) f = update f i false
after (deinits i) f = update f i false
after _ f = f

module _ (live on : ℕ → Bool) where
  -- The thread in its callback, which waits for nothing.
  abbrev pub IsCaller : ℕ → Kernel → Type 0
  IsCaller i k =
      (k.cur ≡ some i) × (live i ≡ true) × (on i ≡ false) × (waits_for_none (k.thread i) ≡ true)

  -- The threads that a call names are made; the current one names itself only from its callback, a
  -- thread that waits is not suspended, and the one in its callback does not stand in a list from
  -- which the call wakes. Nobody waits for a semaphore or a queue that is made or initialised.
  abbrev pub Allowed : Call → Kernel → Type 0
  Allowed (creates i prio) k = (live i ≡ false) × (prio < levels)
  Allowed (inits i prio) k = (live i ≡ false) × (prio < levels)
  Allowed (destroys i) k = (is_cur i k ≡ false) × (on i ≡ true)
  Allowed (deinits i) k = (is_cur i k ≡ false) × (on i ≡ true)
  Allowed (resumes i) k = (k.thread i).state ≡ suspended → on i ≡ true
  Allowed (blocks i x) k = (on i ≡ not (is_cur i k)) × (live i ≡ true)
  Allowed (suspends pt) k =
      (i : ℕ) × (target pt k ≡ some i)
      × (on i ≡ not (is_cur i k))
      × (waits_for_none (k.thread i) ≡ true)
  Allowed (takes s) k = (i : ℕ) × IsCaller i k
  Allowed (gives s) k = AllOn on (k.sem s).wait_list
  Allowed (drops_sem s) k = AllOn on (k.sem s).wait_list
  Allowed (sends m item) k = (i : ℕ) × IsCaller i k × AllOn on (k.msg m).recv_wait
  Allowed (receives m item) k = (i : ℕ) × IsCaller i k × AllOn on (k.msg m).send_wait
  Allowed (drops_msg m) k = AllOn on (k.msg m).recv_wait × AllOn on (k.msg m).send_wait
  Allowed (creates_sem s count) k = (k.sem s).wait_list ≡ []
  Allowed (inits_sem s count) k = (k.sem s).wait_list ≡ []
  Allowed (deinits_sem s) k = AllOn on (k.sem s).wait_list
  Allowed (creates_msg malloc header size amount) k =
      (n m : ℕ) (block : Bytes)
      → malloc n ≡ some (m, block)
      → ((k.msg m).recv_wait ≡ []) × ((k.msg m).send_wait ≡ [])
  Allowed (inits_msg m size amount) k = ((k.msg m).recv_wait ≡ []) × ((k.msg m).send_wait ≡ [])
  Allowed (deinits_msg m) k = AllOn on (k.msg m).recv_wait × AllOn on (k.msg m).send_wait

  -- When the lists of the kernel agree with its threads, every call that is in order returns, and
  -- they agree after it, of the threads that are made then; the current thread stays. The calls make,
  -- initialise, reset, end and use threads, semaphores and message queues.
  pub run-IsKept :
      (c : Call) (k : Kernel)
      → IsKept live on k
      → Allowed c k
      → (k' : Kernel) × (run c k ≡ some k')
        × IsKept (after c live) (after c on) k'
        × (k'.cur ≡ k.cur)
  unfolding run create init_static sem_create
  run-IsKept (creates i prio) k is (dead, lt) =
      let (k', e, kept, sp) = enlist-IsKept live on i k is prio dead lt in
      (
        k',
        bind_some (create (some i) true prio k) (some i, k') _ _
            (unless_true k.inited _ _ is.inited
              ∙ if_false (ltb prio_lowest prio) _ _ (ground arith)
              ∙ bind_some _ k' _ _ e refl)
            refl,
        kept,
        sp.cur,
      )
  run-IsKept (inits i prio) k is (dead, lt) =
      let (k', e, kept, sp) = enlist-IsKept live on i k is prio dead lt in
      (
        k',
        bind_some (init_static (some i) true prio k) (ok, k') _ _
            (if_false (not k.inited || ltb prio_lowest prio) _ _ (ground (arith, is.inited))
              ∙ bind_some _ k' _ _ e refl)
            refl,
        kept,
        sp.cur,
      )
  run-IsKept (destroys i) k is (c, o) =
      let (k', e, kept, sp) = destroy-IsKept live on i k is c o in (k', e, kept, sp.cur)
  run-IsKept (deinits i) k is (c, o) =
      let (k', e, kept, sp) = deinit_static-IsKept live on i k is c o in (k', e, kept, sp.cur)
  run-IsKept (resumes i) k is o =
      let (k', e, kept, sp) = resume-IsKept live on i k is o in (k', e, kept, sp.cur)
  run-IsKept (blocks i x) k is (o, l) =
      let (k', e, kept, sp, st) = block-IsKept live on i k is x o l in (k', e, kept, sp.cur)
  run-IsKept (suspends pt) k is (i, at, o, w) =
      let (r, k', e, kept, sp) = suspend-IsKept live on i k is pt at o (λ h. w) in
      (k', bind_some _ (r, k') _ _ e refl, kept, sp.cur)
  run-IsKept (takes s) k is (i, (c, l, off, w)) =
      let (b, k', e, kept, same, st, un) = sem_take-IsKept live on s i k is c l off w in
      (k', bind_some _ (b, k') _ _ e refl, kept, same)
  run-IsKept (gives s) k is all = sem_give-IsKept live on s k is all
  run-IsKept (drops_sem s) k is all = sem_destroy-IsKept live on s k is all
  run-IsKept (sends m item) k is (i, (c, l, off, w), all) =
      let (b, k', e, kept, same) = msg_send-IsKept live on m i k is c l off w item all in
      (k', bind_some _ (b, k') _ _ e refl, kept, same)
  run-IsKept (receives m item) k is (i, (c, l, off, w), all) =
      let (b, out, k', e, kept, same) = msg_recv-IsKept live on m i k is c l off w item all in
      (k', bind_some _ (b, out, k') _ _ e refl, kept, same)
  run-IsKept (drops_msg m) k is (r, s) = msg_destroy-IsKept live on m k is r s
  run-IsKept (creates_sem s count) k is empty =
      (_, refl, sem_init-IsKept live on k is s count empty, sem_init-cur live on k is s count)
  run-IsKept (inits_sem s count) k is empty =
      (_, refl, sem_init-IsKept live on k is s count empty, sem_init-cur live on k is s count)
  run-IsKept (deinits_sem s) k is all = sem_deinit_static-IsKept live on k is s all
  run-IsKept (creates_msg malloc header size amount) k is free =
      let (kept, same) = msg_create-IsKept live on k is malloc header size amount free in
      (_, refl, kept, same)
  run-IsKept (inits_msg m size amount) k is (r, s) =
      let (kept, same) = msg_init_static-IsKept live on k is m size amount r s in
      (_, refl, kept, same)
  run-IsKept (deinits_msg m) k is (r, s) = msg_deinit_static-IsKept live on k is m r s

-- ===== src/Pt/Unwaited.antt =====
-- src/ek_picothread.c: a thread that ends to wait.
use ek_utils.Base.{
  refl_eq, ℕ, ◌≡◌, refl, sym, ap, ◌∙◌, arith, inl, inr, Bool, true, Option, none, some, ◌∈◌, erase,
  update,
}
use ek_utils.Err.{Err}
use ek_utils.Pt.Kernel.{Thread, Queue, Kernel}
use ek_utils.Pt.Waits.{for_it, IsQueued-same, IsQueued-remove}
use ek_utils.Pt.TwoWaits.{
  IsQueuedTwice, twice_at, IsQueuedTwice-same, IsQueuedTwice-remove_recv, IsQueuedTwice-remove_send,
}
use ek_utils.Pt.Kept.{IsKept, is_none, on_sem, on_msg}
use ek_utils.Pt.Queues.{remove_from_sem, remove_from_msg}
use ek_utils.Pt.Threads.{leave_sem, leave_msg}
use ek_utils.Pt.Rewaited.{
  Touches, IsKept-rewait, touches, sem_changed, recv_changed, send_changed, recv_same, send_same,
  on_sem-update, on_msg-update, on_sem-same, on_msg-same, for_none_still,
}

module _ (live on : ℕ → Bool) (i : ℕ) (k : Kernel) (is : IsKept live on k) where
  pub leave_sem_as :
      (o : Option ℕ) (e : Err)
      → live i ≡ true
      → (k.thread i).wait_sem ≡ o
      → (k' : Kernel) × (leave_sem o e i k ≡ some k')
        × IsKept live on k'
        × Touches i k k'
        × ((k'.thread i).wait_sem ≡ none)
        × ((k'.thread i).wait_msg ≡ (k.thread i).wait_msg)
  unfolding leave_sem remove_from_sem
  leave_sem_as none e l w = (
    k,
    refl,
    is,
    record { spares = record { cur = refl; others = λ c h. refl }; state = refl },
    w,
    refl,
  )
  leave_sem_as (some s) e l w =
      let q = k.sem s in
      let t = k.thread i in
      let t' : Thread = record t { wait_sem = none; wait_result = e } in
      let sem = update k.sem s (record q { wait_list = erase i q.wait_list }) in
      let at : on_sem live k.thread i ≡ some s = rw l w in
      let there : i ∈ q.wait_list = is.sems.listed s i ∙ ap (λ z. for_it z s) at ∙ refl_eq s in
      rw there (
        _,
        refl,
        IsKept-rewait live on i k is t' sem k.msg refl refl
            (λ o h. is.calm i o (for_none_still live i k.thread t' (λ z. absurd (cc z)) (λ z. z) h))
            refl
            (IsQueued-same (λ c. (sem c).wait_list) (update (on_sem live k.thread) i none)
              (IsQueued-remove (λ c. (k.sem c).wait_list) (on_sem live k.thread) is.sems
                (λ c. (sem c).wait_list) s i at
                (sem_changed live on i k is s q.count (erase i q.wait_list)))
              (λ c. (sem c).wait_list) (on_sem live (update k.thread i t')) (λ c. refl)
              (on_sem-update live i k.thread t' l))
            (IsQueuedTwice-same _ _ (on_msg live k.thread) is.msgs _ _ _ (λ m. refl) (λ m. refl)
              (on_msg-same live i k.thread t' refl)),
        touches live on i k is t' sem k.msg refl,
        rw (refl_eq i) refl,
        rw (refl_eq i) refl,
      )

  -- Out of the message queue, with the lists of that queue as `msg` has them.
  unwaited_msg :
      (t' : Thread) (msg : ℕ → Queue) (m : ℕ)
      → live i ≡ true
      → t'.prio ≡ (k.thread i).prio
      → t'.state ≡ (k.thread i).state
      → t'.wait_sem ≡ (k.thread i).wait_sem
      → t'.wait_msg ≡ none
      → IsQueuedTwice
          (λ c. (msg c).recv_wait)
          (λ c. (msg c).send_wait)
          (update (on_msg live k.thread) i none)
      → IsKept live on (record k { thread = update k.thread i t'; msg = msg })
  unwaited_msg t' msg m l p s ws wm qm =
      IsKept-rewait live on i k is t' k.sem msg p s
        (λ o h.
          s
          ∙ is.calm i o (
              for_none_still live i k.thread t' (λ z. ap is_none (sym ws) ∙ z)
                (λ z. absurd (cc (z, ap is_none wm))) h))
        (ground (arith, ap is_none wm))
        (IsQueued-same _ (on_sem live k.thread) is.sems _ _ (λ q. refl)
          (on_sem-same live i k.thread t' ws))
        (IsQueuedTwice-same _ _ _ qm _ _ (on_msg live (update k.thread i t')) (λ c. refl)
          (λ c. refl)
          (λ c.
            on_msg-update live i k.thread t' l c
            ∙ ap (λ z. update (on_msg live k.thread) i z c) wm))

  pub leave_msg_as :
      (o : Option ℕ) (e : Err)
      → live i ≡ true
      → (k.thread i).wait_msg ≡ o
      → (k' : Kernel) × (leave_msg o e i k ≡ some k')
        × IsKept live on k'
        × Touches i k k'
        × ((k'.thread i).wait_msg ≡ none)
        × ((k'.thread i).wait_sem ≡ (k.thread i).wait_sem)
  unfolding leave_msg remove_from_msg
  leave_msg_as none e l w = (
    k,
    refl,
    is,
    record { spares = record { cur = refl; others = λ c h. refl }; state = refl },
    w,
    refl,
  )
  leave_msg_as (some m) e l w =
      let q = k.msg m in
      let t = k.thread i in
      let t' : Thread = record t { wait_msg = none; wait_result = e } in
      let at : on_msg live k.thread i ≡ some m = rw l w in
      elim (twice_at (λ c. (k.msg c).recv_wait) (λ c. (k.msg c).send_wait) (on_msg live k.thread)
        is.msgs m i at) [
          | inl there ↦
              let q' : Queue = record q { recv_wait = erase i q.recv_wait } in
              rw (there.0) (
                _,
                refl,
                unwaited_msg t' (update k.msg m q') m l refl refl refl refl (
                    IsQueuedTwice-remove_recv _ _ _ is.msgs _ _ m i there.1 there.2
                      (recv_changed live on i k is m q') (send_same live on i k is m q' refl)),
                touches live on i k is t' k.sem (update k.msg m q') refl,
                rw (refl_eq i) refl,
                rw (refl_eq i) refl,
              )
          | inr there ↦
              let q' : Queue = record q { send_wait = erase i q.send_wait } in
              rw (there.0, there.1)
                (
                  _,
                  refl,
                  unwaited_msg t' (update k.msg m q') m l refl refl refl refl (
                      IsQueuedTwice-remove_send _ _ _ is.msgs _ _ m i there.2 there.3
                        (recv_same live on i k is m q' refl) (send_changed live on i k is m q')),
                  touches live on i k is t' k.sem (update k.msg m q') refl,
                  rw (refl_eq i) refl,
                  rw (refl_eq i) refl,
                )
        ]

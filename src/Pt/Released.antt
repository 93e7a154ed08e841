-- ===== src/Pt/Released.antt =====
-- src/ek_picothread.c: the release of threads that wait for a semaphore or a message queue.
use ek_utils.Base.{
  refl_eq, ℕ, ◌≡◌, ◌⊎◌, refl, ap, ◌∙◌, arith, inl, inr, Bool, true, false, some, has, erase, ◌∈◌,
  ◌>>=◌,
}
use ek_utils.Err.{Err}
use ek_utils.Pt.Kernel.{ready, blocked, Kernel}
use ek_utils.Dlist.Chain.{has-erase_all}
use ek_utils.Pt.Kept.{IsKept, waits_for_none, is_none, on_sem, on_msg}
use ek_utils.Pt.Rewaited.{Spares, Spares-trans}
use ek_utils.Pt.Unwaited.{leave_sem_as, leave_msg_as}
use ek_utils.Pt.Waits.{for_it}
use ek_utils.Pt.TwoWaits.{twice_at}
use ek_utils.Pt.Queues.{
  set_state, remove_state_node, ready_enqueue, remove_from_sem, remove_from_msg,
}
use ek_utils.Pt.Threads.{leave_sem, leave_msg}
use ek_utils.Pt.Sem.{sem_release}
use ek_utils.Pt.Msg.{msg_release}
use ek_utils.Pt.Woken.{awaken}

sem_release_in_order :
    (s i : ℕ) (e : Err) (k : Kernel)
    → i ∈ (k.sem s).wait_list
    → has i (k.ready_list (k.thread i).prio) ≡ false
    → i ∈ k.block_list
    → has i (erase i k.block_list) ≡ false
    → sem_release s e i k ≡ (
        leave_sem (some s) e i k >>= (λ k.
          remove_state_node i k >>= (λ k. ready_enqueue i k >>= (λ k. some (set_state i ready k)))))
unfolding sem_release leave_sem remove_from_sem remove_state_node ready_enqueue
sem_release_in_order s i e k w r b n =
    rw (w, r, b, refl_eq i, r, n) (rw (refl_eq i, r, refl_eq i) refl)

msg_release_in_order :
    (m i : ℕ) (e : Err) (k : Kernel)
    → (has i (k.msg m).recv_wait ≡ true)
      ⊎ ((has i (k.msg m).recv_wait ≡ false) × (i ∈ (k.msg m).send_wait))
    → has i (k.ready_list (k.thread i).prio) ≡ false
    → i ∈ k.block_list
    → has i (erase i k.block_list) ≡ false
    → msg_release m e i k ≡ (
        leave_msg (some m) e i k >>= (λ k.
          remove_state_node i k >>= (λ k. ready_enqueue i k >>= (λ k. some (set_state i ready k)))))
unfolding msg_release leave_msg remove_from_msg remove_state_node ready_enqueue
msg_release_in_order m i e k (inl w) r b n =
    rw (w, r, b, refl_eq i, r, n) (rw (refl_eq i, r, refl_eq i) refl)
msg_release_in_order m i e k (inr w) r b n =
    rw (w.0, w.1, r, b, refl_eq i, r, n) (rw (refl_eq i, r, refl_eq i) refl)

module _ (live on : ℕ → Bool) (i : ℕ) (k : Kernel) (is : IsKept live on k) where
  -- Where the node of a blocked thread is.
  blocked_at :
      on i ≡ true
      → (k.thread i).state ≡ blocked
      → (has i (k.ready_list (k.thread i).prio) ≡ false)
        × (i ∈ k.block_list)
        × (has i (erase i k.block_list) ≡ false)
  blocked_at o s = (
    is.placed.readied (k.thread i).prio i ∙ rw s (ground arith),
    is.placed.asleep i ∙ rw (o, s) refl,
    has-erase_all i i k.block_list is.placed.once_block ∙ rw (refl_eq i) refl,
  )

  pub sem_release-IsKept :
      (s : ℕ) (e : Err)
      → on i ≡ true
      → (k.thread i).wait_sem ≡ some s
      → (k' : Kernel) × (sem_release s e i k ≡ some k') × IsKept live on k' × Spares i k k'
  sem_release-IsKept s e o w =
      let l = is.lives i o in
      let st : (k.thread i).state ≡ blocked = is.calm i o (rw w refl) in
      let at : on_sem live k.thread i ≡ some s = rw l w in
      let there : i ∈ (k.sem s).wait_list =
        is.sems.listed s i ∙ ap (λ z. for_it z s) at ∙ refl_eq s in
      let (r, b, n) = blocked_at o st in
      let (k1, e1, kept1, to, ns, sm) = leave_sem_as live on i k is (some s) e l w in
      let nm : is_none (k.thread i).wait_msg ≡ true = ground (arith, is.single i l, ap is_none w) in
      let wn : waits_for_none (k1.thread i) ≡ true =
        ground (arith, ap is_none ns, ap is_none sm ∙ nm) in
      let (k2, e2, kept2, sp) = awaken live on i k1 kept1 o (to.state ∙ st) wn in
      (
        k2,
        sem_release_in_order s i e k there r b n ∙ rw e1 e2,
        kept2,
        Spares-trans i k k1 k2 to.spares sp,
      )

  pub msg_release-IsKept :
      (m : ℕ) (e : Err)
      → on i ≡ true
      → (k.thread i).wait_msg ≡ some m
      → (k' : Kernel) × (msg_release m e i k ≡ some k') × IsKept live on k' × Spares i k k'
  msg_release-IsKept m e o w =
      let l = is.lives i o in
      let st : (k.thread i).state ≡ blocked = is.calm i o (rw w (ground arith)) in
      let at : on_msg live k.thread i ≡ some m = rw l w in
      let there : (has i (k.msg m).recv_wait ≡ true)
          ⊎ ((has i (k.msg m).recv_wait ≡ false) × (i ∈ (k.msg m).send_wait)) =
        elim (twice_at (λ c. (k.msg c).recv_wait) (λ c. (k.msg c).send_wait) (on_msg live k.thread)
          is.msgs m i at) [ inl q ↦ inl q.0 | inr q ↦ inr (q.0, q.1) ] in
      let (r, b, n) = blocked_at o st in
      let (k1, e1, kept1, to, nm, sm) = leave_msg_as live on i k is (some m) e l w in
      let ns : is_none (k.thread i).wait_sem ≡ true = ground (arith, is.single i l, ap is_none w) in
      let wn : waits_for_none (k1.thread i) ≡ true =
        ground (arith, ap is_none nm, ap is_none sm ∙ ns) in
      let (k2, e2, kept2, sp) = awaken live on i k1 kept1 o (to.state ∙ st) wn in
      (
        k2,
        msg_release_in_order m i e k there r b n ∙ rw e1 e2,
        kept2,
        Spares-trans i k k1 k2 to.spares sp,
      )

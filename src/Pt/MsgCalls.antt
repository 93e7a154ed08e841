-- ===== src/Pt/MsgCalls.antt =====
-- src/ek_picothread.c: what the calls on message queues keep.
use ek_utils.Base.{
  ℕ, ◌≡◌, refl, ap, ◌∙◌, arith, inl, inr, Bool-cases, Bool, true, false, if◌then◌else◌, Option,
  none, some, update, if_true, if_false, ◌>>=◌, bind_some, Bytes,
}
use ek_utils.Err.{is_ok}
use ek_utils.Lock.{bare}
use ek_utils.Ring.{Ring, write, read}
use ek_utils.Pt.Kernel.{Thread, Queue, Kernel}
use ek_utils.Pt.Waits.{IsQueued-same}
use ek_utils.Pt.TwoWaits.{
  IsQueuedTwice, IsQueuedTwice-same, IsQueuedTwice-wait_recv, IsQueuedTwice-wait_send,
}
use ek_utils.Pt.Queues.{insert_by_prio, event_linked}
use ek_utils.Pt.Kept.{IsKept, waits_for_none, on_sem, on_msg}
use ek_utils.Pt.Rewaited.{
  IsKept-rewait, recv_changed, send_changed, recv_same, send_same, on_msg-update, on_sem-same,
}
use ek_utils.Pt.Objects.{AllOn, objects-IsKept, event_free, is_none_at}
use ek_utils.Pt.MsgWake.{receiving, sending, msg_wake-IsKept}
use ek_utils.Pt.Msg.{set_msg, ring_or, msg_wake, wait_to_send, wait_to_recv, msg_send, msg_recv}

-- `ek_pt_msg_send` and `ek_pt_msg_recv` by the current thread, if there is one.
abbrev msg_send_by : ℕ → Bytes → Kernel → Option ℕ → Option (Bool × Kernel)
msg_send_by m item k o = elim o [
  | none ↦ none
  | some i ↦
      let q = k.msg m in
      let (e, rb) = write bare (some q.rb) (some item) in
      let k = set_msg m (record q { rb = ring_or q.rb rb }) k in
      let sent = (do k ← msg_wake m q.recv_wait k; some (true, k)) in
      let wait = (do k ← wait_to_send m i k; some (false, k)) in if is_ok e then sent else wait
]

abbrev msg_recv_by : ℕ → Option Bytes → Kernel → Option ℕ → Option (Bool × Option Bytes × Kernel)
msg_recv_by m item k o = elim o [
  | none ↦ none
  | some i ↦
      let q = k.msg m in
      let (e, out, rb) = read bare (some q.rb) item in
      let k = set_msg m (record q { rb = ring_or q.rb rb }) k in
      let received = (do k ← msg_wake m q.send_wait k; some (true, out, k)) in
      let wait = (do k ← wait_to_recv m i k; some (false, out, k)) in
      if is_ok e then received else wait
]

module _ (live on : ℕ → Bool) where
  -- A ring written or read anew.
  ringed :
      (m : ℕ) (k : Kernel) (rb : Ring (Unit {0}))
      → IsKept live on k
      → IsKept live on (let q = k.msg m in set_msg m (record q { rb = rb }) k)
  ringed m k rb is =
      let q = k.msg m in
      let q' : Queue = record q { rb = rb } in
      objects-IsKept live on k is k.sem (update k.msg m q') (λ s. refl)
        (recv_same live on 0 k is m q' refl) (send_same live on 0 k is m q' refl)

  module _ (m i : ℕ) (k : Kernel) (is : IsKept live on k) (l : live i ≡ true) (off : on i ≡ false)
      (w : waits_for_none (k.thread i) ≡ true) where
    at_none : on_msg live k.thread i ≡ none
    at_none = if_true (live i) _ _ l ∙ is_none_at (k.thread i).wait_msg (ground (arith, w))

    rewait :
        (msg : ℕ → Queue)
        → IsQueuedTwice
            (λ m. (msg m).recv_wait)
            (λ m. (msg m).send_wait)
            (update (on_msg live k.thread) i (some m))
        → IsKept live on (
            let t = k.thread i in
            let t' : Thread = record t { wait_msg = some m } in
            record k { thread = update k.thread i t'; msg = msg })
    rewait msg qm =
        let t = k.thread i in
        let t' : Thread = record t { wait_msg = some m } in
        IsKept-rewait live on i k is t' k.sem msg refl refl (λ o h. absurd (cc (o, off)))
          (ground (arith, w))
          (IsQueued-same _ (on_sem live k.thread) is.sems _ _ (λ q. refl)
            (on_sem-same live i k.thread t' refl))
          (IsQueuedTwice-same _ _ _ qm _ _ (on_msg live (update k.thread i t')) (λ c. refl)
            (λ c. refl) (on_msg-update live i k.thread t' l))

    wait_to_send-IsKept :
        (k' : Kernel) × (wait_to_send m i k ≡ some k') × IsKept live on k' × (k'.cur ≡ k.cur)
    unfolding wait_to_send
    wait_to_send-IsKept =
        let t = k.thread i in
        let t' : Thread = record t { wait_msg = some m } in
        let q = k.msg m in
        let f = update k.thread i t' in
        let q' : Queue = record q { send_wait = insert_by_prio f i q.send_wait } in
        (
          _,
          if_false (event_linked i k) _ _ (event_free live on i k w),
          rewait (update k.msg m q') (
              IsQueuedTwice-wait_send _ _ _ is.msgs _ _ f m i at_none
                (recv_same live on 0 k is m q' refl) (send_changed live on 0 k is m q')),
          refl,
        )

    wait_to_recv-IsKept :
        (k' : Kernel) × (wait_to_recv m i k ≡ some k') × IsKept live on k' × (k'.cur ≡ k.cur)
    unfolding wait_to_recv
    wait_to_recv-IsKept =
        let t = k.thread i in
        let t' : Thread = record t { wait_msg = some m } in
        let q = k.msg m in
        let f = update k.thread i t' in
        let q' : Queue = record q { recv_wait = insert_by_prio f i q.recv_wait } in
        (
          _,
          if_false (event_linked i k) _ _ (event_free live on i k w),
          rewait (update k.msg m q') (
              IsQueuedTwice-wait_recv _ _ _ is.msgs _ _ f m i at_none
                (recv_changed live on 0 k is m q') (send_same live on 0 k is m q' refl)),
          refl,
        )

  module _ (m i : ℕ) (k : Kernel) (is : IsKept live on k) (c : k.cur ≡ some i) (l : live i ≡ true)
      (off : on i ≡ false) (w : waits_for_none (k.thread i) ≡ true) where
    pub msg_send-IsKept :
        (item : Bytes)
        → AllOn on (k.msg m).recv_wait
        → (b : Bool) × (k' : Kernel) × (msg_send (some m) (some item) k ≡ some (b, k'))
          × IsKept live on k'
          × (k'.cur ≡ k.cur)
    unfolding msg_send
    msg_send-IsKept item all =
        let q = k.msg m in
        let (e, rb) = write bare (some q.rb) (some item) in
        let k1 = set_msg m (record q { rb = ring_or q.rb rb }) k in
        let kept1 = ringed m k (ring_or q.rb rb) is in
        elim (Bool-cases (is_ok e)) [
          | inl fine ↦
              let (k2, e2, kept2, same) =
                msg_wake-IsKept live on m q.recv_wait k1 (receiving live on m k is all) kept1 in
              (
                true,
                k2,
                ap (msg_send_by m item k) c
                    ∙ if_true (is_ok e) _ _ fine
                    ∙ bind_some _ k2 _ _ e2 refl,
                kept2,
                same,
              )
          | inr full ↦
              let (k2, e2, kept2, same) = wait_to_send-IsKept m i k1 kept1 l off w in
              (
                false,
                k2,
                ap (msg_send_by m item k) c
                    ∙ if_false (is_ok e) _ _ full
                    ∙ bind_some _ k2 _ _ e2 refl,
                kept2,
                same,
              )
        ]

    pub msg_recv-IsKept :
        (item : Option Bytes)
        → AllOn on (k.msg m).send_wait
        → (b : Bool) × (out : Option Bytes) × (k' : Kernel) × (msg_recv (some m) item k
            ≡ some (b, out, k'))
          × IsKept live on k'
          × (k'.cur ≡ k.cur)
    unfolding msg_recv
    msg_recv-IsKept item all =
        let q = k.msg m in
        let (e, out, rb) = read bare (some q.rb) item in
        let k1 = set_msg m (record q { rb = ring_or q.rb rb }) k in
        let kept1 = ringed m k (ring_or q.rb rb) is in
        elim (Bool-cases (is_ok e)) [
          | inl fine ↦
              let (k2, e2, kept2, same) =
                msg_wake-IsKept live on m q.send_wait k1 (sending live on m k is all) kept1 in
              (
                true,
                out,
                k2,
                ap (msg_recv_by m item k) c
                    ∙ if_true (is_ok e) _ _ fine
                    ∙ bind_some _ k2 _ _ e2 refl,
                kept2,
                same,
              )
          | inr empty ↦
              let (k2, e2, kept2, same) = wait_to_recv-IsKept m i k1 kept1 l off w in
              (
                false,
                out,
                k2,
                ap (msg_recv_by m item k) c
                    ∙ if_false (is_ok e) _ _ empty
                    ∙ bind_some _ k2 _ _ e2 refl,
                kept2,
                same,
              )
        ]

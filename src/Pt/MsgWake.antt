-- ===== src/Pt/MsgWake.antt =====
-- src/ek_picothread.c: what waking the threads of a message queue keeps.
use ek_utils.Base.{
  ℕ, ◌≡◌, refl, sym, ap, ◌∙◌, arith, inl, inr, Bool-cases, Bool, true, false, if◌then◌else◌, none,
  some, List, [], ◌∷◌, ◌==◌, ◌∈◌, if_true, bind_some,
}
use ek_utils.Dlist.Chain.{Distinct}
use ek_utils.Err.{ok, aborted}
use ek_utils.Pt.Kernel.{Kernel}
use ek_utils.Pt.TwoWaits.{of_recv, of_send, twice_at}
use ek_utils.Pt.Kept.{IsKept, on_msg}
use ek_utils.Pt.Released.{msg_release-IsKept}
use ek_utils.Pt.Woken.{other}
use ek_utils.Pt.Objects.{AllOn}
use ek_utils.Pt.Msg.{msg_release_all, msg_destroy, msg_wake}

-- All the threads of a list have left their callbacks and wait for the queue `m`.
abbrev pub AllWaitMsg : (ℕ → Bool) → ℕ → List ℕ → Kernel → Type 0
AllWaitMsg on m xs k = (c : ℕ) → c ∈ xs → (on c ≡ true) × ((k.thread c).wait_msg ≡ some m)

module _ (live on : ℕ → Bool) where
  pub receiving :
      (m : ℕ) (k : Kernel)
      → IsKept live on k
      → AllOn on (k.msg m).recv_wait
      → AllWaitMsg on m (k.msg m).recv_wait k
  receiving m k is all c h =
      let o = all c h in
      let at : on_msg live k.thread c ≡ some m =
        of_recv (λ m. (k.msg m).recv_wait) (λ m. (k.msg m).send_wait) (on_msg live k.thread) is.msgs
          m c h in
      (o, sym (if_true (live c) _ _ (is.lives c o)) ∙ at)

  pub sending :
      (m : ℕ) (k : Kernel)
      → IsKept live on k
      → AllOn on (k.msg m).send_wait
      → AllWaitMsg on m (k.msg m).send_wait k
  sending m k is all c h =
      let o = all c h in
      let at : on_msg live k.thread c ≡ some m =
        of_send (λ m. (k.msg m).recv_wait) (λ m. (k.msg m).send_wait) (on_msg live k.thread) is.msgs
          m c h in
      (o, sym (if_true (live c) _ _ (is.lives c o)) ∙ at)

  apart : (c x : ℕ) → on c ≡ false → on x ≡ true → (c == x) ≡ false
  apart c x off o = elim (Bool-cases (c == x)) [
    | inl e ↦ let eq : c ≡ x = ground arith in absurd (cc (off, o, ap on eq))
    | inr e ↦ e
  ]

  msg_release_all-IsKept :
      (m : ℕ) (xs : List ℕ) (k : Kernel)
      → Distinct xs
      → AllWaitMsg on m xs k
      → IsKept live on k
      → (k' : Kernel) × (msg_release_all m xs k ≡ some k')
        × IsKept live on k'
        × (k'.cur ≡ k.cur)
        × ((c : ℕ) → on c ≡ false → k'.thread c ≡ k.thread c)
  unfolding msg_release_all
  msg_release_all-IsKept m [] k d h is = (k, refl, is, refl, λ c o. refl)
  msg_release_all-IsKept m (x ∷ xs) k d h is =
      let (o, w) = h x (ground arith) in
      let (k1, e, kept, sp) = msg_release-IsKept live on x k is m aborted o w in
      let rest : AllWaitMsg on m xs k1 = λ c h'.
        (let (oc, wc) = h c (ground arith) in
          (oc, ap (λ t. t.wait_msg) (sp.others c (other c x xs h' d.0)) ∙ wc)) in
      let (k2, e2, kept2, same, still) = msg_release_all-IsKept m xs k1 d.1 rest kept in
      (
        k2,
        bind_some _ k1 _ _ e e2,
        kept2,
        same ∙ sp.cur,
        λ c off. still c off ∙ sp.others c (apart c x off o),
      )

  pub msg_wake-IsKept :
      (m : ℕ) (xs : List ℕ) (k : Kernel)
      → AllWaitMsg on m xs k
      → IsKept live on k
      → (k' : Kernel) × (msg_wake m xs k ≡ some k') × IsKept live on k' × (k'.cur ≡ k.cur)
  unfolding msg_wake
  msg_wake-IsKept m [] k h is = (k, refl, is, refl)
  msg_wake-IsKept m (x ∷ xs) k h is =
      let (o, w) = h x (ground arith) in
      let (k1, e, kept, sp) = msg_release-IsKept live on x k is m ok o w in (k1, e, kept, sp.cur)

  pub msg_destroy-IsKept :
      (m : ℕ) (k : Kernel)
      → IsKept live on k
      → AllOn on (k.msg m).recv_wait
      → AllOn on (k.msg m).send_wait
      → (k' : Kernel) × (msg_destroy (some m) k ≡ some k') × IsKept live on k' × (k'.cur ≡ k.cur)
  unfolding msg_destroy
  msg_destroy-IsKept m k is r s =
      let (k1, e1, kept1, c1, still) =
        msg_release_all-IsKept m (k.msg m).recv_wait k (is.msgs.receiving.once m)
          (receiving m k is r) is in
      let all : AllOn on (k1.msg m).send_wait = λ c h. elim (Bool-cases (on c)) [
        | inl o ↦ o
        | inr off ↦
            let at : on_msg live k1.thread c ≡ some m =
              of_send (λ m. (k1.msg m).recv_wait) (λ m. (k1.msg m).send_wait)
                (on_msg live k1.thread) kept1.msgs m c h in
            let was : on_msg live k.thread c ≡ some m =
              ap (λ t. if live c then t.wait_msg else none) (sym (still c off)) ∙ at in
            elim (twice_at (λ m. (k.msg m).recv_wait) (λ m. (k.msg m).send_wait)
              (on_msg live k.thread) is.msgs m c was) [ inl q ↦ r c q.0 | inr q ↦ s c q.1 ]
      ] in
      let (k2, e2, kept2, c2, still2) =
        msg_release_all-IsKept m (k1.msg m).send_wait k1 (kept1.msgs.sending.once m)
          (sending m k1 kept1 all) kept1 in
      (k2, bind_some _ k1 _ _ e1 e2, kept2, c2 ∙ c1)

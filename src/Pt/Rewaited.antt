-- ===== src/Pt/Rewaited.antt =====
-- src/ek_picothread.c: a thread of which changes what it waits for.
use mathlib.Core.Path.{ap₂}
use ek_utils.Base.{
  ℕ, ◌≡◌, refl, sym, ap, ◌∙◌, arith, inl, inr, Bool-cases, Bool, true, false, ◌&&◌, ◌||◌,
  if◌then◌else◌, none, List, ◌==◌, update,
}
use ek_utils.Pt.Kernel.{blocked, Thread, Semaphore, Queue, Kernel}
use ek_utils.Pt.Placed.{IsPlaced-same}
use ek_utils.Pt.Waits.{IsQueued, IsQueued-same}
use ek_utils.Pt.TwoWaits.{IsQueuedTwice, IsQueuedTwice-same}
use ek_utils.Pt.Kept.{
  IsKept, is_ready, is_blocked, waits_for_none, waits_for_one, is_none, in_ready, in_block, on_sem,
  on_msg, at_update,
}
use ek_utils.Pt.Queues.{set_thread}

-- What is not touched when one thread changes, and lists.
pub record Spares (i : ℕ) (k k' : Kernel) : Type 0 where
  pub cur : k'.cur ≡ k.cur
  pub others : (c : ℕ) → (c == i) ≡ false → k'.thread c ≡ k.thread c

pub Spares-trans : (i : ℕ) (k k' k'' : Kernel) → Spares i k k' → Spares i k' k'' → Spares i k k''
Spares-trans i k k' k'' a b = record {
  cur = b.cur ∙ a.cur;
  others = λ c e. b.others c e ∙ a.others c e;
}

-- And the state of the thread stays.
pub record Touches (i : ℕ) (k k' : Kernel) : Type 0 where
  pub spares : Spares i k k'
  pub state : (k'.thread i).state ≡ (k.thread i).state

module _ (live : ℕ → Bool) (i : ℕ) (f : ℕ → Thread) (t : Thread) where
  pub on_sem-update :
      live i ≡ true → (c : ℕ) → on_sem live (update f i t) c ≡ update (on_sem live f) i t.wait_sem c
  on_sem-update l c = elim (Bool-cases (c == i)) [
    | inl e ↦
        let eq : c ≡ i = ground arith in let h : live c ≡ true = ap live eq ∙ l in rw (e, h) refl
    | inr e ↦ rw e refl
  ]

  pub on_msg-update :
      live i ≡ true → (c : ℕ) → on_msg live (update f i t) c ≡ update (on_msg live f) i t.wait_msg c
  on_msg-update l c = elim (Bool-cases (c == i)) [
    | inl e ↦
        let eq : c ≡ i = ground arith in let h : live c ≡ true = ap live eq ∙ l in rw (e, h) refl
    | inr e ↦ rw e refl
  ]

  pub on_sem-same :
      t.wait_sem ≡ (f i).wait_sem → (c : ℕ) → on_sem live (update f i t) c ≡ on_sem live f c
  on_sem-same h c = ap (λ z. if live c then z else none) (at_update f i t (λ z. z.wait_sem) c h)

  pub on_msg-same :
      t.wait_msg ≡ (f i).wait_msg → (c : ℕ) → on_msg live (update f i t) c ≡ on_msg live f c
  on_msg-same h c = ap (λ z. if live c then z else none) (at_update f i t (λ z. z.wait_msg) c h)

  pub for_none_still :
      (is_none t.wait_sem ≡ false → is_none (f i).wait_sem ≡ false)
      → (is_none t.wait_msg ≡ false → is_none (f i).wait_msg ≡ false)
      → waits_for_none t ≡ false
      → waits_for_none (f i) ≡ false
  for_none_still s m h = ground (arith, s, m, h)

module _ (live on : ℕ → Bool) (i : ℕ) (k : Kernel) (is : IsKept live on k) where
  pub IsKept-rewait :
      (t : Thread) (sem : ℕ → Semaphore) (msg : ℕ → Queue)
      → t.prio ≡ (k.thread i).prio
      → t.state ≡ (k.thread i).state
      → (on i ≡ true → waits_for_none t ≡ false → t.state ≡ blocked)
      → waits_for_one t ≡ true
      → IsQueued (λ s. (sem s).wait_list) (on_sem live (update k.thread i t))
      → IsQueuedTwice
          (λ m. (msg m).recv_wait)
          (λ m. (msg m).send_wait)
          (on_msg live (update k.thread i t))
      → IsKept live on (record k { thread = update k.thread i t; sem = sem; msg = msg })
  IsKept-rewait t sem msg p s w one qs qm = record {
    inited = is.inited;
    placed =
        IsPlaced-same (λ c. (k.thread c).prio) k.ready_list k.mask k.block_list
          (in_ready on k.thread) (in_block on k.thread) is.placed
          (λ c. (update k.thread i t c).prio) (in_ready on (update k.thread i t))
          (in_block on (update k.thread i t)) (λ c. at_update k.thread i t (λ z. z.prio) c p)
          (λ c. ap (λ z. on c && is_ready z) (at_update k.thread i t (λ z. z.state) c s))
          (λ c. ap (λ z. on c && is_blocked z) (at_update k.thread i t (λ z. z.state) c s));
    sems = qs;
    msgs = qm;
    calm = λ c o h. elim (Bool-cases (c == i)) [
      | inl e ↦
          let eq : c ≡ i = ground arith in
          let n : update k.thread i t c ≡ t = rw e refl in
          ap (λ z. z.state) n ∙ w (ap on (sym eq) ∙ o) (ap (λ z. waits_for_none z) (sym n) ∙ h)
      | inr e ↦
          let n : update k.thread i t c ≡ k.thread c = rw e refl in
          ap (λ z. z.state) n ∙ is.calm c o (ap (λ z. waits_for_none z) (sym n) ∙ h)
    ];
    single = λ c l. elim (Bool-cases (c == i)) [ inl e ↦ rw e one | inr e ↦ rw e (is.single c l) ];
    prio_lt = λ c l. rw (at_update k.thread i t (λ z. z.prio) c p) (is.prio_lt c l);
    lives = is.lives;
  }

  -- A thread of which only its tick, its line or its result changes.
  pub IsKept-rewrite :
      (t : Thread)
      → t.prio ≡ (k.thread i).prio
      → t.state ≡ (k.thread i).state
      → t.wait_sem ≡ (k.thread i).wait_sem
      → t.wait_msg ≡ (k.thread i).wait_msg
      → live i ≡ true
      → IsKept live on (set_thread i t k)
  IsKept-rewrite t p s ws wm l =
      IsKept-rewait t k.sem k.msg p s
        (λ o h.
          s
          ∙ is.calm i o (
              for_none_still live i k.thread t (λ z. ap is_none (sym ws) ∙ z)
                (λ z. ap is_none (sym wm) ∙ z) h))
        (ap₂ (λ a b. is_none a || is_none b) ws wm ∙ is.single i l)
        (IsQueued-same _ (on_sem live k.thread) is.sems _ _ (λ q. refl)
          (on_sem-same live i k.thread t ws))
        (IsQueuedTwice-same _ _ (on_msg live k.thread) is.msgs _ _ _ (λ m. refl) (λ m. refl)
          (on_msg-same live i k.thread t wm))

  pub touches :
      (t : Thread) (sem : ℕ → Semaphore) (msg : ℕ → Queue)
      → t.state ≡ (k.thread i).state
      → Touches i k (record k { thread = update k.thread i t; sem = sem; msg = msg })
  touches t sem msg s = record {
    spares = record { cur = refl; others = λ c e. rw e refl };
    state = at_update k.thread i t (λ z. z.state) i s;
  }

  sem_lists : ℕ → List ℕ
  sem_lists s = (k.sem s).wait_list

  pub sem_changed :
      (s : ℕ) (n : ℕ) (xs : List ℕ) (c : ℕ)
      → (update k.sem s (record { count = n; wait_list = xs }) c).wait_list
        ≡ update (λ s. (k.sem s).wait_list) s xs c
  sem_changed s n xs c = elim (Bool-cases (c == s)) [ inl e ↦ rw e refl | inr e ↦ rw e refl ]

  pub recv_changed :
      (m : ℕ) (q : Queue) (c : ℕ)
      → (update k.msg m q c).recv_wait ≡ update (λ s. (k.msg s).recv_wait) m q.recv_wait c
  recv_changed m q c = elim (Bool-cases (c == m)) [ inl e ↦ rw e refl | inr e ↦ rw e refl ]

  pub send_changed :
      (m : ℕ) (q : Queue) (c : ℕ)
      → (update k.msg m q c).send_wait ≡ update (λ s. (k.msg s).send_wait) m q.send_wait c
  send_changed m q c = elim (Bool-cases (c == m)) [ inl e ↦ rw e refl | inr e ↦ rw e refl ]

  pub recv_same :
      (m : ℕ) (q : Queue)
      → q.recv_wait ≡ (k.msg m).recv_wait
      → (c : ℕ) → (update k.msg m q c).recv_wait ≡ (k.msg c).recv_wait
  recv_same m q h c = elim (Bool-cases (c == m)) [
    | inl e ↦ let eq : c ≡ m = ground arith in rw e (h ∙ ap (λ z. (k.msg z).recv_wait) (sym eq))
    | inr e ↦ rw e refl
  ]

  pub send_same :
      (m : ℕ) (q : Queue)
      → q.send_wait ≡ (k.msg m).send_wait
      → (c : ℕ) → (update k.msg m q c).send_wait ≡ (k.msg c).send_wait
  send_same m q h c = elim (Bool-cases (c == m)) [
    | inl e ↦ let eq : c ≡ m = ground arith in rw e (h ∙ ap (λ z. (k.msg z).send_wait) (sym eq))
    | inr e ↦ rw e refl
  ]

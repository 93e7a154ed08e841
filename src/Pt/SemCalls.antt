-- ===== src/Pt/SemCalls.antt =====
-- src/ek_picothread.c: what the calls on semaphores keep.
use ek_utils.Base.{
  refl_eq, ℕ, ◌≡◌, refl, sym, ap, ◌∙◌, arith, inl, inr, Bool-cases, Bool, true, false, ◌-◌, ◌+◌,
  ◌%◌, ◌^◌, if◌then◌else◌, Option, none, some, List, [], ◌∷◌, ◌==◌, ◌∈◌, update, if_true, if_false,
  ◌>>=◌, bind_some,
}
use ek_utils.Dlist.Chain.{Distinct}
use ek_utils.Err.{ok, aborted}
use ek_utils.Pt.Kernel.{Thread, Semaphore, Kernel}
use ek_utils.Pt.Waits.{for_it-some, IsQueued-same, IsQueued-wait}
use ek_utils.Pt.TwoWaits.{IsQueuedTwice-same}
use ek_utils.Pt.Queues.{set_thread, insert_by_prio, event_linked}
use ek_utils.Pt.Kept.{IsKept, waits_for_none, on_sem, on_msg}
use ek_utils.Pt.Rewaited.{IsKept-rewait, sem_changed, on_sem-update, on_msg-same}
use ek_utils.Pt.Released.{sem_release-IsKept}
use ek_utils.Pt.Woken.{other}
use ek_utils.Pt.Sem.{sem_release_all, sem_wait, sem_take, sem_give, sem_give_to, sem_destroy}
use ek_utils.Pt.Objects.{AllOn, objects-IsKept, sem_same, is_none_at, event_free}

-- All the threads of a list have left their callbacks and wait for the semaphore `s`.
abbrev pub AllWait : (ℕ → Bool) → ℕ → List ℕ → Kernel → Type 0
AllWait on s xs k = (c : ℕ) → c ∈ xs → (on c ≡ true) × ((k.thread c).wait_sem ≡ some s)

-- `ek_pt_sem_take` by the current thread, if there is one.
abbrev sem_take_by : ℕ → Kernel → Option ℕ → Option (Bool × Kernel)
sem_take_by s k o = elim o [
  | none ↦ none
  | some i ↦
      let q = k.sem s in
      let wait = (do k ← sem_wait s i k; some (false, k)) in
      if q.count == 0
      then wait
      else some (true, record k { sem = update k.sem s (record q { count = q.count - 1 }) })
]

module _ (live on : ℕ → Bool) where
  -- What the list of a semaphore says of its threads.
  waiting_for :
      (s : ℕ) (k : Kernel)
      → IsKept live on k
      → AllOn on (k.sem s).wait_list
      → AllWait on s (k.sem s).wait_list k
  waiting_for s k is all c m =
      let o = all c m in
      let at : on_sem live k.thread c ≡ some s =
        for_it-some (on_sem live k.thread c) s (sym (is.sems.listed s c) ∙ m) in
      (o, sym (if_true (live c) _ _ (is.lives c o)) ∙ at)

  sem_release_all-IsKept :
      (s : ℕ) (xs : List ℕ) (k : Kernel)
      → Distinct xs
      → AllWait on s xs k
      → IsKept live on k
      → (k' : Kernel) × (sem_release_all s xs k ≡ some k') × IsKept live on k' × (k'.cur ≡ k.cur)
  unfolding sem_release_all
  sem_release_all-IsKept s [] k d h is = (k, refl, is, refl)
  sem_release_all-IsKept s (x ∷ xs) k d h is =
      let (o, w) = h x (ground arith) in
      let (k1, e, kept, sp) = sem_release-IsKept live on x k is s aborted o w in
      let rest : AllWait on s xs k1 = λ c m.
        (let (oc, wc) = h c (ground arith) in
          (oc, ap (λ t. t.wait_sem) (sp.others c (other c x xs m d.0)) ∙ wc)) in
      let (k2, e2, kept2, same) = sem_release_all-IsKept s xs k1 d.1 rest kept in
      (k2, bind_some _ k1 _ _ e e2, kept2, same ∙ sp.cur)

  pub sem_destroy-IsKept :
      (s : ℕ) (k : Kernel)
      → IsKept live on k
      → AllOn on (k.sem s).wait_list
      → (k' : Kernel) × (sem_destroy (some s) k ≡ some k') × IsKept live on k' × (k'.cur ≡ k.cur)
  unfolding sem_destroy
  sem_destroy-IsKept s k is all =
      sem_release_all-IsKept s (k.sem s).wait_list k (is.sems.once s) (waiting_for s k is all) is

  pub sem_give-IsKept :
      (s : ℕ) (k : Kernel)
      → IsKept live on k
      → AllOn on (k.sem s).wait_list
      → (k' : Kernel) × (sem_give (some s) k ≡ some k') × IsKept live on k' × (k'.cur ≡ k.cur)
  unfolding sem_give sem_give_to
  sem_give-IsKept s k is all = give (k.sem s).wait_list (waiting_for s k is all)
    where
      give :
          (xs : List ℕ)
          → AllWait on s xs k
          → (k' : Kernel) × (sem_give_to s xs k ≡ some k') × IsKept live on k' × (k'.cur ≡ k.cur)
      give [] h =
          let q = k.sem s in
          let q' : Semaphore = record q { count = (q.count + 1) % 2 ^ 8 } in
          (
            _,
            refl,
            objects-IsKept live on k is (update k.sem s q') k.msg (sem_same k s q' refl) (λ m. refl)
                (λ m. refl),
            refl,
          )
      give (x ∷ xs) h =
          let (o, w) = h x (ground arith) in
          let (k1, e, kept, sp) = sem_release-IsKept live on x k is s ok o w in
          (k1, e, kept, sp.cur)

  -- The current thread begins to wait for a semaphore.
  sem_wait-IsKept :
      (s i : ℕ) (k : Kernel)
      → IsKept live on k
      → live i ≡ true
      → on i ≡ false
      → waits_for_none (k.thread i) ≡ true
      → (k' : Kernel) × (sem_wait s i k ≡ some k')
        × IsKept live on k'
        × (k'.cur ≡ k.cur)
        × ((k'.thread i).state ≡ (k.thread i).state)
  unfolding sem_wait
  sem_wait-IsKept s i k is l off w =
      let t = k.thread i in
      let t' : Thread = record t { wait_sem = some s } in
      let k1 = set_thread i t' k in
      let q = k.sem s in
      let xs = insert_by_prio k1.thread i q.wait_list in
      let sem = update k.sem s (record q { wait_list = xs }) in
      let ns : t.wait_sem ≡ none = is_none_at t.wait_sem (ground (arith, w)) in
      let at : on_sem live k.thread i ≡ none = rw l ns in
      (
        _,
        if_false (event_linked i k) _ _ (event_free live on i k w),
        IsKept-rewait live on i k is t' sem k.msg refl refl (λ o h. absurd (cc (o, off)))
            (ground (arith, w))
            (IsQueued-same (λ c. (sem c).wait_list) (update (on_sem live k.thread) i (some s))
              (IsQueued-wait (λ c. (k.sem c).wait_list) (on_sem live k.thread) is.sems
                (λ c. (sem c).wait_list) k1.thread s i at (sem_changed live on i k is s q.count xs))
              (λ c. (sem c).wait_list) (on_sem live (update k.thread i t')) (λ c. refl)
              (on_sem-update live i k.thread t' l))
            (IsQueuedTwice-same _ _ (on_msg live k.thread) is.msgs _ _ _ (λ m. refl) (λ m. refl)
              (on_msg-same live i k.thread t' refl)),
        refl,
        rw (refl_eq i) refl,
      )

  pub sem_take-IsKept :
      (s i : ℕ) (k : Kernel)
      → IsKept live on k
      → k.cur ≡ some i
      → live i ≡ true
      → on i ≡ false
      → waits_for_none (k.thread i) ≡ true
      → (b : Bool) × (k' : Kernel) × (sem_take (some s) k ≡ some (b, k'))
        × IsKept live on k'
        × (k'.cur ≡ k.cur)
        × ((k'.thread i).state ≡ (k.thread i).state)
        × (b ≡ true → k'.thread i ≡ k.thread i)
  unfolding sem_take
  sem_take-IsKept s i k is c l off w = elim (Bool-cases ((k.sem s).count == 0)) [
    | inl zero_ ↦
        let (k1, e, kept, same, st) = sem_wait-IsKept s i k is l off w in
        (
          false,
          k1,
          ap (sem_take_by s k) c
              ∙ if_true ((k.sem s).count == 0) _ _ zero_
              ∙ bind_some _ k1 _ _ e refl,
          kept,
          same,
          st,
          λ h. absurd (cc h),
        )
    | inr more ↦
        let q = k.sem s in
        let q' : Semaphore = record q { count = q.count - 1 } in
        (
          true,
          _,
          ap (sem_take_by s k) c ∙ if_false ((k.sem s).count == 0) _ _ more,
          objects-IsKept live on k is (update k.sem s q') k.msg (sem_same k s q' refl) (λ m. refl)
              (λ m. refl),
          refl,
          refl,
          λ h. refl,
        )
  ]

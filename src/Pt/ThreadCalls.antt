-- ===== src/Pt/ThreadCalls.antt =====
-- src/ek_picothread.c: what the calls on threads keep.
use ek_utils.Base.{
  refl_eq, ℕ, ◌≡◌, refl, ap, ◌∙◌, inl, inr, Bool-cases, Bool, true, false, not, if◌then◌else◌,
  Option, none, some, update, unless_true, if_false, if_true, ◌>>=◌, bind_some,
}
use ek_utils.Pt.Kernel.{State, ready, suspended, blocked, running, Thread, Kernel}
use ek_utils.Pt.Primitives.{enqueued, asleep}
use ek_utils.Pt.Queues.{set_thread, set_state}
use ek_utils.Pt.Kept.{IsKept, waits_for_none, IsKept-set_thread}
use ek_utils.Pt.Moved.{
  relisted, idle-IsKept, idle_back-IsKept, leave_as, block_insert-IsKept, ready_enqueue-IsKept,
}
use ek_utils.Pt.Rewaited.{IsKept-rewrite, Spares}
use ek_utils.Pt.Woken.{IsKept-again}
use ek_utils.Pt.Threads.{
  block, suspend, resume, is_cur, is_suspended, wake_tick, target, leave_queue,
}

-- `ek_pt_suspend` of a thread, behind its checks.
abbrev suspend_target : Kernel → Option ℕ → Option (Option ℕ × Kernel)
suspend_target k o = elim o [
  | none ↦ some (none, k)
  | some i ↦
      if is_cur i k
      then some (some i, set_state i suspended k)
      else do k ← leave_queue (k.thread i).state i k; some (none, set_state i suspended k)
]

module _ (live on : ℕ → Bool) (i : ℕ) (k : Kernel) (is : IsKept live on k) where
  pub block-IsKept :
      (x : ℕ)
      → on i ≡ not (is_cur i k)
      → live i ≡ true
      → (k' : Kernel) × (block (some i) x k ≡ some k')
        × IsKept live on k'
        × Spares i k k'
        × ((k'.thread i).state ≡ blocked)
  unfolding block
  block-IsKept x o l = elim (Bool-cases (is_cur i k)) [
    | inl me ↦
        let off : on i ≡ false = o ∙ ap not me in
        let t = k.thread i in
        let t1 : Thread = record t { tick = wake_tick k.now x } in
        let k1 = set_thread i t1 k in
        let kept1 = IsKept-set_thread live on i t1 k is off refl refl refl in
        let t2 : Thread = let t = k1.thread i in record t { state = blocked } in
        let kept2 = IsKept-set_thread live on i t2 k1 kept1 off refl refl refl in
        (
          set_thread i t2 k1,
          rw (is.inited, me) refl,
          kept2,
          record { cur = refl; others = λ c h. rw h refl },
          rw (refl_eq i) refl,
        )
    | inr not_me ↦
        let o : on i ≡ true = o ∙ ap not not_me in
        let t = k.thread i in
        let t1 : Thread = record t { tick = wake_tick k.now x } in
        let k1 = set_thread i t1 k in
        let kept1 = IsKept-rewrite live on i k is t1 refl refl refl refl l in
        let (r, mask, b, e, left) = leave_as live on i k1 kept1 (k1.thread i).state o refl in
        let off = update on i false in
        let off_i : off i ≡ false = rw (refl_eq i) refl in
        let k2 = relisted r mask b k1 in
        let t2 : Thread = let t = k2.thread i in record t { state = blocked } in
        let k3 = set_thread i t2 k2 in
        let kept3 = IsKept-set_thread live off i t2 k2 left off_i refl refl refl in
        let (e4, kept4) = block_insert-IsKept live off i k3 kept3 off_i l (rw (refl_eq i) refl) in
        (
          asleep i k3,
          unless_true k.inited _ _ is.inited
              ∙ if_false (is_cur i k) _ _ not_me
              ∙ bind_some _ k2 _ _ e e4,
          IsKept-again live on i true (asleep i k3) o kept4,
          record { cur = refl; others = λ c h. rw h refl },
          rw (refl_eq i) refl,
        )
  ]

  pub resume-IsKept :
      ((k.thread i).state ≡ suspended → on i ≡ true)
      → (k' : Kernel) × (resume (some i) k ≡ some k') × IsKept live on k' × Spares i k k'
  unfolding resume leave_queue
  resume-IsKept o = elim (Bool-cases (is_suspended (k.thread i).state)) [
    | inr no_ ↦ (k, rw (is.inited, no_) refl, is, record { cur = refl; others = λ c h. refl })
    | inl yes_ ↦
        let s = is_suspended_at (k.thread i).state yes_ in
        let o = o s in
        let left = idle-IsKept live on i k is (rw s refl) (rw s refl) in
        let off = update on i false in
        let off_i : off i ≡ false = rw (refl_eq i) refl in
        let t = k.thread i in
        let t' : Thread = record t { state = ready } in
        let k1 = set_thread i t' k in
        let kept1 = IsKept-set_thread live off i t' k left off_i refl refl refl in
        let calm : waits_for_none t ≡ true = elim (Bool-cases (waits_for_none t)) [
          | inl w ↦ w
          | inr w ↦ let b : (k.thread i).state ≡ blocked = is.calm i o w in absurd (cc (s, b))
        ] in
        let (e, done) =
          ready_enqueue-IsKept live off i k1 kept1 off_i (is.lives i o) (rw (refl_eq i) refl)
            (rw (refl_eq i) calm) in
        (
          enqueued i k1,
          unless_true k.inited _ _ is.inited ∙ if_false _ _ _ (ap not yes_) ∙ e,
          IsKept-again live on i true (enqueued i k1) o done,
          record { cur = refl; others = λ c h. rw h refl },
        )
  ]
    where
      is_suspended_at : (s : State) → is_suspended s ≡ true → s ≡ suspended
      is_suspended_at suspended h = refl
      is_suspended_at ready h = absurd (cc h)
      is_suspended_at blocked h = absurd (cc h)
      is_suspended_at running h = absurd (cc h)

  -- A thread that suspends itself is in no list; another one leaves the list of its state.
  pub suspend-IsKept :
      (pt : Option ℕ)
      → target pt k ≡ some i
      → on i ≡ not (is_cur i k)
      → (on i ≡ true → waits_for_none (k.thread i) ≡ true)
      → (r : Option ℕ) × (k' : Kernel) × (suspend pt k ≡ some (r, k'))
        × IsKept live on k'
        × Spares i k k'
  unfolding suspend
  suspend-IsKept pt at o w = elim (Bool-cases (is_cur i k)) [
    | inl me ↦
        let off : on i ≡ false = o ∙ ap not me in
        let t = k.thread i in
        let t1 : Thread = record t { state = suspended } in
        (
          some i,
          set_thread i t1 k,
          unless_true k.inited _ _ is.inited
              ∙ ap (suspend_target k) at
              ∙ if_true (is_cur i k) _ _ me,
          IsKept-set_thread live on i t1 k is off refl refl refl,
          record { cur = refl; others = λ c h. rw h refl },
        )
    | inr not_me ↦
        let o : on i ≡ true = o ∙ ap not not_me in
        let (r, mask, b, e, left) = leave_as live on i k is (k.thread i).state o refl in
        let off = update on i false in
        let off_i : off i ≡ false = rw (refl_eq i) refl in
        let k2 = relisted r mask b k in
        let t2 : Thread = let t = k2.thread i in record t { state = suspended } in
        let k3 = set_thread i t2 k2 in
        let kept3 = IsKept-set_thread live off i t2 k2 left off_i refl refl refl in
        (
          none,
          k3,
          unless_true k.inited _ _ is.inited
              ∙ ap (suspend_target k) at
              ∙ if_false (is_cur i k) _ _ not_me
              ∙ bind_some _ k2 _ _ e refl,
          IsKept-again live on i true k3 o (
              idle_back-IsKept live off i k3 kept3 (is.lives i o) (rw (refl_eq i) (w o))
                (rw (refl_eq i) refl) (rw (refl_eq i) refl)),
          record { cur = refl; others = λ c h. rw h refl },
        )
  ]

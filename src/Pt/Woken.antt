-- ===== src/Pt/Woken.antt =====
-- src/ek_picothread.c: what ends the wait of a thread, and makes it ready.
use mathlib.Core.Path.{subst, fun_ext}
use ek_utils.Base.{
  refl_eq, ℕ, ◌≡◌, refl, sym, ap, ◌∙◌, arith, inl, inr, Bool-cases, Bool, true, false, some, List,
  [], ◌++◌, ◌∷◌, ◌==◌, ltb, has, ◌∈◌, ◌∉◌, ◌&&◌, update, ◌>>=◌,
}
use ek_utils.Err.{timeout}
use ek_utils.Pt.Kernel.{State, ready, suspended, blocked, running, Thread, Kernel}
use ek_utils.Dlist.Chain.{Distinct}
use ek_utils.Pt.Primitives.{enqueued, ready_enqueue_runs}
use ek_utils.Pt.Kept.{
  IsKept, is_blocked, waits_for_none, is_none, in_ready, in_block, IsKept-set_thread,
}
use ek_utils.Pt.Moved.{relisted, leave_as, ready_enqueue-IsKept}
use ek_utils.Pt.Rewaited.{Spares, Spares-trans}
use ek_utils.Pt.Unwaited.{leave_sem_as, leave_msg_as}
use ek_utils.Pt.Queues.{set_state, set_thread, remove_state_node, ready_enqueue}
use ek_utils.Pt.Threads.{leave_queue}
use ek_utils.Pt.Schedule.{wake, wake_due}

-- A thread that was taken out of `on` and put in again.
pub IsKept-again :
    (live on : ℕ → Bool) (i : ℕ) (v : Bool) (k : Kernel)
    → on i ≡ v
    → IsKept live (update (update on i false) i v) k
    → IsKept live on k
IsKept-again live on i v k at is = subst (λ f. IsKept live f k) (fun_ext back) is
  where
    back : (c : ℕ) → update (update on i false) i v c ≡ on c
    back c = elim (Bool-cases (c == i)) [
      | inl e ↦ let eq : c ≡ i = ground arith in rw e (sym (ap on eq ∙ at))
      | inr e ↦ rw e refl
    ]

-- What is in a list differs from what is not.
pub other : (c x : ℕ) (xs : List ℕ) → c ∈ xs → x ∉ xs → (c == x) ≡ false
other c x xs m n = elim (Bool-cases (c == x)) [
  | inl e ↦ let eq : c ≡ x = ground arith in absurd (cc (m, n, ap (λ z. has z xs) eq))
  | inr e ↦ e
]

-- `_ready_enqueue` of a thread that is called ready only then.
enqueue_then_ready :
    (live on : ℕ → Bool) (i : ℕ) (k : Kernel)
    → IsKept live on k
    → on i ≡ false
    → live i ≡ true
    → waits_for_none (k.thread i) ≡ true
    → (k' : Kernel) × ((ready_enqueue i k >>= (λ k. some (set_state i ready k))) ≡ some k')
      × IsKept live (update on i true) k'
      × Spares i k k'
enqueue_then_ready live on i k is off l w =
    let t = k.thread i in
    let t' : Thread = record t { state = ready } in
    let k2 = set_thread i t' k in
    let kept = IsKept-set_thread live on i t' k is off refl refl refl in
    let done =
      ready_enqueue-IsKept live on i k2 kept off l (rw (refl_eq i) refl) (rw (refl_eq i) w) in
    let same : (k2.thread i).prio ≡ t.prio = rw (refl_eq i) refl in
    let runs : ready_enqueue i k ≡ some (enqueued i k) =
      ready_enqueue_runs i k (in_ready on k.thread) (in_block on k.thread) is.placed (rw off refl)
        (rw off refl) in
    (
      _,
      rw runs refl,
      subst (λ k. IsKept live (update on i true) k)
          (ap
            (λ p. record k2 {
              ready_list = update k.ready_list p (k.ready_list p ++ (i ∷ []));
              mask = update k.mask p true;
            })
            same)
          done.1,
      record { cur = refl; others = λ c h. rw h refl },
    )

-- Out of the block list and into the ready lists, for a thread that waits for nothing.
pub awaken :
    (live on : ℕ → Bool) (i : ℕ) (k : Kernel)
    → IsKept live on k
    → on i ≡ true
    → (k.thread i).state ≡ blocked
    → waits_for_none (k.thread i) ≡ true
    → (k' : Kernel) × ((remove_state_node i k
          >>= (λ k. ready_enqueue i k >>= (λ k. some (set_state i ready k))))
        ≡ some k')
      × IsKept live on k'
      × Spares i k k'
unfolding leave_queue
awaken live on i k is o s w =
    let (r, mask, b, e, kept) = leave_as live on i k is blocked o s in
    let (k', e', kept', sp) =
      enqueue_then_ready live (update on i false) i (relisted r mask b k) kept (rw (refl_eq i) refl)
        (is.lives i o) w in
    (
      k',
      rw (e, e') refl,
      IsKept-again live on i true k' o kept',
      record { cur = sp.cur; others = sp.others },
    )

-- One turn of the loop of `ek_pt_schedule` over the block list.
pub wake-IsKept :
    (live on : ℕ → Bool) (i : ℕ) (k : Kernel)
    → IsKept live on k
    → on i ≡ true
    → (k.thread i).state ≡ blocked
    → (k' : Kernel) × (wake i k ≡ some k') × IsKept live on k' × Spares i k k'
unfolding wake leave_queue
wake-IsKept live on i k is o s =
    let l = is.lives i o in
    let off = update on i false in
    let off_i : off i ≡ false = rw (refl_eq i) refl in
    let (r, mask, b, e, kept) = leave_as live on i k is blocked o s in
    let t = k.thread i in
    let t' : Thread = record t { state = ready } in
    let k1 = set_thread i t' (relisted r mask b k) in
    let kept1 = IsKept-set_thread live off i t' (relisted r mask b k) kept off_i refl refl refl in
    let (k2, e2, kept2, to2, n2, m2) =
      leave_sem_as live off i k1 kept1 (k1.thread i).wait_sem timeout l refl in
    let (k3, e3, kept3, to3, n3, m3) =
      leave_msg_as live off i k2 kept2 (k2.thread i).wait_msg timeout l refl in
    let st : (k3.thread i).state ≡ ready = to3.state ∙ to2.state ∙ rw (refl_eq i) refl in
    let wn : waits_for_none (k3.thread i) ≡ true =
      ground (arith, ap is_none n3, ap is_none (m3 ∙ n2)) in
    let (e4, kept4) = ready_enqueue-IsKept live off i k3 kept3 off_i l st wn in
    (
      enqueued i k3,
      rw (e, e2, e3) e4,
      IsKept-again live on i true (enqueued i k3) o kept4,
      Spares-trans i k k1 (enqueued i k3) (record { cur = refl; others = λ c h. rw h refl })
          (Spares-trans i k1 k2 (enqueued i k3) to2.spares
            (record { cur = to3.spares.cur; others = to3.spares.others })),
    )

pub is_blocked_at : (s : State) → is_blocked s ≡ true → s ≡ blocked
is_blocked_at blocked h = refl
is_blocked_at ready h = absurd (cc h)
is_blocked_at suspended h = absurd (cc h)
is_blocked_at running h = absurd (cc h)

pub wake_due-IsKept :
    (live on : ℕ → Bool) (xs : List ℕ) (k : Kernel)
    → Distinct xs
    → ((c : ℕ) → c ∈ xs → (on c ≡ true) × ((k.thread c).state ≡ blocked))
    → IsKept live on k
    → (k' : Kernel) × (wake_due xs k ≡ some k') × IsKept live on k'
unfolding wake_due
wake_due-IsKept live on [] k d h is = (k, refl, is)
wake_due-IsKept live on (x ∷ xs) k d h is = elim (Bool-cases (ltb k.now (k.thread x).tick)) [
  | inl late ↦ (k, rw late refl, is)
  | inr due ↦
      let (o, s) = h x (ground arith) in
      let (k1, e, kept, sp) = wake-IsKept live on x k is o s in
      let later : (c : ℕ) → c ∈ xs → (on c ≡ true) × ((k1.thread c).state ≡ blocked) = λ c m.
        (let (oc, sc) = h c (ground arith) in
          let ne : (c == x) ≡ false = other c x xs m d.0 in
          (oc, ap (λ t. t.state) (sp.others c ne) ∙ sc)) in
      let (k', e', kept') = wake_due-IsKept live on xs k1 d.1 later kept in
      (k', rw (due, e) e', kept')
]

-- All threads of the block list are blocked.
pub asleep_blocked :
    (live on : ℕ → Bool) (k : Kernel)
    → IsKept live on k
    → (c : ℕ) → c ∈ k.block_list
    → (on c ≡ true) × ((k.thread c).state ≡ blocked)
asleep_blocked live on k is c m =
    let b : (on c && is_blocked (k.thread c).state) ≡ true = sym (is.placed.asleep c) ∙ m in
    (ground (arith, b), is_blocked_at (k.thread c).state (ground (arith, b)))

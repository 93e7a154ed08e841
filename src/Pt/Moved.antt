-- ===== src/Pt/Moved.antt =====
-- src/ek_picothread.c: a thread that leaves the list of its state, and one that enters another.
use ek_utils.Base.{
  ℕ, ◌≡◌, refl, sym, ap, ◌∙◌, arith, inl, inr, Bool-cases, Bool, true, false, ◌&&◌, some, List,
  erase, ◌==◌, update,
}
use ek_utils.Pt.Kernel.{State, ready, suspended, blocked, running, Thread, Kernel}
use ek_utils.Pt.Placed.{
  IsPlaced-same, IsPlaced-enqueue, IsPlaced-dequeue, IsPlaced-wake, IsPlaced-sleep,
}
use ek_utils.Pt.Primitives.{
  Places, enqueued, dequeued, asleep, ready_enqueue_runs, block_insert_runs, ready_dequeue_runs,
  remove_state_node_runs,
}
use ek_utils.Pt.Kept.{IsKept, is_ready, is_blocked, waits_for_none, in_ready, in_block}
use ek_utils.Pt.Queues.{ready_enqueue, block_insert}
use ek_utils.Pt.Threads.{leave_queue}

-- The kernel with other lists of the states.
abbrev pub relisted : (ℕ → List ℕ) → (ℕ → Bool) → List ℕ → Kernel → Kernel
relisted r mask b k = record k { ready_list = r; mask = mask; block_list = b }

module _ (on : ℕ → Bool) (t : ℕ → Thread) (i : ℕ) (g : State → Bool) where
  abbrev test : ℕ → Bool
  test c = on c && g (t c).state

  leaves : (c : ℕ) → (update on i false c && g (t c).state) ≡ update test i false c
  leaves c = elim (Bool-cases (c == i)) [ inl e ↦ rw e refl | inr e ↦ rw e refl ]

  leaves_other : g (t i).state ≡ false → (c : ℕ) → (update on i false c && g (t c).state) ≡ test c
  leaves_other h c = elim (Bool-cases (c == i)) [
    | inl e ↦
        let eq : c ≡ i = ground arith in
        let f : g (t c).state ≡ false = ap (λ z. g (t z).state) eq ∙ h in rw (e, f) (ground arith)
    | inr e ↦ rw e refl
  ]

  enters :
      g (t i).state ≡ true → (c : ℕ) → (update on i true c && g (t c).state) ≡ update test i true c
  enters h c = elim (Bool-cases (c == i)) [
    | inl e ↦
        let eq : c ≡ i = ground arith in
        let f : g (t c).state ≡ true = ap (λ z. g (t z).state) eq ∙ h in rw (e, f) refl
    | inr e ↦ rw e refl
  ]

  enters_other : g (t i).state ≡ false → (c : ℕ) → (update on i true c && g (t c).state) ≡ test c
  enters_other h c = elim (Bool-cases (c == i)) [
    | inl e ↦
        let eq : c ≡ i = ground arith in
        let f : g (t c).state ≡ false = ap (λ z. g (t z).state) eq ∙ h in rw (e, f) (ground arith)
    | inr e ↦ rw e refl
  ]

pub on_still : (on : ℕ → Bool) (i c : ℕ) → update on i false c ≡ true → on c ≡ true
on_still on i c h = ground (arith, h)

module _ (live on : ℕ → Bool) (i : ℕ) (k : Kernel) (is : IsKept live on k) where
  left_with :
      (r : ℕ → List ℕ) (mask : ℕ → Bool) (b : List ℕ)
      → Places
          (relisted r mask b k)
          (in_ready (update on i false) k.thread)
          (in_block (update on i false) k.thread)
      → IsKept live (update on i false) (relisted r mask b k)
  left_with r mask b placed = record {
    inited = is.inited;
    placed = placed;
    sems = is.sems;
    msgs = is.msgs;
    calm = λ c o w. is.calm c (on_still on i c o) w;
    single = is.single;
    prio_lt = is.prio_lt;
    lives = λ c o. is.lives c (on_still on i c o);
  }

  entered_with :
      (r : ℕ → List ℕ) (mask : ℕ → Bool) (b : List ℕ)
      → live i ≡ true
      → (waits_for_none (k.thread i) ≡ false → (k.thread i).state ≡ blocked)
      → Places
          (relisted r mask b k)
          (in_ready (update on i true) k.thread)
          (in_block (update on i true) k.thread)
      → IsKept live (update on i true) (relisted r mask b k)
  entered_with r mask b l w placed = record {
    inited = is.inited;
    placed = placed;
    sems = is.sems;
    msgs = is.msgs;
    calm = λ c o h. elim (Bool-cases (c == i)) [
      | inl e ↦
          let eq : c ≡ i = ground arith in
          ap (λ z. (k.thread z).state) eq ∙ w (ap (λ z. waits_for_none (k.thread z)) (sym eq) ∙ h)
      | inr e ↦ is.calm c (ground (arith, e, o)) h
    ];
    single = is.single;
    prio_lt = is.prio_lt;
    lives = λ c o. elim (Bool-cases (c == i)) [
      | inl e ↦ let eq : c ≡ i = ground arith in ap live eq ∙ l
      | inr e ↦ is.lives c (ground (arith, e, o))
    ];
  }

  abbrev fr : ℕ → Bool
  fr = in_ready on k.thread

  abbrev fb : ℕ → Bool
  fb = in_block on k.thread

  abbrev prios : ℕ → ℕ
  prios c = (k.thread c).prio

  unplaced :
      is_ready (k.thread i).state ≡ false
      → is_blocked (k.thread i).state ≡ false
      → Places k (in_ready (update on i false) k.thread) (in_block (update on i false) k.thread)
  unplaced r b =
      IsPlaced-same prios k.ready_list k.mask k.block_list fr fb is.placed prios
        (in_ready (update on i false) k.thread) (in_block (update on i false) k.thread) (λ c. refl)
        (leaves_other on k.thread i is_ready r) (leaves_other on k.thread i is_blocked b)

  -- A thread that neither is ready nor blocked is in no list of states.
  pub idle-IsKept :
      is_ready (k.thread i).state ≡ false
      → is_blocked (k.thread i).state ≡ false
      → IsKept live (update on i false) k
  idle-IsKept r b = left_with k.ready_list k.mask k.block_list (unplaced r b)

  pub leave_as :
      (s : State)
      → on i ≡ true
      → (k.thread i).state ≡ s
      → (r : ℕ → List ℕ) × (mask : ℕ → Bool) × (b : List ℕ) × (leave_queue s i k
          ≡ some (relisted r mask b k))
        × IsKept live (update on i false) (relisted r mask b k)
  unfolding leave_queue
  leave_as ready o s =
      let d = dequeued i k in
      let at : fr i ≡ true = rw (o, s) refl in
      (
        d.ready_list,
        d.mask,
        k.block_list,
        ready_dequeue_runs i k fr fb is.placed at,
        left_with d.ready_list d.mask k.block_list (
            IsPlaced-same prios d.ready_list d.mask k.block_list (update fr i false) fb
              (IsPlaced-dequeue prios k.ready_list k.mask k.block_list fr fb is.placed i) prios
              (in_ready (update on i false) k.thread) (in_block (update on i false) k.thread)
              (λ c. refl) (leaves on k.thread i is_ready)
              (leaves_other on k.thread i is_blocked (rw s refl))),
      )
  leave_as blocked o s =
      let b = erase i k.block_list in
      let at : fb i ≡ true = rw (o, s) refl in
      let out : fr i ≡ false = rw (o, s) refl in
      (
        k.ready_list,
        k.mask,
        b,
        remove_state_node_runs i k fr fb is.placed out at,
        left_with k.ready_list k.mask b (
            IsPlaced-same prios k.ready_list k.mask b fr (update fb i false)
              (IsPlaced-wake prios k.ready_list k.mask k.block_list fr fb is.placed i) prios
              (in_ready (update on i false) k.thread) (in_block (update on i false) k.thread)
              (λ c. refl) (leaves_other on k.thread i is_ready (rw s refl))
              (leaves on k.thread i is_blocked)),
      )
  leave_as suspended o s =
      (k.ready_list, k.mask, k.block_list, refl, idle-IsKept (rw s refl) (rw s refl))
  leave_as running o s =
      (k.ready_list, k.mask, k.block_list, refl, idle-IsKept (rw s refl) (rw s refl))

  -- The same thread the other way.
  pub idle_back-IsKept :
      live i ≡ true
      → waits_for_none (k.thread i) ≡ true
      → is_ready (k.thread i).state ≡ false
      → is_blocked (k.thread i).state ≡ false
      → IsKept live (update on i true) k
  idle_back-IsKept l w r b =
      entered_with k.ready_list k.mask k.block_list l (λ h. absurd (cc (w, h)))
        (IsPlaced-same prios k.ready_list k.mask k.block_list fr fb is.placed prios
          (in_ready (update on i true) k.thread) (in_block (update on i true) k.thread) (λ c. refl)
          (enters_other on k.thread i is_ready r) (enters_other on k.thread i is_blocked b))

  -- `_ready_enqueue` of a ready thread that no list of states links.
  pub ready_enqueue-IsKept :
      on i ≡ false
      → live i ≡ true
      → (k.thread i).state ≡ ready
      → waits_for_none (k.thread i) ≡ true
      → (ready_enqueue i k ≡ some (enqueued i k)) × IsKept live (update on i true) (enqueued i k)
  ready_enqueue-IsKept off l s w =
      let r : fr i ≡ false = rw off refl in
      let b : fb i ≡ false = rw off refl in
      let d = enqueued i k in
      (
        ready_enqueue_runs i k fr fb is.placed r b,
        entered_with d.ready_list d.mask k.block_list l (λ h. cc (w, h))
            (IsPlaced-same prios d.ready_list d.mask k.block_list (update fr i true) fb
              (IsPlaced-enqueue prios k.ready_list k.mask k.block_list fr fb is.placed i r) prios
              (in_ready (update on i true) k.thread) (in_block (update on i true) k.thread)
              (λ c. refl) (enters on k.thread i is_ready (rw s refl))
              (enters_other on k.thread i is_blocked (rw s refl))),
      )

  -- `_insert_state_by_time` into the block list of a blocked thread that no list of states links.
  pub block_insert-IsKept :
      on i ≡ false
      → live i ≡ true
      → (k.thread i).state ≡ blocked
      → (block_insert i k ≡ some (asleep i k)) × IsKept live (update on i true) (asleep i k)
  block_insert-IsKept off l s =
      let r : fr i ≡ false = rw off refl in
      let b : fb i ≡ false = rw off refl in
      let d = asleep i k in
      (
        block_insert_runs i k fr fb is.placed r b,
        entered_with k.ready_list k.mask d.block_list l (λ h. s)
            (IsPlaced-same prios k.ready_list k.mask d.block_list fr (update fb i true)
              (IsPlaced-sleep prios k.ready_list k.mask k.block_list fr fb is.placed k.thread i b)
              prios (in_ready (update on i true) k.thread) (in_block (update on i true) k.thread)
              (λ c. refl) (enters_other on k.thread i is_ready (rw s refl))
              (enters on k.thread i is_blocked (rw s refl))),
      )

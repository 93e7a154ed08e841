-- ===== src/Pt/Primitives.antt =====
-- src/ek_picothread.c: what the primitives on the nodes `state_node` make of the kernel.
use ek_utils.Base.{
  refl_eq, ℕ, ◌≡◌, refl, ◌∙◌, arith, inl, inr, Bool-cases, Bool, true, false, ◌||◌, if◌then◌else◌,
  some, [], ◌∷◌, ◌++◌, ◌∈◌, ◌∉◌, erase, update, is_nil,
}
use ek_utils.Pt.Kernel.{Kernel}
use ek_utils.Pt.Queues.{
  state_linked, remove_state_node, ready_enqueue, ready_dequeue, block_insert, insert_by_time,
}
use ek_utils.Pt.Placed.{IsPlaced}

-- `IsPlaced` of the lists of a kernel.
abbrev pub Places : Kernel → (ℕ → Bool) → (ℕ → Bool) → Type 0
Places k = IsPlaced (λ c. (k.thread c).prio) k.ready_list k.mask k.block_list

-- What the primitives make of the kernel.
abbrev pub enqueued : ℕ → Kernel → Kernel
enqueued i k =
    let p = (k.thread i).prio in
    record k {
      ready_list = update k.ready_list p (k.ready_list p ++ (i ∷ []));
      mask = update k.mask p true;
    }

abbrev pub dequeued : ℕ → Kernel → Kernel
dequeued i k =
    let p = (k.thread i).prio in
    let rest = erase i (k.ready_list p) in
    record k {
      ready_list = update k.ready_list p rest;
      mask = if is_nil rest then update k.mask p false else k.mask;
    }

abbrev pub woken : ℕ → Kernel → Kernel
woken i k = record k { block_list = erase i k.block_list }

abbrev pub asleep : ℕ → Kernel → Kernel
asleep i k = record k { block_list = insert_by_time k.thread i k.block_list }

module _ (i : ℕ) (k : Kernel) (fr fb : ℕ → Bool) (is : Places k fr fb) where
  pub linked_as : state_linked i k ≡ (fr i || fb i)
  linked_as =
      rw (is.readied (k.thread i).prio i, is.asleep i) (ground (arith, refl_eq (k.thread i).prio))

  pub ready_enqueue_runs : fr i ≡ false → fb i ≡ false → ready_enqueue i k ≡ some (enqueued i k)
  unfolding ready_enqueue
  ready_enqueue_runs r b =
      let free : state_linked i k ≡ false = linked_as ∙ rw (r, b) refl in rw free refl

  pub block_insert_runs : fr i ≡ false → fb i ≡ false → block_insert i k ≡ some (asleep i k)
  unfolding block_insert
  block_insert_runs r b =
      let free : state_linked i k ≡ false = linked_as ∙ rw (r, b) refl in rw free refl

  pub ready_dequeue_runs : fr i ≡ true → ready_dequeue i k ≡ some (dequeued i k)
  unfolding ready_dequeue remove_state_node
  ready_dequeue_runs r =
      let p = (k.thread i).prio in
      let at : i ∈ k.ready_list p = is.readied p i ∙ rw (r, refl_eq p) refl in
      elim (Bool-cases (is_nil (erase i (k.ready_list p)))) [
        | inl e ↦ rw (at, refl_eq p, e) refl
        | inr e ↦ rw (at, refl_eq p, e) refl
      ]

  pub remove_state_node_runs : fr i ≡ false → fb i ≡ true → remove_state_node i k ≡ some (woken i k)
  unfolding remove_state_node
  remove_state_node_runs r b =
      let p = (k.thread i).prio in
      let out : i ∉ k.ready_list p = is.readied p i ∙ rw r refl in
      let at : i ∈ k.block_list = is.asleep i ∙ b in rw (out, at) refl

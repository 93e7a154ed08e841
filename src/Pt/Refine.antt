-- ===== src/Pt/Refine.antt =====
-- src/ek_picothread.c: what `_ready_enqueue` and `_ready_dequeue` do to the ready queue.
use ek_utils.Base.{
  refl_eq, ℕ, ◌<◌, ◌≡◌, ◌⊎◌, refl, sym, ap, ◌∙◌, arith, inl, inr, Bool-cases, false, not, some,
  List, [], ◌∷◌, ◌++◌, ◌==◌, ◌∈◌, erase, update, is_nil,
}
use ek_utils.Pt.ReadyQueue.{ready_queue, IsReady, has-erase, joined-enqueue, joined-dequeue}
use ek_utils.Dlist.Chain.{has-append}
use ek_utils.Pt.Kernel.{Thread, Kernel, levels}
use ek_utils.Pt.Queues.{
  state_linked, remove_state_node, ready_enqueue, ready_dequeue, insert_by_prio,
}

pub not_nil_snoc : (xs : List ℕ) (i : ℕ) → is_nil (xs ++ (i ∷ [])) ≡ false
not_nil_snoc [] i = refl
not_nil_snoc (x ∷ xs) i = refl

pub not_nil_has : (i : ℕ) (xs : List ℕ) → i ∈ xs → is_nil xs ≡ false
not_nil_has i [] m = ground (arith, m)
not_nil_has i (x ∷ xs) m = refl

update_at :
    (r : ℕ → List ℕ) (p : ℕ) (v : List ℕ) (q c : ℕ)
    → c ∈ update r p v q
    → ((q ≡ p) × (c ∈ v)) ⊎ (c ∈ r q)
update_at r p v q c m = elim (Bool-cases (q == p)) [
  | inl e ↦ inl (ground arith, ground (arith, e, m))
  | inr e ↦ inr (ground (arith, e, m))
]

home_snoc :
    (t : ℕ → Thread) (i : ℕ) (r : ℕ → List ℕ)
    → ((p c : ℕ) → c ∈ r p → (t c).prio ≡ p)
    → (q c : ℕ) → c ∈ update r (t i).prio (r (t i).prio ++ (i ∷ [])) q
    → (t c).prio ≡ q
home_snoc t i r h q c m =
    let p = (t i).prio in
    elim (update_at r p (r p ++ (i ∷ [])) q c m) [
      | inr old ↦ h q c old
      | inl new ↦ elim (Bool-cases (c == i)) [
        | inl e ↦ let at : c ≡ i = ground arith in ap (λ d. (t d).prio) at ∙ sym new.0
        | inr e ↦ h p c (ground (arith, has-append c (r p) (i ∷ []), new.1)) ∙ sym new.0
      ]
    ]

home_erase :
    (t : ℕ → Thread) (i p : ℕ) (r : ℕ → List ℕ)
    → ((p c : ℕ) → c ∈ r p → (t c).prio ≡ p)
    → (q c : ℕ) → c ∈ update r p (erase i (r p)) q
    → (t c).prio ≡ q
home_erase t i p r h q c m = elim (update_at r p (erase i (r p)) q c m) [
  | inr old ↦ h q c old
  | inl new ↦ h p c (has-erase c i (r p) new.1) ∙ sym new.0
]

-- When the bit mask agrees with the ready lists and each ready thread stands in the list of its
-- priority: `_ready_enqueue` of a thread of a priority below 32 that is in no list succeeds and puts
-- it into the ready queue behind all threads that are as urgent or more and in front of the others,
-- and mask and lists still agree.
pub ready_enqueue_refines :
    (i : ℕ) (k : Kernel)
    → IsReady k
    → (k.thread i).prio < levels
    → state_linked i k ≡ false
    → (k' : Kernel) × (ready_enqueue i k ≡ some k')
      × IsReady k'
      × (ready_queue k' ≡ insert_by_prio k.thread i (ready_queue k))
unfolding ready_enqueue
ready_enqueue_refines i k is lt free =
    let p = (k.thread i).prio in
    rw free (
      _,
      refl,
      record {
        masked = λ q. elim (Bool-cases (q == p)) [
          | inl e ↦ rw (e, not_nil_snoc (k.ready_list p) i) refl
          | inr e ↦ rw e (is.masked q)
        ];
        home = λ q c m. home_snoc k.thread i k.ready_list is.home q c m;
      },
      joined-enqueue k.thread i levels 0 k.ready_list is.home (omega arith) lt,
    )

-- When the bit mask agrees with the ready lists and each ready thread stands in the list of its
-- priority: `_ready_dequeue` of a thread of a priority below 32 that stands in its ready list
-- succeeds and takes it out of the ready queue, and mask and lists still agree.
pub ready_dequeue_refines :
    (i : ℕ) (k : Kernel)
    → IsReady k
    → (k.thread i).prio < levels
    → i ∈ k.ready_list (k.thread i).prio
    → (k' : Kernel) × (ready_dequeue i k ≡ some k')
      × IsReady k'
      × (ready_queue k' ≡ erase i (ready_queue k))
unfolding ready_dequeue remove_state_node
ready_dequeue_refines i k is lt m =
    let p = (k.thread i).prio in
    let rest = erase i (k.ready_list p) in
    let same = joined-dequeue i p levels 0 k.ready_list m (λ q h. is.home q i h) (omega arith) lt in
    elim (Bool-cases (is_nil rest)) [
      | inl e ↦
          rw (m, refl_eq p, e)
            (
              _,
              refl,
              record {
                masked = λ q. elim (Bool-cases (q == p)) [
                  | inl at ↦ rw (at, e) refl
                  | inr at ↦ rw at (is.masked q)
                ];
                home = λ q c n. home_erase k.thread i p k.ready_list is.home q c n;
              },
              same,
            )
      | inr e ↦
          rw (m, refl_eq p, e)
            (
              _,
              refl,
              record {
                masked = λ q. elim (Bool-cases (q == p)) [
                  | inl at ↦
                      let here : q ≡ p = ground arith in
                      rw (at, e)
                        (ap k.mask here ∙ is.masked p ∙ ap not (not_nil_has i (k.ready_list p) m))
                  | inr at ↦ rw at (is.masked q)
                ];
                home = λ q c n. home_erase k.thread i p k.ready_list is.home q c n;
              },
              same,
            )
    ]

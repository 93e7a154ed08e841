-- ===== src/Pt/ReadyQueue.antt =====
-- src/ek_picothread.c: the ready lists and their bit mask, as one queue.
use mathlib.Core.List.{append_assoc}
use ek_utils.Base.{
  ℕ, zero, suc, ◌+◌, ◌≤◌, ◌<◌, ◌≡◌, refl, sym, ap, ◌∙◌, arith, inl, inr, Bool-cases, Bool, true,
  false, not, Option, none, some, List, [], ◌∷◌, ◌++◌, ◌==◌, ltb, has, ◌∈◌, ◌∉◌, erase, update,
  is_nil,
}
use ek_utils.Dlist.Chain.{has-append}
use ek_utils.Pt.Kernel.{Thread, Kernel, levels}
use ek_utils.Pt.Queues.{insert_by_prio, ctz, head_of, next_ready}

-- The lists of `n` levels from level `p` on, one behind the other.
abbrev pub joined : ℕ → ℕ → (ℕ → List ℕ) → List ℕ
joined zero p r = []
joined (suc n) p r = r p ++ joined n (p + 1) r

-- All threads that are ready, in the order in which they run.
abbrev pub ready_queue : Kernel → List ℕ
ready_queue k = joined levels 0 k.ready_list

-- A bit is set when its list has a member, and each thread stands in the list of its priority.
pub record IsReady (k : Kernel) : Type 0 where
  pub masked : (p : ℕ) → k.mask p ≡ not (is_nil (k.ready_list p))
  pub home : (p c : ℕ) → c ∈ k.ready_list p → (k.thread c).prio ≡ p

abbrev pub first_of : List ℕ → Option ℕ
first_of [] = none
first_of (x ∷ xs) = some x

nil_of : (xs : List ℕ) → is_nil xs ≡ true → xs ≡ []
nil_of [] e = refl
nil_of (x ∷ xs) e = ground (arith, e)

first_joined : (xs ys : List ℕ) → is_nil xs ≡ false → head_of xs ≡ some (first_of (xs ++ ys))
unfolding head_of
first_joined [] ys e = ground (arith, e)
first_joined (x ∷ xs) ys e = refl

next_joined :
    (n p : ℕ) (mask : ℕ → Bool) (r : ℕ → List ℕ)
    → ((p : ℕ) → mask p ≡ not (is_nil (r p)))
    → elim (ctz n p mask) [ none ↦ some none | some q ↦ head_of (r q) ]
      ≡ some (first_of (joined n p r))
unfolding ctz head_of
next_joined zero p mask r h = refl
next_joined (suc n) p mask r h = elim (Bool-cases (is_nil (r p))) [
  | inl e ↦
      let off : mask p ≡ false = h p ∙ ap not e in
      let empty : r p ≡ [] = nil_of (r p) e in rw (off, empty) (next_joined n (p + 1) mask r h)
  | inr e ↦
      let on : mask p ≡ true = h p ∙ ap not e in rw on (first_joined (r p) (joined n (p + 1) r) e)
]

-- When the bit mask agrees with the ready lists and each ready thread stands in the list of its
-- priority, `_pt_next_ready` finds the first thread of the ready queue, and none when it is empty.
pub next_ready_lem : (k : Kernel) → IsReady k → next_ready k ≡ some (first_of (ready_queue k))
unfolding next_ready
next_ready_lem k is = next_joined levels 0 k.mask k.ready_list is.masked

module _ (t : ℕ → Thread) where
  -- A thread passes all those that are as urgent as it or more.
  insert_by_prio-append :
      (i : ℕ) (xs ys : List ℕ)
      → ((c : ℕ) → c ∈ xs → (t c).prio ≤ (t i).prio)
      → insert_by_prio t i (xs ++ ys) ≡ xs ++ insert_by_prio t i ys
  unfolding insert_by_prio
  insert_by_prio-append i [] ys h = refl
  insert_by_prio-append i (x ∷ xs) ys h =
      let le : (t x).prio ≤ (t i).prio = h x (ground arith) in
      let no : ltb (t i).prio (t x).prio ≡ false = ground arith in
      rw no (ap (◌∷◌ x) (insert_by_prio-append i xs ys (λ c m. h c (ground arith))))

  insert_by_prio-front :
      (i : ℕ) (ys : List ℕ)
      → ((c : ℕ) → c ∈ ys → (t i).prio < (t c).prio)
      → insert_by_prio t i ys ≡ i ∷ ys
  unfolding insert_by_prio
  insert_by_prio-front i [] h = refl
  insert_by_prio-front i (y ∷ ys) h =
      let lt : (t i).prio < (t y).prio = h y (ground arith) in
      let yes : ltb (t i).prio (t y).prio ≡ true = ground arith in rw yes refl

  -- The members of the levels from `p` on have priorities from `p` on.
  joined-prio :
      (n p : ℕ) (r : ℕ → List ℕ)
      → ((p c : ℕ) → c ∈ r p → (t c).prio ≡ p)
      → (c : ℕ) → c ∈ joined n p r
      → p ≤ (t c).prio
  joined-prio zero p r h c m = ground (arith, m)
  joined-prio (suc n) p r h c m = elim (Bool-cases (has c (r p))) [
    | inl e ↦ let q : (t c).prio ≡ p = h p c e in omega arith
    | inr e ↦
        let rest : c ∈ joined n (p + 1) r =
          ground (arith, has-append c (r p) (joined n (p + 1) r)) in
        let le : p + 1 ≤ (t c).prio = joined-prio n (p + 1) r h c rest in omega arith
  ]

joined-update_below :
    (n p q : ℕ) (r : ℕ → List ℕ) (v : List ℕ) → q < p → joined n p (update r q v) ≡ joined n p r
joined-update_below zero p q r v lt = refl
joined-update_below (suc n) p q r v lt =
    let ne : (p == q) ≡ false = ground arith in
    rw (ne, joined-update_below n (p + 1) q r v (omega arith)) refl

pub joined-enqueue :
    (t : ℕ → Thread) (i n p : ℕ) (r : ℕ → List ℕ)
    → ((p c : ℕ) → c ∈ r p → (t c).prio ≡ p)
    → p ≤ (t i).prio
    → (t i).prio < p + n
    → joined n p (update r (t i).prio (r (t i).prio ++ (i ∷ [])))
      ≡ insert_by_prio t i (joined n p r)
joined-enqueue t i zero p r h le lt = absurd (omega arith)
joined-enqueue t i (suc n) p r h le lt = elim (Bool-cases (p == (t i).prio)) [
  | inl e ↦
      let q : p ≡ (t i).prio = ground arith in
      let v = r (t i).prio ++ (i ∷ []) in
      let rest = joined n (p + 1) r in
      let below : (c : ℕ) → c ∈ r p → (t c).prio ≤ (t i).prio =
        λ c m. (let at : (t c).prio ≡ p = h p c m in omega arith) in
      let above : (c : ℕ) → c ∈ rest → (t i).prio < (t c).prio =
        λ c m. (let at : p + 1 ≤ (t c).prio = joined-prio t n (p + 1) r h c m in omega arith) in
      rw (e, joined-update_below n (p + 1) (t i).prio r v (omega arith))
        (ap (λ z. (r z ++ (i ∷ [])) ++ rest) (sym q)
          ∙ append_assoc (r p) (i ∷ []) rest
          ∙ ap (◌++◌ (r p)) (sym (insert_by_prio-front t i rest above))
          ∙ sym (insert_by_prio-append t i (r p) rest below))
  | inr e ↦
      let no : (p == (t i).prio) ≡ false = e in
      let below : (c : ℕ) → c ∈ r p → (t c).prio ≤ (t i).prio =
        λ c m. (let at : (t c).prio ≡ p = h p c m in omega arith) in
      rw (no, joined-enqueue t i n (p + 1) r h (ground arith) (omega arith))
        (sym (insert_by_prio-append t i (r p) (joined n (p + 1) r) below))
]

erase-append_in : (a : ℕ) (xs ys : List ℕ) → a ∈ xs → erase a (xs ++ ys) ≡ erase a xs ++ ys
erase-append_in a [] ys h = ground (arith, h)
erase-append_in a (x ∷ xs) ys h = elim (Bool-cases (a == x)) [
  | inl e ↦ rw e refl
  | inr e ↦ rw e (ap (◌∷◌ x) (erase-append_in a xs ys (ground arith)))
]

erase-append_out : (a : ℕ) (xs ys : List ℕ) → a ∉ xs → erase a (xs ++ ys) ≡ xs ++ erase a ys
erase-append_out a [] ys h = refl
erase-append_out a (x ∷ xs) ys h =
    let e : (a == x) ≡ false = ground arith in
    rw e (ap (◌∷◌ x) (erase-append_out a xs ys (ground arith)))

pub has-erase : (c a : ℕ) (xs : List ℕ) → c ∈ erase a xs → c ∈ xs
has-erase c a [] h = h
has-erase c a (x ∷ xs) h = ground (arith, has-erase c a xs)

pub joined-dequeue :
    (i q n p : ℕ) (r : ℕ → List ℕ)
    → i ∈ r q
    → ((p : ℕ) → i ∈ r p → q ≡ p)
    → p ≤ q
    → q < p + n
    → joined n p (update r q (erase i (r q))) ≡ erase i (joined n p r)
joined-dequeue i q zero p r m h le lt = absurd (omega arith)
joined-dequeue i q (suc n) p r m h le lt = elim (Bool-cases (p == q)) [
  | inl e ↦
      let at : q ≡ p = ground arith in
      rw (e, joined-update_below n (p + 1) q r (erase i (r q)) (omega arith))
        (ap (λ z. erase i (r z) ++ joined n (p + 1) r) at
          ∙ sym (erase-append_in i (r p) (joined n (p + 1) r) (ap (λ z. has i (r z)) (sym at) ∙ m)))
  | inr e ↦
      let out : i ∉ r p = elim (Bool-cases (has i (r p))) [
        | inl y ↦ let at : q ≡ p = h p y in ground arith
        | inr y ↦ y
      ] in
      rw (e, joined-dequeue i q n (p + 1) r m h (ground arith) (omega arith))
        (sym (erase-append_out i (r p) (joined n (p + 1) r) out))
]

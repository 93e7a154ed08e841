-- ===== src/Pt/Placed.antt =====
-- src/ek_picothread.c: which list links the node `state_node` of each thread.
use ek_utils.Base.{
  ℕ, ◌≡◌, refl, sym, ap, ◌∙◌, arith, inl, inr, Bool-cases, Bool, true, false, not, ◌&&◌,
  if◌then◌else◌, List, [], ◌∷◌, ◌++◌, ◌==◌, has, ◌∉◌, erase, update, is_nil,
}
use ek_utils.Dlist.Chain.{Distinct, Distinct-snoc, Distinct-erase, has-append, has-erase_all}
use ek_utils.Pt.Kernel.{Thread}
use ek_utils.Pt.Order.{has-insert_by_time, Distinct-insert_by_time}
use ek_utils.Pt.Refine.{not_nil_snoc}
use ek_utils.Pt.Queues.{insert_by_time}

-- The ready lists link the threads of `in_ready`, each at its priority, and the block list those of
-- `in_block`, all of them once. A bit is set when its list has a member.
pub record IsPlaced (prio : ℕ → ℕ) (r : ℕ → List ℕ) (mask : ℕ → Bool) (b : List ℕ)
    (in_ready in_block : ℕ → Bool) : Type 0 where
  pub readied : (p c : ℕ) → has c (r p) ≡ (in_ready c && prio c == p)
  pub asleep : (c : ℕ) → has c b ≡ in_block c
  pub once_ready : (p : ℕ) → Distinct (r p)
  pub once_block : Distinct b
  pub masked : (p : ℕ) → mask p ≡ not (is_nil (r p))

not_nil_erase : (i : ℕ) (xs : List ℕ) → is_nil (erase i xs) ≡ false → is_nil xs ≡ false
not_nil_erase i [] h = h
not_nil_erase i (x ∷ xs) h = refl

module _ (prio : ℕ → ℕ) (r : ℕ → List ℕ) (mask : ℕ → Bool) (b : List ℕ) (fr fb : ℕ → Bool)
    (is : IsPlaced prio r mask b fr fb) where
  -- An equal account of the places, and threads of the same priorities.
  pub IsPlaced-same :
      (prio' : ℕ → ℕ) (gr gb : ℕ → Bool)
      → ((c : ℕ) → prio' c ≡ prio c)
      → ((c : ℕ) → gr c ≡ fr c)
      → ((c : ℕ) → gb c ≡ fb c)
      → IsPlaced prio' r mask b gr gb
  IsPlaced-same prio' gr gb sp sr sb = record {
    readied = λ p c. rw (sr c, sp c) (is.readied p c);
    asleep = λ c. is.asleep c ∙ sym (sb c);
    once_ready = is.once_ready;
    once_block = is.once_block;
    masked = is.masked;
  }

  -- Threads that are not in a ready list may take any priority.
  pub IsPlaced-anew :
      (prio' : ℕ → ℕ) (gr gb : ℕ → Bool)
      → ((c : ℕ) → fr c ≡ true → prio' c ≡ prio c)
      → ((c : ℕ) → gr c ≡ fr c)
      → ((c : ℕ) → gb c ≡ fb c)
      → IsPlaced prio' r mask b gr gb
  IsPlaced-anew prio' gr gb sp sr sb = record {
    readied = λ p c. elim (Bool-cases (fr c)) [
      | inl e ↦ rw (sr c, sp c e) (is.readied p c)
      | inr e ↦ is.readied p c ∙ rw (sr c, e) refl
    ];
    asleep = λ c. is.asleep c ∙ sym (sb c);
    once_ready = is.once_ready;
    once_block = is.once_block;
    masked = is.masked;
  }

  pub IsPlaced-enqueue :
      (i : ℕ)
      → fr i ≡ false
      → IsPlaced prio
          (update r (prio i) (r (prio i) ++ (i ∷ [])))
          (update mask (prio i) true)
          b
          (update fr i true)
          fb
  IsPlaced-enqueue i out =
      let p = prio i in
      let new : i ∉ r p = is.readied p i ∙ rw out refl in
      record {
        readied = λ q c. elim (Bool-cases (c == i)) [
          | inl e ↦
              let at : c ≡ i = ground arith in
              elim (Bool-cases (q == p)) [
                | inl h ↦
                    let w : (prio c == q) ≡ true = ground (arith, ap prio at) in
                    rw (h, e, w) (has-append c (r p) (i ∷ []) ∙ ground (arith, e))
                | inr h ↦
                    let w : (prio c == q) ≡ false = ground (arith, ap prio at) in
                    let v : fr c ≡ false = ap fr at ∙ out in
                    rw (h, e, w) (is.readied q c ∙ rw (v) refl)
              ]
          | inr e ↦ elim (Bool-cases (q == p)) [
            | inl h ↦
                let at : q ≡ p = ground arith in
                rw (h, e)
                  (has-append c (r p) (i ∷ [])
                    ∙ ground (arith, e, is.readied p c)
                    ∙ ap (λ z. fr c && prio c == z) (sym at))
            | inr h ↦ rw (h, e) (is.readied q c)
          ]
        ];
        asleep = is.asleep;
        once_ready = λ q. elim (Bool-cases (q == p)) [
          | inl h ↦ rw h (Distinct-snoc (r p) i (is.once_ready p) new)
          | inr h ↦ rw h (is.once_ready q)
        ];
        once_block = is.once_block;
        masked = λ q. elim (Bool-cases (q == p)) [
          | inl h ↦ rw (h, not_nil_snoc (r p) i) refl
          | inr h ↦ rw h (is.masked q)
        ];
      }

  pub IsPlaced-dequeue :
      (i : ℕ)
      → IsPlaced prio
          (update r (prio i) (erase i (r (prio i))))
          (if is_nil (erase i (r (prio i))) then update mask (prio i) false else mask)
          b
          (update fr i false)
          fb
  IsPlaced-dequeue i =
      let p = prio i in
      record {
        readied = λ q c. elim (Bool-cases (q == p)) [
          | inl h ↦
              let at : q ≡ p = ground arith in
              rw h (
                has-erase_all c i (r p) (is.once_ready p)
                ∙ ap (◌&&◌ (not (c == i))) (is.readied p c)
                ∙ gone c (fr c) (prio c == p)
                ∙ ap (λ z. update fr i false c && prio c == z) (sym at))
          | inr h ↦ elim (Bool-cases (c == i)) [
            | inl e ↦
                let at : c ≡ i = ground arith in
                let w : (prio c == q) ≡ false = ground (arith, ap prio at) in
                rw (h, e) (is.readied q c ∙ rw w (ground arith))
            | inr e ↦ rw (h, e) (is.readied q c)
          ]
        ];
        asleep = is.asleep;
        once_ready = λ q. elim (Bool-cases (q == p)) [
          | inl h ↦ rw h (Distinct-erase i (r p) (is.once_ready p))
          | inr h ↦ rw h (is.once_ready q)
        ];
        once_block = is.once_block;
        masked = λ q. elim (Bool-cases (q == p)) [
          | inl h ↦ elim (Bool-cases (is_nil (erase i (r p)))) [
            | inl e ↦ rw (h, e, h) refl
            | inr e ↦
                let at : q ≡ p = ground arith in
                rw (h, e) (ap mask at ∙ is.masked p ∙ ap not (not_nil_erase i (r p) e))
          ]
          | inr h ↦ elim (Bool-cases (is_nil (erase i (r p)))) [
            | inl e ↦ rw (h, e, h) (is.masked q)
            | inr e ↦ rw (h, e) (is.masked q)
          ]
        ];
      }
    where
      gone :
          (c : ℕ) (x y : Bool) → (not (c == i) && (x && y)) ≡ ((if c == i then false else x) && y)
      gone c x y = ground arith

  pub IsPlaced-wake : (i : ℕ) → IsPlaced prio r mask (erase i b) fr (update fb i false)
  IsPlaced-wake i = record {
    readied = is.readied;
    asleep = λ c. has-erase_all c i b is.once_block ∙ ground (arith, is.asleep c);
    once_ready = is.once_ready;
    once_block = Distinct-erase i b is.once_block;
    masked = is.masked;
  }

  pub IsPlaced-sleep :
      (t : ℕ → Thread) (i : ℕ)
      → fb i ≡ false
      → IsPlaced prio r mask (insert_by_time t i b) fr (update fb i true)
  IsPlaced-sleep t i out = record {
    readied = is.readied;
    asleep = λ c. has-insert_by_time t c i b ∙ ground (arith, is.asleep c);
    once_ready = is.once_ready;
    once_block = Distinct-insert_by_time t i b is.once_block (is.asleep i ∙ out);
    masked = is.masked;
  }

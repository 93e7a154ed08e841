-- ===== src/Pt/Waits.antt =====
-- src/ek_picothread.c: which list links the node `event_node` of each thread that waits.
use ek_utils.Base.{
  ℕ, ◌≡◌, refl, sym, ap, ◌∙◌, arith, inl, inr, Bool-cases, Bool, true, false, not, ◌&&◌, ◌||◌,
  if◌then◌else◌, Option, none, some, List, ◌==◌, has, erase, update,
}
use ek_utils.Dlist.Chain.{Distinct, Distinct-erase, has-erase_all}
use ek_utils.Pt.Kernel.{Thread}
use ek_utils.Pt.Order.{has-insert_by_prio, Distinct-insert_by_prio}
use ek_utils.Pt.Queues.{insert_by_prio}

abbrev pub for_it : Option ℕ → ℕ → Bool
for_it none s = false
for_it (some t) s = t == s

pub for_it-some : (o : Option ℕ) (s : ℕ) → for_it o s ≡ true → o ≡ some s
for_it-some none s h = absurd (cc h)
for_it-some (some t) s h = let e : t ≡ s = ground arith in ap some e

-- Each list links the threads that wait for its object, and once.
pub record IsQueued (waits : ℕ → List ℕ) (on : ℕ → Option ℕ) : Type 0 where
  pub listed : (s c : ℕ) → has c (waits s) ≡ for_it (on c) s
  pub once : (s : ℕ) → Distinct (waits s)

-- A list for each object, one of which is another, given by what it is at each object.
abbrev pub Changed : (ℕ → List ℕ) → (ℕ → List ℕ) → ℕ → List ℕ → Type 0
Changed new old s xs = (c : ℕ) → new c ≡ update old s xs c

off :
    (c i : ℕ) (o : Option ℕ) (q : ℕ)
    → (not (c == i) && for_it o q) ≡ for_it (if c == i then none else o) q
off c i o q = elim (Bool-cases (c == i)) [ inl e ↦ rw e refl | inr e ↦ rw e refl ]

module _ (waits : ℕ → List ℕ) (on : ℕ → Option ℕ) (is : IsQueued waits on) where
  pub IsQueued-same :
      (new : ℕ → List ℕ) (on' : ℕ → Option ℕ)
      → ((s : ℕ) → new s ≡ waits s)
      → ((c : ℕ) → on' c ≡ on c)
      → IsQueued new on'
  IsQueued-same new on' sw so = record {
    listed = λ s c. rw (sw s, so c) (is.listed s c);
    once = λ s. rw (sw s) (is.once s);
  }

  pub IsQueued-remove :
      (new : ℕ → List ℕ) (s i : ℕ)
      → on i ≡ some s
      → Changed new waits s (erase i (waits s))
      → IsQueued new (update on i none)
  IsQueued-remove new s i at ch = record {
    listed = λ q c. ap (has c) (ch q) ∙ elim (Bool-cases (q == s)) [
      | inl h ↦
          let eq : q ≡ s = ground arith in
          rw h (
            has-erase_all c i (waits s) (is.once s)
            ∙ ap (◌&&◌ (not (c == i))) (is.listed s c)
            ∙ ap (λ z. not (c == i) && for_it (on c) z) (sym eq)
            ∙ off c i (on c) q)
      | inr h ↦ rw h (
          is.listed q c ∙ elim (Bool-cases (c == i)) [
            | inl e ↦
                let eq : c ≡ i = ground arith in
                let ne : (s == q) ≡ false = ground arith in
                rw e (ap (λ z. for_it (on z) q) eq ∙ rw at ne)
            | inr e ↦ rw e refl
          ])
    ];
    once = λ q. rw (ch q) (elim (Bool-cases (q == s)) [
      | inl h ↦ rw h (Distinct-erase i (waits s) (is.once s))
      | inr h ↦ rw h (is.once q)
    ]);
  }

  pub IsQueued-wait :
      (new : ℕ → List ℕ) (t : ℕ → Thread) (s i : ℕ)
      → on i ≡ none
      → Changed new waits s (insert_by_prio t i (waits s))
      → IsQueued new (update on i (some s))
  IsQueued-wait new t s i at ch = record {
    listed = λ q c. ap (has c) (ch q) ∙ elim (Bool-cases (q == s)) [
      | inl h ↦
          let eq : q ≡ s = ground arith in
          rw h (
            has-insert_by_prio t c i (waits s)
            ∙ ap (◌||◌ (c == i)) (is.listed s c ∙ ap (for_it (on c)) (sym eq))
            ∙ elim (Bool-cases (c == i)) [ inl e ↦ rw e (ground arith) | inr e ↦ rw e refl ])
      | inr h ↦ rw h (
          is.listed q c ∙ elim (Bool-cases (c == i)) [
            | inl e ↦
                let eq : c ≡ i = ground arith in
                let ne : (s == q) ≡ false = ground arith in
                rw e (ap (λ z. for_it (on z) q) eq ∙ rw at (sym ne))
            | inr e ↦ rw e refl
          ])
    ];
    once = λ q. rw (ch q) (elim (Bool-cases (q == s)) [
      | inl h ↦ rw h (
          Distinct-insert_by_prio t i (waits s) (is.once s)
            (is.listed s i ∙ ap (λ z. for_it z s) at))
      | inr h ↦ rw h (is.once q)
    ]);
  }

-- ===== src/Pt/Objects.antt =====
-- src/ek_picothread.c: semaphores and message queues whose lists stay.
use mathlib.Core.Path.{ap₂}
use ek_utils.Base.{
  ℕ, ◌≡◌, refl, sym, ap, ◌∙◌, arith, inl, inr, Bool-cases, Bool, true, false, ◌||◌, Option, none,
  some, List, ◌==◌, has, ◌∈◌, update,
}
use ek_utils.Pt.Kernel.{Semaphore, Queue, Kernel}
use ek_utils.Pt.Waits.{IsQueued-same}
use ek_utils.Pt.TwoWaits.{IsQueuedTwice-same}
use ek_utils.Pt.Queues.{event_linked}
use ek_utils.Pt.Kept.{IsKept, is_none, waits_for_none}

-- All the threads of a list have left their callbacks.
abbrev pub AllOn : (ℕ → Bool) → List ℕ → Type 0
AllOn on xs = (c : ℕ) → c ∈ xs → on c ≡ true

-- Objects whose lists are those of before.
pub objects-IsKept :
    (live on : ℕ → Bool) (k : Kernel)
    → IsKept live on k
    → (sem : ℕ → Semaphore) (msg : ℕ → Queue) → ((s : ℕ) → (sem s).wait_list ≡ (k.sem s).wait_list)
    → ((m : ℕ) → (msg m).recv_wait ≡ (k.msg m).recv_wait)
    → ((m : ℕ) → (msg m).send_wait ≡ (k.msg m).send_wait)
    → IsKept live on (record k { sem = sem; msg = msg })
objects-IsKept live on k is sem msg s r w = record {
  inited = is.inited;
  placed = is.placed;
  sems = IsQueued-same _ _ is.sems _ _ s (λ c. refl);
  msgs = IsQueuedTwice-same _ _ _ is.msgs _ _ _ r w (λ c. refl);
  calm = is.calm;
  single = is.single;
  prio_lt = is.prio_lt;
  lives = is.lives;
}

pub sem_same :
    (k : Kernel) (s : ℕ) (q : Semaphore)
    → q.wait_list ≡ (k.sem s).wait_list
    → (c : ℕ) → (update k.sem s q c).wait_list ≡ (k.sem c).wait_list
sem_same k s q h c = elim (Bool-cases (c == s)) [
  | inl e ↦ let eq : c ≡ s = ground arith in rw e (h ∙ ap (λ z. (k.sem z).wait_list) (sym eq))
  | inr e ↦ rw e refl
]

pub is_none_at : (o : Option ℕ) → is_none o ≡ true → o ≡ none
is_none_at none h = refl
is_none_at (some s) h = absurd (cc h)

-- A thread that waits for nothing has its node of events in no list.
pub event_free :
    (live on : ℕ → Bool) (i : ℕ) (k : Kernel)
    → waits_for_none (k.thread i) ≡ true
    → event_linked i k ≡ false
unfolding event_linked
event_free live on i k w =
    ap₂ ◌||◌ (no_sem (k.thread i).wait_sem (ground (arith, w)))
      (no_msg (k.thread i).wait_msg (ground (arith, w)))
  where
    no_sem :
        (o : Option ℕ)
        → is_none o ≡ true
        → elim o [ none ↦ false | some s ↦ has i (k.sem s).wait_list ] ≡ false
    no_sem none h = refl
    no_sem (some s) h = absurd (cc h)

    no_msg :
        (o : Option ℕ)
        → is_none o ≡ true
        → elim o [ none ↦ false | some m ↦ has i (k.msg m).recv_wait || has i (k.msg m).send_wait ]
          ≡ false
    no_msg none h = refl
    no_msg (some m) h = absurd (cc h)

-- ===== src/Pt/Reached.antt =====
-- src/ek_picothread.c: the kernels that calls and rounds lead to, from `ek_pt_init` on.
use ek_utils.Base.{
  ℕ, ◌≡◌, refl, sym, ap, ◌∙◌, Bool, true, false, inl, inr, Bool-cases, Option, none, some, [], has,
  not, is_nil, if◌then◌else◌, if_false, ltb,
}
use mathlib.Core.Path.{subst}
use mathlib.Core.Option.{some-injective}
use ek_utils.Dlist.Chain.{Distinct}
use ek_utils.Pt.Kernel.{Kernel, levels}
use ek_utils.Pt.Kept.{IsKept}
use ek_utils.Pt.Api.{Call, run, after, Allowed, run-IsKept}
use ek_utils.Pt.Rounds.{Friendly, schedule-IsKept}
use ek_utils.Pt.Threads.{init}
use ek_utils.Pt.Schedule.{schedule}

-- The memory of a program that has not called `ek_pt_init`: static variables and objects are zero.
pub record IsFresh (k : Kernel) : Type 0 where
  pub off : k.inited ≡ false
  pub beyond : (p : ℕ) → ltb p levels ≡ false → k.ready_list p ≡ []
  pub no_sem : (s : ℕ) → (k.sem s).wait_list ≡ []
  pub no_recv : (m : ℕ) → (k.msg m).recv_wait ≡ []
  pub no_send : (m : ℕ) → (k.msg m).send_wait ≡ []

abbrev pub nobody : ℕ → Bool
nobody i = false

abbrev clean : Kernel → Kernel
clean k = record k {
  inited = true;
  mask = λ p. false;
  ready_list = λ p. if ltb p levels then [] else k.ready_list p;
  block_list = [];
}

clean-IsKept : (k : Kernel) → IsFresh k → IsKept nobody nobody (clean k)
clean-IsKept k f = record {
  inited = refl;
  placed = record {
    readied = λ p c. ap (has c) (empty p);
    asleep = λ c. refl;
    once_ready = λ p. subst Distinct (sym (empty p)) tt;
    once_block = tt;
    masked = λ p. sym (ap (λ xs. not (is_nil xs)) (empty p));
  };
  sems = record {
    listed = λ s c. ap (has c) (f.no_sem s);
    once = λ s. subst Distinct (sym (f.no_sem s)) tt;
  };
  msgs = record {
    receives = λ c. none;
    sends = λ c. none;
    receiving = record {
      listed = λ m c. ap (has c) (f.no_recv m);
      once = λ m. subst Distinct (sym (f.no_recv m)) tt;
    };
    sending = record {
      listed = λ m c. ap (has c) (f.no_send m);
      once = λ m. subst Distinct (sym (f.no_send m)) tt;
    };
    either = λ c. inl (refl, refl);
  };
  calm = λ c o. absurd (cc o);
  single = λ c l. absurd (cc l);
  prio_lt = λ c l. absurd (cc l);
  lives = λ c o. o;
}
  where
    empty : (p : ℕ) → (if ltb p levels then [] else k.ready_list p) ≡ []
    empty p = elim (Bool-cases (ltb p levels)) [ inl e ↦ rw e refl | inr e ↦ rw e (f.beyond p e) ]

pub init-IsKept : (k : Kernel) → IsFresh k → IsKept nobody nobody (init k)
unfolding init
init-IsKept k f =
    subst (λ z. IsKept nobody nobody z) (sym (if_false k.inited k (clean k) f.off))
      (clean-IsKept k f)

module _ (callback : ℕ → Kernel → Option Kernel) where
  -- `Reached live k`: outside of all callbacks, with the threads `live` made and not ended.
  pub data Reached : (ℕ → Bool) → Kernel → Type 0 where
    started : (k : Kernel) → IsFresh k → Reached nobody (init k)
    called :
        (live : ℕ → Bool) (k : Kernel) (c : Call) (k' : Kernel)
        → Reached live k
        → Allowed live live c k
        → run c k ≡ some k'
        → Reached (after c live) k'
    scheduled :
        (live : ℕ → Bool) (k : Kernel) (now tick : ℕ) (k' : Kernel)
        → Reached live k
        → Friendly live callback
        → schedule callback now k ≡ some (tick, k')
        → Reached live k'

  pub reached-IsKept : (live : ℕ → Bool) (k : Kernel) → Reached live k → IsKept live live k
  reached-IsKept _ _ (started k f) = init-IsKept k f
  reached-IsKept _ _ (called live k c k' r a e) =
      let (k1, e1, kept, same) = run-IsKept live live c k (reached-IsKept live k r) a in
      subst (λ z. IsKept (after c live) (after c live) z) (some-injective k1 k' (sym e1 ∙ e)) kept
  reached-IsKept _ _ (scheduled live k now tick k' r f e) =
      let (t1, k1, e1, kept) = schedule-IsKept live callback f now k (reached-IsKept live k r) in
      subst (λ z. IsKept live live z)
        (ap (λ z. z.1) (some-injective (t1, k1) (tick, k') (sym e1 ∙ e))) kept

  -- From `ek_pt_init` on, whatever calls in order and rounds came before: the lists of the kernel
  -- agree with its threads, a call that is in order then returns, and a round returns, when the
  -- callbacks of the threads leave the lists in that agreement. The calls are those outside of the
  -- callbacks: a thread takes a semaphore, sends or receives only in its callback, as part of a round.
  pub reached_goes_on :
      (live : ℕ → Bool) (k : Kernel) (c : Call) (now : ℕ)
      → Reached live k
      → Allowed live live c k
      → Friendly live callback
      → IsKept live live k
        × ((k' : Kernel) × (run c k ≡ some k'))
        × ((tick : ℕ) × (k' : Kernel) × (schedule callback now k ≡ some (tick, k')))
  reached_goes_on live k c now r a f =
      let is = reached-IsKept live k r in
      let (k1, e1, kept1, same) = run-IsKept live live c k is a in
      let (t, k2, e2, kept2) = schedule-IsKept live callback f now k is in
      (is, (k1, e1), (t, k2, e2))

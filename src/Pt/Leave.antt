-- ===== src/Pt/Leave.antt =====
-- inc/ek_picothread.h: what the macros leave with which a callback takes a semaphore.
use ek_utils.Base.{
  refl_eq, ℕ, ◌≡◌, refl, sym, ap, ◌∙◌, Bool, true, false, not, Option, none, some, ◌==◌, update,
  ◌>>=◌, bind_some,
}
use ek_utils.Pt.Kernel.{running, Kernel}
use ek_utils.Pt.Kept.{IsKept, waits_for_none}
use ek_utils.Pt.SemCalls.{sem_take-IsKept}
use ek_utils.Pt.ThreadCalls.{block-IsKept}
use ek_utils.Pt.Rounds.{IsLeft}
use ek_utils.Pt.Threads.{block, is_cur}
use ek_utils.Pt.Sem.{sem_take}
use ek_utils.Pt.Macros.{Outcome, done, yielded, attempt, sem_take_enter}

abbrev here : ℕ → Option ℕ → Bool
here i o = elim o [ none ↦ false | some c ↦ i == c ]

abbrev result : Kernel → Option ℕ → Option (Outcome × Kernel)
result k o = do
  e ← elim o [ none ↦ none | some i ↦ some (k.thread i).wait_result ]
  some (done e, k)

module _ (live : ℕ → Bool) (i : ℕ) (k : Kernel) (l : live i ≡ true) where
  -- The head of a loop that takes or waits, when what it tries keeps the lists.
  attempt-IsLeft :
      (try : Kernel → Option (Bool × Kernel)) (tick : ℕ) (b : Bool) (k1 : Kernel)
      → try k ≡ some (b, k1)
      → IsKept live (update live i false) k1
      → k1.cur ≡ some i
      → (k1.thread i).state ≡ running
      → (b ≡ true → waits_for_none (k1.thread i) ≡ true)
      → (r : Outcome) × (k' : Kernel) × (attempt try tick k ≡ some (r, k')) × IsLeft live i k'
  attempt-IsLeft try tick true k1 e kept c s w = (
    done (k1.thread i).wait_result,
    k1,
    bind_some _ (true, k1) _ _ e (ap (result k1) c),
    (kept, c, (λ h. cc (h, s)), (λ h. let n = w refl in absurd (cc (h, n)))),
  )
  attempt-IsLeft try tick false k1 e kept c s w =
      let off_i : update live i false i ≡ false = rw (refl_eq i) refl in
      let me : is_cur i k1 ≡ true = ap (here i) c ∙ refl_eq i in
      let (k2, e2, kept2, sp, st) =
        block-IsKept live (update live i false) i k1 kept tick (off_i ∙ ap not (sym me)) l in
      (
        yielded,
        k2,
        bind_some _ (false, k1) _ _ e (bind_some _ k2 _ _ (ap (λ o. block o tick k1) c ∙ e2) refl),
        (kept2, sp.cur ∙ c, (λ h. cc (h, st)), (λ h. st)),
      )

  -- A callback that begins to take a semaphore by `EK_PT_SEM_TAKE` comes to the end of the macro, or
  -- to its yield.
  pub sem_take_enter-IsLeft :
      (s tick : ℕ)
      → IsKept live (update live i false) k
      → k.cur ≡ some i
      → (k.thread i).state ≡ running
      → waits_for_none (k.thread i) ≡ true
      → (r : Outcome) × (k' : Kernel) × (sem_take_enter (some s) tick k ≡ some (r, k'))
        × IsLeft live i k'
  unfolding sem_take_enter
  sem_take_enter-IsLeft s tick is c st w =
      let (b, k1, e, kept, same, st1, un) =
        sem_take-IsKept live (update live i false) s i k is c l (rw (refl_eq i) refl) w in
      attempt-IsLeft (sem_take (some s)) tick b k1 e kept (same ∙ c) (st1 ∙ st)
        (λ h. ap (λ t. waits_for_none t) (un h) ∙ w)

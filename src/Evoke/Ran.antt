-- ===== src/Evoke/Ran.antt =====
-- src/ek_evoke.c: what a run of the ready tasks keeps.
use mathlib.Core.Path.{subst}
use mathlib.Core.Option.{some-injective}
use ek_utils.Base.{
  ℕ, zero, suc, ◌≡◌, refl, sym, ◌∙◌, inl, inr, Bool-cases, not, ◌||◌, Option, none, some, List, [],
  ◌∷◌, ◌>>=◌,
}
use ek_utils.Evoke.State.{Evoke}
use ek_utils.Evoke.Events.{linked, join_waiting}
use ek_utils.Evoke.Loop.{requeue, run_task, run_ready}
use ek_utils.Evoke.Ready.{started}
use ek_utils.Evoke.Rest.{ready_empty, ready_first}

bind-some :
    (r : Option Evoke) (f : Evoke → Option Evoke) {k' : Evoke}
    → (r >>= f) ≡ some k'
    → (k : Evoke) × (r ≡ some k) × (f k ≡ some k')
bind-some none f e = cc e
bind-some (some k) f e = (k, refl, e)

requeue-some :
    (i : ℕ) (w : Option ℕ) (k : Evoke) {k' : Evoke}
    → requeue i w k ≡ some k'
    → (e : ℕ) × (join_waiting i e k ≡ k')
unfolding requeue
requeue-some i none k e = cc e
requeue-some i (some e) k {k'} q =
    elim (Bool-cases (linked i k || not (k.task i).alive || not (k.event e).alive)) [
      | inl bad ↦ cc (rw bad at q)
      | inr good ↦ (e, some-injective _ _ (rw good at q))
    ]

-- What the parts of a round keep, and so does the run.
module _ (callback : ℕ → Option ℕ → Evoke → Option Evoke) (P : Evoke → Type 0)
    (starts : (i : ℕ) (rest : List ℕ) (k : Evoke) → P k → P (started i rest k))
    (returns : (i : ℕ) (w : Option ℕ) (k k' : Evoke) → callback i w k ≡ some k' → P k → P k')
    (joins : (i e : ℕ) (k : Evoke) → P k → P (join_waiting i e k)) where
  run_task-keeps :
      (i : ℕ) (rest : List ℕ) (k k' : Evoke) → run_task callback i rest k ≡ some k' → P k → P k'
  unfolding run_task
  run_task-keeps i rest k k' runs p =
      let (k2, back, queued) =
        bind-some (callback i (k.task i).wait_event (started i rest k)) _ runs in
      let (e, same) = requeue-some i (k2.task i).wait_event k2 queued in
      subst P same (joins i e k2 (returns i _ (started i rest k) k2 back (starts i rest k p)))

  pub ready-keeps :
      (fuel : ℕ) (l : List ℕ) (k k' : Evoke)
      → k.ready_list ≡ l
      → run_ready callback fuel k ≡ some k'
      → P k
      → P k'
  unfolding run_ready
  ready-keeps zero l k k' r runs p = cc runs
  ready-keeps (suc fuel) [] k k' r runs p =
      subst P (some-injective _ _ (sym (ready_empty callback fuel k r) ∙ runs)) p
  ready-keeps (suc fuel) (i ∷ rest) k k' r runs p =
      let (k1, first, more) =
        bind-some (run_task callback i rest k) _
          (sym (ready_first callback fuel i rest k r) ∙ runs) in
      ready-keeps fuel k1.ready_list k1 k' refl more (run_task-keeps i rest k k1 first p)

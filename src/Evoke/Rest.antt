-- ===== src/Evoke/Rest.antt =====
-- src/ek_evoke.c: the loop over the ready list comes to its end.
use mathlib.Core.Path.{subst}
use ek_utils.Base.{
  ℕ, zero, suc, ◌<◌, ◌≡◌, refl, ap, ◌∙◌, arith, inl, inr, Bool-cases, Option, some, List, [], ◌∷◌,
  ◌==◌, ◌∈◌, ◌∉◌, has, sym, length, ◌>>=◌,
}
use ek_utils.Dlist.Chain.{Distinct}
use ek_utils.Evoke.State.{waiting, Evoke}
use ek_utils.Evoke.Loop.{run_task, run_ready}
use ek_utils.Evoke.Wired.{IsWired}
use ek_utils.Evoke.Ready.{IsQuiet, IsServed, Round, run_task-Round}

-- What the loop over the ready tasks `l` leaves.
pub record Rested (l : List ℕ) (k k' : Evoke) : Type 0 where
  pub wired : IsWired k'
  pub none_ready : k'.ready_list ≡ []
  pub all_wait : (c : ℕ) → c ∈ l → (k'.task c).state ≡ waiting
  pub back_in :
      (c : ℕ) → c ∈ l → (e : ℕ) × ((k.task c).wait_event ≡ some e) × (c ∈ (k'.event e).wait_list)
  pub others_same : (c : ℕ) → c ∉ l → k'.task c ≡ k.task c

pub ready_empty :
    (callback : ℕ → Option ℕ → Evoke → Option Evoke) (fuel : ℕ) (k : Evoke)
    → k.ready_list ≡ []
    → run_ready callback (suc fuel) k ≡ some k
unfolding run_ready
ready_empty callback fuel k r = rw r refl

pub ready_first :
    (callback : ℕ → Option ℕ → Evoke → Option Evoke) (fuel i : ℕ) (rest : List ℕ) (k : Evoke)
    → k.ready_list ≡ i ∷ rest
    → run_ready callback (suc fuel) k ≡ (run_task callback i rest k >>= run_ready callback fuel)
unfolding run_ready
ready_first callback fuel i rest k r = rw r refl

Round-Rested :
    (i : ℕ) (rest : List ℕ) {k k1 k2 : Evoke}
    → i ∉ rest
    → Round i rest k k1
    → Rested rest k1 k2
    → Rested (i ∷ rest) k k2
Round-Rested i rest {k} {k1} {k2} once first more = record {
  back_in = λ c m. elim (Bool-cases (c == i)) [
    | inl q ↦
        let same : c ≡ i = ground arith in
        let kept : k2.task i ≡ k1.task i = more.others_same i once in
        let (e, at, there) =
          (more.wired).wait_there i (ap (λ t. t.alive) kept ∙ first.lives)
            (ap (λ t. t.state) kept ∙ first.waits) in
        (
          e,
          ap (λ d. (k.task d).wait_event) same
              ∙ sym (ap (λ t. t.wait_event) kept ∙ first.same_event)
              ∙ at,
          ap (λ d. has d (k2.event e).wait_list) same ∙ there,
        )
    | inr q ↦
        let (e, at, there) = more.back_in c (ground (arith, m)) in
        (e, sym (ap (λ t. t.wait_event) (first.others c (ground arith))) ∙ at, there)
  ];
  wired = more.wired;
  none_ready = more.none_ready;
  all_wait = λ c m. elim (Bool-cases (c == i)) [
    | inl q ↦
        let e : c ≡ i = ground arith in
        ap (λ d. (k2.task d).state) e ∙ ap (λ t. t.state) (more.others_same i once) ∙ first.waits
    | inr q ↦ more.all_wait c (ground (arith, m))
  ];
  others_same = λ c m. more.others_same c (ground (arith, m)) ∙ first.others c (ground (arith, m));
}

-- Let the callbacks return and change no task, no ready or wait list and nothing of what is in use,
-- let the scheduler be well-formed, and let the ready tasks be in use and wait for events in use. Then the loop over the ready list, with a round
-- for each of them and one more, ends: no task is ready, those that were wait again and stand in the
-- wait list of the event that each named before, the others are as before, and the scheduler is
-- well-formed.
pub run_ready-rests :
    (callback : ℕ → Option ℕ → Evoke → Option Evoke) (l : List ℕ) (fuel : ℕ) (k : Evoke)
    → IsQuiet callback
    → IsWired k
    → k.ready_list ≡ l
    → IsServed l k
    → length l < fuel
    → (k' : Evoke) × (run_ready callback fuel k ≡ some k') × Rested l k k'
run_ready-rests callback l zero k quiet w r served h = absurd (omega (arith, h))
run_ready-rests callback [] (suc fuel) k quiet w r served h = (
  k,
  ready_empty callback fuel k r,
  record {
    wired = w;
    none_ready = r;
    all_wait = λ c m. ground (arith, m);
    back_in = λ c m. ground (arith, m);
    others_same = λ c m. refl;
  },
)
run_ready-rests callback (i ∷ rest) (suc fuel) k quiet w r served h =
    let once : Distinct (i ∷ rest) = subst Distinct r w.once_ready in
    let (k1, runs, first) = run_task-Round callback i rest k quiet w r served in
    let (k2, ends, more) =
      run_ready-rests callback rest fuel k1 quiet first.wired first.left first.served
        (omega (arith, h)) in
    (
      k2,
      ready_first callback fuel i rest k r ∙ ap (λ q. q >>= run_ready callback fuel) runs ∙ ends,
      Round-Rested i rest once.0 first more,
    )

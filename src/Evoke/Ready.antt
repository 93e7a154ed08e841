-- ===== src/Evoke/Ready.antt =====
-- src/ek_evoke.c: the loop over the ready list.
use mathlib.Core.Path.{subst}
use ek_utils.Base.{
  refl_eq, ℕ, ◌≡◌, ◌≢◌, refl, sym, ap, ◌∙◌, arith, true, false, ◌||◌, Option, none, some, List, ◌∷◌,
  ◌==◌, has, ◌∈◌, ◌∉◌, ◌>>=◌,
}
use ek_utils.Dlist.Chain.{Distinct}
use ek_utils.Evoke.State.{waiting, running, Evoke}
use ek_utils.Evoke.Events.{set_task, linked, join_waiting}
use ek_utils.Evoke.Loop.{requeue, run_task}
use ek_utils.Evoke.Deliver.{requeue_lem}
use ek_utils.Evoke.Wired.{IsWired, still_there, join_waiting-IsWired}
use ek_utils.Evoke.Released.{first-Without, leave_ready-IsWired}

-- The tasks, the ready list and who waits for what are the same, and so is what is in use.
pub record SameTasks (k k' : Evoke) : Type 0 where
  pub task_same : k'.task ≡ k.task
  pub ready_same : k'.ready_list ≡ k.ready_list
  pub waits_same : (e : ℕ) → (k'.event e).wait_list ≡ (k.event e).wait_list
  pub alive_same : (e : ℕ) → (k'.event e).alive ≡ (k.event e).alive

-- Callbacks that return, from every state, and leave tasks, ready list and wait lists as they are.
-- They may count events that nobody waits for, and defer requests.
abbrev pub IsQuiet : (ℕ → Option ℕ → Evoke → Option Evoke) → Type 0
IsQuiet callback =
    (i : ℕ) (w : Option ℕ) (k : Evoke) → (k' : Evoke) × (callback i w k ≡ some k') × SameTasks k k'

-- The tasks of the list are in use and wait for events in use.
abbrev pub IsServed : List ℕ → Evoke → Type 0
IsServed l k =
    (i : ℕ)
    → i ∈ l
    → ((k.task i).alive ≡ true)
      × (e : ℕ) × ((k.task i).wait_event ≡ some e)
      × ((k.event e).alive ≡ true)

SameTasks-IsWired : {k k' : Evoke} → SameTasks k k' → IsWired k → IsWired k'
SameTasks-IsWired {k} {k'} s w = record {
  at_event = λ e c m. rw s.task_same (w.at_event e c (rw (sym (s.waits_same e)) m));
  waits = λ e c m. rw s.task_same (w.waits e c (rw (sym (s.waits_same e)) m));
  readies = λ c m. rw s.task_same (w.readies c (rw (sym s.ready_same) m));
  once_ready = rw s.ready_same w.once_ready;
  once_waiting = λ e. rw (s.waits_same e) (w.once_waiting e);
  ready_there = λ c u st.
      rw s.ready_same (w.ready_there c (rw (sym s.task_same) u) (rw (sym s.task_same) st));
  wait_there = λ c u st.
      still_there c k k' w (rw (sym s.task_same) u) (rw (sym s.task_same) st)
        (ap (λ t. (t c).wait_event) s.task_same) (λ e m. rw (s.waits_same e) m);
  live_ready = λ c m. rw s.task_same (w.live_ready c (rw (sym s.ready_same) m));
  live_waiter = λ e c m. rw s.task_same (w.live_waiter e c (rw (sym (s.waits_same e)) m));
  live_event = λ e c m. rw (s.alive_same e) (w.live_event e c (rw (sym (s.waits_same e)) m));
}

-- The state that the callback of the first ready task finds.
abbrev pub started : ℕ → List ℕ → Evoke → Evoke
started i rest k =
    let t = k.task i in set_task i (record t { state = running }) (record k { ready_list = rest })

-- The first ready task stands in no other list.
waits_nowhere : (i e : ℕ) (k : Evoke) → IsWired k → i ∈ k.ready_list → i ∉ (k.event e).wait_list
waits_nowhere i e k w m = ground (arith, m, w.readies i, w.waits e i)

started-IsWired :
    (i : ℕ) (rest : List ℕ) (k : Evoke)
    → IsWired k
    → k.ready_list ≡ i ∷ rest
    → IsWired (started i rest k)
started-IsWired i rest k w r =
    let first : i ∈ k.ready_list = ground (arith, r) in
    let once : Distinct (i ∷ rest) = subst Distinct r w.once_ready in
    let t = k.task i in
    leave_ready-IsWired i (record t { state = running }) rest k w
      ((λ u. ground arith), (λ u. ground arith)) (rw r (first-Without i rest once))
      (λ e. waits_nowhere i e k w first)

started_unlinked :
    (i e : ℕ) (rest : List ℕ) (k : Evoke)
    → IsWired k
    → k.ready_list ≡ i ∷ rest
    → (k.task i).wait_event ≡ some e
    → linked i (started i rest k) ≡ false
started_unlinked i e rest k w r at =
    let first : i ∈ k.ready_list = ground (arith, r) in
    let once : Distinct (i ∷ rest) = subst Distinct r w.once_ready in
    let waits : ((started i rest k).task i).wait_event ≡ some e = rw (refl_eq i) at in
    ap (λ w. has i rest || elim w [ none ↦ false | some e' ↦ has i (k.event e').wait_list ]) waits
    ∙ rw (once.0, waits_nowhere i e k w first) refl

unlinked_after :
    (i e : ℕ) {k k' : Evoke}
    → SameTasks k k'
    → (k.task i).wait_event ≡ some e
    → linked i k ≡ false
    → linked i k' ≡ false
unlinked_after i e {k} {k'} s at free =
    let at' : (k'.task i).wait_event ≡ some e = ap (λ t. (t i).wait_event) s.task_same ∙ at in
    let here : has i k.ready_list ≡ false = ground (arith, free) in
    let there : has i (k.event e).wait_list ≡ false = ground (arith, free, at) in
    ap
      (λ w.
        has i k'.ready_list || elim w [ none ↦ false | some e' ↦ has i (k'.event e').wait_list ])
      at'
    ∙ rw (s.ready_same, s.waits_same e, here, there) refl

pub has_head : (i : ℕ) (rest : List ℕ) → i ∈ (i ∷ rest)
has_head i rest = ground arith

-- A round of the loop takes the first task off the ready list, and it waits again.
pub record Round (i : ℕ) (rest : List ℕ) (k k' : Evoke) : Type 0 where
  pub wired : IsWired k'
  pub left : k'.ready_list ≡ rest
  pub served : IsServed rest k'
  pub waits : (k'.task i).state ≡ waiting
  pub lives : (k'.task i).alive ≡ true
  pub same_event : (k'.task i).wait_event ≡ (k.task i).wait_event
  pub others : (c : ℕ) → c ≢ i → k'.task c ≡ k.task c

module _ (i e : ℕ) (rest : List ℕ) (k k2 : Evoke) (s : SameTasks (started i rest k) k2) where
  after_task : (c : ℕ) → c ≢ i → (join_waiting i e k2).task c ≡ k.task c
  unfolding join_waiting
  after_task c ne =
      let off : (c == i) ≡ false = ground (arith, ne) in
      let before : (started i rest k).task c ≡ k.task c = rw off refl in
      rw off (ap (λ t. t c) s.task_same ∙ before)

  after_alive : (c : ℕ) → ((join_waiting i e k2).event c).alive ≡ (k.event c).alive
  unfolding join_waiting
  after_alive c = ground (arith, s.alive_same c, s.alive_same e)

  after_Round :
      IsWired k
      → k.ready_list ≡ i ∷ rest
      → IsServed (i ∷ rest) k
      → linked i k2 ≡ false
      → (k2.task i).alive ≡ true
      → (k2.event e).alive ≡ true
      → (k.task i).wait_event ≡ some e
      → Round i rest k (join_waiting i e k2)
  unfolding join_waiting
  after_Round w r serve free live there at = record {
    wired =
        join_waiting-IsWired i e k2 (SameTasks-IsWired s (started-IsWired i rest k w r)) free live
          there;
    left = s.ready_same;
    served = λ c m.
        let once : i ∉ rest = (subst Distinct r w.once_ready).0 in
        let ne : c ≢ i = ground (arith, m, once) in
        let (lives, e', named, used) = serve c (ground (arith, m)) in
        (
          ap (λ t. t.alive) (after_task c ne) ∙ lives,
          e',
          ap (λ t. t.wait_event) (after_task c ne) ∙ named,
          after_alive e' ∙ used,
        );
    waits = rw (refl_eq i) refl;
    lives = rw (refl_eq i) live;
    same_event = rw (refl_eq i) (sym at);
    others = after_task;
  }

-- A round of the loop, with a callback that makes no task ready.
pub run_task-Round :
    (callback : ℕ → Option ℕ → Evoke → Option Evoke) (i : ℕ) (rest : List ℕ) (k : Evoke)
    → IsQuiet callback
    → IsWired k
    → k.ready_list ≡ i ∷ rest
    → IsServed (i ∷ rest) k
    → (k' : Evoke) × (run_task callback i rest k ≡ some k') × Round i rest k k'
unfolding run_task
run_task-Round callback i rest k quiet w r served =
    let (lives, e, at, there) = served i (has_head i rest) in
    let k1 = started i rest k in
    let (k2, runs, s) = quiet i (k.task i).wait_event k1 in
    let at1 : (k1.task i).wait_event ≡ some e = rw (refl_eq i) at in
    let free : linked i k2 ≡ false =
      unlinked_after i e s at1 (started_unlinked i e rest k w r at) in
    let at2 : (k2.task i).wait_event ≡ some e = ap (λ t. (t i).wait_event) s.task_same ∙ at1 in
    let live2 : (k2.task i).alive ≡ true =
      ap (λ t. (t i).alive) s.task_same ∙ rw (refl_eq i) lives in
    (
      join_waiting i e k2,
      ap (λ q. q >>= (λ k. requeue i (k.task i).wait_event k)) runs
          ∙ ap (λ v. requeue i v k2) at2
          ∙ requeue_lem i e k2 free live2 (s.alive_same e ∙ there),
      after_Round i e rest k k2 s w r served free live2 (s.alive_same e ∙ there) at,
    )

-- ===== src/Evoke/Deliver.antt =====
-- src/ek_evoke.c: whom an event reaches, and what it leaves.
use mathlib.Core.List.{append_assoc, append-nil}
use ek_utils.Base.{
  refl_eq, ℕ, suc, ◌≡◌, refl, sym, ap, ◌∙◌, true, false, ◌||◌, none, some, List, [], ◌∷◌, ◌++◌,
  if◌then◌else◌, has, is_nil, add32,
}
use ek_utils.Evoke.State.{waiting, running, Evoke}
use ek_utils.Evoke.Events.{
  set_task, set_payload, linked, join_waiting, wake_first, wake_all, count_up, deliver_one,
  deliver_all, publish, broadcast,
}
use ek_utils.Evoke.Loop.{requeue, run_task}

-- What the delivery of an event to the tasks `woken` leaves of it and of the ready list.
pub record Delivered (e payload : ℕ) (woken left : List ℕ) (k k' : Evoke) : Type 0 where
  pub ready_behind : k'.ready_list ≡ k.ready_list ++ woken
  pub still_wait : (k'.event e).wait_list ≡ left
  pub counted :
      (k'.event e).count ≡ (if is_nil woken then add32 (k.event e).count 1 else (k.event e).count)
  pub carries : (k'.event e).payload ≡ payload
  pub lives : (k'.event e).alive ≡ (k.event e).alive

abbrev pub first_only : List ℕ → List ℕ
first_only [] = []
first_only (i ∷ rest) = i ∷ []

abbrev pub all_but_first : List ℕ → List ℕ
all_but_first [] = []
all_but_first (i ∷ rest) = rest

deliver_one_lem :
    (e payload : ℕ) (waits : List ℕ) (k : Evoke)
    → (k.event e).wait_list ≡ waits
    → Delivered e payload
        (first_only waits)
        (all_but_first waits)
        k
        (deliver_one e waits (set_payload e payload k))
unfolding deliver_one count_up wake_first
deliver_one_lem e payload [] k w = record {
  ready_behind = sym (append-nil k.ready_list);
  still_wait = rw (refl_eq e) w;
  counted = rw (refl_eq e) refl;
  carries = rw (refl_eq e) refl;
  lives = rw (refl_eq e) refl;
}
deliver_one_lem e payload (i ∷ rest) k w = record {
  ready_behind = refl;
  still_wait = rw (refl_eq e) refl;
  counted = rw (refl_eq e) refl;
  carries = rw (refl_eq e) refl;
  lives = rw (refl_eq e) refl;
}

wake_all_lem :
    (e : ℕ) (waits : List ℕ) (k : Evoke)
    → (k.event e).wait_list ≡ waits
    → let k' = wake_all e waits k in
      (k'.ready_list ≡ k.ready_list ++ waits)
      × ((k'.event e).wait_list ≡ [])
      × ((k'.event e).count ≡ (k.event e).count)
      × ((k'.event e).payload ≡ (k.event e).payload)
      × ((k'.event e).alive ≡ (k.event e).alive)
unfolding wake_all wake_first
wake_all_lem e [] k w = (sym (append-nil k.ready_list), w, refl, refl, refl)
wake_all_lem e (i ∷ rest) k w =
    let k1 = wake_first e i rest k in
    let left : (k1.event e).wait_list ≡ rest = rw (refl_eq e) refl in
    let (ready, waits, count, payload, alive) = wake_all_lem e rest k1 left in
    (
      ready ∙ append_assoc k.ready_list (i ∷ []) rest,
      waits,
      count ∙ rw (refl_eq e) refl,
      payload ∙ rw (refl_eq e) refl,
      alive ∙ rw (refl_eq e) refl,
    )

deliver_all_lem :
    (e payload : ℕ) (waits : List ℕ) (k : Evoke)
    → (k.event e).wait_list ≡ waits
    → Delivered e payload waits [] k (deliver_all e waits (set_payload e payload k))
unfolding deliver_all count_up
deliver_all_lem e payload [] k w = record {
  ready_behind = sym (append-nil k.ready_list);
  still_wait = rw (refl_eq e) w;
  counted = rw (refl_eq e) refl;
  carries = rw (refl_eq e) refl;
  lives = rw (refl_eq e) refl;
}
deliver_all_lem e payload (i ∷ rest) k w =
    let k1 = set_payload e payload k in
    let same : (k1.event e).wait_list ≡ i ∷ rest = rw (refl_eq e) w in
    let (ready, waits, count, given, alive) = wake_all_lem e (i ∷ rest) k1 same in
    record {
      ready_behind = ready;
      still_wait = waits;
      counted = count ∙ rw (refl_eq e) refl;
      carries = given ∙ rw (refl_eq e) refl;
      lives = alive ∙ rw (refl_eq e) refl;
    }

-- `ek_evoke_event_publish` of an event in use puts the first task that waits for it, if there is
-- one, behind the tasks that are ready; the others still wait. Only if none waits, the count goes up
-- by one, modulo 2^32. The event carries the payload.
pub publish_lem :
    (e payload : ℕ) (k : Evoke)
    → (k.event e).alive ≡ true
    → let waits = (k.event e).wait_list in
      (k' : Evoke) × (publish (some e) payload k ≡ some k')
      × Delivered e payload (first_only waits) (all_but_first waits) k k'
unfolding publish
publish_lem e payload k live =
    (deliver_one e _ (set_payload e payload k), rw live refl, deliver_one_lem e payload _ k refl)

-- `ek_evoke_event_broadcast` of an event in use puts all tasks that wait for it behind the tasks that
-- are ready, in their order, and none still waits. Only if none waited, the count goes up by one,
-- modulo 2^32. The event carries the payload.
pub broadcast_lem :
    (e payload : ℕ) (k : Evoke)
    → (k.event e).alive ≡ true
    → (k' : Evoke) × (broadcast (some e) payload k ≡ some k')
      × Delivered e payload (k.event e).wait_list [] k k'
unfolding broadcast
broadcast_lem e payload k live =
    (deliver_all e _ (set_payload e payload k), rw live refl, deliver_all_lem e payload _ k refl)

pub requeue_lem :
    (i e : ℕ) (k : Evoke)
    → linked i k ≡ false
    → (k.task i).alive ≡ true
    → (k.event e).alive ≡ true
    → requeue i (some e) k ≡ some (join_waiting i e k)
unfolding requeue
requeue_lem i e k apart live there = rw (apart, live, there) refl

-- The loop runs a task whose event was published again in the meantime, with a callback that leaves
-- everything alone: the task then waits for the event although its count is not 0, and the count
-- stays as it is. The publication has woken nobody.
pub run_task-misses :
    (i e c : ℕ) (rest : List ℕ) (k : Evoke)
    → (k.task i).wait_event ≡ some e
    → (k.task i).alive ≡ true
    → (k.event e).alive ≡ true
    → (k.event e).wait_list ≡ []
    → (k.event e).count ≡ suc c
    → has i rest ≡ false
    → (k' : Evoke) × (run_task (λ i e k. some k) i rest k ≡ some k')
      × (k'.ready_list ≡ rest)
      × ((k'.event e).wait_list ≡ i ∷ [])
      × ((k'.event e).count ≡ suc c)
      × ((k'.task i).state ≡ waiting)
unfolding run_task join_waiting
run_task-misses i e c rest k at live there empty count once =
    let t = k.task i in
    let k1 = set_task i (record t { state = running }) (record k { ready_list = rest }) in
    let waits : (k1.task i).wait_event ≡ some e = rw (refl_eq i) at in
    let apart : linked i k1 ≡ false =
      ap (λ w. has i rest || elim w [ none ↦ false | some e' ↦ has i (k.event e').wait_list ]) waits
      ∙ rw (once, empty) refl in
    let lives : (k1.task i).alive ≡ true = rw (refl_eq i) live in
    (
      join_waiting i e k1,
      ap (λ w. requeue i w k1) waits ∙ requeue_lem i e k1 apart lives there,
      refl,
      rw (refl_eq e, empty) refl,
      rw (refl_eq e) count,
      rw (refl_eq i) refl,
    )

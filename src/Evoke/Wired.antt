-- ===== src/Evoke/Wired.antt =====
-- src/ek_evoke.c: the lists and the fields of the tasks agree, whatever the scheduler is asked to do.
use mathlib.Core.Path.{subst}
use ek_utils.Base.{
  ℕ, ◌≡◌, ◌∙◌, refl, arith, inl, inr, Bool-cases, true, false, some, List, [], ◌∷◌, ◌==◌, has, ◌∈◌,
  ◌∉◌, add32,
}
use ek_utils.Dlist.Chain.{Distinct, Distinct-snoc, has-append}
use ek_utils.Evoke.State.{waiting, ready, Event, Evoke}
use ek_utils.Evoke.Events.{
  set_event, set_payload, linked, join_ready, join_waiting, wake_first, wake_all, count_up,
  deliver_one, deliver_all,
}

-- Who stands in a list of an event waits for that event, who stands in the ready list is ready, and
-- nobody stands twice in a list. Whoever is in use and waits has an event and stands in its list,
-- and whoever is in use and ready stands in the ready list. What was freed is in no list and has
-- none.
pub record IsWired (k : Evoke) : Type 0 where
  pub at_event : (e i : ℕ) → i ∈ (k.event e).wait_list → (k.task i).wait_event ≡ some e
  pub waits : (e i : ℕ) → i ∈ (k.event e).wait_list → (k.task i).state ≡ waiting
  pub readies : (i : ℕ) → i ∈ k.ready_list → (k.task i).state ≡ ready
  pub once_ready : Distinct k.ready_list
  pub once_waiting : (e : ℕ) → Distinct (k.event e).wait_list
  pub ready_there : (i : ℕ) → (k.task i).alive ≡ true → (k.task i).state ≡ ready → i ∈ k.ready_list
  pub wait_there :
      (i : ℕ)
      → (k.task i).alive ≡ true
      → (k.task i).state ≡ waiting
      → (e : ℕ) × ((k.task i).wait_event ≡ some e) × (i ∈ (k.event e).wait_list)
  pub live_ready : (i : ℕ) → i ∈ k.ready_list → (k.task i).alive ≡ true
  pub live_waiter : (e i : ℕ) → i ∈ (k.event e).wait_list → (k.task i).alive ≡ true
  pub live_event : (e i : ℕ) → i ∈ (k.event e).wait_list → (k.event e).alive ≡ true

-- What a change leaves of `wait_there` for a task: it waits for the same event as before.
pub still_there :
    (i : ℕ) (k k' : Evoke)
    → IsWired k
    → (k.task i).alive ≡ true
    → (k.task i).state ≡ waiting
    → (k'.task i).wait_event ≡ (k.task i).wait_event
    → ((e : ℕ) → i ∈ (k.event e).wait_list → i ∈ (k'.event e).wait_list)
    → (e : ℕ) × ((k'.task i).wait_event ≡ some e) × (i ∈ (k'.event e).wait_list)
still_there i k k' w live state same there =
    let (e, at, m) = w.wait_there i live state in (e, same ∙ at, there e m)

-- A task that no list links stands in none.
pub unlinked_ready : (i : ℕ) (k : Evoke) → linked i k ≡ false → i ∉ k.ready_list
unlinked_ready i k h = ground arith

pub unlinked_waiting :
    (i e : ℕ) (k : Evoke) → IsWired k → linked i k ≡ false → i ∉ (k.event e).wait_list
unlinked_waiting i e k w h = elim (Bool-cases (has i (k.event e).wait_list)) [
  | inr out ↦ out
  | inl m ↦ let at : (k.task i).wait_event ≡ some e = w.at_event e i m in ground (arith, h, at)
]

wake_first-IsWired :
    (e i : ℕ) (rest : List ℕ) (k : Evoke)
    → IsWired k
    → (k.event e).wait_list ≡ i ∷ rest
    → IsWired (wake_first e i rest k)
unfolding wake_first
wake_first-IsWired e i rest k w l =
    let d : Distinct (i ∷ rest) = subst Distinct l (w.once_waiting e) in
    let mine : i ∈ (k.event e).wait_list = ground (arith, l) in
    let here : (k.task i).wait_event ≡ some e = w.at_event e i mine in
    let still : (k.task i).state ≡ waiting = w.waits e i mine in
    let live : (k.task i).alive ≡ true = w.live_waiter e i mine in
    record {
      at_event = λ e' c m. ground (arith, l, w.at_event e' c, w.at_event e c);
      waits = λ e' c m. ground (arith, l, d, w.waits e' c, w.waits e c, w.at_event e' c);
      readies = λ c m. ground (arith, has-append c k.ready_list (i ∷ []), w.readies c);
      once_ready = Distinct-snoc k.ready_list i w.once_ready (ground (arith, w.readies i));
      once_waiting =
          λ e'. elim (Bool-cases (e' == e)) [ inl q ↦ rw q d.1 | inr q ↦ rw q (w.once_waiting e') ];
      ready_there = λ c u s. ground (arith, has-append c k.ready_list (i ∷ []), w.ready_there c);
      wait_there = λ c u s.
          let ne : (c == i) ≡ false = ground arith in
          still_there c k (wake_first e i rest k) w (ground arith) (ground arith) (ground arith)
            (λ e' m. ground (arith, l));
      live_ready = λ c m. ground (arith, has-append c k.ready_list (i ∷ []), w.live_ready c);
      live_waiter = λ e' c m. ground (arith, l, w.live_waiter e' c, w.live_waiter e c);
      live_event = λ e' c m. ground (arith, l, w.live_event e' c, w.live_event e i mine);
    }

-- A change of an event that touches no list, and frees no event that somebody waits for.
pub event_fields-IsWired :
    (e : ℕ) (v : Event) (k : Evoke)
    → IsWired k
    → v.wait_list ≡ (k.event e).wait_list
    → ((i : ℕ) → i ∈ v.wait_list → v.alive ≡ true)
    → IsWired (set_event e v k)
event_fields-IsWired e v k w l u = record {
  at_event = λ e' c m. ground (arith, l, w.at_event e' c);
  waits = λ e' c m. ground (arith, l, w.waits e' c);
  readies = w.readies;
  once_ready = w.once_ready;
  once_waiting = λ e'. elim (Bool-cases (e' == e)) [
    | inl q ↦
        let at : e' ≡ e = ground arith in
        rw (q, l) (subst (λ d. Distinct (k.event d).wait_list) at (w.once_waiting e'))
    | inr q ↦ rw q (w.once_waiting e')
  ];
  ready_there = w.ready_there;
  wait_there = λ c a s. still_there c k (set_event e v k) w a s refl (λ e' m. ground (arith, l));
  live_ready = w.live_ready;
  live_waiter = λ e' c m. ground (arith, l, w.live_waiter e' c);
  live_event = λ e' c m. ground (arith, l, u c, w.live_event e' c);
}

pub join_ready-IsWired :
    (i e : ℕ) (k : Evoke)
    → IsWired k
    → linked i k ≡ false
    → (k.task i).alive ≡ true
    → IsWired (join_ready i e k)
unfolding join_ready
join_ready-IsWired i e k w free live = record {
  at_event = λ e' c m. ground (arith, unlinked_waiting i e' k w free, w.at_event e' c);
  waits = λ e' c m. ground (arith, unlinked_waiting i e' k w free, w.waits e' c);
  readies = λ c m. ground (arith, has-append c k.ready_list (i ∷ []), w.readies c);
  once_ready = Distinct-snoc k.ready_list i w.once_ready (unlinked_ready i k free);
  once_waiting = λ e'. elim (Bool-cases (e' == e)) [
    | inl q ↦
        let at : e' ≡ e = ground arith in
        rw q (subst (λ d. Distinct (k.event d).wait_list) at (w.once_waiting e'))
    | inr q ↦ rw q (w.once_waiting e')
  ];
  ready_there = λ c u s. ground (arith, has-append c k.ready_list (i ∷ []), w.ready_there c);
  wait_there = λ c u s.
      let ne : (c == i) ≡ false = ground arith in
      still_there c k (join_ready i e k) w (ground arith) (ground arith) (ground arith)
        (λ e' m. ground arith);
  live_ready = λ c m. ground (arith, has-append c k.ready_list (i ∷ []), w.live_ready c);
  live_waiter = λ e' c m. ground (arith, w.live_waiter e' c);
  live_event = λ e' c m. ground (arith, w.live_event e' c);
}

pub join_waiting-IsWired :
    (i e : ℕ) (k : Evoke)
    → IsWired k
    → linked i k ≡ false
    → (k.task i).alive ≡ true
    → (k.event e).alive ≡ true
    → IsWired (join_waiting i e k)
unfolding join_waiting
join_waiting-IsWired i e k w free live there =
    let waits = (k.event e).wait_list in
    let more : (c : ℕ) → _ = λ c. has-append c waits (i ∷ []) in
    record {
      at_event = λ e' c m. ground (arith, more c, unlinked_waiting i e' k w free, w.at_event e' c);
      waits = λ e' c m. ground (arith, more c, unlinked_waiting i e' k w free, w.waits e' c);
      readies = λ c m. ground (arith, unlinked_ready i k free, w.readies c);
      once_ready = w.once_ready;
      once_waiting = λ e'. elim (Bool-cases (e' == e)) [
        | inl q ↦ rw q (Distinct-snoc waits i (w.once_waiting e) (unlinked_waiting i e k w free))
        | inr q ↦ rw q (w.once_waiting e')
      ];
      ready_there = λ c u s. ground (arith, w.ready_there c);
      wait_there = λ c u s. elim (Bool-cases (c == i)) [
        | inl q ↦ (e, ground arith, ground (arith, more c))
        | inr q ↦
            still_there c k (join_waiting i e k) w (ground arith) (ground arith) (ground arith)
              (λ e' m. ground (arith, more c))
      ];
      live_ready = λ c m. ground (arith, w.live_ready c);
      live_waiter = λ e' c m. ground (arith, more c, w.live_waiter e' c);
      live_event = λ e' c m. ground (arith, more c, w.live_event e' c);
    }

left_behind :
    (e i : ℕ) (rest : List ℕ) (k : Evoke) → ((wake_first e i rest k).event e).wait_list ≡ rest
unfolding wake_first
left_behind e i rest k = ground arith

wake_all-IsWired :
    (e : ℕ) (waits : List ℕ) (k : Evoke)
    → IsWired k
    → (k.event e).wait_list ≡ waits
    → IsWired (wake_all e waits k)
unfolding wake_all
wake_all-IsWired e [] k w l = w
wake_all-IsWired e (i ∷ rest) k w l =
    wake_all-IsWired e rest (wake_first e i rest k) (wake_first-IsWired e i rest k w l)
      (left_behind e i rest k)

pub set_payload-IsWired :
    (e payload : ℕ) (k : Evoke) → IsWired k → IsWired (set_payload e payload k)
set_payload-IsWired e payload k w =
    let v = k.event e in
    event_fields-IsWired e (record v { payload = payload }) k w refl (w.live_event e)

pub payload_waits :
    (e payload : ℕ) (k : Evoke)
    → ((set_payload e payload k).event e).wait_list ≡ (k.event e).wait_list
payload_waits e payload k = ground arith

count_up-IsWired : (e : ℕ) (k : Evoke) → IsWired k → IsWired (count_up e k)
unfolding count_up
count_up-IsWired e k w =
    let v = k.event e in
    event_fields-IsWired e (record v { count = add32 v.count 1 }) k w refl (w.live_event e)

pub deliver_one-IsWired :
    (e : ℕ) (waits : List ℕ) (k : Evoke)
    → IsWired k
    → (k.event e).wait_list ≡ waits
    → IsWired (deliver_one e waits k)
unfolding deliver_one
deliver_one-IsWired e [] k w l = count_up-IsWired e k w
deliver_one-IsWired e (i ∷ rest) k w l = wake_first-IsWired e i rest k w l

pub deliver_all-IsWired :
    (e : ℕ) (waits : List ℕ) (k : Evoke)
    → IsWired k
    → (k.event e).wait_list ≡ waits
    → IsWired (deliver_all e waits k)
unfolding deliver_all
deliver_all-IsWired e [] k w l = count_up-IsWired e k w
deliver_all-IsWired e (i ∷ rest) k w l = wake_all-IsWired e (i ∷ rest) k w l

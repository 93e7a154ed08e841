-- ===== src/Evoke/Calls.antt =====
-- src/ek_evoke.c: any sequence of calls that keep to the rules leaves the scheduler well-formed.
use ek_utils.Base.{
  ℕ, ◌≡◌, refl, inl, inr, Bool-cases, Bool, true, false, not, ◌&&◌, Option, some, List, [], ◌∷◌,
  ◌==◌, is_nil, ◌>>=◌,
}
use ek_utils.Evoke.State.{Deferred, Evoke}
use ek_utils.Evoke.Events.{
  set_payload, linked, subscribe, publish, broadcast, deliver_one, deliver_all, task_init_static,
  task_deinit_static, task_create, task_destroy, event_init_static, event_create,
  event_deinit_static, event_destroy,
}
use ek_utils.Evoke.Timer.{defer, defer_later, defer_req_malloc, enqueue_deferred}
use ek_utils.Evoke.Isr.{IsrReq, Layout, post, publish_from_isr, broadcast_from_isr, defer_from_isr}
use ek_utils.Evoke.Wired.{
  IsWired, join_ready-IsWired, join_waiting-IsWired, deliver_one-IsWired, deliver_all-IsWired,
  set_payload-IsWired, payload_waits,
}
use ek_utils.Evoke.Released.{deinit-IsWired, destroy-IsWired}
use ek_utils.Evoke.Lifecycle.{
  Keeps, IsResting, task_create-Keeps, task_init_static-Keeps, task_deinit_static-Keeps,
  task_destroy-Keeps, new_event-IsWired, freed_empty,
}

-- What a program asks of the scheduler, interrupts included.
pub data Call : Type 0 where
  creates_task : ℕ → Call
  inits_task : ℕ → Call
  deinits_task : ℕ → Call
  destroys_task : ℕ → Call
  creates_event : ℕ → ℕ → Call
  inits_event : ℕ → ℕ → Call
  deinits_event : ℕ → Call
  destroys_event : ℕ → Call
  subscribes : ℕ → ℕ → Call
  publishes : ℕ → ℕ → Call
  broadcasts : ℕ → ℕ → Call
  defers : ℕ → ℕ → ℕ → Bool → Call
  publishes_from_isr : ℕ → ℕ → Call
  broadcasts_from_isr : ℕ → ℕ → Call
  defers_from_isr : ℕ → ℕ → ℕ → Bool → Call

unfoldable pub call : Layout → Call → Evoke → Option Evoke
call layout (creates_task i) k = task_create true (some i) k >>= λ r. some r.1
call layout (inits_task i) k = task_init_static (some i) true k >>= λ r. some r.1
call layout (deinits_task i) k = task_deinit_static (some i) k
call layout (destroys_task i) k = task_destroy (some i) k
call layout (creates_event e count) k = some (event_create (some e) count k).1
call layout (inits_event e count) k = some (event_init_static (some e) count k).1
call layout (deinits_event e) k = some (event_deinit_static (some e) k)
call layout (destroys_event e) k = some (event_destroy (some e) k)
call layout (subscribes i e) k = subscribe (some i) (some e) k >>= λ r. some r.1
call layout (publishes e payload) k = publish (some e) payload k
call layout (broadcasts e payload) k = broadcast (some e) payload k
call layout (defers e payload delay all) k = defer (some e) payload delay all k
call layout (publishes_from_isr e payload) k = some (publish_from_isr layout (some e) payload k).1
call layout (broadcasts_from_isr e payload) k =
    some (broadcast_from_isr layout (some e) payload k).1
call layout (defers_from_isr e payload delay all) k =
    some (defer_from_isr layout (some e) payload delay all k).1

-- The rules: what is used was not freed, memory that is allocated was free, what is initialised is
-- in no list and has nobody in its own, a task that is reset or freed does not run, and a task that
-- subscribes stands in no list.
abbrev pub IsAllowed : Call → Evoke → Type 0
IsAllowed (creates_task i) k = (k.task i).alive ≡ false
IsAllowed (inits_task i) k = linked i k ≡ false
IsAllowed (deinits_task i) k = IsResting (k.task i) × ((k.task i).alive ≡ true)
IsAllowed (destroys_task i) k = IsResting (k.task i) × ((k.task i).alive ≡ true)
IsAllowed (creates_event e count) k = (k.event e).alive ≡ false
IsAllowed (inits_event e count) k = (k.event e).wait_list ≡ []
IsAllowed (deinits_event e) k = (k.event e).alive ≡ true
IsAllowed (destroys_event e) k = (k.event e).alive ≡ true
IsAllowed (subscribes i e) k =
    (linked i k ≡ false) × ((k.task i).alive ≡ true) × ((k.event e).alive ≡ true)
IsAllowed (publishes e payload) k = (k.event e).alive ≡ true
IsAllowed (broadcasts e payload) k = (k.event e).alive ≡ true
IsAllowed (defers e payload delay all) k = (k.event e).alive ≡ true
IsAllowed (publishes_from_isr e payload) k = (k.event e).alive ≡ true
IsAllowed (broadcasts_from_isr e payload) k = (k.event e).alive ≡ true
IsAllowed (defers_from_isr e payload delay all) k = (k.event e).alive ≡ true

subscribe-Keeps :
    (i e : ℕ) (k : Evoke)
    → linked i k ≡ false
    → (k.task i).alive ≡ true
    → (k.event e).alive ≡ true
    → IsWired k
    → Keeps (subscribe (some i) (some e) k >>= λ r. some r.1)
unfolding subscribe
subscribe-Keeps i e k free live there w =
    elim (Bool-cases (not ((k.event e).count == 0) && is_nil (k.event e).wait_list)) [
      | inl q ↦ rw (free, live, there, q) (_, refl, join_ready-IsWired i e k w free live)
      | inr q ↦ rw (free, live, there, q) (_, refl, join_waiting-IsWired i e k w free live there)
    ]

pub publish-Keeps :
    (e payload : ℕ) (k : Evoke)
    → (k.event e).alive ≡ true
    → IsWired k
    → Keeps (publish (some e) payload k)
unfolding publish
publish-Keeps e payload k live w = (
  deliver_one e _ (set_payload e payload k),
  rw live refl,
  deliver_one-IsWired e (k.event e).wait_list _ (set_payload-IsWired e payload k w)
      (payload_waits e payload k),
)

pub broadcast-Keeps :
    (e payload : ℕ) (k : Evoke)
    → (k.event e).alive ≡ true
    → IsWired k
    → Keeps (broadcast (some e) payload k)
unfolding broadcast
broadcast-Keeps e payload k live w = (
  deliver_all e _ (set_payload e payload k),
  rw live refl,
  deliver_all-IsWired e (k.event e).wait_list _ (set_payload-IsWired e payload k w)
      (payload_waits e payload k),
)

-- The deferred requests are not the tasks' lists.
defer_later-IsWired :
    (d : Deferred) (free : List ℕ) (k : Evoke)
    → IsWired k
    → IsWired (defer_later d (defer_req_malloc free k) k)
unfolding defer_later defer_req_malloc enqueue_deferred
defer_later-IsWired d [] k w = w
defer_later-IsWired d (r ∷ rest) k w = record {
  at_event = w.at_event;
  waits = w.waits;
  readies = w.readies;
  once_ready = w.once_ready;
  once_waiting = w.once_waiting;
  ready_there = w.ready_there;
  wait_there = w.wait_there;
  live_ready = w.live_ready;
  live_waiter = w.live_waiter;
  live_event = w.live_event;
}

pub defer-Keeps :
    (e payload delay : ℕ) (all : Bool) (k : Evoke)
    → (k.event e).alive ≡ true
    → IsWired k
    → Keeps (defer (some e) payload delay all k)
unfolding defer
defer-Keeps e payload delay true k live w = elim (Bool-cases (delay == 0)) [
  | inl q ↦ rw q (broadcast-Keeps e payload k live w)
  | inr q ↦ rw q (_, refl, defer_later-IsWired _ k.free_list k w)
]
defer-Keeps e payload delay false k live w = elim (Bool-cases (delay == 0)) [
  | inl q ↦ rw q (publish-Keeps e payload k live w)
  | inr q ↦ rw q (_, refl, defer_later-IsWired _ k.free_list k w)
]

-- A request of an interrupt changes the ring alone.
post-IsWired :
    (layout : Layout) (req : IsrReq) (k : Evoke) → IsWired k → IsWired (post layout req k).1
unfolding post
post-IsWired layout req k w = record {
  at_event = w.at_event;
  waits = w.waits;
  readies = w.readies;
  once_ready = w.once_ready;
  once_waiting = w.once_waiting;
  ready_there = w.ready_there;
  wait_there = w.wait_there;
  live_ready = w.live_ready;
  live_waiter = w.live_waiter;
  live_event = w.live_event;
}

-- Any call that keeps to the rules, in a well-formed state, succeeds and leaves a well-formed state.
-- The calls create, initialise, reset and free tasks and events, subscribe, publish, broadcast and
-- defer, the last three from interrupts too. Well-formed is: who stands in the list of an event
-- waits for it, who stands in the ready list is ready, and nobody stands in a list twice or in two
-- lists. Conversely a task in use that waits has an event and stands in its list, and one that is
-- ready stands in the ready list. No list links a freed task, and a freed event has no waiters.
pub call-IsWired :
    (layout : Layout) (c : Call) (k : Evoke)
    → IsAllowed c k
    → IsWired k
    → (k' : Evoke) × (call layout c k ≡ some k') × IsWired k'
unfolding call event_create event_init_static publish_from_isr broadcast_from_isr defer_from_isr
call-IsWired layout (creates_task i) k dead w = task_create-Keeps i k dead w
call-IsWired layout (inits_task i) k free w = task_init_static-Keeps i k free w
call-IsWired layout (deinits_task i) k (rests, live) w = task_deinit_static-Keeps i k rests live w
call-IsWired layout (destroys_task i) k (rests, live) w = task_destroy-Keeps i k rests live w
call-IsWired layout (creates_event e count) k dead w =
    (_, refl, new_event-IsWired e count k (freed_empty e k w dead) w)
call-IsWired layout (inits_event e count) k empty w = (_, refl, new_event-IsWired e count k empty w)
call-IsWired layout (deinits_event e) k a w = (_, refl, deinit-IsWired e k w)
call-IsWired layout (destroys_event e) k a w = (_, refl, destroy-IsWired e k w)
call-IsWired layout (subscribes i e) k (free, live, there) w =
    subscribe-Keeps i e k free live there w
call-IsWired layout (publishes e payload) k a w = publish-Keeps e payload k a w
call-IsWired layout (broadcasts e payload) k a w = broadcast-Keeps e payload k a w
call-IsWired layout (defers e payload delay all) k a w = defer-Keeps e payload delay all k a w
call-IsWired layout (publishes_from_isr e payload) k a w = (_, refl, post-IsWired layout _ k w)
call-IsWired layout (broadcasts_from_isr e payload) k a w = (_, refl, post-IsWired layout _ k w)
call-IsWired layout (defers_from_isr e payload delay all) k a w =
    (_, refl, post-IsWired layout _ k w)

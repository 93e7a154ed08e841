-- ===== src/Evoke/Tests.antt =====
-- Runs of the event scheduler.
use ek_utils.Base.{ℕ, Bool, ◌≡◌, refl, true, false, Option, none, some, List, [], ◌∷◌, ◌>>=◌, Bytes}
use ek_utils.Err.{Err, ok, inval}
use ek_utils.Spsc
use ek_utils.Evoke.State.{State, idle, ready, Evoke}
use ek_utils.Evoke.Events.{
  task_init_static, task_deinit_static, task_create, task_destroy, withdraw, remove_node,
  remove_waiting, event_init_static, event_create, event_deinit_static, event_destroy, let_go,
  subscribe, join_ready, join_waiting, publish, broadcast, wake_first, wake_all, count_up,
  deliver_one, deliver_all,
}
use ek_utils.Evoke.Isr.{Layout, broadcast_from_isr, publish_from_isr, defer_from_isr}
use ek_utils.Evoke.Loop.{init}

-- The four fields of a request, one number each.
abbrev pub four_fields : Layout
four_fields = record {
  size = 4;
  encode = λ r. r.kind ∷ r.target ∷ r.payload ∷ r.delay ∷ [];
  decode = λ b. elim b [
    | [] ↦ record { kind = 0; target = 0; payload = 0; delay = 0 }
    | kind ∷ b ↦ elim b [
      | [] ↦ record { kind = 0; target = 0; payload = 0; delay = 0 }
      | target ∷ b ↦ elim b [
        | [] ↦ record { kind = 0; target = 0; payload = 0; delay = 0 }
        | payload ∷ b ↦ elim b [
          | [] ↦ record { kind = 0; target = 0; payload = 0; delay = 0 }
          | delay ∷ b ↦ record { kind = kind; target = target; payload = payload; delay = delay }
        ]
      ]
    ]
  ];
}

abbrev pub zeros : Bytes
zeros = 0 ∷ 0 ∷ 0 ∷ 0 ∷ []

abbrev pub forty_zeros : Bytes
forty_zeros =
    0 ∷ 0 ∷ 0 ∷ 0 ∷ 0 ∷ 0 ∷ 0 ∷ 0 ∷ 0 ∷ 0 ∷ 0 ∷ 0 ∷ 0 ∷ 0 ∷ 0 ∷ 0 ∷ 0 ∷ 0 ∷ 0 ∷ 0 ∷ 0 ∷ 0 ∷ 0 ∷ 0
    ∷ 0 ∷ 0 ∷ 0 ∷ 0 ∷ 0 ∷ 0 ∷ 0 ∷ 0 ∷ 0 ∷ 0 ∷ 0 ∷ 0 ∷ 0 ∷ 0 ∷ 0 ∷ 0 ∷ []

-- The memory before anything ran.
abbrev pub boot : Evoke
boot = record {
  sleep_lock = 0;
  tick_base = 0;
  tick_diff = 0;
  earliest_tick = 0;
  wakeup = false;
  request = λ r. record { target = 0; payload = 0; wakeup_tick = 0; broadcast = false };
  free_list = [];
  fifo = Spsc.fresh forty_zeros 0 0;
  ready_list = [];
  defer_list = [];
  task = λ i. record { alive = false; state = idle; wait_event = none };
  event = λ e. record { alive = false; wait_list = []; count = 0; payload = 0 };
  timer = none;
}

-- Tasks 1 and 2 wait for the event 0, whose count was 0.
abbrev pub two_wait : Option Evoke
two_wait = do
  (_, k) ← task_create true (some 1) (init 4 boot)
  (_, k) ← task_init_static (some 2) true k
  (_, k) ← subscribe (some 1) (some 0) ((event_create (some 0) 0 k).1)
  (_, k) ← subscribe (some 2) (some 0) k
  some k

-- What one sees of a state: who is ready, who waits for the event 0, its count and payload.
abbrev pub seen : Evoke → List ℕ × List ℕ × ℕ × ℕ
seen k = (k.ready_list, (k.event 0).wait_list, (k.event 0).count, (k.event 0).payload)

-- A publication wakes the first, the second one the other, the third is counted.
three_publications :
    (do
      k ← two_wait
      k ← publish (some 0) 7 k
      k ← publish (some 0) 8 k
      k ← publish (some 0) 9 k
      some (seen k))
    ≡ some (1 ∷ 2 ∷ [], [], 1, 9)
unfolding init task_create task_init_static event_create subscribe join_waiting publish deliver_one
    wake_first count_up
three_publications = refl

-- A broadcast wakes both; a count that is left over makes a task ready at once.
abbrev third_at_once : Option (Bool × (List ℕ × List ℕ × ℕ × ℕ))
third_at_once = do
  k ← two_wait
  k ← broadcast (some 0) 5 k
  k ← broadcast (some 0) 6 k
  (_, k) ← task_create true (some 3) k
  (at_once, k) ← subscribe (some 3) (some 0) k
  some (at_once, seen k)

broadcast_then_subscribe : third_at_once ≡ some (true, (1 ∷ 2 ∷ 3 ∷ [], [], 0, 6))
unfolding init task_create task_init_static event_create subscribe join_waiting join_ready broadcast
    deliver_all wake_all wake_first count_up
broadcast_then_subscribe = refl

-- Whoever lets go of the event, or is taken out of its list, is idle and waits for nothing.
abbrev state_of : ℕ → Evoke → State × Option ℕ
state_of i k = let t = k.task i in (t.state, t.wait_event)

abbrev Three : Type 0
Three = (List ℕ × List ℕ × ℕ × ℕ) × (State × Option ℕ) × (State × Option ℕ)

abbrev event_and_tasks : Evoke → Three
event_and_tasks k = (seen k, state_of 1 k, state_of 2 k)

abbrev tear_down : Option Three
tear_down = do
  k ← two_wait
  k ← task_deinit_static (some 1) k
  let k = event_deinit_static (some 0) k
  k ← task_destroy (some 2) k
  some (event_and_tasks k)

torn_down : tear_down ≡ some (([], [], 0, 0), (idle, none), (idle, none))
unfolding init task_create task_init_static event_create subscribe join_waiting task_deinit_static
    withdraw remove_node remove_waiting event_deinit_static let_go task_destroy
torn_down = refl

-- A destroyed event leaves its name in the task that its publication made ready.
abbrev destroy_event : Option Three
destroy_event = do
  k ← two_wait
  k ← publish (some 0) 7 k
  let k = event_destroy (some 0) k
  some (event_and_tasks k)

destroyed_event : destroy_event ≡ some ((1 ∷ [], [], 0, 7), (ready, some 0), (idle, none))
unfolding init task_create task_init_static event_create subscribe join_waiting publish deliver_one
    wake_first event_destroy let_go
destroyed_event = refl

abbrev refusals : List Err
refusals =
    (event_init_static none 1 boot).0
    ∷ (event_init_static (some 4) 1 boot).0
    ∷ (publish_from_isr four_fields none 1 boot).0
    ∷ (broadcast_from_isr four_fields none 1 boot).0
    ∷ (defer_from_isr four_fields none 1 2 true boot).0
    ∷ []

refused : refusals ≡ inval ∷ ok ∷ inval ∷ inval ∷ inval ∷ []
unfolding event_init_static publish_from_isr broadcast_from_isr defer_from_isr
refused = refl

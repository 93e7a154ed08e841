-- ===== src/Evoke/Examples.antt =====
-- Concrete instances of what is proved of the event scheduler.
use ek_utils.Base.{
  Option, ℕ, ◌+◌, ◌||◌, if◌then◌else◌, inl, inr, Bool-cases, slice, ◌≡◌, refl, arith, true, false,
  some, [], ◌∷◌, ◌==◌, map,
}
use ek_utils.Err.{ok}
use ek_utils.Spsc
use ek_utils.Spsc.{Spsc}
use ek_utils.Spsc.Bounds.{IsValid}
use ek_utils.Spsc.Refine.{contents}
use ek_utils.Evoke.State.{idle, ready, waiting, Task, Event, Evoke}
use ek_utils.Evoke.Events.{publish, broadcast}
use ek_utils.Evoke.Timer.{defer}
use ek_utils.Evoke.Isr.{IsrReq, Fits, req_publish, post, drain}
use ek_utils.Evoke.Ready.{IsQuiet}
use ek_utils.Evoke.Rest.{Rested, run_ready-rests}
use ek_utils.Evoke.Loop.{run_ready, run_task, fire_due}
use ek_utils.Evoke.Deliver.{Delivered, publish_lem, broadcast_lem, run_task-misses}
use ek_utils.Evoke.Wired.{IsWired}
use ek_utils.Evoke.Calls.{call, destroys_event, call-IsWired}
use ek_utils.Evoke.Pool.{IsPooled, earlier, defer-IsPooled}
use ek_utils.Evoke.Announce.{announce, set_pool}
use ek_utils.Evoke.Due.{fire_due_lem}
use ek_utils.Evoke.Apart.{with_fifo}
use ek_utils.Evoke.Drain.{handle_all}
use ek_utils.Evoke.Posted.{post-drain}
use ek_utils.Evoke.Tests.{four_fields, zeros, forty_zeros, boot}
use ek_utils.Sorting.{Sorted}

-- The event 0 has the payload 5; tasks 1 and 2 wait for it, the others are in use.
abbrev task_of : ℕ → Task
task_of i = record {
  alive = true;
  state = if i == 1 || i == 2 then waiting else idle;
  wait_event = some 0;
}

abbrev event_of : ℕ → Event
event_of e = record {
  alive = true;
  wait_list = if e == 0 then 1 ∷ 2 ∷ [] else [];
  count = 0;
  payload = 5;
}

-- Requests 0 and 1 are pending, for the ticks 4 and 6, and the timer was set for 5.
abbrev pub two_waiting : Evoke
two_waiting = record boot {
  task = task_of;
  event = event_of;
  request = λ r. record { target = 0; payload = r; wakeup_tick = 4 + r + r; broadcast = false };
  free_list = 2 ∷ 3 ∷ 4 ∷ 5 ∷ 6 ∷ 7 ∷ 8 ∷ 9 ∷ [];
  defer_list = 0 ∷ 1 ∷ [];
  earliest_tick = 5;
}

publish_lem_example :
    (k' : Evoke) × (publish (some 0) 7 two_waiting ≡ some k')
    × Delivered 0 7 (1 ∷ []) (2 ∷ []) two_waiting k'
publish_lem_example = publish_lem 0 7 two_waiting refl

broadcast_lem_example :
    (k' : Evoke) × (broadcast (some 0) 7 two_waiting ≡ some k')
    × Delivered 0 7 (1 ∷ 2 ∷ []) [] two_waiting k'
broadcast_lem_example = broadcast_lem 0 7 two_waiting refl

-- Task 3 is about to run; the event 0 was published in the meantime.
abbrev missed : Evoke
missed = record two_waiting {
  event = λ e. record { alive = true; wait_list = []; count = 1; payload = 5 };
  ready_list = 3 ∷ 4 ∷ [];
}

run_task-misses_example :
    (k' : Evoke) × (run_task (λ i e k. some k) 3 (4 ∷ []) missed ≡ some k')
    × (k'.ready_list ≡ 4 ∷ [])
    × ((k'.event 0).wait_list ≡ 3 ∷ [])
    × ((k'.event 0).count ≡ 1)
    × ((k'.task 3).state ≡ waiting)
run_task-misses_example = run_task-misses 3 0 0 (4 ∷ []) missed refl refl refl refl refl refl

pub two_waiting-IsWired : IsWired two_waiting
two_waiting-IsWired = record {
  at_event = λ e i m. ground (arith, m);
  waits = λ e i m. ground (arith, m);
  readies = λ i m. ground (arith, m);
  once_ready = tt;
  once_waiting =
      λ e. elim (Bool-cases (e == 0)) [ inl q ↦ rw q (refl, (refl, tt)) | inr q ↦ rw q tt ];
  ready_there = λ i u s. ground arith;
  wait_there = λ i u s. (0, refl, ground arith);
  live_ready = λ i m. refl;
  live_waiter = λ e i m. refl;
  live_event = λ e i m. refl;
}

call-IsWired_example :
    (k' : Evoke) × (call four_fields (destroys_event 0) two_waiting ≡ some k') × IsWired k'
call-IsWired_example =
    call-IsWired four_fields (destroys_event 0) two_waiting refl two_waiting-IsWired

in_tick_order : Sorted (earlier two_waiting.request) (0 ∷ 1 ∷ [])
in_tick_order = ((λ c m. ground (arith, m)), ((λ c m. ground (arith, m)), tt))

pub two_waiting-IsPooled : IsPooled two_waiting
two_waiting-IsPooled = record {
  in_order = in_tick_order;
  all_there = refl;
  once_free = (refl, (refl, (refl, (refl, (refl, (refl, (refl, (refl, tt))))))));
  once_pending = (refl, (refl, tt));
  apart = λ r m. ground (arith, m);
}

defer-IsPooled_example :
    (k' : Evoke) × (defer (some 0) 1 9 false two_waiting ≡ some k') × IsPooled k'
defer-IsPooled_example = defer-IsPooled 0 1 9 false two_waiting refl two_waiting-IsPooled

fire_due_lem_example :
    (k' : Evoke) × (fire_due (0 ∷ 1 ∷ []) two_waiting ≡ some k')
    × (k'.request ≡ two_waiting.request)
    × (k'.defer_list ≡ 1 ∷ [])
    × (k'.free_list ≡ 2 ∷ 3 ∷ 4 ∷ 5 ∷ 6 ∷ 7 ∷ 8 ∷ 9 ∷ 0 ∷ [])
    × (kd : Evoke) × (announce (two_waiting.request 0 ∷ []) two_waiting ≡ some kd)
    × (k' ≡ set_pool (1 ∷ []) (2 ∷ 3 ∷ 4 ∷ 5 ∷ 6 ∷ 7 ∷ 8 ∷ 9 ∷ 0 ∷ []) kd)
fire_due_lem_example = fire_due_lem (0 ∷ 1 ∷ []) two_waiting refl in_tick_order (λ r m. refl)

abbrev pub pub_req : IsrReq
pub_req = record { kind = req_publish; target = 0; payload = 8; delay = 0 }

pub pub_req-Fits : Fits pub_req
pub_req-Fits = (omega arith, omega arith, omega arith, omega arith)

-- The ring of ten slots, with one request in it.
abbrev pub one_posted : Evoke
one_posted = record two_waiting {
  fifo = record (Spsc.fresh (1 ∷ 0 ∷ 8 ∷ forty_zeros) 4 10) { write_idx = 1 };
}

pub one_posted-IsValid : IsValid one_posted.fifo
one_posted-IsValid = omega arith

pub posted_bytes :
    contents one_posted.fifo
    ≡ map (λ r. r.kind ∷ r.target ∷ r.payload ∷ r.delay ∷ []) (pub_req ∷ [])
unfolding slice
posted_bytes = refl

post-drain_example :
    (rb : Spsc) × ((post four_fields pub_req one_posted).0 ≡ ok)
    × (drain four_fields 3 zeros (post four_fields pub_req one_posted).1
        ≡ with_fifo rb (handle_all four_fields (pub_req ∷ pub_req ∷ []) one_posted))
    × (contents rb ≡ [])
post-drain_example =
    post-drain four_fields zeros (pub_req ∷ []) pub_req 3 one_posted ((λ r. refl), (λ r f. refl))
      refl one_posted-IsValid refl posted_bytes (pub_req-Fits, tt) pub_req-Fits (omega arith)
      (omega arith)

-- Tasks 3 and 4 are ready, for the event 0.
abbrev two_ready : Evoke
two_ready = record two_waiting {
  task = λ i. record {
    alive = true;
    state = if i == 3 || i == 4 then ready else if i == 1 || i == 2 then waiting else idle;
    wait_event = some 0;
  };
  ready_list = 3 ∷ 4 ∷ [];
}

two_ready-IsWired : IsWired two_ready
two_ready-IsWired = record {
  at_event = λ e i m. ground (arith, m);
  waits = λ e i m. ground (arith, m);
  readies = λ i m. ground (arith, m);
  once_ready = (refl, (refl, tt));
  once_waiting =
      λ e. elim (Bool-cases (e == 0)) [ inl q ↦ rw q (refl, (refl, tt)) | inr q ↦ rw q tt ];
  ready_there = λ i u s. ground arith;
  wait_there = λ i u s. (0, refl, ground arith);
  live_ready = λ i m. refl;
  live_waiter = λ e i m. refl;
  live_event = λ e i m. refl;
}

-- A callback that notes which task ran last.
abbrev pub note : ℕ → Option ℕ → Evoke → Option Evoke
note i w k = some (record k { sleep_lock = i })

pub note-IsQuiet : IsQuiet note
note-IsQuiet i w k = (
  record k { sleep_lock = i },
  refl,
  record { task_same = refl; ready_same = refl; waits_same = λ e. refl; alive_same = λ e. refl },
)

run_ready-rests_example :
    (k' : Evoke) × (run_ready note 3 two_ready ≡ some k') × Rested (3 ∷ 4 ∷ []) two_ready k'
run_ready-rests_example =
    run_ready-rests note (3 ∷ 4 ∷ []) 3 two_ready note-IsQuiet two_ready-IsWired refl
      (λ i m. (refl, 0, refl, refl)) (omega arith)

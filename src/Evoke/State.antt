-- ===== src/Evoke/State.antt =====
-- src/ek_evoke.c and inc/ek_evoke.h: the structs and the file's static variables. Tasks, events and
-- deferred requests are known by number, and a list is the sequence of those whose nodes it links,
-- as `Dlist` shows of the pointers.
use ek_utils.Base.{ℕ, Bool, Option, List}
use ek_utils.Spsc.{Spsc}

-- `ek_evoke_state_t`
pub data State : Type 0 where
  idle delayed waiting ready running : State

-- `struct ek_evoke_task`. `alive` is whether its memory is in use. Its callback and argument are the
-- user's code, an argument of the loop.
pub record Task : Type 0 where
  pub alive : Bool
  pub state : State
  pub wait_event : Option ℕ

-- `struct ek_evoke_event`
pub record Event : Type 0 where
  pub alive : Bool
  pub wait_list : List ℕ
  pub count : ℕ
  pub payload : ℕ

-- `_defer_req_t`
pub record Deferred : Type 0 where
  pub target : ℕ
  pub payload : ℕ
  pub wakeup_tick : ℕ
  pub broadcast : Bool

-- The static variables, what the pointers lead to, and the last tick count that
-- `ek_evoke_set_timer` was given.
pub record Evoke : Type 0 where
  pub sleep_lock : ℕ
  pub tick_base : ℕ
  pub tick_diff : ℕ
  pub earliest_tick : ℕ
  pub wakeup : Bool
  pub request : ℕ → Deferred
  pub free_list : List ℕ
  pub fifo : Spsc
  pub ready_list : List ℕ
  pub defer_list : List ℕ
  pub task : ℕ → Task
  pub event : ℕ → Event
  pub timer : Option ℕ

-- `EK_EVOKE_MAX_DEFER_REQ` and `EK_EVOKE_MAX_ISR_REQ`, by default.
abbrev pub max_defer_req : ℕ
max_defer_req = 10

abbrev pub max_isr_req : ℕ
max_isr_req = 10

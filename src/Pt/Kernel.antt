-- ===== src/Pt/Kernel.antt =====
-- src/ek_picothread.c and inc/ek_picothread.h: the structs and the file's static variables. Threads,
-- semaphores and message queues are known by number. A list of the kernel is the sequence of the
-- threads whose node it links, as `Dlist` shows of the pointers.
use ek_utils.Base.{ℕ, Bool, Option, List}
use ek_utils.Err.{Err}
use ek_utils.Ring.{Ring}

-- `ek_pt_state_t`
pub data State : Type 0 where
  ready suspended blocked running : State

-- `struct ek_pt`. Its callback and argument are the user's code, an argument of `schedule`.
pub record Thread : Type 0 where
  pub prio : ℕ
  pub state : State
  pub tick : ℕ
  pub line : ℕ
  pub wait_result : Err
  pub wait_sem : Option ℕ
  pub wait_msg : Option ℕ

-- `struct ek_pt_sem`
pub record Semaphore : Type 0 where
  pub count : ℕ
  pub wait_list : List ℕ

-- `struct ek_pt_msg`. A bare-metal build takes no lock.
pub record Queue : Type 0 where
  pub recv_wait : List ℕ
  pub send_wait : List ℕ
  pub rb : Ring (Unit {0})

-- The static variables, and what the pointers lead to. Bit `p` of `s_ready_mask` is `mask p`.
pub record Kernel : Type 0 where
  pub inited : Bool
  pub thread : ℕ → Thread
  pub sem : ℕ → Semaphore
  pub msg : ℕ → Queue
  pub ready_list : ℕ → List ℕ
  pub mask : ℕ → Bool
  pub block_list : List ℕ
  pub cur : Option ℕ
  pub next : Option ℕ
  pub now : ℕ

-- `EKCFG_PT_PRIO_LOWEST` and `PT_PRIO_LEVELS`, by default.
abbrev pub prio_lowest : ℕ
prio_lowest = 31

abbrev pub levels : ℕ
levels = 32

-- ===== src/Pt.antt =====
-- src/ek_picothread.c and inc/ek_picothread.h: the scheduler of microthreads.
pub mod Kernel
pub mod Queues
pub mod Threads
pub mod Schedule
pub mod Sem
pub mod Msg
pub mod Macros
pub mod Order
pub mod Placed
pub mod Waits
pub mod Kept
pub mod Moved
pub mod Rewaited
pub mod Woken
pub mod Released
pub mod ThreadCalls
pub mod Born
pub mod Ended
pub mod Objects
pub mod MsgCalls
pub mod Api
pub mod Rounds
pub mod Leave
pub mod Reached
pub mod Primitives
pub mod TwoWaits
pub mod Unwaited
pub mod SemCalls
pub mod MsgWake
pub mod Lifetimes
pub mod Statics
pub mod ReadyQueue
pub mod Refine
pub mod Token
pub mod Tests
pub mod Examples
pub mod ReachedTests
pub mod StaticsTests
pub mod MsgTests

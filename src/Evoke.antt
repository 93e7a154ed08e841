-- ===== src/Evoke.antt =====
-- src/ek_evoke.c and inc/ek_evoke.h: the event scheduler.
pub mod State
pub mod Events
pub mod Timer
pub mod Isr
pub mod Loop
pub mod Deliver
pub mod Wired
pub mod Released
pub mod Lifecycle
pub mod Calls
pub mod Frame
pub mod Pool
pub mod Announce
pub mod Due
pub mod Apart
pub mod Drain
pub mod Posted
mod Tests
mod Examples
mod LoopTests
pub mod Ready
pub mod Rest
pub mod Names
pub mod Safe
pub mod Handled
pub mod Sound
pub mod Fired
pub mod Ran
pub mod Round
pub mod Sleep
mod RoundTests

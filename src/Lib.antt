-- ===== src/Lib.antt =====
-- EmbeddedKit (ek_utils), a C library for microcontrollers, modelled from the files of src/ and inc/.
--
-- The library's parts and their models:
--   inc/ek_err.h            Err: the error codes and `ek_strerror`.
--   inc/ek_conf_internal.h  Lock: the lock macros. An RTOS build defines them itself, so they are a
--                           parameter (`LockOps`); `bare` are the defaults of a bare-metal build.
--   src/ek_ringbuf.c        Ring: the general ring buffer. Spsc: the ring for one producer and one
--                           consumer, with Spsc/Interleave for the two running at once.
--   src/ek_stack.c          Stack.
--   src/ek_snapshot.c       Snapshot.
--   inc/ek_list.h           Dlist: circular lists of intrusive nodes, on a heap of links.
--   src/ek_picothread.c     Pt: the scheduler of microthreads, its semaphores and message queues.
--                           Pt/Kernel is the state, Pt/Queues the ready lists with their mask and the
--                           sorted lists, Pt/Threads and Pt/Schedule the threads and the scheduler,
--                           Pt/Sem and Pt/Msg what they wait for, Pt/Macros the macros with which
--                           they wait (inc/ek_picothread.h). Pt/Msg is a client of Ring. Placed,
--                           Waits and TwoWaits say where the nodes of a thread are, Kept when the
--                           kernel agrees with its threads; Moved to MsgCalls what its operations do
--                           to that, Lifetimes how semaphores and queues are made, Api the calls,
--                           Rounds the rounds, and Reached both in any order.
--   src/ek_evoke.c          Evoke: the scheduler of tasks and events. Evoke/State is the state,
--                           Evoke/Events the tasks and events, Evoke/Timer the deferred requests,
--                           Evoke/Isr the requests of interrupts, which reach the loop through Spsc,
--                           and Evoke/Loop the loop. Deliver, Calls, Pool, Due, Drain and Posted
--                           hold what is proved of their operations, over Wired, Released and
--                           Lifecycle for the lists of tasks, and Frame, Apart and Announce for what
--                           a delivery leaves alone; Rest and Round what is proved of the loop, over Ready and Ran for its
--                           tasks, Names, Safe and Handled for its requests, and Sound, Fired and
--                           Sleep for its other parts.
--   src/ek_str_view.c       StrView: views of text, with Trim and Split.
--   src/ek_str.c            Str: growing strings, with Growth, Append, Reverse and Slice.
--   inc/ek_vec.h            Vec: vectors for any element type, with Append and Remove over Holds.
--   src/ek_export.c         Startup/Export and Startup/StaticAlloc: the tables of functions that run
--   src/ek_static_alloc.c   at start-up, sorted by `qsort`, which is a parameter (Startup).
--   src/ek_heap.c           Heap: the sizes that the walkers over the vendored allocator's pools add
--                           up, and in Heap/Calls the functions that pass on to that allocator.
--   src/ek_log.c            Log: what a call of the log prints, as the sequence of calls of
--                           `ek_printf`.
--   inc/ek_def.h            Def: the macros that compute.
-- Fifo and Lifo are what a queue and a stack promise; Slots is the arithmetic of a ring's slots,
-- Sorting insertion into sorted lists, and Base holds the shared helpers, memory as lists of bytes
-- among them.
--
-- A function of the source keeps its name less the prefix of its module (`ek_ringbuf_write` is
-- `Ring.write`). A function that changes a struct through a pointer returns the new struct beside its
-- result; a pointer that may be `NULL` is an option. The part of a function behind its tests for
-- `NULL` is a function of its own (`write_item`). `uint32_t` and `size_t` are numbers that wrap at
-- 2^32, as on the 32-bit targets of cmake/gcc-arm-none-eabi.cmake. `memcpy` and `memset` write into
-- a block of bytes, and a byte that would fall outside is dropped; the theorems on bounds show that
-- none does. `ek_malloc` and `ek_free` are parameters: the allocator is vendored code, or the user's.
--
-- The scheduler knows threads, semaphores and message queues by number, and its lists are sequences
-- of threads: the pointers below are those of Dlist. A step that would corrupt a list, or that fails
-- an assertion, is `none`. The callbacks of the threads are an argument of `schedule`. A call is
-- in order (`Allowed` of Pt/Api) when the threads that it names are made, the thread that ran last
-- names itself only from its callback, a thread that waits is not suspended, and nobody waits for a
-- semaphore or a queue that is made or initialised: outside of that, two calls leave the lists in
-- pieces (tests of Pt/ReachedTests). Pt/Leave shows that a callback may end
-- in the macro that takes a semaphore, and Pt/Statics makes the threads that a macro defines. A walk
-- over a list (`foreach`) has fuel, and a round for each node and one more is enough. The other loops
-- recur on the list that they walk along.
--
-- The event scheduler of Evoke is modelled in the same way: a node that is inserted twice, or removed
-- where no list links it, and what was freed and is used again, are `none`. The callbacks, the two
-- sleeps with the interrupts that come in them, and the layout of a request in memory are parameters.
-- A layout reads back the requests whose fields fit the struct (`Fits` of Evoke/Isr).
-- The results on the loop take callbacks that change no task and none of its lists (`IsQuiet` of
-- Evoke/Ready, `IsFriendly` of Evoke/Round), since others may keep a round from ending, and the one
-- on Pt/Reached takes callbacks that are `Friendly` (Pt/Rounds).
-- The loops over the ring and over the ready list have fuel: one round for each request and one more
-- is enough for the ring, while a callback may make tasks ready again for ever. An interrupt between
-- two statements is modelled for the ring, in Spsc/Interleave.
--
-- A string of Str has a buffer whose size is that of its block: a read or a write outside of it is
-- `none`. The loop that enlarges the capacity has fuel, and one round for each missing byte is enough
-- unless the capacity is 1.
--
-- Not modelled: the assertion and I/O modules and the port to picolibc, which hold no state of their
-- own, the attributes of compilers in inc/ek_def.h, the macros of the headers that define static
-- objects other than those of microthreads (Pt/Statics), and third_party/.
pub mod Base
pub mod Err
pub mod Lock
pub mod Fifo
pub mod Slots
pub mod Sorting
pub mod Ring
pub mod Spsc
pub mod Lifo
pub mod Stack
pub mod Snapshot
pub mod Dlist
pub mod Pt
pub mod StrView
pub mod Vec
pub mod Startup
pub mod Heap
pub mod Str
pub mod Evoke
pub mod Log
pub mod Def

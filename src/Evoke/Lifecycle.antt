-- ===== src/Evoke/Lifecycle.antt =====
-- src/ek_evoke.c: tasks and events are created, initialised, reset and freed.
use ek_utils.Base.{
  ℕ, ◌≡◌, ◌⊎◌, refl, arith, inl, inr, true, false, Option, none, some, List, [], ◌∷◌, erase, ◌∉◌,
  ◌>>=◌,
}
use ek_utils.Evoke.State.{idle, waiting, ready, Task, Evoke}
use ek_utils.Evoke.Events.{
  set_task, set_event, linked, remove_waiting, remove_node, new_task, task_init_static, withdraw,
  task_deinit_static, task_create, task_destroy, new_event,
}
use ek_utils.Evoke.Wired.{IsWired, unlinked_ready, unlinked_waiting, event_fields-IsWired}
use ek_utils.Evoke.Released.{
  IsOut, erase-Without, none-Without, leave_ready-IsWired, leave_waiting-IsWired,
}

-- A call that succeeds and leaves a well-formed state.
abbrev pub Keeps : Option Evoke → Type 0
Keeps r = (k' : Evoke) × (r ≡ some k') × IsWired k'

-- The task is idle, ready or waiting: its callback does not run.
abbrev pub IsResting : Task → Type 0
IsResting t = (t.state ≡ idle) ⊎ ((t.state ≡ ready) ⊎ (t.state ≡ waiting))

-- A task that was freed is in no list.
freed_out :
    (i : ℕ) (k : Evoke)
    → IsWired k
    → (k.task i).alive ≡ false
    → (v : Option ℕ) → (k.task i).wait_event ≡ v
    → linked i k ≡ false
freed_out i k w h none at = ground (arith, h, at, w.live_ready i)
freed_out i k w h (some e) at = ground (arith, h, at, w.live_ready i, w.live_waiter e i)

freed_unlinked : (i : ℕ) (k : Evoke) → IsWired k → (k.task i).alive ≡ false → linked i k ≡ false
freed_unlinked i k w h = freed_out i k w h (k.task i).wait_event refl

new_task-IsWired :
    (i : ℕ) (k : Evoke) → IsWired k → linked i k ≡ false → IsWired (set_task i new_task k)
new_task-IsWired i k w free =
    let out = unlinked_ready i k free in
    leave_ready-IsWired i new_task k.ready_list k w ((λ u. ground arith), (λ u. ground arith))
      (none-Without i k.ready_list w.once_ready out) (λ e. unlinked_waiting i e k w free)

pub task_init_static-Keeps :
    (i : ℕ) (k : Evoke)
    → linked i k ≡ false
    → IsWired k
    → Keeps (task_init_static (some i) true k >>= λ r. some r.1)
unfolding task_init_static
task_init_static-Keeps i k free w = rw free (_, refl, new_task-IsWired i k w free)

pub task_create-Keeps :
    (i : ℕ) (k : Evoke)
    → (k.task i).alive ≡ false
    → IsWired k
    → Keeps (task_create true (some i) k >>= λ r. some r.1)
unfolding task_create
task_create-Keeps i k dead w =
    let free = freed_unlinked i k w dead in rw free (_, refl, new_task-IsWired i k w free)

-- The node leaves its list, and the task has new fields.
withdraw-Keeps :
    (f : Task → Task) (i : ℕ) (k : Evoke)
    → IsResting (k.task i)
    → (k.task i).alive ≡ true
    → IsOut (f (k.task i))
    → IsWired k
    → Keeps (withdraw i k >>= λ k. some (set_task i (f (k.task i)) k))
unfolding withdraw remove_node remove_waiting
withdraw-Keeps f i k (inl s) live out w = rw s (
  _,
  refl,
  leave_ready-IsWired i (f (k.task i)) k.ready_list k w out
      (none-Without i k.ready_list w.once_ready (ground (arith, w.readies i)))
      (λ e. ground (arith, w.waits e i)),
)
withdraw-Keeps f i k (inr (inl s)) live out w =
    let m = w.ready_there i live s in
    rw (s, m)
      (
        _,
        refl,
        leave_ready-IsWired i (f (k.task i)) (erase i k.ready_list) k w out
            (erase-Without i k.ready_list w.once_ready) (λ e. ground (arith, w.waits e i)),
      )
withdraw-Keeps f i k (inr (inr s)) live out w =
    let (e, at, m) = w.wait_there i live s in
    let off : i ∉ k.ready_list = ground (arith, w.readies i) in
    let v = k.event e in
    let l = erase i v.wait_list in
    let found : remove_waiting i (some e) k ≡ some (set_event e (record v { wait_list = l }) k) =
      rw m refl in
    rw (s, off, at, m)
      (
        _,
        refl,
        leave_waiting-IsWired i e (f (k.task i)) l k w out m
            (erase-Without i v.wait_list (w.once_waiting e)),
      )

pub task_deinit_static-Keeps :
    (i : ℕ) (k : Evoke)
    → IsResting (k.task i)
    → (k.task i).alive ≡ true
    → IsWired k
    → Keeps (task_deinit_static (some i) k)
unfolding task_deinit_static
task_deinit_static-Keeps i k s live w =
    withdraw-Keeps (λ t. record t { state = idle; wait_event = none }) i k s live
      ((λ u. ground arith), (λ u. ground arith)) w

pub task_destroy-Keeps :
    (i : ℕ) (k : Evoke)
    → IsResting (k.task i)
    → (k.task i).alive ≡ true
    → IsWired k
    → Keeps (task_destroy (some i) k)
unfolding task_destroy
task_destroy-Keeps i k s live w =
    withdraw-Keeps (λ t. record t { alive = false }) i k s live
      ((λ u. ground arith), (λ u. ground arith)) w

-- An event that nobody waits for is written anew.
pub new_event-IsWired :
    (e count : ℕ) (k : Evoke)
    → (k.event e).wait_list ≡ []
    → IsWired k
    → IsWired (set_event e (new_event count) k)
new_event-IsWired e count k l w =
    event_fields-IsWired e (new_event count) k w (ground (arith, l)) (λ i m. refl)

nobody_in : (l : List ℕ) → ((i : ℕ) → i ∉ l) → l ≡ []
nobody_in [] out = refl
nobody_in (i ∷ rest) out = ground (arith, out i)

-- A member of the list would be in use.
pub freed_empty :
    (e : ℕ) (k : Evoke) → IsWired k → (k.event e).alive ≡ false → (k.event e).wait_list ≡ []
freed_empty e k w h = nobody_in (k.event e).wait_list (λ i. ground (arith, w.live_event e i, h))

-- ===== src/Evoke/Events.antt =====
-- src/ek_evoke.c: tasks and events. `none` is a run that leaves the contract of the lists or of the
-- memory: a node is removed that no list links, or inserted that a list links already, or what was
-- freed is used.
use ek_utils.Base.{
  ℕ, ◌-◌, Bool, true, false, not, ◌&&◌, ◌||◌, Option, none, some, List, [], ◌∷◌, ◌++◌, ◌==◌,
  if◌then◌else◌, has, erase, update, is_nil, ◌>>=◌, add32,
}
use ek_utils.Err.{Err, ok, inval}
use ek_utils.Evoke.State.{State, idle, waiting, ready, Task, Event, Evoke}

abbrev pub set_task : ℕ → Task → Evoke → Evoke
set_task i t k = record k { task = update k.task i t }

abbrev pub set_event : ℕ → Event → Evoke → Evoke
set_event e v k = record k { event = update k.event e v }

-- Whether the task is in the list of the event that it waits for, or waited for last.
abbrev pub in_wait_list : ℕ → Evoke → Bool
in_wait_list i k = elim (k.task i).wait_event [
  | none ↦ false
  | some e ↦ has i (k.event e).wait_list
]

-- Whether the node of a task is in a list.
abbrev pub linked : ℕ → Evoke → Bool
linked i k = has i k.ready_list || in_wait_list i k

-- `ek_list_remove (&tsk->node)`
unfoldable pub remove_waiting : ℕ → Option ℕ → Evoke → Option Evoke
remove_waiting i none k = none
remove_waiting i (some e) k =
    let v = k.event e in
    if has i v.wait_list
    then some (set_event e (record v { wait_list = erase i v.wait_list }) k)
    else none

unfoldable pub remove_node : ℕ → Evoke → Option Evoke
remove_node i k =
    if has i k.ready_list
    then some (record k { ready_list = erase i k.ready_list })
    else remove_waiting i (k.task i).wait_event k

-- What `ek_evoke_task_create` and `ek_evoke_task_init_static` write into a task.
abbrev pub new_task : Task
new_task = record { alive = true; state = idle; wait_event = none }

unfoldable pub task_init_static : Option ℕ → Bool → Evoke → Option (Err × Evoke)
task_init_static none has_cb k = some (inval, k)
task_init_static (some i) has_cb k =
    if not has_cb
    then some (inval, k)
    else if linked i k
    then none
    else some (ok, set_task i new_task k)

abbrev pub is_idle : State → Bool
is_idle idle = true
is_idle _ = false

-- The node leaves its list, unless the task is idle.
unfoldable pub withdraw : ℕ → Evoke → Option Evoke
withdraw i k = if is_idle (k.task i).state then some k else remove_node i k

unfoldable pub task_deinit_static : Option ℕ → Evoke → Option Evoke
task_deinit_static none k = some k
task_deinit_static (some i) k = do
  k ← withdraw i k
  let t = k.task i
  some (set_task i (record t { state = idle; wait_event = none }) k)

-- `fresh` is what `ek_malloc` returns.
unfoldable pub task_create : Bool → Option ℕ → Evoke → Option (Option ℕ × Evoke)
task_create false fresh k = some (none, k)
task_create true none k = some (none, k)
task_create true (some i) k = if linked i k then none else some (some i, set_task i new_task k)

unfoldable pub task_destroy : Option ℕ → Evoke → Option Evoke
task_destroy none k = some k
task_destroy (some i) k = do
  k ← withdraw i k
  let t = k.task i
  some (set_task i (record t { alive = false }) k)

abbrev pub new_event : ℕ → Event
new_event count = record { alive = true; wait_list = []; count = count; payload = 0 }

unfoldable pub event_init_static : Option ℕ → ℕ → Evoke → Err × Evoke
event_init_static none count k = (inval, k)
event_init_static (some e) count k = (ok, set_event e (new_event count) k)

unfoldable pub event_create : Option ℕ → ℕ → Evoke → Option ℕ × Evoke
event_create none count k = (none, k)
event_create (some e) count k = (some e, set_event e (new_event count) k)

-- The loop that lets go of the tasks that wait for an event.
unfoldable pub let_go : ℕ → List ℕ → Evoke → Evoke
let_go e [] k = k
let_go e (i ∷ rest) k =
    let v = k.event e in
    let t = k.task i in
    let k = set_event e (record v { wait_list = rest }) k in
    let_go e rest (set_task i (record t { wait_event = none; state = idle }) k)

unfoldable pub event_deinit_static : Option ℕ → Evoke → Evoke
event_deinit_static none k = k
event_deinit_static (some e) k =
    let k = let_go e (k.event e).wait_list k in
    let v = k.event e in set_event e (record v { count = 0; payload = 0 }) k

unfoldable pub event_destroy : Option ℕ → Evoke → Evoke
event_destroy none k = k
event_destroy (some e) k =
    let k = let_go e (k.event e).wait_list k in
    let v = k.event e in set_event e (record v { alive = false }) k

-- The task takes a count and is ready, or it waits behind the others.
unfoldable pub join_ready : ℕ → ℕ → Evoke → Evoke
join_ready i e k =
    let v = k.event e in
    let t = k.task i in
    let k = set_event e (record v { count = v.count - 1 }) k in
    let k = set_task i (record t { state = ready; wait_event = some e }) k in
    record k { ready_list = k.ready_list ++ (i ∷ []) }

unfoldable pub join_waiting : ℕ → ℕ → Evoke → Evoke
join_waiting i e k =
    let v = k.event e in
    let t = k.task i in
    let k = set_event e (record v { wait_list = v.wait_list ++ (i ∷ []) }) k in
    set_task i (record t { state = waiting; wait_event = some e }) k

unfoldable pub subscribe : Option ℕ → Option ℕ → Evoke → Option (Bool × Evoke)
subscribe none e k = some (false, k)
subscribe (some i) none k = some (false, k)
subscribe (some i) (some e) k =
    let v = k.event e in
    if linked i k || not (k.task i).alive || not v.alive
    then none
    else if not (v.count == 0) && is_nil v.wait_list
    then some (true, join_ready i e k)
    else some (false, join_waiting i e k)

-- The first task that waits goes to the tail of the ready list.
unfoldable pub wake_first : ℕ → ℕ → List ℕ → Evoke → Evoke
wake_first e i rest k =
    let v = k.event e in
    let t = k.task i in
    let k = set_event e (record v { wait_list = rest }) k in
    let k = set_task i (record t { state = ready }) k in
    record k { ready_list = k.ready_list ++ (i ∷ []) }

unfoldable pub wake_all : ℕ → List ℕ → Evoke → Evoke
wake_all e [] k = k
wake_all e (i ∷ rest) k = wake_all e rest (wake_first e i rest k)

-- `count` is a `uint32_t`.
unfoldable pub count_up : ℕ → Evoke → Evoke
count_up e k = let v = k.event e in set_event e (record v { count = add32 v.count 1 }) k

abbrev pub set_payload : ℕ → ℕ → Evoke → Evoke
set_payload e payload k = let v = k.event e in set_event e (record v { payload = payload }) k

unfoldable pub deliver_one : ℕ → List ℕ → Evoke → Evoke
deliver_one e [] k = count_up e k
deliver_one e (i ∷ rest) k = wake_first e i rest k

unfoldable pub deliver_all : ℕ → List ℕ → Evoke → Evoke
deliver_all e [] k = count_up e k
deliver_all e (i ∷ rest) k = wake_all e (i ∷ rest) k

unfoldable pub publish : Option ℕ → ℕ → Evoke → Option Evoke
publish none payload k = some k
publish (some e) payload k =
    if (k.event e).alive
    then some (deliver_one e (k.event e).wait_list (set_payload e payload k))
    else none

unfoldable pub broadcast : Option ℕ → ℕ → Evoke → Option Evoke
broadcast none payload k = some k
broadcast (some e) payload k =
    if (k.event e).alive
    then some (deliver_all e (k.event e).wait_list (set_payload e payload k))
    else none

-- ===== src/Evoke/Loop.antt =====
-- src/ek_evoke.c: `ek_evoke_init` and `ek_evoke_event_loop`.
use ek_utils.Base.{
  up_from, ℕ, zero, suc, false, not, ◌||◌, Option, none, some, List, [], ◌∷◌, ◌==◌, ltb,
  if◌then◌else◌, ◌>>=◌, Bytes, max_word, sub32,
}
use ek_utils.Spsc
use ek_utils.Spsc.{Spsc}
use ek_utils.Evoke.State.{running, Evoke, max_defer_req, max_isr_req}
use ek_utils.Evoke.Events.{set_task, linked, join_waiting, publish, broadcast}
use ek_utils.Evoke.Timer.{set_timer, defer_req_free, can_deep_sleep}
use ek_utils.Evoke.Isr.{Layout, drain}

-- The ring behind an initialisation, which does not fail for this amount.
abbrev pub fifo_or : Spsc → Option Spsc → Spsc
fifo_or rb none = rb
fifo_or rb (some rb') = rb'

-- `size` is `sizeof(_isr_req_t)`. The tick difference keeps its value.
unfoldable pub init : ℕ → Evoke → Evoke
init size k = record k {
  ready_list = [];
  defer_list = [];
  free_list = up_from 0 max_defer_req;
  fifo = fifo_or k.fifo (Spsc.init_static (some k.fifo) size max_isr_req).1;
  earliest_tick = max_word;
  tick_base = 0;
  sleep_lock = 0;
  wakeup = false;
}

-- A task that ran goes behind those that wait for its event.
unfoldable pub requeue : ℕ → Option ℕ → Evoke → Option Evoke
requeue i none k = none
requeue i (some e) k =
    if linked i k || not (k.task i).alive || not (k.event e).alive
    then none
    else some (join_waiting i e k)

-- `callback i e` is what the callback of the task `i` does when it is given the event `e`.
module _ (callback : ℕ → Option ℕ → Evoke → Option Evoke) where
  unfoldable pub run_task : ℕ → List ℕ → Evoke → Option Evoke
  run_task i rest k = do
    let t = k.task i
    k ←
        callback i t.wait_event
          (set_task i (record t { state = running }) (record k { ready_list = rest }))
    requeue i (k.task i).wait_event k

  -- The loop over the ready list, with fuel: a callback may make tasks ready again.
  unfoldable pub run_ready : ℕ → Evoke → Option Evoke
  run_ready zero k = none
  run_ready (suc fuel) k = elim k.ready_list [
    | [] ↦ some k
    | i ∷ rest ↦ run_task i rest k >>= run_ready fuel
  ]

-- Sets the timer for the first deferred request, unless it is set for that tick.
unfoldable pub arm : List ℕ → Evoke → Evoke
arm [] k = k
arm (r ∷ rest) k =
    let w = (k.request r).wakeup_tick in
    if w == k.earliest_tick
    then k
    else set_timer (sub32 w k.tick_base) (record k { earliest_tick = w })

-- Delivers one deferred request.
unfoldable pub fire : ℕ → List ℕ → Evoke → Option Evoke
fire r rest k =
    let d = k.request r in
    let k = record k { defer_list = rest } in
    let all = broadcast (some d.target) d.payload k in
    let one = publish (some d.target) d.payload k in
    (if d.broadcast then all else one) >>= λ k. some (defer_req_free r k)

-- The loop over the deferred requests that are due. A delivery leaves the rest of the list alone.
unfoldable pub fire_due : List ℕ → Evoke → Option Evoke
fire_due [] k = some k
fire_due (r ∷ rest) k =
    let more = fire r rest k >>= fire_due rest in
    if ltb k.earliest_tick (k.request r).wakeup_tick then some k else more

unfoldable pub check_wakeup : Evoke → Option Evoke
check_wakeup k =
    let fired = fire_due k.defer_list (record k { wakeup = false }) in
    if k.wakeup then fired >>= (λ k. some (record k { earliest_tick = max_word })) else some k

-- What the user supplies: the callbacks, and what happens during the two kinds of sleep, the
-- interrupts included. `least` is `EKCFG_EVOKE_MIN_DEEPSLEEP_TICK`.
pub record Env : Type 0 where
  pub callback : ℕ → Option ℕ → Evoke → Option Evoke
  pub light_sleep : Evoke → Option Evoke
  pub deep_sleep : Evoke → Option Evoke
  pub least : ℕ
  pub layout : Layout

-- One round of the outer loop.
unfoldable pub loop_round : Env → ℕ → Bytes → Evoke → Option Evoke
loop_round env fuel blank k = do
  k ← drain env.layout fuel blank k
  k ← run_ready env.callback fuel k
  let k = arm k.defer_list k
  k ← (if can_deep_sleep env.least k then env.deep_sleep k else env.light_sleep k)
  check_wakeup k

-- `while (1)`, for a number of rounds.
unfoldable pub event_loop : Env → ℕ → ℕ → Bytes → Evoke → Option Evoke
event_loop env zero fuel blank k = some k
event_loop env (suc rounds) fuel blank k =
    loop_round env fuel blank k >>= event_loop env rounds fuel blank

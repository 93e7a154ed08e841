-- ===== src/Evoke/Timer.antt =====
-- src/ek_evoke.c: the sleep lock, the timer, and the requests that are deferred.
use ek_utils.Base.{
  ℕ, ◌-◌, Bool, true, false, Option, none, some, List, [], ◌∷◌, ◌++◌, ◌==◌, leb, if◌then◌else◌,
  update, is_nil, add32, sub32,
}
use ek_utils.Evoke.State.{Deferred, Evoke}
use ek_utils.Evoke.Events.{publish, broadcast}

unfoldable pub sleep_lock : Evoke → Evoke
sleep_lock k = record k { sleep_lock = add32 k.sleep_lock 1 }

unfoldable pub sleep_unlock : Evoke → Evoke
sleep_unlock k = if k.sleep_lock == 0 then k else record k { sleep_lock = k.sleep_lock - 1 }

unfoldable pub delay_timer_callback : Evoke → Evoke
delay_timer_callback k = record k {
  wakeup = true;
  tick_base = add32 k.tick_base k.tick_diff;
  tick_diff = 0;
}

-- `_ek_evoke_set_timer`
unfoldable pub set_timer : ℕ → Evoke → Evoke
set_timer xtick k = record k { timer = some xtick; tick_diff = xtick }

-- `_defer_req_malloc` and `_defer_req_free`
unfoldable pub defer_req_malloc : List ℕ → Evoke → Option (ℕ × Evoke)
defer_req_malloc [] k = none
defer_req_malloc (r ∷ rest) k = some (r, record k { free_list = rest })

unfoldable pub defer_req_free : ℕ → Evoke → Evoke
defer_req_free r k = record k { free_list = k.free_list ++ (r ∷ []) }

-- The walk of `ek_evoke_event_defer`: in front of the first request that is due as early or later.
unfoldable pub insert_by_tick : (ℕ → Deferred) → ℕ → List ℕ → List ℕ
insert_by_tick q r [] = r ∷ []
insert_by_tick q r (x ∷ xs) =
    if leb (q r).wakeup_tick (q x).wakeup_tick then r ∷ x ∷ xs else x ∷ insert_by_tick q r xs

-- Fills a request of the pool and puts it in its place.
unfoldable pub enqueue_deferred : Deferred → ℕ → Evoke → Evoke
enqueue_deferred d r k =
    let q = update k.request r d in
    record k { request = q; defer_list = insert_by_tick q r k.defer_list }

unfoldable pub defer_later : Deferred → Option (ℕ × Evoke) → Evoke → Evoke
defer_later d none k = k
defer_later d (some (r, k')) k = enqueue_deferred d r k'

unfoldable pub defer : Option ℕ → ℕ → ℕ → Bool → Evoke → Option Evoke
defer none payload delay all k = some k
defer (some e) payload delay all k =
    let now = if all then broadcast (some e) payload k else publish (some e) payload k in
    let d : Deferred = record {
      target = e;
      payload = payload;
      wakeup_tick = add32 delay k.tick_base;
      broadcast = all;
    } in
    if delay == 0 then now else some (defer_later d (defer_req_malloc k.free_list k) k)

-- `_ek_evoke_can_deep_sleep`; `least` is `EKCFG_EVOKE_MIN_DEEPSLEEP_TICK`.
unfoldable pub can_deep_sleep : ℕ → Evoke → Bool
can_deep_sleep least k =
    if k.sleep_lock == 0
    then (if is_nil k.defer_list then true else leb least (sub32 k.earliest_tick k.tick_base))
    else false

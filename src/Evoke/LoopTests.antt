-- ===== src/Evoke/LoopTests.antt =====
-- Runs of the loop of the event scheduler.
use ek_utils.Base.{
  ℕ, zero, suc, ◌≡◌, refl, true, false, Option, some, List, [], ◌∷◌, ◌>>=◌, blit, slice, copy_out,
}
use ek_utils.Err.{Err, ok, full}
use ek_utils.Spsc
use ek_utils.Evoke.State.{Evoke}
use ek_utils.Evoke.Events.{
  task_init_static, task_create, event_create, subscribe, join_waiting, publish, broadcast,
  wake_first, wake_all, count_up, deliver_one, deliver_all,
}
use ek_utils.Evoke.Timer.{
  sleep_lock, sleep_unlock, delay_timer_callback, set_timer, defer_req_malloc, defer_req_free,
  insert_by_tick, enqueue_deferred, defer_later, defer, can_deep_sleep,
}
use ek_utils.Evoke.Isr.{
  post, broadcast_from_isr, publish_from_isr, defer_from_isr, handle, drain_one, drain,
}
use ek_utils.Evoke.Loop.{
  init, requeue, run_task, run_ready, arm, fire, fire_due, check_wakeup, Env, loop_round,
  event_loop,
}
use ek_utils.Evoke.Tests.{four_fields, zeros, boot, two_wait, seen}

-- Sleep that finds the timer set waits for it, and one interrupt comes before each light sleep.
abbrev world : (Evoke → Evoke) → Env
world interrupt = record {
  callback = λ i e k. some k;
  light_sleep = λ k. some (interrupt k);
  deep_sleep = λ k. some (delay_timer_callback k);
  least = 3;
  layout = four_fields;
}

abbrev some_rounds : (Evoke → Evoke) → ℕ → Option Evoke → Option Evoke
some_rounds interrupt n k = k >>= event_loop (world interrupt) n 12 zeros

-- Requests for the ticks 20, 10 and 10 stand with the last one of the tick 10 first.
abbrev three_deferred : Option Evoke
three_deferred = do
  k ← two_wait
  k ← defer (some 0) 5 20 false k
  k ← defer (some 0) 6 10 false k
  defer (some 0) 7 10 true k

abbrev pools : Option Evoke → Option (List ℕ × List ℕ)
pools r = do k ← r; some (k.defer_list, k.free_list)

deferred_in_order : pools three_deferred ≡ some (2 ∷ 1 ∷ 0 ∷ [], 3 ∷ 4 ∷ 5 ∷ 6 ∷ 7 ∷ 8 ∷ 9 ∷ [])
unfolding init task_create task_init_static event_create subscribe join_waiting defer defer_later
    defer_req_malloc enqueue_deferred insert_by_tick
deferred_in_order = refl

-- The first round sleeps to the tick 10 and delivers two of them, the broadcast first.
abbrev seen_after : Option Evoke → Option ((List ℕ × List ℕ × ℕ × ℕ) × List ℕ × ℕ)
seen_after r = do k ← r; some (seen k, k.defer_list, k.tick_base)

one_round :
    seen_after (some_rounds (λ k. k) 1 three_deferred) ≡ some ((1 ∷ 2 ∷ [], [], 1, 6), 0 ∷ [], 10)
unfolding init task_create task_init_static event_create subscribe join_waiting defer defer_later
    defer_req_malloc defer_req_free enqueue_deferred insert_by_tick event_loop loop_round drain
    Spsc.is_empty Spsc.init_static run_ready arm set_timer can_deep_sleep delay_timer_callback
    check_wakeup fire_due fire publish broadcast deliver_one deliver_all wake_all wake_first
    count_up
one_round = refl

-- The interrupts of two light sleeps publish at once and ask for a publication 5 ticks later. A lock
-- keeps the sleeps light. The tasks run in the second round and wait again.
abbrev two_requests : Evoke → Evoke
two_requests k =
    let k = (publish_from_isr four_fields (some 0) 8 k).1 in
    (defer_from_isr four_fields (some 0) 9 5 false k).1

abbrev locked_rounds : ℕ → Option Evoke
locked_rounds n = some_rounds two_requests n (do k ← two_wait; some (sleep_lock k))

one_locked_round : seen_after (locked_rounds 1) ≡ some (([], 1 ∷ 2 ∷ [], 0, 0), [], 0)
unfolding init task_create task_init_static event_create subscribe join_waiting sleep_lock
    publish_from_isr defer_from_isr post event_loop loop_round drain Spsc.is_empty Spsc.init_static
    Spsc.write_item Spsc.next_idx blit run_ready arm can_deep_sleep check_wakeup
one_locked_round = refl

two_locked_rounds : seen_after (locked_rounds 2) ≡ some (([], 2 ∷ 1 ∷ [], 0, 8), 0 ∷ [], 0)
unfolding init task_create task_init_static event_create subscribe join_waiting sleep_lock
    publish_from_isr defer_from_isr post event_loop loop_round drain drain_one handle Spsc.is_empty
    Spsc.init_static Spsc.write_item Spsc.read_item Spsc.next_idx blit slice copy_out run_ready
    run_task requeue arm set_timer can_deep_sleep check_wakeup publish deliver_one wake_first defer
    defer_later defer_req_malloc enqueue_deferred insert_by_tick
two_locked_rounds = refl

abbrev post_times : ℕ → Evoke → List Err
post_times zero k = []
post_times (suc n) k =
    let (e, k) = broadcast_from_isr four_fields (some 0) 1 k in e ∷ post_times n k

-- The ring of ten slots takes nine requests.
nine_requests : post_times 10 (init 4 boot) ≡ ok ∷ ok ∷ ok ∷ ok ∷ ok ∷ ok ∷ ok ∷ ok ∷ ok ∷ full ∷ []
unfolding init broadcast_from_isr post Spsc.init_static Spsc.write_item Spsc.next_idx blit
nine_requests = refl

-- As many unlocks as locks, and no more, make the counter 0.
abbrev lock_counts : List ℕ
lock_counts =
    let k = sleep_lock (sleep_lock boot) in
    k.sleep_lock
    ∷ (sleep_unlock k).sleep_lock
    ∷ (sleep_unlock (sleep_unlock (sleep_unlock k))).sleep_lock
    ∷ []

lock_counts_run : lock_counts ≡ 2 ∷ 1 ∷ 0 ∷ []
unfolding sleep_lock sleep_unlock
lock_counts_run = refl

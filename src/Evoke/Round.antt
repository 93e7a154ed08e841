-- ===== src/Evoke/Round.antt =====
-- src/ek_evoke.c: a whole round of the loop.
use ek_utils.Base.{
  ℕ, ◌+◌, ◌<◌, ◌≡◌, refl, ap, ◌∙◌, arith, Bool, true, false, Option, some, List, if◌then◌else◌,
  length, Bytes, ◌>>=◌,
}
use ek_utils.Evoke.State.{Evoke}
use ek_utils.Evoke.Events.{join_waiting}
use ek_utils.Evoke.Timer.{can_deep_sleep}
use ek_utils.Evoke.Isr.{Layout}
use ek_utils.Evoke.Loop.{Env, run_ready, arm, check_wakeup, loop_round}
use ek_utils.Evoke.Pool.{IsPooled}
use ek_utils.Evoke.Drain.{IsLayout}
use ek_utils.Evoke.Ready.{IsQuiet, IsServed, SameTasks, started}
use ek_utils.Evoke.Rest.{run_ready-rests}
use ek_utils.Evoke.Ran.{ready-keeps}
use ek_utils.Evoke.Safe.{IsSafe, agree}
use ek_utils.Evoke.Sound.{IsRing, KeepsSound, drain-IsSafe}
use ek_utils.Evoke.Fired.{arm-KeepsSound, check_wakeup-KeepsSound}

-- What the user supplies: a layout that reads back what it wrote, callbacks that return, change no
-- task and none of its lists and keep the pool and the ring, and sleeps that end and keep the
-- scheduler safe.
pub record IsFriendly (env : Env) : Type 0 where
  pub lays_out : IsLayout env.layout
  pub quiet : IsQuiet env.callback
  pub pool_kept :
      (i : ℕ) (w : Option ℕ) (k k' : Evoke)
      → env.callback i w k ≡ some k'
      → IsPooled k
      → IsPooled k'
  pub ring_kept :
      (i : ℕ) (w : Option ℕ) (k k' : Evoke)
      → env.callback i w k ≡ some k'
      → IsRing env.layout k.fifo
      → IsRing env.layout k'.fifo
  pub light :
      (k : Evoke) → IsSafe k → IsRing env.layout k.fifo → KeepsSound env.layout (env.light_sleep k)
  pub deep :
      (k : Evoke) → IsSafe k → IsRing env.layout k.fifo → KeepsSound env.layout (env.deep_sleep k)

-- What is in use, the pool and the ring.
record Holding (layout : Layout) (k : Evoke) : Type 0 where
  pool : IsPooled k
  ring : IsRing layout k.fifo
  tasks : (i : ℕ) → (k.task i).alive ≡ true
  events : (e : ℕ) → (k.event e).alive ≡ true

started-Holding :
    (layout : Layout) (i : ℕ) (rest : List ℕ) (k : Evoke)
    → Holding layout k
    → Holding layout (started i rest k)
started-Holding layout i rest k h = record {
  pool = record {
    in_order = (h.pool).in_order;
    all_there = (h.pool).all_there;
    once_free = (h.pool).once_free;
    once_pending = (h.pool).once_pending;
    apart = (h.pool).apart;
  };
  ring = h.ring;
  tasks = λ c. ground (arith, h.tasks c, h.tasks i);
  events = h.events;
}

join_waiting-Holding :
    (layout : Layout) (i e : ℕ) (k : Evoke) → Holding layout k → Holding layout (join_waiting i e k)
unfolding join_waiting
join_waiting-Holding layout i e k h = record {
  pool = record {
    in_order = (h.pool).in_order;
    all_there = (h.pool).all_there;
    once_free = (h.pool).once_free;
    once_pending = (h.pool).once_pending;
    apart = (h.pool).apart;
  };
  ring = h.ring;
  tasks = λ c. ground (arith, h.tasks c, h.tasks i);
  events = λ c. ground (arith, h.events c, h.events e);
}

returned-Holding :
    (env : Env) (i : ℕ) (w : Option ℕ) (k k' : Evoke)
    → IsFriendly env
    → env.callback i w k ≡ some k'
    → Holding env.layout k
    → Holding env.layout k'
returned-Holding env i w k k' f runs h =
    let (_, returns, s') = f.quiet i w k in
    let s : SameTasks k k' = agree (SameTasks k) runs returns s' in
    record {
      pool = f.pool_kept i w k k' runs h.pool;
      ring = f.ring_kept i w k k' runs h.ring;
      tasks = rw s.task_same h.tasks;
      events = λ e. s.alive_same e ∙ h.events e;
    }

ready-IsServed : (k : Evoke) → IsSafe k → IsServed k.ready_list k
ready-IsServed k safe i m =
    let (e, at) = (safe.calm).named i m in
    ((safe.calm).tasks_live i, e, at, (safe.calm).events_live e)

-- The loop over the ready list, with fuel for one round more than tasks.
run_ready-KeepsSound :
    (env : Env) (fuel : ℕ) (k : Evoke)
    → IsFriendly env
    → IsSafe k
    → IsRing env.layout k.fifo
    → length k.ready_list < fuel
    → KeepsSound env.layout (run_ready env.callback fuel k)
run_ready-KeepsSound env fuel k f safe ring h =
    let (k', runs, rested) =
      run_ready-rests env.callback k.ready_list fuel k f.quiet (safe.calm).wired refl
        (ready-IsServed k safe) h in
    let before : Holding env.layout k = record {
      pool = safe.pooled;
      ring = ring;
      tasks = (safe.calm).tasks_live;
      events = (safe.calm).events_live;
    } in
    let after : Holding env.layout k' =
      ready-keeps env.callback (Holding env.layout) (started-Holding env.layout)
        (λ i w k k' runs. returned-Holding env i w k k' f runs) (join_waiting-Holding env.layout)
        fuel k.ready_list k k' refl runs before in
    (
      k',
      runs,
      record {
        calm = record {
          wired = rested.wired;
          tasks_live = after.tasks;
          events_live = after.events;
          named = λ i m. ground (arith, m, rested.none_ready);
        };
        pooled = after.pool;
      },
      after.ring,
    )

sleep-KeepsSound :
    (env : Env) (k : Evoke) (deeply : Bool)
    → IsFriendly env
    → IsSafe k
    → IsRing env.layout k.fifo
    → KeepsSound env.layout (if deeply then env.deep_sleep k else env.light_sleep k)
sleep-KeepsSound env k true f safe ring = f.deep k safe ring
sleep-KeepsSound env k false f safe ring = f.light k safe ring

-- Let all tasks and events be in use, let lists, tasks and pool agree both ways (who stands in a
-- list is in the state that the list stands for, and who waits or is ready stands in its list), let
-- every ready task have an event, and let the valid ring hold requests that fit their fields. Let
-- the callbacks return from every state and change no task, no ready or wait list and nothing of
-- what is in use: they may count events that nobody waits for, and they keep the pool and the ring.
-- Let each sleep end, from every state that is in agreement, and keep the agreement, the pool and
-- the ring. Let the layout read back the requests that it wrote and that fit their fields, and let
-- the buffer for a request have its size. Then, with fuel above a bound, a whole round of the loop
-- is carried out within the contract: it comes to its end, and leaves lists, tasks, pool and ring
-- in agreement for the next one.
pub loop_round-KeepsSound :
    (env : Env) (blank : Bytes) (k : Evoke)
    → IsFriendly env
    → length blank ≡ (env.layout).size
    → IsSafe k
    → IsRing env.layout k.fifo
    → (n : ℕ) × ((fuel : ℕ) → n < fuel → KeepsSound env.layout (loop_round env fuel blank k))
unfolding loop_round
loop_round-KeepsSound env blank k f b safe ring =
    let (k1, safe1, ring1, drains) = drain-IsSafe env.layout blank k ring f.lays_out b safe in
    (
      length ring.reqs + length k1.ready_list,
      (λ fuel h.
          let (k2, runs, safe2, ring2) =
            run_ready-KeepsSound env fuel k1 f safe1 ring1 (omega (arith, h)) in
          let (safe3, ring3) = arm-KeepsSound env.layout k2.defer_list k2 safe2 ring2 in
          let k3 = arm k2.defer_list k2 in
          let (k4, sleeps, safe4, ring4) =
            sleep-KeepsSound env k3 (can_deep_sleep env.least k3) f safe3 ring3 in
          let (k5, checks, safe5, ring5) = check_wakeup-KeepsSound env.layout k4 safe4 ring4 in
          (
            k5,
            ap (λ q. q >>= λ k. run_ready env.callback fuel k >>= slept)
                  (drains fuel (omega (arith, h)))
                ∙ ap (λ q. q >>= slept) runs
                ∙ ap (λ q. q >>= check_wakeup) sleeps
                ∙ checks,
            safe5,
            ring5,
          )),
    )
  where
    slept : Evoke → Option Evoke
    slept k =
        let k = arm k.defer_list k in
        (if can_deep_sleep env.least k then env.deep_sleep k else env.light_sleep k)
        >>= check_wakeup

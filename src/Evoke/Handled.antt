-- ===== src/Evoke/Handled.antt =====
-- src/ek_evoke.c: requests that are put off, and those of interrupts, while nothing is freed.
use ek_utils.Base.{
  ℕ, ◌≡◌, refl, ap, ◌∙◌, inl, inr, Bool-cases, Bool, true, false, some, List, [], ◌∷◌, ◌==◌, ◌>>=◌,
  add32,
}
use ek_utils.Evoke.State.{Deferred, Evoke}
use ek_utils.Evoke.Timer.{defer, defer_later, defer_req_malloc, enqueue_deferred}
use ek_utils.Evoke.Isr.{IsrReq, Layout, handle, has_flag, req_publish, req_delay, req_broadcast}
use ek_utils.Evoke.Wired.{IsWired}
use ek_utils.Evoke.Calls.{defer-Keeps}
use ek_utils.Evoke.Pool.{IsPooled, defer-IsPooled}
use ek_utils.Evoke.Drain.{handle_all}
use ek_utils.Evoke.Safe.{
  IsSafe, KeepsSafe, agree, KeepsCalm-KeepsSafe, publish-IsCalm, broadcast-IsCalm,
}

-- A request that is put off changes neither tasks nor events.
later-same :
    (d : Deferred) (free : List ℕ) (k : Evoke)
    → let k' = defer_later d (defer_req_malloc free k) k in
      (k'.task ≡ k.task) × (k'.event ≡ k.event) × (k'.ready_list ≡ k.ready_list)
unfolding defer_later defer_req_malloc enqueue_deferred
later-same d [] k = (refl, refl, refl)
later-same d (r ∷ rest) k = (refl, refl, refl)

later-IsSafe :
    {k k' : Evoke}
    → IsSafe k
    → IsWired k'
    → IsPooled k'
    → (k'.task ≡ k.task) × (k'.event ≡ k.event) × (k'.ready_list ≡ k.ready_list)
    → IsSafe k'
later-IsSafe safe w p (tasks, events, readies) = record {
  calm = record {
    wired = w;
    tasks_live = rw tasks (safe.calm).tasks_live;
    events_live = rw events (safe.calm).events_live;
    named = rw (tasks, readies) (safe.calm).named;
  };
  pooled = p;
}

-- The request that is put off.
abbrev put_off : ℕ → ℕ → ℕ → Bool → Evoke → Deferred
put_off e payload delay all k = record {
  target = e;
  payload = payload;
  wakeup_tick = add32 delay k.tick_base;
  broadcast = all;
}

defer_lem :
    (e payload delay : ℕ) (all : Bool) (k : Evoke)
    → (delay == 0) ≡ false
    → defer (some e) payload delay all k
      ≡ some (defer_later (put_off e payload delay all k) (defer_req_malloc k.free_list k) k)
unfolding defer
defer_lem e payload delay all k later = rw later refl

pub defer-IsSafe :
    (e payload delay : ℕ) (all : Bool) (k : Evoke)
    → IsSafe k
    → KeepsSafe (defer (some e) payload delay all k)
unfolding defer
defer-IsSafe e payload delay all k safe =
    let live = (safe.calm).events_live e in
    let (_, runs_w, w) = defer-Keeps e payload delay all k live (safe.calm).wired in
    let (_, runs_p, p) = defer-IsPooled e payload delay all k live safe.pooled in
    elim (Bool-cases (delay == 0)) [
      | inl now ↦ elim (Bool-cases all) [
        | inl a ↦ rw (now, a) (KeepsCalm-KeepsSafe safe (broadcast-IsCalm e payload k safe.calm))
        | inr a ↦ rw (now, a) (KeepsCalm-KeepsSafe safe (publish-IsCalm e payload k safe.calm))
      ]
      | inr later ↦
          let runs = defer_lem e payload delay all k later in
          (
            defer_later (put_off e payload delay all k) (defer_req_malloc k.free_list k) k,
            runs,
            later-IsSafe safe (agree IsWired runs runs_w w) (agree IsPooled runs runs_p p)
                (later-same (put_off e payload delay all k) k.free_list k),
          )
    ]

pub handle-IsSafe :
    (layout : Layout) (req : IsrReq) (k : Evoke) → IsSafe k → KeepsSafe (handle layout req k)
unfolding handle
handle-IsSafe layout req k safe = elim (Bool-cases (has_flag req_publish req.kind)) [
  | inl p ↦ elim (Bool-cases (has_flag req_delay req.kind)) [
    | inl d ↦ rw (p, d) (defer-IsSafe req.target req.payload req.delay false k safe)
    | inr d ↦
        rw (p, d) (KeepsCalm-KeepsSafe safe (publish-IsCalm req.target req.payload k safe.calm))
  ]
  | inr p ↦ elim (Bool-cases (has_flag req_broadcast req.kind)) [
    | inl b ↦ elim (Bool-cases (has_flag req_delay req.kind)) [
      | inl d ↦ rw (p, b, d) (defer-IsSafe req.target req.payload req.delay true k safe)
      | inr d ↦
          rw (p, b, d)
            (KeepsCalm-KeepsSafe safe (broadcast-IsCalm req.target req.payload k safe.calm))
    ]
    | inr b ↦ rw (p, b) (k, refl, safe)
  ]
]

-- While nothing is freed, any requests of interrupts, one after the other, are handled within the
-- contract and leave the scheduler safe.
pub handle_all-IsSafe :
    (layout : Layout) (reqs : List IsrReq) (k : Evoke)
    → IsSafe k
    → KeepsSafe (handle_all layout reqs k)
unfolding handle_all
handle_all-IsSafe layout [] k safe = (k, refl, safe)
handle_all-IsSafe layout (req ∷ reqs) k safe =
    let (k1, runs, safe1) = handle-IsSafe layout req k safe in
    let (k2, more, safe2) = handle_all-IsSafe layout reqs k1 safe1 in
    (k2, ap (λ q. q >>= handle_all layout reqs) runs ∙ more, safe2)

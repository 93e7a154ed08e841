-- ===== src/Evoke/Fired.antt =====
-- src/ek_evoke.c: the deferred requests that are due keep the scheduler safe, while nothing is freed.
use mathlib.Core.Path.{subst}
use ek_utils.Base.{
  ℕ, ◌≡◌, refl, sym, ap, ◌∙◌, arith, inl, inr, Bool-cases, Bool, true, false, Option, some, List,
  [], ◌∷◌, ltb, if◌then◌else◌, ◌∈◌, ◌∉◌, length, length-append, max_word, ◌>>=◌,
}
use ek_utils.Dlist.Chain.{Distinct, has-append}
use ek_utils.Evoke.State.{Evoke}
use ek_utils.Evoke.Timer.{set_timer, defer_req_free}
use ek_utils.Evoke.Isr.{Layout}
use ek_utils.Evoke.Loop.{arm, fire, fire_due, check_wakeup}
use ek_utils.Dlist.Chain.{Distinct-snoc}
use ek_utils.Evoke.Frame.{SamePool}
use ek_utils.Evoke.Pool.{IsPooled, earlier}
use ek_utils.Sorting.{Sorted}
use ek_utils.Evoke.Safe.{IsCalm, IsSafe, KeepsCalm, publish-IsCalm, broadcast-IsCalm}
use ek_utils.Evoke.Sound.{SameCore, SameCore-IsCalm, IsRing, KeepsSound}

-- Only the times differ.
pub record SameLists (k k' : Evoke) : Type 0 where
  pub core : SameCore k k'
  pub request_same : k'.request ≡ k.request
  pub free_same : k'.free_list ≡ k.free_list
  pub defer_same : k'.defer_list ≡ k.defer_list
  pub fifo_same : k'.fifo ≡ k.fifo

SameLists-IsSafe : {k k' : Evoke} → SameLists k k' → IsSafe k → IsSafe k'
SameLists-IsSafe s safe = record {
  calm = SameCore-IsCalm s.core safe.calm;
  pooled = record {
    in_order = rw (s.request_same, s.defer_same) (safe.pooled).in_order;
    all_there = rw (s.free_same, s.defer_same) (safe.pooled).all_there;
    once_free = rw s.free_same (safe.pooled).once_free;
    once_pending = rw s.defer_same (safe.pooled).once_pending;
    apart = rw (s.free_same, s.defer_same) (safe.pooled).apart;
  };
}

-- A new state that differs in its times only keeps what a part of the loop promises.
pub same-KeepsSound :
    (layout : Layout) {k k' : Evoke}
    → SameLists k k'
    → IsSafe k
    → IsRing layout k.fifo
    → IsSafe k' × IsRing layout k'.fifo
same-KeepsSound layout s safe ring =
    (SameLists-IsSafe s safe, subst (IsRing layout) (sym s.fifo_same) ring)

arm-SameLists : (l : List ℕ) (k : Evoke) → SameLists k (arm l k)
unfolding arm set_timer
arm-SameLists [] k = record {
  core = record { tasks_same = refl; events_same = refl; ready_same = refl };
  request_same = refl;
  free_same = refl;
  defer_same = refl;
  fifo_same = refl;
}
arm-SameLists (r ∷ rest) k = record {
  core = record {
    tasks_same = ground arith;
    events_same = ground arith;
    ready_same = ground arith;
  };
  request_same = ground arith;
  free_same = ground arith;
  defer_same = ground arith;
  fifo_same = ground arith;
}

pub arm-KeepsSound :
    (layout : Layout) (l : List ℕ) (k : Evoke)
    → IsSafe k
    → IsRing layout k.fifo
    → IsSafe (arm l k) × IsRing layout (arm l k).fifo
arm-KeepsSound layout l k safe ring = same-KeepsSound layout (arm-SameLists l k) safe ring

-- A request that was delivered is given back.
freed-IsPooled :
    (r : ℕ) (rest : List ℕ) {k k2 : Evoke}
    → IsPooled k
    → k.defer_list ≡ r ∷ rest
    → SamePool (record k { defer_list = rest }) k2
    → IsPooled (defer_req_free r k2)
unfolding defer_req_free
freed-IsPooled r rest {k} {k2} p l s =
    let once : Distinct (r ∷ rest) = subst Distinct l p.once_pending in
    let pending : r ∈ k.defer_list = ground (arith, l) in
    let apart : r ∉ k.free_list = ground (arith, pending, p.apart r) in
    record {
      in_order =
          rw (s.request_same, s.defer_same) (subst (Sorted (earlier k.request)) l p.in_order).1;
      all_there = omega (
        arith,
        p.all_there,
        ap length l,
        ap length s.free_same,
        ap length s.defer_same,
        length-append k2.free_list (r ∷ []),
      );
      once_free = Distinct-snoc k2.free_list r (rw s.free_same p.once_free) (rw s.free_same apart);
      once_pending = rw s.defer_same once.1;
      apart = λ c m. ground (
        arith,
        m,
        has-append c k2.free_list (r ∷ []),
        s.free_same,
        s.defer_same,
        once.0,
        p.apart c,
        l,
      );
    }

-- What the delivery of the first deferred request leaves.
abbrev KeepsFired : ℕ → List ℕ → Evoke → Option Evoke → Type 0
KeepsFired r rest k res =
    (k' : Evoke) × (res ≡ some k') × IsSafe k' × (k'.fifo ≡ k.fifo) × (k'.defer_list ≡ rest)

given_back :
    (r : ℕ) (rest : List ℕ) (k : Evoke) {res : Option Evoke}
    → IsSafe k
    → k.defer_list ≡ r ∷ rest
    → KeepsCalm (record k { defer_list = rest }) res
    → KeepsFired r rest k (res >>= λ k2. some (defer_req_free r k2))
unfolding defer_req_free
given_back r rest k safe l (k2, runs, calm, pool) = (
  defer_req_free r k2,
  ap (λ q. q >>= λ k2. some (defer_req_free r k2)) runs,
  record {
    calm =
        SameCore-IsCalm (record { tasks_same = refl; events_same = refl; ready_same = refl }) calm;
    pooled = freed-IsPooled r rest safe.pooled l pool;
  },
  pool.fifo_same,
  pool.defer_same,
)

fire-KeepsFired :
    (r : ℕ) (rest : List ℕ) (k : Evoke)
    → IsSafe k
    → k.defer_list ≡ r ∷ rest
    → KeepsFired r rest k (fire r rest k)
unfolding fire
fire-KeepsFired r rest k safe l =
    let d = k.request r in
    let k1 = record k { defer_list = rest } in
    let calm : IsCalm k1 =
      SameCore-IsCalm (record { tasks_same = refl; events_same = refl; ready_same = refl })
        safe.calm in
    elim (Bool-cases d.broadcast) [
      | inl a ↦ rw a (given_back r rest k safe l (broadcast-IsCalm d.target d.payload k1 calm))
      | inr a ↦ rw a (given_back r rest k safe l (publish-IsCalm d.target d.payload k1 calm))
    ]

fire_due-KeepsSound :
    (layout : Layout) (l : List ℕ) (k : Evoke)
    → k.defer_list ≡ l
    → IsSafe k
    → IsRing layout k.fifo
    → KeepsSound layout (fire_due l k)
unfolding fire_due
fire_due-KeepsSound layout [] k e safe ring = (k, refl, safe, ring)
fire_due-KeepsSound layout (r ∷ rest) k e safe ring =
    elim (Bool-cases (ltb k.earliest_tick (k.request r).wakeup_tick)) [
      | inl later ↦ rw later (k, refl, safe, ring)
      | inr due ↦
          let (k1, runs, safe1, fifo, left) = fire-KeepsFired r rest k safe e in
          let (k2, ends, safe2, ring2) =
            fire_due-KeepsSound layout rest k1 left safe1 (subst (IsRing layout) (sym fifo) ring) in
          rw due (k2, ap (λ q. q >>= fire_due rest) runs ∙ ends, safe2, ring2)
    ]

if-true : {x : Option Evoke} (y : Option Evoke) (b : Bool) → b ≡ true → (if b then x else y) ≡ x
if-true y b e = rw e refl

if-false : (x : Option Evoke) {y : Option Evoke} (b : Bool) → b ≡ false → (if b then x else y) ≡ y
if-false x b e = rw e refl

abbrev no_tick : Evoke → Evoke
no_tick k = record k { earliest_tick = max_word }

pub check_wakeup-KeepsSound :
    (layout : Layout) (k : Evoke)
    → IsSafe k
    → IsRing layout k.fifo
    → KeepsSound layout (check_wakeup k)
unfolding check_wakeup
check_wakeup-KeepsSound layout k safe ring = elim (Bool-cases k.wakeup) [
  | inr asleep ↦ (k, if-false _ k.wakeup asleep, safe, ring)
  | inl woken ↦
      let (safe1, ring1) = same-KeepsSound layout (times k) safe ring in
      let (k2, runs, safe2, ring2) =
        fire_due-KeepsSound layout k.defer_list (record k { wakeup = false }) refl safe1 ring1 in
      let (safe3, ring3) = same-KeepsSound layout (reset k2) safe2 ring2 in
      (
        no_tick k2,
        if-true _ k.wakeup woken ∙ ap (λ q. q >>= (λ k. some (no_tick k))) runs,
        safe3,
        ring3,
      )
]
  where
    times : (k : Evoke) → SameLists k (record k { wakeup = false })
    times k = record {
      core = record { tasks_same = refl; events_same = refl; ready_same = refl };
      request_same = refl;
      free_same = refl;
      defer_same = refl;
      fifo_same = refl;
    }

    reset : (k : Evoke) → SameLists k (record k { earliest_tick = max_word })
    reset k = record {
      core = record { tasks_same = refl; events_same = refl; ready_same = refl };
      request_same = refl;
      free_same = refl;
      defer_same = refl;
      fifo_same = refl;
    }

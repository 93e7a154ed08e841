-- ===== src/Evoke/Sound.antt =====
-- src/ek_evoke.c: the parts of the loop keep the scheduler safe, while nothing is freed.
use ek_utils.Base.{
  ℕ, zero, suc, ◌<◌, ◌≡◌, refl, ap, ◌∙◌, arith, Option, some, List, [], length, map, Bytes,
}
use ek_utils.Spsc.{Spsc, read_item}
use ek_utils.Spsc.Bounds.{IsValid}
use ek_utils.Spsc.Refine.{contents}
use ek_utils.Evoke.State.{Evoke}
use ek_utils.Evoke.Isr.{IsrReq, AllFit, Layout, drain}
use ek_utils.Evoke.Apart.{set_fifo, with_fifo}
use ek_utils.Evoke.Drain.{IsLayout, drained, drain_lem}
use ek_utils.Evoke.Safe.{IsCalm, IsSafe}
use ek_utils.Evoke.Handled.{handle_all-IsSafe}

-- The ring is valid and holds requests.
pub record IsRing (layout : Layout) (rb : Spsc) : Type 0 where
  pub valid : IsValid rb
  pub sized : rb.item_size ≡ layout.size
  pub reqs : List IsrReq
  pub fit : AllFit reqs
  pub holds : contents rb ≡ map layout.encode reqs

-- What safety is about is the same.
pub record SameCore (k k' : Evoke) : Type 0 where
  pub tasks_same : k'.task ≡ k.task
  pub events_same : k'.event ≡ k.event
  pub ready_same : k'.ready_list ≡ k.ready_list

pub SameCore-IsCalm : {k k' : Evoke} → SameCore k k' → IsCalm k → IsCalm k'
SameCore-IsCalm s c = record {
  wired = record {
    at_event = rw (s.tasks_same, s.events_same) (c.wired).at_event;
    waits = rw (s.tasks_same, s.events_same) (c.wired).waits;
    readies = rw (s.tasks_same, s.ready_same) (c.wired).readies;
    once_ready = rw s.ready_same (c.wired).once_ready;
    once_waiting = rw s.events_same (c.wired).once_waiting;
    ready_there = rw (s.tasks_same, s.ready_same) (c.wired).ready_there;
    wait_there = rw (s.tasks_same, s.events_same) (c.wired).wait_there;
    live_ready = rw (s.tasks_same, s.ready_same) (c.wired).live_ready;
    live_waiter = rw (s.tasks_same, s.events_same) (c.wired).live_waiter;
    live_event = rw s.events_same (c.wired).live_event;
  };
  tasks_live = rw s.tasks_same c.tasks_live;
  events_live = rw s.events_same c.events_live;
  named = rw (s.tasks_same, s.ready_same) c.named;
}

-- Another ring, or another time, changes nothing of it.
pub set_fifo-IsSafe : (rb : Spsc) (k : Evoke) → IsSafe k → IsSafe (set_fifo rb k)
set_fifo-IsSafe rb k safe = record {
  calm =
      SameCore-IsCalm (record { tasks_same = refl; events_same = refl; ready_same = refl })
        safe.calm;
  pooled = record {
    in_order = (safe.pooled).in_order;
    all_there = (safe.pooled).all_there;
    once_free = (safe.pooled).once_free;
    once_pending = (safe.pooled).once_pending;
    apart = (safe.pooled).apart;
  };
}

-- A part of the loop that succeeds.
abbrev pub KeepsSound : Layout → Option Evoke → Type 0
KeepsSound layout r = (k' : Evoke) × (r ≡ some k') × IsSafe k' × IsRing layout k'.fifo

read_item-size :
    (blank : Bytes) (rb : Spsc) → ((read_item rb (some blank)).2).item_size ≡ rb.item_size
unfolding read_item
read_item-size blank rb = ground arith

drained-size : (blank : Bytes) (n : ℕ) (rb : Spsc) → (drained blank n rb).item_size ≡ rb.item_size
unfolding drained
drained-size blank zero rb = refl
drained-size blank (suc n) rb =
    drained-size blank n (read_item rb (some blank)).2 ∙ read_item-size blank rb

-- The loop over the ring ends in a safe state, with fuel for one round more than requests.
pub drain-IsSafe :
    (layout : Layout) (blank : Bytes) (k : Evoke) (ring : IsRing layout k.fifo)
    → IsLayout layout
    → length blank ≡ layout.size
    → IsSafe k
    → (k' : Evoke) × IsSafe k'
      × IsRing layout k'.fifo
      × ((fuel : ℕ) → length ring.reqs < fuel → drain layout fuel blank k ≡ some k')
drain-IsSafe layout blank k ring l b safe =
    let n = length ring.reqs in
    let rb = drained blank n k.fifo in
    let (_, valid, empty) =
      drain_lem layout blank ring.reqs (suc n) k l b ring.valid ring.holds ring.fit (omega arith) in
    let (k', handled, safe') = handle_all-IsSafe layout ring.reqs k safe in
    (
      set_fifo rb k',
      set_fifo-IsSafe rb k' safe',
      record {
        valid = valid;
        sized = drained-size blank n k.fifo ∙ ring.sized;
        reqs = [];
        fit = tt;
        holds = empty;
      },
      (λ fuel h.
          (drain_lem layout blank ring.reqs fuel k l b ring.valid ring.holds ring.fit h).0
          ∙ ap (with_fifo rb) handled),
    )

-- ===== src/Evoke/Apart.antt =====
-- src/ek_evoke.c: what the loop does for a request of an interrupt neither reads the ring that
-- carried it nor changes it.
use ek_utils.Base.{
  ℕ, ◌≡◌, refl, ap, inl, inr, Bool-cases, Bool, true, false, Option, none, some, List, [], ◌∷◌,
  ◌==◌, if◌then◌else◌, ◌>>=◌,
}
use ek_utils.Spsc.{Spsc}
use ek_utils.Evoke.State.{Deferred, Evoke}
use ek_utils.Evoke.Events.{
  set_payload, wake_first, wake_all, count_up, deliver_one, deliver_all, publish, broadcast,
}
use ek_utils.Evoke.Timer.{defer, defer_later, defer_req_malloc, enqueue_deferred}
use ek_utils.Evoke.Isr.{IsrReq, Layout, handle, has_flag, req_publish, req_delay, req_broadcast}

abbrev pub set_fifo : Spsc → Evoke → Evoke
set_fifo rb k = record k { fifo = rb }

-- The same run, with another ring in the state.
abbrev pub with_fifo : Spsc → Option Evoke → Option Evoke
with_fifo rb r = r >>= λ k. some (set_fifo rb k)

wake_all-fifo :
    (rb : Spsc) (e : ℕ) (waits : List ℕ) (k : Evoke)
    → wake_all e waits (set_fifo rb k) ≡ set_fifo rb (wake_all e waits k)
unfolding wake_all wake_first
wake_all-fifo rb e [] k = refl
wake_all-fifo rb e (i ∷ rest) k = wake_all-fifo rb e rest (wake_first e i rest k)

deliver_one-fifo :
    (rb : Spsc) (e : ℕ) (waits : List ℕ) (k : Evoke)
    → deliver_one e waits (set_fifo rb k) ≡ set_fifo rb (deliver_one e waits k)
unfolding deliver_one count_up wake_first
deliver_one-fifo rb e [] k = refl
deliver_one-fifo rb e (i ∷ rest) k = refl

deliver_all-fifo :
    (rb : Spsc) (e : ℕ) (waits : List ℕ) (k : Evoke)
    → deliver_all e waits (set_fifo rb k) ≡ set_fifo rb (deliver_all e waits k)
unfolding deliver_all count_up
deliver_all-fifo rb e [] k = refl
deliver_all-fifo rb e (i ∷ rest) k = wake_all-fifo rb e (i ∷ rest) k

-- Both deliveries have this form.
if-fifo :
    (rb : Spsc) (alive : Bool) {x : Evoke} (y : Evoke)
    → x ≡ set_fifo rb y
    → (if alive then some x else none) ≡ with_fifo rb (if alive then some y else none)
if-fifo rb true y h = ap some h
if-fifo rb false y h = refl

publish-fifo :
    (rb : Spsc) (target : Option ℕ) (payload : ℕ) (k : Evoke)
    → publish target payload (set_fifo rb k) ≡ with_fifo rb (publish target payload k)
unfolding publish
publish-fifo rb none payload k = refl
publish-fifo rb (some e) payload k =
    if-fifo rb (k.event e).alive _
      (deliver_one-fifo rb e (k.event e).wait_list (set_payload e payload k))

broadcast-fifo :
    (rb : Spsc) (target : Option ℕ) (payload : ℕ) (k : Evoke)
    → broadcast target payload (set_fifo rb k) ≡ with_fifo rb (broadcast target payload k)
unfolding broadcast
broadcast-fifo rb none payload k = refl
broadcast-fifo rb (some e) payload k =
    if-fifo rb (k.event e).alive _
      (deliver_all-fifo rb e (k.event e).wait_list (set_payload e payload k))

defer_later-fifo :
    (rb : Spsc) (d : Deferred) (free : List ℕ) (k : Evoke)
    → defer_later d (defer_req_malloc free (set_fifo rb k)) (set_fifo rb k)
      ≡ set_fifo rb (defer_later d (defer_req_malloc free k) k)
unfolding defer_later defer_req_malloc enqueue_deferred
defer_later-fifo rb d [] k = refl
defer_later-fifo rb d (r ∷ rest) k = refl

defer-fifo :
    (rb : Spsc) (target : Option ℕ) (payload delay : ℕ) (all : Bool) (k : Evoke)
    → defer target payload delay all (set_fifo rb k)
      ≡ with_fifo rb (defer target payload delay all k)
unfolding defer
defer-fifo rb none payload delay all k = refl
defer-fifo rb (some e) payload delay all k = elim (Bool-cases (delay == 0)) [
  | inl now ↦ elim (Bool-cases all) [
    | inl a ↦ rw (now, a) (broadcast-fifo rb (some e) payload k)
    | inr a ↦ rw (now, a) (publish-fifo rb (some e) payload k)
  ]
  | inr later ↦ rw later (ap some (defer_later-fifo rb _ k.free_list k))
]

pub handle-fifo :
    (layout : Layout) (rb : Spsc) (req : IsrReq) (k : Evoke)
    → handle layout req (set_fifo rb k) ≡ with_fifo rb (handle layout req k)
unfolding handle
handle-fifo layout rb req k = elim (Bool-cases (has_flag req_publish req.kind)) [
  | inl p ↦ elim (Bool-cases (has_flag req_delay req.kind)) [
    | inl d ↦ rw (p, d) (defer-fifo rb (some req.target) req.payload req.delay false k)
    | inr d ↦ rw (p, d) (publish-fifo rb (some req.target) req.payload k)
  ]
  | inr p ↦ elim (Bool-cases (has_flag req_broadcast req.kind)) [
    | inl b ↦ elim (Bool-cases (has_flag req_delay req.kind)) [
      | inl d ↦ rw (p, b, d) (defer-fifo rb (some req.target) req.payload req.delay true k)
      | inr d ↦ rw (p, b, d) (broadcast-fifo rb (some req.target) req.payload k)
    ]
    | inr b ↦ rw (p, b) refl
  ]
]

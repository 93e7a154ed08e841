-- ===== src/Evoke/Sleep.antt =====
-- src/ek_evoke.c: what interrupts do during a sleep keeps the scheduler safe.
use ek_utils.Base.{
  ℕ, ◌-◌, ◌≡◌, refl, sym, ap, ◌∙◌, arith, inl, inr, Bool-cases, true, false, List, [], ◌∷◌, ◌++◌,
  ◌==◌, length, Bytes,
}
use ek_utils.Fifo
use ek_utils.Spsc.{Spsc, write_item}
use ek_utils.Spsc.Bounds.{write_item-IsValid}
use ek_utils.Spsc.Refine.{contents, write_item_refines}
use ek_utils.Evoke.State.{Evoke}
use ek_utils.Evoke.Timer.{delay_timer_callback}
use ek_utils.Evoke.Isr.{IsrReq, Fits, Layout, post}
use ek_utils.Evoke.Drain.{IsLayout}
use ek_utils.Evoke.Posted.{map-snoc, AllFit-snoc}
use ek_utils.Evoke.Safe.{IsSafe}
use ek_utils.Evoke.Sound.{IsRing, set_fifo-IsSafe}
use ek_utils.Evoke.Fired.{SameLists, same-KeepsSound}

write_item-size : (item : Bytes) (rb : Spsc) → ((write_item rb item).1).item_size ≡ rb.item_size
unfolding write_item
write_item-size item rb = ground arith

push-full :
    (cap : ℕ) (q : List Bytes) (x : Bytes) → (length q == cap) ≡ true → (Fifo.push cap q x).1 ≡ q
unfolding Fifo.push
push-full cap q x e = rw e refl

push-room :
    (cap : ℕ) (q : List Bytes) (x : Bytes)
    → (length q == cap) ≡ false
    → (Fifo.push cap q x).1 ≡ q ++ (x ∷ [])
unfolding Fifo.push
push-room cap q x e = rw e refl

-- A request is in the ring behind the others, or the ring was full.
write_req-IsRing :
    (layout : Layout) (r : IsrReq) (rb : Spsc)
    → IsLayout layout
    → Fits r
    → IsRing layout rb
    → IsRing layout (write_item rb (layout.encode r)).1
write_req-IsRing layout r rb l fits ring =
    let item = layout.encode r in
    let p = write_item_refines item ring.valid (l.0 r ∙ sym ring.sized) in
    let size = write_item-size item rb ∙ ring.sized in
    elim (Bool-cases (length (contents rb) == (rb.cap - 1))) [
      | inl e ↦ record {
        valid = write_item-IsValid item ring.valid;
        sized = size;
        reqs = ring.reqs;
        fit = ring.fit;
        holds = ap (λ q. q.1) p ∙ push-full (rb.cap - 1) (contents rb) item e ∙ ring.holds;
      }
      | inr e ↦ record {
        valid = write_item-IsValid item ring.valid;
        sized = size;
        reqs = ring.reqs ++ (r ∷ []);
        fit = AllFit-snoc ring.reqs r ring.fit fits;
        holds =
            ap (λ q. q.1) p
            ∙ push-room (rb.cap - 1) (contents rb) item e
            ∙ ap (λ q. q ++ (item ∷ [])) ring.holds
            ∙ sym (map-snoc layout.encode ring.reqs r);
      }
    ]

-- An interrupt that posts a request keeps the scheduler safe, where the request fits, whether the ring takes it or not.
pub post-IsSafe :
    (layout : Layout) (r : IsrReq) (k : Evoke)
    → IsLayout layout
    → Fits r
    → IsSafe k
    → IsRing layout k.fifo
    → IsSafe (post layout r k).1 × IsRing layout ((post layout r k).1).fifo
unfolding post
post-IsSafe layout r k l fits safe ring = (
  set_fifo-IsSafe (write_item k.fifo (layout.encode r)).1 k safe,
  write_req-IsRing layout r k.fifo l fits ring,
)

-- So does the interrupt of the timer.
pub delay_timer_callback-IsSafe :
    (layout : Layout) (k : Evoke)
    → IsSafe k
    → IsRing layout k.fifo
    → IsSafe (delay_timer_callback k) × IsRing layout (delay_timer_callback k).fifo
unfolding delay_timer_callback
delay_timer_callback-IsSafe layout k safe ring = same-KeepsSound layout times safe ring
  where
    times : SameLists k (delay_timer_callback k)
    times = record {
      core = record { tasks_same = refl; events_same = refl; ready_same = refl };
      request_same = refl;
      free_same = refl;
      defer_same = refl;
      fifo_same = refl;
    }

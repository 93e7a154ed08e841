-- ===== src/Evoke/Posted.antt =====
-- src/ek_evoke.c: a request that an interrupt posts is handled by the loop.
use ek_utils.Base.{
  ℕ, suc, ◌+◌, ◌-◌, ◌<◌, ◌≡◌, refl, sym, ap, ◌∙◌, arith, false, List, [], ◌∷◌, ◌++◌, ◌==◌,
  if◌then◌else◌, length, map, Bytes,
}
use ek_utils.Err.{ok, full}
use ek_utils.Fifo
use ek_utils.Spsc.{Spsc, write_item}
use ek_utils.Spsc.Bounds.{IsValid, write_item-IsValid}
use ek_utils.Spsc.Refine.{contents, write_item_refines}
use ek_utils.Evoke.State.{Evoke}
use ek_utils.Evoke.Isr.{IsrReq, Fits, AllFit, Layout, post, drain}
use ek_utils.Evoke.Apart.{set_fifo, with_fifo}
use ek_utils.Evoke.Drain.{
  IsLayout, drained, handle_all, handle_all-fifo, with_fifo-twice, drain_lem,
}

pub map-snoc :
    (f : IsrReq → Bytes) (l : List IsrReq) (r : IsrReq)
    → map f (l ++ (r ∷ [])) ≡ map f l ++ (f r ∷ [])
map-snoc f [] r = refl
map-snoc f (x ∷ l) r = ap (◌∷◌ (f x)) (map-snoc f l r)

length-snoc : (l : List IsrReq) (r : IsrReq) → length (l ++ (r ∷ [])) ≡ suc (length l)
length-snoc [] r = refl
length-snoc (x ∷ l) r = ap suc (length-snoc l r)

pub AllFit-snoc : (l : List IsrReq) (r : IsrReq) → AllFit l → Fits r → AllFit (l ++ (r ∷ []))
AllFit-snoc [] r fit fits = (fits, tt)
AllFit-snoc (x ∷ l) r (first, fit) fits = (first, AllFit-snoc l r fit fits)

length-map : (f : IsrReq → Bytes) (l : List IsrReq) → length (map f l) ≡ length l
length-map f [] = refl
length-map f (x ∷ l) = ap suc (length-map f l)

-- The ring behind a request that finds room.
post_write :
    (layout : Layout) (reqs : List IsrReq) (r : IsrReq) {rb : Spsc}
    → IsLayout layout
    → IsValid rb
    → rb.item_size ≡ layout.size
    → contents rb ≡ map layout.encode reqs
    → length reqs + 1 < rb.cap
    → ((write_item rb (layout.encode r)).0 ≡ ok)
      × (contents (write_item rb (layout.encode r)).1 ≡ map layout.encode (reqs ++ (r ∷ [])))
unfolding Fifo.push
post_write layout reqs r {rb} l v size c room =
    let p = write_item_refines (layout.encode r) v (l.0 r ∙ sym size) in
    let free : (length (contents rb) == (rb.cap - 1)) ≡ false =
      ap (λ q. length q == (rb.cap - 1)) c ∙ ground (arith, length-map layout.encode reqs, room) in
    let q : (if length (contents rb) == (rb.cap - 1)
          then (full, contents rb)
          else (ok, contents rb ++ (layout.encode r ∷ [])))
        ≡ (ok, contents rb ++ (layout.encode r ∷ [])) =
      rw free refl in
    (
      ap (λ z. z.0) (p ∙ q),
      ap (λ z. z.1) (p ∙ q)
          ∙ ap (λ z. z ++ (layout.encode r ∷ [])) c
          ∙ sym (map-snoc layout.encode reqs r),
    )

-- Let the layout read back every request that fits its fields, and let the ring hold the requests
-- `reqs`, which fit, each in the form that the layout gives it, and have a free slot beside the one
-- that stays empty. Then a request that fits and that an interrupt posts is taken, and the loop
-- over the ring, with fuel for all, does what the requests ask for from the oldest to the new one,
-- ends in the state that this gives, but for the ring, or leaves the contract where this does, and
-- leaves the ring empty.
pub post-drain :
    (layout : Layout) (blank : Bytes) (reqs : List IsrReq) (r : IsrReq) (fuel : ℕ) (k : Evoke)
    → IsLayout layout
    → length blank ≡ layout.size
    → IsValid k.fifo
    → (k.fifo).item_size ≡ layout.size
    → contents k.fifo ≡ map layout.encode reqs
    → AllFit reqs
    → Fits r
    → length reqs + 1 < (k.fifo).cap
    → length reqs + 1 < fuel
    → (rb : Spsc) × ((post layout r k).0 ≡ ok)
      × (drain layout fuel blank (post layout r k).1
          ≡ with_fifo rb (handle_all layout (reqs ++ (r ∷ [])) k))
      × (contents rb ≡ [])
unfolding post
post-drain layout blank reqs r fuel k l b v size c fit fits room h =
    let all = reqs ++ (r ∷ []) in
    let (taken, c1) = post_write layout reqs r l v size c room in
    let rb = (write_item k.fifo (layout.encode r)).1 in
    let (runs, _, left) =
      drain_lem layout blank all fuel (set_fifo rb k) l b (write_item-IsValid (layout.encode r) v)
        c1 (AllFit-snoc reqs r fit fits) (omega (arith, h, length-snoc reqs r)) in
    (
      drained blank (length all) rb,
      taken,
      runs
          ∙ ap (with_fifo _) (handle_all-fifo layout rb all k)
          ∙ with_fifo-twice _ rb (handle_all layout all k),
      left,
    )

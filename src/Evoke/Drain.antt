-- ===== src/Evoke/Drain.antt =====
-- src/ek_evoke.c: the loop over the requests of interrupts does what they ask for, in their order.
use ek_utils.Base.{
  ℕ, zero, suc, ◌<◌, ◌≡◌, refl, sym, ap, ◌∙◌, arith, inl, inr, Option-cases, false, Option, none,
  some, List, [], ◌∷◌, ◌==◌, length, map, Bytes, copy_out, blit, ◌>>=◌,
}
use ek_utils.Err.{ok}
use ek_utils.Fifo
use ek_utils.Spsc
use ek_utils.Spsc.{Spsc, read_item}
use ek_utils.Spsc.Bounds.{IsValid, read_item-IsValid, empty_iff, amount}
use ek_utils.Spsc.Refine.{contents, length-contents, read_item_refines}
use ek_utils.Evoke.State.{Evoke}
use ek_utils.Evoke.Isr.{IsrReq, Fits, AllFit, Layout, handle, drain_one, drain}
use ek_utils.Evoke.Apart.{set_fifo, with_fifo, handle-fifo}

-- The requests one after the other.
unfoldable pub handle_all : Layout → List IsrReq → Evoke → Option Evoke
handle_all layout [] k = some k
handle_all layout (req ∷ reqs) k = handle layout req k >>= handle_all layout reqs

-- The ring after `n` reads.
unfoldable pub drained : Bytes → ℕ → Spsc → Spsc
drained blank zero rb = rb
drained blank (suc n) rb = drained blank n (read_item rb (some blank)).2

with_fifo-bind :
    (rb : Spsc) (f : Evoke → Option Evoke)
    → ((k : Evoke) → f (set_fifo rb k) ≡ with_fifo rb (f k))
    → (r : Option Evoke) → (with_fifo rb r >>= f) ≡ with_fifo rb (r >>= f)
with_fifo-bind rb f h none = refl
with_fifo-bind rb f h (some k) = h k

pub handle_all-fifo :
    (layout : Layout) (rb : Spsc) (reqs : List IsrReq) (k : Evoke)
    → handle_all layout reqs (set_fifo rb k) ≡ with_fifo rb (handle_all layout reqs k)
unfolding handle_all
handle_all-fifo layout rb [] k = refl
handle_all-fifo layout rb (req ∷ reqs) k =
    ap (λ r. r >>= handle_all layout reqs) (handle-fifo layout rb req k)
    ∙ with_fifo-bind rb (handle_all layout reqs) (handle_all-fifo layout rb reqs)
        (handle layout req k)

-- A copy over a block of the same length replaces it.
blit-whole : (xs ys : Bytes) → length xs ≡ length ys → blit xs 0 ys ≡ ys
unfolding blit
blit-whole [] [] e = refl
blit-whole [] (y ∷ ys) e = absurd (omega arith)
blit-whole (x ∷ xs) [] e = absurd (omega arith)
blit-whole (x ∷ xs) (y ∷ ys) e = ap (◌∷◌ y) (blit-whole xs ys (omega arith))

-- A layout that reads back a request that fits its fields, with requests of the size that `sizeof`
-- gives.
abbrev pub IsLayout : Layout → Type 0
IsLayout layout =
    ((r : IsrReq) → length (layout.encode r) ≡ layout.size)
    × ((r : IsrReq) → Fits r → layout.decode (layout.encode r) ≡ r)

-- The read of a request that is in the ring.
read_req :
    (layout : Layout) (blank : Bytes) (r : IsrReq) (rest : List IsrReq) {rb : Spsc}
    → IsLayout layout
    → length blank ≡ layout.size
    → IsValid rb
    → contents rb ≡ map layout.encode (r ∷ rest)
    → ((read_item rb (some blank)).0 ≡ ok)
      × ((read_item rb (some blank)).1 ≡ some (layout.encode r))
      × (contents (read_item rb (some blank)).2 ≡ map layout.encode rest)
unfolding Fifo.pop copy_out
read_req layout blank r rest {rb} l b v c =
    let p = read_item_refines (some blank) v ∙ ap (λ q. Fifo.pop q (some blank)) c in
    (
      ap (λ q. q.0) p,
      ap (λ q. q.1) p ∙ ap some (blit-whole blank (layout.encode r) (b ∙ sym (l.0 r))),
      ap (λ q. q.2) p,
    )

drain_one_lem :
    (layout : Layout) (blank : Bytes) (r : IsrReq) (rest : List IsrReq) (k : Evoke)
    → IsLayout layout
    → length blank ≡ layout.size
    → IsValid k.fifo
    → contents k.fifo ≡ map layout.encode (r ∷ rest)
    → Fits r
    → drain_one layout blank k ≡ with_fifo (read_item k.fifo (some blank)).2 (handle layout r k)
unfolding drain_one
drain_one_lem layout blank r rest k l b v c fits =
    let (e, out, _) = read_req layout blank r rest l b v c in
    rw (e, out, l.1 r fits) (handle-fifo layout _ r k)

-- The ring that holds no request ends the loop.
drain-stop :
    (layout : Layout) (fuel : ℕ) (blank : Bytes) (k : Evoke)
    → IsValid k.fifo
    → contents k.fifo ≡ []
    → drain layout (suc fuel) blank k ≡ some k
unfolding drain Spsc.is_empty
drain-stop layout fuel blank k v c =
    let none_left : amount k.fifo ≡ 0 = sym (length-contents k.fifo) ∙ ap length c in
    rw (empty_iff v, none_left) refl

drain-step :
    (layout : Layout) (fuel : ℕ) (blank : Bytes) (k : Evoke)
    → IsValid k.fifo
    → 0 < length (contents k.fifo)
    → drain layout (suc fuel) blank k ≡ (drain_one layout blank k >>= drain layout fuel blank)
unfolding drain Spsc.is_empty
drain-step layout fuel blank k v c =
    let left : (amount k.fifo == 0) ≡ false = ground (arith, length-contents k.fifo) in
    rw (empty_iff v, left) refl

pub with_fifo-twice :
    (rb rb' : Spsc) (r : Option Evoke) → with_fifo rb (with_fifo rb' r) ≡ with_fifo rb r
with_fifo-twice rb rb' none = refl
with_fifo-twice rb rb' (some k) = refl

-- Let the ring hold the requests `reqs`, each within the widths of its fields and in the form that
-- the layout gives it, and let there be more fuel than requests. Then the loop over the ring does what the requests ask for, one after the
-- other from the oldest, ends in the state that this gives, or leaves the contract where this does,
-- and leaves the ring behind as many reads, valid and empty.
pub drain_lem :
    (layout : Layout) (blank : Bytes) (reqs : List IsrReq) (fuel : ℕ) (k : Evoke)
    → IsLayout layout
    → length blank ≡ layout.size
    → IsValid k.fifo
    → contents k.fifo ≡ map layout.encode reqs
    → AllFit reqs
    → length reqs < fuel
    → let rb = drained blank (length reqs) k.fifo in
      (drain layout fuel blank k ≡ with_fifo rb (handle_all layout reqs k))
      × IsValid rb
      × (contents rb ≡ [])
unfolding drained handle_all
drain_lem layout blank reqs zero k l b v c fit h = absurd (omega (arith, h))
drain_lem layout blank [] (suc fuel) k l b v c fit h = (drain-stop layout fuel blank k v c, v, c)
drain_lem layout blank (r ∷ reqs) (suc fuel) k l b v c (fits, fit) h =
    let (_, _, c1) = read_req layout blank r reqs l b v c in
    let rb = (read_item k.fifo (some blank)).2 in
    let v1 : IsValid rb = read_item-IsValid (some blank) v in
    let again = λ (k' : Evoke).
      drain_lem layout blank reqs fuel (set_fifo rb k') l b v1 c1 fit (omega (arith, h)) in
    (
      drain-step layout fuel blank k v (rw c (omega arith))
          ∙ ap (λ q. q >>= drain layout fuel blank)
              (drain_one_lem layout blank r reqs k l b v c fits)
          ∙ elim (Option-cases (handle layout r k)) [
            | inl e ↦ rw e refl
            | inr (k1, e) ↦ rw e (
                (again k1).0
                ∙ ap (with_fifo _) (handle_all-fifo layout rb reqs k1)
                ∙ with_fifo-twice _ rb (handle_all layout reqs k1))
          ],
      (again k).1,
      (again k).2,
    )

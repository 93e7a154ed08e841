-- ===== src/Spsc/Refine.antt =====
-- A valid SPSC ring behaves as the queue of at most `cap - 1` items that it holds.
use ek_utils.Base.{
  ℕ, suc, ◌+◌, ◌-◌, ◌%◌, ◌<◌, ◌≡◌, ◌≢◌, refl, sym, ap, ◌∙◌, arith, inl, inr, Bool-cases, Option,
  none, some, List, [], ◌∷◌, ◌==◌, length, Bytes, add32, word,
}
use mathlib.Core.Path.{subst}
use ek_utils.Err.{ok}
use ek_utils.Fifo
use ek_utils.Fifo.{Fifo, Op, put, get, look, Reply, Fits}
use ek_utils.Slots.{slots, length-slots, slots-take, slots-put}
use ek_utils.Spsc.{Spsc, next_idx, write_item, read_item, write, read, peek}
use ek_utils.Spsc.Bounds.{
  IsValid, amount, amount_cases, next_cases, write_ahead, amount-lt-cap, empty_iff, full_iff,
  write_item-IsValid, read_item-IsValid,
}

-- The items in the ring, oldest first.
abbrev pub contents : Spsc → Fifo
contents rb = slots rb.item_size rb.cap rb.bytes rb.read_idx (amount rb)

pub length-contents : (rb : Spsc) → length (contents rb) ≡ amount rb
length-contents rb = length-slots rb.item_size rb.cap rb.bytes rb.read_idx (amount rb)

-- One more item between the indices when `write_idx` moves on,
pub amount_put :
    (cap w r : ℕ)
    → w < cap
    → r < cap
    → cap < word
    → add32 w 1 % cap ≢ r
    → (add32 w 1 % cap + cap - r) % cap ≡ suc ((w + cap - r) % cap)
amount_put cap w r hw hr hc ne = ground (
  arith,
  amount_cases cap w r hw hr,
  next_cases cap w hw hc,
  amount_cases cap (add32 w 1 % cap) r (omega arith) hr,
)

-- one fewer when `read_idx` does.
pub amount_get :
    (cap w r : ℕ)
    → w < cap
    → r < cap
    → cap < word
    → r ≢ w
    → (w + cap - add32 r 1 % cap) % cap ≡ (w + cap - r) % cap - 1
amount_get cap w r hw hr hc ne = ground (
  arith,
  amount_cases cap w r hw hr,
  next_cases cap r hr hc,
  amount_cases cap w (add32 r 1 % cap) hw (omega arith),
)

-- `ek_ringbuf_write_spsc` of an item of the ring's size does what `Fifo.push` does to the contents,
-- for a queue of one item less than the ring has slots.
pub write_item_refines :
    {rb : Spsc} (item : Bytes)
    → IsValid rb
    → length item ≡ rb.item_size
    → let (e, rb') = write_item rb item in
      (e, contents rb') ≡ Fifo.push (rb.cap - 1) (contents rb) item
unfolding write_item Fifo.push next_idx
write_item_refines {rb} item v size = elim (Bool-cases (amount rb == (rb.cap - 1))) [
  | inl e ↦ rw (full_iff v, e) (rw (length-contents rb, e) refl)
  | inr e ↦
      let room : next_idx rb rb.write_idx ≢ rb.read_idx = ground (arith, full_iff v) in
      rw (full_iff v, e)
        (rw
          (
            length-contents rb,
            e,
            amount_put cap write_idx read_idx v.write_in v.read_in v.small room,
          )
          (ap (λ q. (ok, q))
            (slots-put item_size cap bytes item (amount rb) read_idx write_idx v.storage v.fits
              v.items size v.read_in (amount-lt-cap v) (write_ahead v))))
]
  where
    open rb use {cap, bytes, item_size, write_idx, read_idx}

-- `ek_ringbuf_read_spsc` does what `Fifo.pop` does to the contents, and copies the item into a
-- buffer that is not `NULL`.
pub read_item_refines :
    {rb : Spsc} (out : Option Bytes)
    → IsValid rb
    → let (e, out', rb') = read_item rb out in (e, out', contents rb') ≡ Fifo.pop (contents rb) out
unfolding read_item Fifo.pop next_idx
read_item_refines {rb} out v = elim (Bool-cases (amount rb == 0)) [
  | inl e ↦ let none_left : amount rb ≡ 0 = ground arith in rw (empty_iff v, e) (rw none_left refl)
  | inr e ↦
      let some_left : amount rb ≢ 0 = ground arith in
      let apart : rb.read_idx ≢ rb.write_idx = ground (arith, empty_iff v) in
      rw (empty_iff v, e)
        (rw
          (
            slots-take rb.item_size rb.cap rb.bytes (amount rb) rb.read_idx v.fits v.small v.items
                v.read_in some_left,
            amount_get rb.cap rb.write_idx rb.read_idx v.write_in v.read_in v.small apart,
          )
          refl)
]

-- `ek_ringbuf_peek_spsc` does what `Fifo.peek` does.
pub peek_refines :
    {rb : Spsc} (out : Bytes)
    → IsValid rb
    → peek (some rb) (some out) ≡ Fifo.peek (contents rb) (some out)
unfolding peek Fifo.peek
peek_refines {rb} out v = elim (Bool-cases (amount rb == 0)) [
  | inl e ↦ let none_left : amount rb ≡ 0 = ground arith in rw (empty_iff v, e) (rw none_left refl)
  | inr e ↦
      let some_left : amount rb ≢ 0 = ground arith in
      rw (empty_iff v, e)
        (rw
          (slots-take rb.item_size rb.cap rb.bytes (amount rb) rb.read_idx v.fits v.small v.items
            v.read_in some_left)
          refl)
]

-- The calls of a client in order, with what each returns.
unfoldable pub run : Option Spsc → List Op → List Reply
run rb [] = []
run rb (put x ∷ l) = let (e, rb') = write rb (some x) in (e, none) ∷ run rb' l
run rb (get out ∷ l) = let (e, out', rb') = read rb out in (e, out') ∷ run rb' l
run rb (look out ∷ l) = peek rb (some out) ∷ run rb l

shape :
    (rb : Spsc) (x : Bytes) (out : Option Bytes)
    → ((write_item rb x).1.cap ≡ rb.cap)
      × ((write_item rb x).1.item_size ≡ rb.item_size)
      × ((read_item rb out).2.cap ≡ rb.cap)
      × ((read_item rb out).2.item_size ≡ rb.item_size)
unfolding write_item read_item
shape rb x out = ground arith

-- On a valid ring any sequence of `ek_ringbuf_write_spsc`, `ek_ringbuf_read_spsc` and
-- `ek_ringbuf_peek_spsc` that writes items of the ring's size returns the codes and fills the
-- buffers as the queue of at most `cap - 1` items does that starts with the ring's contents.
pub spsc_refines_fifo :
    (cap size : ℕ) (l : List Op) {rb : Spsc}
    → IsValid rb
    → rb.cap ≡ cap
    → rb.item_size ≡ size
    → Fits size l
    → run (some rb) l ≡ Fifo.run (cap - 1) (contents rb) l
unfolding run write read Fifo.run
spsc_refines_fifo cap size [] v c s fit = refl
spsc_refines_fifo cap size (put x ∷ l) {rb} v c s fit =
    let (c', s', _, _) = shape rb x none in
    rw (spsc_refines_fifo cap size l (write_item-IsValid x v) (c' ∙ c) (s' ∙ s) fit.1) (
      ap (λ p. (p.0, none) ∷ Fifo.run (cap - 1) p.1 l)
        (subst
          (λ k.
            ((write_item rb x).0, contents (write_item rb x).1) ≡ Fifo.push (k - 1) (contents rb) x)
          c (write_item_refines x v (fit.0 ∙ sym s))))
spsc_refines_fifo cap size (get out ∷ l) {rb} v c s fit =
    let (_, _, c', s') = shape rb [] out in
    rw (spsc_refines_fifo cap size l (read_item-IsValid out v) (c' ∙ c) (s' ∙ s) fit)
      (ap (λ p. (p.0, p.1) ∷ Fifo.run (cap - 1) p.2 l) (read_item_refines out v))
spsc_refines_fifo cap size (look out ∷ l) {rb} v c s fit =
    rw (spsc_refines_fifo cap size l v c s fit)
      (ap (λ p. p ∷ Fifo.run (cap - 1) (contents rb) l) (peek_refines out v))

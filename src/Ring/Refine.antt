-- ===== src/Ring/Refine.antt =====
-- A valid ring whose lock is free behaves as the bounded queue of the items that it holds.
use ek_utils.Base.{
  suc, ◌-◌, ◌≡◌, ◌≢◌, refl, ap, arith, true, false, inl, inr, Bool-cases, Option, some, ◌==◌,
  length, Bytes, add32, sub32,
}
use ek_utils.Err.{ok, busy}
use ek_utils.Lock.{LockOps, IsLock}
use ek_utils.Fifo
use ek_utils.Fifo.{Fifo, Op, put, get, look, Reply}
use ek_utils.Slots.{slots, length-slots, slots-take, slots-put}
use ek_utils.Ring.{Ring, write_item, read_item, peek_item, write, read, peek, is_full, is_empty}
use ek_utils.Ring.Bounds.{IsValid}

module _ {Lock : Type 0} where
  -- The items in the ring, oldest first.
  abbrev pub contents : Ring Lock → Fifo
  contents rb = slots rb.item_size rb.cap rb.bytes rb.read_idx rb.item_amount

  pub length-contents : (rb : Ring Lock) → length (contents rb) ≡ rb.item_amount
  length-contents rb = length-slots rb.item_size rb.cap rb.bytes rb.read_idx rb.item_amount

module _ {Lock : Type 0} (ops : LockOps Lock) where
  -- The lock can be taken.
  abbrev pub Free : Ring Lock → Type 0
  Free rb = (ops.try rb.lock).0 ≡ true

  -- With its lock free, `ek_ringbuf_write` of an item of the ring's size does what `Fifo.push` does
  -- to the contents, and frees the lock.
  pub write_item_refines :
      {rb : Ring Lock} (item : Bytes)
      → IsLock ops
      → IsValid rb
      → Free rb
      → length item ≡ rb.item_size
      → let (e, rb') = write_item ops rb item in
        ((e, contents rb') ≡ Fifo.push rb.cap (contents rb) item) × Free rb'
  unfolding write_item is_full Fifo.push
  write_item_refines {rb} item m v free size = elim (Bool-cases (rb.item_amount == rb.cap)) [
    | inl e ↦ rw (free, e) (rw (length-contents rb, e) refl, m.release_frees _)
    | inr e ↦
        let one : add32 rb.item_amount 1 ≡ suc rb.item_amount =
          omega (arith, v.amount_in, v.small, ne e) in
        rw (free, e)
          (
            rw (length-contents rb, e, one)
                (ap (λ q. (ok, q))
                  (slots-put rb.item_size rb.cap rb.bytes item rb.item_amount rb.read_idx
                    rb.write_idx v.storage v.fits v.items size v.read_in
                    (omega (arith, v.amount_in, ne e)) v.write_at)),
            m.release_frees _,
          )
  ]
    where
      ne : (rb.item_amount == rb.cap) ≡ false → rb.item_amount ≢ rb.cap
      ne e = ground arith

  -- With its lock free, `ek_ringbuf_read` does what `Fifo.pop` does to the contents, copies the item
  -- into a buffer that is not `NULL`, and frees the lock.
  pub read_item_refines :
      {rb : Ring Lock} (out : Option Bytes)
      → IsLock ops
      → IsValid rb
      → Free rb
      → let (e, out', rb') = read_item ops rb out in
        ((e, out', contents rb') ≡ Fifo.pop (contents rb) out) × Free rb'
  unfolding read_item is_empty Fifo.pop
  read_item_refines {rb} out m v free = elim (Bool-cases (rb.item_amount == 0)) [
    | inl e ↦
        let none_left : rb.item_amount ≡ 0 = ground arith in
        rw (free, e) (rw none_left refl, m.release_frees _)
    | inr e ↦
        let less : sub32 rb.item_amount 1 ≡ rb.item_amount - 1 =
          omega (arith, v.amount_in, v.small, ne e) in
        rw (free, e)
          (
            rw
                (
                  slots-take rb.item_size rb.cap rb.bytes rb.item_amount rb.read_idx v.fits v.small
                      v.items v.read_in (ne e),
                  less,
                )
                refl,
            m.release_frees _,
          )
  ]
    where
      ne : (rb.item_amount == 0) ≡ false → rb.item_amount ≢ 0
      ne e = ground arith

  -- With its lock free, `ek_ringbuf_peek` does what `Fifo.peek` does, leaves the contents alone and
  -- frees the lock.
  pub peek_item_refines :
      {rb : Ring Lock} (out : Bytes)
      → IsLock ops
      → IsValid rb
      → Free rb
      → let (e, out', rb') = peek_item ops rb out in
        ((e, out') ≡ Fifo.peek (contents rb) (some out)) × (contents rb' ≡ contents rb) × Free rb'
  unfolding peek_item is_empty Fifo.peek
  peek_item_refines {rb} out m v free = elim (Bool-cases (rb.item_amount == 0)) [
    | inl e ↦
        let none_left : rb.item_amount ≡ 0 = ground arith in
        rw (free, e) (rw none_left refl, refl, m.release_frees _)
    | inr e ↦
        let some_left : rb.item_amount ≢ 0 = ground arith in
        rw (free, e)
          (
            rw
                (slots-take rb.item_size rb.cap rb.bytes rb.item_amount rb.read_idx v.fits v.small
                  v.items v.read_in some_left)
                refl,
            refl,
            m.release_frees _,
          )
  ]

  -- While another task holds the lock, every operation says so and changes nothing.
  pub ring_busy_changes_nothing :
      (rb : Ring Lock) (item : Bytes) (out : Option Bytes)
      → IsLock ops
      → (ops.try rb.lock).0 ≡ false
      → (write ops (some rb) (some item) ≡ (busy, some rb))
        × (read ops (some rb) out ≡ (busy, out, some rb))
        × (peek ops (some rb) (some item) ≡ (busy, some item, some rb))
  unfolding write read peek write_item read_item peek_item
  ring_busy_changes_nothing rb item out m held =
      rw (held, m.refused_same rb.lock held) (refl, refl, refl)

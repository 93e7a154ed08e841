-- ===== src/Ring/Trace.antt =====
-- Any sequence of calls on a valid ring answers as the bounded queue of its contents does.
use ek_utils.Base.{
  ℕ, ◌≡◌, refl, sym, ap, ◌∙◌, inl, inr, Bool-cases, Option, none, some, List, [], ◌∷◌, ◌==◌, Bytes,
}
use mathlib.Core.Path.{subst}
use ek_utils.Lock.{LockOps, IsLock}
use ek_utils.Fifo
use ek_utils.Fifo.{Op, put, get, look, Reply, Fits}
use ek_utils.Ring.{Ring, write, read, peek, write_item, read_item, peek_item, is_full, is_empty}
use ek_utils.Ring.Bounds.{IsValid, write_item-IsValid, read_item-IsValid, peek_item-IsValid}
use ek_utils.Ring.Refine.{contents, Free, write_item_refines, read_item_refines, peek_item_refines}

module _ {Lock : Type 0} (ops : LockOps Lock) where
  -- The calls of a client in order, with what each returns.
  unfoldable pub run : Option (Ring Lock) → List Op → List Reply
  run rb [] = []
  run rb (put x ∷ l) = let (e, rb') = write ops rb (some x) in (e, none) ∷ run rb' l
  run rb (get out ∷ l) = let (e, out', rb') = read ops rb out in (e, out') ∷ run rb' l
  run rb (look out ∷ l) = let (e, out', rb') = peek ops rb (some out) in (e, out') ∷ run rb' l

  -- Between calls: the ring is valid, its lock is free, and its sizes are those of the start.
  pub record Idle (cap size : ℕ) (rb : Ring Lock) : Type 0 where
    pub valid : IsValid rb
    pub free : Free ops rb
    pub cap_same : rb.cap ≡ cap
    pub size_same : rb.item_size ≡ size

  shape :
      (rb : Ring Lock) (x : Bytes) (out : Option Bytes)
      → ((write_item ops rb x).1.cap ≡ rb.cap)
        × ((write_item ops rb x).1.item_size ≡ rb.item_size)
        × ((read_item ops rb out).2.cap ≡ rb.cap)
        × ((read_item ops rb out).2.item_size ≡ rb.item_size)
        × ((peek_item ops rb x).2.cap ≡ rb.cap)
        × ((peek_item ops rb x).2.item_size ≡ rb.item_size)
  unfolding write_item read_item peek_item is_full is_empty
  shape rb x out = elim (Bool-cases (ops.try rb.lock).0) [
    | inr e ↦ rw e (refl, refl, refl, refl, refl, refl)
    | inl e ↦ elim (Bool-cases (rb.item_amount == rb.cap)) [
      | inl f ↦ elim (Bool-cases (rb.item_amount == 0)) [
        | inl z ↦ rw (e, f, z) (refl, refl, refl, refl, refl, refl)
        | inr z ↦ rw (e, f, z) (refl, refl, refl, refl, refl, refl)
      ]
      | inr f ↦ elim (Bool-cases (rb.item_amount == 0)) [
        | inl z ↦ rw (e, f, z) (refl, refl, refl, refl, refl, refl)
        | inr z ↦ rw (e, f, z) (refl, refl, refl, refl, refl, refl)
      ]
    ]
  ]

  -- On a valid ring whose lock is free, any sequence of `ek_ringbuf_write`, `ek_ringbuf_read` and
  -- `ek_ringbuf_peek` that writes items of the ring's size returns the codes and fills the buffers
  -- as the queue of at most `cap` items does that starts with the ring's contents.
  pub ring_refines_fifo :
      (cap size : ℕ) (l : List Op) {rb : Ring Lock}
      → IsLock ops
      → Idle cap size rb
      → Fits size l
      → run (some rb) l ≡ Fifo.run cap (contents rb) l
  unfolding run write read peek Fifo.run
  ring_refines_fifo cap size [] m i fit = refl
  ring_refines_fifo cap size (put x ∷ l) {rb} m i fit =
      let (step, free) = write_item_refines ops x m i.valid i.free (fit.0 ∙ sym i.size_same) in
      let (c, s, _, _, _, _) = shape rb x none in
      let i' : Idle cap size (write_item ops rb x).1 = record {
        valid = write_item-IsValid ops x i.valid;
        free = free;
        cap_same = c ∙ i.cap_same;
        size_same = s ∙ i.size_same;
      } in
      rw (ring_refines_fifo cap size l m i' fit.1) (
        ap (λ p. (p.0, none) ∷ Fifo.run cap p.1 l)
          (subst
            (λ k.
              ((write_item ops rb x).0, contents (write_item ops rb x).1)
              ≡ Fifo.push k (contents rb) x)
            i.cap_same step))
  ring_refines_fifo cap size (get out ∷ l) {rb} m i fit =
      let (step, free) = read_item_refines ops out m i.valid i.free in
      let (_, _, c, s, _, _) = shape rb [] out in
      let i' : Idle cap size (read_item ops rb out).2 = record {
        valid = read_item-IsValid ops out i.valid;
        free = free;
        cap_same = c ∙ i.cap_same;
        size_same = s ∙ i.size_same;
      } in
      rw (ring_refines_fifo cap size l m i' fit) (ap (λ p. (p.0, p.1) ∷ Fifo.run cap p.2 l) step)
  ring_refines_fifo cap size (look out ∷ l) {rb} m i fit =
      let (step, same, free) = peek_item_refines ops out m i.valid i.free in
      let (_, _, _, _, c, s) = shape rb out none in
      let i' : Idle cap size (peek_item ops rb out).2 = record {
        valid = peek_item-IsValid ops out i.valid;
        free = free;
        cap_same = c ∙ i.cap_same;
        size_same = s ∙ i.size_same;
      } in
      rw (ring_refines_fifo cap size l m i' fit, same)
        (ap (λ p. p ∷ Fifo.run cap (contents rb) l) step)

-- ===== src/Stack/Refine.antt =====
-- A valid stack whose lock is free behaves as the bounded stack of the items that it holds.
use mathlib.Core.Path.{ap₂}
use ek_utils.Base.{
  ℕ, zero, suc, ◌*◌, ◌≤◌, ◌<◌, ◌≡◌, ◌≢◌, refl, sym, ap, ◌∙◌, arith, inl, inr, Bool-cases, some,
  true, false, List, [], ◌∷◌, ◌==◌, leb, length, take, take_all, Bytes, blit, slice,
  slice-blit_self, slice-blit_slot_ne, slot_end, word, add32, sub32, mul32,
}
use ek_utils.Err.{ok, busy}
use ek_utils.Lock.{LockOps, IsLock}
use ek_utils.Lifo
use ek_utils.Lifo.{Lifo, Op, put, pull, Reply, Fits}
use ek_utils.Stack.{Stack, push_item, pop_item, push, pop, is_full, is_empty}
use ek_utils.Stack.Bounds.{IsValid}

module _ (s : ℕ) where
  -- The items of the first `n` slots, the last one first.
  abbrev pub piled : Bytes → ℕ → List Bytes
  piled b zero = []
  piled b (suc n) = slice b (n * s) s ∷ piled b n

  pub length-piled : (b : Bytes) (n : ℕ) → length (piled b n) ≡ n
  length-piled b zero = refl
  length-piled b (suc n) = ap suc (length-piled b n)

  -- A copy into a slot above a pile leaves the pile alone.
  piled-blit :
      (b x : Bytes) (i n : ℕ) → n ≤ i → length x ≡ s → piled (blit b (i * s) x) n ≡ piled b n
  piled-blit b x i zero h e = refl
  piled-blit b x i (suc n) h e =
      ap₂ ◌∷◌ (slice-blit_slot_ne b i n s x (omega arith) e) (piled-blit b x i n (omega arith) e)

  piled-put :
      (b x : Bytes) (n cap : ℕ)
      → cap * s ≤ length b
      → cap * s < word
      → 0 < s
      → n < cap
      → length x ≡ s
      → piled (blit b (mul32 n s) (take s x)) (suc n) ≡ x ∷ piled b n
  piled-put b x n cap hb hf hs hn e =
      let at : mul32 n s ≡ n * s = omega (arith, slot_end n cap s hn) in
      ap (λ c. piled c (suc n)) (ap₂ (blit b) at (take_all s x e))
      ∙ ap₂ ◌∷◌ (slice-blit_self b (n * s) s x (sym e) (omega (arith, slot_end n cap s hn)))
          (piled-blit b x n n (omega arith) e)

  -- The code counts down, `piled` matches on `suc`.
  piled-take :
      (b : Bytes) (n cap : ℕ)
      → cap * s < word
      → cap < word
      → 0 < s
      → n ≤ cap
      → n ≢ 0
      → piled b n ≡ slice b (mul32 (sub32 n 1) s) s ∷ piled b (sub32 n 1)
  piled-take b zero cap hf hc hs hn ne = absurd (ne refl)
  piled-take b (suc n) cap hf hc hs hn ne =
      let down : sub32 (suc n) 1 ≡ n = omega arith in
      let at : mul32 n s ≡ n * s = omega (arith, slot_end n cap s hn) in rw (down, at) refl

module _ {Lock : Type 0} where
  -- The items on the stack, the one on top first.
  abbrev pub contents : Stack Lock → Lifo
  contents sk = piled sk.item_size sk.bytes sk.sp

module _ {Lock : Type 0} (ops : LockOps Lock) where
  -- The lock can be taken.
  abbrev pub Free : Stack Lock → Type 0
  Free sk = (ops.try sk.lock).0 ≡ true

  -- With its lock free, `ek_stack_push` of an item of the stack's size does what `Lifo.push` does to
  -- the contents, and frees the lock.
  pub push_item_refines :
      {sk : Stack Lock} (item : Bytes)
      → IsLock ops
      → IsValid sk
      → Free sk
      → length item ≡ sk.item_size
      → let (e, sk') = push_item ops sk item in
        ((e, contents sk') ≡ Lifo.push sk.cap (contents sk) item) × Free sk'
  unfolding push_item is_full Lifo.push
  push_item_refines {sk} item m v free size = elim (Bool-cases (leb sk.cap sk.sp)) [
    | inl e ↦
        let all : (sk.sp == sk.cap) ≡ true = ground (arith, v.sp_in) in
        rw (free, e) (rw (length-piled sk.item_size sk.bytes sk.sp, all) refl, m.release_frees _)
    | inr e ↦
        let room : sk.sp < sk.cap = ground arith in
        let some_left : (sk.sp == sk.cap) ≡ false = ground arith in
        let up : add32 sk.sp 1 ≡ suc sk.sp = omega (arith, v.small) in
        rw (free, e)
          (
            rw (length-piled sk.item_size sk.bytes sk.sp, some_left, up)
                (ap (λ q. (ok, q))
                  (piled-put sk.item_size sk.bytes item sk.sp sk.cap v.storage v.fits v.items room
                    size)),
            m.release_frees _,
          )
  ]

  -- With its lock free, `ek_stack_pop` does what `Lifo.pop` does to the contents, copies the item on
  -- top into the caller's buffer, and frees the lock.
  pub pop_item_refines :
      {sk : Stack Lock} (out : Bytes)
      → IsLock ops
      → IsValid sk
      → Free sk
      → let (e, out', sk') = pop_item ops sk out in
        ((e, out', contents sk') ≡ Lifo.pop (contents sk) out) × Free sk'
  unfolding pop_item is_empty Lifo.pop
  pop_item_refines {sk} out m v free = elim (Bool-cases (sk.sp == 0)) [
    | inl e ↦
        let none_left : sk.sp ≡ 0 = ground arith in
        rw (free, e) (rw none_left refl, m.release_frees _)
    | inr e ↦
        let some_left : sk.sp ≢ 0 = ground arith in
        rw (free, e)
          (
            rw
                (piled-take sk.item_size sk.bytes sk.sp sk.cap v.fits v.small v.items v.sp_in
                  some_left)
                refl,
            m.release_frees _,
          )
  ]

  -- While another task holds the lock, both operations say so and change nothing.
  pub stack_busy_changes_nothing :
      (sk : Stack Lock) (item : Bytes)
      → IsLock ops
      → (ops.try sk.lock).0 ≡ false
      → (push ops (some sk) (some item) ≡ (busy, some sk))
        × (pop ops (some sk) (some item) ≡ (busy, some item, some sk))
  unfolding push pop push_item pop_item
  stack_busy_changes_nothing sk item m held = rw (held, m.refused_same sk.lock held) (refl, refl)

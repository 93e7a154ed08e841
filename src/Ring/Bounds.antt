-- ===== src/Ring/Bounds.antt =====
-- The representation invariant of the general ring: no index leaves the storage, no sum wraps.
use ek_utils.Base.{
  ℕ, ◌+◌, ◌-◌, ◌*◌, ◌/◌, ◌%◌, ◌≤◌, ◌<◌, ◌≡◌, refl, arith, Option, some, length, Bytes, drop,
  Bool-cases, inl, inr, ◌==◌, length-blit, length-drop, max_word, sub32, ◌||◌, ltb, Option-cases,
  ◌∙◌, ◌≢◌, word, add32, mul32, slot_end, ap,
}
use native.Mathlib.Nat.{mod-add-mod}
use mathlib.Core.Path.{subst}
use mathlib.Core.Option.{some-injective}
use ek_utils.Slots.{request_fits}
use ek_utils.Lock.{LockOps}
use ek_utils.Ring.{Ring, fresh, create, write_item, read_item, peek_item, is_full, is_empty}

pub record IsValid {Lock : Type 0} (rb : Ring Lock) : Type 0 where
  pub storage : rb.cap * rb.item_size ≤ length rb.bytes
  pub fits : rb.cap * rb.item_size < word
  pub items : 0 < rb.item_size
  pub small : rb.cap < word
  pub read_in : rb.read_idx < rb.cap
  pub amount_in : rb.item_amount ≤ rb.cap
  pub write_at : rb.write_idx ≡ (rb.read_idx + rb.item_amount) % rb.cap

module _ {Lock : Type 0} where
  -- The slot of an index below `cap` lies inside the storage, and its offset does not wrap.
  pub offset_in :
      {rb : Ring Lock} (i : ℕ)
      → IsValid rb
      → i < rb.cap
      → (mul32 i rb.item_size ≡ i * rb.item_size)
        × (mul32 i rb.item_size + rb.item_size ≤ length rb.bytes)
  offset_in {rb} i v h = omega (arith, slot_end i rb.cap rb.item_size h, v.storage, v.fits, v.items)

  pub write_in : {rb : Ring Lock} → IsValid rb → rb.write_idx < rb.cap
  write_in v = omega (arith, v.write_at, v.read_in)

-- The write index stays `item_amount` slots ahead of the read index when an item comes in,
pub next_write :
    (cap r n w : ℕ)
    → r < cap
    → n < cap
    → cap < word
    → w ≡ (r + n) % cap
    → add32 w 1 % cap ≡ (r + add32 n 1) % cap
next_write cap r n w hr hn hc e =
    let a : add32 w 1 ≡ (r + n) % cap + 1 = omega arith in
    let b : add32 n 1 ≡ n + 1 = omega arith in
    rw (a, b, mod-add-mod) (ap (λ k. k % cap) (omega arith))

-- and when one goes out.
pub next_read :
    (cap r n w : ℕ)
    → r < cap
    → n ≤ cap
    → n ≢ 0
    → cap < word
    → w ≡ (r + n) % cap
    → w ≡ (add32 r 1 % cap + sub32 n 1) % cap
next_read cap r n w hr hn nz hc e =
    let a : add32 r 1 ≡ r + 1 = omega arith in
    let b : sub32 n 1 ≡ n - 1 = omega arith in
    rw (a, b, mod-add-mod) (e ∙ ap (λ k. k % cap) (omega arith))

module _ {Lock : Type 0} (ops : LockOps Lock) where
  -- `ek_ringbuf_write` keeps the invariant.
  pub write_item-IsValid :
      {rb : Ring Lock} (item : Bytes) → IsValid rb → IsValid (write_item ops rb item).1
  unfolding write_item is_full
  write_item-IsValid {rb} item v = elim (Bool-cases (ops.try rb.lock).0) [
    | inr e ↦ rw e (assumption)
    | inl e ↦ elim (Bool-cases (rb.item_amount == rb.cap)) [
      | inl e' ↦ rw (e, e') (assumption)
      | inr e' ↦
          rw (e, e')
            (record {
              storage = rw length-blit v.storage;
              fits = v.fits;
              items = v.items;
              small = v.small;
              read_in = v.read_in;
              amount_in = ground arith;
              write_at =
                  next_write rb.cap rb.read_idx rb.item_amount rb.write_idx v.read_in (ground arith)
                    v.small v.write_at;
            })
    ]
  ]

  -- `ek_ringbuf_read` keeps the invariant.
  pub read_item-IsValid :
      {rb : Ring Lock} (out : Option Bytes) → IsValid rb → IsValid (read_item ops rb out).2
  unfolding read_item is_empty
  read_item-IsValid {rb} out v = elim (Bool-cases (ops.try rb.lock).0) [
    | inr e ↦ rw e (assumption)
    | inl e ↦ elim (Bool-cases (rb.item_amount == 0)) [
      | inl e' ↦ rw (e, e') (assumption)
      | inr e' ↦
          rw (e, e')
            (record {
              storage = v.storage;
              fits = v.fits;
              items = v.items;
              small = v.small;
              read_in = omega (arith, v.read_in);
              amount_in = ground (arith);
              write_at =
                  next_read rb.cap rb.read_idx rb.item_amount rb.write_idx v.read_in v.amount_in
                    (ground arith) v.small v.write_at;
            })
    ]
  ]

  -- `ek_ringbuf_peek` keeps the invariant.
  pub peek_item-IsValid :
      {rb : Ring Lock} (out : Bytes) → IsValid rb → IsValid (peek_item ops rb out).2
  unfolding peek_item is_empty
  peek_item-IsValid {rb} out v = elim (Bool-cases (ops.try rb.lock).0) [
    | inr e ↦ rw e (assumption)
    | inl e ↦ elim (Bool-cases (rb.item_amount == 0)) [
      | inl e' ↦ rw (e, e') (assumption)
      | inr e' ↦ rw (e, e') (assumption)
    ]
  ]

  fresh-IsValid :
      (l : Lock) (b : Bytes) (s n : ℕ)
      → n * s ≤ length b
      → n * s < word
      → 0 < s
      → 0 < n
      → n < word
      → IsValid (fresh l b s n) × ((fresh l b s n).item_amount ≡ 0) × ((fresh l b s n).cap ≡ n)
  fresh-IsValid l b s n hb hf hs hn hw = (
    record {
      storage = hb;
      fits = hf;
      items = hs;
      small = hw;
      read_in = hn;
      amount_in = omega arith;
      write_at = omega arith;
    },
    refl,
    refl,
  )

  -- A ring that `ek_ringbuf_create` returns is valid and empty and has the capacity asked for, if
  -- `ek_malloc` returns blocks that are as long as was asked.
  pub ring_create-IsValid :
      (malloc : ℕ → Option Bytes) (header : ℕ) (raw : Lock) (item_size item_amount : ℕ)
      {rb : Ring Lock}
      → ((n : ℕ) (b : Bytes) → malloc n ≡ some b → n ≤ length b)
      → header < word
      → item_amount < word
      → create ops malloc header raw item_size item_amount ≡ some rb
      → IsValid rb × (rb.item_amount ≡ 0) × (rb.cap ≡ item_amount)
  unfolding create
  ring_create-IsValid malloc header raw s n {rb} long hh hn e =
      elim (Bool-cases (n == 0 || s == 0)) [
        | inl z ↦ cc (rw z at e)
        | inr nz ↦ elim (Bool-cases (ltb ((max_word - header) / s) n)) [
          | inl big ↦ cc (rw (nz, big) at e)
          | inr fit ↦ elim (Option-cases (malloc (add32 header (mul32 n s)))) [
            | inl m ↦ cc (rw (nz, fit, m) at e)
            | inr (b, m) ↦
                let r = request_fits header n s hh (ground arith) (ground arith) in
                let long' = long (add32 header (mul32 n s)) b m in
                subst (λ r. IsValid r × (r.item_amount ≡ 0) × (r.cap ≡ n))
                  (some-injective _ _ (rw (nz, fit, m) at e))
                  (fresh-IsValid (ops.init raw) (drop header b) s n
                    (omega (arith, length-drop header b, r.0)) r.1 (ground arith) (ground arith) hn)
          ]
        ]
      ]

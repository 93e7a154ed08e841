-- ===== src/Spsc/Bounds.antt =====
-- The representation invariant of the SPSC ring: both indices below `cap`, the slots inside the
-- storage, and no offset wraps.
use native.Mathlib.Nat.{mod-lt, mod-eq_of_lt, mod-eq-sub-mod}
use ek_utils.Base.{
  Bool-cases, Option-cases, ◌||◌, ◌/◌, leb, ltb, some, max_word, length-drop, refl, ℕ, ◌+◌, ◌-◌,
  ◌*◌, ◌%◌, ◌≤◌, ◌<◌, ◌≡◌, ◌⊎◌, arith, inl, inr, Option, ◌==◌, length, take, Bytes, length-blit,
  word, add32, mul32, dec_lt,
}
use mathlib.Core.Path.{subst}
use mathlib.Core.Option.{some-injective}
use ek_utils.Slots.{request_fits}
use ek_utils.Spsc.{create, Spsc, next_idx, write_item, read_item}

pub record IsValid (rb : Spsc) : Type 0 where
  pub storage : rb.cap * rb.item_size ≤ length rb.bytes
  pub fits : rb.cap * rb.item_size < word
  pub items : 0 < rb.item_size
  pub small : rb.cap < word
  pub two : 1 < rb.cap
  pub write_in : rb.write_idx < rb.cap
  pub read_in : rb.read_idx < rb.cap

-- How many items there are between the indices.
abbrev pub amount : Spsc → ℕ
amount rb = (rb.write_idx + rb.cap - rb.read_idx) % rb.cap

-- The step of an index, with no `%` left: up by one, or back to 0 at the end.
pub next_cases :
    (cap w : ℕ)
    → w < cap
    → cap < word
    → (w + 1 < cap) × (add32 w 1 % cap ≡ w + 1) ⊎ (w + 1 ≡ cap) × (add32 w 1 % cap ≡ 0)
next_cases cap w hw hc = elim (dec_lt (w + 1) cap) [
  | yes p ↦ inl (p, let a : add32 w 1 ≡ w + 1 = omega arith in rw a (mod-eq_of_lt p))
  | no p ↦ inr (omega arith, wrap (omega arith))
]
  where
    wrap : add32 w 1 ≡ cap → add32 w 1 % cap ≡ 0
    wrap e = omega (arith, mod-eq-sub-mod {n = add32 w 1} {m = cap} (omega arith))

-- The distance of the indices, with no `%` left.
pub amount_cases :
    (cap w r : ℕ)
    → w < cap
    → r < cap
    → (r ≤ w) × ((w + cap - r) % cap ≡ w - r) ⊎ (w < r) × ((w + cap - r) % cap ≡ w + cap - r)
amount_cases cap w r hw hr = elim (dec_lt w r) [
  | yes p ↦ inr (p, mod-eq_of_lt (omega arith))
  | no p ↦ inl (
    omega arith,
    omega (
      arith,
      mod-eq-sub-mod {n = w + cap - r} {m = cap} (omega arith),
      mod-eq_of_lt {n = w + cap - r - cap} {m = cap} (omega arith),
    ),
  )
]

-- A ring holds fewer items than it has slots,
pub amount-lt-cap : {rb : Spsc} → IsValid rb → amount rb < rb.cap
amount-lt-cap v = omega (arith, v.write_in)

-- `write_idx` stands `amount` slots ahead of `read_idx`,
pub write_ahead : {rb : Spsc} → IsValid rb → rb.write_idx ≡ (rb.read_idx + amount rb) % rb.cap
write_ahead {rb} v = ground (
  arith,
  amount_cases rb.cap rb.write_idx rb.read_idx v.write_in v.read_in,
  mod-eq_of_lt {n = rb.write_idx} {m = rb.cap} v.write_in,
  mod-eq-sub-mod {n = rb.write_idx + rb.cap} {m = rb.cap} (omega arith),
)

-- the code's test for an empty ring says that there is no item,
pub empty_iff : {rb : Spsc} → IsValid rb → (rb.read_idx == rb.write_idx) ≡ (amount rb == 0)
empty_iff {rb} v = ground (arith, amount_cases rb.cap rb.write_idx rb.read_idx v.write_in v.read_in)

-- and its test for a full one that all slots but one are taken.
pub full_iff :
    {rb : Spsc}
    → IsValid rb
    → (next_idx rb rb.write_idx == rb.read_idx) ≡ (amount rb == (rb.cap - 1))
unfolding next_idx
full_iff {rb} v = ground (
  arith,
  amount_cases rb.cap rb.write_idx rb.read_idx v.write_in v.read_in,
  next_cases rb.cap rb.write_idx v.write_in v.small,
)

-- `ek_ringbuf_write_spsc` keeps the invariant.
pub write_item-IsValid : {rb : Spsc} (item : Bytes) → IsValid rb → IsValid (write_item rb item).1
unfolding write_item next_idx
write_item-IsValid {rb} item v = ground (
  arith,
  length-blit rb.bytes (mul32 rb.write_idx rb.item_size) (take rb.item_size item),
  mod-lt (add32 rb.write_idx 1) {m = rb.cap} (omega arith),
)

-- `ek_ringbuf_read_spsc` keeps the invariant.
pub read_item-IsValid : {rb : Spsc} (out : Option Bytes) → IsValid rb → IsValid (read_item rb out).2
unfolding read_item next_idx
read_item-IsValid {rb} out v =
    ground (arith, mod-lt (add32 rb.read_idx 1) {m = rb.cap} (omega arith))

-- A ring that `ek_ringbuf_create_spsc` returns is valid and empty and has the slots asked for, if
-- `ek_malloc` returns blocks that are as long as was asked.
pub spsc_create-IsValid :
    (malloc : ℕ → Option Bytes) (header item_size item_amount : ℕ) {rb : Spsc}
    → ((n : ℕ) (b : Bytes) → malloc n ≡ some b → n ≤ length b)
    → header < word
    → item_amount < word
    → create malloc header item_size item_amount ≡ some rb
    → IsValid rb × (amount rb ≡ 0) × (rb.cap ≡ item_amount)
unfolding create
spsc_create-IsValid malloc header s n {rb} long hh hn e = elim (Bool-cases (leb n 1 || s == 0)) [
  | inl z ↦ cc (rw z at e)
  | inr nz ↦ elim (Bool-cases (ltb ((max_word - header) / s) n)) [
    | inl big ↦ cc (rw (nz, big) at e)
    | inr fit ↦ elim (Option-cases (malloc (add32 header (mul32 n s)))) [
      | inl m ↦ cc (rw (nz, fit, m) at e)
      | inr (b, m) ↦
          let r = request_fits header n s hh (ground arith) (ground arith) in
          let long' = long (add32 header (mul32 n s)) b m in
          subst (λ r. IsValid r × (amount r ≡ 0) × (r.cap ≡ n))
            (some-injective _ _ (rw (nz, fit, m) at e))
            (
              record {
                storage = omega (arith, length-drop header b, r.0);
                fits = r.1;
                items = ground arith;
                small = hn;
                two = ground arith;
                write_in = ground arith;
                read_in = ground arith;
              },
              grind (arith, mod-eq-sub-mod),
              refl,
            )
    ]
  ]
]

-- ===== src/Spsc/Interleave/Effects.antt =====
-- What each store to the shared ring does to its contents, and what both sides may rely on.
use mathlib.Core.Path.{ap₂}
use ek_utils.Base.{
  ℕ, ◌-◌, ◌*◌, ◌%◌, ◌<◌, ◌≡◌, ◌≢◌, sym, ap, ◌∙◌, arith, [], ◌∷◌, ◌++◌, length, take, Bytes, blit,
  slice, mul32, add32, take_all, slice-blit_self, slot_end, slice-blit_slot_ne,
}
use ek_utils.Slots.{slots, slots-snoc, slots-blit_behind, slots-take, mul32_slot}
use ek_utils.Spsc.{Spsc, next_idx}
use ek_utils.Spsc.Bounds.{IsValid, amount, write_ahead, amount-lt-cap, amount_cases, next_cases}
use ek_utils.Spsc.Refine.{contents, amount_put, amount_get}
use ek_utils.Spsc.Interleave.{Producer, copy, publish, Consumer, fetch, advance, System}

-- What the producer knows at each point: there is room, and it will stay.
abbrev pub ProducerKnows : Spsc → Producer → Type 0
ProducerKnows rb Producer.idle = Unit {0}
ProducerKnows rb (copy item next) =
    (length item ≡ rb.item_size) × (next ≡ next_idx rb rb.write_idx) × (next ≢ rb.read_idx)
ProducerKnows rb (publish item next) =
    (slice rb.bytes (rb.write_idx * rb.item_size) rb.item_size ≡ item)
    × (next ≡ next_idx rb rb.write_idx)
    × (next ≢ rb.read_idx)

-- What the consumer knows: there is an item, and it will stay.
abbrev pub ConsumerKnows : Spsc → Consumer → Type 0
ConsumerKnows rb Consumer.idle = Unit {0}
ConsumerKnows rb fetch = rb.read_idx ≢ rb.write_idx
ConsumerKnows rb (advance item) =
    (rb.read_idx ≢ rb.write_idx) × (item ≡ slice rb.bytes (rb.read_idx * rb.item_size) rb.item_size)

pub record Inv (s : System) : Type 0 where
  pub valid : IsValid s.rb
  pub kept : s.sent ≡ s.received ++ contents s.rb
  pub producer : ProducerKnows s.rb s.producer
  pub consumer : ConsumerKnows s.rb s.consumer

-- The index of the copy is the slot's, with no wrap.
pub offset : {rb : Spsc} (i : ℕ) → IsValid rb → i < rb.cap → mul32 i rb.item_size ≡ i * rb.item_size
offset {rb} i v h = mul32_slot rb.item_size rb.cap i v.fits v.items h

module _ (rb : Spsc) (item : Bytes) (v : IsValid rb) (size : length item ≡ rb.item_size) where
  abbrev pub filled : Spsc
  filled = record rb {
    bytes = blit rb.bytes (mul32 rb.write_idx rb.item_size) (take rb.item_size item);
  }

  filled-bytes : filled.bytes ≡ blit rb.bytes (rb.write_idx * rb.item_size) item
  filled-bytes =
      ap₂ (blit rb.bytes) (offset rb.write_idx v v.write_in) (take_all rb.item_size item size)

  -- The copy leaves the items in the ring alone,
  pub contents-filled : contents filled ≡ contents rb
  contents-filled =
      ap (λ b. slots rb.item_size rb.cap b rb.read_idx (amount rb)) filled-bytes
      ∙ slots-blit_behind rb.item_size rb.cap rb.bytes item (amount rb) rb.read_idx rb.write_idx
          size v.read_in (amount-lt-cap v) (write_ahead v)

  -- and stores the item behind them.
  pub filled_slot : slice filled.bytes (rb.write_idx * rb.item_size) rb.item_size ≡ item
  filled_slot =
      ap (λ b. slice b (rb.write_idx * rb.item_size) rb.item_size) filled-bytes
      ∙ slice-blit_self rb.bytes (rb.write_idx * rb.item_size) rb.item_size item (sym size)
          (omega (arith, slot_end rb.write_idx rb.cap rb.item_size v.write_in, v.storage))

  -- What the consumer copied stays what it was.
  filled_apart :
      rb.read_idx ≢ rb.write_idx
      → slice filled.bytes (rb.read_idx * rb.item_size) rb.item_size
        ≡ slice rb.bytes (rb.read_idx * rb.item_size) rb.item_size
  filled_apart ne =
      ap (λ b. slice b (rb.read_idx * rb.item_size) rb.item_size) filled-bytes
      ∙ slice-blit_slot_ne rb.bytes rb.write_idx rb.read_idx rb.item_size item (λ e. ne (sym e))
          size

  pub ConsumerKnows-filled : (c : Consumer) → ConsumerKnows rb c → ConsumerKnows filled c
  ConsumerKnows-filled Consumer.idle k = tt
  ConsumerKnows-filled fetch k = k
  ConsumerKnows-filled (advance x) k = (k.0, k.1 ∙ sym (filled_apart k.0))

module _ (rb : Spsc) (item : Bytes) (v : IsValid rb)
    (slot : slice rb.bytes (rb.write_idx * rb.item_size) rb.item_size ≡ item)
    (room : next_idx rb rb.write_idx ≢ rb.read_idx) where
  abbrev pub published : Spsc
  published = record rb { write_idx = next_idx rb rb.write_idx }

  -- The store of `write_idx` puts the item behind those in the ring.
  pub contents-published : contents published ≡ contents rb ++ (item ∷ [])
  unfolding next_idx
  contents-published =
      ap (slots rb.item_size rb.cap rb.bytes rb.read_idx)
        (amount_put rb.cap rb.write_idx rb.read_idx v.write_in v.read_in v.small room)
      ∙ slots-snoc rb.item_size rb.cap rb.bytes (amount rb) rb.read_idx v.read_in
      ∙ ap (λ x. contents rb ++ (x ∷ []))
          (ap (λ k. slice rb.bytes (k * rb.item_size) rb.item_size) (sym (write_ahead v)) ∙ slot)

  pub IsValid-published : IsValid published
  unfolding next_idx
  IsValid-published = record {
    storage = v.storage;
    fits = v.fits;
    items = v.items;
    small = v.small;
    two = v.two;
    write_in = omega (arith, v.two);
    read_in = v.read_in;
  }

  pub ConsumerKnows-published : (c : Consumer) → ConsumerKnows rb c → ConsumerKnows published c
  ConsumerKnows-published Consumer.idle k = tt
  ConsumerKnows-published fetch k = λ e. room (sym e)
  ConsumerKnows-published (advance x) k = (λ e. room (sym e), k.1)

module _ (rb : Spsc) (v : IsValid rb) (ne : rb.read_idx ≢ rb.write_idx) where
  abbrev pub advanced : Spsc
  advanced = record rb { read_idx = next_idx rb rb.read_idx }

  -- The store of `read_idx` takes the first item off.
  pub contents-advanced :
      contents rb ≡ slice rb.bytes (rb.read_idx * rb.item_size) rb.item_size ∷ contents advanced
  unfolding next_idx
  contents-advanced =
      rw (amount_get rb.cap rb.write_idx rb.read_idx v.write_in v.read_in v.small ne) (
        slots-take rb.item_size rb.cap rb.bytes (amount rb) rb.read_idx v.fits v.small v.items
          v.read_in some_left
        ∙ ap
            (λ k.
              slice rb.bytes k rb.item_size
              ∷ slots rb.item_size rb.cap rb.bytes (add32 rb.read_idx 1 % rb.cap) (amount rb - 1))
            (offset rb.read_idx v v.read_in))
    where
      some_left : amount rb ≢ 0
      some_left = ground (arith, amount_cases rb.cap rb.write_idx rb.read_idx v.write_in v.read_in)

  pub IsValid-advanced : IsValid advanced
  unfolding next_idx
  IsValid-advanced = record {
    storage = v.storage;
    fits = v.fits;
    items = v.items;
    small = v.small;
    two = v.two;
    write_in = v.write_in;
    read_in = omega (arith, v.two);
  }

  -- Two indices that differ still do after a step of each.
  next_apart : next_idx rb rb.write_idx ≢ next_idx rb rb.read_idx
  unfolding next_idx
  next_apart = ground (
    arith,
    next_cases rb.cap rb.write_idx v.write_in v.small,
    next_cases rb.cap rb.read_idx v.read_in v.small,
  )

  pub ProducerKnows-advanced : (p : Producer) → ProducerKnows rb p → ProducerKnows advanced p
  unfolding next_idx
  ProducerKnows-advanced Producer.idle k = tt
  ProducerKnows-advanced (copy x next) k = (k.0, k.1, λ e. next_apart (sym k.1 ∙ e))
  ProducerKnows-advanced (publish x next) k = (k.0, k.1, λ e. next_apart (sym k.1 ∙ e))

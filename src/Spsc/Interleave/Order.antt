-- ===== src/Spsc/Interleave/Order.antt =====
-- Whatever the interleaving, items come out in the order in which they went in, none lost, none
-- twice, and never more than `cap - 1` between the two sides.
use mathlib.Core.List.{append_assoc}
use mathlib.Core.Path.{subst}
use ek_utils.Base.{
  ℕ, ◌<◌, ◌≡◌, ◌≢◌, refl, sym, ap, ◌∙◌, arith, false, inl, inr, Bool-cases, some, copy_out, map,
  List, [], ◌∷◌, ◌++◌, ◌==◌, length, Bytes, slice, length-blit,
}
use ek_utils.Spsc.{Spsc, next_idx, write_item, read_item}
use ek_utils.Spsc.Bounds.{IsValid, amount-lt-cap}
use ek_utils.Spsc.Refine.{contents, length-contents}
use ek_utils.Spsc.Interleave.Effects.{
  ProducerKnows, ConsumerKnows, Inv, offset, advanced, contents-filled, filled_slot,
  ConsumerKnows-filled, contents-published, IsValid-published, ConsumerKnows-published,
  contents-advanced, IsValid-advanced, ProducerKnows-advanced,
}
use ek_utils.Spsc.Interleave.{
  Producer, copy, publish, Consumer, fetch, advance, System, produce, consume, Turn, producer_turn,
  consumer_turn, step, run,
}

-- The producer's steps keep the invariant.
produce-Inv :
    (p : Producer) (item : Bytes) {s : System}
    → Inv s
    → s.producer ≡ p
    → length item ≡ s.rb.item_size
    → Inv (produce p item s)
unfolding produce next_idx
produce-Inv Producer.idle item {s} i at size =
    elim (Bool-cases (next_idx s.rb s.rb.write_idx == s.rb.read_idx)) [
      | inl e ↦ rw e i
      | inr e ↦ rw e (record {
        valid = i.valid;
        kept = i.kept;
        producer = (size, refl, ground arith);
        consumer = i.consumer;
      })
    ]
produce-Inv (copy x next) item {s} i at size =
    let (fit, up, room) = subst (ProducerKnows s.rb) at i.producer in
    record {
      valid = record {
        storage = rw length-blit i.valid.storage;
        fits = i.valid.fits;
        items = i.valid.items;
        small = i.valid.small;
        two = i.valid.two;
        write_in = i.valid.write_in;
        read_in = i.valid.read_in;
      };
      kept = i.kept ∙ ap (λ c. s.received ++ c) (sym (contents-filled s.rb x i.valid fit));
      producer = (filled_slot s.rb x i.valid fit, up, room);
      consumer = ConsumerKnows-filled s.rb x i.valid fit s.consumer i.consumer;
    }
produce-Inv (publish x next) item {s} i at size =
    let (slot, up, room) = subst (ProducerKnows s.rb) at i.producer in
    let free : next_idx s.rb s.rb.write_idx ≢ s.rb.read_idx = rw up at room in
    rw up (record {
      valid = IsValid-published s.rb x i.valid slot free;
      kept =
          ap (λ l. l ++ (x ∷ [])) i.kept
          ∙ append_assoc s.received (contents s.rb) (x ∷ [])
          ∙ ap (λ c. s.received ++ c) (sym (contents-published s.rb x i.valid slot free));
      producer = tt;
      consumer = ConsumerKnows-published s.rb x i.valid slot free s.consumer i.consumer;
    })

-- The consumer's steps keep the invariant.
consume-Inv : (c : Consumer) {s : System} → Inv s → s.consumer ≡ c → Inv (consume c s)
unfolding consume
consume-Inv Consumer.idle {s} i at = elim (Bool-cases (s.rb.read_idx == s.rb.write_idx)) [
  | inl e ↦ rw e i
  | inr e ↦
      rw e
        (record { valid = i.valid; kept = i.kept; producer = i.producer; consumer = ground arith })
]
consume-Inv fetch {s} i at =
    let ne = subst (ConsumerKnows s.rb) at i.consumer in
    record {
      valid = i.valid;
      kept = i.kept;
      producer = i.producer;
      consumer = (
        ne,
        ap (λ k. slice s.rb.bytes k s.rb.item_size) (offset s.rb.read_idx i.valid i.valid.read_in),
      );
    }
consume-Inv (advance x) {s} i at =
    let (ne, slot) = subst (ConsumerKnows s.rb) at i.consumer in
    record {
      valid = IsValid-advanced s.rb i.valid ne;
      kept =
          i.kept
          ∙ ap (λ c. s.received ++ c)
              (contents-advanced s.rb i.valid ne
                ∙ ap (λ y. y ∷ contents (advanced s.rb i.valid ne)) (sym slot))
          ∙ sym (append_assoc s.received (x ∷ []) (contents (advanced s.rb i.valid ne)));
      producer = ProducerKnows-advanced s.rb i.valid ne s.producer i.producer;
      consumer = tt;
    }

-- Every item that a producer begins to write has the ring's size.
abbrev pub TurnsFit : ℕ → List Turn → Type 0
TurnsFit size [] = Unit {0}
TurnsFit size (producer_turn item ∷ l) = (length item ≡ size) × TurnsFit size l
TurnsFit size (consumer_turn ∷ l) = TurnsFit size l

item_size-produce :
    (p : Producer) (item : Bytes) (s : System) → (produce p item s).rb.item_size ≡ s.rb.item_size
unfolding produce
item_size-produce Producer.idle item s = ground arith
item_size-produce (copy x next) item s = refl
item_size-produce (publish x next) item s = refl

item_size-consume : (c : Consumer) (s : System) → (consume c s).rb.item_size ≡ s.rb.item_size
unfolding consume
item_size-consume Consumer.idle s = ground arith
item_size-consume fetch s = refl
item_size-consume (advance x) s = refl

run-Inv :
    (size : ℕ) (l : List Turn) {s : System}
    → Inv s
    → s.rb.item_size ≡ size
    → TurnsFit size l
    → Inv (run l s)
unfolding run step
run-Inv size [] i e fit = i
run-Inv size (producer_turn item ∷ l) {s} i e fit =
    run-Inv size l (produce-Inv s.producer item i refl (fit.0 ∙ sym e))
      (item_size-produce s.producer item s ∙ e) fit.1
run-Inv size (consumer_turn ∷ l) {s} i e fit =
    run-Inv size l (consume-Inv s.consumer i refl) (item_size-consume s.consumer s ∙ e) fit

-- Both sides outside their calls; what is in the ring counts as sent.
abbrev pub start : Spsc → System
start rb = record {
  rb = rb;
  producer = Producer.idle;
  consumer = Consumer.idle;
  sent = contents rb;
  received = [];
}

-- From a valid ring, after any interleaving of the steps of `ek_ringbuf_write_spsc` and
-- `ek_ringbuf_read_spsc` on items of the ring's size: what was received, followed by what the ring
-- holds, is what was sent, in order; the ring is valid and holds fewer than `cap` items.
pub run_in_order :
    (l : List Turn) {rb : Spsc}
    → IsValid rb
    → TurnsFit rb.item_size l
    → let s = run l (start rb) in
      (s.sent ≡ s.received ++ contents s.rb) × IsValid s.rb × (length (contents s.rb) < s.rb.cap)
run_in_order l {rb} v fit =
    let i =
      run-Inv rb.item_size l {s = start rb}
        (record { valid = v; kept = refl; producer = tt; consumer = tt }) refl fit in
    (i.kept, i.valid, rw length-contents (amount-lt-cap i.valid))

-- The steps of one side with none of the other between them are the function: three turns of the
-- producer leave the ring as `ek_ringbuf_write_spsc` does where there is room.
pub producer_alone :
    (rb : Spsc) (x y z : Bytes)
    → next_idx rb rb.write_idx ≢ rb.read_idx
    → (run (producer_turn x ∷ producer_turn y ∷ producer_turn z ∷ []) (start rb)).rb
      ≡ (write_item rb x).1
unfolding run step produce write_item
producer_alone rb x y z room =
    let test : (next_idx rb rb.write_idx == rb.read_idx) ≡ false = ground arith in rw test

-- Three turns of the consumer leave the ring as `ek_ringbuf_read_spsc` does where there is an item,
-- and receive the item that it copies out.
pub consumer_alone :
    (rb : Spsc) (out : Bytes)
    → rb.read_idx ≢ rb.write_idx
    → let s = run (consumer_turn ∷ consumer_turn ∷ consumer_turn ∷ []) (start rb) in
      (s.rb ≡ (read_item rb (some out)).2)
      × (map (λ x. copy_out (some out) x) s.received ≡ (read_item rb (some out)).1 ∷ [])
unfolding run step consume read_item
consumer_alone rb out ne =
    let test : (rb.read_idx == rb.write_idx) ≡ false = ground arith in rw test (refl, refl)

-- ===== src/Spsc/Interleave.antt =====
-- `ek_ringbuf_write_spsc` and `ek_ringbuf_read_spsc` run at the same time, one by the producer and
-- one by the consumer: the statements that read and write the shared ring, in any interleaving.
-- A copy of an item is one step: the other side never touches the bytes that are being copied.
pub mod Effects
pub mod Order
use ek_utils.Base.{
  ℕ, ◌≡◌, List, [], ◌∷◌, ◌++◌, ◌==◌, length, take, Bytes, blit, slice, mul32, if◌then◌else◌,
}
use ek_utils.Spsc.{Spsc, next_idx}

-- Where the producer stands in `ek_ringbuf_write_spsc`: outside, before the copy of its item, or
-- before the store of `write_idx`.
pub data Producer : Type 0 where
  idle : Producer
  copy : Bytes → ℕ → Producer
  publish : Bytes → ℕ → Producer

-- Where the consumer stands in `ek_ringbuf_read_spsc`: outside, before the copy, or before the
-- store of `read_idx`, with the item that it copied.
pub data Consumer : Type 0 where
  idle : Consumer
  fetch : Consumer
  advance : Bytes → Consumer

-- The shared ring, both sides, and what went in and came out so far.
pub record System : Type 0 where
  pub rb : Spsc
  pub producer : Producer
  pub consumer : Consumer
  pub sent : List Bytes
  pub received : List Bytes

-- The next step of the producer; one that is outside begins to write `item`.
unfoldable pub produce : Producer → Bytes → System → System
produce Producer.idle item s =
    let next = next_idx s.rb s.rb.write_idx in
    if next == s.rb.read_idx then s else record s { producer = copy item next }
produce (copy item next) _ s =
    let rb = s.rb in
    record s {
      rb = record rb {
        bytes = blit rb.bytes (mul32 rb.write_idx rb.item_size) (take rb.item_size item);
      };
      producer = publish item next;
    }
produce (publish item next) _ s =
    let rb = s.rb in
    record s {
      rb = record rb { write_idx = next };
      producer = Producer.idle;
      sent = s.sent ++ (item ∷ []);
    }

-- The next step of the consumer.
unfoldable pub consume : Consumer → System → System
consume Consumer.idle s =
    if s.rb.read_idx == s.rb.write_idx then s else record s { consumer = fetch }
consume fetch s = record s {
  consumer = advance (slice s.rb.bytes (mul32 s.rb.read_idx s.rb.item_size) s.rb.item_size);
}
consume (advance item) s =
    let rb = s.rb in
    record s {
      rb = record rb { read_idx = next_idx rb rb.read_idx };
      consumer = Consumer.idle;
      received = s.received ++ (item ∷ []);
    }

-- Whose turn it is.
pub data Turn : Type 0 where
  producer_turn : Bytes → Turn
  consumer_turn : Turn

unfoldable pub step : Turn → System → System
step (producer_turn item) s = produce s.producer item s
step consumer_turn s = consume s.consumer s

unfoldable pub run : List Turn → System → System
run [] s = s
run (t ∷ l) s = run l (step t s)

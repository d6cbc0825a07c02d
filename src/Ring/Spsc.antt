-- ===== src/Ring/Spsc.antt =====
-- `spsc_ring_push` and `spsc_ring_pop` of core/ring.c as two threads run them: one turn of a thread
-- is one atomic access to `head`, `tail` or `dropped`, or the copy of one slot. A schedule is any
-- list of turns. The atomics are sequentially consistent, as `atomic_load` and `atomic_store` are.
pub mod Invariant
pub mod Fifo
pub mod Whole
mod Tests
use edgeflow_energy_gateway.Common.{
  ℕ, ◌+◌, ◌%◌, ◌^◌, List, [], ◌∷◌, ◌++◌, ◌==◌, get_or, set, if◌then◌else◌,
}
use edgeflow_energy_gateway.Ring.{next_slot}

module _ (A : Type 0) where
  -- Where the producer stands in `spsc_ring_push`, with the locals that it has loaded.
  pub data Producer : Type 0 where
    idle : Producer
    has_head : A → ℕ → Producer
    has_tail : A → ℕ → ℕ → Producer
    has_copied : A → ℕ → Producer

  -- Where the consumer stands in `spsc_ring_pop`.
  pub data Consumer : Type 0 where
    idle : Consumer
    has_tail : ℕ → Consumer
    has_head : ℕ → ℕ → Consumer
    has_copied : ℕ → A → Consumer

  -- The ring in memory, the two threads, and what they have seen so far: the points of the calls
  -- that returned `true`, in order, and the number of pushes that returned `false`.
  pub record System : Type 0 where
    pub slots : List A
    pub size : ℕ
    pub head : ℕ
    pub tail : ℕ
    pub dropped : ℕ
    pub producer : Producer
    pub consumer : Consumer
    pub accepted : List A
    pub delivered : List A
    pub refused : ℕ

  -- A turn of the producer, with the point that it pushes if it begins a call; of the consumer.
  pub data Turn : Type 0 where
    produce : A → Turn
    consume : Turn

module _ {A : Type 0} where
  -- The producer's next access.
  unfoldable pub produce_from : Producer A → A → System A → System A
  produce_from Producer.idle x s = record s { producer = Producer.has_head x s.head }
  produce_from (Producer.has_head y head) x s = record s {
    producer = Producer.has_tail y head s.tail;
  }
  produce_from (Producer.has_tail y head tail) x s =
      if next_slot head s.size == tail
      then record s {
        dropped = (s.dropped + 1) % 2 ^ 32;
        producer = Producer.idle;
        refused = s.refused + 1;
      }
      else record s { slots = set s.slots head y; producer = Producer.has_copied y head }
  produce_from (Producer.has_copied y head) x s = record s {
    head = next_slot head s.size;
    producer = Producer.idle;
    accepted = s.accepted ++ (y ∷ []);
  }

  -- The consumer's next access; `zeroed` is what a read past the slots would give.
  unfoldable pub consume_from : Consumer A → A → System A → System A
  consume_from Consumer.idle zeroed s = record s { consumer = Consumer.has_tail s.tail }
  consume_from (Consumer.has_tail tail) zeroed s = record s {
    consumer = Consumer.has_head tail s.head;
  }
  consume_from (Consumer.has_head tail head) zeroed s =
      if tail == head
      then record s { consumer = Consumer.idle }
      else record s { consumer = Consumer.has_copied tail (get_or s.slots tail zeroed) }
  consume_from (Consumer.has_copied tail x) zeroed s = record s {
    tail = next_slot tail s.size;
    consumer = Consumer.idle;
    delivered = s.delivered ++ (x ∷ []);
  }

  unfoldable pub turn : A → System A → Turn A → System A
  unfolding produce_from consume_from
  turn zeroed s (produce x) = produce_from s.producer x s
  turn zeroed s consume = consume_from s.consumer zeroed s

  unfoldable pub run : A → System A → List (Turn A) → System A
  unfolding turn
  run zeroed s [] = s
  run zeroed s (t ∷ ts) = run zeroed (turn zeroed s t) ts

  -- A ring that no call has used yet, with both threads outside their calls.
  abbrev pub start : List A → ℕ → System A
  start slots size = record {
    slots = slots;
    size = size;
    head = 0;
    tail = 0;
    dropped = 0;
    producer = Producer.idle;
    consumer = Consumer.idle;
    accepted = [];
    delivered = [];
    refused = 0;
  }

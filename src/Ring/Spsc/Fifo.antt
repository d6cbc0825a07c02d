-- ===== src/Ring/Spsc/Fifo.antt =====
-- The ring under every schedule of the two threads: points arrive in the order in which they were
-- pushed, none is lost or doubled, and no slot is written while it is read.
use edgeflow_energy_gateway.Common.{
  ℕ, ◌+◌, ◌-◌, ◌%◌, ◌^◌, ◌≤◌, ◌<◌, ◌≡◌, ◌≢◌, refl, sym, ap, ◌∙◌, inl, inr, List, [], ◌∷◌, ◌++◌,
  arith, length, take, ◌==◌, ==_iff, Bool-cases, length-append, get_or-set_self, replicate,
  length-replicate,
}
use native.Mathlib.Nat.{mod-lt, mod-eq-sub-mod, mod-eq_of_lt}
use native.Mathlib.Decide.{dec_lt}
use edgeflow_energy_gateway.Ring.{next_slot}
use edgeflow_energy_gateway.Ring.Spsc.{
  Producer, Consumer, System, Turn, produce, consume, produce_from, consume_from, turn, run, start,
}
use edgeflow_energy_gateway.Ring.Spsc.Invariant.{
  mod-ne, next_slot-mod, Memory, ProducerKnows, ConsumerKnows, IsSound, free_slot, accept, deliver,
  consumer_waits, producer_waits,
}

module _ {A : Type 0} (zeroed : A) where
  -- The test of `push` leaves a free slot behind the written one.
  pub space_of_test :
      (size head tail a d d' : ℕ)
      → (2 ≤ size) × (size < 2 ^ 32)
      → head ≡ a % size
      → tail ≡ d' % size
      → d' ≤ d
      → a < d' + size
      → next_slot head size ≢ tail
      → a + 1 < d + size
  space_of_test size head tail a d d' ok eh et le room ne = elim (dec_lt (a + 1) (d' + size)) [
    | yes p ↦ omega arith
    | no p ↦ absurd (ne (behind ∙ lapped (omega arith) ∙ sym et))
  ]
    where
      behind : next_slot head size ≡ (a + 1) % size
      behind = ap (λ (h : ℕ). next_slot h size) eh ∙ next_slot-mod a size (omega (arith, ok.0)) ok.1

      lapped : a + 1 ≡ d' + size → (a + 1) % size ≡ d' % size
      lapped e = rw e (
          mod-eq-sub-mod {n = d' + size} {m = size} (omega arith)
          ∙ ap (λ (n : ℕ). n % size) (omega arith))

  in_range : (s : System A) → IsSound zeroed s → s.head < length s.slots
  in_range s v = omega (
    arith,
    v.memory.allocated,
    v.memory.head_at,
    v.memory.size_ok.0,
    mod-lt (length s.accepted) {m = s.size} (omega (arith, v.memory.size_ok.0)),
  )

  produce-IsSound :
      (p : Producer A) (x : A) (s : System A)
      → IsSound zeroed s
      → ProducerKnows zeroed s.slots s.size s.head (length s.accepted) (length s.delivered) p
      → IsSound zeroed (produce_from p x s)
  unfolding produce_from
  produce-IsSound Producer.idle x s v k = record {
    memory = v.memory;
    producer = refl;
    consumer = v.consumer;
    counted = v.counted;
  }
  produce-IsSound (Producer.has_head y h) x s v k = record {
    memory = v.memory;
    producer = (k, (length s.delivered, v.memory.tail_at, omega arith, v.memory.room));
    consumer = v.consumer;
    counted = v.counted;
  }
  produce-IsSound (Producer.has_tail y h t) x s v (eh, (d', et, le, room)) =
      elim (Bool-cases (next_slot h s.size == t)) [
        | inl full ↦ rw full (record {
          memory = v.memory;
          producer = tt;
          consumer = v.consumer;
          counted = omega (arith, v.counted);
        })
        | inr free ↦ rw free (record {
          memory = rw eh (free_slot zeroed v.memory y);
          producer = (
            eh,
            space_of_test s.size h t (length s.accepted) (length s.delivered) d' v.memory.size_ok
                (eh ∙ v.memory.head_at) et le room (λ e. cc ((==_iff _ _).1 e, free)),
            rw eh (get_or-set_self s.slots s.head y zeroed (in_range s v)),
          );
          consumer = v.consumer;
          counted = v.counted;
        })
      ]
  produce-IsSound (Producer.has_copied y h) x s v (eh, lo, copied) = record {
    memory = rw eh (accept zeroed v.memory y lo copied);
    producer = tt;
    consumer =
        consumer_waits zeroed s.consumer s.size s.tail s.accepted (length s.delivered) y v.consumer;
    counted = v.counted;
  }

  -- A head that is not the tail has a point behind it.
  pending :
      (s : System A) (a' : ℕ) {t h : ℕ}
      → s.tail ≡ length s.delivered % s.size
      → t ≡ s.tail
      → h ≡ a' % s.size
      → length s.delivered ≤ a'
      → t ≢ h
      → length s.delivered < a'
  pending s a' st et eh lo ne = elim (dec_lt (length s.delivered) a') [
    | yes p ↦ p
    | no p ↦
        let same : length s.delivered ≡ a' = omega arith in
        absurd (ne (et ∙ st ∙ ap (λ (n : ℕ). n % s.size) same ∙ sym eh))
  ]

  consume-IsSound :
      (c : Consumer A) (s : System A)
      → IsSound zeroed s
      → ConsumerKnows zeroed s.size s.tail s.accepted (length s.delivered) c
      → IsSound zeroed (consume_from c zeroed s)
  unfolding consume_from
  consume-IsSound Consumer.idle s v k = record {
    memory = v.memory;
    producer = v.producer;
    consumer = refl;
    counted = v.counted;
  }
  consume-IsSound (Consumer.has_tail t) s v k = record {
    memory = v.memory;
    producer = v.producer;
    consumer = (k, (length s.accepted, v.memory.head_at, v.memory.behind, omega arith));
    counted = v.counted;
  }
  consume-IsSound (Consumer.has_head t h) s v (et, (a', eh, lo, hi)) = elim (Bool-cases (t == h)) [
    | inl empty ↦
        rw empty
          (record { memory = v.memory; producer = v.producer; consumer = tt; counted = v.counted })
    | inr some_left ↦
        let more : length s.delivered < length s.accepted =
          omega (
            arith,
            pending s a' v.memory.tail_at et eh lo (λ e. cc ((==_iff _ _).1 e, some_left)),
          ) in
        rw some_left (record {
          memory = v.memory;
          producer = v.producer;
          consumer = (
            et,
            more,
            rw (et, v.memory.tail_at) (v.memory.holds (length s.delivered) (omega arith) more),
          );
          counted = v.counted;
        })
  ]
  consume-IsSound (Consumer.has_copied t x) s v (et, more, copied) = record {
    memory = rw et (deliver zeroed v.memory x more copied);
    producer =
        producer_waits zeroed s.producer s.slots s.size s.head (length s.accepted)
          (length s.delivered) (length (s.delivered ++ (x ∷ []))) (omega (arith, longer))
          v.producer;
    consumer = tt;
    counted = v.counted;
  }
    where
      longer : length (s.delivered ++ (x ∷ [])) ≡ length s.delivered + 1
      longer = length-append s.delivered (x ∷ [])

  turn-IsSound : (s : System A) (t : Turn A) → IsSound zeroed s → IsSound zeroed (turn zeroed s t)
  unfolding turn
  turn-IsSound s (produce x) v = produce-IsSound s.producer x s v v.producer
  turn-IsSound s consume v = consume-IsSound s.consumer s v v.consumer

  pub run-IsSound :
      (ts : List (Turn A)) (s : System A) → IsSound zeroed s → IsSound zeroed (run zeroed s ts)
  unfolding run
  run-IsSound [] s v = v
  run-IsSound (t ∷ ts) s v = run-IsSound ts (turn zeroed s t) (turn-IsSound s t v)

  pub start-IsSound :
      (size : ℕ) → 2 ≤ size → size < 2 ^ 32 → IsSound zeroed (start (replicate size zeroed) size)
  start-IsSound size lo hi = record {
    memory = record {
      size_ok = (lo, hi);
      allocated = length-replicate size zeroed;
      head_at = sym (mod-eq_of_lt (omega arith));
      tail_at = sym (mod-eq_of_lt (omega arith));
      behind = omega arith;
      room = omega arith;
      fifo = refl;
      holds = λ i l h. absurd (omega arith);
    };
    producer = tt;
    consumer = tt;
    counted = refl;
  }

  size-turn : (s : System A) (t : Turn A) → (turn zeroed s t).size ≡ s.size
  unfolding turn
  size-turn s (produce x) = ground arith
  size-turn s consume = ground arith

  size-run : (ts : List (Turn A)) (s : System A) → (run zeroed s ts).size ≡ s.size
  unfolding run
  size-run [] s = refl
  size-run (t ∷ ts) s = size-run ts (turn zeroed s t) ∙ size-turn s t

  apart_of_sound :
      (s : System A) {x : A} {head tail t h : ℕ}
      → IsSound zeroed s
      → s.producer ≡ Producer.has_tail x head tail
      → s.consumer ≡ Consumer.has_head t h
      → t ≢ h
      → head ≢ t
  apart_of_sound s {head = head} {tail = tail} {t = t} {h = h} v pe ce ne e =
      go (rw pe at v.producer) (rw ce at v.consumer)
    where
      m : Memory zeroed s.slots s.size s.head s.tail s.accepted s.delivered
      m = v.memory

      go :
          (head ≡ s.head)
            × ((d' : ℕ) × (tail ≡ d' % s.size)
                × (d' ≤ length s.delivered)
                × (length s.accepted < d' + s.size))
          → (t ≡ s.tail)
            × ((a' : ℕ) × (h ≡ a' % s.size) × (length s.delivered ≤ a') × (a' ≤ length s.accepted))
          → ⊥
      go (eh, _) (et, (a', ea, lo, hi)) =
          mod-ne (length s.delivered) (length s.accepted) s.size
            (omega (arith, pending s a' m.tail_at et ea lo ne)) m.room
            (sym m.tail_at ∙ sym et ∙ sym e ∙ eh ∙ m.head_at)

  -- After any schedule of the two threads on a fresh ring of `size` slots, 2 <= size < 2^32, the
  -- points that pops have returned are, in order, the first of those that pushes have accepted, at
  -- most size - 1 accepted points are still to be popped, and `dropped` counts the refused pushes
  -- modulo 2^32.
  pub fifo_under_any_schedule :
      (size : ℕ) (ts : List (Turn A))
      → 2 ≤ size
      → size < 2 ^ 32
      → let s = run zeroed (start (replicate size zeroed) size) ts in
        (s.delivered ≡ take (length s.delivered) s.accepted)
        × (length s.accepted ≤ length s.delivered + (size - 1))
        × (s.dropped ≡ s.refused % 2 ^ 32)
  fifo_under_any_schedule size ts lo hi =
      let v = run-IsSound ts (start (replicate size zeroed) size) (start-IsSound size lo hi) in
      (
        v.memory.fifo,
        omega (arith, v.memory.room, size-run ts (start (replicate size zeroed) size)),
        v.counted,
      )

  -- Whatever the schedule, when the producer has loaded `tail` and goes on to write its slot, and the
  -- consumer has seen a point and goes on to read it, the two slots differ.
  pub no_data_race :
      (size : ℕ) (ts : List (Turn A)) (x : A) (head tail t h : ℕ)
      → 2 ≤ size
      → size < 2 ^ 32
      → let s = run zeroed (start (replicate size zeroed) size) ts in
        s.producer ≡ Producer.has_tail x head tail
        → s.consumer ≡ Consumer.has_head t h
        → t ≢ h
        → head ≢ t
  no_data_race size ts x head tail t h lo hi pe ce cn =
      apart_of_sound _ (run-IsSound ts _ (start-IsSound size lo hi)) pe ce cn

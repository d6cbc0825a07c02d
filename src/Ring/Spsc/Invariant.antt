-- ===== src/Ring/Spsc/Invariant.antt =====
-- What holds of the ring under every schedule.
use edgeflow_energy_gateway.Common.{
  ℕ, ◌+◌, ◌-◌, ◌%◌, ◌^◌, ◌≤◌, ◌<◌, ◌≡◌, ◌≢◌, sym, ap, ap₂, ◌∙◌, List, [], ◌∷◌, ◌++◌, arith, length,
  get_or, set, take, take-append_left, take-append_next, get_or-append_left, get_or-append_last,
  length-append, length-set, get_or-set_ne,
}
use native.Mathlib.Nat.{mod-add-mod, mod-eq_of_lt, mod-eq-sub-mod}
use native.Mathlib.Numerals.{add-one}
use native.Mathlib.Decide.{dec_lt}
use edgeflow_energy_gateway.Ring.{next_slot}
use edgeflow_energy_gateway.Ring.Spsc.{Producer, Consumer, System}

-- Fewer steps than a lap lead to another slot.
add-mod-ne : (h k n : ℕ) → h < n → 0 < k → k < n → (h + k) % n ≢ h
add-mod-ne h k n hh hk hn = elim (dec_lt (h + k) n) [
  | yes p ↦ omega (arith, mod-eq_of_lt p)
  | no p ↦ omega (
    arith,
    mod-eq-sub-mod {n = h + k} {m = n} (omega arith),
    mod-eq_of_lt {n = h + k - n} {m = n} (omega arith),
  )
]

-- Indices that are less than a lap apart are different slots.
pub mod-ne : (i a n : ℕ) → i < a → a < i + n → i % n ≢ a % n
mod-ne i a n h k e = add-mod-ne (i % n) (a - i) n (omega arith) (omega arith) (omega arith) same
  where
    same : (i % n + (a - i)) % n ≡ i % n
    same = rw mod-add-mod (omega (arith, e, ap (λ (t : ℕ). t % n) apart))
      where
        apart : i + (a - i) ≡ a
        apart = omega arith

-- The slot behind that of index `i` is that of `i + 1`.
pub next_slot-mod : (i n : ℕ) → 0 < n → n < 2 ^ 32 → next_slot (i % n) n ≡ (i + 1) % n
next_slot-mod i n h k =
    rw (mod-eq_of_lt {n = i % n + 1} {m = 2 ^ 32} (omega arith)) (mod-add-mod i n 1)

module _ {A : Type 0} (zeroed : A) where
  -- The memory when `accepted` has been pushed and `delivered` has been popped.
  pub record Memory (slots : List A) (size head tail : ℕ) (accepted delivered : List A)
      : Type 0 where
    pub size_ok : (2 ≤ size) × (size < 2 ^ 32)
    pub allocated : length slots ≡ size
    pub head_at : head ≡ length accepted % size
    pub tail_at : tail ≡ length delivered % size
    pub behind : length delivered ≤ length accepted
    pub room : length accepted < length delivered + size
    pub fifo : delivered ≡ take (length delivered) accepted
    pub holds :
        (i : ℕ)
        → length delivered ≤ i
        → i < length accepted
        → get_or slots (i % size) zeroed ≡ get_or accepted i zeroed

  -- What the producer's locals say once `a` pushes and `d` pops are done. A tail that it loaded
  -- may be out of date: it is the tail after `d'` pops.
  abbrev pub ProducerKnows : List A → ℕ → ℕ → ℕ → ℕ → Producer A → Type 0
  ProducerKnows slots size head a d Producer.idle = Unit {0}
  ProducerKnows slots size head a d (Producer.has_head x h) = h ≡ head
  ProducerKnows slots size head a d (Producer.has_tail x h t) =
      (h ≡ head) × ((d' : ℕ) × (t ≡ d' % size) × (d' ≤ d) × (a < d' + size))
  ProducerKnows slots size head a d (Producer.has_copied x h) =
      (h ≡ head) × (a + 1 < d + size) × (get_or slots head zeroed ≡ x)

  -- So too for the consumer, whose head may be out of date.
  abbrev pub ConsumerKnows : ℕ → ℕ → List A → ℕ → Consumer A → Type 0
  ConsumerKnows size tail accepted d Consumer.idle = Unit {0}
  ConsumerKnows size tail accepted d (Consumer.has_tail t) = t ≡ tail
  ConsumerKnows size tail accepted d (Consumer.has_head t h) =
      (t ≡ tail) × ((a' : ℕ) × (h ≡ a' % size) × (d ≤ a') × (a' ≤ length accepted))
  ConsumerKnows size tail accepted d (Consumer.has_copied t x) =
      (t ≡ tail) × (d < length accepted) × (x ≡ get_or accepted d zeroed)

  pub record IsSound (s : System A) : Type 0 where
    pub memory : Memory s.slots s.size s.head s.tail s.accepted s.delivered
    pub producer :
        ProducerKnows s.slots s.size s.head (length s.accepted) (length s.delivered) s.producer
    pub consumer : ConsumerKnows s.size s.tail s.accepted (length s.delivered) s.consumer
    pub counted : s.dropped ≡ s.refused % 2 ^ 32

  module _ {slots : List A} {size head tail : ℕ} {accepted delivered : List A}
      (m : Memory slots size head tail accepted delivered) where
    -- The slot that the producer may write holds no point that is still to be read.
    pub free_slot : (x : A) → Memory (set slots head x) size head tail accepted delivered
    free_slot x = record {
      size_ok = m.size_ok;
      allocated = length-set slots head x ∙ m.allocated;
      head_at = m.head_at;
      tail_at = m.tail_at;
      behind = m.behind;
      room = m.room;
      fifo = m.fifo;
      holds =
          λ i lo hi. get_or-set_ne slots head (i % size) x zeroed (away i lo hi) ∙ m.holds i lo hi;
    }
      where
        away : (i : ℕ) → length delivered ≤ i → i < length accepted → head ≢ i % size
        away i lo hi e =
            mod-ne i (length accepted) size hi (omega (arith, m.room)) (sym e ∙ m.head_at)

    pub accept :
        (x : A)
        → length accepted + 1 < length delivered + size
        → get_or slots head zeroed ≡ x
        → Memory slots size (next_slot head size) tail (accepted ++ (x ∷ [])) delivered
    accept x space copied = record {
      size_ok = m.size_ok;
      allocated = m.allocated;
      head_at =
          ap (λ (h : ℕ). next_slot h size) m.head_at
          ∙ next_slot-mod (length accepted) size (omega (arith, m.size_ok.0)) m.size_ok.1
          ∙ ap (λ (n : ℕ). n % size) (sym longer);
      tail_at = m.tail_at;
      behind = omega (arith, longer, m.behind);
      room = omega (arith, longer, space);
      fifo = m.fifo ∙ sym (take-append_left (length delivered) accepted (x ∷ []) m.behind);
      holds = still;
    }
      where
        longer : length (accepted ++ (x ∷ [])) ≡ length accepted + 1
        longer = length-append accepted (x ∷ [])

        still :
            (i : ℕ)
            → length delivered ≤ i
            → i < length (accepted ++ (x ∷ []))
            → get_or slots (i % size) zeroed ≡ get_or (accepted ++ (x ∷ [])) i zeroed
        still i lo hi = elim (dec_lt i (length accepted)) [
          | yes p ↦ m.holds i lo p ∙ sym (get_or-append_left accepted (x ∷ []) i zeroed p)
          | no p ↦
              let last : i ≡ length accepted = omega (arith, longer) in
              ap (λ (k : ℕ). get_or slots k zeroed) (ap (λ (n : ℕ). n % size) last ∙ sym m.head_at)
              ∙ copied
              ∙ sym (get_or-append_last accepted x i zeroed last)
        ]

    pub deliver :
        (x : A)
        → length delivered < length accepted
        → x ≡ get_or accepted (length delivered) zeroed
        → Memory slots size head (next_slot tail size) accepted (delivered ++ (x ∷ []))
    deliver x more copied = record {
      size_ok = m.size_ok;
      allocated = m.allocated;
      head_at = m.head_at;
      tail_at =
          ap (λ (h : ℕ). next_slot h size) m.tail_at
          ∙ next_slot-mod (length delivered) size (omega (arith, m.size_ok.0)) m.size_ok.1
          ∙ ap (λ (n : ℕ). n % size) (sym longer);
      behind = omega (arith, longer, more);
      room = omega (arith, longer, m.room);
      fifo =
          ap₂ (λ (ds : List A) (y : A). ds ++ (y ∷ [])) m.fifo copied
          ∙ take-append_next accepted (length delivered) zeroed more
          ∙ ap (λ (n : ℕ). take n accepted) (sym (longer ∙ add-one (length delivered)));
      holds = λ i lo hi. m.holds i (omega (arith, longer)) hi;
    }
      where
        longer : length (delivered ++ (x ∷ [])) ≡ length delivered + 1
        longer = length-append delivered (x ∷ [])

  -- A push by the producer leaves what the consumer knows true, and the other way round.
  pub consumer_waits :
      (c : Consumer A) (size tail : ℕ) (accepted : List A) (d : ℕ) (x : A)
      → ConsumerKnows size tail accepted d c
      → ConsumerKnows size tail (accepted ++ (x ∷ [])) d c
  consumer_waits Consumer.idle size tail accepted d x k = k
  consumer_waits (Consumer.has_tail t) size tail accepted d x k = k
  consumer_waits (Consumer.has_head t h) size tail accepted d x (e, (a', eh, lo, hi)) =
      (e, (a', eh, lo, omega (arith, length-append accepted (x ∷ []))))
  consumer_waits (Consumer.has_copied t y) size tail accepted d x (e, lo, ey) = (
    e,
    omega (arith, length-append accepted (x ∷ [])),
    ey ∙ sym (get_or-append_left accepted (x ∷ []) d zeroed lo),
  )

  pub producer_waits :
      (p : Producer A) (slots : List A) (size head a d d' : ℕ)
      → d ≤ d'
      → ProducerKnows slots size head a d p
      → ProducerKnows slots size head a d' p
  producer_waits Producer.idle slots size head a d d' h k = k
  producer_waits (Producer.has_head x i) slots size head a d d' h k = k
  producer_waits (Producer.has_tail x i t) slots size head a d d' h (e, (b, et, lo, hi)) =
      (e, (b, et, omega arith, hi))
  producer_waits (Producer.has_copied x i) slots size head a d d' h (e, lo, hi) =
      (e, omega arith, hi)

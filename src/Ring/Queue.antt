-- ===== src/Ring/Queue.antt =====
-- The ring of core/ring.c, call by call, against a plain queue.
use edgeflow_energy_gateway.Common.{
  ℕ, ◌+◌, ◌-◌, ◌%◌, ◌^◌, ◌≤◌, ◌<◌, ◌≡◌, refl, sym, ap, ap₂, ◌∙◌, Bool, true, false, Bool-cases,
  some, some-injective, inl, inr, List, [], ◌∷◌, ◌++◌, arith, length, ltb, get_or, set,
  get_or-set_self, append-nil, append_assoc, length-append, replicate, ◌==◌, ==_iff,
}
use mathlib.Core.Path.{subst}
use native.Mathlib.Nat.{mod-lt}
use native.Mathlib.Decide.{dec_lt}
use edgeflow_energy_gateway.Ring.{
  Ring, next_slot, spsc_ring_init, spsc_ring_push, spsc_ring_pop, spsc_ring_count,
  spsc_ring_dropped,
}
use edgeflow_energy_gateway.Ring.Spsc.Invariant.{
  Memory, mod-ne, next_slot-mod, free_slot, accept, deliver,
}
use edgeflow_energy_gateway.Ring.Spsc.Fifo.{space_of_test, start-IsSound}
use edgeflow_energy_gateway.Ring.Spsc.Whole.{slot_distance, slot_distance-mod}
use edgeflow_energy_gateway.Ring.Calls.{
  Call, Answer, queue_call, queue_calls, ring_call, ring_calls,
}

module _ {A : Type 0} (zeroed : A) where
  -- The ring holds the points `xs` and has refused `lost` others.
  record HoldsQueue (r : Ring A) (xs : List A) (lost : ℕ) : Type 0 where
    slots : List A
    before : List A
    buf : r.buf ≡ some slots
    memory : Memory zeroed slots r.size r.head r.tail (before ++ xs) before
    refused : r.dropped ≡ lost % 2 ^ 32

  module _ {r : Ring A} {xs : List A} {lost : ℕ} (h : HoldsQueue r xs lost) where
    longer : length (h.before ++ xs) ≡ length h.before + length xs
    longer = length-append h.before xs

    next_head : next_slot r.head r.size ≡ (length h.before + length xs + 1) % r.size
    next_head =
        ap (λ (i : ℕ). next_slot i r.size) h.memory.head_at
        ∙ next_slot-mod (length (h.before ++ xs)) r.size (omega (arith, h.memory.size_ok.0))
            h.memory.size_ok.1
        ∙ ap (λ (n : ℕ). (n + 1) % r.size) longer

    -- The test of a push is true exactly if the queue is full.
    full : (next_slot r.head r.size == r.tail) ≡ true → ltb (length xs) (r.size - 1) ≡ false
    full e = elim (dec_lt (length xs) (r.size - 1)) [
      | no p ↦ ground (arith, p)
      | yes p ↦ absurd (
          mod-ne (length h.before) (length h.before + length xs + 1) r.size (omega arith)
            (omega (arith, p, h.memory.size_ok.0))
            (sym h.memory.tail_at ∙ sym ((==_iff _ _).0 e) ∙ next_head))
    ]

    free : (next_slot r.head r.size == r.tail) ≡ false → length xs + 1 < r.size
    free e = omega (
      arith,
      longer,
      space_of_test zeroed r.size r.head r.tail (length (h.before ++ xs)) (length h.before)
          (length h.before) h.memory.size_ok h.memory.head_at h.memory.tail_at (omega arith)
          h.memory.room (λ q. cc ((==_iff _ _).1 q, e)),
    )

    in_range : r.head < length h.slots
    in_range = omega (
      arith,
      h.memory.allocated,
      h.memory.head_at,
      h.memory.size_ok.0,
      mod-lt (length (h.before ++ xs)) {m = r.size} (omega (arith, h.memory.size_ok.0)),
    )

    -- A push that the ring takes puts its point behind the others.
    pushed :
        (x : A)
        → (next_slot r.head r.size == r.tail) ≡ false
        → let buf = set h.slots r.head x in
          HoldsQueue
            (record r { buf = some buf; head = next_slot r.head r.size })
            (xs ++ (x ∷ []))
            lost
    pushed x e =
        let m =
          accept zeroed (free_slot zeroed h.memory x) x (omega (arith, longer, free e))
            (get_or-set_self h.slots r.head x zeroed in_range) in
        record {
          slots = set h.slots r.head x;
          before = h.before;
          buf = refl;
          memory =
              subst
                (λ (ps : List A).
                  Memory zeroed (set h.slots r.head x) r.size (next_slot r.head r.size) r.tail ps
                    h.before)
                (append_assoc h.before xs (x ∷ [])) m;
          refused = h.refused;
        }

    push-HoldsQueue :
        (x : A)
        → let (r', done) = spsc_ring_push r x in
          let (xs', lost', a) = queue_call (r.size - 1) xs lost (Call.push x) in
          HoldsQueue r' xs' lost' × (Answer.taken done ≡ a) × (r'.size ≡ r.size)
    unfolding spsc_ring_push
    push-HoldsQueue x = elim (Bool-cases (next_slot r.head r.size == r.tail)) [
      | inl e ↦
          rw (h.buf, spsc_ring_push, e, full e)
            (
              record {
                slots = h.slots;
                before = h.before;
                buf = h.buf;
                memory = h.memory;
                refused = omega (arith, h.refused);
              },
              refl,
              refl,
            )
      | inr e ↦
          let room : ltb (length xs) (r.size - 1) ≡ true = ground (arith, free e) in
          rw (h.buf, spsc_ring_push, e, room) (pushed x e, refl, refl)
    ]

  get_or-append_here :
      (xs : List A) (y : A) (ys : List A) → get_or (xs ++ (y ∷ ys)) (length xs) zeroed ≡ y
  get_or-append_here [] y ys = refl
  get_or-append_here (x ∷ xs) y ys = get_or-append_here xs y ys

  pop-HoldsQueue :
      (r : Ring A) (xs : List A) (lost : ℕ)
      → HoldsQueue r xs lost
      → let (r', out) = spsc_ring_pop zeroed r in
        let (xs', lost', a) = queue_call (r.size - 1) xs lost Call.pop in
        HoldsQueue r' xs' lost' × (Answer.given out ≡ a) × (r'.size ≡ r.size)
  unfolding spsc_ring_pop
  pop-HoldsQueue r [] lost h =
      let empty : (r.tail == r.head) ≡ true = (==_iff _ _).1 (
        h.memory.tail_at
        ∙ ap (λ (ps : List A). length ps % r.size) (sym (append-nil h.before))
        ∙ sym h.memory.head_at) in
      rw (h.buf, spsc_ring_pop, empty) (h, refl, refl)
  pop-HoldsQueue r (x ∷ xs) lost h = elim (Bool-cases (r.tail == r.head)) [
    | inl e ↦ absurd (
        mod-ne (length h.before) (length (h.before ++ (x ∷ xs))) r.size
          (omega (arith, length-append h.before (x ∷ xs))) h.memory.room
          (sym h.memory.tail_at ∙ (==_iff _ _).0 e ∙ h.memory.head_at))
    | inr e ↦
        let more : length h.before < length (h.before ++ (x ∷ xs)) =
          omega (arith, length-append h.before (x ∷ xs)) in
        let first = get_or-append_here h.before x xs in
        let read : get_or h.slots r.tail zeroed ≡ x =
          ap (λ (i : ℕ). get_or h.slots i zeroed) h.memory.tail_at
          ∙ h.memory.holds (length h.before) (omega arith) more
          ∙ first in
        let left : HoldsQueue (record r { tail = next_slot r.tail r.size }) xs lost = record {
          slots = h.slots;
          before = h.before ++ (x ∷ []);
          buf = h.buf;
          memory =
              subst
                (λ (ps : List A).
                  Memory zeroed h.slots r.size r.head (next_slot r.tail r.size) ps
                    (h.before ++ (x ∷ [])))
                (sym (append_assoc h.before (x ∷ []) xs))
                (deliver zeroed h.memory x more (sym first));
          refused = h.refused;
        } in
        rw (h.buf, spsc_ring_pop, e) (left, ap (λ (y : A). Answer.given (some y)) read, refl)
  ]

  count-HoldsQueue :
      (r : Ring A) (xs : List A) (lost : ℕ) → HoldsQueue r xs lost → spsc_ring_count r ≡ length xs
  unfolding spsc_ring_count
  count-HoldsQueue r xs lost h =
      let room : length xs < r.size = omega (arith, h.memory.room, length-append h.before xs) in
      rw (h.buf, spsc_ring_count)
        (ap₂ (λ (t i : ℕ). slot_distance t i r.size) h.memory.tail_at
            (h.memory.head_at ∙ ap (λ (n : ℕ). n % r.size) (length-append h.before xs))
          ∙ slot_distance-mod (length h.before) (length xs) r.size room h.memory.size_ok.1)

  call-HoldsQueue :
      (r : Ring A) (xs : List A) (lost : ℕ) (c : Call A)
      → HoldsQueue r xs lost
      → let (r', a) = ring_call zeroed r c in
        let (xs', lost', b) = queue_call (r.size - 1) xs lost c in
        HoldsQueue r' xs' lost' × (a ≡ b) × (r'.size ≡ r.size)
  unfolding spsc_ring_dropped
  call-HoldsQueue r xs lost (Call.push x) h = push-HoldsQueue h x
  call-HoldsQueue r xs lost Call.pop h = pop-HoldsQueue r xs lost h
  call-HoldsQueue r xs lost Call.count h =
      (h, ap Answer.number (count-HoldsQueue r xs lost h), refl)
  call-HoldsQueue r xs lost Call.dropped h = (h, ap Answer.number h.refused, refl)

  calls-HoldsQueue :
      (cs : List (Call A)) (room : ℕ) (r : Ring A) (xs : List A) (lost : ℕ)
      → HoldsQueue r xs lost
      → r.size - 1 ≡ room
      → ring_calls zeroed r cs ≡ queue_calls room xs lost cs
  calls-HoldsQueue [] room r xs lost h e = refl
  calls-HoldsQueue (c ∷ cs) room r xs lost h e =
      let (kept, same, size) = call-HoldsQueue r xs lost c h in
      let (r', a) = ring_call zeroed r c in
      let (xs', lost', b) = queue_call (r.size - 1) xs lost c in
      ap₂ (λ (x : Answer A) (as' : List (Answer A)). x ∷ as') same
        (calls-HoldsQueue cs (r.size - 1) r' xs' lost' kept (ap (λ (n : ℕ). n - 1) size))
      ∙ ap (λ (n : ℕ). queue_calls n xs lost (c ∷ cs)) e

  start-HoldsQueue :
      (size : ℕ)
      → 2 ≤ size
      → size < 2 ^ 32
      → HoldsQueue
          (record {
            buf = some (replicate size zeroed);
            size = size;
            head = 0;
            tail = 0;
            dropped = 0;
          })
          []
          0
  start-HoldsQueue size lo hi = record {
    slots = replicate size zeroed;
    before = [];
    buf = refl;
    memory = (start-IsSound zeroed size lo hi).memory;
    refused = refl;
  }

  -- Whatever pushes, pops and readings of the two counts follow a successful `spsc_ring_init` of
  -- fewer than 2^32 slots, one call after the other, they answer like a queue with room for one point
  -- less than the ring has slots: a push is refused exactly if the queue is full, a pop gives the
  -- oldest point that is left, and the counts are the points that wait and the refused pushes modulo
  -- 2^32.
  pub calls-queue_calls :
      (memory : Bool) (size : ℕ) (cs : List (Call A)) {r : Ring A}
      → size < 2 ^ 32
      → spsc_ring_init zeroed memory size ≡ some r
      → ring_calls zeroed r cs ≡ queue_calls (size - 1) [] 0 cs
  unfolding spsc_ring_init
  calls-queue_calls memory size cs {r} hi h = elim (Bool-cases (ltb size 2)) [
    | inl small ↦ cc (rw (small, spsc_ring_init) at h)
    | inr enough ↦ elim (Bool-cases memory) [
      | inr failed ↦ cc (rw (enough, failed, spsc_ring_init) at h)
      | inl got ↦
          subst (λ (q : Ring A). ring_calls zeroed q cs ≡ queue_calls (size - 1) [] 0 cs)
            (some-injective _ r (rw (enough, got, spsc_ring_init) at h))
            (calls-HoldsQueue cs (size - 1) _ [] 0
              (start-HoldsQueue size (ground (arith, enough)) hi) refl)
    ]
  ]

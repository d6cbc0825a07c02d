-- ===== src/Ring/Calls.antt =====
-- Calls of the functions of core/ring.c one after the other, and what a plain queue answers to them.
use edgeflow_energy_gateway.Common.{
  ℕ, ◌+◌, ◌%◌, ◌^◌, Bool, true, false, Option, none, some, List, [], ◌∷◌, ◌++◌, length, ltb,
  if◌then◌else◌,
}
use edgeflow_energy_gateway.Ring.{
  Ring, spsc_ring_push, spsc_ring_pop, spsc_ring_count, spsc_ring_dropped,
}

-- A call of one of the functions, and what it returns.
pub data Call (A : Type 0) : Type 0 where
  push : A → Call A
  pop count dropped : Call A

pub data Answer (A : Type 0) : Type 0 where
  taken : Bool → Answer A
  given : Option A → Answer A
  number : ℕ → Answer A

module _ {A : Type 0} where
  -- A queue that refuses and counts what it has no room for.
  abbrev pub queue_call : ℕ → List A → ℕ → Call A → List A × ℕ × Answer A
  queue_call room xs lost (Call.push x) =
      if ltb (length xs) room
      then (xs ++ (x ∷ []), lost, Answer.taken true)
      else (xs, lost + 1, Answer.taken false)
  queue_call room [] lost Call.pop = ([], lost, Answer.given none)
  queue_call room (x ∷ xs) lost Call.pop = (xs, lost, Answer.given (some x))
  queue_call room xs lost Call.count = (xs, lost, Answer.number (length xs))
  queue_call room xs lost Call.dropped = (xs, lost, Answer.number (lost % 2 ^ 32))

  abbrev pub queue_calls : ℕ → List A → ℕ → List (Call A) → List (Answer A)
  queue_calls room xs lost [] = []
  queue_calls room xs lost (c ∷ cs) =
      let (xs', lost', a) = queue_call room xs lost c in a ∷ queue_calls room xs' lost' cs

module _ {A : Type 0} (zeroed : A) where
  -- The same calls on the ring.
  abbrev pub ring_call : Ring A → Call A → Ring A × Answer A
  ring_call r (Call.push x) = let (r', done) = spsc_ring_push r x in (r', Answer.taken done)
  ring_call r Call.pop = let (r', out) = spsc_ring_pop zeroed r in (r', Answer.given out)
  ring_call r Call.count = (r, Answer.number (spsc_ring_count r))
  ring_call r Call.dropped = (r, Answer.number (spsc_ring_dropped r))

  abbrev pub ring_calls : Ring A → List (Call A) → List (Answer A)
  ring_calls r [] = []
  ring_calls r (c ∷ cs) = let (r', a) = ring_call r c in a ∷ ring_calls r' cs

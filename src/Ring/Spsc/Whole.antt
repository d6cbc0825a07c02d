-- ===== src/Ring/Spsc/Whole.antt =====
-- The ring of core/ring.c in the memory of the two threads: where it starts, and its count.
use edgeflow_energy_gateway.Common.{
  ℕ, ◌+◌, ◌-◌, ◌%◌, ◌^◌, ◌≤◌, ◌<◌, ◌≡◌, ap, ap₂, ◌∙◌, Bool, none, some, List, arith, length,
  replicate, if◌then◌else◌, leb, ◌&&◌,
}
use native.Mathlib.Nat.{mod-lt, mod-eq-sub-mod, mod-eq_of_lt, mod-add-mod}
use native.Mathlib.Decide.{dec_lt}
use edgeflow_energy_gateway.Ring.{Ring, spsc_ring_init, spsc_ring_count}
use edgeflow_energy_gateway.Ring.Spsc.{System, Turn, run, start}
use edgeflow_energy_gateway.Ring.Spsc.Invariant.{IsSound}
use edgeflow_energy_gateway.Ring.Spsc.Fifo.{run-IsSound, start-IsSound}

-- The `spsc_ring_t` in the memory of a system.
abbrev pub ring_of : {A : Type 0} → System A → Ring A
ring_of s = record {
  buf = some s.slots;
  size = s.size;
  head = s.head;
  tail = s.tail;
  dropped = s.dropped;
}

module _ {A : Type 0} (zeroed : A) where
  -- `spsc_ring_init` refuses fewer than two slots and a failed allocation; else it gives the ring
  -- from which every schedule starts.
  pub init_start :
      (memory : Bool) (size : ℕ)
      → spsc_ring_init zeroed memory size ≡ (
          if leb 2 size && memory
          then some (ring_of (start (replicate size zeroed) size))
          else none)
  unfolding spsc_ring_init
  init_start memory size = ground arith

-- The two forms of the distance between slots `t` and `h` of a ring of `n` slots.
abbrev pub slot_distance : ℕ → ℕ → ℕ → ℕ
slot_distance t h n = if leb t h then h - t else (n + 2 ^ 32 - t + h) % 2 ^ 32

-- It is the distance of the indices, if that is less than a lap.
pub slot_distance-mod : (d k n : ℕ) → k < n → n < 2 ^ 32 → slot_distance (d % n) ((d + k) % n) n ≡ k
slot_distance-mod d k n h hn = elim (dec_lt (d % n + k) n) [
  | yes p ↦ ground (arith, mod-add-mod d n k, mod-eq_of_lt {n = d % n + k} {m = n} p)
  | no p ↦ ground (
    arith,
    mod-add-mod d n k,
    mod-lt d {m = n} (omega arith),
    mod-eq-sub-mod {n = d % n + k} {m = n} (omega arith),
    mod-eq_of_lt {n = d % n + k - n} {m = n} (omega (arith, mod-lt d {m = n} (omega arith))),
  )
]

module _ {A : Type 0} (zeroed : A) where
  count_of_sound :
      (s : System A)
      → IsSound zeroed s
      → spsc_ring_count (ring_of s) + length s.delivered ≡ length s.accepted
  unfolding spsc_ring_count
  count_of_sound s v = omega (
    arith,
    ap₂ (λ (t h : ℕ). slot_distance t h s.size) v.memory.tail_at
        (v.memory.head_at ∙ ap (λ (n : ℕ). n % s.size) split),
    slot_distance-mod (length s.delivered) pending s.size (omega (arith, v.memory.room))
        v.memory.size_ok.1,
    split,
  )
    where
      pending : ℕ
      pending = length s.accepted - length s.delivered

      split : length s.accepted ≡ length s.delivered + pending
      split = omega (arith, v.memory.behind)

  -- At any moment of any schedule `spsc_ring_count` is the number of accepted points that are
  -- still to be popped.
  pub count_under_any_schedule :
      (size : ℕ) (ts : List (Turn A))
      → 2 ≤ size
      → size < 2 ^ 32
      → let s = run zeroed (start (replicate size zeroed) size) ts in
        spsc_ring_count (ring_of s) + length s.delivered ≡ length s.accepted
  count_under_any_schedule size ts lo hi =
      count_of_sound _ (run-IsSound zeroed ts _ (start-IsSound zeroed size lo hi))

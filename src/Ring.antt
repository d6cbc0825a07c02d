-- ===== src/Ring.antt =====
-- core/ring.h and core/ring.c: the single-producer single-consumer ring of telemetry points, as its
-- functions run on their own. `Ring/Spsc` splits them into their atomic accesses.
pub mod Spsc
pub mod Count
pub mod Calls
pub mod Queue
use edgeflow_energy_gateway.Common.{
  ℕ, ◌+◌, ◌-◌, ◌%◌, ◌^◌, Bool, true, false, Option, none, some, List, ltb, leb, ◌==◌, get_or, set,
  replicate, if◌then◌else◌,
}

-- `spsc_ring_t`; `buf` is NULL before `init` and after `destroy`. The slots only move values of the
-- type `A`, the C code's `telemetry_t`.
pub record Ring {ℓ} (A : Type ℓ) : Type ℓ where
  pub buf : Option (List A)
  pub size : ℕ
  pub head : ℕ
  pub tail : ℕ
  pub dropped : ℕ

-- The slot behind `i`; `(i + 1U) % size` in `unsigned` arithmetic.
abbrev pub next_slot : ℕ → ℕ → ℕ
next_slot i size = (i + 1) % 2 ^ 32 % size

module _ {ℓ} {A : Type ℓ} where
  -- `zeroed` is the record of zero bytes that `calloc` gives, and `memory` says whether it gives
  -- any; `none` is the return value -1.
  unfoldable pub spsc_ring_init : A → Bool → ℕ → Option (Ring A)
  spsc_ring_init zeroed memory size =
      if ltb size 2
      then none
      else if memory
      then some (record {
        buf = some (replicate size zeroed);
        size = size;
        head = 0;
        tail = 0;
        dropped = 0;
      })
      else none

  unfoldable pub spsc_ring_destroy : Ring A → Ring A
  spsc_ring_destroy ring = record ring { buf = none; size = 0 }

  -- What `push` does once `buf` is known not to be NULL.
  push_slot : Ring A → List A → A → Ring A × Bool
  push_slot ring buf point =
      let next = next_slot ring.head ring.size in
      if next == ring.tail
      then (record ring { dropped = (ring.dropped + 1) % 2 ^ 32 }, false)
      else (record ring { buf = some (set buf ring.head point); head = next }, true)

  unfoldable pub spsc_ring_push : Ring A → A → Ring A × Bool
  unfolding push_slot
  spsc_ring_push ring point = elim ring.buf [
    | none ↦ (ring, false)
    | some buf ↦ push_slot ring buf point
  ]

  -- `zeroed` stands for what a read past the buffer would give; `Ring.Spsc.Fifo` excludes it.
  pop_slot : A → Ring A → List A → Ring A × Option A
  pop_slot zeroed ring buf = if ring.tail == ring.head then (ring, none) else (
    record ring { tail = next_slot ring.tail ring.size },
    some (get_or buf ring.tail zeroed),
  )

  -- `none` is the result `false`, which leaves the caller's point as it was.
  unfoldable pub spsc_ring_pop : A → Ring A → Ring A × Option A
  unfolding pop_slot
  spsc_ring_pop zeroed ring = elim ring.buf [
    | none ↦ (ring, none)
    | some buf ↦ pop_slot zeroed ring buf
  ]

  unfoldable pub spsc_ring_count : Ring A → ℕ
  spsc_ring_count ring = elim ring.buf [
    | none ↦ 0
    | some buf ↦
        if leb ring.tail ring.head
        then ring.head - ring.tail
        else (ring.size + 2 ^ 32 - ring.tail + ring.head) % 2 ^ 32
  ]

  unfoldable pub spsc_ring_dropped : Ring A → ℕ
  spsc_ring_dropped ring = ring.dropped

-- ===== src/Clock.antt =====
-- common/time_util.h and common/time_util.c. `Timer` stands for clock_gettime and nanosleep; a time
-- is seconds and nanoseconds.
pub mod Sleep
mod Tests
use edgeflow_energy_gateway.Common.{
  ℕ, zero, suc, ◌+◌, ◌*◌, ◌/◌, ◌%◌, ◌^◌, Bool, true, false, Option, none, some,
}

pub record Timer (W : Type 0) : Type 0 where
  -- clock_gettime(CLOCK_MONOTONIC, …)
  pub gettime : W → Option (ℕ × ℕ) × W
  -- `none` when all of the time has passed; else what is left of it
  pub nanosleep : ℕ → ℕ → W → Option (ℕ × ℕ) × W
  -- how often the next sleeps can be interrupted in a row
  pub patience : W → ℕ

-- The milliseconds of a time, in 64 bits.
abbrev pub ms_of : ℕ × ℕ → ℕ
ms_of (sec, nsec) = (sec * 1000 + nsec / 1000000) % 2 ^ 64

module _ {W : Type 0} (os : Timer W) where
  unfoldable pub edgeflow_now_ms : W → ℕ × W
  edgeflow_now_ms w = elim (os.gettime w).0 [
    | none ↦ (0, (os.gettime w).1)
    | some t ↦ (ms_of t, (os.gettime w).1)
  ]

  -- The loop with the time that is still to be slept; whether it came to its end within the fuel.
  unfoldable pub sleep_rest : ℕ → ℕ → ℕ → W → Bool × W
  sleep_rest zero sec nsec w = (false, w)
  sleep_rest (suc fuel) sec nsec w = elim (os.nanosleep sec nsec w).0 [
    | none ↦ (true, (os.nanosleep sec nsec w).1)
    | some rem ↦ sleep_rest fuel rem.0 rem.1 (os.nanosleep sec nsec w).1
  ]

  unfoldable pub edgeflow_sleep_ms : ℕ → W → Bool × W
  unfolding sleep_rest
  edgeflow_sleep_ms ms w = sleep_rest (1 + os.patience w) (ms / 1000) (ms % 1000 * 1000000) w

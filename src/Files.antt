-- ===== src/Files.antt =====
-- The calls of the C library on files, as platform/config.c, platform/metrics.c and
-- platform/logger.c use them. A stream is a number.
pub mod Kept
use edgeflow_energy_gateway.Common.{ℕ, ◌+◌, ◌≤◌, ◌≡◌, Bool, Option, none, some, List, length}
use edgeflow_energy_gateway.Text.{CString}

pub record Files (W : Type 0) : Type 0 where
  -- fopen with a path and a mode
  pub fopen : CString → CString → W → Option ℕ × W
  -- fseek to the end, and to the start
  pub seek_end : ℕ → W → Bool × W
  pub seek_start : ℕ → W → Bool × W
  -- ftell, none below 0
  pub ftell : ℕ → W → Option ℕ × W
  -- fread of at most so many bytes
  pub fread : ℕ → ℕ → W → List ℕ × W
  -- what fprintf prints
  pub fprint : ℕ → CString → W → W
  pub fflush : ℕ → W → W
  pub fclose : ℕ → W → W
  pub mkdir : CString → W → W

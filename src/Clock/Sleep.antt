-- ===== src/Clock/Sleep.antt =====
-- What the functions of common/time_util.c promise of the time.
use edgeflow_energy_gateway.Common.{
  ℕ, zero, suc, ◌+◌, ◌*◌, ◌/◌, ◌%◌, ◌^◌, ◌≤◌, ◌<◌, ◌≡◌, refl, true, none, some, Option-cases, inl,
  inr, arith,
}
use edgeflow_energy_gateway.Clock.{Timer, ms_of, sleep_rest, edgeflow_sleep_ms}

abbrev pub ns_of : ℕ × ℕ → ℕ
ns_of (sec, nsec) = sec * 1000000000 + nsec

-- `slept w` counts the nanoseconds that the thread has been suspended. A sleep suspends it at least
-- as long as it was asked to, and may take longer; if it is interrupted, then what it reports as left
-- makes up for what is missing, and may be more. It is not interrupted for ever, and a time is valid
-- if its nanoseconds stay below a second.
pub record IsTimer {W : Type 0} (os : Timer W) (slept : W → ℕ) : Type 0 where
  pub slept-whole :
      (sec nsec : ℕ) (w : W)
      → nsec < 1000000000
      → (os.nanosleep sec nsec w).0 ≡ none
      → slept w + ns_of (sec, nsec) ≤ slept (os.nanosleep sec nsec w).1
  pub slept-part :
      (sec nsec : ℕ) (w : W) (rem : ℕ × ℕ)
      → nsec < 1000000000
      → (os.nanosleep sec nsec w).0 ≡ some rem
      → (slept w + ns_of (sec, nsec) ≤ slept (os.nanosleep sec nsec w).1 + ns_of rem)
        × (rem.1 < 1000000000)
        × (os.patience (os.nanosleep sec nsec w).1 < os.patience w)

module _ {W : Type 0} (os : Timer W) (slept : W → ℕ) (ok : IsTimer os slept) where
  slept-sleep_rest :
      (fuel sec nsec : ℕ) (w : W)
      → nsec < 1000000000
      → os.patience w < fuel
      → let (done, w') = sleep_rest os fuel sec nsec w in
        (done ≡ true) × (slept w + ns_of (sec, nsec) ≤ slept w')
  unfolding sleep_rest
  slept-sleep_rest zero sec nsec w h k = absurd (omega arith)
  slept-sleep_rest (suc fuel) sec nsec w h k = elim (Option-cases (os.nanosleep sec nsec w).0) [
    | inl e ↦ rw (e, sleep_rest) (refl, ok.slept-whole sec nsec w h e)
    | inr (rem, e) ↦
        let (left, valid, used) = ok.slept-part sec nsec w rem h e in
        let (done, whole) =
          slept-sleep_rest fuel rem.0 rem.1 (os.nanosleep sec nsec w).1 valid (omega arith) in
        rw (e, sleep_rest) (done, omega (arith, whole, left))
  ]

  -- A sleep always comes to its end, however often signals interrupt it, and the thread has then been
  -- suspended at least as many milliseconds as were asked for in all.
  pub sleep_ms-slept :
      (ms : ℕ) (w : W)
      → let (done, w') = edgeflow_sleep_ms os ms w in
        (done ≡ true) × (slept w + ms * 1000000 ≤ slept w')
  unfolding edgeflow_sleep_ms
  sleep_ms-slept ms w =
      let (done, whole) =
        slept-sleep_rest (1 + os.patience w) (ms / 1000) (ms % 1000 * 1000000) w (omega arith)
          (omega arith) in
      (done, omega (arith, whole))

-- A later time has no smaller reading, while the milliseconds fit 64 bits.
pub ms_of-le :
    (s t : ℕ × ℕ)
    → s.1 < 1000000000
    → t.1 < 1000000000
    → ns_of s ≤ ns_of t
    → ns_of t < 1000000 * 2 ^ 64
    → ms_of s ≤ ms_of t
ms_of-le (s, a) (t, b) h k le small = omega arith

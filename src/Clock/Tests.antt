-- ===== src/Clock/Tests.antt =====
-- The theorem on sleeping at a concrete timer, which counts in steps of four nanoseconds: it is
-- interrupted so many times before any time has passed, and reports the rest rounded up; then it
-- sleeps on, a little longer than it was asked to.
use edgeflow_energy_gateway.Common.{
  ℕ, zero, suc, ◌+◌, ◌≤◌, ◌*◌, ◌<◌, ◌≡◌, some-injective, true, Option, none, some, arith, ◌/◌, ltb,
  if◌then◌else◌,
}
use edgeflow_energy_gateway.Clock.{Timer, edgeflow_sleep_ms}
use edgeflow_energy_gateway.Clock.Sleep.{ns_of, IsTimer, sleep_ms-slept}

record Night : Type 0 where
  signals : ℕ
  asleep : ℕ

-- A time as the next one that is a multiple of four nanoseconds.
abbrev round_up : ℕ → ℕ → ℕ × ℕ
round_up sec nsec =
    let steps = (nsec + 3) / 4 * 4 in if ltb steps 1000000000 then (sec, steps) else (sec + 1, 0)

abbrev doze : ℕ → ℕ → ℕ → ℕ → Option (ℕ × ℕ) × Night
doze sec nsec zero asleep = (none, record { signals = 0; asleep = asleep + ns_of (sec, nsec) + 4 })
doze sec nsec (suc n) asleep = (some (round_up sec nsec), record { signals = n; asleep = asleep })

abbrev alarm_clock : Timer Night
alarm_clock = record {
  gettime = λ w. (none, w);
  nanosleep = λ sec nsec w. doze sec nsec w.signals w.asleep;
  patience = λ w. w.signals;
}

doze-whole :
    (sec nsec signals asleep : ℕ)
    → (doze sec nsec signals asleep).0 ≡ none
    → asleep + ns_of (sec, nsec) ≤ (doze sec nsec signals asleep).1.asleep
doze-whole sec nsec zero asleep h = omega arith
doze-whole sec nsec (suc n) asleep h = cc

doze-part :
    (sec nsec signals asleep : ℕ) (rem : ℕ × ℕ)
    → nsec < 1000000000
    → (doze sec nsec signals asleep).0 ≡ some rem
    → (asleep + ns_of (sec, nsec) ≤ (doze sec nsec signals asleep).1.asleep + ns_of rem)
      × (rem.1 < 1000000000)
      × ((doze sec nsec signals asleep).1.signals < signals)
doze-part sec nsec zero asleep rem k h = cc
doze-part sec nsec (suc n) asleep rem k h =
    ground (arith, k, some-injective (round_up sec nsec) rem h)

alarm_clock-IsTimer : IsTimer alarm_clock (λ w. w.asleep)
alarm_clock-IsTimer = record {
  slept-whole = λ sec nsec w k h. doze-whole sec nsec w.signals w.asleep h;
  slept-part = λ sec nsec w rem k h. doze-part sec nsec w.signals w.asleep rem k h;
}

sleep_ms-slept_example :
    let (done, w') = edgeflow_sleep_ms alarm_clock 1500 (record { signals = 3; asleep = 7 }) in
    (done ≡ true) × (7 + 1500 * 1000000 ≤ w'.asleep)
sleep_ms-slept_example =
    sleep_ms-slept alarm_clock (λ w. w.asleep) alarm_clock-IsTimer 1500
      (record { signals = 3; asleep = 7 })

-- ===== src/Model/Health.antt =====
-- Connection health of a device over any history of collections: `device_mark_online` and
-- `device_mark_failure` of model/device_model.c.
use edgeflow_energy_gateway.Common.{
  ℕ, zero, suc, ◌+◌, ◌%◌, ◌^◌, ◌≤◌, ◌<◌, ◌≡◌, refl, Option, List, [], ◌∷◌, ltb, arith,
  if◌then◌else◌,
}
use native.Mathlib.Numerals.{add-one}
use edgeflow_energy_gateway.Text.{CString}
use edgeflow_energy_gateway.Model.Enums.{OnlineState}
use edgeflow_energy_gateway.Model.Types.{Device}
use edgeflow_energy_gateway.Model.Build.{degrade, device_mark_online, device_mark_failure}

-- One collection: it succeeded, or it failed with a text that may be NULL.
pub data Collection : Type 0 where
  success : ℕ → Collection
  failure : ℕ → Option CString → Collection

pub after : Device → Collection → Device
after d (success ts_ms) = device_mark_online d ts_ms
after d (failure ts_ms error) = device_mark_failure d ts_ms error

pub history : Device → List Collection → Device
history d [] = d
history d (c ∷ cs) = history (after d c) cs

-- The failures at the end of a history that starts after `n` failures in a row.
abbrev pub trailing_failures : ℕ → List Collection → ℕ
trailing_failures n [] = n
trailing_failures n (success _ ∷ cs) = trailing_failures 0 cs
trailing_failures n (failure _ _ ∷ cs) = trailing_failures (n + 1) cs

-- The longest count that a history meets on its way.
abbrev pub peak_failures : ℕ → List Collection → ℕ
peak_failures n [] = n
peak_failures n (success _ ∷ cs) = let r = peak_failures 0 cs in if ltb n r then r else n
peak_failures n (failure _ _ ∷ cs) = peak_failures (n + 1) cs

abbrev pub state_for : ℕ → OnlineState
state_for zero = OnlineState.online
state_for (suc zero) = OnlineState.degraded
state_for (suc (suc zero)) = OnlineState.degraded
state_for (suc (suc (suc n))) = OnlineState.offline

-- What the model promises of a device after `n` failures in a row.
pub record IsAt (n : ℕ) (d : Device) : Type 0 where
  pub failures : d.consecutive_failures ≡ n
  pub state : d.online_state ≡ state_for n

degrade-state_for : (n : ℕ) (was : OnlineState) → degrade (suc n) was ≡ state_for (suc n)
unfolding degrade
degrade-state_for zero was = refl
degrade-state_for (suc zero) was = refl
degrade-state_for (suc (suc n)) was = ground arith

peak-ge : (n : ℕ) (cs : List Collection) → n ≤ peak_failures n cs
peak-ge n [] = omega arith
peak-ge n (success ts ∷ cs) = ground arith
peak-ge n (failure ts e ∷ cs) = omega (arith, peak-ge (n + 1) cs)

failure-IsAt :
    (n ts : ℕ) (e : Option CString) (d : Device)
    → n + 1 < 2 ^ 32
    → IsAt n d
    → IsAt (n + 1) (device_mark_failure d ts e)
unfolding device_mark_failure
failure-IsAt n ts e d h v = record {
  failures = omega arith;
  state = ground (arith, same, degrade-state_for n d.online_state, add-one n);
}
  where
    same : (d.consecutive_failures + 1) % 2 ^ 32 ≡ suc n
    same = omega arith

-- A device is, after any collections, in the state that the failures since the last success say:
-- none ONLINE, one or two DEGRADED, three or more OFFLINE; the counter holds their number. The
-- counter must not have reached 2 ^ 32 on the way.
pub history-IsAt :
    (cs : List Collection) (n : ℕ) (d : Device)
    → peak_failures n cs < 2 ^ 32
    → IsAt n d
    → IsAt (trailing_failures n cs) (history d cs)
unfolding history after
history-IsAt [] n d h v = v
history-IsAt (success ts ∷ cs) n d h v =
    history-IsAt cs 0 (device_mark_online d ts) (ground arith)
      (unfold device_mark_online in ground arith)
history-IsAt (failure ts e ∷ cs) n d h v =
    history-IsAt cs (n + 1) (device_mark_failure d ts e) h
      (failure-IsAt n ts e d (omega (arith, peak-ge (n + 1) cs)) v)

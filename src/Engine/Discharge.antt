-- ===== src/Engine/Discharge.antt =====
-- The size of the discharge that peak shaving commands, and when it is commanded
-- (`clamp_discharge` and the end of `state_engine_process_telemetry`, runtime/state_engine.c).
use edgeflow_energy_gateway.Common.{ℕ, ◌≡◌, Bool, true, false, some, arith}
use edgeflow_energy_gateway.Floats.{Floats, IsIeee}
use edgeflow_energy_gateway.Text.{str_eq_refl}
use edgeflow_energy_gateway.Model.Types.{Telemetry, Command, GatewayConfig}
use edgeflow_energy_gateway.Engine.{
  StateEngine, is_good, grid_point, clamp_discharge, state_engine_process_telemetry,
}
use edgeflow_energy_gateway.Engine.Outcome.{is_hot, is_flat, is_some, grid_apart, command_only_when}

module _ ⦃f : Floats⦄ (ieee : IsIeee f) where
  open f use {Double, lt, le, sub, neg, of_ℕ}

  clamp_discharge-within :
      (kw max_kw : Double)
      → le (clamp_discharge kw max_kw) (of_ℕ 0) ≡ false
      → lt max_kw (clamp_discharge kw max_kw) ≡ false
  unfolding clamp_discharge
  clamp_discharge-within kw max_kw h = ground (arith, ieee.zero-le-zero, ieee.lt_irrefl max_kw)

  -- What a command asks for is the negation of a power that is neither at most 0 nor more than
  -- the configured maximum.
  pub commanded_discharge :
      (e : StateEngine Double) (cfg : GatewayConfig Double) (t : Telemetry Double)
      (wants_alarm wants_command : Bool) (id ts : ℕ) {c : Command Double}
      → (state_engine_process_telemetry e cfg t wants_alarm wants_command id ts).1.command ≡ some c
      → (kw : Double) × (c.target_value ≡ neg kw)
        × (le kw (of_ℕ 0) ≡ false)
        × (lt cfg.max_discharge_kw kw ≡ false)
  commanded_discharge e cfg t wa wc id ts h =
      let (_, _, _, _, above, _, _, value, _) = command_only_when e cfg t wa wc id ts h in
      (
        clamp_discharge (sub t.value cfg.peak_shaving_threshold_kw) cfg.max_discharge_kw,
        value,
        above,
        clamp_discharge-within (sub t.value cfg.peak_shaving_threshold_kw) cfg.max_discharge_kw
            above,
      )

  clamp_discharge_positive :
      (kw max_kw : Double)
      → lt (of_ℕ 0) kw ≡ true
      → lt (of_ℕ 0) max_kw ≡ true
      → le (clamp_discharge kw max_kw) (of_ℕ 0) ≡ false
  unfolding clamp_discharge
  clamp_discharge_positive kw max_kw h k = ground (
    arith,
    ieee.lt_asym (of_ℕ 0) kw h,
    ieee.gt-not-le kw (of_ℕ 0) h,
    ieee.gt-not-le max_kw (of_ℕ 0) k,
  )

  -- A GOOD grid power above the threshold is answered with a command if the cells are not too hot,
  -- the charge is above its minimum, the maximal discharge is positive and a command is wanted.
  pub command_when :
      (e : StateEngine Double) (cfg : GatewayConfig Double) (t : Telemetry Double)
      (wants_alarm : Bool) (id ts : ℕ)
      → is_good t.quality ≡ true
      → t.point_id ≡ grid_point
      → is_hot cfg e ≡ false
      → is_flat cfg e ≡ false
      → lt cfg.peak_shaving_threshold_kw t.value ≡ true
      → lt (of_ℕ 0) cfg.max_discharge_kw ≡ true
      → let (e', out) = state_engine_process_telemetry e cfg t wants_alarm true id ts in
        (out.valid ≡ true) × (is_some out.command ≡ true)
  unfolding state_engine_process_telemetry
  command_when e cfg t wa id ts good at_grid cool charged above positive = ground (
    arith,
    str_eq_refl grid_point,
    grid_apart t.point_id,
    ieee.gt-not-le t.value cfg.peak_shaving_threshold_kw above,
    ieee.sub_pos t.value cfg.peak_shaving_threshold_kw above,
    clamp_discharge_positive (sub t.value cfg.peak_shaving_threshold_kw) cfg.max_discharge_kw,
  )

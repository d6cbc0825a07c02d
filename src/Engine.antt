-- ===== src/Engine.antt =====
-- runtime/state_engine.h and runtime/state_engine.c: the state machine, its alarms and the
-- peak-shaving strategy.
pub mod Outcome
pub mod Discharge
pub mod Alarms
mod Tests
use edgeflow_energy_gateway.Common.{
  ℕ, pos, ◌+◌, ◌%◌, ◌^◌, Bool, true, false, ◌&&◌, Option, none, some, if◌then◌else◌,
}
use edgeflow_energy_gateway.Floats.{Floats}
use edgeflow_energy_gateway.Text.{CString, literal, str_eq}
use edgeflow_energy_gateway.Model.Enums.{SystemState, Quality, good, bad, uncertain, major}
use edgeflow_energy_gateway.Model.Types.{Telemetry, AlarmEvent, Command, GatewayConfig}
use edgeflow_energy_gateway.Model.Build.{alarm_make, command_init_setpoint}

-- `state_engine_t`
pub record StateEngine (D : Type 0) : Type 0 where
  pub state : SystemState
  pub soc_percent : D
  pub max_cell_temp_c : D
  pub grid_power_kw : D
  pub next_alarm_id : ℕ

-- What a call leaves behind the caller's two pointers: the alarm or the command that it filled in,
-- if any. Both come from the caller zeroed.
pub record Output (D : Type 0) : Type 0 where
  pub valid : Bool
  pub alarm : Option AlarmEvent
  pub command : Option (Command D)

abbrev pub silent : {D : Type 0} → Output D
silent = record { valid = false; alarm = none; command = none }

abbrev pub soc_point : CString
soc_point = literal "soc_percent"

abbrev pub temp_point : CString
temp_point = literal "max_cell_temp_c"

abbrev pub grid_point : CString
grid_point = literal "grid_power_kw"

abbrev pub is_good : Quality → Bool
is_good good = true
is_good bad = false
is_good uncertain = false

module _ ⦃f : Floats⦄ where
  open f use {Double, lt, le, sub, neg, of_ℕ, decimal}

  unfoldable pub state_engine_init : StateEngine Double
  state_engine_init = record {
    state = SystemState.init;
    soc_percent = decimal 800 1;
    max_cell_temp_c = of_ℕ 0;
    grid_power_kw = of_ℕ 0;
    next_alarm_id = 1;
  }

  unfoldable pub update_snapshot : StateEngine Double → Telemetry Double → StateEngine Double
  update_snapshot engine t =
      if str_eq t.point_id soc_point
      then record engine { soc_percent = t.value }
      else if str_eq t.point_id temp_point
      then record engine { max_cell_temp_c = t.value }
      else if str_eq t.point_id grid_point
      then record engine { grid_power_kw = t.value }
      else engine

  unfoldable pub clamp_discharge : Double → Double → Double
  clamp_discharge kw max_kw = if lt kw (of_ℕ 0) then of_ℕ 0 else if lt max_kw kw then max_kw else kw

  -- `alarm_make` with `engine->next_alarm_id++`, and `return true`.
  unfoldable pub raise_alarm :
      StateEngine Double → ℕ → CString → CString → StateEngine Double × Output Double
  unfolding alarm_make
  raise_alarm engine ts_ms code message = (
    record engine { next_alarm_id = (engine.next_alarm_id + 1) % 2 ^ 64 },
    record {
      valid = true;
      alarm =
          alarm_make engine.next_alarm_id ts_ms (some (literal "bms_001")) (some code) major
            (some message);
      command = none;
    },
  )

  -- From `discharge_kw = …` on. A command is asked for if `command != NULL`.
  unfoldable pub shave_peak :
      StateEngine Double → GatewayConfig Double → Bool → ℕ → ℕ → StateEngine Double × Output Double
  unfolding clamp_discharge command_init_setpoint
  shave_peak engine cfg wants_command command_id ts_ms =
      let discharge_kw =
        clamp_discharge (sub engine.grid_power_kw cfg.peak_shaving_threshold_kw)
          cfg.max_discharge_kw in
      let command =
        command_init_setpoint command_id ts_ms (some (literal "pcs_001"))
          (some (literal "target_power_kw")) (neg discharge_kw) (pos 3) in
      if wants_command
      then (if le discharge_kw (of_ℕ 0) then (engine, silent) else elim command [
        | none ↦ (engine, silent)
        | some c ↦ (engine, record { valid = true; alarm = none; command = some c })
      ])
      else (engine, silent)

  -- From `engine->state = SYSTEM_STATE_RUNNING` on.
  unfoldable pub run_strategy :
      StateEngine Double
      → GatewayConfig Double
      → Telemetry Double
      → Bool
      → ℕ
      → ℕ
      → StateEngine Double × Output Double
  unfolding shave_peak
  run_strategy stale cfg t wants_command command_id ts_ms =
      let engine = record stale { state = SystemState.running } in
      if str_eq t.point_id grid_point
      then (if le engine.soc_percent cfg.min_discharge_soc
          then (engine, silent)
          else if le engine.grid_power_kw cfg.peak_shaving_threshold_kw
          then (engine, silent)
          else shave_peak engine cfg wants_command command_id ts_ms)
      else (engine, silent)

  -- From the test of the state of charge on.
  unfoldable pub check_soc :
      StateEngine Double
      → GatewayConfig Double
      → Telemetry Double
      → Bool
      → Bool
      → ℕ
      → ℕ
      → StateEngine Double × Output Double
  unfolding run_strategy raise_alarm
  check_soc engine cfg t wants_alarm wants_command command_id ts_ms =
      if le engine.soc_percent cfg.min_discharge_soc && (wants_alarm && str_eq t.point_id soc_point)
      then raise_alarm engine ts_ms (literal "BMS_SOC_LOW")
          (literal "SOC below minimum discharge threshold")
      else run_strategy engine cfg t wants_command command_id ts_ms

  -- `wants_alarm` and `wants_command` say whether the caller's pointers are not NULL.
  unfoldable pub state_engine_process_telemetry :
      StateEngine Double
      → GatewayConfig Double
      → Telemetry Double
      → Bool
      → Bool
      → ℕ
      → ℕ
      → StateEngine Double × Output Double
  unfolding update_snapshot check_soc
  state_engine_process_telemetry before cfg t wants_alarm wants_command command_id ts_ms =
      let engine = update_snapshot before t in
      let hot = record engine { state = SystemState.fault } in
      if is_good t.quality
      then (if lt cfg.temp_high engine.max_cell_temp_c
          then (if wants_alarm
              then raise_alarm hot ts_ms (literal "BMS_TEMP_HIGH")
                  (literal "max cell temperature exceeds limit")
              else check_soc hot cfg t wants_alarm wants_command command_id ts_ms)
          else check_soc engine cfg t wants_alarm wants_command command_id ts_ms)
      else (before, silent)

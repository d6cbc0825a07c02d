-- ===== src/Engine/Tests.antt =====
-- The theorems on the engine at concrete points.
use edgeflow_energy_gateway.Common.{
  ◌≡◌, refl, true, false, ◌&&◌, some, [], ℤ, pos, ◌+◌, ◌%◌, ◌^◌, if◌then◌else◌,
}
use edgeflow_energy_gateway.Common.Int.{◌-ℤ◌}
use edgeflow_energy_gateway.Floats.Scaled.{scaled, scaled-IsIeee}
use edgeflow_energy_gateway.Text.{str_eq, literal, copy_string}
use edgeflow_energy_gateway.Model.Enums.{
  SystemState, CommandState, AlarmState, major, set_point_value,
}
use edgeflow_energy_gateway.Model.Types.{AlarmEvent, Command}
use edgeflow_energy_gateway.Model.Samples.{sample_config, peak_point, hot_point, flat_point}
use edgeflow_energy_gateway.Engine.{
  StateEngine, is_good, soc_point, grid_point, update_snapshot, clamp_discharge, state_engine_init,
  state_engine_process_telemetry,
}
use edgeflow_energy_gateway.Engine.Outcome.{
  is_some, is_hot, is_flat, process-state, command_only_when,
}
use edgeflow_energy_gateway.Engine.Alarms.{Reason, alarm_only_when}
use edgeflow_energy_gateway.Engine.Discharge.{command_when}

abbrev engine : StateEngine ℤ
engine = record {
  state = SystemState.init;
  soc_percent = pos 800000;
  max_cell_temp_c = pos 0;
  grid_power_kw = pos 0;
  next_alarm_id = 1;
}

initial_engine : state_engine_init ≡ engine
unfolding state_engine_init
initial_engine = refl

process-state_example :
    let now = update_snapshot engine hot_point in
    (state_engine_process_telemetry engine sample_config hot_point true true 1 5).0.state ≡ (
      if is_hot sample_config now
      then SystemState.fault
      else if is_flat sample_config now && str_eq hot_point.point_id soc_point
      then engine.state
      else SystemState.running)
process-state_example = process-state engine sample_config hot_point 1 5 refl

-- 20 kW above the threshold of 100 kW.
abbrev shave : Command ℤ
shave = record {
  command_id = 1;
  created_ts_ms = 5;
  target_device_id = literal "pcs_001";
  type = set_point_value;
  state = CommandState.pending;
  point_id = literal "target_power_kw";
  target_value = ◌-ℤ◌ (pos 0) (pos 200000);
  retry_count = pos 0;
  max_retries = pos 3;
  result_message = [];
}

peak_commanded :
    (state_engine_process_telemetry engine sample_config peak_point true true 1 5).1.command
    ≡ some shave
unfolding state_engine_process_telemetry copy_string str_eq
peak_commanded = refl

abbrev flat_alarm : AlarmEvent
flat_alarm = record {
  alarm_id = 1;
  ts_ms = 5;
  device_id = literal "bms_001";
  code = literal "BMS_SOC_LOW";
  level = major;
  state = AlarmState.active;
  message = literal "SOC below minimum discharge threshold";
  recovered_ts_ms = 0;
}

flat_alarmed :
    (state_engine_process_telemetry engine sample_config flat_point true true 1 5).1.alarm
    ≡ some flat_alarm
unfolding state_engine_process_telemetry copy_string str_eq
flat_alarmed = refl

command_only_when_example :
    let now = update_snapshot engine peak_point in
    let kw = clamp_discharge (scaled.sub (pos 1200000) (pos 1000000)) (pos 300000) in
    (is_good peak_point.quality ≡ true)
    × (peak_point.point_id ≡ grid_point)
    × (is_flat sample_config now ≡ false)
    × (scaled.le (pos 1200000) (pos 1000000) ≡ false)
    × (scaled.le kw (scaled.of_ℕ 0) ≡ false)
    × (shave.command_id ≡ 1)
    × (shave.state ≡ CommandState.pending)
    × (shave.target_value ≡ scaled.neg kw)
    × (true ≡ true → is_hot sample_config now ≡ false)
command_only_when_example =
    command_only_when engine sample_config peak_point true true 1 5 peak_commanded

command_when_example :
    let (e', out) = state_engine_process_telemetry engine sample_config peak_point true true 1 5 in
    (out.valid ≡ true) × (is_some out.command ≡ true)
command_when_example =
    command_when scaled-IsIeee engine sample_config peak_point true 1 5 refl refl refl refl refl
      refl

alarm_only_when_example :
    let e' = (state_engine_process_telemetry engine sample_config flat_point true true 1 5).0 in
    (is_good flat_point.quality ≡ true)
    × (true ≡ true)
    × (flat_alarm.alarm_id ≡ engine.next_alarm_id)
    × (e'.next_alarm_id ≡ (engine.next_alarm_id + 1) % 2 ^ 64)
    × (flat_alarm.state ≡ AlarmState.active)
    × (flat_alarm.ts_ms ≡ 5)
    × Reason (update_snapshot engine flat_point) sample_config flat_point flat_alarm
alarm_only_when_example = alarm_only_when engine sample_config flat_point true true 1 5 flat_alarmed

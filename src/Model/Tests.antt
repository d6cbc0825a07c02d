-- ===== src/Model/Tests.antt =====
-- The theorems on the data model at concrete values.
use edgeflow_energy_gateway.Common.{◌≡◌, refl, some, none, List, [], ◌∷◌, pos, ℤ, arith}
use edgeflow_energy_gateway.Floats.Scaled.{scaled}
use edgeflow_energy_gateway.Text.{literal, copy_string}
use edgeflow_energy_gateway.Model.Enums.{major, active, pending, set_point_value}
use edgeflow_energy_gateway.Model.Types.{Command, AlarmEvent}
use edgeflow_energy_gateway.Model.Build.{command_init_setpoint, alarm_make}
use edgeflow_energy_gateway.Model.Health.{
  Collection, success, failure, history, trailing_failures, IsAt, history-IsAt,
}
use edgeflow_energy_gateway.Model.Samples.{sample_device}

abbrev outage : List Collection
outage = success 1 ∷ failure 2 none ∷ failure 3 none ∷ failure 4 (some (literal "timeout")) ∷ []

history-IsAt_example : IsAt (trailing_failures 0 outage) (history sample_device outage)
history-IsAt_example =
    history-IsAt outage 0 sample_device (omega arith) (record { failures = refl; state = refl })

abbrev setpoint : Command ℤ
setpoint = record {
  command_id = 1;
  created_ts_ms = 2;
  target_device_id = literal "pcs_001";
  type = set_point_value;
  state = pending;
  point_id = literal "target_power_kw";
  target_value = pos 10000;
  retry_count = pos 0;
  max_retries = pos 3;
  result_message = [];
}

setpoint_made :
    command_init_setpoint 1 2
      (some (literal "pcs_001"))
      (some (literal "target_power_kw"))
      (pos 10000)
      (pos 3)
    ≡ some setpoint
unfolding command_init_setpoint copy_string
setpoint_made = refl

abbrev alarm : AlarmEvent
alarm = record {
  alarm_id = 1;
  ts_ms = 2;
  device_id = literal "bms_001";
  code = literal "BMS_SOC_LOW";
  level = major;
  state = active;
  message = [];
  recovered_ts_ms = 0;
}

alarm_made :
    alarm_make 1 2 (some (literal "bms_001")) (some (literal "BMS_SOC_LOW")) major none ≡ some alarm
unfolding alarm_make copy_string
alarm_made = refl

-- ===== src/Model/Build.antt =====
-- The constructors of model/device_model.c. The result `none` is the return value -1, on which the
-- target keeps what it held; `char *` arguments that the code compares with NULL are options.
use edgeflow_energy_gateway.Common.{
  ℕ, ◌+◌, ◌%◌, ◌^◌, ℤ, pos, Option, none, some, [], leb, if◌then◌else◌,
}
use edgeflow_energy_gateway.Floats.{Floats}
use edgeflow_energy_gateway.Text.{CString, copy_string}
use edgeflow_energy_gateway.Model.Enums.{
  Protocol, OnlineState, PointType, AlarmLevel, active, good, pending, verified, set_point_value,
}
use edgeflow_energy_gateway.Model.Types.{
  id_max, name_max, unit_max, message_max, Device, Point, Telemetry, AlarmEvent, Command,
}

unfoldable pub device_init : Option CString → Option CString → Protocol → Option Device
device_init none name protocol = none
device_init (some id) none protocol = none
device_init (some id) (some name) protocol = some (record {
  id = copy_string id_max (some id);
  name = copy_string name_max (some name);
  protocol = protocol;
  online_state = OnlineState.unknown;
  last_seen_ms = 0;
  consecutive_failures = 0;
  last_error = [];
})

-- Collection succeeded.
unfoldable pub device_mark_online : Device → ℕ → Device
device_mark_online device ts_ms = record device {
  online_state = OnlineState.online;
  last_seen_ms = ts_ms;
  consecutive_failures = 0;
  last_error = [];
}

-- The state after `failures` failures in a row; `was` is kept where the counter has wrapped to 0.
unfoldable pub degrade : ℕ → OnlineState → OnlineState
degrade failures was =
    if leb 3 failures
    then OnlineState.offline
    else if leb 1 failures
    then OnlineState.degraded
    else was

-- Collection failed; the counter is a `uint32_t`.
unfoldable pub device_mark_failure : Device → ℕ → Option CString → Device
unfolding degrade
device_mark_failure device ts_ms error =
    let failures = (device.consecutive_failures + 1) % 2 ^ 32 in
    record device {
      online_state = degrade failures device.online_state;
      last_seen_ms = ts_ms;
      consecutive_failures = failures;
      last_error = copy_string message_max error;
    }

unfoldable pub alarm_make :
    ℕ → ℕ → Option CString → Option CString → AlarmLevel → Option CString → Option AlarmEvent
alarm_make alarm_id ts_ms none code level message = none
alarm_make alarm_id ts_ms (some device_id) none level message = none
alarm_make alarm_id ts_ms (some device_id) (some code) level message = some (record {
  alarm_id = alarm_id;
  ts_ms = ts_ms;
  device_id = copy_string id_max (some device_id);
  code = copy_string id_max (some code);
  level = level;
  state = active;
  message = copy_string message_max message;
  recovered_ts_ms = 0;
})

unfoldable pub command_mark_verified : {D : Type 0} → Command D → Option CString → Command D
command_mark_verified command message = record command {
  state = verified;
  result_message = copy_string message_max message;
}

module _ ⦃f : Floats⦄ where
  open f use {Double, add, mul, of_ℕ}

  unfoldable pub point_init :
      Option CString
      → Option CString
      → Option CString
      → PointType
      → Option CString
      → Double
      → Double
      → Option (Point Double)
  point_init (some id) (some device_id) (some name) type unit scale offset = some (record {
    id = copy_string id_max (some id);
    device_id = copy_string id_max (some device_id);
    name = copy_string name_max (some name);
    type = type;
    unit = copy_string unit_max unit;
    scale = scale;
    offset = offset;
    low_limit = of_ℕ 0;
    high_limit = of_ℕ 0;
  })
  point_init _ _ _ _ _ _ _ = none

  -- The point may be NULL.
  unfoldable pub point_raw_to_engineering : Option (Point Double) → Double → Double
  point_raw_to_engineering none raw_value = raw_value
  point_raw_to_engineering (some point) raw_value = add (mul raw_value point.scale) point.offset

  unfoldable pub telemetry_init :
      ℕ → Option CString → Option CString → Double → Option CString → ℕ → Telemetry Double
  telemetry_init ts_ms device_id point_id value unit source_id = record {
    ts_ms = ts_ms;
    device_id = copy_string id_max device_id;
    point_id = copy_string id_max point_id;
    value = value;
    unit = copy_string unit_max unit;
    quality = good;
    source_id = source_id;
  }

  unfoldable pub command_init_setpoint :
      ℕ → ℕ → Option CString → Option CString → Double → ℤ → Option (Command Double)
  command_init_setpoint command_id created_ts_ms (some target) (some point) value (pos n) =
      some (record {
        command_id = command_id;
        created_ts_ms = created_ts_ms;
        target_device_id = copy_string id_max (some target);
        type = set_point_value;
        state = pending;
        point_id = copy_string id_max (some point);
        target_value = value;
        retry_count = pos 0;
        max_retries = pos n;
        result_message = [];
      })
  command_init_setpoint _ _ _ _ _ _ = none

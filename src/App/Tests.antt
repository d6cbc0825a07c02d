-- ===== src/App/Tests.antt =====
-- The theorems on the worker for an application that has an over-temperature in its ring.
use edgeflow_energy_gateway.Common.{◌≡◌, ◌≤◌, ◌<◌, refl, true, false, none, some, [], ◌∷◌, ℤ, pos}
use edgeflow_energy_gateway.Floats.Scaled.{scaled}
use edgeflow_energy_gateway.Text.{literal, copy_string, str_eq}
use edgeflow_energy_gateway.Model.Enums.{SystemState, AlarmState, major}
use edgeflow_energy_gateway.Model.Types.{AlarmEvent}
use edgeflow_energy_gateway.Model.Samples.{sample_config, cool_point, hot_point, flat_point}
use edgeflow_energy_gateway.Engine.{StateEngine, state_engine_process_telemetry}
use edgeflow_energy_gateway.Storage.Memory.{Table, memory}
use edgeflow_energy_gateway.Mqtt.Wire.{Transport, failed}
use edgeflow_energy_gateway.Mqtt.Session.{mqtt_session_init, mqtt_session_replay_pending}
use edgeflow_energy_gateway.Mqtt.Session.Replay.{replay_pending-le}
use edgeflow_energy_gateway.Storage.{row_of}
use edgeflow_energy_gateway.Text.{copy_string}
use edgeflow_energy_gateway.App.{Env, GatewayApp, apply_quality_rules, worker_point, worker_step}
use edgeflow_energy_gateway.App.Quality.{
  IsCool, engine_step, step-alarm, worker_point-engine, worker_step-IsCool,
}

-- A network that is down.
abbrev offline : Transport Table
offline = record {
  socket = λ w. (none, w);
  is_address = λ host. true;
  connect = λ fd host port w. (false, w);
  close = λ fd w. w;
  write = λ fd bytes w. (failed, w);
  read = λ fd n w. (none, w);
  patience = λ w. 0;
}

abbrev env : Env Table ℤ
env = record {
  sqlite = memory;
  net = offline;
  now_ms = λ w. (2000, w);
  write_metrics = λ path m w. w;
}

abbrev engine : StateEngine ℤ
engine = record {
  state = SystemState.running;
  soc_percent = pos 800000;
  max_cell_temp_c = pos 0;
  grid_power_kw = pos 0;
  next_alarm_id = 1;
}

engine-IsCool : IsCool sample_config engine
engine-IsCool = record { cool = refl; calm = λ e. cc }

-- 60 degrees wait in the ring; the limit is 55.
abbrev app : GatewayApp Table ℤ
app = record {
  cfg = sample_config;
  registry = [];
  ring = record {
    buf = some (hot_point ∷ cool_point ∷ []);
    size = 2;
    head = 1;
    tail = 0;
    dropped = 0;
  };
  state_engine = engine;
  command_scheduler = record { queue = []; next_command_id = 1 };
  metrics = record {
    ingress_points = 1;
    processed_points = 0;
    mqtt_publish_ok = 0;
    mqtt_publish_fail = 0;
    mqtt_replay_total = 0;
    queue_depth = 1;
    queue_dropped = 0;
    storage_pending_count = 0;
    heartbeat_ingress_age_ms = 0;
    heartbeat_worker_age_ms = 0;
    heartbeat_monitor_age_ms = 0;
  };
  storage = record { cfg = sample_config; has_db = true };
  mqtt = mqtt_session_init sample_config;
  heartbeat = record { ingress_ms = 1000; worker_ms = 1000; monitor_ms = 1000 };
}

worker_point-engine_example :
    let app' = (worker_point env hot_point 0 app []).1 in
    (app'.cfg ≡ sample_config)
    × (app'.state_engine ≡ (engine_step sample_config 1 engine hot_point).0)
worker_point-engine_example = worker_point-engine env hot_point 0 app []

worker_step-IsCool_example :
    let app' = (worker_step env cool_point 0 app []).1 in IsCool app'.cfg app'.state_engine
worker_step-IsCool_example = worker_step-IsCool env cool_point 0 app [] engine-IsCool

-- The same point without the quality rule.
fault_without_rule :
    (state_engine_process_telemetry engine sample_config hot_point true true 1 5).0.state
    ≡ SystemState.fault
unfolding state_engine_process_telemetry str_eq
fault_without_rule = refl

abbrev flat_alarm : AlarmEvent
flat_alarm = record {
  alarm_id = 1;
  ts_ms = 5;
  device_id = literal "bms_001";
  code = literal "BMS_SOC_LOW";
  level = major;
  state = AlarmState.active;
  message = literal "SOC below minimum discharge threshold";
  recovered_ts_ms = 0;
}

flat_alarmed : (engine_step sample_config 1 engine flat_point).1.alarm ≡ some flat_alarm
unfolding engine_step state_engine_process_telemetry apply_quality_rules copy_string str_eq
flat_alarmed = refl

step-alarm_example : flat_alarm.code ≡ literal "BMS_SOC_LOW"
step-alarm_example = step-alarm sample_config 1 engine flat_point engine-IsCool flat_alarmed

abbrev waiting_row : Table
waiting_row = record { id = 1; row = row_of cool_point; uploaded = false } ∷ []

-- With the network down nothing is replayed.
replay_pending-le_example :
    let n =
      (mqtt_session_replay_pending offline memory app.storage app.mqtt app.metrics waiting_row).0 in
    (n ≤ 64)
    × (app.mqtt.cfg.mqtt_replay_batch ≡ 0 → n ≤ 50)
    × (0 < app.mqtt.cfg.mqtt_replay_batch → n ≤ app.mqtt.cfg.mqtt_replay_batch)
replay_pending-le_example =
    replay_pending-le offline memory app.storage app.mqtt app.metrics waiting_row

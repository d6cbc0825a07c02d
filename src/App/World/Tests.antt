-- ===== src/App/World/Tests.antt =====
-- The theorems on the world outside at the database in memory.
use edgeflow_energy_gateway.Common.{
  ℕ, refl, ap, sym, some-injective, true, false, Option, none, some, List, [], ◌∷◌, ◌++◌, ℤ, ◌≡◌,
  length, ◌&&◌, if◌then◌else◌,
}
use edgeflow_energy_gateway.Floats.Scaled.{scaled}
use edgeflow_energy_gateway.Text.{literal}
use edgeflow_energy_gateway.Model.Enums.{Protocol}
use edgeflow_energy_gateway.Model.Types.{Telemetry}
use edgeflow_energy_gateway.Model.Samples.{sample_config, flat_point, peak_point, cool_point}
use edgeflow_energy_gateway.Engine.{state_engine_init}
use edgeflow_energy_gateway.Adapter.{AdapterInfo, DeviceAdapter}
use edgeflow_energy_gateway.Scheduler.{command_scheduler_init}
use edgeflow_energy_gateway.Storage.{row_of, storage_append_telemetry, jsonl_append_telemetry}
use edgeflow_energy_gateway.Storage.Memory.{Table, memory, memory-IsDatabase}
use edgeflow_energy_gateway.Metrics.{metrics_init, count_up}
use edgeflow_energy_gateway.Heartbeat.{heartbeat_registry_init}
use edgeflow_energy_gateway.Mqtt.Wire.{wrote, failed}
use edgeflow_energy_gateway.Mqtt.Session.{mqtt_session_init, mqtt_session_publish_telemetry}
use edgeflow_energy_gateway.Watchdog.{Notify, watchdog_start}
use edgeflow_energy_gateway.App.{Env, apply_quality_rules, worker_point, judge}
use edgeflow_energy_gateway.App.Start.{Round, Running, rounds}
use edgeflow_energy_gateway.App.World.Leaves.{CallsLeave, NetLeaves, AdapterLeaves}
use edgeflow_energy_gateway.Storage.Pending.{Awaits}
use edgeflow_energy_gateway.App.World.Offline.{rounds-Awaits}
use edgeflow_energy_gateway.App.World.Worker.{worker_point-stores}

-- No broker, no service manager.
abbrev island : Env Table ℤ
island = record {
  sqlite = memory;
  net = record {
    socket = λ w. (none, w);
    is_address = λ host. true;
    connect = λ fd host port w. (false, w);
    close = λ fd w. w;
    write = λ fd bytes w. (failed, w);
    read = λ fd n w. (none, w);
    patience = λ w. 0;
  };
  now_ms = λ w. (2000, w);
  write_metrics = λ path m w. w;
}

abbrev alone : Notify Table
alone = record {
  path = none;
  socket = λ w. (none, w);
  connect = λ fd path w. (false, w);
  write = λ fd text w. w;
  close = λ fd w. w;
}

-- An adapter that yields two points at each poll.
abbrev sensor : DeviceAdapter Table ℤ
sensor = record {
  info = record { name = literal "sensor"; protocol = Protocol.modbus_rtu; source_id = 2 };
  init = none;
  shutdown = none;
  poll = some (λ info room w. (some (flat_point ∷ peak_point ∷ []), w));
  write_command = none;
}

sensor_apart : AdapterLeaves (λ w. w) sensor
sensor_apart = record {
  poll = λ call e info room w.
      ap (λ (c : AdapterInfo → ℕ → Table → Option (List (Telemetry ℤ)) × Table). (c info room w).1)
        (sym (some-injective _ call e));
  write_command = λ call e. cc;
  init = λ call e. cc;
  shutdown = λ call e. cc;
}

abbrev stationed : Running Table ℤ
stationed = record {
  app = record {
    cfg = sample_config;
    registry = sensor ∷ [];
    ring = record {
      buf = some (flat_point ∷ flat_point ∷ []);
      size = 2;
      head = 0;
      tail = 0;
      dropped = 0;
    };
    state_engine = state_engine_init;
    command_scheduler = command_scheduler_init;
    metrics = metrics_init;
    storage = record { cfg = sample_config; has_db = true };
    mqtt = mqtt_session_init sample_config;
    heartbeat = heartbeat_registry_init 1000;
  };
  last = 0;
  world = record { id = 1; row = row_of cool_point; uploaded = false } ∷ [];
}

calls_apart : CallsLeave island alone (λ w. w)
calls_apart = record {
  now_ms = λ w. refl;
  write_metrics = λ path m w. refl;
  notify_write = λ fd text w. refl;
  notify_socket = λ w. refl;
  notify_connect = λ fd path w. refl;
  notify_close = λ fd w. refl;
}

-- The same with a broker that takes every connection and every packet.
abbrev mainland : Env Table ℤ
mainland = record island {
  net = record {
    socket = λ w. (some 3, w);
    is_address = λ host. true;
    connect = λ fd host port w. (true, w);
    close = λ fd w. w;
    write = λ fd bytes w. (wrote (length bytes), w);
    read = λ fd n w. (some (32 ∷ 2 ∷ 0 ∷ 0 ∷ []), w);
    patience = λ w. 0;
  };
}

mainland_apart : NetLeaves mainland.net (λ w. w)
mainland_apart = record {
  socket = λ w. refl;
  connect = λ fd host port w. refl;
  close = λ fd w. refl;
  write = λ fd bytes w. refl;
  read = λ fd n w. refl;
}

mainland_calls : CallsLeave mainland alone (λ w. w)
mainland_calls = record {
  now_ms = λ w. refl;
  write_metrics = λ path m w. refl;
  notify_write = λ fd text w. refl;
  notify_socket = λ w. refl;
  notify_connect = λ fd path w. refl;
  notify_close = λ fd w. refl;
}

net_apart : NetLeaves island.net (λ w. w)
net_apart = record {
  socket = λ w. refl;
  connect = λ fd host port w. refl;
  close = λ fd w. refl;
  write = λ fd bytes w. refl;
  read = λ fd n w. refl;
}

-- A round of each thread.
abbrev day : List Round
day = Round.ingress ∷ Round.worker ∷ Round.monitor ∷ []

rounds-Awaits_example :
    Awaits stationed.world (rounds island alone watchdog_start flat_point stationed day).world
rounds-Awaits_example =
    rounds-Awaits island alone (λ w. w) memory-IsDatabase calls_apart net_apart
      (λ fd host port w. refl) watchdog_start flat_point stationed day (sensor_apart, tt) refl

second_row :
    (storage_append_telemetry memory stationed.app.storage
      (apply_quality_rules stationed.app.cfg peak_point)
      stationed.world).0
    ≡ some 2
unfolding storage_append_telemetry jsonl_append_telemetry
second_row = refl

worker_point-stores_example :
    let p = apply_quality_rules stationed.app.cfg peak_point in
    let (row, w₁) = storage_append_telemetry memory stationed.app.storage p stationed.world in
    let m = stationed.app.metrics in
    let app₁ = record stationed.app {
      metrics = record m { processed_points = count_up m.processed_points };
    } in
    let (app₂, w₂) = judge mainland app₁ p w₁ in
    let (sent, s, w₃) = mqtt_session_publish_telemetry mainland.net p app₂.mqtt w₂ in
    let marked = (memory.mark_uploaded 2 w₃).0 in
    let (last', app', w') = worker_point mainland peak_point 0 stationed.app stationed.world in
    let m' = app'.metrics in
    (w' ≡ stationed.world ++ (record { id = 2; row = row_of p; uploaded = sent && marked } ∷ []))
    × (m'.mqtt_publish_ok ≡ (if sent then count_up m.mqtt_publish_ok else m.mqtt_publish_ok))
    × (m'.mqtt_publish_fail ≡ (if sent then m.mqtt_publish_fail else count_up m.mqtt_publish_fail))
worker_point-stores_example =
    worker_point-stores mainland alone (λ w. w) memory-IsDatabase mainland_calls mainland_apart
      peak_point 0 stationed.app stationed.world 2 (sensor_apart, tt) refl second_row

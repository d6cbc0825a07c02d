-- ===== src/App/Start/Tests.antt =====
-- The theorems on the whole gateway, from its start on, and on its monitor thread.
use edgeflow_energy_gateway.Common.{
  ℕ, ◌+◌, ◌-◌, ◌%◌, ◌^◌, arith, ◌≡◌, ◌≤◌, refl, true, false, none, some, List, [], ◌∷◌, length, ℤ,
}
use edgeflow_energy_gateway.Floats.Scaled.{scaled}
use edgeflow_energy_gateway.Text.{literal, str_eq}
use edgeflow_energy_gateway.Model.Samples.{sample_config, flat_point}
use edgeflow_energy_gateway.Mqtt.Wire.{Transport, failed}
use edgeflow_energy_gateway.Mqtt.Session.{mqtt_session_init}
use edgeflow_energy_gateway.Storage.{Sqlite, storage_open}
use edgeflow_energy_gateway.Model.Enums.{Protocol}
use edgeflow_energy_gateway.Model.Types.{GatewayConfig}
use edgeflow_energy_gateway.Ring.{spsc_ring_init, spsc_ring_count}
use edgeflow_energy_gateway.Engine.{state_engine_init}
use edgeflow_energy_gateway.Adapter.{
  DeviceAdapter, adapter_registry_register, adapter_registry_init_all, adapter_registry_poll_all,
}
use edgeflow_energy_gateway.Scheduler.{command_scheduler_init}
use edgeflow_energy_gateway.Metrics.{metrics_init}
use edgeflow_energy_gateway.Heartbeat.{heartbeat_registry_init}
use edgeflow_energy_gateway.Modbus.Client.{Libmodbus, client_start}
use edgeflow_energy_gateway.Modbus.Plugin.{Statics, modbus_init, modbus_adapter_fill}
use edgeflow_energy_gateway.Watchdog.{Notify, watchdog_start}
use edgeflow_energy_gateway.App.Life.{gateway_app_init, init_ring, init_registry}
use edgeflow_energy_gateway.Reactor.{Epoll, ready}
use edgeflow_energy_gateway.Reactor.Descriptors.{CountsDescriptors}
use edgeflow_energy_gateway.App.MonitorLoop.{monitor_main}
use edgeflow_energy_gateway.App.MonitorLoop.Descriptors.{timers-monitor_main}
use edgeflow_energy_gateway.App.Books.Start.{gateway_app_init-balance}
use edgeflow_energy_gateway.App.World.Leaves.{CallsLeave, NetLeaves, StatementsLeave}
use edgeflow_energy_gateway.App.Start.{Round, rounds, gateway_app_init-rounds}
use edgeflow_energy_gateway.App.{Env, GatewayApp}

-- The whole gateway over the adapters' static variables, with the clock as the world outside, a
-- library that makes no context, a database that answers nothing and no service manager.
abbrev World : Type 0
World = Statics ℕ ℤ

abbrev clock : ℕ → ℕ × ℕ
clock now = (now, now + 1)

abbrev no_library : Libmodbus ℕ
no_library = record {
  new_tcp = λ host port w. (none, w);
  new_rtu = λ device baud parity size stop w. (none, w);
  set_slave = λ ctx id w. w;
  set_response_timeout = λ ctx s us w. w;
  connect = λ ctx w. (false, w);
  close = λ ctx w. w;
  free = λ ctx w. w;
  read_registers = λ ctx first n w. (none, w);
}

abbrev mute : Sqlite World ℤ
mute = record {
  open_db = λ path w. (true, w);
  exec_schema = λ w. (true, w);
  close_db = λ w. w;
  insert_telemetry = λ r w. (none, w);
  insert_alarm = λ a text w. (false, w);
  insert_command = λ c text w. (false, w);
  select_pending = λ n w. (none, w);
  mark_uploaded = λ id w. (false, w);
  count_pending = λ w. (none, w);
  append_line = λ path text w. (true, w);
}

abbrev cut_off : Transport World
cut_off = record {
  socket = λ w. (none, w);
  is_address = λ host. true;
  connect = λ fd host port w. (false, w);
  close = λ fd w. w;
  write = λ fd bytes w. (failed, w);
  read = λ fd n w. (none, w);
  patience = λ w. 0;
}

abbrev plant : Env World ℤ
plant = record {
  sqlite = mute;
  net = cut_off;
  now_ms = λ w. let (now, v) = clock w.outside in (now, record w { outside = v });
  write_metrics = λ path m w. w;
}

abbrev unmanaged : Notify World
unmanaged = record {
  path = none;
  socket = λ w. (none, w);
  connect = λ fd path w. (false, w);
  write = λ fd text w. w;
  close = λ fd w. w;
}

abbrev power_on : World
power_on = record {
  sim_seq = 0;
  modbus_cfg = none;
  client = client_start;
  stub_seq = 0;
  stub_cfg = none;
  outside = 1000;
}

abbrev two_slots : GatewayConfig ℤ
two_slots = record sample_config { queue_size = 2 }

abbrev modbus_of : GatewayConfig ℤ → DeviceAdapter World ℤ
modbus_of cfg = record (modbus_adapter_fill clock no_library) {
  info = record { name = literal "modbus"; protocol = Protocol.modbus_rtu; source_id = 2 };
}

-- What `gateway_app_init` returns then.
abbrev started : GatewayApp World ℤ
started = record {
  cfg = two_slots;
  registry = modbus_of two_slots ∷ [];
  ring = record {
    buf = some (flat_point ∷ flat_point ∷ []);
    size = 2;
    head = 0;
    tail = 0;
    dropped = 0;
  };
  state_engine = state_engine_init;
  command_scheduler = command_scheduler_init;
  metrics = metrics_init;
  storage = record { cfg = two_slots; has_db = true };
  mqtt = mqtt_session_init two_slots;
  heartbeat = heartbeat_registry_init 1000;
}

starts :
    (gateway_app_init plant unmanaged
      (modbus_adapter_fill clock no_library)
      flat_point
      (record { for_storage = true; for_ring = true })
      two_slots
      watchdog_start
      power_on).0
    ≡ some started
unfolding gateway_app_init storage_open init_registry init_ring adapter_registry_register
    adapter_registry_init_all modbus_adapter_fill modbus_init spsc_ring_init str_eq
starts = refl

abbrev turns : List Round
turns = Round.ingress ∷ Round.worker ∷ Round.monitor ∷ Round.worker ∷ []

gateway_app_init-rounds_example :
    let r =
      rounds plant unmanaged watchdog_start flat_point
        (record { app = started; last = 0; world = power_on })
        turns in
    (r.app.command_scheduler.queue ≡ [])
    × (length (adapter_registry_poll_all r.app.registry 8 r.world).0 ≤ 8)
gateway_app_init-rounds_example =
    gateway_app_init-rounds clock no_library plant unmanaged flat_point flat_point
      (record { for_storage = true; for_ring = true }) two_slots watchdog_start watchdog_start
      power_on power_on 0 turns starts

-- A timer that goes off at every wait; nothing counts its descriptors here.
abbrev ticking : Epoll World
ticking = record {
  create = λ w. (some 4, w);
  create_timer = λ w. (some 5, w);
  add = λ epfd fd w. (true, w);
  set_timer = λ fd s ns w. (true, w);
  wait = λ epfd n ms w. (ready (5 ∷ []), w);
  read_expirations = λ fd w. (true, w);
  close = λ fd w. w;
}

-- The same with the number of open descriptors as the world.
abbrev counted : Epoll ℕ
counted = record {
  create = λ w. (some 4, w + 1);
  create_timer = λ w. (some 5, w + 1);
  add = λ epfd fd w. (true, w);
  set_timer = λ fd s ns w. (true, w);
  wait = λ epfd n ms w. (ready (5 ∷ []), w);
  read_expirations = λ fd w. (true, w);
  close = λ fd w. w - 1;
}

counted-CountsDescriptors : CountsDescriptors counted (λ w. w)
counted-CountsDescriptors = record {
  created = λ w fd h. refl;
  not_created = λ w h. cc;
  timer_created = λ w fd h. refl;
  timer_not_created = λ w h. cc;
  open_fds-add = λ epfd fd w. refl;
  open_fds-set_timer = λ fd s ns w. refl;
  open_fds-wait = λ epfd n ms w. refl;
  open_fds-read = λ fd w. refl;
  open_fds-close = λ fd w h. omega arith;
}

abbrev idle_env : Env ℕ ℤ
idle_env = record {
  sqlite = record {
    open_db = λ path w. (true, w);
    exec_schema = λ w. (true, w);
    close_db = λ w. w;
    insert_telemetry = λ r w. (none, w);
    insert_alarm = λ a text w. (false, w);
    insert_command = λ c text w. (false, w);
    select_pending = λ n w. (none, w);
    mark_uploaded = λ id w. (false, w);
    count_pending = λ w. (none, w);
    append_line = λ path text w. (true, w);
  };
  net = record {
    socket = λ w. (none, w);
    is_address = λ host. true;
    connect = λ fd host port w. (false, w);
    close = λ fd w. w;
    write = λ fd bytes w. (failed, w);
    read = λ fd n w. (none, w);
    patience = λ w. 0;
  };
  now_ms = λ w. (2000, w);
  write_metrics = λ path m w. w;
}

abbrev no_manager : Notify ℕ
no_manager = record {
  path = none;
  socket = λ w. (none, w);
  connect = λ fd path w. (false, w);
  write = λ fd text w. w;
  close = λ fd w. w;
}

abbrev empty_gateway : GatewayApp ℕ ℤ
empty_gateway = record {
  cfg = two_slots;
  registry = [];
  ring = started.ring;
  state_engine = started.state_engine;
  command_scheduler = started.command_scheduler;
  metrics = started.metrics;
  storage = started.storage;
  mqtt = started.mqtt;
  heartbeat = started.heartbeat;
}

idle_calls : CallsLeave idle_env no_manager (λ w. w)
idle_calls = record {
  now_ms = λ w. refl;
  write_metrics = λ path m w. refl;
  notify_write = λ fd text w. refl;
  notify_socket = λ w. refl;
  notify_connect = λ fd path w. refl;
  notify_close = λ fd w. refl;
}

idle_net : NetLeaves idle_env.net (λ w. w)
idle_net = record {
  socket = λ w. refl;
  connect = λ fd host port w. refl;
  close = λ fd w. refl;
  write = λ fd bytes w. refl;
  read = λ fd n w. refl;
}

idle_statements : StatementsLeave idle_env.sqlite (λ w. w)
idle_statements = record {
  append_line = λ path line w. refl;
  insert_telemetry = λ r w. refl;
  insert_alarm = λ a text w. refl;
  insert_command = λ c text w. refl;
  select_pending = λ n w. refl;
  mark_uploaded = λ id w. refl;
  count_pending = λ w. refl;
}

timers-monitor_main_example :
    (monitor_main idle_env no_manager counted
      (λ w. (true, w))
      (λ ms w. w)
      true
      watchdog_start
      3
      empty_gateway
      6).1
    ≡ 6
timers-monitor_main_example =
    timers-monitor_main idle_env no_manager counted (λ w. (true, w)) (λ ms w. w) (λ w. w)
      counted-CountsDescriptors idle_calls idle_net idle_statements (λ w. refl) (λ ms w. refl) true
      watchdog_start 3 empty_gateway 6

gateway_app_init-balance_example :
    let r =
      rounds plant unmanaged watchdog_start flat_point
        (record { app = started; last = 0; world = power_on })
        turns in
    let m = r.app.metrics in
    (m.ingress_points ≡ (m.processed_points + spsc_ring_count r.app.ring) % 2 ^ 64)
    × (m.processed_points ≡ (m.mqtt_publish_ok + m.mqtt_publish_fail) % 2 ^ 64)
gateway_app_init-balance_example =
    gateway_app_init-balance plant unmanaged (modbus_adapter_fill clock no_library) flat_point
      flat_point (record { for_storage = true; for_ring = true }) two_slots watchdog_start
      watchdog_start power_on power_on 0 turns (omega arith) starts

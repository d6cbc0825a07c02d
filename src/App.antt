-- ===== src/App.antt =====
-- runtime/app.h and runtime/app.c: what the worker thread does with each point, and the ingress
-- thread with each round of polling. Log output is not modelled.
pub mod Quality
pub mod Monitor
pub mod Life
pub mod Invariant
pub mod Start
pub mod Fixed
pub mod Books
pub mod World
pub mod MonitorLoop
mod Tests
use edgeflow_energy_gateway.Common.{
  ℕ, zero, ◌+◌, ◌-◌, ◌%◌, ◌^◌, Bool, true, false, Option, none, some, List, [], ◌∷◌, ltb, ◌==◌,
  ◌&&◌, not, if◌then◌else◌,
}
use edgeflow_energy_gateway.Floats.{Floats}
use edgeflow_energy_gateway.Text.{CString, str_eq}
use edgeflow_energy_gateway.Model.Enums.{Protocol, bad}
use edgeflow_energy_gateway.Model.Types.{Telemetry, AlarmEvent, Command, GatewayConfig}
use edgeflow_energy_gateway.Ring.{
  Ring, spsc_ring_push, spsc_ring_pop, spsc_ring_count, spsc_ring_dropped,
}
use edgeflow_energy_gateway.Engine.{StateEngine, Output, temp_point, state_engine_process_telemetry}
use edgeflow_energy_gateway.Adapter.{
  DeviceAdapter, Registry, adapter_registry_find, adapter_registry_poll_all,
}
use edgeflow_energy_gateway.Scheduler.{
  CommandScheduler, command_scheduler_submit, command_scheduler_tick,
}
use edgeflow_energy_gateway.Storage.{
  Sqlite, StorageCtx, storage_append_telemetry, storage_append_alarm, storage_append_command,
  storage_mark_telemetry_uploaded, storage_pending_telemetry_count,
}
use edgeflow_energy_gateway.Metrics.{GatewayMetrics, count_up, to_uint}
use edgeflow_energy_gateway.Heartbeat.{
  HeartbeatRegistry, HeartbeatThread, heartbeat_touch, heartbeat_age_ms,
}
use edgeflow_energy_gateway.Mqtt.Wire.{Transport}
use edgeflow_energy_gateway.Mqtt.Session.{MqttSession, mqtt_session_publish_telemetry}

-- The outside of the process: the database, the network, the clock and the metrics file.
pub record Env (W D : Type 0) : Type 0 where
  pub sqlite : Sqlite W D
  pub net : Transport W
  pub now_ms : W → ℕ × W
  pub write_metrics : CString → GatewayMetrics → W → W

-- `gateway_app_t`, without its threads; `storage` is open while they run.
pub record GatewayApp (W D : Type 0) : Type 0 where
  pub cfg : GatewayConfig D
  pub registry : Registry W D
  pub ring : Ring (Telemetry D)
  pub state_engine : StateEngine D
  pub command_scheduler : CommandScheduler D
  pub metrics : GatewayMetrics
  pub storage : StorageCtx D
  pub mqtt : MqttSession D
  pub heartbeat : HeartbeatRegistry

abbrev pub row_or_zero : Option ℕ → ℕ
row_or_zero none = 0
row_or_zero (some id) = id

abbrev pub is_empty : CString → Bool
is_empty [] = true
is_empty (c ∷ s) = false

unfoldable pub find_modbus_adapter : {W D : Type 0} → Registry W D → Option (DeviceAdapter W D)
find_modbus_adapter reg = elim (adapter_registry_find reg Protocol.modbus_rtu) [
  | some a ↦ some a
  | none ↦ adapter_registry_find reg Protocol.modbus_tcp
]

module _ ⦃f : Floats⦄ where
  open f use {Double, lt}

  unfoldable pub apply_quality_rules : GatewayConfig Double → Telemetry Double → Telemetry Double
  apply_quality_rules cfg point =
      if str_eq point.point_id temp_point && lt cfg.temp_high point.value
      then record point { quality = bad }
      else point

module _ {W : Type 0} ⦃f : Floats⦄ where
  open f use {Double}

  unfoldable pub update_heartbeat_metrics :
      Env W Double → GatewayApp W Double → W → GatewayApp W Double × W
  update_heartbeat_metrics env app w =
      let (t₁, w₁) = env.now_ms w in
      let (t₂, w₂) = env.now_ms w₁ in
      let (t₃, w₃) = env.now_ms w₂ in
      let m = record app.metrics {
        heartbeat_ingress_age_ms =
            to_uint (heartbeat_age_ms app.heartbeat HeartbeatThread.ingress t₁);
        heartbeat_worker_age_ms =
            to_uint (heartbeat_age_ms app.heartbeat HeartbeatThread.worker t₂);
        heartbeat_monitor_age_ms =
            to_uint (heartbeat_age_ms app.heartbeat HeartbeatThread.monitor t₃);
      } in
      (record app { metrics = m }, w₃)

  -- The database's part of `if (alarm.alarm_id != 0U)`.
  unfoldable pub store_alarm : Env W Double → StorageCtx Double → Option AlarmEvent → W → W
  store_alarm env ctx none w = w
  store_alarm env ctx (some a) w =
      if a.alarm_id == 0 then w else (storage_append_alarm env.sqlite ctx a w).1

  -- The scheduler's part of `if (command.point_id[0] != '\0')`.
  unfoldable pub run_command :
      Env W Double
      → StorageCtx Double
      → Registry W Double
      → Command Double
      → CommandScheduler Double
      → W
      → CommandScheduler Double × W
  run_command env ctx reg c s w =
      let store = λ (d : Command Double) (v : W). (storage_append_command env.sqlite ctx d v).1 in
      elim (command_scheduler_submit s c) [
        | none ↦ (s, w)
        | some (s₁, c₁) ↦ elim (find_modbus_adapter reg) [
          | none ↦ (s₁, w)
          | some modbus ↦ let (s₂, done, w₂) = command_scheduler_tick s₁ modbus store w in (s₂, w₂)
        ]
      ]

  unfoldable pub submit_command :
      Env W Double
      → StorageCtx Double
      → Registry W Double
      → Option (Command Double)
      → CommandScheduler Double
      → W
      → CommandScheduler Double × W
  unfolding run_command
  submit_command env ctx reg none s w = (s, w)
  submit_command env ctx reg (some c) s w =
      if is_empty c.point_id then (s, w) else run_command env ctx reg c s w

  -- The engine on the point, and what follows if it answers true.
  unfoldable pub judge :
      Env W Double → GatewayApp W Double → Telemetry Double → W → GatewayApp W Double × W
  unfolding store_alarm submit_command
  judge env app p w =
      let (engine, out) =
        state_engine_process_telemetry app.state_engine app.cfg p true true
          app.command_scheduler.next_command_id p.ts_ms in
      let w₁ = store_alarm env app.storage out.alarm w in
      let (s, w₂) =
        submit_command env app.storage app.registry out.command app.command_scheduler w₁ in
      if out.valid
      then (record app { state_engine = engine; command_scheduler = s }, w₂)
      else (record app { state_engine = engine }, w)

  -- The publish of the point, and the mark on its row.
  unfoldable pub report :
      Env W Double → GatewayApp W Double → Telemetry Double → ℕ → W → GatewayApp W Double × W
  report env app p row_id w =
      let (sent, s, w₁) = mqtt_session_publish_telemetry env.net p app.mqtt w in
      let w₂ = (storage_mark_telemetry_uploaded env.sqlite app.storage row_id w₁).1 in
      let m = app.metrics in
      if sent
      then (
        record app {
          mqtt = s;
          metrics = record m { mqtt_publish_ok = count_up m.mqtt_publish_ok };
        },
        if ltb 0 row_id then w₂ else w₁,
      )
      else (
        record app {
          mqtt = s;
          metrics = record m { mqtt_publish_fail = count_up m.mqtt_publish_fail };
        },
        w₁,
      )

  -- The heartbeat and the gauges behind a point.
  unfoldable pub refresh : Env W Double → GatewayApp W Double → W → GatewayApp W Double × W
  refresh env app w =
      let (now, w₁) = env.now_ms w in
      let (pending, w₂) = storage_pending_telemetry_count env.sqlite app.storage w₁ in
      let m = record app.metrics {
        queue_depth = spsc_ring_count app.ring;
        queue_dropped = spsc_ring_dropped app.ring;
        storage_pending_count = to_uint pending;
      } in
      (
        record app {
          heartbeat = heartbeat_touch app.heartbeat HeartbeatThread.worker now;
          metrics = m;
        },
        w₂,
      )

  -- The metrics file, if more than a second has passed; the time of the last one comes back.
  unfoldable pub flush : Env W Double → ℕ → GatewayApp W Double → W → ℕ × GatewayApp W Double × W
  flush env last app w =
      let (now, w₁) = env.now_ms w in
      let (app₂, w₂) = update_heartbeat_metrics env app w₁ in
      let (again, w₃) = env.now_ms (env.write_metrics app.cfg.metrics_path app₂.metrics w₂) in
      if ltb 1000 ((now + 2 ^ 64 - last) % 2 ^ 64) then (again, app₂, w₃) else (last, app, w₁)

  -- The points of a round of polling into the ring, each counted if it was taken.
  unfoldable pub push_points : List (Telemetry Double) → GatewayApp W Double → GatewayApp W Double
  push_points [] app = app
  push_points (p ∷ points) app =
      let (ring, taken) = spsc_ring_push app.ring p in
      let m = app.metrics in
      push_points points (
        if taken
        then record app {
          ring = ring;
          metrics = record m { ingress_points = count_up m.ingress_points };
        }
        else record app { ring = ring })

  -- One round of the loop of `ingress_main`, up to its sleep.
  unfoldable pub ingress_step : Env W Double → GatewayApp W Double → W → GatewayApp W Double × W
  unfolding push_points
  ingress_step env app w =
      let (points, w₁) = adapter_registry_poll_all app.registry 8 w in
      let app₁ = push_points points app in
      let (now, w₂) = env.now_ms w₁ in
      let m = record app₁.metrics {
        queue_depth = spsc_ring_count app₁.ring;
        queue_dropped = spsc_ring_dropped app₁.ring;
      } in
      (
        record app₁ {
          heartbeat = heartbeat_touch app₁.heartbeat HeartbeatThread.ingress now;
          metrics = m;
        },
        w₂,
      )

  -- The body of the loop of `worker_main` on the point that it popped.
  unfoldable pub worker_point :
      Env W Double → Telemetry Double → ℕ → GatewayApp W Double → W → ℕ × GatewayApp W Double × W
  unfolding judge report refresh flush apply_quality_rules
  worker_point env popped last app w =
      let p = apply_quality_rules app.cfg popped in
      let (row, w₁) = storage_append_telemetry env.sqlite app.storage p w in
      let m = app.metrics in
      let app₁ = record app {
        metrics = record m { processed_points = count_up m.processed_points };
      } in
      let (app₂, w₂) = judge env app₁ p w₁ in
      let (app₃, w₃) = report env app₂ p (row_or_zero row) w₂ in
      let (app₄, w₄) = refresh env app₃ w₃ in flush env last app₄ w₄

  -- The loop's body after the pop.
  unfoldable pub worker_round :
      Env W Double
      → ℕ
      → GatewayApp W Double
      → W
      → Option (Telemetry Double)
      → ℕ × GatewayApp W Double × W
  unfolding worker_point
  worker_round env last app w none =
      let (now, w₁) = env.now_ms w in
      (
        last,
        record app { heartbeat = heartbeat_touch app.heartbeat HeartbeatThread.worker now },
        w₁,
      )
  worker_round env last app w (some p) = worker_point env p last app w

  -- One round of the loop of `worker_main`, up to its sleep; the number is `last_metrics_ms`,
  -- and `scratch` what a read past the ring's buffer would give.
  unfoldable pub worker_step :
      Env W Double → Telemetry Double → ℕ → GatewayApp W Double → W → ℕ × GatewayApp W Double × W
  unfolding worker_round
  worker_step env scratch last app w =
      let (ring, popped) = spsc_ring_pop scratch app.ring in
      worker_round env last (record app { ring = ring }) w popped

-- ===== src/App/World.antt =====
-- What the rounds of runtime/app.c do to the world outside: whatever each single call of the
-- outside keeps, the rounds keep.
pub mod Devices
pub mod Steps
pub mod Rounds
pub mod Run
pub mod Leaves
pub mod Ends
pub mod Offline
pub mod Modbus
pub mod Worker
pub mod Reader
mod Tests
use edgeflow_energy_gateway.Common.{
  ℕ, ◌+◌, ◌-◌, ◌≡◌, refl, Bool, true, false, Bool-cases, Option, none, some, Option-cases, inl, inr,
  List, [], ◌∷◌, All, arith, length, leb, if◌then◌else◌,
}
use edgeflow_energy_gateway.Floats.{Floats}
use edgeflow_energy_gateway.Text.{CString}
use edgeflow_energy_gateway.Model.Enums.{CommandState}
use edgeflow_energy_gateway.Model.Types.{Telemetry, AlarmEvent, Command, GatewayConfig}
use edgeflow_energy_gateway.Adapter.{
  AdapterInfo, DeviceAdapter, Registry, collected, poll_slots, adapter_registry_poll_all,
  adapter_registry_find,
}
use edgeflow_energy_gateway.Scheduler.{
  CommandScheduler, command_scheduler_submit, pending_commands, dispatch, dispatch_all,
  command_scheduler_tick,
}
use edgeflow_energy_gateway.Storage.{
  TelemetryRow, StorageCtx, storage_append_telemetry, storage_append_alarm, storage_append_command,
  jsonl_append_telemetry, storage_mark_telemetry_uploaded, storage_pending_telemetry_count,
}
use edgeflow_energy_gateway.Metrics.{GatewayMetrics}
use edgeflow_energy_gateway.Mqtt.Session.{
  MqttSession, publish_on, mqtt_session_ping, mqtt_session_replay_pending, mqtt_shutdown_locked,
}
use edgeflow_energy_gateway.Watchdog.{Notify, Watchdog, send_notify, watchdog_notify_alive}
use edgeflow_energy_gateway.App.{
  Env, GatewayApp, find_modbus_adapter, store_alarm, run_command, submit_command,
  update_heartbeat_metrics,
}

module _ {W : Type 0} ⦃f : Floats⦄ (Inv : MqttSession f.Double → W → Type 0) where
  open f use {Double}

  -- The calls of an adapter keep `Inv`.
  pub record AdapterKeeps (a : DeviceAdapter W Double) : Type 0 where
    pub poll :
        (call : AdapterInfo → ℕ → W → Option (List (Telemetry Double)) × W)
        → a.poll ≡ some call
        → (info : AdapterInfo) (room : ℕ) (s : MqttSession Double) (w : W) → Inv s w
        → Inv s (call info room w).1
    pub write_command :
        (call : AdapterInfo → Command Double → W → Bool × W)
        → a.write_command ≡ some call
        → (info : AdapterInfo) (c : Command Double) (s : MqttSession Double) (w : W) → Inv s w
        → Inv s (call info c w).1
    pub init :
        (call : AdapterInfo → GatewayConfig Double → W → Bool × AdapterInfo × W)
        → a.init ≡ some call
        → (info : AdapterInfo) (cfg : GatewayConfig Double) (s : MqttSession Double) (w : W)
        → Inv s w
        → Inv s (call info cfg w).2
    pub shutdown :
        (call : AdapterInfo → W → W)
        → a.shutdown ≡ some call
        → (info : AdapterInfo) (s : MqttSession Double) (w : W) → Inv s w
        → Inv s (call info w)

  module _ (env : Env W Double) (notify : Notify W) where
    -- Each call of the outside keeps `Inv`, and so do the uses of the session.
    pub record Keeps : Type 0 where
      pub now_ms : (s : MqttSession Double) (w : W) → Inv s w → Inv s (env.now_ms w).1
      pub write_metrics :
          (path : CString) (m : GatewayMetrics) (s : MqttSession Double) (w : W)
          → Inv s w
          → Inv s (env.write_metrics path m w)
      pub append_line :
          (path line : CString) (s : MqttSession Double) (w : W)
          → Inv s w
          → Inv s (env.sqlite.append_line path line w).1
      pub insert_telemetry :
          (r : TelemetryRow Double) (s : MqttSession Double) (w : W)
          → Inv s w
          → Inv s (env.sqlite.insert_telemetry r w).1
      pub insert_alarm :
          (a : AlarmEvent) (text : CString) (s : MqttSession Double) (w : W)
          → Inv s w
          → Inv s (env.sqlite.insert_alarm a text w).1
      pub insert_command :
          (c : Command Double) (text : CString) (s : MqttSession Double) (w : W)
          → Inv s w
          → Inv s (env.sqlite.insert_command c text w).1
      pub count_pending :
          (s : MqttSession Double) (w : W) → Inv s w → Inv s (env.sqlite.count_pending w).1
      pub notify_write :
          (fd : ℕ) (text : CString) (s : MqttSession Double) (w : W)
          → Inv s w
          → Inv s (notify.write fd text w)
      pub notify_socket : (s : MqttSession Double) (w : W) → Inv s w → Inv s (notify.socket w).1
      pub notify_connect :
          (fd : ℕ) (path : CString) (s : MqttSession Double) (w : W)
          → Inv s w
          → Inv s (notify.connect fd path w).1
      pub notify_close :
          (fd : ℕ) (s : MqttSession Double) (w : W) → Inv s w → Inv s (notify.close fd w)
      pub publish :
          (topic payload : CString) (s : MqttSession Double) (w : W)
          → Inv s w
          → let (sent, s', w') = publish_on env.net topic payload s w in Inv s' w'
      -- the mark on the row of a point that was sent
      pub mark_sent :
          (ctx : StorageCtx Double) (row : ℕ) (topic payload : CString) (s : MqttSession Double)
          (w : W)
          → Inv s w
          → let (sent, s', w') = publish_on env.net topic payload s w in
            sent ≡ true → Inv s' (storage_mark_telemetry_uploaded env.sqlite ctx row w').1
      pub ping :
          (s : MqttSession Double) (w : W)
          → Inv s w
          → let (alive, s', w') = mqtt_session_ping env.net s w in Inv s' w'
      pub replay :
          (ctx : StorageCtx Double) (s : MqttSession Double) (m : GatewayMetrics) (w : W)
          → Inv s w
          → let (n, s', m', w') = mqtt_session_replay_pending env.net env.sqlite ctx s m w in
            Inv s' w'
      pub shutdown :
          (s : MqttSession Double) (w : W)
          → Inv s w
          → let (s', w') = mqtt_shutdown_locked env.net s w in Inv s' w'

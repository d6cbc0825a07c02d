-- ===== src/App/Monitor.antt =====
-- `monitor_on_timer` of runtime/app.c: what the monitor thread does at each tick of its timer. Its
-- warnings about stale heartbeats are log output and not modelled; the ages are still read.
use edgeflow_energy_gateway.Common.{ℕ, Bool, some, [], ◌∷◌, if◌then◌else◌}
use edgeflow_energy_gateway.Floats.{Floats}
use edgeflow_energy_gateway.Text.{CString, literal, copy_string, concat, print_ℕ}
use edgeflow_energy_gateway.Storage.{storage_pending_telemetry_count}
use edgeflow_energy_gateway.Metrics.{to_uint}
use edgeflow_energy_gateway.Heartbeat.{HeartbeatThread, heartbeat_touch}
use edgeflow_energy_gateway.Mqtt.Session.{
  mqtt_session_replay_pending, mqtt_session_ping, mqtt_session_publish_heartbeat,
}
use edgeflow_energy_gateway.Watchdog.{Notify, Watchdog, watchdog_notify_alive}
use edgeflow_energy_gateway.App.{Env, GatewayApp, update_heartbeat_metrics}

-- The payload of a heartbeat, in its buffer of 128 bytes.
unfoldable pub heartbeat_payload : CString → ℕ → ℕ → CString
heartbeat_payload device_id ts_ms pending = copy_string 128 (
    some (
      concat (
        literal "{\"device_id\":\""
        ∷ device_id
        ∷ literal "\",\"ts_ms\":"
        ∷ print_ℕ ts_ms
        ∷ literal ",\"pending\":"
        ∷ print_ℕ (to_uint pending)
        ∷ literal "}"
        ∷ [])))

module _ {W : Type 0} ⦃f : Floats⦄ (env : Env W f.Double) (notify : Notify W) where
  open f use {Double}

  -- The part behind the heartbeats: replay, ping, heartbeat message, metrics file.
  unfoldable pub monitor_publish : GatewayApp W Double → W → GatewayApp W Double × W
  monitor_publish app w =
      let (n, s₁, m₁, w₁) =
        mqtt_session_replay_pending env.net env.sqlite app.storage app.mqtt app.metrics w in
      let (alive, s₂, w₂) = mqtt_session_ping env.net s₁ w₁ in
      let (now, w₃) = env.now_ms w₂ in
      let (pending, w₄) = storage_pending_telemetry_count env.sqlite app.storage w₃ in
      let (sent, s₃, w₅) =
        mqtt_session_publish_heartbeat env.net (heartbeat_payload app.cfg.device_id now pending) s₂
          w₄ in
      let (app', w₆) = update_heartbeat_metrics env (record app { mqtt = s₃; metrics = m₁ }) w₅ in
      (app', env.write_metrics app'.cfg.metrics_path app'.metrics w₆)

  unfoldable pub monitor_on_timer :
      Bool → Watchdog → GatewayApp W Double → W → GatewayApp W Double × W
  unfolding monitor_publish
  monitor_on_timer running dog app w =
      let (now, w₁) = env.now_ms w in
      let w₂ = watchdog_notify_alive notify dog w₁ in
      let w₃ = (env.now_ms w₂).1 in
      let w₄ = (env.now_ms w₃).1 in
      let touched = record app {
        heartbeat = heartbeat_touch app.heartbeat HeartbeatThread.monitor now;
      } in
      if running then monitor_publish touched w₄ else (app, w)

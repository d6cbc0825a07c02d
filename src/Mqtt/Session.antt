-- ===== src/Mqtt/Session.antt =====
-- The long-lived session of egress/mqtt_session.c. A function holds the session's lock from its
-- first use of the connection to its last, so each is one step; the lock itself is not modelled.
pub mod Connection
pub mod Replay
pub mod Apart
pub mod Delivery
pub mod Publish
pub mod Sockets
pub mod Owned
pub mod Outside
pub mod Offline
mod Tests
use edgeflow_energy_gateway.Common.{
  ℕ, ◌+◌, ◌%◌, ◌^◌, Bool, true, false, Option, none, some, List, [], ◌∷◌, ltb, ◌==◌, ◌&&◌,
  if◌then◌else◌,
}
use edgeflow_energy_gateway.Floats.{Floats}
use edgeflow_energy_gateway.Text.{CString, literal, copy_string, print_ℕ, concat}
use edgeflow_energy_gateway.Model.Enums.{quality_to_string}
use edgeflow_energy_gateway.Model.Types.{Telemetry, GatewayConfig}
use edgeflow_energy_gateway.Metrics.{GatewayMetrics, count_up, to_uint}
use edgeflow_energy_gateway.Storage.{
  Sqlite, StorageCtx, StorageRow, storage_fetch_pending_telemetry, storage_mark_telemetry_uploaded,
  storage_pending_telemetry_count,
}
use edgeflow_energy_gateway.Mqtt.Wire.{
  Transport, mqtt_send_publish, mqtt_send_ping, mqtt_send_connect, mqtt_open_tcp,
}

-- `mqtt_session_t`; `fd` is none for -1.
pub record MqttSession (D : Type 0) : Type 0 where
  pub cfg : GatewayConfig D
  pub fd : Option ℕ
  pub connected : Bool

abbrev pub mqtt_session_init : {D : Type 0} → GatewayConfig D → MqttSession D
mqtt_session_init cfg = record { cfg = cfg; fd = none; connected = false }

-- The descriptor of a session that is connected and has one.
abbrev pub live_fd : {D : Type 0} → MqttSession D → Option ℕ
live_fd s = if s.connected then s.fd else none

abbrev pub client_id_of : {D : Type 0} → GatewayConfig D → CString
client_id_of cfg = copy_string 64 (some (concat (literal "edgeflow-" ∷ cfg.device_id ∷ [])))

-- The size of one replay: the configured one, 50 for 0, at most 64.
unfoldable pub replay_batch : {D : Type 0} → GatewayConfig D → ℕ
replay_batch cfg =
    let batch = if cfg.mqtt_replay_batch == 0 then 50 else cfg.mqtt_replay_batch in
    if ltb 64 batch then 64 else batch

module _ {W D : Type 0} (net : Transport W) where
  unfoldable pub mqtt_shutdown_locked : MqttSession D → W → MqttSession D × W
  mqtt_shutdown_locked s w = elim s.fd [
    | none ↦ (record s { connected = false }, w)
    | some fd ↦ (record s { fd = none; connected = false }, net.close fd w)
  ]

  -- The handshake on a new socket, or the failure to open one; `s` has been shut down.
  unfoldable pub handshake : Option ℕ → MqttSession D → W → Bool × MqttSession D × W
  handshake none s w = (false, record s { fd = none; connected = false }, w)
  handshake (some fd) s w =
      let opened = record s { fd = some fd } in
      let (accepted, w₁) =
        mqtt_send_connect net fd (client_id_of s.cfg) (s.cfg.mqtt_keepalive_sec % 2 ^ 16) w in
      let (closed, w₂) = mqtt_shutdown_locked opened w₁ in
      if accepted then (true, record opened { connected = true }, w₁) else (false, closed, w₂)

  unfoldable pub mqtt_ensure_connected_locked : MqttSession D → W → Bool × MqttSession D × W
  unfolding handshake mqtt_shutdown_locked
  mqtt_ensure_connected_locked s w = elim (live_fd s) [
    | some fd ↦ (true, s, w)
    | none ↦
        let (idle, w₁) = mqtt_shutdown_locked s w in
        let (fd, w₂) = mqtt_open_tcp net idle.cfg w₁ in handshake fd idle w₂
  ]

  unfoldable pub mqtt_session_shutdown : MqttSession D → W → MqttSession D × W
  unfolding mqtt_shutdown_locked
  mqtt_session_shutdown s w = mqtt_shutdown_locked s w

  unfoldable pub mqtt_session_ensure_connected : MqttSession D → W → Bool × MqttSession D × W
  unfolding mqtt_ensure_connected_locked
  mqtt_session_ensure_connected s w = mqtt_ensure_connected_locked s w

  -- A publish on the connection, which is shut down if that fails.
  unfoldable pub publish_locked : CString → CString → MqttSession D → W → Bool × MqttSession D × W
  unfolding mqtt_shutdown_locked
  publish_locked topic payload s w = elim s.fd [
    | none ↦ (false, record s { connected = false }, w)
    | some fd ↦
        let (sent, w₁) = mqtt_send_publish net fd topic payload w in
        let (closed, w₂) = mqtt_shutdown_locked s w₁ in
        if sent then (true, s, w₁) else (false, closed, w₂)
  ]

  -- `ensure_connected` and then `publish_locked`, as both publishing functions do.
  unfoldable pub publish_on : CString → CString → MqttSession D → W → Bool × MqttSession D × W
  publish_on topic payload s w =
      let (ready, s₁, w₁) = mqtt_ensure_connected_locked s w in
      let published = publish_locked topic payload s₁ w₁ in
      if ready then published else (false, s₁, w₁)

  unfoldable pub mqtt_session_publish_heartbeat :
      CString → MqttSession D → W → Bool × MqttSession D × W
  unfolding publish_on
  mqtt_session_publish_heartbeat payload s w = publish_on s.cfg.mqtt_heartbeat_topic payload s w

  unfoldable pub mqtt_session_ping : MqttSession D → W → Bool × MqttSession D × W
  unfolding mqtt_shutdown_locked
  mqtt_session_ping s w = elim (live_fd s) [
    | none ↦ (false, s, w)
    | some fd ↦
        let (sent, w₁) = mqtt_send_ping net fd w in
        let (closed, w₂) = mqtt_shutdown_locked s w₁ in
        if sent then (true, s, w₁) else (false, closed, w₂)
  ]

module _ ⦃f : Floats⦄ where
  open f use {Double, fixed4}

  -- `telemetry_to_json` into a buffer of 384 bytes.
  unfoldable pub telemetry_to_json : Telemetry Double → CString
  telemetry_to_json point = copy_string 384 (
      some (
        concat (
          literal "{\"device_id\":\""
          ∷ point.device_id
          ∷ literal "\",\"point_id\":\""
          ∷ point.point_id
          ∷ literal "\",\"value\":"
          ∷ fixed4 point.value
          ∷ literal ",\"unit\":\""
          ∷ point.unit
          ∷ literal "\",\"ts_ms\":"
          ∷ print_ℕ point.ts_ms
          ∷ literal ",\"quality\":\""
          ∷ quality_to_string point.quality
          ∷ literal "\"}"
          ∷ [])))

  module _ {W : Type 0} (net : Transport W) where
    unfoldable pub mqtt_session_publish_telemetry :
        Telemetry Double → MqttSession Double → W → Bool × MqttSession Double × W
    unfolding publish_on
    mqtt_session_publish_telemetry point s w =
        publish_on net s.cfg.mqtt_topic (telemetry_to_json point) s w

    module _ (sqlite : Sqlite W Double) (ctx : StorageCtx Double) where
      -- The loop over the fetched rows: the number replayed, the session, the counters, the world.
      unfoldable pub replay_rows :
          List (StorageRow Double)
          → MqttSession Double
          → GatewayMetrics
          → W
          → ℕ × MqttSession Double × GatewayMetrics × W
      replay_rows [] s m w = (0, s, m, w)
      replay_rows (r ∷ rows) s m w =
          let (sent, s₁, w₁) =
            publish_locked net s.cfg.mqtt_topic (telemetry_to_json r.point) s w in
          let (marked, w₂) = storage_mark_telemetry_uploaded sqlite ctx r.row_id w₁ in
          let m₁ = record m { mqtt_replay_total = count_up m.mqtt_replay_total } in
          let (n, s₂, m₂, w₃) = replay_rows rows s₁ (if marked then m₁ else m) w₂ in
          let counted = if marked then n + 1 else n in
          if sent then (counted, s₂, m₂, w₃) else (0, s₁, m, w₁)

      -- Behind the fetch.
      unfoldable pub replay_fetched :
          List (StorageRow Double)
          → MqttSession Double
          → GatewayMetrics
          → W
          → ℕ × MqttSession Double × GatewayMetrics × W
      replay_fetched rows s m w =
          let (ready, s₁, w₁) = mqtt_ensure_connected_locked net s w in
          let replayed = replay_rows rows s₁ m w₁ in
          let (n, s₂, m₂, w₂) = if ready then replayed else (0, s₁, m, w₁) in
          let (pending, w₃) = storage_pending_telemetry_count sqlite ctx w₂ in
          (n, s₂, record m₂ { storage_pending_count = to_uint pending }, w₃)

      unfoldable pub mqtt_session_replay_pending :
          MqttSession Double → GatewayMetrics → W → ℕ × MqttSession Double × GatewayMetrics × W
      mqtt_session_replay_pending s m w =
          let (rows, w₁) = storage_fetch_pending_telemetry sqlite ctx (replay_batch s.cfg) w in
          elim rows [ none ↦ (0, s, m, w₁) | some found ↦ replay_fetched found s m w₁ ]

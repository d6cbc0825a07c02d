-- ===== src/Mqtt/Session/Offline.antt =====
-- The session of egress/mqtt_session.c while the broker cannot be reached.
use edgeflow_energy_gateway.Common.{ℕ, ◌≡◌, refl, false, none, Option-cases, inl, inr, List, arith}
use edgeflow_energy_gateway.Floats.{Floats}
use edgeflow_energy_gateway.Text.{CString}
use edgeflow_energy_gateway.Model.Types.{GatewayConfig}
use edgeflow_energy_gateway.Storage.{
  Sqlite, StorageCtx, StorageRow, storage_fetch_pending_telemetry, storage_pending_telemetry_count,
}
use edgeflow_energy_gateway.Metrics.{GatewayMetrics}
use edgeflow_energy_gateway.Mqtt.Wire.{Transport, mqtt_open_tcp}
use edgeflow_energy_gateway.Mqtt.Session.{
  MqttSession, live_fd, mqtt_shutdown_locked, handshake, mqtt_ensure_connected_locked, publish_on,
  mqtt_session_ping, replay_batch, replay_fetched, mqtt_session_replay_pending,
}
use edgeflow_energy_gateway.Mqtt.Session.Outside.{NetKeeps, ensure_connected-kept}

module _ {W : Type 0} (net : Transport W)
    (offline : (fd : ℕ) (host : CString) (port : ℕ) (w : W)
      → (net.connect fd host port w).0 ≡ false) where
  open_tcp-offline :
      {D : Type 0} (cfg : GatewayConfig D) (w : W) → (mqtt_open_tcp net cfg w).0 ≡ none
  unfolding mqtt_open_tcp
  open_tcp-offline cfg w = elim (Option-cases (net.socket w).0) [
    | inl e ↦ rw (e, mqtt_open_tcp) refl
    | inr (fd, e) ↦
        let refused = offline fd cfg.broker_host cfg.broker_port (net.socket w).1 in
        rw (e, mqtt_open_tcp) (ground (arith, refused))
  ]

  live-offline : {D : Type 0} (s : MqttSession D) → s.fd ≡ none → live_fd s ≡ none
  live-offline s h = ground (arith, h)

  ensure_connected-offline :
      {D : Type 0} (s : MqttSession D) (w : W)
      → s.fd ≡ none
      → let (ready, s', w') = mqtt_ensure_connected_locked net s w in
        (ready ≡ false) × (s'.fd ≡ none)
  unfolding mqtt_ensure_connected_locked handshake
  ensure_connected-offline s w h =
      let (idle, w₁) = mqtt_shutdown_locked net s w in
      rw (live-offline s h, open_tcp-offline idle.cfg w₁, mqtt_ensure_connected_locked, handshake)
        (refl, refl)

  -- A publish fails, and a ping is not sent.
  pub publish_on-offline :
      {D : Type 0} (topic payload : CString) (s : MqttSession D) (w : W)
      → s.fd ≡ none
      → let (sent, s', w') = publish_on net topic payload s w in (sent ≡ false) × (s'.fd ≡ none)
  unfolding publish_on
  publish_on-offline topic payload s w h =
      let (unready, idle) = ensure_connected-offline s w h in rw (unready, publish_on) (refl, idle)

  pub ping-offline :
      {D : Type 0} (s : MqttSession D) (w : W)
      → s.fd ≡ none
      → (mqtt_session_ping net s w).1.fd ≡ none
  unfolding mqtt_session_ping
  ping-offline s w h = rw (live-offline s h, mqtt_session_ping) h

  pub shutdown-offline :
      {D : Type 0} (s : MqttSession D) (w : W)
      → s.fd ≡ none
      → (mqtt_shutdown_locked net s w).0.fd ≡ none
  unfolding mqtt_shutdown_locked
  shutdown-offline s w h = rw (h, mqtt_shutdown_locked) h

  module _ ⦃f : Floats⦄ (P : W → Type 0) (keeps : NetKeeps net P) (sqlite : Sqlite W f.Double)
      (selects : (n : ℕ) (w : W) → P w → P (sqlite.select_pending n w).1)
      (counts : (w : W) → P w → P (sqlite.count_pending w).1) (ctx : StorageCtx f.Double) where
    open f use {Double}

    pending-offline : (w : W) → P w → P (storage_pending_telemetry_count sqlite ctx w).1
    unfolding storage_pending_telemetry_count
    pending-offline w h = ground (arith, h, counts w h)

    fetch-offline : (n : ℕ) (w : W) → P w → P (storage_fetch_pending_telemetry sqlite ctx n w).1
    unfolding storage_fetch_pending_telemetry
    fetch-offline n w h = ground (arith, h, selects n w h)

    replay_fetched-offline :
        (rows : List (StorageRow Double)) (s : MqttSession Double) (m : GatewayMetrics) (w : W)
        → s.fd ≡ none
        → P w
        → let (n, s', m', w') = replay_fetched net sqlite ctx rows s m w in (s'.fd ≡ none) × P w'
    unfolding replay_fetched
    replay_fetched-offline rows s m w h p =
        let (unready, idle) = ensure_connected-offline s w h in
        rw (unready, replay_fetched)
          (idle, pending-offline _ (ensure_connected-kept net P keeps s w p))

    -- A replay marks nothing.
    pub replay_pending-offline :
        (s : MqttSession Double) (m : GatewayMetrics) (w : W)
        → s.fd ≡ none
        → P w
        → let (n, s', m', w') = mqtt_session_replay_pending net sqlite ctx s m w in
          (s'.fd ≡ none) × P w'
    unfolding mqtt_session_replay_pending
    replay_pending-offline s m w h p =
        let (rows, w₁) = storage_fetch_pending_telemetry sqlite ctx (replay_batch s.cfg) w in
        let kept = fetch-offline (replay_batch s.cfg) w p in
        elim (Option-cases (storage_fetch_pending_telemetry sqlite ctx (replay_batch s.cfg) w).0) [
          | inl failed ↦ rw (failed, mqtt_session_replay_pending) (h, kept)
          | inr (found, e) ↦
              rw (e, mqtt_session_replay_pending) (replay_fetched-offline found s m w₁ h kept)
        ]

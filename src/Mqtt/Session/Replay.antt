-- ===== src/Mqtt/Session/Replay.antt =====
-- How much one replay sends (`mqtt_session_replay_pending`, egress/mqtt_session.c).
use edgeflow_energy_gateway.Common.{
  ◌≤◌, ◌<◌, ◌≡◌, Option-cases, inl, inr, List, [], ◌∷◌, length, arith, if◌then◌else◌,
}
use edgeflow_energy_gateway.Floats.{Floats}
use edgeflow_energy_gateway.Model.Types.{GatewayConfig}
use edgeflow_energy_gateway.Storage.{
  Sqlite, StorageCtx, StorageRow, storage_fetch_pending_telemetry, storage_mark_telemetry_uploaded,
}
use edgeflow_energy_gateway.Storage.Rows.{length-fetch}
use edgeflow_energy_gateway.Metrics.{GatewayMetrics, count_up}
use edgeflow_energy_gateway.Mqtt.Wire.{Transport}
use edgeflow_energy_gateway.Mqtt.Session.Connection.{
  Agrees, publish_locked-Agrees, ensure_connected-Agrees,
}
use edgeflow_energy_gateway.Mqtt.Session.{
  MqttSession, replay_batch, replay_rows, replay_fetched, mqtt_session_replay_pending,
  publish_locked, telemetry_to_json, mqtt_ensure_connected_locked,
}

replay_batch-le :
    {D : Type 0} (cfg : GatewayConfig D)
    → (replay_batch cfg ≤ 64)
      × (cfg.mqtt_replay_batch ≡ 0 → replay_batch cfg ≤ 50)
      × (0 < cfg.mqtt_replay_batch → replay_batch cfg ≤ cfg.mqtt_replay_batch)
unfolding replay_batch
replay_batch-le cfg = (ground arith, λ h. ground arith, λ h. ground arith)

module _ {W : Type 0} ⦃f : Floats⦄ (net : Transport W) (sqlite : Sqlite W f.Double)
    (ctx : StorageCtx f.Double) where
  open f use {Double}

  replay_rows-le :
      (rows : List (StorageRow Double)) (s : MqttSession Double) (m : GatewayMetrics) (w : W)
      → (replay_rows net sqlite ctx rows s m w).0 ≤ length rows
  unfolding replay_rows
  replay_rows-le [] s m w = omega arith
  replay_rows-le (r ∷ rows) s m w =
      let (sent, s₁, w₁) = publish_locked net s.cfg.mqtt_topic (telemetry_to_json r.point) s w in
      let (marked, w₂) = storage_mark_telemetry_uploaded sqlite ctx r.row_id w₁ in
      let m₁ = record m { mqtt_replay_total = count_up m.mqtt_replay_total } in
      ground (arith, replay_rows-le rows s₁ (if marked then m₁ else m) w₂)

  replay_fetched-le :
      (rows : List (StorageRow Double)) (s : MqttSession Double) (m : GatewayMetrics) (w : W)
      → (replay_fetched net sqlite ctx rows s m w).0 ≤ length rows
  unfolding replay_fetched
  replay_fetched-le rows s m w =
      let (ready, s₁, w₁) = mqtt_ensure_connected_locked net s w in
      ground (arith, replay_rows-le rows s₁ m w₁)

  -- One replay marks at most as many rows as the configuration's `mqtt_replay_batch`, or 50 where
  -- that is 0, and never more than the 64 that its buffer holds.
  pub replay_pending-le :
      (s : MqttSession Double) (m : GatewayMetrics) (w : W)
      → let n = (mqtt_session_replay_pending net sqlite ctx s m w).0 in
        (n ≤ 64)
        × (s.cfg.mqtt_replay_batch ≡ 0 → n ≤ 50)
        × (0 < s.cfg.mqtt_replay_batch → n ≤ s.cfg.mqtt_replay_batch)
  unfolding mqtt_session_replay_pending
  replay_pending-le s m w =
      let (rows, w₁) = storage_fetch_pending_telemetry sqlite ctx (replay_batch s.cfg) w in
      elim (Option-cases (storage_fetch_pending_telemetry sqlite ctx (replay_batch s.cfg) w).0) [
        | inl failed ↦
            rw (failed, mqtt_session_replay_pending)
              (omega arith, λ h. omega arith, λ h. omega arith)
        | inr (found, e) ↦
            let marked = replay_fetched-le found s m w₁ in
            let few = length-fetch sqlite ctx (replay_batch s.cfg) w found e in
            let (small, default, asked) = replay_batch-le s.cfg in
            rw (e, mqtt_session_replay_pending)
              (
                omega (arith, marked, few, small),
                λ h. omega (arith, marked, few, default h),
                λ h. omega (arith, marked, few, asked h),
              )
      ]

  replay_rows-Agrees :
      (rows : List (StorageRow Double)) (s : MqttSession Double) (m : GatewayMetrics) (w : W)
      → Agrees s
      → Agrees (replay_rows net sqlite ctx rows s m w).1
  unfolding replay_rows
  replay_rows-Agrees [] s m w a = a
  replay_rows-Agrees (r ∷ rows) s m w a =
      let payload = telemetry_to_json r.point in
      let (sent, s₁, w₁) = publish_locked net s.cfg.mqtt_topic payload s w in
      let (marked, w₂) = storage_mark_telemetry_uploaded sqlite ctx r.row_id w₁ in
      let m₁ = record m { mqtt_replay_total = count_up m.mqtt_replay_total } in
      let a₁ = publish_locked-Agrees net s.cfg.mqtt_topic payload s w a in
      ground (arith, a₁, replay_rows-Agrees rows s₁ (if marked then m₁ else m) w₂ a₁)

  replay_fetched-Agrees :
      (rows : List (StorageRow Double)) (s : MqttSession Double) (m : GatewayMetrics) (w : W)
      → Agrees s
      → Agrees (replay_fetched net sqlite ctx rows s m w).1
  unfolding replay_fetched
  replay_fetched-Agrees rows s m w a =
      let (ready, s₁, w₁) = mqtt_ensure_connected_locked net s w in
      let a₁ = (ensure_connected-Agrees net s w a).0 in
      ground (arith, a₁, replay_rows-Agrees rows s₁ m w₁ a₁)

  -- A replay leaves the session with flag and descriptor in agreement.
  pub replay_pending-Agrees :
      (s : MqttSession Double) (m : GatewayMetrics) (w : W)
      → Agrees s
      → Agrees (mqtt_session_replay_pending net sqlite ctx s m w).1
  unfolding mqtt_session_replay_pending
  replay_pending-Agrees s m w a =
      let (rows, w₁) = storage_fetch_pending_telemetry sqlite ctx (replay_batch s.cfg) w in
      elim (Option-cases (storage_fetch_pending_telemetry sqlite ctx (replay_batch s.cfg) w).0) [
        | inl failed ↦ rw (failed, mqtt_session_replay_pending) a
        | inr (found, e) ↦
            rw (e, mqtt_session_replay_pending) (replay_fetched-Agrees found s m w₁ a)
      ]

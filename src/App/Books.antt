-- ===== src/App/Books.antt =====
-- The counters of runtime/app.c balance: every point that the ring took has been processed or waits
-- in the ring, and every processed point has been published or has failed to be.
pub mod Rounds
pub mod Start
use edgeflow_energy_gateway.Common.{
  ℕ, ◌+◌, ◌-◌, ◌%◌, ◌^◌, ◌≡◌, refl, ◌∙◌, Bool, true, Bool-cases, Option, none, some, Option-cases,
  inl, inr, List, [], ◌∷◌, arith, ltb, if◌then◌else◌,
}
use edgeflow_energy_gateway.Floats.{Floats}
use edgeflow_energy_gateway.Model.Types.{Telemetry}
use edgeflow_energy_gateway.Ring.{Ring, spsc_ring_count}
use edgeflow_energy_gateway.Ring.Count.{InUse}
use edgeflow_energy_gateway.Engine.{state_engine_process_telemetry}
use edgeflow_energy_gateway.Storage.{
  StorageRow, StorageCtx, storage_fetch_pending_telemetry, storage_mark_telemetry_uploaded,
}
use edgeflow_energy_gateway.Metrics.{GatewayMetrics, count_up}
use edgeflow_energy_gateway.Mqtt.Session.{
  MqttSession, publish_locked, telemetry_to_json, mqtt_ensure_connected_locked,
  mqtt_session_publish_telemetry, replay_batch, replay_rows, replay_fetched,
  mqtt_session_replay_pending,
}
use edgeflow_energy_gateway.App.{
  Env, GatewayApp, update_heartbeat_metrics, judge, report, refresh, flush,
}

-- The counters that balance.
pub record Counters : Type 0 where
  pub ingress : ℕ
  pub processed : ℕ
  pub sent : ℕ
  pub failed : ℕ

abbrev pub counters : GatewayMetrics → Counters
counters m = record {
  ingress = m.ingress_points;
  processed = m.processed_points;
  sent = m.mqtt_publish_ok;
  failed = m.mqtt_publish_fail;
}

-- With `extra` points between the ring and the publish. The counters are modulo 2^64.
pub record Balanced {D : Type 0} (extra : ℕ) (r : Ring (Telemetry D)) (c : Counters) : Type 0 where
  pub in_use : InUse r
  pub points : c.ingress ≡ (c.processed + spsc_ring_count r) % 2 ^ 64
  pub outcomes : c.processed ≡ (c.sent + c.failed + extra) % 2 ^ 64

module _ {W : Type 0} ⦃f : Floats⦄ (env : Env W f.Double) where
  open f use {Double}

  -- A replay counts its publishes elsewhere.
  counters-replay_rows :
      (ctx : StorageCtx Double) (rows : List (StorageRow Double)) (s : MqttSession Double)
      (m : GatewayMetrics) (w : W)
      → counters (replay_rows env.net env.sqlite ctx rows s m w).2 ≡ counters m
  unfolding replay_rows
  counters-replay_rows ctx [] s m w = refl
  counters-replay_rows ctx (r ∷ rows) s m w =
      let (sent, s₁, w₁) =
        publish_locked env.net s.cfg.mqtt_topic (telemetry_to_json r.point) s w in
      let (marked, w₂) = storage_mark_telemetry_uploaded env.sqlite ctx r.row_id w₁ in
      let m₁ = record m { mqtt_replay_total = count_up m.mqtt_replay_total } in
      elim (Bool-cases
        (publish_locked env.net s.cfg.mqtt_topic (telemetry_to_json r.point) s w).0) [
          | inr failed ↦ rw (failed, replay_rows) refl
          | inl sent ↦
              elim (Bool-cases (storage_mark_telemetry_uploaded env.sqlite ctx r.row_id w₁).0) [
                | inl on ↦ rw (sent, on, replay_rows) (counters-replay_rows ctx rows s₁ m₁ w₂)
                | inr off ↦ rw (sent, off, replay_rows) (counters-replay_rows ctx rows s₁ m w₂)
              ]
        ]

  counters-replay_fetched :
      (ctx : StorageCtx Double) (rows : List (StorageRow Double)) (s : MqttSession Double)
      (m : GatewayMetrics) (w : W)
      → counters (replay_fetched env.net env.sqlite ctx rows s m w).2 ≡ counters m
  unfolding replay_fetched
  counters-replay_fetched ctx rows s m w =
      let (ready, s₁, w₁) = mqtt_ensure_connected_locked env.net s w in
      elim (Bool-cases (mqtt_ensure_connected_locked env.net s w).0) [
        | inl up ↦ rw (up, replay_fetched) (counters-replay_rows ctx rows s₁ m w₁)
        | inr down ↦ rw (down, replay_fetched) refl
      ]

  pub counters-replay_pending :
      (ctx : StorageCtx Double) (s : MqttSession Double) (m : GatewayMetrics) (w : W)
      → counters (mqtt_session_replay_pending env.net env.sqlite ctx s m w).2 ≡ counters m
  unfolding mqtt_session_replay_pending
  counters-replay_pending ctx s m w =
      let w₁ = (storage_fetch_pending_telemetry env.sqlite ctx (replay_batch s.cfg) w).1 in
      elim (Option-cases
        (storage_fetch_pending_telemetry env.sqlite ctx (replay_batch s.cfg) w).0) [
          | inl e ↦ rw (e, mqtt_session_replay_pending) refl
          | inr (rows, e) ↦
              rw (e, mqtt_session_replay_pending) (counters-replay_fetched ctx rows s m w₁)
        ]

  pub judge-Balanced :
      (extra : ℕ) (p : Telemetry Double) (app : GatewayApp W Double) (w : W)
      → Balanced extra app.ring (counters app.metrics)
      → let app' = (judge env app p w).0 in Balanced extra app'.ring (counters app'.metrics)
  unfolding judge
  judge-Balanced extra p app w b =
      let out =
        (state_engine_process_telemetry app.state_engine app.cfg p true true
          app.command_scheduler.next_command_id p.ts_ms).1 in
      elim (Bool-cases out.valid) [
        | inl valid ↦ rw (valid, judge) b
        | inr invalid ↦ rw (invalid, judge) b
      ]

  -- A publish settles one point, as sent or as failed.
  pub report-Balanced :
      (p : Telemetry Double) (row : ℕ) (app : GatewayApp W Double) (w : W)
      → Balanced 1 app.ring (counters app.metrics)
      → let app' = (report env app p row w).0 in Balanced 0 app'.ring (counters app'.metrics)
  unfolding report
  report-Balanced p row app w b =
      elim (Bool-cases (mqtt_session_publish_telemetry env.net p app.mqtt w).0) [
        | inl sent ↦
            rw (sent, report)
              (record {
                in_use = b.in_use;
                points = b.points;
                outcomes = omega (arith, b.outcomes);
              })
        | inr unsent ↦
            rw (unsent, report)
              (record {
                in_use = b.in_use;
                points = b.points;
                outcomes = omega (arith, b.outcomes);
              })
      ]

  pub flush-Balanced :
      (last : ℕ) (app : GatewayApp W Double) (w : W)
      → Balanced 0 app.ring (counters app.metrics)
      → let app' = (flush env last app w).1 in Balanced 0 app'.ring (counters app'.metrics)
  unfolding flush update_heartbeat_metrics
  flush-Balanced last app w b =
      elim (Bool-cases (ltb 1000 (((env.now_ms w).0 + 2 ^ 64 - last) % 2 ^ 64))) [
        | inl due ↦ rw (due, flush) b
        | inr early ↦ rw (early, flush) b
      ]

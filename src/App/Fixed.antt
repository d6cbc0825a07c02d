-- ===== src/App/Fixed.antt =====
-- What no round of the threads of runtime/app.c changes: the database that the gateway opened.
use edgeflow_energy_gateway.Common.{
  ℕ, ◌+◌, ◌-◌, ◌%◌, ◌^◌, ◌≡◌, refl, ◌∙◌, true, Bool-cases, Option, none, some, inl, inr, List, [],
  ◌∷◌, ltb,
}
use edgeflow_energy_gateway.Floats.{Floats}
use edgeflow_energy_gateway.Model.Types.{Telemetry}
use edgeflow_energy_gateway.Ring.{spsc_ring_push, spsc_ring_pop}
use edgeflow_energy_gateway.Engine.{state_engine_process_telemetry}
use edgeflow_energy_gateway.Adapter.{adapter_registry_poll_all}
use edgeflow_energy_gateway.Storage.{storage_append_telemetry}
use edgeflow_energy_gateway.Metrics.{count_up}
use edgeflow_energy_gateway.Mqtt.Session.{mqtt_session_publish_telemetry}
use edgeflow_energy_gateway.Watchdog.{Notify, Watchdog}
use edgeflow_energy_gateway.App.{
  Env, GatewayApp, apply_quality_rules, update_heartbeat_metrics, judge, report, refresh, flush,
  row_or_zero, push_points, ingress_step, worker_point, worker_round, worker_step,
}
use edgeflow_energy_gateway.App.Monitor.{monitor_publish, monitor_on_timer}
use edgeflow_energy_gateway.App.Start.{Round, Running, ingress, worker, monitor, round, rounds}

module _ {W : Type 0} ⦃f : Floats⦄ (env : Env W f.Double) where
  open f use {Double}

  storage-judge :
      (p : Telemetry Double) (app : GatewayApp W Double) (w : W)
      → (judge env app p w).0.storage ≡ app.storage
  unfolding judge
  storage-judge p app w =
      let out =
        (state_engine_process_telemetry app.state_engine app.cfg p true true
          app.command_scheduler.next_command_id p.ts_ms).1 in
      elim (Bool-cases out.valid) [
        | inl valid ↦ rw (valid, judge) refl
        | inr invalid ↦ rw (invalid, judge) refl
      ]

  storage-report :
      (p : Telemetry Double) (row : ℕ) (app : GatewayApp W Double) (w : W)
      → (report env app p row w).0.storage ≡ app.storage
  unfolding report
  storage-report p row app w =
      elim (Bool-cases (mqtt_session_publish_telemetry env.net p app.mqtt w).0) [
        | inl sent ↦ rw (sent, report) refl
        | inr unsent ↦ rw (unsent, report) refl
      ]

  storage-flush :
      (last : ℕ) (app : GatewayApp W Double) (w : W)
      → (flush env last app w).1.storage ≡ app.storage
  unfolding flush update_heartbeat_metrics
  storage-flush last app w =
      elim (Bool-cases (ltb 1000 (((env.now_ms w).0 + 2 ^ 64 - last) % 2 ^ 64))) [
        | inl due ↦ rw (due, flush) refl
        | inr early ↦ rw (early, flush) refl
      ]

  storage-worker_point :
      (popped : Telemetry Double) (last : ℕ) (app : GatewayApp W Double) (w : W)
      → (worker_point env popped last app w).1.storage ≡ app.storage
  unfolding worker_point refresh
  storage-worker_point popped last app w =
      let p = apply_quality_rules app.cfg popped in
      let (row, w₁) = storage_append_telemetry env.sqlite app.storage p w in
      let m = app.metrics in
      let app₁ = record app {
        metrics = record m { processed_points = count_up m.processed_points };
      } in
      let (app₂, w₂) = judge env app₁ p w₁ in
      let (app₃, w₃) = report env app₂ p (row_or_zero row) w₂ in
      let (app₄, w₄) = refresh env app₃ w₃ in
      storage-flush last app₄ w₄
      ∙ storage-report p (row_or_zero row) app₂ w₂
      ∙ storage-judge p app₁ w₁

  storage-worker_round :
      (popped : Option (Telemetry Double)) (last : ℕ) (app : GatewayApp W Double) (w : W)
      → (worker_round env last app w popped).1.storage ≡ app.storage
  unfolding worker_round
  storage-worker_round none last app w = refl
  storage-worker_round (some p) last app w = storage-worker_point p last app w

  storage-push_points :
      (points : List (Telemetry Double)) (app : GatewayApp W Double)
      → (push_points points app).storage ≡ app.storage
  unfolding push_points
  storage-push_points [] app = refl
  storage-push_points (p ∷ points) app = elim (Bool-cases (spsc_ring_push app.ring p).1) [
    | inl taken ↦ rw (taken, push_points) (storage-push_points points _)
    | inr refused ↦ rw (refused, push_points) (storage-push_points points _)
  ]

  module _ (notify : Notify W) where
    storage-round :
        (dog : Watchdog) (scratch : Telemetry Double) (r : Running W Double) (t : Round)
        → (round env notify dog scratch r t).app.storage ≡ r.app.storage
    unfolding round ingress_step worker_step monitor_on_timer monitor_publish
        update_heartbeat_metrics
    storage-round dog scratch r ingress =
        storage-push_points (adapter_registry_poll_all r.app.registry 8 r.world).0 r.app
    storage-round dog scratch r worker =
        let (ring, popped) = spsc_ring_pop scratch r.app.ring in
        let app = r.app in storage-worker_round popped r.last (record app { ring = ring }) r.world
    storage-round dog scratch r monitor = refl

    pub storage-rounds :
        (dog : Watchdog) (scratch : Telemetry Double) (r : Running W Double) (turns : List Round)
        → (rounds env notify dog scratch r turns).app.storage ≡ r.app.storage
    unfolding rounds
    storage-rounds dog scratch r [] = refl
    storage-rounds dog scratch r (t ∷ turns) =
        storage-rounds dog scratch (round env notify dog scratch r t) turns
        ∙ storage-round dog scratch r t

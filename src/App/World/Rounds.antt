-- ===== src/App/World/Rounds.antt =====
-- The rounds of the three threads of runtime/app.c keep what the single calls of the outside keep.
use edgeflow_energy_gateway.Common.{
  ℕ, ◌≡◌, refl, sym, Bool, true, false, Bool-cases, Option, none, some, Option-cases, inl, inr,
  List, [], ◌∷◌, All, arith,
}
use mathlib.Core.Path.{subst}
use edgeflow_energy_gateway.Floats.{Floats}
use edgeflow_energy_gateway.Model.Types.{Telemetry}
use edgeflow_energy_gateway.Ring.{spsc_ring_pop}
use edgeflow_energy_gateway.Adapter.{adapter_registry_poll_all}
use edgeflow_energy_gateway.Storage.{storage_append_telemetry, storage_pending_telemetry_count}
use edgeflow_energy_gateway.Metrics.{count_up}
use edgeflow_energy_gateway.Mqtt.Session.{
  MqttSession, publish_on, mqtt_session_publish_heartbeat, mqtt_session_ping,
  mqtt_session_replay_pending,
}
use edgeflow_energy_gateway.Watchdog.{Notify, Watchdog, send_notify, watchdog_notify_alive}
use edgeflow_energy_gateway.App.World.{AdapterKeeps, Keeps}
use edgeflow_energy_gateway.App.World.Devices.{poll_all-Inv}
use edgeflow_energy_gateway.App.Monitor.{heartbeat_payload, monitor_publish, monitor_on_timer}
use edgeflow_energy_gateway.App.{
  Env, GatewayApp, apply_quality_rules, update_heartbeat_metrics, judge, report, refresh,
  row_or_zero, push_points, ingress_step, worker_point, worker_round, worker_step,
}
use edgeflow_energy_gateway.App.World.Steps.{
  Holds, append_telemetry-Inv, pending-Inv, heartbeats-Inv, judge-Holds, report-Holds,
  refresh-Holds, flush-Holds,
}

module _ {W : Type 0} ⦃f : Floats⦄ (Inv : MqttSession f.Double → W → Type 0) (env : Env W f.Double)
    (notify : Notify W) (keeps : Keeps Inv env notify) where
  open f use {Double}

  worker_point-Holds :
      (popped : Telemetry Double) (last : ℕ) (app : GatewayApp W Double) (w : W)
      → Holds Inv env notify keeps app w
      → let (last', app', w') = worker_point env popped last app w in
        Holds Inv env notify keeps app' w'
  unfolding worker_point
  worker_point-Holds popped last app w h =
      let p = apply_quality_rules app.cfg popped in
      let (row, w₁) = storage_append_telemetry env.sqlite app.storage p w in
      let m = app.metrics in
      let app₁ = record app {
        metrics = record m { processed_points = count_up m.processed_points };
      } in
      let stored : Holds Inv env notify keeps app₁ w₁ = record {
        adapters = h.adapters;
        inv = append_telemetry-Inv Inv env notify keeps app.storage p app.mqtt w h.inv;
      } in
      let (app₂, w₂) = judge env app₁ p w₁ in
      let (app₃, w₃) = report env app₂ p (row_or_zero row) w₂ in
      let (app₄, w₄) = refresh env app₃ w₃ in
      flush-Holds Inv env notify keeps last app₄ w₄ (
        refresh-Holds Inv env notify keeps app₃ w₃ (
          report-Holds Inv env notify keeps p (row_or_zero row) app₂ w₂
            (judge-Holds Inv env notify keeps p app₁ w₁ stored)))

  worker_round-Holds :
      (popped : Option (Telemetry Double)) (last : ℕ) (app : GatewayApp W Double) (w : W)
      → Holds Inv env notify keeps app w
      → let (last', app', w') = worker_round env last app w popped in
        Holds Inv env notify keeps app' w'
  unfolding worker_round
  worker_round-Holds none last app w h = record {
    adapters = h.adapters;
    inv = keeps.now_ms app.mqtt w h.inv;
  }
  worker_round-Holds (some p) last app w h = worker_point-Holds p last app w h

  pub worker_step-Holds :
      (scratch : Telemetry Double) (last : ℕ) (app : GatewayApp W Double) (w : W)
      → Holds Inv env notify keeps app w
      → let (last', app', w') = worker_step env scratch last app w in
        Holds Inv env notify keeps app' w'
  unfolding worker_step
  worker_step-Holds scratch last app w h =
      let (ring, popped) = spsc_ring_pop scratch app.ring in
      worker_round-Holds popped last (record app { ring = ring }) w
        (record { adapters = h.adapters; inv = h.inv })

  -- The points that go into the ring change neither the adapters nor the session.
  push_points-Holds :
      (points : List (Telemetry Double)) (app : GatewayApp W Double) (w : W)
      → Holds Inv env notify keeps app w
      → Holds Inv env notify keeps (push_points points app) w
  unfolding push_points
  push_points-Holds [] app w h = h
  push_points-Holds (p ∷ points) app w h = push_points-Holds points _ w (ground (arith, h))

  pub ingress_step-Holds :
      (app : GatewayApp W Double) (w : W)
      → Holds Inv env notify keeps app w
      → let (app', w') = ingress_step env app w in Holds Inv env notify keeps app' w'
  unfolding ingress_step
  ingress_step-Holds app w h =
      let (points, w₁) = adapter_registry_poll_all app.registry 8 w in
      let polled : Holds Inv env notify keeps app w₁ = record {
        adapters = h.adapters;
        inv = poll_all-Inv Inv app.registry 8 app.mqtt w h.adapters h.inv;
      } in
      let pushed = push_points-Holds points app w₁ polled in
      record {
        adapters = pushed.adapters;
        inv = keeps.now_ms (push_points points app).mqtt w₁ pushed.inv;
      }

  notify_alive-Inv :
      (dog : Watchdog) (s : MqttSession Double) (w : W)
      → Inv s w
      → Inv s (watchdog_notify_alive notify dog w)
  unfolding watchdog_notify_alive send_notify
  notify_alive-Inv dog s w h = elim (Bool-cases dog.enabled) [
    | inr off ↦ rw (off, watchdog_notify_alive) h
    | inl on ↦ elim (Option-cases dog.fd) [
      | inl e ↦ rw (on, e, watchdog_notify_alive, send_notify) h
      | inr (fd, e) ↦ rw (on, e, watchdog_notify_alive, send_notify) (keeps.notify_write fd _ s w h)
    ]
  ]

  monitor_publish-Inv :
      (app : GatewayApp W Double) (w : W)
      → Inv app.mqtt w
      → let (app', w') = monitor_publish env notify app w in Inv app'.mqtt w'
  unfolding monitor_publish mqtt_session_publish_heartbeat
  monitor_publish-Inv app w h =
      let (n, s₁, m₁, w₁) =
        mqtt_session_replay_pending env.net env.sqlite app.storage app.mqtt app.metrics w in
      let (alive, s₂, w₂) = mqtt_session_ping env.net s₁ w₁ in
      let (now, w₃) = env.now_ms w₂ in
      let (pending, w₄) = storage_pending_telemetry_count env.sqlite app.storage w₃ in
      let payload = heartbeat_payload app.cfg.device_id now pending in
      let (sent, s₃, w₅) = publish_on env.net s₂.cfg.mqtt_heartbeat_topic payload s₂ w₄ in
      let pinged = keeps.ping s₁ w₁ (keeps.replay app.storage app.mqtt app.metrics w h) in
      let counted =
        pending-Inv Inv env notify keeps app.storage s₂ w₃ (keeps.now_ms s₂ w₂ pinged) in
      let published = keeps.publish s₂.cfg.mqtt_heartbeat_topic payload s₂ w₄ counted in
      let app₅ = record app { mqtt = s₃; metrics = m₁ } in
      let (app₆, w₆) = update_heartbeat_metrics env app₅ w₅ in
      keeps.write_metrics app₆.cfg.metrics_path app₆.metrics app₆.mqtt w₆
        (heartbeats-Inv Inv env notify keeps app₅ w₅ published)

  -- The monitor makes no call of an adapter.
  pub monitor_on_timer-Inv :
      (running : Bool) (dog : Watchdog) (app : GatewayApp W Double) (w : W)
      → Inv app.mqtt w
      → let (app', w') = monitor_on_timer env notify running dog app w in Inv app'.mqtt w'
  unfolding monitor_on_timer
  monitor_on_timer-Inv false dog app w h = h
  monitor_on_timer-Inv true dog app w h =
      let s = app.mqtt in
      monitor_publish-Inv _ _
        (keeps.now_ms s _ (keeps.now_ms s _ (notify_alive-Inv dog s _ (keeps.now_ms s w h))))

  registry-monitor_on_timer :
      (running : Bool) (dog : Watchdog) (app : GatewayApp W Double) (w : W)
      → (monitor_on_timer env notify running dog app w).0.registry ≡ app.registry
  unfolding monitor_on_timer monitor_publish update_heartbeat_metrics
  registry-monitor_on_timer false dog app w = refl
  registry-monitor_on_timer true dog app w = refl

  pub monitor_on_timer-Holds :
      (running : Bool) (dog : Watchdog) (app : GatewayApp W Double) (w : W)
      → Holds Inv env notify keeps app w
      → let (app', w') = monitor_on_timer env notify running dog app w in
        Holds Inv env notify keeps app' w'
  monitor_on_timer-Holds running dog app w h = record {
    adapters =
        subst (All (AdapterKeeps Inv)) (sym (registry-monitor_on_timer running dog app w))
          h.adapters;
    inv = monitor_on_timer-Inv running dog app w h.inv;
  }

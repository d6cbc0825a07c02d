-- ===== src/App/Invariant.antt =====
-- The running gateway of runtime/app.c: the rounds of its three threads in any order, from
-- `gateway_app_init` on. A round is one pass of a thread's loop and runs whole here; the ring alone
-- is looked at access by access, in Ring/Spsc.antt.
use edgeflow_energy_gateway.Common.{
  ℕ, ◌≡◌, refl, Bool, true, false, Option, none, some, Option-cases, inl, inr, List, [], ◌∷◌, All,
  arith,
}
use edgeflow_energy_gateway.Floats.{Floats}
use edgeflow_energy_gateway.Model.Types.{Telemetry, Command}
use edgeflow_energy_gateway.Ring.{spsc_ring_pop}
use edgeflow_energy_gateway.Engine.{state_engine_process_telemetry}
use edgeflow_energy_gateway.Adapter.{Registry, is_some}
use edgeflow_energy_gateway.Adapter.Registry.{IsValid, KeepsRoom}
use edgeflow_energy_gateway.Scheduler.{
  CommandScheduler, command_scheduler_submit, command_scheduler_tick,
}
use edgeflow_energy_gateway.Storage.{StorageCtx, storage_append_telemetry}
use edgeflow_energy_gateway.Metrics.{count_up}
use edgeflow_energy_gateway.Mqtt.Session.{mqtt_session_publish_telemetry, telemetry_to_json}
use edgeflow_energy_gateway.Mqtt.Session.Connection.{Agrees, publish_on-Agrees}
use edgeflow_energy_gateway.Adapter.{adapter_registry_poll_all}
use edgeflow_energy_gateway.Watchdog.{Notify, Watchdog}
use edgeflow_energy_gateway.App.Monitor.{heartbeat_payload, monitor_publish, monitor_on_timer}
use edgeflow_energy_gateway.Mqtt.Session.Connection.{ping-Agrees}
use edgeflow_energy_gateway.Mqtt.Session.Replay.{replay_pending-Agrees}
use edgeflow_energy_gateway.Mqtt.Session.{
  mqtt_session_replay_pending, mqtt_session_ping, mqtt_session_publish_heartbeat,
}
use edgeflow_energy_gateway.Storage.{storage_pending_telemetry_count}
use edgeflow_energy_gateway.App.{
  Env, GatewayApp, find_modbus_adapter, apply_quality_rules, update_heartbeat_metrics, store_alarm,
  run_command, submit_command, judge, report, refresh, flush, row_or_zero, push_points,
  ingress_step, worker_point, worker_round, worker_step,
}

module _ {W : Type 0} ⦃f : Floats⦄ (env : Env W f.Double) where
  open f use {Double}

  -- The registry has usable adapters that keep to their room, with one for Modbus among them; no
  -- command waits; the MQTT session knows whether it is connected.
  pub record IsReady (app : GatewayApp W Double) : Type 0 where
    pub valid : IsValid app.registry
    pub keeps_room : All KeepsRoom app.registry
    pub modbus : is_some (find_modbus_adapter app.registry) ≡ true
    pub idle : app.command_scheduler.queue ≡ []
    pub session : Agrees app.mqtt

  push_points-IsReady :
      (points : List (Telemetry Double)) (app : GatewayApp W Double)
      → IsReady app
      → IsReady (push_points points app)
  unfolding push_points
  push_points-IsReady [] app ok = ok
  push_points-IsReady (p ∷ points) app ok = push_points-IsReady points _ (ground (arith, ok))

  -- A submitted command does not stay in the queue.
  run_command-idle :
      (ctx : StorageCtx Double) (reg : Registry W Double) (c : Command Double)
      (s : CommandScheduler Double) (w : W)
      → is_some (find_modbus_adapter reg) ≡ true
      → s.queue ≡ []
      → (run_command env ctx reg c s w).0.queue ≡ []
  unfolding run_command command_scheduler_tick
  run_command-idle ctx reg c s w found h = elim (Option-cases (find_modbus_adapter reg)) [
    | inl e ↦ cc (rw e at found)
    | inr (modbus, e) ↦ elim (Option-cases (command_scheduler_submit s c)) [
      | inl full ↦ rw (full, run_command) h
      | inr ((s₁, c₁), q) ↦ rw (q, e, run_command) refl
    ]
  ]

  submit_command-idle :
      (ctx : StorageCtx Double) (reg : Registry W Double) (c : Option (Command Double))
      (s : CommandScheduler Double) (w : W)
      → is_some (find_modbus_adapter reg) ≡ true
      → s.queue ≡ []
      → (submit_command env ctx reg c s w).0.queue ≡ []
  unfolding submit_command
  submit_command-idle ctx reg none s w found h = h
  submit_command-idle ctx reg (some c) s w found h =
      ground (arith, run_command-idle ctx reg c s w found h)

  judge-IsReady :
      (p : Telemetry Double) (app : GatewayApp W Double) (w : W)
      → IsReady app
      → IsReady (judge env app p w).0
  unfolding judge
  judge-IsReady p app w ok =
      let out =
        (state_engine_process_telemetry app.state_engine app.cfg p true true
          app.command_scheduler.next_command_id p.ts_ms).1 in
      ground (
        arith,
        ok,
        submit_command-idle app.storage app.registry out.command app.command_scheduler
            (store_alarm env app.storage out.alarm w) ok.modbus ok.idle,
      )

  report-IsReady :
      (p : Telemetry Double) (row : ℕ) (app : GatewayApp W Double) (w : W)
      → IsReady app
      → IsReady (report env app p row w).0
  unfolding report mqtt_session_publish_telemetry
  report-IsReady p row app w ok = ground (
    arith,
    ok,
    publish_on-Agrees env.net app.mqtt.cfg.mqtt_topic (telemetry_to_json p) app.mqtt w ok.session,
  )

  refresh-IsReady :
      (app : GatewayApp W Double) (w : W) → IsReady app → IsReady (refresh env app w).0
  unfolding refresh
  refresh-IsReady app w ok = ground (arith, ok)

  flush-IsReady :
      (last : ℕ) (app : GatewayApp W Double) (w : W)
      → IsReady app
      → IsReady (flush env last app w).1
  unfolding flush update_heartbeat_metrics
  flush-IsReady last app w ok = ground (arith, ok)

  worker_point-IsReady :
      (p : Telemetry Double) (last : ℕ) (app : GatewayApp W Double) (w : W)
      → IsReady app
      → IsReady (worker_point env p last app w).1
  unfolding worker_point
  worker_point-IsReady p last app w ok =
      let q = apply_quality_rules app.cfg p in
      let (row, w₁) = storage_append_telemetry env.sqlite app.storage q w in
      let m = app.metrics in
      let app₁ = record app {
        metrics = record m { processed_points = count_up m.processed_points };
      } in
      let (app₂, w₂) = judge env app₁ q w₁ in
      let (app₃, w₃) = report env app₂ q (row_or_zero row) w₂ in
      let (app₄, w₄) = refresh env app₃ w₃ in
      flush-IsReady last app₄ w₄ (
        refresh-IsReady app₃ w₃ (
          report-IsReady q (row_or_zero row) app₂ w₂
            (judge-IsReady q app₁ w₁ (ground (arith, ok)))))

  worker_round-IsReady :
      (popped : Option (Telemetry Double)) (last : ℕ) (app : GatewayApp W Double) (w : W)
      → IsReady app
      → IsReady (worker_round env last app w popped).1
  unfolding worker_round
  worker_round-IsReady none last app w ok = ground (arith, ok)
  worker_round-IsReady (some p) last app w ok = worker_point-IsReady p last app w ok

  pub worker_step-IsReady :
      (scratch : Telemetry Double) (last : ℕ) (app : GatewayApp W Double) (w : W)
      → IsReady app
      → IsReady (worker_step env scratch last app w).1
  unfolding worker_step
  worker_step-IsReady scratch last app w ok =
      let (ring, popped) = spsc_ring_pop scratch app.ring in
      worker_round-IsReady popped last (record app { ring = ring }) w (ground (arith, ok))

  pub ingress_step-IsReady :
      (app : GatewayApp W Double) (w : W) → IsReady app → IsReady (ingress_step env app w).0
  unfolding ingress_step
  ingress_step-IsReady app w ok =
      let (points, w₁) = adapter_registry_poll_all app.registry 8 w in
      let pushed = push_points-IsReady points app ok in ground (arith, pushed)

  module _ (notify : Notify W) where
    monitor_publish-IsReady :
        (app : GatewayApp W Double) (w : W)
        → IsReady app
        → IsReady (monitor_publish env notify app w).0
    unfolding monitor_publish mqtt_session_publish_heartbeat update_heartbeat_metrics
    monitor_publish-IsReady app w ok =
        let (n, s₁, m₁, w₁) =
          mqtt_session_replay_pending env.net env.sqlite app.storage app.mqtt app.metrics w in
        let (alive, s₂, w₂) = mqtt_session_ping env.net s₁ w₁ in
        let (now, w₃) = env.now_ms w₂ in
        let (pending, w₄) = storage_pending_telemetry_count env.sqlite app.storage w₃ in
        let replayed =
          replay_pending-Agrees env.net env.sqlite app.storage app.mqtt app.metrics w ok.session in
        let pinged = ping-Agrees env.net s₁ w₁ replayed in
        let (agrees, _, _) =
          publish_on-Agrees env.net s₂.cfg.mqtt_heartbeat_topic
            (heartbeat_payload app.cfg.device_id now pending) s₂ w₄ pinged in
        record {
          valid = ok.valid;
          keeps_room = ok.keeps_room;
          modbus = ok.modbus;
          idle = ok.idle;
          session = agrees;
        }

    pub monitor_on_timer-IsReady :
        (running : Bool) (dog : Watchdog) (app : GatewayApp W Double) (w : W)
        → IsReady app
        → IsReady (monitor_on_timer env notify running dog app w).0
    unfolding monitor_on_timer
    monitor_on_timer-IsReady false dog app w ok = ok
    monitor_on_timer-IsReady true dog app w ok = monitor_publish-IsReady _ _ (ground (arith, ok))

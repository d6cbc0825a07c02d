-- ===== src/App/World/Steps.antt =====
-- The parts of a round of runtime/app.c keep what the single calls of the outside keep.
use edgeflow_energy_gateway.Common.{
  ℕ, ◌+◌, ◌%◌, ◌^◌, ◌-◌, true, Bool-cases, Option, none, some, inl, inr, All, arith, ltb,
}
use edgeflow_energy_gateway.Floats.{Floats}
use edgeflow_energy_gateway.Model.Types.{Telemetry, AlarmEvent}
use edgeflow_energy_gateway.Engine.{state_engine_process_telemetry}
use edgeflow_energy_gateway.Storage.{
  StorageCtx, row_of, uses_db, storage_append_telemetry, storage_append_alarm,
  jsonl_append_telemetry, storage_pending_telemetry_count,
}
use edgeflow_energy_gateway.Mqtt.Session.{
  MqttSession, publish_on, telemetry_to_json, mqtt_session_publish_telemetry,
}
use edgeflow_energy_gateway.Watchdog.{Notify}
use edgeflow_energy_gateway.App.World.{AdapterKeeps, Keeps}
use edgeflow_energy_gateway.App.World.Devices.{submit_command-Inv}
use edgeflow_energy_gateway.App.{
  Env, GatewayApp, store_alarm, update_heartbeat_metrics, judge, report, refresh, flush,
}

module _ {W : Type 0} ⦃f : Floats⦄ (Inv : MqttSession f.Double → W → Type 0) (env : Env W f.Double)
    (notify : Notify W) (keeps : Keeps Inv env notify) where
  open f use {Double}

  -- The adapters of the gateway keep `Inv`, and it holds of its session and the world.
  pub record Holds (app : GatewayApp W Double) (w : W) : Type 0 where
    pub adapters : All (AdapterKeeps Inv) app.registry
    pub inv : Inv app.mqtt w

  pub append_telemetry-Inv :
      (ctx : StorageCtx Double) (p : Telemetry Double) (s : MqttSession Double) (w : W)
      → Inv s w
      → Inv s (storage_append_telemetry env.sqlite ctx p w).1
  unfolding storage_append_telemetry jsonl_append_telemetry
  append_telemetry-Inv ctx p s w h =
      let logged = keeps.append_line ctx.cfg.cache_path _ s w h in
      elim (Bool-cases (uses_db ctx)) [
        | inl on ↦ rw (on, storage_append_telemetry) (keeps.insert_telemetry (row_of p) s _ logged)
        | inr off ↦ rw (off, storage_append_telemetry) logged
      ]

  append_alarm-Inv :
      (ctx : StorageCtx Double) (a : AlarmEvent) (s : MqttSession Double) (w : W)
      → Inv s w
      → Inv s (storage_append_alarm env.sqlite ctx a w).1
  unfolding storage_append_alarm
  append_alarm-Inv ctx a s w h = elim (Bool-cases (uses_db ctx)) [
    | inl on ↦
        rw (on, storage_append_alarm)
          (keeps.insert_alarm a _ s _ (keeps.append_line ctx.cfg.cache_path _ s w h))
    | inr off ↦ rw (off, storage_append_alarm) (keeps.append_line ctx.cfg.cache_path _ s w h)
  ]

  pub pending-Inv :
      (ctx : StorageCtx Double) (s : MqttSession Double) (w : W)
      → Inv s w
      → Inv s (storage_pending_telemetry_count env.sqlite ctx w).1
  unfolding storage_pending_telemetry_count
  pending-Inv ctx s w h = ground (arith, h, keeps.count_pending s w h)

  pub heartbeats-Inv :
      (app : GatewayApp W Double) (w : W)
      → Inv app.mqtt w
      → let (app', w') = update_heartbeat_metrics env app w in Inv app'.mqtt w'
  unfolding update_heartbeat_metrics
  heartbeats-Inv app w h =
      let s = app.mqtt in keeps.now_ms s _ (keeps.now_ms s _ (keeps.now_ms s w h))

  store_alarm-Inv :
      (ctx : StorageCtx Double) (a : Option AlarmEvent) (s : MqttSession Double) (w : W)
      → Inv s w
      → Inv s (store_alarm env ctx a w)
  unfolding store_alarm
  store_alarm-Inv ctx none s w h = h
  store_alarm-Inv ctx (some a) s w h = ground (arith, h, append_alarm-Inv ctx a s w h)

  pub judge-Holds :
      (p : Telemetry Double) (app : GatewayApp W Double) (w : W)
      → Holds app w
      → let (app', w') = judge env app p w in Holds app' w'
  unfolding judge
  judge-Holds p app w h =
      let out =
        (state_engine_process_telemetry app.state_engine app.cfg p true true
          app.command_scheduler.next_command_id p.ts_ms).1 in
      let stored = store_alarm-Inv app.storage out.alarm app.mqtt w h.inv in
      let sent =
        submit_command-Inv Inv env notify keeps app.storage app.registry out.command
          app.command_scheduler app.mqtt (store_alarm env app.storage out.alarm w) h.adapters
          stored in
      elim (Bool-cases out.valid) [
        | inl valid ↦ rw (valid, judge) (record { adapters = h.adapters; inv = sent })
        | inr invalid ↦ rw (invalid, judge) (record { adapters = h.adapters; inv = h.inv })
      ]

  pub report-Holds :
      (p : Telemetry Double) (row : ℕ) (app : GatewayApp W Double) (w : W)
      → Holds app w
      → let (app', w') = report env app p row w in Holds app' w'
  unfolding report mqtt_session_publish_telemetry
  report-Holds p row app w h =
      let (sent, s, w₁) =
        publish_on env.net app.mqtt.cfg.mqtt_topic (telemetry_to_json p) app.mqtt w in
      let topic = app.mqtt.cfg.mqtt_topic in
      let published = keeps.publish topic (telemetry_to_json p) app.mqtt w h.inv in
      let marked = keeps.mark_sent app.storage row topic (telemetry_to_json p) app.mqtt w h.inv in
      let adapters = h.adapters in
      elim (Bool-cases (publish_on env.net topic (telemetry_to_json p) app.mqtt w).0) [
        | inr unsent ↦ rw (unsent, report) (record { adapters = adapters; inv = published })
        | inl done ↦ elim (Bool-cases (ltb 0 row)) [
          | inl known ↦ rw (done, known, report) (record { adapters = adapters; inv = marked done })
          | inr unknown ↦
              rw (done, unknown, report) (record { adapters = adapters; inv = published })
        ]
      ]

  pub refresh-Holds :
      (app : GatewayApp W Double) (w : W)
      → Holds app w
      → let (app', w') = refresh env app w in Holds app' w'
  unfolding refresh
  refresh-Holds app w h =
      let inv = pending-Inv app.storage app.mqtt _ (keeps.now_ms app.mqtt w h.inv) in
      record { adapters = h.adapters; inv = inv }

  pub flush-Holds :
      (last : ℕ) (app : GatewayApp W Double) (w : W)
      → Holds app w
      → let (last', app', w') = flush env last app w in Holds app' w'
  unfolding flush update_heartbeat_metrics
  flush-Holds last app w h =
      let (now, w₁) = env.now_ms w in
      let read = keeps.now_ms app.mqtt w h.inv in
      let app₁ : Holds app w₁ = record { adapters = h.adapters; inv = read } in
      let (app₂, w₂) = update_heartbeat_metrics env app w₁ in
      let aged = heartbeats-Inv app w₁ read in
      let shown = keeps.write_metrics app.cfg.metrics_path app₂.metrics app₂.mqtt w₂ aged in
      elim (Bool-cases (ltb 1000 ((now + 2 ^ 64 - last) % 2 ^ 64))) [
        | inl due ↦
            rw (due, flush) (record { adapters = h.adapters; inv = keeps.now_ms app₂.mqtt _ shown })
        | inr early ↦ rw (early, flush) app₁
      ]

-- ===== src/App/World/Reader.antt =====
-- The parts of `worker_point` of runtime/app.c that neither add nor mark a row leave the telemetry
-- table as it is.
use edgeflow_energy_gateway.Common.{
  ℕ, ◌+◌, ◌-◌, ◌%◌, ◌^◌, ◌<◌, ◌≡◌, refl, sym, ap, ◌∙◌, true, false, Bool-cases, none, inl, inr,
  List, [], ◌∷◌, ◌++◌, All, ltb, arith,
}
use mathlib.Core.Path.{subst}
use edgeflow_energy_gateway.Floats.{Floats}
use edgeflow_energy_gateway.Model.Types.{Telemetry}
use edgeflow_energy_gateway.Engine.{state_engine_process_telemetry}
use edgeflow_energy_gateway.Storage.{
  StorageCtx, uses_db, storage_append_alarm, storage_append_command,
  storage_pending_telemetry_count,
}
use edgeflow_energy_gateway.Storage.Database.{StoredRow, mark_rows, IsDatabase}
use edgeflow_energy_gateway.Mqtt.Session.{MqttSession, mqtt_session_publish_telemetry}
use edgeflow_energy_gateway.Watchdog.{Notify}
use edgeflow_energy_gateway.App.{
  Env, GatewayApp, store_alarm, run_command, submit_command, update_heartbeat_metrics, judge,
  report, refresh, flush,
}
use edgeflow_energy_gateway.App.World.{Keeps}
use edgeflow_energy_gateway.App.World.Leaves.{
  CallsLeave, NetLeaves, AdapterLeaves, AdapterLeaves-AdapterKeeps, parts_left-Keeps,
}
use edgeflow_energy_gateway.App.World.Steps.{Holds, judge-Holds, refresh-Holds, flush-Holds}

module _ {D : Type 0} where
  -- A mark on the last row, whose id is above the others.
  pub mark_rows-last :
      (rs : List (StoredRow D)) (r : StoredRow D)
      → All (λ s. s.id < r.id) rs
      → mark_rows r.id (rs ++ (r ∷ [])) ≡ rs ++ (record r { uploaded = true } ∷ [])
  mark_rows-last [] r a = ground arith
  mark_rows-last (s ∷ rs) r a = ground (arith, a.0, mark_rows-last rs r a.1)

module _ {W : Type 0} ⦃f : Floats⦄ (env : Env W f.Double) where
  open f use {Double}

  -- The same world for those that neither add nor mark a row.
  abbrev reader : Env W Double
  reader = record env {
    sqlite = record env.sqlite {
      insert_telemetry = λ r w. (none, w);
      mark_uploaded = λ id w. (false, w);
    };
  }

  judge_reads :
      (app : GatewayApp W Double) (p : Telemetry Double) (w : W)
      → judge env app p w ≡ judge reader app p w
  unfolding judge store_alarm storage_append_alarm submit_command run_command storage_append_command
  judge_reads app p w = refl

  refresh_reads : (app : GatewayApp W Double) (w : W) → refresh env app w ≡ refresh reader app w
  unfolding refresh storage_pending_telemetry_count
  refresh_reads app w = refl

  flush_reads :
      (last : ℕ) (app : GatewayApp W Double) (w : W)
      → flush env last app w ≡ flush reader last app w
  unfolding flush update_heartbeat_metrics
  flush_reads last app w = refl

  pub registry-judge :
      (app : GatewayApp W Double) (p : Telemetry Double) (w : W)
      → let app' = (judge env app p w).0 in
        (app'.registry ≡ app.registry) × (app'.metrics ≡ app.metrics) × (app'.storage ≡ app.storage)
  unfolding judge
  registry-judge app p w =
      let out =
        (state_engine_process_telemetry app.state_engine app.cfg p true true
          app.command_scheduler.next_command_id p.ts_ms).1 in
      elim (Bool-cases out.valid) [
        | inl valid ↦ rw (valid, judge) (refl, refl, refl)
        | inr invalid ↦ rw (invalid, judge) (refl, refl, refl)
      ]

  pub registry-report :
      (app : GatewayApp W Double) (p : Telemetry Double) (row : ℕ) (w : W)
      → (report env app p row w).0.registry ≡ app.registry
  unfolding report
  registry-report app p row w =
      elim (Bool-cases (mqtt_session_publish_telemetry env.net p app.mqtt w).0) [
        | inl sent ↦ rw (sent, report) refl
        | inr unsent ↦ rw (unsent, report) refl
      ]

  -- Only `report` counts what the publishes return.
  pub publishes-refresh :
      (app : GatewayApp W Double) (w : W)
      → let m = (refresh env app w).0.metrics in
        (m.mqtt_publish_ok ≡ app.metrics.mqtt_publish_ok)
        × (m.mqtt_publish_fail ≡ app.metrics.mqtt_publish_fail)
  unfolding refresh
  publishes-refresh app w = (refl, refl)

  pub has_db_of : (ctx : StorageCtx Double) → uses_db ctx ≡ true → ctx.has_db ≡ true
  has_db_of ctx h = ground (arith, h)

  pub publishes-flush :
      (last : ℕ) (app : GatewayApp W Double) (w : W)
      → let m = (flush env last app w).1.metrics in
        (m.mqtt_publish_ok ≡ app.metrics.mqtt_publish_ok)
        × (m.mqtt_publish_fail ≡ app.metrics.mqtt_publish_fail)
  unfolding flush update_heartbeat_metrics
  publishes-flush last app w =
      elim (Bool-cases (ltb 1000 (((env.now_ms w).0 + 2 ^ 64 - last) % 2 ^ 64))) [
        | inl due ↦ rw (due, flush) (refl, refl)
        | inr early ↦ rw (early, flush) (refl, refl)
      ]

  module _ (notify : Notify W) (table : W → List (StoredRow Double))
      (database : IsDatabase env.sqlite table) (calls : CallsLeave env notify table)
      (net : NetLeaves env.net table) where
    reader-Keeps :
        (rows : List (StoredRow Double))
        → Keeps (λ (s : MqttSession Double) (w : W). table w ≡ rows) reader notify
    reader-Keeps rows =
        parts_left-Keeps table (λ (t : List (StoredRow Double)). t ≡ rows) reader notify
          (record {
            now_ms = calls.now_ms;
            write_metrics = calls.write_metrics;
            notify_write = calls.notify_write;
            notify_socket = calls.notify_socket;
            notify_connect = calls.notify_connect;
            notify_close = calls.notify_close;
          })
          net
          (record {
            append_line = database.table-append_line;
            insert_telemetry = λ r w. refl;
            insert_alarm = database.table-alarm;
            insert_command = database.table-command;
            select_pending = database.table-select;
            mark_uploaded = λ id w. refl;
            count_pending = database.table-count;
          })

    -- The gateway and the world with the table as it is.
    as_is :
        (app : GatewayApp W Double) (w : W)
        → All (AdapterLeaves table) app.registry
        → Holds (λ s v. table v ≡ table w) reader notify (reader-Keeps (table w)) app w
    as_is app w leaves = record {
      adapters = AdapterLeaves-AdapterKeeps table (λ t. t ≡ table w) app.registry leaves;
      inv = refl;
    }

    pub table-judge :
        (app : GatewayApp W Double) (p : Telemetry Double) (w : W)
        → All (AdapterLeaves table) app.registry
        → table (judge env app p w).1 ≡ table w
    table-judge app p w leaves =
        ap (λ (r : GatewayApp W Double × W). table r.1) (judge_reads app p w)
        ∙ (judge-Holds (λ s v. table v ≡ table w) reader notify (reader-Keeps (table w)) p app w
            (as_is app w leaves)).inv

    pub table-refresh-flush :
        (last : ℕ) (app : GatewayApp W Double) (w : W)
        → All (AdapterLeaves table) app.registry
        → let (app', w') = refresh env app w in table (flush env last app' w').2 ≡ table w
    table-refresh-flush last app w leaves =
        let (app', w') = refresh env app w in
        let kept = reader-Keeps (table w) in
        ap (λ (r : ℕ × GatewayApp W Double × W). table r.2) (flush_reads last app' w')
        ∙ (flush-Holds (λ s v. table v ≡ table w) reader notify kept last app' w'
            (subst
              (λ (r : GatewayApp W Double × W).
                Holds (λ s v. table v ≡ table w) reader notify kept r.0 r.1)
              (sym (refresh_reads app w))
              (refresh-Holds (λ s v. table v ≡ table w) reader notify kept app w
                (as_is app w leaves)))).inv

-- ===== src/App/World/Worker.antt =====
-- What the worker of runtime/app.c does to the telemetry table with one point.
use edgeflow_energy_gateway.Common.{
  ℕ, ◌<◌, ◌≡◌, refl, sym, ap, ◌∙◌, Bool, true, false, Bool-cases, some, inl, inr, List, [], ◌∷◌,
  ◌++◌, All, ltb, leb, arith, ◌&&◌, if◌then◌else◌,
}
use mathlib.Core.Path.{subst}
use edgeflow_energy_gateway.Floats.{Floats}
use edgeflow_energy_gateway.Model.Types.{Telemetry}
use edgeflow_energy_gateway.Storage.{
  row_of, uses_db, storage_append_telemetry, storage_mark_telemetry_uploaded,
  jsonl_append_telemetry, telemetry_line,
}
use edgeflow_energy_gateway.Storage.Database.{StoredRow, mark_rows, IsDatabase}
use edgeflow_energy_gateway.Metrics.{GatewayMetrics, count_up}
use edgeflow_energy_gateway.Mqtt.Session.{
  publish_on, telemetry_to_json, mqtt_session_publish_telemetry,
}
use edgeflow_energy_gateway.Mqtt.Session.Outside.{publish_on-kept}
use edgeflow_energy_gateway.Watchdog.{Notify}
use edgeflow_energy_gateway.App.{
  Env, GatewayApp, apply_quality_rules, judge, report, refresh, worker_point,
}
use edgeflow_energy_gateway.App.World.Leaves.{
  CallsLeave, NetLeaves, AdapterLeaves, NetLeaves-NetKeeps,
}
use edgeflow_energy_gateway.App.World.Reader.{
  mark_rows-last, registry-judge, registry-report, publishes-refresh, has_db_of, publishes-flush,
  table-judge, table-refresh-flush,
}

module _ {W : Type 0} ⦃f : Floats⦄ (env : Env W f.Double) (notify : Notify W)
    (table : W → List (StoredRow f.Double)) (database : IsDatabase env.sqlite table)
    (calls : CallsLeave env notify table) (net : NetLeaves env.net table) where
  open f use {Double}

  -- The publish marks the row exactly if the point was sent and the statement succeeded.
  report-Marked :
      (app : GatewayApp W Double) (p : Telemetry Double) (new : StoredRow Double)
      (rows : List (StoredRow Double)) (w : W)
      → app.storage.has_db ≡ true
      → 0 < new.id
      → All (λ r. r.id < new.id) rows
      → new.uploaded ≡ false
      → table w ≡ rows ++ (new ∷ [])
      → let (sent, s, w₁) = mqtt_session_publish_telemetry env.net p app.mqtt w in
        let marked = (env.sqlite.mark_uploaded new.id w₁).0 in
        let (app', w') = report env app p new.id w in
        let m = app.metrics in
        let m' = app'.metrics in
        (table w' ≡ rows ++ (record new { uploaded = sent && marked } ∷ []))
        × (m'.mqtt_publish_ok ≡ (if sent then count_up m.mqtt_publish_ok else m.mqtt_publish_ok))
        × (m'.mqtt_publish_fail
            ≡ (if sent then m.mqtt_publish_fail else count_up m.mqtt_publish_fail))
  unfolding report mqtt_session_publish_telemetry storage_mark_telemetry_uploaded
  report-Marked app p new rows w db positive below fresh e =
      let topic = app.mqtt.cfg.mqtt_topic in
      let payload = telemetry_to_json p in
      let w₁ = (publish_on env.net topic payload app.mqtt w).2 in
      let published : table w₁ ≡ table w =
        publish_on-kept env.net (λ v. table v ≡ table w)
          (NetLeaves-NetKeeps table (λ (t : List (StoredRow Double)). t ≡ table w) env.net net)
          topic payload app.mqtt w refl in
      let unmarked : table w₁ ≡ rows ++ (record new { uploaded = false } ∷ []) =
        published ∙ e ∙ ap (λ (b : Bool). rows ++ (record new { uploaded = b } ∷ [])) fresh in
      elim (Bool-cases (publish_on env.net topic payload app.mqtt w).0) [
        | inr unsent ↦ rw (unsent, report) (unmarked, refl, refl)
        | inl sent ↦
            let known : ltb 0 new.id ≡ true = ground (arith, positive) in
            let guard : leb new.id 0 ≡ false = ground (arith, positive) in
            elim (Bool-cases (env.sqlite.mark_uploaded new.id w₁).0) [
              | inl ok ↦
                  let marked =
                    database.marked new.id w₁ ok
                    ∙ ap (mark_rows new.id) (published ∙ e)
                    ∙ mark_rows-last rows new below in
                  rw (sent, known, guard, db, ok, report, storage_mark_telemetry_uploaded)
                    (marked, refl, refl)
              | inr failed ↦
                  rw (sent, known, guard, db, failed, report, storage_mark_telemetry_uploaded)
                    (database.mark_failed new.id w₁ failed ∙ unmarked, refl, refl)
            ]
      ]

  append-Stored :
      (app : GatewayApp W Double) (p : Telemetry Double) (w : W) (id : ℕ)
      → uses_db app.storage ≡ true
      → (storage_append_telemetry env.sqlite app.storage p w).0 ≡ some id
      → (0 < id)
        × All (λ r. r.id < id) (table w)
        × (table (storage_append_telemetry env.sqlite app.storage p w).1
            ≡ table w ++ (record { id = id; row = row_of p; uploaded = false } ∷ []))
  unfolding storage_append_telemetry jsonl_append_telemetry
  append-Stored app p w id db e =
      let logged = database.table-append_line app.storage.cfg.cache_path (telemetry_line p) w in
      let w₁ = (env.sqlite.append_line app.storage.cfg.cache_path (telemetry_line p) w).1 in
      let (positive, below, stored) =
        database.inserted (row_of p) w₁ id (rw (db, storage_append_telemetry) at e) in
      rw (db, storage_append_telemetry)
        (
          positive,
          subst (All (λ r. r.id < id)) logged below,
          stored
              ∙ ap
                  (λ (t : List (StoredRow Double)).
                    t ++ (record { id = id; row = row_of p; uploaded = false } ∷ []))
                  logged,
        )

  -- What the worker does to the table with one point, if the database is in use and the row could be
  -- stored: it adds the point, with the quality that the rules give it, as the last row and changes no
  -- other row, whatever alarm or command the point leads to. The new row is marked as uploaded exactly
  -- if the publish of that point, which follows the engine's decision, returned 0 and the statement
  -- that marks the row then succeeded; and the publish is counted once, as a success or as a failure.
  pub worker_point-stores :
      (popped : Telemetry Double) (last : ℕ) (app : GatewayApp W Double) (w : W) (id : ℕ)
      → All (AdapterLeaves table) app.registry
      → uses_db app.storage ≡ true
      → let p = apply_quality_rules app.cfg popped in
        let (row, w₁) = storage_append_telemetry env.sqlite app.storage p w in
        let m = app.metrics in
        let app₁ = record app {
          metrics = record m { processed_points = count_up m.processed_points };
        } in
        let (app₂, w₂) = judge env app₁ p w₁ in
        let (sent, s, w₃) = mqtt_session_publish_telemetry env.net p app₂.mqtt w₂ in
        let marked = (env.sqlite.mark_uploaded id w₃).0 in
        row ≡ some id
        → let (last', app', w') = worker_point env popped last app w in
          let m' = app'.metrics in
          (table w'
            ≡ table w ++ (record { id = id; row = row_of p; uploaded = sent && marked } ∷ []))
          × (m'.mqtt_publish_ok ≡ (if sent then count_up m.mqtt_publish_ok else m.mqtt_publish_ok))
          × (m'.mqtt_publish_fail
              ≡ (if sent then m.mqtt_publish_fail else count_up m.mqtt_publish_fail))
  unfolding worker_point
  worker_point-stores popped last app w id leaves db e =
      let p = apply_quality_rules app.cfg popped in
      let (row, w₁) = storage_append_telemetry env.sqlite app.storage p w in
      let m = app.metrics in
      let app₁ = record app {
        metrics = record m { processed_points = count_up m.processed_points };
      } in
      let (app₂, w₂) = judge env app₁ p w₁ in
      let (registry, metrics, storage) = registry-judge env app₁ p w₁ in
      let (positive, below, stored) = append-Stored app p w id db e in
      let new : StoredRow Double = record { id = id; row = row_of p; uploaded = false } in
      let leaves₂ = subst (All (AdapterLeaves table)) (sym registry) leaves in
      let (app₃, w₃) = report env app₂ p id w₂ in
      let leaves₃ =
        subst (All (AdapterLeaves table)) (sym (registry-report env app₂ p id w₂)) leaves₂ in
      let (app₄, w₄) = refresh env app₃ w₃ in
      let in_use = ap uses_db storage ∙ db in
      let (marked, sent, unsent) =
        report-Marked app₂ p new (table w) w₂ (has_db_of env app₂.storage in_use) positive below
          refl (table-judge env notify table database calls net app₁ p w₁ leaves ∙ stored) in
      let published = (mqtt_session_publish_telemetry env.net p app₂.mqtt w₂).0 in
      let flushed = publishes-flush env last app₄ w₄ in
      let refreshed = publishes-refresh env app₃ w₃ in
      rw (e, worker_point)
        (
          table-refresh-flush env notify table database calls net last app₃ w₃ leaves₃ ∙ marked,
          flushed.0
              ∙ refreshed.0
              ∙ sent
              ∙ ap
                  (λ (n : GatewayMetrics).
                    if published then count_up n.mqtt_publish_ok else n.mqtt_publish_ok)
                  metrics,
          flushed.1
              ∙ refreshed.1
              ∙ unsent
              ∙ ap
                  (λ (n : GatewayMetrics).
                    if published then n.mqtt_publish_fail else count_up n.mqtt_publish_fail)
                  metrics,
        )

-- ===== src/App/Quality.antt =====
-- The quality rule of runtime/app.c in front of the engine: what becomes of the over-temperature
-- fault on the worker's path.
use edgeflow_energy_gateway.Common.{
  ℕ, ◌≡◌, ◌≢◌, sym, ◌∙◌, refl, true, false, Option, none, some, arith,
}
use mathlib.Core.Path.{subst}
use edgeflow_energy_gateway.Floats.{Floats}
use edgeflow_energy_gateway.Text.{literal}
use edgeflow_energy_gateway.Model.Enums.{SystemState}
use edgeflow_energy_gateway.Model.Types.{Telemetry, AlarmEvent, GatewayConfig}
use edgeflow_energy_gateway.Engine.{
  StateEngine, Output, is_good, update_snapshot, state_engine_process_telemetry,
}
use edgeflow_energy_gateway.Engine.Outcome.{is_hot}
use edgeflow_energy_gateway.Ring.{spsc_ring_pop}
use edgeflow_energy_gateway.Storage.{storage_append_telemetry}
use edgeflow_energy_gateway.Metrics.{count_up}
use edgeflow_energy_gateway.Engine.Alarms.{alarm_only_when}
use edgeflow_energy_gateway.App.{
  Env, GatewayApp, apply_quality_rules, judge, report, refresh, flush, update_heartbeat_metrics,
  row_or_zero, worker_point, worker_round, worker_step,
}

module _ ⦃f : Floats⦄ where
  open f use {Double, lt}

  -- The engine has seen no temperature above the limit and is not in FAULT.
  pub record IsCool (cfg : GatewayConfig Double) (e : StateEngine Double) : Type 0 where
    pub cool : is_hot cfg e ≡ false
    pub calm : e.state ≢ SystemState.fault

  -- One point as the worker gives it to the engine: quality rule first, both pointers given.
  unfoldable pub engine_step :
      GatewayConfig Double
      → ℕ
      → StateEngine Double
      → Telemetry Double
      → StateEngine Double × Output Double
  engine_step cfg id e p =
      let q = apply_quality_rules cfg p in
      state_engine_process_telemetry e cfg q true true id q.ts_ms

  -- The quality rule changes nothing but the quality, and only of a temperature above the limit.
  pub update-apply_quality_rules :
      (cfg : GatewayConfig Double) (e : StateEngine Double) (p : Telemetry Double)
      → is_hot cfg e ≡ false
      → is_good (apply_quality_rules cfg p).quality ≡ true
      → is_hot cfg (update_snapshot e (apply_quality_rules cfg p)) ≡ false
  unfolding update_snapshot apply_quality_rules
  update-apply_quality_rules cfg e p cool good = ground arith

  step-IsCool :
      (cfg : GatewayConfig Double) (id : ℕ) (e : StateEngine Double) (p : Telemetry Double)
      → IsCool cfg e
      → IsCool cfg (engine_step cfg id e p).0
  unfolding engine_step state_engine_process_telemetry
  step-IsCool cfg id e p ok = ground (arith, update-apply_quality_rules cfg e p)

  -- With cool cells so far, an alarm of the worker's engine is the one of the state of charge.
  pub step-alarm :
      (cfg : GatewayConfig Double) (id : ℕ) (e : StateEngine Double) (p : Telemetry Double)
      → IsCool cfg e
      → {a : AlarmEvent} → (engine_step cfg id e p).1.alarm ≡ some a
      → a.code ≡ literal "BMS_SOC_LOW"
  unfolding engine_step
  step-alarm cfg id e p ok h =
      let q = apply_quality_rules cfg p in
      let why = alarm_only_when e cfg q true true id q.ts_ms h in
      ground (arith, update-apply_quality_rules cfg e p, why)

module _ {W : Type 0} ⦃f : Floats⦄ (env : Env W f.Double) where
  open f use {Double}

  judge-engine :
      (app : GatewayApp W Double) (p : Telemetry Double) (w : W)
      → let app' = (judge env app p w).0 in
        (app'.cfg ≡ app.cfg)
        × (app'.state_engine
            ≡ (state_engine_process_telemetry app.state_engine app.cfg p true true
                app.command_scheduler.next_command_id p.ts_ms).0)
  unfolding judge
  judge-engine app p w = ground arith

  report-engine :
      (app : GatewayApp W Double) (p : Telemetry Double) (row : ℕ) (w : W)
      → let app' = (report env app p row w).0 in
        (app'.cfg ≡ app.cfg) × (app'.state_engine ≡ app.state_engine)
  unfolding report
  report-engine app p row w = ground arith

  flush-engine :
      (last : ℕ) (app : GatewayApp W Double) (w : W)
      → let app' = (flush env last app w).1 in
        (app'.cfg ≡ app.cfg) × (app'.state_engine ≡ app.state_engine)
  unfolding flush update_heartbeat_metrics
  flush-engine last app w = ground arith

  refresh-engine :
      (app : GatewayApp W Double) (w : W)
      → let app' = (refresh env app w).0 in
        (app'.cfg ≡ app.cfg) × (app'.state_engine ≡ app.state_engine)
  unfolding refresh
  refresh-engine app w = (refl, refl)

  -- Each round of the worker's loop gives the engine exactly the popped point with its quality
  -- rule applied, and nothing else of the round touches the engine or the configuration.
  pub worker_point-engine :
      (p : Telemetry Double) (last : ℕ) (app : GatewayApp W Double) (w : W)
      → let app' = (worker_point env p last app w).1 in
        (app'.cfg ≡ app.cfg)
        × (app'.state_engine
            ≡ (engine_step app.cfg app.command_scheduler.next_command_id app.state_engine p).0)
  unfolding worker_point engine_step
  worker_point-engine p last app w =
      let q = apply_quality_rules app.cfg p in
      let (row, w₁) = storage_append_telemetry env.sqlite app.storage q w in
      let m = app.metrics in
      let app₁ = record app {
        metrics = record m { processed_points = count_up m.processed_points };
      } in
      let (app₂, w₂) = judge env app₁ q w₁ in
      let (app₃, w₃) = report env app₂ q (row_or_zero row) w₂ in
      let (app₄, w₄) = refresh env app₃ w₃ in
      let judged = judge-engine app₁ q w₁ in
      let reported = report-engine app₂ q (row_or_zero row) w₂ in
      let flushed = flush-engine last app₄ w₄ in
      let refreshed = refresh-engine app₃ w₃ in
      (
        flushed.0 ∙ refreshed.0 ∙ reported.0 ∙ judged.0,
        flushed.1 ∙ refreshed.1 ∙ reported.1 ∙ judged.1,
      )

  round-IsCool :
      (popped : Option (Telemetry Double)) (last : ℕ) (app : GatewayApp W Double) (w : W)
      → IsCool app.cfg app.state_engine
      → let app' = (worker_round env last app w popped).1 in IsCool app'.cfg app'.state_engine
  unfolding worker_round
  round-IsCool none last app w ok = ok
  round-IsCool (some p) last app w ok =
      let same = worker_point-engine p last app w in
      subst (λ c. IsCool c (worker_point env p last app w).1.state_engine) (sym same.0)
        (subst (IsCool app.cfg) (sym same.1)
          (step-IsCool app.cfg app.command_scheduler.next_command_id app.state_engine p ok))

  -- If the cells have been cool and the engine is not in FAULT, it is not in FAULT after a round
  -- of the worker's loop either, whatever point the round pops.
  pub worker_step-IsCool :
      (scratch : Telemetry Double) (last : ℕ) (app : GatewayApp W Double) (w : W)
      → IsCool app.cfg app.state_engine
      → let app' = (worker_step env scratch last app w).1 in IsCool app'.cfg app'.state_engine
  unfolding worker_step
  worker_step-IsCool scratch last app w ok =
      let (ring, popped) = spsc_ring_pop scratch app.ring in
      round-IsCool popped last (record app { ring = ring }) w ok

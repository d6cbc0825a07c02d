-- ===== src/App/Books/Rounds.antt =====
-- The counters of runtime/app.c balance after any rounds of the threads, from `gateway_app_init` on.
use edgeflow_energy_gateway.Common.{
  ℕ, sym, Bool-cases, Option-cases, inl, inr, List, [], ◌∷◌, arith,
}
use mathlib.Core.Path.{subst}
use edgeflow_energy_gateway.Floats.{Floats}
use edgeflow_energy_gateway.Model.Types.{Telemetry}
use edgeflow_energy_gateway.Ring.{spsc_ring_push, spsc_ring_pop}
use edgeflow_energy_gateway.Ring.Count.{count-push, count-pop}
use edgeflow_energy_gateway.Adapter.{adapter_registry_poll_all}
use edgeflow_energy_gateway.Storage.{storage_append_telemetry}
use edgeflow_energy_gateway.Metrics.{count_up}
use edgeflow_energy_gateway.Watchdog.{Notify, Watchdog}
use edgeflow_energy_gateway.App.{
  Env, GatewayApp, apply_quality_rules, update_heartbeat_metrics, judge, report, refresh,
  row_or_zero, push_points, ingress_step, worker_point, worker_round, worker_step,
}
use edgeflow_energy_gateway.App.Monitor.{monitor_publish, monitor_on_timer}
use edgeflow_energy_gateway.App.Start.{Round, Running, ingress, worker, monitor, round, rounds}
use edgeflow_energy_gateway.App.Books.{
  counters, Balanced, counters-replay_pending, judge-Balanced, report-Balanced, flush-Balanced,
}

module _ {W : Type 0} ⦃f : Floats⦄ (env : Env W f.Double) where
  open f use {Double}

  abbrev pub IsBalanced : ℕ → GatewayApp W Double → Type 0
  IsBalanced extra app = Balanced extra app.ring (counters app.metrics)

  worker_point-IsBalanced :
      (popped : Telemetry Double) (last : ℕ) (app : GatewayApp W Double) (w : W)
      → Balanced 1 app.ring
          (record (counters app.metrics) { processed = count_up app.metrics.processed_points })
      → IsBalanced 0 (worker_point env popped last app w).1
  unfolding worker_point refresh
  worker_point-IsBalanced popped last app w b =
      let p = apply_quality_rules app.cfg popped in
      let (row, w₁) = storage_append_telemetry env.sqlite app.storage p w in
      let m = app.metrics in
      let app₁ = record app {
        metrics = record m { processed_points = count_up m.processed_points };
      } in
      let (app₂, w₂) = judge env app₁ p w₁ in
      let (app₃, w₃) = report env app₂ p (row_or_zero row) w₂ in
      let (app₄, w₄) = refresh env app₃ w₃ in
      flush-Balanced env last app₄ w₄ (
        let settled =
          report-Balanced env p (row_or_zero row) app₂ w₂ (judge-Balanced env 1 p app₁ w₁ b) in
        record { in_use = settled.in_use; points = settled.points; outcomes = settled.outcomes })

  worker_step-IsBalanced :
      (scratch : Telemetry Double) (last : ℕ) (app : GatewayApp W Double) (w : W)
      → IsBalanced 0 app
      → IsBalanced 0 (worker_step env scratch last app w).1
  unfolding worker_step worker_round
  worker_step-IsBalanced scratch last app w b =
      let ring = (spsc_ring_pop scratch app.ring).0 in
      let (in_use, left) = count-pop scratch app.ring b.in_use in
      elim (Option-cases (spsc_ring_pop scratch app.ring).1) [
        | inl e ↦
            rw (e, worker_step, worker_round)
              (record {
                in_use = in_use;
                points = omega (arith, b.points, (rw e at left));
                outcomes = b.outcomes;
              })
        | inr (p, e) ↦
            rw (e, worker_step, worker_round)
              (worker_point-IsBalanced p last (record app { ring = ring }) w
                (record {
                  in_use = in_use;
                  points = omega (arith, b.points, (rw e at left));
                  outcomes = omega (arith, b.outcomes);
                }))
      ]

  push_points-IsBalanced :
      (points : List (Telemetry Double)) (app : GatewayApp W Double)
      → IsBalanced 0 app
      → IsBalanced 0 (push_points points app)
  unfolding push_points
  push_points-IsBalanced [] app b = b
  push_points-IsBalanced (p ∷ points) app b =
      let (in_use, counted) = count-push p app.ring p b.in_use in
      elim (Bool-cases (spsc_ring_push app.ring p).1) [
        | inl taken ↦
            rw (taken, push_points)
              (push_points-IsBalanced points _ (record {
                in_use = in_use;
                points = omega (arith, b.points, (rw taken at counted));
                outcomes = b.outcomes;
              }))
        | inr refused ↦
            rw (refused, push_points)
              (push_points-IsBalanced points _ (record {
                in_use = in_use;
                points = omega (arith, b.points, (rw refused at counted));
                outcomes = b.outcomes;
              }))
      ]

  module _ (notify : Notify W) where
    monitor_publish-IsBalanced :
        (app : GatewayApp W Double) (w : W)
        → IsBalanced 0 app
        → IsBalanced 0 (monitor_publish env notify app w).0
    unfolding monitor_publish update_heartbeat_metrics
    monitor_publish-IsBalanced app w b =
        subst (Balanced 0 app.ring)
          (sym (counters-replay_pending env app.storage app.mqtt app.metrics w)) b

    round-IsBalanced :
        (dog : Watchdog) (scratch : Telemetry Double) (r : Running W Double) (t : Round)
        → IsBalanced 0 r.app
        → IsBalanced 0 (round env notify dog scratch r t).app
    unfolding round ingress_step monitor_on_timer
    round-IsBalanced dog scratch r ingress b =
        let pushed =
          push_points-IsBalanced (adapter_registry_poll_all r.app.registry 8 r.world).0 r.app b in
        record { in_use = pushed.in_use; points = pushed.points; outcomes = pushed.outcomes }
    round-IsBalanced dog scratch r worker b = worker_step-IsBalanced scratch r.last r.app r.world b
    round-IsBalanced dog scratch r monitor b = monitor_publish-IsBalanced _ _ b

    pub rounds-IsBalanced :
        (dog : Watchdog) (scratch : Telemetry Double) (r : Running W Double) (turns : List Round)
        → IsBalanced 0 r.app
        → IsBalanced 0 (rounds env notify dog scratch r turns).app
    unfolding rounds
    rounds-IsBalanced dog scratch r [] b = b
    rounds-IsBalanced dog scratch r (t ∷ turns) b =
        rounds-IsBalanced dog scratch (round env notify dog scratch r t) turns
          (round-IsBalanced dog scratch r t b)

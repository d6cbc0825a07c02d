-- ===== src/Metrics.antt =====
-- platform/metrics.h and platform/metrics.c: the counters and gauges, and the file that shows them.
use edgeflow_energy_gateway.Common.{ℕ, ◌+◌, ◌%◌, ◌^◌, Bool, true, false, none, some, List, [], ◌∷◌}
use edgeflow_energy_gateway.Text.{CString, literal, print_ℕ, concat}
use edgeflow_energy_gateway.Files.{Files}

-- `gateway_metrics_t`: five 64-bit counters, then 32-bit gauges.
pub record GatewayMetrics : Type 0 where
  pub ingress_points : ℕ
  pub processed_points : ℕ
  pub mqtt_publish_ok : ℕ
  pub mqtt_publish_fail : ℕ
  pub mqtt_replay_total : ℕ
  pub queue_depth : ℕ
  pub queue_dropped : ℕ
  pub storage_pending_count : ℕ
  pub heartbeat_ingress_age_ms : ℕ
  pub heartbeat_worker_age_ms : ℕ
  pub heartbeat_monitor_age_ms : ℕ

abbrev pub metrics_init : GatewayMetrics
metrics_init = record {
  ingress_points = 0;
  processed_points = 0;
  mqtt_publish_ok = 0;
  mqtt_publish_fail = 0;
  mqtt_replay_total = 0;
  queue_depth = 0;
  queue_dropped = 0;
  storage_pending_count = 0;
  heartbeat_ingress_age_ms = 0;
  heartbeat_worker_age_ms = 0;
  heartbeat_monitor_age_ms = 0;
}

-- `atomic_fetch_add(&counter, 1ULL)`
abbrev pub count_up : ℕ → ℕ
count_up n = (n + 1) % 2 ^ 64

-- `(unsigned int)n`
abbrev pub to_uint : ℕ → ℕ
to_uint n = n % 2 ^ 32

-- A line of a name and a number.
abbrev pub metric_line : CString → ℕ → CString
metric_line name n = concat (name ∷ literal " " ∷ print_ℕ n ∷ literal "\n" ∷ [])

-- The lines of the file in their order.
unfoldable pub metrics_lines : GatewayMetrics → List CString
metrics_lines m =
    literal "# HELP edgeflow_ingress_points_total Total ingress telemetry points\n"
    ∷ metric_line (literal "edgeflow_ingress_points_total") m.ingress_points
    ∷ metric_line (literal "edgeflow_processed_points_total") m.processed_points
    ∷ metric_line (literal "edgeflow_mqtt_publish_ok_total") m.mqtt_publish_ok
    ∷ metric_line (literal "edgeflow_mqtt_publish_fail_total") m.mqtt_publish_fail
    ∷ metric_line (literal "edgeflow_mqtt_replay_total") m.mqtt_replay_total
    ∷ metric_line (literal "edgeflow_queue_depth") m.queue_depth
    ∷ metric_line (literal "edgeflow_queue_dropped_total") m.queue_dropped
    ∷ metric_line (literal "edgeflow_storage_pending_count") m.storage_pending_count
    ∷ metric_line (literal "edgeflow_heartbeat_ingress_age_ms") m.heartbeat_ingress_age_ms
    ∷ metric_line (literal "edgeflow_heartbeat_worker_age_ms") m.heartbeat_worker_age_ms
    ∷ metric_line (literal "edgeflow_heartbeat_monitor_age_ms") m.heartbeat_monitor_age_ms
    ∷ []

module _ {W : Type 0} (files : Files W) where
  unfoldable pub print_lines : ℕ → List CString → W → W
  print_lines fp [] w = w
  print_lines fp (line ∷ lines) w = print_lines fp lines (files.fprint fp line w)

  -- The counters are read while they are printed; here they are one record.
  unfoldable pub metrics_write_file : CString → GatewayMetrics → W → Bool × W
  unfolding metrics_lines print_lines
  metrics_write_file path metrics w = elim (files.fopen path (literal "w") w).0 [
    | none ↦ (false, (files.fopen path (literal "w") w).1)
    | some fp ↦
        let w₁ = (files.fopen path (literal "w") w).1 in
        (true, files.fclose fp (print_lines fp (metrics_lines metrics) w₁))
  ]

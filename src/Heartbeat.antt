-- ===== src/Heartbeat.antt =====
-- platform/heartbeat.h and platform/heartbeat.c: when each thread was last seen alive. The clock
-- reading is an argument, and a thread outside the three is not modelled.
use edgeflow_energy_gateway.Common.{ℕ, ◌-◌, leb, if◌then◌else◌}

pub data HeartbeatThread : Type 0 where
  ingress worker monitor : HeartbeatThread

-- `heartbeat_registry_t`
pub record HeartbeatRegistry : Type 0 where
  pub ingress_ms : ℕ
  pub worker_ms : ℕ
  pub monitor_ms : ℕ

unfoldable pub heartbeat_registry_init : ℕ → HeartbeatRegistry
heartbeat_registry_init now = record { ingress_ms = now; worker_ms = now; monitor_ms = now }

unfoldable pub heartbeat_touch : HeartbeatRegistry → HeartbeatThread → ℕ → HeartbeatRegistry
heartbeat_touch hb ingress now = record hb { ingress_ms = now }
heartbeat_touch hb worker now = record hb { worker_ms = now }
heartbeat_touch hb monitor now = record hb { monitor_ms = now }

abbrev pub last_ms : HeartbeatRegistry → HeartbeatThread → ℕ
last_ms hb ingress = hb.ingress_ms
last_ms hb worker = hb.worker_ms
last_ms hb monitor = hb.monitor_ms

unfoldable pub heartbeat_age_ms : HeartbeatRegistry → HeartbeatThread → ℕ → ℕ
heartbeat_age_ms hb thread now =
    let last = last_ms hb thread in if leb last now then now - last else 0

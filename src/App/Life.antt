-- ===== src/App/Life.antt =====
-- `gateway_app_init`, `gateway_app_run`, `gateway_app_stop` and `gateway_app_destroy` of
-- runtime/app.c. What `pthread_create` answers is an argument, and App/Start.antt interleaves the
-- rounds of the threads that it starts.
use edgeflow_energy_gateway.Common.{ℕ, Bool, true, false, Option, none, some, if◌then◌else◌}
use edgeflow_energy_gateway.Floats.{Floats}
use edgeflow_energy_gateway.Model.Types.{Telemetry, GatewayConfig}
use edgeflow_energy_gateway.Ring.{spsc_ring_init, spsc_ring_destroy}
use edgeflow_energy_gateway.Engine.{state_engine_init}
use edgeflow_energy_gateway.Adapter.{
  DeviceAdapter, Registry, AdapterStatus, adapter_registry_init, adapter_registry_register,
  adapter_registry_init_all, adapter_registry_shutdown_all,
}
use edgeflow_energy_gateway.Scheduler.{command_scheduler_init}
use edgeflow_energy_gateway.Storage.{StorageCtx, storage_open, storage_close}
use edgeflow_energy_gateway.Metrics.{metrics_init}
use edgeflow_energy_gateway.Heartbeat.{heartbeat_registry_init}
use edgeflow_energy_gateway.Mqtt.Session.{mqtt_session_init, mqtt_session_shutdown}
use edgeflow_energy_gateway.Watchdog.{
  Notify, Watchdog, watchdog_init, watchdog_notify_ready, watchdog_shutdown,
}
use edgeflow_energy_gateway.App.{Env, GatewayApp, update_heartbeat_metrics}

-- Whether each `calloc` of `gateway_app_init` succeeds.
pub record Memory : Type 0 where
  pub for_storage : Bool
  pub for_ring : Bool

abbrev pub is_ok : AdapterStatus → Bool
is_ok AdapterStatus.ok = true
is_ok AdapterStatus.err = false
is_ok AdapterStatus.err_full = false
is_ok AdapterStatus.err_not_found = false

module _ {W : Type 0} ⦃f : Floats⦄ (env : Env W f.Double) (notify : Notify W) where
  open f use {Double}

  -- From the ring on. `now` is the time of `heartbeat_registry_init`, and `zeroed` a point of
  -- zero bytes.
  unfoldable pub init_ring :
      Telemetry Double
      → Bool
      → GatewayConfig Double
      → ℕ
      → StorageCtx Double
      → Registry W Double
      → Watchdog
      → W
      → Option (GatewayApp W Double) × Watchdog × W
  init_ring zeroed memory cfg now storage reg dog w =
      let (dog', w₁) = watchdog_init notify cfg.watchdog_interval_ms dog w in
      elim (spsc_ring_init zeroed memory cfg.queue_size) [
        | none ↦ (none, dog, storage_close env.sqlite storage (adapter_registry_shutdown_all reg w))
        | some ring ↦ (
          some (record {
            cfg = cfg;
            registry = reg;
            ring = ring;
            state_engine = state_engine_init;
            command_scheduler = command_scheduler_init;
            metrics = metrics_init;
            storage = storage;
            mqtt = mqtt_session_init cfg;
            heartbeat = heartbeat_registry_init now;
          }),
          dog',
          w₁,
        )
      ]

  -- From the registry on, with the adapter that `modbus_adapter_fill` gives.
  unfoldable pub init_registry :
      DeviceAdapter W Double
      → Telemetry Double
      → Bool
      → GatewayConfig Double
      → ℕ
      → StorageCtx Double
      → Watchdog
      → W
      → Option (GatewayApp W Double) × Watchdog × W
  unfolding init_ring
  init_registry modbus zeroed memory cfg now storage dog w =
      let (reg, status) = adapter_registry_register adapter_registry_init modbus in
      let (done, reg', w₁) = adapter_registry_init_all reg cfg w in
      if is_ok status
      then init_ring zeroed memory cfg now storage reg' dog w₁
      else (none, dog, storage_close env.sqlite storage w)

  unfoldable pub gateway_app_init :
      DeviceAdapter W Double
      → Telemetry Double
      → Memory
      → GatewayConfig Double
      → Watchdog
      → W
      → Option (GatewayApp W Double) × Watchdog × W
  unfolding init_registry
  gateway_app_init modbus zeroed memory cfg dog w =
      let (now, w₁) = env.now_ms w in
      let w₂ = (storage_open env.sqlite memory.for_storage cfg w₁).1 in
      elim (storage_open env.sqlite memory.for_storage cfg w₁).0 [
        | none ↦ (none, dog, w₂)
        | some storage ↦ init_registry modbus zeroed memory.for_ring cfg now storage dog w₂
      ]

  -- `running` behind the call, which is true if and only if it returns 0; a thread that was
  -- started before one could not be is stopped by the flag and joined.
  unfoldable pub gateway_app_run : Bool → Bool → Bool → Watchdog → W → Bool × W
  gateway_app_run ingress worker monitor dog w =
      if ingress
      then (if worker
          then (if monitor then (true, watchdog_notify_ready notify dog w) else (false, w))
          else (false, w))
      else (false, w)

  -- What `worker_main` does behind its loop.
  unfoldable pub worker_end : GatewayApp W Double → W → GatewayApp W Double × W
  worker_end app w =
      let (app', w') = update_heartbeat_metrics env app w in
      (app', env.write_metrics app'.cfg.metrics_path app'.metrics w')

  -- When the threads have been joined.
  unfoldable pub gateway_app_stop :
      GatewayApp W Double → Watchdog → W → GatewayApp W Double × Watchdog × W
  gateway_app_stop app dog w =
      let (mqtt, w₁) = mqtt_session_shutdown env.net app.mqtt w in
      let (dog', w₂) = watchdog_shutdown notify dog w₁ in (record app { mqtt = mqtt }, dog', w₂)

  unfoldable pub gateway_app_destroy : GatewayApp W Double → W → GatewayApp W Double × W
  gateway_app_destroy app w = (
    record app { ring = spsc_ring_destroy app.ring },
    storage_close env.sqlite app.storage (adapter_registry_shutdown_all app.registry w),
  )

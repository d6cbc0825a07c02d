-- ===== src/App/Books/Start.antt =====
-- `gateway_app_init` of runtime/app.c starts with balanced counters.
use edgeflow_energy_gateway.Common.{
  ℕ, ◌+◌, ◌%◌, ◌^◌, ◌<◌, ◌≡◌, refl, Bool, Bool-cases, some, Option-cases, some-injective, inl, inr,
  List, arith,
}
use mathlib.Core.Path.{subst}
use edgeflow_energy_gateway.Floats.{Floats}
use edgeflow_energy_gateway.Model.Types.{Telemetry, GatewayConfig}
use edgeflow_energy_gateway.Ring.{spsc_ring_init, spsc_ring_count}
use edgeflow_energy_gateway.Ring.Count.{init-InUse}
use edgeflow_energy_gateway.Adapter.{
  DeviceAdapter, Registry, adapter_registry_init, adapter_registry_register,
  adapter_registry_init_all,
}
use edgeflow_energy_gateway.Storage.{StorageCtx, storage_open}
use edgeflow_energy_gateway.Watchdog.{Notify, Watchdog}
use edgeflow_energy_gateway.App.{Env, GatewayApp}
use edgeflow_energy_gateway.App.Life.{Memory, is_ok, init_ring, init_registry, gateway_app_init}
use edgeflow_energy_gateway.App.Start.{Round, Running, rounds}
use edgeflow_energy_gateway.App.Books.Rounds.{IsBalanced, rounds-IsBalanced}

module _ {W : Type 0} ⦃f : Floats⦄ (env : Env W f.Double) (notify : Notify W) where
  open f use {Double}

  init_ring-IsBalanced :
      (zeroed : Telemetry Double) (memory : Bool) (cfg : GatewayConfig Double) (now : ℕ)
      (ctx : StorageCtx Double) (reg : Registry W Double) (dog : Watchdog) (w : W)
      {app : GatewayApp W Double}
      → cfg.queue_size < 2 ^ 32
      → (init_ring env notify zeroed memory cfg now ctx reg dog w).0 ≡ some app
      → IsBalanced env 0 app
  unfolding init_ring
  init_ring-IsBalanced zeroed memory cfg now ctx reg dog w {app} hi h =
      elim (Option-cases (spsc_ring_init zeroed memory cfg.queue_size)) [
        | inl e ↦ cc (rw (e, init_ring) at h)
        | inr (ring, e) ↦
            let (in_use, empty) = init-InUse zeroed memory cfg.queue_size hi e in
            subst (IsBalanced env 0) (some-injective _ app (rw (e, init_ring) at h))
              (record { in_use = in_use; points = omega (arith, empty); outcomes = refl })
      ]

  init_registry-IsBalanced :
      (modbus : DeviceAdapter W Double) (zeroed : Telemetry Double) (memory : Bool)
      (cfg : GatewayConfig Double) (now : ℕ) (ctx : StorageCtx Double) (dog : Watchdog) (w : W)
      {app : GatewayApp W Double}
      → cfg.queue_size < 2 ^ 32
      → (init_registry env notify modbus zeroed memory cfg now ctx dog w).0 ≡ some app
      → IsBalanced env 0 app
  unfolding init_registry
  init_registry-IsBalanced modbus zeroed memory cfg now ctx dog w hi h =
      let reg = (adapter_registry_register adapter_registry_init modbus).0 in
      let (done, reg', w₁) = adapter_registry_init_all reg cfg w in
      elim (Bool-cases (is_ok (adapter_registry_register adapter_registry_init modbus).1)) [
        | inl ok ↦
            init_ring-IsBalanced zeroed memory cfg now ctx reg' dog w₁ hi
              (rw (ok, init_registry) at h)
        | inr refused ↦ cc (rw (refused, init_registry) at h)
      ]

  app_init-IsBalanced :
      (modbus : DeviceAdapter W Double) (zeroed : Telemetry Double) (memory : Memory)
      (cfg : GatewayConfig Double) (dog : Watchdog) (w : W) {app : GatewayApp W Double}
      → cfg.queue_size < 2 ^ 32
      → (gateway_app_init env notify modbus zeroed memory cfg dog w).0 ≡ some app
      → IsBalanced env 0 app
  unfolding gateway_app_init
  app_init-IsBalanced modbus zeroed memory cfg dog w hi h =
      let (now, w₁) = env.now_ms w in
      let w₂ = (storage_open env.sqlite memory.for_storage cfg w₁).1 in
      elim (Option-cases (storage_open env.sqlite memory.for_storage cfg w₁).0) [
        | inl e ↦ cc (rw (e, gateway_app_init) at h)
        | inr (ctx, e) ↦
            init_registry-IsBalanced modbus zeroed memory.for_ring cfg now ctx dog w₂ hi
              (rw (e, gateway_app_init) at h)
      ]

  -- From a successful `gateway_app_init` on, after any rounds of the threads, the counters balance
  -- modulo 2^64: the points that the ring took are those that were processed and those that still
  -- wait in it, and the processed points are those that were published and those whose publish
  -- failed. The size of the queue is a 32-bit integer.
  pub gateway_app_init-balance :
      (modbus : DeviceAdapter W Double) (zeroed scratch : Telemetry Double) (memory : Memory)
      (cfg : GatewayConfig Double) (dog dog' : Watchdog) (w w' : W) {app : GatewayApp W Double}
      (last : ℕ) (turns : List Round)
      → cfg.queue_size < 2 ^ 32
      → (gateway_app_init env notify modbus zeroed memory cfg dog w).0 ≡ some app
      → let r =
          rounds env notify dog' scratch (record { app = app; last = last; world = w' }) turns in
        let m = r.app.metrics in
        (m.ingress_points ≡ (m.processed_points + spsc_ring_count r.app.ring) % 2 ^ 64)
        × (m.processed_points ≡ (m.mqtt_publish_ok + m.mqtt_publish_fail) % 2 ^ 64)
  gateway_app_init-balance modbus zeroed scratch memory cfg dog dog' w w' {app} last turns hi h =
      let before : Running W Double = record { app = app; last = last; world = w' } in
      let balanced =
        rounds-IsBalanced env notify dog' scratch before turns
          (app_init-IsBalanced modbus zeroed memory cfg dog w hi h) in
      (balanced.points, omega (arith, balanced.outcomes))

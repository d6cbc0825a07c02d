-- ===== src/App/Start.antt =====
-- What `gateway_app_init` of runtime/app.c sets up, with the adapter of ingress/modbus_adapter.c, and
-- what holds of the gateway from then on, whatever rounds its threads run.
mod Tests
use edgeflow_energy_gateway.Common.{
  ℕ, ◌≤◌, ◌≡◌, refl, Bool, true, some, Option-cases, some-injective, inl, inr, List, [], ◌∷◌,
  length, arith, if◌then◌else◌,
}
use mathlib.Core.Path.{subst}
use edgeflow_energy_gateway.Floats.{Floats}
use edgeflow_energy_gateway.Text.{literal, str_eq}
use edgeflow_energy_gateway.Model.Enums.{Protocol}
use edgeflow_energy_gateway.Model.Types.{Telemetry, GatewayConfig}
use edgeflow_energy_gateway.Ring.{spsc_ring_init}
use edgeflow_energy_gateway.Adapter.{
  DeviceAdapter, is_some, adapter_registry_find, protocol_eq, adapter_registry_register,
  adapter_registry_init_all, adapter_registry_poll_all,
}
use edgeflow_energy_gateway.Adapter.Registry.{IsValid, poll_all-le}
use edgeflow_energy_gateway.Scheduler.{command_scheduler_init}
use edgeflow_energy_gateway.Storage.{StorageCtx, storage_open}
use edgeflow_energy_gateway.Modbus.Client.{Libmodbus}
use edgeflow_energy_gateway.Modbus.Plugin.{Statics, modbus_init, modbus_adapter_fill}
use edgeflow_energy_gateway.Modbus.Plugin.Room.{modbus_adapter-KeepsRoom}
use edgeflow_energy_gateway.Watchdog.{Notify, Watchdog}
use edgeflow_energy_gateway.App.{Env, GatewayApp, find_modbus_adapter, ingress_step, worker_step}
use edgeflow_energy_gateway.App.Monitor.{monitor_on_timer}
use edgeflow_energy_gateway.App.Life.{Memory, init_ring, init_registry, gateway_app_init}
use edgeflow_energy_gateway.App.Invariant.{
  IsReady, ingress_step-IsReady, worker_step-IsReady, monitor_on_timer-IsReady,
}

-- A round of one of the three threads.
pub data Round : Type 0 where
  ingress worker monitor : Round

-- The gateway, the worker's `last_metrics_ms`, and the world.
pub record Running (W D : Type 0) : Type 0 where
  pub app : GatewayApp W D
  pub last : ℕ
  pub world : W

module _ {W : Type 0} ⦃f : Floats⦄ (env : Env W f.Double) (notify : Notify W) where
  open f use {Double}

  -- One round while `running` is set; `scratch` is what a read past the ring would give.
  unfoldable pub round : Watchdog → Telemetry Double → Running W Double → Round → Running W Double
  round dog scratch r ingress =
      let (app, w) = ingress_step env r.app r.world in record r { app = app; world = w }
  round dog scratch r worker =
      let (last, app, w) = worker_step env scratch r.last r.app r.world in
      record { app = app; last = last; world = w }
  round dog scratch r monitor =
      let (app, w) = monitor_on_timer env notify true dog r.app r.world in
      record r { app = app; world = w }

  unfoldable pub rounds :
      Watchdog → Telemetry Double → Running W Double → List Round → Running W Double
  unfolding round
  rounds dog scratch r [] = r
  rounds dog scratch r (t ∷ turns) = rounds dog scratch (round dog scratch r t) turns

  round-IsReady :
      (dog : Watchdog) (scratch : Telemetry Double) (r : Running W Double) (t : Round)
      → IsReady env r.app
      → IsReady env (round dog scratch r t).app
  unfolding round
  round-IsReady dog scratch r ingress ok = ingress_step-IsReady env r.app r.world ok
  round-IsReady dog scratch r worker ok = worker_step-IsReady env scratch r.last r.app r.world ok
  round-IsReady dog scratch r monitor ok =
      monitor_on_timer-IsReady env notify true dog r.app r.world ok

  -- Whatever rounds the three threads run in whatever order, the gateway stays ready: its registry
  -- is usable and keeps to its room, no command is left in the queue, and the MQTT session knows
  -- whether it is connected.
  pub rounds-IsReady :
      (dog : Watchdog) (scratch : Telemetry Double) (r : Running W Double) (turns : List Round)
      → IsReady env r.app
      → IsReady env (rounds dog scratch r turns).app
  unfolding rounds
  rounds-IsReady dog scratch r [] ok = ok
  rounds-IsReady dog scratch r (t ∷ turns) ok =
      rounds-IsReady dog scratch (round dog scratch r t) turns (round-IsReady dog scratch r t ok)

module _ {V : Type 0} ⦃f : Floats⦄ (now_ms : V → ℕ × V) (lib : Libmodbus V)
    (env : Env (Statics V f.Double) f.Double) (notify : Notify (Statics V f.Double)) where
  open f use {Double}

  -- The adapter as `modbus_init` leaves it.
  abbrev bound : GatewayConfig Double → DeviceAdapter (Statics V Double) Double
  bound cfg = record (modbus_adapter_fill now_ms lib) {
    info = record {
      name = literal "modbus";
      protocol =
          if str_eq cfg.modbus_transport (literal "tcp")
          then Protocol.modbus_tcp
          else Protocol.modbus_rtu;
      source_id = 2;
    };
  }

  find-bound : (cfg : GatewayConfig Double) → is_some (find_modbus_adapter (bound cfg ∷ [])) ≡ true
  unfolding find_modbus_adapter adapter_registry_find protocol_eq
  find-bound cfg = ground arith

  bound-IsValid : (cfg : GatewayConfig Double) → IsValid (bound cfg ∷ [])
  unfolding modbus_adapter_fill
  bound-IsValid cfg = record { fits = omega arith; usable = ((refl, refl, refl), tt) }

  init_ring-IsReady :
      (zeroed : Telemetry Double) (memory : Bool) (cfg : GatewayConfig Double) (now : ℕ)
      (storage : StorageCtx Double) (dog : Watchdog) (w : Statics V Double)
      {app : GatewayApp (Statics V Double) Double}
      → (init_ring env notify zeroed memory cfg now storage (bound cfg ∷ []) dog w).0 ≡ some app
      → IsReady env app
  unfolding init_ring command_scheduler_init
  init_ring-IsReady zeroed memory cfg now storage dog w {app} h =
      elim (Option-cases (spsc_ring_init zeroed memory cfg.queue_size)) [
        | inl e ↦ cc (rw (e, init_ring) at h)
        | inr (ring, e) ↦
            let given = rw (e, init_ring) at h in
            subst (IsReady env) (some-injective _ app given) (record {
              valid = bound-IsValid cfg;
              keeps_room = (modbus_adapter-KeepsRoom now_ms lib (bound cfg).info, tt);
              modbus = find-bound cfg;
              idle = refl;
              session = record { flag = refl };
            })
      ]

  -- The registry is the one bound adapter by then.
  init_registry-IsReady :
      (zeroed : Telemetry Double) (memory : Bool) (cfg : GatewayConfig Double) (now : ℕ)
      (storage : StorageCtx Double) (dog : Watchdog) (w : Statics V Double)
      {app : GatewayApp (Statics V Double) Double}
      → (init_registry env notify
          (modbus_adapter_fill now_ms lib)
          zeroed
          memory
          cfg
          now
          storage
          dog
          w).0
        ≡ some app
      → IsReady env app
  unfolding init_registry adapter_registry_register adapter_registry_init_all modbus_adapter_fill
      modbus_init
  init_registry-IsReady zeroed memory cfg now storage dog w h =
      init_ring-IsReady zeroed memory cfg now storage dog (record w { modbus_cfg = some cfg }) h

  -- If `gateway_app_init` returns 0, the gateway is ready: the Modbus adapter is registered under
  -- the protocol of the configuration and can be found, no command waits, and the session is closed.
  pub gateway_app_init-IsReady :
      (zeroed : Telemetry Double) (memory : Memory) (cfg : GatewayConfig Double) (dog : Watchdog)
      (w : Statics V Double) {app : GatewayApp (Statics V Double) Double}
      → (gateway_app_init env notify (modbus_adapter_fill now_ms lib) zeroed memory cfg dog w).0
        ≡ some app
      → IsReady env app
  unfolding gateway_app_init
  gateway_app_init-IsReady zeroed memory cfg dog w {app} h =
      let (now, w₁) = env.now_ms w in
      let (opened, w₂) = storage_open env.sqlite memory.for_storage cfg w₁ in
      elim (Option-cases (storage_open env.sqlite memory.for_storage cfg w₁).0) [
        | inl e ↦ cc (rw (e, gateway_app_init) at h)
        | inr (storage, e) ↦
            init_registry-IsReady zeroed memory.for_ring cfg now storage dog w₂
              (rw (e, gateway_app_init) at h)
      ]

  -- From a successful `gateway_app_init` on, after any rounds of the threads, no command waits in the
  -- queue, and a poll of all adapters writes at most the eight points that the ingress thread has
  -- room for.
  pub gateway_app_init-rounds :
      (zeroed scratch : Telemetry Double) (memory : Memory) (cfg : GatewayConfig Double)
      (dog dog' : Watchdog) (w w' : Statics V Double) {app : GatewayApp (Statics V Double) Double}
      (last : ℕ) (turns : List Round)
      → (gateway_app_init env notify (modbus_adapter_fill now_ms lib) zeroed memory cfg dog w).0
        ≡ some app
      → let r =
          rounds env notify dog' scratch (record { app = app; last = last; world = w' }) turns in
        (r.app.command_scheduler.queue ≡ [])
        × (length (adapter_registry_poll_all r.app.registry 8 r.world).0 ≤ 8)
  gateway_app_init-rounds zeroed scratch memory cfg dog dog' w w' {app} last turns h =
      let before : Running (Statics V Double) Double = record {
        app = app;
        last = last;
        world = w';
      } in
      let r = rounds env notify dog' scratch before turns in
      let ready =
        rounds-IsReady env notify dog' scratch before turns
          (gateway_app_init-IsReady zeroed memory cfg dog w h) in
      (ready.idle, poll_all-le r.app.registry 8 r.world ready.keeps_room)

-- ===== src/Programs/Gateway/Conduct.antt =====
-- A run of main.c from the call of `gateway_app_init` to the one before `logger_shutdown`, step by
-- step, for what an account keeps.
use edgeflow_energy_gateway.Common.{
  ℕ, ◌≡◌, refl, sym, ◌∙◌, Bool, true, Bool-cases, Option, none, some, Option-cases, inl, inr, All,
  arith,
}
use mathlib.Core.Path.{subst}
use edgeflow_energy_gateway.Floats.{Floats}
use edgeflow_energy_gateway.Text.{literal}
use edgeflow_energy_gateway.Files.{Files}
use edgeflow_energy_gateway.Logger.{LogFp, log_error}
use edgeflow_energy_gateway.Model.Types.{Telemetry, GatewayConfig}
use edgeflow_energy_gateway.Ring.{spsc_ring_init}
use edgeflow_energy_gateway.Adapter.{
  DeviceAdapter, Registry, adapter_registry_init, adapter_registry_register,
  adapter_registry_init_all,
}
use edgeflow_energy_gateway.Storage.{StorageCtx, storage_open}
use edgeflow_energy_gateway.Mqtt.Session.{
  MqttSession, mqtt_session_init, mqtt_shutdown_locked, mqtt_session_shutdown,
}
use edgeflow_energy_gateway.Watchdog.{Notify, Watchdog, watchdog_start}
use edgeflow_energy_gateway.App.{Env, GatewayApp, update_heartbeat_metrics}
use edgeflow_energy_gateway.App.Fixed.{storage-rounds}
use edgeflow_energy_gateway.App.Life.{
  is_ok, init_ring, init_registry, gateway_app_init, gateway_app_run, worker_end, gateway_app_stop,
  gateway_app_destroy,
}
use edgeflow_energy_gateway.App.Start.{Running, rounds}
use edgeflow_energy_gateway.App.World.{AdapterKeeps}
use edgeflow_energy_gateway.App.World.Steps.{Holds}
use edgeflow_energy_gateway.App.World.Run.{rounds-Holds}
use edgeflow_energy_gateway.App.World.Ends.{
  init_all-Inv, register-AdapterKeeps, shutdown_all-Inv, watchdog_init-Inv, notify_ready-Inv,
  watchdog_shutdown-Inv, worker_end-Holds,
}
use edgeflow_energy_gateway.Programs.Gateway.{
  Course, has_worker, has_all, created, run_threads, run_gateway, start_gateway,
}
use edgeflow_energy_gateway.Programs.Gateway.Account.{
  Account, log_error-kept, fd-shutdown, app_run-has_all,
}

module _ {W : Type 0} ⦃f : Floats⦄ (files : Files W) (stderr : ℕ) (env : Env W f.Double)
    (notify : Notify W) where
  open f use {Double}

  module _ (all : Bool) (Before After : W → Type 0)
      (Inv : StorageCtx Double → MqttSession Double → W → Type 0)
      (account : Account files stderr env notify all Before After Inv) where
    -- What `gateway_app_init` leaves.
    abbrev Started : Option (GatewayApp W Double) → W → Type 0
    Started none w = After w
    Started (some app) w = Holds (Inv app.storage) env notify (account.keeps app.storage) app w

    init_ring-Started :
        (zeroed : Telemetry Double) (memory : Bool) (cfg : GatewayConfig Double) (now : ℕ)
        (ctx : StorageCtx Double) (reg : Registry W Double) (dog : Watchdog) (w : W)
        → All (AdapterKeeps (Inv ctx)) reg
        → Inv ctx (mqtt_session_init cfg) w
        → let (app, dog', w') = init_ring env notify zeroed memory cfg now ctx reg dog w in
          Started app w'
    unfolding init_ring
    init_ring-Started zeroed memory cfg now ctx reg dog w k h =
        let s = mqtt_session_init cfg in
        elim (Option-cases (spsc_ring_init zeroed memory cfg.queue_size)) [
          | inl e ↦
              rw (e, init_ring)
                (account.closed ctx s _ (shutdown_all-Inv (Inv ctx) reg s w k h) (λ a. refl))
          | inr (ring, e) ↦
              rw (e, init_ring)
                (record {
                  adapters = k;
                  inv =
                      watchdog_init-Inv (Inv ctx) env notify (account.keeps ctx)
                        cfg.watchdog_interval_ms dog s w h;
                })
        ]

    init_registry-Started :
        (modbus : DeviceAdapter W Double) (zeroed : Telemetry Double) (memory : Bool)
        (cfg : GatewayConfig Double) (now : ℕ) (ctx : StorageCtx Double) (dog : Watchdog) (w : W)
        → AdapterKeeps (Inv ctx) modbus
        → Inv ctx (mqtt_session_init cfg) w
        → let (app, dog', w') = init_registry env notify modbus zeroed memory cfg now ctx dog w in
          Started app w'
    unfolding init_registry
    init_registry-Started modbus zeroed memory cfg now ctx dog w k h =
        let s = mqtt_session_init cfg in
        let (reg, status) = adapter_registry_register adapter_registry_init modbus in
        let (done, reg', w₁) = adapter_registry_init_all reg cfg w in
        let (adapters, inv) =
          init_all-Inv (Inv ctx) reg cfg s w (register-AdapterKeeps (Inv ctx) modbus k) h in
        elim (Bool-cases (is_ok (adapter_registry_register adapter_registry_init modbus).1)) [
          | inl ok ↦
              rw (ok, init_registry)
                (init_ring-Started zeroed memory cfg now ctx reg' dog w₁ adapters inv)
          | inr refused ↦ rw (refused, init_registry) (account.closed ctx s w h (λ a. refl))
        ]

    app_init-Started :
        (modbus : DeviceAdapter W Double) (c : Course Double) (cfg : GatewayConfig Double)
        (dog : Watchdog) (w : W)
        → ((ctx : StorageCtx Double) → AdapterKeeps (Inv ctx) modbus)
        → Before w
        → let (app, dog', w') = gateway_app_init env notify modbus c.zeroed c.for_app cfg dog w in
          Started app w'
    unfolding gateway_app_init
    app_init-Started modbus c cfg dog w k h =
        let memory = c.for_app.for_storage in
        let (now, w₁) = env.now_ms w in
        let read = account.clock w h in
        let w₂ = (storage_open env.sqlite memory cfg w₁).1 in
        elim (Option-cases (storage_open env.sqlite memory cfg w₁).0) [
          | inl e ↦ rw (e, gateway_app_init) (account.not_opened memory cfg w₁ read e)
          | inr (ctx, e) ↦
              rw (e, gateway_app_init)
                (init_registry-Started modbus c.zeroed c.for_app.for_ring cfg now ctx dog w₂ (k ctx)
                  (account.opened memory cfg w₁ ctx read e))
        ]

    -- The threads leave a started gateway started, and its database the same.
    run_threads-Started :
        (c : Course Double) (dog : Watchdog) (app : GatewayApp W Double) (w : W)
        → Started (some app) w
        → let (app', w') = run_threads files stderr env notify c dog app w in Started (some app') w'
    unfolding run_threads worker_end update_heartbeat_metrics
    run_threads-Started c dog app w h =
        let keeps = account.keeps app.storage in
        let before : Running W Double = record { app = app; last = 0; world = w } in
        let r = rounds env notify dog c.scratch before (created c c.turns) in
        let (ended, w') = worker_end env notify r.app r.world in
        let ran =
          rounds-Holds (Inv app.storage) env notify keeps dog c.scratch before (created c c.turns)
            h in
        let ended_too = worker_end-Holds (Inv app.storage) env notify keeps r.app r.world ran in
        let same = sym (storage-rounds env notify dog c.scratch before (created c c.turns)) in
        elim (Bool-cases (has_worker c)) [
          | inl on ↦
              rw (on, run_threads)
                (subst
                  (λ (ctx : StorageCtx Double).
                    Holds (Inv ctx) env notify (account.keeps ctx) ended w')
                  same ended_too)
          | inr off ↦
              rw (off, run_threads)
                (subst
                  (λ (ctx : StorageCtx Double).
                    Holds (Inv ctx) env notify (account.keeps ctx) r.app r.world)
                  same ran)
        ]

    destroy-After :
        (app : GatewayApp W Double) (w : W)
        → Started (some app) w
        → (all ≡ true → app.mqtt.fd ≡ none)
        → After (gateway_app_destroy env notify app w).1
    unfolding gateway_app_destroy
    destroy-After app w h shut =
        account.closed app.storage app.mqtt _
          (shutdown_all-Inv (Inv app.storage) app.registry app.mqtt w h.adapters h.inv) shut

    stop-Started :
        (app : GatewayApp W Double) (dog : Watchdog) (w : W)
        → Started (some app) w
        → let (app', dog', w') = gateway_app_stop env notify app dog w in
          Started (some app') w' × (app'.mqtt.fd ≡ none)
    unfolding gateway_app_stop mqtt_session_shutdown
    stop-Started app dog w h =
        let keeps = account.keeps app.storage in
        let (s, w₁) = mqtt_shutdown_locked env.net app.mqtt w in
        (
          record {
            adapters = h.adapters;
            inv =
                watchdog_shutdown-Inv (Inv app.storage) env notify keeps dog s w₁
                  (keeps.shutdown app.mqtt w h.inv);
          },
          fd-shutdown env.net app.mqtt w,
        )

    app_run-Inv :
        (ctx : StorageCtx Double) (c : Course Double) (dog : Watchdog) (s : MqttSession Double)
        (w : W)
        → Inv ctx s w
        → Inv ctx s (gateway_app_run env notify c.ingress c.worker c.monitor dog w).1
    unfolding gateway_app_run
    app_run-Inv ctx c dog s w h =
        let told = notify_ready-Inv (Inv ctx) env notify (account.keeps ctx) dog s w h in
        ground (arith, told, h)

    run_gateway-After :
        (c : Course Double) (log : LogFp) (dog : Watchdog) (app : GatewayApp W Double) (w : W)
        → has_all c ≡ all
        → Started (some app) w
        → After (run_gateway files stderr env notify c log dog app w).1
    unfolding run_gateway
    run_gateway-After c log dog app w e h =
        let w₁ = (gateway_app_run env notify c.ingress c.worker c.monitor dog w).1 in
        let ready : Started (some app) w₁ = record {
          adapters = h.adapters;
          inv = app_run-Inv app.storage c dog app.mqtt w h.inv;
        } in
        let (app₁, w₂) = run_threads files stderr env notify c dog app w₁ in
        let ran = run_threads-Started c dog app w₁ ready in
        let (app₂, _, w₃) = gateway_app_stop env notify app₁ dog w₂ in
        let (stopped, shut) = stop-Started app₁ dog w₂ ran in
        let w₄ = log_error files stderr (literal "gateway_app_run failed") log w₂ in
        let told : Started (some app₁) w₄ = record {
          adapters = ran.adapters;
          inv =
              log_error-kept files (Inv app₁.storage app₁.mqtt)
                (account.prints app₁.storage app₁.mqtt) stderr _ log w₂ ran.inv;
        } in
        let answer = app_run-has_all files stderr env notify c dog w in
        elim (Bool-cases (has_all c)) [
          | inl started ↦
              rw (answer, started, run_gateway) (destroy-After app₂ w₃ stopped (λ a. shut))
          | inr failed ↦
              rw (answer, failed, run_gateway)
                (destroy-After app₁ w₄ told (λ a. let clash = sym failed ∙ e ∙ a in cc))
        ]

    pub start_gateway-After :
        (modbus : DeviceAdapter W Double) (c : Course Double) (log : LogFp)
        (cfg : GatewayConfig Double) (w : W)
        → ((ctx : StorageCtx Double) → AdapterKeeps (Inv ctx) modbus)
        → has_all c ≡ all
        → Before w
        → After (start_gateway files stderr env notify modbus c log cfg w).1
    unfolding start_gateway
    start_gateway-After modbus c log cfg w k e h =
        let (app, dog, w₁) =
          gateway_app_init env notify modbus c.zeroed c.for_app cfg watchdog_start w in
        let made = app_init-Started modbus c cfg watchdog_start w k h in
        elim (Option-cases
          (gateway_app_init env notify modbus c.zeroed c.for_app cfg watchdog_start w).0) [
            | inl refused ↦
                rw (refused, start_gateway)
                  (log_error-kept files After account.prints_after stderr _ log w₁
                    (rw refused at made))
            | inr (app, got) ↦
                rw (got, start_gateway) (run_gateway-After c log dog app w₁ e (rw got at made))
          ]

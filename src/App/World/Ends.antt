-- ===== src/App/World/Ends.antt =====
-- Where the gateway of runtime/app.c starts and ends: its adapters and its watchdog keep what their
-- single calls keep.
use edgeflow_energy_gateway.Common.{
  ℕ, Bool-cases, some, Option-cases, inl, inr, [], ◌∷◌, All, arith,
}
use edgeflow_energy_gateway.Floats.{Floats}
use edgeflow_energy_gateway.Text.{CString, copy_string}
use edgeflow_energy_gateway.Model.Types.{GatewayConfig}
use edgeflow_energy_gateway.Adapter.{
  AdapterInfo, DeviceAdapter, Registry, init_slot, init_slots, adapter_registry_init_all,
  adapter_registry_init, adapter_registry_register, adapter_registry_shutdown_all,
}
use edgeflow_energy_gateway.Mqtt.Session.{MqttSession}
use edgeflow_energy_gateway.Watchdog.{
  Notify, Watchdog, open_at, open_notify_socket, send_notify, watchdog_init, watchdog_notify_ready,
  watchdog_shutdown,
}
use edgeflow_energy_gateway.App.{Env, GatewayApp, update_heartbeat_metrics}
use edgeflow_energy_gateway.App.Life.{worker_end}
use edgeflow_energy_gateway.App.World.{AdapterKeeps, Keeps}
use edgeflow_energy_gateway.App.World.Steps.{Holds, heartbeats-Inv}

module _ {W : Type 0} ⦃f : Floats⦄ (Inv : MqttSession f.Double → W → Type 0) where
  open f use {Double}

  renamed-AdapterKeeps :
      (a : DeviceAdapter W Double) (info : AdapterInfo)
      → AdapterKeeps Inv a
      → AdapterKeeps Inv (record a { info = info })
  renamed-AdapterKeeps a info k = record {
    poll = k.poll;
    write_command = k.write_command;
    init = k.init;
    shutdown = k.shutdown;
  }

  init_slot-Inv :
      (a : DeviceAdapter W Double) (cfg : GatewayConfig Double) (s : MqttSession Double) (w : W)
      → AdapterKeeps Inv a
      → Inv s w
      → let (failed, a', w') = init_slot a cfg w in AdapterKeeps Inv a' × Inv s w'
  unfolding init_slot
  init_slot-Inv a cfg s w k h = elim (Option-cases a.init) [
    | inl e ↦ rw (e, init_slot) (k, h)
    | inr (call, e) ↦
        rw (e, init_slot)
          (renamed-AdapterKeeps a (call a.info cfg w).1 k, k.init call e a.info cfg s w h)
  ]

  init_slots-Inv :
      (reg : Registry W Double) (cfg : GatewayConfig Double) (s : MqttSession Double) (w : W)
      → All (AdapterKeeps Inv) reg
      → Inv s w
      → let (failures, reg', w') = init_slots reg cfg w in All (AdapterKeeps Inv) reg' × Inv s w'
  unfolding init_slots
  init_slots-Inv [] cfg s w k h = (k, h)
  init_slots-Inv (a ∷ reg) cfg s w k h =
      let (failed, a', w') = init_slot a cfg w in
      let (first, kept) = init_slot-Inv a cfg s w k.0 h in
      let (others, left) = init_slots-Inv reg cfg s w' k.1 kept in ((first, others), left)

  pub init_all-Inv :
      (reg : Registry W Double) (cfg : GatewayConfig Double) (s : MqttSession Double) (w : W)
      → All (AdapterKeeps Inv) reg
      → Inv s w
      → let (done, reg', w') = adapter_registry_init_all reg cfg w in
        All (AdapterKeeps Inv) reg' × Inv s w'
  unfolding adapter_registry_init_all
  init_all-Inv reg cfg s w k h = init_slots-Inv reg cfg s w k h

  -- A refused adapter is not in the registry.
  pub register-AdapterKeeps :
      (a : DeviceAdapter W Double)
      → AdapterKeeps Inv a
      → All (AdapterKeeps Inv) (adapter_registry_register adapter_registry_init a).0
  unfolding adapter_registry_register
  register-AdapterKeeps a k = ground (arith, k)

  pub shutdown_all-Inv :
      (reg : Registry W Double) (s : MqttSession Double) (w : W)
      → All (AdapterKeeps Inv) reg
      → Inv s w
      → Inv s (adapter_registry_shutdown_all reg w)
  unfolding adapter_registry_shutdown_all
  shutdown_all-Inv [] s w k h = h
  shutdown_all-Inv (a ∷ reg) s w k h = elim (Option-cases a.shutdown) [
    | inl e ↦ shutdown_all-Inv reg s _ k.1 (rw (e, adapter_registry_shutdown_all) h)
    | inr (call, e) ↦
        rw (e, adapter_registry_shutdown_all)
          (shutdown_all-Inv reg s (call a.info w) k.1 (k.0.shutdown call e a.info s w h))
  ]

  module _ (env : Env W Double) (notify : Notify W) (keeps : Keeps Inv env notify) where
    open_at-Inv :
        (path : CString) (dog : Watchdog) (s : MqttSession Double) (w : W)
        → Inv s w
        → Inv s (open_at notify path dog w).2
    unfolding open_at
    open_at-Inv path dog s w h = elim (Option-cases (notify.socket w).0) [
      | inl e ↦ rw (e, open_at) (keeps.notify_socket s w h)
      | inr (fd, e) ↦
          let w₁ = (notify.socket w).1 in
          let joined = keeps.notify_connect fd path s w₁ (keeps.notify_socket s w h) in
          elim (Bool-cases (notify.connect fd path w₁).0) [
            | inl connected ↦ rw (e, connected, open_at) joined
            | inr refused ↦ rw (e, refused, open_at) (keeps.notify_close fd s _ joined)
          ]
    ]

    pub watchdog_init-Inv :
        (ms : ℕ) (dog : Watchdog) (s : MqttSession Double) (w : W)
        → Inv s w
        → Inv s (watchdog_init notify ms dog w).1
    unfolding watchdog_init open_notify_socket
    watchdog_init-Inv ms dog s w h = elim (Option-cases notify.path) [
      | inl e ↦ rw (e, watchdog_init, open_notify_socket) h
      | inr ([], e) ↦ rw (e, watchdog_init, open_notify_socket) h
      | inr (c ∷ path, e) ↦
          rw (e, watchdog_init, open_notify_socket)
            (open_at-Inv (copy_string 108 (some (c ∷ path))) dog s w h)
    ]

    pub notify_ready-Inv :
        (dog : Watchdog) (s : MqttSession Double) (w : W)
        → Inv s w
        → Inv s (watchdog_notify_ready notify dog w)
    unfolding watchdog_notify_ready send_notify
    notify_ready-Inv dog s w h = elim (Bool-cases dog.enabled) [
      | inr off ↦ rw (off, watchdog_notify_ready) h
      | inl on ↦ elim (Option-cases dog.fd) [
        | inl e ↦ rw (on, e, watchdog_notify_ready, send_notify) h
        | inr (fd, e) ↦
            rw (on, e, watchdog_notify_ready, send_notify) (keeps.notify_write fd _ s w h)
      ]
    ]

    pub watchdog_shutdown-Inv :
        (dog : Watchdog) (s : MqttSession Double) (w : W)
        → Inv s w
        → Inv s (watchdog_shutdown notify dog w).1
    unfolding watchdog_shutdown
    watchdog_shutdown-Inv dog s w h = elim (Option-cases dog.fd) [
      | inl e ↦ rw (e, watchdog_shutdown) h
      | inr (fd, e) ↦ rw (e, watchdog_shutdown) (keeps.notify_close fd s w h)
    ]

    pub worker_end-Holds :
        (app : GatewayApp W Double) (w : W)
        → Holds Inv env notify keeps app w
        → let (app', w') = worker_end env notify app w in Holds Inv env notify keeps app' w'
    unfolding worker_end update_heartbeat_metrics
    worker_end-Holds app w h =
        let (app', w') = update_heartbeat_metrics env app w in
        let aged = heartbeats-Inv Inv env notify keeps app w h.inv in
        record {
          adapters = h.adapters;
          inv = keeps.write_metrics app'.cfg.metrics_path app'.metrics app'.mqtt w' aged;
        }

-- ===== src/App/World/Devices.antt =====
-- The adapters and the commands sent through them keep what their single calls keep
-- (ingress/adapter.c, runtime/command_scheduler.c and `worker_main` of runtime/app.c).
use edgeflow_energy_gateway.Common.{
  ℕ, ◌-◌, ◌≡◌, ◌∙◌, some-injective, Bool-cases, Option, none, some, Option-cases, inl, inr, List,
  [], ◌∷◌, All, arith, length, leb,
}
use mathlib.Core.Path.{subst}
use edgeflow_energy_gateway.Floats.{Floats}
use edgeflow_energy_gateway.Model.Enums.{Protocol}
use edgeflow_energy_gateway.Model.Types.{Telemetry, Command}
use edgeflow_energy_gateway.Adapter.{
  DeviceAdapter, Registry, poll_slots, adapter_registry_poll_all, adapter_registry_find,
  protocol_eq,
}
use edgeflow_energy_gateway.Scheduler.{
  CommandScheduler, command_scheduler_submit, pending_commands, dispatch, dispatch_all,
  command_scheduler_tick,
}
use edgeflow_energy_gateway.Storage.{StorageCtx, uses_db, storage_append_command}
use edgeflow_energy_gateway.Mqtt.Session.{MqttSession}
use edgeflow_energy_gateway.Watchdog.{Notify}
use edgeflow_energy_gateway.App.World.{AdapterKeeps, Keeps}
use edgeflow_energy_gateway.App.{Env, find_modbus_adapter, run_command, submit_command}

module _ {W : Type 0} ⦃f : Floats⦄ (Inv : MqttSession f.Double → W → Type 0) where
  open f use {Double}

  poll_slots-Inv :
      (reg : Registry W Double) (out : List (Telemetry Double)) (room : ℕ) (s : MqttSession Double)
      (w : W)
      → All (AdapterKeeps Inv) reg
      → Inv s w
      → Inv s (poll_slots reg out room w).1
  unfolding poll_slots
  poll_slots-Inv [] out room s w k h = h
  poll_slots-Inv (a ∷ reg) out room s w k h = elim (Bool-cases (leb room (length out))) [
    | inl full ↦ elim (Option-cases a.poll) [
      | inl e ↦ rw (e, poll_slots) h
      | inr (call, e) ↦ rw (e, full, poll_slots) h
    ]
    | inr space ↦ elim (Option-cases a.poll) [
      | inl e ↦ rw (e, poll_slots) h
      | inr (call, e) ↦
          rw (e, space, poll_slots)
            (poll_slots-Inv reg _ room s _ k.1 (k.0.poll call e a.info (room - length out) s w h))
    ]
  ]

  pub poll_all-Inv :
      (reg : Registry W Double) (room : ℕ) (s : MqttSession Double) (w : W)
      → All (AdapterKeeps Inv) reg
      → Inv s w
      → Inv s (adapter_registry_poll_all reg room w).1
  unfolding adapter_registry_poll_all
  poll_all-Inv reg room s w k h = ground (arith, h, poll_slots-Inv reg [] room s w k h)

  find-AdapterKeeps :
      (reg : Registry W Double) (p : Protocol) (a : DeviceAdapter W Double)
      → All (AdapterKeeps Inv) reg
      → adapter_registry_find reg p ≡ some a
      → AdapterKeeps Inv a
  unfolding adapter_registry_find
  find-AdapterKeeps [] p a k e = cc
  find-AdapterKeeps (b ∷ reg) p a k e = elim (Bool-cases (protocol_eq b.info.protocol p)) [
    | inl here ↦
        subst (AdapterKeeps Inv) (some-injective b a (rw (here, adapter_registry_find) at e)) k.0
    | inr later ↦ find-AdapterKeeps reg p a k.1 (rw (later, adapter_registry_find) at e)
  ]

  find_modbus-AdapterKeeps :
      (reg : Registry W Double) (a : DeviceAdapter W Double)
      → All (AdapterKeeps Inv) reg
      → find_modbus_adapter reg ≡ some a
      → AdapterKeeps Inv a
  unfolding find_modbus_adapter
  find_modbus-AdapterKeeps reg a k e =
      elim (Option-cases (adapter_registry_find reg Protocol.modbus_rtu)) [
        | inl none_found ↦
            find-AdapterKeeps reg Protocol.modbus_tcp a k
              (rw (none_found, find_modbus_adapter) at e)
        | inr (b, found) ↦
            find-AdapterKeeps reg Protocol.modbus_rtu a k
              (found ∙ (rw (found, find_modbus_adapter) at e))
      ]

  dispatch_all-Inv :
      (a : DeviceAdapter W Double) (store : Command Double → W → W) (cs : List (Command Double))
      (s : MqttSession Double) (w : W)
      → AdapterKeeps Inv a
      → ((c : Command Double) (t : MqttSession Double) (v : W) → Inv t v → Inv t (store c v))
      → Inv s w
      → Inv s (dispatch_all a store cs w).1
  unfolding dispatch_all dispatch
  dispatch_all-Inv a store [] s w k keeps h = h
  dispatch_all-Inv a store (c ∷ cs) s w k keeps h = elim (Option-cases a.write_command) [
    | inl e ↦ dispatch_all-Inv a store cs s _ k keeps (keeps _ s _ (rw (e, dispatch) h))
    | inr (call, e) ↦
        dispatch_all-Inv a store cs s _ k keeps
          (keeps _ s _ (rw (e, dispatch) (k.write_command call e a.info _ s w h)))
  ]

  module _ (env : Env W Double) (notify : Notify W) (keeps : Keeps Inv env notify) where
    append_command-Inv :
        (ctx : StorageCtx Double) (c : Command Double) (s : MqttSession Double) (w : W)
        → Inv s w
        → Inv s (storage_append_command env.sqlite ctx c w).1
    unfolding storage_append_command
    append_command-Inv ctx c s w h = elim (Bool-cases (uses_db ctx)) [
      | inl on ↦
          rw (on, storage_append_command)
            (keeps.insert_command c _ s _ (keeps.append_line ctx.cfg.cache_path _ s w h))
      | inr off ↦ rw (off, storage_append_command) (keeps.append_line ctx.cfg.cache_path _ s w h)
    ]

    run_command-Inv :
        (ctx : StorageCtx Double) (reg : Registry W Double) (c : Command Double)
        (sch : CommandScheduler Double) (s : MqttSession Double) (w : W)
        → All (AdapterKeeps Inv) reg
        → Inv s w
        → Inv s (run_command env ctx reg c sch w).1
    unfolding run_command command_scheduler_tick
    run_command-Inv ctx reg c sch s w k h = elim (Option-cases (command_scheduler_submit sch c)) [
      | inl full ↦ rw (full, run_command) h
      | inr ((sch₁, c₁), q) ↦ elim (Option-cases (find_modbus_adapter reg)) [
        | inl e ↦ rw (q, e, run_command) h
        | inr (modbus, e) ↦
            rw (q, e, run_command)
              (dispatch_all-Inv modbus _ (pending_commands sch₁.queue) s w
                (find_modbus-AdapterKeeps reg modbus k e)
                (λ d t v i. append_command-Inv ctx d t v i) h)
      ]
    ]

    pub submit_command-Inv :
        (ctx : StorageCtx Double) (reg : Registry W Double) (c : Option (Command Double))
        (sch : CommandScheduler Double) (s : MqttSession Double) (w : W)
        → All (AdapterKeeps Inv) reg
        → Inv s w
        → Inv s (submit_command env ctx reg c sch w).1
    unfolding submit_command
    submit_command-Inv ctx reg none sch s w k h = h
    submit_command-Inv ctx reg (some c) sch s w k h =
        ground (arith, h, run_command-Inv ctx reg c sch s w k h)

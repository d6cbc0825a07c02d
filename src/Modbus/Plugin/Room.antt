-- ===== src/Modbus/Plugin/Room.antt =====
-- The contract of `poll`, ingress/adapter.h, for the adapters of ingress/modbus_adapter.c and
-- ingress/stub_adapter.c: no more points than there is room for.
use mathlib.Core.Path.{subst}
use edgeflow_energy_gateway.Common.{
  ℕ, ◌≤◌, ◌≡◌, refl, sym, ◌∙◌, Option, some, Option-cases, some-injective, inl, inr, List, length,
  arith,
}
use edgeflow_energy_gateway.Floats.{Floats}
use edgeflow_energy_gateway.Model.Types.{Telemetry, GatewayConfig}
use edgeflow_energy_gateway.Adapter.{AdapterInfo, DeviceAdapter}
use edgeflow_energy_gateway.Adapter.Registry.{KeepsRoom}
use edgeflow_energy_gateway.Modbus.Client.{
  Libmodbus, Client, map_registers_to_telemetry, modbus_libmodbus_poll,
}
use edgeflow_energy_gateway.Modbus.Plugin.{
  Statics, simulated_points, modbus_poll_simulate, modbus_rtu_poll, modbus_poll, stub_poll,
  modbus_adapter_fill, stub_adapter_fill,
}

-- A `poll` that fills at most its room does so under whatever name the registry holds it.
KeepsRoom-poll :
    {W D : Type 0} (a : DeviceAdapter W D)
    (poll : AdapterInfo → ℕ → W → Option (List (Telemetry D)) × W)
    → a.poll ≡ some poll
    → ((room : ℕ) (w : W) (points : List (Telemetry D))
        → (poll a.info room w).0 ≡ some points
        → length points ≤ room)
    → KeepsRoom a
KeepsRoom-poll a poll e fits call room w points h k =
    fits room w points
      (subst (λ c. (c a.info room w).0 ≡ some points) (some-injective call poll (sym h ∙ e)) k)

module _ ⦃f : Floats⦄ where
  open f use {Double}

  length-simulated_points :
      (now seq source_id : ℕ) → length (simulated_points now seq source_id) ≡ 3
  unfolding simulated_points
  length-simulated_points now seq source_id = refl

  length-map_registers :
      (regs : List ℕ) (max_out now : ℕ) (points : List (Telemetry Double))
      → map_registers_to_telemetry regs max_out now ≡ some points
      → length points ≤ max_out
  unfolding map_registers_to_telemetry
  length-map_registers regs max_out now points h = ground arith

  module _ {V : Type 0} (now_ms : V → ℕ × V) where
    stub_poll-le :
        (self : AdapterInfo) (max_out : ℕ) (s : Statics V Double) (points : List (Telemetry Double))
        → (stub_poll now_ms self max_out s).0 ≡ some points
        → length points ≤ max_out
    unfolding stub_poll
    stub_poll-le self max_out s points h =
        ground (arith, length-simulated_points (now_ms s.outside).0 s.stub_seq self.source_id)

    module _ (lib : Libmodbus V) where
      modbus_libmodbus_poll-le :
          (cfg : GatewayConfig Double) (max_out : ℕ) (c : Client) (v : V)
          (points : List (Telemetry Double))
          → (modbus_libmodbus_poll lib now_ms cfg max_out c v).0 ≡ some points
          → length points ≤ max_out
      unfolding modbus_libmodbus_poll
      modbus_libmodbus_poll-le cfg max_out c v points h = grind (arith, length-map_registers)

      modbus_rtu_poll-le :
          (cfg : GatewayConfig Double) (max_out : ℕ) (s : Statics V Double)
          (points : List (Telemetry Double))
          → (modbus_rtu_poll now_ms lib cfg max_out s).0 ≡ some points
          → length points ≤ max_out
      unfolding modbus_rtu_poll modbus_poll_simulate
      modbus_rtu_poll-le cfg max_out s points h = ground (
        arith,
        length-simulated_points (now_ms s.outside).0 s.sim_seq 2,
        modbus_libmodbus_poll-le cfg max_out s.client s.outside points,
      )

      modbus_poll-le :
          (self : AdapterInfo) (max_out : ℕ) (s : Statics V Double)
          (points : List (Telemetry Double))
          → (modbus_poll now_ms lib self max_out s).0 ≡ some points
          → length points ≤ max_out
      unfolding modbus_poll
      modbus_poll-le self max_out s points h = elim (Option-cases s.modbus_cfg) [
        | inl e ↦ ground arith
        | inr (cfg, e) ↦ ground (arith, modbus_rtu_poll-le cfg max_out s points)
      ]

      -- The adapter of the gateway keeps to its room, under any name and protocol.
      pub modbus_adapter-KeepsRoom :
          (info : AdapterInfo) → KeepsRoom (record (modbus_adapter_fill now_ms lib) { info = info })
      unfolding modbus_adapter_fill
      modbus_adapter-KeepsRoom info =
          KeepsRoom-poll (record (modbus_adapter_fill now_ms lib) { info = info })
            (modbus_poll now_ms lib) refl (modbus_poll-le info)

    pub stub_adapter-KeepsRoom : KeepsRoom (stub_adapter_fill now_ms)
    unfolding stub_adapter_fill
    stub_adapter-KeepsRoom =
        KeepsRoom-poll (stub_adapter_fill now_ms) (stub_poll now_ms) refl
          (stub_poll-le (stub_adapter_fill now_ms).info)

-- ===== src/Modbus/Plugin.antt =====
-- The polling functions of ingress/modbus_rtu.c, ingress/modbus_adapter.h and
-- ingress/modbus_adapter.c, and ingress/stub_adapter.h and ingress/stub_adapter.c. Log output is not
-- modelled, nor is the request frame that the simulation builds and throws away.
pub mod Room
use edgeflow_energy_gateway.Common.{
  ℕ, ◌+◌, ◌*◌, ◌%◌, ◌^◌, Bool, true, false, Option, none, some, List, [], ◌∷◌, ltb, if◌then◌else◌,
}
use edgeflow_energy_gateway.Floats.{Floats}
use edgeflow_energy_gateway.Text.{CString, literal, str_eq}
use edgeflow_energy_gateway.Model.Enums.{Protocol}
use edgeflow_energy_gateway.Model.Types.{Telemetry, Command, GatewayConfig}
use edgeflow_energy_gateway.Model.Build.{telemetry_init}
use edgeflow_energy_gateway.Adapter.{AdapterInfo, DeviceAdapter}
use edgeflow_energy_gateway.Modbus.Client.{
  Libmodbus, Client, modbus_libmodbus_shutdown, modbus_libmodbus_poll,
}

-- The static variables of the adapters, and the world outside. A `cfg` that is not bound is none.
pub record Statics (V D : Type 0) : Type 0 where
  pub sim_seq : ℕ
  pub modbus_cfg : Option (GatewayConfig D)
  pub client : Client
  pub stub_seq : ℕ
  pub stub_cfg : Option (GatewayConfig D)
  pub outside : V

module _ ⦃f : Floats⦄ where
  open f use {Double, add, sub, mul, of_ℕ, decimal}

  -- The three points of the simulation.
  unfoldable pub simulated_points : ℕ → ℕ → ℕ → List (Telemetry Double)
  unfolding telemetry_init
  simulated_points now seq source_id =
      telemetry_init now (some (literal "bms_001")) (some (literal "soc_percent"))
        (sub (decimal 800 1) (mul (of_ℕ (seq % 30)) (decimal 2 1))) (some (literal "%")) source_id
      ∷ telemetry_init now (some (literal "bms_001")) (some (literal "max_cell_temp_c"))
          (add (decimal 280 1) (mul (of_ℕ (seq % 20)) (decimal 2 1))) (some (literal "C")) source_id
      ∷ telemetry_init now (some (literal "meter_001")) (some (literal "grid_power_kw"))
          (add (decimal 900 1) (of_ℕ (seq % 80))) (some (literal "kW")) source_id
      ∷ []

  module _ {V : Type 0} (now_ms : V → ℕ × V) where
    unfoldable pub modbus_poll_simulate :
        ℕ → Statics V Double → Option (List (Telemetry Double)) × Statics V Double
    unfolding simulated_points
    modbus_poll_simulate max_out s =
        let (now, v) = now_ms s.outside in
        if ltb max_out 3 then (none, s) else (
          some (simulated_points now s.sim_seq 2),
          record s { sim_seq = (s.sim_seq + 1) % 2 ^ 32; outside = v },
        )

    unfoldable pub stub_init :
        AdapterInfo
        → GatewayConfig Double
        → Statics V Double
        → Bool × AdapterInfo × Statics V Double
    stub_init self cfg s = (true, self, record s { stub_seq = 0; stub_cfg = some cfg })

    unfoldable pub stub_shutdown : AdapterInfo → Statics V Double → Statics V Double
    stub_shutdown self s = s

    unfoldable pub stub_poll :
        AdapterInfo → ℕ → Statics V Double → Option (List (Telemetry Double)) × Statics V Double
    unfolding simulated_points
    stub_poll self max_out s =
        let (now, v) = now_ms s.outside in
        if ltb max_out 3 then (none, s) else elim s.stub_cfg [
          | none ↦ (none, s)
          | some cfg ↦
              if cfg.simulate
              then (
                some (simulated_points now s.stub_seq self.source_id),
                record s { stub_seq = (s.stub_seq + 1) % 2 ^ 32; outside = v },
              )
              else (some [], s)
        ]

    unfoldable pub stub_write_command :
        AdapterInfo → Command Double → Statics V Double → Bool × Statics V Double
    stub_write_command self cmd s = (false, s)

    unfoldable pub stub_adapter_fill : DeviceAdapter (Statics V Double) Double
    unfolding stub_init stub_shutdown stub_poll stub_write_command
    stub_adapter_fill = record {
      info = record { name = literal "stub"; protocol = Protocol.simulator; source_id = 1 };
      init = some stub_init;
      shutdown = some stub_shutdown;
      poll = some stub_poll;
      write_command = some stub_write_command;
    }

    module _ (lib : Libmodbus V) where
      unfoldable pub modbus_rtu_poll :
          GatewayConfig Double
          → ℕ
          → Statics V Double
          → Option (List (Telemetry Double)) × Statics V Double
      unfolding modbus_poll_simulate modbus_libmodbus_poll
      modbus_rtu_poll cfg max_out s =
          let (points, c, v) = modbus_libmodbus_poll lib now_ms cfg max_out s.client s.outside in
          if ltb max_out 3
          then (none, s)
          else if cfg.simulate
          then modbus_poll_simulate max_out s
          else (points, record s { client = c; outside = v })

      unfoldable pub modbus_init :
          AdapterInfo
          → GatewayConfig Double
          → Statics V Double
          → Bool × AdapterInfo × Statics V Double
      modbus_init self cfg s = (
        true,
        record self {
          protocol =
              if str_eq cfg.modbus_transport (literal "tcp")
              then Protocol.modbus_tcp
              else Protocol.modbus_rtu;
        },
        record s { modbus_cfg = some cfg },
      )

      unfoldable pub modbus_shutdown : AdapterInfo → Statics V Double → Statics V Double
      unfolding modbus_libmodbus_shutdown
      modbus_shutdown self s =
          let (c, v) = modbus_libmodbus_shutdown lib s.client s.outside in
          record s { client = c; outside = v }

      unfoldable pub modbus_poll :
          AdapterInfo → ℕ → Statics V Double → Option (List (Telemetry Double)) × Statics V Double
      unfolding modbus_rtu_poll
      modbus_poll self max_out s = elim s.modbus_cfg [
        | none ↦ (none, s)
        | some cfg ↦ modbus_rtu_poll cfg max_out s
      ]

      unfoldable pub modbus_write_command :
          AdapterInfo → Command Double → Statics V Double → Bool × Statics V Double
      modbus_write_command self cmd s = (true, s)

      unfoldable pub modbus_adapter_fill : DeviceAdapter (Statics V Double) Double
      unfolding modbus_init modbus_shutdown modbus_poll modbus_write_command
      modbus_adapter_fill = record {
        info = record { name = literal "modbus"; protocol = Protocol.modbus_rtu; source_id = 2 };
        init = some modbus_init;
        shutdown = some modbus_shutdown;
        poll = some modbus_poll;
        write_command = some modbus_write_command;
      }

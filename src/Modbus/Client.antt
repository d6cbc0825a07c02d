-- ===== src/Modbus/Client.antt =====
-- ingress/modbus_libmodbus.h and ingress/modbus_libmodbus.c. `Libmodbus` stands for the vendored
-- library; its contexts are numbers, and the two static variables of the file are a part of the
-- world.
pub mod Contexts
use edgeflow_energy_gateway.Common.{
  ℕ, ◌+◌, ◌*◌, ◌%◌, ◌^◌, Bool, true, false, Option, none, some, List, [], ◌∷◌, ltb, get_or,
  if◌then◌else◌,
}
use edgeflow_energy_gateway.Floats.{Floats}
use edgeflow_energy_gateway.Text.{CString, literal, str_eq, copy_string}
use edgeflow_energy_gateway.Model.Types.{Telemetry, GatewayConfig}
use edgeflow_energy_gateway.Model.Build.{telemetry_init}

pub record Libmodbus (W : Type 0) : Type 0 where
  pub new_tcp : CString → ℕ → W → Option ℕ × W
  -- device, baud rate, parity, data bits, stop bits
  pub new_rtu : CString → ℕ → ℕ → ℕ → ℕ → W → Option ℕ × W
  pub set_slave : ℕ → ℕ → W → W
  -- seconds and microseconds
  pub set_response_timeout : ℕ → ℕ → ℕ → W → W
  pub connect : ℕ → W → Bool × W
  pub close : ℕ → W → W
  pub free : ℕ → W → W
  -- the registers from the first address on, as many as asked for, or an error
  pub read_registers : ℕ → ℕ → ℕ → W → Option (List ℕ) × W

-- `g_ctx` and `g_transport`.
pub record Client : Type 0 where
  pub ctx : Option ℕ
  pub transport : CString

abbrev pub client_start : Client
client_start = record { ctx = none; transport = [] }

unfoldable pub copy_transport_label : Option CString → ℕ → CString
copy_transport_label none len = copy_string len (some (literal "rtu"))
copy_transport_label (some src) len = copy_string len (some src)

-- The microseconds that are asked for: an `int` product passed on as a `uint32_t`.
abbrev pub timeout_us : {D : Type 0} → GatewayConfig D → ℕ
timeout_us cfg = cfg.modbus_timeout_ms * 1000 % 2 ^ 32

-- Whether there is a context for the configured transport.
abbrev pub is_current : {D : Type 0} → GatewayConfig D → Client → Bool
is_current cfg c = elim c.ctx [ none ↦ false | some ctx ↦ str_eq c.transport cfg.modbus_transport ]

module _ {W : Type 0} (lib : Libmodbus W) where
  unfoldable pub modbus_libmodbus_shutdown : Client → W → Client × W
  modbus_libmodbus_shutdown c w = elim c.ctx [
    | none ↦ (c, w)
    | some ctx ↦ (client_start, lib.free ctx (lib.close ctx w))
  ]

  -- A new context by the configured transport; libmodbus takes `int` arguments.
  unfoldable pub new_context : {D : Type 0} → GatewayConfig D → W → Option ℕ × W
  new_context cfg w =
      if str_eq cfg.modbus_transport (literal "tcp")
      then lib.new_tcp cfg.modbus_tcp_host cfg.modbus_tcp_port w
      else lib.new_rtu cfg.serial_device cfg.modbus_baud_rate cfg.modbus_parity cfg.modbus_data_bits
          cfg.modbus_stop_bits w

  -- From the new context on.
  unfoldable pub connect_context :
      {D : Type 0} → GatewayConfig D → Option ℕ → Client → W → Bool × Client × W
  connect_context cfg none c w = (false, record c { ctx = none }, w)
  connect_context cfg (some ctx) c w =
      let w₁ = lib.set_slave ctx cfg.modbus_slave_id w in
      let w₂ = lib.set_response_timeout ctx 0 (timeout_us cfg) w₁ in
      let (connected, w₃) = lib.connect ctx w₂ in
      if connected
      then (
        true,
        record { ctx = some ctx; transport = copy_transport_label (some cfg.modbus_transport) 8 },
        w₃,
      )
      else (false, record c { ctx = none }, lib.free ctx w₃)

  unfoldable pub ensure_context : {D : Type 0} → GatewayConfig D → Client → W → Bool × Client × W
  unfolding modbus_libmodbus_shutdown new_context connect_context
  ensure_context cfg c w =
      let (idle, w₁) = modbus_libmodbus_shutdown c w in
      let (made, w₂) = new_context cfg w₁ in
      if is_current cfg c then (true, c, w) else connect_context cfg made idle w₂

module _ ⦃f : Floats⦄ where
  open f use {Double, mul, of_ℕ, decimal}

  -- The points for three registers, at the time `now`.
  unfoldable pub map_registers_to_telemetry : List ℕ → ℕ → ℕ → Option (List (Telemetry Double))
  unfolding telemetry_init
  map_registers_to_telemetry regs max_out now =
      let scaled = λ (i : ℕ). mul (of_ℕ (get_or regs i 0)) (decimal 1 1) in
      if ltb max_out 3
      then none
      else some (
          telemetry_init now (some (literal "bms_001")) (some (literal "soc_percent")) (scaled 0)
            (some (literal "%")) 2
          ∷ telemetry_init now (some (literal "bms_001")) (some (literal "max_cell_temp_c"))
              (scaled 1) (some (literal "C")) 2
          ∷ telemetry_init now (some (literal "meter_001")) (some (literal "grid_power_kw"))
              (scaled 2) (some (literal "kW")) 2
          ∷ [])

  unfoldable pub modbus_libmodbus_poll :
      {W : Type 0}
      → Libmodbus W
      → (W → ℕ × W)
      → GatewayConfig Double
      → ℕ
      → Client
      → W
      → Option (List (Telemetry Double)) × Client × W
  unfolding map_registers_to_telemetry
  modbus_libmodbus_poll lib now_ms cfg max_out c w =
      let (ready, c₁, w₁) = ensure_context lib cfg c w in
      if ltb max_out 3
      then (none, c, w)
      else if ready
      then elim c₁.ctx [
        -- not after `ensure_context` has succeeded
        | none ↦ (none, c₁, w₁)
        | some ctx ↦
            let w₂ = (lib.read_registers ctx 0 3 w₁).1 in
            elim (lib.read_registers ctx 0 3 w₁).0 [
              | none ↦ let (c₂, w₃) = modbus_libmodbus_shutdown lib c₁ w₂ in (none, c₂, w₃)
              | some regs ↦
                  let (now, w₃) = now_ms w₂ in (map_registers_to_telemetry regs max_out now, c₁, w₃)
            ]
      ]
      else (none, c₁, w₁)

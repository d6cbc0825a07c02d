-- ===== src/App/World/Modbus.antt =====
-- The adapter of ingress/modbus_adapter.c leaves alone what libmodbus and the clock leave alone.
use edgeflow_energy_gateway.Common.{
  ℕ, ◌≡◌, refl, sym, ap, ◌∙◌, some-injective, Bool, Bool-cases, Option, none, some, Option-cases,
  inl, inr, List, arith, ltb,
}
use edgeflow_energy_gateway.Floats.{Floats}
use edgeflow_energy_gateway.Text.{CString, literal, str_eq}
use edgeflow_energy_gateway.Model.Types.{Telemetry, Command, GatewayConfig}
use edgeflow_energy_gateway.Adapter.{AdapterInfo}
use edgeflow_energy_gateway.Modbus.Client.{
  Libmodbus, Client, is_current, timeout_us, modbus_libmodbus_shutdown, new_context,
  connect_context, ensure_context, modbus_libmodbus_poll,
}
use edgeflow_energy_gateway.Modbus.Plugin.{
  Statics, modbus_poll_simulate, modbus_rtu_poll, modbus_init, modbus_shutdown, modbus_poll,
  modbus_write_command, modbus_adapter_fill,
}
use edgeflow_energy_gateway.App.World.Leaves.{AdapterLeaves}

-- The library is apart.
pub record LibmodbusLeaves {V A : Type 0} (lib : Libmodbus V) (part : V → A) : Type 0 where
  pub new_tcp : (host : CString) (port : ℕ) (w : V) → part (lib.new_tcp host port w).1 ≡ part w
  pub new_rtu :
      (device : CString) (baud parity size stop : ℕ) (w : V)
      → part (lib.new_rtu device baud parity size stop w).1 ≡ part w
  pub set_slave : (ctx id : ℕ) (w : V) → part (lib.set_slave ctx id w) ≡ part w
  pub set_response_timeout :
      (ctx s us : ℕ) (w : V) → part (lib.set_response_timeout ctx s us w) ≡ part w
  pub connect : (ctx : ℕ) (w : V) → part (lib.connect ctx w).1 ≡ part w
  pub close : (ctx : ℕ) (w : V) → part (lib.close ctx w) ≡ part w
  pub free : (ctx : ℕ) (w : V) → part (lib.free ctx w) ≡ part w
  pub read_registers :
      (ctx first n : ℕ) (w : V) → part (lib.read_registers ctx first n w).1 ≡ part w

module _ {V A : Type 0} (lib : Libmodbus V) (part : V → A) (leaves : LibmodbusLeaves lib part) where
  part-shutdown : (c : Client) (w : V) → part (modbus_libmodbus_shutdown lib c w).1 ≡ part w
  unfolding modbus_libmodbus_shutdown
  part-shutdown c w = elim (Option-cases c.ctx) [
    | inl e ↦ rw (e, modbus_libmodbus_shutdown) refl
    | inr (ctx, e) ↦
        rw (e, modbus_libmodbus_shutdown) (leaves.free ctx (lib.close ctx w) ∙ leaves.close ctx w)
  ]

  part-new_context :
      {D : Type 0} (cfg : GatewayConfig D) (w : V) → part (new_context lib cfg w).1 ≡ part w
  unfolding new_context
  part-new_context cfg w = elim (Bool-cases (str_eq cfg.modbus_transport (literal "tcp"))) [
    | inl tcp ↦ rw (tcp, new_context) (leaves.new_tcp cfg.modbus_tcp_host cfg.modbus_tcp_port w)
    | inr rtu ↦
        rw (rtu, new_context)
          (leaves.new_rtu cfg.serial_device cfg.modbus_baud_rate cfg.modbus_parity
            cfg.modbus_data_bits cfg.modbus_stop_bits w)
  ]

  part-connect_context :
      {D : Type 0} (cfg : GatewayConfig D) (made : Option ℕ) (c : Client) (w : V)
      → part (connect_context lib cfg made c w).2 ≡ part w
  unfolding connect_context
  part-connect_context cfg none c w = refl
  part-connect_context cfg (some ctx) c w =
      let w₁ = lib.set_slave ctx cfg.modbus_slave_id w in
      let w₂ = lib.set_response_timeout ctx 0 (timeout_us cfg) w₁ in
      let w₃ = (lib.connect ctx w₂).1 in
      let tried =
        leaves.connect ctx w₂
        ∙ leaves.set_response_timeout ctx 0 (timeout_us cfg) w₁
        ∙ leaves.set_slave ctx cfg.modbus_slave_id w in
      elim (Bool-cases (lib.connect ctx w₂).0) [
        | inl up ↦ rw (up, connect_context) tried
        | inr down ↦ rw (down, connect_context) (leaves.free ctx w₃ ∙ tried)
      ]

  part-ensure_context :
      {D : Type 0} (cfg : GatewayConfig D) (c : Client) (w : V)
      → part (ensure_context lib cfg c w).2 ≡ part w
  unfolding ensure_context
  part-ensure_context cfg c w =
      let (idle, w₁) = modbus_libmodbus_shutdown lib c w in
      let (made, w₂) = new_context lib cfg w₁ in
      elim (Bool-cases (is_current cfg c)) [
        | inl current ↦ rw (current, ensure_context) refl
        | inr stale ↦
            rw (stale, ensure_context)
              (part-connect_context cfg made idle w₂ ∙ part-new_context cfg w₁ ∙ part-shutdown c w)
      ]

  module _ ⦃f : Floats⦄ (now_ms : V → ℕ × V) (clock : (w : V) → part (now_ms w).1 ≡ part w) where
    open f use {Double}

    part-libmodbus_poll :
        (cfg : GatewayConfig Double) (room : ℕ) (c : Client) (w : V)
        → part (modbus_libmodbus_poll lib now_ms cfg room c w).2 ≡ part w
    unfolding modbus_libmodbus_poll
    part-libmodbus_poll cfg room c w =
        let (ready, c₁, w₁) = ensure_context lib cfg c w in
        let ensured = part-ensure_context cfg c w in
        elim (Bool-cases (ltb room 3)) [
          | inl small ↦ rw (small, modbus_libmodbus_poll) refl
          | inr space ↦ elim (Bool-cases (ensure_context lib cfg c w).0) [
            | inr down ↦ rw (space, down, modbus_libmodbus_poll) ensured
            | inl up ↦ elim (Option-cases (ensure_context lib cfg c w).1.ctx) [
              | inl e ↦ rw (space, up, e, modbus_libmodbus_poll) ensured
              | inr (ctx, e) ↦
                  let w₂ = (lib.read_registers ctx 0 3 w₁).1 in
                  let read = leaves.read_registers ctx 0 3 w₁ ∙ ensured in
                  elim (Option-cases (lib.read_registers ctx 0 3 w₁).0) [
                    | inl failed ↦
                        rw (space, up, e, failed, modbus_libmodbus_poll)
                          (part-shutdown c₁ w₂ ∙ read)
                    | inr (regs, got) ↦
                        rw (space, up, e, got, modbus_libmodbus_poll) (clock w₂ ∙ read)
                  ]
            ]
          ]
        ]

    part-modbus_rtu_poll :
        (cfg : GatewayConfig Double) (room : ℕ) (s : Statics V Double)
        → part (modbus_rtu_poll now_ms lib cfg room s).1.outside ≡ part s.outside
    unfolding modbus_rtu_poll modbus_poll_simulate
    part-modbus_rtu_poll cfg room s =
        let polled = part-libmodbus_poll cfg room s.client s.outside in
        ground (arith, polled, clock s.outside)

    part-modbus_poll :
        (info : AdapterInfo) (room : ℕ) (s : Statics V Double)
        → part (modbus_poll now_ms lib info room s).1.outside ≡ part s.outside
    unfolding modbus_poll
    part-modbus_poll info room s = elim (Option-cases s.modbus_cfg) [
      | inl e ↦ rw (e, modbus_poll) refl
      | inr (cfg, e) ↦ rw (e, modbus_poll) (part-modbus_rtu_poll cfg room s)
    ]

    -- The adapter of the gateway acts on the world outside through the library and the clock alone.
    pub modbus_adapter-AdapterLeaves :
        AdapterLeaves (λ (s : Statics V Double). part s.outside) (modbus_adapter_fill now_ms lib)
    unfolding modbus_adapter_fill modbus_init modbus_shutdown modbus_write_command
    modbus_adapter-AdapterLeaves = record {
      poll = λ call e info room s.
          ap
            (λ (c : AdapterInfo
                → ℕ
                → Statics V Double
                → Option (List (Telemetry Double)) × Statics V Double).
              part (c info room s).1.outside)
            (sym (some-injective _ call e))
          ∙ part-modbus_poll info room s;
      write_command = λ call e info cmd s.
          ap
            (λ (c : AdapterInfo → Command Double → Statics V Double → Bool × Statics V Double).
              part (c info cmd s).1.outside)
            (sym (some-injective _ call e));
      init = λ call e info cfg s.
          ap
            (λ (c : AdapterInfo
                → GatewayConfig Double
                → Statics V Double
                → Bool × AdapterInfo × Statics V Double).
              part (c info cfg s).2.outside)
            (sym (some-injective _ call e));
      shutdown = λ call e info s.
          ap (λ (c : AdapterInfo → Statics V Double → Statics V Double). part (c info s).outside)
            (sym (some-injective _ call e))
          ∙ part-shutdown s.client s.outside;
    }

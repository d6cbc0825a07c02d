-- ===== src/Modbus/Client/Contexts.antt =====
-- The contexts that ingress/modbus_libmodbus.c takes from libmodbus: none is lost, and a connection
-- is kept from poll to poll.
use edgeflow_energy_gateway.Common.{
  ℕ, ◌+◌, ◌≤◌, ◌<◌, ◌≡◌, refl, ap, true, Option, none, some, held, Option-cases, inl, inr,
  Bool-cases, length, arith,
}
use edgeflow_energy_gateway.Floats.{Floats}
use edgeflow_energy_gateway.Text.{CString, literal, str_eq, str_eq_refl, copy_string_of_fits}
use edgeflow_energy_gateway.Model.Types.{GatewayConfig}
use edgeflow_energy_gateway.Modbus.Client.{
  Libmodbus, Client, is_current, timeout_us, copy_transport_label, new_context, connect_context,
  ensure_context, modbus_libmodbus_poll, modbus_libmodbus_shutdown,
}

-- `contexts w` counts the contexts that have been made and not yet freed.
pub record IsLibmodbus {W : Type 0} (lib : Libmodbus W) (contexts : W → ℕ) : Type 0 where
  pub tcp_made :
      (host : CString) (port ctx : ℕ) (w : W)
      → (lib.new_tcp host port w).0 ≡ some ctx
      → contexts (lib.new_tcp host port w).1 ≡ contexts w + 1
  pub tcp_failed :
      (host : CString) (port : ℕ) (w : W)
      → (lib.new_tcp host port w).0 ≡ none
      → contexts (lib.new_tcp host port w).1 ≡ contexts w
  pub rtu_made :
      (device : CString) (baud parity size stop ctx : ℕ) (w : W)
      → (lib.new_rtu device baud parity size stop w).0 ≡ some ctx
      → contexts (lib.new_rtu device baud parity size stop w).1 ≡ contexts w + 1
  pub rtu_failed :
      (device : CString) (baud parity size stop : ℕ) (w : W)
      → (lib.new_rtu device baud parity size stop w).0 ≡ none
      → contexts (lib.new_rtu device baud parity size stop w).1 ≡ contexts w
  pub contexts-set_slave : (ctx id : ℕ) (w : W) → contexts (lib.set_slave ctx id w) ≡ contexts w
  pub contexts-set_response_timeout :
      (ctx s us : ℕ) (w : W) → contexts (lib.set_response_timeout ctx s us w) ≡ contexts w
  pub contexts-connect : (ctx : ℕ) (w : W) → contexts (lib.connect ctx w).1 ≡ contexts w
  pub contexts-close : (ctx : ℕ) (w : W) → contexts (lib.close ctx w) ≡ contexts w
  pub contexts-read :
      (ctx first n : ℕ) (w : W) → contexts (lib.read_registers ctx first n w).1 ≡ contexts w
  pub contexts-free :
      (ctx : ℕ) (w : W) → 1 ≤ contexts w → contexts (lib.free ctx w) + 1 ≡ contexts w

module _ {W : Type 0} (lib : Libmodbus W) (contexts : W → ℕ) (ok : IsLibmodbus lib contexts)
    (others : ℕ) where
  -- Besides those of others there is the context of the client, if it has one.
  pub record Balanced (c : Client) (w : W) : Type 0 where
    pub count : contexts w ≡ others + held c.ctx

  pub shutdown-Balanced :
      (c : Client) (w : W)
      → Balanced c w
      → let (c', w') = modbus_libmodbus_shutdown lib c w in Balanced c' w' × (c'.ctx ≡ none)
  unfolding modbus_libmodbus_shutdown
  shutdown-Balanced c w b = elim (Option-cases c.ctx) [
    | inl e ↦ ground arith
    | inr (ctx, e) ↦ ground (arith, ok.contexts-close ctx w, ok.contexts-free ctx (lib.close ctx w))
  ]

  contexts-new_context :
      {D : Type 0} (cfg : GatewayConfig D) (w : W)
      → let (made, w') = new_context lib cfg w in contexts w' ≡ contexts w + held made
  unfolding new_context
  contexts-new_context cfg w =
      let host = cfg.modbus_tcp_host in
      let tcp = (lib.new_tcp host cfg.modbus_tcp_port w).0 in
      let rtu =
        (lib.new_rtu cfg.serial_device cfg.modbus_baud_rate cfg.modbus_parity cfg.modbus_data_bits
          cfg.modbus_stop_bits w).0 in
      elim (Bool-cases (str_eq cfg.modbus_transport (literal "tcp"))) [
        | inl e ↦
            rw (e, new_context)
              (elim (Option-cases tcp) [
                | inl failed ↦
                    rw failed (omega (arith, ok.tcp_failed host cfg.modbus_tcp_port w failed))
                | inr (ctx, made) ↦ rw made (ok.tcp_made host cfg.modbus_tcp_port ctx w made)
              ])
        | inr e ↦
            rw (e, new_context)
              (elim (Option-cases rtu) [
                | inl failed ↦ rw failed (
                    omega (
                      arith,
                      ok.rtu_failed cfg.serial_device cfg.modbus_baud_rate cfg.modbus_parity
                          cfg.modbus_data_bits cfg.modbus_stop_bits w failed,
                    ))
                | inr (ctx, made) ↦ rw made (
                    ok.rtu_made cfg.serial_device cfg.modbus_baud_rate cfg.modbus_parity
                      cfg.modbus_data_bits cfg.modbus_stop_bits ctx w made)
              ])
      ]

  connect_context-Balanced :
      {D : Type 0} (cfg : GatewayConfig D) (made : Option ℕ) (c : Client) (w : W)
      → contexts w ≡ others + held made
      → let (ready, c', w') = connect_context lib cfg made c w in Balanced c' w'
  unfolding connect_context
  connect_context-Balanced cfg none c w h = omega (arith, h)
  connect_context-Balanced cfg (some ctx) c w h =
      let w₁ = lib.set_slave ctx cfg.modbus_slave_id w in
      let w₂ = lib.set_response_timeout ctx 0 (timeout_us cfg) w₁ in
      ground (
        arith,
        ok.contexts-set_slave ctx cfg.modbus_slave_id w,
        ok.contexts-set_response_timeout ctx 0 (timeout_us cfg) w₁,
        ok.contexts-connect ctx w₂,
        ok.contexts-free ctx (lib.connect ctx w₂).1,
      )

  ensure_context-Balanced :
      {D : Type 0} (cfg : GatewayConfig D) (c : Client) (w : W)
      → Balanced c w
      → let (ready, c', w') = ensure_context lib cfg c w in Balanced c' w'
  unfolding ensure_context
  ensure_context-Balanced cfg c w b = elim (Bool-cases (is_current cfg c)) [
    | inl current ↦ rw (current, ensure_context) b
    | inr stale ↦
        let (idle, w₁) = modbus_libmodbus_shutdown lib c w in
        let (closed, free) = shutdown-Balanced c w b in
        let (made, w₂) = new_context lib cfg w₁ in
        rw (stale, ensure_context)
          (connect_context-Balanced cfg made idle w₂
            (omega (arith, contexts-new_context cfg w₁, closed.count, ap held free)))
  ]

module _ ⦃f : Floats⦄ {W : Type 0} (lib : Libmodbus W) (contexts : W → ℕ)
    (ok : IsLibmodbus lib contexts) (others : ℕ) where
  open f use {Double}

  -- No poll loses a context, whichever of its calls fails: before and after it, the contexts that
  -- are made and not freed are those of others and the one that the client holds, if any.
  pub poll-Balanced :
      (now_ms : W → ℕ × W) (cfg : GatewayConfig Double) (max_out : ℕ) (c : Client) (w : W)
      → ((v : W) → contexts (now_ms v).1 ≡ contexts v)
      → Balanced lib contexts ok others c w
      → let (points, c', w') = modbus_libmodbus_poll lib now_ms cfg max_out c w in
        Balanced lib contexts ok others c' w'
  unfolding modbus_libmodbus_poll
  poll-Balanced now_ms cfg max_out c w timely b =
      let (ready, c₁, w₁) = ensure_context lib cfg c w in
      let b₁ = ensure_context-Balanced lib contexts ok others cfg c w b in
      elim (Option-cases c₁.ctx) [
        | inl e ↦ ground (arith, b, b₁)
        | inr (ctx, e) ↦
            let w₂ = (lib.read_registers ctx 0 3 w₁).1 in
            let b₂ : Balanced lib contexts ok others c₁ w₂ =
              omega (arith, b₁.count, ok.contexts-read ctx 0 3 w₁) in
            ground (arith, b, b₁, b₂, shutdown-Balanced lib contexts ok others c₁ w₂ b₂, timely w₂)
      ]

connect_context-is_current :
    {W D : Type 0} (lib : Libmodbus W) (cfg : GatewayConfig D) (made : Option ℕ) (c : Client)
    (w : W)
    → length cfg.modbus_transport < 8
    → let (ready, c', w') = connect_context lib cfg made c w in
      ready ≡ true → is_current cfg c' ≡ true
unfolding connect_context copy_transport_label
connect_context-is_current lib cfg none c w fits ready = cc
connect_context-is_current lib cfg (some ctx) c w fits ready =
    ground
      (arith, copy_string_of_fits 8 cfg.modbus_transport fits, str_eq_refl cfg.modbus_transport)

ensure_context-is_current :
    {W D : Type 0} (lib : Libmodbus W) (cfg : GatewayConfig D) (c : Client) (w : W)
    → length cfg.modbus_transport < 8
    → let (ready, c', w') = ensure_context lib cfg c w in ready ≡ true → is_current cfg c' ≡ true
unfolding ensure_context
ensure_context-is_current lib cfg c w fits ready = elim (Bool-cases (is_current cfg c)) [
  | inl current ↦ rw (current, ensure_context) current
  | inr stale ↦
      let (idle, w₁) = modbus_libmodbus_shutdown lib c w in
      let (made, w₂) = new_context lib cfg w₁ in
      rw (stale, ensure_context)
        (connect_context-is_current lib cfg made idle w₂ fits (rw (stale, ensure_context) at ready))
]

ensure_context_current :
    {W D : Type 0} (lib : Libmodbus W) (cfg : GatewayConfig D) (c : Client) (w : W)
    → is_current cfg c ≡ true
    → ensure_context lib cfg c w ≡ (true, c, w)
unfolding ensure_context
ensure_context_current lib cfg c w current = rw (current, ensure_context) refl

-- A connection for a transport whose name fits its eight bytes is used again: once a context is
-- ready, the next poll neither makes one nor frees one.
pub ensure_context-ensure_context :
    {W D : Type 0} (lib : Libmodbus W) (cfg : GatewayConfig D) (c : Client) (w : W)
    → length cfg.modbus_transport < 8
    → let (ready, c', w') = ensure_context lib cfg c w in
      ready ≡ true → ensure_context lib cfg c' w' ≡ (true, c', w')
ensure_context-ensure_context lib cfg c w fits ready =
    let (ready', c', w') = ensure_context lib cfg c w in
    ensure_context_current lib cfg c' w' (ensure_context-is_current lib cfg c w fits ready)

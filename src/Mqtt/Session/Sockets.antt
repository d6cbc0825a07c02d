-- ===== src/Mqtt/Session/Sockets.antt =====
-- The sockets that the calls of egress/mqtt_session.c open and close, one by one.
use edgeflow_energy_gateway.Common.{
  ℕ, zero, suc, ◌+◌, ◌≤◌, ◌≡◌, refl, ◌∙◌, Bool-cases, none, some, Option-cases, inl, inr, held,
  List, [], ◌∷◌, drop, arith,
}
use edgeflow_energy_gateway.Text.{CString}
use edgeflow_energy_gateway.Model.Types.{GatewayConfig}
use edgeflow_energy_gateway.Mqtt.Packet.{publish_packet, connect_packet, ping_packet}
use edgeflow_energy_gateway.Mqtt.Wire.{
  Transport, WriteResult-cases, write_from, mqtt_write_all, write_ok, mqtt_send_publish,
  mqtt_send_connect, mqtt_send_ping, mqtt_open_tcp,
}

-- `sockets w` counts the sockets that have been opened and not yet closed.
pub record CountsSockets {W : Type 0} (net : Transport W) (sockets : W → ℕ) : Type 0 where
  pub opened :
      (w : W) (fd : ℕ) → (net.socket w).0 ≡ some fd → sockets (net.socket w).1 ≡ sockets w + 1
  pub not_opened : (w : W) → (net.socket w).0 ≡ none → sockets (net.socket w).1 ≡ sockets w
  pub sockets-connect :
      (fd : ℕ) (host : CString) (port : ℕ) (w : W)
      → sockets (net.connect fd host port w).1 ≡ sockets w
  pub sockets-write :
      (fd : ℕ) (bytes : List ℕ) (w : W) → sockets (net.write fd bytes w).1 ≡ sockets w
  pub sockets-read : (fd n : ℕ) (w : W) → sockets (net.read fd n w).1 ≡ sockets w
  pub sockets-close : (fd : ℕ) (w : W) → 1 ≤ sockets w → sockets (net.close fd w) + 1 ≡ sockets w

module _ {W : Type 0} (net : Transport W) (sockets : W → ℕ)
    (counts : CountsSockets net sockets) where
  sockets-write_from :
      (fuel fd : ℕ) (bytes : List ℕ) (w : W)
      → sockets (write_from net fuel fd bytes w).1 ≡ sockets w
  unfolding write_from
  sockets-write_from fuel fd [] w = refl
  sockets-write_from zero fd (b ∷ bytes) w = refl
  sockets-write_from (suc fuel) fd (b ∷ bytes) w =
      let w' = (net.write fd (b ∷ bytes) w).1 in
      let kept = counts.sockets-write fd (b ∷ bytes) w in
      elim (WriteResult-cases (net.write fd (b ∷ bytes) w).0) [
        | inl (n, e) ↦
            rw (e, write_from) (sockets-write_from fuel fd (drop n (b ∷ bytes)) w' ∙ kept)
        | inr (inl e) ↦ rw (e, write_from) (sockets-write_from fuel fd (b ∷ bytes) w' ∙ kept)
        | inr (inr e) ↦ rw (e, write_from) kept
      ]

  sockets-write_ok :
      (fd : ℕ) (bytes : List ℕ) (w : W) → sockets (write_ok net fd bytes w).1 ≡ sockets w
  unfolding mqtt_write_all
  sockets-write_ok fd bytes w = sockets-write_from _ fd bytes w

  pub sockets-send_publish :
      (fd : ℕ) (topic payload : CString) (w : W)
      → sockets (mqtt_send_publish net fd topic payload w).1 ≡ sockets w
  unfolding mqtt_send_publish
  sockets-send_publish fd topic payload w = elim (Option-cases (publish_packet topic payload)) [
    | inl e ↦ rw (e, mqtt_send_publish) refl
    | inr (packet, e) ↦ rw (e, mqtt_send_publish) (sockets-write_ok fd packet w)
  ]

  pub sockets-send_ping : (fd : ℕ) (w : W) → sockets (mqtt_send_ping net fd w).1 ≡ sockets w
  unfolding mqtt_send_ping
  sockets-send_ping fd w = sockets-write_ok fd ping_packet w

  pub sockets-send_connect :
      (fd : ℕ) (client_id : CString) (keepalive : ℕ) (w : W)
      → sockets (mqtt_send_connect net fd client_id keepalive w).1 ≡ sockets w
  unfolding mqtt_send_connect
  sockets-send_connect fd client_id keepalive w =
      elim (Option-cases (connect_packet client_id keepalive)) [
        | inl e ↦ rw (e, mqtt_send_connect) refl
        | inr (packet, e) ↦
            let w₁ = (write_ok net fd packet w).1 in
            let kept = sockets-write_ok fd packet w in
            let read = counts.sockets-read fd 160 w₁ in
            elim (Bool-cases (write_ok net fd packet w).0) [
              | inl sent ↦ rw (e, sent, mqtt_send_connect) (read ∙ kept)
              | inr unsent ↦ rw (e, unsent, mqtt_send_connect) kept
            ]
      ]

  -- A socket is given exactly if one more is open.
  pub sockets-open_tcp :
      {D : Type 0} (cfg : GatewayConfig D) (w : W)
      → let (fd, w') = mqtt_open_tcp net cfg w in sockets w' ≡ sockets w + held fd
  unfolding mqtt_open_tcp
  sockets-open_tcp cfg w = elim (Option-cases (net.socket w).0) [
    | inl e ↦ rw (e, mqtt_open_tcp) (omega (arith, counts.not_opened w e))
    | inr (fd, e) ↦
        let w₁ = (net.socket w).1 in
        let host = cfg.broker_host in
        let w₂ = (net.connect fd host cfg.broker_port w₁).1 in
        ground (
          arith,
          counts.opened w fd e,
          counts.sockets-connect fd host cfg.broker_port w₁,
          counts.sockets-close fd w₁,
          counts.sockets-close fd w₂,
        )
  ]

-- ===== src/Mqtt/Session/Publish.antt =====
-- What `mqtt_session_publish_telemetry` of egress/mqtt_session.c has sent when it returns 0.
use edgeflow_energy_gateway.Common.{
  ℕ, ◌<◌, ◌≡◌, true, Bool-cases, some, Option-cases, inl, inr, List, ◌++◌, length, arith,
}
use edgeflow_energy_gateway.Floats.{Floats}
use edgeflow_energy_gateway.Text.{CString, length-copy_string}
use edgeflow_energy_gateway.Model.Types.{Telemetry}
use edgeflow_energy_gateway.Mqtt.Packet.{publish_bytes}
use edgeflow_energy_gateway.Mqtt.Wire.{Transport, IsTransport, mqtt_send_publish}
use edgeflow_energy_gateway.Mqtt.Session.{
  MqttSession, mqtt_ensure_connected_locked, publish_locked, publish_on,
  mqtt_session_publish_telemetry, telemetry_to_json,
}
use edgeflow_energy_gateway.Mqtt.Session.Connection.{send_publish-output}

module _ {W : Type 0} (net : Transport W) (output : ℕ → W → List ℕ)
    (ok : IsTransport net output) where
  -- The descriptor of a session ends with a packet.
  abbrev pub EndsWith : {D : Type 0} → MqttSession D → List ℕ → W → Type 0
  EndsWith s packet w =
      (fd : ℕ) × (before : List ℕ) × (s.fd ≡ some fd) × (output fd w ≡ before ++ packet)

  publish_locked-EndsWith :
      {D : Type 0} (topic payload : CString) (s : MqttSession D) (w : W)
      → length topic < 128
      → length payload < 384
      → let (sent, s', w') = publish_locked net topic payload s w in
        sent ≡ true → EndsWith s' (publish_bytes topic payload) w'
  unfolding publish_locked
  publish_locked-EndsWith topic payload s w ht hp h = elim (Option-cases s.fd) [
    | inl e ↦ cc (rw (e, publish_locked) at h)
    | inr (fd, e) ↦ elim (Bool-cases (mqtt_send_publish net fd topic payload w).0) [
      | inr unsent ↦ cc (rw (e, unsent, publish_locked) at h)
      | inl sent ↦
          rw (e, sent, publish_locked)
            (fd, output fd w, e, send_publish-output net output ok fd topic payload w ht hp sent)
    ]
  ]

  module _ ⦃f : Floats⦄ where
    open f use {Double}

    length-telemetry_to_json : (p : Telemetry Double) → length (telemetry_to_json p) < 384
    unfolding telemetry_to_json
    length-telemetry_to_json p = length-copy_string 384 _ (omega arith)

    -- When the publish of a point returns 0, over sockets as `IsTransport` describes them and with a
    -- topic that fits its buffer, then its packet has been written whole, as the last bytes so far, to
    -- the descriptor that the session now has: the packet of the configured topic with the point's
    -- JSON text.
    pub publish_telemetry-EndsWith :
        (p : Telemetry Double) (s : MqttSession Double) (w : W)
        → length s.cfg.mqtt_topic < 128
        → let (sent, s', w') = mqtt_session_publish_telemetry net p s w in
          sent ≡ true → EndsWith s' (publish_bytes s.cfg.mqtt_topic (telemetry_to_json p)) w'
    unfolding mqtt_session_publish_telemetry publish_on
    publish_telemetry-EndsWith p s w short h =
        let (ready, s₁, w₁) = mqtt_ensure_connected_locked net s w in
        elim (Bool-cases (mqtt_ensure_connected_locked net s w).0) [
          | inr down ↦ cc (rw (down, publish_on) at h)
          | inl up ↦
              rw (up, publish_on)
                (publish_locked-EndsWith s.cfg.mqtt_topic (telemetry_to_json p) s₁ w₁ short
                  (length-telemetry_to_json p) (rw (up, publish_on) at h))
        ]

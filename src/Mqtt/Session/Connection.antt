-- ===== src/Mqtt/Session/Connection.antt =====
-- The connection of a session: its descriptor and its flag agree after every operation, and what a
-- publish that returns 0 has sent.
use edgeflow_energy_gateway.Common.{
  ℕ, ◌<◌, ◌≡◌, Bool, true, false, Option, none, some, List, ◌++◌, length, arith,
}
use edgeflow_energy_gateway.Text.{CString}
use edgeflow_energy_gateway.Mqtt.Packet.{publish_bytes, publish_packet_built}
use edgeflow_energy_gateway.Mqtt.Wire.{
  Transport, IsTransport, mqtt_send_publish, mqtt_write_all, Sent, done, write_all-Delivers,
  is_done,
}
use edgeflow_energy_gateway.Mqtt.Session.{
  MqttSession, mqtt_ensure_connected_locked, publish_locked, publish_on, mqtt_session_ping,
  mqtt_shutdown_locked,
}

abbrev pub is_open : Option ℕ → Bool
is_open none = false
is_open (some fd) = true

-- The flag `connected` says that there is a descriptor.
pub record Agrees {D : Type 0} (s : MqttSession D) : Type 0 where
  pub flag : s.connected ≡ is_open s.fd

module _ {W D : Type 0} (net : Transport W) where
  pub publish_locked-Agrees :
      (topic payload : CString) (s : MqttSession D) (w : W)
      → Agrees s
      → Agrees (publish_locked net topic payload s w).1
  unfolding publish_locked mqtt_shutdown_locked
  publish_locked-Agrees topic payload s w a = ground arith

  pub ping-Agrees : (s : MqttSession D) (w : W) → Agrees s → Agrees (mqtt_session_ping net s w).1
  unfolding mqtt_session_ping mqtt_shutdown_locked
  ping-Agrees s w a = ground arith

is_done→eq : (r : Sent) → is_done r ≡ true → r ≡ done
is_done→eq r h = ground arith

module _ {W D : Type 0} (net : Transport W) where
  -- Whatever the network does, making sure of the connection leaves flag and descriptor in
  -- agreement, answers as they say, and keeps the configuration.
  pub ensure_connected-Agrees :
      (s : MqttSession D) (w : W)
      → Agrees s
      → let (ready, s', w') = mqtt_ensure_connected_locked net s w in
        Agrees s' × (ready ≡ s'.connected) × (s'.cfg ≡ s.cfg)
  unfolding mqtt_ensure_connected_locked
  ensure_connected-Agrees s w a = ground arith

  -- After a publish the session is connected exactly if the publish returned 0.
  pub publish_on-Agrees :
      (topic payload : CString) (s : MqttSession D) (w : W)
      → Agrees s
      → let (sent, s', w') = publish_on net topic payload s w in
        Agrees s' × (sent ≡ s'.connected) × (s'.cfg ≡ s.cfg)
  unfolding publish_on publish_locked
  publish_on-Agrees topic payload s w a = ground (arith, ensure_connected-Agrees s w a)

module _ {W : Type 0} (net : Transport W) where
  -- On a transport that makes progress, a publish of a topic and a payload that fit their buffers
  -- and that returns 0 has put exactly its packet on the wire.
  pub send_publish-output :
      (output : ℕ → W → List ℕ)
      → IsTransport net output
      → (fd : ℕ) (topic payload : CString) (w : W) → length topic < 128
      → length payload < 384
      → let (sent, w') = mqtt_send_publish net fd topic payload w in
        sent ≡ true → output fd w' ≡ output fd w ++ publish_bytes topic payload
  unfolding mqtt_send_publish
  send_publish-output output ok fd topic payload w ht hp sent =
      let built = publish_packet_built topic payload ht hp in
      let packet = publish_bytes topic payload in
      rw (built, mqtt_send_publish)
        ((write_all-Delivers net output ok fd packet w).1
          (is_done→eq (mqtt_write_all net fd packet w).0 (rw (built, mqtt_send_publish) at sent)))

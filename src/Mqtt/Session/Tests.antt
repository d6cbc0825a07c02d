-- ===== src/Mqtt/Session/Tests.antt =====
-- The theorem on the publish of a point at a wire that takes all bytes at once.
use edgeflow_energy_gateway.Common.{
  ℕ, ◌≤◌, ◌≡◌, ◌≢◌, refl, ap, sym, take_of_le, true, some, List, [], ◌∷◌, ◌++◌, length, take, arith,
  ℤ,
}
use edgeflow_energy_gateway.Floats.Scaled.{scaled}
use edgeflow_energy_gateway.Text.{copy_string, print_ℕ}
use edgeflow_energy_gateway.Model.Enums.{quality_to_string}
use edgeflow_energy_gateway.Model.Samples.{sample_config, cool_point}
use edgeflow_energy_gateway.Mqtt.Length.{mqtt_encode_remaining_length}
use edgeflow_energy_gateway.Mqtt.Packet.{publish_bytes, publish_packet}
use edgeflow_energy_gateway.Mqtt.Wire.{
  WriteResult, wrote, interrupted, failed, Transport, IsTransport, mqtt_write_all,
  mqtt_send_publish,
}
use edgeflow_energy_gateway.Mqtt.Session.{
  MqttSession, mqtt_session_publish_telemetry, publish_on, publish_locked,
  mqtt_ensure_connected_locked, telemetry_to_json,
}
use edgeflow_energy_gateway.Mqtt.Session.Publish.{EndsWith, publish_telemetry-EndsWith}

abbrev live_session : MqttSession ℤ
live_session = record { cfg = sample_config; fd = some 7; connected = true }

abbrev write_wire : List ℕ → List ℕ → WriteResult × List ℕ
write_wire [] out = (failed, out)
write_wire (b ∷ bytes) out = (wrote (length (b ∷ bytes)), out ++ (b ∷ bytes))

abbrev written : WriteResult → ℕ
written (wrote n) = n
written interrupted = 0
written failed = 0

wrote-injective : (m n : ℕ) → wrote m ≡ wrote n → m ≡ n
wrote-injective m n h = ap written h

abbrev wire : Transport (List ℕ)
wire = record {
  socket = λ w. (some 7, w);
  is_address = λ host. true;
  connect = λ fd host port w. (true, w);
  close = λ fd w. w;
  write = λ fd bytes w. write_wire bytes w;
  read = λ fd n w. (some (0x20 ∷ 0x02 ∷ 0x00 ∷ 0x00 ∷ []), w);
  patience = λ w. 0;
}

abbrev wire_output : ℕ → List ℕ → List ℕ
wire_output fd w = w

wrote_wire :
    (bytes out : List ℕ) (n : ℕ)
    → (write_wire bytes out).0 ≡ wrote n
    → ((write_wire bytes out).1 ≡ out ++ take n bytes) × (1 ≤ n) × (n ≤ length bytes)
wrote_wire [] out n h = cc
wrote_wire (b ∷ bytes) out n h =
    let all : length (b ∷ bytes) ≡ n = wrote-injective _ n h in
    (
      ap (λ (xs : List ℕ). out ++ xs) (sym (take_of_le n (b ∷ bytes) (omega (arith, all)))),
      omega (arith, all),
      omega (arith, all),
    )

uninterrupted : (bytes out : List ℕ) → (write_wire bytes out).0 ≢ interrupted
uninterrupted [] out h = cc
uninterrupted (b ∷ bytes) out h = cc

wire-IsTransport : IsTransport wire wire_output
wire-IsTransport = record {
  output-wrote = λ fd bytes w n h. (wrote_wire bytes w n h).0;
  output-interrupted = λ fd bytes w h. absurd (uninterrupted bytes w h);
  progress = λ fd bytes w n h. let (_, lo, hi) = wrote_wire bytes w n h in (lo, hi);
  patience_kept = λ fd bytes w n h. omega arith;
  patience_used = λ fd bytes w h. absurd (uninterrupted bytes w h);
}

published_cool : (mqtt_session_publish_telemetry wire cool_point live_session []).0 ≡ true
unfolding mqtt_session_publish_telemetry publish_on publish_locked mqtt_ensure_connected_locked
    mqtt_send_publish publish_packet mqtt_encode_remaining_length mqtt_write_all publish_bytes
    telemetry_to_json copy_string print_ℕ quality_to_string
published_cool = refl

publish_telemetry-EndsWith_example :
    let (sent, s', w') = mqtt_session_publish_telemetry wire cool_point live_session [] in
    EndsWith wire wire_output wire-IsTransport s'
      (publish_bytes sample_config.mqtt_topic (telemetry_to_json cool_point))
      w'
publish_telemetry-EndsWith_example =
    publish_telemetry-EndsWith wire wire_output wire-IsTransport cool_point live_session []
      (omega arith) published_cool

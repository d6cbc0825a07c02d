-- ===== src/Mqtt/Packet.antt =====
-- The packets of egress/mqtt_session.c, and what a broker reads from a PUBLISH packet.
use edgeflow_energy_gateway.Common.{
  ℕ, ◌+◌, ◌-◌, ◌*◌, ◌/◌, ◌%◌, ◌^◌, ◌<◌, ◌≡◌, Option, none, some, List, [], ◌∷◌, ◌++◌, append_assoc,
  length, take, drop, take-append_length, drop-append_length, ltb, ◌==◌, arith, if◌then◌else◌,
}
use edgeflow_energy_gateway.Text.{CString, literal}
use edgeflow_energy_gateway.Mqtt.Length.{
  mqtt_encode_remaining_length, decode_from, decode-encode, length-encode, length-encode_small,
}

-- The bytes of a PUBLISH packet.
unfoldable pub publish_bytes : CString → CString → List ℕ
publish_bytes topic payload =
    0x30
    ∷ (mqtt_encode_remaining_length (2 + length topic + length payload)
        ++ (length topic / 256 % 256 ∷ length topic % 256 ∷ (topic ++ payload)))

-- The packet that `mqtt_send_publish` builds in its buffer of 1024 bytes; `none` if it has no room.
unfoldable pub publish_packet : CString → CString → Option (List ℕ)
publish_packet topic payload =
    let remaining = 2 + length topic + length payload in
    let len_bytes = length (mqtt_encode_remaining_length remaining) in
    if ltb 1024 (1 + len_bytes + remaining) then none else some (publish_bytes topic payload)

-- The bytes of a CONNECT packet.
unfoldable pub connect_bytes : CString → ℕ → List ℕ
connect_bytes client_id keepalive_sec =
    0x10
    ∷ (mqtt_encode_remaining_length (10 + 2 + length client_id)
        ++ (0x00
            ∷ 0x04
            ∷ (literal "MQTT"
                ++ (0x04
                    ∷ 0x02
                    ∷ keepalive_sec / 256 % 256
                    ∷ keepalive_sec % 256
                    ∷ length client_id / 256 % 256
                    ∷ length client_id % 256
                    ∷ client_id))))

-- The packet that `mqtt_send_connect` builds in its buffer of 160 bytes.
unfoldable pub connect_packet : CString → ℕ → Option (List ℕ)
connect_packet client_id keepalive_sec =
    let remaining = 10 + 2 + length client_id in
    let len_bytes = length (mqtt_encode_remaining_length remaining) in
    if ltb 160 (1 + len_bytes + remaining)
    then none
    else some (connect_bytes client_id keepalive_sec)

abbrev pub ping_packet : List ℕ
ping_packet = 0xc0 ∷ 0x00 ∷ []

-- What a reader makes of a QoS 0 PUBLISH at the head of its input: topic, payload, and what follows.
split_body : Option (ℕ × List ℕ) → Option (CString × CString × List ℕ)
split_body (some (remaining, hi ∷ lo ∷ body)) =
    let n = hi * 256 + lo in
    let m = remaining - 2 - n in some (take n body, take m (drop n body), drop m (drop n body))
split_body _ = none

unfoldable pub read_publish : List ℕ → Option (CString × CString × List ℕ)
unfolding split_body
read_publish [] = none
read_publish (b ∷ bytes) = if b == 0x30 then split_body (decode_from 4 bytes) else none

split_body-joined :
    (topic payload rest : List ℕ)
    → length topic < 2 ^ 16
    → split_body (
        some (
          2 + length topic + length payload,
          length topic / 256 % 256 ∷ length topic % 256 ∷ (topic ++ (payload ++ rest)),
        ))
      ≡ some (topic, payload, rest)
unfolding split_body
split_body-joined topic payload rest h = rw (
  split,
  size,
  take-append_length topic (payload ++ rest),
  drop-append_length topic (payload ++ rest),
  take-append_length payload rest,
  drop-append_length payload rest,
)
  where
    split : length topic / 256 % 256 * 256 + length topic % 256 ≡ length topic
    split = omega arith

    size : 2 + length topic + length payload - 2 - length topic ≡ length payload
    size = omega arith

-- What follows the length field of a packet, with anything behind it.
joined :
    (enc : List ℕ) (a b : ℕ) (topic payload rest : List ℕ)
    → (enc ++ (a ∷ b ∷ (topic ++ payload))) ++ rest ≡ enc ++ (a ∷ b ∷ (topic ++ (payload ++ rest)))
joined enc a b topic payload rest = simp append_assoc

read-publish_bytes :
    (topic payload rest : List ℕ)
    → 2 + length topic + length payload < 2 ^ 10
    → read_publish (publish_bytes topic payload ++ rest) ≡ some (topic, payload, rest)
unfolding publish_bytes read_publish
read-publish_bytes topic payload rest h =
    rw
      (
        joined (mqtt_encode_remaining_length (2 + length topic + length payload))
            (length topic / 256 % 256) (length topic % 256) topic payload rest,
        decode-encode (2 + length topic + length payload)
            (length topic / 256 % 256 ∷ length topic % 256 ∷ (topic ++ (payload ++ rest)))
            (omega arith),
      )
      (split_body-joined topic payload rest (omega arith))

-- A PUBLISH packet that was built is read back as its topic and its payload, and nothing of what
-- follows it.
pub read-publish_packet :
    (topic payload packet rest : List ℕ)
    → publish_packet topic payload ≡ some packet
    → read_publish (packet ++ rest) ≡ some (topic, payload, rest)
unfolding publish_packet
read-publish_packet topic payload packet rest h = ground (
  arith,
  length-encode (2 + length topic + length payload),
  read-publish_bytes topic payload rest,
)

-- A topic and a payload that fit the client's buffers of 128 and 384 bytes always make a packet.
pub publish_packet_built :
    (topic payload : CString)
    → length topic < 128
    → length payload < 384
    → publish_packet topic payload ≡ some (publish_bytes topic payload)
unfolding publish_packet
publish_packet_built topic payload h k =
    ground (arith, length-encode_small (2 + length topic + length payload))

-- A client id that fits its buffer of 64 bytes always makes a CONNECT packet.
pub connect_packet_built :
    (client_id : CString) (keepalive : ℕ)
    → length client_id < 64
    → connect_packet client_id keepalive ≡ some (connect_bytes client_id keepalive)
unfolding connect_packet
connect_packet_built client_id keepalive h =
    ground (arith, length-encode_small (12 + length client_id))

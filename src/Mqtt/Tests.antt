-- ===== src/Mqtt/Tests.antt =====
-- The theorems on the MQTT client at a concrete transport, which takes two bytes at a time and can
-- be interrupted.
use edgeflow_energy_gateway.Common.{
  ℕ, zero, suc, ◌+◌, ◌-◌, ◌≤◌, ◌<◌, ◌≡◌, ◌≢◌, refl, true, false, some, List, [], ◌∷◌, ◌++◌, length,
  take, arith, ℤ,
}
use edgeflow_energy_gateway.Floats.Scaled.{scaled}
use edgeflow_energy_gateway.Text.{literal}
use edgeflow_energy_gateway.Model.Samples.{sample_config, cool_point, hot_point}
use edgeflow_energy_gateway.Storage.{Sqlite, StorageRow, row_of}
use edgeflow_energy_gateway.Storage.Database.{mark_rows}
use edgeflow_energy_gateway.Storage.Memory.{Table, memory}
use edgeflow_energy_gateway.Mqtt.Length.{mqtt_encode_remaining_length, decode_from, decode-encode}
use edgeflow_energy_gateway.Mqtt.Packet.{
  publish_bytes, publish_packet, read_publish, read-publish_packet,
}
use edgeflow_energy_gateway.Mqtt.Wire.{
  WriteResult, wrote, interrupted, failed, Transport, IsTransport, done, stuck, mqtt_write_all,
  mqtt_send_publish, write_all-Delivers,
}
use edgeflow_energy_gateway.Mqtt.Session.{MqttSession, mqtt_session_init}
use edgeflow_energy_gateway.Mqtt.Client.{mqtt_publish_point}
use edgeflow_energy_gateway.Mqtt.Session.Sockets.{CountsSockets}
use edgeflow_energy_gateway.Mqtt.Session.Owned.{publish_point-sockets}

record Line : Type 0 where
  interruptions : ℕ
  bytes : List ℕ

abbrev write_line : ℕ → List ℕ → List ℕ → WriteResult × Line
write_line (suc n) bytes out = (interrupted, record { interruptions = n; bytes = out })
write_line zero [] out = (failed, record { interruptions = 0; bytes = out })
write_line zero (b ∷ []) out = (wrote 1, record { interruptions = 0; bytes = out ++ (b ∷ []) })
write_line zero (b ∷ c ∷ bytes) out =
    (wrote 2, record { interruptions = 0; bytes = out ++ (b ∷ c ∷ []) })

abbrev line : Transport Line
line = record {
  socket = λ w. (some 7, w);
  is_address = λ host. true;
  connect = λ fd host port w. (true, w);
  close = λ fd w. w;
  write = λ fd bytes w. write_line w.interruptions bytes w.bytes;
  read = λ fd n w. (some (0x20 ∷ 0x02 ∷ 0x00 ∷ 0x00 ∷ []), w);
  patience = λ w. w.interruptions;
}

abbrev line_output : ℕ → Line → List ℕ
line_output fd w = w.bytes

wrote_line :
    (i : ℕ) (bytes out : List ℕ) (n : ℕ)
    → (write_line i bytes out).0 ≡ wrote n
    → ((write_line i bytes out).1.bytes ≡ out ++ take n bytes)
      × (1 ≤ n)
      × (n ≤ length bytes)
      × ((write_line i bytes out).1.interruptions ≤ i)
wrote_line (suc i) bytes out n h = ground arith
wrote_line zero [] out n h = ground arith
wrote_line zero (b ∷ []) out n h = ground arith
wrote_line zero (b ∷ c ∷ bytes) out n h = ground arith

interrupted_line :
    (i : ℕ) (bytes out : List ℕ)
    → (write_line i bytes out).0 ≡ interrupted
    → ((write_line i bytes out).1.bytes ≡ out) × ((write_line i bytes out).1.interruptions < i)
interrupted_line (suc i) bytes out h = ground arith
interrupted_line zero [] out h = ground arith
interrupted_line zero (b ∷ []) out h = ground arith
interrupted_line zero (b ∷ c ∷ bytes) out h = ground arith

line-IsTransport : IsTransport line line_output
line-IsTransport = record {
  output-wrote = λ fd bytes w n h. (wrote_line w.interruptions bytes w.bytes n h).0;
  output-interrupted = λ fd bytes w h. (interrupted_line w.interruptions bytes w.bytes h).0;
  progress = λ fd bytes w n h.
      let (_, low, high, _) = wrote_line w.interruptions bytes w.bytes n h in (low, high);
  patience_kept =
      λ fd bytes w n h. let (_, _, _, kept) = wrote_line w.interruptions bytes w.bytes n h in kept;
  patience_used = λ fd bytes w h. (interrupted_line w.interruptions bytes w.bytes h).1;
}

abbrev quiet : Line
quiet = record { interruptions = 3; bytes = [] }

abbrev session : MqttSession ℤ
session = mqtt_session_init sample_config

decode-encode_example :
    decode_from 4 (mqtt_encode_remaining_length 321 ++ (9 ∷ [])) ≡ some (321, 9 ∷ [])
decode-encode_example = decode-encode 321 (9 ∷ []) (omega arith)

-- The example of the standard: 321 is 193, 2.
length_321 : mqtt_encode_remaining_length 321 ≡ 193 ∷ 2 ∷ []
unfolding mqtt_encode_remaining_length
length_321 = refl

packet_built :
    publish_packet (literal "t") (literal "hi") ≡ some (publish_bytes (literal "t") (literal "hi"))
unfolding publish_packet mqtt_encode_remaining_length
packet_built = refl

read-publish_packet_example :
    read_publish (publish_bytes (literal "t") (literal "hi") ++ (5 ∷ []))
    ≡ some (literal "t", literal "hi", 5 ∷ [])
read-publish_packet_example =
    read-publish_packet (literal "t") (literal "hi") (publish_bytes (literal "t") (literal "hi"))
      (5 ∷ []) packet_built

write_all-Delivers_example :
    let (r, w') = mqtt_write_all line 7 (1 ∷ 2 ∷ 3 ∷ []) quiet in
    (r ≢ stuck) × (r ≡ done → line_output 7 w' ≡ line_output 7 quiet ++ (1 ∷ 2 ∷ 3 ∷ []))
write_all-Delivers_example =
    write_all-Delivers line line_output line-IsTransport 7 (1 ∷ 2 ∷ 3 ∷ []) quiet

publish_done : (mqtt_send_publish line 7 (literal "t") (literal "hi") quiet).0 ≡ true
unfolding mqtt_send_publish publish_packet mqtt_encode_remaining_length mqtt_write_all publish_bytes
publish_done = refl

-- The network and the database in one world, and a telemetry table of two pending rows.
record Plant : Type 0 where
  line_state : Line
  rows : Table

abbrev plant_net : Transport Plant
plant_net = record {
  socket = λ w. (some 7, w);
  is_address = λ host. true;
  connect = λ fd host port w. (true, w);
  close = λ fd w. w;
  write = λ fd bytes w.
      let (r, l) = line.write fd bytes w.line_state in (r, record w { line_state = l });
  read = λ fd n w. (some (0x20 ∷ 0x02 ∷ 0x00 ∷ 0x00 ∷ []), w);
  patience = λ w. w.line_state.interruptions;
}

abbrev plant_sqlite : Sqlite Plant ℤ
plant_sqlite = record {
  open_db = λ path w. (true, w);
  exec_schema = λ w. (true, w);
  close_db = λ w. w;
  insert_telemetry =
      λ r w. let (id, rows) = memory.insert_telemetry r w.rows in (id, record w { rows = rows });
  insert_alarm = λ a text w. (true, w);
  insert_command = λ c text w. (true, w);
  select_pending = λ n w. ((memory.select_pending n w.rows).0, w);
  mark_uploaded = λ id w. (true, record w { rows = mark_rows id w.rows });
  count_pending = λ w. ((memory.count_pending w.rows).0, w);
  append_line = λ path text w. (true, w);
}

abbrev plant_output : ℕ → Plant → List ℕ
plant_output fd w = w.line_state.bytes

abbrev waiting : Plant
waiting = record {
  line_state = quiet;
  rows =
      record { id = 1; row = row_of cool_point; uploaded = false }
      ∷ record { id = 2; row = row_of hot_point; uploaded = false }
      ∷ [];
}

abbrev live_session : MqttSession ℤ
live_session = record { cfg = sample_config; fd = some 7; connected = true }

abbrev two_points : List (StorageRow ℤ)
two_points =
    record { row_id = 1; point = cool_point } ∷ record { row_id = 2; point = hot_point } ∷ []

-- A broker that takes no byte; the world is the number of open sockets.
abbrev deaf : Transport ℕ
deaf = record {
  socket = λ w. (some 7, w + 1);
  is_address = λ host. true;
  connect = λ fd host port w. (true, w);
  close = λ fd w. w - 1;
  write = λ fd bytes w. (failed, w);
  read = λ fd n w. (some [], w);
  patience = λ w. 0;
}

deaf-CountsSockets : CountsSockets deaf (λ w. w)
deaf-CountsSockets = record {
  opened = λ w fd h. refl;
  not_opened = λ w h. cc;
  sockets-connect = λ fd host port w. refl;
  sockets-write = λ fd bytes w. refl;
  sockets-read = λ fd n w. refl;
  sockets-close = λ fd w h. omega arith;
}

publish_point-sockets_example : (mqtt_publish_point deaf sample_config cool_point 5).1 ≡ 5
publish_point-sockets_example =
    publish_point-sockets deaf (λ w. w) deaf-CountsSockets sample_config cool_point 5

-- ===== src/Modbus/Tests.antt =====
-- The theorems on Modbus at a concrete serial line, which is interrupted a few times before it gives
-- the first bytes of its reply, and at a library that counts its contexts.
use edgeflow_energy_gateway.Common.{
  ℕ, zero, suc, ◌+◌, ◌-◌, ◌≤◌, ◌<◌, ◌≡◌, ◌≢◌, refl, true, false, some, List, [], ◌∷◌, length, take,
  length-take, All, arith,
}
use edgeflow_energy_gateway.Floats.Scaled.{scaled}
use edgeflow_energy_gateway.Text.{str_eq}
use edgeflow_energy_gateway.Model.Samples.{sample_config}
use edgeflow_energy_gateway.Modbus.Crc.{
  accepts_frame, modbus_crc16, crc_from, crc_byte, crc_bits, crc_bit, received_crc,
}
use edgeflow_energy_gateway.Modbus.Crc.Steps.{IsByte}
use edgeflow_energy_gateway.Modbus.Crc.Detection.{accepts_frame-one_byte}
use edgeflow_energy_gateway.Modbus.Serial.{
  ReadResult, got, again, Port, IsPort, reply, stuck, modbus_serial_exchange,
}
use edgeflow_energy_gateway.Modbus.Serial.Exchange.{exchange-accepts_frame}
use edgeflow_energy_gateway.Modbus.Client.{
  Libmodbus, client_start, ensure_context, connect_context, new_context, modbus_libmodbus_poll,
  modbus_libmodbus_shutdown,
}
use edgeflow_energy_gateway.Modbus.Client.Contexts.{IsLibmodbus, Balanced, poll-Balanced}

abbrev frame : List ℕ
frame = 1 ∷ 3 ∷ 2 ∷ 0 ∷ 10 ∷ 56 ∷ 67 ∷ []

frame_accepted : accepts_frame frame ≡ true
unfolding accepts_frame modbus_crc16 crc_from crc_byte crc_bits crc_bit received_crc
frame_accepted = refl

accepts_frame-one_byte_example : accepts_frame (1 ∷ 3 ∷ 2 ∷ 0 ∷ 11 ∷ 56 ∷ 67 ∷ []) ≡ false
accepts_frame-one_byte_example =
    accepts_frame-one_byte (1 ∷ 3 ∷ 2 ∷ 0 ∷ []) (56 ∷ 67 ∷ []) 10 11 (omega arith) (omega arith)
      (omega arith) frame_accepted

-- The first five bytes of the frame come in one read.
abbrev piece : List ℕ
piece = 1 ∷ 3 ∷ 2 ∷ 0 ∷ 10 ∷ []

-- The number of interruptions to come.
abbrev read_piece : ℕ → ℕ → ReadResult × ℕ
read_piece room zero = (got (take room piece), zero)
read_piece room (suc n) = (again, n)

abbrev tty : Port ℕ
tty = record {
  open_tty = λ path w. (some 3, w);
  tcgetattr = λ fd w. (true, w);
  tcsetattr = λ fd speed w. (true, w);
  close = λ fd w. w;
  write = λ fd bytes w. (some (length bytes), w);
  select = λ fd ms w. (true, w);
  read = λ fd room w. read_piece room w;
  patience = λ w. w;
}

All-take : (n : ℕ) (xs : List ℕ) → All IsByte xs → All IsByte (take n xs)
All-take zero xs h = tt
All-take (suc n) [] h = tt
All-take (suc n) (x ∷ xs) h = (h.0, All-take n xs h.1)

piece-room :
    (room w : ℕ) (bytes : List ℕ)
    → (read_piece room w).0 ≡ got bytes
    → (length bytes ≤ room) × All IsByte bytes
piece-room room zero bytes h =
    ground (arith, length-take room piece, All-take room piece (omega arith))
piece-room room (suc n) bytes h = cc

piece-patience : (room w : ℕ) → (read_piece room w).1 ≤ w
piece-patience room zero = omega arith
piece-patience room (suc n) = omega arith

piece_used : (room w : ℕ) → (read_piece room w).0 ≡ again → (read_piece room w).1 < w
piece_used room zero h = cc
piece_used room (suc n) h = omega arith

tty-IsPort : IsPort tty
tty-IsPort = record {
  read-room = λ fd room w bytes h. (piece-room room w bytes h).0;
  read-IsByte = λ fd room w bytes h. (piece-room room w bytes h).1;
  patience-select = λ fd ms w. omega arith;
  patience-read = λ fd room w. piece-patience room w;
  patience_used = λ fd room w h. piece_used room w h;
}

abbrev request : List ℕ
request = 1 ∷ 3 ∷ 0 ∷ 0 ∷ 0 ∷ 1 ∷ 132 ∷ 10 ∷ []

exchange-accepts_frame_example :
    let answer = (modbus_serial_exchange tty (some 3) request 64 200 4).0 in
    (answer ≢ stuck)
    × ((response : List ℕ)
        → answer ≡ reply response
        → (length response ≤ 64) × All IsByte response × (accepts_frame response ≡ true))
exchange-accepts_frame_example = exchange-accepts_frame tty tty-IsPort (some 3) request 64 200 4

-- The piece alone is no frame.
piece_refused : accepts_frame piece ≡ false
unfolding accepts_frame modbus_crc16 crc_from crc_byte crc_bits crc_bit received_crc
piece_refused = refl

-- The world is the number of contexts.
abbrev counting : Libmodbus ℕ
counting = record {
  new_tcp = λ host port w. (some 1, w + 1);
  new_rtu = λ device baud parity size stop w. (some 1, w + 1);
  set_slave = λ ctx id w. w;
  set_response_timeout = λ ctx s us w. w;
  connect = λ ctx w. (true, w);
  close = λ ctx w. w;
  free = λ ctx w. w - 1;
  read_registers = λ ctx first n w. (some (650 ∷ 301 ∷ 900 ∷ []), w);
}

counting-IsLibmodbus : IsLibmodbus counting (λ w. w)
counting-IsLibmodbus = record {
  tcp_made = λ host port ctx w h. refl;
  tcp_failed = λ host port w h. cc;
  rtu_made = λ device baud parity size stop ctx w h. refl;
  rtu_failed = λ device baud parity size stop w h. cc;
  contexts-set_slave = λ ctx id w. refl;
  contexts-set_response_timeout = λ ctx s us w. refl;
  contexts-connect = λ ctx w. refl;
  contexts-close = λ ctx w. refl;
  contexts-read = λ ctx first n w. refl;
  contexts-free = λ ctx w h. omega arith;
}

-- Two contexts of others, and none of the client's yet.
poll-Balanced_example :
    let (points, c', w') =
      modbus_libmodbus_poll counting (λ w. (2000, w)) sample_config 8 client_start 2 in
    Balanced counting (λ w. w) counting-IsLibmodbus 2 c' w'
poll-Balanced_example =
    poll-Balanced counting (λ w. w) counting-IsLibmodbus 2 (λ w. (2000, w)) sample_config 8
      client_start 2 (λ v. refl) (record { count = refl })

ready_at_once : (ensure_context counting sample_config client_start 2).0 ≡ true
unfolding ensure_context connect_context new_context modbus_libmodbus_shutdown str_eq
ready_at_once = refl

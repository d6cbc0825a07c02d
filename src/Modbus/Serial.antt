-- ===== src/Modbus/Serial.antt =====
-- ingress/modbus_serial.h and ingress/modbus_serial.c: the serial line. `Port` stands for the
-- operating system's calls.
use edgeflow_energy_gateway.Common.{
  ℕ, zero, suc, ◌+◌, ◌-◌, ◌≤◌, ◌<◌, ◌≡◌, Bool, true, false, Option, none, some, List, [], ◌∷◌, ◌++◌,
  ◌==◌, leb, ltb, length, if◌then◌else◌, All,
}
use edgeflow_energy_gateway.Text.{CString}
use edgeflow_energy_gateway.Modbus.Crc.{accepts_frame}
use edgeflow_energy_gateway.Modbus.Crc.Steps.{IsByte}
pub mod Exchange

-- The answer of read(2): the bytes, which may be none; EAGAIN or EINTR; another error.
pub data ReadResult : Type 0 where
  got : List ℕ → ReadResult
  again : ReadResult
  failed : ReadResult

pub record Port (W : Type 0) : Type 0 where
  -- open(2) with O_RDWR | O_NOCTTY | O_NONBLOCK
  pub open_tty : CString → W → Option ℕ × W
  pub tcgetattr : ℕ → W → Bool × W
  -- tcsetattr(3) with raw mode, eight data bits, no parity, one stop bit and the given speed
  pub tcsetattr : ℕ → ℕ → W → Bool × W
  pub close : ℕ → W → W
  -- the count, or an error
  pub write : ℕ → List ℕ → W → Option ℕ × W
  -- whether select(2) says within the given time that there is something to read
  pub select : ℕ → ℕ → W → Bool × W
  -- at most so many bytes
  pub read : ℕ → ℕ → W → ReadResult × W
  -- how often the next reads can answer `again` in a row
  pub patience : W → ℕ

pub record IsPort {W : Type 0} (port : Port W) : Type 0 where
  pub read-room :
      (fd room : ℕ) (w : W) (bytes : List ℕ)
      → (port.read fd room w).0 ≡ got bytes
      → length bytes ≤ room
  pub read-IsByte :
      (fd room : ℕ) (w : W) (bytes : List ℕ)
      → (port.read fd room w).0 ≡ got bytes
      → All IsByte bytes
  pub patience-select :
      (fd ms : ℕ) (w : W) → port.patience (port.select fd ms w).1 ≤ port.patience w
  pub patience-read :
      (fd room : ℕ) (w : W) → port.patience (port.read fd room w).1 ≤ port.patience w
  pub patience_used :
      (fd room : ℕ) (w : W)
      → (port.read fd room w).0 ≡ again
      → port.patience (port.read fd room w).1 < port.patience w

-- The speed that `modbus_serial_open` sets for a baud rate.
unfoldable pub speed_of : ℕ → ℕ
speed_of baud =
    if baud == 19200
    then 19200
    else if baud == 38400
    then 38400
    else if baud == 115200
    then 115200
    else 9600

-- The bytes that `read_with_timeout` leaves in the buffer, its -1, or, in the model alone, its fuel.
pub data Reading : Type 0 where
  read_bytes : List ℕ → Reading
  read_error : Reading
  read_stuck : Reading

-- What `modbus_serial_exchange` comes to: the bytes of the reply, -1, or the fuel.
pub data Exchanged : Type 0 where
  reply : List ℕ → Exchanged
  refused : Exchanged
  stuck : Exchanged

abbrev pub checked : Reading → Exchanged
checked (read_bytes response) = if accepts_frame response then reply response else refused
checked read_error = refused
checked read_stuck = stuck

module _ {W : Type 0} (port : Port W) where
  unfoldable pub modbus_serial_open : CString → ℕ → W → Option ℕ × W
  unfolding speed_of
  modbus_serial_open device_path baud w = elim (port.open_tty device_path w).0 [
    | none ↦ (none, (port.open_tty device_path w).1)
    | some fd ↦
        let w₁ = (port.open_tty device_path w).1 in
        let (known, w₂) = port.tcgetattr fd w₁ in
        let (set, w₃) = port.tcsetattr fd (speed_of baud) w₂ in
        if known
        then (if set then (some fd, w₃) else (none, port.close fd w₃))
        else (none, port.close fd w₂)
  ]

  -- A descriptor below 0 is `none`.
  unfoldable pub modbus_serial_close : Option ℕ → W → W
  modbus_serial_close none w = w
  modbus_serial_close (some fd) w = port.close fd w

  -- The loop, with the bytes read so far.
  unfoldable pub read_more : ℕ → ℕ → ℕ → ℕ → List ℕ → W → Reading × W
  read_more zero fd max timeout_ms total w =
      if leb max (length total) then (read_bytes total, w) else (read_stuck, w)
  read_more (suc fuel) fd max timeout_ms total w =
      let (ready, w₁) = port.select fd timeout_ms w in
      let w₂ = (port.read fd (max - length total) w₁).1 in
      let next : Reading × W = elim (port.read fd (max - length total) w₁).0 [
        | failed ↦ (read_error, w₂)
        | again ↦ read_more fuel fd max timeout_ms total w₂
        | got [] ↦ (read_bytes total, w₂)
        | got (b ∷ bytes) ↦
            let longer = total ++ (b ∷ bytes) in
            let rest = read_more fuel fd max timeout_ms longer w₂ in
            if leb 5 (length longer) then (read_bytes longer, w₂) else rest
      ] in
      if leb max (length total)
      then (read_bytes total, w)
      else if ready
      then next
      else (read_bytes total, w₁)

  unfoldable pub read_with_timeout : ℕ → ℕ → ℕ → W → Reading × W
  unfolding read_more
  read_with_timeout fd max timeout_ms w = read_more (max + port.patience w) fd max timeout_ms [] w

  unfoldable pub modbus_serial_exchange : Option ℕ → List ℕ → ℕ → ℕ → W → Exchanged × W
  modbus_serial_exchange none request response_max timeout_ms w = (refused, w)
  modbus_serial_exchange (some fd) request response_max timeout_ms w =
      let (written, w₁) = port.write fd request w in
      let (response, w₂) = read_with_timeout fd response_max timeout_ms w₁ in
      let answer : Exchanged × W = elim written [
        | none ↦ (refused, w₁)
        | some n ↦ if n == length request then (checked response, w₂) else (refused, w₁)
      ] in
      if ltb (length request) 4
      then (refused, w)
      else if ltb response_max 5
      then (refused, w)
      else answer

-- ===== src/Modbus/Crc.antt =====
-- `modbus_crc16` of ingress/modbus_rtu.c, and the check of a frame at the end of
-- `modbus_serial_exchange`, ingress/modbus_serial.c.
use Prim.Native.Nat.{bit_xor}
use edgeflow_energy_gateway.Common.{
  ℕ, zero, suc, ◌+◌, ◌-◌, ◌*◌, ◌/◌, ◌%◌, ◌^◌, Bool, true, false, List, [], ◌∷◌, ◌==◌, leb, length,
  take, get_or, if◌then◌else◌,
}
pub mod Steps
pub mod Detection

-- One round of the inner loop.
unfoldable pub crc_bit : ℕ → ℕ
crc_bit crc = if crc % 2 == 0 then crc / 2 else bit_xor (crc / 2) 0xa001 % 2 ^ 16

unfoldable pub crc_bits : ℕ → ℕ → ℕ
unfolding crc_bit
crc_bits zero crc = crc
crc_bits (suc n) crc = crc_bits n (crc_bit crc)

unfoldable pub crc_byte : ℕ → ℕ → ℕ
unfolding crc_bits
crc_byte crc byte = crc_bits 8 (bit_xor crc byte)

unfoldable pub crc_from : ℕ → List ℕ → ℕ
unfolding crc_byte
crc_from crc [] = crc
crc_from crc (byte ∷ buf) = crc_from (crc_byte crc byte) buf

-- Of all bytes of the list.
unfoldable pub modbus_crc16 : List ℕ → ℕ
unfolding crc_from
modbus_crc16 buf = crc_from 0xffff buf

-- The two last bytes, the low one first; `|` is `+` on bytes that do not overlap.
unfoldable pub received_crc : List ℕ → ℕ
received_crc response =
    let n = length response in get_or response (n - 2) 0 + get_or response (n - 1) 0 * 256

-- What `modbus_serial_exchange` asks of the bytes that it read.
unfoldable pub accepts_frame : List ℕ → Bool
unfolding modbus_crc16 received_crc
accepts_frame response =
    let n = length response in
    if leb 5 n then modbus_crc16 (take (n - 2) response) == received_crc response else false

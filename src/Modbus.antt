-- ===== src/Modbus.antt =====
-- ingress/modbus_rtu.c, modbus_serial.c, modbus_libmodbus.c and modbus_adapter.c: the Modbus side of
-- the gateway.
pub mod Crc
pub mod Serial
pub mod Client
pub mod Plugin
mod Tests

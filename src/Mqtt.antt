-- ===== src/Mqtt.antt =====
-- egress/mqtt_session.c: a minimal MQTT 3.1.1 client.
pub mod Length
pub mod Packet
pub mod Wire
pub mod Session
pub mod Client
mod Tests

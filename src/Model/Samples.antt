-- ===== src/Model/Samples.antt =====
-- Data for the tests: the default configuration of platform/config.c and points on it. A double is
-- an integer that counts ten-thousandths.
use edgeflow_energy_gateway.Common.{ℤ, pos, true}
use edgeflow_energy_gateway.Text.{CString, literal}
use edgeflow_energy_gateway.Model.Enums.{Protocol, OnlineState, good}
use edgeflow_energy_gateway.Model.Types.{Device, Telemetry, GatewayConfig}

abbrev pub sample_config : GatewayConfig ℤ
sample_config = record {
  device_id = literal "edge_gateway_001";
  simulate = true;
  serial_device = literal "/dev/ttyUSB0";
  poll_interval_ms = 1000;
  queue_size = 128;
  deadband = pos 5000;
  temp_high = pos 550000;
  peak_shaving_threshold_kw = pos 1000000;
  max_discharge_kw = pos 300000;
  min_discharge_soc = pos 200000;
  broker_host = literal "127.0.0.1";
  broker_port = 1883;
  mqtt_topic = literal "telemetry";
  mqtt_alarm_topic = literal "alarm";
  mqtt_heartbeat_topic = literal "heartbeat";
  log_dir = literal "log";
  metrics_path = literal "metrics";
  cache_path = literal "cache";
  use_sqlite = true;
  sqlite_path = literal "db";
  mqtt_replay_batch = 50;
  mqtt_keepalive_sec = 60;
  watchdog_interval_ms = 1000;
  heartbeat_interval_ms = 5000;
  modbus_transport = literal "rtu";
  modbus_tcp_host = literal "127.0.0.1";
  modbus_tcp_port = 502;
  modbus_slave_id = 1;
  modbus_baud_rate = 9600;
  modbus_parity = b'N';
  modbus_data_bits = 8;
  modbus_stop_bits = 1;
  modbus_timeout_ms = 500;
}

abbrev point_of : CString → ℤ → Telemetry ℤ
point_of id value = record {
  ts_ms = 5;
  device_id = literal "bms_001";
  point_id = id;
  value = value;
  unit = literal "kW";
  quality = good;
  source_id = 1;
}

-- 120 kW from the grid, 25 degrees, 60 degrees, and a charge of 10 percent.
abbrev pub peak_point : Telemetry ℤ
peak_point = point_of (literal "grid_power_kw") (pos 1200000)

abbrev pub cool_point : Telemetry ℤ
cool_point = point_of (literal "max_cell_temp_c") (pos 250000)

abbrev pub hot_point : Telemetry ℤ
hot_point = point_of (literal "max_cell_temp_c") (pos 600000)

abbrev pub flat_point : Telemetry ℤ
flat_point = point_of (literal "soc_percent") (pos 100000)

abbrev pub sample_device : Device
sample_device = record {
  id = literal "meter_001";
  name = literal "Meter";
  protocol = Protocol.modbus_rtu;
  online_state = OnlineState.online;
  last_seen_ms = 0;
  consecutive_failures = 0;
  last_error = literal "";
}

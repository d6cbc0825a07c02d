-- ===== src/Model/Types.antt =====
-- The structures of model/device_model.h and platform/config.h. `D` stands for `double`, a
-- `char[]` field is the string that it holds, and an unsigned field is a number below 2 ^ width.
use edgeflow_energy_gateway.Common.{ℕ, ℤ, Bool}
use edgeflow_energy_gateway.Text.{CString}
use edgeflow_energy_gateway.Model.Enums.{
  Protocol, OnlineState, PointType, Quality, AlarmLevel, AlarmState, CommandType, CommandState,
}

-- The sizes of the buffers.
abbrev pub id_max : ℕ
id_max = 64

abbrev pub name_max : ℕ
name_max = 64

abbrev pub unit_max : ℕ
unit_max = 16

abbrev pub message_max : ℕ
message_max = 128

pub record Device : Type 0 where
  pub id : CString
  pub name : CString
  pub protocol : Protocol
  pub online_state : OnlineState
  pub last_seen_ms : ℕ
  pub consecutive_failures : ℕ
  pub last_error : CString

pub record Point (D : Type 0) : Type 0 where
  pub id : CString
  pub device_id : CString
  pub name : CString
  pub type : PointType
  pub unit : CString
  pub scale : D
  pub offset : D
  pub low_limit : D
  pub high_limit : D

pub record Telemetry (D : Type 0) : Type 0 where
  pub ts_ms : ℕ
  pub device_id : CString
  pub point_id : CString
  pub value : D
  pub unit : CString
  pub quality : Quality
  pub source_id : ℕ

pub record AlarmEvent : Type 0 where
  pub alarm_id : ℕ
  pub ts_ms : ℕ
  pub device_id : CString
  pub code : CString
  pub level : AlarmLevel
  pub state : AlarmState
  pub message : CString
  pub recovered_ts_ms : ℕ

pub record Command (D : Type 0) : Type 0 where
  pub command_id : ℕ
  pub created_ts_ms : ℕ
  pub target_device_id : CString
  pub type : CommandType
  pub state : CommandState
  pub point_id : CString
  pub target_value : D
  pub retry_count : ℤ
  pub max_retries : ℤ
  pub result_message : CString

-- `gateway_config_t`
pub record GatewayConfig (D : Type 0) : Type 0 where
  pub device_id : CString
  pub simulate : Bool
  pub serial_device : CString
  pub poll_interval_ms : ℕ
  pub queue_size : ℕ
  pub deadband : D
  pub temp_high : D
  pub peak_shaving_threshold_kw : D
  pub max_discharge_kw : D
  pub min_discharge_soc : D
  pub broker_host : CString
  pub broker_port : ℕ
  pub mqtt_topic : CString
  pub mqtt_alarm_topic : CString
  pub mqtt_heartbeat_topic : CString
  pub log_dir : CString
  pub metrics_path : CString
  pub cache_path : CString
  pub use_sqlite : Bool
  pub sqlite_path : CString
  pub mqtt_replay_batch : ℕ
  pub mqtt_keepalive_sec : ℕ
  pub watchdog_interval_ms : ℕ
  pub heartbeat_interval_ms : ℕ
  pub modbus_transport : CString
  pub modbus_tcp_host : CString
  pub modbus_tcp_port : ℕ
  pub modbus_slave_id : ℕ
  pub modbus_baud_rate : ℕ
  pub modbus_parity : ℕ
  pub modbus_data_bits : ℕ
  pub modbus_stop_bits : ℕ
  pub modbus_timeout_ms : ℕ

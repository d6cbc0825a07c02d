-- ===== src/Model/Enums.antt =====
-- The enumerations of model/device_model.h, and their names in logs and messages
-- (model/device_model.c). A value outside its enumeration is not modelled, nor is the `default`
-- branch that would print it.
use edgeflow_energy_gateway.Text.{CString, literal}

pub data Protocol : Type 0 where
  modbus_rtu modbus_tcp tcp udp simulator : Protocol

pub data OnlineState : Type 0 where
  unknown online offline degraded : OnlineState

pub data PointType : Type 0 where
  analog digital enum : PointType

pub data Quality : Type 0 where
  good bad uncertain : Quality

pub data AlarmLevel : Type 0 where
  info minor major critical : AlarmLevel

pub data AlarmState : Type 0 where
  active recovered : AlarmState

pub data CommandType : Type 0 where
  set_point_value set_device_mode stop_device : CommandType

pub data CommandState : Type 0 where
  pending sent acked verified timeout retrying failed : CommandState

pub data SystemState : Type 0 where
  init standby running degraded fault stopped : SystemState

unfoldable pub quality_to_string : Quality → CString
quality_to_string good = literal "good"
quality_to_string bad = literal "bad"
quality_to_string uncertain = literal "uncertain"

unfoldable pub system_state_to_string : SystemState → CString
system_state_to_string init = literal "INIT"
system_state_to_string standby = literal "STANDBY"
system_state_to_string running = literal "RUNNING"
system_state_to_string degraded = literal "DEGRADED"
system_state_to_string fault = literal "FAULT"
system_state_to_string stopped = literal "STOPPED"

unfoldable pub command_state_to_string : CommandState → CString
command_state_to_string pending = literal "PENDING"
command_state_to_string sent = literal "SENT"
command_state_to_string acked = literal "ACKED"
command_state_to_string verified = literal "VERIFIED"
command_state_to_string timeout = literal "TIMEOUT"
command_state_to_string retrying = literal "RETRYING"
command_state_to_string failed = literal "FAILED"

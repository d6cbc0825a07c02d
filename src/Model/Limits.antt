-- ===== src/Model/Limits.antt =====
-- What the constructors of model/device_model.c write stays inside the fixed buffers.
use edgeflow_energy_gateway.Common.{ℕ, ◌<◌, ◌≡◌, Option, none, some, ℤ, pos, negsuc, length, arith}
use edgeflow_energy_gateway.Floats.{Floats}
use edgeflow_energy_gateway.Text.{CString, length-copy_string}
use edgeflow_energy_gateway.Model.Enums.{AlarmLevel}
use edgeflow_energy_gateway.Model.Types.{
  id_max, unit_max, message_max, Telemetry, Command, AlarmEvent,
}
use edgeflow_energy_gateway.Model.Build.{telemetry_init, command_init_setpoint, alarm_make}

-- Every string field of a telemetry record leaves room for its NUL.
pub record TelemetryFits {D : Type 0} (t : Telemetry D) : Type 0 where
  pub device_id : length t.device_id < id_max
  pub point_id : length t.point_id < id_max
  pub unit : length t.unit < unit_max

pub record CommandFits {D : Type 0} (c : Command D) : Type 0 where
  pub target_device_id : length c.target_device_id < id_max
  pub point_id : length c.point_id < id_max
  pub result_message : length c.result_message < message_max

pub record AlarmFits (a : AlarmEvent) : Type 0 where
  pub device_id : length a.device_id < id_max
  pub code : length a.code < id_max
  pub message : length a.message < message_max

ruleset copies = (arith, length-copy_string)

module _ ⦃f : Floats⦄ where
  open f use {Double}

  -- Whatever it is given, `telemetry_init` fills every buffer of a point to less than its size.
  pub telemetry_init-TelemetryFits :
      (ts : ℕ) (device_id point_id : Option CString) (value : Double) (unit : Option CString)
      (source_id : ℕ)
      → TelemetryFits (telemetry_init ts device_id point_id value unit source_id)
  unfolding telemetry_init
  telemetry_init-TelemetryFits ts d p v u s = omega copies

  -- The strings of a command that `command_init_setpoint` made fit their buffers.
  pub command_init_setpoint-CommandFits :
      (id ts : ℕ) (target point : Option CString) (value : Double) (retries : ℤ)
      {c : Command Double}
      → command_init_setpoint id ts target point value retries ≡ some c
      → CommandFits c
  unfolding command_init_setpoint
  command_init_setpoint-CommandFits id ts (some t) (some p) v (pos n) h = ground (
    arith,
    length-copy_string id_max (some t) (omega arith),
    length-copy_string id_max (some p) (omega arith),
  )
  command_init_setpoint-CommandFits id ts none p v r h = ground arith
  command_init_setpoint-CommandFits id ts (some t) none v r h = ground arith
  command_init_setpoint-CommandFits id ts (some t) (some p) v (negsuc n) h = ground arith

-- The strings of an alarm that `alarm_make` made fit their buffers.
pub alarm_make-AlarmFits :
    (id ts : ℕ) (device_id code : Option CString) (level : AlarmLevel) (message : Option CString)
    {a : AlarmEvent}
    → alarm_make id ts device_id code level message ≡ some a
    → AlarmFits a
unfolding alarm_make
alarm_make-AlarmFits id ts none c l m h = ground arith
alarm_make-AlarmFits id ts (some d) none l m h = ground arith
alarm_make-AlarmFits id ts (some d) (some c) l m h = ground (
  arith,
  length-copy_string id_max (some d) (omega arith),
  length-copy_string id_max (some c) (omega arith),
  length-copy_string message_max m (omega arith),
)

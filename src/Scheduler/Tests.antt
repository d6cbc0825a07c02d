-- ===== src/Scheduler/Tests.antt =====
-- The theorems on the scheduler at a concrete queue.
use edgeflow_energy_gateway.Common.{
  ℕ, ◌+◌, ◌≤◌, ◌≡◌, refl, inl, none, some, [], ◌∷◌, ◌++◌, ℤ, pos, arith, true,
}
use edgeflow_energy_gateway.Text.{literal}
use edgeflow_energy_gateway.Model.Enums.{Protocol, CommandState, set_point_value}
use edgeflow_energy_gateway.Model.Types.{Command}
use edgeflow_energy_gateway.Adapter.{DeviceAdapter}
use edgeflow_energy_gateway.Scheduler.{
  CommandScheduler, command_scheduler_submit, command_scheduler_tick,
}
use edgeflow_energy_gateway.Scheduler.Ids.{IsValid, submit-IsValid}
use edgeflow_energy_gateway.Scheduler.Tick.{AllConcluded, tick-AllConcluded}

abbrev setpoint : ℕ → Command ℤ
setpoint id = record {
  command_id = id;
  created_ts_ms = 2;
  target_device_id = literal "pcs_001";
  type = set_point_value;
  state = CommandState.pending;
  point_id = literal "target_power_kw";
  target_value = pos 10000;
  retry_count = pos 0;
  max_retries = pos 3;
  result_message = [];
}

-- One command waits, and 2 is the next number.
abbrev waiting : CommandScheduler ℤ
waiting = record { queue = setpoint 1 ∷ []; next_command_id = 2 }

waiting-IsValid : IsValid waiting
waiting-IsValid = record {
  fits = omega arith;
  pending = (refl, tt);
  rising = (omega arith, omega arith);
  small = omega arith;
}

-- An adapter that takes every command and counts them.
abbrev counter : DeviceAdapter ℕ ℤ
counter = record {
  info = record { name = literal "pcs"; protocol = Protocol.modbus_tcp; source_id = 2 };
  init = none;
  shutdown = none;
  poll = none;
  write_command = some (λ info c w. (true, w + 1));
}

submit-IsValid_example :
    (s' : CommandScheduler ℤ) × (c' : Command ℤ) × (command_scheduler_submit waiting (setpoint 0)
      ≡ some (s', c'))
    × (s'.queue ≡ waiting.queue ++ (c' ∷ []))
    × (waiting.next_command_id ≤ c'.command_id)
    × (c'.point_id ≡ (setpoint 0).point_id)
    × IsValid s'
submit-IsValid_example =
    submit-IsValid waiting (setpoint 0) waiting-IsValid (omega arith) (inl refl) (omega arith)
      (omega arith)

tick-AllConcluded_example :
    let (s', done, w') = command_scheduler_tick waiting counter (λ c w. w) 0 in
    (s'.queue ≡ [])
    × (s'.next_command_id ≡ waiting.next_command_id)
    × AllConcluded waiting.queue done
tick-AllConcluded_example = tick-AllConcluded counter (λ c w. w) waiting 0 waiting-IsValid

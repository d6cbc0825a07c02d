-- ===== src/Scheduler.antt =====
-- runtime/command_scheduler.h and runtime/command_scheduler.c: the queue of commands, their
-- transmission through an adapter and the simulated readback.
pub mod Tick
pub mod Ids
mod Tests
use edgeflow_energy_gateway.Common.{
  ℕ, ◌+◌, ◌%◌, ◌^◌, Bool, true, false, Option, none, some, List, [], ◌∷◌, ◌++◌, leb, ◌==◌, length,
  if◌then◌else◌,
}
use edgeflow_energy_gateway.Text.{literal, copy_string}
use edgeflow_energy_gateway.Model.Enums.{CommandState}
use edgeflow_energy_gateway.Model.Types.{Command, message_max}
use edgeflow_energy_gateway.Model.Build.{command_mark_verified}
use edgeflow_energy_gateway.Adapter.{DeviceAdapter}

abbrev pub command_queue_max : ℕ
command_queue_max = 32

-- `command_scheduler_t`; `queue` is the first `count` entries.
pub record CommandScheduler (D : Type 0) : Type 0 where
  pub queue : List (Command D)
  pub next_command_id : ℕ

abbrev pub is_pending : CommandState → Bool
is_pending CommandState.pending = true
is_pending _ = false

module _ {D : Type 0} where
  unfoldable pub command_scheduler_init : CommandScheduler D
  command_scheduler_init = record { queue = []; next_command_id = 1 }

  -- The number of a submitted command, and the next one to give.
  unfoldable pub number_command : CommandScheduler D → Command D → ℕ × ℕ
  number_command s command =
      if command.command_id == 0
      then (s.next_command_id, (s.next_command_id + 1) % 2 ^ 64)
      else if leb s.next_command_id command.command_id
      then (command.command_id, (command.command_id + 1) % 2 ^ 64)
      else (command.command_id, s.next_command_id)

  -- The scheduler and the caller's command behind the call; `none` is the result -1, which
  -- changes neither.
  unfoldable pub command_scheduler_submit :
      CommandScheduler D → Command D → Option (CommandScheduler D × Command D)
  unfolding number_command
  command_scheduler_submit s command =
      let (id, next) = number_command s command in
      let queued = record command { command_id = id; state = CommandState.pending } in
      if leb command_queue_max (length s.queue)
      then none
      else some (record { queue = s.queue ++ (queued ∷ []); next_command_id = next }, queued)

  -- The commands that `tick` copies out of the queue.
  unfoldable pub pending_commands : List (Command D) → List (Command D)
  pending_commands [] = []
  pending_commands (c ∷ cs) =
      let rest = pending_commands cs in if is_pending c.state then c ∷ rest else rest

  -- What becomes of a command once the adapter has been asked to write it.
  unfoldable pub conclude : Command D → Bool → Command D
  unfolding command_mark_verified
  conclude cmd written =
      if written
      then command_mark_verified (record cmd { state = CommandState.acked })
          (some (literal "simulator readback verified"))
      else record cmd {
        state = CommandState.failed;
        result_message = copy_string message_max (some (literal "adapter write failed"));
      }

  module _ {W : Type 0} where
    -- One command through the adapter. An adapter with no `write_command` counts as written.
    unfoldable pub dispatch : DeviceAdapter W D → Command D → W → Command D × W
    unfolding conclude
    dispatch adapter cmd w =
        let sent = record cmd { state = CommandState.sent } in
        elim adapter.write_command [
          | none ↦ (conclude sent true, w)
          | some call ↦ let (written, w') = call adapter.info sent w in (conclude sent written, w')
        ]

    -- The loop over the copied commands; `store` is `storage_append_command` on the storage of the
    -- call, and does nothing where that is NULL. The list is what the local array holds at the end.
    unfoldable pub dispatch_all :
        DeviceAdapter W D → (Command D → W → W) → List (Command D) → W → List (Command D) × W
    unfolding dispatch
    dispatch_all adapter store [] w = ([], w)
    dispatch_all adapter store (c ∷ cs) w =
        let (done, w') = dispatch adapter c w in
        let (rest, w'') = dispatch_all adapter store cs (store done w') in (done ∷ rest, w'')

    -- The scheduler, the processed commands, whose number is the result, and the world.
    unfoldable pub command_scheduler_tick :
        CommandScheduler D
        → DeviceAdapter W D
        → (Command D → W → W)
        → W
        → CommandScheduler D × List (Command D) × W
    unfolding pending_commands dispatch_all
    command_scheduler_tick s adapter store w =
        let (done, w') = dispatch_all adapter store (pending_commands s.queue) w in
        (record s { queue = [] }, done, w')

-- ===== src/Scheduler/Tick.antt =====
-- What one round of `command_scheduler_tick`, runtime/command_scheduler.c, does to the queue.
use edgeflow_energy_gateway.Common.{
  ◌≡◌, refl, ◌⊎◌, Bool, true, none, some, List, [], ◌∷◌, All, arith, if◌then◌else◌,
}
use edgeflow_energy_gateway.Model.Enums.{CommandState}
use edgeflow_energy_gateway.Model.Types.{Command}
use edgeflow_energy_gateway.Adapter.{DeviceAdapter}
use edgeflow_energy_gateway.Scheduler.Ids.{IsValid}
use edgeflow_energy_gateway.Scheduler.{
  CommandScheduler, pending_commands, dispatch, dispatch_all, command_scheduler_tick,
}

module _ {D : Type 0} where
  -- What a round makes of a command: it ends VERIFIED or FAILED, and keeps what it asks for.
  pub record Concluded (before after : Command D) : Type 0 where
    pub ended : (after.state ≡ CommandState.verified) ⊎ (after.state ≡ CommandState.failed)
    pub command_id : after.command_id ≡ before.command_id
    pub target_device_id : after.target_device_id ≡ before.target_device_id
    pub point_id : after.point_id ≡ before.point_id
    pub target_value : after.target_value ≡ before.target_value

  abbrev pub AllConcluded : List (Command D) → List (Command D) → Type 0
  AllConcluded [] [] = Unit {0}
  AllConcluded (c ∷ cs) (d ∷ ds) = Concluded c d × AllConcluded cs ds
  AllConcluded _ _ = ⊥

-- Whether the adapter takes a command: its answer to the SENT command, or yes if it has no
-- `write_command`.
abbrev pub takes : {W D : Type 0} → DeviceAdapter W D → Command D → W → Bool
takes adapter c w = elim adapter.write_command [
  | none ↦ true
  | some call ↦ (call adapter.info (record c { state = CommandState.sent }) w).0
]

module _ {W D : Type 0} (adapter : DeviceAdapter W D) (store : Command D → W → W) where
  -- A command is VERIFIED if the adapter takes it, else FAILED.
  pub state-dispatch :
      (c : Command D) (w : W)
      → (dispatch adapter c w).0.state
        ≡ (if takes adapter c w then CommandState.verified else CommandState.failed)
  unfolding dispatch
  state-dispatch c w = ground arith

  dispatch-Concluded : (c : Command D) (w : W) → Concluded c (dispatch adapter c w).0
  unfolding dispatch
  dispatch-Concluded c w = ground arith

  dispatch_all-Concluded :
      (cs : List (Command D)) (w : W) → AllConcluded cs (dispatch_all adapter store cs w).0
  unfolding dispatch_all
  dispatch_all-Concluded [] w = tt
  dispatch_all-Concluded (c ∷ cs) w = (
    dispatch-Concluded c w,
    dispatch_all-Concluded cs (store (dispatch adapter c w).0 (dispatch adapter c w).1),
  )

  pending_commands_all :
      (cs : List (Command D))
      → All (λ c. c.state ≡ CommandState.pending) cs
      → pending_commands cs ≡ cs
  unfolding pending_commands
  pending_commands_all [] h = refl
  pending_commands_all (c ∷ cs) h = ground (arith, pending_commands_all cs h.1)

  -- One round on a well-formed queue processes every queued command, in order, to VERIFIED or
  -- FAILED, leaves their numbers, targets and values alone, and empties the queue.
  pub tick-AllConcluded :
      (s : CommandScheduler D) (w : W)
      → IsValid s
      → let (s', done, w') = command_scheduler_tick s adapter store w in
        (s'.queue ≡ []) × (s'.next_command_id ≡ s.next_command_id) × AllConcluded s.queue done
  unfolding command_scheduler_tick
  tick-AllConcluded s w v =
      (refl, refl, rw (pending_commands_all s.queue v.pending) (dispatch_all-Concluded s.queue w))

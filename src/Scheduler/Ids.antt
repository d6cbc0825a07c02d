-- ===== src/Scheduler/Ids.antt =====
-- The numbers of queued commands (`command_scheduler_submit`, runtime/command_scheduler.c).
use edgeflow_energy_gateway.Common.{
  ℕ, ◌+◌, ◌^◌, ◌≤◌, ◌<◌, ◌≡◌, refl, ◌⊎◌, none, some, List, [], ◌∷◌, ◌++◌, All, length,
  length-append, arith,
}
use edgeflow_energy_gateway.Model.Enums.{CommandState}
use edgeflow_energy_gateway.Model.Types.{Command}
use edgeflow_energy_gateway.Scheduler.{
  CommandScheduler, command_queue_max, command_scheduler_init, number_command,
  command_scheduler_submit,
}

module _ {D : Type 0} where
  -- The numbers rise along the queue, from at least `lo`, and stay below `hi`.
  abbrev pub Rising : ℕ → List (Command D) → ℕ → Type 0
  Rising lo [] hi = lo ≤ hi
  Rising lo (c ∷ cs) hi = (lo ≤ c.command_id) × Rising (c.command_id + 1) cs hi

  -- The queue fits its array, all of it is PENDING, and its numbers rise and have been given.
  pub record IsValid (s : CommandScheduler D) : Type 0 where
    pub fits : length s.queue ≤ command_queue_max
    pub pending : All (λ c. c.state ≡ CommandState.pending) s.queue
    pub rising : Rising 1 s.queue s.next_command_id
    pub small : s.next_command_id < 2 ^ 64

  Rising-append :
      (lo : ℕ) (cs : List (Command D)) (hi : ℕ) (c : Command D) (next : ℕ)
      → Rising lo cs hi
      → hi ≤ c.command_id
      → c.command_id < next
      → Rising lo (cs ++ (c ∷ [])) next
  Rising-append lo [] hi c next h above below = omega arith
  Rising-append lo (b ∷ cs) hi c next h above below =
      (h.0, Rising-append (b.command_id + 1) cs hi c next h.1 above below)

  pending-append :
      (cs : List (Command D)) (c : Command D)
      → All (λ c. c.state ≡ CommandState.pending) cs
      → c.state ≡ CommandState.pending
      → All (λ c. c.state ≡ CommandState.pending) (cs ++ (c ∷ []))
  pending-append [] c h e = (e, tt)
  pending-append (b ∷ cs) c h e = (h.0, pending-append cs c h.1 e)

  init-IsValid : IsValid command_scheduler_init
  unfolding command_scheduler_init
  init-IsValid = omega arith

  number_command-fresh :
      (s : CommandScheduler D) (c : Command D)
      → (c.command_id ≡ 0) ⊎ (s.next_command_id ≤ c.command_id)
      → s.next_command_id + 1 < 2 ^ 64
      → c.command_id + 1 < 2 ^ 64
      → let (id, next) = number_command s c in
        (s.next_command_id ≤ id) × (id < next) × (next < 2 ^ 64)
  unfolding number_command
  number_command-fresh s c fresh roomy small = ground arith

  -- A command whose number is 0 or has not been given before joins the queue, PENDING, under a
  -- number above all those in the queue, if fewer than 32 wait and the number is not the last
  -- 64-bit one; the scheduler stays well formed.
  pub submit-IsValid :
      (s : CommandScheduler D) (c : Command D)
      → IsValid s
      → length s.queue < command_queue_max
      → (c.command_id ≡ 0) ⊎ (s.next_command_id ≤ c.command_id)
      → s.next_command_id + 1 < 2 ^ 64
      → c.command_id + 1 < 2 ^ 64
      → (s' : CommandScheduler D) × (c' : Command D) × (command_scheduler_submit s c
          ≡ some (s', c'))
        × (s'.queue ≡ s.queue ++ (c' ∷ []))
        × (s.next_command_id ≤ c'.command_id)
        × (c'.point_id ≡ c.point_id)
        × IsValid s'
  unfolding command_scheduler_submit
  submit-IsValid s c v room fresh roomy small =
      let (above, below, fits) = number_command-fresh s c fresh roomy small in
      let (id, next) = number_command s c in
      let c' : Command D = record c { command_id = id; state = CommandState.pending } in
      (
        record { queue = s.queue ++ (c' ∷ []); next_command_id = next },
        c',
        ground arith,
        refl,
        above,
        refl,
        record {
          fits = omega (arith, length-append s.queue (c' ∷ []));
          pending = pending-append s.queue c' v.pending refl;
          rising = Rising-append 1 s.queue s.next_command_id c' next v.rising above below;
          small = fits;
        },
      )

  -- A full queue refuses every command.
  pub submit_full :
      (s : CommandScheduler D) (c : Command D)
      → length s.queue ≡ command_queue_max
      → command_scheduler_submit s c ≡ none
  unfolding command_scheduler_submit
  submit_full s c h = ground arith

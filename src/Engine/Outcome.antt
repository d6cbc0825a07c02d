-- ===== src/Engine/Outcome.antt =====
-- What `state_engine_process_telemetry` of runtime/state_engine.c answers, on every branch.
use edgeflow_energy_gateway.Common.{
  ℕ, ◌≡◌, refl, Bool, true, false, Bool-cases, inl, inr, ◌&&◌, ◌||◌, Option, none, some, arith,
  if◌then◌else◌,
}
use edgeflow_energy_gateway.Floats.{Floats}
use edgeflow_energy_gateway.Text.{CString, str_eq, str_eq→eq}
use edgeflow_energy_gateway.Model.Enums.{SystemState, CommandState}
use edgeflow_energy_gateway.Model.Types.{Telemetry, Command, GatewayConfig}
use edgeflow_energy_gateway.Engine.{
  StateEngine, is_good, soc_point, temp_point, grid_point, update_snapshot, clamp_discharge,
  shave_peak, run_strategy, check_soc, raise_alarm, state_engine_process_telemetry,
}

abbrev pub is_some : {A : Type 0} → Option A → Bool
is_some none = false
is_some (some a) = true

-- The grid power is no other point.
pub grid_apart :
    (s : CString)
    → str_eq s grid_point ≡ true
    → (str_eq s soc_point ≡ false) × (str_eq s temp_point ≡ false)
unfolding str_eq
grid_apart s h = rw (str_eq→eq s grid_point h) (refl, refl)

module _ ⦃f : Floats⦄ where
  open f use {Double, lt, le, sub, neg, of_ℕ}

  abbrev pub is_hot : GatewayConfig Double → StateEngine Double → Bool
  is_hot cfg e = lt cfg.temp_high e.max_cell_temp_c

  abbrev pub is_flat : GatewayConfig Double → StateEngine Double → Bool
  is_flat cfg e = le e.soc_percent cfg.min_discharge_soc

  -- The commands of the stages of a call, from the last to the first.
  shave_peak-command :
      (e : StateEngine Double) (cfg : GatewayConfig Double) (wants : Bool) (id ts : ℕ)
      {c : Command Double}
      → (shave_peak e cfg wants id ts).1.command ≡ some c
      → let kw =
          clamp_discharge
            (sub e.grid_power_kw cfg.peak_shaving_threshold_kw)
            cfg.max_discharge_kw in
        (le kw (of_ℕ 0) ≡ false)
        × (c.command_id ≡ id)
        × (c.state ≡ CommandState.pending)
        × (c.target_value ≡ neg kw)
  unfolding shave_peak
  shave_peak-command e cfg wants id ts h = ground arith

  run_strategy-command :
      (e : StateEngine Double) (cfg : GatewayConfig Double) (t : Telemetry Double) (wants : Bool)
      (id ts : ℕ) {c : Command Double}
      → (run_strategy e cfg t wants id ts).1.command ≡ some c
      → (str_eq t.point_id grid_point ≡ true)
        × (is_flat cfg e ≡ false)
        × (le e.grid_power_kw cfg.peak_shaving_threshold_kw ≡ false)
        × ((shave_peak (record e { state = SystemState.running }) cfg wants id ts).1.command
            ≡ some c)
  unfolding run_strategy
  run_strategy-command e cfg t wants id ts h = ground arith

  check_soc-command :
      (e : StateEngine Double) (cfg : GatewayConfig Double) (t : Telemetry Double)
      (wants_alarm wants : Bool) (id ts : ℕ) {c : Command Double}
      → (check_soc e cfg t wants_alarm wants id ts).1.command ≡ some c
      → (run_strategy e cfg t wants id ts).1.command ≡ some c
  unfolding check_soc raise_alarm
  check_soc-command e cfg t wa wants id ts h = ground arith

  process-command :
      (e : StateEngine Double) (cfg : GatewayConfig Double) (t : Telemetry Double)
      (wants_alarm wants : Bool) (id ts : ℕ) {c : Command Double}
      → (state_engine_process_telemetry e cfg t wants_alarm wants id ts).1.command ≡ some c
      → (is_good t.quality ≡ true)
        × (wants_alarm ≡ true → is_hot cfg (update_snapshot e t) ≡ false)
        × (state : SystemState) × ((run_strategy
              (record (update_snapshot e t) { state = state })
              cfg
              t
              wants
              id
              ts).1.command
            ≡ some c)
  unfolding state_engine_process_telemetry raise_alarm
  process-command e cfg t wa wants id ts h = elim (Bool-cases (is_good t.quality)) [
    | inl fine ↦ elim (Bool-cases (is_hot cfg (update_snapshot e t))) [
      | inl warm ↦ (
        fine,
        λ asked. ground arith,
        SystemState.fault,
        check_soc-command (record (update_snapshot e t) { state = SystemState.fault }) cfg t wa
            wants id ts (ground arith),
      )
      | inr cool ↦ (
        fine,
        λ asked. cool,
        (update_snapshot e t).state,
        check_soc-command (update_snapshot e t) cfg t wa wants id ts (ground arith),
      )
    ]
    | inr spoilt ↦ absurd (ground arith)
  ]

  update_snapshot-grid :
      (e : StateEngine Double) (t : Telemetry Double)
      → str_eq t.point_id grid_point ≡ true
      → (update_snapshot e t).grid_power_kw ≡ t.value
  unfolding update_snapshot
  update_snapshot-grid e t h = ground (arith, grid_apart t.point_id)

  module _ (e : StateEngine Double) (cfg : GatewayConfig Double) (t : Telemetry Double) where
    -- A point whose quality is not GOOD changes nothing and gives nothing.
    pub process_bad :
        (wants_alarm wants_command : Bool) (id ts : ℕ)
        → is_good t.quality ≡ false
        → let (e', out) = state_engine_process_telemetry e cfg t wants_alarm wants_command id ts in
          (e' ≡ e) × (out.valid ≡ false) × (out.alarm ≡ none) × (out.command ≡ none)
    unfolding state_engine_process_telemetry
    process_bad wa wc id ts h = ground arith

    -- A call answers true exactly if it gave an alarm or a command, and it never gives both.
    pub process-valid :
        (wants_alarm wants_command : Bool) (id ts : ℕ)
        → let (e', out) = state_engine_process_telemetry e cfg t wants_alarm wants_command id ts in
          (out.valid ≡ (is_some out.alarm || is_some out.command))
          × ((is_some out.alarm && is_some out.command) ≡ false)
    unfolding state_engine_process_telemetry
    process-valid wa wc id ts = ground arith

    -- The state of the plant after a GOOD point, with both pointers given: FAULT if the cells are
    -- too hot; else as before if the point is a state of charge that is too low; else RUNNING.
    pub process-state :
        (id ts : ℕ)
        → is_good t.quality ≡ true
        → let now = update_snapshot e t in
          (state_engine_process_telemetry e cfg t true true id ts).0.state ≡ (
            if is_hot cfg now
            then SystemState.fault
            else if is_flat cfg now && str_eq t.point_id soc_point
            then e.state
            else SystemState.running)
    unfolding state_engine_process_telemetry
    process-state id ts h = ground arith

    -- A command is given only for a GOOD grid power above the threshold, with enough charge and, in a
    -- call that has room for an alarm, with cells that are not too hot; it is PENDING under the given
    -- number, and asks for the clamped excess as a discharge.
    pub command_only_when :
        (wants_alarm wants_command : Bool) (id ts : ℕ) {c : Command Double}
        → let (e', out) = state_engine_process_telemetry e cfg t wants_alarm wants_command id ts in
          out.command ≡ some c
          → let now = update_snapshot e t in
            let kw =
              clamp_discharge (sub t.value cfg.peak_shaving_threshold_kw) cfg.max_discharge_kw in
            (is_good t.quality ≡ true)
            × (t.point_id ≡ grid_point)
            × (is_flat cfg now ≡ false)
            × (le t.value cfg.peak_shaving_threshold_kw ≡ false)
            × (le kw (of_ℕ 0) ≡ false)
            × (c.command_id ≡ id)
            × (c.state ≡ CommandState.pending)
            × (c.target_value ≡ neg kw)
            × (wants_alarm ≡ true → is_hot cfg now ≡ false)
    command_only_when wa wc id ts h =
        let (fine, cool, state, run) = process-command e cfg t wa wc id ts h in
        let now = record (update_snapshot e t) { state = state } in
        let (at_grid, charged, above, shave) = run_strategy-command now cfg t wc id ts run in
        let (positive, number, waiting, value) =
          shave_peak-command (record now { state = SystemState.running }) cfg wc id ts shave in
        let power = update_snapshot-grid e t at_grid in
        (
          fine,
          str_eq→eq t.point_id grid_point at_grid,
          charged,
          rw power at above,
          rw power at positive,
          number,
          waiting,
          rw power at value,
          cool,
        )

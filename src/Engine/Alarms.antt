-- ===== src/Engine/Alarms.antt =====
-- The alarms of `state_engine_process_telemetry`, runtime/state_engine.c.
use edgeflow_energy_gateway.Common.{
  ℕ, ◌+◌, ◌%◌, ◌^◌, ◌≡◌, refl, sym, ap, ◌∙◌, inl, inr, Bool-cases, Bool, true, false, ◌⊎◌, none,
  some, arith,
}
use edgeflow_energy_gateway.Floats.{Floats}
use edgeflow_energy_gateway.Text.{CString, literal, str_eq, copy_string}
use edgeflow_energy_gateway.Model.Enums.{AlarmState, SystemState}
use edgeflow_energy_gateway.Model.Types.{id_max, Telemetry, AlarmEvent, GatewayConfig}
use edgeflow_energy_gateway.Engine.{
  StateEngine, silent, raise_alarm, check_soc, run_strategy, shave_peak, is_good, soc_point,
  update_snapshot, state_engine_process_telemetry,
}
use edgeflow_energy_gateway.Engine.Outcome.{is_hot, is_flat}

module _ ⦃f : Floats⦄ where
  open f use {Double}

  -- The reasons for which an alarm is raised, each with its code.
  abbrev pub Reason :
      StateEngine Double → GatewayConfig Double → Telemetry Double → AlarmEvent → Type 0
  Reason now cfg t a =
      ((is_hot cfg now ≡ true) × (a.code ≡ literal "BMS_TEMP_HIGH"))
      ⊎ ((is_hot cfg now ≡ false)
          × (is_flat cfg now ≡ true)
          × (str_eq t.point_id soc_point ≡ true)
          × (a.code ≡ literal "BMS_SOC_LOW"))

  -- What an alarm of `raise_alarm` holds.
  abbrev Raised : StateEngine Double → StateEngine Double → ℕ → CString → AlarmEvent → Type 0
  Raised e e' ts code a =
      (a.alarm_id ≡ e.next_alarm_id)
      × (e'.next_alarm_id ≡ (e.next_alarm_id + 1) % 2 ^ 64)
      × (a.state ≡ AlarmState.active)
      × (a.ts_ms ≡ ts)
      × (a.code ≡ copy_string id_max (some code))

  raise_alarm-Raised :
      (e : StateEngine Double) (ts : ℕ) (code message : CString) {a : AlarmEvent}
      → (raise_alarm e ts code message).1.alarm ≡ some a
      → Raised e (raise_alarm e ts code message).0 ts code a
  unfolding raise_alarm
  raise_alarm-Raised e ts code message h = ground arith

  run_strategy-alarm :
      (e : StateEngine Double) (cfg : GatewayConfig Double) (t : Telemetry Double) (wants : Bool)
      (id ts : ℕ)
      → (run_strategy e cfg t wants id ts).1.alarm ≡ none
  unfolding run_strategy shave_peak
  run_strategy-alarm e cfg t wants id ts = ground arith

  check_soc-alarm :
      (e : StateEngine Double) (cfg : GatewayConfig Double) (t : Telemetry Double)
      (wants_alarm wants : Bool) (id ts : ℕ) {a : AlarmEvent}
      → let (e', out) = check_soc e cfg t wants_alarm wants id ts in
        out.alarm ≡ some a
        → (is_flat cfg e ≡ true)
          × (wants_alarm ≡ true)
          × (str_eq t.point_id soc_point ≡ true)
          × Raised e e' ts (literal "BMS_SOC_LOW") a
  unfolding check_soc
  check_soc-alarm e cfg t wa wants id ts h = ground (
    arith,
    run_strategy-alarm e cfg t wants id ts,
    raise_alarm-Raised e ts (literal "BMS_SOC_LOW")
        (literal "SOC below minimum discharge threshold"),
  )

  next_alarm_id-update_snapshot :
      (e : StateEngine Double) (t : Telemetry Double)
      → (update_snapshot e t).next_alarm_id ≡ e.next_alarm_id
  unfolding update_snapshot
  next_alarm_id-update_snapshot e t = ground arith

  module _ (e : StateEngine Double) (cfg : GatewayConfig Double) (t : Telemetry Double)
      (wants_alarm wants_command : Bool) (id ts : ℕ) where
    -- A call ignores the point, raises the alarm of a fault, or goes on to the state of charge.
    process-cases :
        let r = state_engine_process_telemetry e cfg t wants_alarm wants_command id ts in
        let now = update_snapshot e t in
        (r ≡ (e, silent))
        ⊎ (((is_good t.quality ≡ true)
              × (is_hot cfg now ≡ true)
              × (wants_alarm ≡ true)
              × (r
                  ≡ raise_alarm
                      (record now { state = SystemState.fault })
                      ts
                      (literal "BMS_TEMP_HIGH")
                      (literal "max cell temperature exceeds limit")))
            ⊎ ((is_good t.quality ≡ true)
                × (state : SystemState) × (wants_alarm ≡ true → is_hot cfg now ≡ false)
                × (r
                    ≡ check_soc
                        (record now { state = state })
                        cfg
                        t
                        wants_alarm
                        wants_command
                        id
                        ts)))
    unfolding state_engine_process_telemetry
    process-cases = elim (Bool-cases (is_good t.quality)) [
      | inr spoilt ↦ inl (rw (spoilt, state_engine_process_telemetry) refl)
      | inl fine ↦ elim (Bool-cases (is_hot cfg (update_snapshot e t))) [
        | inl warm ↦ elim (Bool-cases wants_alarm) [
          | inl wanted ↦ inr (
              inl
                (fine, warm, wanted, rw (fine, warm, wanted, state_engine_process_telemetry) refl))
          | inr deaf ↦ inr (
              inr (
                fine,
                SystemState.fault,
                (λ wanted. cc),
                rw (fine, warm, deaf, state_engine_process_telemetry) refl,
              ))
        ]
        | inr cool ↦ inr (
            inr (
              fine,
              (update_snapshot e t).state,
              (λ _. cool),
              rw (fine, cool, state_engine_process_telemetry) refl,
            ))
      ]
    ]

    -- An alarm is given only for a GOOD point that leaves the cells too hot, or that is a state of
    -- charge not above its minimum; it is ACTIVE, it takes the next number and moves it on.
    pub alarm_only_when :
        {a : AlarmEvent}
        → let (e', out) = state_engine_process_telemetry e cfg t wants_alarm wants_command id ts in
          out.alarm ≡ some a
          → (is_good t.quality ≡ true)
            × (wants_alarm ≡ true)
            × (a.alarm_id ≡ e.next_alarm_id)
            × (e'.next_alarm_id ≡ (e.next_alarm_id + 1) % 2 ^ 64)
            × (a.state ≡ AlarmState.active)
            × (a.ts_ms ≡ ts)
            × Reason (update_snapshot e t) cfg t a
    unfolding state_engine_process_telemetry copy_string
    alarm_only_when {a} h = elim process-cases [
      | inl q ↦ absurd (ground (arith, ap (λ r. r.1.alarm) q))
      | inr (inl (fine, warm, wanted, q)) ↦
          let (number, next, active, at, code) =
            raise_alarm-Raised (record (update_snapshot e t) { state = SystemState.fault }) ts
              (literal "BMS_TEMP_HIGH") (literal "max cell temperature exceeds limit")
              (sym (ap (λ r. r.1.alarm) q) ∙ h) in
          (
            fine,
            wanted,
            number ∙ next_alarm_id-update_snapshot e t,
            ap (λ r. r.0.next_alarm_id) q
                ∙ next
                ∙ ap (λ (n : ℕ). (n + 1) % 2 ^ 64) (next_alarm_id-update_snapshot e t),
            active,
            at,
            inl (warm, code),
          )
      | inr (inr (fine, state, cool, q)) ↦
          let (flat, wanted, at_soc, (number, next, active, at, code)) =
            check_soc-alarm (record (update_snapshot e t) { state = state }) cfg t wants_alarm
              wants_command id ts (sym (ap (λ r. r.1.alarm) q) ∙ h) in
          (
            fine,
            wanted,
            number ∙ next_alarm_id-update_snapshot e t,
            ap (λ r. r.0.next_alarm_id) q
                ∙ next
                ∙ ap (λ (n : ℕ). (n + 1) % 2 ^ 64) (next_alarm_id-update_snapshot e t),
            active,
            at,
            inr (cool wanted, flat, at_soc, code),
          )
    ]

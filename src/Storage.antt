-- ===== src/Storage.antt =====
-- platform/storage.h and platform/storage.c: telemetry, alarms and commands in SQLite and in a JSON
-- lines file. `Sqlite` stands for the SQLite library and the file functions; a statement's prepare,
-- bind, step and finalize are one operation of it, which fails if prepare or step does. The query for
-- pending rows gives what its single steps answer, since its loop takes a failed step for the end.
pub mod Database
pub mod Rows
pub mod Memory
pub mod Handles
pub mod Pending
mod Tests
use edgeflow_energy_gateway.Common.{
  ℕ, zero, suc, ◌-◌, Bool, true, false, Option, none, some, List, [], ◌∷◌, ◌++◌, map, take, leb,
  ◌&&◌, ◌||◌, not, if◌then◌else◌,
}
use edgeflow_energy_gateway.Floats.{Floats}
use edgeflow_energy_gateway.Text.{CString, literal, copy_string, print_ℕ, concat}
use edgeflow_energy_gateway.Model.Enums.{
  good, AlarmState, active, recovered, quality_to_string, command_state_to_string,
}
use edgeflow_energy_gateway.Model.Types.{Telemetry, AlarmEvent, Command, GatewayConfig}
use edgeflow_energy_gateway.Model.Build.{telemetry_init}

-- The bound columns of a row of `telemetry`; a time is its 64-bit pattern.
pub record TelemetryRow (D : Type 0) : Type 0 where
  pub ts_ms : ℕ
  pub device_id : CString
  pub point_id : CString
  pub value : D
  pub unit : CString
  pub quality : CString

-- A row that the query for pending telemetry yields.
pub record PendingRow (D : Type 0) : Type 0 where
  pub id : ℕ
  pub row : TelemetryRow D

-- What `sqlite3_step` answers: a row, the end of the rows, or a failure.
pub data Step (D : Type 0) : Type 0 where
  sqlite_row : PendingRow D → Step D
  sqlite_done sqlite_error : Step D

pub record Sqlite (W D : Type 0) : Type 0 where
  pub open_db : CString → W → Bool × W
  pub exec_schema : W → Bool × W
  pub close_db : W → W
  -- the new row's id
  pub insert_telemetry : TelemetryRow D → W → Option ℕ × W
  -- with the text of the alarm's state
  pub insert_alarm : AlarmEvent → CString → W → Bool × W
  pub insert_command : Command D → CString → W → Bool × W
  -- `SELECT … WHERE uploaded=0 ORDER BY id ASC LIMIT ?`: `none` if it cannot be prepared, else what
  -- its steps answer in turn, until one gives no row
  pub select_pending : ℕ → W → Option (List (Step D)) × W
  pub mark_uploaded : ℕ → W → Bool × W
  pub count_pending : W → Option ℕ × W
  -- opens a file by its path, appends a line and closes it
  pub append_line : CString → CString → W → Bool × W

-- `storage_ctx_t`; `has_db` says that `db` is not NULL.
pub record StorageCtx (D : Type 0) : Type 0 where
  pub cfg : GatewayConfig D
  pub has_db : Bool

-- `storage_telemetry_row_t`
pub record StorageRow (D : Type 0) : Type 0 where
  pub row_id : ℕ
  pub point : Telemetry D

abbrev pub alarm_state_text : AlarmState → CString
alarm_state_text active = literal "ACTIVE"
alarm_state_text recovered = literal "RECOVERED"

abbrev pub uses_db : {D : Type 0} → StorageCtx D → Bool
uses_db ctx = ctx.cfg.use_sqlite && ctx.has_db

abbrev pub row_of : {D : Type 0} → Telemetry D → TelemetryRow D
row_of point = record {
  ts_ms = point.ts_ms;
  device_id = point.device_id;
  point_id = point.point_id;
  value = point.value;
  unit = point.unit;
  quality = quality_to_string point.quality;
}

abbrev pub count_or_zero : Option ℕ → ℕ
count_or_zero none = 0
count_or_zero (some n) = n

module _ {W D : Type 0} (sqlite : Sqlite W D) where
  -- `memory` says whether `calloc` succeeds.
  unfoldable pub storage_open : Bool → GatewayConfig D → W → Option (StorageCtx D) × W
  storage_open memory cfg w =
      let (opened, w₁) = sqlite.open_db cfg.sqlite_path w in
      let (created, w₂) = sqlite.exec_schema w₁ in
      if memory
      then (if cfg.use_sqlite
          then (if opened
              then (if created
                  then (some (record { cfg = cfg; has_db = true }), w₂)
                  else (none, sqlite.close_db w₂))
              else (none, w₁))
          else (some (record { cfg = cfg; has_db = false }), w))
      else (none, w)

  unfoldable pub storage_close : StorageCtx D → W → W
  storage_close ctx w = if ctx.has_db then sqlite.close_db w else w

  unfoldable pub storage_append_alarm : StorageCtx D → AlarmEvent → W → Bool × W
  storage_append_alarm ctx alarm w =
      let line = copy_string 640 (
        some (
          concat (
            literal "{\"type\":\"alarm\",\"code\":\""
            ∷ alarm.code
            ∷ literal "\",\"device_id\":\""
            ∷ alarm.device_id
            ∷ literal "\"}"
            ∷ []))) in
      let (_, w₁) = sqlite.append_line ctx.cfg.cache_path line w in
      if uses_db ctx
      then sqlite.insert_alarm alarm (alarm_state_text alarm.state) w₁
      else (true, w₁)

  unfoldable pub storage_append_command : StorageCtx D → Command D → W → Bool × W
  storage_append_command ctx command w =
      let line = copy_string 640 (
        some (
          concat (
            literal "{\"type\":\"command\",\"id\":"
            ∷ print_ℕ command.command_id
            ∷ literal ",\"state\":\""
            ∷ command_state_to_string command.state
            ∷ literal "\"}"
            ∷ []))) in
      let (_, w₁) = sqlite.append_line ctx.cfg.cache_path line w in
      if uses_db ctx
      then sqlite.insert_command command (command_state_to_string command.state) w₁
      else (true, w₁)

  -- A row id is a positive `int64_t`; a call with another one fails.
  unfoldable pub storage_mark_telemetry_uploaded : StorageCtx D → ℕ → W → Bool × W
  storage_mark_telemetry_uploaded ctx row_id w =
      if leb row_id 0 || not ctx.has_db then (false, w) else sqlite.mark_uploaded row_id w

  unfoldable pub storage_pending_telemetry_count : StorageCtx D → W → ℕ × W
  storage_pending_telemetry_count ctx w =
      let (count, w₁) = sqlite.count_pending w in
      if ctx.has_db then (count_or_zero count, w₁) else (0, w)

module _ ⦃f : Floats⦄ where
  open f use {Double, fixed4}

  -- The line of `jsonl_append_telemetry`.
  unfoldable pub telemetry_line : Telemetry Double → CString
  unfolding quality_to_string
  telemetry_line point = copy_string 512 (
      some (
        concat (
          literal "{\"type\":\"telemetry\",\"ts_ms\":"
          ∷ print_ℕ point.ts_ms
          ∷ literal ",\"device_id\":\""
          ∷ point.device_id
          ∷ literal "\",\"point_id\":\""
          ∷ point.point_id
          ∷ literal "\",\"value\":"
          ∷ fixed4 point.value
          ∷ literal ",\"unit\":\""
          ∷ point.unit
          ∷ literal "\",\"quality\":\""
          ∷ quality_to_string point.quality
          ∷ literal "\"}"
          ∷ [])))

  -- The fetched row. Its column `quality` is selected and not read.
  unfoldable pub fetched : PendingRow Double → StorageRow Double
  unfolding telemetry_init
  fetched r = record {
    row_id = r.id;
    point =
        record (telemetry_init r.row.ts_ms (some r.row.device_id) (some r.row.point_id) r.row.value
          (some r.row.unit) 0) { quality = good };
  }

  -- `while (sqlite3_step(stmt) == SQLITE_ROW && n < max_rows)`: a failed step ends the rows like the
  -- last one, and a row beyond `max_rows` is read and thrown away.
  unfoldable pub fetch_rows : ℕ → List (Step Double) → List (StorageRow Double)
  unfolding fetched
  fetch_rows room [] = []
  fetch_rows room (Step.sqlite_done ∷ steps) = []
  fetch_rows room (Step.sqlite_error ∷ steps) = []
  fetch_rows zero (Step.sqlite_row r ∷ steps) = []
  fetch_rows (suc room) (Step.sqlite_row r ∷ steps) = fetched r ∷ fetch_rows room steps

  module _ {W : Type 0} (sqlite : Sqlite W Double) where
    unfoldable pub jsonl_append_telemetry : CString → Telemetry Double → W → Bool × W
    unfolding telemetry_line
    jsonl_append_telemetry path point w = sqlite.append_line path (telemetry_line point) w

    -- `none` is the result -1, which writes no row id; without a database the row id is 0.
    unfoldable pub storage_append_telemetry :
        StorageCtx Double → Telemetry Double → W → Option ℕ × W
    storage_append_telemetry ctx point w =
        let (_, w₁) = jsonl_append_telemetry ctx.cfg.cache_path point w in
        if uses_db ctx then sqlite.insert_telemetry (row_of point) w₁ else (some 0, w₁)

    unfoldable pub storage_append_point : StorageCtx Double → Telemetry Double → W → Bool × W
    storage_append_point ctx point w = elim (storage_append_telemetry ctx point w).0 [
      | none ↦ (false, (storage_append_telemetry ctx point w).1)
      | some id ↦ (true, (storage_append_telemetry ctx point w).1)
    ]

    -- `none` is the result -1, which only a failed prepare gives.
    unfoldable pub storage_fetch_pending_telemetry :
        StorageCtx Double → ℕ → W → Option (List (StorageRow Double)) × W
    unfolding fetch_rows
    storage_fetch_pending_telemetry ctx max_rows w =
        if leb max_rows 0 || not (uses_db ctx)
        then (some [], w)
        else elim (sqlite.select_pending max_rows w).0 [
          | none ↦ (none, (sqlite.select_pending max_rows w).1)
          | some steps ↦ (some (fetch_rows max_rows steps), (sqlite.select_pending max_rows w).1)
        ]

-- ===== src/Storage/Database.antt =====
-- What storage.c relies on of its SQL statements: a table of telemetry rows that each statement
-- reads or changes as SQLite documents it.
use edgeflow_energy_gateway.Common.{
  ℕ, ◌<◌, ◌≡◌, Bool, true, false, Option, none, some, List, [], ◌∷◌, ◌++◌, All, take, length, ◌==◌,
  if◌then◌else◌,
}
use edgeflow_energy_gateway.Text.{CString}
use edgeflow_energy_gateway.Model.Types.{AlarmEvent, Command}
use edgeflow_energy_gateway.Storage.{TelemetryRow, PendingRow, Step, Sqlite}

-- A row of the table `telemetry`.
pub record StoredRow (D : Type 0) : Type 0 where
  pub id : ℕ
  pub row : TelemetryRow D
  pub uploaded : Bool

module _ {D : Type 0} where
  -- The rows with uploaded = 0.
  abbrev pub pending_rows : List (StoredRow D) → List (PendingRow D)
  pending_rows [] = []
  pending_rows (r ∷ rs) =
      let rest = pending_rows rs in
      if r.uploaded then rest else record { id = r.id; row = r.row } ∷ rest

  -- UPDATE telemetry SET uploaded=1 WHERE id=?
  abbrev pub mark_rows : ℕ → List (StoredRow D) → List (StoredRow D)
  mark_rows id [] = []
  mark_rows id (r ∷ rs) = (if r.id == id then record r { uploaded = true } else r) ∷ mark_rows id rs

  -- Pending rows but for those of one id.
  abbrev pub without_id : ℕ → List (PendingRow D) → List (PendingRow D)
  without_id id [] = []
  without_id id (r ∷ rs) = let rest = without_id id rs in if r.id == id then rest else r ∷ rest

-- The steps of a query answer its rows in turn and then the end, unless one of them fails.
abbrev pub Yields : {D : Type 0} → List (PendingRow D) → List (Step D) → Type 0
Yields rs [] = ⊥
Yields rs (Step.sqlite_error ∷ steps) = Unit {0}
Yields [] (Step.sqlite_done ∷ steps) = Unit {0}
Yields (r ∷ rs) (Step.sqlite_done ∷ steps) = ⊥
Yields [] (Step.sqlite_row s ∷ steps) = ⊥
Yields (r ∷ rs) (Step.sqlite_row s ∷ steps) = (s ≡ r) × Yields rs steps

-- Whether a step of a query failed.
abbrev pub step_failed : {D : Type 0} → Option (List (Step D)) → Bool
step_failed none = false
step_failed (some []) = false
step_failed (some (Step.sqlite_error ∷ steps)) = true
step_failed (some (Step.sqlite_done ∷ steps)) = false
step_failed (some (Step.sqlite_row r ∷ steps)) = step_failed (some steps)

-- `table w` are the rows in the order of their ids.
pub record IsDatabase {W D : Type 0} (sqlite : Sqlite W D) (table : W → List (StoredRow D))
    : Type 0 where
  -- INSERT appends a row under an id that is positive and above all others (AUTOINCREMENT)
  pub inserted :
      (r : TelemetryRow D) (w : W) (id : ℕ)
      → (sqlite.insert_telemetry r w).0 ≡ some id
      → (0 < id)
        × All (λ s. s.id < id) (table w)
        × (table (sqlite.insert_telemetry r w).1
            ≡ table w ++ (record { id = id; row = r; uploaded = false } ∷ []))
  pub insert_failed :
      (r : TelemetryRow D) (w : W)
      → (sqlite.insert_telemetry r w).0 ≡ none
      → table (sqlite.insert_telemetry r w).1 ≡ table w
  pub selected :
      (n : ℕ) (w : W) (steps : List (Step D))
      → (sqlite.select_pending n w).0 ≡ some steps
      → Yields (take n (pending_rows (table w))) steps
  pub table-select : (n : ℕ) (w : W) → table (sqlite.select_pending n w).1 ≡ table w
  pub marked :
      (id : ℕ) (w : W)
      → (sqlite.mark_uploaded id w).0 ≡ true
      → table (sqlite.mark_uploaded id w).1 ≡ mark_rows id (table w)
  pub mark_failed :
      (id : ℕ) (w : W)
      → (sqlite.mark_uploaded id w).0 ≡ false
      → table (sqlite.mark_uploaded id w).1 ≡ table w
  pub counted :
      (w : W) (n : ℕ) → (sqlite.count_pending w).0 ≡ some n → n ≡ length (pending_rows (table w))
  pub table-count : (w : W) → table (sqlite.count_pending w).1 ≡ table w
  -- The audit file and the other tables are apart from this one.
  pub table-append_line :
      (path line : CString) (w : W) → table (sqlite.append_line path line w).1 ≡ table w
  pub table-alarm :
      (a : AlarmEvent) (text : CString) (w : W) → table (sqlite.insert_alarm a text w).1 ≡ table w
  pub table-command :
      (c : Command D) (text : CString) (w : W) → table (sqlite.insert_command c text w).1 ≡ table w

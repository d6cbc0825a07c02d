-- ===== src/Storage/Memory.antt =====
-- A database in memory for the tests: it is its own table, and its file is thrown away.
use edgeflow_energy_gateway.Common.{
  ℕ, ◌+◌, ◌<◌, ◌≤◌, ◌≡◌, some-injective, refl, true, false, some, List, [], ◌∷◌, ◌++◌, All, take,
  length, ltb, if◌then◌else◌, arith, ℤ,
}
use mathlib.Core.Path.{subst}
use edgeflow_energy_gateway.Storage.{Sqlite, TelemetryRow, PendingRow, Step}
use edgeflow_energy_gateway.Storage.Database.{
  StoredRow, pending_rows, mark_rows, Yields, IsDatabase,
}

abbrev pub Table : Type 0
Table = List (StoredRow ℤ)

-- An id above all those of the table.
abbrev fresh_id : Table → ℕ
fresh_id [] = 1
fresh_id (r ∷ rs) = let m = fresh_id rs in if ltb r.id m then m else r.id + 1

-- A query whose steps all succeed.
abbrev steps_of : List (PendingRow ℤ) → List (Step ℤ)
steps_of [] = Step.sqlite_done ∷ []
steps_of (r ∷ rs) = Step.sqlite_row r ∷ steps_of rs

steps_of-Yields : (rs : List (PendingRow ℤ)) → Yields rs (steps_of rs)
steps_of-Yields [] = tt
steps_of-Yields (r ∷ rs) = (refl, steps_of-Yields rs)

abbrev pub memory : Sqlite Table ℤ
memory = record {
  open_db = λ path w. (true, w);
  exec_schema = λ w. (true, w);
  close_db = λ w. w;
  insert_telemetry =
      λ r w. (some (fresh_id w), w ++ (record { id = fresh_id w; row = r; uploaded = false } ∷ []));
  insert_alarm = λ a text w. (true, w);
  insert_command = λ c text w. (true, w);
  select_pending = λ n w. (some (steps_of (take n (pending_rows w))), w);
  mark_uploaded = λ id w. (true, mark_rows id w);
  count_pending = λ w. (some (length (pending_rows w)), w);
  append_line = λ path text w. (true, w);
}

below-weaken : (m n : ℕ) (rs : Table) → m ≤ n → All (λ r. r.id < m) rs → All (λ r. r.id < n) rs
below-weaken m n [] h a = tt
below-weaken m n (r ∷ rs) h a = (omega (arith, a.0), below-weaken m n rs h a.1)

fresh_id-above : (rs : Table) → All (λ r. r.id < fresh_id rs) rs
fresh_id-above [] = tt
fresh_id-above (r ∷ rs) = (
  ground arith,
  below-weaken (fresh_id rs) (fresh_id (r ∷ rs)) rs (ground arith) (fresh_id-above rs),
)

fresh_id-positive : (rs : Table) → 0 < fresh_id rs
fresh_id-positive [] = omega arith
fresh_id-positive (r ∷ rs) = ground (arith, fresh_id-positive rs)

inserted_as :
    (r : TelemetryRow ℤ) (w : Table) (id : ℕ)
    → fresh_id w ≡ id
    → (0 < id)
      × All (λ s. s.id < id) w
      × (w ++ (record { id = fresh_id w; row = r; uploaded = false } ∷ [])
          ≡ w ++ (record { id = id; row = r; uploaded = false } ∷ []))
inserted_as r w id e =
    subst
      (λ (i : ℕ).
        (0 < i)
        × All (λ s. s.id < i) w
        × (w ++ (record { id = fresh_id w; row = r; uploaded = false } ∷ [])
            ≡ w ++ (record { id = i; row = r; uploaded = false } ∷ [])))
      e (fresh_id-positive w, fresh_id-above w, refl)

pub memory-IsDatabase : IsDatabase memory (λ w. w)
memory-IsDatabase = record {
  inserted = λ r w id h. inserted_as r w id (ground arith);
  insert_failed = λ r w h. ground arith;
  selected = λ n w steps h.
      subst (Yields (take n (pending_rows w))) (some-injective _ steps h)
        (steps_of-Yields (take n (pending_rows w)));
  table-select = λ n w. refl;
  marked = λ id w h. refl;
  mark_failed = λ id w h. ground arith;
  counted = λ w n h. ground arith;
  table-count = λ w. refl;
  table-append_line = λ path text w. refl;
  table-alarm = λ a text w. refl;
  table-command = λ c text w. refl;
}

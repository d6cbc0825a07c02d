-- ===== src/Storage/Tests.antt =====
-- The theorems on the storage over a database in memory.
use edgeflow_energy_gateway.Common.{
  ℕ, ◌+◌, ◌-◌, ◌≡◌, refl, true, none, some, List, [], ◌∷◌, ◌++◌, ℤ, map, take, length, false, arith,
}
use edgeflow_energy_gateway.Floats.Scaled.{scaled}
use edgeflow_energy_gateway.Text.{copy_string}
use edgeflow_energy_gateway.Model.Enums.{good, uncertain}
use edgeflow_energy_gateway.Model.Types.{Telemetry}
use edgeflow_energy_gateway.Model.Samples.{sample_config, cool_point}
use edgeflow_energy_gateway.Storage.{
  Sqlite, storage_open, StorageCtx, StorageRow, row_of, fetched, storage_append_telemetry,
  storage_fetch_pending_telemetry, storage_mark_telemetry_uploaded, jsonl_append_telemetry,
}
use edgeflow_energy_gateway.Storage.Database.{pending_rows, step_failed}
use edgeflow_energy_gateway.Storage.Rows.{fetch-append}
use edgeflow_energy_gateway.Storage.Handles.{CountsHandles, handles-storage_open}
use edgeflow_energy_gateway.Storage.Handles
use edgeflow_energy_gateway.Storage.Memory.{Table, memory, memory-IsDatabase}

abbrev opened : StorageCtx ℤ
opened = record { cfg = sample_config; has_db = true }

-- One row that has been uploaded, and one that has not.
abbrev two_rows : Table
two_rows =
    record { id = 1; row = row_of cool_point; uploaded = true }
    ∷ record { id = 2; row = row_of cool_point; uploaded = false }
    ∷ []

abbrev doubtful_point : Telemetry ℤ
doubtful_point = record cool_point { quality = uncertain }

abbrev both : List (StorageRow ℤ)
both =
    map fetched (pending_rows two_rows)
    ++ (record { row_id = 3; point = record doubtful_point { quality = good; source_id = 0 } } ∷ [])

appended : (storage_append_telemetry memory opened doubtful_point two_rows).0 ≡ some 3
unfolding storage_append_telemetry jsonl_append_telemetry
appended = refl

both_fetched :
    (storage_fetch_pending_telemetry memory opened 5
      (storage_append_telemetry memory opened doubtful_point two_rows).1).0
    ≡ some both
unfolding storage_append_telemetry storage_fetch_pending_telemetry jsonl_append_telemetry
    copy_string
both_fetched = refl

fetch-append_example :
    let w' = (storage_append_telemetry memory opened doubtful_point two_rows).1 in
    let all =
      map fetched (pending_rows two_rows)
      ++ (record { row_id = 3; point = record doubtful_point { quality = good; source_id = 0 } }
          ∷ []) in
    (both ≡ take (length both) all)
    × (step_failed (memory.select_pending 5 w').0 ≡ false → both ≡ all)
fetch-append_example =
    fetch-append memory (λ w. w) memory-IsDatabase opened doubtful_point 5 two_rows 3 both refl
      (record { device_id = omega arith; point_id = omega arith; unit = omega arith }) (omega arith)
      appended both_fetched

marked : (storage_mark_telemetry_uploaded memory opened 2 two_rows).0 ≡ true
unfolding storage_mark_telemetry_uploaded
marked = refl

one_fetched :
    (storage_fetch_pending_telemetry memory opened 1 two_rows).0
    ≡ some (map fetched (pending_rows two_rows))
unfolding storage_fetch_pending_telemetry
one_fetched = refl

-- Connections that are counted, to a file that cannot be opened; the world is the count.
abbrev unreadable : Sqlite ℕ ℤ
unreadable = record {
  open_db = λ path w. (false, w + 1);
  exec_schema = λ w. (true, w);
  close_db = λ w. w - 1;
  insert_telemetry = λ r w. (none, w);
  insert_alarm = λ a text w. (false, w);
  insert_command = λ c text w. (false, w);
  select_pending = λ n w. (none, w);
  mark_uploaded = λ id w. (false, w);
  count_pending = λ w. (none, w);
  append_line = λ path text w. (true, w);
}

unreadable-CountsHandles : CountsHandles unreadable (λ w. w)
unreadable-CountsHandles = record {
  handles-open = λ path w. refl;
  handles-schema = λ w. refl;
  handles-close = λ w h. omega arith;
}

handles-storage_open_example :
    let (ctx, w') = storage_open unreadable true sample_config 3 in
    w'
    ≡ 3 + Handles.opened unreadable (λ w. w) unreadable-CountsHandles true false sample_config ctx
handles-storage_open_example =
    handles-storage_open unreadable (λ w. w) unreadable-CountsHandles true sample_config 3

-- Nothing is returned, and one connection is left open.
connection_left : storage_open unreadable true sample_config 0 ≡ (none, 1)
unfolding storage_open
connection_left = refl

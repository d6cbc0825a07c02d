-- ===== src/Storage/Rows.antt =====
-- What storage.c keeps of a point, and what it gives back for the replay.
use edgeflow_energy_gateway.Common.{
  ℕ, zero, suc, ◌<◌, ◌≤◌, ◌≡◌, refl, ap, ap₂, sym, ◌∙◌, true, false, false, some, Option-cases, inl,
  inr, List, [], ◌∷◌, ◌++◌, map, take, length, length-take, take_of_le, arith, leb, ◌||◌, not,
  length-append, Bool-cases,
}
use edgeflow_energy_gateway.Floats.{Floats}
use edgeflow_energy_gateway.Text.{copy_string_of_fits}
use edgeflow_energy_gateway.Model.Enums.{good}
use edgeflow_energy_gateway.Model.Types.{Telemetry, id_max, unit_max}
use edgeflow_energy_gateway.Model.Limits.{TelemetryFits}
use edgeflow_energy_gateway.Storage.{
  PendingRow, Step, Sqlite, fetch_rows, StorageCtx, StorageRow, uses_db, row_of, fetched,
  telemetry_line, storage_append_telemetry, storage_fetch_pending_telemetry,
  storage_mark_telemetry_uploaded, jsonl_append_telemetry,
}
use edgeflow_energy_gateway.Storage.Database.{
  StoredRow, pending_rows, mark_rows, without_id, IsDatabase, Yields, step_failed,
}

pending_rows-append :
    {D : Type 0} (rs ss : List (StoredRow D))
    → pending_rows (rs ++ ss) ≡ pending_rows rs ++ pending_rows ss
pending_rows-append [] ss = refl
pending_rows-append (r ∷ rs) ss = ground (arith, pending_rows-append rs ss)

pending_rows-mark_rows :
    {D : Type 0} (id : ℕ) (rs : List (StoredRow D))
    → pending_rows (mark_rows id rs) ≡ without_id id (pending_rows rs)
pending_rows-mark_rows id [] = refl
pending_rows-mark_rows id (r ∷ rs) = ground (arith, pending_rows-mark_rows id rs)

length-map {ℓ κ} :
    {A : Type ℓ} {B : Type κ} (f : A → B) (xs : List A) → length (map f xs) ≡ length xs
length-map f [] = refl
length-map f (x ∷ xs) = ap suc (length-map f xs)

map-append' {ℓ κ} :
    {A : Type ℓ} {B : Type κ} (f : A → B) (xs ys : List A) → map f (xs ++ ys) ≡ map f xs ++ map f ys
map-append' f [] ys = refl
map-append' f (x ∷ xs) ys = ap (λ zs. f x ∷ zs) (map-append' f xs ys)

module _ ⦃f : Floats⦄ where
  open f use {Double}

  -- A point that fits its buffers comes back from its row as it was, but for its quality, which
  -- reads GOOD, and its source, which reads 0.
  fetched-row_of :
      (id : ℕ) (p : Telemetry Double)
      → TelemetryFits p
      → fetched (record { id = id; row = row_of p })
        ≡ record { row_id = id; point = record p { quality = good; source_id = 0 } }
  unfolding fetched
  fetched-row_of id p h = ground (
    arith,
    copy_string_of_fits id_max p.device_id h.device_id,
    copy_string_of_fits id_max p.point_id h.point_id,
    copy_string_of_fits unit_max p.unit h.unit,
  )

  length-fetch_rows :
      (room : ℕ) (steps : List (Step Double)) → length (fetch_rows room steps) ≤ room
  unfolding fetch_rows
  length-fetch_rows room [] = omega arith
  length-fetch_rows room (Step.sqlite_done ∷ steps) = omega arith
  length-fetch_rows room (Step.sqlite_error ∷ steps) = omega arith
  length-fetch_rows zero (Step.sqlite_row r ∷ steps) = omega arith
  length-fetch_rows (suc room) (Step.sqlite_row r ∷ steps) =
      omega (arith, length-fetch_rows room steps)

  -- The loop reads the rows of the query, up to a step that fails.
  fetch_rows-front :
      (room : ℕ) (rs : List (PendingRow Double)) (steps : List (Step Double))
      → length rs ≤ room
      → Yields rs steps
      → let got = fetch_rows room steps in
        (got ≡ take (length got) (map fetched rs))
        × (step_failed (some steps) ≡ false → got ≡ map fetched rs)
  unfolding fetch_rows
  fetch_rows-front room rs [] h y = elim y [ ]
  fetch_rows-front room rs (Step.sqlite_error ∷ steps) h y = (refl, λ fine. cc)
  fetch_rows-front room [] (Step.sqlite_done ∷ steps) h y = (refl, λ fine. refl)
  fetch_rows-front room (r ∷ rs) (Step.sqlite_done ∷ steps) h y = elim y [ ]
  fetch_rows-front room [] (Step.sqlite_row s ∷ steps) h y = elim y [ ]
  fetch_rows-front zero (r ∷ rs) (Step.sqlite_row s ∷ steps) h y = absurd (omega (arith, h))
  fetch_rows-front (suc room) (r ∷ rs) (Step.sqlite_row s ∷ steps) h (same, y) =
      let (front, whole) = fetch_rows-front room rs steps (omega (arith, h)) y in
      (
        ap₂ (λ (a : StorageRow Double) (bs : List (StorageRow Double)). a ∷ bs) (ap fetched same)
            front,
        λ fine.
            ap₂ (λ (a : StorageRow Double) (bs : List (StorageRow Double)). a ∷ bs)
              (ap fetched same) (whole fine),
      )

  module _ {W : Type 0} (sqlite : Sqlite W Double) (table : W → List (StoredRow Double))
      (database : IsDatabase sqlite table) (ctx : StorageCtx Double) where
    table-append :
        (p : Telemetry Double) (w : W) (id : ℕ)
        → uses_db ctx ≡ true
        → (storage_append_telemetry sqlite ctx p w).0 ≡ some id
        → table (storage_append_telemetry sqlite ctx p w).1
          ≡ table w ++ (record { id = id; row = row_of p; uploaded = false } ∷ [])
    unfolding storage_append_telemetry jsonl_append_telemetry
    table-append p w id on e =
        let line = sqlite.append_line ctx.cfg.cache_path (telemetry_line p) w in
        rw on (
          (database.inserted (row_of p) line.1 id (rw on at e)).2
          ∙ ap
              (λ (rs : List (StoredRow Double)).
                rs ++ (record { id = id; row = row_of p; uploaded = false } ∷ []))
              (database.table-append_line ctx.cfg.cache_path (telemetry_line p) w))

    -- A fetch gives the oldest pending rows, as many as it was asked for, or fewer if a step fails.
    fetch-pending :
        (n : ℕ) (w : W) (rows : List (StorageRow Double))
        → 0 < n
        → uses_db ctx ≡ true
        → (storage_fetch_pending_telemetry sqlite ctx n w).0 ≡ some rows
        → let asked = map fetched (take n (pending_rows (table w))) in
          (rows ≡ take (length rows) asked)
          × (step_failed (sqlite.select_pending n w).0 ≡ false → rows ≡ asked)
    unfolding storage_fetch_pending_telemetry
    fetch-pending n w rows some_room on e = elim (Option-cases (sqlite.select_pending n w).0) [
      | inl failed ↦ absurd (ground (arith, some_room))
      | inr (steps, ef) ↦
          let (front, whole) =
            fetch_rows-front n (take n (pending_rows (table w))) steps
              (omega (arith, length-take n (pending_rows (table w))))
              (database.selected n w steps ef) in
          let given : fetch_rows n steps ≡ rows = ground (arith, some_room) in
          rw (sym given, ef) (front, whole)
    ]

    -- After a successful append, a fetch that asks for more rows than were pending gives the pending
    -- rows in their order and the new point last, which is the point itself, but with the quality GOOD
    -- and the source 0. If a step of the query fails, then what it gives are the first of these rows.
    pub fetch-append :
        (p : Telemetry Double) (n : ℕ) (w : W) (id : ℕ) (rows : List (StorageRow Double))
        → uses_db ctx ≡ true
        → TelemetryFits p
        → length (pending_rows (table w)) < n
        → let (stored, w') = storage_append_telemetry sqlite ctx p w in
          stored ≡ some id
          → (storage_fetch_pending_telemetry sqlite ctx n w').0 ≡ some rows
          → let all =
              map fetched (pending_rows (table w))
              ++ (record { row_id = id; point = record p { quality = good; source_id = 0 } }
                  ∷ []) in
            (rows ≡ take (length rows) all)
            × (step_failed (sqlite.select_pending n w').0 ≡ false → rows ≡ all)
    fetch-append p n w id rows on fits room stored e =
        let old = pending_rows (table w) in
        let new : List (PendingRow Double) = record { id = id; row = row_of p } ∷ [] in
        let w' = (storage_append_telemetry sqlite ctx p w).1 in
        let (front, whole) = fetch-pending n w' rows (omega (arith, room)) on e in
        let asked =
          ap (λ (t : List (StoredRow Double)). map fetched (take n (pending_rows t)))
            (table-append p w id on stored)
          ∙ rw (
            pending_rows-append,
            take_of_le n (old ++ new) (omega (arith, length-append old new)),
            map-append' fetched old new,
            fetched-row_of id p fits,
          ) in
        (front ∙ ap (take (length rows)) asked, λ fine. whole fine ∙ asked)

    -- A row that has been marked is no longer pending; all others stay so, in their order.
    pub pending-mark :
        (id : ℕ) (w : W)
        → let (done, w') = storage_mark_telemetry_uploaded sqlite ctx id w in
          done ≡ true → pending_rows (table w') ≡ without_id id (pending_rows (table w))
    unfolding storage_mark_telemetry_uploaded
    pending-mark id w h = elim (Bool-cases (leb id 0 || not ctx.has_db)) [
      | inl refused ↦ cc (rw refused at h)
      | inr sent ↦ rw sent (
          ap pending_rows (database.marked id w (rw sent at h))
          ∙ pending_rows-mark_rows id (table w))
    ]

  module _ {W : Type 0} (sqlite : Sqlite W Double) (ctx : StorageCtx Double) where
    -- A fetch gives at most as many rows as it was asked for.
    pub length-fetch :
        (n : ℕ) (w : W) (rows : List (StorageRow Double))
        → (storage_fetch_pending_telemetry sqlite ctx n w).0 ≡ some rows
        → length rows ≤ n
    unfolding storage_fetch_pending_telemetry
    length-fetch n w rows e = elim (Option-cases (sqlite.select_pending n w).0) [
      | inl failed ↦ ground arith
      | inr (steps, ef) ↦ ground (arith, length-fetch_rows n steps)
    ]

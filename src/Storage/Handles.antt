-- ===== src/Storage/Handles.antt =====
-- The database connections that platform/storage.c opens and closes, on its error paths too.
use edgeflow_energy_gateway.Common.{
  ℕ, ◌+◌, ◌≤◌, ◌≡◌, Bool, ◌&&◌, not, Option, none, some, arith, if◌then◌else◌,
}
use edgeflow_energy_gateway.Text.{CString}
use edgeflow_energy_gateway.Model.Types.{GatewayConfig}
use edgeflow_energy_gateway.Storage.{Sqlite, StorageCtx, storage_open, storage_close}

-- `handles w` counts the connections that have not been closed. As SQLite documents it, a
-- connection is to be closed whether or not opening it was successful.
pub record CountsHandles {W D : Type 0} (sqlite : Sqlite W D) (handles : W → ℕ) : Type 0 where
  pub handles-open : (path : CString) (w : W) → handles (sqlite.open_db path w).1 ≡ handles w + 1
  pub handles-schema : (w : W) → handles (sqlite.exec_schema w).1 ≡ handles w
  pub handles-close : (w : W) → 1 ≤ handles w → handles (sqlite.close_db w) + 1 ≡ handles w

module _ {W D : Type 0} (sqlite : Sqlite W D) (handles : W → ℕ)
    (counts : CountsHandles sqlite handles) where
  -- The connections that a call of `storage_open` leaves open.
  abbrev pub opened : Bool → Bool → GatewayConfig D → Option (StorageCtx D) → ℕ
  opened memory accepted cfg (some ctx) = if ctx.has_db then 1 else 0
  opened memory accepted cfg none = if memory && (cfg.use_sqlite && not accepted) then 1 else 0

  -- What a call of `storage_open` leaves open: the connection of the context that it gives; none
  -- if it ran out of memory or the schema failed; but one if SQLite could not open the database.
  pub handles-storage_open :
      (memory : Bool) (cfg : GatewayConfig D) (w : W)
      → let (ctx, w') = storage_open sqlite memory cfg w in
        let accepted = (sqlite.open_db cfg.sqlite_path w).0 in
        handles w' ≡ handles w + opened memory accepted cfg ctx
  unfolding storage_open
  handles-storage_open memory cfg w =
      let w₁ = (sqlite.open_db cfg.sqlite_path w).1 in
      let w₂ = (sqlite.exec_schema w₁).1 in
      ground (
        arith,
        counts.handles-open cfg.sqlite_path w,
        counts.handles-schema w₁,
        counts.handles-close w₂,
      )

  -- `storage_close` gives back what `storage_open` took.
  pub storage_close-storage_open :
      (memory : Bool) (cfg : GatewayConfig D) (w : W) {ctx : StorageCtx D}
      → (storage_open sqlite memory cfg w).0 ≡ some ctx
      → handles (storage_close sqlite ctx (storage_open sqlite memory cfg w).1) ≡ handles w
  unfolding storage_close storage_open
  storage_close-storage_open memory cfg w {ctx} h =
      let w' = (storage_open sqlite memory cfg w).1 in
      let left = handles-storage_open memory cfg w in ground (arith, left, counts.handles-close w')

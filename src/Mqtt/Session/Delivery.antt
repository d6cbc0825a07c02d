-- ===== src/Mqtt/Session/Delivery.antt =====
-- The order of `mqtt_session_replay_pending`, egress/mqtt_session.c: a row is marked as uploaded only
-- when its packet has gone out.
use edgeflow_energy_gateway.Common.{ℕ, ◌≡◌, List, [], ◌∷◌, ◌++◌, length}
use edgeflow_energy_gateway.Floats.{Floats}
use edgeflow_energy_gateway.Text.{CString}
use edgeflow_energy_gateway.Storage.{PendingRow, Sqlite, StorageCtx, StorageRow}
use edgeflow_energy_gateway.Storage.Database.{StoredRow, IsDatabase, pending_rows, without_id}
use edgeflow_energy_gateway.Mqtt.Packet.{publish_bytes}
use edgeflow_energy_gateway.Mqtt.Wire.{Transport, IsTransport}
use edgeflow_energy_gateway.Mqtt.Session.{telemetry_to_json}
use edgeflow_energy_gateway.Mqtt.Session.Apart.{AreApart}

-- Some of a list's elements, in their order.
pub data Sublist {A : Type 0} : List A → List A → Type 0 where
  empty : Sublist [] []
  skip : {xs ys : List A} (y : A) → Sublist xs ys → Sublist xs (y ∷ ys)
  keep : {xs ys : List A} (y : A) → Sublist xs ys → Sublist (y ∷ xs) (y ∷ ys)

abbrev pub without_ids : {D : Type 0} → List ℕ → List (PendingRow D) → List (PendingRow D)
without_ids [] rows = rows
without_ids (id ∷ ids) rows = without_ids ids (without_id id rows)

module _ ⦃f : Floats⦄ {W : Type 0} (net : Transport W) (sqlite : Sqlite W f.Double)
    (ctx : StorageCtx f.Double) (output : ℕ → W → List ℕ) (table : W → List (StoredRow f.Double))
    (ok : IsTransport net output) (database : IsDatabase sqlite table)
    (apart : AreApart net sqlite output table) where
  open f use {Double}

  abbrev pub packets : CString → List (StorageRow Double) → List ℕ
  packets topic [] = []
  packets topic (r ∷ rows) = publish_bytes topic (telemetry_to_json r.point) ++ packets topic rows

  abbrev pub row_ids : List (StorageRow Double) → List ℕ
  row_ids [] = []
  row_ids (r ∷ rows) = r.row_id ∷ row_ids rows

  -- What a replay of `rows` has done between two states of the world when it has counted `n`.
  pub record Delivered (topic : CString) (fd : ℕ) (rows : List (StorageRow Double)) (w w' : W)
      (n : ℕ) : Type 0 where
    -- the rows whose packets have gone out whole, and the others
    pub sent : List (StorageRow Double)
    pub unsent : List (StorageRow Double)
    -- the ids of the rows that have been marked
    pub marked : List ℕ
    -- what has gone out of the packet that failed
    pub tail : List ℕ
    pub split : rows ≡ sent ++ unsent
    pub among : Sublist marked (row_ids sent)
    pub out : output fd w' ≡ output fd w ++ (packets topic sent ++ tail)
    pub gone : pending_rows (table w') ≡ without_ids marked (pending_rows (table w))
    pub count : n ≡ length marked

-- ===== src/Storage/Pending.antt =====
-- How the table of platform/storage.c changes while nothing is marked as uploaded.
use edgeflow_energy_gateway.Common.{
  ◌≡◌, refl, sym, false, inl, inr, Option-cases, List, [], ◌∷◌, ◌++◌, All,
}
use mathlib.Core.Path.{subst}
use edgeflow_energy_gateway.Storage.{Sqlite, TelemetryRow}
use edgeflow_energy_gateway.Storage.Database.{StoredRow, IsDatabase}

-- The second table is the first one and, behind it, rows that are still to be uploaded.
abbrev pub Awaits : {D : Type 0} → List (StoredRow D) → List (StoredRow D) → Type 0
Awaits [] ys = All (λ r. r.uploaded ≡ false) ys
Awaits (x ∷ xs) [] = ⊥
Awaits (x ∷ xs) (y ∷ ys) = (y ≡ x) × Awaits xs ys

module _ {D : Type 0} where
  pub Awaits-refl : (xs : List (StoredRow D)) → Awaits xs xs
  Awaits-refl [] = tt
  Awaits-refl (x ∷ xs) = (refl, Awaits-refl xs)

  Awaits-snoc :
      (xs ys : List (StoredRow D)) (z : StoredRow D)
      → z.uploaded ≡ false
      → Awaits xs ys
      → Awaits xs (ys ++ (z ∷ []))
  Awaits-snoc [] [] z h a = (h, tt)
  Awaits-snoc [] (y ∷ ys) z h a = (a.0, Awaits-snoc [] ys z h a.1)
  Awaits-snoc (x ∷ xs) [] z h a = elim a [ ]
  Awaits-snoc (x ∷ xs) (y ∷ ys) z h (same, a) = (same, Awaits-snoc xs ys z h a)

  module _ {W : Type 0} (sqlite : Sqlite W D) (table : W → List (StoredRow D))
      (database : IsDatabase sqlite table) (before : List (StoredRow D)) where
    pub Awaits-equal :
        (v w : W) → table v ≡ table w → Awaits before (table w) → Awaits before (table v)
    Awaits-equal v w e a = subst (Awaits before) (sym e) a

    pub insert_telemetry-Awaits :
        (r : TelemetryRow D) (w : W)
        → Awaits before (table w)
        → Awaits before (table (sqlite.insert_telemetry r w).1)
    insert_telemetry-Awaits r w a = elim (Option-cases (sqlite.insert_telemetry r w).0) [
      | inl e ↦ Awaits-equal _ w (database.insert_failed r w e) a
      | inr (id, e) ↦
          subst (Awaits before) (sym (database.inserted r w id e).2)
            (Awaits-snoc before (table w) _ refl a)
    ]

-- ===== src/Adapter/Tests.antt =====
-- The theorems on the registry at a concrete adapter.
use edgeflow_energy_gateway.Common.{ℕ, true, some, [], ◌∷◌, ℤ, arith, take, length-take}
use edgeflow_energy_gateway.Text.{literal}
use edgeflow_energy_gateway.Model.Enums.{Protocol}
use edgeflow_energy_gateway.Model.Samples.{cool_point, peak_point}
use edgeflow_energy_gateway.Adapter.{DeviceAdapter}
use edgeflow_energy_gateway.Adapter.Registry.{KeepsRoom}

-- An adapter that offers two points at every poll and takes every command.
abbrev pub meter : {W : Type 0} → DeviceAdapter W ℤ
meter = record {
  info = record { name = literal "meter"; protocol = Protocol.modbus_rtu; source_id = 1 };
  init = some (λ info cfg w. (true, info, w));
  shutdown = some (λ info w. w);
  poll = some (λ info room w. (some (take room (cool_point ∷ peak_point ∷ [])), w));
  write_command = some (λ info c w. (true, w));
}

meter-KeepsRoom : KeepsRoom {W = ℕ} meter
meter-KeepsRoom call room w points e h =
    ground (arith, length-take room (cool_point ∷ peak_point ∷ []))

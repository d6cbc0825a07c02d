-- ===== src/Adapter/Registry.antt =====
-- What the registry of ingress/adapter.c promises.
use edgeflow_energy_gateway.Common.{
  ℕ, ◌-◌, ◌≤◌, ◌≡◌, refl, true, Option, none, some, List, [], ◌∷◌, ◌++◌, length, Option-cases, inl,
  inr, length-append, All, arith,
}
use edgeflow_energy_gateway.Model.Types.{Telemetry}
use edgeflow_energy_gateway.Adapter.{
  AdapterInfo, DeviceAdapter, Registry, adapter_registry_max, is_some, adapter_registry_register,
  collected, poll_slots, adapter_registry_poll_all,
}

collected-le {ℓ} :
    {T : Type ℓ} (out : List T) (max_out : ℕ) (result : Option (List T))
    → length out ≤ max_out
    → ((points : List T) → result ≡ some points → length points ≤ max_out - length out)
    → length (collected out result) ≤ max_out
collected-le out max_out none h k = h
collected-le out max_out (some points) h k = omega (arith, k points refl, length-append out points)

module _ {W D : Type 0} where
  -- A usable adapter has the three functions that the registry calls.
  abbrev pub IsUsable : DeviceAdapter W D → Type 0
  IsUsable a = (is_some a.poll ≡ true) × (is_some a.init ≡ true) × (is_some a.shutdown ≡ true)

  pub record IsValid (reg : Registry W D) : Type 0 where
    pub fits : length reg ≤ adapter_registry_max
    pub usable : All IsUsable reg

  All-append :
      (reg : Registry W D) (a : DeviceAdapter W D)
      → All IsUsable reg
      → IsUsable a
      → All IsUsable (reg ++ (a ∷ []))
  All-append [] a h u = (u, tt)
  All-append (b ∷ reg) a h u = (h.0, All-append reg a h.1 u)

  -- Registering keeps at most eight adapters, all of them usable.
  pub register-IsValid :
      (reg : Registry W D) (a : DeviceAdapter W D)
      → IsValid reg
      → IsValid (adapter_registry_register reg a).0
  unfolding adapter_registry_register
  register-IsValid reg a v = ground (arith, length-append reg (a ∷ []), All-append reg a v.usable)

  -- `poll` keeps its contract: it writes no more points than it is given room for.
  abbrev pub KeepsRoom : DeviceAdapter W D → Type 0
  KeepsRoom a =
      (call : AdapterInfo → ℕ → W → Option (List (Telemetry D)) × W) (room : ℕ) (w : W)
      (points : List (Telemetry D))
      → a.poll ≡ some call
      → (call a.info room w).0 ≡ some points
      → length points ≤ room

  poll_slots-le :
      (reg : Registry W D) (out : List (Telemetry D)) (max_out : ℕ) (w : W)
      → All KeepsRoom reg
      → length out ≤ max_out
      → length (poll_slots reg out max_out w).0 ≤ max_out
  unfolding poll_slots
  poll_slots-le [] out max_out w ks h = h
  poll_slots-le (a ∷ reg) out max_out w ks h = elim (Option-cases a.poll) [
    | inl e ↦ rw e h
    | inr (call, e) ↦
        let (result, w') = call a.info (max_out - length out) w in
        let fits =
          collected-le out max_out (call a.info (max_out - length out) w).0 h
            (λ points. ks.0 call (max_out - length out) w points e) in
        rw e (ground (arith, poll_slots-le reg (collected out result) max_out w' ks.1 fits))
  ]

  -- If every adapter keeps to the room that it is given, one round of polling never writes past the
  -- caller's buffer.
  pub poll_all-le :
      (reg : Registry W D) (max_out : ℕ) (w : W)
      → All KeepsRoom reg
      → length (adapter_registry_poll_all reg max_out w).0 ≤ max_out
  unfolding adapter_registry_poll_all
  poll_all-le reg max_out w ks = ground (arith, poll_slots-le reg [] max_out w ks)

-- ===== src/Adapter.antt =====
-- ingress/adapter.h and ingress/adapter.c: the device adapters and their registry.
pub mod Registry
mod Tests
use edgeflow_energy_gateway.Common.{
  ℕ, ◌+◌, ◌-◌, Bool, true, false, Option, none, some, List, [], ◌∷◌, ◌++◌, ltb, leb, length,
  if◌then◌else◌,
}
use edgeflow_energy_gateway.Text.{CString}
use edgeflow_energy_gateway.Model.Enums.{Protocol}
use edgeflow_energy_gateway.Model.Types.{Telemetry, Command, GatewayConfig}

-- The data of a `device_adapter_t`; its `ctx` is a part of the world that its functions act on.
pub record AdapterInfo : Type 0 where
  pub name : CString
  pub protocol : Protocol
  pub source_id : ℕ

-- A `device_adapter_t` over a world `W` of devices, clocks and private contexts. A function pointer
-- may be NULL. `init` may change the adapter; the others only read it, as all adapters in the
-- repository do. A result `true` is 0; `poll` gives the points that it wrote, `none` if it failed.
pub record DeviceAdapter (W : Type 0) (D : Type 0) : Type 0 where
  pub info : AdapterInfo
  pub init : Option (AdapterInfo → GatewayConfig D → W → Bool × AdapterInfo × W)
  pub shutdown : Option (AdapterInfo → W → W)
  pub poll : Option (AdapterInfo → ℕ → W → Option (List (Telemetry D)) × W)
  pub write_command : Option (AdapterInfo → Command D → W → Bool × W)

pub data AdapterStatus : Type 0 where
  ok err err_full err_not_found : AdapterStatus

abbrev pub adapter_registry_max : ℕ
adapter_registry_max = 8

-- `adapter_registry_t`: the first `count` slots.
abbrev pub Registry : Type 0 → Type 0 → Type 0
Registry W D = List (DeviceAdapter W D)

abbrev pub is_some {ℓ} : {A : Type ℓ} → Option A → Bool
is_some none = false
is_some (some a) = true

unfoldable pub protocol_eq : Protocol → Protocol → Bool
protocol_eq Protocol.modbus_rtu Protocol.modbus_rtu = true
protocol_eq Protocol.modbus_tcp Protocol.modbus_tcp = true
protocol_eq Protocol.tcp Protocol.tcp = true
protocol_eq Protocol.udp Protocol.udp = true
protocol_eq Protocol.simulator Protocol.simulator = true
protocol_eq _ _ = false

-- What one slot adds to the points collected so far.
abbrev pub collected {ℓ} : {A : Type ℓ} → List A → Option (List A) → List A
collected out none = out
collected out (some points) = out ++ points

module _ {W D : Type 0} where
  abbrev pub adapter_registry_init : Registry W D
  adapter_registry_init = []

  unfoldable pub adapter_registry_register :
      Registry W D → DeviceAdapter W D → Registry W D × AdapterStatus
  adapter_registry_register reg a =
      if leb adapter_registry_max (length reg)
      then (reg, AdapterStatus.err_full)
      else if is_some a.poll
      then (if is_some a.init
          then (if is_some a.shutdown
              then (reg ++ (a ∷ []), AdapterStatus.ok)
              else (reg, AdapterStatus.err))
          else (reg, AdapterStatus.err))
      else (reg, AdapterStatus.err)

  unfoldable pub adapter_registry_find : Registry W D → Protocol → Option (DeviceAdapter W D)
  adapter_registry_find [] protocol = none
  adapter_registry_find (a ∷ reg) protocol =
      let rest = adapter_registry_find reg protocol in
      if protocol_eq a.info.protocol protocol then some a else rest

  -- One slot of `init_all`: whether it failed, the slot and the world behind it.
  unfoldable pub init_slot : DeviceAdapter W D → GatewayConfig D → W → Bool × DeviceAdapter W D × W
  init_slot a cfg w = elim a.init [
    | none ↦ (false, a, w)
    | some call ↦
        let (done, info, w') = call a.info cfg w in
        (if done then false else true, record a { info = info }, w')
  ]

  -- The number of failures, the registry and the world behind the loop.
  unfoldable pub init_slots : Registry W D → GatewayConfig D → W → ℕ × Registry W D × W
  unfolding init_slot
  init_slots [] cfg w = (0, [], w)
  init_slots (a ∷ reg) cfg w =
      let (failed, a', w') = init_slot a cfg w in
      let (failures, reg', w'') = init_slots reg cfg w' in
      (if failed then failures + 1 else failures, a' ∷ reg', w'')

  -- `true` is the result 0.
  unfoldable pub adapter_registry_init_all :
      Registry W D → GatewayConfig D → W → Bool × Registry W D × W
  unfolding init_slots
  adapter_registry_init_all reg cfg w =
      let (failures, reg', w') = init_slots reg cfg w in
      (if ltb 0 failures then false else true, reg', w')

  -- The loop of `poll_all`, with the points written so far. It breaks at an adapter with no `poll`
  -- and when the buffer is full.
  unfoldable pub poll_slots : Registry W D → List (Telemetry D) → ℕ → W → List (Telemetry D) × W
  poll_slots [] out max_out w = (out, w)
  poll_slots (a ∷ reg) out max_out w = elim a.poll [
    | none ↦ (out, w)
    | some call ↦
        let (result, w') = call a.info (max_out - length out) w in
        let rest = poll_slots reg (collected out result) max_out w' in
        if leb max_out (length out) then (out, w) else rest
  ]

  unfoldable pub adapter_registry_poll_all : Registry W D → ℕ → W → List (Telemetry D) × W
  unfolding poll_slots
  adapter_registry_poll_all reg max_out w =
      if leb max_out 0 then ([], w) else poll_slots reg [] max_out w

  unfoldable pub adapter_registry_shutdown_all : Registry W D → W → W
  adapter_registry_shutdown_all [] w = w
  adapter_registry_shutdown_all (a ∷ reg) w =
      adapter_registry_shutdown_all reg (elim a.shutdown [ none ↦ w | some call ↦ call a.info w ])

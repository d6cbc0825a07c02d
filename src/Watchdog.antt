-- ===== src/Watchdog.antt =====
-- platform/watchdog.h and platform/watchdog.c: messages to the service manager. `Notify` stands for
-- the environment and the socket calls.
use edgeflow_energy_gateway.Common.{
  ℕ, Bool, true, false, Option, none, some, [], ◌∷◌, if◌then◌else◌,
}
use edgeflow_energy_gateway.Text.{CString, literal, copy_string}

pub record Notify (W : Type 0) : Type 0 where
  -- getenv("NOTIFY_SOCKET")
  pub path : Option CString
  pub socket : W → Option ℕ × W
  pub connect : ℕ → CString → W → Bool × W
  pub write : ℕ → CString → W → W
  pub close : ℕ → W → W

-- `g_notify_fd`, none for -1, and `g_enabled`.
pub record Watchdog : Type 0 where
  pub fd : Option ℕ
  pub enabled : Bool

abbrev pub watchdog_start : Watchdog
watchdog_start = record { fd = none; enabled = false }

abbrev pub watchdog_enabled : Watchdog → Bool
watchdog_enabled d = d.enabled

module _ {W : Type 0} (notify : Notify W) where
  -- From the call of socket on; the path is cut to the 108 bytes of `sun_path`.
  unfoldable pub open_at : CString → Watchdog → W → Bool × Watchdog × W
  open_at path d w = elim (notify.socket w).0 [
    | none ↦ (false, record d { fd = none }, (notify.socket w).1)
    | some fd ↦
        let w₁ = (notify.socket w).1 in
        let (connected, w₂) = notify.connect fd path w₁ in
        if connected
        then (true, record d { fd = some fd }, w₂)
        else (false, record d { fd = none }, notify.close fd w₂)
  ]

  unfoldable pub open_notify_socket : Watchdog → W → Bool × Watchdog × W
  unfolding open_at
  open_notify_socket d w = elim notify.path [
    | none ↦ (false, d, w)
    | some [] ↦ (false, d, w)
    | some (c ∷ path) ↦ open_at (copy_string 108 (some (c ∷ path))) d w
  ]

  unfoldable pub send_notify : CString → Watchdog → W → W
  send_notify msg d w = elim d.fd [ none ↦ w | some fd ↦ notify.write fd msg w ]

  unfoldable pub watchdog_init : ℕ → Watchdog → W → Watchdog × W
  unfolding open_notify_socket
  watchdog_init interval_ms d w =
      let (opened, d₁, w₁) = open_notify_socket d w in (record d₁ { enabled = opened }, w₁)

  unfoldable pub watchdog_notify_ready : Watchdog → W → W
  unfolding send_notify
  watchdog_notify_ready d w = if d.enabled then send_notify (literal "READY=1\n") d w else w

  unfoldable pub watchdog_notify_alive : Watchdog → W → W
  unfolding send_notify
  watchdog_notify_alive d w = if d.enabled then send_notify (literal "WATCHDOG=1\n") d w else w

  unfoldable pub watchdog_shutdown : Watchdog → W → Watchdog × W
  watchdog_shutdown d w = elim d.fd [
    | none ↦ (record d { enabled = false }, w)
    | some fd ↦ (record d { fd = none; enabled = false }, notify.close fd w)
  ]

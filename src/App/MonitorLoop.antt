-- ===== src/App/MonitorLoop.antt =====
-- `monitor_main` of runtime/app.c: the thread around `monitor_on_timer`, with the reactor or, if
-- that cannot be had, with a sleep.
pub mod Descriptors
use edgeflow_energy_gateway.Common.{
  ℕ, zero, suc, ◌+◌, ◌≡◌, refl, ap, ◌∙◌, Bool, Bool-cases, none, some, Option-cases, inl, inr, held,
  arith, if◌then◌else◌,
}
use edgeflow_energy_gateway.Floats.{Floats}
use edgeflow_energy_gateway.Watchdog.{Notify, Watchdog}
use edgeflow_energy_gateway.Reactor.{
  Epoll, Reactor, reactor_init, reactor_destroy, reactor_add_timer_ms, reactor_run_once,
  reactor_stop,
}
use edgeflow_energy_gateway.Reactor.Timer.{run_once-Kept}
use edgeflow_energy_gateway.Reactor.Descriptors.{
  CountsDescriptors, open_fds-reactor_init, open_fds-reactor_destroy, open_fds-add_timer_ms,
  open_fds-run_once,
}
use edgeflow_energy_gateway.App.{Env, GatewayApp}
use edgeflow_energy_gateway.App.Monitor.{monitor_on_timer}
use edgeflow_energy_gateway.App.Invariant.{IsReady, monitor_on_timer-IsReady}

module _ {W : Type 0} ⦃f : Floats⦄ (env : Env W f.Double) (notify : Notify W) (os : Epoll W)
    (is_running : W → Bool × W) (sleep_ms : ℕ → W → W) where
  open f use {Double}

  -- `monitor_on_timer` with its own reading of `running`.
  unfoldable pub on_timer : Watchdog → GatewayApp W Double → W → GatewayApp W Double × W
  on_timer dog app w = let (on, w₁) = is_running w in monitor_on_timer env notify on dog app w₁

  -- The three loops read `running` as true so many times, and then as false.
  unfoldable pub reactor_loop :
      Watchdog → ℕ → Reactor → GatewayApp W Double → W → GatewayApp W Double × W
  unfolding on_timer
  reactor_loop dog zero r app w = (app, w)
  reactor_loop dog (suc passes) r app w =
      let (went, app₁, w₁) = reactor_run_once os (on_timer dog) 500 r app w in
      let rest = reactor_loop dog passes r app₁ w₁ in if went then rest else (app₁, w₁)

  unfoldable pub sleep_loop : Watchdog → ℕ → GatewayApp W Double → W → GatewayApp W Double × W
  unfolding on_timer
  sleep_loop dog zero app w = (app, w)
  sleep_loop dog (suc passes) app w =
      let (app₁, w₁) = on_timer dog app w in
      sleep_loop dog passes app₁ (sleep_ms app₁.cfg.watchdog_interval_ms w₁)

  -- From the reactor on.
  unfoldable pub watch : Watchdog → ℕ → Reactor → GatewayApp W Double → W → GatewayApp W Double × W
  unfolding reactor_loop sleep_loop
  watch dog passes r app w =
      let (set, r₁, w₁) = reactor_add_timer_ms os app.cfg.watchdog_interval_ms r w in
      let (app₂, w₂) = reactor_loop dog passes r₁ app w₁ in
      if set
      then (app₂, reactor_destroy os (reactor_stop r₁) w₂)
      else sleep_loop dog passes app (reactor_destroy os r₁ w₁)

  unfoldable pub monitor_main :
      Bool → Watchdog → ℕ → GatewayApp W Double → W → GatewayApp W Double × W
  unfolding watch sleep_loop
  monitor_main memory dog passes app w = elim (reactor_init os memory w).0 [
    | none ↦ sleep_loop dog passes app (reactor_init os memory w).1
    | some r ↦ watch dog passes r app (reactor_init os memory w).1
  ]

  on_timer-IsReady :
      (dog : Watchdog) (app : GatewayApp W Double) (w : W)
      → IsReady env app
      → IsReady env (on_timer dog app w).0
  unfolding on_timer
  on_timer-IsReady dog app w ok =
      monitor_on_timer-IsReady env notify (is_running w).0 dog app (is_running w).1 ok

  reactor_loop-IsReady :
      (dog : Watchdog) (passes : ℕ) (r : Reactor) (app : GatewayApp W Double) (w : W)
      → IsReady env app
      → IsReady env (reactor_loop dog passes r app w).0
  unfolding reactor_loop
  reactor_loop-IsReady dog zero r app w ok = ok
  reactor_loop-IsReady dog (suc passes) r app w ok =
      let (went, app₁, w₁) = reactor_run_once os (on_timer dog) 500 r app w in
      let once =
        run_once-Kept os (on_timer dog) (IsReady env) (on_timer-IsReady dog) 500 r app w ok in
      ground (arith, once, reactor_loop-IsReady dog passes r app₁ w₁ once)

  sleep_loop-IsReady :
      (dog : Watchdog) (passes : ℕ) (app : GatewayApp W Double) (w : W)
      → IsReady env app
      → IsReady env (sleep_loop dog passes app w).0
  unfolding sleep_loop
  sleep_loop-IsReady dog zero app w ok = ok
  sleep_loop-IsReady dog (suc passes) app w ok =
      sleep_loop-IsReady dog passes _ _ (on_timer-IsReady dog app w ok)

  -- The monitor thread keeps the gateway ready, with the reactor or without it, until it ends.
  pub monitor_main-IsReady :
      (memory : Bool) (dog : Watchdog) (passes : ℕ) (app : GatewayApp W Double) (w : W)
      → IsReady env app
      → IsReady env (monitor_main memory dog passes app w).0
  unfolding monitor_main watch
  monitor_main-IsReady memory dog passes app w ok =
      let w₁ = (reactor_init os memory w).1 in
      elim (Option-cases (reactor_init os memory w).0) [
        | inl e ↦ rw (e, monitor_main) (sleep_loop-IsReady dog passes app w₁ ok)
        | inr (r, e) ↦
            let (set, r₁, w₂) = reactor_add_timer_ms os app.cfg.watchdog_interval_ms r w₁ in
            rw (e, monitor_main)
              (ground (
                arith,
                reactor_loop-IsReady dog passes r₁ app w₂ ok,
                sleep_loop-IsReady dog passes app (reactor_destroy os r₁ w₂) ok,
              ))
      ]

  module _ (open_fds : W → ℕ) (counts : CountsDescriptors os open_fds)
      (leaves : (dog : Watchdog) (app : GatewayApp W Double) (w : W)
        → open_fds (on_timer dog app w).1 ≡ open_fds w)
      (sleeps : (ms : ℕ) (w : W) → open_fds (sleep_ms ms w) ≡ open_fds w) where
    open_fds-reactor_loop :
        (dog : Watchdog) (passes : ℕ) (r : Reactor) (app : GatewayApp W Double) (w : W)
        → open_fds (reactor_loop dog passes r app w).1 ≡ open_fds w
    unfolding reactor_loop
    open_fds-reactor_loop dog zero r app w = refl
    open_fds-reactor_loop dog (suc passes) r app w =
        let (went, app₁, w₁) = reactor_run_once os (on_timer dog) 500 r app w in
        let once = open_fds-run_once os open_fds counts (on_timer dog) (leaves dog) 500 r app w in
        ground (arith, once, open_fds-reactor_loop dog passes r app₁ w₁)

    open_fds-sleep_loop :
        (dog : Watchdog) (passes : ℕ) (app : GatewayApp W Double) (w : W)
        → open_fds (sleep_loop dog passes app w).1 ≡ open_fds w
    unfolding sleep_loop
    open_fds-sleep_loop dog zero app w = refl
    open_fds-sleep_loop dog (suc passes) app w =
        let (app₁, w₁) = on_timer dog app w in
        open_fds-sleep_loop dog passes app₁ (sleep_ms app₁.cfg.watchdog_interval_ms w₁)
        ∙ sleeps app₁.cfg.watchdog_interval_ms w₁
        ∙ leaves dog app w

    open_fds-watch :
        (dog : Watchdog) (passes before : ℕ) (r : Reactor) (app : GatewayApp W Double) (w : W)
        → open_fds w ≡ before + 2
        → open_fds (watch dog passes r app w).1 ≡ before
    unfolding watch
    open_fds-watch dog passes before r app w h =
        let (set, r₁, w₁) = reactor_add_timer_ms os app.cfg.watchdog_interval_ms r w in
        let added = open_fds-add_timer_ms os open_fds counts app.cfg.watchdog_interval_ms r w in
        let (app₂, w₂) = reactor_loop dog passes r₁ app w₁ in
        let looped = open_fds-reactor_loop dog passes r₁ app w₁ in
        elim (Bool-cases set) [
          | inl ok ↦
              rw (ok, watch)
                (open_fds-reactor_destroy os open_fds counts (reactor_stop r₁) before w₂
                  (looped ∙ added ∙ h))
          | inr refused ↦
              rw (refused, watch)
                (open_fds-sleep_loop dog passes app (reactor_destroy os r₁ w₁)
                  ∙ open_fds-reactor_destroy os open_fds counts r₁ before w₁ (added ∙ h))
        ]

    -- Whichever way the monitor thread goes, all descriptors that it has opened for its timer are
    -- closed when it ends, if the callback, the sleep and the flag leave these alone.
    pub open_fds-monitor_main :
        (memory : Bool) (dog : Watchdog) (passes : ℕ) (app : GatewayApp W Double) (w : W)
        → open_fds (monitor_main memory dog passes app w).1 ≡ open_fds w
    unfolding monitor_main
    open_fds-monitor_main memory dog passes app w =
        let w₁ = (reactor_init os memory w).1 in
        let made = open_fds-reactor_init os open_fds counts memory w in
        elim (Option-cases (reactor_init os memory w).0) [
          | inl e ↦
              rw (e, monitor_main)
                (open_fds-sleep_loop dog passes app w₁ ∙ omega (arith, made, ap held e))
          | inr (r, e) ↦
              rw (e, monitor_main)
                (open_fds-watch dog passes (open_fds w) r app w₁ (omega (arith, made, ap held e)))
        ]

-- ===== src/App/MonitorLoop/Descriptors.antt =====
-- The descriptors of the monitor thread of runtime/app.c, with what its callback really does.
use edgeflow_energy_gateway.Common.{ℕ, ◌≡◌, Bool}
use edgeflow_energy_gateway.Floats.{Floats}
use edgeflow_energy_gateway.Watchdog.{Notify, Watchdog}
use edgeflow_energy_gateway.Reactor.{Epoll}
use edgeflow_energy_gateway.Reactor.Descriptors.{CountsDescriptors}
use edgeflow_energy_gateway.App.{Env, GatewayApp}
use edgeflow_energy_gateway.App.World.Leaves.{
  CallsLeave, NetLeaves, StatementsLeave, parts_left-Keeps,
}
use edgeflow_energy_gateway.App.World.Rounds.{monitor_on_timer-Inv}
use edgeflow_energy_gateway.App.MonitorLoop.{on_timer, monitor_main, open_fds-monitor_main}

module _ {W : Type 0} ⦃f : Floats⦄ (env : Env W f.Double) (notify : Notify W) (os : Epoll W)
    (is_running : W → Bool × W) (sleep_ms : ℕ → W → W) (timers : W → ℕ)
    (counts : CountsDescriptors os timers) (calls : CallsLeave env notify timers)
    (net : NetLeaves env.net timers) (statements : StatementsLeave env.sqlite timers)
    (reads : (w : W) → timers (is_running w).1 ≡ timers w)
    (sleeps : (ms : ℕ) (w : W) → timers (sleep_ms ms w) ≡ timers w) where
  open f use {Double}

  timers-on_timer :
      (dog : Watchdog) (app : GatewayApp W Double) (w : W)
      → timers (on_timer env notify os is_running sleep_ms dog app w).1 ≡ timers w
  unfolding on_timer
  timers-on_timer dog app w =
      let (on, w₁) = is_running w in
      monitor_on_timer-Inv _ env notify
        (parts_left-Keeps timers (λ (n : ℕ). n ≡ timers w) env notify calls net statements) on dog
        app w₁ (reads w)

  -- Whichever way the monitor thread goes, and whatever its callback finds to replay, publish and
  -- store, all descriptors that it has opened for its timer are closed when it ends: with the
  -- reactor, where it cannot be had, where its timer cannot be set, and where it fails.
  pub timers-monitor_main :
      (memory : Bool) (dog : Watchdog) (passes : ℕ) (app : GatewayApp W Double) (w : W)
      → timers (monitor_main env notify os is_running sleep_ms memory dog passes app w).1 ≡ timers w
  timers-monitor_main memory dog passes app w =
      open_fds-monitor_main env notify os is_running sleep_ms timers counts timers-on_timer sleeps
        memory dog passes app w

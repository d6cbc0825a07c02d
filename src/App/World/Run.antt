-- ===== src/App/World/Run.antt =====
-- Any rounds of the three threads keep what the single calls of the outside keep, and so does the
-- monitor thread with its reactor.
use edgeflow_energy_gateway.Common.{true, List, [], ◌∷◌}
use edgeflow_energy_gateway.Floats.{Floats}
use edgeflow_energy_gateway.Model.Types.{Telemetry}
use edgeflow_energy_gateway.Mqtt.Session.{MqttSession}
use edgeflow_energy_gateway.Watchdog.{Notify, Watchdog}
use edgeflow_energy_gateway.App.{Env}
use edgeflow_energy_gateway.App.Start.{Round, ingress, worker, monitor, Running, round, rounds}
use edgeflow_energy_gateway.App.World.{Keeps}
use edgeflow_energy_gateway.App.World.Steps.{Holds}
use edgeflow_energy_gateway.App.World.Rounds.{
  worker_step-Holds, ingress_step-Holds, monitor_on_timer-Holds,
}

module _ {W : Type 0} ⦃f : Floats⦄ (Inv : MqttSession f.Double → W → Type 0) (env : Env W f.Double)
    (notify : Notify W) (keeps : Keeps Inv env notify) where
  open f use {Double}

  round-Holds :
      (dog : Watchdog) (scratch : Telemetry Double) (r : Running W Double) (t : Round)
      → Holds Inv env notify keeps r.app r.world
      → let r' = round env notify dog scratch r t in Holds Inv env notify keeps r'.app r'.world
  unfolding round
  round-Holds dog scratch r ingress h = ingress_step-Holds Inv env notify keeps r.app r.world h
  round-Holds dog scratch r worker h =
      worker_step-Holds Inv env notify keeps scratch r.last r.app r.world h
  round-Holds dog scratch r monitor h =
      monitor_on_timer-Holds Inv env notify keeps true dog r.app r.world h

  pub rounds-Holds :
      (dog : Watchdog) (scratch : Telemetry Double) (r : Running W Double) (turns : List Round)
      → Holds Inv env notify keeps r.app r.world
      → let r' = rounds env notify dog scratch r turns in Holds Inv env notify keeps r'.app r'.world
  unfolding rounds
  rounds-Holds dog scratch r [] h = h
  rounds-Holds dog scratch r (t ∷ turns) h =
      rounds-Holds dog scratch (round env notify dog scratch r t) turns
        (round-Holds dog scratch r t h)

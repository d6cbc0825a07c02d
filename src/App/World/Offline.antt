-- ===== src/App/World/Offline.antt =====
-- The telemetry table under the rounds of runtime/app.c while the broker cannot be reached.
use edgeflow_energy_gateway.Common.{ℕ, ◌≡◌, sym, ◌∙◌, false, none, List, [], ◌∷◌, All}
use edgeflow_energy_gateway.Floats.{Floats}
use edgeflow_energy_gateway.Text.{CString}
use edgeflow_energy_gateway.Model.Types.{Telemetry}
use edgeflow_energy_gateway.Adapter.{Registry}
use edgeflow_energy_gateway.Storage.Database.{StoredRow, IsDatabase}
use edgeflow_energy_gateway.Storage.Pending.{
  Awaits, Awaits-refl, Awaits-equal, insert_telemetry-Awaits,
}
use edgeflow_energy_gateway.Mqtt.Session.{MqttSession}
use edgeflow_energy_gateway.Mqtt.Session.Outside.{publish_on-kept, ping-kept, shutdown-kept}
use edgeflow_energy_gateway.Mqtt.Session.Offline.{
  publish_on-offline, ping-offline, shutdown-offline, replay_pending-offline,
}
use edgeflow_energy_gateway.Watchdog.{Notify, Watchdog}
use edgeflow_energy_gateway.App.{Env}
use edgeflow_energy_gateway.App.Start.{Round, Running, rounds}
use edgeflow_energy_gateway.App.World.{AdapterKeeps, Keeps}
use edgeflow_energy_gateway.App.World.Leaves.{
  CallsLeave, NetLeaves, AdapterLeaves, NetLeaves-NetKeeps,
}
use edgeflow_energy_gateway.App.World.Run.{rounds-Holds}

module _ {W : Type 0} ⦃f : Floats⦄ (env : Env W f.Double) (notify : Notify W)
    (table : W → List (StoredRow f.Double)) (database : IsDatabase env.sqlite table)
    (calls : CallsLeave env notify table) (net : NetLeaves env.net table)
    (offline : (fd : ℕ) (host : CString) (port : ℕ) (w : W)
      → (env.net.connect fd host port w).0 ≡ false) where
  open f use {Double}

  -- The session has no socket, and the table has only grown by rows that await their upload.
  abbrev IsOffline : List (StoredRow Double) → MqttSession Double → W → Type 0
  IsOffline before s w = (s.fd ≡ none) × Awaits before (table w)

  waits :
      (before : List (StoredRow Double)) (s : MqttSession Double) (v w : W)
      → table v ≡ table w
      → IsOffline before s w
      → IsOffline before s v
  waits before s v w e h = (h.0, Awaits-equal env.sqlite table database before v w e h.1)

  IsOffline-Keeps : (before : List (StoredRow Double)) → Keeps (IsOffline before) env notify
  IsOffline-Keeps before =
      let P : List (StoredRow Double) → Type 0 = Awaits before in
      let sockets = NetLeaves-NetKeeps table P env.net net in
      record {
        now_ms = λ s w h. waits before s _ w (calls.now_ms w) h;
        write_metrics = λ path m s w h. waits before s _ w (calls.write_metrics path m w) h;
        append_line =
            λ path line s w h. waits before s _ w (database.table-append_line path line w) h;
        insert_telemetry =
            λ r s w h. (h.0, insert_telemetry-Awaits env.sqlite table database before r w h.1);
        insert_alarm = λ a text s w h. waits before s _ w (database.table-alarm a text w) h;
        insert_command = λ c text s w h. waits before s _ w (database.table-command c text w) h;
        count_pending = λ s w h. waits before s _ w (database.table-count w) h;
        notify_write = λ fd text s w h. waits before s _ w (calls.notify_write fd text w) h;
        notify_socket = λ s w h. waits before s _ w (calls.notify_socket w) h;
        notify_connect = λ fd path s w h. waits before s _ w (calls.notify_connect fd path w) h;
        notify_close = λ fd s w h. waits before s _ w (calls.notify_close fd w) h;
        publish = λ topic payload s w h. (
          (publish_on-offline env.net offline topic payload s w h.0).1,
          publish_on-kept env.net (λ v. P (table v)) sockets topic payload s w h.1,
        );
        mark_sent = λ ctx row topic payload s w h sent.
            (let clash = sym sent ∙ (publish_on-offline env.net offline topic payload s w h.0).0 in
              cc);
        ping = λ s w h. (
          ping-offline env.net offline s w h.0,
          ping-kept env.net (λ v. P (table v)) sockets s w h.1,
        );
        replay = λ ctx s m w h.
            replay_pending-offline env.net offline (λ v. P (table v)) sockets env.sqlite
              (λ n v a.
                Awaits-equal env.sqlite table database before _ v (database.table-select n v) a)
              (λ v a. Awaits-equal env.sqlite table database before _ v (database.table-count v) a)
              ctx s m w h.0 h.1;
        shutdown = λ s w h. (
          shutdown-offline env.net offline s w h.0,
          shutdown-kept env.net (λ v. P (table v)) sockets s w h.1,
        );
      }

  IsOffline-AdapterKeeps :
      (before : List (StoredRow Double)) (reg : Registry W Double)
      → All (AdapterLeaves table) reg
      → All (AdapterKeeps (IsOffline before)) reg
  IsOffline-AdapterKeeps before [] k = tt
  IsOffline-AdapterKeeps before (a ∷ reg) k = (
    record {
      poll = λ call e info room s w h. waits before s _ w (k.0.poll call e info room w) h;
      write_command =
          λ call e info c s w h. waits before s _ w (k.0.write_command call e info c w) h;
      init = λ call e info cfg s w h. waits before s _ w (k.0.init call e info cfg w) h;
      shutdown = λ call e info s w h. waits before s _ w (k.0.shutdown call e info w) h;
    },
    IsOffline-AdapterKeeps before reg k.1,
  )

  -- While no connection to the broker succeeds, no rounds of the threads mark a stored point as
  -- uploaded: from a session without a socket, the table only grows by rows that are still to be
  -- uploaded, and those that were there are as they were.
  pub rounds-Awaits :
      (dog : Watchdog) (scratch : Telemetry Double) (r : Running W Double) (turns : List Round)
      → All (AdapterLeaves table) r.app.registry
      → r.app.mqtt.fd ≡ none
      → Awaits (table r.world) (table (rounds env notify dog scratch r turns).world)
  rounds-Awaits dog scratch r turns adapters idle =
      let before = table r.world in
      (rounds-Holds (IsOffline before) env notify (IsOffline-Keeps before) dog scratch r turns
        (record {
          adapters = IsOffline-AdapterKeeps before r.app.registry adapters;
          inv = (idle, Awaits-refl before);
        })).inv.1

-- ===== src/App/World/Leaves.antt =====
-- Parts of the world that calls of the outside leave alone, and what follows for the rounds.
use edgeflow_energy_gateway.Common.{ℕ, ◌≡◌, sym, Bool, Option, some, List, [], ◌∷◌, All}
use mathlib.Core.Path.{subst}
use edgeflow_energy_gateway.Floats.{Floats}
use edgeflow_energy_gateway.Text.{CString}
use edgeflow_energy_gateway.Model.Types.{Telemetry, AlarmEvent, Command, GatewayConfig}
use edgeflow_energy_gateway.Adapter.{AdapterInfo, DeviceAdapter, Registry}
use edgeflow_energy_gateway.Storage.{Sqlite, TelemetryRow}
use edgeflow_energy_gateway.Metrics.{GatewayMetrics}
use edgeflow_energy_gateway.Mqtt.Wire.{Transport}
use edgeflow_energy_gateway.Mqtt.Session.{MqttSession}
use edgeflow_energy_gateway.Mqtt.Session.Outside.{
  NetKeeps, ReplayKeeps, publish_on-kept, ping-kept, replay_pending-kept, mark-kept, shutdown-kept,
}
use edgeflow_energy_gateway.Watchdog.{Notify}
use edgeflow_energy_gateway.App.{Env}
use edgeflow_energy_gateway.App.World.{AdapterKeeps, Keeps}

-- `part w` is a part of the world: the clock, the metrics file and the service manager are apart.
pub record CallsLeave {W D A : Type 0} (env : Env W D) (notify : Notify W) (part : W → A)
    : Type 0 where
  pub now_ms : (w : W) → part (env.now_ms w).1 ≡ part w
  pub write_metrics :
      (path : CString) (m : GatewayMetrics) (w : W) → part (env.write_metrics path m w) ≡ part w
  pub notify_write : (fd : ℕ) (text : CString) (w : W) → part (notify.write fd text w) ≡ part w
  pub notify_socket : (w : W) → part (notify.socket w).1 ≡ part w
  pub notify_connect :
      (fd : ℕ) (path : CString) (w : W) → part (notify.connect fd path w).1 ≡ part w
  pub notify_close : (fd : ℕ) (w : W) → part (notify.close fd w) ≡ part w

-- The sockets are apart.
pub record NetLeaves {W A : Type 0} (net : Transport W) (part : W → A) : Type 0 where
  pub socket : (w : W) → part (net.socket w).1 ≡ part w
  pub connect :
      (fd : ℕ) (host : CString) (port : ℕ) (w : W) → part (net.connect fd host port w).1 ≡ part w
  pub close : (fd : ℕ) (w : W) → part (net.close fd w) ≡ part w
  pub write : (fd : ℕ) (bytes : List ℕ) (w : W) → part (net.write fd bytes w).1 ≡ part w
  pub read : (fd n : ℕ) (w : W) → part (net.read fd n w).1 ≡ part w

-- The statements on an open database are apart, and so is the audit file.
pub record StatementsLeave {W D A : Type 0} (sqlite : Sqlite W D) (part : W → A) : Type 0 where
  pub append_line : (path line : CString) (w : W) → part (sqlite.append_line path line w).1 ≡ part w
  pub insert_telemetry :
      (r : TelemetryRow D) (w : W) → part (sqlite.insert_telemetry r w).1 ≡ part w
  pub insert_alarm :
      (a : AlarmEvent) (text : CString) (w : W) → part (sqlite.insert_alarm a text w).1 ≡ part w
  pub insert_command :
      (c : Command D) (text : CString) (w : W) → part (sqlite.insert_command c text w).1 ≡ part w
  pub select_pending : (n : ℕ) (w : W) → part (sqlite.select_pending n w).1 ≡ part w
  pub mark_uploaded : (id : ℕ) (w : W) → part (sqlite.mark_uploaded id w).1 ≡ part w
  pub count_pending : (w : W) → part (sqlite.count_pending w).1 ≡ part w

-- An adapter is apart: its devices are elsewhere.
pub record AdapterLeaves {W D A : Type 0} (part : W → A) (a : DeviceAdapter W D) : Type 0 where
  pub poll :
      (call : AdapterInfo → ℕ → W → Option (List (Telemetry D)) × W)
      → a.poll ≡ some call
      → (info : AdapterInfo) (room : ℕ) (w : W) → part (call info room w).1 ≡ part w
  pub write_command :
      (call : AdapterInfo → Command D → W → Bool × W)
      → a.write_command ≡ some call
      → (info : AdapterInfo) (c : Command D) (w : W) → part (call info c w).1 ≡ part w
  pub init :
      (call : AdapterInfo → GatewayConfig D → W → Bool × AdapterInfo × W)
      → a.init ≡ some call
      → (info : AdapterInfo) (cfg : GatewayConfig D) (w : W) → part (call info cfg w).2 ≡ part w
  pub shutdown :
      (call : AdapterInfo → W → W)
      → a.shutdown ≡ some call
      → (info : AdapterInfo) (w : W) → part (call info w) ≡ part w

module _ {W A : Type 0} (part : W → A) (P : A → Type 0) where
  -- What is left alone still has its properties.
  pub still : (v w : W) → part v ≡ part w → P (part w) → P (part v)
  still v w e h = subst P (sym e) h

  pub NetLeaves-NetKeeps : (net : Transport W) → NetLeaves net part → NetKeeps net (λ w. P (part w))
  NetLeaves-NetKeeps net leaves = record {
    socket = λ w h. still _ w (leaves.socket w) h;
    connect = λ fd host port w h. still _ w (leaves.connect fd host port w) h;
    close = λ fd w h. still _ w (leaves.close fd w) h;
    write = λ fd bytes w h. still _ w (leaves.write fd bytes w) h;
    read = λ fd n w h. still _ w (leaves.read fd n w) h;
  }

  module _ ⦃f : Floats⦄ where
    open f use {Double}

    pub AdapterLeaves-AdapterKeeps :
        (reg : Registry W Double)
        → All (AdapterLeaves part) reg
        → All (AdapterKeeps (λ (s : MqttSession Double) (w : W). P (part w))) reg
    AdapterLeaves-AdapterKeeps [] k = tt
    AdapterLeaves-AdapterKeeps (a ∷ reg) k = (
      record {
        poll = λ call e info room s w h. still _ w (k.0.poll call e info room w) h;
        write_command = λ call e info c s w h. still _ w (k.0.write_command call e info c w) h;
        init = λ call e info cfg s w h. still _ w (k.0.init call e info cfg w) h;
        shutdown = λ call e info s w h. still _ w (k.0.shutdown call e info w) h;
      },
      AdapterLeaves-AdapterKeeps reg k.1,
    )

    module _ (env : Env W Double) (notify : Notify W) (calls : CallsLeave env notify part)
        (net : NetLeaves env.net part) where
      -- For a part that the statements may change, but keep in `P`.
      pub parts-Keeps :
          ((path line : CString) (w : W)
            → P (part w)
            → P (part (env.sqlite.append_line path line w).1))
          → ((r : TelemetryRow Double) (w : W)
              → P (part w)
              → P (part (env.sqlite.insert_telemetry r w).1))
          → ((a : AlarmEvent) (text : CString) (w : W)
              → P (part w)
              → P (part (env.sqlite.insert_alarm a text w).1))
          → ((c : Command Double) (text : CString) (w : W)
              → P (part w)
              → P (part (env.sqlite.insert_command c text w).1))
          → ReplayKeeps env.sqlite (λ w. P (part w))
          → Keeps (λ (s : MqttSession Double) (w : W). P (part w)) env notify
      parts-Keeps append insert alarm command stores =
          let sockets = NetLeaves-NetKeeps env.net net in
          record {
            now_ms = λ s w h. still _ w (calls.now_ms w) h;
            write_metrics = λ path m s w h. still _ w (calls.write_metrics path m w) h;
            append_line = λ path line s w h. append path line w h;
            insert_telemetry = λ r s w h. insert r w h;
            insert_alarm = λ a text s w h. alarm a text w h;
            insert_command = λ c text s w h. command c text w h;
            count_pending = λ s w h. stores.count_pending w h;
            notify_write = λ fd text s w h. still _ w (calls.notify_write fd text w) h;
            notify_socket = λ s w h. still _ w (calls.notify_socket w) h;
            notify_connect = λ fd path s w h. still _ w (calls.notify_connect fd path w) h;
            notify_close = λ fd s w h. still _ w (calls.notify_close fd w) h;
            publish = λ topic payload s w h.
                publish_on-kept env.net (λ v. P (part v)) sockets topic payload s w h;
            mark_sent = λ ctx row topic payload s w h sent.
                mark-kept env.net (λ v. P (part v)) sockets env.sqlite stores ctx row _
                  (publish_on-kept env.net (λ v. P (part v)) sockets topic payload s w h);
            ping = λ s w h. ping-kept env.net (λ v. P (part v)) sockets s w h;
            replay = λ ctx s m w h.
                replay_pending-kept env.net (λ v. P (part v)) sockets env.sqlite stores ctx s m w h;
            shutdown = λ s w h. shutdown-kept env.net (λ v. P (part v)) sockets s w h;
          }

      -- For a part that the statements leave alone too.
      pub parts_left-Keeps :
          StatementsLeave env.sqlite part
          → Keeps (λ (s : MqttSession Double) (w : W). P (part w)) env notify
      parts_left-Keeps leaves =
          parts-Keeps (λ path line w h. still _ w (leaves.append_line path line w) h)
            (λ r w h. still _ w (leaves.insert_telemetry r w) h)
            (λ a text w h. still _ w (leaves.insert_alarm a text w) h)
            (λ c text w h. still _ w (leaves.insert_command c text w) h)
            (record {
              select_pending = λ n w h. still _ w (leaves.select_pending n w) h;
              mark_uploaded = λ id w h. still _ w (leaves.mark_uploaded id w) h;
              count_pending = λ w h. still _ w (leaves.count_pending w) h;
            })

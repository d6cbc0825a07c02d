-- ===== src/Programs/Gateway/Sockets.antt =====
-- The sockets of the MQTT session over a whole run of main.c.
use edgeflow_energy_gateway.Common.{ℕ, ◌≡◌, refl, ◌∙◌, ap, Bool, true, held, arith, List}
use edgeflow_energy_gateway.Floats.{Floats}
use edgeflow_energy_gateway.Text.{CString}
use edgeflow_energy_gateway.Files.{Files}
use edgeflow_energy_gateway.Model.Types.{GatewayConfig}
use edgeflow_energy_gateway.Adapter.{DeviceAdapter}
use edgeflow_energy_gateway.Storage.{Sqlite, StorageCtx, storage_open, storage_close}
use edgeflow_energy_gateway.Config.{Cjson}
use edgeflow_energy_gateway.Mqtt.Session.{MqttSession, publish_on}
use edgeflow_energy_gateway.Mqtt.Session.Sockets.{CountsSockets}
use edgeflow_energy_gateway.Mqtt.Session.Owned.{
  Owned, LeavesSockets, shutdown-Owned, publish_on-Owned, ping-Owned, replay_pending-Owned,
  sockets-mark_uploaded,
}
use edgeflow_energy_gateway.Watchdog.{Notify}
use edgeflow_energy_gateway.App.{Env}
use edgeflow_energy_gateway.App.World.{AdapterKeeps, Keeps}
use edgeflow_energy_gateway.App.World.Leaves.{CallsLeave, StatementsLeave, AdapterLeaves}
use edgeflow_energy_gateway.Programs.Gateway.{Course, has_all, gateway_main}
use edgeflow_energy_gateway.Programs.Gateway.Account.{Account}
use edgeflow_energy_gateway.Programs.Gateway.Conduct.{start_gateway-After}
use edgeflow_energy_gateway.Programs.Gateway.Leaves.{
  DatabaseLeaves, FilesLeave, left-PrintsKeep, part-gateway_main,
}

module _ {W A : Type 0} (sqlite : Sqlite W A) (part : W → ℕ)
    (leaves : DatabaseLeaves sqlite part) where
  pub part-storage_open :
      (memory : Bool) (cfg : GatewayConfig A) (w : W)
      → part (storage_open sqlite memory cfg w).1 ≡ part w
  unfolding storage_open
  part-storage_open memory cfg w =
      let w₁ = (sqlite.open_db cfg.sqlite_path w).1 in
      let w₂ = (sqlite.exec_schema w₁).1 in
      ground (arith, leaves.open_db cfg.sqlite_path w, leaves.exec_schema w₁, leaves.close_db w₂)

  pub part-storage_close : (ctx : StorageCtx A) (w : W) → part (storage_close sqlite ctx w) ≡ part w
  unfolding storage_close
  part-storage_close ctx w = ground (arith, leaves.close_db w)

module _ {W : Type 0} ⦃f : Floats⦄ (files : Files W) (stderr : ℕ) (env : Env W f.Double)
    (notify : Notify W) (sockets : W → ℕ) (counts : CountsSockets env.net sockets)
    (calls : CallsLeave env notify sockets) (statements : StatementsLeave env.sqlite sockets)
    (database : DatabaseLeaves env.sqlite sockets) (apart : FilesLeave files sockets) where
  open f use {Double}

  -- The session owns its socket, and `n` are those of others.
  abbrev Owns : ℕ → MqttSession Double → W → Type 0
  Owns n s w = Owned env.net sockets counts n s w

  moved :
      (n : ℕ) (s : MqttSession Double) (v w : W) → sockets v ≡ sockets w → Owns n s w → Owns n s v
  moved n s v w e h = record { count = e ∙ h.count }

  replayed : LeavesSockets env.sqlite sockets
  replayed = record {
    sockets-select = statements.select_pending;
    sockets-mark = statements.mark_uploaded;
    sockets-count = statements.count_pending;
  }

  Owns-Keeps : (n : ℕ) → Keeps (Owns n) env notify
  Owns-Keeps n = record {
    now_ms = λ s w h. moved n s _ w (calls.now_ms w) h;
    write_metrics = λ path m s w h. moved n s _ w (calls.write_metrics path m w) h;
    append_line = λ path line s w h. moved n s _ w (statements.append_line path line w) h;
    insert_telemetry = λ r s w h. moved n s _ w (statements.insert_telemetry r w) h;
    insert_alarm = λ a text s w h. moved n s _ w (statements.insert_alarm a text w) h;
    insert_command = λ c text s w h. moved n s _ w (statements.insert_command c text w) h;
    count_pending = λ s w h. moved n s _ w (statements.count_pending w) h;
    notify_write = λ fd text s w h. moved n s _ w (calls.notify_write fd text w) h;
    notify_socket = λ s w h. moved n s _ w (calls.notify_socket w) h;
    notify_connect = λ fd path s w h. moved n s _ w (calls.notify_connect fd path w) h;
    notify_close = λ fd s w h. moved n s _ w (calls.notify_close fd w) h;
    publish = λ topic payload s w h. publish_on-Owned env.net sockets counts n topic payload s w h;
    mark_sent = λ ctx row topic payload s w h sent.
        (let (done, s', w') = publish_on env.net topic payload s w in
          let kept =
            sockets-mark_uploaded env.net sockets counts env.sqlite replayed ctx n row w' in
          moved n s' _ w' kept (publish_on-Owned env.net sockets counts n topic payload s w h));
    ping = λ s w h. ping-Owned env.net sockets counts n s w h;
    replay = λ ctx s m w h.
        replay_pending-Owned env.net sockets counts env.sqlite replayed ctx n s m w h;
    shutdown = λ s w h. (shutdown-Owned env.net sockets counts n s w h).0;
  }

  Owns-AdapterKeeps :
      (n : ℕ) (a : DeviceAdapter W Double) → AdapterLeaves sockets a → AdapterKeeps (Owns n) a
  Owns-AdapterKeeps n a leaves = record {
    poll = λ call e info room s w h. moved n s _ w (leaves.poll call e info room w) h;
    write_command = λ call e info c s w h. moved n s _ w (leaves.write_command call e info c w) h;
    init = λ call e info cfg s w h. moved n s _ w (leaves.init call e info cfg w) h;
    shutdown = λ call e info s w h. moved n s _ w (leaves.shutdown call e info w) h;
  }

  Owns-Account :
      (n : ℕ)
      → Account files stderr env notify true
          (λ w. sockets w ≡ n)
          (λ w. sockets w ≡ n)
          (λ ctx s w. Owns n s w)
  Owns-Account n = record {
    keeps = λ ctx. Owns-Keeps n;
    clock = λ w h. calls.now_ms w ∙ h;
    opened = λ memory cfg w ctx h e.
        (let left = part-storage_open env.sqlite sockets database memory cfg w in
          record { count = omega (arith, left, h) });
    not_opened = λ memory cfg w h e. part-storage_open env.sqlite sockets database memory cfg w ∙ h;
    closed = λ ctx s w h shut.
        (let left = part-storage_close env.sqlite sockets database ctx w in
          omega (arith, left, h.count, ap held (shut refl)));
    prints = λ ctx s. record {
      fprint = λ fp text w h. moved n s _ w (apart.fprint fp text w) h;
      fflush = λ fp w h. moved n s _ w (apart.fflush fp w) h;
    };
    prints_after = left-PrintsKeep files sockets apart n;
  }

  -- When the program ends, the sockets that its session opened are closed again, however often the
  -- connection was lost, if all of its threads could be created. It may also end because the
  -- configuration, the database or the ring cannot be had.
  pub sockets-gateway_main :
      {J : Type 0} (cjson : Cjson J Double) (modbus : DeviceAdapter W Double) (c : Course Double)
      (argv : List CString) (w : W)
      → AdapterLeaves sockets modbus
      → has_all c ≡ true
      → sockets (gateway_main files stderr env notify cjson modbus c argv w).1 ≡ sockets w
  sockets-gateway_main cjson modbus c argv w leaves all =
      part-gateway_main files sockets apart cjson stderr env notify modbus c argv w (λ log cfg v.
        start_gateway-After files stderr env notify true _ _ _ (Owns-Account (sockets v)) modbus c
          log cfg v (λ ctx. Owns-AdapterKeeps (sockets v) modbus leaves) all refl)

-- ===== src/Programs/Gateway/Handles.antt =====
-- The database connections over a whole run of main.c.
use edgeflow_energy_gateway.Common.{
  ℕ, ◌+◌, ◌≡◌, refl, ◌∙◌, Bool, true, none, some, arith, List, [], ◌∷◌, if◌then◌else◌,
}
use edgeflow_energy_gateway.Floats.{Floats}
use edgeflow_energy_gateway.Text.{CString}
use edgeflow_energy_gateway.Files.{Files}
use edgeflow_energy_gateway.Model.Types.{GatewayConfig}
use edgeflow_energy_gateway.Adapter.{DeviceAdapter}
use edgeflow_energy_gateway.Storage.{StorageCtx, storage_open, storage_close}
use edgeflow_energy_gateway.Storage.Handles.{CountsHandles, handles-storage_open}
use edgeflow_energy_gateway.Config.{Cjson}
use edgeflow_energy_gateway.Mqtt.Session.{MqttSession}
use edgeflow_energy_gateway.Watchdog.{Notify}
use edgeflow_energy_gateway.App.{Env}
use edgeflow_energy_gateway.App.World.Leaves.{
  CallsLeave, NetLeaves, StatementsLeave, AdapterLeaves, AdapterLeaves-AdapterKeeps,
  parts_left-Keeps,
}
use edgeflow_energy_gateway.Programs.Gateway.{Course, has_all, gateway_main}
use edgeflow_energy_gateway.Programs.Gateway.Account.{Account}
use edgeflow_energy_gateway.Programs.Gateway.Conduct.{start_gateway-After}
use edgeflow_energy_gateway.Programs.Gateway.Leaves.{FilesLeave, left-PrintsKeep, part-gateway_main}

-- The connection of a context.
abbrev pub connections : {D : Type 0} → StorageCtx D → ℕ
connections ctx = if ctx.has_db then 1 else 0

module _ {W : Type 0} ⦃f : Floats⦄ (files : Files W) (stderr : ℕ) (env : Env W f.Double)
    (notify : Notify W) (handles : W → ℕ) (counts : CountsHandles env.sqlite handles)
    (calls : CallsLeave env notify handles) (net : NetLeaves env.net handles)
    (statements : StatementsLeave env.sqlite handles) (apart : FilesLeave files handles)
    (opens : (path : CString) (w : W) → (env.sqlite.open_db path w).0 ≡ true) where
  open f use {Double}

  -- Besides those of others there is the connection of the context.
  abbrev Connected : ℕ → StorageCtx Double → MqttSession Double → W → Type 0
  Connected n ctx s w = handles w ≡ n + connections ctx

  handles-opened :
      (n : ℕ) (memory : Bool) (cfg : GatewayConfig Double) (w : W) (ctx : StorageCtx Double)
      → handles w ≡ n
      → (storage_open env.sqlite memory cfg w).0 ≡ some ctx
      → handles (storage_open env.sqlite memory cfg w).1 ≡ n + connections ctx
  handles-opened n memory cfg w ctx h e =
      let left = handles-storage_open env.sqlite handles counts memory cfg w in
      ground (arith, (rw e at left), h)

  handles-not_opened :
      (n : ℕ) (memory : Bool) (cfg : GatewayConfig Double) (w : W)
      → handles w ≡ n
      → (storage_open env.sqlite memory cfg w).0 ≡ none
      → handles (storage_open env.sqlite memory cfg w).1 ≡ n
  handles-not_opened n memory cfg w h e =
      let left = handles-storage_open env.sqlite handles counts memory cfg w in
      ground (arith, (rw e at left), h, opens cfg.sqlite_path w)

  handles-closed :
      (n : ℕ) (ctx : StorageCtx Double) (w : W)
      → handles w ≡ n + connections ctx
      → handles (storage_close env.sqlite ctx w) ≡ n
  unfolding storage_close
  handles-closed n ctx w h = ground (arith, h, counts.handles-close w)

  Connected-Account :
      (all : Bool) (n : ℕ)
      → Account files stderr env notify all (λ w. handles w ≡ n) (λ w. handles w ≡ n) (Connected n)
  Connected-Account all n = record {
    keeps = λ ctx.
        parts_left-Keeps handles (λ (k : ℕ). k ≡ n + connections ctx) env notify calls net
          statements;
    clock = λ w h. calls.now_ms w ∙ h;
    opened = λ memory cfg w ctx h e. handles-opened n memory cfg w ctx h e;
    not_opened = λ memory cfg w h e. handles-not_opened n memory cfg w h e;
    closed = λ ctx s w h shut. handles-closed n ctx w h;
    prints = λ ctx s. left-PrintsKeep files handles apart (n + connections ctx);
    prints_after = left-PrintsKeep files handles apart n;
  }

  -- When the program ends, its connection to the database is closed, on whichever path it ends, if
  -- SQLite can open the file: also where the schema is refused, the ring cannot be had or a thread
  -- cannot be created.
  pub handles-gateway_main :
      {J : Type 0} (cjson : Cjson J Double) (modbus : DeviceAdapter W Double) (c : Course Double)
      (argv : List CString) (w : W)
      → AdapterLeaves handles modbus
      → handles (gateway_main files stderr env notify cjson modbus c argv w).1 ≡ handles w
  handles-gateway_main cjson modbus c argv w leaves =
      part-gateway_main files handles apart cjson stderr env notify modbus c argv w (λ log cfg v.
        start_gateway-After files stderr env notify (has_all c) _ _ _
          (Connected-Account (has_all c) (handles v)) modbus c log cfg v
          (λ ctx.
            (AdapterLeaves-AdapterKeeps handles (λ (k : ℕ). k ≡ handles v + connections ctx)
              (modbus ∷ []) (leaves, tt)).0)
          refl refl)

-- ===== src/Programs/Gateway/Account.antt =====
-- What a run of main.c keeps of the world, from the call of `gateway_app_init` to the one before
-- `logger_shutdown`.
use edgeflow_energy_gateway.Common.{ℕ, ◌≡◌, Bool, true, none, some, arith}
use edgeflow_energy_gateway.Floats.{Floats}
use edgeflow_energy_gateway.Text.{CString, literal}
use edgeflow_energy_gateway.Files.{Files}
use edgeflow_energy_gateway.Logger.{LogFp, or_stderr, log_vprint, log_error, log_info}
use edgeflow_energy_gateway.Model.Types.{GatewayConfig}
use edgeflow_energy_gateway.Storage.{StorageCtx, storage_open, storage_close}
use edgeflow_energy_gateway.Mqtt.Wire.{Transport}
use edgeflow_energy_gateway.Mqtt.Session.{MqttSession, mqtt_session_init, mqtt_shutdown_locked}
use edgeflow_energy_gateway.Watchdog.{Notify, Watchdog}
use edgeflow_energy_gateway.App.{Env}
use edgeflow_energy_gateway.App.Life.{gateway_app_run}
use edgeflow_energy_gateway.App.World.{Keeps}
use edgeflow_energy_gateway.Programs.Gateway.{Course, has_all}

-- What a message does to the world.
pub record PrintsKeep {W : Type 0} (files : Files W) (P : W → Type 0) : Type 0 where
  pub fprint : (fp : ℕ) (text : CString) (w : W) → P w → P (files.fprint fp text w)
  pub fflush : (fp : ℕ) (w : W) → P w → P (files.fflush fp w)

module _ {W : Type 0} (files : Files W) (P : W → Type 0) (prints : PrintsKeep files P) where
  log_vprint-kept :
      (stderr : ℕ) (level message : CString) (log : LogFp) (w : W)
      → P w
      → P (log_vprint files stderr level message log w)
  unfolding log_vprint
  log_vprint-kept stderr level message log w h =
      let out = or_stderr stderr log in
      prints.fflush out _
        (prints.fprint out _ _ (prints.fprint out message _ (prints.fprint out _ w h)))

  pub log_error-kept :
      (stderr : ℕ) (message : CString) (log : LogFp) (w : W)
      → P w
      → P (log_error files stderr message log w)
  unfolding log_error
  log_error-kept stderr message log w h = log_vprint-kept stderr (literal "ERROR") message log w h

  pub log_info-kept :
      (stderr : ℕ) (message : CString) (log : LogFp) (w : W)
      → P w
      → P (log_info files stderr message log w)
  unfolding log_info
  log_info-kept stderr message log w h = log_vprint-kept stderr (literal "INFO") message log w h

pub fd-shutdown :
    {W D : Type 0} (net : Transport W) (s : MqttSession D) (w : W)
    → (mqtt_shutdown_locked net s w).0.fd ≡ none
unfolding mqtt_shutdown_locked
fd-shutdown net s w = ground arith

module _ {W : Type 0} ⦃f : Floats⦄ (files : Files W) (stderr : ℕ) (env : Env W f.Double)
    (notify : Notify W) where
  open f use {Double}

  pub app_run-has_all :
      (c : Course Double) (dog : Watchdog) (w : W)
      → (gateway_app_run env notify c.ingress c.worker c.monitor dog w).0 ≡ has_all c
  unfolding gateway_app_run
  app_run-has_all c dog w = ground arith

  -- `Before` holds of the world until the database is opened, `Inv` while the gateway is there, of
  -- its database and session, and `After` once the database is closed or could not be opened. The
  -- session is only known to be shut down if all threads could be created.
  pub record Account (all : Bool) (Before After : W → Type 0)
      (Inv : StorageCtx Double → MqttSession Double → W → Type 0) : Type 0 where
    pub keeps : (ctx : StorageCtx Double) → Keeps (Inv ctx) env notify
    pub clock : (w : W) → Before w → Before (env.now_ms w).1
    pub opened :
        (memory : Bool) (cfg : GatewayConfig Double) (w : W) (ctx : StorageCtx Double)
        → Before w
        → (storage_open env.sqlite memory cfg w).0 ≡ some ctx
        → Inv ctx (mqtt_session_init cfg) (storage_open env.sqlite memory cfg w).1
    pub not_opened :
        (memory : Bool) (cfg : GatewayConfig Double) (w : W)
        → Before w
        → (storage_open env.sqlite memory cfg w).0 ≡ none
        → After (storage_open env.sqlite memory cfg w).1
    pub closed :
        (ctx : StorageCtx Double) (s : MqttSession Double) (w : W)
        → Inv ctx s w
        → (all ≡ true → s.fd ≡ none)
        → After (storage_close env.sqlite ctx w)
    pub prints : (ctx : StorageCtx Double) (s : MqttSession Double) → PrintsKeep files (Inv ctx s)
    pub prints_after : PrintsKeep files After

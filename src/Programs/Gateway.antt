-- ===== src/Programs/Gateway.antt =====
-- main.c: the gateway program from its arguments to its exit code. What it prints itself is not
-- modelled, and the signal that ends it is where its rounds end.
pub mod Account
pub mod Conduct
pub mod Leaves
pub mod Sockets
pub mod Handles
pub mod Streams
mod Tests
use edgeflow_energy_gateway.Common.{
  ℕ, Bool, true, false, ◌&&◌, Option, none, some, List, [], ◌∷◌, if◌then◌else◌,
}
use edgeflow_energy_gateway.Floats.{Floats}
use edgeflow_energy_gateway.Text.{CString, literal, concat}
use edgeflow_energy_gateway.Files.{Files}
use edgeflow_energy_gateway.Logger.{LogFp, logger_init, logger_shutdown, log_info, log_error}
use edgeflow_energy_gateway.Model.Types.{Telemetry, GatewayConfig}
use edgeflow_energy_gateway.Adapter.{DeviceAdapter}
use edgeflow_energy_gateway.Config.{Cjson}
use edgeflow_energy_gateway.Config.File.{load_path}
use edgeflow_energy_gateway.Watchdog.{Notify, Watchdog, watchdog_start}
use edgeflow_energy_gateway.App.{Env, GatewayApp}
use edgeflow_energy_gateway.App.Life.{
  Memory, gateway_app_init, gateway_app_run, worker_end, gateway_app_stop, gateway_app_destroy,
}
use edgeflow_energy_gateway.App.Start.{Round, rounds}
use edgeflow_energy_gateway.Programs.{parse_config_path}

-- What the system decides in one run of the program: which allocations succeed, which threads can be
-- created, and the rounds that the threads run until they find `running` cleared.
pub record Course (D : Type 0) : Type 0 where
  pub for_config : Bool
  pub for_app : Memory
  -- a point of zero bytes, and what a read past the ring would give
  pub zeroed : Telemetry D
  pub scratch : Telemetry D
  pub ingress : Bool
  pub worker : Bool
  pub monitor : Bool
  pub turns : List Round

-- The worker is only created behind the ingress thread, and the monitor behind both.
abbrev pub has_worker : {D : Type 0} → Course D → Bool
has_worker c = c.ingress && c.worker

abbrev pub has_all : {D : Type 0} → Course D → Bool
has_all c = c.ingress && (c.worker && c.monitor)

abbrev pub is_created : {D : Type 0} → Course D → Round → Bool
is_created c Round.ingress = c.ingress
is_created c Round.worker = has_worker c
is_created c Round.monitor = has_all c

-- The rounds of the threads that have been created.
abbrev pub created : {D : Type 0} → Course D → List Round → List Round
created c [] = []
created c (t ∷ turns) = let rest = created c turns in if is_created c t then t ∷ rest else rest

module _ {W : Type 0} ⦃f : Floats⦄ (files : Files W) (stderr : ℕ) (env : Env W f.Double)
    (notify : Notify W) where
  open f use {Double}

  -- The threads from their creation until they are joined.
  unfoldable pub run_threads :
      Course Double → Watchdog → GatewayApp W Double → W → GatewayApp W Double × W
  unfolding worker_end
  run_threads c dog app w =
      let r =
        rounds env notify dog c.scratch (record { app = app; last = 0; world = w })
          (created c c.turns) in
      if has_worker c then worker_end env notify r.app r.world else (r.app, r.world)

  -- From `gateway_app_run` on, with the log; the number is the exit code.
  unfoldable pub run_gateway : Course Double → LogFp → Watchdog → GatewayApp W Double → W → ℕ × W
  unfolding run_threads gateway_app_run
  run_gateway c log dog app w =
      let (running, w₁) = gateway_app_run env notify c.ingress c.worker c.monitor dog w in
      let (app₁, w₂) = run_threads c dog app w₁ in
      let (app₂, _, w₃) = gateway_app_stop env notify app₁ dog w₂ in
      let w₄ = log_error files stderr (literal "gateway_app_run failed") log w₂ in
      if running
      then (0, (gateway_app_destroy env notify app₂ w₃).1)
      else (1, (gateway_app_destroy env notify app₁ w₄).1)

  -- From `gateway_app_init` on.
  unfoldable pub start_gateway :
      DeviceAdapter W Double → Course Double → LogFp → GatewayConfig Double → W → ℕ × W
  unfolding run_gateway
  start_gateway modbus c log cfg w =
      let w₁ = (gateway_app_init env notify modbus c.zeroed c.for_app cfg watchdog_start w).2 in
      elim (gateway_app_init env notify modbus c.zeroed c.for_app cfg watchdog_start w).0 [
        | none ↦ (1, log_error files stderr (literal "gateway_app_init failed") log w₁)
        | some app ↦
            run_gateway c log
              (gateway_app_init env notify modbus c.zeroed c.for_app cfg watchdog_start w).1 app w₁
      ]

  module _ {J : Type 0} (cjson : Cjson J Double) where
    -- `main` of the gateway. `g_log_fp` and the watchdog start as the program finds them.
    unfoldable pub gateway_main : DeviceAdapter W Double → Course Double → List CString → W → ℕ × W
    unfolding start_gateway
    gateway_main modbus c argv w =
        let path = parse_config_path argv in
        let (loaded, cfg, w₁) = load_path files cjson c.for_config path w in
        let (logging, log, w₂) = logger_init files (some cfg.log_dir) none w₁ in
        let startup = concat (
          literal "edgeflow startup: config="
          ∷ path
          ∷ literal " device_id="
          ∷ cfg.device_id
          ∷ []) in
        let (code, w₃) = start_gateway modbus c log cfg (log_info files stderr startup log w₂) in
        if loaded then (code, (logger_shutdown files log w₃).1) else (1, w₁)

-- ===== src/Programs/Gateway/Streams.antt =====
-- The files over a whole run of main.c: the configuration and the log.
use edgeflow_energy_gateway.Common.{
  ℕ, ◌+◌, ◌≡◌, refl, ◌∙◌, Bool, Bool-cases, Option, none, some, Option-cases, held, inl, inr, List,
  [], ◌∷◌, arith,
}
use edgeflow_energy_gateway.Floats.{Floats}
use edgeflow_energy_gateway.Text.{CString, literal, concat}
use edgeflow_energy_gateway.Files.{Files}
use edgeflow_energy_gateway.Files.Kept.{CountsStreams}
use edgeflow_energy_gateway.Logger.{LogFp, log_path, logger_init, logger_shutdown, log_info}
use edgeflow_energy_gateway.Adapter.{DeviceAdapter}
use edgeflow_energy_gateway.Storage.{StorageCtx}
use edgeflow_energy_gateway.Config.{Cjson}
use edgeflow_energy_gateway.Config.File.{load_path, streams-load_path}
use edgeflow_energy_gateway.Mqtt.Session.{MqttSession}
use edgeflow_energy_gateway.Watchdog.{Notify}
use edgeflow_energy_gateway.App.{Env}
use edgeflow_energy_gateway.App.World.Leaves.{
  CallsLeave, NetLeaves, StatementsLeave, AdapterLeaves, AdapterLeaves-AdapterKeeps,
  parts_left-Keeps,
}
use edgeflow_energy_gateway.Programs.{parse_config_path}
use edgeflow_energy_gateway.Programs.Gateway.{Course, has_all, start_gateway, gateway_main}
use edgeflow_energy_gateway.Programs.Gateway.Account.{PrintsKeep, Account, log_info-kept}
use edgeflow_energy_gateway.Programs.Gateway.Conduct.{start_gateway-After}
use edgeflow_energy_gateway.Programs.Gateway.Leaves.{DatabaseLeaves}
use edgeflow_energy_gateway.Programs.Gateway.Sockets.{part-storage_open, part-storage_close}

module _ {W : Type 0} (files : Files W) (streams : W → ℕ)
    (counts : CountsStreams files streams) where
  -- The log is the stream that is held from its start on.
  streams-logger_init :
      (dir : Option CString) (w : W)
      → let (done, log, w') = logger_init files dir none w in streams w' ≡ streams w + held log
  unfolding logger_init
  streams-logger_init none w = omega arith
  streams-logger_init (some []) w = omega arith
  streams-logger_init (some (c ∷ dir)) w =
      let v = files.mkdir (c ∷ dir) w in
      let path = log_path (c ∷ dir) in
      let made = counts.streams-mkdir (c ∷ dir) w in
      elim (Option-cases (files.fopen path (literal "a") v).0) [
        | inl e ↦
            rw (e, logger_init) (omega (arith, made, counts.not_opened path (literal "a") v e))
        | inr (fp, e) ↦
            rw (e, logger_init) (omega (arith, made, counts.opened path (literal "a") v fp e))
      ]

  streams-logger_shutdown :
      (log : LogFp) (n : ℕ) (w : W)
      → streams w ≡ n + held log
      → streams (logger_shutdown files log w).1 ≡ n
  unfolding logger_shutdown
  streams-logger_shutdown none n w h = omega (arith, h)
  streams-logger_shutdown (some fp) n w h = omega (arith, h, counts.streams-fclose fp w)

  printed : (n : ℕ) → PrintsKeep files (λ w. streams w ≡ n)
  printed n = record {
    fprint = λ fp text w h. counts.streams-fprint fp text w ∙ h;
    fflush = λ fp w h. counts.streams-fflush fp w ∙ h;
  }

module _ {W : Type 0} ⦃f : Floats⦄ (files : Files W) (stderr : ℕ) (env : Env W f.Double)
    (notify : Notify W) (streams : W → ℕ) (counts : CountsStreams files streams)
    (calls : CallsLeave env notify streams) (net : NetLeaves env.net streams)
    (statements : StatementsLeave env.sqlite streams)
    (database : DatabaseLeaves env.sqlite streams) where
  open f use {Double}

  Still-Account :
      (all : Bool) (n : ℕ)
      → Account files stderr env notify all
          (λ w. streams w ≡ n)
          (λ w. streams w ≡ n)
          (λ (ctx : StorageCtx Double) (s : MqttSession Double) (w : W). streams w ≡ n)
  Still-Account all n = record {
    keeps = λ ctx. parts_left-Keeps streams (λ (k : ℕ). k ≡ n) env notify calls net statements;
    clock = λ w h. calls.now_ms w ∙ h;
    opened = λ memory cfg w ctx h e. part-storage_open env.sqlite streams database memory cfg w ∙ h;
    not_opened = λ memory cfg w h e. part-storage_open env.sqlite streams database memory cfg w ∙ h;
    closed = λ ctx s w h shut. part-storage_close env.sqlite streams database ctx w ∙ h;
    prints = λ ctx s. printed files streams counts n;
    prints_after = printed files streams counts n;
  }

  -- When the program ends, on whichever path, the file of its configuration and its log are closed.
  pub streams-gateway_main :
      {J : Type 0} (cjson : Cjson J Double) (modbus : DeviceAdapter W Double) (c : Course Double)
      (argv : List CString) (w : W)
      → AdapterLeaves streams modbus
      → streams (gateway_main files stderr env notify cjson modbus c argv w).1 ≡ streams w
  unfolding gateway_main
  streams-gateway_main cjson modbus c argv w leaves =
      let path = parse_config_path argv in
      let (loaded, cfg, w₁) = load_path files cjson c.for_config path w in
      let (logging, log, w₂) = logger_init files (some cfg.log_dir) none w₁ in
      let read = streams-load_path files streams counts cjson c.for_config path w in
      let held_log = streams-logger_init files streams counts (some cfg.log_dir) w₁ in
      let startup =
        concat (
          literal "edgeflow startup: config="
          ∷ path
          ∷ literal " device_id="
          ∷ cfg.device_id
          ∷ []) in
      let w₃ = log_info files stderr startup log w₂ in
      let told =
        log_info-kept files (λ v. streams v ≡ streams w₂)
          (printed files streams counts (streams w₂)) stderr startup log w₂ refl in
      let (code, w₄) = start_gateway files stderr env notify modbus c log cfg w₃ in
      let ran =
        start_gateway-After files stderr env notify (has_all c) _ _ _
          (Still-Account (has_all c) (streams w₃)) modbus c log cfg w₃
          (λ ctx.
            (AdapterLeaves-AdapterKeeps streams (λ (k : ℕ). k ≡ streams w₃) (modbus ∷ [])
              (leaves, tt)).0)
          refl refl in
      elim (Bool-cases (load_path files cjson c.for_config path w).0) [
        | inr bad ↦ rw (bad, gateway_main) read
        | inl good ↦
            rw (good, gateway_main)
              (streams-logger_shutdown files streams counts log (streams w) w₄
                (omega (arith, ran, told, held_log, read)))
      ]

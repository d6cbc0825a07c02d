-- ===== src/Programs/Gateway/Leaves.antt =====
-- The file calls around the gateway of main.c: loading the configuration, the log's start and end.
use edgeflow_energy_gateway.Common.{
  ℕ, ◌≡◌, refl, ◌∙◌, Bool, Bool-cases, Option, none, some, Option-cases, inl, inr, List, [], ◌∷◌,
  arith,
}
use edgeflow_energy_gateway.Floats.{Floats}
use edgeflow_energy_gateway.Text.{CString, literal, concat}
use edgeflow_energy_gateway.Files.{Files}
use edgeflow_energy_gateway.Logger.{LogFp, logger_init, logger_shutdown, log_info}
use edgeflow_energy_gateway.Config.{Cjson}
use edgeflow_energy_gateway.Config.File.{read_sized, read_open, read_file, load_path}
use edgeflow_energy_gateway.Storage.{Sqlite}
use edgeflow_energy_gateway.Programs.Gateway.Account.{PrintsKeep, log_info-kept}
use edgeflow_energy_gateway.Programs.Gateway.{Course, start_gateway, gateway_main}
use edgeflow_energy_gateway.Programs.{parse_config_path}
use edgeflow_energy_gateway.Model.Types.{GatewayConfig}
use edgeflow_energy_gateway.Adapter.{DeviceAdapter}
use edgeflow_energy_gateway.Watchdog.{Notify}
use edgeflow_energy_gateway.App.{Env}

-- Opening and closing the database leaves a part of the world alone.
pub record DatabaseLeaves {W D A : Type 0} (sqlite : Sqlite W D) (part : W → A) : Type 0 where
  pub open_db : (path : CString) (w : W) → part (sqlite.open_db path w).1 ≡ part w
  pub exec_schema : (w : W) → part (sqlite.exec_schema w).1 ≡ part w
  pub close_db : (w : W) → part (sqlite.close_db w) ≡ part w

-- The files are apart.
pub record FilesLeave {W : Type 0} (files : Files W) (part : W → ℕ) : Type 0 where
  pub fopen : (path mode : CString) (w : W) → part (files.fopen path mode w).1 ≡ part w
  pub seek_end : (fp : ℕ) (w : W) → part (files.seek_end fp w).1 ≡ part w
  pub seek_start : (fp : ℕ) (w : W) → part (files.seek_start fp w).1 ≡ part w
  pub ftell : (fp : ℕ) (w : W) → part (files.ftell fp w).1 ≡ part w
  pub fread : (fp n : ℕ) (w : W) → part (files.fread fp n w).1 ≡ part w
  pub fprint : (fp : ℕ) (text : CString) (w : W) → part (files.fprint fp text w) ≡ part w
  pub fflush : (fp : ℕ) (w : W) → part (files.fflush fp w) ≡ part w
  pub fclose : (fp : ℕ) (w : W) → part (files.fclose fp w) ≡ part w
  pub mkdir : (path : CString) (w : W) → part (files.mkdir path w) ≡ part w

module _ {W : Type 0} (files : Files W) (part : W → ℕ) (leaves : FilesLeave files part) where
  part-read_sized :
      (memory : Bool) (fp size : ℕ) (w : W) → part (read_sized files memory fp size w).1 ≡ part w
  unfolding read_sized
  part-read_sized memory fp size w =
      let w₁ = (files.seek_start fp w).1 in
      let w₂ = (files.fread fp size w₁).1 in
      ground (
        arith,
        leaves.seek_start fp w,
        leaves.fread fp size w₁,
        leaves.fclose fp w₁,
        leaves.fclose fp w₂,
      )

  part-read_open : (memory : Bool) (fp : ℕ) (w : W) → part (read_open files memory fp w).1 ≡ part w
  unfolding read_open
  part-read_open memory fp w =
      let w₁ = (files.seek_end fp w).1 in
      let w₂ = (files.ftell fp w₁).1 in
      let sought = leaves.seek_end fp w in
      let told = leaves.ftell fp w₁ in
      elim (Bool-cases (files.seek_end fp w).0) [
        | inr failed ↦ rw (failed, read_open) (omega (arith, sought, leaves.fclose fp w₁))
        | inl done ↦ elim (Option-cases (files.ftell fp w₁).0) [
          | inl e ↦ rw (done, e, read_open) (omega (arith, sought, told, leaves.fclose fp w₂))
          | inr (size, e) ↦
              rw (done, e, read_open) (part-read_sized memory fp size w₂ ∙ told ∙ sought)
        ]
      ]

  pub part-load_path :
      {J : Type 0} ⦃f : Floats⦄ (cjson : Cjson J f.Double) (memory : Bool) (path : CString) (w : W)
      → part (load_path files cjson memory path w).2 ≡ part w
  unfolding load_path read_file
  part-load_path cjson memory path w = elim (Option-cases (files.fopen path (literal "rb") w).0) [
    | inl e ↦ rw (e, read_file) (leaves.fopen path (literal "rb") w)
    | inr (fp, e) ↦
        rw (e, read_file)
          (part-read_open memory fp (files.fopen path (literal "rb") w).1
            ∙ leaves.fopen path (literal "rb") w)
  ]

  pub part-logger_init :
      (dir : Option CString) (log : LogFp) (w : W) → part (logger_init files dir log w).2 ≡ part w
  unfolding logger_init
  part-logger_init none log w = refl
  part-logger_init (some []) log w = refl
  part-logger_init (some (c ∷ dir)) log w =
      leaves.fopen _ (literal "a") (files.mkdir (c ∷ dir) w) ∙ leaves.mkdir (c ∷ dir) w

  pub part-logger_shutdown : (log : LogFp) (w : W) → part (logger_shutdown files log w).1 ≡ part w
  unfolding logger_shutdown
  part-logger_shutdown none w = refl
  part-logger_shutdown (some fp) w = leaves.fclose fp w

  pub left-PrintsKeep : (n : ℕ) → PrintsKeep files (λ w. part w ≡ n)
  left-PrintsKeep n = record {
    fprint = λ fp text w h. leaves.fprint fp text w ∙ h;
    fflush = λ fp w h. leaves.fflush fp w ∙ h;
  }

  -- The whole program, from the part of it that is about the gateway.
  pub part-gateway_main :
      {J : Type 0} ⦃f : Floats⦄ (cjson : Cjson J f.Double) (stderr : ℕ) (env : Env W f.Double)
      (notify : Notify W) (modbus : DeviceAdapter W f.Double) (c : Course f.Double)
      (argv : List CString) (w : W)
      → ((log : LogFp) (cfg : GatewayConfig f.Double) (v : W)
          → part (start_gateway files stderr env notify modbus c log cfg v).1 ≡ part v)
      → part (gateway_main files stderr env notify cjson modbus c argv w).1 ≡ part w
  unfolding gateway_main
  part-gateway_main cjson stderr env notify modbus c argv w starts =
      let path = parse_config_path argv in
      let (loaded, cfg, w₁) = load_path files cjson c.for_config path w in
      let (logging, log, w₂) = logger_init files (some cfg.log_dir) none w₁ in
      let read = part-load_path cjson c.for_config path w in
      let startup =
        concat (
          literal "edgeflow startup: config="
          ∷ path
          ∷ literal " device_id="
          ∷ cfg.device_id
          ∷ []) in
      let w₃ = log_info files stderr startup log w₂ in
      let (code, w₄) = start_gateway files stderr env notify modbus c log cfg w₃ in
      let told =
        log_info-kept files (λ v. part v ≡ part w) (left-PrintsKeep (part w)) stderr startup log w₂
          (part-logger_init (some cfg.log_dir) none w₁ ∙ read) in
      elim (Bool-cases (load_path files cjson c.for_config path w).0) [
        | inl good ↦
            rw (good, gateway_main) (part-logger_shutdown log w₄ ∙ starts log cfg w₃ ∙ told)
        | inr bad ↦ rw (bad, gateway_main) read
      ]

-- ===== src/Programs/Agree.antt =====
-- The configuration check of cli/main.c and the start of main.c.
use edgeflow_energy_gateway.Common.{ℕ, ◌≤◌, ◌≡◌, refl, sym, Bool-cases, inl, inr, List, ◌∷◌}
use edgeflow_energy_gateway.Floats.{Floats}
use edgeflow_energy_gateway.Text.{CString}
use edgeflow_energy_gateway.Files.{Files}
use edgeflow_energy_gateway.Adapter.{DeviceAdapter}
use edgeflow_energy_gateway.Config.{Cjson}
use edgeflow_energy_gateway.Config.File.{load_path}
use edgeflow_energy_gateway.Watchdog.{Notify}
use edgeflow_energy_gateway.App.{Env}
use edgeflow_energy_gateway.Programs.{parse_config_path, flags, validated-parse}
use edgeflow_energy_gateway.Programs.Gateway.{Course, gateway_main}
use edgeflow_energy_gateway.Programs.Tool.{Tool, cmd_validate_config}

module _ {W J : Type 0} ⦃f : Floats⦄ (files : Files W) (stderr : ℕ) (env : Env W f.Double)
    (notify : Notify W) (cjson : Cjson J f.Double) (tool : Tool W) where
  open f use {Double}

  -- With the flag for the configuration given at most once: where `validate-config` refuses the
  -- configuration, the gateway started with the same arguments ends with exit code 1, and all that it
  -- has done is to load the file.
  pub validate_config-gateway_main :
      (modbus : DeviceAdapter W Double) (c : Course Double) (prog name cmd : CString)
      (args : List CString) (w : W)
      → flags args ≤ 1
      → (cmd_validate_config tool (load_path files cjson c.for_config) (name ∷ cmd ∷ args) w).0 ≡ 1
      → gateway_main files stderr env notify cjson modbus c (prog ∷ args) w
        ≡ (1, (load_path files cjson c.for_config (parse_config_path (prog ∷ args)) w).2)
  unfolding gateway_main cmd_validate_config
  validate_config-gateway_main modbus c prog name cmd args w one h =
      let same = validated-parse prog name cmd args one in
      elim (Bool-cases (load_path files cjson c.for_config (parse_config_path (prog ∷ args)) w).0) [
        | inr bad ↦ rw (bad, gateway_main) refl
        | inl good ↦ cc (rw (sym same, good, cmd_validate_config) at h)
      ]

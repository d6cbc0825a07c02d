-- ===== src/Programs/Tool.antt =====
-- cli/main.c: the maintenance tool, its three subcommands and its exit codes. `Tool` stands for the C
-- library's streams and for SQLite; a query's prepare, step, column and finalize are one operation.
pub mod Lines
pub mod Status
pub mod Stats
mod Tests
use edgeflow_energy_gateway.Common.{
  ℕ, zero, suc, Bool, true, false, ◌==◌, not, Option, none, some, List, [], ◌∷◌, drop,
  if◌then◌else◌,
}
use edgeflow_energy_gateway.Floats.{Floats}
use edgeflow_energy_gateway.Text.{CString, literal, str_eq, print_ℕ, concat}
use edgeflow_energy_gateway.Model.Types.{GatewayConfig}
use edgeflow_energy_gateway.Programs.{
  Subcommand, validate_config, status, storage_stats, usage, subcommand, validated_path,
}

pub record Tool (W : Type 0) : Type 0 where
  pub fopen : CString → CString → W → Option ℕ × W
  -- with the size of the buffer; none for NULL
  pub fgets : ℕ → ℕ → W → Option CString × W
  pub fclose : ℕ → W → W
  -- to the standard output, and to the standard error
  pub print : CString → W → W
  pub complain : CString → W → W
  pub open_db : CString → W → Bool × W
  -- the number that a counting query yields; none if it fails
  pub count : CString → W → Option ℕ × W
  pub close_db : W → W

-- The loop over the flags of `cmd_status` and `cmd_storage_stats`, from NULL.
unfoldable pub last_given : CString → Option CString → List CString → Option CString
last_given flag path [] = path
last_given flag path (a ∷ []) = path
last_given flag path (a ∷ b ∷ args) =
    last_given flag (if str_eq a flag then some b else path) (b ∷ args)

-- `line[0] == '#'`
abbrev pub is_comment : CString → Bool
is_comment [] = false
is_comment (c ∷ line) = c == 35

-- The four queries with their labels.
abbrev pub queries : List (CString × CString)
queries =
    (literal "SELECT COUNT(*) FROM telemetry;", literal "telemetry_total")
    ∷ (literal "SELECT COUNT(*) FROM telemetry WHERE uploaded=0;", literal "telemetry_pending")
    ∷ (literal "SELECT COUNT(*) FROM alarms;", literal "alarms_total")
    ∷ (literal "SELECT COUNT(*) FROM commands;", literal "commands_total")
    ∷ []

abbrev pub stat_line : CString → ℕ → CString
stat_line label n = concat (label ∷ literal " " ∷ print_ℕ n ∷ literal "\n" ∷ [])

abbrev pub status_title : CString → CString
status_title path = concat (literal "=== edgeflow status (" ∷ path ∷ literal ") ===\n" ∷ [])

abbrev pub stats_title : CString → CString
stats_title path = concat (literal "=== storage stats (" ∷ path ∷ literal ") ===\n" ∷ [])

abbrev truth : Bool → CString
truth true = literal "true"
truth false = literal "false"

module _ {W : Type 0} (tool : Tool W) where
  unfoldable pub print_usage : CString → W → W
  print_usage prog w =
      tool.complain
        (concat (
          literal "Usage:\n  "
          ∷ prog
          ∷ literal " validate-config -c <gateway.json>\n  "
          ∷ prog
          ∷ literal " status --metrics <metrics.prom>\n  "
          ∷ prog
          ∷ literal " storage-stats --sqlite <edgeflow.db>\n"
          ∷ []))
        w

  -- The loop of `cmd_status`; none if there are more lines than fuel.
  unfoldable pub show_lines : ℕ → ℕ → W → Option W
  show_lines zero fp w = none
  show_lines (suc fuel) fp w = elim (tool.fgets fp 512 w).0 [
    | none ↦ some (tool.fgets fp 512 w).1
    | some line ↦
        let w₁ = (tool.fgets fp 512 w).1 in
        show_lines fuel fp (if is_comment line then w₁ else tool.print line w₁)
  ]

  -- From the open file on.
  unfoldable pub show_file : ℕ → CString → ℕ → W → Option (ℕ × W)
  unfolding show_lines
  show_file fuel path fp w = elim (show_lines fuel fp (tool.print (status_title path) w)) [
    | none ↦ none
    | some w' ↦ some (0, tool.fclose fp w')
  ]

  unfoldable pub cmd_status : ℕ → List CString → W → Option (ℕ × W)
  unfolding show_file last_given
  cmd_status fuel argv w = elim (last_given (literal "--metrics") none (drop 2 argv)) [
    | none ↦ some (1, tool.complain (literal "status: missing --metrics\n") w)
    | some path ↦ elim (tool.fopen path (literal "r") w).0 [
      | none ↦ some (
        1,
        tool.complain (concat (literal "status: cannot open " ∷ path ∷ literal "\n" ∷ []))
            (tool.fopen path (literal "r") w).1,
      )
      | some fp ↦ show_file fuel path fp (tool.fopen path (literal "r") w).1
    ]
  ]

  -- The loop over the queries.
  unfoldable pub print_stats : List (CString × CString) → W → W
  print_stats [] w = w
  print_stats ((query, label) ∷ qs) w =
      let w₁ = (tool.count query w).1 in
      print_stats qs
        (elim (tool.count query w).0 [ none ↦ w₁ | some n ↦ tool.print (stat_line label n) w₁ ])

  unfoldable pub cmd_storage_stats : List CString → W → ℕ × W
  unfolding print_stats last_given
  cmd_storage_stats argv w = elim (last_given (literal "--sqlite") none (drop 2 argv)) [
    | none ↦ (1, tool.complain (literal "storage-stats: missing --sqlite\n") w)
    | some path ↦
        let (opened, w₁) = tool.open_db path w in
        if opened
        then (0, tool.close_db (print_stats queries (tool.print (stats_title path) w₁)))
        else (
          1,
          tool.complain (concat (literal "storage-stats: open failed: " ∷ path ∷ literal "\n" ∷ []))
              w₁,
        )
  ]

  module _ {D : Type 0} (load : CString → W → Bool × GatewayConfig D × W) where
    -- `load` is `gateway_config_load` with the path as its argument.
    unfoldable pub cmd_validate_config : List CString → W → ℕ × W
    cmd_validate_config argv w =
        let path = validated_path argv in
        let (loaded, cfg, w₁) = load path w in
        let report = concat (
          literal "validate-config OK: "
          ∷ path
          ∷ literal "\n  device_id="
          ∷ cfg.device_id
          ∷ literal " simulate="
          ∷ truth cfg.simulate
          ∷ literal "\n  broker="
          ∷ cfg.broker_host
          ∷ literal ":"
          ∷ print_ℕ cfg.broker_port
          ∷ literal " topic="
          ∷ cfg.mqtt_topic
          ∷ literal "\n  sqlite="
          ∷ cfg.sqlite_path
          ∷ literal " use_sqlite="
          ∷ truth cfg.use_sqlite
          ∷ literal "\n"
          ∷ []) in
        let failure =
          concat (literal "validate-config: load failed: " ∷ path ∷ literal "\n" ∷ []) in
        if loaded then (0, tool.print report w₁) else (1, tool.complain failure w₁)

    -- `main` of the tool. The first argument is the program's name, for `print_usage`.
    unfoldable pub tool_main : ℕ → CString → List CString → W → Option (ℕ × W)
    unfolding cmd_validate_config cmd_status cmd_storage_stats print_usage
    tool_main fuel prog args w = elim (subcommand (prog ∷ args)) [
      | validate_config ↦ some (cmd_validate_config (prog ∷ args) w)
      | status ↦ cmd_status fuel (prog ∷ args) w
      | storage_stats ↦ some (cmd_storage_stats (prog ∷ args) w)
      | usage ↦ some (1, print_usage prog w)
    ]

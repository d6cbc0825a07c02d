-- ===== src/Logger.antt =====
-- platform/logger.h and platform/logger.c. A message is the text that its format prints.
use edgeflow_energy_gateway.Common.{ℕ, Bool, true, false, Option, none, some, [], ◌∷◌}
use edgeflow_energy_gateway.Text.{CString, literal, copy_string, concat}
use edgeflow_energy_gateway.Files.{Files}

-- `g_log_fp`, none for NULL.
abbrev pub LogFp : Type 0
LogFp = Option ℕ

abbrev pub or_stderr : ℕ → LogFp → ℕ
or_stderr stderr none = stderr
or_stderr stderr (some fp) = fp

-- The path of the log file, in its buffer of 256 bytes.
unfoldable pub log_path : CString → CString
log_path log_dir = copy_string 256 (some (concat (log_dir ∷ literal "/edgeflow.log" ∷ [])))

module _ {W : Type 0} (files : Files W) where
  unfoldable pub log_vprint : ℕ → CString → CString → LogFp → W → W
  log_vprint stderr level message log w =
      let out = or_stderr stderr log in
      let w₁ = files.fprint out (concat (literal "[" ∷ level ∷ literal "] " ∷ [])) w in
      let w₂ = files.fprint out message w₁ in files.fflush out (files.fprint out (literal "\n") w₂)

  -- The directory must have a name.
  unfoldable pub logger_init : Option CString → LogFp → W → Bool × LogFp × W
  unfolding log_path
  logger_init none log w = (false, log, w)
  logger_init (some []) log w = (false, log, w)
  logger_init (some (c ∷ dir)) log w =
      let (fp, w₁) = files.fopen (log_path (c ∷ dir)) (literal "a") (files.mkdir (c ∷ dir) w) in
      let ok : Bool = elim fp [ none ↦ false | some n ↦ true ] in (ok, fp, w₁)

  unfoldable pub logger_shutdown : LogFp → W → LogFp × W
  logger_shutdown none w = (none, w)
  logger_shutdown (some fp) w = (none, files.fclose fp w)

  unfoldable pub log_info : ℕ → CString → LogFp → W → W
  unfolding log_vprint
  log_info stderr message log w = log_vprint stderr (literal "INFO") message log w

  unfoldable pub log_warn : ℕ → CString → LogFp → W → W
  unfolding log_vprint
  log_warn stderr message log w = log_vprint stderr (literal "WARN") message log w

  unfoldable pub log_error : ℕ → CString → LogFp → W → W
  unfolding log_vprint
  log_error stderr message log w = log_vprint stderr (literal "ERROR") message log w

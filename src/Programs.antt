-- ===== src/Programs.antt =====
-- The command lines of the two programs, main.c and cli/main.c: which configuration they load, and
-- which subcommand the tool runs. An argument list is `argv`, the program's name first.
pub mod Gateway
pub mod Tool
pub mod Agree
use edgeflow_energy_gateway.Common.{
  ℕ, suc, ◌≤◌, ◌≡◌, refl, sym, Bool, Bool-cases, ◌||◌, inl, inr, List, [], ◌∷◌, drop, arith,
  if◌then◌else◌,
}
use edgeflow_energy_gateway.Text.{CString, literal, str_eq}

abbrev pub is_config_flag : CString → Bool
is_config_flag a = str_eq a (literal "-c") || str_eq a (literal "--config")

abbrev pub default_path : CString
default_path = literal "configs/gateway.json"

-- The loop of `parse_config_path`: the argument behind the first flag.
unfoldable pub first_value : CString → List CString → CString
first_value path [] = path
first_value path (a ∷ []) = path
first_value path (a ∷ b ∷ args) =
    let rest = first_value path (b ∷ args) in if is_config_flag a then b else rest

unfoldable pub parse_config_path : List CString → CString
unfolding first_value
parse_config_path argv = first_value default_path (drop 1 argv)

-- The loop of the subcommands: the argument behind the last flag.
unfoldable pub last_value : (CString → Bool) → CString → List CString → CString
last_value is_flag path [] = path
last_value is_flag path (a ∷ []) = path
last_value is_flag path (a ∷ b ∷ args) =
    last_value is_flag (if is_flag a then b else path) (b ∷ args)

-- The configuration that `cmd_validate_config` loads.
unfoldable pub validated_path : List CString → CString
unfolding last_value
validated_path argv = last_value is_config_flag default_path (drop 2 argv)

-- What `main` of the tool runs.
pub data Subcommand : Type 0 where
  validate_config status storage_stats usage : Subcommand

unfoldable pub subcommand : List CString → Subcommand
subcommand [] = usage
subcommand (prog ∷ []) = usage
subcommand (prog ∷ cmd ∷ args) =
    if str_eq cmd (literal "validate-config")
    then validate_config
    else if str_eq cmd (literal "status")
    then status
    else if str_eq cmd (literal "storage-stats")
    then storage_stats
    else usage

-- How many flags have an argument behind them.
abbrev pub flags : List CString → ℕ
flags [] = 0
flags (a ∷ []) = 0
flags (a ∷ b ∷ args) = let n = flags (b ∷ args) in if is_config_flag a then suc n else n

last_value_none :
    (path : CString) (args : List CString)
    → flags args ≡ 0
    → last_value is_config_flag path args ≡ path
unfolding last_value
last_value_none path [] h = refl
last_value_none path (a ∷ []) h = refl
last_value_none path (a ∷ b ∷ args) h = elim (Bool-cases (is_config_flag a)) [
  | inl flag ↦ absurd (omega (arith, (rw flag at h)))
  | inr other ↦ rw (other, last_value) (last_value_none path (b ∷ args) (rw other at h))
]

first-last :
    (path : CString) (args : List CString)
    → flags args ≤ 1
    → first_value path args ≡ last_value is_config_flag path args
unfolding first_value last_value
first-last path [] h = refl
first-last path (a ∷ []) h = refl
first-last path (a ∷ b ∷ args) h = elim (Bool-cases (is_config_flag a)) [
  | inl flag ↦
      rw (flag, first_value, last_value)
        (sym (last_value_none b (b ∷ args) (omega (arith, (rw flag at h)))))
  | inr other ↦ rw (other, first_value, last_value) (first-last path (b ∷ args) (rw other at h))
]

-- With the flag for the configuration given at most once, the file that the tool validates is the
-- file that the gateway loads.
pub validated-parse :
    (prog tool cmd : CString) (args : List CString)
    → flags args ≤ 1
    → parse_config_path (prog ∷ args) ≡ validated_path (tool ∷ cmd ∷ args)
unfolding parse_config_path validated_path
validated-parse prog tool cmd args h = first-last default_path args h

-- ===== src/Config/File.antt =====
-- `read_file` of platform/config.c, and the loading of a configuration by the path of its file.
use edgeflow_energy_gateway.Common.{
  ℕ, ◌+◌, ◌≡◌, Bool, Bool-cases, Option, none, some, Option-cases, inl, inr, length, ◌==◌, arith,
  if◌then◌else◌,
}
use edgeflow_energy_gateway.Floats.{Floats}
use edgeflow_energy_gateway.Text.{CString, literal}
use edgeflow_energy_gateway.Model.Types.{GatewayConfig}
use edgeflow_energy_gateway.Files.{Files}
use edgeflow_energy_gateway.Files.Kept.{CountsStreams}
use edgeflow_energy_gateway.Config.{Cjson, gateway_config_load}

module _ {W : Type 0} (files : Files W) where
  -- From the length of the file on; `memory` says that `calloc` succeeds.
  unfoldable pub read_sized : Bool → ℕ → ℕ → W → Option CString × W
  read_sized memory fp size w =
      let (at_start, w₁) = files.seek_start fp w in
      let (buf, w₂) = files.fread fp size w₁ in
      let text = if length buf == size then some buf else none in
      if at_start
      then (if memory then (text, files.fclose fp w₂) else (none, files.fclose fp w₁))
      else (none, files.fclose fp w₁)

  -- From the open file on.
  unfoldable pub read_open : Bool → ℕ → W → Option CString × W
  unfolding read_sized
  read_open memory fp w =
      let (at_end, w₁) = files.seek_end fp w in
      let w₂ = (files.ftell fp w₁).1 in
      let sized : Option CString × W = elim (files.ftell fp w₁).0 [
        | none ↦ (none, files.fclose fp w₂)
        | some size ↦ read_sized memory fp size w₂
      ] in
      if at_end then sized else (none, files.fclose fp w₁)

  unfoldable pub read_file : Bool → CString → W → Option CString × W
  unfolding read_open
  read_file memory path w = elim (files.fopen path (literal "rb") w).0 [
    | none ↦ (none, (files.fopen path (literal "rb") w).1)
    | some fp ↦ read_open memory fp (files.fopen path (literal "rb") w).1
  ]

  -- `gateway_config_load` with the path as its argument.
  unfoldable pub load_path :
      {J : Type 0} ⦃f : Floats⦄
      → Cjson J f.Double
      → Bool
      → CString
      → W
      → Bool × GatewayConfig f.Double × W
  unfolding read_file
  load_path cjson memory path w =
      let (text, w₁) = read_file memory path w in
      let (ok, cfg) = gateway_config_load cjson text in (ok, cfg, w₁)

module _ {W : Type 0} (files : Files W) (streams : W → ℕ)
    (counts : CountsStreams files streams) where
  streams-read_sized :
      (memory : Bool) (fp size before : ℕ) (w : W)
      → streams w ≡ before + 1
      → streams (read_sized files memory fp size w).1 ≡ before
  unfolding read_sized
  streams-read_sized memory fp size before w h =
      let w₁ = (files.seek_start fp w).1 in
      let w₂ = (files.fread fp size w₁).1 in
      ground (
        arith,
        h,
        counts.streams-seek_start fp w,
        counts.streams-fread fp size w₁,
        counts.streams-fclose fp w₁,
        counts.streams-fclose fp w₂,
      )

  streams-read_open :
      (memory : Bool) (fp before : ℕ) (w : W)
      → streams w ≡ before + 1
      → streams (read_open files memory fp w).1 ≡ before
  unfolding read_open
  streams-read_open memory fp before w h =
      let (at_end, w₁) = files.seek_end fp w in
      let w₂ = (files.ftell fp w₁).1 in
      let sought = counts.streams-seek_end fp w in
      let told = counts.streams-ftell fp w₁ in
      elim (Bool-cases at_end) [
        | inr failed ↦
            rw (failed, read_open) (omega (arith, h, sought, counts.streams-fclose fp w₁))
        | inl done ↦ elim (Option-cases (files.ftell fp w₁).0) [
          | inl e ↦
              rw (done, e, read_open) (omega (arith, h, sought, told, counts.streams-fclose fp w₂))
          | inr (size, e) ↦
              rw (done, e, read_open)
                (streams-read_sized memory fp size before w₂ (omega (arith, h, sought, told)))
        ]
      ]

  streams-read_file :
      (memory : Bool) (path : CString) (w : W)
      → streams (read_file files memory path w).1 ≡ streams w
  unfolding read_file
  streams-read_file memory path w =
      let w₁ = (files.fopen path (literal "rb") w).1 in
      elim (Option-cases (files.fopen path (literal "rb") w).0) [
        | inl e ↦ rw (e, read_file) (counts.not_opened path (literal "rb") w e)
        | inr (fp, e) ↦
            rw (e, read_file)
              (streams-read_open memory fp (streams w) w₁
                (counts.opened path (literal "rb") w fp e))
      ]

  -- Loading a configuration closes its file, on whichever path it ends.
  pub streams-load_path :
      {J : Type 0} ⦃f : Floats⦄ (cjson : Cjson J f.Double) (memory : Bool) (path : CString) (w : W)
      → streams (load_path files cjson memory path w).2 ≡ streams w
  unfolding load_path
  streams-load_path cjson memory path w = streams-read_file memory path w

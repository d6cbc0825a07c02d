-- ===== src/Programs/Tool/Status.antt =====
-- What `cmd_status` of cli/main.c shows of a metrics file.
use edgeflow_energy_gateway.Common.{
  ℕ, zero, suc, ◌-◌, ◌<◌, ◌≡◌, refl, ap, sym, ◌∙◌, true, false, Bool-cases, inl, inr, Option-cases,
  some-injective, none, some, List, [], ◌∷◌, ◌++◌, append-nil, append_assoc, length, drop, All,
  arith, if◌then◌else◌,
}
use mathlib.Core.Option.{map}
use edgeflow_energy_gateway.Text.{CString, literal, concat}
use edgeflow_energy_gateway.Metrics.{GatewayMetrics, metrics_lines}
use edgeflow_energy_gateway.Programs.Tool.{
  Tool, last_given, is_comment, status_title, show_lines, show_file, cmd_status,
}
use edgeflow_energy_gateway.Programs.Tool.Lines.{
  first_chunk, ends_line, IsLine, first_chunk-line, metrics_lines-IsLine,
}

-- `text w` is what is left to read of the open file, and `out w` what has been printed, as the C
-- library documents its streams.
pub record IsStream {W : Type 0} (tool : Tool W) (text out : W → CString) : Type 0 where
  pub end_of_file : (fp n : ℕ) (w : W) → text w ≡ [] → (tool.fgets fp n w).0 ≡ none
  pub line :
      (fp n b : ℕ) (s : CString) (w : W)
      → text w ≡ b ∷ s
      → let (got, rest) = first_chunk (n - 1) (b ∷ s) in
        ((tool.fgets fp n w).0 ≡ some got) × (text (tool.fgets fp n w).1 ≡ rest)
  pub out-fgets : (fp n : ℕ) (w : W) → out (tool.fgets fp n w).1 ≡ out w
  pub out-fclose : (fp : ℕ) (w : W) → out (tool.fclose fp w) ≡ out w
  pub out-print : (s : CString) (w : W) → out (tool.print s w) ≡ out w ++ s
  pub text-print : (s : CString) (w : W) → text (tool.print s w) ≡ text w

-- The lines that are not comments.
abbrev pub visible : List CString → CString
visible [] = []
visible (l ∷ ls) = if is_comment l then visible ls else l ++ visible ls

no_empty_line : IsLine [] → true ≡ false
unfolding ends_line
no_empty_line h = sym h

twelve : (m : GatewayMetrics) (fuel : ℕ) → 12 < fuel → length (metrics_lines m) < fuel
unfolding metrics_lines
twelve m fuel h = h

module _ {W : Type 0} (tool : Tool W) (text out : W → CString)
    (stream : IsStream tool text out) where
  -- With more fuel than lines the loop ends, having printed the lines that are not comments.
  show_lines-visible :
      (fuel fp : ℕ) (ls : List CString) (w : W)
      → length ls < fuel
      → All IsLine ls
      → text w ≡ concat ls
      → map out (show_lines tool fuel fp w) ≡ some (out w ++ visible ls)
  unfolding show_lines
  show_lines-visible zero fp ls w h k e = absurd (omega arith)
  show_lines-visible (suc fuel) fp [] w h k e =
      rw (stream.end_of_file fp 512 w e, show_lines)
        (ap (λ (o : CString). some o) (stream.out-fgets fp 512 w ∙ sym (append-nil (out w))))
  show_lines-visible (suc fuel) fp ([] ∷ ls) w h k e = let clash = no_empty_line k.0 in cc
  show_lines-visible (suc fuel) fp ((b ∷ l) ∷ ls) w h k e =
      let cut = first_chunk-line 511 (b ∷ l) (concat ls) k.0 in
      let (got, left) = stream.line fp 512 b (l ++ concat ls) w e in
      let w₁ = (tool.fgets fp 512 w).1 in
      let shown : (tool.fgets fp 512 w).0 ≡ some (b ∷ l) =
        got ∙ ap (λ (p : CString × CString). some p.0) cut in
      let rest : text w₁ ≡ concat ls = left ∙ ap (λ (p : CString × CString). p.1) cut in
      elim (Bool-cases (is_comment (b ∷ l))) [
        | inl comment ↦
            rw (shown, comment, show_lines)
              (show_lines-visible fuel fp ls w₁ (omega arith) k.1 rest
                ∙ ap (λ (o : CString). some (o ++ visible ls)) (stream.out-fgets fp 512 w))
        | inr plain ↦
            let w₂ = tool.print (b ∷ l) w₁ in
            rw (shown, plain, show_lines)
              (show_lines-visible fuel fp ls w₂ (omega arith) k.1
                  (stream.text-print (b ∷ l) w₁ ∙ rest)
                ∙ ap (λ (o : CString). some (o ++ visible ls))
                    (stream.out-print (b ∷ l) w₁
                      ∙ ap (λ (o : CString). o ++ (b ∷ l)) (stream.out-fgets fp 512 w))
                ∙ ap some (append_assoc (out w) (b ∷ l) (visible ls)))
      ]

  -- The subcommand on a file of lines that its flag names.
  cmd_status-visible :
      (fuel fp : ℕ) (path : CString) (argv ls : List CString) (w : W)
      → last_given (literal "--metrics") none (drop 2 argv) ≡ some path
      → (tool.fopen path (literal "r") w).0 ≡ some fp
      → text (tool.fopen path (literal "r") w).1 ≡ concat ls
      → All IsLine ls
      → length ls < fuel
      → map {B = ℕ × CString} (λ (r : ℕ × W). (r.0, out r.1)) (cmd_status tool fuel argv w)
        ≡ some (0, (out (tool.fopen path (literal "r") w).1 ++ status_title path) ++ visible ls)
  unfolding cmd_status show_file
  cmd_status-visible fuel fp path argv ls w given opened e k h =
      let w₁ = (tool.fopen path (literal "r") w).1 in
      let w₂ = tool.print (status_title path) w₁ in
      let shown =
        show_lines-visible fuel fp ls w₂ h k (stream.text-print (status_title path) w₁ ∙ e) in
      elim (Option-cases (show_lines tool fuel fp w₂)) [
        | inl stuck ↦ cc (rw stuck at shown)
        | inr (w₃, done) ↦
            rw (given, opened, done, cmd_status, show_file)
              (ap (λ (o : CString). some (0, o))
                (stream.out-fclose fp w₃
                  ∙ some-injective _ _ (rw done at shown)
                  ∙ ap (λ (o : CString). o ++ visible ls)
                      (stream.out-print (status_title path) w₁)))
      ]

  visible-metrics_lines :
      (m : GatewayMetrics) → visible (metrics_lines m) ≡ concat (drop 1 (metrics_lines m))
  unfolding metrics_lines
  visible-metrics_lines m = refl

  -- On a file that holds what `metrics_write_file` prints, the subcommand `status` prints its title and
  -- every line of a metric, whole and in order, and leaves out the comment; its exit code is 0. Fuel
  -- for more than the twelve lines is enough.
  pub cmd_status-metrics_lines :
      (fuel fp : ℕ) (path : CString) (argv : List CString) (m : GatewayMetrics) (w : W)
      → last_given (literal "--metrics") none (drop 2 argv) ≡ some path
      → (tool.fopen path (literal "r") w).0 ≡ some fp
      → text (tool.fopen path (literal "r") w).1 ≡ concat (metrics_lines m)
      → 12 < fuel
      → map {B = ℕ × CString} (λ (r : ℕ × W). (r.0, out r.1)) (cmd_status tool fuel argv w)
        ≡ some (
          0,
          (out (tool.fopen path (literal "r") w).1 ++ status_title path)
              ++ concat (drop 1 (metrics_lines m)),
        )
  cmd_status-metrics_lines fuel fp path argv m w given opened e h =
      cmd_status-visible fuel fp path argv (metrics_lines m) w given opened e
        (metrics_lines-IsLine m) (twelve m fuel h)
      ∙ ap
          (λ (v : CString).
            some (0, (out (tool.fopen path (literal "r") w).1 ++ status_title path) ++ v))
          (visible-metrics_lines m)

-- ===== src/Programs/Tool/Tests.antt =====
-- The theorems on the tool of cli/main.c, at a concrete file and database.
use edgeflow_energy_gateway.Common.{
  ℕ, ◌+◌, ◌-◌, ◌≡◌, refl, arith, true, none, some, List, [], ◌∷◌, ◌++◌, drop, length, ap, Option,
  ltb, if◌then◌else◌,
}
use mathlib.Core.Option.{map}
use edgeflow_energy_gateway.Floats.Scaled.{scaled}
use edgeflow_energy_gateway.Text.{CString, literal, concat, str_eq}
use edgeflow_energy_gateway.Metrics.{metrics_init, metrics_lines}
use edgeflow_energy_gateway.Programs.Tool.{Tool, last_given, status_title, cmd_status}
use edgeflow_energy_gateway.Programs.Tool.Lines.{first_chunk}
use edgeflow_energy_gateway.Programs.Tool.Status.{IsStream, cmd_status-metrics_lines}

-- What is left of the open file, what has been printed, and the open database connections.
record Desk : Type 0 where
  text : CString
  out : CString
  handles : ℕ

abbrev read_chunk : ℕ → CString → Option CString × CString
read_chunk n [] = (none, [])
read_chunk n (b ∷ s) = let (got, rest) = first_chunk (n - 1) (b ∷ s) in (some got, rest)

-- The file of the fresh counters, and a database where two queries fail.
abbrev tool : Tool Desk
tool = record {
  fopen = λ path mode w. (some 5, record w { text = concat (metrics_lines metrics_init) });
  fgets = λ fp n w. let (got, rest) = read_chunk n w.text in (got, record w { text = rest });
  fclose = λ fp w. w;
  print = λ s w. record w { out = w.out ++ s };
  complain = λ s w. w;
  open_db = λ path w. (true, record w { handles = w.handles + 1 });
  count = λ query w. (if ltb 40 (length query) then none else some 9, w);
  close_db = λ w. record w { handles = w.handles - 1 };
}

chunk_read :
    (n b : ℕ) (s t : CString)
    → t ≡ b ∷ s
    → let (got, rest) = first_chunk (n - 1) (b ∷ s) in
      ((read_chunk n t).0 ≡ some got) × ((read_chunk n t).1 ≡ rest)
chunk_read n b s [] e = cc
chunk_read n b s (c ∷ t) e =
    (ap (λ (u : CString). (read_chunk n u).0) e, ap (λ (u : CString). (read_chunk n u).1) e)

end_read : (n : ℕ) (t : CString) → t ≡ [] → (read_chunk n t).0 ≡ none
end_read n t e = ap (λ (u : CString). (read_chunk n u).0) e

tool-IsStream : IsStream tool (λ w. w.text) (λ w. w.out)
tool-IsStream = record {
  end_of_file = λ fp n w e. end_read n w.text e;
  line = λ fp n b s w e. chunk_read n b s w.text e;
  out-fgets = λ fp n w. refl;
  out-fclose = λ fp w. refl;
  out-print = λ s w. refl;
  text-print = λ s w. refl;
}

abbrev desk : Desk
desk = record { text = []; out = []; handles = 3 }

abbrev status_args : List CString
status_args = literal "cli" ∷ literal "status" ∷ literal "--metrics" ∷ literal "m.prom" ∷ []

names_file : last_given (literal "--metrics") none (drop 2 status_args) ≡ some (literal "m.prom")
unfolding last_given str_eq
names_file = refl

cmd_status-metrics_lines_example :
    map {B = ℕ × CString} (λ (r : ℕ × Desk). (r.0, r.1.out)) (cmd_status tool 20 status_args desk)
    ≡ some
        (0, ([] ++ status_title (literal "m.prom")) ++ concat (drop 1 (metrics_lines metrics_init)))
cmd_status-metrics_lines_example =
    cmd_status-metrics_lines tool (λ w. w.text) (λ w. w.out) tool-IsStream 20 5 (literal "m.prom")
      status_args metrics_init desk names_file refl refl (omega arith)

-- ===== src/Programs/Tool/Stats.antt =====
-- The database connection of `cmd_storage_stats` of cli/main.c.
use edgeflow_energy_gateway.Common.{
  ℕ, ◌+◌, ◌≤◌, ◌≡◌, refl, ◌∙◌, Bool-cases, none, some, Option-cases, inl, inr, List, [], ◌∷◌, drop,
  arith, if◌then◌else◌,
}
use edgeflow_energy_gateway.Text.{CString, literal}
use edgeflow_energy_gateway.Programs.Tool.{
  Tool, last_given, queries, stat_line, stats_title, print_stats, cmd_storage_stats,
}

-- `handles w` counts the connections that have not been closed. As SQLite documents it, a
-- connection is to be closed whether or not opening it was successful.
pub record CountsConnections {W : Type 0} (tool : Tool W) (handles : W → ℕ) : Type 0 where
  pub handles-open : (path : CString) (w : W) → handles (tool.open_db path w).1 ≡ handles w + 1
  pub handles-count : (query : CString) (w : W) → handles (tool.count query w).1 ≡ handles w
  pub handles-close : (w : W) → 1 ≤ handles w → handles (tool.close_db w) + 1 ≡ handles w
  pub handles-print : (text : CString) (w : W) → handles (tool.print text w) ≡ handles w
  pub handles-complain : (text : CString) (w : W) → handles (tool.complain text w) ≡ handles w

module _ {W : Type 0} (tool : Tool W) (handles : W → ℕ)
    (counts : CountsConnections tool handles) where
  handles-print_stats :
      (qs : List (CString × CString)) (w : W) → handles (print_stats tool qs w) ≡ handles w
  unfolding print_stats
  handles-print_stats [] w = refl
  handles-print_stats ((query, label) ∷ qs) w =
      let w₁ = (tool.count query w).1 in
      let asked = counts.handles-count query w in
      elim (Option-cases (tool.count query w).0) [
        | inl e ↦ rw (e, print_stats) (handles-print_stats qs w₁ ∙ asked)
        | inr (n, e) ↦
            rw (e, print_stats)
              (handles-print_stats qs (tool.print (stat_line label n) w₁)
                ∙ counts.handles-print (stat_line label n) w₁
                ∙ asked)
      ]

  -- The connections that a call leaves open: one if the database cannot be opened.
  abbrev pub left_open : List CString → W → ℕ
  left_open argv w = elim (last_given (literal "--sqlite") none (drop 2 argv)) [
    | none ↦ 0
    | some path ↦ if (tool.open_db path w).0 then 0 else 1
  ]

  -- `cmd_storage_stats` closes the connection that it opens, whichever of its queries fail; but where
  -- the database cannot be opened, it leaves the connection open.
  pub handles-storage_stats :
      (argv : List CString) (w : W)
      → handles (cmd_storage_stats tool argv w).1 ≡ handles w + left_open argv w
  unfolding cmd_storage_stats
  handles-storage_stats argv w =
      elim (Option-cases (last_given (literal "--sqlite") none (drop 2 argv))) [
        | inl e ↦ rw (e, cmd_storage_stats, left_open) (omega (arith, counts.handles-complain _ w))
        | inr (path, e) ↦
            let w₁ = (tool.open_db path w).1 in
            let titled = tool.print (stats_title path) w₁ in
            let closed = counts.handles-close (print_stats tool queries titled) in
            let held =
              handles-print_stats queries titled
              ∙ counts.handles-print (stats_title path) w₁
              ∙ counts.handles-open path w in
            elim (Bool-cases (tool.open_db path w).0) [
              | inl good ↦ rw (e, good, cmd_storage_stats, left_open) (omega (arith, held, closed))
              | inr bad ↦
                  rw (e, bad, cmd_storage_stats, left_open)
                    (counts.handles-complain _ w₁ ∙ counts.handles-open path w)
            ]
      ]

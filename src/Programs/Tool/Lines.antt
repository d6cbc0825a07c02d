-- ===== src/Programs/Tool/Lines.antt =====
-- The lines of a text file, as `fgets` of cli/main.c reads them and platform/metrics.c writes them.
use edgeflow_energy_gateway.Common.{
  ℕ, zero, suc, ◌+◌, ◌/◌, ◌%◌, ◌≤◌, ◌≡◌, refl, ap, Bool, true, false, Bool-cases, ◌==◌, ◌&&◌, not,
  inl, inr, [], ◌∷◌, ◌++◌, length, All, ltb, leb, arith, if◌then◌else◌,
}
use edgeflow_energy_gateway.Text.{CString, literal, print_from, print_ℕ}
use edgeflow_energy_gateway.Metrics.{GatewayMetrics, metric_line, metrics_lines}

-- What `fgets` takes of a text with room for `n` bytes, and what it leaves.
unfoldable pub first_chunk : ℕ → CString → CString × CString
first_chunk zero s = ([], s)
first_chunk (suc n) [] = ([], [])
first_chunk (suc n) (b ∷ s) =
    let (line, rest) = first_chunk n s in if b == 10 then (b ∷ [], s) else (b ∷ line, rest)

-- The text is one line of at most `n` bytes, its end included.
unfoldable pub ends_line : ℕ → CString → Bool
ends_line zero s = false
ends_line (suc n) [] = false
ends_line (suc n) (b ∷ []) = b == 10
ends_line (suc n) (b ∷ c ∷ s) = not (b == 10) && ends_line n (c ∷ s)

-- A line that fits into the buffer of `cmd_status`.
abbrev pub IsLine : CString → Type 0
IsLine s = ends_line 511 s ≡ true

pub first_chunk-line :
    (n : ℕ) (line rest : CString)
    → ends_line n line ≡ true
    → first_chunk n (line ++ rest) ≡ (line, rest)
unfolding first_chunk ends_line
first_chunk-line zero line rest h = cc
first_chunk-line (suc n) [] rest h = cc
first_chunk-line (suc n) (b ∷ []) rest h = rw (h, first_chunk) refl
first_chunk-line (suc n) (b ∷ c ∷ s) rest h = elim (Bool-cases (b == 10)) [
  | inl newline ↦ cc (rw (newline, ends_line) at h)
  | inr other ↦
      rw (other, first_chunk)
        (ap (λ (p : CString × CString). (b ∷ p.0, p.1))
          (first_chunk-line n (c ∷ s) rest (rw (other, ends_line) at h)))
]

ends_line-cons :
    (n b : ℕ) (s : CString)
    → b == 10 ≡ false
    → ends_line n s ≡ true
    → ends_line (suc n) (b ∷ s) ≡ true
unfolding ends_line
ends_line-cons zero b s e h = cc
ends_line-cons (suc n) b [] e h = cc
ends_line-cons (suc n) b (c ∷ s) e h = rw (e, ends_line) h

ends_line-weaken : (n m : ℕ) (s : CString) → n ≤ m → ends_line n s ≡ true → ends_line m s ≡ true
unfolding ends_line
ends_line-weaken zero m s le h = cc
ends_line-weaken (suc n) zero s le h = absurd (omega arith)
ends_line-weaken (suc n) (suc m) [] le h = cc
ends_line-weaken (suc n) (suc m) (b ∷ []) le h = h
ends_line-weaken (suc n) (suc m) (b ∷ c ∷ s) le h = elim (Bool-cases (b == 10)) [
  | inl newline ↦ cc (rw (newline, ends_line) at h)
  | inr other ↦
      ends_line-cons m b (c ∷ s) other
        (ends_line-weaken n m (c ∷ s) (omega arith) (rw (other, ends_line) at h))
]

-- A name with no end of line in it.
abbrev pub is_plain : CString → Bool
is_plain [] = true
is_plain (b ∷ s) = not (b == 10) && is_plain s

ends_line-plain :
    (n m : ℕ) (name s : CString)
    → length name + n ≤ m
    → is_plain name ≡ true
    → ends_line n s ≡ true
    → ends_line m (name ++ s) ≡ true
ends_line-plain n m [] s le p h = ends_line-weaken n m s (omega arith) h
ends_line-plain n zero (b ∷ name) s le p h = absurd (omega arith)
ends_line-plain n (suc m) (b ∷ name) s le p h = elim (Bool-cases (b == 10)) [
  | inl newline ↦ cc (rw newline at p)
  | inr other ↦
      ends_line-cons m b (name ++ s) other
        (ends_line-plain n m name s (omega arith) (rw other at p) h)
]

digit_plain : (d : ℕ) → (48 + d) == 10 ≡ false
digit_plain d = ground arith

-- Digits do not end a line.
ends_line-print_from :
    (k n m r : ℕ) (acc t : CString)
    → k + m ≤ r
    → ends_line m (acc ++ t) ≡ true
    → ends_line r (print_from k n acc ++ t) ≡ true
unfolding print_from
ends_line-print_from zero n m r acc t le h = ends_line-weaken m r (acc ++ t) (omega arith) h
ends_line-print_from (suc k) n m r acc t le h =
    let d = n % 10 in
    let more = ends_line-cons m (48 + d) (acc ++ t) (digit_plain d) h in
    elim (Bool-cases (ltb n 10)) [
      | inl last ↦
          rw (last, print_from)
            (ends_line-weaken (suc m) r ((48 + d) ∷ (acc ++ t)) (omega arith) more)
      | inr next ↦
          rw (next, print_from)
            (ends_line-print_from k (n / 10) (suc m) r ((48 + d) ∷ acc) t (omega arith) more)
    ]

end_alone : ends_line 1 (literal "\n" ++ []) ≡ true
unfolding ends_line
end_alone = refl

number_ends : (n : ℕ) → ends_line 21 (print_ℕ n ++ (literal "\n" ++ [])) ≡ true
unfolding print_ℕ
number_ends n = ends_line-print_from 20 n 1 21 [] (literal "\n" ++ []) (omega arith) end_alone

-- A line of a metric fits, whatever its number.
metric_line-IsLine :
    (name : CString) (n : ℕ)
    → leb (length name) 480 ≡ true
    → is_plain name ≡ true
    → IsLine (metric_line name n)
metric_line-IsLine name n short plain =
    let number = print_ℕ n ++ (literal "\n" ++ []) in
    ends_line-plain 22 511 name (32 ∷ number) (ground arith) plain
      (ends_line-cons 21 32 number refl (number_ends n))

help_IsLine :
    IsLine (literal "# HELP edgeflow_ingress_points_total Total ingress telemetry points\n")
unfolding ends_line
help_IsLine = refl

-- Each line that `metrics_write_file` prints is a line for `cmd_status`.
pub metrics_lines-IsLine : (m : GatewayMetrics) → All IsLine (metrics_lines m)
unfolding metrics_lines
metrics_lines-IsLine m = (
  help_IsLine,
  (
    metric_line-IsLine (literal "edgeflow_ingress_points_total") m.ingress_points refl refl,
    (
      metric_line-IsLine (literal "edgeflow_processed_points_total") m.processed_points refl refl,
      (
        metric_line-IsLine (literal "edgeflow_mqtt_publish_ok_total") m.mqtt_publish_ok refl refl,
        (
          metric_line-IsLine (literal "edgeflow_mqtt_publish_fail_total") m.mqtt_publish_fail refl
              refl,
          (
            metric_line-IsLine (literal "edgeflow_mqtt_replay_total") m.mqtt_replay_total refl refl,
            (
              metric_line-IsLine (literal "edgeflow_queue_depth") m.queue_depth refl refl,
              (
                metric_line-IsLine (literal "edgeflow_queue_dropped_total") m.queue_dropped refl
                    refl,
                (
                  metric_line-IsLine (literal "edgeflow_storage_pending_count")
                      m.storage_pending_count refl refl,
                  (
                    metric_line-IsLine (literal "edgeflow_heartbeat_ingress_age_ms")
                        m.heartbeat_ingress_age_ms refl refl,
                    (
                      metric_line-IsLine (literal "edgeflow_heartbeat_worker_age_ms")
                          m.heartbeat_worker_age_ms refl refl,
                      (
                        metric_line-IsLine (literal "edgeflow_heartbeat_monitor_age_ms")
                            m.heartbeat_monitor_age_ms refl refl,
                        tt,
                      ),
                    ),
                  ),
                ),
              ),
            ),
          ),
        ),
      ),
    ),
  ),
)

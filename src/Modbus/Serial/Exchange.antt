-- ===== src/Modbus/Serial/Exchange.antt =====
-- What `modbus_serial_exchange` of ingress/modbus_serial.c promises, and when it stops reading.
use edgeflow_energy_gateway.Common.{
  ℕ, zero, suc, ◌+◌, ◌-◌, ◌≤◌, ◌≡◌, ◌≢◌, refl, sym, ◌⊎◌, inl, inr, Bool-cases, true, Option, none,
  some, List, [], ◌∷◌, ◌++◌, leb, length, length-append, All, arith,
}
use mathlib.Core.Path.{subst}
use edgeflow_energy_gateway.Modbus.Crc.{accepts_frame}
use edgeflow_energy_gateway.Modbus.Crc.Steps.{IsByte}
use edgeflow_energy_gateway.Modbus.Serial.{
  ReadResult, got, again, failed, Port, IsPort, Reading, read_bytes, read_error, read_stuck,
  Exchanged, reply, refused, stuck, checked, read_more, read_with_timeout, modbus_serial_exchange,
}

ReadResult-cases :
    (r : ReadResult) → ((bytes : List ℕ) × (r ≡ got bytes)) ⊎ ((r ≡ again) ⊎ (r ≡ failed))
ReadResult-cases (got bytes) = inl (bytes, refl)
ReadResult-cases again = inr (inl refl)
ReadResult-cases failed = inr (inr refl)

All-join : (xs ys : List ℕ) → All IsByte xs → All IsByte ys → All IsByte (xs ++ ys)
All-join [] ys h k = k
All-join (x ∷ xs) ys h k = (h.0, All-join xs ys h.1 k)

-- What a reading may leave: not the fuel's end, and if bytes, then at most `max` of them.
abbrev Sensible : ℕ → Reading → Type 0
Sensible max (read_bytes bytes) = (length bytes ≤ max) × All IsByte bytes
Sensible max read_error = Unit {0}
Sensible max read_stuck = ⊥

module _ {W : Type 0} (port : Port W) (ok : IsPort port) where
  read_more-Sensible :
      (fuel fd max ms : ℕ) (total : List ℕ) (w : W)
      → length total ≤ max
      → All IsByte total
      → max - length total + port.patience w ≤ fuel
      → Sensible max (read_more port fuel fd max ms total w).0
  unfolding read_more
  read_more-Sensible zero fd max ms total w room bytes h = ground arith
  read_more-Sensible (suc fuel) fd max ms total w room bytes h =
      elim (Bool-cases (leb max (length total))) [
        | inl full ↦ rw (full, read_more) (room, bytes)
        | inr space ↦ elim (Bool-cases (port.select fd ms w).0) [
          | inr quiet ↦ rw (space, quiet, read_more) (room, bytes)
          | inl ready ↦
              elim (ReadResult-cases
                (port.read fd (max - length total) (port.select fd ms w).1).0) [
                  | inr (inr e) ↦ rw (space, ready, e, read_more) tt
                  | inr (inl e) ↦
                      rw (space, ready, e, read_more)
                        (read_more-Sensible fuel fd max ms total
                          (port.read fd (max - length total) (port.select fd ms w).1).1 room bytes
                          (omega (
                            arith,
                            ok.patience-select fd ms w,
                            ok.patience_used fd (max - length total) (port.select fd ms w).1 e,
                          )))
                  | inl ([], e) ↦ rw (space, ready, e, read_more) (room, bytes)
                  | inl (b ∷ more, e) ↦
                      let w₁ = (port.select fd ms w).1 in
                      let left = max - length total in
                      let longer = total ++ (b ∷ more) in
                      let fits : length longer ≤ max = ground (
                        arith,
                        ok.read-room fd left w₁ (b ∷ more) e,
                        length-append total (b ∷ more),
                      ) in
                      let good =
                        All-join total (b ∷ more) bytes (ok.read-IsByte fd left w₁ (b ∷ more) e) in
                      elim (Bool-cases (leb 5 (length longer))) [
                        | inl enough ↦ rw (space, ready, e, enough, read_more) (fits, good)
                        | inr short ↦
                            rw (space, ready, e, short, read_more)
                              (read_more-Sensible fuel fd max ms longer (port.read fd left w₁).1
                                fits good
                                (ground (
                                  arith,
                                  ok.patience-select fd ms w,
                                  ok.patience-read fd left w₁,
                                  length-append total (b ∷ more),
                                )))
                      ]
                ]
        ]
      ]

  read_with_timeout-Sensible :
      (fd max ms : ℕ) (w : W) → Sensible max (read_with_timeout port fd max ms w).0
  unfolding read_with_timeout
  read_with_timeout-Sensible fd max ms w =
      read_more-Sensible (max + port.patience w) fd max ms [] w (omega arith) tt (omega arith)

  -- What an exchange promises of its answer.
  abbrev Kept : ℕ → Exchanged → Type 0
  Kept max answer =
      (answer ≢ stuck)
      × ((response : List ℕ)
          → answer ≡ reply response
          → (length response ≤ max) × All IsByte response × (accepts_frame response ≡ true))

  checked-Kept : (max : ℕ) (r : Reading) → Sensible max r → Kept max (checked r)
  checked-Kept max (read_bytes bytes) (room, good) = elim (Bool-cases (accepts_frame bytes)) [
    | inr bad ↦ rw (bad, checked) ((λ e. cc), (λ response e. cc))
    | inl fine ↦ rw (fine, checked) ((λ e. cc), (λ response e. ground (arith, room, good, fine)))
  ]
  checked-Kept max read_error h = ((λ e. cc), (λ response e. cc))
  checked-Kept max read_stuck h = elim h [ ]

  exchange-cases :
      (fd : ℕ) (request : List ℕ) (response_max ms : ℕ) (w : W)
      → let answer = (modbus_serial_exchange port (some fd) request response_max ms w).0 in
        let response = (read_with_timeout port fd response_max ms (port.write fd request w).1).0 in
        (answer ≡ refused) ⊎ (answer ≡ checked response)
  unfolding modbus_serial_exchange
  exchange-cases fd request response_max ms w = ground arith

  -- An exchange always ends, whatever the line does, if it does not interrupt reads for ever; and
  -- a reply that it returns is of bytes, at most `response_max`, and passes the check of a frame.
  pub exchange-accepts_frame :
      (fd : Option ℕ) (request : List ℕ) (response_max ms : ℕ) (w : W)
      → let answer = (modbus_serial_exchange port fd request response_max ms w).0 in
        (answer ≢ stuck)
        × ((response : List ℕ)
            → answer ≡ reply response
            → (length response ≤ response_max)
              × All IsByte response
              × (accepts_frame response ≡ true))
  unfolding modbus_serial_exchange
  exchange-accepts_frame none request response_max ms w = ((λ e. cc), (λ response e. cc))
  exchange-accepts_frame (some fd) request response_max ms w =
      elim (exchange-cases fd request response_max ms w) [
        | inl e ↦ subst (Kept response_max) (sym e) ((λ q. cc), (λ response q. cc))
        | inr e ↦
            subst (Kept response_max) (sym e)
              (checked-Kept response_max _ (read_with_timeout-Sensible fd response_max ms _))
      ]

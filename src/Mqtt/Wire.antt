-- ===== src/Mqtt/Wire.antt =====
-- The socket calls of egress/mqtt_session.c: `mqtt_write_all`, `mqtt_open_tcp` and the packets sent
-- through them. `Transport` stands for the operating system.
use edgeflow_energy_gateway.Common.{
  ℕ, zero, suc, ◌+◌, ◌-◌, ◌≤◌, ◌<◌, ◌≡◌, ◌≢◌, refl, sym, ap, ◌∙◌, ◌⊎◌, inl, inr, append-nil,
  append_assoc, take, Bool, true, false, Option, none, some, List, [], ◌∷◌, ◌++◌, length, drop,
  get_or, ltb, ◌==◌, ◌&&◌, arith, if◌then◌else◌,
}
use edgeflow_energy_gateway.Text.{CString}
use edgeflow_energy_gateway.Model.Types.{GatewayConfig}
use edgeflow_energy_gateway.Mqtt.Packet.{publish_packet, connect_packet, ping_packet}

-- The answer of write(2): a count, EINTR, or another error.
pub data WriteResult : Type 0 where
  wrote : ℕ → WriteResult
  interrupted : WriteResult
  failed : WriteResult

pub record Transport (W : Type 0) : Type 0 where
  pub socket : W → Option ℕ × W
  -- inet_pton(AF_INET, host, …) == 1
  pub is_address : CString → Bool
  pub connect : ℕ → CString → ℕ → W → Bool × W
  pub close : ℕ → W → W
  pub write : ℕ → List ℕ → W → WriteResult × W
  -- the bytes that one read(2) gives, or an error
  pub read : ℕ → ℕ → W → Option (List ℕ) × W
  -- how often the next writes can be interrupted in a row
  pub patience : W → ℕ

-- A write takes between one byte and all of them, and is not interrupted for ever; `output fd w` is
-- all that `fd` has taken so far.
pub record IsTransport {W : Type 0} (net : Transport W) (output : ℕ → W → List ℕ) : Type 0 where
  pub output-wrote :
      (fd : ℕ) (bytes : List ℕ) (w : W) (n : ℕ)
      → (net.write fd bytes w).0 ≡ wrote n
      → output fd (net.write fd bytes w).1 ≡ output fd w ++ take n bytes
  pub output-interrupted :
      (fd : ℕ) (bytes : List ℕ) (w : W)
      → (net.write fd bytes w).0 ≡ interrupted
      → output fd (net.write fd bytes w).1 ≡ output fd w
  pub progress :
      (fd : ℕ) (bytes : List ℕ) (w : W) (n : ℕ)
      → (net.write fd bytes w).0 ≡ wrote n
      → (1 ≤ n) × (n ≤ length bytes)
  pub patience_kept :
      (fd : ℕ) (bytes : List ℕ) (w : W) (n : ℕ)
      → (net.write fd bytes w).0 ≡ wrote n
      → net.patience (net.write fd bytes w).1 ≤ net.patience w
  pub patience_used :
      (fd : ℕ) (bytes : List ℕ) (w : W)
      → (net.write fd bytes w).0 ≡ interrupted
      → net.patience (net.write fd bytes w).1 < net.patience w

-- What `mqtt_write_all` comes to: 0, -1, or, in the model alone, its fuel.
pub data Sent : Type 0 where
  done broken stuck : Sent

abbrev pub is_done : Sent → Bool
is_done done = true
is_done broken = false
is_done stuck = false

length-drop : {A : Type 0} (n : ℕ) (xs : List A) → length (drop n xs) ≡ length xs - n
length-drop zero xs = omega arith
length-drop (suc n) [] = omega arith
length-drop (suc n) (x ∷ xs) = omega (arith, length-drop n xs)

take-append-drop : {A : Type 0} (n : ℕ) (xs : List A) → take n xs ++ drop n xs ≡ xs
take-append-drop zero xs = refl
take-append-drop (suc n) [] = refl
take-append-drop (suc n) (x ∷ xs) = ap (λ ys. x ∷ ys) (take-append-drop n xs)

pub WriteResult-cases :
    (r : WriteResult) → ((n : ℕ) × (r ≡ wrote n)) ⊎ ((r ≡ interrupted) ⊎ (r ≡ failed))
WriteResult-cases (wrote n) = inl (n, refl)
WriteResult-cases interrupted = inr (inl refl)
WriteResult-cases failed = inr (inr refl)

module _ {W : Type 0} (net : Transport W) where
  -- The loop on what is still to be written.
  unfoldable pub write_from : ℕ → ℕ → List ℕ → W → Sent × W
  write_from fuel fd [] w = (done, w)
  write_from zero fd (b ∷ bytes) w = (stuck, w)
  write_from (suc fuel) fd (b ∷ bytes) w = elim (net.write fd (b ∷ bytes) w).0 [
    | wrote n ↦ write_from fuel fd (drop n (b ∷ bytes)) (net.write fd (b ∷ bytes) w).1
    | interrupted ↦ write_from fuel fd (b ∷ bytes) (net.write fd (b ∷ bytes) w).1
    | failed ↦ (broken, (net.write fd (b ∷ bytes) w).1)
  ]

  -- Each round writes a byte or uses up patience.
  unfoldable pub mqtt_write_all : ℕ → List ℕ → W → Sent × W
  unfolding write_from
  mqtt_write_all fd bytes w = write_from (length bytes + net.patience w) fd bytes w

  -- Whether it returned 0.
  abbrev pub write_ok : ℕ → List ℕ → W → Bool × W
  write_ok fd bytes w = let (r, w') = mqtt_write_all fd bytes w in (is_done r, w')

  unfoldable pub mqtt_send_publish : ℕ → CString → CString → W → Bool × W
  mqtt_send_publish fd topic payload w = elim (publish_packet topic payload) [
    | none ↦ (false, w)
    | some packet ↦ write_ok fd packet w
  ]

  unfoldable pub mqtt_send_ping : ℕ → W → Bool × W
  mqtt_send_ping fd w = write_ok fd ping_packet w

  -- A CONNACK of at least four bytes that begins with 0x20 and accepts.
  abbrev pub accepts : Option (List ℕ) → Bool
  accepts none = false
  accepts (some bytes) =
      if ltb (length bytes) 4 then false else get_or bytes 0 0 == 0x20 && get_or bytes 3 0 == 0x00

  unfoldable pub mqtt_send_connect : ℕ → CString → ℕ → W → Bool × W
  mqtt_send_connect fd client_id keepalive_sec w = elim (connect_packet client_id keepalive_sec) [
    | none ↦ (false, w)
    | some packet ↦
        let (sent, w₁) = write_ok fd packet w in
        let (reply, w₂) = net.read fd 160 w₁ in if sent then (accepts reply, w₂) else (false, w₁)
  ]

  -- The connected socket, or none.
  unfoldable pub mqtt_open_tcp : {D : Type 0} → GatewayConfig D → W → Option ℕ × W
  mqtt_open_tcp cfg w = elim (net.socket w).0 [
    | none ↦ (none, (net.socket w).1)
    | some fd ↦
        let w₁ = (net.socket w).1 in
        let (connected, w₂) = net.connect fd cfg.broker_host cfg.broker_port w₁ in
        if net.is_address cfg.broker_host
        then (if connected then (some fd, w₂) else (none, net.close fd w₂))
        else (none, net.close fd w₁)
  ]

  module _ (output : ℕ → W → List ℕ) (ok : IsTransport net output) where
    -- What the loop promises: it ends, and if it returns 0 all bytes have gone out in order.
    abbrev Delivers : ℕ → List ℕ → W → Sent × W → Type 0
    Delivers fd bytes w r = (r.0 ≢ stuck) × (r.0 ≡ done → output fd r.1 ≡ output fd w ++ bytes)

    write_from-Delivers :
        (fuel fd : ℕ) (bytes : List ℕ) (w : W)
        → length bytes + net.patience w ≤ fuel
        → Delivers fd bytes w (write_from fuel fd bytes w)
    unfolding write_from
    write_from-Delivers fuel fd [] w h = ((λ e. cc), (λ _. sym (append-nil (output fd w))))
    write_from-Delivers zero fd (b ∷ bytes) w h = absurd (omega arith)
    write_from-Delivers (suc fuel) fd (b ∷ bytes) w h =
        elim (WriteResult-cases (net.write fd (b ∷ bytes) w).0) [
          | inl (n, e) ↦
              let (ends, all_out) =
                write_from-Delivers fuel fd (drop n (b ∷ bytes)) (net.write fd (b ∷ bytes) w).1 (
                  omega (
                    arith,
                    length-drop n (b ∷ bytes),
                    ok.progress fd (b ∷ bytes) w n e,
                    ok.patience_kept fd (b ∷ bytes) w n e,
                  )) in
              rw (e, write_from)
                (
                  ends,
                  λ d.
                      all_out d
                      ∙ ap (λ (out : List ℕ). out ++ drop n (b ∷ bytes))
                          (ok.output-wrote fd (b ∷ bytes) w n e)
                      ∙ append_assoc (output fd w) (take n (b ∷ bytes)) (drop n (b ∷ bytes))
                      ∙ ap (λ (ys : List ℕ). output fd w ++ ys) (take-append-drop n (b ∷ bytes)),
                )
          | inr (inl e) ↦
              let (ends, all_out) =
                write_from-Delivers fuel fd (b ∷ bytes) (net.write fd (b ∷ bytes) w).1
                  (omega (arith, ok.patience_used fd (b ∷ bytes) w e)) in
              rw (e, write_from)
                (
                  ends,
                  λ d.
                      all_out d
                      ∙ ap (λ (out : List ℕ). out ++ (b ∷ bytes))
                          (ok.output-interrupted fd (b ∷ bytes) w e),
                )
          | inr (inr e) ↦ rw (e, write_from) ((λ p. cc), (λ p. cc))
        ]

    -- On a transport that makes progress `mqtt_write_all` ends, and if it returns 0 all bytes have
    -- gone out, in order.
    pub write_all-Delivers :
        (fd : ℕ) (bytes : List ℕ) (w : W)
        → let (r, w') = mqtt_write_all fd bytes w in
          (r ≢ stuck) × (r ≡ done → output fd w' ≡ output fd w ++ bytes)
    unfolding mqtt_write_all
    write_all-Delivers fd bytes w = write_from-Delivers _ fd bytes w (omega arith)

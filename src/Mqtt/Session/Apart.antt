-- ===== src/Mqtt/Session/Apart.antt =====
-- What the writes of egress/mqtt_session.c and the statements of storage/storage.c leave alone: the
-- sockets and the database are apart.
use edgeflow_energy_gateway.Common.{
  ℕ, zero, suc, ◌≡◌, refl, sym, ap, ◌∙◌, Option-cases, inl, inr, List, [], ◌∷◌, ◌++◌, take, drop,
  append-nil, append_assoc,
}
use edgeflow_energy_gateway.Text.{CString}
use edgeflow_energy_gateway.Storage.{Sqlite}
use edgeflow_energy_gateway.Storage.Database.{StoredRow}
use edgeflow_energy_gateway.Mqtt.Packet.{publish_packet}
use edgeflow_energy_gateway.Mqtt.Wire.{
  failed, WriteResult-cases, Transport, IsTransport, write_from, mqtt_write_all, mqtt_send_publish,
}

-- The network and the database are apart: socket calls leave the table alone, and the statement
-- that marks a row leaves the sockets alone. A failed write and a close put nothing on the wire.
pub record AreApart {W D : Type 0} (net : Transport W) (sqlite : Sqlite W D)
    (output : ℕ → W → List ℕ) (table : W → List (StoredRow D)) : Type 0 where
  pub table-write : (fd : ℕ) (bytes : List ℕ) (w : W) → table (net.write fd bytes w).1 ≡ table w
  pub table-close : (fd : ℕ) (w : W) → table (net.close fd w) ≡ table w
  pub output-failed :
      (fd : ℕ) (bytes : List ℕ) (w : W)
      → (net.write fd bytes w).0 ≡ failed
      → output fd (net.write fd bytes w).1 ≡ output fd w
  pub output-close : (fd : ℕ) (w : W) → output fd (net.close fd w) ≡ output fd w
  pub output-mark : (fd id : ℕ) (w : W) → output fd (sqlite.mark_uploaded id w).1 ≡ output fd w

module _ {W D : Type 0} (net : Transport W) (sqlite : Sqlite W D) (output : ℕ → W → List ℕ)
    (table : W → List (StoredRow D)) (ok : IsTransport net output)
    (apart : AreApart net sqlite output table) where
  table-write_from :
      (fuel fd : ℕ) (bytes : List ℕ) (w : W) → table (write_from net fuel fd bytes w).1 ≡ table w
  unfolding write_from
  table-write_from fuel fd [] w = refl
  table-write_from zero fd (b ∷ bytes) w = refl
  table-write_from (suc fuel) fd (b ∷ bytes) w =
      let w' = (net.write fd (b ∷ bytes) w).1 in
      let kept = apart.table-write fd (b ∷ bytes) w in
      elim (WriteResult-cases (net.write fd (b ∷ bytes) w).0) [
        | inl (n, e) ↦ rw (e, write_from) (table-write_from fuel fd (drop n (b ∷ bytes)) w' ∙ kept)
        | inr (inl e) ↦ rw (e, write_from) (table-write_from fuel fd (b ∷ bytes) w' ∙ kept)
        | inr (inr e) ↦ rw (e, write_from) kept
      ]

  pub table-send_publish :
      (fd : ℕ) (topic payload : CString) (w : W)
      → table (mqtt_send_publish net fd topic payload w).1 ≡ table w
  unfolding mqtt_send_publish mqtt_write_all
  table-send_publish fd topic payload w = elim (Option-cases (publish_packet topic payload)) [
    | inl e ↦ rw (e, mqtt_send_publish) refl
    | inr (packet, e) ↦ rw (e, mqtt_send_publish) (table-write_from _ fd packet w)
  ]

  -- Whatever becomes of a write, it only adds to what has gone out.
  abbrev pub Extends : ℕ → W → W → Type 0
  Extends fd w w' = (tail : List ℕ) × (output fd w' ≡ output fd w ++ tail)

  pub Extends-refl : (fd : ℕ) (w w' : W) → output fd w' ≡ output fd w → Extends fd w w'
  Extends-refl fd w w' e = ([], e ∙ sym (append-nil (output fd w)))

  pub Extends-trans : (fd : ℕ) (u v w : W) → Extends fd u v → Extends fd v w → Extends fd u w
  Extends-trans fd u v w (a, p) (b, q) =
      (a ++ b, q ∙ ap (λ (o : List ℕ). o ++ b) p ∙ append_assoc (output fd u) a b)

  write_from-Extends :
      (fuel fd : ℕ) (bytes : List ℕ) (w : W) → Extends fd w (write_from net fuel fd bytes w).1
  unfolding write_from
  write_from-Extends fuel fd [] w = Extends-refl fd w w refl
  write_from-Extends zero fd (b ∷ bytes) w = Extends-refl fd w w refl
  write_from-Extends (suc fuel) fd (b ∷ bytes) w =
      let w' = (net.write fd (b ∷ bytes) w).1 in
      elim (WriteResult-cases (net.write fd (b ∷ bytes) w).0) [
        | inl (n, e) ↦
            rw (e, write_from)
              (Extends-trans fd w w' (write_from net fuel fd (drop n (b ∷ bytes)) w').1
                (take n (b ∷ bytes), ok.output-wrote fd (b ∷ bytes) w n e)
                (write_from-Extends fuel fd (drop n (b ∷ bytes)) w'))
        | inr (inl e) ↦
            rw (e, write_from)
              (Extends-trans fd w w' (write_from net fuel fd (b ∷ bytes) w').1
                (Extends-refl fd w w' (ok.output-interrupted fd (b ∷ bytes) w e))
                (write_from-Extends fuel fd (b ∷ bytes) w'))
        | inr (inr e) ↦
            rw (e, write_from) (Extends-refl fd w w' (apart.output-failed fd (b ∷ bytes) w e))
      ]

  pub send_publish-Extends :
      (fd : ℕ) (topic payload : CString) (w : W)
      → Extends fd w (mqtt_send_publish net fd topic payload w).1
  unfolding mqtt_send_publish mqtt_write_all
  send_publish-Extends fd topic payload w = elim (Option-cases (publish_packet topic payload)) [
    | inl e ↦ rw (e, mqtt_send_publish) (Extends-refl fd w w refl)
    | inr (packet, e) ↦ rw (e, mqtt_send_publish) (write_from-Extends _ fd packet w)
  ]

-- ===== src/Mqtt/Session/Outside.antt =====
-- The session of egress/mqtt_session.c and the world outside: what each call of a socket and of the
-- database keeps, every use of the session keeps.
use edgeflow_energy_gateway.Common.{
  ℕ, zero, suc, ◌%◌, ◌^◌, Bool-cases, Option, none, some, Option-cases, inl, inr, List, [], ◌∷◌,
  drop, arith, if◌then◌else◌,
}
use edgeflow_energy_gateway.Floats.{Floats}
use edgeflow_energy_gateway.Text.{CString}
use edgeflow_energy_gateway.Model.Types.{GatewayConfig}
use edgeflow_energy_gateway.Storage.{
  Sqlite, StorageCtx, StorageRow, storage_fetch_pending_telemetry, storage_mark_telemetry_uploaded,
  storage_pending_telemetry_count,
}
use edgeflow_energy_gateway.Metrics.{GatewayMetrics, count_up}
use edgeflow_energy_gateway.Mqtt.Packet.{publish_packet, connect_packet, ping_packet}
use edgeflow_energy_gateway.Mqtt.Wire.{
  Transport, WriteResult-cases, write_from, mqtt_write_all, write_ok, mqtt_send_publish,
  mqtt_send_connect, mqtt_send_ping, mqtt_open_tcp,
}
use edgeflow_energy_gateway.Mqtt.Session.{
  MqttSession, live_fd, client_id_of, mqtt_shutdown_locked, handshake, mqtt_ensure_connected_locked,
  publish_locked, publish_on, mqtt_session_ping, telemetry_to_json, replay_rows, replay_fetched,
  replay_batch, mqtt_session_replay_pending,
}

-- Every call of a socket keeps `P`.
pub record NetKeeps {W : Type 0} (net : Transport W) (P : W → Type 0) : Type 0 where
  pub socket : (w : W) → P w → P (net.socket w).1
  pub connect :
      (fd : ℕ) (host : CString) (port : ℕ) (w : W) → P w → P (net.connect fd host port w).1
  pub close : (fd : ℕ) (w : W) → P w → P (net.close fd w)
  pub write : (fd : ℕ) (bytes : List ℕ) (w : W) → P w → P (net.write fd bytes w).1
  pub read : (fd n : ℕ) (w : W) → P w → P (net.read fd n w).1

module _ {W : Type 0} (net : Transport W) (P : W → Type 0) (keeps : NetKeeps net P) where
  write_from-kept :
      (fuel fd : ℕ) (bytes : List ℕ) (w : W) → P w → P (write_from net fuel fd bytes w).1
  unfolding write_from
  write_from-kept fuel fd [] w h = h
  write_from-kept zero fd (b ∷ bytes) w h = h
  write_from-kept (suc fuel) fd (b ∷ bytes) w h =
      let w' = (net.write fd (b ∷ bytes) w).1 in
      let kept = keeps.write fd (b ∷ bytes) w h in
      elim (WriteResult-cases (net.write fd (b ∷ bytes) w).0) [
        | inl (n, e) ↦ rw (e, write_from) (write_from-kept fuel fd (drop n (b ∷ bytes)) w' kept)
        | inr (inl e) ↦ rw (e, write_from) (write_from-kept fuel fd (b ∷ bytes) w' kept)
        | inr (inr e) ↦ rw (e, write_from) kept
      ]

  write_ok-kept : (fd : ℕ) (bytes : List ℕ) (w : W) → P w → P (write_ok net fd bytes w).1
  unfolding mqtt_write_all
  write_ok-kept fd bytes w h = write_from-kept _ fd bytes w h

  send_publish-kept :
      (fd : ℕ) (topic payload : CString) (w : W)
      → P w
      → P (mqtt_send_publish net fd topic payload w).1
  unfolding mqtt_send_publish
  send_publish-kept fd topic payload w h = elim (Option-cases (publish_packet topic payload)) [
    | inl e ↦ rw (e, mqtt_send_publish) h
    | inr (packet, e) ↦ rw (e, mqtt_send_publish) (write_ok-kept fd packet w h)
  ]

  send_connect-kept :
      (fd : ℕ) (client_id : CString) (keepalive : ℕ) (w : W)
      → P w
      → P (mqtt_send_connect net fd client_id keepalive w).1
  unfolding mqtt_send_connect
  send_connect-kept fd client_id keepalive w h =
      elim (Option-cases (connect_packet client_id keepalive)) [
        | inl e ↦ rw (e, mqtt_send_connect) h
        | inr (packet, e) ↦
            let w₁ = (write_ok net fd packet w).1 in
            let kept = write_ok-kept fd packet w h in
            elim (Bool-cases (write_ok net fd packet w).0) [
              | inl sent ↦ rw (e, sent, mqtt_send_connect) (keeps.read fd 160 w₁ kept)
              | inr unsent ↦ rw (e, unsent, mqtt_send_connect) kept
            ]
      ]

  open_tcp-kept : {D : Type 0} (cfg : GatewayConfig D) (w : W) → P w → P (mqtt_open_tcp net cfg w).1
  unfolding mqtt_open_tcp
  open_tcp-kept cfg w h = elim (Option-cases (net.socket w).0) [
    | inl e ↦ rw (e, mqtt_open_tcp) (keeps.socket w h)
    | inr (fd, e) ↦
        let w₁ = (net.socket w).1 in
        let made = keeps.socket w h in
        let joined = keeps.connect fd cfg.broker_host cfg.broker_port w₁ made in
        rw (e, mqtt_open_tcp)
          (ground (arith, joined, keeps.close fd _ joined, keeps.close fd w₁ made))
  ]

  pub shutdown-kept :
      {D : Type 0} (s : MqttSession D) (w : W) → P w → P (mqtt_shutdown_locked net s w).1
  unfolding mqtt_shutdown_locked
  shutdown-kept s w h = elim (Option-cases s.fd) [
    | inl e ↦ rw (e, mqtt_shutdown_locked) h
    | inr (fd, e) ↦ rw (e, mqtt_shutdown_locked) (keeps.close fd w h)
  ]

  handshake-kept :
      {D : Type 0} (opened : Option ℕ) (s : MqttSession D) (w : W)
      → P w
      → P (handshake net opened s w).2
  unfolding handshake
  handshake-kept none s w h = h
  handshake-kept (some fd) s w h =
      let opened = record s { fd = some fd } in
      let (accepted, w₁) =
        mqtt_send_connect net fd (client_id_of s.cfg) (s.cfg.mqtt_keepalive_sec % 2 ^ 16) w in
      let kept =
        send_connect-kept fd (client_id_of s.cfg) (s.cfg.mqtt_keepalive_sec % 2 ^ 16) w h in
      ground (arith, kept, shutdown-kept opened w₁ kept)

  pub ensure_connected-kept :
      {D : Type 0} (s : MqttSession D) (w : W) → P w → P (mqtt_ensure_connected_locked net s w).2
  unfolding mqtt_ensure_connected_locked
  ensure_connected-kept s w h = elim (Option-cases (live_fd s)) [
    | inr (fd, e) ↦ rw (e, mqtt_ensure_connected_locked) h
    | inl e ↦
        let (idle, w₁) = mqtt_shutdown_locked net s w in
        let (fd, w₂) = mqtt_open_tcp net idle.cfg w₁ in
        rw (e, mqtt_ensure_connected_locked)
          (handshake-kept fd idle w₂ (open_tcp-kept idle.cfg w₁ (shutdown-kept s w h)))
  ]

  publish_locked-kept :
      {D : Type 0} (topic payload : CString) (s : MqttSession D) (w : W)
      → P w
      → P (publish_locked net topic payload s w).2
  unfolding publish_locked
  publish_locked-kept topic payload s w h = elim (Option-cases s.fd) [
    | inl e ↦ rw (e, publish_locked) h
    | inr (fd, e) ↦
        let w₁ = (mqtt_send_publish net fd topic payload w).1 in
        let kept = send_publish-kept fd topic payload w h in
        rw (e, publish_locked) (ground (arith, kept, shutdown-kept s w₁ kept))
  ]

  pub publish_on-kept :
      {D : Type 0} (topic payload : CString) (s : MqttSession D) (w : W)
      → P w
      → P (publish_on net topic payload s w).2
  unfolding publish_on
  publish_on-kept topic payload s w h =
      let (ready, s₁, w₁) = mqtt_ensure_connected_locked net s w in
      let kept = ensure_connected-kept s w h in
      ground (arith, kept, publish_locked-kept topic payload s₁ w₁ kept)

  pub ping-kept : {D : Type 0} (s : MqttSession D) (w : W) → P w → P (mqtt_session_ping net s w).2
  unfolding mqtt_session_ping mqtt_send_ping
  ping-kept s w h = elim (Option-cases (live_fd s)) [
    | inl e ↦ rw (e, mqtt_session_ping) h
    | inr (fd, e) ↦
        let w₁ = (mqtt_send_ping net fd w).1 in
        let kept = write_ok-kept fd ping_packet w h in
        rw (e, mqtt_session_ping) (ground (arith, kept, shutdown-kept s w₁ kept))
  ]

-- The statements of a replay keep `P`.
pub record ReplayKeeps {W D : Type 0} (sqlite : Sqlite W D) (P : W → Type 0) : Type 0 where
  pub select_pending : (n : ℕ) (w : W) → P w → P (sqlite.select_pending n w).1
  pub mark_uploaded : (id : ℕ) (w : W) → P w → P (sqlite.mark_uploaded id w).1
  pub count_pending : (w : W) → P w → P (sqlite.count_pending w).1

module _ ⦃f : Floats⦄ {W : Type 0} (net : Transport W) (P : W → Type 0) (keeps : NetKeeps net P)
    (sqlite : Sqlite W f.Double) (stores : ReplayKeeps sqlite P) (ctx : StorageCtx f.Double) where
  open f use {Double}

  pub mark-kept : (id : ℕ) (w : W) → P w → P (storage_mark_telemetry_uploaded sqlite ctx id w).1
  unfolding storage_mark_telemetry_uploaded
  mark-kept id w h = ground (arith, h, stores.mark_uploaded id w h)

  pending-kept : (w : W) → P w → P (storage_pending_telemetry_count sqlite ctx w).1
  unfolding storage_pending_telemetry_count
  pending-kept w h = ground (arith, h, stores.count_pending w h)

  fetch-kept : (n : ℕ) (w : W) → P w → P (storage_fetch_pending_telemetry sqlite ctx n w).1
  unfolding storage_fetch_pending_telemetry
  fetch-kept n w h = ground (arith, h, stores.select_pending n w h)

  replay_rows-kept :
      (rows : List (StorageRow Double)) (s : MqttSession Double) (m : GatewayMetrics) (w : W)
      → P w
      → P (replay_rows net sqlite ctx rows s m w).3
  unfolding replay_rows
  replay_rows-kept [] s m w h = h
  replay_rows-kept (r ∷ rows) s m w h =
      let payload = telemetry_to_json r.point in
      let (sent, s₁, w₁) = publish_locked net s.cfg.mqtt_topic payload s w in
      let (marked, w₂) = storage_mark_telemetry_uploaded sqlite ctx r.row_id w₁ in
      let m₁ = record m { mqtt_replay_total = count_up m.mqtt_replay_total } in
      let kept = publish_locked-kept net P keeps s.cfg.mqtt_topic payload s w h in
      ground (
        arith,
        kept,
        replay_rows-kept rows s₁ (if marked then m₁ else m) w₂ (mark-kept r.row_id w₁ kept),
      )

  replay_fetched-kept :
      (rows : List (StorageRow Double)) (s : MqttSession Double) (m : GatewayMetrics) (w : W)
      → P w
      → P (replay_fetched net sqlite ctx rows s m w).3
  unfolding replay_fetched
  replay_fetched-kept rows s m w h =
      let (ready, s₁, w₁) = mqtt_ensure_connected_locked net s w in
      let kept = ensure_connected-kept net P keeps s w h in
      let (n, s₂, m₂, w₂) = replay_rows net sqlite ctx rows s₁ m w₁ in
      ground (arith, pending-kept w₁ kept, pending-kept w₂ (replay_rows-kept rows s₁ m w₁ kept))

  pub replay_pending-kept :
      (s : MqttSession Double) (m : GatewayMetrics) (w : W)
      → P w
      → P (mqtt_session_replay_pending net sqlite ctx s m w).3
  unfolding mqtt_session_replay_pending
  replay_pending-kept s m w h =
      let (rows, w₁) = storage_fetch_pending_telemetry sqlite ctx (replay_batch s.cfg) w in
      let kept = fetch-kept (replay_batch s.cfg) w h in
      elim (Option-cases (storage_fetch_pending_telemetry sqlite ctx (replay_batch s.cfg) w).0) [
        | inl failed ↦ rw (failed, mqtt_session_replay_pending) kept
        | inr (found, e) ↦
            rw (e, mqtt_session_replay_pending) (replay_fetched-kept found s m w₁ kept)
      ]

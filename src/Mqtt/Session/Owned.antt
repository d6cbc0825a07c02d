-- ===== src/Mqtt/Session/Owned.antt =====
-- The session of egress/mqtt_session.c loses no socket, and neither does the client of
-- egress/mqtt_client.c.
use edgeflow_energy_gateway.Common.{
  ℕ, ◌+◌, ◌%◌, ◌^◌, ◌≡◌, ap, Option, none, some, Option-cases, inl, inr, held, List, [], ◌∷◌, arith,
  if◌then◌else◌,
}
use edgeflow_energy_gateway.Floats.{Floats}
use edgeflow_energy_gateway.Text.{CString}
use edgeflow_energy_gateway.Model.Types.{Telemetry, GatewayConfig}
use edgeflow_energy_gateway.Storage.{
  Sqlite, StorageCtx, StorageRow, storage_fetch_pending_telemetry, storage_mark_telemetry_uploaded,
  storage_pending_telemetry_count,
}
use edgeflow_energy_gateway.Metrics.{GatewayMetrics, count_up}
use edgeflow_energy_gateway.Mqtt.Wire.{
  Transport, mqtt_send_publish, mqtt_send_connect, mqtt_send_ping, mqtt_open_tcp,
}
use edgeflow_energy_gateway.Mqtt.Client.{mqtt_publish_point}
use edgeflow_energy_gateway.Mqtt.Session.{
  MqttSession, mqtt_session_init, live_fd, client_id_of, mqtt_shutdown_locked, handshake,
  mqtt_ensure_connected_locked, mqtt_session_shutdown, publish_locked, publish_on,
  mqtt_session_ping, mqtt_session_publish_telemetry, telemetry_to_json, replay_rows, replay_fetched,
  replay_batch, mqtt_session_replay_pending,
}
use edgeflow_energy_gateway.Mqtt.Session.Sockets.{
  CountsSockets, sockets-send_publish, sockets-send_ping, sockets-send_connect, sockets-open_tcp,
}

module _ {W : Type 0} (net : Transport W) (sockets : W → ℕ) (counts : CountsSockets net sockets)
    (others : ℕ) where
  -- Besides those of others there is the socket of the session, if it has one.
  pub record Owned {D : Type 0} (s : MqttSession D) (w : W) : Type 0 where
    pub count : sockets w ≡ others + held s.fd

  pub shutdown-Owned :
      {D : Type 0} (s : MqttSession D) (w : W)
      → Owned s w
      → let (s', w') = mqtt_shutdown_locked net s w in Owned s' w' × (s'.fd ≡ none)
  unfolding mqtt_shutdown_locked
  shutdown-Owned s w h = elim (Option-cases s.fd) [
    | inl e ↦ ground (arith, h)
    | inr (fd, e) ↦ ground (arith, h, counts.sockets-close fd w)
  ]

  handshake-Owned :
      {D : Type 0} (opened : Option ℕ) (s : MqttSession D) (w : W)
      → sockets w ≡ others + held opened
      → let (ready, s', w') = handshake net opened s w in Owned s' w'
  unfolding handshake
  handshake-Owned none s w h = omega (arith, h)
  handshake-Owned (some fd) s w h =
      let opened = record s { fd = some fd } in
      let (accepted, w₁) =
        mqtt_send_connect net fd (client_id_of s.cfg) (s.cfg.mqtt_keepalive_sec % 2 ^ 16) w in
      let kept =
        sockets-send_connect net sockets counts fd (client_id_of s.cfg)
          (s.cfg.mqtt_keepalive_sec % 2 ^ 16) w in
      let mine : Owned opened w₁ = omega (arith, kept, h) in
      ground (arith, kept, h, shutdown-Owned opened w₁ mine)

  ensure_connected-Owned :
      {D : Type 0} (s : MqttSession D) (w : W)
      → Owned s w
      → let (ready, s', w') = mqtt_ensure_connected_locked net s w in Owned s' w'
  unfolding mqtt_ensure_connected_locked
  ensure_connected-Owned s w h = elim (Option-cases (live_fd s)) [
    | inr (fd, e) ↦ rw (e, mqtt_ensure_connected_locked) h
    | inl e ↦
        let (idle, w₁) = mqtt_shutdown_locked net s w in
        let (closed, empty) = shutdown-Owned s w h in
        let (fd, w₂) = mqtt_open_tcp net idle.cfg w₁ in
        rw (e, mqtt_ensure_connected_locked)
          (handshake-Owned fd idle w₂ (
            omega (
              arith,
              sockets-open_tcp net sockets counts idle.cfg w₁,
              closed.count,
              ap held empty,
            )))
  ]

  publish_locked-Owned :
      {D : Type 0} (topic payload : CString) (s : MqttSession D) (w : W)
      → Owned s w
      → let (sent, s', w') = publish_locked net topic payload s w in Owned s' w'
  unfolding publish_locked
  publish_locked-Owned topic payload s w h = elim (Option-cases s.fd) [
    | inl e ↦ ground (arith, h)
    | inr (fd, e) ↦
        let w₁ = (mqtt_send_publish net fd topic payload w).1 in
        let mine : Owned s w₁ =
          omega (arith, sockets-send_publish net sockets counts fd topic payload w, h.count) in
        ground (arith, mine, shutdown-Owned s w₁ mine)
  ]

  -- A publish leaves the session the owner of its socket, whichever call fails on the way.
  pub publish_on-Owned :
      {D : Type 0} (topic payload : CString) (s : MqttSession D) (w : W)
      → Owned s w
      → let (sent, s', w') = publish_on net topic payload s w in Owned s' w'
  unfolding publish_on
  publish_on-Owned topic payload s w h =
      let (ready, s₁, w₁) = mqtt_ensure_connected_locked net s w in
      let mine = ensure_connected-Owned s w h in
      ground (arith, mine, publish_locked-Owned topic payload s₁ w₁ mine)

  pub ping-Owned :
      {D : Type 0} (s : MqttSession D) (w : W)
      → Owned s w
      → let (alive, s', w') = mqtt_session_ping net s w in Owned s' w'
  unfolding mqtt_session_ping
  ping-Owned s w h = elim (Option-cases (live_fd s)) [
    | inl e ↦ rw (e, mqtt_session_ping) h
    | inr (fd, e) ↦
        let w₁ = (mqtt_send_ping net fd w).1 in
        let mine : Owned s w₁ = omega (arith, sockets-send_ping net sockets counts fd w, h.count) in
        rw (e, mqtt_session_ping) (ground (arith, mine, shutdown-Owned s w₁ mine))
  ]

module _ ⦃f : Floats⦄ {W : Type 0} (net : Transport W) (sockets : W → ℕ)
    (counts : CountsSockets net sockets) where
  open f use {Double}

  -- The client for one point leaves no socket open, whether the point is published or not.
  pub publish_point-sockets :
      (cfg : GatewayConfig Double) (point : Telemetry Double) (w : W)
      → sockets (mqtt_publish_point net cfg point w).1 ≡ sockets w
  unfolding mqtt_publish_point mqtt_session_publish_telemetry mqtt_session_shutdown
  publish_point-sockets cfg point w =
      let (sent, s, w₁) =
        publish_on net cfg.mqtt_topic (telemetry_to_json point) (mqtt_session_init cfg) w in
      let mine : Owned net sockets counts (sockets w) s w₁ =
        publish_on-Owned net sockets counts (sockets w) cfg.mqtt_topic (telemetry_to_json point)
          (mqtt_session_init cfg) w (omega arith) in
      let (closed, empty) = shutdown-Owned net sockets counts (sockets w) s w₁ mine in
      omega (arith, closed.count, ap held empty)

-- The statements of the replay leave the sockets alone.
pub record LeavesSockets {W D : Type 0} (sqlite : Sqlite W D) (sockets : W → ℕ) : Type 0 where
  pub sockets-select : (n : ℕ) (w : W) → sockets (sqlite.select_pending n w).1 ≡ sockets w
  pub sockets-mark : (id : ℕ) (w : W) → sockets (sqlite.mark_uploaded id w).1 ≡ sockets w
  pub sockets-count : (w : W) → sockets (sqlite.count_pending w).1 ≡ sockets w

module _ ⦃f : Floats⦄ {W : Type 0} (net : Transport W) (sockets : W → ℕ)
    (counts : CountsSockets net sockets) (sqlite : Sqlite W f.Double)
    (leaves : LeavesSockets sqlite sockets) (ctx : StorageCtx f.Double) (others : ℕ) where
  open f use {Double}

  pub sockets-mark_uploaded :
      (id : ℕ) (w : W) → sockets (storage_mark_telemetry_uploaded sqlite ctx id w).1 ≡ sockets w
  unfolding storage_mark_telemetry_uploaded
  sockets-mark_uploaded id w = ground (arith, leaves.sockets-mark id w)

  sockets-pending_count :
      (w : W) → sockets (storage_pending_telemetry_count sqlite ctx w).1 ≡ sockets w
  unfolding storage_pending_telemetry_count
  sockets-pending_count w = ground (arith, leaves.sockets-count w)

  sockets-fetch :
      (n : ℕ) (w : W) → sockets (storage_fetch_pending_telemetry sqlite ctx n w).1 ≡ sockets w
  unfolding storage_fetch_pending_telemetry
  sockets-fetch n w = ground (arith, leaves.sockets-select n w)

  replay_rows-Owned :
      (rows : List (StorageRow Double)) (s : MqttSession Double) (m : GatewayMetrics) (w : W)
      → Owned net sockets counts others s w
      → let (n, s', m', w') = replay_rows net sqlite ctx rows s m w in
        Owned net sockets counts others s' w'
  unfolding replay_rows
  replay_rows-Owned [] s m w h = h
  replay_rows-Owned (r ∷ rows) s m w h =
      let payload = telemetry_to_json r.point in
      let (sent, s₁, w₁) = publish_locked net s.cfg.mqtt_topic payload s w in
      let (marked, w₂) = storage_mark_telemetry_uploaded sqlite ctx r.row_id w₁ in
      let m₁ = record m { mqtt_replay_total = count_up m.mqtt_replay_total } in
      let mine = publish_locked-Owned net sockets counts others s.cfg.mqtt_topic payload s w h in
      let still : Owned net sockets counts others s₁ w₂ =
        omega (arith, mine.count, sockets-mark_uploaded r.row_id w₁) in
      ground (arith, mine, replay_rows-Owned rows s₁ (if marked then m₁ else m) w₂ still)

  replay_fetched-Owned :
      (rows : List (StorageRow Double)) (s : MqttSession Double) (m : GatewayMetrics) (w : W)
      → Owned net sockets counts others s w
      → let (n, s', m', w') = replay_fetched net sqlite ctx rows s m w in
        Owned net sockets counts others s' w'
  unfolding replay_fetched
  replay_fetched-Owned rows s m w h =
      let (ready, s₁, w₁) = mqtt_ensure_connected_locked net s w in
      let mine = ensure_connected-Owned net sockets counts others s w h in
      let (n, s₂, m₂, w₂) = replay_rows net sqlite ctx rows s₁ m w₁ in
      let replayed = replay_rows-Owned rows s₁ m w₁ mine in
      ground (arith, mine, replayed, sockets-pending_count w₁, sockets-pending_count w₂)

  -- A replay leaves the session the owner of its socket, wherever it stops.
  pub replay_pending-Owned :
      (s : MqttSession Double) (m : GatewayMetrics) (w : W)
      → Owned net sockets counts others s w
      → let (n, s', m', w') = mqtt_session_replay_pending net sqlite ctx s m w in
        Owned net sockets counts others s' w'
  unfolding mqtt_session_replay_pending
  replay_pending-Owned s m w h =
      let (rows, w₁) = storage_fetch_pending_telemetry sqlite ctx (replay_batch s.cfg) w in
      let kept : Owned net sockets counts others s w₁ =
        omega (arith, h.count, sockets-fetch (replay_batch s.cfg) w) in
      elim (Option-cases (storage_fetch_pending_telemetry sqlite ctx (replay_batch s.cfg) w).0) [
        | inl failed ↦ rw (failed, mqtt_session_replay_pending) kept
        | inr (found, e) ↦
            rw (e, mqtt_session_replay_pending) (replay_fetched-Owned found s m w₁ kept)
      ]

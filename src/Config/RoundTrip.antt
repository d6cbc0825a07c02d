-- ===== src/Config/RoundTrip.antt =====
-- A configuration written out key by key is read back by platform/config.c as it was: every key goes
-- to its own field, at its own width.
use edgeflow_energy_gateway.Common.{
  ℕ, ◌<◌, ◌^◌, ◌≡◌, refl, Bool, true, Option, none, some, List, [], ◌∷◌, length, if◌then◌else◌,
}
use edgeflow_energy_gateway.Floats.{Floats}
use edgeflow_energy_gateway.Text.{CString, literal, str_eq, copy_string_of_fits}
use edgeflow_energy_gateway.Model.Types.{GatewayConfig}
use edgeflow_energy_gateway.Config.{
  Cjson, value_at, json_copy_string, json_copy_bool, json_copy_double, json_copy_parity,
  json_copy_uint, json_copy_uint32, json_copy_uint16, json_copy_uint8, gateway_config_defaults,
  config_of, load_root, gateway_config_load,
}
use edgeflow_energy_gateway.Config.Fits.{ConfigFits}

-- The value of a key in a document.
pub data Value (D : Type 0) : Type 0 where
  text : CString → Value D
  flag : Bool → Value D
  number : D → Value D

abbrev pub lookup {ℓ} : {A : Type ℓ} → CString → List (CString × A) → Option A
lookup key [] = none
lookup key ((k, a) ∷ rest) = let later = lookup key rest in if str_eq key k then some a else later

module _ ⦃f : Floats⦄ where
  open f use {Double, of_ℕ, to_uint}

  -- The object of a configuration file that says all of `cfg`.
  abbrev pub document : GatewayConfig Double → List (CString × Value Double)
  document cfg =
      (literal "device_id", text cfg.device_id)
      ∷ (literal "simulate", flag cfg.simulate)
      ∷ (literal "serial_device", text cfg.serial_device)
      ∷ (literal "poll_interval_ms", number (of_ℕ cfg.poll_interval_ms))
      ∷ (literal "queue_size", number (of_ℕ cfg.queue_size))
      ∷ (literal "deadband", number cfg.deadband)
      ∷ (literal "temp_high", number cfg.temp_high)
      ∷ (literal "peak_shaving_threshold_kw", number cfg.peak_shaving_threshold_kw)
      ∷ (literal "max_discharge_kw", number cfg.max_discharge_kw)
      ∷ (literal "min_discharge_soc", number cfg.min_discharge_soc)
      ∷ (literal "broker_host", text cfg.broker_host)
      ∷ (literal "broker_port", number (of_ℕ cfg.broker_port))
      ∷ (literal "mqtt_topic", text cfg.mqtt_topic)
      ∷ (literal "mqtt_alarm_topic", text cfg.mqtt_alarm_topic)
      ∷ (literal "mqtt_heartbeat_topic", text cfg.mqtt_heartbeat_topic)
      ∷ (literal "log_dir", text cfg.log_dir)
      ∷ (literal "metrics_path", text cfg.metrics_path)
      ∷ (literal "cache_path", text cfg.cache_path)
      ∷ (literal "use_sqlite", flag cfg.use_sqlite)
      ∷ (literal "sqlite_path", text cfg.sqlite_path)
      ∷ (literal "mqtt_replay_batch", number (of_ℕ cfg.mqtt_replay_batch))
      ∷ (literal "mqtt_keepalive_sec", number (of_ℕ cfg.mqtt_keepalive_sec))
      ∷ (literal "watchdog_interval_ms", number (of_ℕ cfg.watchdog_interval_ms))
      ∷ (literal "heartbeat_interval_ms", number (of_ℕ cfg.heartbeat_interval_ms))
      ∷ (literal "modbus_transport", text cfg.modbus_transport)
      ∷ (literal "modbus_tcp_host", text cfg.modbus_tcp_host)
      ∷ (literal "modbus_tcp_port", number (of_ℕ cfg.modbus_tcp_port))
      ∷ (literal "modbus_slave_id", number (of_ℕ cfg.modbus_slave_id))
      ∷ (literal "modbus_baud_rate", number (of_ℕ cfg.modbus_baud_rate))
      ∷ (literal "modbus_parity", text (cfg.modbus_parity ∷ []))
      ∷ (literal "modbus_data_bits", number (of_ℕ cfg.modbus_data_bits))
      ∷ (literal "modbus_stop_bits", number (of_ℕ cfg.modbus_stop_bits))
      ∷ (literal "modbus_timeout_ms", number (of_ℕ cfg.modbus_timeout_ms))
      ∷ []

  module _ {J : Type 0} (cjson : Cjson J Double) where
    -- What cJSON says of the value of a key.
    abbrev pub Holds : J → CString → Value Double → Type 0
    Holds root key (text s) = value_at (cjson.item root key) cjson.string_value ≡ some s
    Holds root key (flag b) = value_at (cjson.item root key) cjson.bool_value ≡ some b
    Holds root key (number d) = value_at (cjson.item root key) cjson.number_value ≡ some d

    -- `root` is an object with these keys and values, and possibly others.
    abbrev pub Shows : J → List (CString × Value Double) → Type 0
    Shows root doc = (key : CString) (v : Value Double) → lookup key doc ≡ some v → Holds root key v

    copied_text :
        (root : J) (key dst : CString) (n : ℕ) {s : CString}
        → Holds root key (text s)
        → length s < n
        → json_copy_string cjson root key dst n ≡ s
    unfolding json_copy_string
    copied_text root key dst n {s} h fits = rw (h, json_copy_string) (copy_string_of_fits n s fits)

    copied_flag :
        (root : J) (key : CString) (dst : Bool) {b : Bool}
        → Holds root key (flag b)
        → json_copy_bool cjson root key dst ≡ b
    unfolding json_copy_bool
    copied_flag root key dst h = rw (h, json_copy_bool) refl

    copied_number :
        (root : J) (key : CString) (dst : Double) {d : Double}
        → Holds root key (number d)
        → json_copy_double cjson root key dst ≡ d
    unfolding json_copy_double
    copied_number root key dst h = rw (h, json_copy_double) refl

    copied_letter :
        (root : J) (key : CString) (dst : ℕ) {c : ℕ}
        → Holds root key (text (c ∷ []))
        → json_copy_parity cjson root key dst ≡ c
    unfolding json_copy_parity
    copied_letter root key dst h = rw (h, json_copy_parity) refl

    module _ (exact : (w n : ℕ) → n < 2 ^ w → to_uint w (of_ℕ n) ≡ n) where
      copied_uint :
          (w : ℕ) (root : J) (key : CString) (dst : ℕ) {n : ℕ}
          → Holds root key (number (of_ℕ n))
          → n < 2 ^ w
          → json_copy_uint cjson w root key dst ≡ n
      unfolding json_copy_uint
      copied_uint w root key dst {n} h fits = rw (h, json_copy_uint) (exact w n fits)

      config_of-document :
          (root : J) (cfg dst : GatewayConfig Double)
          → ConfigFits cfg
          → Shows root (document cfg)
          → config_of cjson root dst ≡ cfg
      unfolding config_of json_copy_uint32 json_copy_uint16 json_copy_uint8 str_eq
      config_of-document root cfg dst v shown = λ i. record {
        device_id =
            (copied_text root (literal "device_id") dst.device_id 32
                (shown (literal "device_id") _ refl) v.device_id)
              i;
        simulate =
            (copied_flag root (literal "simulate") dst.simulate (shown (literal "simulate") _ refl))
              i;
        serial_device =
            (copied_text root (literal "serial_device") dst.serial_device 128
                (shown (literal "serial_device") _ refl) v.serial_device)
              i;
        poll_interval_ms =
            (copied_uint 32 root (literal "poll_interval_ms") dst.poll_interval_ms
                (shown (literal "poll_interval_ms") _ refl) v.poll_interval_ms)
              i;
        queue_size =
            (copied_uint 32 root (literal "queue_size") dst.queue_size
                (shown (literal "queue_size") _ refl) v.queue_size)
              i;
        deadband =
            (copied_number root (literal "deadband") dst.deadband
                (shown (literal "deadband") _ refl))
              i;
        temp_high =
            (copied_number root (literal "temp_high") dst.temp_high
                (shown (literal "temp_high") _ refl))
              i;
        peak_shaving_threshold_kw =
            (copied_number root (literal "peak_shaving_threshold_kw") dst.peak_shaving_threshold_kw
                (shown (literal "peak_shaving_threshold_kw") _ refl))
              i;
        max_discharge_kw =
            (copied_number root (literal "max_discharge_kw") dst.max_discharge_kw
                (shown (literal "max_discharge_kw") _ refl))
              i;
        min_discharge_soc =
            (copied_number root (literal "min_discharge_soc") dst.min_discharge_soc
                (shown (literal "min_discharge_soc") _ refl))
              i;
        broker_host =
            (copied_text root (literal "broker_host") dst.broker_host 128
                (shown (literal "broker_host") _ refl) v.broker_host)
              i;
        broker_port =
            (copied_uint 16 root (literal "broker_port") dst.broker_port
                (shown (literal "broker_port") _ refl) v.broker_port)
              i;
        mqtt_topic =
            (copied_text root (literal "mqtt_topic") dst.mqtt_topic 128
                (shown (literal "mqtt_topic") _ refl) v.mqtt_topic)
              i;
        mqtt_alarm_topic =
            (copied_text root (literal "mqtt_alarm_topic") dst.mqtt_alarm_topic 128
                (shown (literal "mqtt_alarm_topic") _ refl) v.mqtt_alarm_topic)
              i;
        mqtt_heartbeat_topic =
            (copied_text root (literal "mqtt_heartbeat_topic") dst.mqtt_heartbeat_topic 128
                (shown (literal "mqtt_heartbeat_topic") _ refl) v.mqtt_heartbeat_topic)
              i;
        log_dir =
            (copied_text root (literal "log_dir") dst.log_dir 128 (shown (literal "log_dir") _ refl)
                v.log_dir)
              i;
        metrics_path =
            (copied_text root (literal "metrics_path") dst.metrics_path 128
                (shown (literal "metrics_path") _ refl) v.metrics_path)
              i;
        cache_path =
            (copied_text root (literal "cache_path") dst.cache_path 128
                (shown (literal "cache_path") _ refl) v.cache_path)
              i;
        use_sqlite =
            (copied_flag root (literal "use_sqlite") dst.use_sqlite
                (shown (literal "use_sqlite") _ refl))
              i;
        sqlite_path =
            (copied_text root (literal "sqlite_path") dst.sqlite_path 128
                (shown (literal "sqlite_path") _ refl) v.sqlite_path)
              i;
        mqtt_replay_batch =
            (copied_uint 32 root (literal "mqtt_replay_batch") dst.mqtt_replay_batch
                (shown (literal "mqtt_replay_batch") _ refl) v.mqtt_replay_batch)
              i;
        mqtt_keepalive_sec =
            (copied_uint 32 root (literal "mqtt_keepalive_sec") dst.mqtt_keepalive_sec
                (shown (literal "mqtt_keepalive_sec") _ refl) v.mqtt_keepalive_sec)
              i;
        watchdog_interval_ms =
            (copied_uint 32 root (literal "watchdog_interval_ms") dst.watchdog_interval_ms
                (shown (literal "watchdog_interval_ms") _ refl) v.watchdog_interval_ms)
              i;
        heartbeat_interval_ms =
            (copied_uint 32 root (literal "heartbeat_interval_ms") dst.heartbeat_interval_ms
                (shown (literal "heartbeat_interval_ms") _ refl) v.heartbeat_interval_ms)
              i;
        modbus_transport =
            (copied_text root (literal "modbus_transport") dst.modbus_transport 8
                (shown (literal "modbus_transport") _ refl) v.modbus_transport)
              i;
        modbus_tcp_host =
            (copied_text root (literal "modbus_tcp_host") dst.modbus_tcp_host 128
                (shown (literal "modbus_tcp_host") _ refl) v.modbus_tcp_host)
              i;
        modbus_tcp_port =
            (copied_uint 16 root (literal "modbus_tcp_port") dst.modbus_tcp_port
                (shown (literal "modbus_tcp_port") _ refl) v.modbus_tcp_port)
              i;
        modbus_slave_id =
            (copied_uint 8 root (literal "modbus_slave_id") dst.modbus_slave_id
                (shown (literal "modbus_slave_id") _ refl) v.modbus_slave_id)
              i;
        modbus_baud_rate =
            (copied_uint 32 root (literal "modbus_baud_rate") dst.modbus_baud_rate
                (shown (literal "modbus_baud_rate") _ refl) v.modbus_baud_rate)
              i;
        modbus_parity =
            (copied_letter root (literal "modbus_parity") dst.modbus_parity
                (shown (literal "modbus_parity") _ refl))
              i;
        modbus_data_bits =
            (copied_uint 8 root (literal "modbus_data_bits") dst.modbus_data_bits
                (shown (literal "modbus_data_bits") _ refl) v.modbus_data_bits)
              i;
        modbus_stop_bits =
            (copied_uint 8 root (literal "modbus_stop_bits") dst.modbus_stop_bits
                (shown (literal "modbus_stop_bits") _ refl) v.modbus_stop_bits)
              i;
        modbus_timeout_ms =
            (copied_uint 32 root (literal "modbus_timeout_ms") dst.modbus_timeout_ms
                (shown (literal "modbus_timeout_ms") _ refl) v.modbus_timeout_ms)
              i;
      }

      -- Loading a file that says all of a configuration that fits, gives that configuration, if the
      -- conversion of a double to an unsigned integer is exact on the integers of its width.
      pub load-document :
          (file : CString) (root : J) (cfg : GatewayConfig Double)
          → ConfigFits cfg
          → cjson.parse file ≡ some root
          → cjson.is_object root ≡ true
          → Shows root (document cfg)
          → gateway_config_load cjson (some file) ≡ (true, cfg)
      unfolding gateway_config_load load_root
      load-document file root cfg v parsed is_object shown =
          rw (parsed, is_object, load_root, gateway_config_load)
            (λ i. (true, config_of-document root cfg gateway_config_defaults v shown i))

-- ===== src/Config.antt =====
-- platform/config.c: the defaults, and the file that overrides them key by key. `Cjson` stands for
-- the vendored JSON library, and the text of the file for `read_file`.
pub mod Fits
pub mod RoundTrip
pub mod File
mod Tests
use edgeflow_energy_gateway.Common.{
  ℕ, Bool, true, false, Option, none, some, List, [], ◌∷◌, if◌then◌else◌,
}
use edgeflow_energy_gateway.Floats.{Floats}
use edgeflow_energy_gateway.Text.{CString, literal, copy_string}
use edgeflow_energy_gateway.Model.Types.{GatewayConfig}

-- The calls of cJSON: a document is a `J`. A value has the kind of the first function that gives
-- something for it.
pub record Cjson (J D : Type 0) : Type 0 where
  pub parse : CString → Option J
  pub is_object : J → Bool
  -- cJSON_GetObjectItemCaseSensitive
  pub item : J → CString → Option J
  -- cJSON_IsString with a `valuestring`, cJSON_IsBool with cJSON_IsTrue, cJSON_IsNumber with
  -- `valuedouble`
  pub string_value : J → Option CString
  pub bool_value : J → Option Bool
  pub number_value : J → Option D

abbrev pub value_at {ℓ} : {J : Type 0} {A : Type ℓ} → Option J → (J → Option A) → Option A
value_at none read = none
value_at (some item) read = read item

abbrev pub or_kept {ℓ} : {A : Type ℓ} → Option A → A → A
or_kept none dst = dst
or_kept (some a) dst = a

module _ {J D : Type 0} (cjson : Cjson J D) where
  unfoldable pub json_copy_string : J → CString → CString → ℕ → CString
  json_copy_string root key dst dst_len = elim (value_at (cjson.item root key) cjson.string_value) [
    | none ↦ dst
    | some s ↦ copy_string dst_len (some s)
  ]

  unfoldable pub json_copy_bool : J → CString → Bool → Bool
  json_copy_bool root key dst = or_kept (value_at (cjson.item root key) cjson.bool_value) dst

  unfoldable pub json_copy_double : J → CString → D → D
  json_copy_double root key dst = or_kept (value_at (cjson.item root key) cjson.number_value) dst

  unfoldable pub json_copy_parity : J → CString → ℕ → ℕ
  json_copy_parity root key dst = elim (value_at (cjson.item root key) cjson.string_value) [
    | none ↦ dst
    | some [] ↦ dst
    | some (c ∷ s) ↦ c
  ]

module _ ⦃f : Floats⦄ where
  open f use {Double, decimal, to_uint}

  unfoldable pub gateway_config_defaults : GatewayConfig Double
  gateway_config_defaults = record {
    device_id = copy_string 32 (some (literal "gw-dev"));
    simulate = true;
    serial_device = copy_string 128 (some (literal "/dev/ttyUSB0"));
    poll_interval_ms = 1000;
    queue_size = 1024;
    deadband = decimal 1 1;
    temp_high = decimal 550 1;
    peak_shaving_threshold_kw = decimal 1000 1;
    max_discharge_kw = decimal 300 1;
    min_discharge_soc = decimal 200 1;
    broker_host = copy_string 128 (some (literal "127.0.0.1"));
    broker_port = 1883;
    mqtt_topic = copy_string 128 (some (literal "edgeflow/telemetry"));
    mqtt_alarm_topic = copy_string 128 (some (literal "edgeflow/alarm"));
    mqtt_heartbeat_topic = copy_string 128 (some (literal "edgeflow/heartbeat"));
    log_dir = copy_string 128 (some (literal "/tmp/edgeflow"));
    metrics_path = copy_string 128 (some (literal "/tmp/edgeflow/metrics.prom"));
    cache_path = copy_string 128 (some (literal "/tmp/edgeflow/offline-cache.jsonl"));
    use_sqlite = true;
    sqlite_path = copy_string 128 (some (literal "/tmp/edgeflow/edgeflow.db"));
    mqtt_replay_batch = 50;
    mqtt_keepalive_sec = 60;
    watchdog_interval_ms = 2000;
    heartbeat_interval_ms = 5000;
    modbus_transport = copy_string 8 (some (literal "rtu"));
    modbus_tcp_host = copy_string 128 (some (literal "127.0.0.1"));
    modbus_tcp_port = 502;
    modbus_slave_id = 1;
    modbus_baud_rate = 9600;
    modbus_parity = b'N';
    modbus_data_bits = 8;
    modbus_stop_bits = 1;
    modbus_timeout_ms = 500;
  }

  module _ {J : Type 0} (cjson : Cjson J Double) where
    unfoldable pub json_copy_uint : ℕ → J → CString → ℕ → ℕ
    json_copy_uint width root key dst = elim (value_at (cjson.item root key) cjson.number_value) [
      | none ↦ dst
      | some d ↦ to_uint width d
    ]

    unfoldable pub json_copy_uint32 : J → CString → ℕ → ℕ
    unfolding json_copy_uint
    json_copy_uint32 root key dst = json_copy_uint 32 root key dst

    unfoldable pub json_copy_uint16 : J → CString → ℕ → ℕ
    unfolding json_copy_uint
    json_copy_uint16 root key dst = json_copy_uint 16 root key dst

    unfoldable pub json_copy_uint8 : J → CString → ℕ → ℕ
    unfolding json_copy_uint
    json_copy_uint8 root key dst = json_copy_uint 8 root key dst

    -- The copies of all keys over what `cfg` holds.
    unfoldable pub config_of : J → GatewayConfig Double → GatewayConfig Double
    config_of root cfg = record {
      device_id = json_copy_string cjson root (literal "device_id") cfg.device_id 32;
      simulate = json_copy_bool cjson root (literal "simulate") cfg.simulate;
      serial_device = json_copy_string cjson root (literal "serial_device") cfg.serial_device 128;
      poll_interval_ms = json_copy_uint32 root (literal "poll_interval_ms") cfg.poll_interval_ms;
      queue_size = json_copy_uint32 root (literal "queue_size") cfg.queue_size;
      deadband = json_copy_double cjson root (literal "deadband") cfg.deadband;
      temp_high = json_copy_double cjson root (literal "temp_high") cfg.temp_high;
      peak_shaving_threshold_kw =
          json_copy_double cjson root (literal "peak_shaving_threshold_kw")
            cfg.peak_shaving_threshold_kw;
      max_discharge_kw =
          json_copy_double cjson root (literal "max_discharge_kw") cfg.max_discharge_kw;
      min_discharge_soc =
          json_copy_double cjson root (literal "min_discharge_soc") cfg.min_discharge_soc;
      broker_host = json_copy_string cjson root (literal "broker_host") cfg.broker_host 128;
      broker_port = json_copy_uint16 root (literal "broker_port") cfg.broker_port;
      mqtt_topic = json_copy_string cjson root (literal "mqtt_topic") cfg.mqtt_topic 128;
      mqtt_alarm_topic =
          json_copy_string cjson root (literal "mqtt_alarm_topic") cfg.mqtt_alarm_topic 128;
      mqtt_heartbeat_topic =
          json_copy_string cjson root (literal "mqtt_heartbeat_topic") cfg.mqtt_heartbeat_topic 128;
      log_dir = json_copy_string cjson root (literal "log_dir") cfg.log_dir 128;
      metrics_path = json_copy_string cjson root (literal "metrics_path") cfg.metrics_path 128;
      cache_path = json_copy_string cjson root (literal "cache_path") cfg.cache_path 128;
      use_sqlite = json_copy_bool cjson root (literal "use_sqlite") cfg.use_sqlite;
      sqlite_path = json_copy_string cjson root (literal "sqlite_path") cfg.sqlite_path 128;
      mqtt_replay_batch = json_copy_uint32 root (literal "mqtt_replay_batch") cfg.mqtt_replay_batch;
      mqtt_keepalive_sec =
          json_copy_uint32 root (literal "mqtt_keepalive_sec") cfg.mqtt_keepalive_sec;
      watchdog_interval_ms =
          json_copy_uint32 root (literal "watchdog_interval_ms") cfg.watchdog_interval_ms;
      heartbeat_interval_ms =
          json_copy_uint32 root (literal "heartbeat_interval_ms") cfg.heartbeat_interval_ms;
      modbus_transport =
          json_copy_string cjson root (literal "modbus_transport") cfg.modbus_transport 8;
      modbus_tcp_host =
          json_copy_string cjson root (literal "modbus_tcp_host") cfg.modbus_tcp_host 128;
      modbus_tcp_port = json_copy_uint16 root (literal "modbus_tcp_port") cfg.modbus_tcp_port;
      modbus_slave_id = json_copy_uint8 root (literal "modbus_slave_id") cfg.modbus_slave_id;
      modbus_baud_rate = json_copy_uint32 root (literal "modbus_baud_rate") cfg.modbus_baud_rate;
      modbus_parity = json_copy_parity cjson root (literal "modbus_parity") cfg.modbus_parity;
      modbus_data_bits = json_copy_uint8 root (literal "modbus_data_bits") cfg.modbus_data_bits;
      modbus_stop_bits = json_copy_uint8 root (literal "modbus_stop_bits") cfg.modbus_stop_bits;
      modbus_timeout_ms = json_copy_uint32 root (literal "modbus_timeout_ms") cfg.modbus_timeout_ms;
    }

    -- Behind the parsing; whether it returns 0, and `*cfg`.
    unfoldable pub load_root : Option J → Bool × GatewayConfig Double
    unfolding config_of
    load_root none = (false, gateway_config_defaults)
    load_root (some root) =
        if cjson.is_object root
        then (true, config_of root gateway_config_defaults)
        else (false, gateway_config_defaults)

    -- `text` is what `read_file` gives for the path, none if it fails.
    unfoldable pub gateway_config_load : Option CString → Bool × GatewayConfig Double
    unfolding load_root
    gateway_config_load none = (false, gateway_config_defaults)
    gateway_config_load (some text) = load_root (cjson.parse text)

-- ===== src/Config/Fits.antt =====
-- Every configuration that platform/config.c gives fits its buffers and its integers.
use edgeflow_energy_gateway.Common.{
  ℕ, ◌<◌, ◌^◌, Bool-cases, Option, none, some, Option-cases, inl, inr, length, arith,
}
use edgeflow_energy_gateway.Floats.{Floats}
use edgeflow_energy_gateway.Text.{CString, literal, length-copy_string}
use edgeflow_energy_gateway.Model.Types.{GatewayConfig}
use edgeflow_energy_gateway.Config.{
  Cjson, value_at, json_copy_string, json_copy_uint, json_copy_uint32, json_copy_uint16,
  json_copy_uint8, gateway_config_defaults, config_of, load_root, gateway_config_load,
}

-- Room for the NUL of every string, and the widths of the integers.
pub record ConfigFits {D : Type 0} (cfg : GatewayConfig D) : Type 0 where
  pub device_id : length cfg.device_id < 32
  pub serial_device : length cfg.serial_device < 128
  pub poll_interval_ms : cfg.poll_interval_ms < 2 ^ 32
  pub queue_size : cfg.queue_size < 2 ^ 32
  pub broker_host : length cfg.broker_host < 128
  pub broker_port : cfg.broker_port < 2 ^ 16
  pub mqtt_topic : length cfg.mqtt_topic < 128
  pub mqtt_alarm_topic : length cfg.mqtt_alarm_topic < 128
  pub mqtt_heartbeat_topic : length cfg.mqtt_heartbeat_topic < 128
  pub log_dir : length cfg.log_dir < 128
  pub metrics_path : length cfg.metrics_path < 128
  pub cache_path : length cfg.cache_path < 128
  pub sqlite_path : length cfg.sqlite_path < 128
  pub mqtt_replay_batch : cfg.mqtt_replay_batch < 2 ^ 32
  pub mqtt_keepalive_sec : cfg.mqtt_keepalive_sec < 2 ^ 32
  pub watchdog_interval_ms : cfg.watchdog_interval_ms < 2 ^ 32
  pub heartbeat_interval_ms : cfg.heartbeat_interval_ms < 2 ^ 32
  pub modbus_transport : length cfg.modbus_transport < 8
  pub modbus_tcp_host : length cfg.modbus_tcp_host < 128
  pub modbus_tcp_port : cfg.modbus_tcp_port < 2 ^ 16
  pub modbus_slave_id : cfg.modbus_slave_id < 2 ^ 8
  pub modbus_baud_rate : cfg.modbus_baud_rate < 2 ^ 32
  pub modbus_data_bits : cfg.modbus_data_bits < 2 ^ 8
  pub modbus_stop_bits : cfg.modbus_stop_bits < 2 ^ 8
  pub modbus_timeout_ms : cfg.modbus_timeout_ms < 2 ^ 32

module _ {J D : Type 0} (cjson : Cjson J D) where
  length-json_copy_string :
      (root : J) (key dst : CString) (n : ℕ)
      → length dst < n
      → length (json_copy_string cjson root key dst n) < n
  unfolding json_copy_string
  length-json_copy_string root key dst n h =
      elim (Option-cases (value_at (cjson.item root key) cjson.string_value)) [
        | inl e ↦ rw (e, json_copy_string) h
        | inr (s, e) ↦ rw (e, json_copy_string) (length-copy_string n (some s) (omega (arith, h)))
      ]

module _ ⦃f : Floats⦄ where
  open f use {Double, to_uint}

  defaults-ConfigFits : ConfigFits gateway_config_defaults
  unfolding gateway_config_defaults
  defaults-ConfigFits = omega (
    arith,
    length-copy_string 32 (some (literal "gw-dev")) (omega arith),
    length-copy_string 128 (some (literal "/dev/ttyUSB0")) (omega arith),
    length-copy_string 128 (some (literal "127.0.0.1")) (omega arith),
    length-copy_string 128 (some (literal "edgeflow/telemetry")) (omega arith),
    length-copy_string 128 (some (literal "edgeflow/alarm")) (omega arith),
    length-copy_string 128 (some (literal "edgeflow/heartbeat")) (omega arith),
    length-copy_string 128 (some (literal "/tmp/edgeflow")) (omega arith),
    length-copy_string 128 (some (literal "/tmp/edgeflow/metrics.prom")) (omega arith),
    length-copy_string 128 (some (literal "/tmp/edgeflow/offline-cache.jsonl")) (omega arith),
    length-copy_string 128 (some (literal "/tmp/edgeflow/edgeflow.db")) (omega arith),
    length-copy_string 8 (some (literal "rtu")) (omega arith),
    length-copy_string 128 (some (literal "127.0.0.1")) (omega arith),
  )

  module _ {J : Type 0} (cjson : Cjson J Double)
      (narrow : (w : ℕ) (d : Double) → to_uint w d < 2 ^ w) where
    json_copy_uint-lt :
        (w : ℕ) (root : J) (key : CString) (dst : ℕ)
        → dst < 2 ^ w
        → json_copy_uint cjson w root key dst < 2 ^ w
    unfolding json_copy_uint
    json_copy_uint-lt w root key dst h =
        elim (Option-cases (value_at (cjson.item root key) cjson.number_value)) [
          | inl e ↦ rw (e, json_copy_uint) h
          | inr (d, e) ↦ rw (e, json_copy_uint) (narrow w d)
        ]

    config_of-ConfigFits :
        (root : J) (cfg : GatewayConfig Double)
        → ConfigFits cfg
        → ConfigFits (config_of cjson root cfg)
    unfolding config_of json_copy_uint32 json_copy_uint16 json_copy_uint8
    config_of-ConfigFits root cfg v = record {
      device_id =
          length-json_copy_string cjson root (literal "device_id") cfg.device_id 32 v.device_id;
      serial_device =
          length-json_copy_string cjson root (literal "serial_device") cfg.serial_device 128
            v.serial_device;
      poll_interval_ms =
          json_copy_uint-lt 32 root (literal "poll_interval_ms") cfg.poll_interval_ms
            v.poll_interval_ms;
      queue_size = json_copy_uint-lt 32 root (literal "queue_size") cfg.queue_size v.queue_size;
      broker_host =
          length-json_copy_string cjson root (literal "broker_host") cfg.broker_host 128
            v.broker_host;
      broker_port = json_copy_uint-lt 16 root (literal "broker_port") cfg.broker_port v.broker_port;
      mqtt_topic =
          length-json_copy_string cjson root (literal "mqtt_topic") cfg.mqtt_topic 128 v.mqtt_topic;
      mqtt_alarm_topic =
          length-json_copy_string cjson root (literal "mqtt_alarm_topic") cfg.mqtt_alarm_topic 128
            v.mqtt_alarm_topic;
      mqtt_heartbeat_topic =
          length-json_copy_string cjson root (literal "mqtt_heartbeat_topic")
            cfg.mqtt_heartbeat_topic 128 v.mqtt_heartbeat_topic;
      log_dir = length-json_copy_string cjson root (literal "log_dir") cfg.log_dir 128 v.log_dir;
      metrics_path =
          length-json_copy_string cjson root (literal "metrics_path") cfg.metrics_path 128
            v.metrics_path;
      cache_path =
          length-json_copy_string cjson root (literal "cache_path") cfg.cache_path 128 v.cache_path;
      sqlite_path =
          length-json_copy_string cjson root (literal "sqlite_path") cfg.sqlite_path 128
            v.sqlite_path;
      mqtt_replay_batch =
          json_copy_uint-lt 32 root (literal "mqtt_replay_batch") cfg.mqtt_replay_batch
            v.mqtt_replay_batch;
      mqtt_keepalive_sec =
          json_copy_uint-lt 32 root (literal "mqtt_keepalive_sec") cfg.mqtt_keepalive_sec
            v.mqtt_keepalive_sec;
      watchdog_interval_ms =
          json_copy_uint-lt 32 root (literal "watchdog_interval_ms") cfg.watchdog_interval_ms
            v.watchdog_interval_ms;
      heartbeat_interval_ms =
          json_copy_uint-lt 32 root (literal "heartbeat_interval_ms") cfg.heartbeat_interval_ms
            v.heartbeat_interval_ms;
      modbus_transport =
          length-json_copy_string cjson root (literal "modbus_transport") cfg.modbus_transport 8
            v.modbus_transport;
      modbus_tcp_host =
          length-json_copy_string cjson root (literal "modbus_tcp_host") cfg.modbus_tcp_host 128
            v.modbus_tcp_host;
      modbus_tcp_port =
          json_copy_uint-lt 16 root (literal "modbus_tcp_port") cfg.modbus_tcp_port
            v.modbus_tcp_port;
      modbus_slave_id =
          json_copy_uint-lt 8 root (literal "modbus_slave_id") cfg.modbus_slave_id
            v.modbus_slave_id;
      modbus_baud_rate =
          json_copy_uint-lt 32 root (literal "modbus_baud_rate") cfg.modbus_baud_rate
            v.modbus_baud_rate;
      modbus_data_bits =
          json_copy_uint-lt 8 root (literal "modbus_data_bits") cfg.modbus_data_bits
            v.modbus_data_bits;
      modbus_stop_bits =
          json_copy_uint-lt 8 root (literal "modbus_stop_bits") cfg.modbus_stop_bits
            v.modbus_stop_bits;
      modbus_timeout_ms =
          json_copy_uint-lt 32 root (literal "modbus_timeout_ms") cfg.modbus_timeout_ms
            v.modbus_timeout_ms;
    }

    load_root-ConfigFits : (root : Option J) → ConfigFits (load_root cjson root).1
    unfolding load_root
    load_root-ConfigFits none = defaults-ConfigFits
    load_root-ConfigFits (some root) = elim (Bool-cases (cjson.is_object root)) [
      | inl e ↦
          rw (e, load_root) (config_of-ConfigFits root gateway_config_defaults defaults-ConfigFits)
      | inr e ↦ rw (e, load_root) defaults-ConfigFits
    ]

    -- Whatever file is loaded, readable or not, the configuration behind the call fits: every string
    -- leaves room for its NUL and every integer is within its width, if a conversion to an unsigned
    -- integer gives a number of its width.
    pub load-ConfigFits : (text : Option CString) → ConfigFits (gateway_config_load cjson text).1
    unfolding gateway_config_load
    load-ConfigFits none = defaults-ConfigFits
    load-ConfigFits (some text) = load_root-ConfigFits (cjson.parse text)

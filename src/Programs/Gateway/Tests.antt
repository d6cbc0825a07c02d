-- ===== src/Programs/Gateway/Tests.antt =====
-- The theorems on the two programs at a concrete run: the world counts the open sockets,
-- database connections and files.
use edgeflow_energy_gateway.Common.{
  ℕ, ◌+◌, ◌-◌, ◌≡◌, refl, arith, true, false, none, some, [], ◌∷◌, ℤ, length,
}
use edgeflow_energy_gateway.Floats.Scaled.{scaled}
use edgeflow_energy_gateway.Text.{literal}
use edgeflow_energy_gateway.Files.{Files}
use edgeflow_energy_gateway.Model.Samples.{flat_point}
use edgeflow_energy_gateway.Adapter.{DeviceAdapter, adapter_registry_register}
use edgeflow_energy_gateway.Config.{
  Cjson, gateway_config_load, json_copy_bool, json_copy_uint32, gateway_config_defaults,
}
use edgeflow_energy_gateway.Config.File.{read_file, load_path}
use edgeflow_energy_gateway.App.Life.{gateway_app_init}
use edgeflow_energy_gateway.Storage.{storage_open}
use edgeflow_energy_gateway.Ring.{spsc_ring_init}
use edgeflow_energy_gateway.Mqtt.Wire.{wrote}
use edgeflow_energy_gateway.Mqtt.Session.Sockets.{CountsSockets}
use edgeflow_energy_gateway.Storage.Handles.{CountsHandles}
use edgeflow_energy_gateway.Watchdog.{Notify}
use edgeflow_energy_gateway.App.{Env}
use edgeflow_energy_gateway.App.Start.{Round}
use edgeflow_energy_gateway.Modbus.Client.{Libmodbus, client_start}
use edgeflow_energy_gateway.Modbus.Plugin.{Statics, modbus_adapter_fill}
use edgeflow_energy_gateway.App.World.Modbus.{LibmodbusLeaves, modbus_adapter-AdapterLeaves}
use edgeflow_energy_gateway.App.World.Leaves.{CallsLeave, NetLeaves, StatementsLeave, AdapterLeaves}
use edgeflow_energy_gateway.Files.Kept.{CountsStreams}
use edgeflow_energy_gateway.Programs.Gateway.Streams.{streams-gateway_main}
use edgeflow_energy_gateway.Programs.{parse_config_path}
use edgeflow_energy_gateway.Programs.Tool.{Tool, cmd_validate_config}
use edgeflow_energy_gateway.Programs.Agree.{validate_config-gateway_main}
use edgeflow_energy_gateway.Programs.Gateway.{Course, gateway_main}
use edgeflow_energy_gateway.Programs.Gateway.Leaves.{DatabaseLeaves, FilesLeave}
use edgeflow_energy_gateway.Programs.Gateway.Sockets.{sockets-gateway_main}
use edgeflow_energy_gateway.Programs.Gateway.Handles.{handles-gateway_main}

record Port : Type 0 where
  sockets : ℕ
  handles : ℕ
  streams : ℕ

abbrev Harbour : Type 0
Harbour = Statics Port ℤ

abbrev sockets_of : Harbour → ℕ
sockets_of w = w.outside.sockets

abbrev handles_of : Harbour → ℕ
handles_of w = w.outside.handles

-- A broker that acknowledges a connection and takes every byte, a database that stores every row.
abbrev harbour : Env Harbour ℤ
harbour = record {
  sqlite = record {
    open_db = λ path w.
        (true, record w { outside = record w.outside { handles = w.outside.handles + 1 } });
    exec_schema = λ w. (true, w);
    close_db = λ w. record w { outside = record w.outside { handles = w.outside.handles - 1 } };
    insert_telemetry = λ r w. (some 1, w);
    insert_alarm = λ a text w. (true, w);
    insert_command = λ c text w. (true, w);
    select_pending = λ n w. (some [], w);
    mark_uploaded = λ id w. (true, w);
    count_pending = λ w. (some 0, w);
    append_line = λ path text w. (true, w);
  };
  net = record {
    socket =
        λ w. (some 7, record w { outside = record w.outside { sockets = w.outside.sockets + 1 } });
    is_address = λ host. true;
    connect = λ fd host port w. (true, w);
    close = λ fd w. record w { outside = record w.outside { sockets = w.outside.sockets - 1 } };
    write = λ fd bytes w. (wrote (length bytes), w);
    read = λ fd n w. (some (32 ∷ 2 ∷ 0 ∷ 0 ∷ []), w);
    patience = λ w. 0;
  };
  now_ms = λ w. (2000, w);
  write_metrics = λ path m w. w;
}

abbrev unsupervised : Notify Harbour
unsupervised = record {
  path = none;
  socket = λ w. (none, w);
  connect = λ fd path w. (false, w);
  write = λ fd text w. w;
  close = λ fd w. w;
}

-- Every file is two bytes long, and every document is an empty object.
abbrev disk : Files Harbour
disk = record {
  fopen = λ path mode w. (some 3, w);
  seek_end = λ fp w. (true, w);
  seek_start = λ fp w. (true, w);
  ftell = λ fp w. (some 2, w);
  fread = λ fp n w. (literal "{}", w);
  fprint = λ fp text w. w;
  fflush = λ fp w. w;
  fclose = λ fp w. w;
  mkdir = λ path w. w;
}

abbrev empty_objects : Cjson ℕ ℤ
empty_objects = record {
  parse = λ text. some 0;
  is_object = λ j. true;
  item = λ j key. none;
  string_value = λ j. none;
  bool_value = λ j. none;
  number_value = λ j. none;
}

-- A library that makes no context, and the adapter of the gateway over it.
abbrev no_library : Libmodbus Port
no_library = record {
  new_tcp = λ host port w. (none, w);
  new_rtu = λ device baud parity size stop w. (none, w);
  set_slave = λ ctx id w. w;
  set_response_timeout = λ ctx s us w. w;
  connect = λ ctx w. (false, w);
  close = λ ctx w. w;
  free = λ ctx w. w;
  read_registers = λ ctx first n w. (none, w);
}

abbrev modbus : DeviceAdapter Harbour ℤ
modbus = modbus_adapter_fill (λ w. (2000, w)) no_library

abbrev voyage : Course ℤ
voyage = record {
  for_config = true;
  for_app = record { for_storage = true; for_ring = true };
  zeroed = flat_point;
  scratch = flat_point;
  ingress = true;
  worker = true;
  monitor = true;
  turns = Round.ingress ∷ Round.worker ∷ Round.monitor ∷ [];
}

abbrev quay : Harbour
quay = record {
  sim_seq = 0;
  modbus_cfg = none;
  client = client_start;
  stub_seq = 0;
  stub_cfg = none;
  outside = record { sockets = 4; handles = 2; streams = 3 };
}

harbour-CountsSockets : CountsSockets harbour.net sockets_of
harbour-CountsSockets = record {
  opened = λ w fd h. refl;
  not_opened = λ w h. cc;
  sockets-connect = λ fd host port w. refl;
  sockets-write = λ fd bytes w. refl;
  sockets-read = λ fd n w. refl;
  sockets-close = λ fd w h. omega arith;
}

harbour-CountsHandles : CountsHandles harbour.sqlite handles_of
harbour-CountsHandles = record {
  handles-open = λ path w. refl;
  handles-schema = λ w. refl;
  handles-close = λ w h. omega arith;
}

module _ (part : Port → ℕ) where
  abbrev of : Harbour → ℕ
  of w = part w.outside

  quiet : CallsLeave harbour unsupervised of
  quiet = record {
    now_ms = λ w. refl;
    write_metrics = λ path m w. refl;
    notify_write = λ fd text w. refl;
    notify_socket = λ w. refl;
    notify_connect = λ fd path w. refl;
    notify_close = λ fd w. refl;
  }

  stored : StatementsLeave harbour.sqlite of
  stored = record {
    append_line = λ path line w. refl;
    insert_telemetry = λ r w. refl;
    insert_alarm = λ a text w. refl;
    insert_command = λ c text w. refl;
    select_pending = λ n w. refl;
    mark_uploaded = λ id w. refl;
    count_pending = λ w. refl;
  }

  on_disk : FilesLeave disk of
  on_disk = record {
    fopen = λ path mode w. refl;
    seek_end = λ fp w. refl;
    seek_start = λ fp w. refl;
    ftell = λ fp w. refl;
    fread = λ fp n w. refl;
    fprint = λ fp text w. refl;
    fflush = λ fp w. refl;
    fclose = λ fp w. refl;
    mkdir = λ path w. refl;
  }

  no_library_apart : LibmodbusLeaves no_library part
  no_library_apart = record {
    new_tcp = λ host port w. refl;
    new_rtu = λ device baud parity size stop w. refl;
    set_slave = λ ctx id w. refl;
    set_response_timeout = λ ctx s us w. refl;
    connect = λ ctx w. refl;
    close = λ ctx w. refl;
    free = λ ctx w. refl;
    read_registers = λ ctx first n w. refl;
  }

  modbus_apart : AdapterLeaves of modbus
  modbus_apart =
      modbus_adapter-AdapterLeaves no_library part no_library_apart (λ w. (2000, w)) (λ w. refl)

moored : DatabaseLeaves harbour.sqlite sockets_of
moored = record { open_db = λ path w. refl; exec_schema = λ w. refl; close_db = λ w. refl }

afloat : NetLeaves harbour.net handles_of
afloat = record {
  socket = λ w. refl;
  connect = λ fd host port w. refl;
  close = λ fd w. refl;
  write = λ fd bytes w. refl;
  read = λ fd n w. refl;
}

sockets-gateway_main_example :
    (gateway_main disk 2 harbour unsupervised empty_objects modbus voyage
      (literal "edgeflow" ∷ [])
      quay).1.outside.sockets
    ≡ 4
sockets-gateway_main_example =
    sockets-gateway_main disk 2 harbour unsupervised sockets_of harbour-CountsSockets
      (quiet (λ w. w.sockets)) (stored (λ w. w.sockets)) moored (on_disk (λ w. w.sockets))
      empty_objects modbus voyage (literal "edgeflow" ∷ []) quay (modbus_apart (λ w. w.sockets))
      refl

handles-gateway_main_example :
    (gateway_main disk 2 harbour unsupervised empty_objects modbus voyage
      (literal "edgeflow" ∷ [])
      quay).1.outside.handles
    ≡ 2
handles-gateway_main_example =
    handles-gateway_main disk 2 harbour unsupervised handles_of harbour-CountsHandles
      (quiet (λ w. w.handles)) afloat (stored (λ w. w.handles)) (on_disk (λ w. w.handles))
      (λ path w. refl) empty_objects modbus voyage (literal "edgeflow" ∷ []) quay
      (modbus_apart (λ w. w.handles))

-- That run ends well: the gateway starts, publishes and stops.
exits_0 :
    (gateway_main disk 2 harbour unsupervised empty_objects modbus voyage
      (literal "edgeflow" ∷ [])
      quay).0
    ≡ 0
unfolding gateway_main load_path gateway_config_load gateway_app_init storage_open json_copy_bool
    gateway_config_defaults adapter_registry_register spsc_ring_init json_copy_uint32
    modbus_adapter_fill
exits_0 = refl

-- A disk that has no file, and a tool that keeps silent.
abbrev empty_disk : Files Harbour
empty_disk = record disk { fopen = λ path mode w. (none, w) }

abbrev silent : Tool Harbour
silent = record {
  fopen = λ path mode w. (none, w);
  fgets = λ fp n w. (none, w);
  fclose = λ fp w. w;
  print = λ s w. w;
  complain = λ s w. w;
  open_db = λ path w. (false, w);
  count = λ query w. (none, w);
  close_db = λ w. w;
}

refused :
    (cmd_validate_config silent
      (load_path empty_disk empty_objects true)
      (literal "cli" ∷ literal "validate-config" ∷ [])
      quay).0
    ≡ 1
unfolding cmd_validate_config load_path read_file gateway_config_load
refused = refl

validate_config-gateway_main_example :
    gateway_main empty_disk 2 harbour unsupervised empty_objects modbus voyage
      (literal "edgeflow" ∷ [])
      quay
    ≡ (
      1,
      (load_path empty_disk empty_objects true
          (parse_config_path (literal "edgeflow" ∷ []))
          quay).2,
    )
validate_config-gateway_main_example =
    validate_config-gateway_main empty_disk 2 harbour unsupervised empty_objects silent modbus
      voyage (literal "edgeflow") (literal "cli") (literal "validate-config") [] quay (omega arith)
      refused

-- The same disk, which counts its open files.
abbrev counted_disk : Files Harbour
counted_disk = record disk {
  fopen = λ path mode w.
      (some 3, record w { outside = record w.outside { streams = w.outside.streams + 1 } });
  fclose = λ fp w. record w { outside = record w.outside { streams = w.outside.streams - 1 } };
}

counted_disk-CountsStreams : CountsStreams counted_disk (λ w. w.outside.streams)
counted_disk-CountsStreams = record {
  opened = λ path mode w fp h. refl;
  not_opened = λ path mode w h. cc;
  streams-seek_end = λ fp w. refl;
  streams-seek_start = λ fp w. refl;
  streams-ftell = λ fp w. refl;
  streams-fread = λ fp n w. refl;
  streams-fprint = λ fp text w. refl;
  streams-fflush = λ fp w. refl;
  streams-mkdir = λ path w. refl;
  streams-fclose = λ fp w h. omega arith;
}

streams_moored : DatabaseLeaves harbour.sqlite (λ w. w.outside.streams)
streams_moored = record { open_db = λ path w. refl; exec_schema = λ w. refl; close_db = λ w. refl }

streams_afloat : NetLeaves harbour.net (λ w. w.outside.streams)
streams_afloat = record {
  socket = λ w. refl;
  connect = λ fd host port w. refl;
  close = λ fd w. refl;
  write = λ fd bytes w. refl;
  read = λ fd n w. refl;
}

streams-gateway_main_example :
    (gateway_main counted_disk 2 harbour unsupervised empty_objects modbus voyage
      (literal "edgeflow" ∷ [])
      quay).1.outside.streams
    ≡ 3
streams-gateway_main_example =
    streams-gateway_main counted_disk 2 harbour unsupervised (λ w. w.outside.streams)
      counted_disk-CountsStreams (quiet (λ w. w.streams)) streams_afloat (stored (λ w. w.streams))
      streams_moored empty_objects modbus voyage (literal "edgeflow" ∷ []) quay
      (modbus_apart (λ w. w.streams))

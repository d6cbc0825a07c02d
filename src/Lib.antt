-- ===== src/Lib.antt =====
-- EdgeFlow, an edge gateway for energy storage: adapters poll devices, a ring hands the points from
-- the ingress thread to the worker thread, and the worker stores, judges and publishes each point.
--
-- The parts and the files that model them:
--   Model      model/device_model.[ch] and the record of platform/config.h
--   Ring       core/ring.[ch]: Ring.antt has the functions as one thread runs them, which
--              Ring/Queue.antt compares with a queue; Ring/Spsc.antt has the two threads as turns of
--              single atomic accesses
--   Adapter    ingress/adapter.[ch]: the registry; an adapter is a record of its four functions
--   Engine     runtime/state_engine.[ch]: state machine, alarms, peak shaving
--   Scheduler  runtime/command_scheduler.[ch]
--   Storage    platform/storage.[ch], over a record `Sqlite` of statements; the query for pending
--              rows is read step by step
--   Metrics, Heartbeat   platform/metrics.[ch] and platform/heartbeat.[ch]
--   Mqtt       egress/mqtt_session.[ch]: lengths, packets, socket loop, session; over a record
--              `Transport` of socket calls; egress/mqtt_client.[ch] in Mqtt/Client.antt
--   Config     platform/config.c: the defaults, and the file that overrides them, over the records
--              `Files` and `Cjson` of the libraries' calls
--   Modbus     ingress/modbus_rtu.[ch], modbus_serial.[ch], modbus_libmodbus.[ch] and
--              modbus_adapter.[ch]: checksum, serial line, library client, and the adapter over
--              them; Modbus/Plugin.antt has ingress/stub_adapter.[ch] too
--   Clock      common/time_util.[ch]
--   Files      the calls of the C library on files, and Logger   platform/logger.[ch] over them
--   Reactor    core/reactor.[ch], over a record `Epoll` of system calls
--   Watchdog   platform/watchdog.[ch]
--   App        runtime/app.[ch]: one round of each of the three threads, the monitor thread with
--              its reactor, the start and the end of the gateway, and, in App/Start.antt, any
--              sequence of rounds from a start on. App/World carries a predicate of the session and
--              the world through all of it from the single calls of the outside; App/Books does so
--              for the counters
--   Programs   main.c and cli/main.c: their command lines, in Programs/Gateway.antt the gateway from
--              its arguments to its exit code, in Programs/Tool.antt the maintenance tool
--   Common, Floats, Text   numbers and lists, `double`, and C strings, which all of them share
--
-- A function of the code is the definition of its name. State is passed explicitly: a structure
-- goes in and comes out, and `W` is the world behind the system calls. A result code is a Boolean
-- (true for 0), an `Option` or a data type of its own. The guards against NULL structures are left
-- out, since a value is always there; NULL strings, callbacks and out-pointers are options or flags.
-- A fixed `char` array is the string that it holds, cut by `copy_string` where the code cuts it.
--
-- Unsigned integers are natural numbers with their wrap-around written out. `double` is a type with
-- the operations of `Floats`; a theorem that needs facts about them takes `IsIeee`, which
-- Floats/Scaled.antt shows to hold of scaled integers. `IsDatabase`, `CountsHandles`, `IsTransport`,
-- `CountsSockets`, `IsPort`, `IsLibmodbus`, `CountsDescriptors`, `CountsStreams` and `IsTimer` are
-- what the code relies on of SQLite, sockets, a serial line, libmodbus, epoll, files and nanosleep;
-- `IsStream` and `CountsConnections` are the same for the tool. `CallsLeave`, `NetLeaves`,
-- `StatementsLeave`, `DatabaseLeaves`, `FilesLeave`, `LibmodbusLeaves` and `AdapterLeaves` say that
-- calls leave alone a part of the world that others of these are about, as a socket call leaves
-- the tables alone. Storage/Memory.antt and the tests of each part give instances.
--
-- Bounds and fuel: `mqtt_write_all` has as much fuel as bytes and interruptions to come, which is
-- enough on a transport that makes progress; `read_with_timeout` as much as its buffer has bytes and
-- interruptions are to come, since every other read brings a byte or ends the loop; a sleep as much
-- as interruptions are to come and one more; the monitor thread reads its flag as true a given number
-- of times; the loop of `status` has fuel of its own, for which more than the number of lines is
-- enough; numbers are printed with twenty digits, enough for 64 bits; the length encoding has the
-- four bytes of the code.
--
-- Not modelled: the creation of the threads beyond its result, the log output of the parts, what
-- main.c prints itself, its signal handler but for the end of the rounds, the text of the database
-- schema, and the vendored libraries. The functions of the MQTT session run whole, as their mutex
-- makes them, and so does each round of a thread; interleavings inside a round are looked at for the
-- ring alone.
pub mod Common
pub mod Floats
pub mod Text
pub mod Files
pub mod Model
pub mod Ring
pub mod Engine
pub mod Adapter
pub mod Scheduler
pub mod Storage
pub mod Metrics
pub mod Heartbeat
pub mod Logger
pub mod Clock
pub mod Config
pub mod Modbus
pub mod Reactor
pub mod Watchdog
pub mod Mqtt
pub mod App
pub mod Programs

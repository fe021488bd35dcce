-- ===== src/Lib.antt =====
-- Smart Lighting System: lamps and sensors report to a regional server, which commands the lamps and
-- sends its aggregates to a central server, where an administrator reads a snapshot.
--
-- The parts, the files that model them, and how they interact:
-- - Proto: the binary protocol of proto.hpp (messages, put_* and get_*, encoders, decoders) and the
--   frames of framed_tls.hpp. An encoder or decoder that may throw returns a Result. Every other part
--   uses it.
-- - Registry: registry.hpp, the devices of a region and the lamps of each zone.
-- - Db: the database writer, db.hpp and db.cpp: its queue, Db/Statements for what it binds, Db/Execute
--   for the steps of SQLite, and Db/Opening for start and stop.
-- - Central: central_store.hpp and central_tls_server.hpp. Central is the store and what a session
--   does with a message, Central/Session the sessions side by side, each with its chain of reads.
-- - AdminCli: what admin_cli.cpp reads out of the snapshot.
-- - SyncClient: the periodic sync of region_sync_client.hpp, from the registry to the central server,
--   and in SyncClient/Alarm its alarms.
-- - Fsm: the three state machines, ServerFsm of regional_server.cpp, SwitchToState of
--   luminaire_client.cpp and SensorFsm of sensor_udp.cpp.
-- - Outbox: the write queue that DeviceSession and LuminaireClient have.
-- - Region: the regional server. Region/Session is tls_device_server.hpp, Region/Motion and Region/Tick
--   are the callbacks and the timer of regional_server.cpp, Region/Telemetry is
--   udp_telemetry_server.hpp, and Region/Events puts the handlers one after the other.
-- - Lamp: luminaire_client.cpp. Sensor: the datagram of sensor_udp.cpp, and in Sensor/Loop its timers.
-- - System: the parts together. System/Registration is a lamp that registers, System/Motion goes
--   from a sensor's datagram through the regional server to a lamp, System/Sensing and System/Watch
--   keep a sensor and the telemetry server side by side, System/Missed is a sensor's fault, and
--   System/Alarms goes from a region's alarm to the central store.
-- - Base: Boolean tests, lists, maps and machine words. Examples: concrete runs.
--
-- A method or handler is a function of the state that it changes, named as in the code. State that the
-- code shares by reference stands in one record. An integer is a number, with `% 2 ^ w` where the code
-- wraps; Proto/Fits says which numbers a field can hold. Text is a list of bytes. A hash map is an
-- association list, whose order stands for the unspecified order of iteration. A clock reading, a
-- random draw, and the outcome of each network operation are arguments.
--
-- The only fuel is that of Proto.Frame.read_loop: a round takes four bytes at least, so the length of the
-- stream is enough.
--
-- What is not code of the repository is a parameter: the outcomes of network operations, what SQLite and
-- the file system answer (Db/Opening), and what a statement does to the database (Db/Execute).
--
-- Bounds of the model. A handler runs whole: data races between the threads of io_context, and between
-- posted handlers of one session, are not modelled. The host is taken to be little-endian. TLS, the
-- sockets, the timers' durations, the log output and the argument parsing of the main functions are not
-- modelled. An alarm ends in the list of what send_alarm_now was given; what becomes of it is modelled
-- apart, for one alarm, whose chain of operations fails where a later alarm has replaced the socket. The
-- clock of sensor_udp.cpp does not overflow. The uri of a lamp has at most 65535 bytes, so that none of
-- its messages fails to encode (Lamp/Encodes); the exception that a longer one throws is not modelled. What log_alarm
-- asks of SQLite may fail unnoticed: the model lists what it was given. A datagram whose uri has no NUL makes the code read out of
-- bounds: the model has no result there.
pub mod Base
pub mod Proto
pub mod Registry
pub mod Db
pub mod Central
pub mod AdminCli
pub mod SyncClient
pub mod Fsm
pub mod Outbox
pub mod Region
pub mod Lamp
pub mod Sensor
pub mod System
pub mod Examples

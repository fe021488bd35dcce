-- ===== src/Db/Statements.antt =====
-- db.cpp: the SQL statements of the writer, and what its handlers bind to them. An int64_t time stamp is
-- taken to be positive.
use smart_lighting_system.Base.{ℕ, ◌-◌, ◌^◌, List, [], ◌∷◌, map, String, ltb, if◌then◌else◌}
use smart_lighting_system.Proto.Messages.{Bytes}
use smart_lighting_system.Proto.Text.{c_str}
use smart_lighting_system.Db.{
  RegionSyncEvent, DeviceUpsertEvent, LampStatusEvent, FaultEvent, CommandEvent, AlarmRow, Event,
  region_sync, device_upsert, lamp_status, fault, command,
}

-- The members st_region_sync_ to st_command_, and the statement that log_alarm prepares.
pub data Statement : Type 0 where
  st_region_sync st_region_zone_power st_device_upsert st_lamp_status st_fault st_command :
      Statement
  st_alarm : Statement

unfoldable pub sql : Statement → String
sql st_region_sync = "INSERT OR IGNORE INTO region_sync(ts_ms, region_id, version) VALUES(?,?,?);"
sql st_region_zone_power =
    "INSERT INTO region_zone_power(ts_ms, region_id, version, zone_id, power_sum_mw) VALUES(?,?,?,?,?);"
sql st_device_upsert =
    "INSERT INTO devices(uri,type,region_id,zone_id,last_seen_ms,fault,on_state,intensity,power_mw) VALUES(?,?,?,?,?,?,?,?,?) ON CONFLICT(uri) DO UPDATE SET type=excluded.type, region_id=excluded.region_id, zone_id=excluded.zone_id, last_seen_ms=excluded.last_seen_ms, fault=excluded.fault, on_state=excluded.on_state, intensity=excluded.intensity, power_mw=excluded.power_mw;"
sql st_lamp_status =
    "INSERT INTO lamp_status(ts_ms, uri, region_id, zone_id, on_state, intensity, power_mw) VALUES(?,?,?,?,?,?,?);"
sql st_fault = "INSERT INTO faults(ts_ms, uri, region_id, zone_id, code, text) VALUES(?,?,?,?,?,?);"
sql st_command =
    "INSERT INTO commands(ts_ms, uri, region_id, cmd, value, source) VALUES(?,?,?,?,?,?);"
sql st_alarm =
    "INSERT INTO alarm (region_id, ts_unix, device_type, zone_id, code, uri, text) VALUES(?,?,?,?,?,?,?);"

-- A bound value. `below n` is the negative integer - 1 - n.
pub data SqlValue : Type 0 where
  integer below : ℕ → SqlValue
  text : Bytes → SqlValue

-- sqlite3_bind_int of a number of at most 32 bits, which becomes an int.
unfoldable pub bind_int : ℕ → SqlValue
bind_int x = if ltb x (2 ^ 31) then integer x else below (2 ^ 32 - 1 - x)

unfoldable pub bind_int64 : ℕ → SqlValue
bind_int64 x = integer x

-- sqlite3_bind_text of s.c_str() with length -1: up to the first NUL.
unfoldable pub bind_text : Bytes → SqlValue
unfolding c_str
bind_text s = text (c_str s)

-- A statement with its bindings, from the first parameter on, as sqlite3_step runs it.
pub record Execution : Type 0 where
  pub statement : Statement
  pub bindings : List SqlValue

abbrev exec : Statement → List SqlValue → Execution
exec st vs = record { statement = st; bindings = vs }

unfoldable pub zone_power_row : RegionSyncEvent → ℕ × ℕ → Execution
unfolding bind_int bind_int64
zone_power_row e (zone, power) = exec st_region_zone_power (
    bind_int64 e.ts_ms
    ∷ bind_int e.region_id
    ∷ bind_int e.version
    ∷ bind_int zone
    ∷ bind_int power
    ∷ [])

unfoldable pub region_sync_row : RegionSyncEvent → Execution
unfolding bind_int bind_int64
region_sync_row e =
    exec st_region_sync (bind_int64 e.ts_ms ∷ bind_int e.region_id ∷ bind_int e.version ∷ [])

unfoldable pub device_row : DeviceUpsertEvent → Execution
unfolding bind_int bind_int64 bind_text
device_row e = exec st_device_upsert (
    bind_text e.uri
    ∷ bind_int e.type
    ∷ bind_int e.region_id
    ∷ bind_int e.zone_id
    ∷ bind_int64 e.ts_ms
    ∷ bind_int (if e.fault then 1 else 0)
    ∷ bind_int e.on_state
    ∷ bind_int e.intensity
    ∷ bind_int e.power_mw
    ∷ [])

unfoldable pub lamp_status_row : LampStatusEvent → Execution
unfolding bind_int bind_int64 bind_text
lamp_status_row e = exec st_lamp_status (
    bind_int64 e.ts_ms
    ∷ bind_text e.uri
    ∷ bind_int e.region_id
    ∷ bind_int e.zone_id
    ∷ bind_int e.on_state
    ∷ bind_int e.intensity
    ∷ bind_int e.power_mw
    ∷ [])

unfoldable pub fault_row : FaultEvent → Execution
unfolding bind_int bind_int64 bind_text
fault_row e = exec st_fault (
    bind_int64 e.ts_ms
    ∷ bind_text e.uri
    ∷ bind_int e.region_id
    ∷ bind_int e.zone_id
    ∷ bind_int e.code
    ∷ bind_text e.text
    ∷ [])

unfoldable pub command_row : CommandEvent → Execution
unfolding bind_int bind_int64 bind_text
command_row e = exec st_command (
    bind_int64 e.ts_ms
    ∷ bind_text e.uri
    ∷ bind_int e.region_id
    ∷ bind_int e.cmd
    ∷ bind_int e.value
    ∷ bind_text e.source
    ∷ [])

-- The row of log_alarm, which runs on the caller's thread and ignores every result.
unfoldable pub alarm_row : AlarmRow → Execution
unfolding bind_int bind_text
alarm_row a = exec st_alarm (
    bind_int a.region_id
    ∷ bind_int a.ts_unix
    ∷ bind_int a.device_type
    ∷ bind_int a.zone_id
    ∷ bind_int a.code
    ∷ bind_text a.uri
    ∷ bind_text a.text
    ∷ [])

-- What `handle` steps through, one statement after the other.
unfoldable pub executions : Event → List Execution
unfolding region_sync_row zone_power_row device_row lamp_status_row fault_row command_row
executions (region_sync e) = region_sync_row e ∷ map (zone_power_row e) e.zone_power_sum
executions (device_upsert e) = device_row e ∷ []
executions (lamp_status e) = lamp_status_row e ∷ []
executions (fault e) = fault_row e ∷ []
executions (command e) = command_row e ∷ []

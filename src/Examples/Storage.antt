-- ===== src/Examples/Storage.antt =====
-- An alarm on its way to the central server, the database, and a registry in two orders.
use mathlib.Core.List.{Permᴰ}
use mathlib.Core.Quot
use smart_lighting_system.Base.{ℕ, ◌≡◌, refl, true, [], ◌∷◌, ◌++◌, List, none, some, arith, nat_eq}
use smart_lighting_system.Base.Assoc.{lookup}
use smart_lighting_system.Proto.MsgType
use smart_lighting_system.Proto.Fits.{AlarmUpFits}
use smart_lighting_system.Proto.Encode.{encode_alarm_ack}
use smart_lighting_system.Proto.Frame.{frame}
use smart_lighting_system.Proto.RoundTrip.Central.{alarm_up_layout}
use smart_lighting_system.Registry.{Registry, zone_device_summary, zone_power_sum}
use smart_lighting_system.Registry.Unordered.{same_table}
use smart_lighting_system.Db.{RegionSyncEvent, Event, fault, region_sync, new_writer, start}
use smart_lighting_system.Db.Statements.{
  Statement, st_fault, st_region_zone_power, Execution, executions,
}
use smart_lighting_system.Db.Execute.{SyncStored, handle, handle-SyncStored}
use smart_lighting_system.Db.Opening.{
  Answers, StartsOrThrows, start_new, start_new_lem, Connection, Stopped, stop, stop_lem,
}
use smart_lighting_system.Db.Rows.{event_of, event_of-executions}
use smart_lighting_system.Central.{alarm_record, on_message, max_alarms}
use smart_lighting_system.Central.Alarms.{last}
use smart_lighting_system.SyncClient.{failed, done}
use smart_lighting_system.SyncClient.Alarm.{over, post_alarm, run_alarm}
use smart_lighting_system.SyncClient.AlarmOnce.{AtMostOnce, post_alarm-AtMostOnce}
use smart_lighting_system.System.Alarms.{ack_of, good_chain, alarm_reaches_central}
use smart_lighting_system.Examples.{
  lamp_uri, sensor_uri, lit_lamp, quiet_sensor, two_devices, new_central, lamp_alarm,
}

lamp_alarm-Fits : AlarmUpFits lamp_alarm
lamp_alarm-Fits = omega arith

alarm_reaches_central_example :
    let ack_payload = encode_alarm_ack (ack_of lamp_alarm) in
    let (c', answers) = on_message 77 (MsgType.alarm_up ∷ alarm_up_layout lamp_alarm) new_central in
    let turn =
      run_alarm (post_alarm lamp_alarm) (good_chain [] (MsgType.alarm_ack ∷ ack_payload)) in
    (turn.sent ≡ frame MsgType.alarm_up (alarm_up_layout lamp_alarm) ∷ [])
    × (c'.store.alarms ≡ last max_alarms ([] ++ alarm_record lamp_alarm ∷ []))
    × (answers ≡ (MsgType.alarm_ack, ack_payload) ∷ [])
    × (turn.ack ≡ ack_of lamp_alarm ∷ [])
    × (turn.phase ≡ over)
alarm_reaches_central_example = alarm_reaches_central lamp_alarm 77 [] new_central lamp_alarm-Fits

post_alarm-AtMostOnce_example : AtMostOnce lamp_alarm (
    run_alarm (post_alarm lamp_alarm) (done [] ∷ done [] ∷ done [] ∷ failed ∷ failed ∷ failed ∷ []))
post_alarm-AtMostOnce_example =
    post_alarm-AtMostOnce lamp_alarm (done [] ∷ done [] ∷ done [] ∷ failed ∷ failed ∷ failed ∷ [])
      lamp_alarm-Fits (omega arith)

-- A fault in a region of more than 31 bits.
abbrev lamp_fault : Event
lamp_fault = fault (record {
  ts_ms = 1700000000000;
  uri = lamp_uri;
  region_id = 4000000000;
  zone_id = 7;
  code = 1;
  text = 120 ∷ [];
})

-- The database opens, and the schema file is missing.
abbrev no_schema : Answers
no_schema = record {
  opens = true;
  accepts = λ sql. true;
  compiles = λ st. true;
  schema = some none;
}

start_new_lem_example : StartsOrThrows no_schema (start_new no_schema)
start_new_lem_example = start_new_lem no_schema

abbrev busy : Connection
busy = record {
  db_open = true;
  prepared = st_fault ∷ [];
  writer = record (start new_writer) { q = lamp_fault ∷ [] };
}

stop_lem_example : Stopped busy (stop busy)
unfolding start
stop_lem_example = stop_lem busy refl

event_of-executions_example : event_of (executions lamp_fault) ≡ some lamp_fault
event_of-executions_example = event_of-executions lamp_fault (omega arith)

abbrev other_order : Registry
other_order = record {
  dev = (sensor_uri, quiet_sensor) ∷ (lamp_uri, lit_lamp) ∷ [];
  zone_to_lamps = [];
}

same_table_example :
    (zone_device_summary two_devices ≡ zone_device_summary other_order)
    × (lookup 7 (zone_power_sum two_devices) ≡ lookup 7 (zone_power_sum other_order))
same_table_example =
    same_table two_devices other_order 7 (omega arith) (Quot.sound (Permᴰ.swap refl refl))

-- A database that is the list of what ran, and refuses the powers of a zone.
abbrev keep_rows : Execution → List Execution → List Execution × ℕ
keep_rows x db = (db ++ x ∷ [], code x.statement)
  where
    code : Statement → ℕ
    code st_region_zone_power = 19
    code _ = 101

abbrev two_zones : RegionSyncEvent
two_zones = record {
  ts_ms = 77;
  region_id = 3;
  version = 5;
  zone_power_sum = (7, 94000) ∷ (8, 0) ∷ [];
}

-- The row of the region stays, and the second zone is never tried.
handle-SyncStored_example :
    SyncStored keep_rows two_zones [] (handle keep_rows (region_sync two_zones) [])
handle-SyncStored_example = handle-SyncStored keep_rows two_zones []

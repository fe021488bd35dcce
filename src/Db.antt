-- ===== src/Db.antt =====
-- db.hpp and db.cpp: the queue of the database writer. What SQLite does with a statement is not
-- modelled: `handled` lists the events handed to `handle`, and `alarm_calls` those handed to
-- `log_alarm`, which tries an INSERT on the thread of the caller and ignores every error of SQLite. A
-- time stamp is an argument.
pub mod Writer
pub mod Statements
pub mod Execute
pub mod Opening
pub mod Rows
use smart_lighting_system.Base.{ℕ, Bool, true, false, List, [], ◌∷◌, ◌++◌, if◌then◌else◌}
use smart_lighting_system.Proto.Messages.{Bytes}

pub record RegionSyncEvent : Type 0 where
  pub ts_ms : ℕ
  pub region_id : ℕ
  pub version : ℕ
  pub zone_power_sum : List (ℕ × ℕ)

pub record DeviceUpsertEvent : Type 0 where
  pub ts_ms : ℕ
  pub uri : Bytes
  pub type : ℕ
  pub region_id : ℕ
  pub zone_id : ℕ
  pub fault : Bool
  pub on_state : ℕ
  pub intensity : ℕ
  pub power_mw : ℕ

pub record LampStatusEvent : Type 0 where
  pub ts_ms : ℕ
  pub uri : Bytes
  pub region_id : ℕ
  pub zone_id : ℕ
  pub on_state : ℕ
  pub intensity : ℕ
  pub power_mw : ℕ

pub record FaultEvent : Type 0 where
  pub ts_ms : ℕ
  pub uri : Bytes
  pub region_id : ℕ
  pub zone_id : ℕ
  pub code : ℕ
  pub text : Bytes

pub record CommandEvent : Type 0 where
  pub ts_ms : ℕ
  pub uri : Bytes
  pub region_id : ℕ
  pub cmd : ℕ
  pub value : ℕ
  pub source : Bytes

-- using Event = std::variant<...>
pub data Event : Type 0 where
  region_sync : RegionSyncEvent → Event
  device_upsert : DeviceUpsertEvent → Event
  lamp_status : LampStatusEvent → Event
  fault : FaultEvent → Event
  command : CommandEvent → Event

pub record AlarmRow : Type 0 where
  pub region_id : ℕ
  pub ts_unix : ℕ
  pub device_type : ℕ
  pub zone_id : ℕ
  pub code : ℕ
  pub uri : Bytes
  pub text : Bytes

-- `worker` tells whether the worker thread is in its loop.
pub record DbWriter : Type 0 where
  pub q : List Event
  pub running : Bool
  pub stop_requested : Bool
  pub worker : Bool
  pub handled : List Event
  pub alarm_calls : List AlarmRow

abbrev pub new_writer : DbWriter
new_writer = record {
  q = [];
  running = false;
  stop_requested = false;
  worker = false;
  handled = [];
  alarm_calls = [];
}

-- SQLite opens the file, and accepts the schema and the statements.
unfoldable pub start : DbWriter → DbWriter
start w =
    if w.running then w else record w { stop_requested = false; running = true; worker = true }

unfoldable pub enqueue : Event → DbWriter → DbWriter
enqueue ev w = if w.running then record w { q = w.q ++ ev ∷ [] } else w

unfoldable pub log_region_sync : ℕ → ℕ → ℕ → List (ℕ × ℕ) → DbWriter → DbWriter
unfolding enqueue
log_region_sync ts region_id version zone_power_sum w =
    enqueue
      (region_sync (record {
        ts_ms = ts;
        region_id = region_id;
        version = version;
        zone_power_sum = zone_power_sum;
      }))
      w

unfoldable pub upsert_device : ℕ → Bytes → ℕ → ℕ → ℕ → Bool → ℕ → ℕ → ℕ → DbWriter → DbWriter
unfolding enqueue
upsert_device ts uri type region_id zone_id has_fault on_state intensity power_mw w =
    enqueue
      (device_upsert (record {
        ts_ms = ts;
        uri = uri;
        type = type;
        region_id = region_id;
        zone_id = zone_id;
        fault = has_fault;
        on_state = on_state;
        intensity = intensity;
        power_mw = power_mw;
      }))
      w

unfoldable pub log_lamp_status : ℕ → Bytes → ℕ → ℕ → ℕ → ℕ → ℕ → DbWriter → DbWriter
unfolding enqueue
log_lamp_status ts uri region_id zone_id on_state intensity power_mw w =
    enqueue
      (lamp_status (record {
        ts_ms = ts;
        uri = uri;
        region_id = region_id;
        zone_id = zone_id;
        on_state = on_state;
        intensity = intensity;
        power_mw = power_mw;
      }))
      w

unfoldable pub log_fault : ℕ → Bytes → ℕ → ℕ → ℕ → Bytes → DbWriter → DbWriter
unfolding enqueue
log_fault ts uri region_id zone_id code text w =
    enqueue
      (Event.fault (record {
        ts_ms = ts;
        uri = uri;
        region_id = region_id;
        zone_id = zone_id;
        code = code;
        text = text;
      }))
      w

unfoldable pub log_command : ℕ → Bytes → ℕ → ℕ → ℕ → Bytes → DbWriter → DbWriter
unfolding enqueue
log_command ts uri region_id cmd value source w =
    enqueue
      (command (record {
        ts_ms = ts;
        uri = uri;
        region_id = region_id;
        cmd = cmd;
        value = value;
        source = source;
      }))
      w

-- An alarm does not go through the queue.
unfoldable pub log_alarm : AlarmRow → DbWriter → DbWriter
log_alarm row w = record w { alarm_calls = w.alarm_calls ++ row ∷ [] }

-- A round of `worker_main` that does not wait: it takes the first event, or leaves the loop. An
-- exception of `handle` is swallowed.
unfoldable pub worker_round : DbWriter → List Event → DbWriter
worker_round w [] = if w.stop_requested then record w { worker = false } else w
worker_round w (ev ∷ rest) = record w { q = rest; handled = w.handled ++ ev ∷ [] }

-- The two halves of `stop`: the request, and what follows the end of the worker.
unfoldable pub request_stop : DbWriter → DbWriter
request_stop w = if w.running then record w { stop_requested = true } else w

unfoldable pub finish_stop : DbWriter → DbWriter
finish_stop w = record w { running = false; q = [] }

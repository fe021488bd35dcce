-- ===== src/SyncClient.antt =====
-- region_sync_client.hpp: the periodic sync of a regional server. The network is the environment: it
-- ends each asynchronous operation with success, with what was read, or with an error.
pub mod Cycle
pub mod EndToEnd
pub mod Alarm
pub mod AlarmOnce
use smart_lighting_system.Base.{ℕ, ◌+◌, List, [], ◌∷◌, Option, none, some, eqb, if◌then◌else◌}
use smart_lighting_system.Base.Words.{u32}
use smart_lighting_system.Proto.Result.{Result, ok, err}
use smart_lighting_system.Proto.MsgType
use smart_lighting_system.Proto.Messages.{Bytes, RegionSyncUp, RegionSyncAck}
use smart_lighting_system.Proto.Bytes.{from_be32}
use smart_lighting_system.Proto.Encode.{encode_region_sync_up}
use smart_lighting_system.Proto.Decode.{decode_region_sync_ack}
use smart_lighting_system.Proto.Frame.{frame, header_length}
use smart_lighting_system.Registry.{Registry, zone_power_sum, zone_device_summary}

-- The asynchronous operation that the client waits for. A handler captures the message `up`.
pub data Phase : Type 0 where
  stopped waiting : Phase
  resolving connecting handshaking : RegionSyncUp → Phase
  writing reading_header : Phase
  reading_body : ℕ → Phase

pub record SyncClient : Type 0 where
  pub region_id : ℕ
  pub version : ℕ
  pub phase : Phase

pub data Outcome : Type 0 where
  failed : Outcome
  done : Bytes → Outcome

-- What a handler leaves: the client, the frame that it starts to write, and the ACK that it prints.
pub record Turn : Type 0 where
  pub client : SyncClient
  pub sent : Option Bytes
  pub ack : Option RegionSyncAck

abbrev quiet : SyncClient → Turn
quiet c = record { client = c; sent = none; ack = none }

unfoldable pub schedule_tick : SyncClient → Turn
schedule_tick c = quiet (record c { phase = waiting })

unfoldable pub sync_message : SyncClient → Registry → RegionSyncUp
sync_message c reg = record {
  region_id = c.region_id;
  version = u32 (c.version + 1);
  zone_power_sum = zone_power_sum reg;
  zone_device_summary = zone_device_summary reg;
}

unfoldable pub do_sync_once : SyncClient → Registry → Turn
do_sync_once c reg =
    quiet (record c { version = u32 (c.version + 1); phase = resolving (sync_message c reg) })

unfoldable pub send_sync : SyncClient → RegionSyncUp → Turn
send_sync c up = record {
  client = record c { phase = writing };
  sent = some (frame MsgType.region_sync_up (encode_region_sync_up up));
  ack = none;
}

abbrev decoded_ack : Result RegionSyncAck → Option RegionSyncAck
decoded_ack (ok a) = some a
decoded_ack (err e) = none

unfoldable pub on_ack : Bytes → Option RegionSyncAck
on_ack [] = none
on_ack (t ∷ p) =
    if eqb t MsgType.region_sync_ack then decoded_ack (decode_region_sync_ack p) else none

unfoldable pub start : SyncClient → Registry → Turn
start c reg = do_sync_once c reg

-- The handler of the operation that the client waits for.
unfoldable pub on_success : Phase → Bytes → SyncClient → Registry → Turn
on_success stopped p c reg = quiet c
on_success waiting p c reg = do_sync_once c reg
on_success (resolving up) p c reg = quiet (record c { phase = connecting up })
on_success (connecting up) p c reg = quiet (record c { phase = handshaking up })
on_success (handshaking up) p c reg = send_sync c up
on_success writing p c reg = quiet (record c { phase = reading_header })
on_success reading_header p c reg = quiet (record c { phase = reading_body (header_length p) })
on_success (reading_body n) p c reg = record {
  client = record c { phase = waiting };
  sent = none;
  ack = on_ack p;
}

-- `if(ec) return;` after the timer, and a log line with `schedule_tick()` everywhere else.
unfoldable pub on_failure : Phase → SyncClient → Turn
on_failure stopped c = quiet c
on_failure waiting c = quiet (record c { phase = stopped })
on_failure (resolving up) c = schedule_tick c
on_failure (connecting up) c = schedule_tick c
on_failure (handshaking up) c = schedule_tick c
on_failure writing c = schedule_tick c
on_failure reading_header c = schedule_tick c
on_failure (reading_body n) c = schedule_tick c

unfoldable pub on_event : SyncClient → Registry → Outcome → Turn
on_event c reg failed = on_failure c.phase c
on_event c reg (done p) = on_success c.phase p c reg

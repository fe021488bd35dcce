-- ===== src/Central.antt =====
-- central_store.hpp and central_tls_server.hpp: the store of the central server, the snapshot for the
-- administrator, and the dispatch of a session. A session returns the messages that it sends.
pub mod Alarms
pub mod Sync
pub mod Snapshot
pub mod Invariant
pub mod Truncated
pub mod Session
use smart_lighting_system.Base.{
  ℕ, ◌-◌, List, [], ◌∷◌, ◌++◌, Option, none, some, nat_eq, eqb, ltb, length, drop, if◌then◌else◌,
}
use smart_lighting_system.Base.Words.{u16}
use smart_lighting_system.Base.Assoc.{lookup, insert}
use smart_lighting_system.Proto.Result.{Result, ok, err, ◌>>=◌}
use smart_lighting_system.Proto.MsgType
use smart_lighting_system.Proto.Messages.{
  Bytes, ZoneDeviceSummary, RegionSyncUp, RegionSyncAck, AlarmUp, AlarmAck,
}
use smart_lighting_system.Proto.Bytes.{put_u8, put_u16, put_u32, put_str}
use smart_lighting_system.Proto.Encode.{encode_region_sync_ack, encode_alarm_ack}
use smart_lighting_system.Proto.Decode.{decode_region_sync_up, decode_alarm_up}
use smart_lighting_system.Db.{DbWriter, log_region_sync, log_alarm}

pub record RegionAggregate : Type 0 where
  pub version : ℕ
  pub zone_power_mw : List (ℕ × ℕ)
  pub zone_summary : List (ℕ × ZoneDeviceSummary)

pub record AlarmRecord : Type 0 where
  pub region_id : ℕ
  pub ts_unix : ℕ
  pub device_type : ℕ
  pub zone_id : ℕ
  pub code : ℕ
  pub uri : Bytes
  pub text : Bytes

pub record CentralStore : Type 0 where
  pub regions : List (ℕ × RegionAggregate)
  pub alarms : List AlarmRecord

abbrev pub empty_store : CentralStore
empty_store = record { regions = []; alarms = [] }

-- The two loops of `upsert_region`, each over an empty map.
unfoldable pub assign_powers : List (ℕ × ℕ) → List (ℕ × ℕ) → List (ℕ × ℕ)
assign_powers m [] = m
assign_powers m (zp ∷ rest) = assign_powers (insert zp.0 zp.1 m) rest

unfoldable pub assign_summaries :
    List (ℕ × ZoneDeviceSummary) → List ZoneDeviceSummary → List (ℕ × ZoneDeviceSummary)
assign_summaries m [] = m
assign_summaries m (zs ∷ rest) = assign_summaries (insert zs.zone_id zs m) rest

unfoldable pub upsert_region :
    ℕ → ℕ → List (ℕ × ℕ) → List ZoneDeviceSummary → CentralStore → CentralStore
upsert_region region_id version zone_power_sum zone_device_summary s = record s {
  regions =
      insert region_id
        (record {
          version = version;
          zone_power_mw = assign_powers [] zone_power_sum;
          zone_summary = assign_summaries [] zone_device_summary;
        })
        s.regions;
}

abbrev pub max_alarms : ℕ
max_alarms = 2000

unfoldable pub push_alarm : AlarmRecord → CentralStore → CentralStore
push_alarm a s =
    let all = s.alarms ++ a ∷ [] in
    record s {
      alarms = if ltb max_alarms (length all) then drop (length all - max_alarms) all else all;
    }

abbrev pub no_summary : ℕ → ZoneDeviceSummary
no_summary zone = record {
  zone_id = zone;
  lamp_total = 0;
  lamp_on = 0;
  lamp_fault = 0;
  sensor_total = 0;
  sensor_fault = 0;
}

abbrev pub summary_or : ZoneDeviceSummary → Option ZoneDeviceSummary → ZoneDeviceSummary
summary_or zs none = zs
summary_or zs (some found) = found

-- The loops of `encode_admin_snapshot`: a zone, the zones of a region, a region, the regions.
unfoldable pub put_zone : Bytes → RegionAggregate → ℕ × ℕ → Bytes
put_zone out agg (zid, pwr) =
    let zs = summary_or (no_summary zid) (lookup zid agg.zone_summary) in
    let b1 = put_u16 (put_u32 (put_u32 out zid) pwr) zs.lamp_total in
    let b2 = put_u16 (put_u16 b1 zs.lamp_on) zs.lamp_fault in
    put_u16 (put_u16 b2 zs.sensor_total) zs.sensor_fault

unfoldable pub put_zones : Bytes → RegionAggregate → List (ℕ × ℕ) → Bytes
put_zones out agg [] = out
put_zones out agg (z ∷ rest) = put_zones (put_zone out agg z) agg rest

unfoldable pub put_region : Bytes → ℕ × RegionAggregate → Bytes
put_region out (rid, agg) =
    let b1 = put_u32 (put_u32 out rid) agg.version in
    put_zones (put_u16 b1 (u16 (length agg.zone_power_mw))) agg agg.zone_power_mw

unfoldable pub put_regions : Bytes → List (ℕ × RegionAggregate) → Bytes
put_regions out [] = out
put_regions out (r ∷ rest) = put_regions (put_region out r) rest

unfoldable pub put_alarm : Bytes → AlarmRecord → Result Bytes
put_alarm out a = do
  let b = put_u32 out a.region_id
  let b = put_u32 b a.ts_unix
  let b = put_u8 b a.device_type
  let b = put_u32 b a.zone_id
  let b = put_u8 b a.code
  b ← put_str b a.uri
  put_str b a.text

unfoldable pub put_alarms : Bytes → List AlarmRecord → Result Bytes
put_alarms out [] = ok out
put_alarms out (a ∷ rest) = do b ← put_alarm out a; put_alarms b rest

unfoldable pub encode_admin_snapshot : CentralStore → Result Bytes
encode_admin_snapshot s =
    let b1 = put_regions (put_u16 [] (u16 (length s.regions))) s.regions in
    put_alarms (put_u16 b1 (u16 (length s.alarms))) s.alarms

pub record Central : Type 0 where
  pub store : CentralStore
  pub db : DbWriter

-- A message as async_send gets it.
abbrev pub OutMsg : Type 0
OutMsg = ℕ × Bytes

unfoldable pub on_region_sync_up : ℕ → RegionSyncUp → Central → Central × List OutMsg
on_region_sync_up ts up c = (
  record {
    store = upsert_region up.region_id up.version up.zone_power_sum up.zone_device_summary c.store;
    db = log_region_sync ts up.region_id up.version up.zone_power_sum c.db;
  },
  (
    MsgType.region_sync_ack,
    encode_region_sync_ack (record { region_id = up.region_id; version = up.version; ok = 1 }),
  )
      ∷ [],
)

abbrev pub alarm_record : AlarmUp → AlarmRecord
alarm_record up = record {
  region_id = up.region_id;
  ts_unix = up.ts_unix;
  device_type = up.device_type;
  zone_id = up.zone_id;
  code = up.code;
  uri = up.uri;
  text = up.text;
}

unfoldable pub on_alarm_up : AlarmUp → Central → Central × List OutMsg
on_alarm_up up c =
    let ar = alarm_record up in
    (
      record {
        store = push_alarm ar c.store;
        db =
            log_alarm
              (record {
                region_id = ar.region_id;
                ts_unix = ar.ts_unix;
                device_type = ar.device_type;
                zone_id = ar.zone_id;
                code = ar.code;
                uri = ar.uri;
                text = ar.text;
              })
              c.db;
      },
      (
        MsgType.alarm_ack,
        encode_alarm_ack (record { region_id = up.region_id; ts_unix = up.ts_unix; ok = 1 }),
      )
          ∷ [],
    )

-- `try { ... } catch`: an exception leaves the server as it was, since each case decodes or encodes
-- before it changes anything.
abbrev pub or_caught {ℓ} :
    {A : Type ℓ} → Result A → Central → (A → Central × List OutMsg) → Central × List OutMsg
or_caught (ok a) c f = f a
or_caught (err e) c f = (c, [])

-- `ts` is the time stamp that the database event gets.
unfoldable pub on_message : ℕ → Bytes → Central → Central × List OutMsg
on_message ts [] c = (c, [])
on_message ts (t ∷ p) c =
    if eqb t MsgType.region_sync_up
    then or_caught (decode_region_sync_up p) c (λ up. on_region_sync_up ts up c)
    else if eqb t MsgType.alarm_up
    then or_caught (decode_alarm_up p) c (λ up. on_alarm_up up c)
    else if eqb t MsgType.admin_snapshot_req
    then or_caught (encode_admin_snapshot c.store) c
        (λ payload. (c, (MsgType.admin_snapshot_ack, payload) ∷ []))
    else (c, [])

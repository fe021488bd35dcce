-- ===== src/Proto/Encode.antt =====
-- The encoders of proto.hpp, and the layout that each one writes.
use smart_lighting_system.Base.{ℕ, List, [], ◌∷◌, length}
use smart_lighting_system.Base.Words.{u16}
use smart_lighting_system.Proto.Result.{Result, ok, ◌>>=◌}
use smart_lighting_system.Proto.Messages.{
  Bytes, RegisterReq, RegisterAck, StatusReport, Command, FaultReport, ZoneDeviceSummary,
  RegionSyncUp, RegionSyncAck, AlarmUp, AlarmAck,
}
use smart_lighting_system.Proto.Bytes.{put_u8, put_u16, put_u32, put_str}

unfoldable pub encode_register_req : RegisterReq → Result Bytes
encode_register_req r = do b ← put_str (put_u8 [] r.type) r.uri; ok (put_u32 b r.zone_id)

unfoldable pub encode_register_ack : RegisterAck → Bytes
encode_register_ack a = put_u32 [] a.server_time_unix

unfoldable pub encode_alarm_up : AlarmUp → Result Bytes
encode_alarm_up a = do
  let b = put_u32 [] a.region_id
  let b = put_u32 b a.ts_unix
  let b = put_u8 b a.device_type
  let b = put_u32 b a.zone_id
  let b = put_u8 b a.code
  b ← put_str b a.uri
  put_str b a.text

unfoldable pub encode_alarm_ack : AlarmAck → Bytes
encode_alarm_ack a = put_u8 (put_u32 (put_u32 [] a.region_id) a.ts_unix) a.ok

unfoldable pub encode_status_report : StatusReport → Result Bytes
encode_status_report s = do
  b ← put_str [] s.uri
  let b = put_u32 b s.zone_id
  let b = put_u8 b s.on
  let b = put_u8 b s.intensity
  ok (put_u32 b s.power_mw)

unfoldable pub encode_command : Command → Result Bytes
encode_command c = do b ← put_str [] c.uri; ok (put_u8 (put_u8 b c.cmd) c.value)

unfoldable pub encode_fault_report : FaultReport → Result Bytes
encode_fault_report f = do
  b ← put_str [] f.uri
  let b = put_u32 b f.zone_id
  let b = put_u8 b f.code
  put_str b f.text

-- The bodies of the two loops of `encode_region_sync_up`, and the loops.
unfoldable pub put_zone_power : Bytes → ℕ × ℕ → Bytes
put_zone_power b zp = put_u32 (put_u32 b zp.0) zp.1

unfoldable pub put_zone_powers : Bytes → List (ℕ × ℕ) → Bytes
put_zone_powers b [] = b
put_zone_powers b (zp ∷ rest) = put_zone_powers (put_zone_power b zp) rest

unfoldable pub put_summary : Bytes → ZoneDeviceSummary → Bytes
put_summary b zs =
    let b1 = put_u16 (put_u32 b zs.zone_id) zs.lamp_total in
    let b2 = put_u16 (put_u16 b1 zs.lamp_on) zs.lamp_fault in
    put_u16 (put_u16 b2 zs.sensor_total) zs.sensor_fault

unfoldable pub put_summaries : Bytes → List ZoneDeviceSummary → Bytes
put_summaries b [] = b
put_summaries b (zs ∷ rest) = put_summaries (put_summary b zs) rest

unfoldable pub encode_region_sync_up : RegionSyncUp → Bytes
encode_region_sync_up s =
    let b0 = put_u32 (put_u32 [] s.region_id) s.version in
    let b1 = put_u16 b0 (u16 (length s.zone_power_sum)) in
    let b2 = put_zone_powers b1 s.zone_power_sum in
    let b3 = put_u16 b2 (u16 (length s.zone_device_summary)) in
    put_summaries b3 s.zone_device_summary

unfoldable pub encode_region_sync_ack : RegionSyncAck → Bytes
encode_region_sync_ack a = put_u8 (put_u32 (put_u32 [] a.region_id) a.version) a.ok

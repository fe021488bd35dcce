-- ===== src/Proto/Decode.antt =====
-- The decoders of proto.hpp. Each is a block of reads; bytes that follow are ignored.
use smart_lighting_system.Base.{ℕ, List, [], ◌∷◌}
use smart_lighting_system.Proto.Result.{Result, ok}
use smart_lighting_system.Proto.Messages.{
  Bytes, RegisterReq, RegisterAck, StatusReport, Command, FaultReport, ZoneDeviceSummary,
  RegionSyncUp, RegionSyncAck, AlarmUp, AlarmAck,
}
use smart_lighting_system.Proto.Reader.{
  Reader, pure, value, continue, ◌>>=◌, get_u8, get_u16, get_u32, get_str, times,
}

unfoldable pub read_register_req : Reader RegisterReq
read_register_req = do
  t ← get_u8
  u ← get_str
  z ← get_u32
  pure (record { type = t; uri = u; zone_id = z })

unfoldable pub decode_register_req : Bytes → Result RegisterReq
decode_register_req p = value (read_register_req p)

unfoldable pub read_register_ack : Reader RegisterAck
read_register_ack = do t ← get_u32; pure (record { server_time_unix = t })

unfoldable pub decode_register_ack : Bytes → Result RegisterAck
decode_register_ack p = value (read_register_ack p)

unfoldable pub read_alarm_up : Reader AlarmUp
read_alarm_up = do
  r ← get_u32
  ts ← get_u32
  d ← get_u8
  z ← get_u32
  c ← get_u8
  u ← get_str
  t ← get_str
  pure (record {
    region_id = r;
    ts_unix = ts;
    device_type = d;
    zone_id = z;
    code = c;
    uri = u;
    text = t;
  })

unfoldable pub decode_alarm_up : Bytes → Result AlarmUp
decode_alarm_up p = value (read_alarm_up p)

unfoldable pub read_alarm_ack : Reader AlarmAck
read_alarm_ack = do
  r ← get_u32
  t ← get_u32
  o ← get_u8
  pure (record { region_id = r; ts_unix = t; ok = o })

unfoldable pub decode_alarm_ack : Bytes → Result AlarmAck
decode_alarm_ack p = value (read_alarm_ack p)

unfoldable pub read_status_report : Reader StatusReport
read_status_report = do
  u ← get_str
  z ← get_u32
  o ← get_u8
  i ← get_u8
  w ← get_u32
  pure (record { uri = u; zone_id = z; on = o; intensity = i; power_mw = w })

unfoldable pub decode_status_report : Bytes → Result StatusReport
decode_status_report p = value (read_status_report p)

unfoldable pub read_command : Reader Command
read_command = do u ← get_str; c ← get_u8; v ← get_u8; pure (record { uri = u; cmd = c; value = v })

unfoldable pub decode_command : Bytes → Result Command
decode_command p = value (read_command p)

unfoldable pub read_fault_report : Reader FaultReport
read_fault_report = do
  u ← get_str
  z ← get_u32
  c ← get_u8
  t ← get_str
  pure (record { uri = u; zone_id = z; code = c; text = t })

unfoldable pub decode_fault_report : Bytes → Result FaultReport
decode_fault_report p = value (read_fault_report p)

-- The bodies of the two loops of `decode_region_sync_up`.
unfoldable pub read_zone_power : Reader (ℕ × ℕ)
read_zone_power = do z ← get_u32; w ← get_u32; pure (z, w)

unfoldable pub read_summary : Reader ZoneDeviceSummary
read_summary = do
  z ← get_u32
  lt ← get_u16
  lo ← get_u16
  lf ← get_u16
  st ← get_u16
  sf ← get_u16
  pure (record {
    zone_id = z;
    lamp_total = lt;
    lamp_on = lo;
    lamp_fault = lf;
    sensor_total = st;
    sensor_fault = sf;
  })

-- `if(p >= e) return s;`: a sender of the first version sends no summaries.
unfoldable pub read_summaries : Reader (List ZoneDeviceSummary)
read_summaries [] = ok ([], [])
read_summaries (a ∷ p) = continue (λ n. times n read_summary) (get_u16 (a ∷ p))

unfoldable pub read_region_sync_up : Reader RegionSyncUp
read_region_sync_up = do
  r ← get_u32
  v ← get_u32
  n ← get_u16
  powers ← times n read_zone_power
  summaries ← read_summaries
  pure (record {
    region_id = r;
    version = v;
    zone_power_sum = powers;
    zone_device_summary = summaries;
  })

unfoldable pub decode_region_sync_up : Bytes → Result RegionSyncUp
decode_region_sync_up p = value (read_region_sync_up p)

unfoldable pub read_region_sync_ack : Reader RegionSyncAck
read_region_sync_ack = do
  r ← get_u32
  v ← get_u32
  o ← get_u8
  pure (record { region_id = r; version = v; ok = o })

unfoldable pub decode_region_sync_ack : Bytes → Result RegionSyncAck
decode_region_sync_ack p = value (read_region_sync_ack p)

-- ===== src/Proto/Fits.antt =====
-- The fields of each message are within their C++ types, and its texts within a 16-bit length.
use smart_lighting_system.Base.{ℕ, ◌≤◌, length, All}
use smart_lighting_system.Base.Words.{IsU8, IsU16, IsU32}
use smart_lighting_system.Proto.Messages.{
  Bytes, RegisterReq, StatusReport, Command, FaultReport, ZoneDeviceSummary, RegionSyncUp,
  RegionSyncAck, AlarmUp, AlarmAck,
}

-- A string that the 16-bit length prefix can carry.
abbrev pub IsShort : Bytes → Type 0
IsShort s = length s ≤ 65535

pub record RegisterReqFits (r : RegisterReq) : Type 0 where
  pub type : IsU8 r.type
  pub uri : IsShort r.uri
  pub zone_id : IsU32 r.zone_id

pub record StatusReportFits (r : StatusReport) : Type 0 where
  pub uri : IsShort r.uri
  pub zone_id : IsU32 r.zone_id
  pub on : IsU8 r.on
  pub intensity : IsU8 r.intensity
  pub power_mw : IsU32 r.power_mw

pub record CommandFits (r : Command) : Type 0 where
  pub uri : IsShort r.uri
  pub cmd : IsU8 r.cmd
  pub value : IsU8 r.value

pub record FaultReportFits (r : FaultReport) : Type 0 where
  pub uri : IsShort r.uri
  pub zone_id : IsU32 r.zone_id
  pub code : IsU8 r.code
  pub text : IsShort r.text

pub record ZoneDeviceSummaryFits (r : ZoneDeviceSummary) : Type 0 where
  pub zone_id : IsU32 r.zone_id
  pub lamp_total : IsU16 r.lamp_total
  pub lamp_on : IsU16 r.lamp_on
  pub lamp_fault : IsU16 r.lamp_fault
  pub sensor_total : IsU16 r.sensor_total
  pub sensor_fault : IsU16 r.sensor_fault

abbrev pub ZonePowerFits : ℕ × ℕ → Type 0
ZonePowerFits zp = IsU32 zp.0 × IsU32 zp.1

-- The two counts are written as uint16_t.
pub record RegionSyncUpFits (r : RegionSyncUp) : Type 0 where
  pub region_id : IsU32 r.region_id
  pub version : IsU32 r.version
  pub powers : All ZonePowerFits r.zone_power_sum
  pub power_count : IsU16 (length r.zone_power_sum)
  pub summaries : All ZoneDeviceSummaryFits r.zone_device_summary
  pub summary_count : IsU16 (length r.zone_device_summary)

pub record AlarmUpFits (r : AlarmUp) : Type 0 where
  pub region_id : IsU32 r.region_id
  pub ts_unix : IsU32 r.ts_unix
  pub device_type : IsU8 r.device_type
  pub zone_id : IsU32 r.zone_id
  pub code : IsU8 r.code
  pub uri : IsShort r.uri
  pub text : IsShort r.text

pub record RegionSyncAckFits (r : RegionSyncAck) : Type 0 where
  pub region_id : IsU32 r.region_id
  pub version : IsU32 r.version
  pub ok : IsU8 r.ok

pub record AlarmAckFits (r : AlarmAck) : Type 0 where
  pub region_id : IsU32 r.region_id
  pub ts_unix : IsU32 r.ts_unix
  pub ok : IsU8 r.ok

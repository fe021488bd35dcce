-- ===== src/Proto/Messages.antt =====
-- The message structures of proto.hpp. An integer field is a number, which Proto/Fits bounds by its
-- C++ type; text is a list of bytes.
use smart_lighting_system.Base.{ℕ, List}

abbrev pub Bytes : Type 0
Bytes = List ℕ

pub record RegisterReq : Type 0 where
  pub type : ℕ
  pub uri : Bytes
  pub zone_id : ℕ

pub record RegisterAck : Type 0 where
  pub server_time_unix : ℕ

pub record StatusReport : Type 0 where
  pub uri : Bytes
  pub zone_id : ℕ
  pub on : ℕ
  pub intensity : ℕ
  pub power_mw : ℕ

pub record Command : Type 0 where
  pub uri : Bytes
  pub cmd : ℕ
  pub value : ℕ

pub record FaultReport : Type 0 where
  pub uri : Bytes
  pub zone_id : ℕ
  pub code : ℕ
  pub text : Bytes

pub record ZoneDeviceSummary : Type 0 where
  pub zone_id : ℕ
  pub lamp_total : ℕ
  pub lamp_on : ℕ
  pub lamp_fault : ℕ
  pub sensor_total : ℕ
  pub sensor_fault : ℕ

pub record RegionSyncUp : Type 0 where
  pub region_id : ℕ
  pub version : ℕ
  pub zone_power_sum : List (ℕ × ℕ)
  pub zone_device_summary : List ZoneDeviceSummary

pub record RegionSyncAck : Type 0 where
  pub region_id : ℕ
  pub version : ℕ
  pub ok : ℕ

pub record AlarmUp : Type 0 where
  pub region_id : ℕ
  pub ts_unix : ℕ
  pub device_type : ℕ
  pub zone_id : ℕ
  pub code : ℕ
  pub uri : Bytes
  pub text : Bytes

pub record AlarmAck : Type 0 where
  pub region_id : ℕ
  pub ts_unix : ℕ
  pub ok : ℕ

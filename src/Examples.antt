-- ===== src/Examples.antt =====
-- Concrete runs: the data that they share. A run applies a theorem where its hypotheses hold.
mod Protocol
mod Devices
mod Servers
mod Sessions
mod Region
mod Sensors
mod Lights
mod Sensing
mod Storage
mod Registration
use smart_lighting_system.Base.{ℕ, false, true, List, [], ◌∷◌}
use smart_lighting_system.Proto.Messages.{
  Bytes, RegisterReq, StatusReport, Command, FaultReport, AlarmUp, RegionSyncUp, ZoneDeviceSummary,
}
use smart_lighting_system.Registry.{DeviceState, Registry}
use smart_lighting_system.Region.{Clock}
use smart_lighting_system.Central.{Central, empty_store}
use smart_lighting_system.Db.{new_writer}

abbrev pub lamp_uri : Bytes
lamp_uri = 108 ∷ 49 ∷ []

abbrev pub sensor_uri : Bytes
sensor_uri = 115 ∷ []

abbrev pub lit_lamp : DeviceState
lit_lamp = record {
  type = 1;
  zone_id = 7;
  on = 1;
  intensity = 30;
  power_mw = 94000;
  fault = false;
  last_seen_ms = 1000;
}

abbrev pub quiet_sensor : DeviceState
quiet_sensor = record {
  type = 2;
  zone_id = 7;
  on = 0;
  intensity = 0;
  power_mw = 0;
  fault = false;
  last_seen_ms = 900000;
}

abbrev pub two_devices : Registry
two_devices = record {
  dev = (lamp_uri, lit_lamp) ∷ (sensor_uri, quiet_sensor) ∷ [];
  zone_to_lamps = (7, lamp_uri ∷ []) ∷ [];
}

abbrev pub noon : Clock
noon = record { now_ms = 500000; ts_ms = 77; unix = 1700000000 }

abbrev pub new_central : Central
new_central = record { store = empty_store; db = new_writer }

abbrev pub switch_on_lamp : Command
switch_on_lamp = record { uri = lamp_uri; cmd = 1; value = 0 }

abbrev pub lamp_status : StatusReport
lamp_status = record { uri = lamp_uri; zone_id = 7; on = 1; intensity = 30; power_mw = 94000 }

abbrev pub lamp_request : RegisterReq
lamp_request = record { type = 1; uri = lamp_uri; zone_id = 7 }

abbrev pub lamp_alarm : AlarmUp
lamp_alarm = record {
  region_id = 3;
  ts_unix = 1700000000;
  device_type = 1;
  zone_id = 7;
  code = 9;
  uri = lamp_uri;
  text = 120 ∷ [];
}

abbrev pub one_zone : RegionSyncUp
one_zone = record {
  region_id = 3;
  version = 5;
  zone_power_sum = (7, 94000) ∷ [];
  zone_device_summary =
      (record {
        zone_id = 7;
        lamp_total = 1;
        lamp_on = 1;
        lamp_fault = 0;
        sensor_total = 1;
        sensor_fault = 0;
      })
      ∷ [];
}

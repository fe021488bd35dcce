-- ===== src/Examples/Devices.antt =====
-- The registry, and the list of alarms.
use smart_lighting_system.Base.{
  ◌≡◌, refl, true, [], ◌∷◌, some, arith, contains, bytes_key, bytes_eq, nat_eq,
}
use smart_lighting_system.Base.Assoc.{lookup, Distinct}
use smart_lighting_system.Registry.{
  get, upsert, zone_power_sum, zone_device_summary, detect_comm_lost, get_lamps_in_zone,
}
use smart_lighting_system.Registry.Power.{lookup-zone_power_sum}
use smart_lighting_system.Registry.Summary.{find_summary, Ascending, zone_device_summary_counts}
use smart_lighting_system.Registry.CommLost.{Verdict, detect_comm_lost_lem, detect_comm_lost_late}
use smart_lighting_system.Registry.Lamps.{contains-upsert}
use smart_lighting_system.Central.Alarms.{push_all, push_all-alarms}
use smart_lighting_system.Central.{empty_store, alarm_record}
use smart_lighting_system.Examples.{
  lamp_uri, sensor_uri, lit_lamp, quiet_sensor, two_devices, lamp_alarm,
}

lookup-zone_power_sum_example : lookup 7 (zone_power_sum two_devices) ≡ some 94000
lookup-zone_power_sum_example = lookup-zone_power_sum two_devices 7 (omega arith)

zone_device_summary_counts_example :
    (find_summary 7 (zone_device_summary two_devices)
      ≡ some (record {
        zone_id = 7;
        lamp_total = 1;
        lamp_on = 1;
        lamp_fault = 0;
        sensor_total = 1;
        sensor_fault = 0;
      }))
    × Ascending (zone_device_summary two_devices)
zone_device_summary_counts_example = zone_device_summary_counts two_devices 7 (omega arith)

two_devices-Distinct : Distinct two_devices.dev
unfolding lookup bytes_eq
two_devices-Distinct = (refl, (refl, tt))

-- The lamp has been silent for 499 s, the sensor reports in the future.
detect_comm_lost_lem_example :
    let (r', reported) = detect_comm_lost 500000 20000 two_devices in
    Verdict 500000 20000 (get lamp_uri two_devices) (get lamp_uri r') (contains lamp_uri reported)
unfolding get lookup bytes_eq
detect_comm_lost_lem_example =
    detect_comm_lost_lem 500000 20000 two_devices lamp_uri two_devices-Distinct (omega arith)
      (omega arith)

detect_comm_lost_late_example :
    contains sensor_uri (detect_comm_lost 500000 20000 two_devices).1 ≡ true
unfolding lookup get bytes_eq
detect_comm_lost_late_example =
    detect_comm_lost_late 500000 20000 two_devices sensor_uri quiet_sensor two_devices-Distinct refl
      refl (omega arith) (omega arith) (omega arith)

-- The lamp moves to zone 8.
contains-upsert_example :
    contains lamp_uri
      (get_lamps_in_zone 7 (upsert lamp_uri (record lit_lamp { zone_id = 8 }) two_devices))
    ≡ true
unfolding get_lamps_in_zone lookup bytes_eq
contains-upsert_example =
    contains-upsert lamp_uri lamp_uri (record lit_lamp { zone_id = 8 }) 7 two_devices refl

push_all-alarms_example :
    (push_all (alarm_record lamp_alarm ∷ []) empty_store).alarms ≡ alarm_record lamp_alarm ∷ []
push_all-alarms_example = push_all-alarms (alarm_record lamp_alarm ∷ [])

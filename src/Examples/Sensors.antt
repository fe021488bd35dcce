-- ===== src/Examples/Sensors.antt =====
-- Telemetry and the communication check.
use smart_lighting_system.Base.{◌≡◌, refl, [], ◌∷◌, some, arith, bytes_key, bytes_eq}
use smart_lighting_system.Base.Assoc.{lookup, Distinct}
use smart_lighting_system.Registry.{detect_comm_lost, lost_loop}
use smart_lighting_system.Region.{Region, switch_fsm}
use smart_lighting_system.Region.Telemetry.{telemetry_of, on_telemetry, on_datagram}
use smart_lighting_system.Region.Tick.{boot, on_tick}
use smart_lighting_system.Region.Raised.{uris, on_tick-alarms}
use smart_lighting_system.Sensor.{send_telemetry}
use smart_lighting_system.Sensor.Telemetry.{on_datagram-send_telemetry}
use smart_lighting_system.Examples.{lamp_uri, sensor_uri, two_devices, noon}

abbrev with_devices : Region
with_devices = record (boot 3) { reg = two_devices }

on_datagram-send_telemetry_example :
    on_datagram (telemetry_of (send_telemetry sensor_uri 7 180 1 235)) noon with_devices
    ≡ some (on_telemetry sensor_uri 7 1 noon with_devices)
on_datagram-send_telemetry_example =
    on_datagram-send_telemetry sensor_uri 7 180 1 235 noon with_devices (omega arith) (omega arith)

two_devices-Distinct : Distinct two_devices.dev
unfolding lookup bytes_eq
two_devices-Distinct = (refl, (refl, tt))

-- By the clock of `noon` the sensor's last message is in the future, and both are found silent.
on_tick-alarms_example : uris (on_tick 20000 noon with_devices).alarms ≡ lamp_uri ∷ sensor_uri ∷ []
unfolding detect_comm_lost lost_loop bytes_eq boot switch_fsm
on_tick-alarms_example = on_tick-alarms 20000 noon with_devices two_devices-Distinct

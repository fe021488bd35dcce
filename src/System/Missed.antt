-- ===== src/System/Missed.antt =====
-- The second in which a sensor of sensor_udp.cpp draws a fault.
use smart_lighting_system.Base.{ℕ, ◌≡◌, refl, true, [], ◌∷◌, some, bytes_key, ltb, take}
use smart_lighting_system.Proto.Messages.{Bytes}
use smart_lighting_system.Fsm.{allows}
use smart_lighting_system.Fsm.Sensor.{SensorState, active, switch_to, to_string}
use smart_lighting_system.Region.{Clock, Region, send_alarm_now}
use smart_lighting_system.Region as Regions
use smart_lighting_system.Region.Motion.{on_sensor_fault}
use smart_lighting_system.Region.Telemetry.{on_telemetry, fault_marker}
use smart_lighting_system.Sensor.{send_telemetry}
use smart_lighting_system.Sensor.Telemetry.{on_datagram-send_telemetry}
use smart_lighting_system.Sensor.Loop.{
  Config, Sensor, measure, motion_at, simulate_fault, to_fault, arm_fault_reset, report_event,
  switch_fsm, end_tick, on_tick, on_fault_reset,
}
use smart_lighting_system.System.Motion.{Named}
use smart_lighting_system.System.Sensing.{deliver, last_motion, is_fault_drawn}

-- The fault marker leaves the last motion.
marker-last_motion :
    (uri u : Bytes) (zone : ℕ) (clock : Clock) (r : Region)
    → last_motion u (on_telemetry uri zone 254 clock r) ≡ last_motion u r
unfolding on_telemetry fault_marker on_sensor_fault Regions.switch_fsm send_alarm_now
marker-last_motion uri u zone clock r = refl

-- A second of an active sensor that draws a fault, with a reset after it.
faulty_tick :
    (c : Config) (draw : ℕ) (s0 : Sensor)
    → is_fault_drawn c draw ≡ true
    → ltb 0 c.fault_reset_after_s ≡ true
    → let (s1, sent) = on_tick c draw (record s0 { fsm = active }) in
      (sent ≡ send_telemetry c.uri c.zone 0 254 0 ∷ [])
      × (s1.fault_reset ≡ true)
      × ((on_fault_reset s1).fsm ≡ active)
      × ((on_fault_reset s1).prev_motion ≡ motion_at s0.seconds_elapsed)
unfolding on_tick measure simulate_fault to_fault arm_fault_reset report_event end_tick
    on_fault_reset switch_fsm switch_to allows to_string
faulty_tick c draw s0 q z = rw (q, z) (refl, refl, refl, refl)

-- What is left of the second.
abbrev pub Lost : Config → ℕ → Clock → Sensor → Region → Type 0
Lost c draw clock s r =
    let (s1, sent) = on_tick c draw s in
    (r' : Region) × (deliver sent clock r ≡ some r')
    × (last_motion (take 47 c.uri) r' ≡ last_motion (take 47 c.uri) r)
    × (s1.fault_reset ≡ true)
    × ((on_fault_reset s1).fsm ≡ active)
    × ((on_fault_reset s1).prev_motion ≡ motion_at s.seconds_elapsed)

fault_tick-Lost :
    (c : Config) (draw : ℕ) (clock : Clock) (f : SensorState) (s0 : Sensor) (r : Region)
    → Named c.uri c.zone
    → f ≡ active
    → is_fault_drawn c draw ≡ true
    → ltb 0 c.fault_reset_after_s ≡ true
    → Lost c draw clock (record s0 { fsm = f }) r
unfolding deliver
fault_tick-Lost c draw clock active s0 r n a q z =
    let t = faulty_tick c draw s0 q z in
    let reading = on_datagram-send_telemetry c.uri c.zone 0 254 0 clock r n.no_nul n.fits in
    (
      on_telemetry (take 47 c.uri) c.zone 254 clock r,
      rw (t.0, reading) refl,
      marker-last_motion (take 47 c.uri) (take 47 c.uri) c.zone clock r,
      t.1,
      t.2,
      t.3,
    )
fault_tick-Lost c draw clock _ s0 r n a q z = cc

-- In a second that draws a fault the motion is lost: the fault marker leaves the last motion that the
-- telemetry server holds, and the sensor, in ACTIVE again after the reset, takes the motion of that
-- second for reported, so that a change in it is an edge to neither.
pub fault_hides_motion :
    (c : Config) (draw : ℕ) (clock : Clock) (s : Sensor) (r : Region)
    → Named c.uri c.zone
    → s.fsm ≡ active
    → is_fault_drawn c draw ≡ true
    → ltb 0 c.fault_reset_after_s ≡ true
    → Lost c draw clock s r
fault_hides_motion c draw clock s r n a q z = fault_tick-Lost c draw clock s.fsm s r n a q z

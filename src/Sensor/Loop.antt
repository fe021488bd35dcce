-- ===== src/Sensor/Loop.antt =====
-- The `main` of sensor_udp.cpp: its timers and what each of them does. The clock counts seconds as an
-- int, which the model does not bound: it overflows after 68 years. A negative number of seconds on
-- the command line acts as 0 does.
use smart_lighting_system.Base.{
  ℕ, ◌+◌, ◌-◌, ◌%◌, ◌/◌, Bool, true, false, ◌&&◌, ◌||◌, List, [], ◌∷◌, ◌++◌, Option, none, some,
  eqb, ltb, leb, if◌then◌else◌,
}
use smart_lighting_system.Base.Words.{u16}
use smart_lighting_system.Proto.Messages.{Bytes}
use smart_lighting_system.Fsm.Sensor.{
  SensorState, idle, unregistered, registering, active, fault, switch_to,
}
use smart_lighting_system.Sensor.{send_telemetry}

-- The command line. `temp_threshold_x10` is the 16-bit pattern of an int16_t.
pub record Config : Type 0 where
  pub uri : Bytes
  pub zone : ℕ
  pub lux_threshold : ℕ
  pub temp_threshold_x10 : ℕ
  pub heartbeat_s : ℕ
  pub fault_prob_per_mille : ℕ
  pub fault_reset_after_s : ℕ

-- The variables that the handlers capture. `last_heartbeat` is none for -999999, which it starts with;
-- the last two fields tell whether `ack_demo` and `fault_reset_timer` are running.
pub record Sensor : Type 0 where
  pub fsm : SensorState
  pub lux : ℕ
  pub prev_lux : ℕ
  pub motion : ℕ
  pub prev_motion : ℕ
  pub temp_x10 : ℕ
  pub prev_temp_x10 : ℕ
  pub seconds_elapsed : ℕ
  pub last_heartbeat : Option ℕ
  pub ack_demo : Bool
  pub fault_reset : Bool

unfoldable pub switch_fsm : SensorState → Sensor → Sensor
unfolding switch_to
switch_fsm next s = record s { fsm = (switch_to next s.fsm).0 }

abbrev pub new_sensor : Sensor
new_sensor = record {
  fsm = idle;
  lux = 200;
  prev_lux = 200;
  motion = 0;
  prev_motion = 0;
  temp_x10 = 235;
  prev_temp_x10 = 235;
  seconds_elapsed = 0;
  last_heartbeat = none;
  ack_demo = false;
  fault_reset = false;
}

unfoldable pub boot : Sensor
unfolding switch_fsm
boot =
    let s = switch_fsm unregistered new_sensor in
    let (next, allowed) = switch_to registering s.fsm in
    if allowed then record s { fsm = next; ack_demo = true } else record s { fsm = next }

abbrev pub is_registering : SensorState → Bool
is_registering registering = true
is_registering _ = false

abbrev pub is_active : SensorState → Bool
is_active active = true
is_active _ = false

abbrev pub is_fault : SensorState → Bool
is_fault fault = true
is_fault _ = false

unfoldable pub on_ack : Sensor → Sensor
unfolding switch_fsm
on_ack s0 =
    let s = record s0 { ack_demo = false } in
    if is_registering s.fsm then switch_fsm active s else s

unfoldable pub on_fault_reset : Sensor → Sensor
unfolding switch_fsm
on_fault_reset s0 =
    let s = record s0 { fault_reset = false } in
    if is_fault s.fsm
    then switch_fsm active (switch_fsm registering (switch_fsm unregistered (switch_fsm idle s)))
    else s

unfoldable pub arm_fault_reset : Config → Sensor → Sensor
arm_fault_reset c s = if ltb 0 c.fault_reset_after_s then record s { fault_reset = true } else s

-- The measurements of a second.
unfoldable pub lux_at : ℕ → ℕ
lux_at t = u16 (180 + t % 60)

unfoldable pub motion_at : ℕ → ℕ
motion_at t = if eqb (t % 7) 0 then 1 else 0

unfoldable pub temp_at : ℕ → ℕ
temp_at t = u16 (235 + t / 20 % 6)

unfoldable pub measure : Sensor → Sensor
unfolding lux_at motion_at temp_at
measure s = record s {
  lux = lux_at s.seconds_elapsed;
  motion = motion_at s.seconds_elapsed;
  temp_x10 = temp_at s.seconds_elapsed;
}

-- std::abs((int)a - (int)b)
abbrev pub distance : ℕ → ℕ → ℕ
distance a b = (a - b) + (b - a)

-- d >= (int)t for an int16_t t
abbrev pub reaches_int16 : ℕ → ℕ → Bool
reaches_int16 d t = leb 0x8000 t || leb t d

unfoldable pub motion_rise : Sensor → Bool
motion_rise s = eqb s.prev_motion 0 && eqb s.motion 1

unfoldable pub motion_fall : Sensor → Bool
motion_fall s = eqb s.prev_motion 1 && eqb s.motion 0

unfoldable pub lux_changed : Config → Sensor → Bool
lux_changed c s = leb c.lux_threshold (distance s.lux s.prev_lux)

unfoldable pub temp_changed : Config → Sensor → Bool
temp_changed c s = reaches_int16 (distance s.temp_x10 s.prev_temp_x10) c.temp_threshold_x10

-- seconds_elapsed - last_heartbeat
abbrev pub since : Option ℕ → ℕ → ℕ
since none now = now + 999999
since (some t) now = now - t

unfoldable pub heartbeat_due : Config → Sensor → Bool
heartbeat_due c s =
    ltb 0 c.heartbeat_s && leb c.heartbeat_s (since s.last_heartbeat s.seconds_elapsed)

-- What follows the call of switch_to in the simulation.
unfoldable pub to_fault : Config → SensorState × Bool → Sensor → Sensor × List Bytes
unfolding arm_fault_reset
to_fault c (next, true) s =
    (arm_fault_reset c (record s { fsm = next }), send_telemetry c.uri c.zone 0 254 0 ∷ [])
to_fault c (next, false) s = (record s { fsm = next }, [])

-- The simulation of faults, with urand(1, 1000) drawn, and the datagrams that it sends.
unfoldable pub simulate_fault : Config → ℕ → Sensor → Sensor × List Bytes
unfolding to_fault
simulate_fault c draw s =
    if is_active s.fsm && ltb 0 c.fault_prob_per_mille && leb draw c.fault_prob_per_mille
    then to_fault c (switch_to fault s.fsm) s
    else (s, [])

-- The report of an event, if the state is ACTIVE.
unfoldable pub report_event : Config → Bool → Bool → Sensor → Sensor × List Bytes
unfolding switch_fsm
report_event c event due s =
    if is_active s.fsm && event
    then (
      let s1 = switch_fsm active s in
          if due then record s1 { last_heartbeat = some s1.seconds_elapsed } else s1,
      send_telemetry c.uri c.zone s.lux s.motion s.temp_x10 ∷ [],
    )
    else (s, [])

unfoldable pub end_tick : Sensor → Sensor
end_tick s = record s {
  prev_motion = s.motion;
  prev_lux = s.lux;
  prev_temp_x10 = s.temp_x10;
  seconds_elapsed = s.seconds_elapsed + 1;
}

-- The handler of `tick_timer`, which schedules itself again.
unfoldable pub on_tick : Config → ℕ → Sensor → Sensor × List Bytes
unfolding measure motion_rise motion_fall lux_changed temp_changed heartbeat_due simulate_fault
    report_event end_tick
on_tick c draw s0 =
    let s = measure s0 in
    let due = heartbeat_due c s in
    let event = motion_rise s || motion_fall s || lux_changed c s || temp_changed c s || due in
    let (s1, marker) = simulate_fault c draw s in
    let (s2, report) = report_event c event due s1 in (end_tick s2, marker ++ report)

-- A tick comes at any time, with its draw, and the other handlers if their timers run.
pub data Event : Type 0 where
  ack reset : Event
  tick : ℕ → Event

unfoldable pub handle : Config → Event → Sensor → Sensor × List Bytes
unfolding on_ack on_fault_reset on_tick
handle c ack s = if s.ack_demo then (on_ack s, []) else (s, [])
handle c reset s = if s.fault_reset then (on_fault_reset s, []) else (s, [])
handle c (tick draw) s = on_tick c draw s

-- io.run(), with the datagrams sent.
unfoldable pub run : Config → List Event → Sensor → Sensor × List Bytes
unfolding handle
run c [] s = (s, [])
run c (e ∷ rest) s =
    let (s1, sent) = handle c e s in let (s2, later) = run c rest s1 in (s2, sent ++ later)

-- ===== src/Examples/Sensing.antt =====
-- A sensor and the server that its datagrams reach.
use smart_lighting_system.Base.{ℕ, ◌≡◌, refl, List, false, [], ◌∷◌, some, arith, bytes_key, take}
use smart_lighting_system.Base.Assoc.{lookup}
use smart_lighting_system.Fsm.Sensor.{active}
use smart_lighting_system.Region.{Clock, Region, switch_fsm}
use smart_lighting_system.Region.Tick as Region
use smart_lighting_system.Sensor.Loop.{Config, Sensor, ack, reset, tick, boot, handle, run}
use smart_lighting_system.Sensor.Timers.{IsRunning, always-IsRunning}
use smart_lighting_system.System.Sensing.{last_motion}
use smart_lighting_system.System.Watch.{watch, motion_before, watch_lem}
use smart_lighting_system.System.Missed.{Lost, fault_hides_motion}
use smart_lighting_system.Examples.{sensor_uri, noon}

abbrev every_second : Config
every_second = record {
  uri = sensor_uri;
  zone = 7;
  lux_threshold = 25;
  temp_threshold_x10 = 10;
  heartbeat_s = 30;
  fault_prob_per_mille = 5;
  fault_reset_after_s = 10;
}

always-IsRunning_example :
    IsRunning every_second (run every_second (ack ∷ tick 900 ∷ tick 3 ∷ reset ∷ []) boot).0
always-IsRunning_example = always-IsRunning every_second (ack ∷ tick 900 ∷ tick 3 ∷ reset ∷ [])

abbrev two_seconds : List (ℕ × Clock)
two_seconds = (900, noon) ∷ (6, noon) ∷ []

watch_lem_example :
    let c = every_second in
    (s : Sensor) × (r' : Region) × (watch c two_seconds (handle c ack boot).0 (Region.boot 3)
      ≡ some (s, r'))
    × (s.fsm ≡ active)
    × (s.seconds_elapsed ≡ 2)
    × (last_motion (take 47 c.uri) r' ≡ motion_before 2)
unfolding Region.boot lookup switch_fsm
watch_lem_example =
    watch_lem every_second two_seconds (Region.boot 3)
      (record { no_nul = omega arith; fits = omega arith }) (refl, (refl, tt)) refl

abbrev in_motion : Sensor
in_motion = record {
  fsm = active;
  lux = 180;
  prev_lux = 180;
  motion = 1;
  prev_motion = 1;
  temp_x10 = 235;
  prev_temp_x10 = 235;
  seconds_elapsed = 1;
  last_heartbeat = some 0;
  ack_demo = false;
  fault_reset = false;
}

fault_hides_motion_example :
    Lost every_second 3 noon in_motion
      (record (Region.boot 3) { last_motion = (sensor_uri, 1) ∷ [] })
fault_hides_motion_example =
    fault_hides_motion every_second 3 noon in_motion
      (record (Region.boot 3) { last_motion = (sensor_uri, 1) ∷ [] })
      (record { no_nul = omega arith; fits = omega arith }) refl refl refl

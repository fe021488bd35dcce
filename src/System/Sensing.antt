-- ===== src/System/Sensing.antt =====
-- A sensor of sensor_udp.cpp and the telemetry server of udp_telemetry_server.hpp: every datagram
-- arrives, in the second in which it is sent.
use smart_lighting_system.Base.{
  ◌+◌, ℕ, zero, suc, ◌≡◌, refl, sym, ap, ◌∙◌, inl, inr, ◌⊎◌, Bool, true, false, ◌&&◌, ◌||◌,
  Bool-cases, List, [], ◌∷◌, Option, none, some, bytes_key, ltb, leb, take, arith, if◌then◌else◌,
}
use smart_lighting_system.Base.Assoc.{lookup, lookup-insert_self}
use smart_lighting_system.Proto.Messages.{Bytes}
use smart_lighting_system.Registry.{or_zero}
use smart_lighting_system.Fsm.{allows}
use smart_lighting_system.Fsm.Sensor.{active, switch_to, to_string}
use smart_lighting_system.Region.{Clock, Region}
use smart_lighting_system.Region.Telemetry.{telemetry_of, on_datagram, on_telemetry, motion_edge}
use smart_lighting_system.Sensor.{send_telemetry}
use smart_lighting_system.Sensor.Telemetry.{on_datagram-send_telemetry}
use smart_lighting_system.Sensor.Loop.{
  Config, Sensor, measure, motion_at, motion_rise, motion_fall, lux_changed, temp_changed,
  heartbeat_due, simulate_fault, report_event, switch_fsm, end_tick, on_tick,
}
use smart_lighting_system.Sensor.Timers.{Before}
use smart_lighting_system.System.Motion.{Named}

abbrev pub then_deliver : (Region → Option Region) → Option Region → Option Region
then_deliver f none = none
then_deliver f (some r) = f r

-- The datagrams of one second reach the server.
unfoldable pub deliver : List Bytes → Clock → Region → Option Region
deliver [] clock r = some r
deliver (d ∷ ds) clock r = then_deliver (deliver ds clock) (on_datagram (telemetry_of d) clock r)

-- What the server holds as the last motion of a sensor.
abbrev pub last_motion : Bytes → Region → ℕ
last_motion uri r = or_zero (lookup uri r.last_motion)

abbrev pub Synced : Config → Sensor → Region → Type 0
Synced c s r = last_motion (take 47 c.uri) r ≡ s.prev_motion

abbrev pub IsBit : ℕ → Type 0
IsBit m = (m ≡ 0) ⊎ (m ≡ 1)

pub motion_at-IsBit : (t : ℕ) → IsBit (motion_at t)
unfolding motion_at
motion_at-IsBit t = ground arith

pub Before-IsBit : (t a m b : ℕ) → Before t a m b → IsBit m
Before-IsBit zero a m b h = inl h.1
Before-IsBit (suc t) a m b h = rw h.1 (motion_at-IsBit t)

-- The server holds the motion of the reading that came last.
pub on_telemetry-last_motion :
    (uri : Bytes) (zone m : ℕ) (clock : Clock) (r : Region)
    → IsBit m
    → last_motion uri (on_telemetry uri zone m clock r) ≡ m
unfolding on_telemetry motion_edge
on_telemetry-last_motion uri zone m clock r (inl e) = rw e (ap or_zero (lookup-insert_self uri 0 _))
on_telemetry-last_motion uri zone m clock r (inr e) = rw e (ap or_zero (lookup-insert_self uri 1 _))

-- urand does not draw a fault.
abbrev pub is_fault_drawn : Config → ℕ → Bool
is_fault_drawn c draw = ltb 0 c.fault_prob_per_mille && leb draw c.fault_prob_per_mille

abbrev pub event_of : Config → Sensor → Bool
event_of c s =
    motion_rise s || motion_fall s || lux_changed c s || temp_changed c s || heartbeat_due c s

-- The datagram of a second in which something happens.
abbrev reading : Config → Sensor → Bytes
reading c s = send_telemetry c.uri c.zone s.lux s.motion s.temp_x10

reported :
    (c : Config) (event due : Bool) (s : Sensor)
    → let (s1, sent) = report_event c event due (record s { fsm = active }) in
      (s1.fsm ≡ active)
      × (s1.motion ≡ s.motion)
      × (s1.seconds_elapsed ≡ s.seconds_elapsed)
      × (sent ≡ (if event then reading c s ∷ [] else []))
unfolding report_event switch_fsm switch_to allows to_string
reported c true true s = (refl, refl, refl, refl)
reported c true false s = (refl, refl, refl, refl)
reported c false due s = (refl, refl, refl, refl)

-- A second in ACTIVE without a fault.
pub on_tick_active :
    (c : Config) (draw : ℕ) (s0 : Sensor)
    → is_fault_drawn c draw ≡ false
    → let s = measure (record s0 { fsm = active }) in
      let (s1, sent) = on_tick c draw (record s0 { fsm = active }) in
      (s1.fsm ≡ active)
      × (s1.prev_motion ≡ s.motion)
      × (s1.seconds_elapsed ≡ s0.seconds_elapsed + 1)
      × (sent ≡ (if event_of c s then reading c s ∷ [] else []))
unfolding on_tick measure simulate_fault end_tick
on_tick_active c draw s0 q =
    let s : Sensor = measure (record s0 { fsm = active }) in
    let done = reported c (event_of c s) (heartbeat_due c s) s in
    rw q (done.0, done.1, ap (λ n. n + 1) done.2, done.3)

-- Without an event the motion is that of the second before.
no_event :
    (c : Config) (s : Sensor)
    → event_of c s ≡ false
    → IsBit s.prev_motion
    → IsBit s.motion
    → s.prev_motion ≡ s.motion
unfolding motion_rise motion_fall
no_event c s e p m = ground arith

-- The server after the second, and that it agrees with the sensor.
abbrev pub Agreed : Config → Sensor → Option Region → Type 0
Agreed c s none = ⊥
Agreed c s (some r) = Synced c s r

reading-Agreed :
    (c : Config) (clock : Clock) (s s1 : Sensor) (r : Region)
    → Named c.uri c.zone
    → IsBit s.motion
    → s1.prev_motion ≡ s.motion
    → Agreed c s1 (deliver (reading c s ∷ []) clock r)
unfolding deliver
reading-Agreed c clock s s1 r n m e =
    rw (on_datagram-send_telemetry c.uri c.zone s.lux s.motion s.temp_x10 clock r n.no_nul n.fits)
      (on_telemetry-last_motion (take 47 c.uri) c.zone s.motion clock r m ∙ sym e)

pub tick-Agreed :
    (c : Config) (draw : ℕ) (clock : Clock) (s0 : Sensor) (r : Region)
    → Named c.uri c.zone
    → is_fault_drawn c draw ≡ false
    → IsBit s0.prev_motion
    → Synced c s0 r
    → let (s1, sent) = on_tick c draw (record s0 { fsm = active }) in
      Agreed c s1 (deliver sent clock r)
unfolding deliver measure
tick-Agreed c draw clock s0 r n q p h =
    let s : Sensor = measure (record s0 { fsm = active }) in
    let s1 : Sensor = (on_tick c draw (record s0 { fsm = active })).0 in
    let t = on_tick_active c draw s0 q in
    let m = motion_at-IsBit s0.seconds_elapsed in
    elim (Bool-cases (event_of c s)) [
      | inl e ↦ rw (t.3, e) (reading-Agreed c clock s s1 r n m t.1)
      | inr e ↦ rw (t.3, e) (h ∙ no_event c s e p m ∙ sym t.1)
    ]

-- ===== src/Region/Typed/Sensed.antt =====
-- The types of what the regional server holds, through the datagrams of udp_telemetry_server.hpp.
use smart_lighting_system.Base.{
  ℕ, suc, ◌≤◌, ◌≡◌, refl, inl, inr, Bool, true, false, ◌&&◌, ◌||◌, Bool-cases, [], ◌∷◌, Option,
  none, some, Option-cases, nat_eq, bytes_key, eqb, arith, length, length-take, take, drop,
  if◌then◌else◌,
}
use smart_lighting_system.Base.Words.{IsU32}
use smart_lighting_system.Base.Assoc.{lookup}
use smart_lighting_system.Proto.Messages.{Bytes}
use smart_lighting_system.Proto.Fits.{IsShort}
use smart_lighting_system.Proto.Bytes.{from_be32}
use smart_lighting_system.Proto.Frame.{bytes_word, to_be32-IsU32}
use smart_lighting_system.Registry.{DeviceState, Registry, upsert, get, or_zero}
use smart_lighting_system.Region.{Clock, Region, switch_fsm, send_alarm_now}
use smart_lighting_system.Region.Motion.{on_motion_on, on_motion_off, on_sensor_fault}
use smart_lighting_system.Region.Telemetry.{
  after_uri, c_string, telemetry_of, sensor_state, faulted, fault_marker, motion_edge, on_telemetry,
  handle_telemetry, on_datagram,
}
use smart_lighting_system.Region.Typed.{
  DeviceFits, DevicesFit, IsTyped, ClockFits, with_devices, with_raised, upsert-Fit, get-Fits,
}
use smart_lighting_system.Region.Typed.Commands.{on_motion_on-IsTyped, on_motion_off-IsTyped}

motion_edge-IsTyped :
    (zone : ℕ) (uri : Bytes) (motion : ℕ) (r : Region)
    → IsTyped r
    → IsTyped (motion_edge zone uri motion r)
unfolding motion_edge
motion_edge-IsTyped zone uri motion r h =
    let prev : ℕ = or_zero (lookup uri r.last_motion) in
    second (eqb prev 1 && eqb motion 0)
      (if eqb prev 0 && eqb motion 1 then on_motion_on zone r else r)
      (first (eqb prev 0 && eqb motion 1))
  where
    first : (b : Bool) → IsTyped (if b then on_motion_on zone r else r)
    first true = on_motion_on-IsTyped zone r h
    first false = h

    second :
        (b : Bool) (r1 : Region) → IsTyped r1 → IsTyped (if b then on_motion_off zone r1 else r1)
    second true r1 k = on_motion_off-IsTyped zone r1 k
    second false r1 k = k

on_sensor_fault-IsTyped :
    (zone : ℕ) (uri : Bytes) (clock : Clock) (r : Region)
    → IsU32 zone
    → IsShort uri
    → ClockFits clock
    → IsTyped r
    → IsTyped (on_sensor_fault zone uri 1 clock r)
unfolding on_sensor_fault switch_fsm send_alarm_now
on_sensor_fault-IsTyped zone uri clock r z u c h =
    with_raised _
      (record {
        region_id = h.region;
        ts_unix = omega arith;
        device_type = omega arith;
        zone_id = z;
        code = omega arith;
        uri = u;
        text = omega arith;
      })
      (with_devices _
        (upsert-Fit uri _ r.reg u
          (record {
            type = omega arith;
            zone = z;
            on = omega arith;
            intensity = omega arith;
            power = omega arith;
            seen = c;
          })
          h.devices)
        h)

fault_marker-IsTyped :
    (zone : ℕ) (uri : Bytes) (clock : Clock) (r : Region)
    → IsU32 zone
    → IsShort uri
    → ClockFits clock
    → IsTyped r
    → IsTyped (fault_marker zone uri clock r)
unfolding fault_marker
fault_marker-IsTyped zone uri clock r z u c h =
    let reg' : Registry = faulted (get uri r.reg) uri clock.now_ms r.reg in
    on_sensor_fault-IsTyped zone uri clock (record r { reg = reg' }) z u c
      (with_devices _ (marked (get uri r.reg) refl) h)
  where
    marked :
        (o : Option DeviceState)
        → get uri r.reg ≡ o
        → DevicesFit (faulted o uri clock.now_ms r.reg).dev
    marked none e = h.devices
    marked (some st) e =
        let f = get-Fits uri r.reg st h.devices e in
        upsert-Fit uri _ r.reg u
          (record {
            type = f.type;
            zone = f.zone;
            on = f.on;
            intensity = f.intensity;
            power = f.power;
            seen = c;
          })
          h.devices

on_telemetry-IsTyped :
    (uri : Bytes) (zone motion : ℕ) (clock : Clock) (r : Region)
    → IsU32 zone
    → IsShort uri
    → ClockFits clock
    → IsTyped r
    → IsTyped (on_telemetry uri zone motion clock r)
unfolding on_telemetry
on_telemetry-IsTyped uri zone motion clock r z u c h =
    let st : DeviceState = sensor_state (get uri r.reg) zone clock.now_ms in
    let r1 : Region = record r { reg = upsert uri st r.reg } in
    let stored = upsert-Fit uri st r.reg u (sensor (get uri r.reg) refl) h.devices in
    edge (eqb motion 0 || eqb motion 1)
      (if eqb motion 254 then fault_marker zone uri clock r1 else r1)
      (marker (eqb motion 254) r1 (with_devices _ stored h))
  where
    sensor :
        (o : Option DeviceState) → get uri r.reg ≡ o → DeviceFits (sensor_state o zone clock.now_ms)
    sensor none e =
        unfold sensor_state in
        record {
          type = omega arith;
          zone = z;
          on = omega arith;
          intensity = omega arith;
          power = omega arith;
          seen = c;
        }
    sensor (some st) e =
        let f = get-Fits uri r.reg st h.devices e in
        unfold sensor_state in
        record {
          type = omega arith;
          zone = z;
          on = f.on;
          intensity = f.intensity;
          power = f.power;
          seen = c;
        }

    marker :
        (b : Bool) (r1 : Region)
        → IsTyped r1
        → IsTyped (if b then fault_marker zone uri clock r1 else r1)
    marker true r1 k = fault_marker-IsTyped zone uri clock r1 z u c k
    marker false r1 k = k

    edge :
        (b : Bool) (r2 : Region)
        → IsTyped r2
        → IsTyped (if b then motion_edge zone uri motion r2 else r2)
    edge true r2 k = motion_edge-IsTyped zone uri motion r2 k
    edge false r2 k = k

-- A string is no longer than the field that it is read from.
c_string-length : (f s : Bytes) → c_string f ≡ some s → length s ≤ length f
unfolding c_string
c_string-length [] s e = cc
c_string-length (x ∷ f) s e = elim (Bool-cases (eqb x 0)) [
  | inl z ↦ let here = rw z at e in read [] here (omega arith)
  | inr z ↦ elim (Option-cases (c_string f)) [
    | inl q ↦ let here = rw (z, q) at e in cc
    | inr (t, q) ↦
        let here = rw (z, q) at e in read (x ∷ t) here (omega (arith, c_string-length f t q))
  ]
]
  where
    read : (t : Bytes) → some t ≡ some s → length t ≤ suc (length f) → length s ≤ suc (length f)
    read t e l = let same : t ≡ s = cc in rw (← same) l

abbrev pub TypedIfDefined : Option Region → Type 0
TypedIfDefined none = Unit
TypedIfDefined (some r) = IsTyped r

handled-IsTyped :
    (u rest : Bytes) (clock : Clock) (r : Region)
    → length u ≤ 48
    → ClockFits clock
    → IsTyped r
    → TypedIfDefined (on_datagram (after_uri u rest) clock r)
unfolding on_datagram after_uri handle_telemetry from_be32
handled-IsTyped u (z0 ∷ z1 ∷ z2 ∷ z3 ∷ l0 ∷ l1 ∷ m ∷ t0 ∷ t1 ∷ rest) clock r l c h =
    elim (Option-cases (c_string u)) [
      | inl e ↦ rw e tt
      | inr (uri, e) ↦ rw e (
          on_telemetry-IsTyped uri _ m clock r (to_be32-IsU32 (bytes_word z0 z1 z2 z3))
            (omega (arith, l, c_string-length u uri e)) c h)
    ]
handled-IsTyped u _ clock r l c h = h

pub on_datagram-IsTyped :
    (buf : Bytes) (clock : Clock) (r : Region)
    → ClockFits clock
    → IsTyped r
    → TypedIfDefined (on_datagram (telemetry_of buf) clock r)
unfolding telemetry_of
on_datagram-IsTyped buf clock r c h =
    handled-IsTyped (take 48 buf) (drop 48 buf) clock r (omega (arith, length-take 48 buf)) c h

-- ===== src/Region/Telemetry.antt =====
-- udp_telemetry_server.hpp: what a datagram of a sensor does.
use smart_lighting_system.Base.{
  ℕ, ◌+◌, ◌*◌, true, ◌&&◌, ◌||◌, [], ◌∷◌, Option, none, some, bytes_key, eqb, take, drop,
  if◌then◌else◌,
}
use smart_lighting_system.Base.Assoc.{lookup, insert}
use smart_lighting_system.Proto.DeviceType
use smart_lighting_system.Proto.Messages.{Bytes}
use smart_lighting_system.Proto.Bytes.{from_be32}
use smart_lighting_system.Proto.Frame.{bytes_word}
use smart_lighting_system.Registry.{DeviceState, Registry, upsert, get, or_zero}
use smart_lighting_system.Region.{Clock, Region}
use smart_lighting_system.Region.Session.{blank}
use smart_lighting_system.Region.Motion.{on_motion_on, on_motion_off, on_sensor_fault}

-- The packed TelemetryUdp, with the words as the memory holds them.
pub record TelemetryUdp : Type 0 where
  pub uri : Bytes
  pub zone_id_be : ℕ
  pub lux_be : ℕ
  pub motion : ℕ
  pub temp_c_x10_be : ℕ

-- memcpy of the 57 bytes: none if the datagram is shorter. Bytes that follow are ignored.
unfoldable pub after_uri : Bytes → Bytes → Option TelemetryUdp
unfolding bytes_word
after_uri u (z0 ∷ z1 ∷ z2 ∷ z3 ∷ l0 ∷ l1 ∷ m ∷ t0 ∷ t1 ∷ rest) = some (record {
  uri = u;
  zone_id_be = bytes_word z0 z1 z2 z3;
  lux_be = l0 + l1 * 256;
  motion = m;
  temp_c_x10_be = t0 + t1 * 256;
})
after_uri u _ = none

unfoldable pub telemetry_of : Bytes → Option TelemetryUdp
unfolding after_uri
telemetry_of buf = after_uri (take 48 buf) (drop 48 buf)

-- `std::string uri(t.uri)`: the bytes before the first NUL. The constructor reads out of the bounds of
-- the field if there is none: the behaviour is undefined, and the model has no value.
unfoldable pub c_string : Bytes → Option Bytes
c_string [] = none
c_string (c ∷ cs) = let rest = c_string cs in if eqb c 0 then some [] else with_char c rest
  where
    with_char : ℕ → Option Bytes → Option Bytes
    with_char c none = none
    with_char c (some s) = some (c ∷ s)

unfoldable pub sensor_state : Option DeviceState → ℕ → ℕ → DeviceState
sensor_state (some st) zone_id now = record st {
  type = DeviceType.sensor;
  zone_id = zone_id;
  last_seen_ms = now;
}
sensor_state none zone_id now = record (blank DeviceType.sensor zone_id) { last_seen_ms = now }

abbrev pub faulted : Option DeviceState → Bytes → ℕ → Registry → Registry
faulted none uri now reg = reg
faulted (some s2) uri now reg = upsert uri (record s2 { fault = true; last_seen_ms = now }) reg

-- motion == 254
unfoldable pub fault_marker : ℕ → Bytes → Clock → Region → Region
unfolding get
fault_marker zone_id uri clock r =
    on_sensor_fault zone_id uri 1 clock
      (record r { reg = faulted (get uri r.reg) uri clock.now_ms r.reg })

-- motion == 0 || motion == 1
unfoldable pub motion_edge : ℕ → Bytes → ℕ → Region → Region
motion_edge zone_id uri motion r =
    let prev = or_zero (lookup uri r.last_motion) in
    let r1 = if eqb prev 0 && eqb motion 1 then on_motion_on zone_id r else r in
    let r2 = if eqb prev 1 && eqb motion 0 then on_motion_off zone_id r1 else r1 in
    record r2 { last_motion = insert uri motion r2.last_motion }

unfoldable pub on_telemetry : Bytes → ℕ → ℕ → Clock → Region → Region
unfolding sensor_state
on_telemetry uri zone_id motion clock r =
    let st = sensor_state (get uri r.reg) zone_id clock.now_ms in
    let r1 = record r { reg = upsert uri st r.reg } in
    let r2 = if eqb motion 254 then fault_marker zone_id uri clock r1 else r1 in
    if eqb motion 0 || eqb motion 1 then motion_edge zone_id uri motion r2 else r2

-- The whole handler: none where the behaviour is undefined.
unfoldable pub handle_telemetry : TelemetryUdp → Option Bytes → Clock → Region → Option Region
unfolding from_be32
handle_telemetry t none clock r = none
handle_telemetry t (some uri) clock r =
    some (on_telemetry uri (from_be32 t.zone_id_be) t.motion clock r)

unfoldable pub on_datagram : Option TelemetryUdp → Clock → Region → Option Region
unfolding c_string handle_telemetry
on_datagram none clock r = some r
on_datagram (some t) clock r = handle_telemetry t (c_string t.uri) clock r

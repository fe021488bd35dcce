-- ===== src/Region/Sensed.antt =====
-- The invariant of the regional server: commands, and the datagrams of udp_telemetry_server.hpp.
use smart_lighting_system.Base.{
  ℕ, refl, inl, inr, Bool, true, false, ◌&&◌, ◌||◌, Bool-cases, List, [], ◌∷◌, Option, none, some,
  Option-cases, nat_eq, bytes_key, eqb, if◌then◌else◌,
}
use smart_lighting_system.Base.Assoc.{lookup}
use smart_lighting_system.Proto.Result.{Result, ok, err}
use smart_lighting_system.Proto.Messages.{Bytes}
use smart_lighting_system.Proto.Encode.{encode_command}
use smart_lighting_system.Proto.Bytes.{from_be32}
use smart_lighting_system.Registry.{DeviceState, Registry, upsert, get, get_lamps_in_zone, or_zero}
use smart_lighting_system.Registry.Lamps.{IsIndexed, upsert-IsIndexed}
use smart_lighting_system.Fsm.Server.{fault_handling}
use smart_lighting_system.Region.{
  Clock, Region, switch_fsm, send_alarm_now, session_of, set_session, session_send,
}
use smart_lighting_system.Region.Session.{
  is_empty, queue_cmd, send_cmd, send_to_entry, send_cmd_to_uri,
}
use smart_lighting_system.Region.Motion.{
  is_normal, switch_on_lamps, switch_off_lamps, on_motion_on, on_motion_off, on_sensor_fault,
  cmd_switch_on, cmd_switch_off, cmd_set_intensity,
}
use smart_lighting_system.Region.Telemetry.{
  TelemetryUdp, c_string, sensor_state, faulted, fault_marker, motion_edge, on_telemetry,
  handle_telemetry, on_datagram,
}
use smart_lighting_system.Region.Invariant.{IsSound, with_registry, switched, with_alarm}

send_cmd-IsSound :
    (n id cmd value : ℕ) (r : Region) → IsSound n r → IsSound n (send_cmd id cmd value r)
unfolding send_cmd session_send set_session queue_cmd
send_cmd-IsSound n id cmd value r h = elim (Bool-cases (is_empty (session_of id r).uri)) [
  | inl e ↦ rw e h
  | inr e ↦
      rw e
        (queued (encode_command (record { uri = (session_of id r).uri; cmd = cmd; value = value })))
]
  where
    queued : (d : Result Bytes) → IsSound n (queue_cmd d id r)
    queued (ok p) = h
    queued (err x) = h

pub send_cmd_to_uri-IsSound :
    (n : ℕ) (uri : Bytes) (cmd value : ℕ) (r : Region)
    → IsSound n r
    → IsSound n (send_cmd_to_uri uri cmd value r).0
unfolding send_cmd_to_uri send_to_entry
send_cmd_to_uri-IsSound n uri cmd value r h = elim (Option-cases (lookup uri r.sessions)) [
  | inl e ↦ rw e h
  | inr (id, e) ↦
      rw (e, send_to_entry)
        (elim (Option-cases (lookup id r.live)) [
          | inl e' ↦ rw e' h
          | inr (s, e') ↦ rw e' (send_cmd-IsSound n id cmd value r h)
        ])
]

switch_on_lamps-IsSound :
    (n : ℕ) (lamps : List Bytes) (r : Region) → IsSound n r → IsSound n (switch_on_lamps lamps r)
unfolding switch_on_lamps
switch_on_lamps-IsSound n [] r h = h
switch_on_lamps-IsSound n (uri ∷ rest) r h =
    let r1 = (send_cmd_to_uri uri cmd_switch_on 0 r).0 in
    switch_on_lamps-IsSound n rest (send_cmd_to_uri uri cmd_set_intensity 60 r1).0 (
      send_cmd_to_uri-IsSound n uri cmd_set_intensity 60 r1
        (send_cmd_to_uri-IsSound n uri cmd_switch_on 0 r h))

switch_off_lamps-IsSound :
    (n : ℕ) (lamps : List Bytes) (r : Region) → IsSound n r → IsSound n (switch_off_lamps lamps r)
unfolding switch_off_lamps
switch_off_lamps-IsSound n [] r h = h
switch_off_lamps-IsSound n (uri ∷ rest) r h =
    switch_off_lamps-IsSound n rest (send_cmd_to_uri uri cmd_switch_off 0 r).0
      (send_cmd_to_uri-IsSound n uri cmd_switch_off 0 r h)

on_motion_on-IsSound : (n zone : ℕ) (r : Region) → IsSound n r → IsSound n (on_motion_on zone r)
unfolding on_motion_on
on_motion_on-IsSound n zone r h = elim (Bool-cases (is_normal r.fsm)) [
  | inl e ↦ rw e (switch_on_lamps-IsSound n (get_lamps_in_zone zone r.reg) r h)
  | inr e ↦ rw e h
]

on_motion_off-IsSound : (n zone : ℕ) (r : Region) → IsSound n r → IsSound n (on_motion_off zone r)
unfolding on_motion_off
on_motion_off-IsSound n zone r h = elim (Bool-cases (is_normal r.fsm)) [
  | inl e ↦ rw e (switch_off_lamps-IsSound n (get_lamps_in_zone zone r.reg) r h)
  | inr e ↦ rw e h
]

on_sensor_fault-IsSound :
    (n zone : ℕ) (uri : Bytes) (code : ℕ) (clock : Clock) (r : Region)
    → IsSound n r
    → IsSound n (on_sensor_fault zone uri code clock r)
unfolding on_sensor_fault switch_fsm send_alarm_now
on_sensor_fault-IsSound n zone uri code clock r h = with_alarm _ h.region (
    with_registry _ (upsert-IsIndexed uri _ r.reg h.indexed) (switched fault_handling (inr refl) h))

fault_marker-IsSound :
    (n zone : ℕ) (uri : Bytes) (clock : Clock) (r : Region)
    → IsSound n r
    → IsSound n (fault_marker zone uri clock r)
unfolding fault_marker
fault_marker-IsSound n zone uri clock r h =
    let reg' : Registry = faulted (get uri r.reg) uri clock.now_ms r.reg in
    on_sensor_fault-IsSound n zone uri 1 clock (record r { reg = reg' })
      (with_registry reg' (marked (get uri r.reg)) h)
  where
    marked : (o : Option DeviceState) → IsIndexed (faulted o uri clock.now_ms r.reg)
    marked none = h.indexed
    marked (some st) = upsert-IsIndexed uri _ r.reg h.indexed

motion_edge-IsSound :
    (n zone : ℕ) (uri : Bytes) (motion : ℕ) (r : Region)
    → IsSound n r
    → IsSound n (motion_edge zone uri motion r)
unfolding motion_edge
motion_edge-IsSound n zone uri motion r h =
    second (eqb prev 1 && eqb motion 0)
      (if eqb prev 0 && eqb motion 1 then on_motion_on zone r else r)
      (first (eqb prev 0 && eqb motion 1))
  where
    prev : ℕ
    prev = or_zero (lookup uri r.last_motion)

    first : (b : Bool) → IsSound n (if b then on_motion_on zone r else r)
    first true = on_motion_on-IsSound n zone r h
    first false = h

    second :
        (b : Bool) (r1 : Region)
        → IsSound n r1
        → IsSound n (if b then on_motion_off zone r1 else r1)
    second true r1 k = on_motion_off-IsSound n zone r1 k
    second false r1 k = k

on_telemetry-IsSound :
    (n : ℕ) (uri : Bytes) (zone motion : ℕ) (clock : Clock) (r : Region)
    → IsSound n r
    → IsSound n (on_telemetry uri zone motion clock r)
unfolding on_telemetry
on_telemetry-IsSound n uri zone motion clock r h =
    let st : DeviceState = sensor_state (get uri r.reg) zone clock.now_ms in
    let r1 : Region = record r { reg = upsert uri st r.reg } in
    edge (eqb motion 0 || eqb motion 1)
      (if eqb motion 254 then fault_marker zone uri clock r1 else r1)
      (marker (eqb motion 254) r1 (with_registry _ (upsert-IsIndexed uri st r.reg h.indexed) h))
  where
    marker :
        (b : Bool) (r1 : Region)
        → IsSound n r1
        → IsSound n (if b then fault_marker zone uri clock r1 else r1)
    marker true r1 k = fault_marker-IsSound n zone uri clock r1 k
    marker false r1 k = k

    edge :
        (b : Bool) (r2 : Region)
        → IsSound n r2
        → IsSound n (if b then motion_edge zone uri motion r2 else r2)
    edge true r2 k = motion_edge-IsSound n zone uri motion r2 k
    edge false r2 k = k

abbrev pub SoundIfDefined : ℕ → Option Region → Type 0
SoundIfDefined n none = Unit
SoundIfDefined n (some r) = IsSound n r

pub on_datagram-IsSound :
    (n : ℕ) (t : Option TelemetryUdp) (clock : Clock) (r : Region)
    → IsSound n r
    → SoundIfDefined n (on_datagram t clock r)
unfolding on_datagram
on_datagram-IsSound n none clock r h = h
on_datagram-IsSound n (some t) clock r h = defined (c_string t.uri)
  where
    defined : (o : Option Bytes) → SoundIfDefined n (handle_telemetry t o clock r)
    defined none = tt
    defined (some uri) = on_telemetry-IsSound n uri (from_be32 t.zone_id_be) t.motion clock r h

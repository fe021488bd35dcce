-- ===== src/System/Motion.antt =====
-- Motion in a zone: from the datagram of sensor_udp.cpp through regional_server.cpp to the lamp of
-- luminaire_client.cpp.
use smart_lighting_system.Base.{ℕ, ◌≡◌, true, false, some, arith, bytes_key, take, contains, ltb}
use smart_lighting_system.Base.Words.{IsU32}
use smart_lighting_system.Base.Assoc.{lookup}
use smart_lighting_system.Proto.MsgType
use smart_lighting_system.Proto.Messages.{Bytes}
use smart_lighting_system.Proto.Fits.{IsShort}
use smart_lighting_system.Proto.RoundTrip.Device.{encode_command_lem}
use smart_lighting_system.Registry.{get_lamps_in_zone, or_zero}
use smart_lighting_system.Registry.Lamps.{IsIndexed}
use smart_lighting_system.Fsm.Server.{normal_operation}
use smart_lighting_system.Fsm.Lamp.{on, off}
use smart_lighting_system.Region.{Clock, DeviceSession, Region}
use smart_lighting_system.Region.Session.{is_empty}
use smart_lighting_system.Region.Motion.{cmd_switch_on, cmd_switch_off, cmd_set_intensity}
use smart_lighting_system.Region.Telemetry.{telemetry_of, on_datagram, on_telemetry}
use smart_lighting_system.Region.Serves.{Serves, with_posted}
use smart_lighting_system.Region.Lights.{rise-Serves, fall-Serves}
use smart_lighting_system.Sensor.{send_telemetry}
use smart_lighting_system.Proto.Text.{NoNul}
use smart_lighting_system.Sensor.Telemetry.{on_datagram-send_telemetry}
use smart_lighting_system.Lamp.{Lamp, is_on_or_off}
use smart_lighting_system.Lamp.Message.{on_message}
use smart_lighting_system.Lamp.Consistent.{IsConsistent}
use smart_lighting_system.Lamp.Commanded.{
  body, command, short_command, on_payload, dim_payload, off_payload, Shows, lights_up, goes_out,
}

-- A lamp in the list of a zone, with a session of its own that is registered under its uri, while the
-- regional server is in NORMAL_OPERATION.
pub record Ready (zone : ℕ) (uri : Bytes) (id : ℕ) (s : DeviceSession) (r : Region) : Type 0 where
  pub normal : r.fsm ≡ normal_operation
  pub indexed : IsIndexed r.reg
  pub listed : contains uri (get_lamps_in_zone zone r.reg) ≡ true
  pub serves : Serves uri id s r
  pub registered : s.uri ≡ uri
  pub named : is_empty uri ≡ false
  pub short : IsShort uri

-- A sensor that can be named in a datagram, with a zone of 32 bits.
pub record Named (sensor : Bytes) (zone : ℕ) : Type 0 where
  pub no_nul : NoNul sensor
  pub fits : IsU32 zone

-- When the datagram of a sensor reports motion after none, a ready lamp of its zone gets SWITCH_ON and
-- SET_INTENSITY 60 behind what its session had posted. A lamp that is on or off and that draws no
-- fault is on with intensity 60 after these two messages.
pub rising_edge :
    (sensor uri : Bytes) (zone lux temp_x10 id draw later : ℕ) (clock : Clock) (s : DeviceSession)
    (r : Region) (l : Lamp)
    → Named sensor zone
    → Ready zone uri id s r
    → or_zero (lookup (take 47 sensor) r.last_motion) ≡ 0
    → is_on_or_off l.state ≡ true
    → ltb draw l.fault_prob_per_mille ≡ false
    → ltb later l.fault_prob_per_mille ≡ false
    → (r' : Region) × (on_datagram
          (telemetry_of (send_telemetry sensor zone lux 1 temp_x10))
          clock
          r
        ≡ some r')
      × Serves uri id
          (with_posted MsgType.cmd (dim_payload uri) (with_posted MsgType.cmd (on_payload uri) s))
          r'
      × Shows l.fault_prob_per_mille on 60 (
          on_message later
            (body (MsgType.cmd, dim_payload uri))
            (on_message draw (body (MsgType.cmd, on_payload uri)) l))
rising_edge sensor uri zone lux temp_x10 id draw later clock s r l n h e c d f = (
  on_telemetry (take 47 sensor) zone 1 clock r,
  on_datagram-send_telemetry sensor zone lux 1 temp_x10 clock r n.no_nul n.fits,
  rise-Serves uri (take 47 sensor) id zone s (on_payload uri) clock r (rw h.registered h.named)
      h.normal (h.indexed.no_repeat zone) h.listed h.serves (dim_payload uri)
      (rw h.registered (
        encode_command_lem (command uri cmd_switch_on 0)
          (short_command uri 1 0 h.short (omega arith) (omega arith))))
      (rw h.registered (
        encode_command_lem (command uri cmd_set_intensity 60)
          (short_command uri 3 60 h.short (omega arith) (omega arith))))
      e,
  lights_up uri draw later l h.short c d f,
)

-- When the datagram of a sensor reports no motion after motion, a ready lamp of its zone gets
-- SWITCH_OFF behind what its session had posted. A consistent lamp that is on or off is off with
-- intensity 0 after this message.
pub falling_edge :
    (sensor uri : Bytes) (zone lux temp_x10 id draw : ℕ) (clock : Clock) (s : DeviceSession)
    (r : Region) (l : Lamp)
    → Named sensor zone
    → Ready zone uri id s r
    → or_zero (lookup (take 47 sensor) r.last_motion) ≡ 1
    → is_on_or_off l.state ≡ true
    → IsConsistent l
    → (r' : Region) × (on_datagram
          (telemetry_of (send_telemetry sensor zone lux 0 temp_x10))
          clock
          r
        ≡ some r')
      × Serves uri id (with_posted MsgType.cmd (off_payload uri) s) r'
      × Shows l.fault_prob_per_mille off 0 (on_message draw (body (MsgType.cmd, off_payload uri)) l)
falling_edge sensor uri zone lux temp_x10 id draw clock s r l n h e c k = (
  on_telemetry (take 47 sensor) zone 0 clock r,
  on_datagram-send_telemetry sensor zone lux 0 temp_x10 clock r n.no_nul n.fits,
  fall-Serves uri (take 47 sensor) id zone s (off_payload uri) clock r (rw h.registered h.named)
      h.normal (h.indexed.no_repeat zone) h.listed h.serves
      (rw h.registered (
        encode_command_lem (command uri cmd_switch_off 0)
          (short_command uri 2 0 h.short (omega arith) (omega arith))))
      e,
  goes_out uri draw l h.short c k,
)

-- ===== src/Examples/Lights.antt =====
-- Motion in a zone with one lamp, in its session.
use smart_lighting_system.Base.{
  ℕ, ◌≡◌, refl, sym, inl, inr, Bool-cases, true, false, [], ◌∷◌, none, some, arith, bytes_key,
  bytes_eq, bytes_eq_iff, nat_eq, ◌==◌,
}
use smart_lighting_system.Base.Assoc.{lookup, insert}
use smart_lighting_system.Proto.MsgType
use smart_lighting_system.Proto.Messages.{Bytes}
use smart_lighting_system.Registry.{empty_registry, upsert, register_lamp, get_lamps_in_zone}
use smart_lighting_system.Registry.Lamps.{upsert-IsIndexed, IsIndexed-empty}
use smart_lighting_system.Fsm.Server.{normal_operation}
use smart_lighting_system.Fsm.Lamp.{on, off}
use smart_lighting_system.Outbox.{empty_outbox}
use smart_lighting_system.Lamp.{Lamp}
use smart_lighting_system.Lamp.Message.{on_message}
use smart_lighting_system.Lamp.Commanded.{body, on_payload, dim_payload, off_payload, Shows}
use smart_lighting_system.Region.{Region, DeviceSession, switch_fsm}
use smart_lighting_system.Region.Tick.{boot}
use smart_lighting_system.Region.Telemetry.{telemetry_of, on_datagram}
use smart_lighting_system.Region.Serves.{Serves, with_posted}
use smart_lighting_system.Sensor.{send_telemetry}
use smart_lighting_system.System.Motion.{Ready, rising_edge, falling_edge}
use smart_lighting_system.Examples.{lamp_uri, sensor_uri, lit_lamp, quiet_sensor, noon}

abbrev in_session : DeviceSession
in_session = record { uri = lamp_uri; registered = true; session_type = 1; outbox = empty_outbox }

abbrev served_region : Region
served_region = record (boot 3) {
  reg = upsert sensor_uri quiet_sensor (upsert lamp_uri lit_lamp empty_registry);
  fsm = normal_operation;
  sessions = (lamp_uri, 1) ∷ [];
  live = (1, in_session) ∷ [];
}

only_entry : (u k : Bytes) (n : ℕ) → lookup u ((k, n) ∷ []) ≡ some n → u ≡ k
unfolding lookup
only_entry u k n e = elim (Bool-cases (k == u)) [
  | inl q ↦ sym ((bytes_eq_iff k u).0 q)
  | inr q ↦ ground (arith, q, e)
]

served_region-Ready : Ready 7 lamp_uri 1 in_session served_region
unfolding lookup insert bytes_eq boot switch_fsm upsert register_lamp get_lamps_in_zone
served_region-Ready = record {
  normal = refl;
  indexed =
      upsert-IsIndexed sensor_uri quiet_sensor _
        (upsert-IsIndexed lamp_uri lit_lamp empty_registry IsIndexed-empty);
  listed = refl;
  serves = record { entry = refl; session = refl; own = λ u e. only_entry u lamp_uri 1 e };
  registered = refl;
  named = refl;
  short = omega arith;
}

abbrev pub lamp_off : Lamp
lamp_off = record {
  uri = lamp_uri;
  zone = 7;
  heartbeat_s = 10;
  fault_prob_per_mille = 5;
  state = off;
  intensity = 0;
  timers = record { register_timeout = false; reconnect = false; heartbeat = true };
  has_socket = true;
  connecting = false;
  outbox = empty_outbox;
  pending_fault = none;
}

rising_edge_example :
    (r' : Region) × (on_datagram
        (telemetry_of (send_telemetry sensor_uri 7 180 1 235))
        noon
        served_region
      ≡ some r')
    × Serves lamp_uri 1
        (with_posted MsgType.cmd
          (dim_payload lamp_uri)
          (with_posted MsgType.cmd (on_payload lamp_uri) in_session))
        r'
    × Shows 5 on 60 (
        on_message 400
          (body (MsgType.cmd, dim_payload lamp_uri))
          (on_message 300 (body (MsgType.cmd, on_payload lamp_uri)) lamp_off))
unfolding lookup boot switch_fsm
rising_edge_example =
    rising_edge sensor_uri lamp_uri 7 180 235 1 300 400 noon in_session served_region lamp_off
      (record { no_nul = omega arith; fits = omega arith }) served_region-Ready refl refl refl refl

abbrev lamp_lit : Lamp
lamp_lit = record lamp_off { state = on; intensity = 60 }

abbrev moved_region : Region
moved_region = record served_region { last_motion = (sensor_uri, 1) ∷ [] }

moved_region-Ready : Ready 7 lamp_uri 1 in_session moved_region
moved_region-Ready =
    let h = served_region-Ready in
    record {
      normal = refl;
      indexed = h.indexed;
      listed = h.listed;
      serves = record { entry = h.serves.entry; session = h.serves.session; own = h.serves.own };
      registered = refl;
      named = refl;
      short = h.short;
    }

falling_edge_example :
    (r' : Region) × (on_datagram
        (telemetry_of (send_telemetry sensor_uri 7 181 0 235))
        noon
        moved_region
      ≡ some r')
    × Serves lamp_uri 1 (with_posted MsgType.cmd (off_payload lamp_uri) in_session) r'
    × Shows 5 off 0 (on_message 300 (body (MsgType.cmd, off_payload lamp_uri)) lamp_lit)
unfolding lookup bytes_eq
falling_edge_example =
    falling_edge sensor_uri lamp_uri 7 181 235 1 300 noon in_session moved_region lamp_lit
      (record { no_nul = omega arith; fits = omega arith }) moved_region-Ready refl refl
      (omega arith)

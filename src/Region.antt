-- ===== src/Region.antt =====
-- tls_device_server.hpp, udp_telemetry_server.hpp and regional_server.cpp: the regional server. A
-- handler runs whole, and the clocks stand still while it runs.
pub mod Session
pub mod Motion
pub mod Telemetry
pub mod Tick
pub mod Events
pub mod Invariant
pub mod Sensed
pub mod Always
pub mod Routing
pub mod CommLost
pub mod Edges
pub mod Raised
pub mod Serves
pub mod Lights
pub mod Typed
use smart_lighting_system.Base.{
  ℕ, Bool, true, false, List, [], ◌∷◌, ◌++◌, Option, none, some, nat_eq, bytes_key, eqb,
  if◌then◌else◌,
}
use smart_lighting_system.Base.Assoc.{lookup, insert}
use smart_lighting_system.Proto.DeviceType
use smart_lighting_system.Proto.Messages.{Bytes, AlarmUp}
use smart_lighting_system.Registry.{DeviceState, Registry, empty_registry}
use smart_lighting_system.Db.{DbWriter, new_writer, start}
use smart_lighting_system.Fsm.Server.{ServerState, idle, switch_to}
use smart_lighting_system.Outbox.{Outbox, empty_outbox, queue_send}

-- now_ms(), the time stamp of a database event, and std::time(nullptr).
pub record Clock : Type 0 where
  pub now_ms : ℕ
  pub ts_ms : ℕ
  pub unix : ℕ

-- A DeviceSession. The socket is the list of messages that go out.
pub record DeviceSession : Type 0 where
  pub uri : Bytes
  pub registered : Bool
  pub session_type : ℕ
  pub outbox : Outbox

abbrev pub new_session : DeviceSession
new_session = record {
  uri = [];
  registered = false;
  session_type = DeviceType.luminaire;
  outbox = empty_outbox;
}

-- The objects of the regional server. `live` holds the sessions that exist, by an identity that
-- stands for their address: a weak pointer locks if its session is live. `alarms` holds what
-- `send_alarm_now` was given.
pub record Region : Type 0 where
  pub region_id : ℕ
  pub reg : Registry
  pub db : DbWriter
  pub fsm : ServerState
  pub sessions : List (Bytes × ℕ)
  pub live : List (ℕ × DeviceSession)
  pub alarms : List AlarmUp
  pub last_motion : List (Bytes × ℕ)
  pub active_lost : List Bytes

unfoldable pub switch_fsm : ServerState → Region → Region
unfolding switch_to
switch_fsm next r = record r { fsm = (switch_to next r.fsm).0 }

unfoldable pub send_alarm_now : AlarmUp → Region → Region
send_alarm_now a r = record r { alarms = r.alarms ++ a ∷ [] }

-- (type == DeviceType::LUMINAIRE) ? 1 : 2
unfoldable pub type_code : ℕ → ℕ
type_code t = if eqb t DeviceType.luminaire then 1 else 2

abbrev pub session_or_new : Option DeviceSession → DeviceSession
session_or_new none = new_session
session_or_new (some s) = s

unfoldable pub session_of : ℕ → Region → DeviceSession
session_of id r = session_or_new (lookup id r.live)

unfoldable pub set_session : ℕ → DeviceSession → Region → Region
set_session id s r = record r { live = insert id s r.live }

unfoldable pub session_send : ℕ → ℕ → Bytes → Region → Region
unfolding session_of set_session
session_send id t payload r =
    let s = session_of id r in
    set_session id (record s { outbox = queue_send t payload s.outbox }) r

-- ===== src/Region/Typed.antt =====
-- The types of what the regional server holds: every field is within its C++ type, and every text can
-- be sent.
pub mod Messages
pub mod Commands
pub mod Sensed
pub mod Always
use smart_lighting_system.Base.{
  ℕ, ◌≡◌, refl, inl, inr, Bool, true, false, ◌||◌, Bool-cases, List, [], ◌∷◌, ◌++◌, Option, none,
  some, Option-cases, nat_eq, bytes_key, eqb, All, All-append, All-imp, not, ◌&&◌, arith,
  if◌then◌else◌,
}
use smart_lighting_system.Base.Words.{IsU8, IsU32, IsU64}
use smart_lighting_system.Base.Assoc.{lookup, insert, insert-All, insert-All_entry, lookup-All}
use smart_lighting_system.Proto.Result.{Result, ok, err}
use smart_lighting_system.Proto.Messages.{Bytes, RegisterReq, StatusReport, FaultReport, AlarmUp}
use smart_lighting_system.Proto.Fits.{
  IsShort, RegisterReqFits, StatusReportFits, FaultReportFits, AlarmUpFits,
}
use smart_lighting_system.Proto.Decode.{
  decode_register_req, decode_status_report, decode_fault_report,
}
use smart_lighting_system.Proto.Ranges.Device.{
  decode_register_req-Fits, decode_status_report-Fits, decode_fault_report-Fits,
}
use smart_lighting_system.Registry.{
  DeviceState, Devices, Registry, is_luminaire, register_lamp, upsert, get,
}
use smart_lighting_system.Db.{log_fault}
use smart_lighting_system.Region.{
  Clock, DeviceSession, Region, switch_fsm, send_alarm_now, type_code, session_of, set_session,
  session_send,
}
use smart_lighting_system.Region.Session.{
  blank, is_empty, registry_with, handle_register, own_device, store_status, status_of,
  handle_status, on_device_fault, fault_state, handle_fault, or_ignored, on_message,
}

pub record DeviceFits (st : DeviceState) : Type 0 where
  pub type : IsU8 st.type
  pub zone : IsU32 st.zone_id
  pub on : IsU8 st.on
  pub intensity : IsU8 st.intensity
  pub power : IsU32 st.power_mw
  pub seen : IsU64 st.last_seen_ms

abbrev pub DevicesFit : Devices → Type 0
DevicesFit ds = All (λ kv. IsShort kv.0 × DeviceFits kv.1) ds

abbrev pub SessionFits : DeviceSession → Type 0
SessionFits s = IsShort s.uri × IsU8 s.session_type

abbrev pub SessionsFit : List (ℕ × DeviceSession) → Type 0
SessionsFit live = All (λ kv. SessionFits kv.1) live

pub record Fields (region_id : ℕ) (dev : Devices) (live : List (ℕ × DeviceSession))
    (alarms : List AlarmUp) : Type 0 where
  pub region : IsU32 region_id
  pub devices : DevicesFit dev
  pub sessions : SessionsFit live
  pub raised : All AlarmUpFits alarms

abbrev pub IsTyped : Region → Type 0
IsTyped r = Fields r.region_id r.reg.dev r.live r.alarms

abbrev pub ClockFits : Clock → Type 0
ClockFits clock = IsU64 clock.now_ms

module _ {region_id : ℕ} {dev : Devices} {live : List (ℕ × DeviceSession)}
    {alarms : List AlarmUp} where
  pub with_devices :
      (dev' : Devices)
      → DevicesFit dev'
      → Fields region_id dev live alarms
      → Fields region_id dev' live alarms
  with_devices dev' d h = record {
    region = h.region;
    devices = d;
    sessions = h.sessions;
    raised = h.raised;
  }

  pub with_sessions :
      (live' : List (ℕ × DeviceSession))
      → SessionsFit live'
      → Fields region_id dev live alarms
      → Fields region_id dev live' alarms
  with_sessions live' s h = record {
    region = h.region;
    devices = h.devices;
    sessions = s;
    raised = h.raised;
  }

  pub with_raised :
      (a : AlarmUp)
      → AlarmUpFits a
      → Fields region_id dev live alarms
      → Fields region_id dev live (alarms ++ a ∷ [])
  with_raised a f h = record {
    region = h.region;
    devices = h.devices;
    sessions = h.sessions;
    raised = All-append AlarmUpFits alarms (a ∷ []) h.raised (f, tt);
  }

-- A device is stored.
pub upsert-Fit :
    (uri : Bytes) (st : DeviceState) (reg : Registry)
    → IsShort uri
    → DeviceFits st
    → DevicesFit reg.dev
    → DevicesFit (upsert uri st reg).dev
unfolding upsert register_lamp
upsert-Fit uri st reg u f d = stored (is_luminaire st && not (eqb st.zone_id 0))
  where
    d' : DevicesFit (insert uri st reg.dev)
    d' = insert-All_entry (λ kv. IsShort kv.0 × DeviceFits kv.1) uri st reg.dev (u, f) d

    stored :
        (b : Bool)
        → let r1 = record reg { dev = insert uri st reg.dev } in
          DevicesFit (if b then register_lamp uri st.zone_id r1 else r1).dev
    stored true = d'
    stored false = d'

pub blank-Fits : (type zone : ℕ) → IsU8 type → IsU32 zone → DeviceFits (blank type zone)
blank-Fits type zone t z = record {
  type = t;
  zone = z;
  on = omega arith;
  intensity = omega arith;
  power = omega arith;
  seen = omega arith;
}

-- What is stored of a device, or what replaces it.
pub get-Fits :
    (uri : Bytes) (reg : Registry) (st : DeviceState)
    → DevicesFit reg.dev
    → get uri reg ≡ some st
    → DeviceFits st
unfolding get
get-Fits uri reg st d e =
    lookup-All DeviceFits uri reg.dev
      (All-imp (λ kv. IsShort kv.0 × DeviceFits kv.1) (λ kv. DeviceFits kv.1) reg.dev (λ kv h. h.1)
        d)
      e

pub session_of-Fits : (id : ℕ) (r : Region) → SessionsFit r.live → SessionFits (session_of id r)
unfolding session_of
session_of-Fits id r h = elim (Option-cases (lookup id r.live)) [
  | inl e ↦ rw e (omega arith, omega arith)
  | inr (s, e) ↦ rw e (lookup-All SessionFits id r.live h e)
]

-- A session is set.
pub set_session-IsTyped :
    (id : ℕ) (s : DeviceSession) (r : Region)
    → SessionFits s
    → IsTyped r
    → IsTyped (set_session id s r)
unfolding set_session
set_session-IsTyped id s r f h = with_sessions _ (insert-All SessionFits id s r.live f h.sessions) h

pub session_send-IsTyped :
    (id t : ℕ) (p : Bytes) (r : Region) → IsTyped r → IsTyped (session_send id t p r)
unfolding session_send
session_send-IsTyped id t p r h = set_session-IsTyped id _ r (session_of-Fits id r h.sessions) h

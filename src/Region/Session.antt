-- ===== src/Region/Session.antt =====
-- DeviceSession of tls_device_server.hpp, with the fault callback that regional_server.cpp sets.
use smart_lighting_system.Base.{
  ℕ, Bool, true, false, not, ◌&&◌, ◌||◌, [], ◌∷◌, Option, none, some, nat_eq, bytes_key, ◌==◌, eqb,
  if◌then◌else◌,
}
use smart_lighting_system.Base.Words.{u32}
use smart_lighting_system.Base.Assoc.{lookup, insert, erase}
use smart_lighting_system.Proto.Result.{Result, ok, err}
use smart_lighting_system.Proto.MsgType
use smart_lighting_system.Proto.DeviceType
use smart_lighting_system.Proto.Messages.{Bytes, RegisterReq, StatusReport, FaultReport}
use smart_lighting_system.Proto.Encode.{encode_register_ack, encode_command}
use smart_lighting_system.Proto.Decode.{
  decode_register_req, decode_status_report, decode_fault_report,
}
use smart_lighting_system.Registry.{DeviceState, Registry, upsert, register_lamp, get}
use smart_lighting_system.Db.{upsert_device, log_lamp_status, log_fault}
use smart_lighting_system.Fsm.Server.{fault_handling}
use smart_lighting_system.Region.{
  Clock, DeviceSession, new_session, Region, switch_fsm, send_alarm_now, type_code, session_of,
  set_session, session_send,
}

-- The fields that a new state starts with.
abbrev pub blank : ℕ → ℕ → DeviceState
blank type zone_id = record {
  type = type;
  zone_id = zone_id;
  on = 0;
  intensity = 0;
  power_mw = 0;
  fault = false;
  last_seen_ms = 0;
}

-- uri.empty()
abbrev pub is_empty : Bytes → Bool
is_empty [] = true
is_empty (b ∷ bs) = false

abbrev pub registry_with : RegisterReq → ℕ → Registry → Registry
registry_with req now reg =
    let reg' = upsert req.uri (record (blank req.type req.zone_id) { last_seen_ms = now }) reg in
    if eqb req.type DeviceType.luminaire then register_lamp req.uri req.zone_id reg' else reg'

unfoldable pub handle_register : ℕ → RegisterReq → Clock → Region → Region
handle_register id req clock r =
    if is_empty req.uri || eqb req.zone_id 0
    then session_send id MsgType.register_nack [] r
    else let s = session_of id r in
      let r1 =
        set_session id (record s { registered = true; session_type = req.type; uri = req.uri })
          (record r {
            reg = registry_with req clock.now_ms r.reg;
            sessions = insert req.uri id r.sessions;
          }) in
      session_send id MsgType.register_ack
        (encode_register_ack (record { server_time_unix = u32 clock.unix })) r1

-- registered_ && !uri_.empty() && uri == uri_
unfoldable pub own_device : DeviceSession → Bytes → Bool
own_device s uri = s.registered && not (is_empty s.uri) && uri == s.uri

unfoldable pub store_status : StatusReport → DeviceState → Clock → Region → Region
store_status s st0 clock r =
    let st = record st0 {
      zone_id = s.zone_id;
      on = s.on;
      intensity = s.intensity;
      power_mw = s.power_mw;
      last_seen_ms = clock.now_ms;
    } in
    let db1 =
      upsert_device clock.ts_ms s.uri (type_code st.type) r.region_id s.zone_id st.fault s.on
        s.intensity s.power_mw r.db in
    record r {
      reg = upsert s.uri st r.reg;
      db =
          if eqb st.type DeviceType.luminaire
          then log_lamp_status clock.ts_ms s.uri r.region_id s.zone_id s.on s.intensity s.power_mw
              db1
          else db1;
    }

unfoldable pub status_of : Option DeviceState → ℕ → StatusReport → Clock → Region → Region
unfolding store_status own_device session_of
status_of (some st) id s clock r = store_status s st clock r
status_of none id s clock r =
    let me = session_of id r in
    if own_device me s.uri then store_status s (blank me.session_type s.zone_id) clock r else r

unfoldable pub handle_status : ℕ → StatusReport → Clock → Region → Region
unfolding status_of get
handle_status id s clock r = status_of (get s.uri r.reg) id s clock r

-- The fault callback.
unfoldable pub on_device_fault : FaultReport → ℕ → Clock → Region → Region
unfolding switch_fsm send_alarm_now type_code
on_device_fault f dtype clock r =
    send_alarm_now
      (record {
        region_id = r.region_id;
        ts_unix = u32 clock.unix;
        device_type = type_code dtype;
        zone_id = f.zone_id;
        code = f.code;
        uri = f.uri;
        text = f.text;
      })
      (switch_fsm fault_handling r)

-- The state of a device that reports a fault: what is stored, or a blank one.
unfoldable pub fault_state : Option DeviceState → DeviceSession → FaultReport → DeviceState
unfolding own_device
fault_state (some st) me f = st
fault_state none me f =
    if own_device me f.uri
    then blank me.session_type f.zone_id
    else blank DeviceType.luminaire f.zone_id

unfoldable pub handle_fault : ℕ → FaultReport → Clock → Region → Region
unfolding fault_state on_device_fault session_of session_send
handle_fault id f clock r =
    let st = fault_state (get f.uri r.reg) (session_of id r) f in
    let r1 = record r {
      db = log_fault clock.ts_ms f.uri r.region_id f.zone_id f.code f.text r.db;
      reg =
          upsert f.uri
            (record st { zone_id = f.zone_id; fault = true; last_seen_ms = clock.now_ms }) r.reg;
    } in
    session_send id MsgType.fault_ack [] (on_device_fault f st.type clock r1)

-- `try { ... } catch`: a payload that does not decode changes nothing.
abbrev pub or_ignored {ℓ} : {A : Type ℓ} → Result A → Region → (A → Region) → Region
or_ignored (ok a) r f = f a
or_ignored (err e) r f = r

unfoldable pub on_message : ℕ → Bytes → Clock → Region → Region
on_message id [] clock r = r
on_message id (t ∷ p) clock r =
    if eqb t MsgType.register_req
    then or_ignored (decode_register_req p) r (λ req. handle_register id req clock r)
    else if eqb t MsgType.status_report
    then or_ignored (decode_status_report p) r (λ s. handle_status id s clock r)
    else if eqb t MsgType.fault_report
    then or_ignored (decode_fault_report p) r (λ f. handle_fault id f clock r)
    else r

-- `do_accept`: a new session, under an identity that no live session has.
unfoldable pub on_accept : ℕ → Region → Region
unfolding set_session
on_accept id r = set_session id new_session r

-- The entry of the session's uri goes if it is the session's own, or of a session that is gone.
unfoldable pub closed_entry : Option ℕ → ℕ → Bytes → Region → Region
closed_entry none id uri r = r
closed_entry (some other) id uri r = elim (lookup other r.live) [
  | none ↦ record r { sessions = erase uri r.sessions }
  | some s ↦ if eqb other id then record r { sessions = erase uri r.sessions } else r
]

unfoldable pub on_close : ℕ → Region → Region
on_close id r =
    let s = session_of id r in
    if is_empty s.uri then r else closed_entry (lookup s.uri r.sessions) id s.uri r

-- The last handler of a session is gone, and the session with it.
unfoldable pub destroy : ℕ → Region → Region
destroy id r = record r { live = erase id r.live }

-- An encoding fails only for a uri of more than 65535 bytes, which no message can bring.
unfoldable pub queue_cmd : Result Bytes → ℕ → Region → Region
unfolding session_send
queue_cmd (ok payload) id r = session_send id MsgType.cmd payload r
queue_cmd (err e) id r = r

unfoldable pub send_cmd : ℕ → ℕ → ℕ → Region → Region
send_cmd id cmd value r =
    let s = session_of id r in
    if is_empty s.uri
    then r
    else queue_cmd (encode_command (record { uri = s.uri; cmd = cmd; value = value })) id r

unfoldable pub send_to_entry : Option ℕ → Bytes → ℕ → ℕ → Region → Region × Bool
send_to_entry none uri cmd value r = (r, false)
send_to_entry (some id) uri cmd value r = elim (lookup id r.live) [
  | none ↦ (record r { sessions = erase uri r.sessions }, false)
  | some s ↦ (send_cmd id cmd value r, true)
]

unfoldable pub send_cmd_to_uri : Bytes → ℕ → ℕ → Region → Region × Bool
unfolding send_to_entry
send_cmd_to_uri uri cmd value r = send_to_entry (lookup uri r.sessions) uri cmd value r

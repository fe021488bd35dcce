-- ===== src/Region/Typed/Messages.antt =====
-- The types of what the regional server holds, through the messages of tls_device_server.hpp.
use smart_lighting_system.Base.{
  ℕ, ◌≡◌, refl, inl, inr, Bool, true, false, ◌||◌, Bool-cases, [], ◌∷◌, Option-cases, nat_eq,
  bytes_key, eqb, All, arith, if◌then◌else◌,
}
use smart_lighting_system.Base.Words.{IsU8, IsU64}
use smart_lighting_system.Proto.Result.{Result, ok, err}
use smart_lighting_system.Proto.MsgType
use smart_lighting_system.Proto.DeviceType
use smart_lighting_system.Proto.Messages.{Bytes, RegisterReq, StatusReport, FaultReport}
use smart_lighting_system.Proto.Fits.{RegisterReqFits, StatusReportFits, FaultReportFits}
use smart_lighting_system.Proto.Decode.{
  decode_register_req, decode_status_report, decode_fault_report,
}
use smart_lighting_system.Proto.Ranges.Device.{
  decode_register_req-Fits, decode_status_report-Fits, decode_fault_report-Fits,
}
use smart_lighting_system.Registry.{DeviceState, Registry, register_lamp, upsert, get}
use smart_lighting_system.Db.{log_fault}
use smart_lighting_system.Region.{Clock, Region, switch_fsm, send_alarm_now, type_code, session_of}
use smart_lighting_system.Region.Session.{
  blank, is_empty, registry_with, handle_register, own_device, store_status, status_of,
  handle_status, on_device_fault, fault_state, handle_fault, or_ignored, on_message,
}
use smart_lighting_system.Region.Typed.{
  DeviceFits, DevicesFit, IsTyped, ClockFits, with_devices, with_raised, upsert-Fit, blank-Fits,
  get-Fits, session_of-Fits, set_session-IsTyped, session_send-IsTyped,
}

registry_with-Fit :
    (req : RegisterReq) (now : ℕ) (reg : Registry)
    → RegisterReqFits req
    → IsU64 now
    → DevicesFit reg.dev
    → DevicesFit (registry_with req now reg).dev
registry_with-Fit req now reg f n d = stored (eqb req.type DeviceType.luminaire)
  where
    st : DeviceState
    st = record (blank req.type req.zone_id) { last_seen_ms = now }

    d' : DevicesFit (upsert req.uri st reg).dev
    d' =
        upsert-Fit req.uri st reg f.uri
          (record {
            type = f.type;
            zone = f.zone_id;
            on = omega arith;
            intensity = omega arith;
            power = omega arith;
            seen = n;
          })
          d

    stored :
        (b : Bool)
        → let reg' = upsert req.uri st reg in
          DevicesFit (if b then register_lamp req.uri req.zone_id reg' else reg').dev
    stored true = unfold register_lamp in d'
    stored false = d'

handle_register-IsTyped :
    (id : ℕ) (req : RegisterReq) (clock : Clock) (r : Region)
    → RegisterReqFits req
    → ClockFits clock
    → IsTyped r
    → IsTyped (handle_register id req clock r)
unfolding handle_register
handle_register-IsTyped id req clock r f c h =
    elim (Bool-cases (is_empty req.uri || eqb req.zone_id 0)) [
      | inl e ↦ rw e (session_send-IsTyped id MsgType.register_nack [] r h)
      | inr e ↦ rw e (
          session_send-IsTyped id MsgType.register_ack _ _ (
            set_session-IsTyped id _ _ (f.uri, f.type)
              (with_devices _ (registry_with-Fit req clock.now_ms r.reg f c h.devices) h)))
    ]

store_status-IsTyped :
    (s : StatusReport) (st : DeviceState) (clock : Clock) (r : Region)
    → StatusReportFits s
    → IsU8 st.type
    → ClockFits clock
    → IsTyped r
    → IsTyped (store_status s st clock r)
unfolding store_status
store_status-IsTyped s st clock r f t c h =
    with_devices _
      (upsert-Fit s.uri _ r.reg f.uri
        (record {
          type = t;
          zone = f.zone_id;
          on = f.on;
          intensity = f.intensity;
          power = f.power_mw;
          seen = c;
        })
        h.devices)
      h

handle_status-IsTyped :
    (id : ℕ) (s : StatusReport) (clock : Clock) (r : Region)
    → StatusReportFits s
    → ClockFits clock
    → IsTyped r
    → IsTyped (handle_status id s clock r)
unfolding handle_status status_of
handle_status-IsTyped id s clock r f c h = elim (Option-cases (get s.uri r.reg)) [
  | inl e ↦ rw e (elim (Bool-cases (own_device (session_of id r) s.uri)) [
    | inl o ↦ rw o (
        store_status-IsTyped s (blank (session_of id r).session_type s.zone_id) clock r f
          (session_of-Fits id r h.sessions).1 c h)
    | inr o ↦ rw o h
  ])
  | inr (st, e) ↦
      rw e (store_status-IsTyped s st clock r f (get-Fits s.uri r.reg st h.devices e).type c h)
]

fault_state-Fits :
    (id : ℕ) (f : FaultReport) (r : Region)
    → FaultReportFits f
    → IsTyped r
    → DeviceFits (fault_state (get f.uri r.reg) (session_of id r) f)
unfolding fault_state
fault_state-Fits id f r k h = elim (Option-cases (get f.uri r.reg)) [
  | inl e ↦ rw e (elim (Bool-cases (own_device (session_of id r) f.uri)) [
    | inl o ↦ rw o (blank-Fits _ f.zone_id (session_of-Fits id r h.sessions).1 k.zone_id)
    | inr o ↦ rw o (blank-Fits DeviceType.luminaire f.zone_id (omega arith) k.zone_id)
  ])
  | inr (st, e) ↦ rw e (get-Fits f.uri r.reg st h.devices e)
]

pub type_code-IsU8 : (t : ℕ) → IsU8 (type_code t)
unfolding type_code
type_code-IsU8 t = ground arith

on_device_fault-IsTyped :
    (f : FaultReport) (dtype : ℕ) (clock : Clock) (r : Region)
    → FaultReportFits f
    → IsTyped r
    → IsTyped (on_device_fault f dtype clock r)
unfolding on_device_fault switch_fsm send_alarm_now
on_device_fault-IsTyped f dtype clock r k h =
    with_raised _
      (record {
        region_id = h.region;
        ts_unix = omega arith;
        device_type = type_code-IsU8 dtype;
        zone_id = k.zone_id;
        code = k.code;
        uri = k.uri;
        text = k.text;
      })
      h

handle_fault-IsTyped :
    (id : ℕ) (f : FaultReport) (clock : Clock) (r : Region)
    → FaultReportFits f
    → ClockFits clock
    → IsTyped r
    → IsTyped (handle_fault id f clock r)
unfolding handle_fault
handle_fault-IsTyped id f clock r k c h =
    let st0 : DeviceState = fault_state (get f.uri r.reg) (session_of id r) f in
    let st : DeviceState = record st0 {
      zone_id = f.zone_id;
      fault = true;
      last_seen_ms = clock.now_ms;
    } in
    let fits = fault_state-Fits id f r k h in
    let stored =
      upsert-Fit f.uri st r.reg k.uri
        (record {
          type = fits.type;
          zone = k.zone_id;
          on = fits.on;
          intensity = fits.intensity;
          power = fits.power;
          seen = c;
        })
        h.devices in
    let r1 : Region = record r {
      db = log_fault clock.ts_ms f.uri r.region_id f.zone_id f.code f.text r.db;
      reg = upsert f.uri st r.reg;
    } in
    session_send-IsTyped id MsgType.fault_ack [] (on_device_fault f st0.type clock r1)
      (on_device_fault-IsTyped f st0.type clock r1 k (with_devices _ stored h))

pub on_message-IsTyped :
    (id : ℕ) (body : Bytes) (clock : Clock) (r : Region)
    → All IsU8 body
    → ClockFits clock
    → IsTyped r
    → IsTyped (on_message id body clock r)
unfolding on_message
on_message-IsTyped id [] clock r b c h = h
on_message-IsTyped id (t ∷ p) clock r b c h = elim (Bool-cases (eqb t MsgType.register_req)) [
  | inl e ↦ rw e (registering (decode_register_req p) refl)
  | inr e ↦ elim (Bool-cases (eqb t MsgType.status_report)) [
    | inl e' ↦ rw (e, e') (reporting (decode_status_report p) refl)
    | inr e' ↦ elim (Bool-cases (eqb t MsgType.fault_report)) [
      | inl e'' ↦ rw (e, e', e'') (failing (decode_fault_report p) refl)
      | inr e'' ↦ rw (e, e', e'') h
    ]
  ]
]
  where
    registering :
        (d : Result RegisterReq)
        → decode_register_req p ≡ d
        → IsTyped (or_ignored d r (λ req. handle_register id req clock r))
    registering (ok req) e =
        handle_register-IsTyped id req clock r (decode_register_req-Fits p req b.1 e) c h
    registering (err x) e = h

    reporting :
        (d : Result StatusReport)
        → decode_status_report p ≡ d
        → IsTyped (or_ignored d r (λ s. handle_status id s clock r))
    reporting (ok s) e =
        handle_status-IsTyped id s clock r (decode_status_report-Fits p s b.1 e) c h
    reporting (err x) e = h

    failing :
        (d : Result FaultReport)
        → decode_fault_report p ≡ d
        → IsTyped (or_ignored d r (λ f. handle_fault id f clock r))
    failing (ok f) e = handle_fault-IsTyped id f clock r (decode_fault_report-Fits p f b.1 e) c h
    failing (err x) e = h

-- ===== src/Region/Invariant.antt =====
-- The invariant of the regional server, and the messages of tls_device_server.hpp.
use smart_lighting_system.Base.{
  ℕ, ◌≡◌, refl, ◌⊎◌, inl, inr, ◌||◌, Bool-cases, List, [], ◌∷◌, ◌++◌, Option-cases, nat_eq,
  bytes_key, eqb, All, All-append,
}
use smart_lighting_system.Proto.Result.{Result, ok, err}
use smart_lighting_system.Proto.MsgType
use smart_lighting_system.Proto.DeviceType
use smart_lighting_system.Proto.Messages.{Bytes, RegisterReq, StatusReport, FaultReport, AlarmUp}
use smart_lighting_system.Proto.Decode.{
  decode_register_req, decode_status_report, decode_fault_report,
}
use smart_lighting_system.Registry.{DeviceState, Registry, upsert, get}
use smart_lighting_system.Registry.Lamps.{IsIndexed, upsert-IsIndexed, register_lamp-IsIndexed}
use smart_lighting_system.Fsm.Server.{
  ServerState, normal_operation, fault_handling, to_string, transitions, switch_to,
}
use smart_lighting_system.Fsm.{allows}
use smart_lighting_system.Region.{
  Clock, Region, switch_fsm, send_alarm_now, session_of, set_session, session_send,
}
use smart_lighting_system.Region.Session.{
  blank, is_empty, registry_with, handle_register, own_device, store_status, status_of,
  handle_status, on_device_fault, handle_fault, or_ignored, on_message,
}

abbrev pub InService : ServerState → Type 0
InService s = (s ≡ normal_operation) ⊎ (s ≡ fault_handling)

pub record Sound (n region_id : ℕ) (reg : Registry) (fsm : ServerState) (alarms : List AlarmUp)
    : Type 0 where
  pub region : region_id ≡ n
  pub indexed : IsIndexed reg
  pub in_service : InService fsm
  pub raised : All (λ a. a.region_id ≡ n) alarms

abbrev pub IsSound : ℕ → Region → Type 0
IsSound n r = Sound n r.region_id r.reg r.fsm r.alarms

module _ {n region_id : ℕ} {reg : Registry} {fsm : ServerState} {alarms : List AlarmUp} where
  pub with_registry :
      (reg' : Registry)
      → IsIndexed reg'
      → Sound n region_id reg fsm alarms
      → Sound n region_id reg' fsm alarms
  with_registry reg' i h = record {
    region = h.region;
    indexed = i;
    in_service = h.in_service;
    raised = h.raised;
  }

  pub switched :
      (next : ServerState)
      → InService next
      → Sound n region_id reg fsm alarms
      → Sound n region_id reg (switch_to next fsm).0 alarms
  unfolding switch_to
  switched next s h = record {
    region = h.region;
    indexed = h.indexed;
    in_service = elim (Bool-cases (allows transitions (to_string fsm) (to_string next))) [
      | inl e ↦ rw e s
      | inr e ↦ rw e h.in_service
    ];
    raised = h.raised;
  }

  pub with_alarm :
      (a : AlarmUp)
      → a.region_id ≡ n
      → Sound n region_id reg fsm alarms
      → Sound n region_id reg fsm (alarms ++ a ∷ [])
  with_alarm a e h = record {
    region = h.region;
    indexed = h.indexed;
    in_service = h.in_service;
    raised = All-append (λ (b : AlarmUp). b.region_id ≡ n) alarms (a ∷ []) h.raised (e, tt);
  }

registry_with-IsIndexed :
    (req : RegisterReq) (now : ℕ) (reg : Registry)
    → IsIndexed reg
    → IsIndexed (registry_with req now reg)
registry_with-IsIndexed req now reg h =
    let st : DeviceState = record (blank req.type req.zone_id) { last_seen_ms = now } in
    let i = upsert-IsIndexed req.uri st reg h in
    elim (Bool-cases (eqb req.type DeviceType.luminaire)) [
      | inl e ↦ rw e (register_lamp-IsIndexed req.uri req.zone_id (upsert req.uri st reg) i)
      | inr e ↦ rw e i
    ]

handle_register-IsSound :
    (n id : ℕ) (req : RegisterReq) (clock : Clock) (r : Region)
    → IsSound n r
    → IsSound n (handle_register id req clock r)
unfolding handle_register set_session session_send
handle_register-IsSound n id req clock r h =
    let i = registry_with-IsIndexed req clock.now_ms r.reg h.indexed in
    elim (Bool-cases (is_empty req.uri || eqb req.zone_id 0)) [
      | inl e ↦ rw e h
      | inr e ↦ rw e (with_registry (registry_with req clock.now_ms r.reg) i h)
    ]

store_status-IsSound :
    (n : ℕ) (s : StatusReport) (st : DeviceState) (clock : Clock) (r : Region)
    → IsSound n r
    → IsSound n (store_status s st clock r)
unfolding store_status
store_status-IsSound n s st clock r h = with_registry _ (upsert-IsIndexed s.uri _ r.reg h.indexed) h

handle_status-IsSound :
    (n id : ℕ) (s : StatusReport) (clock : Clock) (r : Region)
    → IsSound n r
    → IsSound n (handle_status id s clock r)
unfolding handle_status status_of
handle_status-IsSound n id s clock r h = elim (Option-cases (get s.uri r.reg)) [
  | inl e ↦ rw e (elim (Bool-cases (own_device (session_of id r) s.uri)) [
    | inl o ↦
        rw o (store_status-IsSound n s (blank (session_of id r).session_type s.zone_id) clock r h)
    | inr o ↦ rw o h
  ])
  | inr (st, e) ↦ rw e (store_status-IsSound n s st clock r h)
]

handle_fault-IsSound :
    (n id : ℕ) (f : FaultReport) (clock : Clock) (r : Region)
    → IsSound n r
    → IsSound n (handle_fault id f clock r)
unfolding handle_fault on_device_fault switch_fsm send_alarm_now session_send set_session
handle_fault-IsSound n id f clock r h = with_alarm _ h.region (
    switched fault_handling (inr refl)
      (with_registry _ (upsert-IsIndexed f.uri _ r.reg h.indexed) h))

pub on_message-IsSound :
    (n id : ℕ) (body : Bytes) (clock : Clock) (r : Region)
    → IsSound n r
    → IsSound n (on_message id body clock r)
unfolding on_message
on_message-IsSound n id [] clock r h = h
on_message-IsSound n id (t ∷ p) clock r h = elim (Bool-cases (eqb t MsgType.register_req)) [
  | inl e ↦ rw e (registering (decode_register_req p))
  | inr e ↦ elim (Bool-cases (eqb t MsgType.status_report)) [
    | inl e' ↦ rw (e, e') (reporting (decode_status_report p))
    | inr e' ↦ elim (Bool-cases (eqb t MsgType.fault_report)) [
      | inl e'' ↦ rw (e, e', e'') (failing (decode_fault_report p))
      | inr e'' ↦ rw (e, e', e'') h
    ]
  ]
]
  where
    registering :
        (d : Result RegisterReq)
        → IsSound n (or_ignored d r (λ req. handle_register id req clock r))
    registering (ok req) = handle_register-IsSound n id req clock r h
    registering (err x) = h

    reporting :
        (d : Result StatusReport) → IsSound n (or_ignored d r (λ s. handle_status id s clock r))
    reporting (ok s) = handle_status-IsSound n id s clock r h
    reporting (err x) = h

    failing : (d : Result FaultReport) → IsSound n (or_ignored d r (λ f. handle_fault id f clock r))
    failing (ok f) = handle_fault-IsSound n id f clock r h
    failing (err x) = h

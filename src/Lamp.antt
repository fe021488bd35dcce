-- ===== src/Lamp.antt =====
-- luminaire_client.cpp: the client of a lamp. A handler runs whole. The random number of
-- `maybe_simulate_fault` is an argument.
pub mod Message
pub mod Consistent
pub mod Report
pub mod Encodes
pub mod Events
pub mod Commanded
use smart_lighting_system.Base.{
  ℕ, ◌+◌, ◌*◌, ◌≤◌, Bool, true, false, ◌&&◌, ◌||◌, not, List, [], ◌∷◌, Option, none, some, ltb, eqb,
  max, if◌then◌else◌,
}
use smart_lighting_system.Base.Words.{u32}
use smart_lighting_system.Proto.Result.{Result, ok, err}
use smart_lighting_system.Proto.MsgType
use smart_lighting_system.Proto.DeviceType
use smart_lighting_system.Proto.Messages.{Bytes, RegisterReq, StatusReport, FaultReport}
use smart_lighting_system.Proto.Encode.{
  encode_register_req, encode_status_report, encode_fault_report,
}
use smart_lighting_system.Fsm.Lamp.{
  LampState, idle, unregistered, registering, off, on, fault, switch_to,
}
use smart_lighting_system.Outbox.{OutMsg, Outbox, empty_outbox, queue_send, run_posted, do_write}

-- Which of the timers are running.
pub record Timers : Type 0 where
  pub register_timeout : Bool
  pub reconnect : Bool
  pub heartbeat : Bool

-- `connecting` tells whether a chain of resolve, connect and handshake is under way.
pub record Lamp : Type 0 where
  pub uri : Bytes
  pub zone : ℕ
  pub heartbeat_s : ℕ
  pub fault_prob_per_mille : ℕ
  pub state : LampState
  pub intensity : ℕ
  pub timers : Timers
  pub has_socket : Bool
  pub connecting : Bool
  pub outbox : Outbox
  pub pending_fault : Option FaultReport

unfoldable pub switch_state : LampState → Lamp → Lamp × Bool
unfolding switch_to
switch_state next l = let (s, allowed) = switch_to next l.state in (record l { state = s }, allowed)

-- An encoding fails only for a uri of more than 65535 bytes, and such a lamp is not modelled: the
-- exception leaves the handler of the code. Lamp/Encodes shows that no other lamp meets it.
unfoldable pub send : ℕ → Result Bytes → Lamp → Lamp
unfolding queue_send
send t (ok payload) l =
    if l.has_socket then record l { outbox = queue_send t payload l.outbox } else l
send t (err e) l = l

unfoldable pub schedule_reconnect : Lamp → Lamp
schedule_reconnect l = record l {
  timers = record { register_timeout = false; reconnect = true; heartbeat = false };
  outbox = record l.outbox { out_q = []; writing = false };
  state = unregistered;
}

unfoldable pub do_connect : Lamp → Lamp
do_connect l = record l { has_socket = true; connecting = true }

-- The timer of `schedule_reconnect`.
unfoldable pub on_reconnect : Lamp → Lamp
unfolding do_connect
on_reconnect l = do_connect (record l { timers = record l.timers { reconnect = false } })

-- (state_ == LampState::ON) ? 1 : 0
abbrev pub is_on : LampState → ℕ
is_on on = 1
is_on _ = 0

unfoldable pub report_of : Lamp → StatusReport
report_of l =
    let on_now = is_on l.state in
    record {
      uri = l.uri;
      zone_id = l.zone;
      on = on_now;
      intensity = l.intensity;
      power_mw = if eqb on_now 0 then 0 else u32 (70000 + 800 * l.intensity);
    }

unfoldable pub send_status : Lamp → Lamp
unfolding send report_of
send_status l = send MsgType.status_report (encode_status_report (report_of l)) l

unfoldable pub fault_report : ℕ → Bytes → Lamp → FaultReport
fault_report code text l = record { uri = l.uri; zone_id = l.zone; code = code; text = text }

-- writing_ || !out_q_.empty()
abbrev pub is_waiting : Bool → List OutMsg → Bool
is_waiting writing [] = writing
is_waiting writing (m ∷ ms) = true

unfoldable pub request_fault : ℕ → Bytes → Lamp → Lamp
unfolding fault_report send
request_fault code text l =
    let f = fault_report code text l in
    if is_waiting l.outbox.writing l.outbox.out_q
    then record l { pending_fault = some f }
    else send MsgType.fault_report (encode_fault_report f) l

-- "fault_detected"
abbrev pub fault_text : Bytes
fault_text = 102 ∷ 97 ∷ 117 ∷ 108 ∷ 116 ∷ 95 ∷ 100 ∷ 101 ∷ 116 ∷ 101 ∷ 99 ∷ 116 ∷ 101 ∷ 100 ∷ []

abbrev pub is_on_or_off : LampState → Bool
is_on_or_off on = true
is_on_or_off off = true
is_on_or_off _ = false

abbrev pub when_switched : Lamp × Bool → (Lamp → Lamp) → Lamp
when_switched (l, true) f = f l
when_switched (l, false) f = l

-- `draw` is urand(0, 999).
unfoldable pub maybe_simulate_fault : ℕ → Lamp → Lamp
unfolding switch_state request_fault
maybe_simulate_fault draw l =
    if is_on_or_off l.state && ltb draw l.fault_prob_per_mille
    then when_switched (switch_state fault l) (request_fault 1 fault_text)
    else l

abbrev pub may_register : LampState → Bool
may_register unregistered = true
may_register registering = true
may_register _ = false

unfoldable pub send_register : Lamp → Lamp
unfolding switch_state send
send_register l =
    let l1 = if may_register l.state then l else record l { state = unregistered } in
    when_switched (switch_state registering l1) λ l2.
      let l3 =
        send MsgType.register_req
          (encode_register_req
            (record { type = DeviceType.luminaire; uri = l2.uri; zone_id = l2.zone }))
          l2 in
      record l3 { timers = record l3.timers { register_timeout = true } }

-- The handler at the end of the chain of `do_connect`, and that of any failure in it.
unfoldable pub on_connected : Lamp → Lamp
unfolding send_register
on_connected l = send_register (record l { connecting = false })

unfoldable pub on_connect_failed : Lamp → Lamp
unfolding schedule_reconnect
on_connect_failed l = schedule_reconnect (record l { connecting = false })

abbrev pub is_registering : LampState → Bool
is_registering registering = true
is_registering _ = false

unfoldable pub on_register_timeout : Lamp → Lamp
unfolding switch_state schedule_reconnect
on_register_timeout l0 =
    let l = record l0 { timers = record l0.timers { register_timeout = false } } in
    if is_registering l.state then schedule_reconnect (switch_state unregistered l).0 else l

unfoldable pub schedule_heartbeat : Lamp → Lamp
schedule_heartbeat l =
    if eqb l.heartbeat_s 0 then l else record l { timers = record l.timers { heartbeat = true } }

abbrev pub reports : LampState → Bool
reports on = true
reports off = true
reports fault = true
reports _ = false

unfoldable pub on_heartbeat : Lamp → Lamp
unfolding schedule_heartbeat send_status
on_heartbeat l0 =
    let l = record l0 { timers = record l0.timers { heartbeat = false } } in
    schedule_heartbeat (if reports l.state then send_status l else l)

abbrev pub is_fault : LampState → Bool
is_fault fault = true
is_fault _ = false

unfoldable pub manual_reset : Lamp → Lamp
unfolding switch_state schedule_reconnect
manual_reset l =
    if is_fault l.state
    then when_switched (switch_state idle l)
        (λ l1. schedule_reconnect (switch_state unregistered l1).0)
    else l

-- The handler of a write: a pending fault is queued, and the next message is written.
unfoldable pub send_pending : Option FaultReport → Lamp → Lamp
unfolding send
send_pending none l = l
send_pending (some f) l =
    send MsgType.fault_report (encode_fault_report f) (record l { pending_fault = none })

unfoldable pub on_written : Lamp → Lamp
unfolding send_pending do_write
on_written l0 =
    let l = send_pending l0.pending_fault l0 in
    record l { outbox = do_write l.outbox l.outbox.out_q }

unfoldable pub on_posted : Lamp → Lamp
unfolding run_posted
on_posted l = record l { outbox = run_posted l.outbox l.outbox.posted }

-- `start`, on a new client.
unfoldable pub start : Lamp → Lamp
unfolding switch_state do_connect
start l = do_connect (switch_state unregistered (record l { state = idle })).0

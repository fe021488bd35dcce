-- ===== src/System/Alarms.antt =====
-- An alarm from region_sync_client.hpp to the store of central_tls_server.hpp.
use smart_lighting_system.Base.{ℕ, ◌≡◌, refl, List, [], ◌∷◌, ◌++◌, append-nil, arith, length}
use smart_lighting_system.Proto.Result.{ok}
use smart_lighting_system.Proto.MsgType
use smart_lighting_system.Proto.Messages.{Bytes, AlarmUp, AlarmAck}
use smart_lighting_system.Proto.Fits.{AlarmUpFits}
use smart_lighting_system.Proto.Encode.{encode_alarm_ack}
use smart_lighting_system.Proto.Decode.{decode_alarm_up}
use smart_lighting_system.Proto.Frame.{frame}
use smart_lighting_system.Proto.RoundTrip.Central.{
  alarm_up_layout, encode_alarm_up_lem, decode-encode_alarm_up, decode-encode_alarm_ack,
}
use smart_lighting_system.Central.{
  Central, alarm_record, push_alarm, on_alarm_up, on_message, max_alarms,
}
use smart_lighting_system.Central.Alarms.{last, trimmed}
use smart_lighting_system.SyncClient.{Outcome, done}
use smart_lighting_system.SyncClient.Alarm.{
  over, post_alarm, write_alarm, on_alarm_ack, on_alarm_success, on_alarm_event, run_alarm,
}

-- The ACK of an alarm.
abbrev pub ack_of : AlarmUp → AlarmAck
ack_of a = record { region_id = a.region_id; ts_unix = a.ts_unix; ok = 1 }

decode_alarm_layout : (a : AlarmUp) → AlarmUpFits a → decode_alarm_up (alarm_up_layout a) ≡ ok a
decode_alarm_layout a h =
    let e = decode-encode_alarm_up a [] h in
    let e' = rw (encode_alarm_up_lem a h) at e in rw append-nil at e'

-- The central server on the body of an alarm.
central_on_alarm :
    (a : AlarmUp) (ts : ℕ) (c : Central)
    → AlarmUpFits a
    → on_message ts (MsgType.alarm_up ∷ alarm_up_layout a) c ≡ on_alarm_up a c
unfolding on_message
central_on_alarm a ts c h = rw (decode_alarm_layout a h) refl

read_ack :
    (a : AlarmUp)
    → AlarmUpFits a
    → on_alarm_ack (MsgType.alarm_ack ∷ encode_alarm_ack (ack_of a)) ≡ ack_of a ∷ []
unfolding on_alarm_ack
read_ack a h =
    let e =
      decode-encode_alarm_ack (ack_of a) []
        (record { region_id = h.region_id; ts_unix = h.ts_unix; ok = omega arith }) in
    let e' = rw append-nil at e in rw e' refl

-- What the whole of a good chain does, with any bytes for what its handlers ignore.
abbrev pub good_chain : Bytes → Bytes → List Outcome
good_chain p body = done p ∷ done p ∷ done p ∷ done p ∷ done p ∷ done body ∷ []

-- If every operation of the chain of an alarm succeeds, it writes one frame. The body of that frame
-- makes the central server hold the alarm as its newest, of the newest 2000, and answer with one
-- ALARM_ACK, which the chain reads as that of this region and time before it is over.
pub alarm_reaches_central :
    (a : AlarmUp) (ts : ℕ) (p : Bytes) (c : Central)
    → AlarmUpFits a
    → let ack_payload = encode_alarm_ack (ack_of a) in
      let (c', answers) = on_message ts (MsgType.alarm_up ∷ alarm_up_layout a) c in
      let turn = run_alarm (post_alarm a) (good_chain p (MsgType.alarm_ack ∷ ack_payload)) in
      (turn.sent ≡ frame MsgType.alarm_up (alarm_up_layout a) ∷ [])
      × (c'.store.alarms ≡ last max_alarms (c.store.alarms ++ alarm_record a ∷ []))
      × (answers ≡ (MsgType.alarm_ack, ack_payload) ∷ [])
      × (turn.ack ≡ ack_of a ∷ [])
      × (turn.phase ≡ over)
unfolding run_alarm post_alarm on_alarm_event on_alarm_success on_alarm_up push_alarm write_alarm
alarm_reaches_central a ts p c h = rw (central_on_alarm a ts c h) (
    rw (encode_alarm_up_lem a h, read_ack a h)
      (
        refl,
        trimmed (length (c.store.alarms ++ alarm_record a ∷ []))
            (c.store.alarms ++ alarm_record a ∷ []),
        refl,
        refl,
        refl,
      ))

-- ===== src/SyncClient/AlarmOnce.antt =====
-- The end of the chain of an alarm, whatever the network does.
use smart_lighting_system.Base.{ℕ, ◌≤◌, ◌≡◌, refl, inl, inr, ◌⊎◌, List, [], ◌∷◌, arith, length}
use smart_lighting_system.Proto.MsgType
use smart_lighting_system.Proto.Messages.{Bytes, AlarmUp}
use smart_lighting_system.Proto.Fits.{AlarmUpFits}
use smart_lighting_system.Proto.Frame.{frame}
use smart_lighting_system.Proto.RoundTrip.Central.{alarm_up_layout, encode_alarm_up_lem}
use smart_lighting_system.SyncClient.{Outcome, failed, done}
use smart_lighting_system.SyncClient.Alarm.{
  connecting, handshaking, writing, reading_header, reading_body, over, AlarmTurn, post_alarm,
  write_alarm, on_alarm_success, on_alarm_failure, on_alarm_event, run_alarm,
}

-- The chain is over, and wrote nothing or the one frame.
abbrev Wrote : List Bytes → AlarmTurn → Type 0
Wrote frames t = (t.phase ≡ over) × (t.sent ≡ frames)

over_stays : (outs : List Outcome) → Wrote [] (run_alarm over outs)
unfolding run_alarm on_alarm_event on_alarm_success on_alarm_failure
over_stays [] = (refl, refl)
over_stays (failed ∷ rest) = over_stays rest
over_stays (done p ∷ rest) = over_stays rest

body_ends :
    (n : ℕ) (outs : List Outcome) → 1 ≤ length outs → Wrote [] (run_alarm (reading_body n) outs)
unfolding run_alarm on_alarm_event on_alarm_success on_alarm_failure
body_ends n [] h = absurd (omega arith)
body_ends n (failed ∷ rest) h = over_stays rest
body_ends n (done p ∷ rest) h = over_stays rest

header_ends : (outs : List Outcome) → 2 ≤ length outs → Wrote [] (run_alarm reading_header outs)
unfolding run_alarm on_alarm_event on_alarm_success on_alarm_failure
header_ends [] h = absurd (omega arith)
header_ends (failed ∷ rest) h = over_stays rest
header_ends (done p ∷ rest) h = body_ends _ rest (omega arith)

write_ends : (outs : List Outcome) → 3 ≤ length outs → Wrote [] (run_alarm writing outs)
unfolding run_alarm on_alarm_event on_alarm_success on_alarm_failure
write_ends [] h = absurd (omega arith)
write_ends (failed ∷ rest) h = over_stays rest
write_ends (done p ∷ rest) h = header_ends rest (omega arith)

-- A chain that has not written yet.
abbrev pub AtMostOnce : AlarmUp → AlarmTurn → Type 0
AtMostOnce a t =
    (t.phase ≡ over) × ((t.sent ≡ []) ⊎ (t.sent ≡ frame MsgType.alarm_up (alarm_up_layout a) ∷ []))

dropped : (a : AlarmUp) (outs : List Outcome) → AtMostOnce a (run_alarm over outs)
dropped a outs = let k = over_stays outs in (k.0, inl k.1)

handshake_ends :
    (a : AlarmUp) (outs : List Outcome)
    → AlarmUpFits a
    → 4 ≤ length outs
    → AtMostOnce a (run_alarm (handshaking a) outs)
unfolding run_alarm on_alarm_event on_alarm_success on_alarm_failure write_alarm
handshake_ends a [] f h = absurd (omega arith)
handshake_ends a (failed ∷ rest) f h = dropped a rest
handshake_ends a (done p ∷ rest) f h =
    let k = write_ends rest (omega arith) in rw (encode_alarm_up_lem a f) (k.0, inr (rw k.1 refl))

connect_ends :
    (a : AlarmUp) (outs : List Outcome)
    → AlarmUpFits a
    → 5 ≤ length outs
    → AtMostOnce a (run_alarm (connecting a) outs)
unfolding run_alarm on_alarm_event on_alarm_success on_alarm_failure
connect_ends a [] f h = absurd (omega arith)
connect_ends a (failed ∷ rest) f h = dropped a rest
connect_ends a (done p ∷ rest) f h = handshake_ends a rest f (omega arith)

-- The chain of an alarm whose fields fit their types is over after six outcomes at most, whatever they
-- are, no exception leaves its handlers, and it has written the frame of the alarm once or not at all.
pub post_alarm-AtMostOnce :
    (a : AlarmUp) (outs : List Outcome)
    → AlarmUpFits a
    → 6 ≤ length outs
    → AtMostOnce a (run_alarm (post_alarm a) outs)
unfolding run_alarm on_alarm_event on_alarm_success on_alarm_failure post_alarm
post_alarm-AtMostOnce a [] f h = absurd (omega arith)
post_alarm-AtMostOnce a (failed ∷ rest) f h = dropped a rest
post_alarm-AtMostOnce a (done p ∷ rest) f h = connect_ends a rest f (omega arith)

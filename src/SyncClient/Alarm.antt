-- ===== src/SyncClient/Alarm.antt =====
-- post_alarm and read_alarm_ack of region_sync_client.hpp: the chain of operations of one alarm. The
-- network ends each operation with success or with an error; an operation whose stream a later alarm
-- has replaced ends with an error.
use smart_lighting_system.Base.{ℕ, List, [], ◌∷◌, ◌++◌, eqb, if◌then◌else◌}
use smart_lighting_system.Proto.Result.{Result, ok, err}
use smart_lighting_system.Proto.MsgType
use smart_lighting_system.Proto.Messages.{Bytes, AlarmUp, AlarmAck}
use smart_lighting_system.Proto.Encode.{encode_alarm_up}
use smart_lighting_system.Proto.Decode.{decode_alarm_ack}
use smart_lighting_system.Proto.Frame.{frame, header_length}
use smart_lighting_system.SyncClient.{Outcome, failed, done}

-- The operation that the chain waits for, with what its handler captures. `escaped` is an exception of
-- the encoding, which leaves the handler.
pub data AlarmPhase : Type 0 where
  resolving connecting handshaking : AlarmUp → AlarmPhase
  writing reading_header : AlarmPhase
  reading_body : ℕ → AlarmPhase
  over escaped : AlarmPhase

-- What a handler leaves: the chain, the frame that it starts to write, and the ACK that it prints.
pub record AlarmTurn : Type 0 where
  pub phase : AlarmPhase
  pub sent : List Bytes
  pub ack : List AlarmAck

abbrev next : AlarmPhase → AlarmTurn
next ph = record { phase = ph; sent = []; ack = [] }

unfoldable pub post_alarm : AlarmUp → AlarmPhase
post_alarm a = resolving a

unfoldable pub write_alarm : Result Bytes → AlarmTurn
write_alarm (ok payload) = record {
  phase = writing;
  sent = frame MsgType.alarm_up payload ∷ [];
  ack = [];
}
write_alarm (err e) = next escaped

abbrev decoded : Result AlarmAck → List AlarmAck
decoded (ok a) = a ∷ []
decoded (err e) = []

-- The body that `read_alarm_ack` has read.
unfoldable pub on_alarm_ack : Bytes → List AlarmAck
on_alarm_ack [] = []
on_alarm_ack (t ∷ p) = if eqb t MsgType.alarm_ack then decoded (decode_alarm_ack p) else []

unfoldable pub on_alarm_success : AlarmPhase → Bytes → AlarmTurn
unfolding write_alarm header_length on_alarm_ack
on_alarm_success (resolving a) p = next (connecting a)
on_alarm_success (connecting a) p = next (handshaking a)
on_alarm_success (handshaking a) p = write_alarm (encode_alarm_up a)
on_alarm_success writing p = next reading_header
on_alarm_success reading_header p = next (reading_body (header_length p))
on_alarm_success (reading_body n) p = record { phase = over; sent = []; ack = on_alarm_ack p }
on_alarm_success over p = next over
on_alarm_success escaped p = next escaped

-- A log line and `return`: the alarm is not posted again.
unfoldable pub on_alarm_failure : AlarmPhase → AlarmTurn
on_alarm_failure escaped = next escaped
on_alarm_failure _ = next over

unfoldable pub on_alarm_event : AlarmPhase → Outcome → AlarmTurn
unfolding on_alarm_success on_alarm_failure
on_alarm_event ph failed = on_alarm_failure ph
on_alarm_event ph (done p) = on_alarm_success ph p

-- The chain through its outcomes: where it is, what it wrote and what it printed.
unfoldable pub run_alarm : AlarmPhase → List Outcome → AlarmTurn
unfolding on_alarm_event
run_alarm ph [] = next ph
run_alarm ph (o ∷ rest) =
    let turn = on_alarm_event ph o in
    let later = run_alarm turn.phase rest in
    record { phase = later.phase; sent = turn.sent ++ later.sent; ack = turn.ack ++ later.ack }

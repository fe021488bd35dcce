-- ===== src/Proto/RoundTrip/Central.antt =====
-- Messages between a regional server and the central one.
use smart_lighting_system.Base.{◌≡◌, ap, [], ◌∷◌, ◌++◌, append_assoc}
use smart_lighting_system.Proto.Result.{ok, ◌>>=◌}
use smart_lighting_system.Proto.Messages.{Bytes, AlarmAck, AlarmUp, RegionSyncAck}
use smart_lighting_system.Proto.Fits.{AlarmAckFits, AlarmUpFits, RegionSyncAckFits}
use smart_lighting_system.Proto.Bytes.{put_u8, be32, be_str, put_u32_lem, put_str_lem}
use smart_lighting_system.Proto.Reader.{Reads, value, get_u8-Reads, get_u32-Reads, get_str-Reads}
use smart_lighting_system.Proto.Encode.{encode_alarm_up, encode_alarm_ack, encode_region_sync_ack}
use smart_lighting_system.Proto.Decode.{
  read_alarm_up, decode_alarm_up, read_alarm_ack, decode_alarm_ack, read_region_sync_ack,
  decode_region_sync_ack,
}

-- The bytes of an ALARM_UP.
abbrev pub alarm_up_layout : AlarmUp → Bytes
alarm_up_layout a =
    be32 a.region_id
    ++ (be32 a.ts_unix
        ++ (a.device_type ∷ []
            ++ (be32 a.zone_id ++ (a.code ∷ [] ++ (be_str a.uri ++ be_str a.text)))))

pub encode_alarm_up_lem : (a : AlarmUp) → AlarmUpFits a → encode_alarm_up a ≡ ok (alarm_up_layout a)
unfolding encode_alarm_up put_u8
encode_alarm_up_lem a h =
    simp (put_u32_lem, put_str_lem _ a.uri h.uri, put_str_lem _ a.text h.text, append_assoc)

pub read_alarm_up-Reads : (a : AlarmUp) → AlarmUpFits a → Reads read_alarm_up (alarm_up_layout a) a
unfolding read_alarm_up
read_alarm_up-Reads a h rest = simp (
  append_assoc,
  get_u8-Reads,
  get_u32-Reads a.region_id h.region_id,
  get_u32-Reads a.ts_unix h.ts_unix,
  get_u32-Reads a.zone_id h.zone_id,
  get_str-Reads a.uri h.uri,
  get_str-Reads a.text h.text,
)

-- An ALARM_UP whose fields fit their types is encoded without an exception, and the bytes, with any bytes
-- behind them, decode to the same message.
pub decode-encode_alarm_up :
    (a : AlarmUp) (rest : Bytes)
    → AlarmUpFits a
    → (encode_alarm_up a >>= λ b. decode_alarm_up (b ++ rest)) ≡ ok a
unfolding decode_alarm_up
decode-encode_alarm_up a rest h =
    rw (encode_alarm_up_lem a h) (ap value (read_alarm_up-Reads a h rest))

-- The bytes of an ALARM_ACK.
abbrev pub alarm_ack_layout : AlarmAck → Bytes
alarm_ack_layout a = be32 a.region_id ++ (be32 a.ts_unix ++ (a.ok ∷ []))

pub encode_alarm_ack_lem : (a : AlarmAck) → encode_alarm_ack a ≡ alarm_ack_layout a
unfolding encode_alarm_ack put_u8
encode_alarm_ack_lem a = simp (put_u32_lem, append_assoc)

pub read_alarm_ack-Reads :
    (a : AlarmAck) → AlarmAckFits a → Reads read_alarm_ack (alarm_ack_layout a) a
unfolding read_alarm_ack
read_alarm_ack-Reads a h rest = simp (
  append_assoc,
  get_u8-Reads,
  get_u32-Reads a.region_id h.region_id,
  get_u32-Reads a.ts_unix h.ts_unix,
)

-- An ALARM_ACK whose fields fit their types: its bytes, with any bytes behind them, decode to the
-- same message.
pub decode-encode_alarm_ack :
    (a : AlarmAck) (rest : Bytes)
    → AlarmAckFits a
    → decode_alarm_ack (encode_alarm_ack a ++ rest) ≡ ok a
unfolding decode_alarm_ack
decode-encode_alarm_ack a rest h =
    rw (encode_alarm_ack_lem a) (ap value (read_alarm_ack-Reads a h rest))

-- The bytes of a REGION_SYNC_ACK.
abbrev pub region_sync_ack_layout : RegionSyncAck → Bytes
region_sync_ack_layout a = be32 a.region_id ++ (be32 a.version ++ (a.ok ∷ []))

pub encode_region_sync_ack_lem :
    (a : RegionSyncAck) → encode_region_sync_ack a ≡ region_sync_ack_layout a
unfolding encode_region_sync_ack put_u8
encode_region_sync_ack_lem a = simp (put_u32_lem, append_assoc)

pub read_region_sync_ack-Reads :
    (a : RegionSyncAck)
    → RegionSyncAckFits a
    → Reads read_region_sync_ack (region_sync_ack_layout a) a
unfolding read_region_sync_ack
read_region_sync_ack-Reads a h rest = simp (
  append_assoc,
  get_u8-Reads,
  get_u32-Reads a.region_id h.region_id,
  get_u32-Reads a.version h.version,
)

-- A REGION_SYNC_ACK whose fields fit their types: its bytes, with any bytes behind them, decode to the
-- same message.
pub decode-encode_region_sync_ack :
    (a : RegionSyncAck) (rest : Bytes)
    → RegionSyncAckFits a
    → decode_region_sync_ack (encode_region_sync_ack a ++ rest) ≡ ok a
unfolding decode_region_sync_ack
decode-encode_region_sync_ack a rest h =
    rw (encode_region_sync_ack_lem a) (ap value (read_region_sync_ack-Reads a h rest))

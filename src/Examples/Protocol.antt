-- ===== src/Examples/Protocol.antt =====
-- Messages and frames: the round trips on concrete messages.
use smart_lighting_system.Base.{◌≡◌, [], ◌∷◌, ◌++◌, arith}
use smart_lighting_system.Proto.Result.{ok}
use smart_lighting_system.Proto.MsgType
use smart_lighting_system.Proto.Encode.{encode_region_sync_up}
use smart_lighting_system.Proto.Decode.{decode_region_sync_up}
use smart_lighting_system.Proto.RoundTrip.Sync.{decode-encode_region_sync_up}
use smart_lighting_system.Proto.Frame.{received, received-stream, stream}
use smart_lighting_system.Examples.{one_zone}

decode-encode_region_sync_up_example :
    decode_region_sync_up (encode_region_sync_up one_zone ++ []) ≡ ok one_zone
decode-encode_region_sync_up_example = decode-encode_region_sync_up one_zone [] (record {
  region_id = omega arith;
  version = omega arith;
  powers = omega arith;
  power_count = omega arith;
  summaries = omega arith;
  summary_count = omega arith;
})

received-stream_example :
    received (stream ((MsgType.cmd, 1 ∷ 2 ∷ []) ∷ (MsgType.fault_ack, []) ∷ []))
    ≡ (MsgType.cmd ∷ 1 ∷ 2 ∷ []) ∷ (MsgType.fault_ack ∷ []) ∷ []
received-stream_example =
    received-stream ((MsgType.cmd, 1 ∷ 2 ∷ []) ∷ (MsgType.fault_ack, []) ∷ [])
      (omega arith, (omega arith, tt))

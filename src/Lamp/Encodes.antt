-- ===== src/Lamp/Encodes.antt =====
-- The three messages that luminaire_client.cpp sends.
use smart_lighting_system.Base.{ℕ, arith}
use smart_lighting_system.Base.Words.{IsU8, IsU32}
use smart_lighting_system.Proto.Result.{IsOk}
use smart_lighting_system.Proto.DeviceType
use smart_lighting_system.Proto.Messages.{Bytes}
use smart_lighting_system.Proto.Fits.{IsShort}
use smart_lighting_system.Proto.Encode.{
  encode_register_req, encode_status_report, encode_fault_report,
}
use smart_lighting_system.Proto.RoundTrip.Device.{
  encode_register_req_lem, encode_status_report_lem, encode_fault_report_lem,
}
use smart_lighting_system.Lamp.{Lamp, report_of, fault_report}
use smart_lighting_system.Lamp.Consistent.{IsConsistent}
use smart_lighting_system.Lamp.Report.{report_of-Fits}

-- A consistent lamp with a short uri never meets an encoder that throws.
pub short_uri_encodes :
    (l : Lamp) (code : ℕ) (text : Bytes)
    → IsConsistent l
    → IsShort l.uri
    → IsU32 l.zone
    → IsU8 code
    → IsShort text
    → IsOk (
        encode_register_req (record { type = DeviceType.luminaire; uri = l.uri; zone_id = l.zone }))
      × IsOk (encode_status_report (report_of l))
      × IsOk (encode_fault_report (fault_report code text l))
unfolding fault_report
short_uri_encodes l code text h u z c t = (
  rw
      (encode_register_req_lem
        (record { type = DeviceType.luminaire; uri = l.uri; zone_id = l.zone })
        (record { type = omega arith; uri = u; zone_id = z }))
      tt,
  rw (encode_status_report_lem (report_of l) (report_of-Fits l h u z).0) tt,
  rw
      (encode_fault_report_lem (fault_report code text l)
        (record { uri = u; zone_id = z; code = c; text = t }))
      tt,
)

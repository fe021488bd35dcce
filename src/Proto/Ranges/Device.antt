-- ===== src/Proto/Ranges/Device.antt =====
-- The ranges of what the decoders of a device's messages return.
use smart_lighting_system.Base.{◌≡◌, All}
use smart_lighting_system.Base.Words.{IsU8}
use smart_lighting_system.Proto.Result.{ok}
use smart_lighting_system.Proto.Messages.{Bytes, RegisterReq, StatusReport, FaultReport}
use smart_lighting_system.Proto.Fits.{RegisterReqFits, StatusReportFits, FaultReportFits}
use smart_lighting_system.Proto.Decode.{
  read_register_req, decode_register_req, read_status_report, decode_status_report,
  read_fault_report, decode_fault_report,
}
use smart_lighting_system.Proto.Ranges.{
  Yields, Yields-bind, Yields-pure, Yields-value, get_u8-Yields, get_u32-Yields, get_str-Yields,
}

read_register_req-Yields : Yields RegisterReqFits read_register_req
unfolding read_register_req
read_register_req-Yields = Yields-bind get_u8-Yields λ t ht. Yields-bind get_str-Yields λ u hu.
    Yields-bind get_u32-Yields λ z hz. Yields-pure (record { type = ht; uri = hu; zone_id = hz })

-- A REGISTER_REQ that decodes has fields within their types.
pub decode_register_req-Fits :
    (p : Bytes) (r : RegisterReq) → All IsU8 p → decode_register_req p ≡ ok r → RegisterReqFits r
unfolding decode_register_req
decode_register_req-Fits p r u e = Yields-value p read_register_req-Yields u e

read_status_report-Yields : Yields StatusReportFits read_status_report
unfolding read_status_report
read_status_report-Yields = Yields-bind get_str-Yields λ u hu. Yields-bind get_u32-Yields λ z hz.
    Yields-bind get_u8-Yields λ o ho. Yields-bind get_u8-Yields λ i hi.
      Yields-bind get_u32-Yields λ w hw.
        Yields-pure (record { uri = hu; zone_id = hz; on = ho; intensity = hi; power_mw = hw })

-- A STATUS_REPORT that decodes has fields within their types.
pub decode_status_report-Fits :
    (p : Bytes) (s : StatusReport) → All IsU8 p → decode_status_report p ≡ ok s → StatusReportFits s
unfolding decode_status_report
decode_status_report-Fits p s u e = Yields-value p read_status_report-Yields u e

read_fault_report-Yields : Yields FaultReportFits read_fault_report
unfolding read_fault_report
read_fault_report-Yields = Yields-bind get_str-Yields λ u hu. Yields-bind get_u32-Yields λ z hz.
    Yields-bind get_u8-Yields λ c hc.
      Yields-bind get_str-Yields
        λ t ht. Yields-pure (record { uri = hu; zone_id = hz; code = hc; text = ht })

-- A FAULT_REPORT that decodes has fields within their types.
pub decode_fault_report-Fits :
    (p : Bytes) (f : FaultReport) → All IsU8 p → decode_fault_report p ≡ ok f → FaultReportFits f
unfolding decode_fault_report
decode_fault_report-Fits p f u e = Yields-value p read_fault_report-Yields u e

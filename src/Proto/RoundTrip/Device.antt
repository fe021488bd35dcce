-- ===== src/Proto/RoundTrip/Device.antt =====
-- Messages between the devices and a regional server.
use smart_lighting_system.Base.{◌≡◌, ap, [], ◌∷◌, ◌++◌, append_assoc}
use smart_lighting_system.Proto.Result.{ok, ◌>>=◌}
use smart_lighting_system.Proto.Messages.{Bytes, Command, FaultReport, RegisterReq, StatusReport}
use smart_lighting_system.Proto.Fits.{
  CommandFits, FaultReportFits, RegisterReqFits, StatusReportFits,
}
use smart_lighting_system.Proto.Bytes.{put_u8, be32, be_str, put_u32_lem, put_str_lem}
use smart_lighting_system.Proto.Reader.{Reads, value, get_u8-Reads, get_u32-Reads, get_str-Reads}
use smart_lighting_system.Proto.Encode.{
  encode_register_req, encode_status_report, encode_command, encode_fault_report,
}
use smart_lighting_system.Proto.Decode.{
  read_register_req, decode_register_req, read_status_report, decode_status_report, read_command,
  decode_command, read_fault_report, decode_fault_report,
}

-- The bytes of a REGISTER_REQ.
abbrev pub register_req_layout : RegisterReq → Bytes
register_req_layout r = r.type ∷ [] ++ (be_str r.uri ++ be32 r.zone_id)

pub encode_register_req_lem :
    (r : RegisterReq) → RegisterReqFits r → encode_register_req r ≡ ok (register_req_layout r)
unfolding encode_register_req put_u8
encode_register_req_lem r h = simp (put_u32_lem, put_str_lem _ r.uri h.uri, append_assoc)

pub read_register_req-Reads :
    (r : RegisterReq) → RegisterReqFits r → Reads read_register_req (register_req_layout r) r
unfolding read_register_req
read_register_req-Reads r h rest =
    simp (append_assoc, get_u8-Reads, get_str-Reads r.uri h.uri, get_u32-Reads r.zone_id h.zone_id)

-- A REGISTER_REQ whose fields fit their types is encoded without an exception, and the bytes, with any bytes
-- behind them, decode to the same message.
pub decode-encode_register_req :
    (r : RegisterReq) (rest : Bytes)
    → RegisterReqFits r
    → (encode_register_req r >>= λ b. decode_register_req (b ++ rest)) ≡ ok r
unfolding decode_register_req
decode-encode_register_req r rest h =
    rw (encode_register_req_lem r h) (ap value (read_register_req-Reads r h rest))

-- The bytes of a STATUS_REPORT.
abbrev pub status_report_layout : StatusReport → Bytes
status_report_layout s =
    be_str s.uri ++ (be32 s.zone_id ++ (s.on ∷ [] ++ (s.intensity ∷ [] ++ be32 s.power_mw)))

pub encode_status_report_lem :
    (s : StatusReport) → StatusReportFits s → encode_status_report s ≡ ok (status_report_layout s)
unfolding encode_status_report put_u8
encode_status_report_lem s h = simp (put_u32_lem, put_str_lem _ s.uri h.uri, append_assoc)

pub read_status_report-Reads :
    (s : StatusReport) → StatusReportFits s → Reads read_status_report (status_report_layout s) s
unfolding read_status_report
read_status_report-Reads s h rest = simp (
  append_assoc,
  get_u8-Reads,
  get_str-Reads s.uri h.uri,
  get_u32-Reads s.zone_id h.zone_id,
  get_u32-Reads s.power_mw h.power_mw,
)

-- A STATUS_REPORT whose fields fit their types is encoded without an exception, and the bytes, with any bytes
-- behind them, decode to the same message.
pub decode-encode_status_report :
    (s : StatusReport) (rest : Bytes)
    → StatusReportFits s
    → (encode_status_report s >>= λ b. decode_status_report (b ++ rest)) ≡ ok s
unfolding decode_status_report
decode-encode_status_report s rest h =
    rw (encode_status_report_lem s h) (ap value (read_status_report-Reads s h rest))

-- The bytes of a CMD.
abbrev pub command_layout : Command → Bytes
command_layout c = be_str c.uri ++ (c.cmd ∷ [] ++ (c.value ∷ []))

pub encode_command_lem : (c : Command) → CommandFits c → encode_command c ≡ ok (command_layout c)
unfolding encode_command put_u8
encode_command_lem c h = simp (put_str_lem _ c.uri h.uri, append_assoc)

pub read_command-Reads : (c : Command) → CommandFits c → Reads read_command (command_layout c) c
unfolding read_command
read_command-Reads c h rest = simp (append_assoc, get_u8-Reads, get_str-Reads c.uri h.uri)

-- A CMD whose fields fit their types is encoded without an exception, and the bytes, with any bytes
-- behind them, decode to the same message.
pub decode-encode_command :
    (c : Command) (rest : Bytes)
    → CommandFits c
    → (encode_command c >>= λ b. decode_command (b ++ rest)) ≡ ok c
unfolding decode_command
decode-encode_command c rest h =
    rw (encode_command_lem c h) (ap value (read_command-Reads c h rest))

-- The bytes of a FAULT_REPORT.
abbrev pub fault_report_layout : FaultReport → Bytes
fault_report_layout f = be_str f.uri ++ (be32 f.zone_id ++ (f.code ∷ [] ++ be_str f.text))

pub encode_fault_report_lem :
    (f : FaultReport) → FaultReportFits f → encode_fault_report f ≡ ok (fault_report_layout f)
unfolding encode_fault_report put_u8
encode_fault_report_lem f h =
    simp (put_u32_lem, put_str_lem _ f.uri h.uri, put_str_lem _ f.text h.text, append_assoc)

pub read_fault_report-Reads :
    (f : FaultReport) → FaultReportFits f → Reads read_fault_report (fault_report_layout f) f
unfolding read_fault_report
read_fault_report-Reads f h rest = simp (
  append_assoc,
  get_u8-Reads,
  get_str-Reads f.uri h.uri,
  get_u32-Reads f.zone_id h.zone_id,
  get_str-Reads f.text h.text,
)

-- A FAULT_REPORT whose fields fit their types is encoded without an exception, and the bytes, with any bytes
-- behind them, decode to the same message.
pub decode-encode_fault_report :
    (f : FaultReport) (rest : Bytes)
    → FaultReportFits f
    → (encode_fault_report f >>= λ b. decode_fault_report (b ++ rest)) ≡ ok f
unfolding decode_fault_report
decode-encode_fault_report f rest h =
    rw (encode_fault_report_lem f h) (ap value (read_fault_report-Reads f h rest))

-- ===== src/AdminCli.antt =====
-- admin_cli.cpp: what the administrator's program reads out of the central server's answer. The
-- lines it prints are records; those printed before an exception are not modelled.
pub mod RoundTrip
use smart_lighting_system.Base.{ℕ, List, [], ◌∷◌, eqb, if◌then◌else◌}
use smart_lighting_system.Proto.Result.{Result, ok, err}
use smart_lighting_system.Proto.MsgType
use smart_lighting_system.Proto.Messages.{Bytes}
use smart_lighting_system.Proto.Reader.{
  Reader, pure, value, continue, ◌>>=◌, get_u8, get_u16, get_u32, get_str, times,
}

pub record ZoneLine : Type 0 where
  pub zone : ℕ
  pub sum_power_mw : ℕ
  pub lamps_total : ℕ
  pub lamps_on : ℕ
  pub lamps_fault : ℕ
  pub sensors_total : ℕ
  pub sensors_fault : ℕ

pub record RegionLine : Type 0 where
  pub region : ℕ
  pub version : ℕ
  pub zones : List ZoneLine

pub record AlarmLine : Type 0 where
  pub rid : ℕ
  pub ts : ℕ
  pub dev_type : ℕ
  pub zone : ℕ
  pub code : ℕ
  pub uri : Bytes
  pub text : Bytes

pub record Report : Type 0 where
  pub regions : List RegionLine
  pub alarms : List AlarmLine

-- The bodies of the three loops of `print_snapshot`.
unfoldable pub read_zone_line : Reader ZoneLine
read_zone_line = do
  z ← get_u32
  w ← get_u32
  lt ← get_u16
  lo ← get_u16
  lf ← get_u16
  st ← get_u16
  sf ← get_u16
  pure (record {
    zone = z;
    sum_power_mw = w;
    lamps_total = lt;
    lamps_on = lo;
    lamps_fault = lf;
    sensors_total = st;
    sensors_fault = sf;
  })

unfoldable pub read_region_line : Reader RegionLine
read_region_line = do
  r ← get_u32
  v ← get_u32
  n ← get_u16
  zs ← times n read_zone_line
  pure (record { region = r; version = v; zones = zs })

unfoldable pub read_alarm_line : Reader AlarmLine
read_alarm_line = do
  r ← get_u32
  ts ← get_u32
  d ← get_u8
  z ← get_u32
  c ← get_u8
  u ← get_str
  t ← get_str
  pure (record { rid = r; ts = ts; dev_type = d; zone = z; code = c; uri = u; text = t })

-- `if(p < e)`: an answer may end before the alarms.
unfoldable pub read_alarm_lines : Reader (List AlarmLine)
read_alarm_lines [] = ok ([], [])
read_alarm_lines (a ∷ p) = continue (λ n. times n read_alarm_line) (get_u16 (a ∷ p))

unfoldable pub read_report : Reader Report
read_report = do
  n ← get_u16
  rs ← times n read_region_line
  xs ← read_alarm_lines
  pure (record { regions = rs; alarms = xs })

unfoldable pub print_snapshot : Bytes → Result Report
print_snapshot payload = value (read_report payload)

-- What `main` does with the body of the answer.
pub data Outcome : Type 0 where
  empty_body unexpected_msg : Outcome
  printed : Result Report → Outcome

unfoldable pub on_answer : Bytes → Outcome
on_answer [] = empty_body
on_answer (t ∷ payload) =
    if eqb t MsgType.admin_snapshot_ack then printed (print_snapshot payload) else unexpected_msg

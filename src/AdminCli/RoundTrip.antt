-- ===== src/AdminCli/RoundTrip.antt =====
-- The snapshot of central_tls_server.hpp against the reader of admin_cli.cpp.
use smart_lighting_system.Base.{
  ℕ, ◌≡◌, refl, Bool, true, false, ◌||◌, Bool-cases, eqb, Option, none, some, List, ◌∷◌, [], map,
  append_assoc, append-nil, arith, length, All, All-imp, Option-cases, inl, inr, nat_eq,
}
use smart_lighting_system.Base.Words.{IsU32}
use smart_lighting_system.Base.Assoc.{lookup, lookup-All}
use smart_lighting_system.Proto.Result.{ok, ◌>>=◌}
use smart_lighting_system.Proto.Fits.{ZonePowerFits, ZoneDeviceSummaryFits}
use smart_lighting_system.Proto.Reader.{
  Reads, get_u8-Reads, get_u16-Reads, get_u32-Reads, get_str-Reads, times-Reads-map,
}
use smart_lighting_system.Central.{
  RegionAggregate, AlarmRecord, CentralStore, encode_admin_snapshot,
}
use smart_lighting_system.Central.Snapshot.{
  RegionFits, AlarmFits, StoreFits, summary_at, zone_layout, region_layout, alarm_layout,
  encode_admin_snapshot_lem,
}
use smart_lighting_system.AdminCli.{
  ZoneLine, RegionLine, AlarmLine, Report, read_zone_line, read_region_line, read_alarm_line,
  read_alarm_lines, read_report, print_snapshot,
}

-- What is shown of a store. A zone of a region has a line if it has an entry of power.
abbrev pub zone_line : RegionAggregate → ℕ × ℕ → ZoneLine
zone_line agg z =
    let s = summary_at agg z.0 in
    record {
      zone = z.0;
      sum_power_mw = z.1;
      lamps_total = s.lamp_total;
      lamps_on = s.lamp_on;
      lamps_fault = s.lamp_fault;
      sensors_total = s.sensor_total;
      sensors_fault = s.sensor_fault;
    }

abbrev pub region_line : ℕ × RegionAggregate → RegionLine
region_line r = record {
  region = r.0;
  version = r.1.version;
  zones = map (zone_line r.1) r.1.zone_power_mw;
}

abbrev pub alarm_line : AlarmRecord → AlarmLine
alarm_line a = record {
  rid = a.region_id;
  ts = a.ts_unix;
  dev_type = a.device_type;
  zone = a.zone_id;
  code = a.code;
  uri = a.uri;
  text = a.text;
}

abbrev pub report_of : CentralStore → Report
report_of s = record { regions = map region_line s.regions; alarms = map alarm_line s.alarms }

summary_at-Fits :
    (agg : RegionAggregate) (zone : ℕ)
    → IsU32 zone
    → All (λ kv. ZoneDeviceSummaryFits kv.1) agg.zone_summary
    → ZoneDeviceSummaryFits (summary_at agg zone)
summary_at-Fits agg zone z h = elim (Option-cases (lookup zone agg.zone_summary)) [
  | inl e ↦ rw e (omega arith)
  | inr (s, e) ↦ rw e (lookup-All ZoneDeviceSummaryFits zone agg.zone_summary h e)
]

read_zone_line-Reads :
    (agg : RegionAggregate) (z : ℕ × ℕ)
    → All (λ kv. ZoneDeviceSummaryFits kv.1) agg.zone_summary
    → ZonePowerFits z
    → Reads read_zone_line (zone_layout agg z) (zone_line agg z)
unfolding read_zone_line
read_zone_line-Reads agg z h f rest =
    let s = summary_at-Fits agg z.0 f.0 h in
    simp (
      append_assoc,
      get_u32-Reads z.0 f.0,
      get_u32-Reads z.1 f.1,
      get_u16-Reads _ s.lamp_total,
      get_u16-Reads _ s.lamp_on,
      get_u16-Reads _ s.lamp_fault,
      get_u16-Reads _ s.sensor_total,
      get_u16-Reads _ s.sensor_fault,
    )

read_region_line-Reads :
    (r : ℕ × RegionAggregate)
    → RegionFits r
    → Reads read_region_line (region_layout r) (region_line r)
unfolding read_region_line
read_region_line-Reads r h rest =
    let zones = times-Reads-map read_zone_line (zone_layout r.1) (zone_line r.1) r.1.zone_power_mw (
      All-imp ZonePowerFits _ r.1.zone_power_mw (λ z f. read_zone_line-Reads r.1 z h.summaries f)
        h.powers) in
    simp (
      append_assoc,
      get_u32-Reads r.0 h.region_id,
      get_u32-Reads r.1.version h.version,
      get_u16-Reads (length r.1.zone_power_mw) h.zone_count,
      zones,
    )

read_alarm_line-Reads :
    (a : AlarmRecord) → AlarmFits a → Reads read_alarm_line (alarm_layout a) (alarm_line a)
unfolding read_alarm_line
read_alarm_line-Reads a h rest = simp (
  append_assoc,
  get_u8-Reads,
  get_u32-Reads a.region_id h.region_id,
  get_u32-Reads a.ts_unix h.ts_unix,
  get_u32-Reads a.zone_id h.zone_id,
  get_str-Reads a.uri h.uri,
  get_str-Reads a.text h.text,
)

-- Whether a line of a zone is there, and whether the store has a power of it.
abbrev pub has_line : ℕ → List ZoneLine → Bool
has_line zone [] = false
has_line zone (l ∷ ls) = eqb l.zone zone || has_line zone ls

abbrev pub is_known : Option ℕ → Bool
is_known none = false
is_known (some p) = true

has_line-map :
    (zone : ℕ) (agg : RegionAggregate) (zs : List (ℕ × ℕ))
    → has_line zone (map (zone_line agg) zs) ≡ is_known (lookup zone zs)
unfolding lookup
has_line-map zone agg [] = refl
has_line-map zone agg ((z, p) ∷ zs) = elim (Bool-cases (eqb z zone)) [
  | inl e ↦ rw e refl
  | inr e ↦ rw e (has_line-map zone agg zs)
]

lines_of :
    (zone : ℕ) (rs : List (ℕ × RegionAggregate))
    → All (λ r. has_line zone (region_line r).zones ≡ is_known (lookup zone r.1.zone_power_mw)) rs
lines_of zone [] = tt
lines_of zone (r ∷ rs) = (has_line-map zone r.1 r.1.zone_power_mw, lines_of zone rs)

-- If every number of a store fits its field, every text is short, there are less than 2^16 regions
-- and zones in each, and at most 2000 alarms, then the snapshot is encoded without an exception, and
-- the administrator reads every region with its version, each of its zones that has an entry of power
-- with its power and its counts (zeros if it has none), and every alarm, in order. A zone has a line
-- exactly if it has an entry of power: one of which the store holds only counts is not shown.
pub print-encode_admin_snapshot :
    (s : CentralStore) (zone : ℕ)
    → StoreFits s
    → ((encode_admin_snapshot s >>= print_snapshot) ≡ ok (report_of s))
      × All
          (λ r. has_line zone (region_line r).zones ≡ is_known (lookup zone r.1.zone_power_mw))
          s.regions
unfolding print_snapshot read_report read_alarm_lines
print-encode_admin_snapshot s zone h =
    let regions =
      times-Reads-map read_region_line region_layout region_line s.regions
        (All-imp RegionFits _ s.regions read_region_line-Reads h.regions) in
    let alarms =
      times-Reads-map read_alarm_line alarm_layout alarm_line s.alarms
        (All-imp AlarmFits _ s.alarms read_alarm_line-Reads h.alarms) [] in
    let last = rw append-nil at alarms in
    let printed : (encode_admin_snapshot s >>= print_snapshot) ≡ ok (report_of s) =
      rw (encode_admin_snapshot_lem s h) (
        simp (
          get_u16-Reads (length s.regions) h.region_count,
          get_u16-Reads (length s.alarms) (omega (arith, h.alarm_count)),
          regions,
          last,
        )) in
    (printed, lines_of zone s.regions)

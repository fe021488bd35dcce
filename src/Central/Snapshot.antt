-- ===== src/Central/Snapshot.antt =====
-- The bytes of the snapshot, and the stores whose snapshot the format can carry.
use smart_lighting_system.Base.{
  ℕ, ◌≤◌, ◌≡◌, ◌∙◌, List, [], ◌∷◌, ◌++◌, append_assoc, append-nil, arith, length, All, nat_eq,
}
use smart_lighting_system.Base.Words.{u16, IsU16, IsU32, IsU8}
use smart_lighting_system.Base.Assoc.{lookup}
use smart_lighting_system.Proto.Result.{ok}
use smart_lighting_system.Proto.Messages.{Bytes, ZoneDeviceSummary}
use smart_lighting_system.Proto.Fits.{ZonePowerFits, ZoneDeviceSummaryFits, IsShort}
use smart_lighting_system.Proto.Bytes.{
  put_u8, be16, be32, be_str, put_u16_lem, put_u32_lem, put_str_lem,
}
use smart_lighting_system.Proto.Reader.{flat}
use smart_lighting_system.Proto.RoundTrip.Sync.{counts_layout}
use smart_lighting_system.Central.{
  RegionAggregate, AlarmRecord, CentralStore, max_alarms, no_summary, summary_or, put_zone,
  put_zones, put_region, put_regions, put_alarm, put_alarms, encode_admin_snapshot,
}

pub record RegionFits (r : ℕ × RegionAggregate) : Type 0 where
  pub region_id : IsU32 r.0
  pub version : IsU32 r.1.version
  pub zone_count : IsU16 (length r.1.zone_power_mw)
  pub powers : All ZonePowerFits r.1.zone_power_mw
  pub summaries : All (λ kv. ZoneDeviceSummaryFits kv.1) r.1.zone_summary

pub record AlarmFits (a : AlarmRecord) : Type 0 where
  pub region_id : IsU32 a.region_id
  pub ts_unix : IsU32 a.ts_unix
  pub device_type : IsU8 a.device_type
  pub zone_id : IsU32 a.zone_id
  pub code : IsU8 a.code
  pub uri : IsShort a.uri
  pub text : IsShort a.text

pub record StoreFits (s : CentralStore) : Type 0 where
  pub region_count : IsU16 (length s.regions)
  pub regions : All RegionFits s.regions
  pub alarm_count : length s.alarms ≤ max_alarms
  pub alarms : All AlarmFits s.alarms

-- The summary that goes with a zone's power.
abbrev pub summary_at : RegionAggregate → ℕ → ZoneDeviceSummary
summary_at agg zone = summary_or (no_summary zone) (lookup zone agg.zone_summary)

abbrev pub zone_layout : RegionAggregate → ℕ × ℕ → Bytes
zone_layout agg z = be32 z.0 ++ (be32 z.1 ++ counts_layout (summary_at agg z.0))

abbrev pub region_layout : ℕ × RegionAggregate → Bytes
region_layout r =
    be32 r.0
    ++ (be32 r.1.version
        ++ (be16 (length r.1.zone_power_mw) ++ flat (zone_layout r.1) r.1.zone_power_mw))

abbrev pub alarm_layout : AlarmRecord → Bytes
alarm_layout a =
    be32 a.region_id
    ++ (be32 a.ts_unix
        ++ (a.device_type ∷ []
            ++ (be32 a.zone_id ++ (a.code ∷ [] ++ (be_str a.uri ++ be_str a.text)))))

abbrev pub snapshot_layout : CentralStore → Bytes
snapshot_layout s =
    be16 (length s.regions)
    ++ (flat region_layout s.regions ++ (be16 (length s.alarms) ++ flat alarm_layout s.alarms))

put_zones_lem :
    (out : Bytes) (agg : RegionAggregate) (zs : List (ℕ × ℕ))
    → put_zones out agg zs ≡ out ++ flat (zone_layout agg) zs
unfolding put_zones put_zone
put_zones_lem out agg [] = rw append-nil
put_zones_lem out agg (z ∷ zs) =
    put_zones_lem (put_zone out agg z) agg zs ∙ simp (put_u16_lem, put_u32_lem, append_assoc)

put_region_lem :
    (out : Bytes) (r : ℕ × RegionAggregate)
    → RegionFits r
    → put_region out r ≡ out ++ region_layout r
unfolding put_region
put_region_lem out r h =
    let e : u16 (length r.1.zone_power_mw) ≡ length r.1.zone_power_mw =
      omega (arith, h.zone_count) in
    simp (e, put_zones_lem, put_u16_lem, put_u32_lem, append_assoc)

put_regions_lem :
    (out : Bytes) (rs : List (ℕ × RegionAggregate))
    → All RegionFits rs
    → put_regions out rs ≡ out ++ flat region_layout rs
unfolding put_regions
put_regions_lem out [] h = rw append-nil
put_regions_lem out (r ∷ rs) h =
    put_regions_lem (put_region out r) rs h.1 ∙ simp (put_region_lem out r h.0, append_assoc)

put_alarm_lem :
    (out : Bytes) (a : AlarmRecord) → AlarmFits a → put_alarm out a ≡ ok (out ++ alarm_layout a)
unfolding put_alarm put_u8
put_alarm_lem out a h =
    simp (put_u32_lem, put_str_lem _ a.uri h.uri, put_str_lem _ a.text h.text, append_assoc)

put_alarms_lem :
    (out : Bytes) (xs : List AlarmRecord)
    → All AlarmFits xs
    → put_alarms out xs ≡ ok (out ++ flat alarm_layout xs)
unfolding put_alarms
put_alarms_lem out [] h = rw append-nil
put_alarms_lem out (a ∷ xs) h =
    rw (put_alarm_lem out a h.0) (put_alarms_lem (out ++ alarm_layout a) xs h.1 ∙ simp append_assoc)

-- A store that fits is encoded without an exception, to the bytes of its layout.
pub encode_admin_snapshot_lem :
    (s : CentralStore) → StoreFits s → encode_admin_snapshot s ≡ ok (snapshot_layout s)
unfolding encode_admin_snapshot
encode_admin_snapshot_lem s h =
    let e : u16 (length s.regions) ≡ length s.regions = omega (arith, h.region_count) in
    let e' : u16 (length s.alarms) ≡ length s.alarms = omega (arith, h.alarm_count) in
    put_alarms_lem _ s.alarms h.alarms
    ∙ simp (e, e', put_u16_lem, put_regions_lem _ s.regions h.regions, append_assoc)

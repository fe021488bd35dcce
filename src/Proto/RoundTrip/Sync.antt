-- ===== src/Proto/RoundTrip/Sync.antt =====
-- REGION_SYNC_UP: the power and the device counts of each zone.
use smart_lighting_system.Base.{
  ℕ, ◌≡◌, ◌∙◌, List, [], ◌∷◌, ◌++◌, append_assoc, append-nil, arith, length, All, All-imp,
}
use smart_lighting_system.Base.Words.{u16, IsU16}
use smart_lighting_system.Proto.Result.{ok}
use smart_lighting_system.Proto.Messages.{Bytes, ZoneDeviceSummary, RegionSyncUp}
use smart_lighting_system.Proto.Fits.{ZonePowerFits, ZoneDeviceSummaryFits, RegionSyncUpFits}
use smart_lighting_system.Proto.Bytes.{put_u16, put_u32, be16, be32, put_u16_lem, put_u32_lem}
use smart_lighting_system.Proto.Reader.{
  Reads, flat, times, get_u16-Reads, get_u32-Reads, times-Reads,
}
use smart_lighting_system.Proto.Encode.{
  put_zone_power, put_zone_powers, put_summary, put_summaries, encode_region_sync_up,
}
use smart_lighting_system.Proto.Decode.{
  read_zone_power, read_summary, read_summaries, read_region_sync_up, decode_region_sync_up,
}

abbrev pub zone_power_layout : ℕ × ℕ → Bytes
zone_power_layout zp = be32 zp.0 ++ be32 zp.1

-- The five counts, which the snapshot of the central server holds too.
abbrev pub counts_layout : ZoneDeviceSummary → Bytes
counts_layout s =
    be16 s.lamp_total
    ++ (be16 s.lamp_on ++ (be16 s.lamp_fault ++ (be16 s.sensor_total ++ be16 s.sensor_fault)))

abbrev pub summary_layout : ZoneDeviceSummary → Bytes
summary_layout s = be32 s.zone_id ++ counts_layout s

abbrev summaries_layout : List ZoneDeviceSummary → Bytes
summaries_layout ss = be16 (length ss) ++ flat summary_layout ss

abbrev powers_layout : RegionSyncUp → Bytes
powers_layout s =
    be32 s.region_id
    ++ (be32 s.version
        ++ (be16 (length s.zone_power_sum) ++ flat zone_power_layout s.zone_power_sum))

put_zone_powers_lem :
    (b : Bytes) (zs : List (ℕ × ℕ)) → put_zone_powers b zs ≡ b ++ flat zone_power_layout zs
unfolding put_zone_powers put_zone_power
put_zone_powers_lem b [] = rw append-nil
put_zone_powers_lem b (zp ∷ zs) =
    put_zone_powers_lem (put_zone_power b zp) zs ∙ simp (put_u32_lem, append_assoc)

put_summaries_lem :
    (b : Bytes) (ss : List ZoneDeviceSummary) → put_summaries b ss ≡ b ++ flat summary_layout ss
unfolding put_summaries put_summary
put_summaries_lem b [] = rw append-nil
put_summaries_lem b (s ∷ ss) =
    put_summaries_lem (put_summary b s) ss ∙ simp (put_u16_lem, put_u32_lem, append_assoc)

encode_region_sync_up_lem :
    (s : RegionSyncUp)
    → RegionSyncUpFits s
    → encode_region_sync_up s ≡ powers_layout s ++ summaries_layout s.zone_device_summary
unfolding encode_region_sync_up
encode_region_sync_up_lem s h =
    let e : u16 (length s.zone_power_sum) ≡ length s.zone_power_sum =
      omega (arith, h.power_count) in
    let e' : u16 (length s.zone_device_summary) ≡ length s.zone_device_summary =
      omega (arith, h.summary_count) in
    simp (e, e', put_summaries_lem, put_zone_powers_lem, put_u16_lem, put_u32_lem, append_assoc)

read_zone_power-Reads :
    (zp : ℕ × ℕ) → ZonePowerFits zp → Reads read_zone_power (zone_power_layout zp) zp
unfolding read_zone_power
read_zone_power-Reads zp h rest =
    simp (append_assoc, get_u32-Reads zp.0 h.0, get_u32-Reads zp.1 h.1)

read_summary-Reads :
    (s : ZoneDeviceSummary) → ZoneDeviceSummaryFits s → Reads read_summary (summary_layout s) s
unfolding read_summary
read_summary-Reads s h rest = simp (
  append_assoc,
  get_u32-Reads s.zone_id h.zone_id,
  get_u16-Reads s.lamp_total h.lamp_total,
  get_u16-Reads s.lamp_on h.lamp_on,
  get_u16-Reads s.lamp_fault h.lamp_fault,
  get_u16-Reads s.sensor_total h.sensor_total,
  get_u16-Reads s.sensor_fault h.sensor_fault,
)

read_powers-Reads :
    (zs : List (ℕ × ℕ))
    → All ZonePowerFits zs
    → Reads (times (length zs) read_zone_power) (flat zone_power_layout zs) zs
read_powers-Reads zs h =
    times-Reads read_zone_power zone_power_layout zs
      (All-imp ZonePowerFits _ zs read_zone_power-Reads h)

read_summaries-Reads :
    (ss : List ZoneDeviceSummary)
    → All ZoneDeviceSummaryFits ss
    → IsU16 (length ss)
    → Reads read_summaries (summaries_layout ss) ss
unfolding read_summaries
read_summaries-Reads ss h n rest =
    let items =
      times-Reads read_summary summary_layout ss
        (All-imp ZoneDeviceSummaryFits _ ss read_summary-Reads h) in
    simp (get_u16-Reads (length ss) n, items)

-- A REGION_SYNC_UP whose fields and list lengths fit their types: its bytes, with any bytes behind
-- them, decode to the same message.
pub decode-encode_region_sync_up :
    (s : RegionSyncUp) (rest : Bytes)
    → RegionSyncUpFits s
    → decode_region_sync_up (encode_region_sync_up s ++ rest) ≡ ok s
unfolding decode_region_sync_up read_region_sync_up
decode-encode_region_sync_up s rest h = rw (encode_region_sync_up_lem s h) (
    simp (
      append_assoc,
      get_u32-Reads s.region_id h.region_id,
      get_u32-Reads s.version h.version,
      get_u16-Reads (length s.zone_power_sum) h.power_count,
      read_powers-Reads s.zone_power_sum h.powers,
      read_summaries-Reads s.zone_device_summary h.summaries h.summary_count,
    ))

-- The payload of a sender that knows no summaries.
abbrev pub first_version_payload : RegionSyncUp → Bytes
first_version_payload s =
    put_zone_powers (put_u16 (put_u32 (put_u32 [] s.region_id) s.version) (length s.zone_power_sum))
      s.zone_power_sum

-- A payload that ends behind the zone powers decodes to the message without summaries.
pub decode_first_version :
    (s : RegionSyncUp)
    → RegionSyncUpFits s
    → decode_region_sync_up (first_version_payload s) ≡ ok (record s { zone_device_summary = [] })
unfolding decode_region_sync_up read_region_sync_up read_summaries
decode_first_version s h =
    let bytes : first_version_payload s ≡ powers_layout s ++ [] =
      simp (put_zone_powers_lem, put_u16_lem, put_u32_lem, append_assoc, append-nil) in
    rw bytes (
      simp (
        append_assoc,
        get_u32-Reads s.region_id h.region_id,
        get_u32-Reads s.version h.version,
        get_u16-Reads (length s.zone_power_sum) h.power_count,
        read_powers-Reads s.zone_power_sum h.powers,
      ))

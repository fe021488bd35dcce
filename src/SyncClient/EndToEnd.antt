-- ===== src/SyncClient/EndToEnd.antt =====
-- From the registry of a region, by way of a sync, to the store of the central server.
use smart_lighting_system.Base.{
  ℕ, ◌+◌, ◌%◌, ◌^◌, ◌≡◌, ◌∙◌, ◌≢◌, none, some, ◌∷◌, arith, length, nat_eq, if◌then◌else◌,
}
use smart_lighting_system.Base.Words.{u32, IsU16, IsU32}
use smart_lighting_system.Base.Assoc.{lookup}
use smart_lighting_system.Proto.MsgType
use smart_lighting_system.Proto.Fits.{RegionSyncUpFits}
use smart_lighting_system.Proto.Encode.{encode_region_sync_up}
use smart_lighting_system.Registry.{Registry, zone_power_sum, zone_device_summary, to_summary}
use smart_lighting_system.Registry.Power.{
  has_lamp, total_power, lookup-zone_power_sum, zone_power_sum-Distinct,
}
use smart_lighting_system.Registry.Summary.{has_device, expected_counts, zone_device_summary_counts}
use smart_lighting_system.Registry.Bounds.{ZonesFit, zone_power_sum-Fits, zone_device_summary-Fits}
use smart_lighting_system.Central.{Central, on_region_sync_up, on_message}
use smart_lighting_system.Central.Sync.{
  version_of, power_of, summary_in, upsert_region_lem, on_message-region_sync_up,
}
use smart_lighting_system.SyncClient.{SyncClient, sync_message}

-- The message of a registry with less than 2^16 devices fits.
pub sync_message-Fits :
    (c : SyncClient) (reg : Registry)
    → IsU32 c.region_id
    → ZonesFit reg.dev
    → IsU16 (length reg.dev)
    → RegionSyncUpFits (sync_message c reg)
unfolding sync_message
sync_message-Fits c reg r z n =
    let p = zone_power_sum-Fits reg z in
    let s = zone_device_summary-Fits reg z in
    record {
      region_id = r;
      version = omega arith;
      powers = p.0;
      power_count = omega (arith, p.1);
      summaries = s.0;
      summary_count = omega (arith, s.1);
    }

-- The payload of a sync of a region with less than 2^16 devices, handled by the central server: for
-- the region it then holds the version of the sync, for each zone but 0 the power of the zone's
-- luminaires modulo 2^32 and the counts of its devices modulo 2^16, and nothing for a zone that has
-- none.
pub sync_reaches_central :
    (c : SyncClient) (reg : Registry) (central : Central) (ts zone : ℕ)
    → IsU32 c.region_id
    → ZonesFit reg.dev
    → IsU16 (length reg.dev)
    → zone ≢ 0
    → let after =
        (on_message ts
          (MsgType.region_sync_up ∷ encode_region_sync_up (sync_message c reg))
          central).0 in
      let known = lookup c.region_id after.store.regions in
      (version_of known ≡ some (u32 (c.version + 1)))
      × (power_of zone known
          ≡ (if has_lamp zone reg.dev then some (total_power zone reg.dev % 2 ^ 32) else none))
      × (summary_in zone known ≡ (
          if has_device zone reg.dev
          then some (to_summary (zone, expected_counts zone reg.dev))
          else none))
sync_reaches_central c reg central ts zone r z n h =
    rw (on_message-region_sync_up ts (sync_message c reg) central (sync_message-Fits c reg r z n)) (
      unfold on_region_sync_up sync_message in
      let known =
        upsert_region_lem c.region_id (u32 (c.version + 1)) (zone_power_sum reg)
          (zone_device_summary reg) central.store (zone_power_sum-Distinct reg)
          (zone_device_summary_counts reg zone h).1 in
      (
        known.0,
        known.1 zone ∙ lookup-zone_power_sum reg zone h,
        known.2 zone ∙ (zone_device_summary_counts reg zone h).0,
      ))

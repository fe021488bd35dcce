-- ===== src/Registry/Summary.antt =====
-- `zone_device_summary` counts the devices of each zone by type and state, modulo 2^16, and lists the
-- zones in ascending order.
mod Counting
mod Sorting
use Counting.{count_loop-lookup}
use Sorting.{sorted_summaries-Ascending}
pub use Counting.{
  count_loop-Distinct, count_in, has_device, expected_counts, CountsFit, count_device-Fit,
  no_counts-Fit,
}
pub use Sorting.{find_summary-sorted, summary_of, find_summary, Ascending}
use smart_lighting_system.Base.{
  ℕ, ◌≡◌, ◌∙◌, refl, ap, ◌≢◌, Option, none, some, [], arith, nat_eq, if◌then◌else◌,
}
use smart_lighting_system.Base.Assoc.{lookup}
use smart_lighting_system.Proto.Messages.{ZoneDeviceSummary}
use smart_lighting_system.Registry.{Registry, Counts, to_summary, count_loop, zone_device_summary}

-- For every zone but 0, the summary has an entry exactly if the zone has a device. Its five counts are
-- those of the zone's luminaires, of those switched on, of those with a fault, of its other devices,
-- and of those with a fault, each modulo 2^16. The entries ascend strictly by zone.
pub zone_device_summary_counts :
    (r : Registry) (zone : ℕ)
    → zone ≢ 0
    → (find_summary zone (zone_device_summary r) ≡ (
        if has_device zone r.dev
        then some (to_summary (zone, expected_counts zone r.dev))
        else none))
      × Ascending (zone_device_summary r)
unfolding zone_device_summary lookup
zone_device_summary_counts r zone h =
    let d = count_loop-Distinct r.dev [] tt in
    (
      find_summary-sorted zone (count_loop [] r.dev) d
          ∙ ap (summary_of zone) (count_loop-lookup zone r.dev h)
          ∙ ground arith,
      sorted_summaries-Ascending (count_loop [] r.dev) d,
    )

-- ===== src/Central/Sync.antt =====
-- `upsert_region` of central_store.hpp, and the REGION_SYNC_UP that calls it.
use smart_lighting_system.Base.{
  ℕ, ◌<◌, ◌≡◌, refl, ap, ◌∙◌, false, Option, none, some, List, [], ◌∷◌, arith, eqb, nat_eq, All,
  append-nil,
}
use smart_lighting_system.Base.Assoc.{lookup, insert, lookup-insert, lookup-insert_self, Distinct}
use smart_lighting_system.Proto.MsgType
use smart_lighting_system.Proto.Messages.{ZoneDeviceSummary, RegionSyncUp}
use smart_lighting_system.Proto.Fits.{RegionSyncUpFits}
use smart_lighting_system.Proto.Encode.{encode_region_sync_up}
use smart_lighting_system.Proto.RoundTrip.Sync.{decode-encode_region_sync_up}
use smart_lighting_system.Registry.Summary.{find_summary, Ascending}
use smart_lighting_system.Central.{
  RegionAggregate, CentralStore, Central, assign_powers, assign_summaries, upsert_region,
  on_region_sync_up, on_message,
}

abbrev pub or_else {ℓ} : {A : Type ℓ} → Option A → Option A → Option A
or_else none o = o
or_else (some a) o = some a

or_else-none {ℓ} : {A : Type ℓ} (o : Option A) → or_else o none ≡ o
or_else-none none = refl
or_else-none (some a) = refl

pub assign_powers-lookup :
    (zone : ℕ) (zs m : List (ℕ × ℕ))
    → Distinct zs
    → lookup zone (assign_powers m zs) ≡ or_else (lookup zone zs) (lookup zone m)
unfolding assign_powers lookup
assign_powers-lookup zone [] m d = refl
assign_powers-lookup zone ((k, v) ∷ zs) m d =
    assign_powers-lookup zone zs (insert k v m) d.1 ∙ ground (arith, lookup-insert k zone v m, d.0)

above-find_summary :
    (n : ℕ) (ss : List ZoneDeviceSummary) → All (λ t. n < t.zone_id) ss → find_summary n ss ≡ none
above-find_summary n [] h = refl
above-find_summary n (s ∷ ss) h = ground (arith, above-find_summary n ss h.1)

pub assign_summaries-lookup :
    (zone : ℕ) (ss : List ZoneDeviceSummary) (m : List (ℕ × ZoneDeviceSummary))
    → Ascending ss
    → lookup zone (assign_summaries m ss) ≡ or_else (find_summary zone ss) (lookup zone m)
unfolding assign_summaries
assign_summaries-lookup zone [] m a = refl
assign_summaries-lookup zone (s ∷ ss) m a =
    assign_summaries-lookup zone ss (insert s.zone_id s m) a.1
    ∙ ground (arith, lookup-insert s.zone_id zone s m, above-find_summary s.zone_id ss a.0)

abbrev pub version_of : Option RegionAggregate → Option ℕ
version_of none = none
version_of (some a) = some a.version

abbrev pub power_of : ℕ → Option RegionAggregate → Option ℕ
power_of zone none = none
power_of zone (some a) = lookup zone a.zone_power_mw

abbrev pub summary_in : ℕ → Option RegionAggregate → Option ZoneDeviceSummary
summary_in zone none = none
summary_in zone (some a) = lookup zone a.zone_summary

-- After a REGION_SYNC_UP whose powers name no zone twice and whose summaries ascend, the region has
-- exactly the version, the powers and the summaries of the message, and every other region is as
-- before.
pub upsert_region_lem :
    (rid version : ℕ) (zs : List (ℕ × ℕ)) (ss : List ZoneDeviceSummary) (s : CentralStore)
    → Distinct zs
    → Ascending ss
    → let after = upsert_region rid version zs ss s in
      (version_of (lookup rid after.regions) ≡ some version)
      × ((zone : ℕ) → power_of zone (lookup rid after.regions) ≡ lookup zone zs)
      × ((zone : ℕ) → summary_in zone (lookup rid after.regions) ≡ find_summary zone ss)
      × ((other : ℕ) → eqb rid other ≡ false → lookup other after.regions ≡ lookup other s.regions)
unfolding upsert_region lookup
upsert_region_lem rid version zs ss s d a = (
  ap version_of (lookup-insert_self rid _ s.regions),
  λ zone.
      ap (power_of zone) (lookup-insert_self rid _ s.regions)
      ∙ assign_powers-lookup zone zs [] d
      ∙ or_else-none (lookup zone zs),
  λ zone.
      ap (summary_in zone) (lookup-insert_self rid _ s.regions)
      ∙ assign_summaries-lookup zone ss [] a
      ∙ or_else-none (find_summary zone ss),
  λ other e. lookup-insert rid other _ s.regions ∙ rw e,
)

-- A REGION_SYNC_UP that a regional server encoded is stored and acknowledged with its region and
-- version, and is queued for the database.
pub on_message-region_sync_up :
    (ts : ℕ) (up : RegionSyncUp) (c : Central)
    → RegionSyncUpFits up
    → on_message ts (MsgType.region_sync_up ∷ encode_region_sync_up up) c
      ≡ on_region_sync_up ts up c
unfolding on_message
on_message-region_sync_up ts up c h =
    let e = decode-encode_region_sync_up up [] h in let e' = rw append-nil at e in rw e'

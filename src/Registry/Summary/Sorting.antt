-- ===== src/Registry/Summary/Sorting.antt =====
-- The sorted list of summaries.
use smart_lighting_system.Base.{
  ℕ, ◌<◌, ◌≡◌, refl, ap, ◌∙◌, Option, none, some, List, [], ◌∷◌, arith, eqb, nat_eq, if◌then◌else◌,
  All,
}
use smart_lighting_system.Base.Assoc.{lookup, Distinct}
use smart_lighting_system.Proto.Messages.{ZoneDeviceSummary}
use smart_lighting_system.Registry.{Counts, to_summary, place, sorted_summaries}

abbrev pub find_summary : ℕ → List ZoneDeviceSummary → Option ZoneDeviceSummary
find_summary zone [] = none
find_summary zone (s ∷ ss) = if eqb s.zone_id zone then some s else find_summary zone ss

abbrev pub Ascending : List ZoneDeviceSummary → Type 0
Ascending [] = Unit
Ascending (s ∷ ss) = All (λ t. s.zone_id < t.zone_id) ss × Ascending ss

abbrev pub summary_of : ℕ → Option Counts → Option ZoneDeviceSummary
summary_of zone none = none
summary_of zone (some a) = some (to_summary (zone, a))

find_summary-place :
    (zone : ℕ) (z : ZoneDeviceSummary) (ss : List ZoneDeviceSummary)
    → find_summary z.zone_id ss ≡ none
    → find_summary zone (place z ss) ≡ (if eqb z.zone_id zone then some z else find_summary zone ss)
unfolding place
find_summary-place zone z [] h = refl
find_summary-place zone z (s ∷ ss) h = ground (arith, find_summary-place zone z ss)

pub find_summary-sorted :
    (zone : ℕ) (m : List (ℕ × Counts))
    → Distinct m
    → find_summary zone (sorted_summaries m) ≡ summary_of zone (lookup zone m)
unfolding sorted_summaries lookup
find_summary-sorted zone [] d = refl
find_summary-sorted zone ((k, a) ∷ m) d =
    find_summary-place zone (to_summary (k, a)) (sorted_summaries m)
      (find_summary-sorted k m d.1 ∙ ap (summary_of k) d.0)
    ∙ ground (arith, find_summary-sorted zone m d.1)

All-place :
    (n : ℕ) (z : ZoneDeviceSummary) (ss : List ZoneDeviceSummary)
    → n < z.zone_id
    → All (λ t. n < t.zone_id) ss
    → All (λ t. n < t.zone_id) (place z ss)
unfolding place
All-place n z [] h k = (h, tt)
All-place n z (s ∷ ss) h k = ground (arith, All-place n z ss h k.1)

All-lt_trans :
    (m n : ℕ) (ss : List ZoneDeviceSummary)
    → m < n
    → All (λ t. n < t.zone_id) ss
    → All (λ t. m < t.zone_id) ss
All-lt_trans m n [] h k = tt
All-lt_trans m n (s ∷ ss) h k = (omega arith, All-lt_trans m n ss h k.1)

place-Ascending :
    (z : ZoneDeviceSummary) (ss : List ZoneDeviceSummary)
    → find_summary z.zone_id ss ≡ none
    → Ascending ss
    → Ascending (place z ss)
unfolding place
place-Ascending z [] f h = (tt, tt)
place-Ascending z (s ∷ ss) f h =
    ground
      (arith, All-lt_trans z.zone_id s.zone_id ss, All-place s.zone_id z ss, place-Ascending z ss)

pub sorted_summaries-Ascending :
    (m : List (ℕ × Counts)) → Distinct m → Ascending (sorted_summaries m)
unfolding sorted_summaries
sorted_summaries-Ascending [] d = tt
sorted_summaries-Ascending ((k, a) ∷ m) d =
    place-Ascending (to_summary (k, a)) (sorted_summaries m)
      (find_summary-sorted k m d.1 ∙ ap (summary_of k) d.0) (sorted_summaries-Ascending m d.1)

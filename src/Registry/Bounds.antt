-- ===== src/Registry/Bounds.antt =====
-- The aggregates of registry.hpp and the fields of a REGION_SYNC_UP.
use smart_lighting_system.Base.{
  ℕ, ◌+◌, ◌≤◌, ◌≡◌, refl, inl, inr, Bool-cases, Option-cases, List, [], ◌∷◌, arith, length, All,
  All-imp, eqb, ltb, nat_eq,
}
use smart_lighting_system.Base.Words.{u32, IsU32}
use smart_lighting_system.Base.Assoc.{lookup, insert-All_entry, length-insert, lookup-All}
use smart_lighting_system.Proto.Messages.{ZoneDeviceSummary}
use smart_lighting_system.Proto.Fits.{ZonePowerFits, ZoneDeviceSummaryFits}
use smart_lighting_system.Registry.{
  DeviceState, Devices, Registry, Counts, is_luminaire, or_zero, add_power, power_loop,
  zone_power_sum, counts_or_zero, count_device, add_counts, count_loop, to_summary, place,
  sorted_summaries, zone_device_summary,
}
use smart_lighting_system.Registry.Summary.{CountsFit, count_device-Fit, no_counts-Fit}

-- Every device's zone is a uint32_t.
abbrev pub ZonesFit : Devices → Type 0
ZonesFit ds = All (λ kv. IsU32 kv.1.zone_id) ds

add_power-Fits :
    (sums : List (ℕ × ℕ)) (st : DeviceState)
    → IsU32 st.zone_id
    → All ZonePowerFits sums
    → All ZonePowerFits (add_power sums st) × (length (add_power sums st) ≤ length sums + 1)
unfolding add_power
add_power-Fits sums st z h = elim (Bool-cases (eqb st.zone_id 0)) [
  | inl e ↦ rw e (h, omega arith)
  | inr e ↦ elim (Bool-cases (is_luminaire st)) [
    | inl l ↦
        let w : ℕ = u32 (or_zero (lookup st.zone_id sums) + st.power_mw) in
        rw (e, l)
          (
            insert-All_entry ZonePowerFits st.zone_id w sums (z, omega arith) h,
            length-insert st.zone_id w sums,
          )
    | inr l ↦ rw (e, l) (h, omega arith)
  ]
]

power_loop-Fits :
    (ds : Devices) (sums : List (ℕ × ℕ))
    → ZonesFit ds
    → All ZonePowerFits sums
    → All ZonePowerFits (power_loop sums ds)
      × (length (power_loop sums ds) ≤ length sums + length ds)
unfolding power_loop
power_loop-Fits [] sums z h = (h, omega arith)
power_loop-Fits ((uri, st) ∷ rest) sums z h =
    let s = add_power-Fits sums st z.0 h in
    let r = power_loop-Fits rest (add_power sums st) z.1 s.0 in (r.0, omega (arith, r.1, s.1))

-- The sums of a registry fit, and there are at most as many as devices.
pub zone_power_sum-Fits :
    (r : Registry)
    → ZonesFit r.dev
    → All ZonePowerFits (zone_power_sum r) × (length (zone_power_sum r) ≤ length r.dev)
unfolding zone_power_sum
zone_power_sum-Fits r z = let h = power_loop-Fits r.dev [] z tt in (h.0, omega (arith, h.1))

abbrev EntryFits : ℕ × Counts → Type 0
EntryFits kv = IsU32 kv.0 × CountsFit kv.1

found-Fit :
    (zone : ℕ) (acc : List (ℕ × Counts))
    → All EntryFits acc
    → CountsFit (counts_or_zero (lookup zone acc))
found-Fit zone acc h = elim (Option-cases (lookup zone acc)) [
  | inl e ↦ rw e no_counts-Fit
  | inr (a, e) ↦ rw e (lookup-All CountsFit zone acc (All-imp EntryFits _ acc (λ _ f. f.1) h) e)
]

add_counts-Fits :
    (acc : List (ℕ × Counts)) (st : DeviceState)
    → IsU32 st.zone_id
    → All EntryFits acc
    → All EntryFits (add_counts acc st) × (length (add_counts acc st) ≤ length acc + 1)
unfolding add_counts
add_counts-Fits acc st z h = elim (Bool-cases (eqb st.zone_id 0)) [
  | inl e ↦ rw e (h, omega arith)
  | inr e ↦
      let a : Counts = count_device st (counts_or_zero (lookup st.zone_id acc)) in
      rw e (
        insert-All_entry EntryFits st.zone_id a acc
            (
              z,
              count_device-Fit st (counts_or_zero (lookup st.zone_id acc))
                  (found-Fit st.zone_id acc h),
            )
            h,
        length-insert st.zone_id a acc,
      )
]

count_loop-Fits :
    (ds : Devices) (acc : List (ℕ × Counts))
    → ZonesFit ds
    → All EntryFits acc
    → All EntryFits (count_loop acc ds) × (length (count_loop acc ds) ≤ length acc + length ds)
unfolding count_loop
count_loop-Fits [] acc z h = (h, omega arith)
count_loop-Fits ((uri, st) ∷ rest) acc z h =
    let s = add_counts-Fits acc st z.0 h in
    let r = count_loop-Fits rest (add_counts acc st) z.1 s.0 in (r.0, omega (arith, r.1, s.1))

place-Fits :
    (z : ZoneDeviceSummary) (ss : List ZoneDeviceSummary)
    → ZoneDeviceSummaryFits z
    → All ZoneDeviceSummaryFits ss
    → All ZoneDeviceSummaryFits (place z ss) × (length (place z ss) ≡ length ss + 1)
unfolding place
place-Fits z [] f h = ((f, tt), omega arith)
place-Fits z (s ∷ ss) f h = elim (Bool-cases (ltb z.zone_id s.zone_id)) [
  | inl e ↦ rw e ((f, h), omega arith)
  | inr e ↦ let r = place-Fits z ss f h.1 in rw e ((h.0, r.0), omega (arith, r.1))
]

sorted_summaries-Fits :
    (m : List (ℕ × Counts))
    → All EntryFits m
    → All ZoneDeviceSummaryFits (sorted_summaries m) × (length (sorted_summaries m) ≡ length m)
unfolding sorted_summaries
sorted_summaries-Fits [] h = (tt, refl)
sorted_summaries-Fits (kv ∷ m) h =
    let r = sorted_summaries-Fits m h.1 in
    let p = place-Fits (to_summary kv) (sorted_summaries m) (omega arith) r.0 in
    (p.0, omega (arith, p.1, r.1))

-- The summaries of a registry fit, and there are at most as many as devices.
pub zone_device_summary-Fits :
    (r : Registry)
    → ZonesFit r.dev
    → All ZoneDeviceSummaryFits (zone_device_summary r)
      × (length (zone_device_summary r) ≤ length r.dev)
unfolding zone_device_summary
zone_device_summary-Fits r z =
    let h = count_loop-Fits r.dev [] z tt in
    let s = sorted_summaries-Fits (count_loop [] r.dev) h.0 in (s.0, omega (arith, h.1, s.1))

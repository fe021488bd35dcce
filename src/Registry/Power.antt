-- ===== src/Registry/Power.antt =====
-- `zone_power_sum` of registry.hpp against the total power of a zone.
use smart_lighting_system.Base.{
  ℕ, ◌+◌, ◌%◌, ◌≡◌, refl, ap, ◌≢◌, ◌∙◌, Bool, true, false, ◌&&◌, ◌||◌, Option, none, some, [], ◌∷◌,
  arith, eqb, ◌^◌, nat_eq, inl, inr, Bool-cases, if◌then◌else◌, List,
}
use smart_lighting_system.Base.Words.{u32}
use smart_lighting_system.Base.Assoc.{lookup, lookup-insert, Distinct, insert-Distinct}
use smart_lighting_system.Proto.Messages.{Bytes}
use smart_lighting_system.Registry.{
  DeviceState, Devices, Registry, is_luminaire, or_zero, add_power, power_loop, zone_power_sum,
}

-- The luminaires of a zone: whether there are any, and the exact sum of their power.
abbrev pub is_lamp_of : ℕ → DeviceState → Bool
is_lamp_of zone st = is_luminaire st && eqb st.zone_id zone

abbrev pub has_lamp : ℕ → Devices → Bool
has_lamp zone [] = false
has_lamp zone ((uri, st) ∷ rest) = is_lamp_of zone st || has_lamp zone rest

abbrev pub total_power : ℕ → Devices → ℕ
total_power zone [] = 0
total_power zone ((uri, st) ∷ rest) =
    (if is_lamp_of zone st then st.power_mw else 0) + total_power zone rest

-- What the loop makes of the sum that it has so far.
abbrev power_after : ℕ → Option ℕ → Devices → Option ℕ
power_after zone so_far ds =
    if has_lamp zone ds then some ((or_zero so_far + total_power zone ds) % 2 ^ 32) else so_far

add_power-lookup :
    (zone : ℕ) (sums : List (ℕ × ℕ)) (st : DeviceState)
    → zone ≢ 0
    → lookup zone (add_power sums st) ≡ (
        if is_lamp_of zone st
        then some ((or_zero (lookup zone sums) + st.power_mw) % 2 ^ 32)
        else lookup zone sums)
unfolding add_power
add_power-lookup zone sums st h = ground (
  arith,
  lookup-insert st.zone_id zone (u32 (or_zero (lookup st.zone_id sums) + st.power_mw)) sums,
)

no_power : (zone : ℕ) (ds : Devices) → has_lamp zone ds ≡ false → total_power zone ds ≡ 0
no_power zone [] h = refl
no_power zone ((uri, st) ∷ rest) h = ground (arith, no_power zone rest)

-- `b`: the device is a luminaire of the zone; `h`: one of the others is; `t`: the power of those.
cases :
    (b h : Bool) (o : Option ℕ) (w t : ℕ)
    → (h ≡ false → t ≡ 0)
    → (if h
        then some ((or_zero (if b then some ((or_zero o + w) % 2 ^ 32) else o) + t) % 2 ^ 32)
        else if b
        then some ((or_zero o + w) % 2 ^ 32)
        else o)
      ≡ (if b || h then some ((or_zero o + ((if b then w else 0) + t)) % 2 ^ 32) else o)
cases true true o w t k = ap some (omega arith)
cases true false o w t k = let e = k refl in ap some (omega arith)
cases false true o w t k = ap some (omega arith)
cases false false o w t k = refl

after_step :
    (zone : ℕ) (o : Option ℕ) (uri : Bytes) (st : DeviceState) (rest : Devices)
    → power_after zone
        (if is_lamp_of zone st then some ((or_zero o + st.power_mw) % 2 ^ 32) else o)
        rest
      ≡ power_after zone o ((uri, st) ∷ rest)
after_step zone o uri st rest =
    cases (is_lamp_of zone st) (has_lamp zone rest) o st.power_mw (total_power zone rest)
      (no_power zone rest)

power_loop-lookup :
    (zone : ℕ) (ds : Devices) (sums : List (ℕ × ℕ))
    → zone ≢ 0
    → lookup zone (power_loop sums ds) ≡ power_after zone (lookup zone sums) ds
unfolding power_loop
power_loop-lookup zone [] sums h = refl
power_loop-lookup zone ((uri, st) ∷ rest) sums h =
    power_loop-lookup zone rest (add_power sums st) h
    ∙ ap (λ (o : Option ℕ). power_after zone o rest) (add_power-lookup zone sums st h)
    ∙ after_step zone (lookup zone sums) uri st rest

-- For every zone but 0, `zone_power_sum` has an entry exactly if the zone has a luminaire, and then
-- it is the sum of the power of all the zone's luminaires, modulo 2^32. Other devices do not count.
pub lookup-zone_power_sum :
    (r : Registry) (zone : ℕ)
    → zone ≢ 0
    → lookup zone (zone_power_sum r)
      ≡ (if has_lamp zone r.dev then some (total_power zone r.dev % 2 ^ 32) else none)
unfolding zone_power_sum lookup
lookup-zone_power_sum r zone h = power_loop-lookup zone r.dev [] h ∙ ground arith

add_power-Distinct :
    (sums : List (ℕ × ℕ)) (st : DeviceState) → Distinct sums → Distinct (add_power sums st)
unfolding add_power
add_power-Distinct sums st d = elim (Bool-cases (eqb st.zone_id 0)) [
  | inl e ↦ rw e d
  | inr e ↦ elim (Bool-cases (is_luminaire st)) [
    | inl l ↦
        rw (e, l)
          (insert-Distinct st.zone_id (u32 (or_zero (lookup st.zone_id sums) + st.power_mw)) sums d)
    | inr l ↦ rw (e, l) d
  ]
]

power_loop-Distinct :
    (ds : Devices) (sums : List (ℕ × ℕ)) → Distinct sums → Distinct (power_loop sums ds)
unfolding power_loop
power_loop-Distinct [] sums d = d
power_loop-Distinct ((uri, st) ∷ rest) sums d =
    power_loop-Distinct rest (add_power sums st) (add_power-Distinct sums st d)

-- `zone_power_sum` names no zone twice.
pub zone_power_sum-Distinct : (r : Registry) → Distinct (zone_power_sum r)
unfolding zone_power_sum
zone_power_sum-Distinct r = power_loop-Distinct r.dev [] tt

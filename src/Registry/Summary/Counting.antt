-- ===== src/Registry/Summary/Counting.antt =====
-- The loop of `zone_device_summary` against counts of the whole list of devices.
use smart_lighting_system.Base.{
  ℕ, ◌+◌, ◌≡◌, refl, sym, ap, ◌≢◌, ◌∙◌, inl, inr, Bool-cases, Bool, true, false, not, ◌&&◌, ◌||◌,
  Option, none, some, List, [], ◌∷◌, arith, eqb, nat_eq, if◌then◌else◌,
}
use smart_lighting_system.Base.Words.{IsU16, u16}
use smart_lighting_system.Base.Assoc.{lookup, lookup-insert, Distinct, insert-Distinct}
use smart_lighting_system.Proto.Messages.{Bytes}
use smart_lighting_system.Registry.{
  DeviceState, Devices, Counts, no_counts, counts_or_zero, is_luminaire, count_device, add_counts,
  count_loop,
}

-- The number of devices of a zone that meet a test.
abbrev pub count_in : ℕ → (DeviceState → Bool) → Devices → ℕ
count_in zone p [] = 0
count_in zone p ((uri, st) ∷ rest) =
    (if eqb st.zone_id zone && p st then 1 else 0) + count_in zone p rest

abbrev pub has_device : ℕ → Devices → Bool
has_device zone [] = false
has_device zone ((uri, st) ∷ rest) = eqb st.zone_id zone || has_device zone rest

abbrev pub is_lit : DeviceState → Bool
is_lit st = is_luminaire st && not (eqb st.on 0)

-- The counts of the devices, on top of some that were there.
abbrev counts_from : Counts → ℕ → Devices → Counts
counts_from a zone ds = record {
  lamp_total = u16 (a.lamp_total + count_in zone is_luminaire ds);
  lamp_on = u16 (a.lamp_on + count_in zone is_lit ds);
  lamp_fault = u16 (a.lamp_fault + count_in zone (λ st. is_luminaire st && st.fault) ds);
  sensor_total = u16 (a.sensor_total + count_in zone (λ st. not (is_luminaire st)) ds);
  sensor_fault = u16 (a.sensor_fault + count_in zone (λ st. not (is_luminaire st) && st.fault) ds);
}

abbrev pub expected_counts : ℕ → Devices → Counts
expected_counts = counts_from no_counts

pub record CountsFit (a : Counts) : Type 0 where
  pub lamp_total : IsU16 a.lamp_total
  pub lamp_on : IsU16 a.lamp_on
  pub lamp_fault : IsU16 a.lamp_fault
  pub sensor_total : IsU16 a.sensor_total
  pub sensor_fault : IsU16 a.sensor_fault

pub count_device-Fit : (st : DeviceState) (a : Counts) → CountsFit a → CountsFit (count_device st a)
unfolding count_device
count_device-Fit st a h = ground arith

add_counts-lookup :
    (zone : ℕ) (acc : List (ℕ × Counts)) (st : DeviceState)
    → zone ≢ 0
    → lookup zone (add_counts acc st) ≡ (
        if eqb st.zone_id zone
        then some (count_device st (counts_or_zero (lookup zone acc)))
        else lookup zone acc)
unfolding add_counts
add_counts-lookup zone acc st h = ground (
  arith,
  lookup-insert st.zone_id zone (count_device st (counts_or_zero (lookup st.zone_id acc))) acc,
)

-- Counting one device of the zone more.
counts_from-count_device :
    (a : Counts) (zone : ℕ) (uri : Bytes) (st : DeviceState) (rest : Devices)
    → eqb st.zone_id zone ≡ true
    → counts_from (count_device st a) zone rest ≡ counts_from a zone ((uri, st) ∷ rest)
unfolding count_device
counts_from-count_device a zone uri st rest h = elim (Bool-cases (is_luminaire st)) [
  | inl l ↦ rw (h, l) (ground arith)
  | inr s ↦ rw (h, s) (ground arith)
]

counts_from-other :
    (a : Counts) (zone : ℕ) (uri : Bytes) (st : DeviceState) (rest : Devices)
    → eqb st.zone_id zone ≡ false
    → counts_from a zone rest ≡ counts_from a zone ((uri, st) ∷ rest)
counts_from-other a zone uri st rest h = rw h (ground arith)

count_in_none :
    (zone : ℕ) (p : DeviceState → Bool) (ds : Devices)
    → has_device zone ds ≡ false
    → count_in zone p ds ≡ 0
count_in_none zone p [] h = refl
count_in_none zone p ((uri, st) ∷ rest) h = ground (arith, count_in_none zone p rest)

counts_from_none :
    (a : Counts) (zone : ℕ) (ds : Devices)
    → CountsFit a
    → has_device zone ds ≡ false
    → counts_from a zone ds ≡ a
counts_from_none a zone ds f h = ground (
  arith,
  count_in_none zone is_luminaire ds,
  count_in_none zone is_lit ds,
  count_in_none zone (λ st. is_luminaire st && st.fault) ds,
  count_in_none zone (λ st. not (is_luminaire st)) ds,
  count_in_none zone (λ st. not (is_luminaire st) && st.fault) ds,
)

abbrev counts_after : ℕ → Option Counts → Devices → Option Counts
counts_after zone so_far ds =
    if has_device zone ds then some (counts_from (counts_or_zero so_far) zone ds) else so_far

-- The entry of a zone after one more device.
abbrev entry_after : ℕ → Option Counts → DeviceState → Option Counts
entry_after zone o st = if eqb st.zone_id zone then some (count_device st (counts_or_zero o)) else o

entry_after-Fit :
    (zone : ℕ) (o : Option Counts) (st : DeviceState)
    → CountsFit (counts_or_zero o)
    → CountsFit (counts_or_zero (entry_after zone o st))
entry_after-Fit zone o st f = elim (Bool-cases (eqb st.zone_id zone)) [
  | inl e ↦ rw e (count_device-Fit st (counts_or_zero o) f)
  | inr e ↦ rw e f
]

-- `b`: the device is in the zone; `h`: another one is.
join :
    (b h : Bool) (o : Option Counts) (count : Counts → Counts) (counted all : Counts)
    → (b ≡ true → count counted ≡ all)
    → (b ≡ false → count (counts_or_zero o) ≡ all)
    → (h ≡ false → count counted ≡ counted)
    → (if h
        then some (count (counts_or_zero (if b then some counted else o)))
        else if b
        then some counted
        else o)
      ≡ (if b || h then some all else o)
join true true o count counted all p q r = ap some (p refl)
join true false o count counted all p q r = ap some (sym (r refl) ∙ p refl)
join false true o count counted all p q r = ap some (q refl)
join false false o count counted all p q r = refl

after_step :
    (zone : ℕ) (o : Option Counts) (uri : Bytes) (st : DeviceState) (rest : Devices)
    → CountsFit (counts_or_zero o)
    → counts_after zone (entry_after zone o st) rest ≡ counts_after zone o ((uri, st) ∷ rest)
after_step zone o uri st rest f =
    join (eqb st.zone_id zone) (has_device zone rest) o (λ a. counts_from a zone rest)
      (count_device st (counts_or_zero o)) (counts_from (counts_or_zero o) zone ((uri, st) ∷ rest))
      (counts_from-count_device (counts_or_zero o) zone uri st rest)
      (counts_from-other (counts_or_zero o) zone uri st rest)
      (counts_from_none _ zone rest (count_device-Fit st (counts_or_zero o) f))

count_loop_after :
    (zone : ℕ) (ds : Devices) (acc : List (ℕ × Counts))
    → zone ≢ 0
    → CountsFit (counts_or_zero (lookup zone acc))
    → lookup zone (count_loop acc ds) ≡ counts_after zone (lookup zone acc) ds
unfolding count_loop
count_loop_after zone [] acc h f = refl
count_loop_after zone ((uri, st) ∷ rest) acc h f =
    let e = add_counts-lookup zone acc st h in
    count_loop_after zone rest (add_counts acc st) h
      (rw e (entry_after-Fit zone (lookup zone acc) st f))
    ∙ ap (λ (o : Option Counts). counts_after zone o rest) e
    ∙ after_step zone (lookup zone acc) uri st rest f

pub no_counts-Fit : CountsFit no_counts
no_counts-Fit = omega arith

pub count_loop-lookup :
    (zone : ℕ) (ds : Devices)
    → zone ≢ 0
    → lookup zone (count_loop [] ds)
      ≡ (if has_device zone ds then some (expected_counts zone ds) else none)
unfolding lookup
count_loop-lookup zone ds h = count_loop_after zone ds [] h no_counts-Fit

add_counts-Distinct :
    (acc : List (ℕ × Counts)) (st : DeviceState) → Distinct acc → Distinct (add_counts acc st)
unfolding add_counts
add_counts-Distinct acc st d = elim (Bool-cases (eqb st.zone_id 0)) [
  | inl e ↦ rw e d
  | inr e ↦
      rw e (
        insert-Distinct st.zone_id (count_device st (counts_or_zero (lookup st.zone_id acc))) acc d)
]

pub count_loop-Distinct :
    (ds : Devices) (acc : List (ℕ × Counts)) → Distinct acc → Distinct (count_loop acc ds)
unfolding count_loop
count_loop-Distinct [] acc d = d
count_loop-Distinct ((uri, st) ∷ rest) acc d =
    count_loop-Distinct rest (add_counts acc st) (add_counts-Distinct acc st d)

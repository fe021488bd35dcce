-- ===== src/Registry/Unordered.antt =====
-- The maps of registry.hpp have no order: what is read off all devices does not depend on the order in
-- which a loop meets them.
use mathlib.Core.List.{Permᴰ}
use mathlib.Core.Quot
use mathlib.Core.Quot.{Quot}
use smart_lighting_system.Base.{
  ℕ, ◌<◌, ◌≡◌, ◌≢◌, refl, sym, ap, ◌∙◌, inl, inr, Bool, true, false, not, ◌&&◌, Bool-cases, List,
  [], ◌∷◌, Option, none, some, nat_eq, eqb, eqb_refl, ltb, All, arith, if◌then◌else◌,
}
use smart_lighting_system.Base.Assoc.{lookup, lookup-insert}
use smart_lighting_system.Proto.Messages.{Bytes, ZoneDeviceSummary}
use smart_lighting_system.Registry.{
  DeviceState, Devices, Registry, Counts, is_luminaire, add_counts, count_loop, zone_device_summary,
  zone_power_sum, to_summary,
}
use smart_lighting_system.Registry.Power.{has_lamp, total_power, lookup-zone_power_sum}
use smart_lighting_system.Registry.Summary.{
  count_in, count_loop-Distinct, find_summary-sorted, summary_of, has_device, expected_counts,
  find_summary, Ascending, zone_device_summary_counts,
}

count_in-Perm :
    (zone : ℕ) (p : DeviceState → Bool) {ds es : Devices}
    → Permᴰ ds es
    → count_in zone p ds ≡ count_in zone p es
count_in-Perm zone p Permᴰ.nil = refl
count_in-Perm zone p (Permᴰ.cons e d) = rw (e, count_in-Perm zone p d) refl
count_in-Perm zone p (Permᴰ.swap e f) = rw (e, f) (omega arith)
count_in-Perm zone p (Permᴰ.trans d e) = count_in-Perm zone p d ∙ count_in-Perm zone p e

has_device-Perm :
    (zone : ℕ) {ds es : Devices} → Permᴰ ds es → has_device zone ds ≡ has_device zone es
has_device-Perm zone Permᴰ.nil = refl
has_device-Perm zone (Permᴰ.cons e d) = rw (e, has_device-Perm zone d) refl
has_device-Perm zone (Permᴰ.swap e f) = rw (e, f) (ground arith)
has_device-Perm zone (Permᴰ.trans d e) = has_device-Perm zone d ∙ has_device-Perm zone e

has_lamp-Perm : (zone : ℕ) {ds es : Devices} → Permᴰ ds es → has_lamp zone ds ≡ has_lamp zone es
has_lamp-Perm zone Permᴰ.nil = refl
has_lamp-Perm zone (Permᴰ.cons e d) = rw (e, has_lamp-Perm zone d) refl
has_lamp-Perm zone (Permᴰ.swap e f) = rw (e, f) (ground arith)
has_lamp-Perm zone (Permᴰ.trans d e) = has_lamp-Perm zone d ∙ has_lamp-Perm zone e

total_power-Perm :
    (zone : ℕ) {ds es : Devices} → Permᴰ ds es → total_power zone ds ≡ total_power zone es
total_power-Perm zone Permᴰ.nil = refl
total_power-Perm zone (Permᴰ.cons e d) = rw (e, total_power-Perm zone d) refl
total_power-Perm zone (Permᴰ.swap e f) = rw (e, f) (omega arith)
total_power-Perm zone (Permᴰ.trans d e) = total_power-Perm zone d ∙ total_power-Perm zone e

expected_counts-Perm :
    (zone : ℕ) {ds es : Devices} → Permᴰ ds es → expected_counts zone ds ≡ expected_counts zone es
expected_counts-Perm zone d =
    rw
      (
        count_in-Perm zone is_luminaire d,
        count_in-Perm zone (λ st. is_luminaire st && not (eqb st.on 0)) d,
        count_in-Perm zone (λ st. is_luminaire st && st.fault) d,
        count_in-Perm zone (λ st. not (is_luminaire st)) d,
        count_in-Perm zone (λ st. not (is_luminaire st) && st.fault) d,
      )
      refl

-- Zone 0 is never counted.
count_loop_zero :
    (ds : Devices) (acc : List (ℕ × Counts)) → lookup 0 (count_loop acc ds) ≡ lookup 0 acc
unfolding count_loop add_counts
count_loop_zero [] acc = refl
count_loop_zero ((uri, st) ∷ ds) acc =
    count_loop_zero ds (add_counts acc st) ∙ elim (Bool-cases (eqb st.zone_id 0)) [
      | inl e ↦ rw e refl
      | inr e ↦ rw e (lookup-insert st.zone_id 0 _ acc ∙ rw e refl)
    ]

summary_zero : (r : Registry) → find_summary 0 (zone_device_summary r) ≡ none
unfolding zone_device_summary lookup
summary_zero r =
    find_summary-sorted 0 (count_loop [] r.dev) (count_loop-Distinct r.dev [] tt)
    ∙ ap (summary_of 0) (count_loop_zero r.dev [])

-- Two ascending lists with the same entries are equal.
above_none :
    (n : ℕ) (ss : List ZoneDeviceSummary) → All (λ t. n < t.zone_id) ss → find_summary n ss ≡ none
above_none n [] h = refl
above_none n (s ∷ ss) h = ground (arith, above_none n ss h.1)

find_first :
    (s : ZoneDeviceSummary) (ss : List ZoneDeviceSummary) → find_summary s.zone_id (s ∷ ss) ≡ some s
find_first s ss = rw (eqb_refl s.zone_id) refl

early_none :
    (n m : ℕ) (ss : List ZoneDeviceSummary)
    → n < m
    → All (λ t. m < t.zone_id) ss
    → find_summary n ss ≡ none
early_none n m [] l h = refl
early_none n m (s ∷ ss) l h = ground (arith, early_none n m ss l h.1)

-- The first entry of an ascending list is no later than that of another with the same entries.
not_later :
    (x y : ZoneDeviceSummary) (xs ys : List ZoneDeviceSummary)
    → All (λ t. y.zone_id < t.zone_id) ys
    → find_summary x.zone_id (x ∷ xs) ≡ find_summary x.zone_id (y ∷ ys)
    → ltb x.zone_id y.zone_id ≡ false
not_later x y xs ys b h = elim (Bool-cases (ltb x.zone_id y.zone_id)) [
  | inl l ↦
      let missing : find_summary x.zone_id (y ∷ ys) ≡ none =
        ground (arith, early_none x.zone_id y.zone_id ys (ground arith) b) in
      cc (find_first x xs, h, missing)
  | inr l ↦ l
]

-- The heads of two ascending lists with the same entries.
same_head :
    (x y : ZoneDeviceSummary) (xs ys : List ZoneDeviceSummary)
    → All (λ t. x.zone_id < t.zone_id) xs
    → All (λ t. y.zone_id < t.zone_id) ys
    → ((z : ℕ) → find_summary z (x ∷ xs) ≡ find_summary z (y ∷ ys))
    → x ≡ y
same_head x y xs ys a b h =
    let le = not_later x y xs ys b (h x.zone_id) in
    let ge = not_later y x ys xs a (sym (h y.zone_id)) in
    let same : eqb y.zone_id x.zone_id ≡ true = ground arith in
    let found : find_summary x.zone_id (y ∷ ys) ≡ some y = rw same refl in
    cc (find_first x xs, h x.zone_id, found)

Ascending-ext :
    (xs ys : List ZoneDeviceSummary)
    → Ascending xs
    → Ascending ys
    → ((z : ℕ) → find_summary z xs ≡ find_summary z ys)
    → xs ≡ ys
Ascending-ext [] [] a b h = refl
Ascending-ext [] (y ∷ ys) a b h = cc (h y.zone_id, find_first y ys)
Ascending-ext (x ∷ xs) [] a b h = cc (h x.zone_id, find_first x xs)
Ascending-ext (x ∷ xs) (y ∷ ys) a b h =
    let e : x ≡ y = same_head x y xs ys a.0 b.0 h in
    ap (λ z. z ∷ xs) e ∙ ap (◌∷◌ y) (Ascending-ext xs ys a.1 b.1 (rest e))
  where
    rest : x ≡ y → (z : ℕ) → find_summary z xs ≡ find_summary z ys
    rest e z = elim (Bool-cases (eqb x.zone_id z)) [
      | inl q ↦
          let same : x.zone_id ≡ z = ground arith in
          let other : y.zone_id ≡ z = ap (λ (s : ZoneDeviceSummary). s.zone_id) (sym e) ∙ same in
          above_none z xs (rw (← same) a.0) ∙ sym (above_none z ys (rw (← other) b.0))
      | inr q ↦
          let q' : eqb y.zone_id z ≡ false =
            ap (λ (s : ZoneDeviceSummary). eqb s.zone_id z) (sym e) ∙ q in
          let all = h z in rw (q, q') at all
    ]

abbrev entry : ℕ → Bool → Counts → Option ZoneDeviceSummary
entry zone b a = if b then some (to_summary (zone, a)) else none

find_summary-Perm :
    (r s : Registry) (z : ℕ)
    → Permᴰ r.dev s.dev
    → find_summary z (zone_device_summary r) ≡ find_summary z (zone_device_summary s)
find_summary-Perm r s z d = elim (Bool-cases (eqb z 0)) [
  | inl e ↦ let zero : z ≡ 0 = ground arith in rw zero (summary_zero r ∙ sym (summary_zero s))
  | inr e ↦
      let n : z ≢ 0 = ground arith in
      (zone_device_summary_counts r z n).0
      ∙ ap (λ (b : Bool). entry z b (expected_counts z r.dev)) (has_device-Perm z d)
      ∙ ap (entry z (has_device z s.dev)) (expected_counts-Perm z d)
      ∙ sym (zone_device_summary_counts s z n).0
]

summary-Perm : (r s : Registry) → Permᴰ r.dev s.dev → zone_device_summary r ≡ zone_device_summary s
summary-Perm r s d =
    Ascending-ext (zone_device_summary r) (zone_device_summary s)
      (zone_device_summary_counts r 1 (omega arith)).1
      (zone_device_summary_counts s 1 (omega arith)).1 (λ z. find_summary-Perm r s z d)

power-Perm :
    (r s : Registry) (zone : ℕ)
    → zone ≢ 0
    → Permᴰ r.dev s.dev
    → lookup zone (zone_power_sum r) ≡ lookup zone (zone_power_sum s)
power-Perm r s zone n d =
    lookup-zone_power_sum r zone n
    ∙ rw (has_lamp-Perm zone d, total_power-Perm zone d) (sym (lookup-zone_power_sum s zone n))

-- The devices of a registry, whatever the order in which a loop meets them.
abbrev pub Table : Type 0
Table = Quot (Permᴰ {A = Bytes × DeviceState})

abbrev pub table : Registry → Table
table r = Quot.mk r.dev

abbrev of_devices : Devices → Registry
of_devices ds = record { dev = ds; zone_to_lamps = [] }

summary_of_devices : Devices → List ZoneDeviceSummary
summary_of_devices ds = zone_device_summary (of_devices ds)

power_of_devices : ℕ → Devices → Option ℕ
power_of_devices zone ds = lookup zone (zone_power_sum (of_devices ds))

summaries : Table → List ZoneDeviceSummary
unfolding summary_of_devices
summaries =
    Quot.lift (hlevel) summary_of_devices λ ds es d. summary-Perm (of_devices ds) (of_devices es) d

power : (zone : ℕ) → zone ≢ 0 → Table → Option ℕ
unfolding power_of_devices
power zone n =
    Quot.lift (hlevel) (power_of_devices zone)
      λ ds es d. power-Perm (of_devices ds) (of_devices es) zone n d

-- Two registries with the same devices, met in whatever order, have equal summaries, and for every zone
-- but 0 equal power sums: the order of an unordered_map shows in neither.
pub same_table :
    (r s : Registry) (zone : ℕ)
    → zone ≢ 0
    → table r ≡ table s
    → (zone_device_summary r ≡ zone_device_summary s)
      × (lookup zone (zone_power_sum r) ≡ lookup zone (zone_power_sum s))
unfolding summaries power summary_of_devices power_of_devices zone_device_summary zone_power_sum
same_table r s zone n e = (ap summaries e, ap (power zone n) e)

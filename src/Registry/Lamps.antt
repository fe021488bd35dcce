-- ===== src/Registry/Lamps.antt =====
-- The index from zones to lamps, which motion commands go by.
use smart_lighting_system.Base.{
  ℕ, ◌≡◌, refl, ap, ◌≢◌, ◌∙◌, inl, inr, Bool, true, false, not, ◌&&◌, ◌||◌, Option, none, some,
  List, [], ◌∷◌, ◌++◌, arith, eqb, contains, nat_eq, bytes_key, bytes_eq_iff, eqb_refl, ==_refl,
  sym, ◌==◌, Bool-cases, if◌then◌else◌,
}
use smart_lighting_system.Base.Assoc.{lookup, insert, lookup-insert, Distinct, insert-Distinct}
use smart_lighting_system.Proto.Messages.{Bytes}
use smart_lighting_system.Registry.{
  DeviceState, Registry, empty_registry, is_luminaire, lamps_or_empty, push_new, register_lamp,
  upsert, get, get_lamps_in_zone, detect_comm_lost,
}
use smart_lighting_system.Registry.CommLost.{
  marked, detect_comm_lost-marked, detect_comm_lost-Distinct,
}

-- No uri stands twice in a list.
abbrev pub NoRepeat : List Bytes → Type 0
NoRepeat [] = Unit
NoRepeat (x ∷ xs) = (contains x xs ≡ false) × NoRepeat xs

pub contains-append_one :
    (x uri : Bytes) (v : List Bytes) → contains x (v ++ uri ∷ []) ≡ (contains x v || uri == x)
contains-append_one x uri [] = ground arith
contains-append_one x uri (y ∷ ys) = ground (arith, contains-append_one x uri ys)

append_one-NoRepeat :
    (uri : Bytes) (v : List Bytes) → contains uri v ≡ false → NoRepeat v → NoRepeat (v ++ uri ∷ [])
append_one-NoRepeat uri [] h n = (refl, tt)
append_one-NoRepeat uri (y ∷ ys) h n = (
  contains-append_one y uri ys ∙ ground (arith, bytes_eq_iff uri y, bytes_eq_iff y uri, n.0),
  append_one-NoRepeat uri ys (ground arith) n.1,
)

push_new-NoRepeat : (uri : Bytes) (v : List Bytes) → NoRepeat v → NoRepeat (push_new uri v)
push_new-NoRepeat uri v n = elim (Bool-cases (contains uri v)) [
  | inl e ↦ rw e n
  | inr e ↦ rw e (append_one-NoRepeat uri v e n)
]

contains-push_new :
    (x uri : Bytes) (v : List Bytes) → contains x (push_new uri v) ≡ (contains x v || uri == x)
contains-push_new x uri v = elim (Bool-cases (contains uri v)) [
  | inl e ↦ rw e (ground (arith, bytes_eq_iff uri x))
  | inr e ↦ rw e (contains-append_one x uri v)
]

get_lamps-register_lamp :
    (uri : Bytes) (zone z : ℕ) (r : Registry)
    → get_lamps_in_zone z (register_lamp uri zone r)
      ≡ (if eqb zone z then push_new uri (get_lamps_in_zone z r) else get_lamps_in_zone z r)
unfolding get_lamps_in_zone register_lamp
get_lamps-register_lamp uri zone z r =
    ap lamps_or_empty (lookup-insert zone z _ r.zone_to_lamps) ∙ swap (eqb zone z) refl
  where
    swap :
        (b : Bool)
        → eqb zone z ≡ b
        → lamps_or_empty (
            if b
            then some (push_new uri (lamps_or_empty (lookup zone r.zone_to_lamps)))
            else lookup z r.zone_to_lamps)
          ≡ (if b
              then push_new uri (lamps_or_empty (lookup z r.zone_to_lamps))
              else lamps_or_empty (lookup z r.zone_to_lamps))
    swap true e =
        ap (λ (k : ℕ). push_new uri (lamps_or_empty (lookup k r.zone_to_lamps))) (ground arith)
    swap false e = refl

-- What holds of a registry between two calls.
pub record IsIndexed (r : Registry) : Type 0 where
  pub distinct : Distinct r.dev
  pub listed :
      (uri : Bytes) (st : DeviceState)
      → get uri r ≡ some st
      → is_luminaire st ≡ true
      → st.zone_id ≢ 0
      → contains uri (get_lamps_in_zone st.zone_id r) ≡ true
  pub no_repeat : (zone : ℕ) → NoRepeat (get_lamps_in_zone zone r)

pub IsIndexed-empty : IsIndexed empty_registry
unfolding get get_lamps_in_zone lookup
IsIndexed-empty = record { distinct = tt; listed = λ uri st e. cc; no_repeat = λ zone. tt }

-- Registering a lamp keeps the list of every zone and adds the lamp to its own.
pub contains-register_lamp :
    (uri x : Bytes) (zone z : ℕ) (r : Registry)
    → contains x (get_lamps_in_zone z (register_lamp uri zone r))
      ≡ (contains x (get_lamps_in_zone z r) || (eqb zone z && uri == x))
contains-register_lamp uri x zone z r = elim (Bool-cases (eqb zone z)) [
  | inl e ↦ rw (get_lamps-register_lamp, e) (contains-push_new x uri (get_lamps_in_zone z r))
  | inr e ↦ rw (get_lamps-register_lamp, e) (ground arith)
]

register_lamp-NoRepeat :
    (uri : Bytes) (zone z : ℕ) (r : Registry)
    → NoRepeat (get_lamps_in_zone z r)
    → NoRepeat (get_lamps_in_zone z (register_lamp uri zone r))
register_lamp-NoRepeat uri zone z r n = elim (Bool-cases (eqb zone z)) [
  | inl e ↦ rw (get_lamps-register_lamp, e) (push_new-NoRepeat uri (get_lamps_in_zone z r) n)
  | inr e ↦ rw (get_lamps-register_lamp, e) n
]

get-register_lamp :
    (uri x : Bytes) (zone : ℕ) (r : Registry) → get x (register_lamp uri zone r) ≡ get x r
unfolding get register_lamp
get-register_lamp uri x zone r = refl

-- `register_lamp` keeps the registry indexed.
pub register_lamp-IsIndexed :
    (uri : Bytes) (zone : ℕ) (r : Registry) → IsIndexed r → IsIndexed (register_lamp uri zone r)
register_lamp-IsIndexed uri zone r v = record {
  distinct = unfold register_lamp in v.distinct;
  listed = λ x st e l z.
      contains-register_lamp uri x zone st.zone_id r
      ∙ ground (arith, v.listed x st (rw get-register_lamp at e) l z);
  no_repeat = λ z. register_lamp-NoRepeat uri zone z r (v.no_repeat z);
}

-- The registry of `upsert` before the lamp goes into the index.
with_device-IsIndexed :
    (uri : Bytes) (st : DeviceState) (r : Registry)
    → IsIndexed r
    → (is_luminaire st ≡ true
        → st.zone_id ≢ 0
        → contains uri (get_lamps_in_zone st.zone_id r) ≡ true)
    → IsIndexed (record r { dev = insert uri st r.dev })
unfolding get get_lamps_in_zone
with_device-IsIndexed uri st r v own = record {
  distinct = insert-Distinct uri st r.dev v.distinct;
  listed = λ x s e l z. split x s l z (lookup-insert uri x st r.dev) e;
  no_repeat = v.no_repeat;
}
  where
    split :
        (x : Bytes) (s : DeviceState)
        → is_luminaire s ≡ true
        → s.zone_id ≢ 0
        → lookup x (insert uri st r.dev) ≡ (if uri == x then some st else lookup x r.dev)
        → lookup x (insert uri st r.dev) ≡ some s
        → contains x (lamps_or_empty (lookup s.zone_id r.zone_to_lamps)) ≡ true
    split x s l z f e = elim (Bool-cases (uri == x)) [
      | inl q ↦
          let same : st ≡ s = ground (arith, f, e) in
          let here : uri ≡ x = (bytes_eq_iff uri x).0 q in
          rw (← here, ← same) (own (rw same l) (rw same z))
      | inr q ↦ v.listed x s (ground (arith, f, e)) l z
    ]

contains-register_self :
    (uri : Bytes) (zone : ℕ) (r : Registry)
    → contains uri (get_lamps_in_zone zone (register_lamp uri zone r)) ≡ true
contains-register_self uri zone r =
    contains-register_lamp uri uri zone zone r ∙ ground (arith, eqb_refl zone, ==_refl uri)

-- `upsert` keeps the registry indexed: uris are distinct, every luminaire outside zone 0 is in the
-- list of its zone, and no list names a lamp twice.
pub upsert-IsIndexed :
    (uri : Bytes) (st : DeviceState) (r : Registry) → IsIndexed r → IsIndexed (upsert uri st r)
unfolding upsert
upsert-IsIndexed uri st r v = elim (Bool-cases (is_luminaire st && not (eqb st.zone_id 0))) [
  | inl c ↦ rw c (
      unfold register_lamp in
      with_device-IsIndexed uri st (register_lamp uri st.zone_id r)
        (register_lamp-IsIndexed uri st.zone_id r v)
        (λ _ _. contains-register_self uri st.zone_id r))
  | inr c ↦ rw c (with_device-IsIndexed uri st r v (λ l z. absurd (z (ground arith))))
]

-- `upsert` sets the state of one device and keeps that of every other.
pub get-upsert :
    (uri x : Bytes) (st : DeviceState) (r : Registry)
    → get x (upsert uri st r) ≡ (if uri == x then some st else get x r)
unfolding upsert get register_lamp
get-upsert uri x st r = elim (Bool-cases (is_luminaire st && not (eqb st.zone_id 0))) [
  | inl c ↦ rw c (lookup-insert uri x st r.dev)
  | inr c ↦ rw c (lookup-insert uri x st r.dev)
]

-- A lamp that is in a zone's list stays there whatever is stored later, its move to another zone
-- included: the index never drops a lamp.
pub contains-upsert :
    (uri x : Bytes) (st : DeviceState) (zone : ℕ) (r : Registry)
    → contains x (get_lamps_in_zone zone r) ≡ true
    → contains x (get_lamps_in_zone zone (upsert uri st r)) ≡ true
unfolding upsert
contains-upsert uri x st zone r h = elim (Bool-cases (is_luminaire st && not (eqb st.zone_id 0))) [
  | inl c ↦ rw c (
      contains-register_lamp uri x st.zone_id zone (record r { dev = insert uri st r.dev })
      ∙ unfold get_lamps_in_zone in ground (arith, h))
  | inr c ↦ rw c (unfold get_lamps_in_zone in h)
]

-- The communication check keeps the registry indexed.
pub detect_comm_lost-IsIndexed :
    (now timeout_ms : ℕ) (r : Registry)
    → IsIndexed r
    → IsIndexed (detect_comm_lost now timeout_ms r).0
detect_comm_lost-IsIndexed now timeout_ms r v = record {
  distinct = detect_comm_lost-Distinct now timeout_ms r v.distinct;
  listed = λ uri st e l z.
      before (get uri r) uri refl st l z
        (sym (detect_comm_lost-marked now timeout_ms r uri v.distinct).0 ∙ e);
  no_repeat = unfold detect_comm_lost get_lamps_in_zone in v.no_repeat;
}
  where
    before :
        (o : Option DeviceState)
        → (uri : Bytes) → get uri r ≡ o
        → (st : DeviceState) → is_luminaire st ≡ true
        → st.zone_id ≢ 0
        → marked now timeout_ms o ≡ some st
        → contains uri (get_lamps_in_zone st.zone_id (detect_comm_lost now timeout_ms r).0) ≡ true
    before none uri f st l z e = cc
    before (some s) uri f st l z e =
        let k : s.zone_id ≡ st.zone_id = ground arith in
        let m : is_luminaire s ≡ true = ground arith in
        unfold detect_comm_lost get_lamps_in_zone in rw (← k) (v.listed uri s f m (rw k z))

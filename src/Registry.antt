-- ===== src/Registry.antt =====
-- registry.hpp: the devices of one region. A method that takes the lock runs whole, so it is a
-- function of the state; the clock is an argument.
pub mod Power
pub mod Summary
pub mod CommLost
pub mod Lamps
pub mod Bounds
pub mod Unordered
use smart_lighting_system.Base.{
  ℕ, ◌+◌, ◌-◌, Bool, true, false, not, ◌&&◌, ◌^◌, Option, none, some, List, [], ◌∷◌, ◌++◌, eqb, ltb,
  contains, if◌then◌else◌, nat_eq, bytes_key,
}
use smart_lighting_system.Base.Words.{u16, u32, u64}
use smart_lighting_system.Base.Assoc.{lookup, insert}
use smart_lighting_system.Proto.Messages.{Bytes, ZoneDeviceSummary}
use smart_lighting_system.Proto.DeviceType

pub record DeviceState : Type 0 where
  pub type : ℕ
  pub zone_id : ℕ
  pub on : ℕ
  pub intensity : ℕ
  pub power_mw : ℕ
  pub fault : Bool
  pub last_seen_ms : ℕ

abbrev pub Devices : Type 0
Devices = List (Bytes × DeviceState)

pub record Registry : Type 0 where
  pub dev : Devices
  pub zone_to_lamps : List (ℕ × List Bytes)

abbrev pub empty_registry : Registry
empty_registry = record { dev = []; zone_to_lamps = [] }

abbrev pub is_luminaire : DeviceState → Bool
is_luminaire st = eqb st.type DeviceType.luminaire

-- The list of a zone, as operator[] gives it: empty for a new zone.
abbrev pub lamps_or_empty : Option (List Bytes) → List Bytes
lamps_or_empty none = []
lamps_or_empty (some v) = v

abbrev pub push_new : Bytes → List Bytes → List Bytes
push_new uri v = if contains uri v then v else v ++ uri ∷ []

unfoldable pub register_lamp : Bytes → ℕ → Registry → Registry
register_lamp uri zone_id r = record r {
  zone_to_lamps =
      insert zone_id (push_new uri (lamps_or_empty (lookup zone_id r.zone_to_lamps)))
        r.zone_to_lamps;
}

unfoldable pub upsert : Bytes → DeviceState → Registry → Registry
upsert uri st r =
    let r1 = record r { dev = insert uri st r.dev } in
    if is_luminaire st && not (eqb st.zone_id 0) then register_lamp uri st.zone_id r1 else r1

unfoldable pub get : Bytes → Registry → Option DeviceState
get uri r = lookup uri r.dev

unfoldable pub get_lamps_in_zone : ℕ → Registry → List Bytes
get_lamps_in_zone zone_id r = lamps_or_empty (lookup zone_id r.zone_to_lamps)

abbrev pub or_zero : Option ℕ → ℕ
or_zero none = 0
or_zero (some n) = n

-- The body of the loop of `zone_power_sum` with its map `sums`, and the loop.
unfoldable pub add_power : List (ℕ × ℕ) → DeviceState → List (ℕ × ℕ)
add_power sums st =
    if eqb st.zone_id 0
    then sums
    else if is_luminaire st
    then insert st.zone_id (u32 (or_zero (lookup st.zone_id sums) + st.power_mw)) sums
    else sums

unfoldable pub power_loop : List (ℕ × ℕ) → Devices → List (ℕ × ℕ)
power_loop sums [] = sums
power_loop sums ((uri, st) ∷ rest) = power_loop (add_power sums st) rest

unfoldable pub zone_power_sum : Registry → List (ℕ × ℕ)
zone_power_sum r = power_loop [] r.dev

-- `struct Acc`
pub record Counts : Type 0 where
  pub lamp_total : ℕ
  pub lamp_on : ℕ
  pub lamp_fault : ℕ
  pub sensor_total : ℕ
  pub sensor_fault : ℕ

abbrev pub no_counts : Counts
no_counts = record {
  lamp_total = 0;
  lamp_on = 0;
  lamp_fault = 0;
  sensor_total = 0;
  sensor_fault = 0;
}

abbrev pub counts_or_zero : Option Counts → Counts
counts_or_zero none = no_counts
counts_or_zero (some a) = a

-- uint16_t x; if(b) x++;
abbrev pub bump : Bool → ℕ → ℕ
bump b x = if b then u16 (x + 1) else x

unfoldable pub count_device : DeviceState → Counts → Counts
count_device st a =
    if is_luminaire st
    then record a {
      lamp_total = bump true a.lamp_total;
      lamp_on = bump (not (eqb st.on 0)) a.lamp_on;
      lamp_fault = bump st.fault a.lamp_fault;
    }
    else record a {
      sensor_total = bump true a.sensor_total;
      sensor_fault = bump st.fault a.sensor_fault;
    }

unfoldable pub add_counts : List (ℕ × Counts) → DeviceState → List (ℕ × Counts)
add_counts acc st =
    if eqb st.zone_id 0
    then acc
    else insert st.zone_id (count_device st (counts_or_zero (lookup st.zone_id acc))) acc

unfoldable pub count_loop : List (ℕ × Counts) → Devices → List (ℕ × Counts)
count_loop acc [] = acc
count_loop acc ((uri, st) ∷ rest) = count_loop (add_counts acc st) rest

abbrev pub to_summary : ℕ × Counts → ZoneDeviceSummary
to_summary (zone, a) = record {
  zone_id = zone;
  lamp_total = a.lamp_total;
  lamp_on = a.lamp_on;
  lamp_fault = a.lamp_fault;
  sensor_total = a.sensor_total;
  sensor_fault = a.sensor_fault;
}

-- `out.push_back` for each zone, then std::sort by zone_id: each summary goes to its place.
unfoldable pub place : ZoneDeviceSummary → List ZoneDeviceSummary → List ZoneDeviceSummary
place z [] = z ∷ []
place z (y ∷ ys) = if ltb z.zone_id y.zone_id then z ∷ y ∷ ys else y ∷ place z ys

unfoldable pub sorted_summaries : List (ℕ × Counts) → List ZoneDeviceSummary
sorted_summaries [] = []
sorted_summaries (kv ∷ rest) = place (to_summary kv) (sorted_summaries rest)

unfoldable pub zone_device_summary : Registry → List ZoneDeviceSummary
zone_device_summary r = sorted_summaries (count_loop [] r.dev)

-- The test of `detect_comm_lost`. The subtraction is of uint64_t, and wraps.
abbrev pub is_silent : ℕ → ℕ → DeviceState → Bool
is_silent now timeout_ms st =
    not st.fault && ltb 0 st.last_seen_ms && ltb timeout_ms (u64 (now + 2 ^ 64 - st.last_seen_ms))

-- The loop over `dev_`: the devices after it, and the uris that it pushed to `lost`.
unfoldable pub lost_loop : ℕ → ℕ → Devices → Devices × List Bytes
lost_loop now timeout_ms [] = ([], [])
lost_loop now timeout_ms ((uri, st) ∷ rest) =
    let (rest', lost) = lost_loop now timeout_ms rest in
    if is_silent now timeout_ms st
    then ((uri, record st { fault = true }) ∷ rest', uri ∷ lost)
    else ((uri, st) ∷ rest', lost)

unfoldable pub detect_comm_lost : ℕ → ℕ → Registry → Registry × List Bytes
detect_comm_lost now timeout_ms r =
    let (dev', lost) = lost_loop now timeout_ms r.dev in (record r { dev = dev' }, lost)

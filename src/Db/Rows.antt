-- ===== src/Db/Rows.antt =====
-- The rows that db.cpp binds for an event, read back.
use smart_lighting_system.Base.{
  ℕ, ◌-◌, ◌^◌, ◌≡◌, refl, inl, inr, Bool, true, false, not, Bool-cases, List, [], ◌∷◌, map, Option,
  none, some, All, ltb, eqb, arith, if◌then◌else◌,
}
use smart_lighting_system.Base.Words.{IsU32, IsU8}
use smart_lighting_system.Proto.Messages.{Bytes}
use smart_lighting_system.Proto.Text.{NoNul, c_str_lem}
use smart_lighting_system.Db.{
  RegionSyncEvent, Event, region_sync, device_upsert, lamp_status, fault, command,
}
use smart_lighting_system.Db.Statements.{
  Statement, st_region_sync, st_device_upsert, st_lamp_status, st_fault, st_command, SqlValue,
  integer, below, text, bind_int, bind_int64, bind_text, Execution, zone_power_row, region_sync_row,
  device_row, lamp_status_row, fault_row, command_row, executions,
}

-- The number of 32 bits or the time stamp that a column holds, and its text.
abbrev number : SqlValue → ℕ
number (integer n) = n
number (below n) = 2 ^ 32 - 1 - n
number (text s) = 0

abbrev chars : SqlValue → Bytes
chars (text s) = s
chars _ = []

abbrev zone_power : List SqlValue → ℕ × ℕ
zone_power (t ∷ r ∷ v ∷ zone ∷ power ∷ []) = (number zone, number power)
zone_power _ = (0, 0)

abbrev zone_powers : List Execution → List (ℕ × ℕ)
zone_powers [] = []
zone_powers (x ∷ xs) = zone_power x.bindings ∷ zone_powers xs

abbrev event_from : Statement → List SqlValue → List Execution → Option Event
event_from st_region_sync (t ∷ r ∷ v ∷ []) rows = some (
    region_sync (record {
      ts_ms = number t;
      region_id = number r;
      version = number v;
      zone_power_sum = zone_powers rows;
    }))
event_from st_device_upsert (u ∷ k ∷ r ∷ z ∷ t ∷ f ∷ o ∷ i ∷ p ∷ []) rows = some (
    device_upsert (record {
      ts_ms = number t;
      uri = chars u;
      type = number k;
      region_id = number r;
      zone_id = number z;
      fault = not (eqb (number f) 0);
      on_state = number o;
      intensity = number i;
      power_mw = number p;
    }))
event_from st_lamp_status (t ∷ u ∷ r ∷ z ∷ o ∷ i ∷ p ∷ []) rows = some (
    lamp_status (record {
      ts_ms = number t;
      uri = chars u;
      region_id = number r;
      zone_id = number z;
      on_state = number o;
      intensity = number i;
      power_mw = number p;
    }))
event_from st_fault (t ∷ u ∷ r ∷ z ∷ c ∷ x ∷ []) rows = some (
    fault (record {
      ts_ms = number t;
      uri = chars u;
      region_id = number r;
      zone_id = number z;
      code = number c;
      text = chars x;
    }))
event_from st_command (t ∷ u ∷ r ∷ c ∷ v ∷ s ∷ []) rows = some (
    command (record {
      ts_ms = number t;
      uri = chars u;
      region_id = number r;
      cmd = number c;
      value = number v;
      source = chars s;
    }))
event_from _ _ rows = none

-- The event that a list of rows stands for.
abbrev pub event_of : List Execution → Option Event
event_of [] = none
event_of (x ∷ rows) = event_from x.statement x.bindings rows

-- The fields of an event fit their types, and its texts have no NUL.
abbrev pub EventFits : Event → Type 0
EventFits (region_sync e) =
    IsU32 e.region_id
    × IsU32 e.version
    × All (λ (zone, power). IsU32 zone × IsU32 power) e.zone_power_sum
EventFits (device_upsert e) =
    NoNul e.uri
    × IsU8 e.type
    × IsU32 e.region_id
    × IsU32 e.zone_id
    × IsU8 e.on_state
    × IsU8 e.intensity
    × IsU32 e.power_mw
EventFits (lamp_status e) =
    NoNul e.uri
    × IsU32 e.region_id
    × IsU32 e.zone_id
    × IsU8 e.on_state
    × IsU8 e.intensity
    × IsU32 e.power_mw
EventFits (fault e) = NoNul e.uri × IsU32 e.region_id × IsU32 e.zone_id × IsU8 e.code × NoNul e.text
EventFits (command e) = NoNul e.uri × IsU32 e.region_id × IsU8 e.cmd × IsU8 e.value × NoNul e.source

number-bind_int : (x : ℕ) → IsU32 x → number (bind_int x) ≡ x
unfolding bind_int
number-bind_int x h = elim (Bool-cases (ltb x (2 ^ 31))) [
  | inl e ↦ rw e refl
  | inr e ↦ rw e (omega arith)
]

number-bind_int_u8 : (x : ℕ) → IsU8 x → number (bind_int x) ≡ x
number-bind_int_u8 x h = number-bind_int x (omega arith)

chars-bind_text : (s : Bytes) → NoNul s → chars (bind_text s) ≡ s
unfolding bind_text
chars-bind_text s h = c_str_lem s h

zone_powers-rows :
    (e : RegionSyncEvent) (zs : List (ℕ × ℕ))
    → All (λ (zone, power). IsU32 zone × IsU32 power) zs
    → zone_powers (map (zone_power_row e) zs) ≡ zs
unfolding zone_power_row
zone_powers-rows e [] h = refl
zone_powers-rows e ((zone, power) ∷ zs) h =
    rw (number-bind_int zone h.0.0, number-bind_int power h.0.1, zone_powers-rows e zs h.1) refl

fault_flag : (b : Bool) → not (eqb (number (bind_int (if b then 1 else 0))) 0) ≡ b
unfolding bind_int
fault_flag true = refl
fault_flag false = refl

-- The rows of an event whose fields fit their types and whose texts have no NUL determine it: nothing
-- is lost in the columns, in which a number of 2^31 or more is negative.
pub event_of-executions : (ev : Event) → EventFits ev → event_of (executions ev) ≡ some ev
unfolding executions region_sync_row device_row lamp_status_row fault_row command_row bind_int64
event_of-executions (region_sync e) (r, v, z) =
    rw
      (
        number-bind_int e.region_id r,
        number-bind_int e.version v,
        zone_powers-rows e e.zone_power_sum z,
      )
      refl
event_of-executions (device_upsert e) (u, k, r, z, o, i, p) =
    rw
      (
        chars-bind_text e.uri u,
        number-bind_int_u8 e.type k,
        number-bind_int e.region_id r,
        number-bind_int e.zone_id z,
        fault_flag e.fault,
        number-bind_int_u8 e.on_state o,
        number-bind_int_u8 e.intensity i,
        number-bind_int e.power_mw p,
      )
      refl
event_of-executions (lamp_status e) (u, r, z, o, i, p) =
    rw
      (
        chars-bind_text e.uri u,
        number-bind_int e.region_id r,
        number-bind_int e.zone_id z,
        number-bind_int_u8 e.on_state o,
        number-bind_int_u8 e.intensity i,
        number-bind_int e.power_mw p,
      )
      refl
event_of-executions (fault e) (u, r, z, c, x) =
    rw
      (
        chars-bind_text e.uri u,
        number-bind_int e.region_id r,
        number-bind_int e.zone_id z,
        number-bind_int_u8 e.code c,
        chars-bind_text e.text x,
      )
      refl
event_of-executions (command e) (u, r, c, v, s) =
    rw
      (
        chars-bind_text e.uri u,
        number-bind_int e.region_id r,
        number-bind_int_u8 e.cmd c,
        number-bind_int_u8 e.value v,
        chars-bind_text e.source s,
      )
      refl

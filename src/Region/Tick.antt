-- ===== src/Region/Tick.antt =====
-- The timer of regional_server.cpp that looks for devices that have gone silent, and `main`.
use smart_lighting_system.Base.{
  ℕ, Bool, true, false, List, [], ◌∷◌, ◌++◌, Option, none, some, bytes_key, contains, if◌then◌else◌,
}
use smart_lighting_system.Base.Words.{u32}
use smart_lighting_system.Proto.Messages.{Bytes}
use smart_lighting_system.Registry.{DeviceState, empty_registry, get, detect_comm_lost}
use smart_lighting_system.Db.{new_writer, start}
use smart_lighting_system.Fsm.Server.{
  ServerState, idle, registration_handling, normal_operation, fault_handling,
}
use smart_lighting_system.Region.{Clock, Region, switch_fsm, send_alarm_now, type_code}

abbrev pub comm_lost_text : Bytes
comm_lost_text = 99 ∷ 111 ∷ 109 ∷ 109 ∷ 95 ∷ 108 ∷ 111 ∷ 115 ∷ 116 ∷ []

unfoldable pub zone_or_zero : Option DeviceState → ℕ
zone_or_zero none = 0
zone_or_zero (some st) = st.zone_id

unfoldable pub code_or_lamp : Option DeviceState → ℕ
unfolding type_code
code_or_lamp none = 1
code_or_lamp (some st) = type_code st.type

-- A uri that `active_lost` did not hold.
unfoldable pub raise_lost : Bytes → Clock → Region → Region
unfolding zone_or_zero code_or_lamp
raise_lost uri clock r =
    let found = get uri r.reg in
    send_alarm_now
      (record {
        region_id = r.region_id;
        ts_unix = u32 clock.unix;
        device_type = code_or_lamp found;
        zone_id = zone_or_zero found;
        code = 9;
        uri = uri;
        text = comm_lost_text;
      })
      (switch_fsm fault_handling (record r { active_lost = r.active_lost ++ uri ∷ [] }))

unfoldable pub raise_loop : List Bytes → Clock → Region → Region
raise_loop [] clock r = r
raise_loop (uri ∷ rest) clock r =
    let known = contains uri r.active_lost in
    raise_loop rest clock (if known then r else raise_lost uri clock r)

-- The loop that erases what is not in `now_lost`.
unfoldable pub still_lost : List Bytes → List Bytes → List Bytes
still_lost now_lost [] = []
still_lost now_lost (uri ∷ rest) =
    let rest' = still_lost now_lost rest in if contains uri now_lost then uri ∷ rest' else rest'

-- fsm.get() == ServerState::FAULT_HANDLING
abbrev pub is_faulty : ServerState → Bool
is_faulty fault_handling = true
is_faulty _ = false

unfoldable pub recover : List Bytes → Region → Region
recover [] r = if is_faulty r.fsm then switch_fsm normal_operation r else r
recover (uri ∷ rest) r = r

unfoldable pub on_tick : ℕ → Clock → Region → Region
on_tick timeout_ms clock r =
    let (reg', lost) = detect_comm_lost clock.now_ms timeout_ms r.reg in
    let r1 = raise_loop lost clock (record r { reg = reg' }) in
    let left = still_lost lost r1.active_lost in recover left (record r1 { active_lost = left })

-- `main` up to io.run().
unfoldable pub boot : ℕ → Region
boot region_id = switch_fsm normal_operation (
    switch_fsm registration_handling (record {
      region_id = region_id;
      reg = empty_registry;
      db = start new_writer;
      fsm = idle;
      sessions = [];
      live = [];
      alarms = [];
      last_motion = [];
      active_lost = [];
    }))

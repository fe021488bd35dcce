-- ===== src/Region/Motion.antt =====
-- The callbacks of regional_server.cpp that the telemetry server calls.
use smart_lighting_system.Base.{ℕ, Bool, true, false, List, [], ◌∷◌, if◌then◌else◌}
use smart_lighting_system.Base.Words.{u32}
use smart_lighting_system.Proto.DeviceType
use smart_lighting_system.Proto.Messages.{Bytes}
use smart_lighting_system.Registry.{upsert, get_lamps_in_zone}
use smart_lighting_system.Db.{upsert_device, log_fault}
use smart_lighting_system.Fsm.Server.{ServerState, normal_operation, fault_handling}
use smart_lighting_system.Region.{Clock, Region, switch_fsm, send_alarm_now}
use smart_lighting_system.Region.Session.{send_cmd_to_uri, blank}

abbrev pub cmd_switch_on : ℕ
cmd_switch_on = 1

abbrev pub cmd_switch_off : ℕ
cmd_switch_off = 2

abbrev pub cmd_set_intensity : ℕ
cmd_set_intensity = 3

-- fsm.get() == ServerState::NORMAL_OPERATION
abbrev pub is_normal : ServerState → Bool
is_normal normal_operation = true
is_normal _ = false

-- The loops over the lamps. An empty list only writes a line to the log.
unfoldable pub switch_on_lamps : List Bytes → Region → Region
switch_on_lamps [] r = r
switch_on_lamps (lamp_uri ∷ rest) r =
    let r1 = (send_cmd_to_uri lamp_uri cmd_switch_on 0 r).0 in
    switch_on_lamps rest (send_cmd_to_uri lamp_uri cmd_set_intensity 60 r1).0

unfoldable pub switch_off_lamps : List Bytes → Region → Region
switch_off_lamps [] r = r
switch_off_lamps (lamp_uri ∷ rest) r =
    switch_off_lamps rest (send_cmd_to_uri lamp_uri cmd_switch_off 0 r).0

unfoldable pub on_motion_on : ℕ → Region → Region
on_motion_on zone_id r =
    if is_normal r.fsm then switch_on_lamps (get_lamps_in_zone zone_id r.reg) r else r

unfoldable pub on_motion_off : ℕ → Region → Region
on_motion_off zone_id r =
    if is_normal r.fsm then switch_off_lamps (get_lamps_in_zone zone_id r.reg) r else r

abbrev pub sensor_fault_text : Bytes
sensor_fault_text = 115 ∷ 101 ∷ 110 ∷ 115 ∷ 111 ∷ 114 ∷ 95 ∷ 102 ∷ 97 ∷ 117 ∷ 108 ∷ 116 ∷ []

unfoldable pub on_sensor_fault : ℕ → Bytes → ℕ → Clock → Region → Region
unfolding switch_fsm send_alarm_now
on_sensor_fault zone_id uri code clock r =
    let r1 = switch_fsm fault_handling r in
    let db1 = upsert_device clock.ts_ms uri 2 r.region_id zone_id true 0 0 0 r1.db in
    let r2 = record r1 {
      reg =
          upsert uri
            (record (blank DeviceType.sensor zone_id) { fault = true; last_seen_ms = clock.now_ms })
            r1.reg;
      db = log_fault clock.ts_ms uri r.region_id zone_id code sensor_fault_text db1;
    } in
    send_alarm_now
      (record {
        region_id = r.region_id;
        ts_unix = u32 clock.unix;
        device_type = 2;
        zone_id = zone_id;
        code = code;
        uri = uri;
        text = sensor_fault_text;
      })
      r2

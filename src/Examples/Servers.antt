-- ===== src/Examples/Servers.antt =====
-- The central server, the administrator's program, the sync client, the database writer and the
-- write queue.
use smart_lighting_system.Base.{
  All, ℕ, suc, ◌≡◌, refl, false, List, [], ◌∷◌, ◌++◌, some, map, arith, length, bytes_key, nat_eq,
  eqb,
}
use smart_lighting_system.Base.Assoc.{lookup}
use smart_lighting_system.Proto.Result.{ok, ◌>>=◌}
use smart_lighting_system.Proto.MsgType
use smart_lighting_system.Proto.Messages.{Bytes, AlarmUp}
use smart_lighting_system.Proto.Encode.{encode_region_sync_up}
use smart_lighting_system.Proto.Decode.{decode_alarm_up, read_alarm_up}
use smart_lighting_system.Proto.Reader.{get_u8, get_u16, get_u32, get_chars, get_str}
use smart_lighting_system.Registry.{Registry}
use smart_lighting_system.Registry.Summary.{find_summary}
use smart_lighting_system.Central.{
  RegionAggregate, CentralStore, no_summary, alarm_record, empty_store, upsert_region,
  encode_admin_snapshot, on_alarm_up, push_alarm, on_message,
}
use smart_lighting_system.Central.Sync.{version_of, power_of, summary_in, upsert_region_lem}
use smart_lighting_system.Central.Invariant.{serve, read_answer, served_snapshot}
use smart_lighting_system.Central.Truncated.{on_message-alarm_part}
use smart_lighting_system.Proto.RoundTrip.Central.{encode_alarm_up_lem}
use smart_lighting_system.AdminCli.{print_snapshot}
use smart_lighting_system.AdminCli.RoundTrip.{
  region_line, report_of, has_line, is_known, print-encode_admin_snapshot,
}
use smart_lighting_system.SyncClient.{
  SyncClient, Outcome, waiting, resolving, failed, done, sync_message,
}
use smart_lighting_system.SyncClient.EndToEnd.{sync_reaches_central}
use smart_lighting_system.SyncClient.Cycle.{attempt, attempt_ends}
use smart_lighting_system.Db.{
  Event, DbWriter, command, new_writer, start, enqueue, worker_round, request_stop, finish_stop,
}
use smart_lighting_system.Db.Writer.{begin, accept, work, request, Run-items, accepted_late}
use smart_lighting_system.Outbox.{empty_outbox, queue_send}
use smart_lighting_system.Outbox.Order.{posts, writes, queue, post, Run-drains}
use smart_lighting_system.Outbox.Order
use smart_lighting_system.Examples.{lamp_alarm, lamp_uri, two_devices, new_central, one_zone}

abbrev small_alarm : AlarmUp
small_alarm = record {
  region_id = 3;
  ts_unix = 9;
  device_type = 1;
  zone_id = 7;
  code = 9;
  uri = 108 ∷ [];
  text = 120 ∷ [];
}

-- An ALARM_UP of region 3 as it comes in.
abbrev pub alarm_body : Bytes
alarm_body =
    22 ∷ 0 ∷ 0 ∷ 0 ∷ 3 ∷ 0 ∷ 0 ∷ 0 ∷ 9 ∷ 1 ∷ 0 ∷ 0 ∷ 0 ∷ 7 ∷ 9 ∷ 0 ∷ 1 ∷ 108 ∷ 0 ∷ 1 ∷ 120 ∷ []

served_snapshot_example :
    let c' = serve ((5, alarm_body) ∷ []) new_central in
    (map read_answer (on_message 6 (MsgType.admin_snapshot_req ∷ []) c').1
      ≡ (MsgType.admin_snapshot_ack, ok (report_of c'.store)) ∷ [])
    × All
        (λ r. has_line 7 (region_line r).zones ≡ is_known (lookup 7 r.1.zone_power_mw))
        c'.store.regions
unfolding serve on_message decode_alarm_up read_alarm_up get_u8 get_u32 get_u16 get_chars get_str
    on_alarm_up push_alarm
served_snapshot_example =
    served_snapshot 6 7 ((5, alarm_body) ∷ []) new_central (omega arith) refl (omega arith)

-- The alarm with its last byte missing.
on_message-alarm_part_example :
    let cut : Bytes =
      0 ∷ 0 ∷ 0 ∷ 3 ∷ 0 ∷ 0 ∷ 0 ∷ 9 ∷ 1 ∷ 0 ∷ 0 ∷ 0 ∷ 7 ∷ 9 ∷ 0 ∷ 1 ∷ 108 ∷ 0 ∷ 1 ∷ [] in
    (on_message 5 (MsgType.alarm_up ∷ cut) new_central ≡ (new_central, []))
    × (on_message 5 (MsgType.alarm_up ∷ (cut ++ 120 ∷ [])) new_central
        ≡ on_alarm_up small_alarm new_central)
on_message-alarm_part_example =
    on_message-alarm_part 5 small_alarm
      (0 ∷ 0 ∷ 0 ∷ 3 ∷ 0 ∷ 0 ∷ 0 ∷ 9 ∷ 1 ∷ 0 ∷ 0 ∷ 0 ∷ 7 ∷ 9 ∷ 0 ∷ 1 ∷ 108 ∷ 0 ∷ 1 ∷ []) 120 []
      new_central
      (record {
        region_id = omega arith;
        ts_unix = omega arith;
        device_type = omega arith;
        zone_id = omega arith;
        code = omega arith;
        uri = omega arith;
        text = omega arith;
      })
      (encode_alarm_up_lem small_alarm (omega arith))

-- A region with a lamp in zone 7, and nothing but a sensor in zone 9.
abbrev lamp_and_sensor : RegionAggregate
lamp_and_sensor = record {
  version = 5;
  zone_power_mw = (7, 94000) ∷ [];
  zone_summary =
      (9, record (no_summary 9) { sensor_total = 1 })
      ∷ (7, record (no_summary 7) { lamp_total = 1; lamp_on = 1 })
      ∷ [];
}

abbrev one_region : CentralStore
one_region = record { regions = (3, lamp_and_sensor) ∷ []; alarms = alarm_record lamp_alarm ∷ [] }

-- The sensor is not shown.
print-encode_admin_snapshot_example :
    ((encode_admin_snapshot one_region >>= print_snapshot) ≡ ok (report_of one_region))
    × All
        (λ r. has_line 9 (region_line r).zones ≡ is_known (lookup 9 r.1.zone_power_mw))
        one_region.regions
print-encode_admin_snapshot_example = print-encode_admin_snapshot one_region 9 (record {
  region_count = omega arith;
  regions = (
    record {
      region_id = omega arith;
      version = omega arith;
      zone_count = omega arith;
      powers = omega arith;
      summaries = omega arith;
    },
    tt,
  );
  alarm_count = omega arith;
  alarms = omega arith;
})

abbrev waiting_client : SyncClient
waiting_client = record { region_id = 3; version = 4; phase = waiting }

sync_reaches_central_example :
    let after =
      (on_message 5
        (MsgType.region_sync_up ∷ encode_region_sync_up (sync_message waiting_client two_devices))
        new_central).0 in
    let known = lookup 3 after.store.regions in
    (version_of known ≡ some 5)
    × (power_of 7 known ≡ some 94000)
    × (summary_in 7 known
        ≡ some (record {
          zone_id = 7;
          lamp_total = 1;
          lamp_on = 1;
          lamp_fault = 0;
          sensor_total = 1;
          sensor_fault = 0;
        }))
sync_reaches_central_example =
    sync_reaches_central waiting_client two_devices new_central 5 7 (omega arith) (omega arith)
      (omega arith) (omega arith)

upsert_region_lem_example :
    let after = upsert_region 3 5 ((7, 94000) ∷ []) [] empty_store in
    (version_of (lookup 3 after.regions) ≡ some 5)
    × ((zone : ℕ) → power_of zone (lookup 3 after.regions) ≡ lookup zone ((7, 94000) ∷ []))
    × ((zone : ℕ) → summary_in zone (lookup 3 after.regions) ≡ find_summary zone [])
    × ((other : ℕ)
        → eqb 3 other ≡ false
        → lookup other after.regions ≡ lookup other empty_store.regions)
unfolding lookup
upsert_region_lem_example = upsert_region_lem 3 5 ((7, 94000) ∷ []) [] empty_store (refl, tt) tt

-- The third operation fails.
abbrev resolving_client : SyncClient
resolving_client = record { region_id = 3; version = 5; phase = resolving one_zone }

abbrev events : List (Registry × Outcome)
events =
    (two_devices, done [])
    ∷ (two_devices, done [])
    ∷ (two_devices, failed)
    ∷ (two_devices, done [])
    ∷ (two_devices, done [])
    ∷ (two_devices, done [])
    ∷ []

attempt_ends_example :
    let c' = attempt resolving_client events in
    (c'.phase ≡ waiting) × (c'.version ≡ 5) × (c'.region_id ≡ 3)
attempt_ends_example = attempt_ends resolving_client events (omega arith) (omega arith)

abbrev a_command : Event
a_command =
    command (record { ts_ms = 1; uri = lamp_uri; region_id = 3; cmd = 1; value = 0; source = [] })

Run-items_example :
    let w = enqueue a_command (start new_writer) in
    let w' = request_stop (worker_round w w.q) in w'.handled ++ w'.q ≡ a_command ∷ []
unfolding enqueue start
Run-items_example = Run-items (request (work (accept a_command begin) refl))

-- The writer has been told to stop, and its worker has been joined.
abbrev joined : DbWriter
joined = let w = request_stop (start new_writer) in worker_round w w.q

accepted_late_example :
    let w1 = enqueue a_command joined in
    let w' = finish_stop w1 in
    (w1.q ≡ joined.q ++ a_command ∷ [])
    × (w'.handled ++ (joined.q ++ a_command ∷ []) ≡ a_command ∷ [])
    × (w'.q ≡ [])
    × (w'.running ≡ false)
unfolding start request_stop
accepted_late_example = accepted_late a_command (work (request begin) refl)

Run-drains_example :
    let o = queue_send 5 (1 ∷ []) (queue_send 2 [] empty_outbox) in
    let o1 = posts 2 o in
    let o2 = writes (suc (length o1.out_q)) o1 in
    (o2.sent ≡ (2, []) ∷ (5, 1 ∷ []) ∷ []) × (o2.writing ≡ false)
unfolding queue_send
Run-drains_example = Run-drains (queue 5 (1 ∷ []) (queue 2 [] Order.begin))

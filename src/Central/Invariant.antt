-- ===== src/Central/Invariant.antt =====
-- The stores that the sessions of central_tls_server.hpp can lead to.
use smart_lighting_system.Base.{
  ℕ, ◌≤◌, ◌≡◌, refl, List, [], ◌∷◌, ◌++◌, ◌+◌, ◌-◌, arith, length, ltb, All-append, All-drop,
  length-drop, eqb, Bool-cases, inl, inr, All, nat_eq, map,
}
use smart_lighting_system.Base.Words.{IsU8, IsU16}
use smart_lighting_system.Base.Assoc.{lookup, insert, insert-All, insert-All_entry, length-insert}
use smart_lighting_system.Proto.Result.{Result, ok, err}
use smart_lighting_system.Proto.MsgType
use smart_lighting_system.Proto.Messages.{Bytes, ZoneDeviceSummary, RegionSyncUp, AlarmUp}
use smart_lighting_system.Proto.Fits.{RegionSyncUpFits, ZonePowerFits, ZoneDeviceSummaryFits}
use smart_lighting_system.Proto.Decode.{decode_region_sync_up, decode_alarm_up}
use smart_lighting_system.Proto.Ranges.{decode_region_sync_up-Fits, decode_alarm_up-Fits}
use smart_lighting_system.Central.{
  AlarmRecord, CentralStore, Central, OutMsg, max_alarms, push_alarm, upsert_region, assign_powers,
  assign_summaries, encode_admin_snapshot, on_region_sync_up, on_alarm_up, or_caught, on_message,
  alarm_record, empty_store,
}
use smart_lighting_system.Central.Snapshot.{
  RegionFits, AlarmFits, StoreFits, encode_admin_snapshot_lem,
}
use smart_lighting_system.AdminCli.{Report, print_snapshot}
use smart_lighting_system.AdminCli.RoundTrip.{
  region_line, report_of, has_line, is_known, print-encode_admin_snapshot,
}

-- All that the snapshot needs but a bound on the number of regions.
pub record IsSound (s : CentralStore) : Type 0 where
  pub regions : All RegionFits s.regions
  pub alarm_count : length s.alarms ≤ max_alarms
  pub alarms : All AlarmFits s.alarms

assign_powers-Fits :
    (zs m : List (ℕ × ℕ))
    → All ZonePowerFits zs
    → All ZonePowerFits m
    → All ZonePowerFits (assign_powers m zs)
unfolding assign_powers
assign_powers-Fits [] m hz hm = hm
assign_powers-Fits (z ∷ zs) m hz hm =
    assign_powers-Fits zs (insert z.0 z.1 m) hz.1 (insert-All_entry ZonePowerFits z.0 z.1 m hz.0 hm)

length-assign_powers : (zs m : List (ℕ × ℕ)) → length (assign_powers m zs) ≤ length zs + length m
unfolding assign_powers
length-assign_powers [] m = omega arith
length-assign_powers (z ∷ zs) m =
    omega (arith, length-assign_powers zs (insert z.0 z.1 m), length-insert z.0 z.1 m)

assign_summaries-Fits :
    (ss : List ZoneDeviceSummary) (m : List (ℕ × ZoneDeviceSummary))
    → All ZoneDeviceSummaryFits ss
    → All (λ kv. ZoneDeviceSummaryFits kv.1) m
    → All (λ kv. ZoneDeviceSummaryFits kv.1) (assign_summaries m ss)
unfolding assign_summaries
assign_summaries-Fits [] m hs hm = hm
assign_summaries-Fits (s ∷ ss) m hs hm =
    assign_summaries-Fits ss (insert s.zone_id s m) hs.1
      (insert-All ZoneDeviceSummaryFits s.zone_id s m hs.0 hm)

upsert_region-IsSound :
    (up : RegionSyncUp) (s : CentralStore)
    → RegionSyncUpFits up
    → IsSound s
    → IsSound (upsert_region up.region_id up.version up.zone_power_sum up.zone_device_summary s)
unfolding upsert_region
upsert_region-IsSound up s f h = record {
  regions =
      insert-All_entry RegionFits up.region_id _ s.regions
        (record {
          region_id = f.region_id;
          version = f.version;
          zone_count = omega (arith, length-assign_powers up.zone_power_sum [], f.power_count);
          powers = assign_powers-Fits up.zone_power_sum [] f.powers tt;
          summaries = assign_summaries-Fits up.zone_device_summary [] f.summaries tt;
        })
        h.regions;
  alarm_count = h.alarm_count;
  alarms = h.alarms;
}

push_alarm-IsSound :
    (a : AlarmRecord) (s : CentralStore) → AlarmFits a → IsSound s → IsSound (push_alarm a s)
unfolding push_alarm
push_alarm-IsSound a s f h =
    let all : List AlarmRecord = s.alarms ++ a ∷ [] in
    let fits : All AlarmFits all = All-append AlarmFits s.alarms (a ∷ []) h.alarms (f, tt) in
    elim (Bool-cases (ltb max_alarms (length all))) [
      | inl e ↦ rw e (record {
        regions = h.regions;
        alarm_count = ground (arith, length-drop (length all - max_alarms) all);
        alarms = All-drop AlarmFits (length all - max_alarms) all fits;
      })
      | inr e ↦ rw e (record { regions = h.regions; alarm_count = ground arith; alarms = fits })
    ]

-- Whatever bytes a session receives, the store stays sound.
pub on_message-IsSound :
    (ts : ℕ) (body : Bytes) (c : Central)
    → All IsU8 body
    → IsSound c.store
    → IsSound (on_message ts body c).0.store
unfolding on_message on_region_sync_up on_alarm_up
on_message-IsSound ts [] c u h = h
on_message-IsSound ts (t ∷ p) c u h = elim (Bool-cases (eqb t MsgType.region_sync_up)) [
  | inl e ↦ rw e (synced (decode_region_sync_up p) refl)
  | inr e ↦ elim (Bool-cases (eqb t MsgType.alarm_up)) [
    | inl e' ↦ rw (e, e') (alarmed (decode_alarm_up p) refl)
    | inr e' ↦ elim (Bool-cases (eqb t MsgType.admin_snapshot_req)) [
      | inl e'' ↦ rw (e, e', e'') (asked (encode_admin_snapshot c.store))
      | inr e'' ↦ rw (e, e', e'') h
    ]
  ]
]
  where
    synced :
        (r : Result RegionSyncUp)
        → decode_region_sync_up p ≡ r
        → IsSound (or_caught r c (λ up. on_region_sync_up ts up c)).0.store
    synced (ok up) e = upsert_region-IsSound up c.store (decode_region_sync_up-Fits p up u.1 e) h
    synced (err x) e = h

    alarmed :
        (r : Result AlarmUp)
        → decode_alarm_up p ≡ r
        → IsSound (or_caught r c (λ up. on_alarm_up up c)).0.store
    alarmed (ok up) e =
        let f = decode_alarm_up-Fits p up u.1 e in
        push_alarm-IsSound (alarm_record up) c.store
          (record {
            region_id = f.region_id;
            ts_unix = f.ts_unix;
            device_type = f.device_type;
            zone_id = f.zone_id;
            code = f.code;
            uri = f.uri;
            text = f.text;
          })
          h
    alarmed (err x) e = h

    asked :
        (r : Result Bytes)
        → IsSound
            (or_caught r c (λ payload. (c, (MsgType.admin_snapshot_ack, payload) ∷ []))).0.store
    asked (ok x) = h
    asked (err x) = h

-- The bodies that the sessions of the server receive, in the order in which it handles them, each with
-- the time stamp of its database event.
unfoldable pub serve : List (ℕ × Bytes) → Central → Central
serve [] c = c
serve ((ts, body) ∷ rest) c = serve rest (on_message ts body c).0

pub serve-IsSound :
    (bodies : List (ℕ × Bytes)) (c : Central)
    → All (λ b. All IsU8 b.1) bodies
    → IsSound c.store
    → IsSound (serve bodies c).store
unfolding serve
serve-IsSound [] c u h = h
serve-IsSound ((ts, body) ∷ rest) c u h =
    serve-IsSound rest (on_message ts body c).0 u.1 (on_message-IsSound ts body c u.0 h)

-- A message, and what the administrator reads in its payload.
abbrev pub read_answer : OutMsg → ℕ × Result Report
read_answer m = (m.0, print_snapshot m.1)

-- From an empty store, and after any bytes on any of its sessions, a server that knows less than 2^16
-- regions answers ADMIN_SNAPSHOT_REQ with a snapshot in which the administrator reads every region with
-- its version, each of its zones that has an entry of power with its power and its counts, and every
-- alarm, in the order of the store. A zone has a line exactly if it has an entry of power: one of which
-- the store holds only counts is not shown.
pub served_snapshot :
    (ts zone : ℕ) (bodies : List (ℕ × Bytes)) (c : Central)
    → All (λ b. All IsU8 b.1) bodies
    → c.store ≡ empty_store
    → IsU16 (length (serve bodies c).store.regions)
    → let c' = serve bodies c in
      (map read_answer (on_message ts (MsgType.admin_snapshot_req ∷ []) c').1
        ≡ (MsgType.admin_snapshot_ack, ok (report_of c'.store)) ∷ [])
      × All
          (λ r. has_line zone (region_line r).zones ≡ is_known (lookup zone r.1.zone_power_mw))
          c'.store.regions
unfolding on_message
served_snapshot ts zone bodies c u e n =
    let c' = serve bodies c in
    let sound =
      serve-IsSound bodies c u
        (rw e (record { regions = tt; alarm_count = omega arith; alarms = tt })) in
    let fits : StoreFits c'.store = record {
      region_count = n;
      regions = sound.regions;
      alarm_count = sound.alarm_count;
      alarms = sound.alarms;
    } in
    let printed = print-encode_admin_snapshot c'.store zone fits in
    let bytes = encode_admin_snapshot_lem c'.store fits in
    let printed' = rw bytes at printed.0 in (rw bytes (rw printed' refl), printed.1)

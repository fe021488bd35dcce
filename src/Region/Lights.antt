-- ===== src/Region/Lights.antt =====
-- The loops of regional_server.cpp over the lamps of a zone, as one lamp's session sees them.
use smart_lighting_system.Base.{
  ℕ, ◌≡◌, ◌≢◌, refl, ap, ◌∙◌, inl, inr, true, false, Bool-cases, List, [], ◌∷◌, Option, none, some,
  nat_eq, bytes_key, bytes_eq_iff, ◌==◌, contains, arith, if◌then◌else◌,
}
use smart_lighting_system.Base.Assoc.{lookup, insert}
use smart_lighting_system.Proto.Result.{ok}
use smart_lighting_system.Proto.MsgType
use smart_lighting_system.Proto.Messages.{Bytes}
use smart_lighting_system.Proto.Encode.{encode_command}
use smart_lighting_system.Registry.{DeviceState, get, get_lamps_in_zone, upsert, or_zero}
use smart_lighting_system.Registry.Lamps.{NoRepeat}
use smart_lighting_system.Fsm.Server.{normal_operation}
use smart_lighting_system.Region.{Clock, DeviceSession, Region}
use smart_lighting_system.Region.Session.{is_empty, send_cmd_to_uri}
use smart_lighting_system.Region.Motion.{
  is_normal, switch_on_lamps, switch_off_lamps, on_motion_on, on_motion_off, cmd_switch_on,
  cmd_switch_off, cmd_set_intensity,
}
use smart_lighting_system.Region.Telemetry.{sensor_state, motion_edge, on_telemetry}
use smart_lighting_system.Region.Serves.{Serves, with_posted, send_own-Serves, send_other-Serves}

-- A loop over uris.
abbrev for_each : (Bytes → Region → Region) → List Bytes → Region → Region
for_each body [] r = r
for_each body (u ∷ us) r = for_each body us (body u r)

-- A loop whose body changes the session of its own lamp only changes a session once at most.
module _ (uri : Bytes) (id : ℕ) (s s' : DeviceSession) (body : Bytes → Region → Region)
    (own : (r : Region) → Serves uri id s r → Serves uri id s' (body uri r))
    (other : (u : Bytes) (t : DeviceSession) (r : Region)
      → u ≢ uri
      → Serves uri id t r
      → Serves uri id t (body u r)) where
  for_each_other-Serves :
      (t : DeviceSession) (us : List Bytes) (r : Region)
      → contains uri us ≡ false
      → Serves uri id t r
      → Serves uri id t (for_each body us r)
  for_each_other-Serves t [] r c h = h
  for_each_other-Serves t (u ∷ us) r c h =
      for_each_other-Serves t us (body u r) (ground arith)
        (other u t r (λ q. ground (arith, (bytes_eq_iff u uri).1 q)) h)

  for_each-Serves :
      (us : List Bytes) (r : Region)
      → NoRepeat us
      → contains uri us ≡ true
      → Serves uri id s r
      → Serves uri id s' (for_each body us r)
  for_each-Serves [] r n c h = cc
  for_each-Serves (u ∷ us) r n c h = elim (Bool-cases (u == uri)) [
    | inl e ↦
        let q : u ≡ uri = (bytes_eq_iff u uri).0 e in
        rw q (for_each_other-Serves s' us (body uri r) (rw (← q) n.0) (own r h))
    | inr e ↦
        for_each-Serves us (body u r) n.1 (ground arith)
          (other u s r (λ q. ground (arith, (bytes_eq_iff u uri).1 q)) h)
  ]

abbrev switch_on_lamp : Bytes → Region → Region
switch_on_lamp u r =
    (send_cmd_to_uri u cmd_set_intensity 60 (send_cmd_to_uri u cmd_switch_on 0 r).0).0

abbrev switch_off_lamp : Bytes → Region → Region
switch_off_lamp u r = (send_cmd_to_uri u cmd_switch_off 0 r).0

switch_on_lamps_lem :
    (us : List Bytes) (r : Region) → switch_on_lamps us r ≡ for_each switch_on_lamp us r
unfolding switch_on_lamps
switch_on_lamps_lem [] r = refl
switch_on_lamps_lem (u ∷ us) r = switch_on_lamps_lem us (switch_on_lamp u r)

switch_off_lamps_lem :
    (us : List Bytes) (r : Region) → switch_off_lamps us r ≡ for_each switch_off_lamp us r
unfolding switch_off_lamps
switch_off_lamps_lem [] r = refl
switch_off_lamps_lem (u ∷ us) r = switch_off_lamps_lem us (switch_off_lamp u r)

on_motion_on_lem :
    (zone : ℕ) (r : Region)
    → r.fsm ≡ normal_operation
    → on_motion_on zone r ≡ for_each switch_on_lamp (get_lamps_in_zone zone r.reg) r
unfolding on_motion_on
on_motion_on_lem zone r e =
    ap (λ f. if is_normal f then switch_on_lamps (get_lamps_in_zone zone r.reg) r else r) e
    ∙ switch_on_lamps_lem (get_lamps_in_zone zone r.reg) r

on_motion_off_lem :
    (zone : ℕ) (r : Region)
    → r.fsm ≡ normal_operation
    → on_motion_off zone r ≡ for_each switch_off_lamp (get_lamps_in_zone zone r.reg) r
unfolding on_motion_off
on_motion_off_lem zone r e =
    ap (λ f. if is_normal f then switch_off_lamps (get_lamps_in_zone zone r.reg) r else r) e
    ∙ switch_off_lamps_lem (get_lamps_in_zone zone r.reg) r

-- The commands that a lamp's session is given.
abbrev pub Told : ℕ → ℕ → Bytes → DeviceSession → Type 0
Told cmd value p s = encode_command (record { uri = s.uri; cmd = cmd; value = value }) ≡ ok p

module _ (uri : Bytes) (id zone : ℕ) (s : DeviceSession) (p : Bytes)
    (named : is_empty s.uri ≡ false) where
  pub on_motion_on-Serves :
      (q : Bytes) (r : Region)
      → Told cmd_switch_on 0 p s
      → Told cmd_set_intensity 60 q s
      → r.fsm ≡ normal_operation
      → NoRepeat (get_lamps_in_zone zone r.reg)
      → contains uri (get_lamps_in_zone zone r.reg) ≡ true
      → Serves uri id s r
      → Serves uri id
          (with_posted MsgType.cmd q (with_posted MsgType.cmd p s))
          (on_motion_on zone r)
  on_motion_on-Serves q r tp tq e n c h =
      let lamps : List Bytes = get_lamps_in_zone zone r.reg in
      rw (on_motion_on_lem zone r e) (
        for_each-Serves uri id s (with_posted MsgType.cmd q (with_posted MsgType.cmd p s))
          switch_on_lamp
          (λ r0 h0.
            send_own-Serves uri id cmd_set_intensity 60 (with_posted MsgType.cmd p s) q _ named tq
              (send_own-Serves uri id cmd_switch_on 0 s p r0 named tp h0))
          (λ u t r0 d h0.
            send_other-Serves uri u id cmd_set_intensity 60 t _ d
              (send_other-Serves uri u id cmd_switch_on 0 t r0 d h0))
          lamps r n c h)

  pub on_motion_off-Serves :
      (r : Region)
      → Told cmd_switch_off 0 p s
      → r.fsm ≡ normal_operation
      → NoRepeat (get_lamps_in_zone zone r.reg)
      → contains uri (get_lamps_in_zone zone r.reg) ≡ true
      → Serves uri id s r
      → Serves uri id (with_posted MsgType.cmd p s) (on_motion_off zone r)
  on_motion_off-Serves r tp e n c h =
      let lamps : List Bytes = get_lamps_in_zone zone r.reg in
      rw (on_motion_off_lem zone r e) (
        for_each-Serves uri id s (with_posted MsgType.cmd p s) switch_off_lamp
          (λ r0 h0. send_own-Serves uri id cmd_switch_off 0 s p r0 named tp h0)
          (λ u t r0 d h0. send_other-Serves uri u id cmd_switch_off 0 t r0 d h0) lamps r n c h)

-- A reading of a sensor leaves the lists of lamps as they are.
lamps_upsert_sensor :
    (sensor : Bytes) (zone z now : ℕ) (o : Option DeviceState) (r : Region)
    → get_lamps_in_zone z (upsert sensor (sensor_state o zone now) r.reg)
      ≡ get_lamps_in_zone z r.reg
unfolding get_lamps_in_zone upsert sensor_state
lamps_upsert_sensor sensor zone z now none r = refl
lamps_upsert_sensor sensor zone z now (some st) r = refl

with_reading : Bytes → ℕ → Clock → Region → Region
with_reading sensor zone clock r = record r {
  reg = upsert sensor (sensor_state (get sensor r.reg) zone clock.now_ms) r.reg;
}

on_rise_lem :
    (sensor : Bytes) (zone : ℕ) (clock : Clock) (r : Region)
    → or_zero (lookup sensor r.last_motion) ≡ 0
    → let r1 = on_motion_on zone (with_reading sensor zone clock r) in
      on_telemetry sensor zone 1 clock r
      ≡ record r1 { last_motion = insert sensor 1 r1.last_motion }
unfolding on_telemetry motion_edge with_reading
on_rise_lem sensor zone clock r e = rw e refl

on_fall_lem :
    (sensor : Bytes) (zone : ℕ) (clock : Clock) (r : Region)
    → or_zero (lookup sensor r.last_motion) ≡ 1
    → let r1 = on_motion_off zone (with_reading sensor zone clock r) in
      on_telemetry sensor zone 0 clock r
      ≡ record r1 { last_motion = insert sensor 0 r1.last_motion }
unfolding on_telemetry motion_edge with_reading
on_fall_lem sensor zone clock r e = rw e refl

module _ (uri sensor : Bytes) (id zone : ℕ) (s : DeviceSession) (p : Bytes) (clock : Clock)
    (r : Region) (named : is_empty s.uri ≡ false) (normal : r.fsm ≡ normal_operation)
    (no_repeat : NoRepeat (get_lamps_in_zone zone r.reg))
    (listed : contains uri (get_lamps_in_zone zone r.reg) ≡ true) (serves : Serves uri id s r) where
  same_lamps :
      get_lamps_in_zone zone (with_reading sensor zone clock r).reg ≡ get_lamps_in_zone zone r.reg
  unfolding with_reading
  same_lamps = lamps_upsert_sensor sensor zone zone clock.now_ms (get sensor r.reg) r

  read-Serves : Serves uri id s (with_reading sensor zone clock r)
  unfolding with_reading
  read-Serves = record { entry = serves.entry; session = serves.session; own = serves.own }

  -- A rising edge in the zone.
  pub rise-Serves :
      (q : Bytes)
      → Told cmd_switch_on 0 p s
      → Told cmd_set_intensity 60 q s
      → or_zero (lookup sensor r.last_motion) ≡ 0
      → Serves uri id
          (with_posted MsgType.cmd q (with_posted MsgType.cmd p s))
          (on_telemetry sensor zone 1 clock r)
  rise-Serves q tp tq e =
      let h =
        on_motion_on-Serves uri id zone s p named q (with_reading sensor zone clock r) tp tq
          (unfold with_reading in normal) (rw same_lamps no_repeat) (rw same_lamps listed)
          read-Serves in
      rw (on_rise_lem sensor zone clock r e)
        (record { entry = h.entry; session = h.session; own = h.own })

  -- A falling edge in the zone.
  pub fall-Serves :
      Told cmd_switch_off 0 p s
      → or_zero (lookup sensor r.last_motion) ≡ 1
      → Serves uri id (with_posted MsgType.cmd p s) (on_telemetry sensor zone 0 clock r)
  fall-Serves tp e =
      let h =
        on_motion_off-Serves uri id zone s p named (with_reading sensor zone clock r) tp
          (unfold with_reading in normal) (rw same_lamps no_repeat) (rw same_lamps listed)
          read-Serves in
      rw (on_fall_lem sensor zone clock r e)
        (record { entry = h.entry; session = h.session; own = h.own })

-- ===== src/Sensor/Timers.antt =====
-- The timers of sensor_udp.cpp: what holds between two handlers.
use mathlib.Core.Path.{subst}
use smart_lighting_system.Base.{
  ℕ, zero, suc, ◌+◌, ◌<◌, ◌≡◌, refl, ap, inl, inr, Bool, true, false, ◌&&◌, ◌||◌, Bool-cases, List,
  [], ◌∷◌, ltb, leb, arith,
}
use smart_lighting_system.Fsm.{allows}
use smart_lighting_system.Fsm.Sensor.{
  SensorState, idle, unregistered, registering, active, fault, switch_to, to_string,
}
use smart_lighting_system.Sensor.Loop.{
  Config, Sensor, Event, ack, reset, tick, boot, switch_fsm, on_ack, on_fault_reset,
  arm_fault_reset, to_fault, simulate_fault, report_event, measure, end_tick, heartbeat_due,
  motion_rise, motion_fall, lux_changed, temp_changed, on_tick, handle, run, motion_at, lux_at,
  temp_at,
}

-- The timers that the state needs: the sensor is never stuck, and a reset timer runs in FAULT only.
abbrev pub Armed : Config → SensorState → Bool → Bool → Type 0
Armed c registering ack_demo fault_reset = (ack_demo ≡ true) × (fault_reset ≡ false)
Armed c active ack_demo fault_reset = (ack_demo ≡ false) × (fault_reset ≡ false)
Armed c fault ack_demo fault_reset =
    (ack_demo ≡ false) × (fault_reset ≡ ltb 0 c.fault_reset_after_s) × (0 < c.fault_prob_per_mille)
Armed c _ ack_demo fault_reset = ⊥

-- The last readings are those of the second before, or the first ones.
abbrev pub Before : ℕ → ℕ → ℕ → ℕ → Type 0
Before zero prev_lux prev_motion prev_temp_x10 =
    (prev_lux ≡ 200) × (prev_motion ≡ 0) × (prev_temp_x10 ≡ 235)
Before (suc t) prev_lux prev_motion prev_temp_x10 =
    (prev_lux ≡ lux_at t) × (prev_motion ≡ motion_at t) × (prev_temp_x10 ≡ temp_at t)

pub record IsRunning (c : Config) (s : Sensor) : Type 0 where
  pub armed : Armed c s.fsm s.ack_demo s.fault_reset
  pub before : Before s.seconds_elapsed s.prev_lux s.prev_motion s.prev_temp_x10

pub boot-IsRunning : (c : Config) → IsRunning c boot
unfolding boot switch_fsm switch_to allows to_string
boot-IsRunning c = record { armed = (refl, refl); before = (refl, refl, refl) }

-- A handler is checked on each state.
abbrev in_state : SensorState → Bool → Bool → Sensor → Sensor
in_state f a b s = record s { fsm = f; ack_demo = a; fault_reset = b }

on_ack-IsRunning :
    (c : Config) (f : SensorState) (b : Bool) (s : Sensor)
    → IsRunning c (in_state f true b s)
    → IsRunning c (on_ack (in_state f true b s))
unfolding on_ack switch_fsm switch_to allows to_string
on_ack-IsRunning c registering b s h = record { armed = (refl, h.armed.1); before = h.before }
on_ack-IsRunning c active b s h = cc
on_ack-IsRunning c fault b s h = cc
on_ack-IsRunning c idle b s h = absurd h.armed
on_ack-IsRunning c unregistered b s h = absurd h.armed

on_fault_reset-IsRunning :
    (c : Config) (f : SensorState) (a : Bool) (s : Sensor)
    → IsRunning c (in_state f a true s)
    → IsRunning c (on_fault_reset (in_state f a true s))
unfolding on_fault_reset switch_fsm switch_to allows to_string
on_fault_reset-IsRunning c fault a s h = record { armed = (h.armed.0, refl); before = h.before }
on_fault_reset-IsRunning c registering a s h = cc
on_fault_reset-IsRunning c active a s h = cc
on_fault_reset-IsRunning c idle a s h = absurd h.armed
on_fault_reset-IsRunning c unregistered a s h = absurd h.armed

-- In the middle of a tick, after the measurements of the second `t`.
record Measured (c : Config) (t : ℕ) (s : Sensor) : Type 0 where
  armed : Armed c s.fsm s.ack_demo s.fault_reset
  lux : s.lux ≡ lux_at t
  motion : s.motion ≡ motion_at t
  temp : s.temp_x10 ≡ temp_at t
  now : s.seconds_elapsed ≡ t

arm_lem :
    (c : Config) (s : Sensor)
    → s.fault_reset ≡ false
    → arm_fault_reset c s ≡ record s { fault_reset = ltb 0 c.fault_reset_after_s }
unfolding arm_fault_reset
arm_lem c s e = elim (Bool-cases (ltb 0 c.fault_reset_after_s)) [
  | inl p ↦ rw p refl
  | inr p ↦ rw p (ap (λ b. record s { fault_reset = b }) e)
]

simulate_fault-Measured :
    (c : Config) (draw t : ℕ) (f : SensorState) (a b : Bool) (s : Sensor)
    → Measured c t (in_state f a b s)
    → Measured c t (simulate_fault c draw (in_state f a b s)).0
unfolding simulate_fault switch_to to_fault allows to_string
simulate_fault-Measured c draw t active a b s h =
    elim (Bool-cases (ltb 0 c.fault_prob_per_mille && leb draw c.fault_prob_per_mille)) [
      | inl p ↦
          rw (p, arm_lem c (in_state fault a b s) h.armed.1)
            (record {
              armed = (h.armed.0, refl, ground arith);
              lux = h.lux;
              motion = h.motion;
              temp = h.temp;
              now = h.now;
            })
      | inr p ↦ rw p h
    ]
simulate_fault-Measured c draw t registering a b s h = h
simulate_fault-Measured c draw t fault a b s h = h
simulate_fault-Measured c draw t idle a b s h = h
simulate_fault-Measured c draw t unregistered a b s h = h

report_event-Measured :
    (c : Config) (event due : Bool) (t : ℕ) (f : SensorState) (a b : Bool) (s : Sensor)
    → Measured c t (in_state f a b s)
    → Measured c t (report_event c event due (in_state f a b s)).0
unfolding report_event switch_fsm switch_to allows to_string
report_event-Measured c true true t active a b s h = record {
  armed = h.armed;
  lux = h.lux;
  motion = h.motion;
  temp = h.temp;
  now = h.now;
}
report_event-Measured c true false t active a b s h = h
report_event-Measured c false due t active a b s h = h
report_event-Measured c event due t registering a b s h = h
report_event-Measured c event due t fault a b s h = h
report_event-Measured c event due t idle a b s h = h
report_event-Measured c event due t unregistered a b s h = h

pub on_tick-IsRunning :
    (c : Config) (draw : ℕ) (s : Sensor) → IsRunning c s → IsRunning c (on_tick c draw s).0
unfolding on_tick measure
on_tick-IsRunning c draw s0 h =
    let s : Sensor = measure s0 in
    let due : Bool = heartbeat_due c s in
    let event : Bool =
      motion_rise s || motion_fall s || lux_changed c s || temp_changed c s || due in
    let s1 : Sensor = (simulate_fault c draw s).0 in
    let m1 : Measured c s0.seconds_elapsed s1 =
      simulate_fault-Measured c draw s0.seconds_elapsed s.fsm s.ack_demo s.fault_reset s
        (record { armed = h.armed; lux = refl; motion = refl; temp = refl; now = refl }) in
    ended (report_event c event due s1).0
      (report_event-Measured c event due s0.seconds_elapsed s1.fsm s1.ack_demo s1.fault_reset s1 m1)
  where
    ended : (s2 : Sensor) → Measured c s0.seconds_elapsed s2 → IsRunning c (end_tick s2)
    ended s2 m =
        unfold end_tick in
        record {
          armed = m.armed;
          before =
              let next : suc s0.seconds_elapsed ≡ s2.seconds_elapsed + 1 = omega (arith, m.now) in
              subst (λ n. Before n s2.lux s2.motion s2.temp_x10) next (m.lux, m.motion, m.temp);
        }

ack-IsRunning :
    (c : Config) (a : Bool) (s : Sensor)
    → IsRunning c (record s { ack_demo = a })
    → IsRunning c (handle c ack (record s { ack_demo = a })).0
unfolding handle
ack-IsRunning c true s h = on_ack-IsRunning c s.fsm s.fault_reset s h
ack-IsRunning c false s h = h

reset-IsRunning :
    (c : Config) (b : Bool) (s : Sensor)
    → IsRunning c (record s { fault_reset = b })
    → IsRunning c (handle c reset (record s { fault_reset = b })).0
unfolding handle
reset-IsRunning c true s h = on_fault_reset-IsRunning c s.fsm s.ack_demo s h
reset-IsRunning c false s h = h

pub handle-IsRunning :
    (c : Config) (e : Event) (s : Sensor) → IsRunning c s → IsRunning c (handle c e s).0
unfolding handle
handle-IsRunning c (tick draw) s h = on_tick-IsRunning c draw s h
handle-IsRunning c ack s h = ack-IsRunning c s.ack_demo s h
handle-IsRunning c reset s h = reset-IsRunning c s.fault_reset s h

run-IsRunning :
    (c : Config) (events : List Event) (s : Sensor) → IsRunning c s → IsRunning c (run c events s).0
unfolding run
run-IsRunning c [] s h = h
run-IsRunning c (e ∷ rest) s h = run-IsRunning c rest (handle c e s).0 (handle-IsRunning c e s h)

-- After any sequence of events from boot, with any draws, the sensor is in REGISTERING with the timer
-- of the acknowledgement running, in ACTIVE, or in FAULT with the reset timer running if the command
-- line sets one, and in FAULT only if it sets a probability; no other timer of the two runs. The
-- readings that it compares with are those of the second before, whatever was sent.
pub always-IsRunning : (c : Config) (events : List Event) → IsRunning c (run c events boot).0
always-IsRunning c events = run-IsRunning c events boot (boot-IsRunning c)

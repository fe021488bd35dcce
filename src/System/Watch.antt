-- ===== src/System/Watch.antt =====
-- A sensor of sensor_udp.cpp through many seconds, with the telemetry server.
use smart_lighting_system.Base.{
  ◌+◌, length, ℕ, zero, suc, ◌≡◌, refl, ap, ◌∙◌, false, List, [], ◌∷◌, Option, none, some,
  bytes_key, take, All, arith,
}
use smart_lighting_system.Fsm.{allows}
use smart_lighting_system.Fsm.Sensor.{SensorState, active, switch_to, to_string}
use smart_lighting_system.Region.{Clock, Region}
use smart_lighting_system.Sensor.Loop.{
  Config, Sensor, motion_at, switch_fsm, on_tick, handle, ack, boot, on_ack,
}
use smart_lighting_system.Sensor.Timers.{
  IsRunning, Before, on_tick-IsRunning, handle-IsRunning, boot-IsRunning,
}
use smart_lighting_system.System.Motion.{Named}
use smart_lighting_system.System.Sensing.{
  deliver, last_motion, Synced, Before-IsBit, is_fault_drawn, on_tick_active, Agreed, tick-Agreed,
}

abbrev then_watch : (Region → Option (Sensor × Region)) → Option Region → Option (Sensor × Region)
then_watch f none = none
then_watch f (some r) = f r

-- The seconds of a sensor, with their draws, and the server that its datagrams reach.
pub watch : Config → List (ℕ × Clock) → Sensor → Region → Option (Sensor × Region)
watch c [] s r = some (s, r)
watch c ((draw, clock) ∷ rest) s r =
    let (s1, sent) = on_tick c draw s in then_watch (watch c rest s1) (deliver sent clock r)

-- No second of a list draws a fault.
abbrev pub Quiet : Config → List (ℕ × Clock) → Type 0
Quiet c ticks = All (λ (draw, clock). is_fault_drawn c draw ≡ false) ticks

-- The last motion that a sensor saw in its first seconds.
abbrev pub motion_before : ℕ → ℕ
motion_before zero = 0
motion_before (suc t) = motion_at t

abbrev BothAgree : Config → ℕ → Option (Sensor × Region) → Type 0
BothAgree c n none = ⊥
BothAgree c n (some (s, r)) =
    (s.fsm ≡ active) × (s.seconds_elapsed ≡ n) × (last_motion (take 47 c.uri) r ≡ motion_before n)

Before-motion : (t a m b : ℕ) → Before t a m b → m ≡ motion_before t
Before-motion zero a m b h = h.1
Before-motion (suc t) a m b h = h.1

-- One second, and what comes after it.
watch_step :
    (c : Config) (draw n : ℕ) (clock : Clock) (rest : List (ℕ × Clock)) (f : SensorState)
    (s0 : Sensor) (r : Region)
    → Named c.uri c.zone
    → is_fault_drawn c draw ≡ false
    → IsRunning c (record s0 { fsm = f })
    → f ≡ active
    → Synced c s0 r
    → ((s1 : Sensor) (r1 : Region)
        → IsRunning c s1
        → s1.fsm ≡ active
        → s1.seconds_elapsed ≡ s0.seconds_elapsed + 1
        → Synced c s1 r1
        → BothAgree c n (watch c rest s1 r1))
    → BothAgree c n (watch c ((draw, clock) ∷ rest) (record s0 { fsm = f }) r)
unfolding watch
watch_step c draw n clock rest active s0 r m q v a h ih =
    let s : Sensor = record s0 { fsm = active } in
    let t = on_tick_active c draw s0 q in
    let p = Before-IsBit s0.seconds_elapsed s0.prev_lux s0.prev_motion s0.prev_temp_x10 v.before in
    go (deliver (on_tick c draw s).1 clock r) (tick-Agreed c draw clock s0 r m q p h)
      (λ r1. ih (on_tick c draw s).0 r1 (on_tick-IsRunning c draw s v) t.0 t.2)
  where
    go :
        (o : Option Region)
        → let s1 = (on_tick c draw (record s0 { fsm = active })).0 in
          Agreed c s1 o
          → ((r1 : Region) → Synced c s1 r1 → BothAgree c n (watch c rest s1 r1))
          → BothAgree c n (then_watch (watch c rest s1) o)
    go none k ih = absurd k
    go (some r1) k ih = ih r1 k
watch_step c draw n clock rest _ s0 r m q v a h ih = cc

watch-BothAgree :
    (c : Config) (k : ℕ) (ticks : List (ℕ × Clock)) (s : Sensor) (r : Region)
    → Named c.uri c.zone
    → Quiet c ticks
    → IsRunning c s
    → s.fsm ≡ active
    → Synced c s r
    → s.seconds_elapsed + length ticks ≡ k
    → BothAgree c k (watch c ticks s r)
unfolding watch
watch-BothAgree c k [] s r n q v a h e =
    let same : s.seconds_elapsed ≡ k = omega (arith, e) in
    (
      a,
      same,
      h
          ∙ Before-motion s.seconds_elapsed s.prev_lux s.prev_motion s.prev_temp_x10 v.before
          ∙ ap motion_before same,
    )
watch-BothAgree c k ((draw, clock) ∷ rest) s r n q v a h e =
    watch_step c draw k clock rest s.fsm s r n q.0 v a h
      (λ s1 r1 v1 a1 e1 h1. watch-BothAgree c k rest s1 r1 n q.1 v1 a1 h1 (omega (arith, e, e1)))

-- A sensor that has been acknowledged, draws no fault, has a uri without NUL and a zone of 32 bits, and
-- whose datagrams all arrive, is defined and in ACTIVE after any number of seconds, and the telemetry
-- server, which held no motion for it, then holds the motion of its last second, though the sensor
-- sends nothing in a second without an event.
pub watch_lem :
    (c : Config) (ticks : List (ℕ × Clock)) (r : Region)
    → Named c.uri c.zone
    → Quiet c ticks
    → last_motion (take 47 c.uri) r ≡ 0
    → (s : Sensor) × (r' : Region) × (watch c ticks (handle c ack boot).0 r ≡ some (s, r'))
      × (s.fsm ≡ active)
      × (s.seconds_elapsed ≡ length ticks)
      × (last_motion (take 47 c.uri) r' ≡ motion_before (length ticks))
unfolding boot handle on_ack switch_fsm switch_to allows to_string
watch_lem c ticks r n q h =
    let s : Sensor = (handle c ack boot).0 in
    let v = handle-IsRunning c ack boot (boot-IsRunning c) in
    found (watch c ticks s r)
      (watch-BothAgree c (length ticks) ticks s r n q v refl h (omega arith)) refl
  where
    found :
        (o : Option (Sensor × Region))
        → BothAgree c (length ticks) o
        → watch c ticks (handle c ack boot).0 r ≡ o
        → (s : Sensor) × (r' : Region) × (watch c ticks (handle c ack boot).0 r ≡ some (s, r'))
          × (s.fsm ≡ active)
          × (s.seconds_elapsed ≡ length ticks)
          × (last_motion (take 47 c.uri) r' ≡ motion_before (length ticks))
    found none k e = absurd k
    found (some (s, r')) k e = (s, r', e, k.0, k.1, k.2)

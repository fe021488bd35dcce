-- ===== src/Registry/CommLost.antt =====
-- `detect_comm_lost`: which devices it reports and marks.
use smart_lighting_system.Base.{
  ℕ, ◌+◌, ◌-◌, ◌^◌, ◌≤◌, ◌<◌, ◌≡◌, refl, ap, ◌∙◌, inl, inr, Bool, true, false, not, ◌&&◌, Option,
  none, some, [], ◌∷◌, arith, ltb, contains, bytes_key, bytes_eq_iff, ◌==◌, Bool-cases,
  if◌then◌else◌,
}
use smart_lighting_system.Base.Assoc.{lookup, Distinct}
use smart_lighting_system.Proto.Messages.{Bytes}
use smart_lighting_system.Registry.{
  DeviceState, Devices, Registry, get, is_silent, lost_loop, detect_comm_lost,
}

abbrev pub mark : ℕ → ℕ → DeviceState → DeviceState
mark now timeout_ms st = if is_silent now timeout_ms st then record st { fault = true } else st

abbrev pub marked : ℕ → ℕ → Option DeviceState → Option DeviceState
marked now timeout_ms none = none
marked now timeout_ms (some st) = some (mark now timeout_ms st)

abbrev pub is_lost : ℕ → ℕ → Option DeviceState → Bool
is_lost now timeout_ms none = false
is_lost now timeout_ms (some st) = is_silent now timeout_ms st

lost_loop-lookup :
    (now timeout_ms : ℕ) (uri : Bytes) (ds : Devices)
    → lookup uri (lost_loop now timeout_ms ds).0 ≡ marked now timeout_ms (lookup uri ds)
unfolding lost_loop lookup
lost_loop-lookup now timeout_ms uri [] = refl
lost_loop-lookup now timeout_ms uri ((k, st) ∷ ds) =
    elim (Bool-cases (is_silent now timeout_ms st)) [
      | inl e ↦ rw e (elim (Bool-cases (k == uri)) [
        | inl q ↦ ground arith
        | inr q ↦ ground (arith, lost_loop-lookup now timeout_ms uri ds)
      ])
      | inr e ↦ rw e (elim (Bool-cases (k == uri)) [
        | inl q ↦ ground arith
        | inr q ↦ ground (arith, lost_loop-lookup now timeout_ms uri ds)
      ])
    ]

pub lost_loop-contains :
    (now timeout_ms : ℕ) (uri : Bytes) (ds : Devices)
    → Distinct ds
    → contains uri (lost_loop now timeout_ms ds).1 ≡ is_lost now timeout_ms (lookup uri ds)
unfolding lost_loop lookup
lost_loop-contains now timeout_ms uri [] d = refl
lost_loop-contains now timeout_ms uri ((k, st) ∷ ds) d =
    ground (arith, lost_loop-contains now timeout_ms uri ds d.1, bytes_eq_iff k uri, d.0)

-- The device of a uri after a pass, and whether the pass reports the uri, by the test of the loop.
pub detect_comm_lost-marked :
    (now timeout_ms : ℕ) (r : Registry) (uri : Bytes)
    → Distinct r.dev
    → let (r', lost) = detect_comm_lost now timeout_ms r in
      (get uri r' ≡ marked now timeout_ms (get uri r))
      × (contains uri lost ≡ is_lost now timeout_ms (get uri r))
unfolding detect_comm_lost get
detect_comm_lost-marked now timeout_ms r uri d =
    (lost_loop-lookup now timeout_ms uri r.dev, lost_loop-contains now timeout_ms uri r.dev d)

lost_loop-Distinct :
    (now timeout_ms : ℕ) (ds : Devices) → Distinct ds → Distinct (lost_loop now timeout_ms ds).0
unfolding lost_loop
lost_loop-Distinct now timeout_ms [] d = tt
lost_loop-Distinct now timeout_ms ((k, st) ∷ ds) d =
    let e = lost_loop-lookup now timeout_ms k ds ∙ ap (marked now timeout_ms) d.0 in
    let rest = lost_loop-Distinct now timeout_ms ds d.1 in
    elim (Bool-cases (is_silent now timeout_ms st)) [
      | inl q ↦ rw q (e, rest)
      | inr q ↦ rw q (e, rest)
    ]

pub detect_comm_lost-Distinct :
    (now timeout_ms : ℕ) (r : Registry)
    → Distinct r.dev
    → Distinct (detect_comm_lost now timeout_ms r).0.dev
unfolding detect_comm_lost
detect_comm_lost-Distinct now timeout_ms r d = lost_loop-Distinct now timeout_ms r.dev d

-- While the clock that was read is not behind a device's last message, the device is reported exactly
-- if it has no fault, was seen, and has been quiet for longer than the timeout.
pub is_silent_age :
    (now timeout_ms : ℕ) (st : DeviceState)
    → now < 2 ^ 64
    → st.last_seen_ms ≤ now
    → is_silent now timeout_ms st
      ≡ (not st.fault && (ltb 0 st.last_seen_ms && ltb timeout_ms (now - st.last_seen_ms)))
is_silent_age now timeout_ms st b h = ground arith

-- A device with no fault that was heard of, and that has been quiet for longer than the timeout.
pub record IsLost (now timeout_ms : ℕ) (st : DeviceState) : Type 0 where
  pub sound : st.fault ≡ false
  pub heard : 0 < st.last_seen_ms
  pub quiet : timeout_ms + st.last_seen_ms < now

-- What a pass makes of a uri: the device before it, the device after it, whether it reports the uri.
pub data Verdict (now timeout_ms : ℕ)
    : Option DeviceState → Option DeviceState → Bool → Type 0 where
  unknown : Verdict now timeout_ms none none false
  lost :
      (st : DeviceState)
      → IsLost now timeout_ms st
      → Verdict now timeout_ms (some st) (some (record st { fault = true })) true
  kept :
      (st : DeviceState)
      → ¬ IsLost now timeout_ms st
      → Verdict now timeout_ms (some st) (some st) false

-- The last message of a device, if it is known, came no later than `now`.
abbrev pub HeardBy : ℕ → Option DeviceState → Type 0
HeardBy now none = Unit
HeardBy now (some st) = st.last_seen_ms ≤ now

is_silent-Verdict :
    (now timeout_ms : ℕ) (o : Option DeviceState)
    → now < 2 ^ 64
    → HeardBy now o
    → Verdict now timeout_ms o (marked now timeout_ms o) (is_lost now timeout_ms o)
is_silent-Verdict now timeout_ms none b h = unknown
is_silent-Verdict now timeout_ms (some st) b h =
    let past : st.last_seen_ms ≤ now = h in
    elim (Bool-cases (is_silent now timeout_ms st)) [
      | inl e ↦
          rw e
            (lost st (record { sound = ground arith; heard = ground arith; quiet = ground arith }))
      | inr e ↦
          rw e
            (kept st (λ l. let f = l.sound in let s = l.heard in let q = l.quiet in ground arith))
    ]

-- With distinct uris, and a clock reading that is not behind the last message of the device, a pass
-- reports a uri exactly if its device is known, has no fault, was heard of, and has been quiet for
-- longer than the timeout; it sets the fault flag of that device, and changes no other field of it and
-- no other device.
pub detect_comm_lost_lem :
    (now timeout_ms : ℕ) (r : Registry) (uri : Bytes)
    → Distinct r.dev
    → now < 2 ^ 64
    → HeardBy now (get uri r)
    → let (r', reported) = detect_comm_lost now timeout_ms r in
      Verdict now timeout_ms (get uri r) (get uri r') (contains uri reported)
detect_comm_lost_lem now timeout_ms r uri d b h =
    let pass = detect_comm_lost-marked now timeout_ms r uri d in
    rw (pass.0, pass.1) (is_silent-Verdict now timeout_ms (get uri r) b h)

-- A device with no fault whose last message came after the clock was read, as happens where another
-- thread serves it before the pass takes the lock, is reported as lost: the age wraps round.
pub detect_comm_lost_late :
    (now timeout_ms : ℕ) (r : Registry) (uri : Bytes) (st : DeviceState)
    → Distinct r.dev
    → get uri r ≡ some st
    → st.fault ≡ false
    → now < st.last_seen_ms
    → st.last_seen_ms < 2 ^ 64
    → timeout_ms + st.last_seen_ms < now + 2 ^ 64
    → contains uri (detect_comm_lost now timeout_ms r).1 ≡ true
detect_comm_lost_late now timeout_ms r uri st d e f late b t =
    (detect_comm_lost-marked now timeout_ms r uri d).1 ∙ rw e (rw f (ground arith))

-- A device that a pass reported is reported by no later pass, whatever the clock, until a message
-- changes its state: the flag stays set.
pub detect_comm_lost_once :
    (now later timeout_ms : ℕ) (r : Registry) (uri : Bytes)
    → Distinct r.dev
    → contains uri (detect_comm_lost now timeout_ms r).1 ≡ true
    → contains uri (detect_comm_lost later timeout_ms (detect_comm_lost now timeout_ms r).0).1
      ≡ false
detect_comm_lost_once now later timeout_ms r uri d h =
    let d' = detect_comm_lost-Distinct now timeout_ms r d in
    let first = detect_comm_lost-marked now timeout_ms r uri d in
    (detect_comm_lost-marked later timeout_ms (detect_comm_lost now timeout_ms r).0 uri d').1
    ∙ rw (first.0) (flagged (get uri r) (rw (← first.1) h))
  where
    flagged :
        (o : Option DeviceState)
        → is_lost now timeout_ms o ≡ true
        → is_lost later timeout_ms (marked now timeout_ms o) ≡ false
    flagged none k = refl
    flagged (some st) k = rw k refl

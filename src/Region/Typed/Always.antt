-- ===== src/Region/Typed/Always.antt =====
-- The types of what the regional server holds, through its timer and its runs from boot.
use smart_lighting_system.Base.{
  ℕ, ◌≡◌, refl, inl, inr, Bool, true, false, Bool-cases, List, [], ◌∷◌, Option, none, some,
  Option-cases, nat_eq, bytes_key, eqb, ◌==◌, All, arith, contains, if◌then◌else◌,
}
use smart_lighting_system.Base.Words.{IsU8, IsU32}
use smart_lighting_system.Base.Assoc.{lookup, erase}
use smart_lighting_system.Proto.Messages.{Bytes}
use smart_lighting_system.Proto.Fits.{IsShort}
use smart_lighting_system.Registry.{
  DeviceState, Devices, get, is_silent, lost_loop, detect_comm_lost,
}
use smart_lighting_system.Region.{
  Clock, DeviceSession, Region, switch_fsm, send_alarm_now, session_of, new_session,
}
use smart_lighting_system.Region.Session.{
  on_message, is_empty, on_accept, closed_entry, on_close, destroy,
}
use smart_lighting_system.Region.Tick.{
  zone_or_zero, code_or_lamp, raise_lost, raise_loop, still_lost, is_faulty, recover, on_tick, boot,
}
use smart_lighting_system.Region.Events.{
  Event, accepted, read_failed, gone, posted, written, message, datagram, tick, if_live, if_free,
  accept_new, names_session, on_session_posted, on_session_written, handle, continue, run,
}
use smart_lighting_system.Region.Typed.{
  DeviceFits, DevicesFit, SessionsFit, IsTyped, ClockFits, with_devices, with_sessions, with_raised,
  get-Fits, set_session-IsTyped, session_of-Fits,
}
use smart_lighting_system.Region.Typed.Messages.{type_code-IsU8, on_message-IsTyped}
use smart_lighting_system.Region.Typed.Sensed.{TypedIfDefined, on_datagram-IsTyped}

lost_loop-Fit :
    (now timeout_ms : ℕ) (ds : Devices)
    → DevicesFit ds
    → DevicesFit (lost_loop now timeout_ms ds).0 × All IsShort (lost_loop now timeout_ms ds).1
unfolding lost_loop
lost_loop-Fit now timeout_ms [] d = (tt, tt)
lost_loop-Fit now timeout_ms ((uri, st) ∷ ds) d =
    let rest = lost_loop-Fit now timeout_ms ds d.1 in
    let f = d.0.1 in
    let marked : DeviceFits (record st { fault = true }) = record {
      type = f.type;
      zone = f.zone;
      on = f.on;
      intensity = f.intensity;
      power = f.power;
      seen = f.seen;
    } in
    elim (Bool-cases (is_silent now timeout_ms st)) [
      | inl e ↦ rw e (((d.0.0, marked), rest.0), (d.0.0, rest.1))
      | inr e ↦ rw e ((d.0, rest.0), rest.1)
    ]

raise_lost-IsTyped :
    (uri : Bytes) (clock : Clock) (r : Region)
    → IsShort uri
    → IsTyped r
    → IsTyped (raise_lost uri clock r)
unfolding raise_lost switch_fsm send_alarm_now
raise_lost-IsTyped uri clock r u h =
    with_raised _
      (record {
        region_id = h.region;
        ts_unix = omega arith;
        device_type = code (get uri r.reg);
        zone_id = zone (get uri r.reg) refl;
        code = omega arith;
        uri = u;
        text = omega arith;
      })
      h
  where
    code : (o : Option DeviceState) → IsU8 (code_or_lamp o)
    code none = unfold code_or_lamp in omega arith
    code (some st) = unfold code_or_lamp in type_code-IsU8 st.type

    zone : (o : Option DeviceState) → get uri r.reg ≡ o → IsU32 (zone_or_zero o)
    zone none e = unfold zone_or_zero in omega arith
    zone (some st) e = unfold zone_or_zero in (get-Fits uri r.reg st h.devices e).zone

raise_loop-IsTyped :
    (lost : List Bytes) (clock : Clock) (r : Region)
    → All IsShort lost
    → IsTyped r
    → IsTyped (raise_loop lost clock r)
unfolding raise_loop
raise_loop-IsTyped [] clock r l h = h
raise_loop-IsTyped (uri ∷ rest) clock r l h =
    raise_loop-IsTyped rest clock (if contains uri r.active_lost then r else raise_lost uri clock r)
      l.1 (raised (contains uri r.active_lost))
  where
    raised : (b : Bool) → IsTyped (if b then r else raise_lost uri clock r)
    raised true = h
    raised false = raise_lost-IsTyped uri clock r l.0 h

recover-IsTyped : (left : List Bytes) (r : Region) → IsTyped r → IsTyped (recover left r)
unfolding recover switch_fsm
recover-IsTyped [] r h = elim (Bool-cases (is_faulty r.fsm)) [ inl e ↦ rw e h | inr e ↦ rw e h ]
recover-IsTyped (uri ∷ rest) r h = h

on_tick-IsTyped :
    (timeout_ms : ℕ) (clock : Clock) (r : Region) → IsTyped r → IsTyped (on_tick timeout_ms clock r)
unfolding on_tick detect_comm_lost
on_tick-IsTyped timeout_ms clock r h =
    let found = lost_loop clock.now_ms timeout_ms r.reg.dev in
    let fit = lost_loop-Fit clock.now_ms timeout_ms r.reg.dev h.devices in
    let r0 : Region = record r { reg = record r.reg { dev = found.0 } } in
    let r1 : Region = raise_loop found.1 clock r0 in
    let left : List Bytes = still_lost found.1 r1.active_lost in
    recover-IsTyped left (record r1 { active_lost = left })
      (raise_loop-IsTyped found.1 clock r0 fit.1 (with_devices _ fit.0 h))

on_close-IsTyped : (id : ℕ) (r : Region) → IsTyped r → IsTyped (on_close id r)
unfolding on_close closed_entry
on_close-IsTyped id r h = elim (Bool-cases (is_empty (session_of id r).uri)) [
  | inl e ↦ rw e h
  | inr e ↦ rw e (entry (lookup (session_of id r).uri r.sessions))
]
  where
    entry : (o : Option ℕ) → IsTyped (closed_entry o id (session_of id r).uri r)
    entry none = h
    entry (some other) = elim (Option-cases (lookup other r.live)) [
      | inl e ↦ rw (e, closed_entry) h
      | inr (s, e) ↦
          rw (e, closed_entry)
            (elim (Bool-cases (eqb other id)) [ inl e' ↦ rw e' h | inr e' ↦ rw e' h ])
    ]

erase-SessionsFit :
    (id : ℕ) (live : List (ℕ × DeviceSession)) → SessionsFit live → SessionsFit (erase id live)
unfolding erase
erase-SessionsFit id [] h = tt
erase-SessionsFit id ((j, s) ∷ live) h = elim (Bool-cases (j == id)) [
  | inl e ↦ rw e (erase-SessionsFit id live h.1)
  | inr e ↦ rw e (h.0, erase-SessionsFit id live h.1)
]

-- What comes in are bytes, and the clock reading is a uint64_t.
abbrev pub EventFits : Event × Clock → Type 0
EventFits (message id body, clock) = All IsU8 body × ClockFits clock
EventFits (_, clock) = ClockFits clock

accept_new-IsTyped : (id : ℕ) (r : Region) → IsTyped r → IsTyped (accept_new id r)
unfolding accept_new on_accept
accept_new-IsTyped id r h = elim (Bool-cases (names_session id r.sessions)) [
  | inl e ↦ rw e h
  | inr e ↦ rw e (set_session-IsTyped id new_session r (omega arith, omega arith) h)
]

if_live-IsTyped :
    (o : Option DeviceSession) (r r' : Region) → IsTyped r → IsTyped r' → IsTyped (if_live o r r')
unfolding if_live
if_live-IsTyped none r r' h h' = h
if_live-IsTyped (some s) r r' h h' = h'

handle-IsTyped :
    (timeout_ms : ℕ) (e : Event) (clock : Clock) (r : Region)
    → EventFits (e, clock)
    → IsTyped r
    → TypedIfDefined (handle timeout_ms e clock r)
unfolding handle destroy on_session_posted on_session_written
handle-IsTyped timeout_ms (accepted id) clock r c h = free (lookup id r.live)
  where
    free : (o : Option DeviceSession) → IsTyped (if_free o r (accept_new id r))
    free none = unfold if_free in accept_new-IsTyped id r h
    free (some s) = unfold if_free in h
handle-IsTyped timeout_ms (read_failed id) clock r c h =
    if_live-IsTyped (lookup id r.live) r (on_close id r) h (on_close-IsTyped id r h)
handle-IsTyped timeout_ms (gone id) clock r c h =
    with_sessions _ (erase-SessionsFit id r.live h.sessions) h
handle-IsTyped timeout_ms (posted id) clock r c h =
    if_live-IsTyped (lookup id r.live) r (on_session_posted id r) h
      (set_session-IsTyped id _ r (session_of-Fits id r h.sessions) h)
handle-IsTyped timeout_ms (written id) clock r c h =
    if_live-IsTyped (lookup id r.live) r (on_session_written id r) h
      (set_session-IsTyped id _ r (session_of-Fits id r h.sessions) h)
handle-IsTyped timeout_ms (message id body) clock r c h =
    if_live-IsTyped (lookup id r.live) r (on_message id body clock r) h
      (on_message-IsTyped id body clock r c.0 c.1 h)
handle-IsTyped timeout_ms (datagram buf) clock r c h = on_datagram-IsTyped buf clock r c h
handle-IsTyped timeout_ms tick clock r c h = on_tick-IsTyped timeout_ms clock r h

run-IsTyped :
    (timeout_ms : ℕ) (events : List (Event × Clock)) (r r' : Region)
    → All EventFits events
    → IsTyped r
    → run timeout_ms events r ≡ some r'
    → IsTyped r'
unfolding run continue
run-IsTyped timeout_ms [] r r' f h e = let same : r ≡ r' = ground arith in rw (← same) h
run-IsTyped timeout_ms ((ev, clock) ∷ rest) r r' f h e =
    next (handle timeout_ms ev clock r) (handle-IsTyped timeout_ms ev clock r f.0 h) e
      (λ r1. run-IsTyped timeout_ms rest r1 r' f.1)
  where
    next :
        (o : Option Region)
        → TypedIfDefined o
        → continue (run timeout_ms rest) o ≡ some r'
        → ((r1 : Region) → IsTyped r1 → run timeout_ms rest r1 ≡ some r' → IsTyped r')
        → IsTyped r'
    next none k e ih = cc
    next (some r1) k e ih = ih r1 k e

boot-IsTyped : (n : ℕ) → IsU32 n → IsTyped (boot n)
unfolding boot switch_fsm
boot-IsTyped n h = record { region = h; devices = tt; sessions = tt; raised = tt }

-- After any sequence of events from boot that the code defines, in which every message consists of
-- bytes and every reading of now_ms fits 64 bits: every field of every device and of every alarm
-- raised, and the uri and type of every session, is within its C++ type, and every one of their uris
-- and texts is short enough to be sent.
pub always-IsTyped :
    (region_id timeout_ms : ℕ) (events : List (Event × Clock)) (r : Region)
    → IsU32 region_id
    → All EventFits events
    → run timeout_ms events (boot region_id) ≡ some r
    → IsTyped r
always-IsTyped n timeout_ms events r b f e =
    run-IsTyped timeout_ms events (boot n) r f (boot-IsTyped n b) e

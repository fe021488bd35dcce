-- ===== src/Region/Always.antt =====
-- The invariant of the regional server: the timer, the sessions, and runs from boot.
use smart_lighting_system.Base.{
  ℕ, ◌≡◌, refl, inl, inr, Bool, true, false, Bool-cases, List, [], ◌∷◌, Option, none, some,
  Option-cases, nat_eq, bytes_key, eqb, arith, contains, if◌then◌else◌,
}
use smart_lighting_system.Base.Assoc.{lookup}
use smart_lighting_system.Proto.Messages.{Bytes}
use smart_lighting_system.Registry.{Registry, detect_comm_lost}
use smart_lighting_system.Registry.Lamps.{IsIndexed-empty, detect_comm_lost-IsIndexed}
use smart_lighting_system.Fsm.Server.{normal_operation, fault_handling, switch_to, to_string}
use smart_lighting_system.Fsm.{allows}
use smart_lighting_system.Region.{
  Clock, DeviceSession, Region, switch_fsm, send_alarm_now, session_of, set_session,
}
use smart_lighting_system.Region.Session.{
  on_message, is_empty, on_accept, closed_entry, on_close, destroy,
}
use smart_lighting_system.Region.Telemetry.{telemetry_of}
use smart_lighting_system.Region.Tick.{
  raise_lost, raise_loop, still_lost, is_faulty, recover, on_tick, boot,
}
use smart_lighting_system.Region.Events.{
  Event, accepted, read_failed, gone, posted, written, message, datagram, tick, if_live, if_free,
  accept_new, names_session, on_session_posted, on_session_written, handle, continue, run,
}
use smart_lighting_system.Region.Invariant.{
  IsSound, with_registry, switched, with_alarm, on_message-IsSound,
}
use smart_lighting_system.Region.Sensed.{SoundIfDefined, on_datagram-IsSound}

raise_loop-IsSound :
    (n : ℕ) (lost : List Bytes) (clock : Clock) (r : Region)
    → IsSound n r
    → IsSound n (raise_loop lost clock r)
unfolding raise_loop raise_lost switch_fsm send_alarm_now
raise_loop-IsSound n [] clock r h = h
raise_loop-IsSound n (uri ∷ rest) clock r h =
    raise_loop-IsSound n rest clock
      (if contains uri r.active_lost then r else raise_lost uri clock r)
      (raised (contains uri r.active_lost))
  where
    raised : (b : Bool) → IsSound n (if b then r else raise_lost uri clock r)
    raised true = h
    raised false = with_alarm _ h.region (switched fault_handling (inr refl) h)

recover-IsSound :
    (n : ℕ) (left : List Bytes) (r : Region) → IsSound n r → IsSound n (recover left r)
unfolding recover switch_fsm
recover-IsSound n [] r h = elim (Bool-cases (is_faulty r.fsm)) [
  | inl e ↦ rw e (switched normal_operation (inl refl) h)
  | inr e ↦ rw e h
]
recover-IsSound n (uri ∷ rest) r h = h

on_tick-IsSound :
    (n timeout_ms : ℕ) (clock : Clock) (r : Region)
    → IsSound n r
    → IsSound n (on_tick timeout_ms clock r)
unfolding on_tick
on_tick-IsSound n timeout_ms clock r h =
    let reg' : Registry = (detect_comm_lost clock.now_ms timeout_ms r.reg).0 in
    let lost : List Bytes = (detect_comm_lost clock.now_ms timeout_ms r.reg).1 in
    let r1 : Region = raise_loop lost clock (record r { reg = reg' }) in
    let left : List Bytes = still_lost lost r1.active_lost in
    recover-IsSound n left (record r1 { active_lost = left })
      (raise_loop-IsSound n lost clock (record r { reg = reg' })
        (with_registry reg' (detect_comm_lost-IsIndexed clock.now_ms timeout_ms r.reg h.indexed) h))

on_close-IsSound : (n id : ℕ) (r : Region) → IsSound n r → IsSound n (on_close id r)
unfolding on_close closed_entry
on_close-IsSound n id r h = elim (Bool-cases (is_empty (session_of id r).uri)) [
  | inl e ↦ rw e h
  | inr e ↦ rw e (entry (lookup (session_of id r).uri r.sessions))
]
  where
    entry : (o : Option ℕ) → IsSound n (closed_entry o id (session_of id r).uri r)
    entry none = h
    entry (some other) = elim (Option-cases (lookup other r.live)) [
      | inl e ↦ rw (e, closed_entry) h
      | inr (s, e) ↦
          rw (e, closed_entry)
            (elim (Bool-cases (eqb other id)) [ inl e' ↦ rw e' h | inr e' ↦ rw e' h ])
    ]

if_live-IsSound :
    (n : ℕ) (o : Option DeviceSession) (r r' : Region)
    → IsSound n r
    → IsSound n r'
    → IsSound n (if_live o r r')
unfolding if_live
if_live-IsSound n none r r' h h' = h
if_live-IsSound n (some s) r r' h h' = h'

accept_new-IsSound : (n id : ℕ) (r : Region) → IsSound n r → IsSound n (accept_new id r)
unfolding accept_new on_accept set_session
accept_new-IsSound n id r h = elim (Bool-cases (names_session id r.sessions)) [
  | inl e ↦ rw e h
  | inr e ↦ rw e h
]

handle-IsSound :
    (n timeout_ms : ℕ) (e : Event) (clock : Clock) (r : Region)
    → IsSound n r
    → SoundIfDefined n (handle timeout_ms e clock r)
unfolding handle on_accept set_session destroy on_session_posted on_session_written
handle-IsSound n timeout_ms (accepted id) clock r h = free (lookup id r.live)
  where
    free : (o : Option DeviceSession) → IsSound n (if_free o r (accept_new id r))
    free none = accept_new-IsSound n id r h
    free (some s) = h
handle-IsSound n timeout_ms (read_failed id) clock r h =
    if_live-IsSound n (lookup id r.live) r (on_close id r) h (on_close-IsSound n id r h)
handle-IsSound n timeout_ms (gone id) clock r h = h
handle-IsSound n timeout_ms (posted id) clock r h =
    if_live-IsSound n (lookup id r.live) r (on_session_posted id r) h h
handle-IsSound n timeout_ms (written id) clock r h =
    if_live-IsSound n (lookup id r.live) r (on_session_written id r) h h
handle-IsSound n timeout_ms (message id body) clock r h =
    if_live-IsSound n (lookup id r.live) r (on_message id body clock r) h
      (on_message-IsSound n id body clock r h)
handle-IsSound n timeout_ms (datagram buf) clock r h =
    on_datagram-IsSound n (telemetry_of buf) clock r h
handle-IsSound n timeout_ms tick clock r h = on_tick-IsSound n timeout_ms clock r h

boot-IsSound : (n : ℕ) → IsSound n (boot n)
unfolding boot switch_fsm switch_to allows to_string
boot-IsSound n = record {
  region = refl;
  indexed = IsIndexed-empty;
  in_service = inl refl;
  raised = tt;
}

run-IsSound :
    (n timeout_ms : ℕ) (events : List (Event × Clock)) (r r' : Region)
    → IsSound n r
    → run timeout_ms events r ≡ some r'
    → IsSound n r'
unfolding run continue
run-IsSound n timeout_ms [] r r' h e = let same : r ≡ r' = ground arith in rw (← same) h
run-IsSound n timeout_ms ((ev, clock) ∷ rest) r r' h e =
    next (handle timeout_ms ev clock r) (handle-IsSound n timeout_ms ev clock r h) e
      (λ r1. run-IsSound n timeout_ms rest r1 r')
  where
    next :
        (o : Option Region)
        → SoundIfDefined n o
        → continue (run timeout_ms rest) o ≡ some r'
        → ((r1 : Region) → IsSound n r1 → run timeout_ms rest r1 ≡ some r' → IsSound n r')
        → IsSound n r'
    next none k e ih = cc
    next (some r1) k e ih = ih r1 k e

-- After any sequence of events from boot that the code defines (connections, messages of any bytes,
-- datagrams, ends of writes and reads, timer ticks) the registry is indexed (no uri twice, every
-- luminaire outside zone 0 in the list of its zone, no lamp twice in a list), the state machine is
-- in NORMAL_OPERATION or FAULT_HANDLING, and every alarm raised names the region.
pub always-IsSound :
    (region_id timeout_ms : ℕ) (events : List (Event × Clock)) (r : Region)
    → run timeout_ms events (boot region_id) ≡ some r
    → IsSound region_id r
always-IsSound n timeout_ms events r e =
    run-IsSound n timeout_ms events (boot n) r (boot-IsSound n) e

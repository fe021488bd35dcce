-- ===== src/Lamp/Events.antt =====
-- The events of luminaire_client.cpp, one after the other.
use smart_lighting_system.Base.{
  ℕ, inl, inr, Bool, true, false, Bool-cases, List, [], ◌∷◌, Option, none, some, All, if◌then◌else◌,
}
use smart_lighting_system.Base.Words.{IsU8}
use smart_lighting_system.Proto.Messages.{Bytes, FaultReport}
use smart_lighting_system.Fsm.{allows}
use smart_lighting_system.Fsm.Lamp.{
  LampState, idle, unregistered, registering, off, on, fault, switch_to, to_string,
}
use smart_lighting_system.Lamp.{
  Lamp, switch_state, send_status, schedule_reconnect, send_register, do_connect, on_reconnect,
  on_connected, on_connect_failed, on_register_timeout, on_heartbeat, manual_reset, send_pending,
  on_written, on_posted, is_registering, reports,
}
use smart_lighting_system.Lamp.Message.{on_message}
use smart_lighting_system.Lamp.Consistent.{
  Agrees, IsConsistent, byte_of, with, send-IsConsistent, send_status-IsConsistent,
  schedule_heartbeat-IsConsistent, schedule_reconnect-IsConsistent, on_message-IsConsistent,
}

-- `lost` is the failure of a read or a write, `message` holds a body and the draw of urand.
pub data Event : Type 0 where
  connected connect_failed register_timeout reconnect heartbeat reset posted written lost : Event
  message : ℕ → Bytes → Event

unfoldable pub handle : Event → Lamp → Lamp
handle connected l = on_connected l
handle connect_failed l = on_connect_failed l
handle register_timeout l = on_register_timeout l
handle reconnect l = on_reconnect l
handle heartbeat l = on_heartbeat l
handle reset l = manual_reset l
handle posted l = on_posted l
handle written l = on_written l
handle lost l = schedule_reconnect l
handle (message draw body) l = on_message draw body l

unfoldable pub run : List Event → Lamp → Lamp
run [] l = l
run (e ∷ rest) l = run rest (handle e l)

-- The bodies that come in are bytes.
abbrev pub IsReal : Event → Type 0
IsReal (message draw body) = All IsU8 body
IsReal _ = Unit

send_register-IsConsistent :
    (s : LampState) (n : ℕ) (l : Lamp) → IsU8 n → IsConsistent (send_register (with l s n))
unfolding send_register switch_state switch_to allows to_string
send_register-IsConsistent registering n l h = h
send_register-IsConsistent idle n l h = send-IsConsistent _ _ (with l registering n) h
send_register-IsConsistent unregistered n l h = send-IsConsistent _ _ (with l registering n) h
send_register-IsConsistent off n l h = send-IsConsistent _ _ (with l registering n) h
send_register-IsConsistent on n l h = send-IsConsistent _ _ (with l registering n) h
send_register-IsConsistent fault n l h = send-IsConsistent _ _ (with l registering n) h

on_register_timeout-IsConsistent :
    (l : Lamp) → IsConsistent l → IsConsistent (on_register_timeout l)
unfolding on_register_timeout switch_state schedule_reconnect
on_register_timeout-IsConsistent l h = elim (Bool-cases (is_registering l.state)) [
  | inl e ↦ rw e (byte_of l.state l.intensity h)
  | inr e ↦ rw e h
]

on_heartbeat-IsConsistent : (l : Lamp) → IsConsistent l → IsConsistent (on_heartbeat l)
unfolding on_heartbeat
on_heartbeat-IsConsistent l0 h =
    schedule_heartbeat-IsConsistent (if reports l.state then send_status l else l)
      (reported (reports l.state))
  where
    l : Lamp
    l = record l0 { timers = record l0.timers { heartbeat = false } }

    reported : (b : Bool) → IsConsistent (if b then send_status l else l)
    reported true = send_status-IsConsistent l h
    reported false = h

manual_reset-IsConsistent :
    (s : LampState) (n : ℕ) (l : Lamp) → Agrees s n → IsConsistent (manual_reset (with l s n))
unfolding manual_reset switch_state switch_to allows to_string
manual_reset-IsConsistent fault n l h = schedule_reconnect-IsConsistent (with l unregistered n) h
manual_reset-IsConsistent idle n l h = h
manual_reset-IsConsistent unregistered n l h = h
manual_reset-IsConsistent registering n l h = h
manual_reset-IsConsistent off n l h = h
manual_reset-IsConsistent on n l h = h

on_written-IsConsistent : (l : Lamp) → IsConsistent l → IsConsistent (on_written l)
unfolding on_written send_pending
on_written-IsConsistent l h = pending l.pending_fault
  where
    pending : (o : Option FaultReport) → IsConsistent (send_pending o l)
    pending none = h
    pending (some f) = send-IsConsistent _ _ (record l { pending_fault = none }) h

handle-IsConsistent : (e : Event) (l : Lamp) → IsReal e → IsConsistent l → IsConsistent (handle e l)
unfolding handle on_connected on_connect_failed on_reconnect do_connect on_posted
handle-IsConsistent connected l u h =
    send_register-IsConsistent l.state l.intensity (record l { connecting = false })
      (byte_of l.state l.intensity h)
handle-IsConsistent connect_failed l u h =
    schedule_reconnect-IsConsistent (record l { connecting = false })
      (byte_of l.state l.intensity h)
handle-IsConsistent register_timeout l u h = on_register_timeout-IsConsistent l h
handle-IsConsistent reconnect l u h = h
handle-IsConsistent heartbeat l u h = on_heartbeat-IsConsistent l h
handle-IsConsistent reset l u h = manual_reset-IsConsistent l.state l.intensity l h
handle-IsConsistent posted l u h = h
handle-IsConsistent written l u h = on_written-IsConsistent l h
handle-IsConsistent lost l u h = schedule_reconnect-IsConsistent l (byte_of l.state l.intensity h)
handle-IsConsistent (message draw body) l u h = on_message-IsConsistent draw body l u h

-- After any sequence of events (connections, failures, timers, ends of writes, messages of any bytes,
-- with any draws) a lamp that starts consistent is consistent: if it is on, its intensity is positive,
-- if it is off, its intensity is 0, and it always is a byte.
pub run-IsConsistent :
    (events : List Event) (l : Lamp)
    → All IsReal events
    → IsConsistent l
    → IsConsistent (run events l)
unfolding run
run-IsConsistent [] l u h = h
run-IsConsistent (e ∷ rest) l u h =
    run-IsConsistent rest (handle e l) u.1 (handle-IsConsistent e l u.0 h)

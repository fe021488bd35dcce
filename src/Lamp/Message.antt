-- ===== src/Lamp/Message.antt =====
-- `on_message` of luminaire_client.cpp: the answers of the regional server and its commands.
use smart_lighting_system.Base.{ℕ, Bool, true, false, ◌&&◌, not, [], ◌∷◌, eqb, max, if◌then◌else◌}
use smart_lighting_system.Proto.Result.{Result, ok, err}
use smart_lighting_system.Proto.MsgType
use smart_lighting_system.Proto.Messages.{Bytes, Command}
use smart_lighting_system.Proto.Decode.{decode_command}
use smart_lighting_system.Fsm.Lamp.{LampState, unregistered, off, on}
use smart_lighting_system.Lamp.{
  Lamp, switch_state, schedule_reconnect, send_status, is_on_or_off, when_switched,
  maybe_simulate_fault, schedule_heartbeat,
}

unfoldable pub cancel_register_timeout : Lamp → Lamp
cancel_register_timeout l = record l { timers = record l.timers { register_timeout = false } }

unfoldable pub on_register_ack : Lamp → Lamp
unfolding cancel_register_timeout
on_register_ack l =
    when_switched (switch_state off (cancel_register_timeout l))
      λ l1. schedule_heartbeat (send_status (record l1 { intensity = 0 }))

unfoldable pub on_register_nack : Lamp → Lamp
unfolding cancel_register_timeout
on_register_nack l = schedule_reconnect (switch_state unregistered (cancel_register_timeout l)).0

abbrev pub is_off : LampState → Bool
is_off off = true
is_off _ = false

abbrev pub is_on_state : LampState → Bool
is_on_state on = true
is_on_state _ = false

unfoldable pub switch_on : ℕ → Lamp → Lamp
switch_on draw l =
    if is_off l.state
    then when_switched (switch_state on l) (λ l1.
      maybe_simulate_fault draw (send_status (record l1 { intensity = max l1.intensity 30 })))
    else l

unfoldable pub switch_off : Lamp → Lamp
switch_off l =
    if is_on_state l.state
    then when_switched (switch_state off l) (λ l1. send_status (record l1 { intensity = 0 }))
    else l

-- The state that goes with a new intensity.
unfoldable pub follow_intensity : Lamp → Lamp
follow_intensity l =
    if eqb l.intensity 0 && is_on_state l.state
    then (switch_state off l).0
    else if not (eqb l.intensity 0) && is_off l.state
    then (switch_state on l).0
    else l

unfoldable pub set_intensity : ℕ → ℕ → Lamp → Lamp
unfolding follow_intensity
set_intensity draw value l =
    let l1 = follow_intensity (record l { intensity = value }) in
    if is_on_or_off l1.state then maybe_simulate_fault draw (send_status l1) else l1

unfoldable pub on_command : ℕ → Result Command → Lamp → Lamp
on_command draw (err e) l = l
on_command draw (ok c) l =
    if eqb c.cmd 1
    then switch_on draw l
    else if eqb c.cmd 2
    then switch_off l
    else if eqb c.cmd 3
    then set_intensity draw c.value l
    else l

unfoldable pub on_message : ℕ → Bytes → Lamp → Lamp
unfolding on_command
on_message draw [] l = l
on_message draw (t ∷ p) l =
    if eqb t MsgType.register_ack
    then on_register_ack l
    else if eqb t MsgType.register_nack
    then on_register_nack l
    else if eqb t MsgType.cmd
    then on_command draw (decode_command p) l
    else l

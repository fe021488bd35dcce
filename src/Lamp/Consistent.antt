-- ===== src/Lamp/Consistent.antt =====
-- The state of a lamp and its intensity, through the messages of luminaire_client.cpp.
use smart_lighting_system.Base.{
  ℕ, ◌<◌, ◌≡◌, refl, inl, inr, Bool-cases, [], ◌∷◌, arith, ltb, eqb, max, All,
}
use smart_lighting_system.Base.Words.{IsU8}
use smart_lighting_system.Proto.Result.{Result, ok, err}
use smart_lighting_system.Proto.MsgType
use smart_lighting_system.Proto.Messages.{Bytes, Command}
use smart_lighting_system.Proto.Fits.{CommandFits}
use smart_lighting_system.Proto.Ranges.{decode_command-Fits}
use smart_lighting_system.Proto.Decode.{decode_command}
use smart_lighting_system.Fsm.Lamp.{
  LampState, idle, unregistered, registering, off, on, fault, switch_to, to_string,
}
use smart_lighting_system.Fsm.{allows}
use smart_lighting_system.Lamp.{
  Lamp, switch_state, send, schedule_reconnect, send_status, request_fault, maybe_simulate_fault,
  schedule_heartbeat, is_on_or_off, is_waiting,
}
use smart_lighting_system.Lamp.Message.{
  on_register_ack, on_register_nack, switch_on, switch_off, follow_intensity, set_intensity,
  on_command, on_message, cancel_register_timeout,
}

-- A lamp that is on has an intensity, one that is off has none, and every intensity is a byte.
abbrev pub Agrees : LampState → ℕ → Type 0
Agrees on n = (0 < n) × IsU8 n
Agrees off n = n ≡ 0
Agrees _ n = IsU8 n

abbrev pub IsConsistent : Lamp → Type 0
IsConsistent l = Agrees l.state l.intensity

pub byte_of : (s : LampState) (n : ℕ) → Agrees s n → IsU8 n
byte_of idle n h = h
byte_of unregistered n h = h
byte_of registering n h = h
byte_of off n h = omega arith
byte_of on n h = h.1
byte_of fault n h = h

pub send-IsConsistent :
    (t : ℕ) (p : Result Bytes) (l : Lamp) → IsConsistent l → IsConsistent (send t p l)
unfolding send
send-IsConsistent t (ok p) l h = elim (Bool-cases l.has_socket) [ inl e ↦ rw e h | inr e ↦ rw e h ]
send-IsConsistent t (err x) l h = h

pub send_status-IsConsistent : (l : Lamp) → IsConsistent l → IsConsistent (send_status l)
unfolding send_status
send_status-IsConsistent l h = send-IsConsistent _ _ l h

request_fault-IsConsistent :
    (code : ℕ) (text : Bytes) (l : Lamp) → IsConsistent l → IsConsistent (request_fault code text l)
unfolding request_fault
request_fault-IsConsistent code text l h =
    elim (Bool-cases (is_waiting l.outbox.writing l.outbox.out_q)) [
      | inl e ↦ rw e h
      | inr e ↦ rw e (send-IsConsistent _ _ l h)
    ]

-- A handler is checked on each state: `l` is the record of its own state and intensity.
abbrev pub with : Lamp → LampState → ℕ → Lamp
with l s n = record l { state = s; intensity = n }

maybe_fault-IsConsistent :
    (draw : ℕ) (s : LampState) (n : ℕ) (l : Lamp)
    → Agrees s n
    → IsConsistent (maybe_simulate_fault draw (with l s n))
unfolding maybe_simulate_fault switch_state switch_to allows to_string
maybe_fault-IsConsistent draw on n l h = elim (Bool-cases (ltb draw l.fault_prob_per_mille)) [
  | inl e ↦ rw e (request_fault-IsConsistent 1 _ (with l fault n) h.1)
  | inr e ↦ rw e h
]
maybe_fault-IsConsistent draw off n l h = elim (Bool-cases (ltb draw l.fault_prob_per_mille)) [
  | inl e ↦ rw e (request_fault-IsConsistent 1 _ (with l fault n) (omega arith))
  | inr e ↦ rw e h
]
maybe_fault-IsConsistent draw idle n l h = h
maybe_fault-IsConsistent draw unregistered n l h = h
maybe_fault-IsConsistent draw registering n l h = h
maybe_fault-IsConsistent draw fault n l h = h

-- The status goes out before a fault is drawn.
reported-IsConsistent :
    (draw : ℕ) (l : Lamp)
    → IsConsistent l
    → IsConsistent (maybe_simulate_fault draw (send_status l))
reported-IsConsistent draw l h =
    let l1 : Lamp = send_status l in
    maybe_fault-IsConsistent draw l1.state l1.intensity l1 (send_status-IsConsistent l h)

switch_on-IsConsistent :
    (draw : ℕ) (s : LampState) (n : ℕ) (l : Lamp)
    → Agrees s n
    → IsConsistent (switch_on draw (with l s n))
unfolding switch_on switch_state switch_to allows to_string
switch_on-IsConsistent draw off n l h =
    reported-IsConsistent draw (with l on (max n 30)) (omega arith, omega arith)
switch_on-IsConsistent draw on n l h = h
switch_on-IsConsistent draw idle n l h = h
switch_on-IsConsistent draw unregistered n l h = h
switch_on-IsConsistent draw registering n l h = h
switch_on-IsConsistent draw fault n l h = h

switch_off-IsConsistent :
    (s : LampState) (n : ℕ) (l : Lamp) → Agrees s n → IsConsistent (switch_off (with l s n))
unfolding switch_off switch_state switch_to allows to_string
switch_off-IsConsistent on n l h = send_status-IsConsistent (with l off 0) refl
switch_off-IsConsistent off n l h = h
switch_off-IsConsistent idle n l h = h
switch_off-IsConsistent unregistered n l h = h
switch_off-IsConsistent registering n l h = h
switch_off-IsConsistent fault n l h = h

follow-IsConsistent :
    (s : LampState) (value : ℕ) (l : Lamp)
    → IsU8 value
    → IsConsistent (follow_intensity (with l s value))
unfolding follow_intensity switch_state switch_to allows to_string
follow-IsConsistent off value l h = elim (Bool-cases (eqb value 0)) [
  | inl e ↦ rw e (ground arith)
  | inr e ↦ rw e (ground arith, h)
]
follow-IsConsistent on value l h = elim (Bool-cases (eqb value 0)) [
  | inl e ↦ rw e (ground arith)
  | inr e ↦ rw e (ground arith, h)
]
follow-IsConsistent idle value l h = elim (Bool-cases (eqb value 0)) [
  | inl e ↦ rw e h
  | inr e ↦ rw e h
]
follow-IsConsistent unregistered value l h = elim (Bool-cases (eqb value 0)) [
  | inl e ↦ rw e h
  | inr e ↦ rw e h
]
follow-IsConsistent registering value l h = elim (Bool-cases (eqb value 0)) [
  | inl e ↦ rw e h
  | inr e ↦ rw e h
]
follow-IsConsistent fault value l h = elim (Bool-cases (eqb value 0)) [
  | inl e ↦ rw e h
  | inr e ↦ rw e h
]

set_intensity-IsConsistent :
    (draw value : ℕ) (l : Lamp) → IsU8 value → IsConsistent (set_intensity draw value l)
unfolding set_intensity
set_intensity-IsConsistent draw value l h =
    let l1 : Lamp = follow_intensity (record l { intensity = value }) in
    let k : IsConsistent l1 = follow-IsConsistent l.state value l h in
    elim (Bool-cases (is_on_or_off l1.state)) [
      | inl e ↦ rw e (reported-IsConsistent draw l1 k)
      | inr e ↦ rw e k
    ]

pub schedule_heartbeat-IsConsistent :
    (l : Lamp) → IsConsistent l → IsConsistent (schedule_heartbeat l)
unfolding schedule_heartbeat
schedule_heartbeat-IsConsistent l h = elim (Bool-cases (eqb l.heartbeat_s 0)) [
  | inl e ↦ rw e h
  | inr e ↦ rw e h
]

-- A lamp that switches off reports it.
off-IsConsistent : (l : Lamp) → IsConsistent (schedule_heartbeat (send_status (with l off 0)))
off-IsConsistent l =
    schedule_heartbeat-IsConsistent (send_status (with l off 0))
      (send_status-IsConsistent (with l off 0) refl)

on_register_ack-IsConsistent :
    (s : LampState) (n : ℕ) (l : Lamp) → Agrees s n → IsConsistent (on_register_ack (with l s n))
unfolding on_register_ack cancel_register_timeout switch_state switch_to allows to_string
on_register_ack-IsConsistent registering n l h = off-IsConsistent (cancel_register_timeout l)
on_register_ack-IsConsistent on n l h = off-IsConsistent (cancel_register_timeout l)
on_register_ack-IsConsistent off n l h = h
on_register_ack-IsConsistent idle n l h = h
on_register_ack-IsConsistent unregistered n l h = h
on_register_ack-IsConsistent fault n l h = h

pub schedule_reconnect-IsConsistent :
    (l : Lamp) → IsU8 l.intensity → IsConsistent (schedule_reconnect l)
unfolding schedule_reconnect
schedule_reconnect-IsConsistent l h = h

on_register_nack-IsConsistent : (l : Lamp) → IsConsistent l → IsConsistent (on_register_nack l)
unfolding on_register_nack cancel_register_timeout switch_state
on_register_nack-IsConsistent l h =
    schedule_reconnect-IsConsistent (switch_state unregistered (cancel_register_timeout l)).0
      (byte_of l.state l.intensity h)

on_command-IsConsistent :
    (draw : ℕ) (d : Result Command) (l : Lamp)
    → ((c : Command) → d ≡ ok c → CommandFits c)
    → IsConsistent l
    → IsConsistent (on_command draw d l)
unfolding on_command
on_command-IsConsistent draw (err e) l f h = h
on_command-IsConsistent draw (ok c) l f h = elim (Bool-cases (eqb c.cmd 1)) [
  | inl e ↦ rw e (switch_on-IsConsistent draw l.state l.intensity l h)
  | inr e ↦ elim (Bool-cases (eqb c.cmd 2)) [
    | inl e' ↦ rw (e, e') (switch_off-IsConsistent l.state l.intensity l h)
    | inr e' ↦ elim (Bool-cases (eqb c.cmd 3)) [
      | inl e'' ↦ rw (e, e', e'') (set_intensity-IsConsistent draw c.value l (f c refl).value)
      | inr e'' ↦ rw (e, e', e'') h
    ]
  ]
]

-- Whatever bytes a lamp receives, in whatever state, and whether or not a fault is simulated: if it is
-- on, its intensity is positive, if it is off, its intensity is 0, and it always is a byte.
pub on_message-IsConsistent :
    (draw : ℕ) (body : Bytes) (l : Lamp)
    → All IsU8 body
    → IsConsistent l
    → IsConsistent (on_message draw body l)
unfolding on_message
on_message-IsConsistent draw [] l u h = h
on_message-IsConsistent draw (t ∷ p) l u h = elim (Bool-cases (eqb t MsgType.register_ack)) [
  | inl e ↦ rw e (on_register_ack-IsConsistent l.state l.intensity l h)
  | inr e ↦ elim (Bool-cases (eqb t MsgType.register_nack)) [
    | inl e' ↦ rw (e, e') (on_register_nack-IsConsistent l h)
    | inr e' ↦ elim (Bool-cases (eqb t MsgType.cmd)) [
      | inl e'' ↦
          rw (e, e', e'')
            (on_command-IsConsistent draw (decode_command p) l
              (λ c d. decode_command-Fits p c u.1 d) h)
      | inr e'' ↦ rw (e, e', e'') h
    ]
  ]
]

-- ===== src/Lamp/Commanded.antt =====
-- What the commands of a zone's motion do to a lamp.
use smart_lighting_system.Base.{
  ℕ, ◌<◌, eqb, ◌≡◌, ◌≢◌, refl, ap, sym, ◌∙◌, append-nil, inl, inr, Bool-cases, true, false, [], ◌∷◌,
  ltb, max, arith,
}
use smart_lighting_system.Proto.Result.{Result, ok, err}
use smart_lighting_system.Proto.MsgType
use smart_lighting_system.Proto.Messages.{Bytes, Command}
use smart_lighting_system.Proto.Fits.{IsShort, CommandFits}
use smart_lighting_system.Proto.Decode.{decode_command, read_command}
use smart_lighting_system.Proto.Reader.{value}
use smart_lighting_system.Proto.RoundTrip.Device.{command_layout, read_command-Reads}
use smart_lighting_system.Fsm.{allows}
use smart_lighting_system.Fsm.Lamp.{
  LampState, idle, unregistered, registering, off, on, fault, switch_to, to_string,
}
use smart_lighting_system.Outbox.{OutMsg}
use smart_lighting_system.Lamp.{
  Lamp, send, send_status, switch_state, is_on_or_off, maybe_simulate_fault,
}
use smart_lighting_system.Lamp.Message.{
  switch_on, switch_off, set_intensity, follow_intensity, on_command, on_message,
}
use smart_lighting_system.Region.Motion.{cmd_switch_on, cmd_switch_off, cmd_set_intensity}
use smart_lighting_system.Lamp.Consistent.{with, IsConsistent}

-- The body of a message.
abbrev pub body : OutMsg → Bytes
body (t, p) = t ∷ p

abbrev pub command : Bytes → ℕ → ℕ → Command
command uri cmd value = record { uri = uri; cmd = cmd; value = value }

pub on_message-command :
    (draw : ℕ) (c : Command) (l : Lamp)
    → CommandFits c
    → on_message draw (body (MsgType.cmd, command_layout c)) l ≡ on_command draw (ok c) l
unfolding on_message decode_command
on_message-command draw c l h =
    ap (λ d. on_command draw (value d) l)
      (ap read_command (sym (append-nil (command_layout c))) ∙ read_command-Reads c h [])

-- The state and the intensity of a lamp, and how often it fails.
abbrev pub Shows : ℕ → LampState → ℕ → Lamp → Type 0
Shows p s n l = (l.state ≡ s) × (l.intensity ≡ n) × (l.fault_prob_per_mille ≡ p)

pub send-Shows :
    (p n t : ℕ) (s : LampState) (d : Result Bytes) (l : Lamp)
    → Shows p s n l
    → Shows p s n (send t d l)
unfolding send
send-Shows p n t s (ok b) l h = elim (Bool-cases l.has_socket) [ inl e ↦ rw e h | inr e ↦ rw e h ]
send-Shows p n t s (err e) l h = h

no_fault :
    (draw : ℕ) (l : Lamp)
    → ltb draw l.fault_prob_per_mille ≡ false
    → maybe_simulate_fault draw l ≡ l
unfolding maybe_simulate_fault
no_fault draw l e = elim (Bool-cases (is_on_or_off l.state)) [
  | inl c ↦ rw (c, e) refl
  | inr c ↦ rw c refl
]

-- The report after a command, with a draw that is no fault.
reported-Shows :
    (p n draw : ℕ) (s : LampState) (l : Lamp)
    → ltb draw p ≡ false
    → Shows p s n l
    → Shows p s n (maybe_simulate_fault draw (send_status l))
unfolding send_status
reported-Shows p n draw s l e h =
    let k : Shows p s n (send_status l) = send-Shows p n _ s _ l h in
    rw (no_fault draw (send_status l) (rw k.2 e)) k

switch_on-Shows :
    (s : LampState) (n draw : ℕ) (l : Lamp)
    → is_on_or_off s ≡ true
    → ltb draw l.fault_prob_per_mille ≡ false
    → (m : ℕ) × Shows l.fault_prob_per_mille on m (switch_on draw (with l s n))
unfolding switch_on switch_state switch_to allows to_string
switch_on-Shows off n draw l c e =
    (max n 30, reported-Shows _ (max n 30) draw on (with l on (max n 30)) e (refl, refl, refl))
switch_on-Shows on n draw l c e = (n, (refl, refl, refl))
switch_on-Shows idle n draw l c e = cc
switch_on-Shows unregistered n draw l c e = cc
switch_on-Shows registering n draw l c e = cc
switch_on-Shows fault n draw l c e = cc

set_intensity-Shows :
    (draw value n p : ℕ) (s : LampState) (l : Lamp)
    → value ≢ 0
    → s ≡ on
    → l.fault_prob_per_mille ≡ p
    → ltb draw p ≡ false
    → Shows p on value (set_intensity draw value (with l s n))
unfolding set_intensity follow_intensity switch_state
set_intensity-Shows draw value n p s l c q f e =
    let z : eqb value 0 ≡ false = ground arith in
    rw q (rw z (reported-Shows p value draw on (with l on value) e (refl, refl, f)))

switch_off-Shows :
    (s : LampState) (n : ℕ) (l : Lamp)
    → is_on_or_off s ≡ true
    → IsConsistent (with l s n)
    → Shows l.fault_prob_per_mille off 0 (switch_off (with l s n))
unfolding switch_off switch_state switch_to allows to_string send_status
switch_off-Shows on n l c h = send-Shows _ 0 _ off _ (with l off 0) (refl, refl, refl)
switch_off-Shows off n l c h = (refl, h, refl)
switch_off-Shows idle n l c h = cc
switch_off-Shows unregistered n l c h = cc
switch_off-Shows registering n l c h = cc
switch_off-Shows fault n l c h = cc

pub short_command :
    (uri : Bytes) (cmd value : ℕ)
    → IsShort uri
    → cmd < 256
    → value < 256
    → CommandFits (command uri cmd value)
short_command uri cmd value h c v = record { uri = h; cmd = c; value = v }

-- The bodies that a lamp named `uri` is sent when its zone has motion, and when the motion ends.
abbrev pub on_payload : Bytes → Bytes
on_payload uri = command_layout (command uri cmd_switch_on 0)

abbrev pub dim_payload : Bytes → Bytes
dim_payload uri = command_layout (command uri cmd_set_intensity 60)

abbrev pub off_payload : Bytes → Bytes
off_payload uri = command_layout (command uri cmd_switch_off 0)

pub lights_up :
    (uri : Bytes) (draw later : ℕ) (l : Lamp)
    → IsShort uri
    → is_on_or_off l.state ≡ true
    → ltb draw l.fault_prob_per_mille ≡ false
    → ltb later l.fault_prob_per_mille ≡ false
    → Shows l.fault_prob_per_mille on 60 (
        on_message later
          (body (MsgType.cmd, dim_payload uri))
          (on_message draw (body (MsgType.cmd, on_payload uri)) l))
unfolding on_command
lights_up uri draw later l h c d e =
    rw
      (on_message-command draw (command uri cmd_switch_on 0) l
        (short_command uri 1 0 h (omega arith) (omega arith)))
      (dimmed (switch_on draw l) (switch_on-Shows l.state l.intensity draw l c d))
  where
    dimmed :
        (l1 : Lamp)
        → (m : ℕ) × Shows l.fault_prob_per_mille on m l1
        → Shows l.fault_prob_per_mille on 60
            (on_message later (body (MsgType.cmd, dim_payload uri)) l1)
    dimmed l1 (m, k) =
        rw
          (on_message-command later (command uri cmd_set_intensity 60) l1
            (short_command uri 3 60 h (omega arith) (omega arith)))
          (set_intensity-Shows later 60 l1.intensity l.fault_prob_per_mille l1.state l1
            (omega arith) k.0 k.2 e)

pub goes_out :
    (uri : Bytes) (draw : ℕ) (l : Lamp)
    → IsShort uri
    → is_on_or_off l.state ≡ true
    → IsConsistent l
    → Shows l.fault_prob_per_mille off 0 (on_message draw (body (MsgType.cmd, off_payload uri)) l)
unfolding on_command
goes_out uri draw l h c k =
    rw
      (on_message-command draw (command uri cmd_switch_off 0) l
        (short_command uri 2 0 h (omega arith) (omega arith)))
      (switch_off-Shows l.state l.intensity l c k)

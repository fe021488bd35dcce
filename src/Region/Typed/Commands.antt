-- ===== src/Region/Typed/Commands.antt =====
-- The types of what the regional server holds, through the commands to the lamps.
use smart_lighting_system.Base.{
  ℕ, inl, inr, Bool-cases, List, [], ◌∷◌, Option-cases, nat_eq, bytes_key,
}
use smart_lighting_system.Base.Assoc.{lookup}
use smart_lighting_system.Proto.Result.{Result, ok, err}
use smart_lighting_system.Proto.Messages.{Bytes}
use smart_lighting_system.Proto.Encode.{encode_command}
use smart_lighting_system.Registry.{get_lamps_in_zone}
use smart_lighting_system.Region.{Region, session_of}
use smart_lighting_system.Region.Session.{
  is_empty, queue_cmd, send_cmd, send_to_entry, send_cmd_to_uri,
}
use smart_lighting_system.Region.Motion.{
  is_normal, switch_on_lamps, switch_off_lamps, on_motion_on, on_motion_off, cmd_switch_on,
  cmd_switch_off, cmd_set_intensity,
}
use smart_lighting_system.Region.Typed.{IsTyped, session_send-IsTyped}

send_cmd-IsTyped : (id cmd value : ℕ) (r : Region) → IsTyped r → IsTyped (send_cmd id cmd value r)
unfolding send_cmd queue_cmd
send_cmd-IsTyped id cmd value r h = elim (Bool-cases (is_empty (session_of id r).uri)) [
  | inl e ↦ rw e h
  | inr e ↦
      rw e
        (queued (encode_command (record { uri = (session_of id r).uri; cmd = cmd; value = value })))
]
  where
    queued : (d : Result Bytes) → IsTyped (queue_cmd d id r)
    queued (ok p) = session_send-IsTyped id _ p r h
    queued (err x) = h

send_cmd_to_uri-IsTyped :
    (uri : Bytes) (cmd value : ℕ) (r : Region)
    → IsTyped r
    → IsTyped (send_cmd_to_uri uri cmd value r).0
unfolding send_cmd_to_uri send_to_entry
send_cmd_to_uri-IsTyped uri cmd value r h = elim (Option-cases (lookup uri r.sessions)) [
  | inl e ↦ rw e h
  | inr (id, e) ↦
      rw (e, send_to_entry)
        (elim (Option-cases (lookup id r.live)) [
          | inl e' ↦ rw e' h
          | inr (s, e') ↦ rw e' (send_cmd-IsTyped id cmd value r h)
        ])
]

switch_on_lamps-IsTyped :
    (lamps : List Bytes) (r : Region) → IsTyped r → IsTyped (switch_on_lamps lamps r)
unfolding switch_on_lamps
switch_on_lamps-IsTyped [] r h = h
switch_on_lamps-IsTyped (uri ∷ rest) r h =
    let r1 : Region = (send_cmd_to_uri uri cmd_switch_on 0 r).0 in
    switch_on_lamps-IsTyped rest (send_cmd_to_uri uri cmd_set_intensity 60 r1).0 (
      send_cmd_to_uri-IsTyped uri cmd_set_intensity 60 r1
        (send_cmd_to_uri-IsTyped uri cmd_switch_on 0 r h))

switch_off_lamps-IsTyped :
    (lamps : List Bytes) (r : Region) → IsTyped r → IsTyped (switch_off_lamps lamps r)
unfolding switch_off_lamps
switch_off_lamps-IsTyped [] r h = h
switch_off_lamps-IsTyped (uri ∷ rest) r h =
    switch_off_lamps-IsTyped rest (send_cmd_to_uri uri cmd_switch_off 0 r).0
      (send_cmd_to_uri-IsTyped uri cmd_switch_off 0 r h)

pub on_motion_on-IsTyped : (zone : ℕ) (r : Region) → IsTyped r → IsTyped (on_motion_on zone r)
unfolding on_motion_on
on_motion_on-IsTyped zone r h = elim (Bool-cases (is_normal r.fsm)) [
  | inl e ↦ rw e (switch_on_lamps-IsTyped (get_lamps_in_zone zone r.reg) r h)
  | inr e ↦ rw e h
]

pub on_motion_off-IsTyped : (zone : ℕ) (r : Region) → IsTyped r → IsTyped (on_motion_off zone r)
unfolding on_motion_off
on_motion_off-IsTyped zone r h = elim (Bool-cases (is_normal r.fsm)) [
  | inl e ↦ rw e (switch_off_lamps-IsTyped (get_lamps_in_zone zone r.reg) r h)
  | inr e ↦ rw e h
]

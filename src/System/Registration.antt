-- ===== src/System/Registration.antt =====
-- The registration of a lamp: luminaire_client.cpp and tls_device_server.hpp together.
use smart_lighting_system.Base.{
  ℕ, ◌≡◌, ◌≢◌, refl, sym, ap, ◌∙◌, inl, inr, true, false, Bool-cases, [], ◌∷◌, ◌++◌, some,
  append-nil, arith, nat_eq, bytes_key, bytes_eq_iff, ◌==◌, ==_refl, eqb, contains,
}
use smart_lighting_system.Base.Words.{u32, IsU32}
use smart_lighting_system.Base.Assoc.{lookup, insert, lookup-insert, lookup-insert_self}
use smart_lighting_system.Proto.MsgType
use smart_lighting_system.Proto.DeviceType
use smart_lighting_system.Proto.Messages.{Bytes, RegisterReq}
use smart_lighting_system.Proto.Fits.{IsShort, RegisterReqFits}
use smart_lighting_system.Proto.Encode.{encode_register_ack}
use smart_lighting_system.Proto.RoundTrip.Device.{
  register_req_layout, encode_register_req_lem, decode-encode_register_req,
}
use smart_lighting_system.Registry.{DeviceState, Registry, get, get_lamps_in_zone, register_lamp}
use smart_lighting_system.Registry.Lamps.{IsIndexed, get-upsert}
use smart_lighting_system.Fsm.{allows}
use smart_lighting_system.Fsm.Server.{normal_operation}
use smart_lighting_system.Fsm.Lamp.{LampState, unregistered, registering, off, switch_to, to_string}
use smart_lighting_system.Outbox.{queue_send}
use smart_lighting_system.Region.{
  Clock, DeviceSession, new_session, session_or_new, Region, session_of, set_session, session_send,
}
use smart_lighting_system.Region.Session.{
  blank, is_empty, registry_with, handle_register, on_accept,
}
use smart_lighting_system.Region.Session as Session
use smart_lighting_system.Region.Invariant.{IsSound, on_message-IsSound}
use smart_lighting_system.Region.Routing.{posted_in}
use smart_lighting_system.Region.Serves.{Serves}
use smart_lighting_system.Lamp.{
  Lamp, switch_state, send, send_register, on_connected, schedule_heartbeat, send_status,
}
use smart_lighting_system.Lamp.Message.{on_message, on_register_ack, cancel_register_timeout}
use smart_lighting_system.Lamp.Commanded.{Shows, send-Shows}
use smart_lighting_system.System.Motion.{Ready}

-- The request of a lamp.
abbrev pub request_of : Lamp → RegisterReq
request_of l = record { type = DeviceType.luminaire; uri = l.uri; zone_id = l.zone }

-- A lamp that can register: its uri and zone are accepted, and fit the message.
pub record CanRegister (l : Lamp) : Type 0 where
  pub named : is_empty l.uri ≡ false
  pub zoned : eqb l.zone 0 ≡ false
  pub short : IsShort l.uri
  pub fits : IsU32 l.zone

request-Fits : (l : Lamp) → CanRegister l → RegisterReqFits (request_of l)
request-Fits l h = record { type = omega arith; uri = h.short; zone_id = h.fits }

-- A session that is registered under a new uri.
abbrev session_for : RegisterReq → ℕ → DeviceSession
session_for req now = record {
  uri = req.uri;
  registered = true;
  session_type = req.type;
  outbox =
      queue_send MsgType.register_ack (encode_register_ack (record { server_time_unix = now }))
        new_session.outbox;
}

registered_region : ℕ → RegisterReq → Clock → Region → Region
registered_region id req clock r = record r {
  reg = registry_with req clock.now_ms r.reg;
  sessions = insert req.uri id r.sessions;
  live = insert id (session_for req (u32 clock.unix)) (
      insert id (record new_session { registered = true; session_type = req.type; uri = req.uri })
        (insert id new_session r.live));
}

register_lem :
    (id : ℕ) (req : RegisterReq) (clock : Clock) (r : Region)
    → is_empty req.uri ≡ false
    → eqb req.zone_id 0 ≡ false
    → handle_register id req clock (on_accept id r) ≡ registered_region id req clock r
unfolding handle_register registered_region on_accept set_session session_send session_of
register_lem id req clock r n z =
    let me : DeviceSession = record new_session {
      registered = true;
      session_type = req.type;
      uri = req.uri;
    } in
    rw (n, z)
      (rw (lookup-insert_self id new_session r.live)
        (rw (lookup-insert_self id me (insert id new_session r.live)) refl))

-- No entry leads to a session yet.
abbrev pub Unknown : ℕ → Region → Type 0
Unknown id r = (u : Bytes) → lookup u r.sessions ≢ some id

registered-Serves :
    (id : ℕ) (req : RegisterReq) (clock : Clock) (r : Region)
    → Unknown id r
    → Serves req.uri id (session_for req (u32 clock.unix)) (registered_region id req clock r)
unfolding registered_region
registered-Serves id req clock r fresh = record {
  entry = lookup-insert_self req.uri id r.sessions;
  session = lookup-insert_self id (session_for req (u32 clock.unix)) _;
  own = λ u e. elim (Bool-cases (req.uri == u)) [
    | inl q ↦ sym ((bytes_eq_iff req.uri u).0 q)
    | inr q ↦ absurd (fresh u (sym (lookup-insert req.uri u id r.sessions ∙ rw q refl) ∙ e))
  ];
}

-- The registry holds the lamp in the list of its zone.
registered-listed :
    (l : Lamp) (clock : Clock) (reg : Registry)
    → IsIndexed (registry_with (request_of l) clock.now_ms reg)
    → eqb l.zone 0 ≡ false
    → contains l.uri (get_lamps_in_zone l.zone (registry_with (request_of l) clock.now_ms reg))
      ≡ true
unfolding get register_lamp
registered-listed l clock reg i z =
    let st : DeviceState = record (blank DeviceType.luminaire l.zone) {
      last_seen_ms = clock.now_ms;
    } in
    let stored : get l.uri (registry_with (request_of l) clock.now_ms reg) ≡ some st =
      get-upsert l.uri l.uri st reg ∙ rw (==_refl l.uri) refl in
    i.listed l.uri st stored refl (ground (arith, z))

-- The body of the request, as the session handles it.
on_request :
    (id : ℕ) (l : Lamp) (clock : Clock) (r : Region)
    → CanRegister l
    → Session.on_message id
        (MsgType.register_req ∷ register_req_layout (request_of l))
        clock
        (on_accept id r)
      ≡ registered_region id (request_of l) clock r
unfolding Session.on_message
on_request id l clock r h =
    let e = decode-encode_register_req (request_of l) [] (request-Fits l h) in
    let e' = rw (encode_register_req_lem (request_of l) (request-Fits l h)) at e in
    let decoded = rw append-nil at e' in
    rw decoded (register_lem id (request_of l) clock r h.named h.zoned)

registered-Ready :
    (n id : ℕ) (l : Lamp) (clock : Clock) (r : Region)
    → CanRegister l
    → IsSound n r
    → r.fsm ≡ normal_operation
    → Unknown id r
    → Ready l.zone l.uri id
        (session_for (request_of l) (u32 clock.unix))
        (registered_region id (request_of l) clock r)
registered-Ready n id l clock r c s normal fresh =
    let before : IsSound n (on_accept id r) = unfold on_accept set_session in s in
    let after =
      on_message-IsSound n id (MsgType.register_req ∷ register_req_layout (request_of l)) clock
        (on_accept id r) before in
    let sound : IsSound n (registered_region id (request_of l) clock r) =
      rw (on_request id l clock r c) at after in
    record {
      normal = unfold registered_region in normal;
      indexed = sound.indexed;
      listed = unfold registered_region in registered-listed l clock r.reg sound.indexed c.zoned;
      serves = registered-Serves id (request_of l) clock r fresh;
      registered = refl;
      named = c.named;
      short = c.short;
    }

-- The lamp's side, in the state that it connects in.
connected_lem :
    (s : LampState) (l : Lamp)
    → CanRegister l
    → s ≡ unregistered
    → l.has_socket ≡ true
    → let l1 = on_connected (record l { state = s }) in
      (l1.outbox.posted
        ≡ l.outbox.posted ++ (MsgType.register_req, register_req_layout (request_of l)) ∷ [])
      × (l1.state ≡ registering)
      × (l1.fault_prob_per_mille ≡ l.fault_prob_per_mille)
unfolding on_connected send_register switch_state switch_to allows to_string send queue_send
connected_lem unregistered l h e c =
    rw (encode_register_req_lem (request_of l) (request-Fits l h), c) (refl, refl, refl)
connected_lem _ l h e c = cc

heartbeat-Shows :
    (p n : ℕ) (s : LampState) (l : Lamp) → Shows p s n l → Shows p s n (schedule_heartbeat l)
unfolding schedule_heartbeat
heartbeat-Shows p n s l h = elim (Bool-cases (eqb l.heartbeat_s 0)) [
  | inl e ↦ rw e h
  | inr e ↦ rw e h
]

acknowledged_lem :
    (s : LampState) (draw p : ℕ) (ack : Bytes) (l : Lamp)
    → s ≡ registering
    → l.fault_prob_per_mille ≡ p
    → Shows p off 0 (on_message draw (MsgType.register_ack ∷ ack) (record l { state = s }))
unfolding on_message on_register_ack cancel_register_timeout switch_state switch_to allows to_string
    send_status
acknowledged_lem registering draw p ack l e f =
    let l0 : Lamp = record l {
      state = off;
      intensity = 0;
      timers = record l.timers { register_timeout = false };
    } in
    heartbeat-Shows p 0 off (send_status l0) (send-Shows p 0 _ off _ l0 (refl, refl, f))
acknowledged_lem _ draw p ack l e f = cc

registered-posted :
    (id : ℕ) (req : RegisterReq) (clock : Clock) (r : Region)
    → posted_in id (registered_region id req clock r)
      ≡ (MsgType.register_ack, encode_register_ack (record { server_time_unix = u32 clock.unix }))
        ∷ []
unfolding registered_region session_of queue_send
registered-posted id req clock r =
    ap (λ o. (session_or_new o).outbox.posted)
      (lookup-insert_self id (session_for req (u32 clock.unix)) _)

-- A lamp with a uri and a zone other than 0 that connects, UNREGISTERED, to a regional server in
-- NORMAL_OPERATION posts its REGISTER_REQ. The session that was accepted for it answers the body with
-- one REGISTER_ACK, and the server then has the lamp in the list of its zone and the session as its
-- only one. The lamp is off with intensity 0 after the ACK.
pub registration :
    (n id draw : ℕ) (clock : Clock) (l : Lamp) (r : Region)
    → CanRegister l
    → l.state ≡ unregistered
    → l.has_socket ≡ true
    → IsSound n r
    → r.fsm ≡ normal_operation
    → Unknown id r
    → let request = register_req_layout (request_of l) in
      let ack = encode_register_ack (record { server_time_unix = u32 clock.unix }) in
      let r' = Session.on_message id (MsgType.register_req ∷ request) clock (on_accept id r) in
      let l1 = on_connected l in
      (l1.outbox.posted ≡ l.outbox.posted ++ (MsgType.register_req, request) ∷ [])
      × (posted_in id r' ≡ (MsgType.register_ack, ack) ∷ [])
      × ((s : DeviceSession) × Ready l.zone l.uri id s r')
      × Shows l.fault_prob_per_mille off 0 (on_message draw (MsgType.register_ack ∷ ack) l1)
registration n id draw clock l r c u k s normal fresh =
    let l1 : Lamp = on_connected l in
    let t = connected_lem l.state l c u k in
    let ack : Bytes = encode_register_ack (record { server_time_unix = u32 clock.unix }) in
    rw (on_request id l clock r c) (
      t.0,
      registered-posted id (request_of l) clock r,
      (
        session_for (request_of l) (u32 clock.unix),
        registered-Ready n id l clock r c s normal fresh,
      ),
      acknowledged_lem l1.state draw l.fault_prob_per_mille ack l1 t.1 t.2,
    )

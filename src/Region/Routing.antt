-- ===== src/Region/Routing.antt =====
-- The session map of tls_device_server.hpp: where a command for a uri goes.
use smart_lighting_system.Base.{
  ℕ, ◌≡◌, refl, ap, ◌∙◌, true, false, List, [], ◌∷◌, ◌++◌, some, nat_eq, bytes_key, eqb, ==_refl,
}
use smart_lighting_system.Base.Words.{u32}
use smart_lighting_system.Base.Assoc.{lookup, lookup-insert_self, lookup-erase}
use smart_lighting_system.Proto.Result.{ok}
use smart_lighting_system.Proto.MsgType
use smart_lighting_system.Proto.Messages.{Bytes, RegisterReq}
use smart_lighting_system.Proto.Encode.{encode_command, encode_register_ack}
use smart_lighting_system.Outbox.{OutMsg, queue_send}
use smart_lighting_system.Region.{
  Clock, DeviceSession, Region, session_of, set_session, session_send,
}
use smart_lighting_system.Region.Session.{
  is_empty, handle_register, closed_entry, on_close, queue_cmd, send_cmd, send_to_entry,
  send_cmd_to_uri,
}

-- What is posted in a session.
abbrev pub posted_in : ℕ → Region → List OutMsg
posted_in id r = (session_of id r).outbox.posted

pub session_of-set :
    (id : ℕ) (s : DeviceSession) (r : Region) → session_of id (set_session id s r) ≡ s
unfolding session_of set_session
session_of-set id s r = rw (lookup-insert_self id s r.live) refl

posted_in-session_send :
    (id t : ℕ) (p : Bytes) (r : Region)
    → posted_in id (session_send id t p r) ≡ posted_in id r ++ (t, p) ∷ []
unfolding session_send queue_send
posted_in-session_send id t p r =
    ap (λ (s : DeviceSession). s.outbox.posted) (session_of-set id _ r)

send_cmd_lem :
    (id cmd value : ℕ) (payload : Bytes) (r : Region)
    → is_empty (session_of id r).uri ≡ false
    → encode_command (record { uri = (session_of id r).uri; cmd = cmd; value = value }) ≡ ok payload
    → send_cmd id cmd value r ≡ session_send id MsgType.cmd payload r
unfolding send_cmd queue_cmd
send_cmd_lem id cmd value payload r n p = rw (n, p) refl

-- The command goes to the session that the uri's entry names if that session is live, as a command
-- for the uri that the session registered last; without a live session the call fails.
pub send_cmd_to_uri_lem :
    (uri : Bytes) (id cmd value : ℕ) (s : DeviceSession) (payload : Bytes) (r : Region)
    → lookup uri r.sessions ≡ some id
    → lookup id r.live ≡ some s
    → is_empty s.uri ≡ false
    → encode_command (record { uri = s.uri; cmd = cmd; value = value }) ≡ ok payload
    → send_cmd_to_uri uri cmd value r ≡ (session_send id MsgType.cmd payload r, true)
unfolding send_cmd_to_uri send_to_entry session_of
send_cmd_to_uri_lem uri id cmd value s payload r e l n p =
    let same : session_of id r ≡ s = rw l refl in
    rw (e, send_to_entry)
      (rw l (
        ap (λ (r' : Region). (r', true))
          (send_cmd_lem id cmd value payload r (rw same n) (rw same p))))

-- After a valid registration, a command for its uri is posted in that session, behind the ACK.
pub register-send_cmd_to_uri :
    (id : ℕ) (req : RegisterReq) (clock : Clock) (cmd value : ℕ) (payload : Bytes) (r : Region)
    → is_empty req.uri ≡ false
    → eqb req.zone_id 0 ≡ false
    → encode_command (record { uri = req.uri; cmd = cmd; value = value }) ≡ ok payload
    → let r1 = handle_register id req clock r in
      let (r2, sent) = send_cmd_to_uri req.uri cmd value r1 in
      (sent ≡ true)
      × (posted_in id r2
          ≡ (posted_in id r
              ++ (
                MsgType.register_ack,
                encode_register_ack (record { server_time_unix = u32 clock.unix }),
              )
                ∷ [])
            ++ (MsgType.cmd, payload) ∷ [])
unfolding handle_register
register-send_cmd_to_uri id req clock cmd value payload r n z p =
    rw (n, z) (reaches _ (lookup-insert_self req.uri id r.sessions))
  where
    ack : Bytes
    ack = encode_register_ack (record { server_time_unix = u32 clock.unix })

    me : DeviceSession
    me = record (session_of id r) { registered = true; session_type = req.type; uri = req.uri }

    reaches :
        (r0 : Region)
        → lookup req.uri r0.sessions ≡ some id
        → let r1 = session_send id MsgType.register_ack ack (set_session id me r0) in
          let (r2, sent) = send_cmd_to_uri req.uri cmd value r1 in
          (sent ≡ true)
          × (posted_in id r2
              ≡ (posted_in id r ++ (MsgType.register_ack, ack) ∷ []) ++ (MsgType.cmd, payload) ∷ [])
    reaches r0 e =
        let r1 : Region = session_send id MsgType.register_ack ack (set_session id me r0) in
        let s1 : DeviceSession = record me {
          outbox = queue_send MsgType.register_ack ack me.outbox;
        } in
        let l : lookup id r1.live ≡ some s1 =
          unfold session_send set_session in
          (rw (session_of-set id me r0) (lookup-insert_self id s1 _)) in
        let entry : lookup req.uri r1.sessions ≡ some id = unfold session_send set_session in e in
        let sends = send_cmd_to_uri_lem req.uri id cmd value s1 payload r1 entry l n p in
        let here =
          posted_in-session_send id MsgType.cmd payload r1
          ∙ ap (λ (l : List OutMsg). l ++ (MsgType.cmd, payload) ∷ [])
              (posted_in-session_send id MsgType.register_ack ack (set_session id me r0)
                ∙ ap (λ (s : DeviceSession). s.outbox.posted ++ (MsgType.register_ack, ack) ∷ [])
                    (session_of-set id me r0)) in
        rw sends (refl, here)

-- A session that closes takes its own entry with it, so that commands for its uri fail from then on;
-- it leaves the entry of a session that has registered the same uri since and is live.
pub on_close_lem :
    (id other cmd value : ℕ) (s : DeviceSession) (r : Region)
    → let uri = (session_of id r).uri in
      is_empty uri ≡ false
      → lookup uri r.sessions ≡ some other
      → lookup other r.live ≡ some s
      → (eqb other id ≡ true → (send_cmd_to_uri uri cmd value (on_close id r)).1 ≡ false)
        × (eqb other id ≡ false → on_close id r ≡ r)
unfolding on_close closed_entry send_cmd_to_uri send_to_entry
on_close_lem id other cmd value s r n e l = (
  λ q.
      rw (n, e, l, closed_entry)
        (rw q (
          rw
            (
              lookup-erase (session_of id r).uri (session_of id r).uri r.sessions,
              ==_refl (session_of id r).uri,
            )
            refl)),
  λ q. rw (n, e, closed_entry) (rw l (rw q refl)),
)

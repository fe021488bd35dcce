-- ===== src/Region/Serves.antt =====
-- The session that serves a lamp, through the commands to all lamps of a zone.
use smart_lighting_system.Base.{
  ℕ, ◌≡◌, ◌≢◌, refl, sym, ap, ◌∙◌, inl, inr, Bool, true, false, Bool-cases, Option, none, some,
  nat_eq, bytes_key, ◌==◌, ==_ne, if◌then◌else◌,
}
use smart_lighting_system.Base.Assoc.{
  lookup, erase, lookup-insert_self, lookup-insert_ne, lookup-erase,
}
use smart_lighting_system.Proto.Result.{Result, ok, err}
use smart_lighting_system.Proto.MsgType
use smart_lighting_system.Proto.Messages.{Bytes}
use smart_lighting_system.Proto.Encode.{encode_command}
use smart_lighting_system.Outbox.{queue_send}
use smart_lighting_system.Region.{DeviceSession, Region, session_of, set_session, session_send}
use smart_lighting_system.Region.Session.{
  is_empty, queue_cmd, send_cmd, send_to_entry, send_cmd_to_uri,
}
use smart_lighting_system.Region.Routing.{send_cmd_to_uri_lem}

-- The uri leads to the session `s`, and no other uri leads there.
pub record Serves (uri : Bytes) (id : ℕ) (s : DeviceSession) (r : Region) : Type 0 where
  pub entry : lookup uri r.sessions ≡ some id
  pub session : lookup id r.live ≡ some s
  pub own : (u : Bytes) → lookup u r.sessions ≡ some id → u ≡ uri

-- The session with one more message posted.
abbrev pub with_posted : ℕ → Bytes → DeviceSession → DeviceSession
with_posted t p s = record s { outbox = queue_send t p s.outbox }

session_send-Serves :
    (uri : Bytes) (id t : ℕ) (p : Bytes) (s : DeviceSession) (r : Region)
    → Serves uri id s r
    → Serves uri id (with_posted t p s) (session_send id t p r)
unfolding session_send set_session session_of
session_send-Serves uri id t p s r h = record {
  entry = h.entry;
  session = rw h.session (lookup-insert_self id _ r.live);
  own = h.own;
}

session_send-Serves_other :
    (uri : Bytes) (id other t : ℕ) (p : Bytes) (s : DeviceSession) (r : Region)
    → other ≢ id
    → Serves uri id s r
    → Serves uri id s (session_send other t p r)
unfolding session_send set_session
session_send-Serves_other uri id other t p s r n h = record {
  entry = h.entry;
  session = lookup-insert_ne other id _ r.live n ∙ h.session;
  own = h.own;
}

pub send_own-Serves :
    (uri : Bytes) (id cmd value : ℕ) (s : DeviceSession) (payload : Bytes) (r : Region)
    → is_empty s.uri ≡ false
    → encode_command (record { uri = s.uri; cmd = cmd; value = value }) ≡ ok payload
    → Serves uri id s r
    → Serves uri id (with_posted MsgType.cmd payload s) (send_cmd_to_uri uri cmd value r).0
send_own-Serves uri id cmd value s payload r n p h =
    rw (send_cmd_to_uri_lem uri id cmd value s payload r h.entry h.session n p)
      (session_send-Serves uri id MsgType.cmd payload s r h)

send_cmd-Serves_other :
    (uri : Bytes) (id other cmd value : ℕ) (s : DeviceSession) (r : Region)
    → other ≢ id
    → Serves uri id s r
    → Serves uri id s (send_cmd other cmd value r)
unfolding send_cmd queue_cmd
send_cmd-Serves_other uri id other cmd value s r n h =
    elim (Bool-cases (is_empty (session_of other r).uri)) [
      | inl e ↦ rw e h
      | inr e ↦ rw e (
          queued
            (encode_command (record { uri = (session_of other r).uri; cmd = cmd; value = value })))
    ]
  where
    queued : (d : Result Bytes) → Serves uri id s (queue_cmd d other r)
    queued (ok p) = session_send-Serves_other uri id other MsgType.cmd p s r n h
    queued (err e) = h

-- A command to another uri leaves the session as it is.
pub send_other-Serves :
    (uri u : Bytes) (id cmd value : ℕ) (s : DeviceSession) (r : Region)
    → u ≢ uri
    → Serves uri id s r
    → Serves uri id s (send_cmd_to_uri u cmd value r).0
unfolding send_cmd_to_uri
send_other-Serves uri u id cmd value s r n h = to_entry (lookup u r.sessions) refl
  where
    kept : (b : Bool) (o : Option ℕ) → (if b then none else o) ≡ some id → o ≡ some id
    kept true o e = cc
    kept false o e = e

    erased : Serves uri id s (record r { sessions = erase u r.sessions })
    erased = record {
      entry = lookup-erase u uri r.sessions ∙ rw (==_ne n) h.entry;
      session = h.session;
      own = λ v e.
          h.own v (kept (u == v) (lookup v r.sessions) (sym (lookup-erase u v r.sessions) ∙ e));
    }

    to_live :
        (other : ℕ) (o : Option DeviceSession)
        → other ≢ id
        → lookup other r.live ≡ o
        → Serves uri id s (send_to_entry (some other) u cmd value r).0
    to_live other none m e = rw (e, send_to_entry) erased
    to_live other (some x) m e =
        rw (e, send_to_entry) (send_cmd-Serves_other uri id other cmd value s r m h)

    to_entry :
        (o : Option ℕ) → lookup u r.sessions ≡ o → Serves uri id s (send_to_entry o u cmd value r).0
    to_entry none e = h
    to_entry (some other) e =
        to_live other (lookup other r.live) (λ q. n (h.own u (e ∙ ap some q))) refl

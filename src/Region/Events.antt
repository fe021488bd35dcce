-- ===== src/Region/Events.antt =====
-- The events that the regional server handles, one after the other.
use smart_lighting_system.Base.{
  ℕ, Bool, false, ◌||◌, eqb, if◌then◌else◌, List, [], ◌∷◌, Option, none, some, nat_eq,
}
use smart_lighting_system.Base.Assoc.{lookup}
use smart_lighting_system.Proto.Messages.{Bytes}
use smart_lighting_system.Outbox.{run_posted, on_written}
use smart_lighting_system.Region.{Clock, DeviceSession, Region, session_of, set_session}
use smart_lighting_system.Region.Session.{on_accept, on_message, on_close, destroy}
use smart_lighting_system.Region.Telemetry.{telemetry_of, on_datagram}
use smart_lighting_system.Region.Tick.{on_tick}

pub data Event : Type 0 where
  accepted read_failed gone posted written : ℕ → Event
  message : ℕ → Bytes → Event
  datagram : Bytes → Event
  tick : Event

-- A session's posted handler runs, and a session's write ends well.
unfoldable pub on_session_posted : ℕ → Region → Region
unfolding session_of set_session run_posted
on_session_posted id r =
    let s = session_of id r in
    set_session id (record s { outbox = run_posted s.outbox s.outbox.posted }) r

unfoldable pub on_session_written : ℕ → Region → Region
unfolding session_of set_session on_written
on_session_written id r =
    let s = session_of id r in set_session id (record s { outbox = on_written s.outbox }) r

-- A weak pointer of sessions_ that leads to this identity, expired or not.
unfoldable pub names_session : ℕ → List (Bytes × ℕ) → Bool
names_session id [] = false
names_session id ((uri, j) ∷ rest) = eqb j id || names_session id rest

-- A new session has an identity of its own: none that lives, and none that a weak pointer is left of.
unfoldable pub accept_new : ℕ → Region → Region
unfolding names_session
accept_new id r = if names_session id r.sessions then r else on_accept id r

-- Only a live session has handlers.
unfoldable pub if_live : Option DeviceSession → Region → Region → Region
if_live none r r' = r
if_live (some s) r r' = r'

unfoldable pub if_free : Option DeviceSession → Region → Region → Region
if_free none r r' = r'
if_free (some s) r r' = r

-- None where the behaviour is undefined.
unfoldable pub handle : ℕ → Event → Clock → Region → Option Region
unfolding if_live if_free accept_new
handle timeout_ms (accepted id) clock r = some (if_free (lookup id r.live) r (accept_new id r))
handle timeout_ms (read_failed id) clock r = some (if_live (lookup id r.live) r (on_close id r))
handle timeout_ms (gone id) clock r = some (destroy id r)
handle timeout_ms (posted id) clock r = some (if_live (lookup id r.live) r (on_session_posted id r))
handle timeout_ms (written id) clock r =
    some (if_live (lookup id r.live) r (on_session_written id r))
handle timeout_ms (message id body) clock r =
    some (if_live (lookup id r.live) r (on_message id body clock r))
handle timeout_ms (datagram buf) clock r = on_datagram (telemetry_of buf) clock r
handle timeout_ms tick clock r = some (on_tick timeout_ms clock r)

unfoldable pub continue : (Region → Option Region) → Option Region → Option Region
continue f none = none
continue f (some r) = f r

unfoldable pub run : ℕ → List (Event × Clock) → Region → Option Region
run timeout_ms [] r = some r
run timeout_ms ((e, clock) ∷ rest) r = continue (run timeout_ms rest) (handle timeout_ms e clock r)

-- ===== src/Central/Session.antt =====
-- CentralSession and CentralTlsServer of central_tls_server.hpp: the sessions, each with the operation
-- that it waits for. async_read ends with as many bytes as the session asked for, or with an error.
pub mod Reading
pub mod Run
pub mod Step
pub mod Found
pub mod Streams
use smart_lighting_system.Base.{
  ℕ, ◌+◌, ◌≤◌, ◌≡◌, refl, ap, ◌∙◌, inl, inr, ◌⊎◌, Bool, true, false, ◌||◌, Bool-cases, List, [],
  ◌∷◌, ◌++◌, Option, none, some, append_assoc, arith, nat_eq, ltb, length, All, if◌then◌else◌,
}
use smart_lighting_system.Base.Assoc.{lookup, insert}
use smart_lighting_system.Proto.Messages.{Bytes}
use smart_lighting_system.Proto.Frame.{header_length, max_body}
use smart_lighting_system.Central.{Central, OutMsg, on_message}
use smart_lighting_system.Central.Invariant.{serve}

pub data Phase : Type 0 where
  handshaking reading_header ended : Phase
  reading_body : ℕ → Phase

-- The end of an operation: of the handshake, of a read with its bytes, or an error.
pub data Completion : Type 0 where
  shaken failed : Completion
  arrived : Bytes → Completion

-- What a handler leaves.
pub record Turn : Type 0 where
  pub phase : Phase
  pub central : Central
  pub sent : List OutMsg

abbrev pub goes_to : Phase → Central → Turn
goes_to ph c = record { phase = ph; central = c; sent = [] }

unfoldable pub read_header : Bytes → Central → Turn
unfolding header_length
read_header hdr c =
    let n = header_length hdr in
    if ltb n 1 || ltb max_body n then goes_to ended c else goes_to (reading_body n) c

unfoldable pub read_body : ℕ → Bytes → Central → Turn
read_body ts body c =
    let (c', out) = on_message ts body c in
    record { phase = reading_header; central = c'; sent = out }

-- The handler of the operation that a session waits for. Nothing else can end.
unfoldable pub on_completion : ℕ → Phase → Completion → Central → Turn
unfolding read_header read_body
on_completion ts handshaking shaken c = goes_to reading_header c
on_completion ts reading_header (arrived hdr) c = read_header hdr c
on_completion ts (reading_body n) (arrived body) c = read_body ts body c
on_completion ts ended _ c = goes_to ended c
on_completion ts _ failed c = goes_to ended c
on_completion ts ph _ c = goes_to ph c

pub record CentralServer : Type 0 where
  pub central : Central
  pub sessions : List (ℕ × Phase)

-- do_accept brings a session, under a number that none has; any other event ends an operation of a
-- session. Each comes with the time stamp that a database event gets.
pub data Event : Type 0 where
  accept : ℕ → Event
  complete : ℕ → ℕ → Completion → Event

abbrev pub addressed : ℕ → List OutMsg → List (ℕ × OutMsg)
addressed id [] = []
addressed id (m ∷ ms) = (id, m) ∷ addressed id ms

-- A handler's turn goes into the server, and its messages out.
abbrev pub set_turn : ℕ → Turn → CentralServer → CentralServer × List (ℕ × OutMsg)
set_turn id t s =
    (record { central = t.central; sessions = insert id t.phase s.sessions }, addressed id t.sent)

-- What becomes of the end of an operation of the session that is found.
abbrev pub completes :
    ℕ → ℕ → Completion → CentralServer → Option Phase → CentralServer × List (ℕ × OutMsg)
completes ts id e s none = (s, [])
completes ts id e s (some ph) = set_turn id (on_completion ts ph e s.central) s

unfoldable pub handle : CentralServer → Event → CentralServer × List (ℕ × OutMsg)
handle s (accept id) = (record s { sessions = insert id handshaking s.sessions }, [])
handle s (complete ts id e) = completes ts id e s (lookup id s.sessions)

unfoldable pub run : List Event → CentralServer → CentralServer
run [] s = s
run (e ∷ es) s = run es (handle s e).0

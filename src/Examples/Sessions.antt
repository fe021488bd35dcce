-- ===== src/Examples/Sessions.antt =====
-- Two sessions of the central server at once.
use smart_lighting_system.Base.{◌≡◌, refl, List, [], ◌∷◌, nat_eq}
use smart_lighting_system.Base.Assoc.{lookup, insert}
use smart_lighting_system.Proto.MsgType
use smart_lighting_system.Proto.Bytes.{from_be32}
use smart_lighting_system.Proto.Frame.{header_length, bytes_word, received}
use smart_lighting_system.Central.Invariant.{serve}
use smart_lighting_system.Central.Session.{
  handle, run, on_completion, read_header, read_body, Event, accept, complete, shaken, failed,
  arrived,
}
use smart_lighting_system.Central.Session.Run.{
  IsRun, accepts, ends, stops, shakes, fails_header, header_arrives, body_arrives, handled, stamped,
  bodies_for, bytes_for,
}
use smart_lighting_system.Central.Session.Streams.{new_server, run-serves}
use smart_lighting_system.Examples.{new_central}
use smart_lighting_system.Examples.Servers.{alarm_body}

-- The administrator's request comes between the header and the body of an alarm.
abbrev two_sessions : List Event
two_sessions =
    accept 1
    ∷ accept 2
    ∷ complete 0 1 shaken
    ∷ complete 0 2 shaken
    ∷ complete 0 1 (arrived (0 ∷ 0 ∷ 0 ∷ 21 ∷ []))
    ∷ complete 0 2 (arrived (0 ∷ 0 ∷ 0 ∷ 1 ∷ []))
    ∷ complete 5 2 (arrived (MsgType.admin_snapshot_req ∷ []))
    ∷ complete 0 2 failed
    ∷ complete 6 1 (arrived alarm_body)
    ∷ []

two_sessions-IsRun : IsRun (new_server new_central) two_sessions
unfolding handle lookup insert on_completion read_header read_body header_length bytes_word
    from_be32
two_sessions-IsRun = accepts refl (
    accepts refl (
      ends refl shakes (
        ends refl shakes (
          ends refl (header_arrives refl) (
            ends refl (header_arrives refl)
              (ends refl body_arrives (ends refl fails_header (ends refl body_arrives stops))))))))

run-serves_example :
    let xs = handled two_sessions (new_server new_central) in
    ((run two_sessions (new_server new_central)).central ≡ serve (stamped xs) new_central)
    × (bodies_for 1 xs ≡ received (bytes_for 1 two_sessions))
run-serves_example = run-serves two_sessions new_central 1 two_sessions-IsRun

-- The order in which the two bodies are handled.
two_sessions_handled :
    handled two_sessions (new_server new_central)
    ≡ (2, (5, MsgType.admin_snapshot_req ∷ [])) ∷ (1, (6, alarm_body)) ∷ []
unfolding handled handle lookup insert on_completion read_header read_body header_length bytes_word
    from_be32
two_sessions_handled = refl

-- ===== src/Examples/Registration.antt =====
-- A lamp registers with a regional server that has just started.
use smart_lighting_system.Base.{◌≡◌, refl, [], ◌∷◌, ◌++◌, arith, nat_eq, bytes_key}
use smart_lighting_system.Base.Assoc.{lookup}
use smart_lighting_system.Proto.MsgType
use smart_lighting_system.Proto.Encode.{encode_register_ack}
use smart_lighting_system.Proto.RoundTrip.Device.{register_req_layout}
use smart_lighting_system.Fsm.{allows}
use smart_lighting_system.Fsm.Server as ServerFsm
use smart_lighting_system.Fsm.Lamp.{unregistered, off}
use smart_lighting_system.Lamp.{Lamp, on_connected}
use smart_lighting_system.Lamp.Message.{on_message}
use smart_lighting_system.Lamp.Commanded.{Shows}
use smart_lighting_system.Region.{DeviceSession, switch_fsm}
use smart_lighting_system.Region.Session as Session
use smart_lighting_system.Region.Tick.{boot}
use smart_lighting_system.Region.Events.{run}
use smart_lighting_system.Region.Invariant.{IsSound}
use smart_lighting_system.Region.Always.{always-IsSound}
use smart_lighting_system.Region.Routing.{posted_in}
use smart_lighting_system.System.Motion.{Ready}
use smart_lighting_system.System.Registration.{request_of, registration}
use smart_lighting_system.Examples.{noon}
use smart_lighting_system.Examples.Lights.{lamp_off}

abbrev new_lamp : Lamp
new_lamp = record lamp_off { state = unregistered }

boot-IsSound_now : IsSound 3 (boot 3)
unfolding run
boot-IsSound_now = always-IsSound 3 20000 [] (boot 3) refl

registration_example :
    let request = register_req_layout (request_of new_lamp) in
    let ack = encode_register_ack (record { server_time_unix = 1700000000 }) in
    let r' =
      Session.on_message 1 (MsgType.register_req ∷ request) noon (Session.on_accept 1 (boot 3)) in
    let l1 = on_connected new_lamp in
    (l1.outbox.posted ≡ [] ++ (MsgType.register_req, request) ∷ [])
    × (posted_in 1 r' ≡ (MsgType.register_ack, ack) ∷ [])
    × ((s : DeviceSession) × Ready 7 new_lamp.uri 1 s r')
    × Shows 5 off 0 (on_message 300 (MsgType.register_ack ∷ ack) l1)
unfolding boot switch_fsm lookup allows ServerFsm.to_string
registration_example =
    registration 3 1 300 noon new_lamp (boot 3)
      (record { named = refl; zoned = refl; short = omega arith; fits = omega arith }) refl refl
      boot-IsSound_now refl (λ u e. cc)

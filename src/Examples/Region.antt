-- ===== src/Examples/Region.antt =====
-- The regional server, the lamp and the state machines.
use smart_lighting_system.Base.{
  ◌≡◌, refl, true, false, ◌⊎◌, [], ◌∷◌, none, some, arith, bytes_key, bytes_eq, nat_eq, eqb,
}
use smart_lighting_system.Base.Assoc.{lookup, insert}
use smart_lighting_system.Proto.Messages.{Bytes}
use smart_lighting_system.Registry.{get, detect_comm_lost, lost_loop}
use smart_lighting_system.Fsm.Server.{
  normal_operation, fault_handling, idle, switch_to, Step, server_switch_to_lem,
}
use smart_lighting_system.Fsm.Lamp as LampFsm
use smart_lighting_system.Outbox.{empty_outbox}
use smart_lighting_system.Lamp.{Lamp}
use smart_lighting_system.Lamp.Consistent.{IsConsistent}
use smart_lighting_system.Lamp.Events.{run-IsConsistent}
use smart_lighting_system.Lamp.Events as LampEvents
use smart_lighting_system.Region.{Region, DeviceSession, session_of, set_session, switch_fsm}
use smart_lighting_system.Region.Session.{on_accept, on_message, on_close, send_cmd_to_uri}
use smart_lighting_system.Region.Tick.{boot, on_tick}
use smart_lighting_system.Region.Events.{
  accepted, message, tick, if_live, if_free, accept_new, names_session, handle, continue, run,
}
use smart_lighting_system.Region.Invariant.{IsSound}
use smart_lighting_system.Region.Always.{always-IsSound}
use smart_lighting_system.Region.Typed.{IsTyped}
use smart_lighting_system.Region.Typed.Always.{always-IsTyped}
use smart_lighting_system.Region.Routing.{on_close_lem}
use smart_lighting_system.Region.CommLost.{on_tick_forgets}
use smart_lighting_system.Examples.{lamp_uri, sensor_uri, lit_lamp, quiet_sensor, noon}

-- A REGISTER_REQ of the lamp as it comes in.
abbrev register_body : Bytes
register_body = 1 ∷ 1 ∷ 0 ∷ 2 ∷ 108 ∷ 49 ∷ 0 ∷ 0 ∷ 0 ∷ 7 ∷ []

abbrev registered_region : Region
registered_region = on_message 1 register_body noon (on_accept 1 (boot 3))

always-IsSound_example : IsSound 3 (on_tick 20000 noon registered_region)
unfolding run handle continue if_live if_free accept_new names_session lookup insert boot switch_fsm
    on_accept set_session
always-IsSound_example =
    always-IsSound 3 20000
      ((accepted 1, noon) ∷ (message 1 register_body, noon) ∷ (tick, noon) ∷ [])
      (on_tick 20000 noon registered_region) refl

always-IsTyped_example : IsTyped (on_tick 20000 noon registered_region)
unfolding run handle continue if_live if_free accept_new names_session lookup insert boot switch_fsm
    on_accept set_session
always-IsTyped_example =
    always-IsTyped 3 20000
      ((accepted 1, noon) ∷ (message 1 register_body, noon) ∷ (tick, noon) ∷ [])
      (on_tick 20000 noon registered_region) (omega arith) (omega arith) refl

-- Two sessions of one lamp, of which the second has registered last.
abbrev lamp_session : DeviceSession
lamp_session = record { uri = lamp_uri; registered = true; session_type = 1; outbox = empty_outbox }

abbrev reconnected : Region
reconnected = record (boot 3) {
  sessions = (lamp_uri, 2) ∷ [];
  live = (1, lamp_session) ∷ (2, lamp_session) ∷ [];
}

on_close_lem_example :
    (eqb 2 1 ≡ true → (send_cmd_to_uri lamp_uri 1 0 (on_close 1 reconnected)).1 ≡ false)
    × (eqb 2 1 ≡ false → on_close 1 reconnected ≡ reconnected)
unfolding session_of lookup bytes_eq
on_close_lem_example = on_close_lem 1 2 1 0 lamp_session reconnected refl refl refl

-- The lamp was lost before, and the sensor has just been heard.
abbrev one_lost : Region
one_lost = record (boot 3) {
  reg = record {
    dev =
        (lamp_uri, record lit_lamp { fault = true })
        ∷ (sensor_uri, record quiet_sensor { last_seen_ms = 499000 })
        ∷ [];
    zone_to_lamps = [];
  };
  fsm = fault_handling;
  active_lost = lamp_uri ∷ [];
}

on_tick_forgets_example :
    let r' = on_tick 20000 noon one_lost in
    (get lamp_uri r'.reg ≡ some (record lit_lamp { fault = true }))
    × (r'.fsm ≡ normal_operation)
    × (r'.active_lost ≡ [])
unfolding get lookup detect_comm_lost lost_loop bytes_eq
on_tick_forgets_example =
    on_tick_forgets 20000 noon lamp_uri (record lit_lamp { fault = true }) one_lost
      (refl, (refl, tt)) refl refl refl refl

server_switch_to_lem_example :
    ((switch_to fault_handling idle ≡ (fault_handling, true)) × Step idle fault_handling)
    ⊎ ((switch_to fault_handling idle ≡ (idle, false)) × ¬ Step idle fault_handling)
server_switch_to_lem_example = server_switch_to_lem fault_handling idle

abbrev lamp_on : Lamp
lamp_on = record {
  uri = lamp_uri;
  zone = 7;
  heartbeat_s = 10;
  fault_prob_per_mille = 0;
  state = LampFsm.on;
  intensity = 30;
  timers = record { register_timeout = false; reconnect = false; heartbeat = true };
  has_socket = true;
  connecting = false;
  outbox = empty_outbox;
  pending_fault = none;
}

-- SET_INTENSITY 0
abbrev dim_body : Bytes
dim_body = 5 ∷ 0 ∷ 2 ∷ 108 ∷ 49 ∷ 3 ∷ 0 ∷ []

run-IsConsistent_example :
    IsConsistent
      (LampEvents.run (LampEvents.message 500 dim_body ∷ LampEvents.heartbeat ∷ []) lamp_on)
run-IsConsistent_example =
    run-IsConsistent (LampEvents.message 500 dim_body ∷ LampEvents.heartbeat ∷ []) lamp_on
      (omega arith) (omega arith)

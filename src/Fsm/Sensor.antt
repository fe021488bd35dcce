-- ===== src/Fsm/Sensor.antt =====
-- SensorFsm of sensor_udp.cpp.
use smart_lighting_system.Base.{
  ◌≡◌, refl, ◌⊎◌, inl, inr, Bool, true, false, Bool-cases, [], ◌∷◌, String, if◌then◌else◌,
}
use smart_lighting_system.Fsm.{TransitionMatrix, allows}

pub data SensorState : Type 0 where
  idle unregistered registering active fault : SensorState

unfoldable pub to_string : SensorState → String
to_string idle = "IDLE"
to_string unregistered = "UNREGISTERED"
to_string registering = "REGISTERING"
to_string active = "ACTIVE"
to_string fault = "FAULT"

abbrev pub transitions : TransitionMatrix
transitions =
    ("IDLE", "UNREGISTERED")
    ∷ ("UNREGISTERED", "REGISTERING")
    ∷ ("REGISTERING", "ACTIVE")
    ∷ ("REGISTERING", "UNREGISTERED")
    ∷ ("ACTIVE", "ACTIVE")
    ∷ ("ACTIVE", "FAULT")
    ∷ ("FAULT", "IDLE")
    ∷ []

-- The state after the call, and what the call returns.
unfoldable pub switch_to : SensorState → SensorState → SensorState × Bool
switch_to next state =
    if allows transitions (to_string state) (to_string next) then (next, true) else (state, false)

-- The transitions of the machine.
pub data Step : SensorState → SensorState → Type 0 where
  idle_unregistered : Step idle unregistered
  unregistered_registering : Step unregistered registering
  registering_active : Step registering active
  registering_unregistered : Step registering unregistered
  active_active : Step active active
  active_fault : Step active fault
  fault_idle : Step fault idle

Step-allowed :
    (s next : SensorState) → Step s next → allows transitions (to_string s) (to_string next) ≡ true
unfolding to_string allows
Step-allowed _ _ idle_unregistered = refl
Step-allowed _ _ unregistered_registering = refl
Step-allowed _ _ registering_active = refl
Step-allowed _ _ registering_unregistered = refl
Step-allowed _ _ active_active = refl
Step-allowed _ _ active_fault = refl
Step-allowed _ _ fault_idle = refl

allowed-Step :
    (s next : SensorState) → allows transitions (to_string s) (to_string next) ≡ true → Step s next
unfolding to_string allows
allowed-Step idle unregistered e = idle_unregistered
allowed-Step unregistered registering e = unregistered_registering
allowed-Step registering active e = registering_active
allowed-Step registering unregistered e = registering_unregistered
allowed-Step active active e = active_active
allowed-Step active fault e = active_fault
allowed-Step fault idle e = fault_idle
allowed-Step _ _ e = absurd cc

-- A call succeeds for the transitions of the machine, and takes it to the new state; any other call
-- fails and leaves the state.
pub sensor_switch_to_lem :
    (next s : SensorState)
    → ((switch_to next s ≡ (next, true)) × Step s next)
      ⊎ ((switch_to next s ≡ (s, false)) × ¬ Step s next)
unfolding switch_to
sensor_switch_to_lem next s =
    elim (Bool-cases (allows transitions (to_string s) (to_string next))) [
      | inl e ↦ inl (rw e refl, allowed-Step s next e)
      | inr e ↦ inr (rw e refl, λ step. cc (Step-allowed s next step, e))
    ]

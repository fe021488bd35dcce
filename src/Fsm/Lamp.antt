-- ===== src/Fsm/Lamp.antt =====
-- The state machine of luminaire_client.cpp.
use smart_lighting_system.Base.{
  ◌≡◌, refl, ◌⊎◌, inl, inr, Bool, true, false, Bool-cases, [], ◌∷◌, String, if◌then◌else◌,
}
use smart_lighting_system.Fsm.{TransitionMatrix, allows}

pub data LampState : Type 0 where
  idle unregistered registering off on fault : LampState

unfoldable pub to_string : LampState → String
to_string idle = "IDLE"
to_string unregistered = "UNREGISTERED"
to_string registering = "REGISTERING"
to_string off = "OFF"
to_string on = "ON"
to_string fault = "FAULT"

abbrev pub transitions : TransitionMatrix
transitions =
    ("IDLE", "UNREGISTERED")
    ∷ ("UNREGISTERED", "REGISTERING")
    ∷ ("REGISTERING", "OFF")
    ∷ ("REGISTERING", "UNREGISTERED")
    ∷ ("OFF", "ON")
    ∷ ("ON", "OFF")
    ∷ ("ON", "FAULT")
    ∷ ("OFF", "FAULT")
    ∷ ("FAULT", "IDLE")
    ∷ []

-- The state after the call, and what the call returns.
unfoldable pub switch_to : LampState → LampState → LampState × Bool
switch_to next state =
    if allows transitions (to_string state) (to_string next) then (next, true) else (state, false)

-- The transitions of the machine.
pub data Step : LampState → LampState → Type 0 where
  idle_unregistered : Step idle unregistered
  unregistered_registering : Step unregistered registering
  registering_off : Step registering off
  registering_unregistered : Step registering unregistered
  off_on : Step off on
  on_off : Step on off
  on_fault : Step on fault
  off_fault : Step off fault
  fault_idle : Step fault idle

Step-allowed :
    (s next : LampState) → Step s next → allows transitions (to_string s) (to_string next) ≡ true
unfolding to_string allows
Step-allowed _ _ idle_unregistered = refl
Step-allowed _ _ unregistered_registering = refl
Step-allowed _ _ registering_off = refl
Step-allowed _ _ registering_unregistered = refl
Step-allowed _ _ off_on = refl
Step-allowed _ _ on_off = refl
Step-allowed _ _ on_fault = refl
Step-allowed _ _ off_fault = refl
Step-allowed _ _ fault_idle = refl

allowed-Step :
    (s next : LampState) → allows transitions (to_string s) (to_string next) ≡ true → Step s next
unfolding to_string allows
allowed-Step idle unregistered e = idle_unregistered
allowed-Step unregistered registering e = unregistered_registering
allowed-Step registering off e = registering_off
allowed-Step registering unregistered e = registering_unregistered
allowed-Step off on e = off_on
allowed-Step on off e = on_off
allowed-Step on fault e = on_fault
allowed-Step off fault e = off_fault
allowed-Step fault idle e = fault_idle
allowed-Step _ _ e = absurd cc

-- A call succeeds for the transitions of the machine, and takes it to the new state; any other call
-- fails and leaves the state.
pub lamp_switch_to_lem :
    (next s : LampState)
    → ((switch_to next s ≡ (next, true)) × Step s next)
      ⊎ ((switch_to next s ≡ (s, false)) × ¬ Step s next)
unfolding switch_to
lamp_switch_to_lem next s = elim (Bool-cases (allows transitions (to_string s) (to_string next))) [
  | inl e ↦ inl (rw e refl, allowed-Step s next e)
  | inr e ↦ inr (rw e refl, λ step. cc (Step-allowed s next step, e))
]

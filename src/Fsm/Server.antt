-- ===== src/Fsm/Server.antt =====
-- ServerFsm of regional_server.cpp.
use smart_lighting_system.Base.{
  ◌≡◌, refl, ◌⊎◌, inl, inr, Bool, true, false, Bool-cases, [], ◌∷◌, String, if◌then◌else◌,
}
use smart_lighting_system.Fsm.{TransitionMatrix, allows}

pub data ServerState : Type 0 where
  idle registration_handling normal_operation fault_handling : ServerState

unfoldable pub to_string : ServerState → String
to_string idle = "IDLE"
to_string registration_handling = "REGISTRATION_HANDLING"
to_string normal_operation = "NORMAL_OPERATION"
to_string fault_handling = "FAULT_HANDLING"

abbrev pub transitions : TransitionMatrix
transitions =
    ("IDLE", "REGISTRATION_HANDLING")
    ∷ ("REGISTRATION_HANDLING", "REGISTRATION_HANDLING")
    ∷ ("REGISTRATION_HANDLING", "NORMAL_OPERATION")
    ∷ ("NORMAL_OPERATION", "NORMAL_OPERATION")
    ∷ ("NORMAL_OPERATION", "FAULT_HANDLING")
    ∷ ("FAULT_HANDLING", "NORMAL_OPERATION")
    ∷ ("FAULT_HANDLING", "IDLE")
    ∷ []

-- The state after the call, and what the call returns.
unfoldable pub switch_to : ServerState → ServerState → ServerState × Bool
switch_to next state =
    if allows transitions (to_string state) (to_string next) then (next, true) else (state, false)

-- The transitions of the machine.
pub data Step : ServerState → ServerState → Type 0 where
  idle_registration_handling : Step idle registration_handling
  registration_handling_registration_handling : Step registration_handling registration_handling
  registration_handling_normal_operation : Step registration_handling normal_operation
  normal_operation_normal_operation : Step normal_operation normal_operation
  normal_operation_fault_handling : Step normal_operation fault_handling
  fault_handling_normal_operation : Step fault_handling normal_operation
  fault_handling_idle : Step fault_handling idle

Step-allowed :
    (s next : ServerState) → Step s next → allows transitions (to_string s) (to_string next) ≡ true
unfolding to_string allows
Step-allowed _ _ idle_registration_handling = refl
Step-allowed _ _ registration_handling_registration_handling = refl
Step-allowed _ _ registration_handling_normal_operation = refl
Step-allowed _ _ normal_operation_normal_operation = refl
Step-allowed _ _ normal_operation_fault_handling = refl
Step-allowed _ _ fault_handling_normal_operation = refl
Step-allowed _ _ fault_handling_idle = refl

allowed-Step :
    (s next : ServerState) → allows transitions (to_string s) (to_string next) ≡ true → Step s next
unfolding to_string allows
allowed-Step idle registration_handling e = idle_registration_handling
allowed-Step registration_handling registration_handling e =
    registration_handling_registration_handling
allowed-Step registration_handling normal_operation e = registration_handling_normal_operation
allowed-Step normal_operation normal_operation e = normal_operation_normal_operation
allowed-Step normal_operation fault_handling e = normal_operation_fault_handling
allowed-Step fault_handling normal_operation e = fault_handling_normal_operation
allowed-Step fault_handling idle e = fault_handling_idle
allowed-Step _ _ e = absurd cc

-- A call succeeds for the transitions of the machine, and takes it to the new state; any other call
-- fails and leaves the state.
pub server_switch_to_lem :
    (next s : ServerState)
    → ((switch_to next s ≡ (next, true)) × Step s next)
      ⊎ ((switch_to next s ≡ (s, false)) × ¬ Step s next)
unfolding switch_to
server_switch_to_lem next s =
    elim (Bool-cases (allows transitions (to_string s) (to_string next))) [
      | inl e ↦ inl (rw e refl, allowed-Step s next e)
      | inr e ↦ inr (rw e refl, λ step. cc (Step-allowed s next step, e))
    ]

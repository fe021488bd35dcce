-- ===== src/Region/CommLost.antt =====
-- What the check for silent devices does to the state machine.
use smart_lighting_system.Base.{ℕ, ◌≡◌, refl, ap, ◌∙◌, true, List, [], ◌∷◌, some, bytes_key, arith}
use smart_lighting_system.Base.Assoc.{Distinct}
use smart_lighting_system.Proto.Messages.{Bytes}
use smart_lighting_system.Registry.{DeviceState, get, detect_comm_lost}
use smart_lighting_system.Registry.CommLost.{detect_comm_lost-marked, marked}
use smart_lighting_system.Fsm.Server.{normal_operation, fault_handling, switch_to, to_string}
use smart_lighting_system.Fsm.{allows}
use smart_lighting_system.Region.{Clock, Region, switch_fsm}
use smart_lighting_system.Region.Tick.{raise_loop, still_lost, recover, on_tick}

still_lost_none : (uris : List Bytes) → still_lost [] uris ≡ []
unfolding still_lost
still_lost_none [] = refl
still_lost_none (u ∷ us) = still_lost_none us

-- A tick that finds no device newly silent ends the handling of the fault and forgets every lost
-- device, also one that was lost before, has not been heard of since, and still bears the fault flag.
pub on_tick_forgets :
    (timeout_ms : ℕ) (clock : Clock) (uri : Bytes) (st : DeviceState) (r : Region)
    → Distinct r.reg.dev
    → get uri r.reg ≡ some st
    → st.fault ≡ true
    → (detect_comm_lost clock.now_ms timeout_ms r.reg).1 ≡ []
    → r.fsm ≡ fault_handling
    → let r' = on_tick timeout_ms clock r in
      (get uri r'.reg ≡ some st) × (r'.fsm ≡ normal_operation) × (r'.active_lost ≡ [])
unfolding on_tick raise_loop recover switch_fsm switch_to allows to_string
on_tick_forgets timeout_ms clock uri st r d g f l s =
    let kept =
      (detect_comm_lost-marked clock.now_ms timeout_ms r.reg uri d).0
      ∙ ap (marked clock.now_ms timeout_ms) g
      ∙ ground (arith, f) in
    rw (l, raise_loop) (rw (still_lost_none r.active_lost) (rw s (kept, refl, refl)))

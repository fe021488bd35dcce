-- ===== src/Fsm.antt =====
-- The state machines of regional_server.cpp, luminaire_client.cpp and sensor_udp.cpp. Each keeps its
-- transitions in a multimap of names, and its `switch_to` searches the entries of the old state.
pub mod Server
pub mod Lamp
pub mod Sensor
use text.Mathlib.Text.{◌==◌}
use smart_lighting_system.Base.{Bool, false, ◌&&◌, ◌||◌, List, [], ◌∷◌, String}

abbrev pub TransitionMatrix : Type 0
TransitionMatrix = List (String × String)

-- The loop over `equal_range(old)`, whose entries are those with that key.
unfoldable pub allows : TransitionMatrix → String → String → Bool
allows [] old new = false
allows ((a, b) ∷ rest) old new = a == old && b == new || allows rest old new

-- ===== src/Proto/DeviceType.antt =====
-- `enum class DeviceType : uint8_t` of proto.hpp. A cast from a received byte may give any byte.
use smart_lighting_system.Base.{ℕ}

abbrev pub luminaire : ℕ
luminaire = 1

abbrev pub sensor : ℕ
sensor = 2

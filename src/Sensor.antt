-- ===== src/Sensor.antt =====
-- sensor_udp.cpp: the datagram of a sensor. An int16_t is its 16-bit pattern.
pub mod Telemetry
pub mod Loop
pub mod Timers
use smart_lighting_system.Base.{
  ℕ, ◌-◌, ◌%◌, ◌/◌, List, [], ◌∷◌, ◌++◌, bit_and, bit_or, eqb, take, length, replicate,
  if◌then◌else◌,
}
use smart_lighting_system.Base.Words.{u16, u32, shr, shl}
use smart_lighting_system.Proto.Messages.{Bytes}
use smart_lighting_system.Proto.Text.{c_str}
use smart_lighting_system.Proto.Frame.{word_bytes}

unfoldable pub swap16 : ℕ → ℕ
swap16 x = u16 (bit_or (shr x 8) (shl x 8))

unfoldable pub swap32 : ℕ → ℕ
swap32 x =
    bit_or
      (bit_or (bit_or (u32 (shl (bit_and x 0xff) 24)) (u32 (shl (bit_and x 0xff00) 8)))
        (shr (bit_and x 0xff0000) 8))
      (shr (bit_and x 0xff000000) 24)

-- snprintf into the field of 48 zeros: 47 characters at most.
unfoldable pub uri_field : Bytes → Bytes
unfolding c_str
uri_field uri = let s = take 47 (c_str uri) in s ++ replicate (48 - length s) 0

-- A uint16_t in memory.
unfoldable pub half_bytes : ℕ → Bytes
half_bytes x = x % 256 ∷ x / 256 ∷ []

-- The bytes that `send_telemetry` sends.
unfoldable pub send_telemetry : Bytes → ℕ → ℕ → ℕ → ℕ → Bytes
unfolding uri_field word_bytes half_bytes swap32 swap16
send_telemetry uri zone_id lux motion temp_x10 =
    uri_field uri
    ++ (word_bytes (swap32 zone_id)
        ++ (half_bytes (swap16 lux) ++ (motion ∷ half_bytes (swap16 temp_x10))))

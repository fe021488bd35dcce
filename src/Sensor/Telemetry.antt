-- ===== src/Sensor/Telemetry.antt =====
-- What the telemetry server makes of the datagram of a sensor.
use smart_lighting_system.Base.{
  ℕ, suc, ◌-◌, ◌/◌, ◌%◌, ◌<◌, ◌≡◌, refl, ap, ◌∙◌, false, [], ◌∷◌, ◌++◌, some, arith, eqb, take,
  drop, length, length-append, length-take, length-replicate, replicate, All-take,
  take-append_length, drop-append_length,
}
use smart_lighting_system.Base.Words.{IsU32}
use smart_lighting_system.Proto.Messages.{Bytes}
use smart_lighting_system.Proto.Text.{NoNul, c_str, c_str_lem}
use smart_lighting_system.Proto.Bytes.{to_be32, from_be32, from_be32-to_be32}
use smart_lighting_system.Proto.Frame.{bytes_word, word_bytes, bytes_word-word_bytes, to_be32-IsU32}
use smart_lighting_system.Region.{Clock, Region}
use smart_lighting_system.Region.Telemetry.{
  telemetry_of, after_uri, c_string, on_telemetry, handle_telemetry, on_datagram,
}
use smart_lighting_system.Sensor.{swap32, uri_field, half_bytes, send_telemetry}

c_string-pad : (s : Bytes) (n : ℕ) → NoNul s → c_string (s ++ replicate (suc n) 0) ≡ some s
unfolding c_string
c_string-pad [] n h = ground arith
c_string-pad (c ∷ cs) n h =
    let e : eqb c 0 ≡ false = ground (arith, h.0) in rw (e, c_string-pad cs n h.1) refl

length-uri_field : (uri : Bytes) → length (uri_field uri) ≡ 48
unfolding uri_field
length-uri_field uri =
    let s : Bytes = take 47 (c_str uri) in
    omega (
      arith,
      length-append s (replicate (48 - length s) 0),
      length-replicate {A = ℕ} (48 - length s) 0,
      length-take 47 (c_str uri),
    )

take-field : (n : ℕ) (f rest : Bytes) → length f ≡ n → take n (f ++ rest) ≡ f
take-field n f rest e = rw (← e) (take-append_length f rest)

drop-field : (n : ℕ) (f rest : Bytes) → length f ≡ n → drop n (f ++ rest) ≡ rest
drop-field n f rest e = rw (← e) (drop-append_length f rest)

c_string-uri_field : (uri : Bytes) → NoNul uri → c_string (uri_field uri) ≡ some (take 47 uri)
unfolding uri_field
c_string-uri_field uri h =
    let s : Bytes = take 47 uri in
    let k : 48 - length s ≡ suc (47 - length s) = omega (arith, length-take 47 uri) in
    rw (c_str_lem uri h) (rw k (c_string-pad s (47 - length s) (All-take (λ c. 0 < c) 47 uri h)))

zone_in_memory :
    (zone : ℕ)
    → IsU32 zone
    → let x = swap32 zone in
      from_be32 (bytes_word (x % 256) (x / 256 % 256) (x / 65536 % 256) (x / 16777216 % 256)) ≡ zone
unfolding swap32 to_be32
zone_in_memory zone h =
    ap from_be32 (bytes_word-word_bytes (to_be32 zone) (to_be32-IsU32 zone))
    ∙ from_be32-to_be32 zone h

-- The datagram that a sensor sends has the effect of a reading with the zone and the motion that it
-- sent and the first 47 characters of its uri, if the uri has no NUL and the zone fits 32 bits.
pub on_datagram-send_telemetry :
    (uri : Bytes) (zone lux motion temp_x10 : ℕ) (clock : Clock) (r : Region)
    → NoNul uri
    → IsU32 zone
    → on_datagram (telemetry_of (send_telemetry uri zone lux motion temp_x10)) clock r
      ≡ some (on_telemetry (take 47 uri) zone motion clock r)
unfolding send_telemetry telemetry_of after_uri on_datagram handle_telemetry half_bytes word_bytes
on_datagram-send_telemetry uri zone lux motion temp_x10 clock r h z =
    rw (take-field 48 (uri_field uri) _ (length-uri_field uri)) (
      rw (drop-field 48 (uri_field uri) _ (length-uri_field uri))
        (rw (c_string-uri_field uri h, zone_in_memory zone z) refl))

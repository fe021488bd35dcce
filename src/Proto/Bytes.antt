-- ===== src/Proto/Bytes.antt =====
-- The writers put_u8 to put_str of proto.hpp, and the byte order helpers. A writer appends to the
-- vector and returns it. The layout of each value, `be16` and so on, is arithmetic on bytes.
use smart_lighting_system.Base.{
  ℕ, ◌+◌, ◌*◌, ◌/◌, ◌%◌, ◌<◌, ◌≡◌, ap, ◌∙◌, [], ◌∷◌, ◌++◌, append_assoc, bit_and, bit_or, arith,
  length, ltb, le→ltb, if◌then◌else◌,
}
use smart_lighting_system.Base.Words.{u8, u16, u32, IsU16, IsU32, shr, shl}
use smart_lighting_system.Base.Bits.{or_field, or_field_right, and_shifted, and_byte}
use smart_lighting_system.Proto.Result.{Result, ok, err, string_too_long}
use smart_lighting_system.Proto.Messages.{Bytes}
use smart_lighting_system.Proto.Fits.{IsShort}

unfoldable pub to_be32 : ℕ → ℕ
to_be32 x =
    bit_or
      (bit_or (bit_or (u32 (shl (bit_and x 0xff) 24)) (u32 (shl (bit_and x 0xff00) 8)))
        (shr (bit_and x 0xff0000) 8))
      (shr (bit_and x 0xff000000) 24)

unfoldable pub from_be32 : ℕ → ℕ
unfolding to_be32
from_be32 x = to_be32 x

unfoldable pub to_be16 : ℕ → ℕ
to_be16 x = u16 (bit_or (shr x 8) (shl x 8))

unfoldable pub from_be16 : ℕ → ℕ
unfolding to_be16
from_be16 x = to_be16 x

unfoldable pub put_u8 : Bytes → ℕ → Bytes
put_u8 b v = b ++ v ∷ []

unfoldable pub put_u16 : Bytes → ℕ → Bytes
put_u16 b v = (b ++ u8 (bit_and (shr v 8) 0xff) ∷ []) ++ u8 (bit_and v 0xff) ∷ []

unfoldable pub put_u32 : Bytes → ℕ → Bytes
put_u32 b v =
    (((b ++ u8 (bit_and (shr v 24) 0xff) ∷ []) ++ u8 (bit_and (shr v 16) 0xff) ∷ [])
      ++ u8 (bit_and (shr v 8) 0xff) ∷ [])
    ++ u8 (bit_and v 0xff) ∷ []

unfoldable pub put_str : Bytes → Bytes → Result Bytes
unfolding put_u16
put_str b s =
    if ltb 65535 (length s) then err string_too_long else ok (put_u16 b (u16 (length s)) ++ s)

-- Big-endian bytes.
abbrev pub be16 : ℕ → Bytes
be16 v = v / 256 % 256 ∷ v % 256 ∷ []

abbrev pub be32 : ℕ → Bytes
be32 v = v / 16777216 % 256 ∷ v / 65536 % 256 ∷ v / 256 % 256 ∷ v % 256 ∷ []

abbrev pub be_str : Bytes → Bytes
be_str s = be16 (length s) ++ s

pub put_u16_lem : (b : Bytes) (v : ℕ) → put_u16 b v ≡ b ++ be16 v
unfolding put_u16
put_u16_lem b v =
    simp (append_assoc, and_byte)
      (ap (λ (t : Bytes). b ++ t) {x = u8 (v / 256 % 256) ∷ u8 (v % 256) ∷ []} (ground arith))

pub put_u32_lem : (b : Bytes) (v : ℕ) → put_u32 b v ≡ b ++ be32 v
unfolding put_u32
put_u32_lem b v = simp (append_assoc, and_byte) (ap (λ (t : Bytes). b ++ t) (ground arith))

pub put_str_lem : (b s : Bytes) → IsShort s → put_str b s ≡ ok (b ++ be_str s)
unfolding put_str
put_str_lem b s h =
    let e : u16 (length s) ≡ length s = omega arith in
    rw (le→ltb 65535 (length s) h, put_u16_lem, e, append_assoc)

-- Four bytes in their places, as get_u32 and to_be32 join them.
pub or_bytes :
    (a b c d : ℕ)
    → a < 256
    → b < 256
    → c < 256
    → d < 256
    → bit_or (bit_or (bit_or (shl a 24) (shl b 16)) (shl c 8)) d
      ≡ a * 16777216 + b * 65536 + c * 256 + d
or_bytes a b c d ha hb hc hd =
    rw or_two (rw or_three (or_field 8 (a * 65536 + b * 256 + c) d hd ∙ omega arith))
  where
    or_two : bit_or (a * 16777216) (b * 65536) ≡ (a * 256 + b) * 65536
    or_two = or_field 24 a (b * 65536) (omega arith) ∙ omega arith

    or_three : bit_or ((a * 256 + b) * 65536) (c * 256) ≡ (a * 65536 + b * 256 + c) * 256
    or_three = or_field 16 (a * 256 + b) (c * 256) (omega arith) ∙ omega arith

and_byte1 : (x : ℕ) → bit_and x 0xff00 ≡ x / 256 % 256 * 256
and_byte1 x = and_shifted 255 x ∙ ap (λ (t : ℕ). t * 256) (and_byte (x / 256))

and_byte2 : (x : ℕ) → bit_and x 0xff0000 ≡ x / 65536 % 256 * 65536
and_byte2 x = and_shifted 65280 x ∙ ap (λ (t : ℕ). t * 256) (and_byte1 (x / 256)) ∙ omega arith

and_byte3 : (x : ℕ) → bit_and x 0xff000000 ≡ x / 16777216 % 256 * 16777216
and_byte3 x = and_shifted 16711680 x ∙ ap (λ (t : ℕ). t * 256) (and_byte2 (x / 256)) ∙ omega arith

-- `to_be32` reverses the four bytes of a word.
pub to_be32_value :
    (x : ℕ)
    → to_be32 x
      ≡ x % 256 * 16777216 + x / 256 % 256 * 65536 + x / 65536 % 256 * 256 + x / 16777216 % 256
unfolding to_be32
to_be32_value x =
    rw (and_byte x, and_byte1 x, and_byte2 x, and_byte3 x)
      (rw (e0, e1, e2, e3)
        (or_bytes (x % 256) (x / 256 % 256) (x / 65536 % 256) (x / 16777216 % 256) (omega arith)
          (omega arith) (omega arith) (omega arith)))
  where
    e0 : x % 256 * 16777216 % 4294967296 ≡ x % 256 * 16777216
    e0 = omega arith

    e1 : x / 256 % 256 * 256 * 256 % 4294967296 ≡ x / 256 % 256 * 65536
    e1 = omega arith

    e2 : x / 65536 % 256 * 65536 / 256 ≡ x / 65536 % 256 * 256
    e2 = omega arith

    e3 : x / 16777216 % 256 * 16777216 / 16777216 ≡ x / 16777216 % 256
    e3 = omega arith

-- Reversing the bytes twice gives the word back.
pub from_be32-to_be32 : (x : ℕ) → IsU32 x → from_be32 (to_be32 x) ≡ x
unfolding from_be32
from_be32-to_be32 x h = omega (arith, to_be32_value (to_be32 x), to_be32_value x)

pub to_be16_value : (x : ℕ) → IsU16 x → to_be16 x ≡ x % 256 * 256 + x / 256
unfolding to_be16
to_be16_value x h =
    ap (λ (t : ℕ). t % 65536) (or_field_right 8 x (x / 256) (omega arith)) ∙ omega arith

pub from_be16-to_be16 : (x : ℕ) → IsU16 x → from_be16 (to_be16 x) ≡ x
unfolding from_be16
from_be16-to_be16 x h =
    let e = to_be16_value x h in
    let v : IsU16 (to_be16 x) = omega (arith, e) in omega (arith, to_be16_value (to_be16 x) v, e)

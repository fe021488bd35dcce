-- ===== src/Base/Bits.antt =====
-- `|` of fields that do not overlap is a sum, and `&` with a byte's mask picks the byte.
use Prim.Native.Nat.{
  ℕ, zero, suc, ◌+◌, ◌*◌, ◌/◌, ◌%◌, ◌^◌, ◌≤◌, ◌<◌, min, max, digits, bit_and, bit_or,
  bit_and-bitwise, bit_or-bitwise,
}
use mathlib.Core.Path.{◌≡◌, refl, ap, ◌∙◌}
use native.Mathlib.Nat.{pow-suc}
use native.Mathlib.Omega.{arith}

-- The digit recursion does not depend on its fuel, once that is at least the first number.
module _ (z : ℕ → ℕ) (f : ℕ → ℕ → ℕ) where
  fuel_irrelevant : (n a b m : ℕ) → a ≤ n → a ≤ m → digits z f m a b ≡ digits z f n a b
  fuel_irrelevant zero zero b zero p q = refl
  fuel_irrelevant zero zero b (suc m) p q = refl
  fuel_irrelevant (suc n) zero b zero p q = refl
  fuel_irrelevant (suc n) zero b (suc m) p q = refl
  fuel_irrelevant zero (suc a) b m p q = absurd (omega arith)
  fuel_irrelevant (suc n) (suc a) b zero p q = absurd (omega arith)
  fuel_irrelevant (suc n) (suc a) b (suc m) p q =
      ap (λ (t : ℕ). t * 2 + f (suc a % 2) (b % 2))
        (fuel_irrelevant n (suc a / 2) (b / 2) m (omega arith) (omega arith))

or_halves : (a b : ℕ) → bit_or a b ≡ bit_or (a / 2) (b / 2) * 2 + max (a % 2) (b % 2)
or_halves zero b = omega (arith, bit_or-bitwise 0 b, bit_or-bitwise 0 (b / 2))
or_halves (suc a) b = omega (
  arith,
  bit_or-bitwise (suc a) b,
  bit_or-bitwise (suc a / 2) (b / 2),
  fuel_irrelevant (λ y. y) max (suc a / 2) (suc a / 2) (b / 2) a (omega arith) (omega arith),
)

and_halves : (a b : ℕ) → bit_and a b ≡ bit_and (a / 2) (b / 2) * 2 + min (a % 2) (b % 2)
and_halves zero b = omega (arith, bit_and-bitwise 0 b, bit_and-bitwise 0 (b / 2))
and_halves (suc a) b = omega (
  arith,
  bit_and-bitwise (suc a) b,
  bit_and-bitwise (suc a / 2) (b / 2),
  fuel_irrelevant (λ y. 0) min (suc a / 2) (suc a / 2) (b / 2) a (omega arith) (omega arith),
)

or_nothing : (n a : ℕ) → a ≤ n → bit_or a 0 ≡ a
or_nothing n zero h = refl
or_nothing zero (suc a) h = absurd (omega arith)
or_nothing (suc n) (suc a) h =
    omega (arith, or_halves (suc a) 0, or_nothing n (suc a / 2) (omega arith))

and_nothing : (n a : ℕ) → a ≤ n → bit_and a 0 ≡ 0
and_nothing n zero h = refl
and_nothing zero (suc a) h = absurd (omega arith)
and_nothing (suc n) (suc a) h =
    omega (arith, and_halves (suc a) 0, and_nothing n (suc a / 2) (omega arith))

double_pow : (q k : ℕ) → q * 2 ^ suc k ≡ 2 * (q * 2 ^ k)
double_pow q k = omega (arith, ap (λ (t : ℕ). q * t) (pow-suc 2 k))

or_zero_left : (b : ℕ) → bit_or 0 b ≡ b
or_zero_left b = bit_or-bitwise 0 b

-- lo | (hi << k)
pub or_field_right : (k hi lo : ℕ) → lo < 2 ^ k → bit_or lo (hi * 2 ^ k) ≡ hi * 2 ^ k + lo
or_field_right zero hi zero h = ground (arith, or_zero_left hi)
or_field_right zero hi (suc lo) h = absurd (omega arith)
or_field_right (suc k) hi lo h = ground (
  arith,
  or_halves lo (hi * 2 ^ suc k),
  double_pow hi k,
  pow-suc 2 k,
  or_field_right k hi (lo / 2) (omega arith),
)

-- (hi << k) | lo
pub or_field : (k hi lo : ℕ) → lo < 2 ^ k → bit_or (hi * 2 ^ k) lo ≡ hi * 2 ^ k + lo
or_field zero hi lo h = ground (arith, or_nothing hi hi)
or_field (suc k) hi lo h = ground (
  arith,
  or_halves (hi * 2 ^ suc k) lo,
  double_pow hi k,
  pow-suc 2 k,
  or_field k hi (lo / 2) (omega arith),
)

and_even : (m x : ℕ) → bit_and x (m * 2) ≡ bit_and (x / 2) m * 2
and_even m x =
    and_halves x (m * 2) ∙ omega (arith, ap (bit_and (x / 2)) {x = m * 2 / 2} {y = m} (omega arith))

and_four : (m x : ℕ) → bit_and x (m * 4) ≡ bit_and (x / 4) m * 4
and_four m x = omega (
  arith,
  ap (bit_and x) {x = m * 4} {y = m * 2 * 2} (omega arith),
  and_even (m * 2) x,
  and_even m (x / 2),
  ap (λ (t : ℕ). bit_and t m) {x = x / 2 / 2} {y = x / 4} (omega arith),
)

and_sixteen : (m x : ℕ) → bit_and x (m * 16) ≡ bit_and (x / 16) m * 16
and_sixteen m x = omega (
  arith,
  ap (bit_and x) {x = m * 16} {y = m * 4 * 4} (omega arith),
  and_four (m * 4) x,
  and_four m (x / 4),
  ap (λ (t : ℕ). bit_and t m) {x = x / 4 / 4} {y = x / 16} (omega arith),
)

-- x & (m << 8)
pub and_shifted : (m x : ℕ) → bit_and x (m * 256) ≡ bit_and (x / 256) m * 256
and_shifted m x = omega (
  arith,
  ap (bit_and x) {x = m * 256} {y = m * 16 * 16} (omega arith),
  and_sixteen (m * 16) x,
  and_sixteen m (x / 16),
  ap (λ (t : ℕ). bit_and t m) {x = x / 16 / 16} {y = x / 256} (omega arith),
)

and_three : (x : ℕ) → bit_and x 3 ≡ x % 4
and_three x =
    omega (arith, and_halves x 3, and_halves (x / 2) 1, and_nothing (x / 2 / 2) (x / 2 / 2))

and_fifteen : (x : ℕ) → bit_and x 15 ≡ x % 16
and_fifteen x = omega (arith, and_halves x 15, and_halves (x / 2) 7, and_three (x / 2 / 2))

and_sixty_three : (x : ℕ) → bit_and x 63 ≡ x % 64
and_sixty_three x = omega (arith, and_halves x 63, and_halves (x / 2) 31, and_fifteen (x / 2 / 2))

-- x & 0xFF
pub and_byte : (x : ℕ) → bit_and x 0xff ≡ x % 256
and_byte x = omega (arith, and_halves x 255, and_halves (x / 2) 127, and_sixty_three (x / 2 / 2))

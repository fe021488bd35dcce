-- ===== src/Proto/Result.antt =====
-- The exceptions that proto.hpp throws, as values. A function that may throw returns a `Result`.

-- The text of each std::runtime_error.
pub data Error : Type 0 where
  underflow_u8 underflow_u16 underflow_u32 underflow_str string_too_long : Error

pub data Result {ℓ} (A : Type ℓ) : Type ℓ where
  ok : A → Result A
  err : Error → Result A

infixl 5 ◌>>=◌
abbrev pub ◌>>=◌ {ℓ κ} : {A : Type ℓ} {B : Type κ} → Result A → (A → Result B) → Result B
ok a >>= f = f a
err e >>= f = err e

abbrev pub IsOk {ℓ} : {A : Type ℓ} → Result A → Type 0
IsOk (ok a) = Unit
IsOk (err e) = ⊥

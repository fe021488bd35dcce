-- ===== src/Proto/Truncated.antt =====
-- The decoders of proto.hpp on the first part of a message: a reader that succeeds on some bytes does the
-- same where more follow, so it fails on a part of what it reads whole.
use smart_lighting_system.Base.{
  ℕ, zero, suc, ◌≤◌, ◌≡◌, refl, sym, ap, ◌∙◌, inl, inr, Bool-cases, [], ◌∷◌, ◌++◌, arith, length,
  length-append, le→ltb, take, drop, ltb, append-nil,
}
use smart_lighting_system.Proto.Result.{Result, Error, ok, err, IsOk}
use smart_lighting_system.Proto.Messages.{Bytes, AlarmUp}
use smart_lighting_system.Proto.Fits.{AlarmUpFits}
use smart_lighting_system.Proto.Reader.{
  Reader, continue, ◌>>=◌, get_u8, get_u16, get_u32, get_chars, get_str, Reads,
}
use smart_lighting_system.Proto.Decode.{read_alarm_up, decode_alarm_up}
use smart_lighting_system.Proto.RoundTrip.Central.{alarm_up_layout, read_alarm_up-Reads}

abbrev extend {ℓ} : {A : Type ℓ} → Bytes → Result (A × Bytes) → Result (A × Bytes)
extend q (ok (a, rest)) = ok (a, rest ++ q)
extend q (err e) = err e

abbrev Extends {ℓ} : {A : Type ℓ} → Reader A → Type ℓ
Extends m = (p q : Bytes) → IsOk (m p) → m (p ++ q) ≡ extend q (m p)

module _ {ℓ κ} {A : Type ℓ} {B : Type κ} where
  bind-Extends :
      (m : Reader A) (f : A → Reader B) → Extends m → ((a : A) → Extends (f a)) → Extends (m >>= f)
  bind-Extends m f hm hf p q = go (m p) refl
    where
      go :
          (r : Result (A × Bytes))
          → m p ≡ r
          → IsOk (continue f r)
          → continue f (m (p ++ q)) ≡ extend q (continue f r)
      go (ok (a, rest)) e k = ap (continue f) (hm p q (rw e tt) ∙ ap (extend q) e) ∙ hf a rest q k
      go (err x) e k = absurd k

get_u8-Extends : Extends get_u8
unfolding get_u8
get_u8-Extends [] q k = absurd k
get_u8-Extends (a ∷ p) q k = refl

get_u16-Extends : Extends get_u16
unfolding get_u16
get_u16-Extends [] q k = absurd k
get_u16-Extends (a ∷ []) q k = absurd k
get_u16-Extends (a ∷ b ∷ p) q k = refl

get_u32-Extends : Extends get_u32
unfolding get_u32
get_u32-Extends [] q k = absurd k
get_u32-Extends (a ∷ []) q k = absurd k
get_u32-Extends (a ∷ b ∷ []) q k = absurd k
get_u32-Extends (a ∷ b ∷ c ∷ []) q k = absurd k
get_u32-Extends (a ∷ b ∷ c ∷ d ∷ p) q k = refl

take-append_le : (n : ℕ) (p q : Bytes) → n ≤ length p → take n (p ++ q) ≡ take n p
take-append_le zero p q h = refl
take-append_le (suc n) [] q h = absurd (omega arith)
take-append_le (suc n) (a ∷ p) q h = ap (◌∷◌ a) (take-append_le n p q (omega arith))

drop-append_le : (n : ℕ) (p q : Bytes) → n ≤ length p → drop n (p ++ q) ≡ drop n p ++ q
drop-append_le zero p q h = refl
drop-append_le (suc n) [] q h = absurd (omega arith)
drop-append_le (suc n) (a ∷ p) q h = drop-append_le n p q (omega arith)

get_chars-Extends : (n : ℕ) → Extends (get_chars n)
unfolding get_chars
get_chars-Extends n p q k = elim (Bool-cases (ltb (length p) n)) [
  | inl e ↦ let none_read = rw e at k in absurd none_read
  | inr e ↦
      let fits : n ≤ length p = ground arith in
      rw (
        e,
        le→ltb (length (p ++ q)) n (omega (arith, length-append p q)),
        take-append_le n p q fits,
        drop-append_le n p q fits,
      )
]

get_str-Extends : Extends get_str
unfolding get_str
get_str-Extends = bind-Extends get_u16 (λ n. get_chars n) get_u16-Extends get_chars-Extends

read_alarm_up-Extends : Extends read_alarm_up
unfolding read_alarm_up
read_alarm_up-Extends = bind-Extends _ _ get_u32-Extends λ r. bind-Extends _ _ get_u32-Extends λ ts.
    bind-Extends _ _ get_u8-Extends λ d. bind-Extends _ _ get_u32-Extends λ z.
      bind-Extends _ _ get_u8-Extends λ c.
        bind-Extends _ _ get_str-Extends λ u. bind-Extends _ _ get_str-Extends λ t. (λ p q k. refl)

-- A reader that extends does not read a part of what it reads whole.
part_fails {ℓ} :
    {A : Type ℓ} (m : Reader A) (p : Bytes) (b : ℕ) (q : Bytes) (a : A)
    → Extends m
    → Reads m (p ++ b ∷ q) a
    → (x : Error) × (m p ≡ err x)
part_fails {A = A} m p b q a hm h = go (m p) refl
  where
    left : Result (A × Bytes) → ℕ
    left (ok (a, rest)) = length rest
    left (err x) = 0

    whole : m (p ++ b ∷ q) ≡ ok (a, [])
    whole = let all = h [] in let all' = rw append-nil at all in all'

    go : (r : Result (A × Bytes)) → m p ≡ r → (x : Error) × (m p ≡ err x)
    go (err x) e = (x, e)
    go (ok (a', rest)) e =
        let more : m (p ++ b ∷ q) ≡ ok (a', rest ++ b ∷ q) =
          hm p (b ∷ q) (rw e tt) ∙ ap (extend (b ∷ q)) e in
        let none_left : left (ok (a', rest ++ b ∷ q)) ≡ 0 = ap left (sym more ∙ whole) in
        absurd (omega (arith, length-append rest (b ∷ q)))

-- A part of an ALARM_UP does not decode.
pub decode_alarm_up_part :
    (a : AlarmUp) (p : Bytes) (b : ℕ) (q : Bytes)
    → AlarmUpFits a
    → p ++ b ∷ q ≡ alarm_up_layout a
    → (x : Error) × (decode_alarm_up p ≡ err x)
unfolding decode_alarm_up
decode_alarm_up_part a p b q h e =
    let reads : Reads read_alarm_up (p ++ b ∷ q) a = rw e (read_alarm_up-Reads a h) in
    let (x, fails) = part_fails read_alarm_up p b q a read_alarm_up-Extends reads in
    (x, rw fails refl)

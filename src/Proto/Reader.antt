-- ===== src/Proto/Reader.antt =====
-- The readers get_u8 to get_str of proto.hpp. A `Reader A` is code that moves the pointer `p` on
-- towards the end `e`: it takes the bytes that are left and returns a value with those left over.
-- The error is an exception. `Reads m xs a` says that `m` reads `a` off `xs`, whatever follows.
use smart_lighting_system.Base.{
  ℕ, zero, suc, ◌/◌, ◌%◌, ◌≡◌, refl, ap, ◌∙◌, List, [], ◌∷◌, ◌++◌, map, append_assoc, arith, bit_or,
  length, length-append, take, drop, take-append_length, drop-append_length, All, ltb, le→ltb,
  if◌then◌else◌,
}
use smart_lighting_system.Base.Words.{IsU16, IsU32, shl}
use smart_lighting_system.Base.Bits.{or_field}
use smart_lighting_system.Proto.Result.{
  Result, ok, err, underflow_u8, underflow_u16, underflow_u32, underflow_str,
}
use smart_lighting_system.Proto.Messages.{Bytes}
use smart_lighting_system.Proto.Fits.{IsShort}
use smart_lighting_system.Proto.Bytes.{be16, be32, be_str, or_bytes}

abbrev pub Reader {ℓ} : Type ℓ → Type ℓ
Reader A = Bytes → Result (A × Bytes)

abbrev pub pure {ℓ} : {A : Type ℓ} → A → Reader A
pure a p = ok (a, p)

abbrev pub continue {ℓ κ} :
    {A : Type ℓ} {B : Type κ} → (A → Reader B) → Result (A × Bytes) → Result (B × Bytes)
continue f (ok (a, p)) = f a p
continue f (err e) = err e

infixl 5 ◌>>=◌
abbrev pub ◌>>=◌ {ℓ κ} : {A : Type ℓ} {B : Type κ} → Reader A → (A → Reader B) → Reader B
◌>>=◌ m f p = continue f (m p)

-- What a decoder returns: it forgets the bytes that follow.
abbrev pub value {ℓ} : {A : Type ℓ} → Result (A × Bytes) → Result A
value (ok (a, p)) = ok a
value (err e) = err e

unfoldable pub get_u8 : Reader ℕ
get_u8 (a ∷ p) = ok (a, p)
get_u8 _ = err underflow_u8

unfoldable pub get_u16 : Reader ℕ
get_u16 (a ∷ b ∷ p) = ok (bit_or (shl a 8) b, p)
get_u16 _ = err underflow_u16

unfoldable pub get_u32 : Reader ℕ
get_u32 (a ∷ b ∷ c ∷ d ∷ p) = ok (bit_or (bit_or (bit_or (shl a 24) (shl b 16)) (shl c 8)) d, p)
get_u32 _ = err underflow_u32

-- `std::string s(p, p+n)`.
unfoldable pub get_chars : ℕ → Reader Bytes
get_chars n p = if ltb (length p) n then err underflow_str else ok (take n p, drop n p)

unfoldable pub get_str : Reader Bytes
unfolding get_u16 get_chars
get_str = do n ← get_u16; get_chars n

-- `for(i=0; i<cnt; i++){ ... v.push_back(x); }`
unfoldable pub times {ℓ} : {A : Type ℓ} → ℕ → Reader A → Reader (List A)
times zero m = pure []
times (suc n) m = do x ← m; xs ← times n m; pure (x ∷ xs)

abbrev pub Reads {ℓ} : {A : Type ℓ} → Reader A → Bytes → A → Type ℓ
Reads m xs a = (rest : Bytes) → m (xs ++ rest) ≡ ok (a, rest)

module _ {ℓ κ} {A : Type ℓ} {B : Type κ} where
  pub Reads-bind :
      (m : Reader A) (f : A → Reader B) (xs ys : Bytes) (a : A) (b : B)
      → Reads m xs a
      → Reads (f a) ys b
      → Reads (m >>= f) (xs ++ ys) b
  Reads-bind m f xs ys a b h k rest =
      ap (λ (t : Bytes). continue f (m t)) (append_assoc xs ys rest)
      ∙ ap (continue f) (h (ys ++ rest))
      ∙ k rest

pub Reads-pure {ℓ} : {A : Type ℓ} (a : A) → Reads (pure a) [] a
Reads-pure a rest = refl

pub get_u8-Reads : (v : ℕ) → Reads get_u8 (v ∷ []) v
unfolding get_u8
get_u8-Reads v rest = refl

pub get_u16-Reads : (v : ℕ) → IsU16 v → Reads get_u16 (be16 v) v
unfolding get_u16
get_u16-Reads v h rest =
    ap (λ (t : ℕ). ok (t, rest)) (or_field 8 (v / 256 % 256) (v % 256) (omega arith) ∙ omega arith)

pub get_u32-Reads : (v : ℕ) → IsU32 v → Reads get_u32 (be32 v) v
unfolding get_u32
get_u32-Reads v h rest =
    ap (λ (t : ℕ). ok (t, rest))
      (or_bytes (v / 16777216 % 256) (v / 65536 % 256) (v / 256 % 256) (v % 256) (omega arith)
          (omega arith) (omega arith) (omega arith)
        ∙ omega arith)

get_chars-Reads : (s : Bytes) → Reads (get_chars (length s)) s s
unfolding get_chars
get_chars-Reads s rest = rw (
  le→ltb (length (s ++ rest)) (length s) (omega (arith, length-append s rest)),
  take-append_length s rest,
  drop-append_length s rest,
)

pub get_str-Reads : (s : Bytes) → IsShort s → Reads get_str (be_str s) s
unfolding get_str
get_str-Reads s h =
    Reads-bind get_u16 (λ n. get_chars n) (be16 (length s)) s (length s) s
      (get_u16-Reads (length s) (omega arith)) (get_chars-Reads s)

-- The last read of a block, whose value goes into a result.
pub Reads-map {ℓ κ} :
    {A : Type ℓ} {B : Type κ} (m : Reader A) (g : A → B) (xs : Bytes) (a : A)
    → Reads m xs a
    → Reads (m >>= λ x. pure (g x)) xs (g a)
Reads-map m g xs a h rest = ap (continue λ x. pure (g x)) (h rest)

-- The layouts of all items, one after the other.
abbrev pub flat {ℓ} : {A : Type ℓ} → (A → Bytes) → List A → Bytes
flat lay [] = []
flat lay (x ∷ xs) = lay x ++ flat lay xs

-- A loop that reads `cnt` items reads a list of that length.
pub times-Reads {ℓ} :
    {A : Type ℓ} (m : Reader A) (lay : A → Bytes) (xs : List A)
    → All (λ x. Reads m (lay x) x) xs
    → Reads (times (length xs) m) (flat lay xs) xs
unfolding times
times-Reads m lay [] h = Reads-pure []
times-Reads m lay (x ∷ xs) h =
    Reads-bind m (λ y. times (length xs) m >>= λ ys. pure (y ∷ ys)) (lay x) (flat lay xs) x (x ∷ xs)
      h.0
      (Reads-map (times (length xs) m) (λ ys. x ∷ ys) (flat lay xs) xs (times-Reads m lay xs h.1))

-- The same where what is read off an item's layout is made of the item.
pub times-Reads-map {ℓ κ} :
    {A : Type ℓ} {B : Type κ} (m : Reader B) (lay : A → Bytes) (g : A → B) (xs : List A)
    → All (λ x. Reads m (lay x) (g x)) xs
    → Reads (times (length xs) m) (flat lay xs) (map g xs)
unfolding times
times-Reads-map m lay g [] h = Reads-pure []
times-Reads-map m lay g (x ∷ xs) h =
    Reads-bind m (λ y. times (length xs) m >>= λ ys. pure (y ∷ ys)) (lay x) (flat lay xs) (g x)
      (g x ∷ map g xs) h.0
      (Reads-map (times (length xs) m) (λ ys. g x ∷ ys) (flat lay xs) (map g xs)
        (times-Reads-map m lay g xs h.1))

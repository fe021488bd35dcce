-- ===== src/Central/Session/Reading.antt =====
-- The bodies that a session reads in a stream, by the phase that it is in.
use smart_lighting_system.Base.{
  ℕ, zero, suc, ◌≤◌, ◌<◌, ◌≡◌, refl, ap, inl, inr, true, false, ◌||◌, Bool-cases, List, [], ◌∷◌,
  ◌++◌, arith, length, length-append, length-drop, take, drop, take-append_length,
  drop-append_length, ltb, le→ltb, if◌then◌else◌,
}
use smart_lighting_system.Proto.Messages.{Bytes}
use smart_lighting_system.Proto.Bytes.{from_be32}
use smart_lighting_system.Proto.Frame.{
  Incoming, waiting, bad_length, body, take_body, header_length, bytes_word, max_body, read_message,
  read_loop, received,
}
use smart_lighting_system.Central.Session.{Phase, handshaking, reading_header, reading_body, ended}

abbrev Shorter : Bytes → Incoming → Type 0
Shorter p waiting = Unit
Shorter p bad_length = Unit
Shorter p (body m rest) = length rest < length p

take_body-Shorter : (n : ℕ) (p q : Bytes) → length p < length q → Shorter q (take_body n p)
unfolding take_body
take_body-Shorter n p q h = elim (Bool-cases (ltb (length p) n)) [
  | inl e ↦ rw e tt
  | inr e ↦ rw e (omega (arith, length-drop n p))
]

read_message-Shorter : (p : Bytes) → Shorter p (read_message p)
unfolding read_message
read_message-Shorter [] = tt
read_message-Shorter (a ∷ []) = tt
read_message-Shorter (a ∷ b ∷ []) = tt
read_message-Shorter (a ∷ b ∷ c ∷ []) = tt
read_message-Shorter (a ∷ b ∷ c ∷ d ∷ p) =
    let n = from_be32 (bytes_word a b c d) in
    elim (Bool-cases (ltb n 1 || ltb max_body n)) [
      | inl e ↦ rw e tt
      | inr e ↦ rw e (take_body-Shorter n p (a ∷ b ∷ c ∷ d ∷ p) (omega arith))
    ]

read_loop_step :
    (f g : ℕ) (p : Bytes)
    → ((rest : Bytes) → length rest < length p → read_loop f rest ≡ read_loop g rest)
    → (r : Incoming) → read_message p ≡ r
    → Shorter p r
    → read_loop (suc f) p ≡ read_loop (suc g) p
unfolding read_loop
read_loop_step f g p ih waiting e h = rw (e, read_loop) refl
read_loop_step f g p ih bad_length e h = rw (e, read_loop) refl
read_loop_step f g p ih (body m rest) e h = rw (e, read_loop) (ap (◌∷◌ m) (ih rest h))

-- Any fuel is enough that is as large as the number of bytes.
read_loop_enough :
    (f g : ℕ) (p : Bytes) → length p ≤ f → length p ≤ g → read_loop f p ≡ read_loop g p
unfolding read_loop
read_loop_enough zero zero p h k = refl
read_loop_enough zero (suc g) [] h k = unfold read_message in refl
read_loop_enough (suc f) zero [] h k = unfold read_message in refl
read_loop_enough zero (suc g) (a ∷ p) h k = absurd (omega arith)
read_loop_enough (suc f) zero (a ∷ p) h k = absurd (omega arith)
read_loop_enough (suc f) (suc g) p h k =
    read_loop_step f g p (λ rest l. read_loop_enough f g rest (omega arith) (omega arith))
      (read_message p) refl (read_message-Shorter p)

-- What a session makes of the bytes that it is yet to read.
abbrev pub expected : Phase → Bytes → List Bytes
expected handshaking p = received p
expected reading_header p = received p
expected (reading_body n) p = if ltb (length p) n then [] else take n p ∷ received (drop n p)
expected ended p = []

pub expected-body : (b p : Bytes) → expected (reading_body (length b)) (b ++ p) ≡ b ∷ received p
expected-body b p = rw (
  le→ltb (length (b ++ p)) (length b) (omega (arith, length-append b p)),
  take-append_length b p,
  drop-append_length b p,
)

received_body :
    (n f : ℕ) (p : Bytes)
    → length p ≤ f
    → elim (take_body n p) [ waiting ↦ [] | bad_length ↦ [] | body m rest ↦ m ∷ read_loop f rest ]
      ≡ expected (reading_body n) p
unfolding take_body received
received_body n f p h = elim (Bool-cases (ltb (length p) n)) [
  | inl e ↦ rw e refl
  | inr e ↦ rw e (
      ap (◌∷◌ (take n p)) (
        read_loop_enough f (length (drop n p)) (drop n p) (omega (arith, length-drop n p))
          (omega arith)))
]

-- A header of which the length is accepted, and one of which it is not.
pub received-header :
    (hdr p : Bytes)
    → length hdr ≡ 4
    → (ltb (header_length hdr) 1 || ltb max_body (header_length hdr)) ≡ false
    → received (hdr ++ p) ≡ expected (reading_body (header_length hdr)) p
unfolding header_length read_loop read_message received
received-header (a ∷ b ∷ c ∷ d ∷ []) p h e =
    rw (e, received, read_loop, read_message)
      (received_body (from_be32 (bytes_word a b c d)) (suc (suc (suc (length p)))) p (omega arith))
received-header _ p h e = absurd (omega arith)

pub received-header_refused :
    (hdr p : Bytes)
    → length hdr ≡ 4
    → (ltb (header_length hdr) 1 || ltb max_body (header_length hdr)) ≡ true
    → received (hdr ++ p) ≡ []
unfolding header_length read_loop read_message received
received-header_refused (a ∷ b ∷ c ∷ d ∷ []) p h e = rw (e, received, read_loop, read_message) refl
received-header_refused _ p h e = absurd (omega arith)

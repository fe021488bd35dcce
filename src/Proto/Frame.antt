-- ===== src/Proto/Frame.antt =====
-- framed_tls.hpp, and the reading side of each session: a frame is a 32-bit big-endian length, then
-- that many bytes, of which the first is the message type. The TLS stream is a list of bytes. A word
-- is copied by memcpy in the byte order of the host, which is taken to be little-endian.
use smart_lighting_system.Base.{
  ℕ, zero, suc, ◌+◌, ◌*◌, ◌/◌, ◌%◌, ◌≤◌, ◌<◌, ◌≡◌, refl, ap, true, false, ◌||◌, List, [], ◌∷◌, ◌++◌,
  arith, length, length-append, take, drop, All, take-append_length, drop-append_length, ltb,
  le→ltb, if◌then◌else◌,
}
use smart_lighting_system.Base.Words.{u32, IsU32}
use smart_lighting_system.Proto.Messages.{Bytes}
use smart_lighting_system.Proto.Bytes.{to_be32, from_be32, to_be32_value, from_be32-to_be32}

-- memcpy of a uint32_t into and out of a buffer.
unfoldable pub word_bytes : ℕ → Bytes
word_bytes x = x % 256 ∷ x / 256 % 256 ∷ x / 65536 % 256 ∷ x / 16777216 % 256 ∷ []

unfoldable pub bytes_word : ℕ → ℕ → ℕ → ℕ → ℕ
bytes_word a b c d = a + b * 256 + c * 65536 + d * 16777216

-- The frame that write_frame and async_write_frame send.
unfoldable pub frame : ℕ → Bytes → Bytes
unfolding word_bytes to_be32
frame type payload = word_bytes (to_be32 (u32 (1 + length payload))) ++ (type ∷ [] ++ payload)

-- The length in a header of four bytes.
unfoldable pub header_length : Bytes → ℕ
unfolding bytes_word from_be32
header_length (a ∷ b ∷ c ∷ d ∷ []) = from_be32 (bytes_word a b c d)
header_length _ = 0

-- What a reader of a stream gets: too few bytes so far, a length outside the accepted range, or a
-- body and what follows it.
pub data Incoming : Type 0 where
  waiting bad_length : Incoming
  body : Bytes → Bytes → Incoming

unfoldable pub take_body : ℕ → Bytes → Incoming
take_body n p = if ltb (length p) n then waiting else body (take n p) (drop n p)

-- read_frame: the length is not checked.
unfoldable pub read_frame : Bytes → Incoming
unfolding bytes_word from_be32 take_body
read_frame (a ∷ b ∷ c ∷ d ∷ p) = take_body (from_be32 (bytes_word a b c d)) p
read_frame _ = waiting

abbrev pub max_body : ℕ
max_body = 1024 * 1024

-- read_header and read_body of the sessions and of the lamp.
unfoldable pub read_message : Bytes → Incoming
unfolding bytes_word from_be32 take_body
read_message (a ∷ b ∷ c ∷ d ∷ p) =
    let n = from_be32 (bytes_word a b c d) in
    if ltb n 1 || ltb max_body n then bad_length else take_body n p
read_message _ = waiting

-- The read loop of a session: the bodies that it hands to on_message, in order. Each round takes
-- four bytes at least, so as much fuel as there are bytes is enough.
unfoldable pub read_loop : ℕ → Bytes → List Bytes
read_loop zero p = []
read_loop (suc fuel) p = elim (read_message p) [
  | waiting ↦ []
  | bad_length ↦ []
  | body m rest ↦ m ∷ read_loop fuel rest
]

unfoldable pub received : Bytes → List Bytes
unfolding read_loop
received p = read_loop (length p) p

pub bytes_word-word_bytes :
    (x : ℕ)
    → IsU32 x
    → bytes_word (x % 256) (x / 256 % 256) (x / 65536 % 256) (x / 16777216 % 256) ≡ x
unfolding bytes_word
bytes_word-word_bytes x h = omega arith

pub to_be32-IsU32 : (x : ℕ) → IsU32 (to_be32 x)
to_be32-IsU32 x = omega (arith, to_be32_value x)

take_body-append : (m rest : Bytes) → take_body (length m) (m ++ rest) ≡ body m rest
unfolding take_body
take_body-append m rest = rw (
  le→ltb (length (m ++ rest)) (length m) (omega (arith, length-append m rest)),
  take-append_length m rest,
  drop-append_length m rest,
)

pub header_value :
    (n : ℕ)
    → IsU32 n
    → let x = to_be32 (u32 n) in
      from_be32 (bytes_word (x % 256) (x / 256 % 256) (x / 65536 % 256) (x / 16777216 % 256)) ≡ n
header_value n h =
    let e : u32 n ≡ n = omega arith in
    rw (e, bytes_word-word_bytes (to_be32 n) (to_be32-IsU32 n)) (from_be32-to_be32 n h)

take_body-suc :
    (type : ℕ) (payload rest : Bytes)
    → take_body (1 + length payload) (type ∷ (payload ++ rest)) ≡ body (type ∷ payload) rest
take_body-suc type payload rest =
    let e : 1 + length payload ≡ suc (length payload) = omega arith in
    rw e (take_body-append (type ∷ payload) rest)

pub accepted : (n : ℕ) → 1 ≤ n → n ≤ max_body → (ltb n 1 || ltb max_body n) ≡ false
accepted n h k = ground arith

refused : (n : ℕ) → max_body < n → (ltb n 1 || ltb max_body n) ≡ true
refused n h = ground arith

-- A frame whose payload is shorter than 2^32 - 1 bytes is read back whole, whatever follows it.
pub read_frame-frame :
    (type : ℕ) (payload rest : Bytes)
    → IsU32 (1 + length payload)
    → read_frame (frame type payload ++ rest) ≡ body (type ∷ payload) rest
unfolding read_frame frame
read_frame-frame type payload rest h =
    rw (header_value (1 + length payload) h) (take_body-suc type payload rest)

-- A session or a lamp reads a frame of 1 to 2^20 bytes back whole, whatever follows it.
pub read_message-frame :
    (type : ℕ) (payload rest : Bytes)
    → 1 + length payload ≤ max_body
    → read_message (frame type payload ++ rest) ≡ body (type ∷ payload) rest
unfolding read_message frame
read_message-frame type payload rest h =
    rw (header_value (1 + length payload) (omega arith))
      (rw (accepted (1 + length payload) (omega arith) h) (take_body-suc type payload rest))

-- It closes the connection on a longer one, of which it reads the length only.
pub read_message_too_long :
    (type : ℕ) (payload rest : Bytes)
    → max_body < 1 + length payload
    → IsU32 (1 + length payload)
    → read_message (frame type payload ++ rest) ≡ bad_length
unfolding read_message frame
read_message_too_long type payload rest h fits =
    rw (header_value (1 + length payload) fits) (rw (refused (1 + length payload) h))

-- The stream of several frames, and the bodies in it.
abbrev pub stream : List (ℕ × Bytes) → Bytes
stream [] = []
stream (m ∷ ms) = frame m.0 m.1 ++ stream ms

abbrev pub bodies : List (ℕ × Bytes) → List Bytes
bodies [] = []
bodies (m ∷ ms) = (m.0 ∷ m.1) ∷ bodies ms

abbrev pub IsSendable : ℕ × Bytes → Type 0
IsSendable m = 1 + length m.1 ≤ max_body

length-stream : (ms : List (ℕ × Bytes)) → length ms ≤ length (stream ms)
unfolding frame
length-stream [] = omega arith
length-stream (m ∷ ms) = omega (arith, length-stream ms, length-append (frame m.0 m.1) (stream ms))

read_loop-stream :
    (fuel : ℕ) (ms : List (ℕ × Bytes))
    → length ms ≤ fuel
    → All IsSendable ms
    → read_loop fuel (stream ms) ≡ bodies ms
unfolding read_loop
read_loop-stream zero [] h s = refl
read_loop-stream (suc fuel) [] h s = unfold read_message in refl
read_loop-stream zero (m ∷ ms) h s = absurd (omega arith)
read_loop-stream (suc fuel) (m ∷ ms) h s =
    rw (read_message-frame m.0 m.1 (stream ms) s.0, read_loop)
      (ap (◌∷◌ (m.0 ∷ m.1)) (read_loop-stream fuel ms (omega arith) s.1))

-- A session hands over every message of a stream of frames, in order and undivided.
pub received-stream : (ms : List (ℕ × Bytes)) → All IsSendable ms → received (stream ms) ≡ bodies ms
unfolding received
received-stream ms s = read_loop-stream (length (stream ms)) ms (length-stream ms) s

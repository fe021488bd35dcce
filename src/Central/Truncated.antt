-- ===== src/Central/Truncated.antt =====
-- What a session of central_tls_server.hpp makes of an ALARM_UP of which the end is missing.
use smart_lighting_system.Base.{ℕ, ◌≡◌, refl, [], ◌∷◌, ◌++◌, sym, ◌∙◌, append-nil}
use smart_lighting_system.Proto.Result.{ok}
use smart_lighting_system.Proto.MsgType
use smart_lighting_system.Proto.Messages.{Bytes, AlarmUp}
use smart_lighting_system.Proto.Fits.{AlarmUpFits}
use smart_lighting_system.Proto.Encode.{encode_alarm_up}
use smart_lighting_system.Proto.Truncated.{decode_alarm_up_part}
use smart_lighting_system.Proto.RoundTrip.Central.{encode_alarm_up_lem, decode-encode_alarm_up}
use smart_lighting_system.Central.{Central, on_alarm_up, on_message}

encoded : {a : Bytes} {b : Bytes} → ok a ≡ ok b → a ≡ b
encoded e = cc

-- An ALARM_UP is handled whole or not at all: wherever its payload is cut short, the message changes
-- nothing and is not answered, and the uncut payload is handled as the alarm that was encoded.
pub on_message-alarm_part :
    (ts : ℕ) (a : AlarmUp) (p : Bytes) (b : ℕ) (q : Bytes) (c : Central)
    → AlarmUpFits a
    → encode_alarm_up a ≡ ok (p ++ b ∷ q)
    → (on_message ts (MsgType.alarm_up ∷ p) c ≡ (c, []))
      × (on_message ts (MsgType.alarm_up ∷ (p ++ b ∷ q)) c ≡ on_alarm_up a c)
unfolding on_message
on_message-alarm_part ts a p b q c h e =
    let (x, fails) = decode_alarm_up_part a p b q h (encoded (sym e ∙ encode_alarm_up_lem a h)) in
    let decoded = decode-encode_alarm_up a [] h in
    let whole = rw (e, append-nil) at decoded in (rw fails refl, rw whole refl)

-- ===== src/Central/Session/Step.antt =====
-- One operation of a session as a step in the stream of bytes that it reads.
use smart_lighting_system.Base.{
  ℕ, zero, suc, ◌≤◌, ◌≡◌, refl, sym, ap, ◌∙◌, inl, inr, false, ◌||◌, Bool-cases, List, [], ◌∷◌,
  ◌++◌, Option, none, some, arith, ltb, eqb, eqb_refl, nat_eq,
}
use smart_lighting_system.Proto.Messages.{Bytes}
use smart_lighting_system.Proto.Frame.{header_length, max_body, received, read_loop}
use smart_lighting_system.Central.{Central}
use smart_lighting_system.Central.Session.{
  Phase, handshaking, reading_header, reading_body, ended, Completion, shaken, failed, arrived,
  on_completion, read_header, read_body,
}
use smart_lighting_system.Central.Session.Reading.{
  expected, expected-body, received-header, received-header_refused,
}
use smart_lighting_system.Central.Session.Run.{
  CanEnd, shakes, fails_shaking, fails_header, fails_body, header_arrives, body_arrives, taken,
  bodies_for, bytes_in,
}

-- A session reads no empty body.
abbrev pub IsAsking : Phase → Type 0
IsAsking (reading_body n) = 1 ≤ n
IsAsking _ = Unit

pub expected-nil : (ph : Phase) → IsAsking ph → expected ph [] ≡ []
unfolding received read_loop
expected-nil handshaking h = refl
expected-nil reading_header h = refl
expected-nil (reading_body zero) h = absurd (omega arith)
expected-nil (reading_body (suc n)) h = ground arith
expected-nil ended h = refl

pub on_completion-IsAsking :
    {ph : Phase} {e : Completion} (ts : ℕ) (c : Central)
    → CanEnd ph e
    → IsAsking (on_completion ts ph e c).phase
unfolding on_completion
on_completion-IsAsking ts c shakes = tt
on_completion-IsAsking ts c fails_shaking = tt
on_completion-IsAsking ts c fails_header = tt
on_completion-IsAsking ts c fails_body = tt
on_completion-IsAsking ts c (header_arrives {hdr} l) =
    elim (Bool-cases (ltb (header_length hdr) 1 || ltb max_body (header_length hdr))) [
      | inl e ↦ unfold read_header in rw e tt
      | inr e ↦ unfold read_header in rw e (ground arith)
    ]
on_completion-IsAsking ts c body_arrives = unfold read_body in tt

-- One operation of a session takes one step in its stream.
pub on_completion-expected :
    {ph : Phase} {e : Completion} (ts id : ℕ) (c : Central) (xs : List (ℕ × (ℕ × Bytes)))
    (p : Bytes)
    → CanEnd ph e
    → IsAsking ph
    → ((on_completion ts ph e c).phase ≡ ended → p ≡ [])
    → bodies_for id xs ≡ expected (on_completion ts ph e c).phase p
    → bodies_for id (taken ts id (some ph) e ++ xs) ≡ expected ph (bytes_in e ++ p)
unfolding on_completion
on_completion-expected ts id c xs p shakes a q h = h
on_completion-expected ts id c xs p fails_shaking a q h =
    h ∙ rw (q refl) (sym (expected-nil handshaking tt))
on_completion-expected ts id c xs p fails_header a q h =
    h ∙ rw (q refl) (sym (expected-nil reading_header tt))
on_completion-expected ts id c xs p (fails_body {n}) a q h =
    h ∙ rw (q refl) (sym (expected-nil (reading_body n) a))
on_completion-expected ts id c xs p (header_arrives {hdr} l) a q h =
    elim (Bool-cases (ltb (header_length hdr) 1 || ltb max_body (header_length hdr))) [
      | inl e ↦
          unfold read_header in let h' = rw e at h in h' ∙ sym (received-header_refused hdr p l e)
      | inr e ↦ unfold read_header in let h' = rw e at h in h' ∙ sym (received-header hdr p l e)
    ]
on_completion-expected ts id c xs p (body_arrives {b}) a q h =
    unfold read_body bodies_for in rw (eqb_refl id) (ap (◌∷◌ b) h ∙ sym (expected-body b p))

pub taken-bodies :
    (ts j id : ℕ) (o : Option Phase) (e : Completion) (xs : List (ℕ × (ℕ × Bytes)))
    → eqb j id ≡ false
    → bodies_for id (taken ts j o e ++ xs) ≡ bodies_for id xs
unfolding bodies_for
taken-bodies ts j id (some (reading_body n)) (arrived b) xs q = rw q refl
taken-bodies ts j id none e xs q = refl
taken-bodies ts j id (some handshaking) e xs q = refl
taken-bodies ts j id (some reading_header) e xs q = refl
taken-bodies ts j id (some ended) e xs q = refl
taken-bodies ts j id (some (reading_body n)) shaken xs q = refl
taken-bodies ts j id (some (reading_body n)) failed xs q = refl

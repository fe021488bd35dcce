-- ===== src/Central/Session/Found.antt =====
-- The phases that a session is found in after an event.
use smart_lighting_system.Base.{
  ℕ, ◌≡◌, ◌≢◌, refl, ◌∙◌, true, false, List, Option, none, some, arith, eqb, nat_eq,
}
use smart_lighting_system.Base.Assoc.{lookup, lookup-insert, lookup-insert_self, lookup-insert_ne}
use smart_lighting_system.Central.Session.{
  Phase, handshaking, ended, Completion, accept, complete, CentralServer, handle, on_completion,
}
use smart_lighting_system.Central.Session.Run.{
  CanEnd, shakes, fails_shaking, fails_header, fails_body, header_arrives, body_arrives,
}

pub found_apart :
    (j id : ℕ) (ph : Phase) (m : List (ℕ × Phase))
    → lookup j m ≡ none
    → lookup id m ≡ some ph
    → j ≢ id
found_apart j id ph m free h eq = cc

pub found_same :
    (j id : ℕ) (ph' ph : Phase) (m : List (ℕ × Phase))
    → lookup j m ≡ some ph'
    → lookup id m ≡ some ph
    → j ≡ id
    → ph' ≡ ph
found_same j id ph' ph m found h eq = cc

pub accept-lookup :
    (j id : ℕ) (ph : Phase) (s : CentralServer)
    → lookup j s.sessions ≡ none
    → lookup id s.sessions ≡ some ph
    → lookup id (handle s (accept j)).0.sessions ≡ some ph
unfolding handle
accept-lookup j id ph s free h =
    lookup-insert_ne j id handshaking s.sessions (found_apart j id ph s.sessions free h) ∙ h

pub accept-lookup_own :
    (j id : ℕ) (s : CentralServer)
    → eqb j id ≡ true
    → lookup id (handle s (accept j)).0.sessions ≡ some handshaking
unfolding handle
accept-lookup_own j id s q = lookup-insert j id handshaking s.sessions ∙ rw q refl

pub accept-lookup_other :
    (j id : ℕ) (s : CentralServer)
    → eqb j id ≡ false
    → lookup id s.sessions ≡ none
    → lookup id (handle s (accept j)).0.sessions ≡ none
unfolding handle
accept-lookup_other j id s q h = lookup-insert j id handshaking s.sessions ∙ rw q h

pub complete-lookup_own :
    (ts id : ℕ) (ph : Phase) (e : Completion) (s : CentralServer)
    → lookup id s.sessions ≡ some ph
    → lookup id (handle s (complete ts id e)).0.sessions
      ≡ some (on_completion ts ph e s.central).phase
unfolding handle
complete-lookup_own ts id ph e s h = rw h (lookup-insert_self id _ s.sessions)

pub complete-lookup_other :
    (ts j id : ℕ) (ph : Phase) (o : Option Phase) (e : Completion) (s : CentralServer)
    → eqb j id ≡ false
    → lookup j s.sessions ≡ some ph
    → lookup id s.sessions ≡ o
    → lookup id (handle s (complete ts j e)).0.sessions ≡ o
unfolding handle
complete-lookup_other ts j id ph o e s q found h =
    rw found (lookup-insert_ne j id _ s.sessions (ground arith) ∙ h)

pub no_end : {ph : Phase} {e : Completion} → CanEnd ph e → ph ≢ ended
no_end shakes eq = cc
no_end fails_shaking eq = cc
no_end fails_header eq = cc
no_end fails_body eq = cc
no_end (header_arrives l) eq = cc
no_end body_arrives eq = cc

-- ===== src/Central/Session/Streams.antt =====
-- The bodies that a session of the central server hands over, by the bytes that it reads.
use smart_lighting_system.Base.{
  ℕ, ◌≡◌, ◌≢◌, refl, sym, subst, ap, ◌∙◌, inl, inr, false, Bool-cases, List, [], ◌∷◌, none, some,
  arith, eqb, eqb_refl, eqb_iff, nat_eq,
}
use smart_lighting_system.Base.Assoc.{lookup}
use smart_lighting_system.Proto.Frame.{received}
use smart_lighting_system.Central.{Central}
use smart_lighting_system.Central.Invariant.{serve}
use smart_lighting_system.Central.Session.{
  Phase, handshaking, reading_header, ended, Completion, Event, complete, CentralServer, handle,
  run, on_completion,
}
use smart_lighting_system.Central.Session.Reading.{expected}
use smart_lighting_system.Central.Session.Run.{
  CanEnd, IsRun, stops, accepts, ends, handled, stamped, bodies_for, bytes_for, run-central,
}
use smart_lighting_system.Central.Session.Step.{
  IsAsking, expected-nil, on_completion-IsAsking, on_completion-expected, taken-bodies,
}
use smart_lighting_system.Central.Session.Found.{
  found_apart, found_same, accept-lookup, accept-lookup_own, accept-lookup_other,
  complete-lookup_own, complete-lookup_other, no_end,
}

-- A session that has ended reads nothing more.
ended-bytes :
    {s : CentralServer} {es : List Event} (id : ℕ)
    → IsRun s es
    → lookup id s.sessions ≡ some ended
    → bytes_for id es ≡ []
unfolding bytes_for
ended-bytes id stops h = refl
ended-bytes {s} id (accepts {id = j} free rest) h =
    ended-bytes id rest (accept-lookup j id ended s free h)
ended-bytes {s} id (ends {ts} {id = j} {ph} {e} {es} found can rest) h =
    let ih = ended-bytes id rest in
    elim (Bool-cases (eqb j id)) [
      | inl q ↦ absurd (no_end can (found_same j id ph ended s.sessions found h (ground arith)))
      | inr q ↦ rw q (ih (complete-lookup_other ts j id ph (some ended) e s q found h))
    ]

own-bytes :
    {es : List Event} {ph : Phase} {e : Completion} (s : CentralServer) (ts id : ℕ)
    → lookup id s.sessions ≡ some ph
    → CanEnd ph e
    → IsAsking ph
    → IsRun (handle s (complete ts id e)).0 es
    → bodies_for id (handled es (handle s (complete ts id e)).0)
      ≡ expected (on_completion ts ph e s.central).phase (bytes_for id es)
    → bodies_for id (handled (complete ts id e ∷ es) s)
      ≡ expected ph (bytes_for id (complete ts id e ∷ es))
unfolding handled bytes_for
own-bytes {es} {ph} {e} s ts id found can a rest ih =
    rw (found, eqb_refl id)
      (on_completion-expected ts id s.central (handled es (handle s (complete ts id e)).0)
        (bytes_for id es) can a
        (λ eq. ended-bytes id rest (complete-lookup_own ts id ph e s found ∙ ap some eq)) ih)

handled-bytes :
    {s : CentralServer} {es : List Event} {ph : Phase} (id : ℕ)
    → IsRun s es
    → IsAsking ph
    → lookup id s.sessions ≡ some ph
    → bodies_for id (handled es s) ≡ expected ph (bytes_for id es)
unfolding handled bytes_for
handled-bytes {ph} id stops a h = unfold bodies_for in sym (expected-nil ph a)
handled-bytes {s} {ph} id (accepts {id = j} {es} free rest) a h =
    handled-bytes id rest a (accept-lookup j id ph s free h)
handled-bytes {s} {ph} id (ends {ts} {id = j} {ph = ph'} {e} {es} found can rest) a h =
    let ih_own = handled-bytes j rest in
    let ih_other = handled-bytes id rest a in
    elim (Bool-cases (eqb j id)) [
      | inl q ↦
          let same : j ≡ id = (eqb_iff j id).0 q in
          let ph_same : ph' ≡ ph = found_same j id ph' ph s.sessions found h same in
          let a' : IsAsking ph' = rw ph_same a in
          let es' : List Event = complete ts j e ∷ es in
          rw (sym ph_same) (
            subst (λ x. bodies_for x (handled es' s) ≡ expected ph' (bytes_for x es')) same
              (own-bytes s ts j found can a' rest (
                ih_own (on_completion-IsAsking ts s.central can)
                  (complete-lookup_own ts j ph' e s found))))
      | inr q ↦ rw q (
          taken-bodies ts j id (lookup j s.sessions) e (handled es (handle s (complete ts j e)).0) q
          ∙ ih_other (complete-lookup_other ts j id ph' (some ph) e s q found h))
    ]

-- A session that is still to come.
new-bytes :
    {s : CentralServer} {es : List Event} (id : ℕ)
    → IsRun s es
    → lookup id s.sessions ≡ none
    → bodies_for id (handled es s) ≡ received (bytes_for id es)
unfolding handled bytes_for
new-bytes id stops h = unfold bodies_for in sym (expected-nil reading_header tt)
new-bytes {s} id (accepts {id = j} {es} free rest) h =
    let ih = new-bytes id rest in
    elim (Bool-cases (eqb j id)) [
      | inl q ↦ handled-bytes {ph = handshaking} id rest tt (accept-lookup_own j id s q)
      | inr q ↦ ih (accept-lookup_other j id s q h)
    ]
new-bytes {s} id (ends {ts} {id = j} {ph} {e} {es} found can rest) h =
    let ih = new-bytes id rest in
    let q : eqb j id ≡ false = apart (found_apart id j ph s.sessions h found) in
    rw q (
      taken-bodies ts j id (lookup j s.sessions) e (handled es (handle s (complete ts j e)).0) q
      ∙ ih (complete-lookup_other ts j id ph none e s q found h))
  where
    apart : {j : ℕ} → id ≢ j → eqb j id ≡ false
    apart n = ground arith

abbrev pub new_server : Central → CentralServer
new_server c = record { central = c; sessions = [] }

-- In every run in which each session has a number of its own and each read that succeeds brings the
-- bytes that it asked for: however the operations of the sessions interleave and fail, the store and
-- the database queue of the central server become what they would be if it handled one after the
-- other, in the order in which they are complete, the bodies that its sessions receive; and each
-- session hands over exactly the bodies in the stream of bytes that it has read.
pub run-serves :
    (es : List Event) (c : Central) (id : ℕ)
    → IsRun (new_server c) es
    → let xs = handled es (new_server c) in
      ((run es (new_server c)).central ≡ serve (stamped xs) c)
      × (bodies_for id xs ≡ received (bytes_for id es))
unfolding lookup
run-serves es c id r = (run-central es (new_server c), new-bytes id r refl)

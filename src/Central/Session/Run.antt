-- ===== src/Central/Session/Run.antt =====
-- The runs of the central server: its sessions' operations end in any order.
use smart_lighting_system.Base.{
  ℕ, ◌≡◌, refl, ◌∙◌, inl, inr, ◌||◌, Bool-cases, List, [], ◌∷◌, ◌++◌, Option, none, some, length,
  ltb, eqb, nat_eq, if◌then◌else◌,
}
use smart_lighting_system.Base.Assoc.{lookup}
use smart_lighting_system.Proto.Messages.{Bytes}
use smart_lighting_system.Proto.Frame.{header_length, max_body}
use smart_lighting_system.Central.Invariant.{serve}
use smart_lighting_system.Central.Session.{
  Phase, handshaking, reading_header, reading_body, ended, Completion, shaken, failed, arrived,
  Event, accept, complete, CentralServer, handle, run, completes, on_completion, read_header,
  read_body,
}

-- How the operation that a session waits for can end: a read brings the bytes that it asked for.
pub data CanEnd : Phase → Completion → Type 0 where
  shakes : CanEnd handshaking shaken
  fails_shaking : CanEnd handshaking failed
  fails_header : CanEnd reading_header failed
  fails_body : {n : ℕ} → CanEnd (reading_body n) failed
  header_arrives : {hdr : Bytes} → length hdr ≡ 4 → CanEnd reading_header (arrived hdr)
  body_arrives : {b : Bytes} → CanEnd (reading_body (length b)) (arrived b)

-- A new session has a number of its own, and an operation ends that a session waits for.
pub data IsRun : CentralServer → List Event → Type 0 where
  stops : {s : CentralServer} → IsRun s []
  accepts :
      {s : CentralServer} {id : ℕ} {es : List Event}
      → lookup id s.sessions ≡ none
      → IsRun (handle s (accept id)).0 es
      → IsRun s (accept id ∷ es)
  ends :
      {s : CentralServer} {ts id : ℕ} {ph : Phase} {e : Completion} {es : List Event}
      → lookup id s.sessions ≡ some ph
      → CanEnd ph e
      → IsRun (handle s (complete ts id e)).0 es
      → IsRun s (complete ts id e ∷ es)

-- The bodies that the server handles, each with its session and its time stamp.
abbrev pub taken : ℕ → ℕ → Option Phase → Completion → List (ℕ × (ℕ × Bytes))
taken ts id (some (reading_body n)) (arrived b) = (id, (ts, b)) ∷ []
taken ts id _ _ = []

unfoldable pub handled : List Event → CentralServer → List (ℕ × (ℕ × Bytes))
handled [] s = []
handled (accept id ∷ es) s = handled es (handle s (accept id)).0
handled (complete ts id e ∷ es) s =
    taken ts id (lookup id s.sessions) e ++ handled es (handle s (complete ts id e)).0

abbrev pub stamped : List (ℕ × (ℕ × Bytes)) → List (ℕ × Bytes)
stamped [] = []
stamped (x ∷ xs) = x.1 ∷ stamped xs

-- The bodies of one session, and the bytes that it reads.
unfoldable pub bodies_for : ℕ → List (ℕ × (ℕ × Bytes)) → List Bytes
bodies_for id [] = []
bodies_for id ((j, (ts, b)) ∷ xs) =
    let rest = bodies_for id xs in if eqb j id then b ∷ rest else rest

abbrev pub bytes_in : Completion → Bytes
bytes_in (arrived b) = b
bytes_in _ = []

unfoldable pub bytes_for : ℕ → List Event → Bytes
bytes_for id [] = []
bytes_for id (accept j ∷ es) = bytes_for id es
bytes_for id (complete ts j e ∷ es) =
    let rest = bytes_for id es in if eqb j id then bytes_in e ++ rest else rest

completes-serve :
    (ts id : ℕ) (e : Completion) (s : CentralServer) (xs : List (ℕ × (ℕ × Bytes)))
    (o : Option Phase)
    → serve (stamped xs) (completes ts id e s o).0.central
      ≡ serve (stamped (taken ts id o e ++ xs)) s.central
unfolding on_completion serve
completes-serve ts id e s xs none = refl
completes-serve ts id (arrived b) s xs (some (reading_body n)) = unfold read_body in refl
completes-serve ts id failed s xs (some (reading_body n)) = refl
completes-serve ts id shaken s xs (some (reading_body n)) = refl
completes-serve ts id shaken s xs (some handshaking) = refl
completes-serve ts id failed s xs (some handshaking) = refl
completes-serve ts id (arrived b) s xs (some handshaking) = refl
completes-serve ts id shaken s xs (some reading_header) = refl
completes-serve ts id failed s xs (some reading_header) = refl
completes-serve ts id (arrived hdr) s xs (some reading_header) =
    elim (Bool-cases (ltb (header_length hdr) 1 || ltb max_body (header_length hdr))) [
      | inl e ↦ unfold read_header in rw e refl
      | inr e ↦ unfold read_header in rw e refl
    ]
completes-serve ts id shaken s xs (some ended) = refl
completes-serve ts id failed s xs (some ended) = refl
completes-serve ts id (arrived b) s xs (some ended) = refl

handle-serve :
    (ts id : ℕ) (e : Completion) (s : CentralServer) (xs : List (ℕ × (ℕ × Bytes)))
    → serve (stamped xs) (handle s (complete ts id e)).0.central
      ≡ serve (stamped (taken ts id (lookup id s.sessions) e ++ xs)) s.central
unfolding handle
handle-serve ts id e s xs = completes-serve ts id e s xs (lookup id s.sessions)

-- The store and the database queue change as if the bodies were handled one after the other.
pub run-central :
    (es : List Event) (s : CentralServer)
    → (run es s).central ≡ serve (stamped (handled es s)) s.central
unfolding run handled serve handle
run-central [] s = refl
run-central (accept id ∷ es) s = run-central es (handle s (accept id)).0
run-central (complete ts id e ∷ es) s =
    let s' = (handle s (complete ts id e)).0 in
    run-central es s' ∙ handle-serve ts id e s (handled es s')

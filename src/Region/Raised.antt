-- ===== src/Region/Raised.antt =====
-- The alarms that a tick of the communication check raises.
use smart_lighting_system.Base.{
  ℕ, ◌≡◌, refl, sym, ap, ◌∙◌, inl, inr, Bool, true, false, Bool-cases, List, [], ◌∷◌, ◌++◌, map,
  append-nil, append_assoc, bytes_key, bytes_eq_iff, contains, arith, if◌then◌else◌,
}
use smart_lighting_system.Base.Assoc.{Distinct}
use smart_lighting_system.Proto.Messages.{Bytes, AlarmUp}
use smart_lighting_system.Registry.{Devices, is_silent, lost_loop, detect_comm_lost}
use smart_lighting_system.Registry.CommLost.{is_lost, lost_loop-contains}
use smart_lighting_system.Registry.Lamps.{NoRepeat, contains-append_one}
use smart_lighting_system.Region.{Clock, Region, switch_fsm, send_alarm_now}
use smart_lighting_system.Region.Tick.{
  is_faulty, raise_lost, raise_loop, still_lost, recover, on_tick,
}

lost_loop-NoRepeat :
    (now timeout_ms : ℕ) (ds : Devices) → Distinct ds → NoRepeat (lost_loop now timeout_ms ds).1
unfolding lost_loop
lost_loop-NoRepeat now timeout_ms [] d = tt
lost_loop-NoRepeat now timeout_ms ((k, st) ∷ ds) d =
    let rest = lost_loop-NoRepeat now timeout_ms ds d.1 in
    let k_new = lost_loop-contains now timeout_ms k ds d.1 ∙ ap (is_lost now timeout_ms) d.0 in
    elim (Bool-cases (is_silent now timeout_ms st)) [
      | inl e ↦ rw e (k_new, rest)
      | inr e ↦ rw e rest
    ]

-- The uris of a list that are not known.
abbrev pub new_among : List Bytes → List Bytes → List Bytes
new_among known [] = []
new_among known (u ∷ us) =
    let rest = new_among known us in if contains u known then rest else u ∷ rest

new_among-append :
    (known : List Bytes) (uri : Bytes) (us : List Bytes)
    → contains uri us ≡ false
    → new_among (known ++ uri ∷ []) us ≡ new_among known us
new_among-append known uri [] h = refl
new_among-append known uri (u ∷ us) h =
    let e : contains u (known ++ uri ∷ []) ≡ contains u known =
      contains-append_one u uri known ∙ ground (arith, bytes_eq_iff uri u, bytes_eq_iff u uri) in
    rw (e, new_among-append known uri us (ground arith)) refl

abbrev pub uris : List AlarmUp → List Bytes
uris xs = map (λ (a : AlarmUp). a.uri) xs

uris-append : (xs : List AlarmUp) (a : AlarmUp) → uris (xs ++ a ∷ []) ≡ uris xs ++ a.uri ∷ []
uris-append [] a = refl
uris-append (b ∷ bs) a = ap (◌∷◌ b.uri) (uris-append bs a)

raise_loop-uris :
    (lost : List Bytes) (clock : Clock) (r : Region)
    → NoRepeat lost
    → uris (raise_loop lost clock r).alarms ≡ uris r.alarms ++ new_among r.active_lost lost
unfolding raise_loop
raise_loop-uris [] clock r n = sym (append-nil (uris r.alarms))
raise_loop-uris (uri ∷ rest) clock r n =
    go (contains uri r.active_lost) (λ r'. raise_loop-uris rest clock r' n.1)
  where
    go :
        (b : Bool)
        → ((r' : Region)
            → uris (raise_loop rest clock r').alarms
              ≡ uris r'.alarms ++ new_among r'.active_lost rest)
        → uris (raise_loop rest clock (if b then r else raise_lost uri clock r)).alarms
          ≡ uris r.alarms
            ++ (if b then new_among r.active_lost rest else uri ∷ new_among r.active_lost rest)
    go true ih = ih r
    go false ih =
        ih (raise_lost uri clock r)
        ∙ unfold raise_lost switch_fsm send_alarm_now in
          rw (uris-append r.alarms _, new_among-append r.active_lost uri rest n.0)
            (append_assoc (uris r.alarms) (uri ∷ []) (new_among r.active_lost rest))

recover-alarms : (left : List Bytes) (r : Region) → (recover left r).alarms ≡ r.alarms
unfolding recover switch_fsm
recover-alarms [] r = elim (Bool-cases (is_faulty r.fsm)) [ inl e ↦ rw e refl | inr e ↦ rw e refl ]
recover-alarms (u ∷ us) r = refl

-- With distinct uris, a tick raises one alarm for each device that it finds newly silent and that was
-- not held as lost, in the order in which they are found, and no other.
pub on_tick-alarms :
    (timeout_ms : ℕ) (clock : Clock) (r : Region)
    → Distinct r.reg.dev
    → uris (on_tick timeout_ms clock r).alarms
      ≡ uris r.alarms ++ new_among r.active_lost (detect_comm_lost clock.now_ms timeout_ms r.reg).1
unfolding on_tick detect_comm_lost
on_tick-alarms timeout_ms clock r d =
    let found = lost_loop clock.now_ms timeout_ms r.reg.dev in
    let r1 : Region =
      raise_loop found.1 clock (record r { reg = record r.reg { dev = found.0 } }) in
    let left : List Bytes = still_lost found.1 r1.active_lost in
    ap uris (recover-alarms left (record r1 { active_lost = left }))
    ∙ raise_loop-uris found.1 clock (record r { reg = record r.reg { dev = found.0 } })
        (lost_loop-NoRepeat clock.now_ms timeout_ms r.reg.dev d)

-- ===== src/Db/Writer.antt =====
-- The writer among its clients: every interleaving of the worker's rounds with calls from other
-- threads.
use smart_lighting_system.Base.{
  ℕ, zero, suc, ◌≡◌, inl, inr, Bool-cases, refl, ap, ◌∙◌, true, false, List, [], ◌∷◌, ◌++◌,
  append_assoc, append-nil, arith, length,
}
use smart_lighting_system.Db.{
  Event, AlarmRow, DbWriter, new_writer, start, enqueue, log_alarm, worker_round, request_stop,
  finish_stop,
}

-- A run of the started writer, up to the point where `stop` has joined the worker, with the events
-- that it accepted, in order. The worker takes a round while it is in its loop.
pub data Run : List Event → DbWriter → Type 0 where
  begin : Run [] (start new_writer)
  accept :
      {evs : List Event} {w : DbWriter} (ev : Event)
      → Run evs w
      → Run (evs ++ ev ∷ []) (enqueue ev w)
  alarm : {evs : List Event} {w : DbWriter} (row : AlarmRow) → Run evs w → Run evs (log_alarm row w)
  work :
      {evs : List Event} {w : DbWriter} → Run evs w → w.worker ≡ true → Run evs (worker_round w w.q)
  request : {evs : List Event} {w : DbWriter} → Run evs w → Run evs (request_stop w)

Run-running : {evs : List Event} {w : DbWriter} → Run evs w → w.running ≡ true
unfolding start enqueue log_alarm worker_round request_stop
Run-running begin = refl
Run-running (accept ev r) = ground (arith, Run-running r)
Run-running (alarm row r) = Run-running r
Run-running (work {w = w} r h) = worker_round-running w w.q (Run-running r)
  where
    worker_round-running :
        (w : DbWriter) (q : List Event) → w.running ≡ true → (worker_round w q).running ≡ true
    worker_round-running w [] h = ground arith
    worker_round-running w (ev ∷ q) h = h
Run-running (request r) = ground (arith, Run-running r)

worker_round-items :
    (w : DbWriter) (q : List Event)
    → w.q ≡ q
    → (worker_round w q).handled ++ (worker_round w q).q ≡ w.handled ++ q
unfolding worker_round
worker_round-items w [] e = elim (Bool-cases w.stop_requested) [
  | inl s ↦ rw s (ap (◌++◌ w.handled) e)
  | inr s ↦ rw s (ap (◌++◌ w.handled) e)
]
worker_round-items w (ev ∷ q) e = rw append_assoc

-- At every point of every run, the events handled so far followed by those in the queue are the
-- accepted events, in the order of acceptance: none is lost, doubled or overtaken.
pub Run-items : {evs : List Event} {w : DbWriter} → Run evs w → w.handled ++ w.q ≡ evs
unfolding start enqueue log_alarm request_stop
Run-items begin = refl
Run-items (accept {evs = evs} {w = w} ev r) =
    rw (Run-running r) (rw (← append_assoc) (ap (λ (l : List Event). l ++ ev ∷ []) (Run-items r)))
Run-items (alarm row r) = Run-items r
Run-items (work {w = w} r h) = worker_round-items w w.q refl ∙ Run-items r
Run-items (request r) = ground (arith, Run-items r)

-- The worker on its own, for a number of rounds.
pub rounds : ℕ → DbWriter → DbWriter
rounds zero w = w
rounds (suc n) w = rounds n (worker_round w w.q)

-- Once `stop` is requested, the worker handles all that is queued, in order, and leaves its loop,
-- within one round more than there are events.
pub rounds_drain :
    (q : List Event) (w : DbWriter)
    → w.q ≡ q
    → w.stop_requested ≡ true
    → let w' = rounds (suc (length q)) w in
      (w'.handled ≡ w.handled ++ q) × (w'.q ≡ []) × (w'.worker ≡ false)
unfolding rounds worker_round
rounds_drain [] w e s = rw (e, s) (rw append-nil refl, refl, refl)
rounds_drain (ev ∷ q) w e s =
    rw (e, worker_round)
      (rw (← append_assoc w.handled (ev ∷ []) q)
        (rounds_drain q (record w { q = q; handled = w.handled ++ ev ∷ [] }) refl s))

-- After any run, up to the point where `stop` has joined the worker, one more event is accepted, but the
-- last part of `stop` then empties the queue: of all the accepted events, those that are in the queue,
-- the last one included, are dropped, and the ones before them are all that was ever handled.
pub accepted_late :
    {evs : List Event} {w : DbWriter} (ev : Event)
    → Run evs w
    → let w1 = enqueue ev w in
      let w' = finish_stop w1 in
      (w1.q ≡ w.q ++ ev ∷ [])
      × (w'.handled ++ (w.q ++ ev ∷ []) ≡ evs ++ ev ∷ [])
      × (w'.q ≡ [])
      × (w'.running ≡ false)
unfolding finish_stop enqueue
accepted_late {evs} {w} ev r =
    let all : (w.handled ++ w.q) ++ ev ∷ [] ≡ evs ++ ev ∷ [] =
      ap (λ (l : List Event). l ++ ev ∷ []) (Run-items r) in
    rw (Run-running r) (refl, rw (← append_assoc w.handled w.q (ev ∷ [])) all, refl, refl)

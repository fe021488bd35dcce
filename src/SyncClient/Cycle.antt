-- ===== src/SyncClient/Cycle.antt =====
-- One attempt of the sync client of region_sync_client.hpp.
use smart_lighting_system.Base.{
  ℕ, ◌+◌, ◌≤◌, ◌<◌, ◌≡◌, refl, ◌∙◌, ◌⊎◌, inl, inr, some, List, [], ◌∷◌, arith, length, true, false,
  eqb, if◌then◌else◌,
}
use smart_lighting_system.Base.Words.{u32}
use smart_lighting_system.Proto.MsgType
use smart_lighting_system.Proto.Messages.{Bytes}
use smart_lighting_system.Proto.Encode.{encode_region_sync_up}
use smart_lighting_system.Proto.Frame.{frame}
use smart_lighting_system.Registry.{Registry}
use smart_lighting_system.SyncClient.{
  SyncClient, Phase, stopped, waiting, resolving, connecting, handshaking, writing, reading_header,
  reading_body, Outcome, failed, done, schedule_tick, sync_message, do_sync_once, send_sync,
  on_success, on_failure, on_event,
}

-- The operations that an attempt has still before it.
abbrev pub rank : Phase → ℕ
rank stopped = 0
rank waiting = 0
rank (resolving up) = 6
rank (connecting up) = 5
rank (handshaking up) = 4
rank writing = 3
rank reading_header = 2
rank (reading_body n) = 1

-- The events of one attempt, in any order of outcomes, each with the registry at its time. It is over
-- when the client waits for its timer.
pub attempt : SyncClient → List (Registry × Outcome) → SyncClient
attempt c [] = c
attempt c ((reg, o) ∷ rest) =
    let after = attempt (on_event c reg o).client rest in if eqb (rank c.phase) 0 then c else after

attempt_over :
    (c : SyncClient) (events : List (Registry × Outcome)) → c.phase ≡ waiting → attempt c events ≡ c
unfolding attempt
attempt_over c [] e = refl
attempt_over c ((reg, o) ∷ rest) e = let z : eqb (rank c.phase) 0 ≡ true = rw e refl in rw z

attempt_goes_on :
    (c : SyncClient) (reg : Registry) (o : Outcome) (rest : List (Registry × Outcome))
    → 0 < rank c.phase
    → attempt c ((reg, o) ∷ rest) ≡ attempt (on_event c reg o).client rest
unfolding attempt
attempt_goes_on c reg o rest h = let z : eqb (rank c.phase) 0 ≡ false = ground arith in rw z

-- A handler ends the attempt or takes it one operation further.
abbrev StepsTo : SyncClient → ℕ → SyncClient → Type 0
StepsTo c n c' =
    ((c'.phase ≡ waiting) ⊎ ((0 < rank c'.phase) × (rank c'.phase < n)))
    × (c'.version ≡ c.version)
    × (c'.region_id ≡ c.region_id)

handler_steps :
    (c : SyncClient) (reg : Registry) (o : Outcome) (ph : Phase)
    → c.phase ≡ ph
    → 0 < rank ph
    → StepsTo c (rank ph) (on_event c reg o).client
unfolding on_event on_failure on_success schedule_tick send_sync
handler_steps c reg failed stopped e h = absurd (omega arith)
handler_steps c reg failed waiting e h = absurd (omega arith)
handler_steps c reg failed _ e h = rw (e, on_failure) (inl refl, refl, refl)
handler_steps c reg (done p) stopped e h = absurd (omega arith)
handler_steps c reg (done p) waiting e h = absurd (omega arith)
handler_steps c reg (done p) (reading_body n) e h = rw (e, on_success) (inl refl, refl, refl)
handler_steps c reg (done p) _ e h = rw (e, on_success) (inr (omega arith, omega arith), refl, refl)

-- An attempt that has started ends with the client waiting for the timer again, after six events at
-- most, whatever the network does; the region and the version stay.
pub attempt_ends :
    (c : SyncClient) (events : List (Registry × Outcome))
    → 0 < rank c.phase
    → rank c.phase ≤ length events
    → let c' = attempt c events in
      (c'.phase ≡ waiting) × (c'.version ≡ c.version) × (c'.region_id ≡ c.region_id)
attempt_ends c [] h n = absurd (omega arith)
attempt_ends c ((reg, o) ∷ rest) h n = rw (attempt_goes_on c reg o rest h) (
    ends (on_event c reg o).client (handler_steps c reg o c.phase refl h)
      (attempt_ends (on_event c reg o).client rest))
  where
    ends :
        (c' : SyncClient)
        → StepsTo c (rank c.phase) c'
        → (0 < rank c'.phase
            → rank c'.phase ≤ length rest
            → let c'' = attempt c' rest in
              (c''.phase ≡ waiting) × (c''.version ≡ c'.version) × (c''.region_id ≡ c'.region_id))
        → let c'' = attempt c' rest in
          (c''.phase ≡ waiting) × (c''.version ≡ c.version) × (c''.region_id ≡ c.region_id)
    ends c' (inl e, v, r) ih = rw (attempt_over c' rest e) (e, v, r)
    ends c' (inr k, v, r) ih =
        let all = ih k.0 (omega (arith, k.1, n)) in (all.0, all.1 ∙ v, all.2 ∙ r)

-- A good attempt: the timer fires, each operation succeeds, and the central server answers.
-- The frame holds the aggregates of the registry at the time of the tick.
pub good_attempt :
    (c : SyncClient) (reg later : Registry) (p : Bytes)
    → c.phase ≡ waiting
    → let c1 = (on_event c reg (done [])).client in
      let c2 = (on_event c1 later (done [])).client in
      let c3 = (on_event c2 later (done [])).client in
      let turn = on_event c3 later (done []) in
      (turn.sent ≡ some (frame MsgType.region_sync_up (encode_region_sync_up (sync_message c reg))))
      × (turn.client.version ≡ u32 (c.version + 1))
unfolding on_event on_success do_sync_once send_sync
good_attempt c reg later p h = rw (h, on_success) (refl, refl)

-- ===== src/Outbox/Order.antt =====
-- The order of the messages in the write queue.
use smart_lighting_system.Base.{
  ℕ, zero, suc, ◌≡◌, refl, ap, ◌∙◌, inl, inr, true, false, Bool-cases, List, [], ◌∷◌, ◌++◌,
  append_assoc, append-nil, arith, length,
}
use smart_lighting_system.Proto.Messages.{Bytes}
use smart_lighting_system.Outbox.{
  OutMsg, Outbox, empty_outbox, queue_send, do_write, on_posted, run_posted, on_written,
}

-- A run of the queue of a connection that stays open, with the messages that were queued, in order.
-- Calls, posted handlers and ends of writes come in any order.
pub data Run : List OutMsg → Outbox → Type 0 where
  begin : Run [] empty_outbox
  queue :
      {ms : List OutMsg} {o : Outbox} (t : ℕ) (p : Bytes)
      → Run ms o
      → Run (ms ++ (t, p) ∷ []) (queue_send t p o)
  post : {ms : List OutMsg} {o : Outbox} → Run ms o → Run ms (run_posted o o.posted)
  written : {ms : List OutMsg} {o : Outbox} → Run ms o → o.writing ≡ true → Run ms (on_written o)

-- The messages of a queue, from the first that was sent to the last that is posted.
abbrev pub all_messages : Outbox → List OutMsg
all_messages o = o.sent ++ (o.out_q ++ o.posted)

do_write-all :
    (o : Outbox) (q : List OutMsg) → all_messages (do_write o q) ≡ o.sent ++ (q ++ o.posted)
unfolding do_write
do_write-all o [] = refl
do_write-all o (m ∷ q) = simp append_assoc

do_write-idle :
    (o : Outbox) (q : List OutMsg) → (do_write o q).writing ≡ false → (do_write o q).out_q ≡ []
unfolding do_write
do_write-idle o [] e = refl
do_write-idle o (m ∷ q) e = cc

run_posted-all :
    (o : Outbox) (ps : List OutMsg)
    → o.posted ≡ ps
    → all_messages (run_posted o ps) ≡ all_messages o
unfolding run_posted on_posted
run_posted-all o [] e = refl
run_posted-all o (m ∷ ps) e = elim (Bool-cases o.writing) [
  | inl w ↦ rw (w, e) (simp append_assoc)
  | inr w ↦ rw (w, e, do_write-all) (simp append_assoc)
]

run_posted-idle :
    (o : Outbox) (ps : List OutMsg)
    → (o.writing ≡ false → o.out_q ≡ [])
    → (run_posted o ps).writing ≡ false
    → (run_posted o ps).out_q ≡ []
unfolding run_posted on_posted
run_posted-idle o [] h = h
run_posted-idle o (m ∷ ps) h = elim (Bool-cases o.writing) [
  | inl w ↦ rw w (λ e. cc)
  | inr w ↦ rw w (do_write-idle (record o { posted = ps }) (o.out_q ++ m ∷ []))
]

-- At every point the messages sent, then those that wait, then those that are posted are the messages
-- queued, in order, and none waits while nothing is being written.
pub Run-messages :
    {ms : List OutMsg} {o : Outbox}
    → Run ms o
    → (all_messages o ≡ ms) × (o.writing ≡ false → o.out_q ≡ [])
unfolding queue_send on_written
Run-messages begin = (refl, λ e. refl)
Run-messages (queue {ms = ms} t p r) =
    let h = Run-messages r in
    (
      simp (← append_assoc) (ap (λ (l : List OutMsg). l ++ (t, p) ∷ []) (simp append_assoc h.0)),
      h.1,
    )
Run-messages (post {o = o} r) =
    let h = Run-messages r in (run_posted-all o o.posted refl ∙ h.0, run_posted-idle o o.posted h.1)
Run-messages (written {o = o} r w) =
    (do_write-all o o.out_q ∙ (Run-messages r).0, do_write-idle o o.out_q)

-- A number of posted handlers, and a number of writes that end well.
pub posts : ℕ → Outbox → Outbox
posts zero o = o
posts (suc n) o = posts n (run_posted o o.posted)

pub writes : ℕ → Outbox → Outbox
writes zero o = o
writes (suc n) o = writes n (on_written o)

posts-Run : {ms : List OutMsg} (n : ℕ) {o : Outbox} → Run ms o → Run ms (posts n o)
unfolding posts
posts-Run zero r = r
posts-Run (suc n) r = posts-Run n (post r)

do_write-posted : (o : Outbox) (q : List OutMsg) → (do_write o q).posted ≡ o.posted
unfolding do_write
do_write-posted o [] = refl
do_write-posted o (m ∷ q) = refl

run_posted-posted :
    (o : Outbox) (m : OutMsg) (ps : List OutMsg) → (run_posted o (m ∷ ps)).posted ≡ ps
unfolding run_posted on_posted
run_posted-posted o m ps = elim (Bool-cases o.writing) [
  | inl w ↦ rw w refl
  | inr w ↦ rw w (do_write-posted (record o { posted = ps }) (o.out_q ++ m ∷ []))
]

posts-posted : (ps : List OutMsg) (o : Outbox) → o.posted ≡ ps → (posts (length ps) o).posted ≡ []
unfolding posts
posts-posted [] o e = e
posts-posted (m ∷ ps) o e =
    posts-posted ps (run_posted o o.posted)
      (ap (λ (l : List OutMsg). (run_posted o l).posted) e ∙ run_posted-posted o m ps)

writes-drain :
    (n : ℕ) (o : Outbox) (q : List OutMsg)
    → o.out_q ≡ q
    → length q ≡ n
    → let o' = writes (suc n) o in
      (o'.sent ≡ o.sent ++ q) × (o'.posted ≡ o.posted) × (o'.writing ≡ false)
unfolding writes on_written do_write
writes-drain zero o [] e n = rw e (rw append-nil refl, refl, refl)
writes-drain (suc n) o [] e h = absurd (omega arith)
writes-drain zero o (m ∷ q) e h = absurd (omega arith)
writes-drain (suc n) o (m ∷ q) e h = rw e (
    rw (← append_assoc o.sent (m ∷ []) q) (
      writes-drain n (record o { out_q = q; writing = true; sent = o.sent ++ m ∷ [] }) q refl
        (omega arith)))

-- From any point, once the posted handlers have run and the writes after them end well, every message
-- queued has been sent, in order, and nothing is being written.
pub Run-drains :
    {ms : List OutMsg} {o : Outbox}
    → Run ms o
    → let o1 = posts (length o.posted) o in
      let o2 = writes (suc (length o1.out_q)) o1 in (o2.sent ≡ ms) × (o2.writing ≡ false)
Run-drains {ms} {o} r =
    let o1 : Outbox = posts (length o.posted) o in
    let d = writes-drain (length o1.out_q) o1 o1.out_q refl refl in
    let none_posted = posts-posted o.posted o refl in
    let all = (Run-messages (posts-Run (length o.posted) r)).0 in
    let all' = rw (none_posted, append-nil) at all in (d.0 ∙ all', d.2)

-- ===== src/Outbox.antt =====
-- The write queue of tls_device_server.hpp and luminaire_client.cpp: at most one frame is written at a
-- time. A handler runs whole: the model has no data race between two handlers.
pub mod Order
use smart_lighting_system.Base.{ℕ, Bool, true, false, List, [], ◌∷◌, ◌++◌, if◌then◌else◌}
use smart_lighting_system.Proto.Messages.{Bytes}

abbrev pub OutMsg : Type 0
OutMsg = ℕ × Bytes

-- `posted` holds the messages of the handlers that asio::post has queued, and `sent` those handed to
-- async_write_frame, the last of which is still being written if `writing`.
pub record Outbox : Type 0 where
  pub posted : List OutMsg
  pub out_q : List OutMsg
  pub writing : Bool
  pub sent : List OutMsg

abbrev pub empty_outbox : Outbox
empty_outbox = record { posted = []; out_q = []; writing = false; sent = [] }

unfoldable pub queue_send : ℕ → Bytes → Outbox → Outbox
queue_send t payload o = record o { posted = o.posted ++ (t, payload) ∷ [] }

unfoldable pub do_write : Outbox → List OutMsg → Outbox
do_write o [] = record o { out_q = []; writing = false }
do_write o (msg ∷ rest) = record o { out_q = rest; writing = true; sent = o.sent ++ msg ∷ [] }

-- The handler that `queue_send` posted, and the next of them to run.
unfoldable pub on_posted : OutMsg → Outbox → Outbox
unfolding do_write
on_posted msg o =
    let q = o.out_q ++ msg ∷ [] in if o.writing then record o { out_q = q } else do_write o q

unfoldable pub run_posted : Outbox → List OutMsg → Outbox
run_posted o [] = o
run_posted o (msg ∷ rest) = on_posted msg (record o { posted = rest })

-- The handler of a write that succeeded.
unfoldable pub on_written : Outbox → Outbox
on_written o = do_write o o.out_q

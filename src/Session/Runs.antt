-- ===== src/Session/Runs.antt =====
-- Concrete runs of a session, and its theorems at concrete states.
use insist.Base.{ℕ, ◌≡◌, ◌⊎◌, arith, true, false, List, [], ◌∷◌, ◌++◌, some}
use insist.Session.{
  Session, Events, interest, connection, start, set_message_handler, set_close_handler, Receives,
  received, Sends, sent, async_read, async_write, handle_events, send_frame, run_task,
}
use insist.Session.Ledger.{ledger, handle_events-ledger}
use insist.Session.Valid.{IsValid}
use insist.Session.Dispatch.{handle_events-IsValid, run_task-IsValid, run_task-ledger}
use insist.Session.Outgoing.{outgoing, async_write-SendsOn}
use insist.Session.Segments.{settled, all_arrivals, at_once, feed, feed-at_once}
use insist.Session.Eof.{messages, async_read-Ends_drops}

-- A started session with descriptor 9, the message handler 1 and the close handler 2.
abbrev up : Session
up = start (set_close_handler 2 (set_message_handler 1 (connection 9 5)))

up-IsValid : IsValid up
unfolding start connection set_message_handler set_close_handler
up-IsValid = ground arith

-- It has a frame of three bytes, with the write handler 7, of which one byte is written.
abbrev busy : Session
busy = record up {
  write_queue = (record { bytes = 1 ∷ 2 ∷ 3 ∷ []; written = 1; handler = some 7 }) ∷ [];
}

busy-IsValid : IsValid busy
unfolding start connection set_message_handler set_close_handler
busy-IsValid = ground arith

abbrev both : Events
both = interest true

-- The socket takes a byte, is interrupted, and takes the last byte.
abbrev two_writes : Sends
two_writes = sent 1 0 (Sends.interrupted (sent 1 0 Sends.would_block))

handle_events-ledger_example :
    ledger (handle_events both (received (0 ∷ []) Receives.would_block) two_writes busy)
    ≡ ledger busy
handle_events-ledger_example =
    handle_events-ledger both (received (0 ∷ []) Receives.would_block) two_writes busy

handle_events-IsValid_example :
    IsValid (handle_events both (received (0 ∷ []) Receives.would_block) two_writes busy)
handle_events-IsValid_example =
    handle_events-IsValid both (received (0 ∷ []) Receives.would_block) two_writes busy
      (omega arith) busy-IsValid

run_task-IsValid_example : IsValid (run_task (send_frame (4 ∷ []) (some 8)) two_writes busy)
unfolding start connection set_message_handler set_close_handler
run_task-IsValid_example =
    run_task-IsValid (4 ∷ []) (some 8) two_writes busy (omega arith) (omega arith) busy-IsValid

run_task-ledger_example :
    ledger (run_task (send_frame (4 ∷ []) (some 8)) two_writes busy)
    ≡ record (ledger busy) { results = (ledger busy).results ++ 8 ∷ [] }
run_task-ledger_example = run_task-ledger (4 ∷ []) 8 two_writes busy busy-IsValid

async_write-SendsOn_example :
    (lost : List ℕ) × (outgoing (async_write two_writes busy) ++ lost ≡ outgoing busy)
    × (((async_write two_writes busy).is_open ≡ false) ⊎ (lost ≡ []))
async_write-SendsOn_example = async_write-SendsOn two_writes busy

feed-at_once_example :
    settled (
      feed
        (received (0 ∷ 0 ∷ []) Receives.would_block
          ∷ received (0 ∷ 0 ∷ []) Receives.would_block
          ∷ [])
        up)
    ≡ settled (
        async_read
          (at_once (
            all_arrivals (
              received (0 ∷ 0 ∷ []) Receives.would_block
              ∷ received (0 ∷ 0 ∷ []) Receives.would_block
              ∷ [])))
          up)
feed-at_once_example =
    feed-at_once (received (0 ∷ 0 ∷ []) Receives.would_block)
      (received (0 ∷ 0 ∷ []) Receives.would_block ∷ []) up tt (tt, tt)

-- A whole frame arrives with the end of the stream, and its message is lost.
async_read-Ends_drops_example :
    messages (async_read (received (0 ∷ 0 ∷ 0 ∷ 0 ∷ []) Receives.ended) up).calls
    ≡ messages up.calls
async_read-Ends_drops_example =
    async_read-Ends_drops (received (0 ∷ 0 ∷ 0 ∷ 0 ∷ []) Receives.ended) up tt

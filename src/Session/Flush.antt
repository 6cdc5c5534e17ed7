-- ===== src/Session/Flush.antt =====
-- src/session.cpp: what a session does if the socket is ready for all that it asks of it.
use insist.Base.{
  ℕ, ◌+◌, ◌-◌, ◌<◌, ◌≡◌, refl, sym, ap, subst, ◌∙◌, arith, true, false, ◌&&◌, ltb, ◌==◌, if-cases,
  List, [], ◌∷◌, ◌++◌, append-nil, map, length, All, Option, none, some,
}
use insist.Message.{RpcMessage}
use insist.Session.{
  Session, OutgoingFrame, Call, Events, interest, on_write, no_error, on_message, emit_for,
  update_events, Receives, received, Sends, sent, wrote, write_loop, async_write, async_read,
  handle_events, send_frame, run_task,
}
use insist.Session.Incoming.{drain}
use insist.Session.Segments.{arrivals, Blocks, async_read-drain}
use insist.Session.Delivery.{IsSendable, stream, drain-stream}
use insist.Session.Silent.{queued, run_task-open}

-- A frame that has not been written to its end.
abbrev pub Unfinished : OutgoingFrame → Type 0
Unfinished f = f.written < length f.bytes

-- The socket takes each frame whole.
unfoldable pub takes : List OutgoingFrame → Sends
takes [] = Sends.would_block
takes (f ∷ rest) = sent (length f.bytes - f.written) 0 (takes rest)

-- Open, with the queue `q`.
abbrev pub Holds : List OutgoingFrame → Session → Type 0
Holds q t = (t.is_open ≡ true) × (t.write_queue ≡ q)

emit_for-Holds :
    (q : List OutgoingFrame) (o : Option ℕ) (call : ℕ → Call) (s : Session)
    → Holds q s
    → Holds q (emit_for o call s)
emit_for-Holds q none call s h = h
emit_for-Holds q (some n) call s h = h

update_events-Holds : (q : List OutgoingFrame) (s : Session) → Holds q s → Holds q (update_events s)
unfolding update_events
update_events-Holds q s h =
    if-cases (Holds q) (s.registered && s.is_open) (λ _. emit_for-Holds q s.fd _ s h) (λ _. h)

wrote-Holds :
    (f : OutgoingFrame) (rest : List OutgoingFrame) (s : Session)
    → Unfinished f
    → s.is_open ≡ true
    → Holds rest (wrote (length f.bytes - f.written) f rest s)
unfolding wrote
wrote-Holds f rest s u up =
    if-cases (Holds rest) (f.written + (length f.bytes - f.written) == length f.bytes)
      (λ _. emit_for-Holds rest f.handler (λ h. on_write h no_error) _ (up, refl))
      (λ short. absurd (ground arith))

write_loop-takes :
    (q : List OutgoingFrame) (s : Session)
    → All Unfinished q
    → Holds q s
    → Holds [] (write_loop (takes q) q s)
unfolding write_loop takes
write_loop-takes [] s u h = update_events-Holds [] s h
write_loop-takes (f ∷ rest) s u h =
    let next = wrote (length f.bytes - f.written) f rest s in
    let went = wrote-Holds f rest s u.0 h.0 in
    let sends = the_test u.0 in
    rw (sends, write_loop)
      (subst (λ r. Holds [] (write_loop (takes rest) r next)) (sym went.1)
        (write_loop-takes rest next u.1 went))
  where
    the_test : Unfinished f → ltb 0 (length f.bytes - f.written) ≡ true
    the_test u = ground arith

async_write-takes :
    (s : Session)
    → All Unfinished s.write_queue
    → s.is_open ≡ true
    → Holds [] (async_write (takes s.write_queue) s)
unfolding async_write
async_write-takes s u up =
    if-cases (Holds []) s.is_open (λ _. write_loop-takes s.write_queue s u (up, refl)) (λ down. cc)

-- The masks that `epoll` reports for a socket that can be written, or read, and nothing else.
abbrev pub writable : Events
writable = record (interest true) { readable = false; read_hang_up = false }

abbrev pub readable : Events
readable = record (interest false) { read_hang_up = false }

-- An event of a socket that is ready for the whole queue.
pub handle_events-takes :
    (r : Receives) (s : Session)
    → All Unfinished s.write_queue
    → s.is_open ≡ true
    → Holds [] (handle_events writable r (takes s.write_queue) s)
unfolding handle_events
handle_events-takes r s u up =
    let w = async_write-takes s u up in subst (Holds []) (sym (only_writes w.0)) w
  where
    only_writes :
        (async_write (takes s.write_queue) s).is_open ≡ true
        → handle_events writable r (takes s.write_queue) s ≡ async_write (takes s.write_queue) s
    only_writes still = cc (up, still)

write_loop-would_block :
    (q : List OutgoingFrame) (s : Session) → write_loop Sends.would_block q s ≡ update_events s
unfolding write_loop
write_loop-would_block [] s = refl
write_loop-would_block (f ∷ rest) s = refl

-- A task that queues a frame while the socket takes nothing.
pub run_task-would_block :
    (bytes : List ℕ) (handler : Option ℕ) (s : Session)
    → s.is_open ≡ true
    → Holds
        (queued bytes handler s).write_queue
        (run_task (send_frame bytes handler) Sends.would_block s)
unfolding async_write
run_task-would_block bytes handler s up =
    let q = queued bytes handler s in
    let held = update_events-Holds q.write_queue q (up, refl) in
    subst (Holds q.write_queue) (sym (run_task-open bytes handler Sends.would_block s up)) (
      if-cases (Holds q.write_queue) (update_events q).is_open
        (λ _.
          subst (Holds q.write_queue) (sym (write_loop-would_block _ (update_events q)))
            (update_events-Holds q.write_queue (update_events q) held))
        (λ down. cc))

-- An event of a socket that has the rest of a stream of frames, in any pieces.
pub handle_events-arrivals :
    (h : ℕ) (ms : List RpcMessage) (r : Receives) (s : Session)
    → s.is_open ≡ true
    → Blocks r
    → s.read_buffer ++ arrivals r ≡ stream ms
    → s.message_handler ≡ some h
    → All IsSendable ms
    → handle_events readable r Sends.would_block s
      ≡ record s { read_buffer = []; calls = s.calls ++ map (on_message h) ms }
unfolding handle_events
handle_events-arrivals h ms r s up b same e sendable = cc (up, read)
  where
    read : async_read r s ≡ record s { read_buffer = []; calls = s.calls ++ map (on_message h) ms }
    read =
        async_read-drain r s b up
        ∙ ap (λ b. drain (record s { read_buffer = b })) same
        ∙ drain-stream h ms s up e sendable

abbrev pub comes : List ℕ → Receives
comes bytes = received bytes Receives.would_block

-- And at once.
pub handle_events-stream :
    (h : ℕ) (ms : List RpcMessage) (bytes : List ℕ) (s : Session)
    → s.is_open ≡ true
    → s.read_buffer ++ bytes ≡ stream ms
    → s.message_handler ≡ some h
    → All IsSendable ms
    → handle_events readable (comes bytes) Sends.would_block s
      ≡ record s { read_buffer = []; calls = s.calls ++ map (on_message h) ms }
unfolding arrivals
handle_events-stream h ms bytes s up same =
    handle_events-arrivals h ms (comes bytes) s up tt
      (ap (λ b. s.read_buffer ++ b) (append-nil bytes) ∙ same)

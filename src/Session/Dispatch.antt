-- ===== src/Session/Dispatch.antt =====
-- `handle_events` and the posted tasks as a whole.
use insist.Base.{
  ℕ, zero, suc, ◌<◌, ◌≡◌, refl, sym, subst, ◌∙◌, arith, true, false, ◌&&◌, ◌||◌, not, if◌then◌else◌,
  if-cases, List, [], ◌∷◌, ◌++◌, append-nil, append_assoc, length, Option, none, some,
}
use insist.Session.{
  Session, OutgoingFrame, ErrorCode, not_connected, os, Events, on_message, on_write, emit_for,
  update_events, drain_queue, release, close_from_loop, fail_and_close, Receives, ReadEnd, drained,
  at_end, broken, receive, Next, wait, refuse, deliver, next_message, act, read_frames,
  after_receive, async_read, Sends, async_write, handle_events, send_frame, run_task,
}
use insist.Session.Ledger.{
  ledger, answered, awaited, answered-append, closings-append, async_write-ledger,
  update_events-ledger,
}
use insist.Session.Valid.{
  IsValid, Honest, Waiting, Queued, close_from_loop-IsValid, async_read-IsValid,
  async_write-IsValid, update_events-IsValid, emit_for-IsValid,
}

close_from_loop-shut : (s : Session) → (close_from_loop s).is_open ≡ false
unfolding close_from_loop release drain_queue
close_from_loop-shut s = ground arith

-- Reading leaves the write queue alone, or closes the session.
abbrev KeepsQueue : List OutgoingFrame → Session → Type 0
KeepsQueue q t = t.is_open ≡ true → t.write_queue ≡ q

close-KeepsQueue : (q : List OutgoingFrame) (t : Session) → KeepsQueue q (close_from_loop t)
close-KeepsQueue q t up = cc (close_from_loop-shut t)

fail-KeepsQueue :
    (q : List OutgoingFrame) (e : ErrorCode) (t : Session) → KeepsQueue q (fail_and_close e t)
unfolding fail_and_close
fail-KeepsQueue q e t = close-KeepsQueue q (drain_queue e t)

act-KeepsQueue :
    (q : List OutgoingFrame) (again : Session → Session) (n : Next) (s : Session)
    → ((t : Session) → t.write_queue ≡ q → KeepsQueue q (again t))
    → s.write_queue ≡ q
    → KeepsQueue q (act again n s)
unfolding act
act-KeepsQueue q again wait s h e = λ _. e
act-KeepsQueue q again (refuse c buffer) s h e =
    fail-KeepsQueue q c (record s { read_buffer = buffer })
act-KeepsQueue q again (deliver m rest) s h e = h _ (delivered s.message_handler)
  where
    delivered :
        (o : Option ℕ)
        → (emit_for o (λ x. on_message x m) (record s { read_buffer = rest })).write_queue ≡ q
    delivered none = e
    delivered (some x) = e

read_frames-KeepsQueue :
    (q : List OutgoingFrame) (fuel : ℕ) (s : Session)
    → s.write_queue ≡ q
    → KeepsQueue q (read_frames fuel s)
unfolding read_frames
read_frames-KeepsQueue q zero s e = λ _. e
read_frames-KeepsQueue q (suc fuel) s e =
    if-cases (KeepsQueue q) s.is_open
      (λ _.
        act-KeepsQueue q (read_frames fuel) (next_message s.read_buffer) s
          (read_frames-KeepsQueue q fuel) e)
      (λ _ _. e)

after_receive-KeepsQueue :
    (r : List ℕ × ReadEnd) (s : Session) → KeepsQueue s.write_queue (after_receive r s)
unfolding after_receive
after_receive-KeepsQueue (buffer, drained) s = read_frames-KeepsQueue _ _ _ refl
after_receive-KeepsQueue (buffer, at_end) s =
    close-KeepsQueue s.write_queue (record s { read_buffer = buffer })
after_receive-KeepsQueue (buffer, broken e) s =
    fail-KeepsQueue s.write_queue (os e) (record s { read_buffer = buffer })

async_read-KeepsQueue : (r : Receives) (s : Session) → KeepsQueue s.write_queue (async_read r s)
unfolding async_read
async_read-KeepsQueue r s =
    if-cases (KeepsQueue s.write_queue) s.is_open
      (λ _. after_receive-KeepsQueue (receive r s.read_buffer) s) (λ _ _. refl)

-- `handle_events` keeps the invariant, whatever the events and whatever the socket answers, if
-- `::send` takes no more bytes than it is given.
pub handle_events-IsValid :
    (e : Events) (r : Receives) (w : Sends) (s : Session)
    → Honest w s.write_queue
    → IsValid s
    → IsValid (handle_events e r w s)
unfolding handle_events
handle_events-IsValid e r w s h v =
    if-cases IsValid (not s.is_open) (λ _. v)
      (λ _.
        if-cases IsValid (e.error || e.hang_up) (λ _. close_from_loop-IsValid s v) (λ _. finish))
  where
    read : Session
    read = if e.readable then async_read r s else s

    read-IsValid : IsValid read
    read-IsValid = if-cases IsValid e.readable (λ _. async_read-IsValid r s v) (λ _. v)

    read-KeepsQueue : KeepsQueue s.write_queue read
    read-KeepsQueue =
        if-cases (KeepsQueue s.write_queue) e.readable (λ _. async_read-KeepsQueue r s)
          (λ _ _. refl)

    written : Session
    written = if read.is_open && e.writable then async_write w read else read

    written-IsValid : IsValid written
    written-IsValid =
        if-cases IsValid (read.is_open && e.writable)
          (λ both.
            async_write-IsValid w read (subst (Honest w) (sym (read-KeepsQueue (ground arith))) h)
              read-IsValid)
          (λ _. read-IsValid)

    finish :
        IsValid (if written.is_open && e.read_hang_up then close_from_loop written else written)
    finish =
        if-cases IsValid (written.is_open && e.read_hang_up)
          (λ _. close_from_loop-IsValid written written-IsValid) (λ _. written-IsValid)

-- A new frame at the end of the queue.
push-Waiting :
    (fs : List OutgoingFrame) (f : OutgoingFrame)
    → f.written ≡ 0
    → 0 < length f.bytes
    → Waiting fs
    → Waiting (fs ++ f ∷ [])
push-Waiting [] f e h w = (e, h, tt)
push-Waiting (g ∷ fs) f e h w = (w.0, w.1, push-Waiting fs f e h w.2)

push-Queued :
    (fs : List OutgoingFrame) (f : OutgoingFrame)
    → f.written ≡ 0
    → 0 < length f.bytes
    → Queued fs
    → Queued (fs ++ f ∷ [])
push-Queued [] f e h q = (omega arith, tt)
push-Queued (g ∷ fs) f e h q = (q.0, push-Waiting fs f e h q.1)

update_events-queue : (s : Session) → (update_events s).write_queue ≡ s.write_queue
unfolding update_events
update_events-queue s = ground arith

-- The session with the frame of a task behind its queue.
abbrev pushed : List ℕ → Option ℕ → Session → Session
pushed bytes handler s = record s {
  write_queue = s.write_queue ++ (record { bytes = bytes; written = 0; handler = handler }) ∷ [];
}

pushed-IsValid :
    (bytes : List ℕ) (handler : Option ℕ) (s : Session)
    → s.is_open ≡ true
    → 0 < length bytes
    → IsValid s
    → IsValid (pushed bytes handler s)
pushed-IsValid bytes handler s up h v = record {
  fd_open = v.fd_open;
  registered_open = v.registered_open;
  queue_open = λ shut. cc;
  queued = push-Queued s.write_queue _ refl h v.queued;
}

-- The task that sends a frame keeps the invariant, if the frame is not empty and `::send` takes no
-- more bytes than it is given.
pub run_task-IsValid :
    (bytes : List ℕ) (handler : Option ℕ) (w : Sends) (s : Session)
    → 0 < length bytes
    → Honest w (pushed bytes handler s).write_queue
    → IsValid s
    → IsValid (run_task (send_frame bytes handler) w s)
unfolding run_task
run_task-IsValid bytes handler w s nonempty h v =
    if-cases IsValid (not s.is_open) (λ _. emit_for-IsValid handler _ s v)
      (λ up.
        async_write-IsValid w _
          (subst (Honest w) (sym (update_events-queue (pushed bytes handler s))) h)
          (update_events-IsValid _ (pushed-IsValid bytes handler s (ground arith) nonempty v)))

awaited-append : (fs gs : List OutgoingFrame) → awaited (fs ++ gs) ≡ awaited fs ++ awaited gs
awaited-append [] gs = refl
awaited-append (f ∷ fs) gs = ground (arith, awaited-append fs gs)

pushed-ledger :
    (bytes : List ℕ) (h : ℕ) (s : Session)
    → ledger (pushed bytes (some h) s)
      ≡ record (ledger s) { results = (ledger s).results ++ h ∷ [] }
unfolding ledger
pushed-ledger bytes h s = ground (
  arith,
  awaited-append s.write_queue (queued_frame bytes (some h) ∷ []),
  append_assoc (answered s.calls) (awaited s.write_queue) (h ∷ []),
)
  where
    queued_frame : List ℕ → Option ℕ → OutgoingFrame
    queued_frame b o = record { bytes = b; written = 0; handler = o }

refused-ledger :
    (h : ℕ) (s : Session)
    → s.write_queue ≡ []
    → ledger (emit_for (some h) (λ x. on_write x not_connected) s)
      ≡ record (ledger s) { results = (ledger s).results ++ h ∷ [] }
unfolding ledger
refused-ledger h s e = ground (
  arith,
  answered-append s.calls (on_write h not_connected ∷ []),
  closings-append s.calls (on_write h not_connected ∷ []),
  append-nil (answered s.calls),
  append-nil (answered s.calls ++ h ∷ []),
)

-- A task that sends a frame with a handler adds this handler behind those that are answered or
-- awaited, and changes nothing else of the ledger, on an open session and on a closed one, if the
-- invariant holds before.
pub run_task-ledger :
    (bytes : List ℕ) (h : ℕ) (w : Sends) (s : Session)
    → IsValid s
    → ledger (run_task (send_frame bytes (some h)) w s)
      ≡ record (ledger s) { results = (ledger s).results ++ h ∷ [] }
unfolding run_task
run_task-ledger bytes h w s v =
    if-cases (λ t. ledger t ≡ record (ledger s) { results = (ledger s).results ++ h ∷ [] })
      (not s.is_open) (λ shut. refused-ledger h s (v.queue_open (ground arith)))
      (λ _.
        async_write-ledger w _
        ∙ update_events-ledger (pushed bytes (some h) s)
        ∙ pushed-ledger bytes h s)

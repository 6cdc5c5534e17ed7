-- ===== src/Session/Silent.antt =====
-- What an operation of a session does that does not read.
use insist.Base.{
  ℕ, ◌+◌, ◌≡◌, refl, sym, subst, ◌∙◌, arith, true, false, ◌&&◌, ltb, ◌==◌, if-cases, Bool-cases,
  inl, inr, List, [], ◌∷◌, ◌++◌, append-nil, length, take, drop, Option, none, some,
}
use insist.Session.{
  Session, OutgoingFrame, Call, ErrorCode, socket_took, on_write, os, emit_for, update_events,
  close_from_loop, fail_and_close, Sends, sent, wrote, write_loop, async_write, not_connected, Task,
  send_frame, close_session, run_task,
}
use insist.Session.Eof.{
  messages, messages-append, messages-quiet, messages-close_from_loop, messages-fail_and_close,
}
use insist.Session.Outgoing.{fail_and_close-shut}
use insist.Session.Works.{
  Steady, close_from_loop-shut, fail_and_close-Steady, close_from_loop-Steady,
}
use insist.Session.Steady.{wrote-Steady}

-- What an operation does that does not read.
pub record Silent (s t : Session) : Type 0 where
  pub heard : messages t.calls ≡ messages s.calls
  pub buffer : t.is_open ≡ true → t.read_buffer ≡ s.read_buffer
  pub was_open : t.is_open ≡ true → s.is_open ≡ true
  pub handler : t.message_handler ≡ s.message_handler

silent :
    {s t : Session}
    → Steady s t
    → messages t.calls ≡ messages s.calls
    → (t.is_open ≡ true → t.read_buffer ≡ s.read_buffer)
    → Silent s t
silent steady heard buffer = record {
  heard = heard;
  buffer = buffer;
  was_open = steady.was_open;
  handler = steady.works.handler;
}

Silent-refl : (s : Session) → Silent s s
Silent-refl s = record { heard = refl; buffer = λ _. refl; was_open = λ up. up; handler = refl }

Silent-trans : {s t u : Session} → Silent s t → Silent t u → Silent s u
Silent-trans p q = record {
  heard = q.heard ∙ p.heard;
  buffer = λ up. q.buffer up ∙ p.buffer (q.was_open up);
  was_open = λ up. p.was_open (q.was_open up);
  handler = q.handler ∙ p.handler;
}

-- The operations that do not read.
pub emit_for-Silent :
    (o : Option ℕ) (call : ℕ → Call) (s : Session)
    → ((n : ℕ) → messages (call n ∷ []) ≡ [])
    → Silent s (emit_for o call s)
emit_for-Silent none call s quiet = Silent-refl s
emit_for-Silent (some n) call s quiet = record {
  heard = messages-quiet (some n) call s quiet;
  buffer = λ _. refl;
  was_open = λ up. up;
  handler = refl;
}

update_events-Silent : (s : Session) → Silent s (update_events s)
unfolding update_events
update_events-Silent s =
    if-cases (Silent s) (s.registered && s.is_open) (λ _. emit_for-Silent s.fd _ s (λ n. refl))
      (λ _. Silent-refl s)

pub close_from_loop-Silent : (s : Session) → Silent s (close_from_loop s)
close_from_loop-Silent s =
    silent (close_from_loop-Steady s) (messages-close_from_loop s)
      (λ up. cc (close_from_loop-shut s))

fail_and_close-Silent : (e : ErrorCode) (s : Session) → Silent s (fail_and_close e s)
fail_and_close-Silent e s =
    silent (fail_and_close-Steady e s) (messages-fail_and_close e s)
      (λ up. cc (fail_and_close-shut e s))

wrote-Silent :
    (n : ℕ) (f : OutgoingFrame) (rest : List OutgoingFrame) (s : Session)
    → s.write_queue ≡ f ∷ rest
    → Silent s (wrote n f rest s)
wrote-Silent n f rest s q = silent (wrote-Steady n f rest s q) (heard_same) (λ _. buffer_same)
  where
    bytes : List ℕ
    bytes = take n (drop f.written f.bytes)

    took : messages (s.calls ++ socket_took bytes ∷ []) ≡ messages s.calls
    took = messages-append s.calls (socket_took bytes ∷ []) ∙ append-nil _

    heard_same : messages (wrote n f rest s).calls ≡ messages s.calls
    heard_same =
        unfold wrote in
        if-cases (λ (t : Session). messages t.calls ≡ messages s.calls)
          (f.written + n == length f.bytes) (λ _. messages-quiet f.handler _ _ (λ k. refl) ∙ took)
          (λ _. took)

    buffer_same : (wrote n f rest s).read_buffer ≡ s.read_buffer
    buffer_same = unfold wrote in ground arith

write_loop-Silent :
    (w : Sends) (q : List OutgoingFrame) (s : Session)
    → s.write_queue ≡ q
    → Silent s (write_loop w q s)
unfolding write_loop
write_loop-Silent w [] s q = update_events-Silent s
write_loop-Silent Sends.would_block (f ∷ rest) s q = update_events-Silent s
write_loop-Silent (Sends.failed e) (f ∷ rest) s q = fail_and_close-Silent (os e) s
write_loop-Silent (Sends.interrupted more) (f ∷ rest) s q = write_loop-Silent more (f ∷ rest) s q
write_loop-Silent (sent n e more) (f ∷ rest) s q = elim (Bool-cases (ltb 0 n)) [
  | inl p ↦
      rw (p, write_loop)
        (Silent-trans (wrote-Silent n f rest s q)
          (write_loop-Silent more (wrote n f rest s).write_queue (wrote n f rest s) refl))
  | inr p ↦ rw (p, write_loop) (fail_and_close-Silent (os e) s)
]

pub async_write-Silent : (w : Sends) (s : Session) → Silent s (async_write w s)
unfolding async_write
async_write-Silent w s =
    if-cases (Silent s) s.is_open (λ _. write_loop-Silent w s.write_queue s refl)
      (λ _. Silent-refl s)

-- A session with one more frame in its queue.
abbrev pub queued : List ℕ → Option ℕ → Session → Session
queued bytes handler s = record s {
  write_queue = s.write_queue ++ (record { bytes = bytes; written = 0; handler = handler }) ∷ [];
}

pub run_task-close_session :
    (w : Sends) (s : Session) → run_task close_session w s ≡ close_from_loop s
unfolding run_task
run_task-close_session w s = refl

pub run_task-open :
    (bytes : List ℕ) (handler : Option ℕ) (w : Sends) (s : Session)
    → s.is_open ≡ true
    → run_task (send_frame bytes handler) w s
      ≡ async_write w (update_events (queued bytes handler s))
unfolding run_task
run_task-open bytes handler w s up = ground arith

pub run_task-shut :
    (bytes : List ℕ) (handler : Option ℕ) (w : Sends) (s : Session)
    → s.is_open ≡ false
    → run_task (send_frame bytes handler) w s ≡ emit_for handler (λ h. on_write h not_connected) s
unfolding run_task
run_task-shut bytes handler w s down = ground arith

pub run_task-Silent : (t : Task) (w : Sends) (s : Session) → Silent s (run_task t w s)
run_task-Silent close_session w s = unfold run_task in close_from_loop-Silent s
run_task-Silent (send_frame bytes handler) w s = elim (Bool-cases s.is_open) [
  | inr down ↦
      subst (Silent s) (sym (run_task-shut bytes handler w s down))
        (emit_for-Silent handler (λ h. on_write h not_connected) s (λ n. refl))
  | inl up ↦ subst (Silent s) (sym (run_task-open bytes handler w s up)) (
      Silent-trans {t = queued bytes handler s}
        (record { heard = refl; buffer = λ _. refl; was_open = λ up. up; handler = refl })
        (Silent-trans (update_events-Silent (queued bytes handler s)) (async_write-Silent w _)))
]

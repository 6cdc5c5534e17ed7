-- ===== src/Session/Polling.antt =====
-- src/session.cpp: what a session has asked `epoll` for. An open session asks for its input, and for its
-- output exactly while its queue is not empty.
use insist.Base.{
  ℕ, zero, suc, ◌+◌, ◌<◌, ◌≤◌, ◌≡◌, refl, ap, ◌∙◌, arith, true, false, ◌&&◌, ◌||◌, not, ltb, ◌==◌,
  if◌then◌else◌, if-cases, Bool-cases, inl, inr, is_empty, List, [], ◌∷◌, ◌++◌, length, Option,
  none, some,
}
use insist.Session.{
  received, Session, OutgoingFrame, Call, ErrorCode, Events, interest, loop_add, loop_modify,
  loop_remove, close_fd, socket_took, on_message, on_write, on_close, os, not_connected, emit_for,
  update_events, Receives, ReadEnd, drained, at_end, broken, receive, Next, wait, refuse, deliver,
  next_message, act, read_frames, after_receive, async_read, Sends, sent, wrote, write_loop,
  async_write, handle_events, Task, send_frame, close_session, run_task,
}
use insist.Session.Segments.{arrivals, Blocks}
use insist.Session.Flush.{readable, writable}
use insist.Session.Works.{close_from_loop-shut}
use insist.Session.Outgoing.{fail_and_close-shut}

-- The mask that is registered after some calls of the loop.
unfoldable pub mask : Option Events → List Call → Option Events
mask m [] = m
mask m (loop_add fd e ∷ cs) = mask (some e) cs
mask m (loop_modify fd e ∷ cs) = mask (some e) cs
mask m (loop_remove fd ∷ cs) = mask none cs
mask m (close_fd fd ∷ cs) = mask m cs
mask m (socket_took bytes ∷ cs) = mask m cs
mask m (on_message h msg ∷ cs) = mask m cs
mask m (on_write h e ∷ cs) = mask m cs
mask m (on_close h ∷ cs) = mask m cs

mask-append : (m : Option Events) (cs ds : List Call) → mask m (cs ++ ds) ≡ mask (mask m cs) ds
unfolding mask
mask-append m [] ds = refl
mask-append m (loop_add fd e ∷ cs) ds = mask-append (some e) cs ds
mask-append m (loop_modify fd e ∷ cs) ds = mask-append (some e) cs ds
mask-append m (loop_remove fd ∷ cs) ds = mask-append none cs ds
mask-append m (close_fd fd ∷ cs) ds = mask-append m cs ds
mask-append m (socket_took bytes ∷ cs) ds = mask-append m cs ds
mask-append m (on_message h msg ∷ cs) ds = mask-append m cs ds
mask-append m (on_write h e ∷ cs) ds = mask-append m cs ds
mask-append m (on_close h ∷ cs) ds = mask-append m cs ds

-- Where it is open, the session is registered with a descriptor.
abbrev Ready : Session → Type 0
Ready s = s.is_open ≡ true → (s.registered ≡ true) × ((fd : ℕ) × (s.fd ≡ some fd))

-- And its mask is what it needs.
pub record Watched (s : Session) : Type 0 where
  pub ready : Ready s
  pub asks : s.is_open ≡ true → mask none s.calls ≡ some (interest (not (is_empty s.write_queue)))

shut-Watched : {s : Session} → s.is_open ≡ false → Watched s
shut-Watched down = record {
  ready = λ up. absurd (cc (up, down));
  asks = λ up. absurd (cc (up, down));
}

-- A call of a handler.
pub told-Watched :
    (o : Option ℕ) (call : ℕ → Call) (s : Session)
    → ((n : ℕ) (m : Option Events) → mask m (call n ∷ []) ≡ m)
    → Watched s
    → Watched (emit_for o call s)
told-Watched none call s quiet w = w
told-Watched (some n) call s quiet w = record {
  ready = w.ready;
  asks = λ up. mask-append none s.calls (call n ∷ []) ∙ quiet n (mask none s.calls) ∙ w.asks up;
}

told-Ready : (o : Option ℕ) (call : ℕ → Call) (s : Session) → Ready s → Ready (emit_for o call s)
told-Ready none call s r = r
told-Ready (some n) call s r = r

update_events-Watched : (s : Session) → Ready s → Watched (update_events s)
unfolding update_events
update_events-Watched s r =
    if-cases Watched (s.registered && s.is_open)
      (λ both. found s.fd (r (ground arith)).1.0 (r (ground arith)).1.1)
      (λ neither. record { ready = r; asks = λ up. absurd (cc (neither, up, (r up).0)) })
  where
    found :
        (o : Option ℕ) (fd : ℕ)
        → o ≡ some fd
        → Watched (emit_for o (λ fd. loop_modify fd (interest (not (is_empty s.write_queue)))) s)
    found none fd e = absurd (cc e)
    found (some fd') fd e = record {
      ready = r;
      asks = λ up.
          mask-append none s.calls (loop_modify fd' (interest (not (is_empty s.write_queue))) ∷ [])
          ∙ unfold mask in refl;
    }

wrote-Ready :
    (n : ℕ) (f : OutgoingFrame) (rest : List OutgoingFrame) (s : Session)
    → Ready s
    → Ready (wrote n f rest s)
unfolding wrote
wrote-Ready n f rest s r =
    if-cases Ready (f.written + n == length f.bytes) (λ _. told-Ready f.handler _ _ r) (λ _. r)

write_loop-Watched :
    (w : Sends) (q : List OutgoingFrame) (s : Session) → Ready s → Watched (write_loop w q s)
unfolding write_loop
write_loop-Watched w [] s r = update_events-Watched s r
write_loop-Watched Sends.would_block (f ∷ rest) s r = update_events-Watched s r
write_loop-Watched (Sends.failed e) (f ∷ rest) s r = shut-Watched (fail_and_close-shut (os e) s)
write_loop-Watched (Sends.interrupted more) (f ∷ rest) s r = write_loop-Watched more (f ∷ rest) s r
write_loop-Watched (sent n e more) (f ∷ rest) s r = elim (Bool-cases (ltb 0 n)) [
  | inl p ↦
      rw (p, write_loop)
        (write_loop-Watched more (wrote n f rest s).write_queue (wrote n f rest s)
          (wrote-Ready n f rest s r))
  | inr p ↦ rw (p, write_loop) (shut-Watched (fail_and_close-shut (os e) s))
]

async_write-Watched : (w : Sends) (s : Session) → Watched s → Watched (async_write w s)
unfolding async_write
async_write-Watched w s h =
    if-cases Watched s.is_open (λ _. write_loop-Watched w s.write_queue s h.ready) (λ _. h)

-- The read buffer does not matter.
buffer-Watched : (b : List ℕ) (s : Session) → Watched s → Watched (record s { read_buffer = b })
buffer-Watched b s h = record { ready = h.ready; asks = h.asks }

act-Watched :
    (again : Session → Session) (n : Next) (s : Session)
    → ((t : Session) → Watched t → Watched (again t))
    → Watched s
    → Watched (act again n s)
unfolding act mask
act-Watched again wait s g h = h
act-Watched again (refuse e b) s g h =
    shut-Watched (fail_and_close-shut e (record s { read_buffer = b }))
act-Watched again (deliver m rest) s g h = g _ (
    told-Watched s.message_handler (λ h. on_message h m) (record s { read_buffer = rest })
      (λ n o. refl) (buffer-Watched rest s h))

read_frames-Watched : (fuel : ℕ) (s : Session) → Watched s → Watched (read_frames fuel s)
unfolding read_frames
read_frames-Watched zero s h = h
read_frames-Watched (suc fuel) s h =
    if-cases Watched s.is_open
      (λ _.
        act-Watched (read_frames fuel) (next_message s.read_buffer) s (read_frames-Watched fuel) h)
      (λ _. h)

after_receive-Watched :
    (r : List ℕ × ReadEnd) (s : Session) → Watched s → Watched (after_receive r s)
unfolding after_receive
after_receive-Watched (b, drained) s h =
    read_frames-Watched (suc (length b)) _ (buffer-Watched b s h)
after_receive-Watched (b, at_end) s h =
    shut-Watched (close_from_loop-shut (record s { read_buffer = b }))
after_receive-Watched (b, broken e) s h =
    shut-Watched (fail_and_close-shut (os e) (record s { read_buffer = b }))

async_read-Watched : (r : Receives) (s : Session) → Watched s → Watched (async_read r s)
unfolding async_read
async_read-Watched r s h =
    if-cases Watched s.is_open (λ _. after_receive-Watched (receive r s.read_buffer) s h) (λ _. h)

pub handle_events-Watched :
    (e : Events) (r : Receives) (w : Sends) (s : Session)
    → Watched s
    → Watched (handle_events e r w s)
unfolding handle_events
handle_events-Watched e r w s h =
    if-cases Watched (not s.is_open) (λ _. h)
      (λ _.
        if-cases Watched (e.error || e.hang_up) (λ _. shut-Watched (close_from_loop-shut s))
          (λ _.
            if-cases Watched (written.is_open && e.read_hang_up)
              (λ _. shut-Watched (close_from_loop-shut written)) (λ _. writing)))
  where
    read : Session
    read = if e.readable then async_read r s else s

    reading : Watched read
    reading = if-cases Watched e.readable (λ _. async_read-Watched r s h) (λ _. h)

    written : Session
    written = if read.is_open && e.writable then async_write w read else read

    writing : Watched written
    writing =
        if-cases Watched (read.is_open && e.writable) (λ _. async_write-Watched w read reading)
          (λ _. reading)

pub run_task-Watched : (t : Task) (w : Sends) (s : Session) → Watched s → Watched (run_task t w s)
unfolding run_task mask
run_task-Watched close_session w s h = shut-Watched (close_from_loop-shut s)
run_task-Watched (send_frame bytes handler) w s h =
    if-cases Watched (not s.is_open)
      (λ _. told-Watched handler (λ n. on_write n not_connected) s (λ n o. refl) h)
      (λ _. async_write-Watched w _ (update_events-Watched _ h.ready))

-- A write handler that `send` tells at once.
pub emit_for-Watched :
    (o : Option ℕ) (e : ErrorCode) (s : Session)
    → Watched s
    → Watched (emit_for o (λ h. on_write h e) s)
unfolding mask
emit_for-Watched o e s h = told-Watched o (λ n. on_write n e) s (λ n m. refl) h

-- `epoll_wait` reports no event but those of the mask, errors and closed connections.
pub record Reported (e : Events) (s : Session) : Type 0 where
  pub interested : Events
  pub registered : mask none s.calls ≡ some interested
  pub readable : e.readable ≡ true → interested.readable ≡ true
  pub writable : e.writable ≡ true → interested.writable ≡ true
  pub read_hang_up : e.read_hang_up ≡ true → interested.read_hang_up ≡ true

-- The pieces that `::recv` gives with a buffer of 8192 bytes.
abbrev pub Pieces : Receives → Type 0
Pieces (received chunk more) = (0 < length chunk) × (length chunk ≤ 8192) × Pieces more
Pieces (Receives.interrupted more) = Pieces more
Pieces Receives.would_block = Unit {0}
Pieces Receives.ended = Unit {0}
Pieces (Receives.failed e) = Unit {0}

-- Bytes that come one by one.
pub bytewise : List ℕ → Receives
bytewise [] = Receives.would_block
bytewise (b ∷ bs) = received (b ∷ []) (bytewise bs)

pub bytewise-Pieces : (bs : List ℕ) → Pieces (bytewise bs)
unfolding bytewise
bytewise-Pieces [] = tt
bytewise-Pieces (b ∷ bs) = (omega arith, omega arith, bytewise-Pieces bs)

pub bytewise-Blocks : (bs : List ℕ) → Blocks (bytewise bs)
unfolding bytewise
bytewise-Blocks [] = tt
bytewise-Blocks (b ∷ bs) = bytewise-Blocks bs

pub bytewise-arrivals : (bs : List ℕ) → arrivals (bytewise bs) ≡ bs
unfolding bytewise arrivals
bytewise-arrivals [] = refl
bytewise-arrivals (b ∷ bs) = ap (◌∷◌ b) (bytewise-arrivals bs)

pub readable-Reported : (s : Session) → s.is_open ≡ true → Watched s → Reported readable s
readable-Reported s up w = record {
  interested = interest (not (is_empty s.write_queue));
  registered = w.asks up;
  readable = λ _. refl;
  writable = λ e. absurd (cc e);
  read_hang_up = λ e. absurd (cc e);
}

pub writable-Reported :
    (f : OutgoingFrame) (rest : List OutgoingFrame) (s : Session)
    → s.is_open ≡ true
    → s.write_queue ≡ f ∷ rest
    → Watched s
    → Reported writable s
writable-Reported f rest s up e w = record {
  interested = interest true;
  registered = w.asks up ∙ ap (λ q. some (interest (not (is_empty q)))) e;
  readable = λ no_read. absurd (cc no_read);
  writable = λ _. refl;
  read_hang_up = λ no_end. absurd (cc no_end);
}

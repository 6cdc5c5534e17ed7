-- ===== src/Session/Valid.antt =====
-- The invariant of a session: the descriptor, the registration and the write queue go with `open_`,
-- and no queued frame has been written to its end.
use insist.Base.{
  ℕ, zero, suc, ◌+◌, ◌≤◌, ◌<◌, ◌≡◌, refl, sym, subst, ◌∙◌, arith, Bool, true, false, ◌&&◌, ltb,
  ◌==◌, if◌then◌else◌, if-cases, Bool-cases, inl, inr, List, [], ◌∷◌, length, Option, none, some,
}
use mathlib.Core.Bool.{false≢true}
use insist.Session.{
  Session, OutgoingFrame, Call, ErrorCode, os, connection, start, emit_for, update_events,
  drain_queue, release, close_from_loop, fail_and_close, Receives, ReadEnd, drained, at_end, broken,
  receive, Next, wait, refuse, deliver, next_message, act, read_frames, after_receive, async_read,
  Sends, sent, wrote, write_loop, async_write,
}

abbrev pub has_fd : Option ℕ → Bool
has_fd none = false
has_fd (some fd) = true

-- Frames behind the one in front have not been touched.
abbrev pub Waiting : List OutgoingFrame → Type 0
Waiting [] = Unit {0}
Waiting (f ∷ fs) = (f.written ≡ 0) × (0 < length f.bytes) × Waiting fs

abbrev pub Queued : List OutgoingFrame → Type 0
Queued [] = Unit {0}
Queued (f ∷ fs) = (f.written < length f.bytes) × Waiting fs

pub record IsValid (s : Session) : Type 0 where
  pub fd_open : has_fd s.fd ≡ s.is_open
  pub registered_open : s.registered ≡ true → s.is_open ≡ true
  pub queue_open : s.is_open ≡ false → s.write_queue ≡ []
  pub queued : Queued s.write_queue

Waiting-Queued : (fs : List OutgoingFrame) → Waiting fs → Queued fs
Waiting-Queued [] w = tt
Waiting-Queued (f ∷ fs) w = (omega arith, w.2)

pub connection-IsValid : (fd id : ℕ) → IsValid (connection fd id)
unfolding connection
connection-IsValid fd id = ground arith

pub start-IsValid : (s : Session) → s.is_open ≡ true → IsValid s → IsValid (start s)
unfolding start
start-IsValid s up v = ground arith

pub emit_for-IsValid :
    (o : Option ℕ) (call : ℕ → Call) (s : Session) → IsValid s → IsValid (emit_for o call s)
emit_for-IsValid none call s v = v
emit_for-IsValid (some n) call s v = record {
  fd_open = v.fd_open;
  registered_open = v.registered_open;
  queue_open = v.queue_open;
  queued = v.queued;
}

pub update_events-IsValid : (s : Session) → IsValid s → IsValid (update_events s)
unfolding update_events
update_events-IsValid s v =
    if-cases IsValid (s.registered && s.is_open) (λ _. emit_for-IsValid s.fd _ s v) (λ _. v)

drain_queue-IsValid : (e : ErrorCode) (s : Session) → IsValid s → IsValid (drain_queue e s)
unfolding drain_queue
drain_queue-IsValid e s v = record {
  fd_open = v.fd_open;
  registered_open = v.registered_open;
  queue_open = λ _. refl;
  queued = tt;
}

-- A closed session has given its descriptor back and told every handler.
pub record IsClosed (s : Session) : Type 0 where
  pub is_shut : s.is_open ≡ false
  pub no_fd : s.fd ≡ none
  pub not_registered : s.registered ≡ false
  pub no_queue : s.write_queue ≡ []

IsClosed-IsValid : (s : Session) → IsClosed s → IsValid s
IsClosed-IsValid s c = record {
  fd_open = rw (c.no_fd, c.is_shut);
  registered_open = λ r. absurd (false≢true (sym c.not_registered ∙ r));
  queue_open = λ _. c.no_queue;
  queued = rw c.no_queue tt;
}

-- `close_from_loop` leaves a closed session, open or closed as it was, if the invariant holds before.
pub close_from_loop-IsClosed : (s : Session) → IsValid s → IsClosed (close_from_loop s)
unfolding close_from_loop release drain_queue
close_from_loop-IsClosed s v = ground arith

pub fail_and_close-IsClosed :
    (e : ErrorCode) (s : Session) → IsValid s → IsClosed (fail_and_close e s)
unfolding fail_and_close
fail_and_close-IsClosed e s v = close_from_loop-IsClosed _ (drain_queue-IsValid e s v)

pub close_from_loop-IsValid : (s : Session) → IsValid s → IsValid (close_from_loop s)
close_from_loop-IsValid s v = IsClosed-IsValid _ (close_from_loop-IsClosed s v)

pub fail_and_close-IsValid :
    (e : ErrorCode) (s : Session) → IsValid s → IsValid (fail_and_close e s)
fail_and_close-IsValid e s v = IsClosed-IsValid _ (fail_and_close-IsClosed e s v)

buffered-IsValid :
    (s : Session) (buffer : List ℕ) → IsValid s → IsValid (record s { read_buffer = buffer })
buffered-IsValid s buffer v = record {
  fd_open = v.fd_open;
  registered_open = v.registered_open;
  queue_open = v.queue_open;
  queued = v.queued;
}

act-IsValid :
    (again : Session → Session) (n : Next) (s : Session)
    → ((t : Session) → IsValid t → IsValid (again t))
    → IsValid s
    → IsValid (act again n s)
unfolding act
act-IsValid again wait s h v = v
act-IsValid again (refuse e buffer) s h v = fail_and_close-IsValid e _ (buffered-IsValid s buffer v)
act-IsValid again (deliver m rest) s h v =
    h _ (emit_for-IsValid s.message_handler _ _ (buffered-IsValid s rest v))

read_frames-IsValid : (fuel : ℕ) (s : Session) → IsValid s → IsValid (read_frames fuel s)
unfolding read_frames
read_frames-IsValid zero s v = v
read_frames-IsValid (suc fuel) s v =
    if-cases IsValid s.is_open
      (λ _.
        act-IsValid (read_frames fuel) (next_message s.read_buffer) s (read_frames-IsValid fuel) v)
      (λ _. v)

after_receive-IsValid :
    (r : List ℕ × ReadEnd) (s : Session) → IsValid s → IsValid (after_receive r s)
unfolding after_receive
after_receive-IsValid (buffer, drained) s v = read_frames-IsValid _ _ (buffered-IsValid s buffer v)
after_receive-IsValid (buffer, at_end) s v = close_from_loop-IsValid _ (buffered-IsValid s buffer v)
after_receive-IsValid (buffer, broken e) s v =
    fail_and_close-IsValid _ _ (buffered-IsValid s buffer v)

pub async_read-IsValid : (r : Receives) (s : Session) → IsValid s → IsValid (async_read r s)
unfolding async_read
async_read-IsValid r s v =
    if-cases IsValid s.is_open (λ _. after_receive-IsValid (receive r s.read_buffer) s v) (λ _. v)

-- The queue once `::send` has taken `n` bytes of the frame in front.
abbrev pub after : ℕ → OutgoingFrame → List OutgoingFrame → List OutgoingFrame
after n f rest =
    if f.written + n == length f.bytes then rest else record f { written = f.written + n } ∷ rest

-- `::send` takes as many bytes at most as it is given.
abbrev pub Honest : Sends → List OutgoingFrame → Type 0
Honest (sent n e more) [] = Unit {0}
Honest (sent n e more) (f ∷ rest) = (f.written + n ≤ length f.bytes) × Honest more (after n f rest)
Honest (Sends.interrupted more) q = Honest more q
Honest Sends.would_block q = Unit {0}
Honest (Sends.failed e) q = Unit {0}

wrote-queue :
    (n : ℕ) (f : OutgoingFrame) (rest : List OutgoingFrame) (s : Session)
    → (wrote n f rest s).write_queue ≡ after n f rest
unfolding wrote
wrote-queue n f rest s = ground arith

wrote-IsValid :
    (n : ℕ) (f : OutgoingFrame) (rest : List OutgoingFrame) (s : Session)
    → s.write_queue ≡ f ∷ rest
    → f.written + n ≤ length f.bytes
    → IsValid s
    → IsValid (wrote n f rest s)
unfolding wrote
wrote-IsValid n f rest s q fits v = ground (arith, Waiting-Queued rest)

write_loop-IsValid :
    (w : Sends) (q : List OutgoingFrame) (s : Session)
    → s.write_queue ≡ q
    → Honest w q
    → IsValid s
    → IsValid (write_loop w q s)
unfolding write_loop
write_loop-IsValid w [] s q h v = update_events-IsValid s v
write_loop-IsValid Sends.would_block (f ∷ rest) s q h v = update_events-IsValid s v
write_loop-IsValid (Sends.failed e) (f ∷ rest) s q h v = fail_and_close-IsValid (os e) s v
write_loop-IsValid (Sends.interrupted more) (f ∷ rest) s q h v =
    write_loop-IsValid more (f ∷ rest) s q h v
write_loop-IsValid (sent n e more) (f ∷ rest) s q h v = elim (Bool-cases (ltb 0 n)) [
  | inl p ↦
      rw (p, write_loop)
        (write_loop-IsValid more _ (wrote n f rest s) refl
          (subst (Honest more) (sym (wrote-queue n f rest s)) h.1)
          (wrote-IsValid n f rest s q h.0 v))
  | inr p ↦ rw (p, write_loop) (fail_and_close-IsValid (os e) s v)
]

pub async_write-IsValid :
    (w : Sends) (s : Session) → Honest w s.write_queue → IsValid s → IsValid (async_write w s)
unfolding async_write
async_write-IsValid w s h v =
    if-cases IsValid s.is_open (λ _. write_loop-IsValid w s.write_queue s refl h v) (λ _. v)

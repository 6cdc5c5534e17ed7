-- ===== src/Session/Ledger.antt =====
-- What every operation of a session keeps: each write handler is answered once, in the order of the
-- sends, and the close handler runs once.
use insist.Base.{
  ℕ, zero, suc, ◌+◌, ◌≡◌, refl, ap, ◌∙◌, arith, Bool, true, false, ◌&&◌, ltb, ◌==◌, Bool-cases, inl,
  inr, if-cases, List, [], ◌∷◌, ◌++◌, append-nil, append_assoc, length, take, drop, Option, none,
  some,
}
use insist.Message.{RpcMessage}
use insist.Session.{
  Session, OutgoingFrame, Call, ErrorCode, no_error, not_connected, os, Events, loop_add,
  loop_modify, loop_remove, close_fd, socket_took, on_message, on_write, on_close, emit, emit_for,
  update_events, fail_frames, drain_queue, release, close_from_loop, fail_and_close, Receives,
  ReadEnd, drained, at_end, broken, receive, Next, wait, refuse, deliver, next_message, act,
  read_frames, after_receive, async_read, Sends, sent, wrote, write_loop, async_write,
  handle_events,
}

-- The write handlers that have been called, in order.
abbrev pub answered : List Call → List ℕ
answered [] = []
answered (on_write h e ∷ cs) = h ∷ answered cs
answered (_ ∷ cs) = answered cs

-- The write handlers of the queued frames, in order.
abbrev pub awaited : List OutgoingFrame → List ℕ
awaited [] = []
awaited (f ∷ fs) = elim f.handler [ none ↦ awaited fs | some h ↦ h ∷ awaited fs ]

-- How often the close handler has been called.
abbrev pub closings : List Call → ℕ
closings [] = 0
closings (on_close h ∷ cs) = suc (closings cs)
closings (_ ∷ cs) = closings cs

-- The call of the close handler that an open session still owes.
abbrev pub owed : Bool → Option ℕ → ℕ
owed false h = 0
owed true none = 0
owed true (some h) = 1

pub record Ledger : Type 0 where
  pub id : ℕ
  pub message_handler : Option ℕ
  pub close_handler : Option ℕ
  pub results : List ℕ
  pub closes : ℕ

unfoldable pub ledger : Session → Ledger
ledger s = record {
  id = s.id;
  message_handler = s.message_handler;
  close_handler = s.close_handler;
  results = answered s.calls ++ awaited s.write_queue;
  closes = closings s.calls + owed s.is_open s.close_handler;
}

pub answered-append : (cs ds : List Call) → answered (cs ++ ds) ≡ answered cs ++ answered ds
answered-append [] ds = refl
answered-append (loop_add fd e ∷ cs) ds = answered-append cs ds
answered-append (loop_modify fd e ∷ cs) ds = answered-append cs ds
answered-append (loop_remove fd ∷ cs) ds = answered-append cs ds
answered-append (close_fd fd ∷ cs) ds = answered-append cs ds
answered-append (socket_took b ∷ cs) ds = answered-append cs ds
answered-append (on_message h m ∷ cs) ds = answered-append cs ds
answered-append (on_write h e ∷ cs) ds = ap (◌∷◌ h) (answered-append cs ds)
answered-append (on_close h ∷ cs) ds = answered-append cs ds

pub closings-append : (cs ds : List Call) → closings (cs ++ ds) ≡ closings cs + closings ds
closings-append [] ds = omega arith
closings-append (loop_add fd e ∷ cs) ds = closings-append cs ds
closings-append (loop_modify fd e ∷ cs) ds = closings-append cs ds
closings-append (loop_remove fd ∷ cs) ds = closings-append cs ds
closings-append (close_fd fd ∷ cs) ds = closings-append cs ds
closings-append (socket_took b ∷ cs) ds = closings-append cs ds
closings-append (on_message h m ∷ cs) ds = closings-append cs ds
closings-append (on_write h e ∷ cs) ds = closings-append cs ds
closings-append (on_close h ∷ cs) ds = omega (arith, closings-append cs ds)

-- A call that is neither a write handler's nor the close handler's.
abbrev IsQuiet : Call → Type 0
IsQuiet c = (answered (c ∷ []) ≡ []) × (closings (c ∷ []) ≡ 0)

emit-ledger : (c : Call) (s : Session) → IsQuiet c → ledger (emit c s) ≡ ledger s
unfolding ledger
emit-ledger c s q = ground (
  arith,
  answered-append s.calls (c ∷ []),
  closings-append s.calls (c ∷ []),
  append-nil (answered s.calls),
)

emit_for-ledger :
    (o : Option ℕ) (call : ℕ → Call) (s : Session)
    → ((n : ℕ) → IsQuiet (call n))
    → ledger (emit_for o call s) ≡ ledger s
emit_for-ledger none call s q = refl
emit_for-ledger (some n) call s q = emit-ledger (call n) s (q n)

pub update_events-ledger : (s : Session) → ledger (update_events s) ≡ ledger s
unfolding update_events
update_events-ledger s =
    if-cases (λ t. ledger t ≡ ledger s) (s.registered && s.is_open)
      (λ _. emit_for-ledger s.fd _ s (λ n. (refl, refl))) (λ _. refl)

answered-fail_frames :
    (e : ErrorCode) (fs : List OutgoingFrame) → answered (fail_frames e fs) ≡ awaited fs
unfolding fail_frames
answered-fail_frames e [] = refl
answered-fail_frames e (f ∷ fs) = ground (arith, answered-fail_frames e fs)

closings-fail_frames : (e : ErrorCode) (fs : List OutgoingFrame) → closings (fail_frames e fs) ≡ 0
unfolding fail_frames
closings-fail_frames e [] = refl
closings-fail_frames e (f ∷ fs) = ground (arith, closings-fail_frames e fs)

drain_queue-ledger : (e : ErrorCode) (s : Session) → ledger (drain_queue e s) ≡ ledger s
unfolding drain_queue ledger
drain_queue-ledger e s = ground (
  arith,
  answered-append s.calls (fail_frames e s.write_queue),
  closings-append s.calls (fail_frames e s.write_queue),
  answered-fail_frames e s.write_queue,
  closings-fail_frames e s.write_queue,
  append-nil (answered s.calls ++ awaited s.write_queue),
)

-- The session with its flags and its descriptor gone.
abbrev shut : Session → Session
shut s = record s { is_open = false; fd = none; registered = false }

release-ledger : (s : Session) → ledger (release s) ≡ ledger (shut s)
unfolding release
release-ledger s =
    emit_for-ledger s.fd close_fd _ (λ n. (refl, refl))
    ∙ if-cases (λ t. ledger t ≡ ledger (shut s)) s.registered
        (λ _. emit_for-ledger s.fd loop_remove (shut s) (λ n. (refl, refl))) (λ _. refl)

-- The close handler's call settles what an open session owes.
on_close-ledger :
    (o : Option ℕ) (s t : Session)
    → s.is_open ≡ true
    → s.close_handler ≡ o
    → ledger t ≡ ledger (shut s)
    → t.is_open ≡ false
    → ledger (emit_for o on_close t) ≡ ledger s
unfolding ledger
on_close-ledger none s t up h e closed = ground arith
on_close-ledger (some n) s t up h e closed = ground (
  arith,
  answered-append t.calls (on_close n ∷ []),
  closings-append t.calls (on_close n ∷ []),
  append-nil (answered t.calls),
)

release-closed : (s : Session) → (release s).is_open ≡ false
unfolding release
release-closed s = ground arith

pub close_from_loop-ledger : (s : Session) → ledger (close_from_loop s) ≡ ledger s
unfolding close_from_loop drain_queue
close_from_loop-ledger s =
    if-cases (λ t. ledger t ≡ ledger s) s.is_open
      (λ up.
        on_close-ledger s.close_handler s (drain_queue not_connected (release s)) up refl
          (drain_queue-ledger not_connected (release s) ∙ release-ledger s) (release-closed s))
      (λ _. refl)

pub fail_and_close-ledger : (e : ErrorCode) (s : Session) → ledger (fail_and_close e s) ≡ ledger s
unfolding fail_and_close
fail_and_close-ledger e s = close_from_loop-ledger (drain_queue e s) ∙ drain_queue-ledger e s

deliver-ledger :
    (s : Session) (m : RpcMessage)
    → ledger (emit_for s.message_handler (λ h. on_message h m) s) ≡ ledger s
deliver-ledger s m = emit_for-ledger s.message_handler _ s (λ n. (refl, refl))

popped-ledger : (s : Session) (rest : List ℕ) → ledger (record s { read_buffer = rest }) ≡ ledger s
unfolding ledger
popped-ledger s rest = refl

act-ledger :
    (again : Session → Session) (n : Next) (s : Session)
    → ((t : Session) → ledger (again t) ≡ ledger t)
    → ledger (act again n s) ≡ ledger s
unfolding act
act-ledger again wait s h = refl
act-ledger again (refuse e buffer) s h = fail_and_close-ledger e _ ∙ popped-ledger s buffer
act-ledger again (deliver m rest) s h =
    h _ ∙ deliver-ledger (record s { read_buffer = rest }) m ∙ popped-ledger s rest

read_frames-ledger : (fuel : ℕ) (s : Session) → ledger (read_frames fuel s) ≡ ledger s
unfolding read_frames
read_frames-ledger zero s = refl
read_frames-ledger (suc fuel) s =
    if-cases (λ t. ledger t ≡ ledger s) s.is_open
      (λ _. act-ledger (read_frames fuel) (next_message s.read_buffer) s (read_frames-ledger fuel))
      (λ _. refl)

after_receive-ledger : (r : List ℕ × ReadEnd) (s : Session) → ledger (after_receive r s) ≡ ledger s
unfolding after_receive
after_receive-ledger (buffer, drained) s = read_frames-ledger _ _ ∙ popped-ledger s buffer
after_receive-ledger (buffer, at_end) s = close_from_loop-ledger _ ∙ popped-ledger s buffer
after_receive-ledger (buffer, broken e) s = fail_and_close-ledger _ _ ∙ popped-ledger s buffer

pub async_read-ledger : (r : Receives) (s : Session) → ledger (async_read r s) ≡ ledger s
unfolding async_read
async_read-ledger r s =
    if-cases (λ t. ledger t ≡ ledger s) s.is_open
      (λ _. after_receive-ledger (receive r s.read_buffer) s) (λ _. refl)

wrote-ledger :
    (n : ℕ) (f : OutgoingFrame) (rest : List OutgoingFrame) (s : Session)
    → s.write_queue ≡ f ∷ rest
    → ledger (wrote n f rest s) ≡ ledger s
unfolding wrote ledger
wrote-ledger n f rest s q =
    if-cases (λ t. ledger t ≡ ledger s) (f.written + n == length f.bytes) (λ _. done f.handler refl)
      (λ _. part)
  where
    took : List Call
    took = socket_took (take n (drop f.written f.bytes)) ∷ []

    done :
        (o : Option ℕ)
        → f.handler ≡ o
        → ledger (
            emit_for o
              (λ h. on_write h no_error)
              (record s {
                write_queue = rest;
                calls = s.calls ++ socket_took (take n (drop f.written f.bytes)) ∷ [];
              }))
          ≡ ledger s
    done none e = ground (
      arith,
      answered-append s.calls took,
      closings-append s.calls took,
      append-nil (answered s.calls),
    )
    done (some h) e = ground (
      arith,
      answered-append s.calls took,
      closings-append s.calls took,
      answered-append (s.calls ++ took) (on_write h no_error ∷ []),
      closings-append (s.calls ++ took) (on_write h no_error ∷ []),
      append-nil (answered s.calls),
      append_assoc (answered s.calls) (h ∷ []) (awaited rest),
    )

    part :
        ledger (record s {
          write_queue = record f { written = f.written + n } ∷ rest;
          calls = s.calls ++ socket_took (take n (drop f.written f.bytes)) ∷ [];
        })
        ≡ ledger s
    part = ground (
      arith,
      answered-append s.calls took,
      closings-append s.calls took,
      append-nil (answered s.calls),
    )

write_loop-ledger :
    (w : Sends) (q : List OutgoingFrame) (s : Session)
    → s.write_queue ≡ q
    → ledger (write_loop w q s) ≡ ledger s
unfolding write_loop
write_loop-ledger w [] s q = update_events-ledger s
write_loop-ledger Sends.would_block (f ∷ rest) s q = update_events-ledger s
write_loop-ledger (Sends.failed e) (f ∷ rest) s q = fail_and_close-ledger (os e) s
write_loop-ledger (Sends.interrupted more) (f ∷ rest) s q = write_loop-ledger more (f ∷ rest) s q
write_loop-ledger (sent n e more) (f ∷ rest) s q = elim (Bool-cases (ltb 0 n)) [
  | inl p ↦
      rw (p, write_loop)
        (write_loop-ledger more (wrote n f rest s).write_queue (wrote n f rest s) refl
          ∙ wrote-ledger n f rest s q)
  | inr p ↦ rw (p, write_loop) (fail_and_close-ledger (os e) s)
]

pub async_write-ledger : (w : Sends) (s : Session) → ledger (async_write w s) ≡ ledger s
unfolding async_write
async_write-ledger w s =
    if-cases (λ t. ledger t ≡ ledger s) s.is_open (λ _. write_loop-ledger w s.write_queue s refl)
      (λ _. refl)

-- Whatever events arrive and whatever the socket answers, `handle_events` keeps the ledger: no write
-- handler is lost, called twice or called out of order, the close handler is called once at most,
-- and the handlers stay the same.
pub handle_events-ledger :
    (e : Events) (r : Receives) (w : Sends) (s : Session)
    → ledger (handle_events e r w s) ≡ ledger s
unfolding handle_events
handle_events-ledger e r w s = ground (
  arith,
  close_from_loop-ledger s,
  async_read-ledger r s,
  async_write-ledger w s,
  async_write-ledger w (async_read r s),
  close_from_loop-ledger (async_read r s),
  close_from_loop-ledger (async_write w s),
  close_from_loop-ledger (async_write w (async_read r s)),
)

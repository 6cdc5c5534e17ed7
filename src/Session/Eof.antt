-- ===== src/Session/Eof.antt =====
-- A connection that ends: what has arrived but has not been looked at is dropped.
use insist.Base.{
  ℕ, ◌≡◌, refl, true, false, ap, ◌∙◌, arith, if-cases, inl, inr, ◌⊎◌, List, [], ◌∷◌, ◌++◌,
  append-nil, Option, none, some,
}
use insist.Message.{RpcMessage}
use insist.Session.{
  Session, Call, ErrorCode, OutgoingFrame, loop_add, loop_modify, loop_remove, close_fd,
  socket_took, on_message, on_write, on_close, os, not_connected, emit_for, fail_frames,
  drain_queue, release, close_from_loop, fail_and_close, Receives, received, at_end, broken,
  receive, after_receive, async_read,
}

-- The messages that a session has handed to its handler.
abbrev pub messages : List Call → List RpcMessage
messages [] = []
messages (on_message h m ∷ cs) = m ∷ messages cs
messages (_ ∷ cs) = messages cs

-- The run of `::recv` ends with the connection.
abbrev pub Ends : Receives → Type 0
Ends (received chunk more) = Ends more
Ends (Receives.interrupted more) = Ends more
Ends Receives.would_block = ⊥
Ends Receives.ended = Unit {0}
Ends (Receives.failed e) = Unit {0}

pub messages-append : (cs ds : List Call) → messages (cs ++ ds) ≡ messages cs ++ messages ds
messages-append [] ds = refl
messages-append (loop_add fd e ∷ cs) ds = messages-append cs ds
messages-append (loop_modify fd e ∷ cs) ds = messages-append cs ds
messages-append (loop_remove fd ∷ cs) ds = messages-append cs ds
messages-append (close_fd fd ∷ cs) ds = messages-append cs ds
messages-append (socket_took b ∷ cs) ds = messages-append cs ds
messages-append (on_message h m ∷ cs) ds = ap (◌∷◌ m) (messages-append cs ds)
messages-append (on_write h e ∷ cs) ds = messages-append cs ds
messages-append (on_close h ∷ cs) ds = messages-append cs ds

messages-fail_frames : (e : ErrorCode) (fs : List OutgoingFrame) → messages (fail_frames e fs) ≡ []
unfolding fail_frames
messages-fail_frames e [] = refl
messages-fail_frames e (f ∷ fs) = ground (arith, messages-fail_frames e fs)

pub messages-quiet :
    (o : Option ℕ) (call : ℕ → Call) (s : Session)
    → ((n : ℕ) → messages (call n ∷ []) ≡ [])
    → messages (emit_for o call s).calls ≡ messages s.calls
messages-quiet none call s q = refl
messages-quiet (some n) call s q =
    messages-append s.calls (call n ∷ []) ∙ ap (λ t. messages s.calls ++ t) (q n) ∙ append-nil _

messages-drain_queue :
    (e : ErrorCode) (s : Session) → messages (drain_queue e s).calls ≡ messages s.calls
unfolding drain_queue
messages-drain_queue e s =
    messages-append s.calls (fail_frames e s.write_queue)
    ∙ ap (λ t. messages s.calls ++ t) (messages-fail_frames e s.write_queue)
    ∙ append-nil _

messages-release : (s : Session) → messages (release s).calls ≡ messages s.calls
unfolding release
messages-release s =
    messages-quiet s.fd close_fd _ (λ n. refl)
    ∙ if-cases (λ (t : Session). messages t.calls ≡ messages s.calls) s.registered
        (λ _. messages-quiet s.fd loop_remove _ (λ n. refl)) (λ _. refl)

pub messages-close_from_loop : (s : Session) → messages (close_from_loop s).calls ≡ messages s.calls
unfolding close_from_loop
messages-close_from_loop s =
    if-cases (λ (t : Session). messages t.calls ≡ messages s.calls) s.is_open
      (λ _.
        messages-quiet s.close_handler on_close _ (λ n. refl)
        ∙ messages-drain_queue not_connected (release s)
        ∙ messages-release s)
      (λ _. refl)

pub messages-fail_and_close :
    (e : ErrorCode) (s : Session) → messages (fail_and_close e s).calls ≡ messages s.calls
unfolding fail_and_close
messages-fail_and_close e s = messages-close_from_loop (drain_queue e s) ∙ messages-drain_queue e s

close_from_loop-shut : (s : Session) → (close_from_loop s).is_open ≡ false
unfolding close_from_loop release drain_queue
close_from_loop-shut s = ground arith

-- The result of the run is the end of the stream or an error.
receive-Ends :
    (r : Receives) (buffer : List ℕ)
    → Ends r
    → (left : List ℕ) × ((receive r buffer ≡ (left, at_end))
        ⊎ ((e : ℕ) × (receive r buffer ≡ (left, broken e))))
unfolding receive
receive-Ends (received chunk more) buffer b = receive-Ends more (buffer ++ chunk) b
receive-Ends (Receives.interrupted more) buffer b = receive-Ends more buffer b
receive-Ends Receives.would_block buffer b = elim b [ ]
receive-Ends Receives.ended buffer b = (buffer, inl refl)
receive-Ends (Receives.failed e) buffer b = (buffer, inr (e, refl))

-- If the end of the stream, or an error, is met in the same run of `::recv` as the last bytes, no
-- message of that run reaches the handler, whole frames among the bytes or not.
pub async_read-Ends_drops :
    (r : Receives) (s : Session) → Ends r → messages (async_read r s).calls ≡ messages s.calls
unfolding async_read
async_read-Ends_drops r s b =
    if-cases (λ (t : Session). messages t.calls ≡ messages s.calls) s.is_open
      (λ _. by_end (receive-Ends r s.read_buffer b)) (λ _. refl)
  where
    by_end :
        (left : List ℕ) × ((receive r s.read_buffer ≡ (left, at_end))
            ⊎ ((e : ℕ) × (receive r s.read_buffer ≡ (left, broken e))))
        → messages (after_receive (receive r s.read_buffer) s).calls ≡ messages s.calls
    by_end (left, inl e) =
        ap (λ p. messages (after_receive p s).calls) e
        ∙ unfold after_receive in messages-close_from_loop (record s { read_buffer = left })
    by_end (left, inr (c, e)) =
        ap (λ p. messages (after_receive p s).calls) e
        ∙ unfold after_receive in messages-fail_and_close (os c) (record s { read_buffer = left })

-- Such a run leaves a closed session.
pub async_read-Ends_shut :
    (r : Receives) (s : Session) → Ends r → s.is_open ≡ true → (async_read r s).is_open ≡ false
unfolding async_read
async_read-Ends_shut r s b up =
    if-cases (λ (t : Session). t.is_open ≡ false) s.is_open
      (λ _. by_end (receive-Ends r s.read_buffer b)) (λ down. cc)
  where
    by_end :
        (left : List ℕ) × ((receive r s.read_buffer ≡ (left, at_end))
            ⊎ ((e : ℕ) × (receive r s.read_buffer ≡ (left, broken e))))
        → (after_receive (receive r s.read_buffer) s).is_open ≡ false
    by_end (left, inl e) =
        ap (λ p. (after_receive p s).is_open) e
        ∙ unfold after_receive in close_from_loop-shut (record s { read_buffer = left })
    by_end (left, inr (c, e)) =
        ap (λ p. (after_receive p s).is_open) e
        ∙ unfold after_receive in
          unfold fail_and_close in
          close_from_loop-shut (drain_queue (os c) (record s { read_buffer = left }))

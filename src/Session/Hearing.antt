-- ===== src/Session/Hearing.antt =====
-- A session at the receiving end of a stream of frames.
use insist.Base.{
  ℕ, zero, suc, ◌<◌, ◌≡◌, refl, sym, ap, subst, ◌∙◌, arith, Bool, true, false, ◌&&◌, ◌||◌, not,
  if◌then◌else◌, if-cases, inl, inr, ◌⊎◌, List, [], ◌∷◌, ◌++◌, append_assoc, length, All, some,
}
use insist.Message.{RpcMessage}
use insist.Session.{
  Session, ErrorCode, Events, on_message, emit, emit_for, close_from_loop, Receives, received, wait,
  refuse, deliver, next_message, async_read, Sends, async_write, handle_events,
}
use insist.Session.Incoming.{
  drain, drain-wait, drain-deliver, next_message-deliver, next_message-refuse, see, nothing, fault,
  message,
}
use insist.Session.Segments.{arrivals, Blocks, async_read-drain}
use insist.Session.Delivery.{IsSendable, stream, next_message-frame, next_message-nil}
use insist.Session.Eof.{
  messages, messages-append, Ends, async_read-Ends_drops, async_read-Ends_shut,
}
use insist.Session.Silent.{Silent, close_from_loop-Silent, async_write-Silent}

-- The session hears a prefix of the messages `all`; while it is open, its buffer and the bytes that
-- will still come are the frames of the others, and the buffer holds no whole frame.
pub record Hearing (all : List RpcMessage) (coming : List ℕ) (s : Session) : Type 0 where
  pub rest : List RpcMessage
  pub split : messages s.calls ++ rest ≡ all
  pub sendable : All IsSendable rest
  pub ahead : s.is_open ≡ true → s.read_buffer ++ coming ≡ stream rest
  pub idle : s.is_open ≡ true → next_message s.read_buffer ≡ wait

pub Hearing-Silent :
    {s t : Session} (all : List RpcMessage) (coming : List ℕ)
    → Silent s t
    → Hearing all coming s
    → Hearing all coming t
Hearing-Silent all coming p h = record {
  rest = h.rest;
  split = ap (λ m. m ++ h.rest) p.heard ∙ h.split;
  sendable = h.sendable;
  ahead = λ up. ap (λ b. b ++ coming) (p.buffer up) ∙ h.ahead (p.was_open up);
  idle = λ up. ap next_message (p.buffer up) ∙ h.idle (p.was_open up);
}

-- A closed session hears nothing more, whatever comes.
Hearing-shut :
    {s : Session} (all : List RpcMessage) (coming coming' : List ℕ)
    → s.is_open ≡ false
    → Hearing all coming s
    → Hearing all coming' s
Hearing-shut all coming coming' down h = record {
  rest = h.rest;
  split = h.split;
  sendable = h.sendable;
  ahead = λ up. cc;
  idle = λ up. cc;
}

-- What stands in front of a stream of frames.
no_fault :
    (bytes : List ℕ) (ms : List RpcMessage) (c : ErrorCode) (left : List ℕ)
    → bytes ≡ stream ms
    → All IsSendable ms
    → next_message bytes ≡ refuse c left
    → ⊥
no_fault bytes [] c left e a f = cc (ap next_message e, next_message-nil, f)
no_fault bytes (m ∷ ms) c left e a f =
    cc (ap next_message e, next_message-frame m (stream ms) a.0, f)

in_front :
    (bytes : List ℕ) (ms : List RpcMessage) (m : RpcMessage) (left : List ℕ)
    → bytes ≡ stream ms
    → All IsSendable ms
    → next_message bytes ≡ deliver m left
    → (others : List RpcMessage) × (ms ≡ m ∷ others)
      × (left ≡ stream others)
      × All IsSendable others
in_front bytes [] m left e a f = absurd (cc (ap next_message e, next_message-nil, f))
in_front bytes (m' ∷ ms) m left e a f = (ms, ap (λ x. x ∷ ms) same.0, same.1, a.1)
  where
    both : deliver m' (stream ms) ≡ deliver m left
    both = sym (ap next_message e ∙ next_message-frame m' (stream ms) a.0) ∙ f

    same : (m' ≡ m) × (left ≡ stream ms)
    same = (cc both, cc both)

module _ (all : List RpcMessage) (coming : List ℕ) (x : ℕ) where
  -- The second loop of `async_read` takes the whole frames.
  drain-Hearing :
      (fuel : ℕ) (rest : List RpcMessage) (s : Session)
      → length s.read_buffer < fuel
      → s.is_open ≡ true
      → s.message_handler ≡ some x
      → messages s.calls ++ rest ≡ all
      → s.read_buffer ++ coming ≡ stream rest
      → All IsSendable rest
      → Hearing all coming (drain s)
  drain-Hearing zero rest s short up handler split ahead sendable = elim short [ ]
  drain-Hearing (suc fuel) rest s short up handler split ahead sendable =
      elim (see (next_message s.read_buffer)) [
        | nothing e ↦ subst (Hearing all coming) (sym (drain-wait s e)) (record {
          rest = rest;
          split = split;
          sendable = sendable;
          ahead = λ _. ahead;
          idle = λ _. e;
        })
        | fault c left e ↦
            absurd (
              no_fault _ rest c _ ahead sendable
                (next_message-refuse s.read_buffer coming c left e))
        | message m left e ↦
            let (longer, less) = next_message-deliver s.read_buffer coming m left e in
            let (others, front, tail, fit) = in_front _ rest m _ ahead sendable longer in
            subst (Hearing all coming)
              (sym (
                drain-deliver s m left up e
                ∙ ap
                    (λ o.
                      drain (emit_for o (λ h. on_message h m) (record s { read_buffer = left })))
                    handler))
              (drain-Hearing fuel others (emit (on_message x m) (record s { read_buffer = left }))
                (omega (arith, less, short)) up handler (taken m others front) tail fit)
      ]
    where
      taken :
          (m : RpcMessage) (others : List RpcMessage)
          → rest ≡ m ∷ others
          → messages (s.calls ++ on_message x m ∷ []) ++ others ≡ all
      taken m others front =
          ap (λ l. l ++ others) (messages-append s.calls (on_message x m ∷ []))
          ∙ append_assoc (messages s.calls) (m ∷ []) others
          ∙ ap (λ l. messages s.calls ++ l) (sym front)
          ∙ split

-- A run of `::recv` ends in one of two ways.
Blocks-or-Ends : (r : Receives) → Blocks r ⊎ Ends r
Blocks-or-Ends (received chunk more) = Blocks-or-Ends more
Blocks-or-Ends (Receives.interrupted more) = Blocks-or-Ends more
Blocks-or-Ends Receives.would_block = inl tt
Blocks-or-Ends Receives.ended = inr tt
Blocks-or-Ends (Receives.failed e) = inr tt

module _ (all : List RpcMessage) (x : ℕ) where
  -- Reading: the bytes that arrive are no longer to come.
  async_read-Hearing :
      (r : Receives) (coming : List ℕ) (s : Session)
      → s.message_handler ≡ some x
      → s.is_open ≡ true
      → Hearing all (arrivals r ++ coming) s
      → Hearing all coming (async_read r s)
  async_read-Hearing r coming s handler up h = elim (Blocks-or-Ends r) [
    | inr ends ↦ record {
      rest = h.rest;
      split = ap (λ m. m ++ h.rest) (async_read-Ends_drops r s ends) ∙ h.split;
      sendable = h.sendable;
      ahead = λ still. cc (async_read-Ends_shut r s ends up);
      idle = λ still. cc (async_read-Ends_shut r s ends up);
    }
    | inl blocks ↦ subst (Hearing all coming) (sym (async_read-drain r s blocks up)) (
        drain-Hearing all coming x (suc (length (s.read_buffer ++ arrivals r))) h.rest
          (record s { read_buffer = s.read_buffer ++ arrivals r }) (omega arith) up handler h.split
          (append_assoc s.read_buffer (arrivals r) coming ∙ h.ahead up) h.sendable)
  ]

-- Whether a dispatched event reads.
unfoldable pub reads : Events → Session → Bool
reads e s = s.is_open && not (e.error || e.hang_up) && e.readable

module _ (all : List RpcMessage) (x : ℕ) where
  -- A dispatched event, in front of bytes of which it reads what arrives.
  pub handle_events-Hearing :
      (e : Events) (r : Receives) (w : Sends) (coming : List ℕ) (s : Session)
      → s.message_handler ≡ some x
      → Hearing all (arrivals r ++ coming) s
      → Hearing all (if reads e s then coming else arrivals r ++ coming) (handle_events e r w s)
  unfolding handle_events reads
  handle_events-Hearing e r w coming s handler h =
      by_test s.is_open (e.error || e.hang_up) e.readable refl
    where
      coming' : List ℕ
      coming' = arrivals r ++ coming

      write : Session → Session
      write t = if t.is_open && e.writable then async_write w t else t

      finish : Session → Session
      finish t = if t.is_open && e.read_hang_up then close_from_loop t else t

      write-Hearing : (c : List ℕ) (t : Session) → Hearing all c t → Hearing all c (write t)
      write-Hearing c t g =
          if-cases (Hearing all c) (t.is_open && e.writable)
            (λ _. Hearing-Silent all c (async_write-Silent w t) g) (λ _. g)

      finish-Hearing : (c : List ℕ) (t : Session) → Hearing all c t → Hearing all c (finish t)
      finish-Hearing c t g =
          if-cases (Hearing all c) (t.is_open && e.read_hang_up)
            (λ _. Hearing-Silent all c (close_from_loop-Silent t) g) (λ _. g)

      by_test :
          (o broken readable : Bool)
          → s.is_open ≡ o
          → Hearing all (if o && not broken && readable then coming else coming') (
              if not o
              then s
              else if broken
              then close_from_loop s
              else finish (write (if readable then async_read r s else s)))
      by_test false broken readable up = h
      by_test true true readable up = Hearing-Silent all coming' (close_from_loop-Silent s) h
      by_test true false true up =
          finish-Hearing coming _
            (write-Hearing coming _ (async_read-Hearing all x r coming s handler up h))
      by_test true false false up = finish-Hearing coming' _ (write-Hearing coming' s h)

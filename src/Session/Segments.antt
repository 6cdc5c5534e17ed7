-- ===== src/Session/Segments.antt =====
-- How the bytes are cut into pieces on the way does not matter.
use insist.Base.{
  if◌then◌else◌, ℕ, zero, suc, ◌<◌, ◌≡◌, refl, sym, ap, ◌∙◌, arith, true, false, if-cases,
  Bool-cases, inl, inr, List, [], ◌∷◌, ◌++◌, append-nil, append_assoc, length, All,
}
use insist.Message.{RpcMessage}
use insist.Session.{
  Session, ErrorCode, drain_queue, release, close_from_loop, fail_and_close, Receives, received,
  drained, receive, refuse, deliver, next_message, after_receive, async_read,
}
use insist.Session.Incoming.{
  drain, drain-shut, drain-wait, drain-refuse, drain-deliver, next_message-deliver,
  next_message-refuse, nothing, fault, message, see, handed, handed-buffer,
}

-- A session without what is left in its read buffer.
abbrev pub forget : Session → Session
forget s = record s { read_buffer = [] }

abbrev grow : List ℕ → Session → Session
grow more s = record s { read_buffer = s.read_buffer ++ more }

-- Closing does not look at the read buffer.
forget-fail_and_close :
    (c : ErrorCode) (s : Session) → forget (fail_and_close c s) ≡ fail_and_close c (forget s)
unfolding fail_and_close close_from_loop drain_queue release
forget-fail_and_close c s = ground arith

fail_and_close-shut : (c : ErrorCode) (s : Session) → (fail_and_close c s).is_open ≡ false
unfolding fail_and_close close_from_loop drain_queue release
fail_and_close-shut c s = ground arith

-- The bytes that arrive before the socket has nothing more.
unfoldable pub arrivals : Receives → List ℕ
arrivals (received chunk more) = chunk ++ arrivals more
arrivals (Receives.interrupted more) = arrivals more
arrivals Receives.would_block = []
arrivals Receives.ended = []
arrivals (Receives.failed e) = []

-- The run of `::recv` ends because the socket has nothing more, not with the connection.
abbrev pub Blocks : Receives → Type 0
Blocks (received chunk more) = Blocks more
Blocks (Receives.interrupted more) = Blocks more
Blocks Receives.would_block = Unit {0}
Blocks Receives.ended = ⊥
Blocks (Receives.failed e) = ⊥

receive-Blocks :
    (r : Receives) (buffer : List ℕ) → Blocks r → receive r buffer ≡ (buffer ++ arrivals r, drained)
unfolding receive arrivals
receive-Blocks (received chunk more) buffer b =
    receive-Blocks more (buffer ++ chunk) b ∙ ap (λ t. (t, drained)) (append_assoc buffer chunk _)
receive-Blocks (Receives.interrupted more) buffer b = receive-Blocks more buffer b
receive-Blocks Receives.would_block buffer b = ap (λ t. (t, drained)) (sym (append-nil buffer))
receive-Blocks Receives.ended buffer b = elim b [ ]
receive-Blocks (Receives.failed e) buffer b = elim b [ ]

-- `async_read` on an open session, if the connection stays up: the bytes join the buffer, and the
-- second loop runs.
pub async_read-drain :
    (r : Receives) (s : Session)
    → Blocks r
    → s.is_open ≡ true
    → async_read r s ≡ drain (grow (arrivals r) s)
unfolding async_read after_receive drain
async_read-drain r s b up =
    if-cases (λ t. t ≡ drain (grow (arrivals r) s)) s.is_open
      (λ _. ap (λ p. after_receive p s) (receive-Blocks r s.read_buffer b)) (λ down. cc)

handed-grow :
    (more : List ℕ) (m : RpcMessage) (rest : List ℕ) (s : Session)
    → handed m (rest ++ more) (grow more s) ≡ grow more (handed m rest s)
handed-grow more m rest s = ground arith

-- Draining before more bytes come and draining after they came lead to the same session, but for
-- what a closed session has in its buffer.
drain-grow :
    (fuel : ℕ) (more : List ℕ) (s : Session)
    → length s.read_buffer < fuel
    → forget (drain (grow more (drain s))) ≡ forget (drain (grow more s))
drain-grow zero more s h = elim h [ ]
drain-grow (suc fuel) more s h = elim (Bool-cases s.is_open) [
  | inr down ↦ ap (λ t. forget (drain (grow more t))) (drain-shut s down)
  | inl up ↦ elim (see (next_message s.read_buffer)) [
    | nothing e ↦ ap (λ t. forget (drain (grow more t))) (drain-wait s e)
    | fault c rest e ↦ refused c rest up e
    | message m rest e ↦
        ap (λ t. forget (drain (grow more t))) (drain-deliver s m rest up e)
        ∙ drain-grow fuel more (handed m rest s) (
            rw (handed-buffer m rest s)
              (omega (arith, (next_message-deliver s.read_buffer more m rest e).1)))
        ∙ ap forget (sym (delivered m rest up e))
  ]
]
  where
    refused :
        (c : ErrorCode) (rest : List ℕ)
        → s.is_open ≡ true
        → next_message s.read_buffer ≡ refuse c rest
        → forget (drain (grow more (drain s))) ≡ forget (drain (grow more s))
    refused c rest up e =
        ap (λ t. forget (drain (grow more t))) (drain-refuse s c rest up e)
        ∙ ap forget (
            drain-shut (grow more (fail_and_close c (record s { read_buffer = rest })))
              (fail_and_close-shut c (record s { read_buffer = rest })))
        ∙ forget-fail_and_close c (record s { read_buffer = rest })
        ∙ sym (forget-fail_and_close c (record s { read_buffer = rest ++ more }))
        ∙ ap forget (
            sym (
              drain-refuse (grow more s) c (rest ++ more) up
                (next_message-refuse s.read_buffer more c rest e)))

    delivered :
        (m : RpcMessage) (rest : List ℕ)
        → s.is_open ≡ true
        → next_message s.read_buffer ≡ deliver m rest
        → drain (grow more s) ≡ drain (grow more (handed m rest s))
    delivered m rest up e =
        drain-deliver (grow more s) m (rest ++ more) up
          (next_message-deliver s.read_buffer more m rest e).0
        ∙ ap drain (handed-grow more m rest s)

drain-drain :
    (more : List ℕ) (s : Session)
    → forget (drain (grow more (drain s))) ≡ forget (drain (grow more s))
drain-drain more s = drain-grow (suc (length s.read_buffer)) more s (omega arith)

-- The events that a connection meets while it stays up, one run of `async_read` after the other.
pub feed : List Receives → Session → Session
feed [] s = s
feed (r ∷ rs) s = feed rs (async_read r s)

-- All that arrives in a list of runs.
unfoldable pub all_arrivals : List Receives → List ℕ
all_arrivals [] = []
all_arrivals (r ∷ rs) = arrivals r ++ all_arrivals rs

-- One run that meets all the bytes at once.
abbrev pub at_once : List ℕ → Receives
at_once bytes = received bytes Receives.would_block

pub at_once-arrivals : (bytes : List ℕ) → arrivals (at_once bytes) ≡ bytes
unfolding arrivals
at_once-arrivals bytes = append-nil bytes

async_read-shut : (r : Receives) (s : Session) → s.is_open ≡ false → async_read r s ≡ s
unfolding async_read
async_read-shut r s down = if-cases (λ t. t ≡ s) s.is_open (λ up. cc) (λ _. refl)

pub forget-async_read :
    (r : Receives) (s : Session)
    → Blocks r
    → forget (async_read r s) ≡ forget (drain (grow (arrivals r) s))
forget-async_read r s b = elim (Bool-cases s.is_open) [
  | inl up ↦ ap forget (async_read-drain r s b up)
  | inr down ↦
      ap forget (async_read-shut r s down) ∙ sym (ap forget (drain-shut (grow (arrivals r) s) down))
]

-- Only the bytes count, not the calls of `::recv` that brought them.
pub same_arrivals :
    (r : Receives) (bytes : List ℕ) (s : Session)
    → Blocks r
    → arrivals r ≡ bytes
    → forget (async_read r s) ≡ forget (async_read (at_once bytes) s)
same_arrivals r bytes s b e =
    forget-async_read r s b
    ∙ ap (λ t. forget (drain (grow t s))) (e ∙ sym (at_once-arrivals bytes))
    ∙ sym (forget-async_read (at_once bytes) s tt)

two_reads :
    (r : Receives) (bytes : List ℕ) (s : Session)
    → Blocks r
    → forget (async_read (at_once bytes) (async_read r s))
      ≡ forget (async_read (at_once (arrivals r ++ bytes)) s)
two_reads r bytes s b = elim (Bool-cases s.is_open) [
  | inr down ↦
      ap (λ t. forget (async_read (at_once bytes) t)) (async_read-shut r s down)
      ∙ ap forget (async_read-shut (at_once bytes) s down)
      ∙ sym (ap forget (async_read-shut (at_once (arrivals r ++ bytes)) s down))
  | inl up ↦
      forget-async_read (at_once bytes) (async_read r s) tt
      ∙ ap (λ t. forget (drain (grow t (async_read r s)))) (at_once-arrivals bytes)
      ∙ ap (λ t. forget (drain (grow bytes t))) (async_read-drain r s b up)
      ∙ drain-drain bytes (grow (arrivals r) s)
      ∙ ap (λ t. forget (drain (record s { read_buffer = t })))
          (append_assoc s.read_buffer (arrivals r) bytes)
      ∙ ap (λ t. forget (drain (grow t s))) (sym (at_once-arrivals (arrivals r ++ bytes)))
      ∙ sym (forget-async_read (at_once (arrivals r ++ bytes)) s tt)
]

-- In all that is not left in the read buffer, only the bytes count.
feed-forget :
    (r : Receives) (rs : List Receives) (s : Session)
    → Blocks r
    → All Blocks rs
    → forget (feed (r ∷ rs) s) ≡ forget (async_read (at_once (all_arrivals (r ∷ rs))) s)
unfolding feed all_arrivals
feed-forget r [] s b bs = same_arrivals r (arrivals r ++ []) s b (sym (append-nil (arrivals r)))
feed-forget r (r' ∷ rs) s b bs =
    feed-forget r' rs (async_read r s) bs.0 bs.1 ∙ two_reads r (all_arrivals (r' ∷ rs)) s b

-- Where the session stays open, its buffer is the same too.
drain-grow_open :
    (fuel : ℕ) (more : List ℕ) (s : Session)
    → length s.read_buffer < fuel
    → (drain (grow more s)).is_open ≡ true
    → drain (grow more (drain s)) ≡ drain (grow more s)
drain-grow_open zero more s h up = elim h [ ]
drain-grow_open (suc fuel) more s h up = elim (Bool-cases s.is_open) [
  | inr down ↦ ap (λ t. drain (grow more t)) (drain-shut s down)
  | inl was ↦ elim (see (next_message s.read_buffer)) [
    | nothing e ↦ ap (λ t. drain (grow more t)) (drain-wait s e)
    | fault c rest e ↦ absurd (
        cc (
          up,
          ap (λ t. t.is_open)
              (drain-refuse (grow more s) c (rest ++ more) was
                (next_message-refuse s.read_buffer more c rest e)),
          fail_and_close-shut c (record s { read_buffer = rest ++ more }),
        ))
    | message m rest e ↦
        let delivered : drain (grow more s) ≡ drain (grow more (handed m rest s)) =
          drain-deliver (grow more s) m (rest ++ more) was
            (next_message-deliver s.read_buffer more m rest e).0
          ∙ ap drain (handed-grow more m rest s) in
        ap (λ t. drain (grow more t)) (drain-deliver s m rest was e)
        ∙ drain-grow_open fuel more (handed m rest s)
            (rw (handed-buffer m rest s)
              (omega (arith, (next_message-deliver s.read_buffer more m rest e).1)))
            (sym (ap (λ t. t.is_open) delivered) ∙ up)
        ∙ sym delivered
  ]
]

one_read :
    (r : Receives) (s : Session)
    → Blocks r
    → async_read r s ≡ async_read (at_once (arrivals r ++ [])) s
one_read r s b = elim (Bool-cases s.is_open) [
  | inr down ↦ async_read-shut r s down ∙ sym (async_read-shut _ s down)
  | inl up ↦
      async_read-drain r s b up
      ∙ ap (λ t. drain (grow t s))
          (sym (at_once-arrivals (arrivals r ++ []) ∙ append-nil (arrivals r)))
      ∙ sym (async_read-drain (at_once (arrivals r ++ [])) s tt up)
]

two_reads_open :
    (r : Receives) (bytes : List ℕ) (s : Session)
    → Blocks r
    → (async_read (at_once (arrivals r ++ bytes)) s).is_open ≡ true
    → async_read (at_once bytes) (async_read r s) ≡ async_read (at_once (arrivals r ++ bytes)) s
two_reads_open r bytes s b still = elim (Bool-cases s.is_open) [
  | inr down ↦
      ap (async_read (at_once bytes)) (async_read-shut r s down)
      ∙ async_read-shut (at_once bytes) s down
      ∙ sym (async_read-shut (at_once (arrivals r ++ bytes)) s down)
  | inl up ↦ elim (Bool-cases (async_read r s).is_open) [
    | inr shut ↦ absurd (
        cc (
          ap (λ t. t.is_open) (two_reads r bytes s b),
          ap (λ t. t.is_open) (async_read-shut (at_once bytes) (async_read r s) shut),
          shut,
          still,
        ))
    | inl open_yet ↦
        async_read-drain (at_once bytes) (async_read r s) tt open_yet
        ∙ ap (λ t. drain (grow t (async_read r s))) (at_once-arrivals bytes)
        ∙ ap (λ t. drain (grow bytes t)) (async_read-drain r s b up)
        ∙ drain-grow_open (suc (length (grow (arrivals r) s).read_buffer)) bytes
            (grow (arrivals r) s) (omega arith) (sym (ap (λ t. t.is_open) (at_end up)) ∙ still)
        ∙ sym (at_end up)
  ]
]
  where
    at_end :
        s.is_open ≡ true
        → async_read (at_once (arrivals r ++ bytes)) s ≡ drain (grow bytes (grow (arrivals r) s))
    at_end up =
        async_read-drain (at_once (arrivals r ++ bytes)) s tt up
        ∙ ap (λ t. drain (grow t s)) (at_once-arrivals (arrivals r ++ bytes))
        ∙ ap (λ t. drain (record s { read_buffer = t }))
            (sym (append_assoc s.read_buffer (arrivals r) bytes))

pub feed-open :
    (r : Receives) (rs : List Receives) (s : Session)
    → Blocks r
    → All Blocks rs
    → (async_read (at_once (all_arrivals (r ∷ rs))) s).is_open ≡ true
    → feed (r ∷ rs) s ≡ async_read (at_once (all_arrivals (r ∷ rs))) s
unfolding feed all_arrivals
feed-open r [] s b bs still = one_read r s b
feed-open r (r' ∷ rs) s b bs still =
    feed-open r' rs (async_read r s) bs.0 bs.1
      (ap (λ t. t.is_open) (two_reads r (all_arrivals (r' ∷ rs)) s b) ∙ still)
    ∙ two_reads_open r (all_arrivals (r' ∷ rs)) s b still

-- A session that has closed, without what is left in its read buffer.
abbrev pub settled : Session → Session
settled s = if s.is_open then s else forget s

-- For every byte stream, well formed or not, and every way of cutting it into runs of `::recv` that
-- each end because there is nothing more to read: the session ends up as if all the bytes had come
-- at once, with the same calls, queue, handlers and read buffer. Only what is left in the read
-- buffer of a closed session may differ.
pub feed-at_once :
    (r : Receives) (rs : List Receives) (s : Session)
    → Blocks r
    → All Blocks rs
    → settled (feed (r ∷ rs) s) ≡ settled (async_read (at_once (all_arrivals (r ∷ rs))) s)
feed-at_once r rs s b bs = elim (Bool-cases one.is_open) [
  | inl up ↦ ap settled (feed-open r rs s b bs up)
  | inr down ↦
      let same = feed-forget r rs s b bs in
      ap (λ t. if t then feed (r ∷ rs) s else forget (feed (r ∷ rs) s))
        (ap (λ t. t.is_open) same ∙ down)
      ∙ same
      ∙ sym (ap (λ t. if t then one else forget one) down)
]
  where
    one : Session
    one = async_read (at_once (all_arrivals (r ∷ rs))) s

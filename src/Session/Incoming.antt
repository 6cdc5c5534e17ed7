-- ===== src/Session/Incoming.antt =====
-- The reading side: how the bytes are cut into pieces on the way does not matter.
use insist.Base.{
  ℕ, zero, suc, ◌<◌, ◌≡◌, refl, sym, ap, ◌∙◌, arith, true, false, if-cases, Bool-cases, inl, inr,
  List, [], ◌++◌, length,
}
use insist.Message.{RpcMessage}
use insist.Wire.{Decoded, decode, decoded, rejected, out_of_fuel}
use insist.Framing.{try_pop_frame, FrameReadResult, need_more, frame_ok, too_large}
use insist.Framing.Pop.{try_pop_frame-append, try_pop_frame-append_too_large, try_pop_frame_takes}
use insist.Session.{
  Session, ErrorCode, on_message, emit_for, fail_and_close, Next, wait, refuse, deliver,
  next_message, popped_next, decoded_next, act, read_frames,
}

decoded_next-deliver :
    (d : Decoded) (rest : List ℕ) (m : RpcMessage) (left : List ℕ)
    → decoded_next d rest ≡ deliver m left
    → (d ≡ decoded m) × (rest ≡ left)
unfolding decoded_next
decoded_next-deliver (decoded m') rest m left e = ground arith
decoded_next-deliver rejected rest m left e = cc
decoded_next-deliver out_of_fuel rest m left e = cc

decoded_next-refuse :
    (d : Decoded) (rest more : List ℕ) (c : ErrorCode) (left : List ℕ)
    → decoded_next d rest ≡ refuse c left
    → decoded_next d (rest ++ more) ≡ refuse c (left ++ more)
unfolding decoded_next
decoded_next-refuse (decoded m) rest more c left e = cc
decoded_next-refuse rejected rest more c left e = ground arith
decoded_next-refuse out_of_fuel rest more c left e = cc

-- The answers of `next_message`, and what more bytes behind the buffer do to them.
module _ (buffer more : List ℕ) where
  popped_next-deliver :
      (r : FrameReadResult) (m : RpcMessage) (rest : List ℕ)
      → try_pop_frame buffer ≡ r
      → popped_next r buffer ≡ deliver m rest
      → (next_message (buffer ++ more) ≡ deliver m (rest ++ more)) × (length rest < length buffer)
  unfolding next_message
  popped_next-deliver need_more m rest f e = cc
  popped_next-deliver too_large m rest f e = cc
  popped_next-deliver (frame_ok payload left) m rest f e =
      let (d, l) = decoded_next-deliver (decode payload) left m rest e in
      (
        rw (try_pop_frame-append buffer more payload left f, popped_next, d, l),
        rw (← l) (try_pop_frame_takes buffer payload left f),
      )

  popped_next-refuse :
      (r : FrameReadResult) (c : ErrorCode) (rest : List ℕ)
      → try_pop_frame buffer ≡ r
      → popped_next r buffer ≡ refuse c rest
      → next_message (buffer ++ more) ≡ refuse c (rest ++ more)
  unfolding next_message
  popped_next-refuse need_more c rest f e = cc
  popped_next-refuse too_large c rest f e =
      rw (try_pop_frame-append_too_large buffer more f, popped_next) (ground arith)
  popped_next-refuse (frame_ok payload left) c rest f e =
      rw (try_pop_frame-append buffer more payload left f, popped_next)
        (decoded_next-refuse (decode payload) left more c rest e)

  pub next_message-deliver :
      (m : RpcMessage) (rest : List ℕ)
      → next_message buffer ≡ deliver m rest
      → (next_message (buffer ++ more) ≡ deliver m (rest ++ more)) × (length rest < length buffer)
  unfolding next_message
  next_message-deliver m rest e = popped_next-deliver (try_pop_frame buffer) m rest refl e

  pub next_message-refuse :
      (c : ErrorCode) (rest : List ℕ)
      → next_message buffer ≡ refuse c rest
      → next_message (buffer ++ more) ≡ refuse c (rest ++ more)
  unfolding next_message
  next_message-refuse c rest e = popped_next-refuse (try_pop_frame buffer) c rest refl e

-- To split on what the buffer holds and keep the equation.
pub data Seen (n : Next) : Type 0 where
  nothing : n ≡ wait → Seen n
  fault : (c : ErrorCode) (rest : List ℕ) → n ≡ refuse c rest → Seen n
  message : (m : RpcMessage) (rest : List ℕ) → n ≡ deliver m rest → Seen n

pub see : (n : Next) → Seen n
see wait = nothing refl
see (refuse c rest) = fault c rest refl
see (deliver m rest) = message m rest refl

-- The second loop with the fuel that `async_read` gives it.
unfoldable pub drain : Session → Session
drain s = read_frames (suc (length s.read_buffer)) s

-- The session after one message.
abbrev pub handed : RpcMessage → List ℕ → Session → Session
handed m rest s = emit_for s.message_handler (λ h. on_message h m) (record s { read_buffer = rest })

pub handed-buffer :
    (m : RpcMessage) (rest : List ℕ) (s : Session) → (handed m rest s).read_buffer ≡ rest
handed-buffer m rest s = ground arith

read_frames-shut : (fuel : ℕ) (s : Session) → s.is_open ≡ false → read_frames fuel s ≡ s
unfolding read_frames
read_frames-shut zero s e = refl
read_frames-shut (suc fuel) s e = if-cases (λ t. t ≡ s) s.is_open (λ up. cc) (λ _. refl)

module _ (fuel : ℕ) (s : Session) (up : s.is_open ≡ true) where
  round : read_frames (suc fuel) s ≡ act (read_frames fuel) (next_message s.read_buffer) s
  unfolding read_frames
  round =
      if-cases (λ t. t ≡ act (read_frames fuel) (next_message s.read_buffer) s) s.is_open
        (λ _. refl) (λ down. cc)

  round-wait : next_message s.read_buffer ≡ wait → read_frames (suc fuel) s ≡ s
  unfolding act
  round-wait e = round ∙ ap (λ n. act (read_frames fuel) n s) e

  round-refuse :
      (c : ErrorCode) (rest : List ℕ)
      → next_message s.read_buffer ≡ refuse c rest
      → read_frames (suc fuel) s ≡ fail_and_close c (record s { read_buffer = rest })
  unfolding act
  round-refuse c rest e = round ∙ ap (λ n. act (read_frames fuel) n s) e

  round-deliver :
      (m : RpcMessage) (rest : List ℕ)
      → next_message s.read_buffer ≡ deliver m rest
      → read_frames (suc fuel) s ≡ read_frames fuel (handed m rest s)
  unfolding act
  round-deliver m rest e = round ∙ ap (λ n. act (read_frames fuel) n s) e

-- More fuel than bytes makes no difference.
read_frames_fuel :
    (f g : ℕ) (s : Session)
    → length s.read_buffer < f
    → length s.read_buffer < g
    → read_frames f s ≡ read_frames g s
read_frames_fuel zero g s hf hg = elim hf [ ]
read_frames_fuel (suc f) zero s hf hg = elim hg [ ]
read_frames_fuel (suc f) (suc g) s hf hg = elim (Bool-cases s.is_open) [
  | inr down ↦ read_frames-shut (suc f) s down ∙ sym (read_frames-shut (suc g) s down)
  | inl up ↦ elim (see (next_message s.read_buffer)) [
    | nothing e ↦ round-wait f s up e ∙ sym (round-wait g s up e)
    | fault c rest e ↦ round-refuse f s up c rest e ∙ sym (round-refuse g s up c rest e)
    | message m rest e ↦
        round-deliver f s up m rest e
        ∙ read_frames_fuel f g (handed m rest s) (shorter m rest e f hf) (shorter m rest e g hg)
        ∙ sym (round-deliver g s up m rest e)
  ]
]
  where
    shorter :
        (m : RpcMessage) (rest : List ℕ)
        → next_message s.read_buffer ≡ deliver m rest
        → (k : ℕ) → length s.read_buffer < suc k
        → length (handed m rest s).read_buffer < k
    shorter m rest e k h =
        rw (handed-buffer m rest s)
          (omega (arith, (next_message-deliver s.read_buffer [] m rest e).1))

module _ (s : Session) where
  pub drain-shut : s.is_open ≡ false → drain s ≡ s
  unfolding drain
  drain-shut e = read_frames-shut _ s e

  pub drain-wait : next_message s.read_buffer ≡ wait → drain s ≡ s
  unfolding drain
  drain-wait e = elim (Bool-cases s.is_open) [
    | inl up ↦ round-wait _ s up e
    | inr down ↦ read_frames-shut _ s down
  ]

  pub drain-refuse :
      (c : ErrorCode) (rest : List ℕ)
      → s.is_open ≡ true
      → next_message s.read_buffer ≡ refuse c rest
      → drain s ≡ fail_and_close c (record s { read_buffer = rest })
  unfolding drain
  drain-refuse c rest up e = round-refuse _ s up c rest e

  pub drain-deliver :
      (m : RpcMessage) (rest : List ℕ)
      → s.is_open ≡ true
      → next_message s.read_buffer ≡ deliver m rest
      → drain s ≡ drain (handed m rest s)
  unfolding drain
  drain-deliver m rest up e =
      round-deliver _ s up m rest e
      ∙ read_frames_fuel _ _ (handed m rest s)
          (rw (handed-buffer m rest s) (next_message-deliver s.read_buffer [] m rest e).1)
          (omega arith)

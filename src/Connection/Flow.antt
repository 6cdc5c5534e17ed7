-- ===== src/Connection/Flow.antt =====
-- The messages from one end to the other.
use insist.Base.{
  ℕ, ◌≡◌, refl, sym, ap, ◌∙◌, true, false, Bool-cases, inl, inr, List, [], ◌∷◌, ◌++◌, append-nil,
  append_assoc, length, drop, drop-append, All, some,
}
use insist.Message.{RpcMessage}
use insist.Session.{Session, Call, Task, send_frame, close_session}
use insist.Session.Outgoing.{on_wire, unsent}
use insist.Session.Delivery.{IsSendable, frame, stream, next_message-nil}
use insist.Session.Eof.{messages}
use insist.Session.Works.{Steady}
use insist.Session.Hearing.{Hearing}
use insist.Connection.{Port, new_bytes, IsFresh}

-- The bytes of the frames that wait to be queued.
abbrev pub frames : List Task → List ℕ
frames [] = []
frames (send_frame bytes handler ∷ ts) = bytes ++ frames ts
frames (close_session ∷ ts) = frames ts

pub frames-append : (ts us : List Task) → frames (ts ++ us) ≡ frames ts ++ frames us
frames-append [] us = refl
frames-append (send_frame bytes handler ∷ ts) us =
    ap (λ b. bytes ++ b) (frames-append ts us) ∙ sym (append_assoc bytes (frames ts) (frames us))
frames-append (close_session ∷ ts) us = frames-append ts us

-- From `x` to `y`: what `y` has heard is a prefix of what `x` has said, and the rest is in its buffer,
-- on its way, or `later` to come; while `x` is open this is what its queue and its tasks hold.
pub record Flow (x y : Port) : Type 0 where
  pub later : List ℕ
  pub hearing : Hearing x.said (y.arriving ++ later) y.session
  pub owed : x.session.is_open ≡ true → later ≡ unsent x.session.write_queue ++ frames x.posted
  pub handler : (h : ℕ) × (y.session.message_handler ≡ some h)

pub IsFresh-Flow : (x y : Port) → IsFresh x → IsFresh y → Flow x y
IsFresh-Flow x y fx fy = record {
  later = [];
  hearing = record {
    rest = [];
    split = ap (λ m. m ++ []) fy.unheard ∙ sym fx.none_said;
    sendable = tt;
    ahead = λ _.
        ap (λ b. b ++ (y.arriving ++ [])) fy.no_buffer ∙ append-nil y.arriving ∙ fy.none_arriving;
    idle = λ _. ap insist.Session.next_message fy.no_buffer ∙ next_message-nil;
  };
  owed = λ _. sym (ap (λ q. unsent q ++ frames x.posted) fx.no_queue ∙ ap frames fx.none_posted);
  handler = fy.handler;
}

pub new_bytes-more :
    (s t : Session) (more : List Call) → t.calls ≡ s.calls ++ more → new_bytes s t ≡ on_wire more
unfolding new_bytes
new_bytes-more s t more e = ap on_wire (ap (drop (length s.calls)) e ∙ drop-append s.calls more)

-- What an end still owes when its session goes from `s` to `t`.
pub Steady-owed :
    {s t : Session} (extra later : List ℕ)
    → Steady s t
    → (s.is_open ≡ true → later ≡ unsent s.write_queue ++ extra)
    → (s.is_open ≡ false → new_bytes s t ≡ [])
    → (left : List ℕ) × (later ≡ new_bytes s t ++ left)
      × (t.is_open ≡ true → left ≡ unsent t.write_queue ++ extra)
Steady-owed {s} {t} extra later p owed quiet = elim (Bool-cases s.is_open) [
  | inr down ↦ (later, ap (λ b. b ++ later) (sym (quiet down)), λ up. absurd (cc (p.was_open up)))
  | inl up ↦ (
    unsent t.write_queue ++ (p.lost ++ extra),
    owed up
        ∙ ap (λ b. b ++ extra) (sym p.works.bytes)
        ∙ append_assoc (on_wire p.works.more) (unsent t.write_queue ++ p.lost) extra
        ∙ ap (λ b. on_wire p.works.more ++ b) (append_assoc (unsent t.write_queue) p.lost extra)
        ∙ ap (λ b. b ++ (unsent t.write_queue ++ (p.lost ++ extra)))
            (sym (new_bytes-more s t p.works.more p.works.calls)),
    λ still. ap (λ l. unsent t.write_queue ++ (l ++ extra)) (p.kept still),
  )
]

stream-append : (ms ns : List RpcMessage) → stream (ms ++ ns) ≡ stream ms ++ stream ns
stream-append [] ns = refl
stream-append (m ∷ ms) ns =
    ap (λ b. frame m ++ b) (stream-append ms ns)
    ∙ sym (append_assoc (frame m) (stream ms) (stream ns))

All-append :
    (ms : List RpcMessage) (m : RpcMessage)
    → All IsSendable ms
    → IsSendable m
    → All IsSendable (ms ++ m ∷ [])
All-append [] m a s = (s, tt)
All-append (n ∷ ms) m a s = (a.0, All-append ms m a.1 s)

-- One more message is said.
pub Hearing-say :
    {s : Session} (all : List RpcMessage) (coming : List ℕ) (m : RpcMessage)
    → IsSendable m
    → Hearing all coming s
    → Hearing (all ++ m ∷ []) (coming ++ frame m) s
Hearing-say {s} all coming m sendable h = record {
  rest = h.rest ++ m ∷ [];
  split = sym (append_assoc (messages s.calls) h.rest (m ∷ [])) ∙ ap (λ l. l ++ m ∷ []) h.split;
  sendable = All-append h.rest m h.sendable sendable;
  ahead = λ up.
      sym (append_assoc s.read_buffer coming (frame m))
      ∙ ap (λ b. b ++ frame m) (h.ahead up)
      ∙ ap (λ b. stream h.rest ++ b) (sym (append-nil (frame m)))
      ∙ sym (stream-append h.rest (m ∷ []));
  idle = h.idle;
}

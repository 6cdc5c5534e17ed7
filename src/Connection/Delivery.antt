-- ===== src/Connection/Delivery.antt =====
-- What the ends hear of each other.
use insist.Base.{ℕ, ◌≡◌, refl, sym, ap, ◌∙◌, true, List, [], ◌∷◌, ◌++◌, append-nil, All}
use insist.Message.{RpcMessage}
use insist.Session.{wait, next_message}
use insist.Session.Outgoing.{unsent}
use insist.Session.Delivery.{IsSendable, stream, next_message-frame}
use insist.Session.Eof.{messages}
use insist.Connection.{Port, Step, left, right, Reach, here, next, IsFresh}
use insist.Connection.Flow.{Flow, frames, IsFresh-Flow}
use insist.Connection.Moves.{Move-Flow}

-- The messages in both directions.
abbrev Flows : Port × Port → Type 0
Flows (x, y) = Flow x y × Flow y x

Step-Flows : {p q : Port × Port} → Step p q → Flows p → Flows q
Step-Flows (left m) (f, g) = Move-Flow m f g
Step-Flows (right m) (f, g) = let (g', f') = Move-Flow m g f in (f', g')

pub Reach-Flows : {p q : Port × Port} → Reach p q → Flows p → Flows q
Reach-Flows here f = f
Reach-Flows (next r s) f = Step-Flows s (Reach-Flows r f)

-- The same steps with the ends exchanged.
pub Reach-swap : {x y x' y' : Port} → Reach (x, y) (x', y') → Reach (y, x) (y', x')
Reach-swap here = here
Reach-swap (next r (left m)) = next (Reach-swap r) (right m)
Reach-swap (next r (right m)) = next (Reach-swap r) (left m)

abbrev pub heard : Port → List RpcMessage
heard y = messages y.session.calls

-- Two ends at which nothing has happened yet, and then any steps of both, in any order and with any
-- answers of the system, that say messages with fields in the ranges of their C++ types and a status
-- that is not negative: what an end has heard is a prefix of what the other has said, in both
-- directions, so that no message is lost in between, changed, doubled or overtaken.
pub Reach-in_order :
    {x y x' y' : Port}
    → IsFresh x
    → IsFresh y
    → Reach (x, y) (x', y')
    → ((rest : List RpcMessage) × (heard y' ++ rest ≡ x'.said))
      × ((rest : List RpcMessage) × (heard x' ++ rest ≡ y'.said))
Reach-in_order {x} {y} fx fy r =
    let (f, g) = Reach-Flows r (IsFresh-Flow x y fx fy, IsFresh-Flow y x fy fx) in
    ((f.hearing.rest, f.hearing.split), (g.hearing.rest, g.hearing.split))

-- A buffer without a whole frame that is a stream of frames is empty.
no_more :
    (buffer : List ℕ) (ms : List RpcMessage)
    → buffer ≡ stream ms
    → All IsSendable ms
    → next_message buffer ≡ wait
    → ms ≡ []
no_more buffer [] e a idle = refl
no_more buffer (m ∷ ms) e a idle =
    absurd (cc (ap next_message e, next_message-frame m (stream ms) a.0, idle))

-- Where the first end has nothing to send, what the second will hear is in its buffer or on its way.
pub all_there :
    {x y : Port} (f : Flow x y)
    → x.session.is_open ≡ true
    → y.session.is_open ≡ true
    → x.posted ≡ []
    → x.session.write_queue ≡ []
    → y.session.read_buffer ++ y.arriving ≡ stream f.hearing.rest
all_there {x} {y} f xo yo posted queue =
    let nothing_later =
      f.owed xo ∙ ap (λ q. unsent q ++ frames x.posted) queue ∙ ap frames posted in
    ap (λ l. y.session.read_buffer ++ l)
      (sym (append-nil y.arriving) ∙ ap (λ l. y.arriving ++ l) (sym nothing_later))
    ∙ f.hearing.ahead yo

-- Two ends at which nothing has happened yet, and then any steps of both, in any order and with any
-- answers of the system, that say messages with fields in the ranges of their C++ types and a status
-- that is not negative. If both ends are open then, no task waits at the first, its queue is empty,
-- and no byte is on its way to the second: the second has heard all that the first has said.
pub Reach-settled :
    {x y x' y' : Port}
    → IsFresh x
    → IsFresh y
    → Reach (x, y) (x', y')
    → x'.session.is_open ≡ true
    → y'.session.is_open ≡ true
    → x'.posted ≡ []
    → x'.session.write_queue ≡ []
    → y'.arriving ≡ []
    → heard y' ≡ x'.said
Reach-settled {x} {y} {x'} {y'} fx fy r xo yo posted queue arriving =
    let f = (Reach-Flows r (IsFresh-Flow x y fx fy, IsFresh-Flow y x fy fx)).0 in
    let buffered =
      sym (append-nil y'.session.read_buffer)
      ∙ ap (λ l. y'.session.read_buffer ++ l) (sym arriving)
      ∙ all_there f xo yo posted queue in
    sym (append-nil (heard y'))
    ∙ ap (λ l. heard y' ++ l)
        (sym (no_more _ f.hearing.rest buffered f.hearing.sendable (f.hearing.idle yo)))
    ∙ f.hearing.split

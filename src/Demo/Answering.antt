-- ===== src/Demo/Answering.antt =====
-- The demo server and any client: from the welcome to the answers.
use insist.Base.{
  ℕ, ◌≤◌, ◌≡◌, sym, ap, subst, ◌∙◌, arith, true, List, [], ◌∷◌, ◌++◌, length, length-append, All,
  All-append, none,
}
use insist.Message.{RpcMessage, IsByte, IsTyped}
use insist.Wire.Format.{encode-short}
use insist.Session.Delivery.{IsSendable}
use insist.Connection.{Port, says, right, here, next, IsFresh}
use insist.Connection.Saying.{say-cases}
use insist.Connection.Delivery.{heard, Reach-swap, Reach-in_order, Reach-settled}
use insist.Demo.{codes}
use insist.Demo.Serving.{welcome, greet_session, Served, Answered, nothing}
use insist.Demo.System.{ServesAll, Served-Serving, say-heard}

welcome-IsTyped :
    (digits : List ℕ) → All IsByte digits → length digits ≤ 20 → IsTyped (welcome digits)
welcome-IsTyped digits bytes short = record {
  id_u64 = omega arith;
  kind_u32 = omega arith;
  service_text = omega arith;
  method_text = omega arith;
  payload_text = record {
    bytes = All-append IsByte (codes "welcome, session #") digits (omega arith) bytes;
    fits = omega (arith, short, length-append (codes "welcome, session #") digits);
  };
  status_i32 = omega arith;
  error_text = omega arith;
}

pub welcome-IsSendable :
    (digits : List ℕ) → All IsByte digits → length digits ≤ 20 → IsSendable (welcome digits)
welcome-IsSendable digits bytes short = record {
  typed = welcome-IsTyped digits bytes short;
  status = omega arith;
  fits = omega (
    arith,
    encode-short (welcome digits) (welcome-IsTyped digits bytes short),
    length-append (codes "welcome, session #") digits,
    short,
  );
}

module _ {x0 y0 : Port} (digits : List ℕ) (fx : IsFresh x0) (fy : IsFresh y0) where
  -- The server has greeted the client.
  greeted :
      IsSendable (welcome digits) → ServesAll fx fy (welcome digits) (x0, greet_session digits y0)
  unfolding greet_session
  greeted sendable = record {
    reached = next here (right (says (welcome digits) none sendable.typed sendable.status));
    sendable = subst (All IsSendable) (sym fx.none_said) tt;
    replies = [];
    said =
        say-cases (λ p. p.said ≡ welcome digits ∷ []) (welcome digits) none y0
          (λ long. absurd (omega (arith, long, sendable.fits)))
          (λ _. ap (λ l. l ++ welcome digits ∷ []) fy.none_said);
    served =
        subst (λ l. Answered l []) (sym (say-heard (welcome digits) none y0 ∙ fy.unheard)) nothing;
  }

  -- Where the two ends have got to.
  greet-Served :
      {x y : Port}
      → All IsByte digits
      → length digits ≤ 20
      → Served (x0, greet_session digits y0) (x, y)
      → ServesAll fx fy (welcome digits) (x, y)
  greet-Served bytes short served =
      Served-Serving fx fy (welcome digits) served (greeted (welcome-IsSendable digits bytes short))

-- The demo server greets a client whose session is new, on a new session of its own whose number takes
-- at most 20 bytes, and then any steps of both follow: the client sends any messages with fields in
-- the ranges of their C++ types and a status that is not negative, and closes when it wants, the loops
-- run tasks and dispatch events in any order, with any answers of the system. Then the messages that
-- the server has heard are a prefix of those that the client has said, and those that the client has
-- heard are a prefix of the welcome and the server's answers to the messages that it has heard: one to
-- each request whose answer is within the limit, in the order of the requests, and none to any other
-- message.
pub greet-in_order :
    {x0 y0 x y : Port} (digits : List ℕ)
    → All IsByte digits
    → length digits ≤ 20
    → IsFresh x0
    → IsFresh y0
    → Served (x0, greet_session digits y0) (x, y)
    → (replies : List RpcMessage) × Answered (heard y) replies
      × ((rest : List RpcMessage) × (heard y ++ rest ≡ x.said))
      × ((rest : List RpcMessage) × (heard x ++ rest ≡ welcome digits ∷ replies))
greet-in_order digits bytes short fx fy served =
    let g = greet-Served digits fx fy bytes short served in
    let (there, (rest, back)) = Reach-in_order fx fy g.reached in
    (g.replies, g.served, there, (rest, back ∙ g.said))

-- The demo server greets a client whose session is new, on a new session of its own whose number takes
-- at most 20 bytes, and then any steps of both follow, as they do for any client that sends messages
-- with fields in the ranges of their C++ types and a status that is not negative. If both ends are
-- open then, no task waits at either, both queues are empty and no byte is on its way: the client has
-- heard the welcome and then the answers to all the messages that it has said, one to each request
-- whose answer is within the limit, in the order of the requests, and none to any other message.
pub greet-settled :
    {x0 y0 x y : Port} (digits : List ℕ)
    → All IsByte digits
    → length digits ≤ 20
    → IsFresh x0
    → IsFresh y0
    → Served (x0, greet_session digits y0) (x, y)
    → x.session.is_open ≡ true
    → y.session.is_open ≡ true
    → (x.posted ≡ []) × (y.posted ≡ [])
    → (x.session.write_queue ≡ []) × (y.session.write_queue ≡ [])
    → (x.arriving ≡ []) × (y.arriving ≡ [])
    → (replies : List RpcMessage) × Answered x.said replies × (heard x ≡ welcome digits ∷ replies)
greet-settled digits bytes short fx fy served xo yo posted queues arriving =
    let g = greet-Served digits fx fy bytes short served in
    let there = Reach-settled fx fy g.reached xo yo posted.0 queues.0 arriving.1 in
    let back = Reach-settled fy fx (Reach-swap g.reached) yo xo posted.1 queues.1 arriving.0 in
    (g.replies, subst (λ l. Answered l g.replies) there g.served, back ∙ g.said)

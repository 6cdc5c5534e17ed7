-- ===== src/Connection.antt =====
-- Two sessions (src/session.cpp) at the ends of one connection, each on its own event loop: messages are
-- sent, tasks are run in the order in which they were posted, events are dispatched, in any order on
-- both sides. The bytes that one socket takes arrive at the other in their order; when, and in which
-- pieces, is left open, as is what each system call answers.
pub mod Saying
pub mod Flow
pub mod Moves
pub mod Delivery
pub mod Turns
pub mod Progress
mod Runs
use insist.Base.{
  ℕ, ◌≡◌, Bool, true, false, if◌then◌else◌, List, [], ◌∷◌, ◌++◌, length, drop, Option, none, some,
}
use insist.Message.{RpcMessage, IsTyped}
use insist.Wire.Total.{IsNonNegative}
use insist.Session.{
  Session, Events, Receives, Sends, handle_events, Task, close_session, send, run_task,
}
use insist.Session.Outgoing.{on_wire}
use insist.Session.Segments.{arrivals}
use insist.Session.Eof.{messages}
use insist.Session.Hearing.{reads}

-- One end: its session and the tasks that wait on its loop, the messages that `send` has accepted so
-- far, and the bytes that are on their way to it.
pub record Port : Type 0 where
  pub session : Session
  pub posted : List Task
  pub said : List RpcMessage
  pub arriving : List ℕ

-- The bytes that the socket took while the session went from `s` to `t`.
unfoldable pub new_bytes : Session → Session → List ℕ
new_bytes s t = on_wire (drop (length s.calls) t.calls)

abbrev pub gets : List ℕ → Port → Port
gets bytes y = record y { arriving = y.arriving ++ bytes }

-- `Session::send`; a message over the limit is refused.
unfoldable pub say : RpcMessage → Option ℕ → Port → Port
say m handler x =
    let sent = send m handler x.session in
    elim sent.1 [
      | none ↦ record x { session = sent.0 }
      | some task ↦ record x {
        session = sent.0;
        posted = x.posted ++ task ∷ [];
        said = x.said ++ m ∷ [];
      }
    ]

-- The loop runs the first task.
abbrev pub ran : Task → List Task → Sends → Port → Port
ran task others w x = record x { session = run_task task w x.session; posted = others }

-- The loop dispatches events; `coming` is what `::recv` does not take.
abbrev pub dispatched : Events → Receives → Sends → List ℕ → Port → Port
dispatched e r w coming x = record x {
  session = handle_events e r w x.session;
  arriving = if reads e x.session then coming else x.arriving;
}

-- `Session::close`
abbrev pub closing : Port → Port
closing x = record x { posted = x.posted ++ close_session ∷ [] }

-- What the end `x` can do; `y` is the other end.
pub data Move (x y : Port) : Port → Port → Type 0 where
  says :
      (m : RpcMessage) (handler : Option ℕ)
      → IsTyped m
      → IsNonNegative m.status
      → Move x y (say m handler x) y
  hangs_up : Move x y (closing x) y
  runs :
      (task : Task) (others : List Task) (w : Sends)
      → x.posted ≡ task ∷ others
      → Move x y (ran task others w x) (gets (new_bytes x.session (ran task others w x).session) y)
  -- What `::recv` gives is the front of what is on its way.
  dispatches :
      (e : Events) (r : Receives) (w : Sends) (coming : List ℕ)
      → x.arriving ≡ arrivals r ++ coming
      → Move x y
          (dispatched e r w coming x)
          (gets (new_bytes x.session (dispatched e r w coming x).session) y)

pub data Step : Port × Port → Port × Port → Type 0 where
  left : {x y x' y' : Port} → Move x y x' y' → Step (x, y) (x', y')
  right : {x y x' y' : Port} → Move y x y' x' → Step (x, y) (x', y')

pub data Reach (p : Port × Port) : Port × Port → Type 0 where
  here : Reach p p
  next : {q r : Port × Port} → Reach p q → Step q r → Reach p r

-- An end at which nothing has happened yet, with a message handler.
pub record IsFresh (x : Port) : Type 0 where
  pub handler : (h : ℕ) × (x.session.message_handler ≡ some h)
  pub unheard : messages x.session.calls ≡ []
  pub no_buffer : x.session.read_buffer ≡ []
  pub no_queue : x.session.write_queue ≡ []
  pub none_posted : x.posted ≡ []
  pub none_said : x.said ≡ []
  pub none_arriving : x.arriving ≡ []

-- ===== src/Connection/Turns.antt =====
-- What the loops of src/event_loop.cpp do by themselves at the two ends: a task that waits is run, or
-- `epoll` reports an event that the session has asked for and the socket gives and takes bytes.
use insist.Base.{ℕ, ◌<◌, ◌≡◌, true, List, ◌∷◌, ◌++◌, length}
use insist.Session.{Session, Events, Receives, Sends, Task, send_frame, close_session, message_size}
use insist.Session.Valid.{Honest}
use insist.Session.Silent.{queued}
use insist.Session.Segments.{arrivals}
use insist.Session.Polling.{
  Watched, Reported, Pieces, handle_events-Watched, run_task-Watched, emit_for-Watched,
}
use insist.Connection.{
  Port, new_bytes, gets, Move, says, hangs_up, runs, dispatches, ran, dispatched, left, right,
  Reach, here, next,
}
use insist.Connection.Saying.{say-cases}

-- `::send` takes no more of the queue than there is when a task runs.
abbrev pub Offered : Sends → Task → Session → Type 0
Offered w (send_frame bytes handler) s = Honest w (queued bytes handler s).write_queue
Offered w close_session s = Unit {0}

-- One turn of the loop of `x`. `epoll` reports nothing that is not registered, and input only where
-- there is some; `::recv` gives 1 to 8192 bytes at a time.
pub data Turn (x y : Port) : Port → Port → Type 0 where
  task_runs :
      (task : Task) (others : List Task) (w : Sends)
      → x.posted ≡ task ∷ others
      → Offered w task x.session
      → Turn x y (ran task others w x) (gets (new_bytes x.session (ran task others w x).session) y)
  events_come :
      (e : Events) (r : Receives) (w : Sends) (coming : List ℕ)
      → x.arriving ≡ arrivals r ++ coming
      → Reported e x.session
      → (e.readable ≡ true → 0 < length x.arriving)
      → Pieces r
      → Honest w x.session.write_queue
      → Turn x y
          (dispatched e r w coming x)
          (gets (new_bytes x.session (dispatched e r w coming x).session) y)

Turn-Move : {x y x' y' : Port} → Turn x y x' y' → Move x y x' y'
Turn-Move (task_runs task others w waits offered) = runs task others w waits
Turn-Move (events_come e r w coming front reported some_input pieces honest) =
    dispatches e r w coming front

-- Turns of both loops, in any order.
pub data Turns (p : Port × Port) : Port × Port → Type 0 where
  none_yet : Turns p p
  left_turn : {x y x' y' : Port} → Turns p (x, y) → Turn x y x' y' → Turns p (x', y')
  right_turn : {x y x' y' : Port} → Turns p (x, y) → Turn y x y' x' → Turns p (x', y')

pub Reach-Turns : {p q r : Port × Port} → Reach p q → Turns q r → Reach p r
Reach-Turns a none_yet = a
Reach-Turns a (left_turn t m) = next (Reach-Turns a t) (left (Turn-Move m))
Reach-Turns a (right_turn t m) = next (Reach-Turns a t) (right (Turn-Move m))

pub Turns-trans : {p q r : Port × Port} → Turns p q → Turns q r → Turns p r
Turns-trans a none_yet = a
Turns-trans a (left_turn t m) = left_turn (Turns-trans a t) m
Turns-trans a (right_turn t m) = right_turn (Turns-trans a t) m

-- Both sessions have asked for what they need.
abbrev Both : Port × Port → Type 0
Both (x, y) = Watched x.session × Watched y.session

Move-Watched :
    {x y x' y' : Port}
    → Move x y x' y'
    → Watched x.session
    → Watched y.session
    → Watched x'.session × Watched y'.session
Move-Watched {x} (says m handler typed status) a b = (
  say-cases (λ p. Watched p.session) m handler x
      (λ _. emit_for-Watched handler message_size x.session a) (λ _. a),
  b,
)
Move-Watched hangs_up a b = (a, b)
Move-Watched {x} (runs task others w e) a b = (run_task-Watched task w x.session a, b)
Move-Watched {x} (dispatches e r w coming front) a b = (handle_events-Watched e r w x.session a, b)

pub Reach-Watched : {p q : Port × Port} → Reach p q → Both p → Both q
Reach-Watched here a = a
Reach-Watched (next r (left m)) a = let (f, g) = Reach-Watched r a in Move-Watched m f g
Reach-Watched (next r (right m)) a =
    let (f, g) = Reach-Watched r a in let (g', f') = Move-Watched m g f in (f', g')

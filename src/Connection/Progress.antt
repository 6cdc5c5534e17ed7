-- ===== src/Connection/Progress.antt =====
-- Nothing that an end says gets stuck: the tasks, the socket and the other end can carry it over.
use insist.Base.{
  ℕ, ◌<◌, ◌≡◌, ◌-◌, refl, sym, ap, subst, ◌∙◌, arith, true, List, [], ◌∷◌, ◌++◌, append-nil, length,
  All, All-append, if◌then◌else◌, map,
}
use insist.Message.{RpcMessage}
use insist.Wire.{encode}
use insist.Framing.Pop.{length-make_frame}
use insist.Session.{
  Session, OutgoingFrame, Receives, Sends, Task, send_frame, close_session, on_message,
  handle_events,
}
use insist.Session.Segments.{arrivals}
use insist.Session.Delivery.{frame}
use insist.Session.Hearing.{reads}
use insist.Session.Valid.{Honest, after}
use insist.Session.Flush.{
  Unfinished, takes, readable, writable, handle_events-takes, run_task-would_block,
  handle_events-arrivals,
}
use insist.Session.Polling.{
  Watched, readable-Reported, writable-Reported, bytewise, bytewise-Pieces, bytewise-Blocks,
  bytewise-arrivals,
}
use insist.Connection.{
  Port, new_bytes, gets, Move, says, hangs_up, runs, dispatches, ran, dispatched, left, right,
  Reach, here, next, IsFresh,
}
use insist.Connection.Flow.{Flow, IsFresh-Flow}
use insist.Connection.Saying.{say-cases}
use insist.Connection.Delivery.{Reach-Flows, all_there, heard, Reach-settled}
use insist.Connection.Turns.{
  task_runs, events_come, Turns, none_yet, left_turn, right_turn, Reach-Turns, Turns-trans,
  Reach-Watched,
}

-- A task that sends has bytes to send.
abbrev HasBytes : Task → Type 0
HasBytes (send_frame bytes handler) = 0 < length bytes
HasBytes close_session = Unit {0}

abbrev pub StaysOpen : Task → Type 0
StaysOpen (send_frame bytes handler) = Unit {0}
StaysOpen close_session = ⊥

frame-some : (m : RpcMessage) → 0 < length (frame m)
frame-some m = omega (arith, length-make_frame (encode m))

Move-HasBytes : {x y x' y' : Port} → Move x y x' y' → All HasBytes x.posted → All HasBytes x'.posted
Move-HasBytes {x} (says m handler typed status) a =
    say-cases (λ p. All HasBytes p.posted) m handler x (λ _. a)
      (λ _. All-append HasBytes x.posted (send_frame (frame m) handler ∷ []) a (frame-some m, tt))
Move-HasBytes {x} hangs_up a = All-append HasBytes x.posted (close_session ∷ []) a (tt, tt)
Move-HasBytes (runs task others w e) a = (subst (All HasBytes) e a).1
Move-HasBytes (dispatches e r w coming front) a = a

Move-posted : {x y x' y' : Port} → Move x y x' y' → y'.posted ≡ y.posted
Move-posted (says m handler typed status) = refl
Move-posted hangs_up = refl
Move-posted (runs task others w e) = refl
Move-posted (dispatches e r w coming front) = refl

Reach-HasBytes :
    {x y x' y' : Port} → Reach (x, y) (x', y') → All HasBytes x.posted → All HasBytes x'.posted
Reach-HasBytes here a = a
Reach-HasBytes (next r (left m)) a = Move-HasBytes m (Reach-HasBytes r a)
Reach-HasBytes (next r (right m)) a =
    subst (All HasBytes) (sym (Move-posted m)) (Reach-HasBytes r a)

-- The first end has run its tasks, and the session of the second has not moved.
record Pumped (x y : Port) : Type 0 where
  one : Port
  other : Port
  turns : Turns (x, y) (one, other)
  up : one.session.is_open ≡ true
  queue : All Unfinished one.session.write_queue
  posted : one.posted ≡ []
  said : one.said ≡ x.said
  still : other.session ≡ y.session

pump :
    (ts : List Task) (x y : Port)
    → x.posted ≡ ts
    → All HasBytes ts
    → All StaysOpen ts
    → x.session.is_open ≡ true
    → All Unfinished x.session.write_queue
    → Pumped x y
pump [] x y e b c up u = record {
  one = x;
  other = y;
  turns = none_yet;
  up = up;
  queue = u;
  posted = e;
  said = refl;
  still = refl;
}
pump (close_session ∷ ts) x y e b c up u = absurd c.0
pump (send_frame bytes handler ∷ ts) x y e b c up u =
    let t = send_frame bytes handler in
    let x1 = ran t ts Sends.would_block x in
    let y1 = gets (new_bytes x.session x1.session) y in
    let (up1, queue1) = run_task-would_block bytes handler x.session up in
    let frames =
      subst (All Unfinished) (sym queue1)
        (All-append Unfinished x.session.write_queue _ u (b.0, tt)) in
    let p = pump ts x1 y1 refl b.1 c.1 up1 frames in
    record {
      one = p.one;
      other = p.other;
      turns = Turns-trans (left_turn none_yet (task_runs t ts Sends.would_block e tt)) p.turns;
      up = p.up;
      queue = p.queue;
      posted = p.posted;
      said = p.said;
      still = p.still;
    }

reads-readable : (s : Session) → s.is_open ≡ true → reads readable s ≡ true
unfolding reads
reads-readable s up = rw up refl

waits : (bytes : List ℕ) → bytes ≡ arrivals Receives.would_block ++ bytes
unfolding arrivals
waits bytes = refl

takes-Honest : (q : List OutgoingFrame) → All Unfinished q → Honest (takes q) q
unfolding takes
takes-Honest [] u = tt
takes-Honest (f ∷ rest) u =
    (ground (arith, u.0), subst (Honest (takes rest)) (all_of f rest u.0) (takes-Honest rest u.1))
  where
    all_of :
        (f : OutgoingFrame) (rest : List OutgoingFrame)
        → Unfinished f
        → rest ≡ after (length f.bytes - f.written) f rest
    all_of f rest u = ground arith

-- And its queue has been written.
record Flushed (x y : Port) : Type 0 where
  one : Port
  other : Port
  turns : Turns (x, y) (one, other)
  up : one.session.is_open ≡ true
  empty : one.session.write_queue ≡ []
  posted : one.posted ≡ []
  said : one.said ≡ x.said
  still : other.session ≡ y.session

flush :
    (q : List OutgoingFrame) (x y : Port)
    → x.session.write_queue ≡ q
    → x.posted ≡ []
    → x.session.is_open ≡ true
    → All Unfinished x.session.write_queue
    → Watched x.session
    → Flushed x y
flush [] x y e posted up u h = record {
  one = x;
  other = y;
  turns = none_yet;
  up = up;
  empty = e;
  posted = posted;
  said = refl;
  still = refl;
}
flush (f ∷ rest) x y e posted up u h =
    let w = takes x.session.write_queue in
    let flushed = handle_events-takes Receives.would_block x.session u up in
    let x1 = dispatched writable Receives.would_block w x.arriving x in
    record {
      one = x1;
      other = gets (new_bytes x.session x1.session) y;
      turns = left_turn none_yet (
          events_come writable Receives.would_block w x.arriving (waits x.arriving)
            (writable-Reported f rest x.session up e h) (λ no_read. absurd (cc no_read)) tt
            (takes-Honest x.session.write_queue u));
      up = flushed.0;
      empty = flushed.1;
      posted = posted;
      said = refl;
      still = refl;
    }

-- The second end has read what was on its way, and the first has not said anything.
record Drained (x y : Port) : Type 0 where
  one : Port
  other : Port
  turns : Turns (x, y) (one, other)
  up : one.session.is_open ≡ true
  other_up : other.session.is_open ≡ true
  empty : one.session.write_queue ≡ []
  posted : one.posted ≡ []
  said : one.said ≡ x.said
  read : other.arriving ≡ []

read_up :
    (bytes : List ℕ) (x y : Port)
    → y.arriving ≡ bytes
    → Flow x y
    → x.session.is_open ≡ true
    → y.session.is_open ≡ true
    → x.posted ≡ []
    → x.session.write_queue ≡ []
    → Watched y.session
    → Drained x y
read_up [] x y e f xo yo posted empty h = record {
  one = x;
  other = y;
  turns = none_yet;
  up = xo;
  other_up = yo;
  empty = empty;
  posted = posted;
  said = refl;
  read = e;
}
read_up (b ∷ bs) x y e f xo yo posted empty h =
    let r = bytewise y.arriving in
    let y1 = dispatched readable r Sends.would_block [] y in
    record {
      one = gets (new_bytes y.session y1.session) x;
      other = y1;
      turns = right_turn none_yet (
          events_come readable r Sends.would_block []
            (sym (bytewise-arrivals y.arriving) ∙ sym (append-nil (arrivals r)))
            (readable-Reported y.session yo h)
            (λ _. subst (λ l. 0 < length l) (sym e) (omega arith)) (bytewise-Pieces y.arriving) tt);
      up = xo;
      other_up = ap (λ s. s.is_open) heard_all ∙ yo;
      empty = empty;
      posted = posted;
      said = refl;
      read = ap (λ c. if c then [] else y.arriving) (reads-readable y.session yo);
    }
  where
    heard_all :
        handle_events readable (bytewise y.arriving) Sends.would_block y.session
        ≡ record y.session {
          read_buffer = [];
          calls = y.session.calls ++ map (on_message f.handler.0) f.hearing.rest;
        }
    heard_all =
        handle_events-arrivals f.handler.0 f.hearing.rest (bytewise y.arriving) y.session yo
          (bytewise-Blocks y.arriving)
          (ap (λ l. y.session.read_buffer ++ l) (bytewise-arrivals y.arriving)
            ∙ all_there f xo yo posted empty)
          f.handler.1 f.hearing.sendable

-- Two ends at which nothing has happened yet, whose sessions have registered what they need with
-- `epoll`, and then any steps of both, in any order and with any answers of the system, that say
-- messages with fields in the ranges of their C++ types and a status that is not negative. If both
-- ends are open then, no task that waits at the first closes it, and each frame in its queue has bytes
-- that are not written yet: there are further turns of the two loops, after which the second end has
-- heard all that the first has said until now. In such a turn a task that waits is run, or `epoll`
-- reports events that the mask last registered for the session has and input only where bytes are on
-- their way, `::recv` gives between 1 and 8192 of these at a time, and `::send` takes no more than it
-- is given.
pub Reach-delivers :
    {x y x' y' : Port}
    → IsFresh x
    → IsFresh y
    → Watched x.session
    → Watched y.session
    → Reach (x, y) (x', y')
    → x'.session.is_open ≡ true
    → y'.session.is_open ≡ true
    → All Unfinished x'.session.write_queue
    → All StaysOpen x'.posted
    → (x'' : Port) × (y'' : Port) × Turns (x', y') (x'', y'') × (heard y'' ≡ x'.said)
Reach-delivers {x} {y} {x'} {y'} fx fy wx wy r xo yo unfinished calm = (
  d.one,
  d.other,
  Turns-trans (Turns-trans p.turns s.turns) d.turns,
  Reach-settled fx fy (Reach-Turns flushed d.turns) d.up d.other_up d.posted d.empty d.read
      ∙ d.said
      ∙ s.said
      ∙ p.said,
)
  where
    p : Pumped x' y'
    p =
        pump x'.posted x' y' refl (Reach-HasBytes r (subst (All HasBytes) (sym fx.none_posted) tt))
          calm xo unfinished

    s : Flushed p.one p.other
    s =
        flush p.one.session.write_queue p.one p.other refl p.posted p.up p.queue
          (Reach-Watched (Reach-Turns r p.turns) (wx, wy)).0

    flushed : Reach (x, y) (s.one, s.other)
    flushed = Reach-Turns (Reach-Turns r p.turns) s.turns

    d : Drained s.one s.other
    d =
        read_up s.other.arriving s.one s.other refl
          (Reach-Flows flushed (IsFresh-Flow x y fx fy, IsFresh-Flow y x fy fx)).0 s.up
          (ap (λ t. t.is_open) (s.still ∙ p.still) ∙ yo) s.posted s.empty
          (Reach-Watched flushed (wx, wy)).1

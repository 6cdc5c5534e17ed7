-- ===== src/Demo/Serving.antt =====
-- examples/server_main.cpp: the handlers that `main` gives to the server, and the demo server at one
-- end of a connection with any client at the other. What the handlers print is left out.
use insist.Base.{
  suc, All, ℕ, ◌≤◌, ◌<◌, ◌≡◌, ◌==◌, if◌then◌else◌, false, List, [], ◌∷◌, ◌++◌, length, drop, none,
  some,
}
use insist.Message.{RpcMessage, blank, kind_request, kind_notify, IsByte}
use insist.Wire.{encode}
use insist.Framing.{max_frame_size}
use insist.Session.{Session, Events, Receives, Sends, Task}
use insist.Session.Segments.{arrivals}
use insist.Session.Eof.{messages}
use insist.Connection.{Port, new_bytes, gets, say, ran, dispatched, closing, Move}
use insist.Demo.{codes, handle_demo_request}

-- `digits` is what `std::to_string` makes of the number of the session.
abbrev pub welcome : List ℕ → RpcMessage
welcome digits = record blank {
  kind = kind_notify;
  service = codes "System";
  method = codes "welcome";
  payload = codes "welcome, session #" ++ digits;
}

-- The session handler.
unfoldable pub greet_session : List ℕ → Port → Port
greet_session digits y = say (welcome digits) none y

-- The write handler of an answer, which prints errors.
abbrev reporter : ℕ
reporter = 0

-- The message handler.
unfoldable pub serve : List ℕ → RpcMessage → Port → Port
serve clock m y =
    if m.kind == kind_request then say (handle_demo_request clock m) (some reporter) y else y

-- Every message is handled at a time of its own: `clocks` are what `std::ctime` gives in turn.
unfoldable pub serve_all : (clocks : ℕ → List ℕ) → List RpcMessage → Port → Port
serve_all clocks [] y = y
serve_all clocks (m ∷ ms) y = serve_all (λ n. clocks (suc n)) ms (serve (clocks 0) m y)

-- The text of `std::ctime` has 25 characters, as long as the year has four digits.
pub record IsClock (clock : List ℕ) : Type 0 where
  pub bytes : All IsByte clock
  pub size : length clock ≡ 25

-- The messages that the session gave to its message handler while it went from `s` to `t`.
unfoldable pub new_messages : Session → Session → List RpcMessage
new_messages s t = messages (drop (length s.calls) t.calls)

-- The client at the first end does anything; the server at the second is called by its loop, and may
-- be stopped.
pub data Serves : Port × Port → Port × Port → Type 0 where
  asks : {x y x' y' : Port} → Move x y x' y' → Serves (x, y) (x', y')
  writes :
      {x y : Port} (task : Task) (others : List Task) (w : Sends)
      → y.posted ≡ task ∷ others
      → Serves
          (x, y)
          (gets (new_bytes y.session (ran task others w y).session) x, ran task others w y)
  answers :
      {x y : Port} (clocks : ℕ → List ℕ) (e : Events) (r : Receives) (w : Sends) (coming : List ℕ)
      → ((n : ℕ) → IsClock (clocks n))
      → y.arriving ≡ arrivals r ++ coming
      → Serves
          (x, y)
          (
            gets (new_bytes y.session (dispatched e r w coming y).session) x,
            serve_all clocks
                (new_messages y.session (dispatched e r w coming y).session)
                (dispatched e r w coming y),
          )
  stops : {x y : Port} → Serves (x, y) (x, closing y)

pub data Served (p : Port × Port) : Port × Port → Type 0 where
  opened : Served p p
  then_serves : {q r : Port × Port} → Served p q → Serves q r → Served p r

-- The answers to some messages, in their order: one to each request, unless it would be over the
-- limit, and none to any other message.
pub data Answered : List RpcMessage → List RpcMessage → Type 0 where
  nothing : Answered [] []
  answered :
      {ms rs : List RpcMessage} (m : RpcMessage) (clock : List ℕ)
      → IsClock clock
      → m.kind ≡ kind_request
      → length (encode (handle_demo_request clock m)) ≤ max_frame_size
      → Answered ms rs
      → Answered (ms ++ m ∷ []) (rs ++ handle_demo_request clock m ∷ [])
  too_long :
      {ms rs : List RpcMessage} (m : RpcMessage) (clock : List ℕ)
      → IsClock clock
      → m.kind ≡ kind_request
      → max_frame_size < length (encode (handle_demo_request clock m))
      → Answered ms rs
      → Answered (ms ++ m ∷ []) rs
  no_request :
      {ms rs : List RpcMessage} (m : RpcMessage)
      → (m.kind == kind_request) ≡ false
      → Answered ms rs
      → Answered (ms ++ m ∷ []) rs

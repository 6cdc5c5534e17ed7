-- ===== src/Demo/Talk.antt =====
-- A client that calls `upper` on the demo server: every step, from the welcome to the answer.
use insist.Base.{
  ℕ, if◌then◌else◌, pos, ◌≡◌, refl, arith, true, List, [], ◌∷◌, ◌++◌, map, subst, ap, length, none,
  some,
}
use insist.Message.{RpcMessage, IsTyped, kind_request, kind_response}
use insist.Wire.{encode, write_varint, write_varint_loop, write_tag, write_length_delimited}
use insist.Framing.{make_frame, encode_frame_size}
use insist.Session.{
  Session, on_message, connection, set_message_handler, start, Sends, sent, send_frame,
}
use insist.Session.{run_task, send, async_write, update_events, write_loop, wrote}
use insist.Session.Hearing.{reads}
use insist.Session.Segments.{arrivals}
use insist.Session.Flush.{comes, readable, handle_events-stream}
use insist.Session.Delivery.{IsSendable, frame, stream}
use insist.Connection.{Port, gets, new_bytes, say, says, runs, dispatches, ran, IsFresh}
use insist.Connection.Delivery.{heard}
use insist.Demo.{codes, to_upper, same_text, response_to, not_found, handle_demo_request}
use insist.Demo.Serving.{
  IsClock, welcome, greet_session, serve, serve_all, new_messages, asks, writes, answers, Served,
  opened, then_serves, Answered,
}
use insist.Demo.Answering.{welcome-IsSendable, greet-in_order, greet-settled}

abbrev port : ℕ → Port
port fd = record {
  session = start (set_message_handler 1 (connection fd fd));
  posted = [];
  said = [];
  arriving = [];
}

port-IsFresh : (fd : ℕ) → IsFresh (port fd)
unfolding connection set_message_handler start
port-IsFresh fd = record {
  handler = (1, refl);
  unheard = refl;
  no_buffer = refl;
  no_queue = refl;
  none_posted = refl;
  none_said = refl;
  none_arriving = refl;
}

abbrev noon : List ℕ
noon = codes "Thu Jun 25 12:00:00 2026" ++ 10 ∷ []

noon-IsClock : IsClock noon
noon-IsClock = record { bytes = omega arith; size = refl }

abbrev four : List ℕ
four = codes "4"

-- `upper` of `hi`.
abbrev upper_hi : RpcMessage
upper_hi = record {
  id = 1;
  kind = kind_request;
  service = codes "DemoService";
  method = codes "upper";
  payload = codes "hi";
  status = pos 0;
  error = [];
}

upper_hi-IsTyped : IsTyped upper_hi
upper_hi-IsTyped = omega arith

abbrev takes_all : List ℕ → Sends
takes_all bytes = sent (length bytes) 0 Sends.would_block

abbrev asked : List ℕ
asked = frame upper_hi

abbrev x1 : Port
x1 = say upper_hi none (port 3)

abbrev y1 : Port
y1 = greet_session four (port 4)

abbrev x2 : Port
x2 = ran (send_frame asked none) [] (takes_all asked) x1

abbrev y2 : Port
y2 = gets (new_bytes x1.session x2.session) y1

abbrev greeting : List ℕ
greeting = frame (welcome four)

abbrev y3 : Port
y3 = ran (send_frame greeting none) [] (takes_all greeting) y2

abbrev x3 : Port
x3 = gets (new_bytes y2.session y3.session) x2

upper_hi-IsSendable : IsSendable upper_hi
unfolding encode write_varint write_varint_loop write_tag write_length_delimited
upper_hi-IsSendable = record { typed = upper_hi-IsTyped; status = omega arith; fits = omega arith }

-- The session of the server when it has heard the request.
abbrev asked_session : Session
asked_session = record y3.session {
  read_buffer = [];
  calls = y3.session.calls ++ map (on_message 1) (upper_hi ∷ []);
}

-- Both ends when the server's session has become `t` and the request has been answered.
abbrev answering : Session → Port × Port
answering t = (
  gets (new_bytes y3.session t) x3,
  serve_all (λ n. noon) (new_messages y3.session t)
      (record y3 { session = t; arriving = if reads readable y3.session then [] else y3.arriving }),
)

abbrev x4 : Port
x4 = (answering asked_session).0

abbrev y4 : Port
y4 = (answering asked_session).1

abbrev answer : RpcMessage
answer = record upper_hi { kind = kind_response; payload = codes "HI" }

abbrev told : List ℕ
told = frame answer

abbrev y5 : Port
y5 = ran (send_frame told (some 0)) [] (takes_all told) y4

abbrev x5 : Port
x5 = gets (new_bytes y4.session y5.session) x4

-- The client when it has heard the welcome and the answer.
abbrev greeted : Session
greeted = record x5.session {
  read_buffer = [];
  calls = x5.session.calls ++ map (on_message 1) (welcome four ∷ answer ∷ []);
}

abbrev hearing : Session → Port × Port
hearing t = (
  record x5 { session = t; arriving = if reads readable x5.session then [] else x5.arriving },
  gets (new_bytes x5.session t) y5,
)

abbrev x6 : Port
x6 = (hearing greeted).0

abbrev y6 : Port
y6 = (hearing greeted).1

-- What holds before the server answers.
before :
    (x1.posted ≡ send_frame asked none ∷ [])
    × (y2.posted ≡ send_frame greeting none ∷ [])
    × (y3.arriving ≡ arrivals (comes (stream (upper_hi ∷ []))) ++ [])
    × (y3.session.is_open ≡ true)
    × (y3.session.read_buffer ≡ [])
    × (y3.session.message_handler ≡ some 1)
unfolding greet_session say send encode make_frame encode_frame_size write_varint write_varint_loop
    write_tag write_length_delimited arrivals new_bytes run_task async_write update_events
    write_loop wrote start set_message_handler connection
before = (refl, refl, refl, refl, refl, refl)

-- What holds when it has answered.
after :
    (y4.posted ≡ send_frame told (some 0) ∷ [])
    × (x5.arriving ≡ arrivals (comes (stream (welcome four ∷ answer ∷ []))) ++ [])
    × (x5.session.is_open ≡ true)
    × (x5.session.read_buffer ≡ [])
    × (x5.session.message_handler ≡ some 1)
unfolding greet_session say send encode make_frame encode_frame_size write_varint write_varint_loop
    write_tag write_length_delimited arrivals new_bytes run_task async_write update_events
    write_loop wrote start set_message_handler connection reads serve_all serve new_messages
    handle_demo_request to_upper same_text response_to not_found
after = (refl, refl, refl, refl, refl)

four-IsSendable : IsSendable (welcome four)
four-IsSendable = welcome-IsSendable four (omega arith) (omega arith)

answer-IsSendable : IsSendable answer
unfolding encode write_varint write_varint_loop write_tag write_length_delimited
answer-IsSendable = record { typed = omega arith; status = omega arith; fits = omega arith }

-- Up to the answer.
answered_so_far : Served (port 3, greet_session four (port 4)) (x4, y4)
answered_so_far =
    subst (λ t. Served (port 3, greet_session four (port 4)) (answering t))
      (handle_events-stream 1 (upper_hi ∷ []) (stream (upper_hi ∷ [])) y3.session before.3
        (ap (λ b. b ++ stream (upper_hi ∷ [])) before.4) before.5 (upper_hi-IsSendable, tt))
      (then_serves greeting_sent (
        answers (λ n. noon) readable (comes (stream (upper_hi ∷ []))) Sends.would_block []
          (λ n. noon-IsClock) before.2))
  where
    asking : Served (port 3, y1) (x2, y2)
    asking =
        then_serves (then_serves opened (asks (says upper_hi none upper_hi-IsTyped (omega arith))))
          (asks (runs (send_frame asked none) [] (takes_all asked) before.0))

    greeting_sent : Served (port 3, y1) (x3, y3)
    greeting_sent =
        then_serves asking (writes (send_frame greeting none) [] (takes_all greeting) before.1)

-- To the end.
talked : Served (port 3, greet_session four (port 4)) (x6, y6)
talked =
    subst (λ t. Served (port 3, greet_session four (port 4)) (hearing t))
      (handle_events-stream 1 (welcome four ∷ answer ∷ []) (stream (welcome four ∷ answer ∷ []))
        x5.session after.2 (ap (λ b. b ++ stream (welcome four ∷ answer ∷ [])) after.3) after.4
        (four-IsSendable, (answer-IsSendable, tt)))
      (then_serves
        (then_serves answered_so_far
          (writes (send_frame told (some 0)) [] (takes_all told) after.0))
        (asks (
          dispatches readable (comes (stream (welcome four ∷ answer ∷ []))) Sends.would_block []
            after.1)))

at_the_end :
    (x6.session.is_open ≡ true)
    × (y6.session.is_open ≡ true)
    × ((x6.posted ≡ []) × (y6.posted ≡ []))
    × ((x6.session.write_queue ≡ []) × (y6.session.write_queue ≡ []))
    × ((x6.arriving ≡ []) × (y6.arriving ≡ []))
    × (heard x6 ≡ welcome four ∷ answer ∷ [])
unfolding greet_session say send encode make_frame encode_frame_size write_varint write_varint_loop
    write_tag write_length_delimited arrivals new_bytes run_task async_write update_events
    write_loop wrote start set_message_handler connection reads serve_all serve new_messages
    handle_demo_request to_upper same_text response_to not_found
at_the_end = (refl, refl, (refl, refl), (refl, refl), (refl, refl), refl)

greet-in_order_example :
    (replies : List RpcMessage) × Answered (heard y6) replies
    × ((rest : List RpcMessage) × (heard y6 ++ rest ≡ x6.said))
    × ((rest : List RpcMessage) × (heard x6 ++ rest ≡ welcome four ∷ replies))
greet-in_order_example =
    greet-in_order four (omega arith) (omega arith) (port-IsFresh 3) (port-IsFresh 4) talked

greet-settled_example :
    (replies : List RpcMessage) × Answered x6.said replies × (heard x6 ≡ welcome four ∷ replies)
greet-settled_example =
    greet-settled four (omega arith) (omega arith) (port-IsFresh 3) (port-IsFresh 4) talked
      at_the_end.0 at_the_end.1 at_the_end.2 at_the_end.3 at_the_end.4

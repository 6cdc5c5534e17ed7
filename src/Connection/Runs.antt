-- ===== src/Connection/Runs.antt =====
-- A message over a connection.
use insist.Base.{
  ℕ, All, subst, sym, ◌≡◌, refl, arith, if◌then◌else◌, true, false, List, [], ◌∷◌, ◌++◌, none,
}
use insist.Message.{RpcMessage, blank, IsTyped}
use insist.Wire.{encode, decode, decode_loop}
use insist.Framing.{make_frame, encode_frame_size, try_pop_frame, pop_sized, decode_frame_size}
use insist.Session.{
  Events, interest, connection, set_message_handler, start, Receives, received, Sends, sent,
  send_frame,
}
use insist.Session.{
  handle_events, run_task, send, async_write, update_events, write_loop, wrote, async_read, receive,
  after_receive, read_frames, next_message, popped_next, decoded_next, act,
}
use insist.Session.Hearing.{reads}
use insist.Session.Segments.{arrivals}
use insist.Connection.{
  Port, gets, new_bytes, say, says, runs, dispatches, left, right, Reach, here, next, IsFresh,
}
use insist.Connection.Delivery.{heard, Reach-in_order, Reach-settled}
use insist.Session.Flush.{Unfinished}
use insist.Session.Polling.{mask, Watched}
use insist.Connection.Turns.{Turns}
use insist.Connection.Progress.{StaysOpen, Reach-delivers}

abbrev port : ℕ → Port
port fd = record {
  session = start (set_message_handler 1 (connection fd fd));
  posted = [];
  said = [];
  arriving = [];
}

port-IsFresh : (fd : ℕ) → IsFresh (port fd)
unfolding connection set_message_handler start
port-IsFresh fd = record {
  handler = (1, refl);
  unheard = refl;
  no_buffer = refl;
  no_queue = refl;
  none_posted = refl;
  none_said = refl;
  none_arriving = refl;
}

blank-IsTyped : IsTyped blank
blank-IsTyped = ground arith

-- The left end says the blank message, whose encoding is empty and whose frame is a header of zeros.
abbrev said : Port
said = say blank none (port 3)

abbrev header : List ℕ
header = 0 ∷ 0 ∷ 0 ∷ 0 ∷ []

-- Its loop runs the task, and the socket takes the frame in two pieces.
abbrev takes_all : Sends
takes_all = sent 1 0 (sent 3 0 Sends.would_block)

abbrev sent_off : Port
sent_off = record said {
  session = run_task (send_frame header none) takes_all said.session;
  posted = [];
}

abbrev reached : Port
reached = gets (new_bytes said.session sent_off.session) (port 4)

abbrev readable : Events
readable = record (interest false) { read_hang_up = false }

-- The loop of the right end finds the socket readable.
abbrev read : Port
read = record reached {
  session =
      handle_events readable (received header Receives.would_block) Sends.would_block
        reached.session;
  arriving = if reads readable reached.session then [] else reached.arriving;
}

spoken : Reach (port 3, port 4) (said, port 4)
spoken = next here (left (says blank none blank-IsTyped (omega arith)))

waits : said.posted ≡ send_frame header none ∷ []
unfolding say send encode make_frame encode_frame_size
waits = refl

arrived : Reach (port 3, port 4) (sent_off, reached)
arrived = next spoken (left (runs (send_frame header none) [] takes_all waits))

on_its_way : reached.arriving ≡ arrivals (received header Receives.would_block) ++ []
unfolding arrivals new_bytes say send encode start set_message_handler connection run_task
    async_write update_events write_loop wrote
on_its_way = refl

delivered : Reach (port 3, port 4) (gets (new_bytes reached.session read.session) sent_off, read)
delivered = next arrived (
    right
      (dispatches readable (received header Receives.would_block) Sends.would_block [] on_its_way))

Reach-in_order_example :
    ((rest : List RpcMessage) × (heard reached ++ rest ≡ sent_off.said))
    × ((rest : List RpcMessage) × (heard sent_off ++ rest ≡ reached.said))
Reach-in_order_example = Reach-in_order (port-IsFresh 3) (port-IsFresh 4) arrived

still_open : (sent_off.session.is_open ≡ true) × (read.session.is_open ≡ true)
unfolding run_task say send encode start set_message_handler connection async_write update_events
    write_loop wrote handle_events async_read receive after_receive read_frames next_message
    new_bytes popped_next decoded_next act try_pop_frame pop_sized decode_frame_size decode
    decode_loop
still_open = (refl, refl)

settled : (sent_off.session.write_queue ≡ []) × (read.arriving ≡ [])
unfolding run_task say send encode start set_message_handler connection async_write update_events
    write_loop wrote reads
settled = (refl, refl)

Reach-settled_example : heard read ≡ sent_off.said
Reach-settled_example =
    Reach-settled (port-IsFresh 3) (port-IsFresh 4) delivered still_open.0 still_open.1 refl
      settled.0 settled.1

said_open :
    (said.session.is_open ≡ true)
    × (said.session.write_queue ≡ [])
    × ((port 4).session.is_open ≡ true)
unfolding say send encode start set_message_handler connection
said_open = (refl, refl, refl)

port-Watched : (fd : ℕ) → Watched (port fd).session
unfolding connection set_message_handler start mask
port-Watched fd = record { ready = λ up. (refl, (fd, refl)); asks = λ up. refl }

-- Nothing has been sent yet.
Reach-delivers_example :
    (x : Port) × (y : Port) × Turns (said, port 4) (x, y) × (heard y ≡ said.said)
Reach-delivers_example =
    Reach-delivers (port-IsFresh 3) (port-IsFresh 4) (port-Watched 3) (port-Watched 4) spoken
      said_open.0 said_open.2 (subst (All Unfinished) (sym said_open.1) tt)
      (subst (All StaysOpen) (sym waits) (tt, tt))

-- ===== src/Session.antt =====
-- include/minirpc/session.hpp and src/session.cpp: one connection.
-- A handler is a number that names the callable, and `none` an empty `std::function`. What a session
-- calls outside itself is kept in `calls`, in the order of the calls. A handler that runs inside a
-- call reaches the session only through `Session::send` and `Session::close`, which post a task.
pub mod Ledger
pub mod Valid
pub mod Dispatch
pub mod Outgoing
pub mod Incoming
pub mod Segments
pub mod Delivery
pub mod Eof
pub mod Works
pub mod Steady
pub mod Silent
pub mod Hearing
pub mod Flush
pub mod Polling
mod Runs
use insist.Base.{
  ℕ, zero, suc, ◌+◌, ◌<◌, ◌≡◌, Bool, true, false, ◌&&◌, ◌||◌, ltb, ◌==◌, not, if◌then◌else◌, List,
  [], ◌∷◌, ◌++◌, length, take, drop, is_empty, Option, none, some,
}
use insist.Message.{RpcMessage}
use insist.Wire.{Decoded, encode, decode, decoded, rejected, out_of_fuel}
use insist.Framing.{
  max_frame_size, make_frame, try_pop_frame, FrameReadResult, need_more, frame_ok, too_large,
}

-- The `std::error_code`s that the code makes; `os e` is `errno` in the generic category.
pub data ErrorCode : Type 0 where
  no_error message_size not_connected protocol_error : ErrorCode
  os : ℕ → ErrorCode

-- The event mask of `epoll`.
pub record Events : Type 0 where
  pub readable : Bool
  pub writable : Bool
  pub error : Bool
  pub hang_up : Bool
  pub read_hang_up : Bool

-- `EPOLLIN | EPOLLRDHUP`, and `EPOLLOUT` where it is wanted.
abbrev pub interest : Bool → Events
interest writable = record {
  readable = true;
  writable = writable;
  error = false;
  hang_up = false;
  read_hang_up = true;
}

pub data Call : Type 0 where
  loop_add : ℕ → Events → Call
  loop_modify : ℕ → Events → Call
  loop_remove : ℕ → Call
  close_fd : ℕ → Call
  -- `::send` took these bytes.
  socket_took : List ℕ → Call
  on_message : ℕ → RpcMessage → Call
  on_write : ℕ → ErrorCode → Call
  on_close : ℕ → Call

pub record OutgoingFrame : Type 0 where
  pub bytes : List ℕ
  pub written : ℕ
  pub handler : Option ℕ

-- `fd` is `none` for a descriptor of -1.
pub record Session : Type 0 where
  pub fd : Option ℕ
  pub id : ℕ
  pub is_open : Bool
  pub registered : Bool
  pub read_buffer : List ℕ
  pub write_queue : List OutgoingFrame
  pub message_handler : Option ℕ
  pub close_handler : Option ℕ
  pub calls : List Call

-- The constructor; `id` is what `next_id_` gave.
unfoldable pub connection : ℕ → ℕ → Session
connection fd id = record {
  fd = some fd;
  id = id;
  is_open = true;
  registered = false;
  read_buffer = [];
  write_queue = [];
  message_handler = none;
  close_handler = none;
  calls = [];
}

abbrev emit : Call → Session → Session
emit c s = record s { calls = s.calls ++ c ∷ [] }

abbrev pub emit_for : Option ℕ → (ℕ → Call) → Session → Session
emit_for none call s = s
emit_for (some x) call s = emit (call x) s

unfoldable pub set_message_handler : ℕ → Session → Session
set_message_handler h s = record s { message_handler = some h }

unfoldable pub set_close_handler : ℕ → Session → Session
set_close_handler h s = record s { close_handler = some h }

-- `start`, where the calls of the system succeed.
unfoldable pub start : Session → Session
start s = record (emit_for s.fd (λ fd. loop_add fd (interest false)) s) { registered = true }

-- `update_events`
unfoldable pub update_events : Session → Session
update_events s =
    if s.registered && s.is_open
    then emit_for s.fd (λ fd. loop_modify fd (interest (not (is_empty s.write_queue)))) s
    else s

-- Both loops that empty the write queue: each handler is told the error.
pub fail_frames : ErrorCode → List OutgoingFrame → List Call
fail_frames e [] = []
fail_frames e (f ∷ fs) = elim f.handler [
  | none ↦ fail_frames e fs
  | some h ↦ on_write h e ∷ fail_frames e fs
]

pub drain_queue : ErrorCode → Session → Session
drain_queue e s = record s { write_queue = []; calls = s.calls ++ fail_frames e s.write_queue }

-- The part of `close_from_loop` in front of the two loops over handlers.
pub release : Session → Session
release s =
    let shut = record s { is_open = false; fd = none; registered = false } in
    let removed = if s.registered then emit_for s.fd loop_remove shut else shut in
    emit_for s.fd close_fd removed

pub close_from_loop : Session → Session
close_from_loop s =
    if s.is_open
    then emit_for s.close_handler on_close (drain_queue not_connected (release s))
    else s

pub fail_and_close : ErrorCode → Session → Session
fail_and_close e s = close_from_loop (drain_queue e s)

-- What one run of the loop over `::recv` meets, to the result that ends it.
pub data Receives : Type 0 where
  received : List ℕ → Receives → Receives
  interrupted : Receives → Receives
  would_block : Receives
  ended : Receives
  failed : ℕ → Receives

pub data ReadEnd : Type 0 where
  drained at_end : ReadEnd
  broken : ℕ → ReadEnd

-- The first loop of `async_read`: `::recv` until it has nothing more.
unfoldable pub receive : Receives → List ℕ → List ℕ × ReadEnd
receive (received chunk more) buffer = receive more (buffer ++ chunk)
receive (interrupted more) buffer = receive more buffer
receive would_block buffer = (buffer, drained)
receive ended buffer = (buffer, at_end)
receive (failed errno) buffer = (buffer, broken errno)

-- What one round of the second loop of `async_read` finds in the buffer: nothing whole yet, a reason
-- to close, or a message. The buffer is what `try_pop_frame` leaves.
pub data Next : Type 0 where
  wait : Next
  refuse : ErrorCode → List ℕ → Next
  deliver : RpcMessage → List ℕ → Next

-- `decode` never answers `out_of_fuel`.
unfoldable pub decoded_next : Decoded → List ℕ → Next
decoded_next (decoded m) rest = deliver m rest
decoded_next rejected rest = refuse protocol_error rest
decoded_next out_of_fuel rest = wait

unfoldable pub popped_next : FrameReadResult → List ℕ → Next
unfolding decoded_next
popped_next need_more buffer = wait
popped_next too_large buffer = refuse message_size buffer
popped_next (frame_ok payload rest) buffer = decoded_next (decode payload) rest

unfoldable pub next_message : List ℕ → Next
unfolding popped_next
next_message buffer = popped_next (try_pop_frame buffer) buffer

-- One round; `again` is the rest of the loop.
unfoldable pub act : (Session → Session) → Next → Session → Session
act again wait s = s
act again (refuse e buffer) s = fail_and_close e (record s { read_buffer = buffer })
act again (deliver m rest) s =
    again (emit_for s.message_handler (λ h. on_message h m) (record s { read_buffer = rest }))

-- The second loop of `async_read`. A frame takes four bytes at least, so the length of the buffer is
-- fuel enough.
unfoldable pub read_frames : ℕ → Session → Session
unfolding act
read_frames zero s = s
read_frames (suc fuel) s =
    if s.is_open then act (read_frames fuel) (next_message s.read_buffer) s else s

unfoldable pub after_receive : List ℕ × ReadEnd → Session → Session
after_receive (buffer, drained) s =
    read_frames (suc (length buffer)) (record s { read_buffer = buffer })
after_receive (buffer, at_end) s = close_from_loop (record s { read_buffer = buffer })
after_receive (buffer, broken errno) s =
    fail_and_close (os errno) (record s { read_buffer = buffer })

unfoldable pub async_read : Receives → Session → Session
unfolding after_receive
async_read r s = if s.is_open then after_receive (receive r s.read_buffer) s else s

-- What one run of the loop over `::send` meets. `sent n errno` is a result of `n` from 0 on, with the
-- value that `errno` has then; the other results are -1.
pub data Sends : Type 0 where
  sent : ℕ → ℕ → Sends → Sends
  interrupted : Sends → Sends
  would_block : Sends
  failed : ℕ → Sends

-- `::send` took `n` bytes of the frame in front.
unfoldable pub wrote : ℕ → OutgoingFrame → List OutgoingFrame → Session → Session
wrote n f rest s =
    let took = emit (socket_took (take n (drop f.written f.bytes))) s in
    if f.written + n == length f.bytes
    then emit_for f.handler (λ h. on_write h no_error) (record took { write_queue = rest })
    else record took { write_queue = record f { written = f.written + n } ∷ rest }

-- The loop of `async_write` and what stands behind it. It ends when the queue is empty or the session
-- closed, whatever the socket would answer next.
unfoldable pub write_loop : Sends → List OutgoingFrame → Session → Session
write_loop r [] s = update_events s
write_loop would_block (f ∷ rest) s = update_events s
write_loop (failed errno) (f ∷ rest) s = fail_and_close (os errno) s
write_loop (interrupted more) (f ∷ rest) s = write_loop more (f ∷ rest) s
write_loop (sent n errno more) (f ∷ rest) s = elim (ltb 0 n) [
  | true ↦ let next = wrote n f rest s in write_loop more next.write_queue next
  | false ↦ fail_and_close (os errno) s
]

unfoldable pub async_write : Sends → Session → Session
async_write r s = if s.is_open then write_loop r s.write_queue s else s

unfoldable pub handle_events : Events → Receives → Sends → Session → Session
handle_events e r w s =
    if not s.is_open
    then s
    else if e.error || e.hang_up
    then close_from_loop s
    else let read = if e.readable then async_read r s else s in
      let written = if read.is_open && e.writable then async_write w read else read in
      if written.is_open && e.read_hang_up then close_from_loop written else written

-- A task that the session posts to its loop.
pub data Task : Type 0 where
  send_frame : List ℕ → Option ℕ → Task
  close_session : Task

-- `send`: an encoding over the limit is refused at once, any other becomes a task.
unfoldable pub send : RpcMessage → Option ℕ → Session → Session × Option Task
send m handler s =
    let payload = encode m in
    if ltb max_frame_size (length payload)
    then (emit_for handler (λ h. on_write h message_size) s, none)
    else (s, some (send_frame (make_frame payload) handler))

-- `close`
pub close : Session → Session × Option Task
close s = (s, some close_session)

-- The lambdas that `send` and `close` post, when the loop runs them.
unfoldable pub run_task : Task → Sends → Session → Session
run_task (send_frame frame handler) w s =
    if not s.is_open
    then emit_for handler (λ h. on_write h not_connected) s
    else let queued = record s {
      write_queue =
          s.write_queue ++ (record { bytes = frame; written = 0; handler = handler }) ∷ [];
    } in
      async_write w (update_events queued)
run_task close_session w s = close_from_loop s

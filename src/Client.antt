-- ===== src/Client.antt =====
-- include/minirpc/client.hpp and src/client.cpp: the client, which finds the handler of a call by the
-- number of the request.
-- The write handler of a call is the lambda of `call_async` for that request, so the number of the
-- request names it. The other lambdas that the client hands to its session have one number each.
pub mod Pending
pub mod Exchange
pub mod Budget
mod Runs
use insist.Base.{
  ℕ, zero, suc, ◌+◌, ◌%◌, ◌^◌, ◌≡◌, Bool, true, false, ◌&&◌, ◌||◌, not, ◌==◌, if◌then◌else◌, List,
  [], ◌∷◌, ◌++◌, length, drop, Option, none, some,
}
use insist.Base.Maps.{lookup, insert, erase}
use insist.Message.{RpcMessage, blank, kind_request, kind_response, kind_notify}
use insist.Session.{
  Session, Call, ErrorCode, loop_add, loop_modify, loop_remove, close_fd, socket_took, on_message,
  on_write, on_close, no_error, message_size, not_connected, protocol_error, os, Task, connection,
  set_close_handler, start, send,
}
use insist.Session

abbrev the_client : ℕ
the_client = 0

-- A call of a function that the user gave: the handler of a response, or the message handler.
pub data Heard : Type 0 where
  response : ℕ → RpcMessage → Heard
  message : ℕ → RpcMessage → Heard

-- An empty `std::function` is `none`; `heard` keeps the calls in their order.
pub record RpcClient : Type 0 where
  pub session : Option Session
  pub message_handler : Option ℕ
  pub next_request_id : ℕ
  pub pending : List (ℕ × Option ℕ)
  pub heard : List Heard

-- A new client.
unfoldable pub fresh : RpcClient
fresh = record {
  session = none;
  message_handler = none;
  next_request_id = 1;
  pending = [];
  heard = [];
}

unfoldable pub set_message_handler : ℕ → RpcClient → RpcClient
set_message_handler h c = record c { message_handler = some h }

-- What one address of `getaddrinfo` answers: `socket` fails, `connect` fails on the new descriptor, or
-- the descriptor is connected.
pub data Attempt : Type 0 where
  no_socket : ℕ → Attempt
  no_connection : ℕ → ℕ → Attempt
  connected_on : ℕ → Attempt

-- `connect_tcp` behind `getaddrinfo`: the descriptor or the last `errno` (0 if there was no address),
-- and the descriptors that it closed.
pub data Dialled : Type 0 where
  dialled : ℕ → List ℕ → Dialled
  undialled : ℕ → List ℕ → Dialled

dial : List Attempt → ℕ → List ℕ → Dialled
dial [] last closed = undialled last closed
dial (no_socket errno ∷ rest) last closed = dial rest errno closed
dial (no_connection fd errno ∷ rest) last closed = dial rest errno (closed ++ fd ∷ [])
dial (connected_on fd ∷ rest) last closed = dialled fd closed

pub connect_tcp : List Attempt → Dialled
unfolding dial
connect_tcp attempts = dial attempts 0 []

pub is_connected : Option Session → Bool
is_connected none = false
is_connected (some s) = s.is_open

-- The session that `connect` makes on the descriptor; `id` is what `next_id_` gave.
new_session : ℕ → ℕ → Session
new_session fd id =
    start (set_close_handler the_client (Session.set_message_handler the_client (connection fd id)))

-- `connect`: nothing if the session is open; `none` where `connect_tcp` throws.
pub connect : List Attempt → ℕ → RpcClient → Option RpcClient
unfolding new_session
connect attempts id c = if is_connected c.session then some c else elim (connect_tcp attempts) [
  | dialled fd closed ↦ some (record c { session = some (new_session fd id) })
  | undialled errno closed ↦ none
]

-- `close`: the task that the session posts.
pub close : RpcClient → Option Task
close c = elim c.session [ none ↦ none | some s ↦ (Session.close s).1 ]

abbrev pub tell : Heard → RpcClient → RpcClient
tell h c = record c { heard = c.heard ++ h ∷ [] }

give : Option ℕ → RpcMessage → RpcClient → RpcClient
give none m c = c
give (some h) m c = tell (message h m) c

-- The end of `dispatch_message`.
other_message : RpcMessage → RpcClient → RpcClient
unfolding give
other_message m c = give c.message_handler m c

-- The branch for responses; a pending call may have an empty handler.
answer : Option (Option ℕ) → RpcMessage → RpcClient → RpcClient
unfolding other_message
answer none m c = other_message m c
answer (some none) m c = other_message m (record c { pending = erase m.id c.pending })
answer (some (some h)) m c = tell (response h m) (record c { pending = erase m.id c.pending })

pub dispatch_message : RpcMessage → RpcClient → RpcClient
unfolding answer
dispatch_message m c =
    if m.kind == kind_response then answer (lookup m.id c.pending) m c else other_message m c

-- The lambda of `call_async` for the request `id`.
written : ℕ → ErrorCode → RpcClient → RpcClient
written id no_error c = c
written id message_size c = record c { pending = erase id c.pending }
written id not_connected c = record c { pending = erase id c.pending }
written id protocol_error c = record c { pending = erase id c.pending }
written id (os errno) c = if errno == 0 then c else record c { pending = erase id c.pending }

-- The close handler of the session.
forget_session : RpcClient → RpcClient
forget_session c = record c { pending = []; session = none }

-- What the client does when its session calls it.
hear : Call → RpcClient → RpcClient
unfolding written forget_session
hear (on_message h m) c = dispatch_message m c
hear (on_write id e) c = written id e c
hear (on_close h) c = forget_session c
hear (loop_add fd e) c = c
hear (loop_modify fd e) c = c
hear (loop_remove fd) c = c
hear (close_fd fd) c = c
hear (socket_took bytes) c = c

pub hear_all : List Call → RpcClient → RpcClient
unfolding hear
hear_all [] c = c
hear_all (call ∷ calls) c = hear_all calls (hear call c)

-- The client after its session has gone from `s` to `t`: it has heard the calls that are new.
pub follow : Session → Session → RpcClient → RpcClient
follow s t c = hear_all (drop (length s.calls) t.calls) (record c { session = some t })

-- What `call_async` leaves; `none` is the exception for a client that is not connected.
pub record Called : Type 0 where
  pub id : ℕ
  pub client : RpcClient
  pub task : Option Task

unfoldable pub request : ℕ → List ℕ → List ℕ → List ℕ → RpcMessage
request id service method payload = record blank {
  id = id;
  kind = kind_request;
  service = service;
  method = method;
  payload = payload;
}

-- `call_async` on an open session.
call_on : Session → RpcMessage → Option ℕ → RpcClient → Called
call_on s m handler c =
    let numbered = record c {
      next_request_id = (c.next_request_id + 1) % 2 ^ 64;
      pending = insert m.id handler c.pending;
    } in
    let sent = send m (some m.id) s in
    record { id = m.id; client = follow s sent.0 numbered; task = sent.1 }

pub call_async : List ℕ → List ℕ → List ℕ → Option ℕ → RpcClient → Option Called
unfolding call_on request
call_async service method payload handler c = elim c.session [
  | none ↦ none
  | some s ↦
      if s.is_open
      then some (call_on s (request c.next_request_id service method payload) handler c)
      else none
]

-- `notify`
pub notify : List ℕ → List ℕ → List ℕ → RpcClient → Option (RpcClient × Option Task)
notify service method payload c = elim c.session [
  | none ↦ none
  | some s ↦
      let m = record blank {
        kind = kind_notify;
        service = service;
        method = method;
        payload = payload;
      } in
      let sent = send m none s in
      if s.is_open then some (record c { session = some sent.0 }, sent.1) else none
]

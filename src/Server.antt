-- ===== src/Server.antt =====
-- include/minirpc/server.hpp and src/server.cpp: the server, which accepts connections and keeps their
-- sessions by number.
-- The close handlers of the sessions are one lambda, which finds the session by its number. What the
-- system calls answer is an argument.
pub mod Accepting
pub mod Stopping
mod Runs
use insist.Base.{
  ℕ, ◌+◌, ◌%◌, ◌^◌, ◌≡◌, Bool, true, false, ◌&&◌, not, if◌then◌else◌, List, [], ◌∷◌, ◌++◌, length,
  drop, Option, none, some,
}
use insist.Base.Maps.{lookup, insert, erase}
use insist.Session.{
  Session, Call, Events, interest, loop_add, loop_modify, loop_remove, close_fd, socket_took,
  on_message, on_write, on_close, Task, close_session, connection, set_close_handler,
}
use insist.Session

-- `calls` keeps what the server asks of the loop and of `close`; `greeted` keeps the calls of the
-- session handler with the number of the session. `next_id` is `Session::next_id_`.
pub record TcpServer : Type 0 where
  pub listen_fd : Option ℕ
  pub started : Bool
  pub session_handler : Option ℕ
  pub message_handler : Option ℕ
  pub sessions : List (ℕ × Session)
  pub next_id : ℕ
  pub calls : List Call
  pub greeted : List (ℕ × ℕ)

-- The constructor; `next_id` is what other sessions have left.
unfoldable pub fresh : ℕ → TcpServer
fresh next_id = record {
  listen_fd = none;
  started = false;
  session_handler = none;
  message_handler = none;
  sessions = [];
  next_id = next_id;
  calls = [];
  greeted = [];
}

unfoldable pub set_session_handler : ℕ → TcpServer → TcpServer
set_session_handler h c = record c { session_handler = some h }

unfoldable pub set_message_handler : ℕ → TcpServer → TcpServer
set_message_handler h c = record c { message_handler = some h }

-- What the system answers to `bind_and_listen`: no socket, a socket on which a later step fails, or one
-- that listens. `bad_host` is the answer of `inet_pton`.
pub data StartError : Type 0 where
  os_error : ℕ → StartError
  bad_host : StartError

pub data Listening : Type 0 where
  no_socket : ℕ → Listening
  refused : ℕ → StartError → Listening
  listening : ℕ → Listening

close_on : Option ℕ → TcpServer → TcpServer
close_on none c = c
close_on (some fd) c = record c {
  listen_fd = none;
  calls = c.calls ++ loop_remove fd ∷ close_fd fd ∷ [];
}

-- `close_listener`
close_listener : TcpServer → TcpServer
unfolding close_on
close_listener c = close_on c.listen_fd c

-- What a start leaves: the state, and what it throws, if anything.
pub record Started : Type 0 where
  pub server : TcpServer
  pub thrown : Option StartError

bind_and_listen : Listening → TcpServer → Started
bind_and_listen (no_socket e) c = record {
  server = record c { listen_fd = none };
  thrown = some (os_error e);
}
bind_and_listen (refused fd e) c = record {
  server = close_listener (record c { listen_fd = some fd });
  thrown = some e;
}
bind_and_listen (listening fd) c = record {
  server = record c { listen_fd = some fd };
  thrown = none;
}

-- `EPOLLIN`
abbrev listener : Events
listener = record {
  readable = true;
  writable = false;
  error = false;
  hang_up = false;
  read_hang_up = false;
}

-- The rest of `start`, where `fcntl` and `epoll_ctl` succeed.
serve : Started → Started
serve r = elim r.thrown [
  | some e ↦ r
  | none ↦ record r {
    server = elim r.server.listen_fd [
      | none ↦ r.server
      | some fd ↦ record r.server {
        started = true;
        calls = r.server.calls ++ loop_add fd listener ∷ [];
      }
    ];
  }
]

pub start : Listening → TcpServer → Started
unfolding bind_and_listen serve
start l c = if c.started then record { server = c; thrown = none } else serve (bind_and_listen l c)

-- The loop of `stop`: the tasks that the sessions post, each with the number of its session.
close_all : List (ℕ × Session) → List (ℕ × Task)
close_all [] = []
close_all ((id, s) ∷ m) = (id, close_session) ∷ close_all m

abbrev has_listener : Option ℕ → Bool
has_listener none = false
has_listener (some fd) = true

-- `stop`
pub stop : TcpServer → TcpServer × List (ℕ × Task)
unfolding close_listener close_all
stop c =
    if not c.started && not (has_listener c.listen_fd)
    then (c, [])
    else (record (close_listener c) { sessions = []; started = false }, close_all c.sessions)

-- The close handler of a session.
pub closed : ℕ → TcpServer → TcpServer
closed id c = record c { sessions = erase id c.sessions }

-- What one run of the loop over `accept4` meets, to the result that ends it.
pub data Accepts : Type 0 where
  accepted : ℕ → Accepts → Accepts
  interrupted : Accepts → Accepts
  would_block : Accepts
  failed : ℕ → Accepts

-- The session of a new connection; all have the same close handler.
unfoldable pub new_session : ℕ → ℕ → Option ℕ → Session
new_session fd id handler =
    Session.start (record (set_close_handler 0 (connection fd id)) { message_handler = handler })

greet : Option ℕ → ℕ → TcpServer → TcpServer
greet none id c = c
greet (some h) id c = record c { greeted = c.greeted ++ (h, id) ∷ [] }

accept_one : ℕ → TcpServer → TcpServer
unfolding greet
accept_one fd c = greet c.session_handler c.next_id (record c {
  next_id = (c.next_id + 1) % 2 ^ 64;
  sessions = insert c.next_id (new_session fd c.next_id c.message_handler) c.sessions;
})

-- `accept_loop`, with the `errno` that it throws, if any.
pub accept_loop : Accepts → TcpServer → TcpServer × Option ℕ
unfolding accept_one
accept_loop (accepted fd more) c = accept_loop more (accept_one fd c)
accept_loop (interrupted more) c = accept_loop more c
accept_loop would_block c = (c, none)
accept_loop (failed errno) c = (c, some errno)

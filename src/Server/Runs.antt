-- ===== src/Server/Runs.antt =====
-- The theorems of the server at concrete states.
use insist.Base.{◌≡◌, arith, true, [], ◌∷◌, ◌++◌, some}
use insist.Server.{
  TcpServer, fresh, set_session_handler, set_message_handler, Accepts, accepted, interrupted,
  failed, new_session, accept_loop,
}
use insist.Server.Accepting.{made, IsNumbered, accept_loop-sessions}

-- It listens on 3 and has the session 1; the session 2 has been made for something else.
abbrev up : TcpServer
up = record (set_session_handler 5 (set_message_handler 6 (fresh 3))) {
  listen_fd = some 3;
  started = true;
  sessions = (1, new_session 8 1 (some 6)) ∷ [];
}

up-IsNumbered : IsNumbered up
unfolding IsNumbered fresh set_session_handler set_message_handler
up-IsNumbered = (omega arith, tt)

abbrev two_connections : Accepts
two_connections = accepted 10 (interrupted (accepted 11 (failed 24)))

accept_loop-sessions_example :
    ((accept_loop two_connections up).0.sessions ≡ up.sessions ++ made (10 ∷ 11 ∷ []) 3 (some 6))
    × ((accept_loop two_connections up).0.next_id ≡ 5)
    × IsNumbered (accept_loop two_connections up).0
unfolding fresh set_session_handler set_message_handler
accept_loop-sessions_example = accept_loop-sessions two_connections up up-IsNumbered (omega arith)

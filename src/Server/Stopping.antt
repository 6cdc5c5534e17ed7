-- ===== src/Server/Stopping.antt =====
-- Starting and stopping the server.
use insist.Base.{
  ℕ, ◌≡◌, refl, ◌∙◌, ap, sym, true, false, ◌&&◌, not, if-cases, List, [], ◌∷◌, ◌++◌, Option, none,
  some,
}
use mathlib.Core.Bool.{false≢true}
use insist.Session.{Task, loop_add, loop_remove, close_fd}
use insist.Server.{
  TcpServer, StartError, Listening, refused, listening, close_on, close_listener, listener,
  has_listener, Started, bind_and_listen, serve, start, stop,
}

closed_listener : (o : Option ℕ) (c : TcpServer) → c.listen_fd ≡ o → (close_on o c).listen_fd ≡ none
unfolding close_on
closed_listener none c e = e
closed_listener (some fd) c e = refl

-- The server that `stop` leaves is idle.
stopped : TcpServer → TcpServer
stopped c = record (close_listener c) { sessions = []; started = false }

stop-stopped : (c : TcpServer) → stop (stopped c) ≡ (stopped c, [])
unfolding stop stopped
stop-stopped c =
    if-cases (λ (r : TcpServer × List (ℕ × Task)). r ≡ (stopped c, []))
      (not (has_listener (close_listener c).listen_fd)) (λ _. refl)
      (λ e. absurd (false≢true (sym e ∙ idle)))
  where
    idle : not (has_listener (close_listener c).listen_fd) ≡ true
    idle =
        unfold close_listener in ap (λ o. not (has_listener o)) (closed_listener c.listen_fd c refl)

-- A second `stop` changes nothing and posts nothing.
pub stop-twice : (c : TcpServer) → stop (stop c).0 ≡ ((stop c).0, [])
unfolding stop
stop-twice c =
    if-cases (λ (r : TcpServer × List (ℕ × Task)). stop r.0 ≡ (r.0, []))
      (not c.started && not (has_listener c.listen_fd))
      (λ idle.
        if-cases (λ (r : TcpServer × List (ℕ × Task)). r ≡ (c, []))
          (not c.started && not (has_listener c.listen_fd)) (λ _. refl)
          (λ e. absurd (false≢true (sym e ∙ idle))))
      (λ _. unfold stopped in stop-stopped c)

-- A `start` that fails in `bind_and_listen` on its socket closes the socket and changes nothing else,
-- so that the server can be started again; it has not started and has no listener before.
pub start-refused :
    (fd : ℕ) (e : StartError) (c : TcpServer)
    → c.started ≡ false
    → c.listen_fd ≡ none
    → start (refused fd e) c ≡ record {
      server = record c { calls = c.calls ++ loop_remove fd ∷ close_fd fd ∷ [] };
      thrown = some e;
    }
unfolding start bind_and_listen serve close_listener
start-refused fd e c down none_open =
    if-cases
      (λ (r : Started). r ≡ record {
        server = record c { calls = c.calls ++ loop_remove fd ∷ close_fd fd ∷ [] };
        thrown = some e;
      })
      c.started (λ up. absurd (false≢true (sym down ∙ up)))
      (λ _.
        ap
          (λ o. record {
            server = record c {
              listen_fd = o;
              calls = c.calls ++ loop_remove fd ∷ close_fd fd ∷ [];
            };
            thrown = some e;
          })
          (sym none_open))

serving : ℕ → TcpServer → TcpServer
serving fd c = record c {
  listen_fd = some fd;
  started = true;
  calls = c.calls ++ loop_add fd listener ∷ [];
}

start-serving :
    (fd : ℕ) (c : TcpServer)
    → c.started ≡ false
    → start (listening fd) c ≡ record { server = serving fd c; thrown = none }
unfolding start bind_and_listen serve serving
start-serving fd c down =
    if-cases (λ (r : Started). r ≡ record { server = serving fd c; thrown = none }) c.started
      (λ up. absurd (false≢true (sym down ∙ up))) (λ _. refl)

-- A server that has started ignores another `start`, whatever the system would answer.
pub start-twice :
    (fd : ℕ) (l : Listening) (c : TcpServer)
    → c.started ≡ false
    → start l (start (listening fd) c).server
      ≡ record { server = (start (listening fd) c).server; thrown = none }
start-twice fd l c down =
    ap (λ (r : Started). start l r.server) (start-serving fd c down)
    ∙ ignored
    ∙ ap (λ (r : Started). record { server = r.server; thrown = none })
        (sym (start-serving fd c down))
  where
    ignored : start l (serving fd c) ≡ record { server = serving fd c; thrown = none }
    ignored = unfold start serving in refl

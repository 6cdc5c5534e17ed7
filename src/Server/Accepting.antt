-- ===== src/Server/Accepting.antt =====
-- The sessions that `accept_loop` makes.
use insist.Base.{
  ℕ, ◌+◌, ◌^◌, ◌<◌, ◌≡◌, refl, sym, ap, subst, ◌∙◌, arith, List, [], ◌∷◌, ◌++◌, append_assoc,
  append-nil, length, Option, none, some,
}
use insist.Base.Maps.{
  insert, KeysBelow, KeysBelow-mono, KeysBelow-insert, lookup_above, insert_absent, erase,
  erase-insert,
}
use insist.Session.{Session}
use insist.Server.{
  TcpServer, Accepts, accepted, interrupted, would_block, failed, new_session, greet, accept_one,
  accept_loop, closed,
}

-- The connections in the order of arrival.
abbrev pub connections : Accepts → List ℕ
connections (accepted fd more) = fd ∷ connections more
connections (interrupted more) = connections more
connections would_block = []
connections (failed errno) = []

-- Their sessions, with consecutive numbers from `n` on.
unfoldable pub made : List ℕ → ℕ → Option ℕ → List (ℕ × Session)
made [] n h = []
made (fd ∷ fds) n h = (n, new_session fd n h) ∷ made fds (n + 1) h

greet-sessions : (o : Option ℕ) (id : ℕ) (c : TcpServer) → (greet o id c).sessions ≡ c.sessions
unfolding greet
greet-sessions none id c = refl
greet-sessions (some h) id c = refl

greet-next_id : (o : Option ℕ) (id : ℕ) (c : TcpServer) → (greet o id c).next_id ≡ c.next_id
unfolding greet
greet-next_id none id c = refl
greet-next_id (some h) id c = refl

greet-message_handler :
    (o : Option ℕ) (id : ℕ) (c : TcpServer) → (greet o id c).message_handler ≡ c.message_handler
unfolding greet
greet-message_handler none id c = refl
greet-message_handler (some h) id c = refl

-- The numbers of the sessions have been given out.
unfoldable pub IsNumbered : TcpServer → Type 0
IsNumbered c = KeysBelow c.next_id c.sessions

module _ (fd : ℕ) (c : TcpServer) (n : IsNumbered c) (small : c.next_id + 1 < 2 ^ 64) where
  accept_one-sessions :
      (accept_one fd c).sessions
      ≡ c.sessions ++ (c.next_id, new_session fd c.next_id c.message_handler) ∷ []
  unfolding accept_one
  accept_one-sessions =
      greet-sessions c.session_handler c.next_id _
      ∙ insert_absent c.next_id _ c.sessions
          (lookup_above c.next_id c.next_id c.sessions (unfold IsNumbered in n) (omega arith))

  accept_one-next_id : (accept_one fd c).next_id ≡ c.next_id + 1
  unfolding accept_one
  accept_one-next_id = greet-next_id c.session_handler c.next_id _ ∙ omega (arith, small)

  accept_one-message_handler : (accept_one fd c).message_handler ≡ c.message_handler
  unfolding accept_one
  accept_one-message_handler = greet-message_handler c.session_handler c.next_id _

  accept_one-IsNumbered : IsNumbered (accept_one fd c)
  unfolding IsNumbered
  accept_one-IsNumbered =
      subst (λ k. KeysBelow k (accept_one fd c).sessions) (sym accept_one-next_id)
        (subst (KeysBelow (c.next_id + 1)) (sym inserted) (
          KeysBelow-insert (c.next_id + 1) c.next_id _ c.sessions (omega arith) (
            KeysBelow-mono c.next_id (c.next_id + 1) c.sessions (omega arith)
              (unfold IsNumbered in n))))
    where
      inserted :
          (accept_one fd c).sessions
          ≡ insert c.next_id (new_session fd c.next_id c.message_handler) c.sessions
      inserted = unfold accept_one in greet-sessions c.session_handler c.next_id _

-- Whatever `accept4` answers, if the numbers of the sessions have been given out and there are numbers
-- enough: `accept_loop` keeps the sessions that the server has and adds, behind them and in the order
-- of arrival, one with the next number for each connection.
pub accept_loop-sessions :
    (a : Accepts) (c : TcpServer)
    → IsNumbered c
    → c.next_id + length (connections a) < 2 ^ 64
    → ((accept_loop a c).0.sessions
        ≡ c.sessions ++ made (connections a) c.next_id c.message_handler)
      × ((accept_loop a c).0.next_id ≡ c.next_id + length (connections a))
      × IsNumbered (accept_loop a c).0
unfolding accept_loop made
accept_loop-sessions would_block c n small = (sym (append-nil c.sessions), omega arith, n)
accept_loop-sessions (failed errno) c n small = (sym (append-nil c.sessions), omega arith, n)
accept_loop-sessions (interrupted more) c n small = accept_loop-sessions more c n small
accept_loop-sessions (accepted fd more) c n small =
    let (a, b, d) = accept_loop-sessions more next numbered (omega (arith, next_id, small)) in
    (a ∙ same, b ∙ omega (arith, next_id), d)
  where
    one : c.next_id + 1 < 2 ^ 64
    one = omega (arith, small)

    next : TcpServer
    next = accept_one fd c

    numbered : IsNumbered next
    numbered = accept_one-IsNumbered fd c n one

    next_id : next.next_id ≡ c.next_id + 1
    next_id = accept_one-next_id fd c n one

    same :
        next.sessions ++ made (connections more) next.next_id next.message_handler
        ≡ c.sessions
          ++ (c.next_id, new_session fd c.next_id c.message_handler)
            ∷ made (connections more) (c.next_id + 1) c.message_handler
    same =
        ap (λ k. next.sessions ++ made (connections more) k next.message_handler) next_id
        ∙ ap (λ h. next.sessions ++ made (connections more) (c.next_id + 1) h)
            (accept_one-message_handler fd c n one)
        ∙ ap (λ m. m ++ made (connections more) (c.next_id + 1) c.message_handler)
            (accept_one-sessions fd c n one)
        ∙ append_assoc c.sessions _ _

-- When the session of a new connection closes, its close handler takes it out, and the sessions are
-- those from before it was accepted, if their numbers have been given out.
pub closed-accept_loop :
    (fd : ℕ) (c : TcpServer)
    → IsNumbered c
    → (closed c.next_id (accept_loop (accepted fd would_block) c).0).sessions ≡ c.sessions
unfolding closed accept_loop accept_one
closed-accept_loop fd c n =
    ap (erase c.next_id) (greet-sessions c.session_handler c.next_id _)
    ∙ erase-insert c.next_id _ c.sessions
        (lookup_above c.next_id c.next_id c.sessions (unfold IsNumbered in n) (omega arith))

-- ===== src/Client/Pending.antt =====
-- The table of pending calls.
use insist.Base.{
  ℕ, ◌+◌, ◌%◌, ◌^◌, ◌<◌, ◌≡◌, refl, subst, arith, ◌==◌, if-cases, List, [], ◌∷◌, Keeps-if,
  Keeps-some, Keeps-none, Option, none, some,
}
use insist.Base.Maps.{
  lookup, insert, erase, KeysBelow, KeysBelow-mono, KeysBelow-insert, KeysBelow-erase,
}
use insist.Message.{RpcMessage, kind_response}
use insist.Session.{
  Session, Call, ErrorCode, loop_add, loop_modify, loop_remove, close_fd, socket_took, on_message,
  on_write, on_close, no_error, message_size, not_connected, protocol_error, os,
}
use insist.Client.{
  RpcClient, give, answer, other_message, dispatch_message, written, forget_session, hear, hear_all,
  follow, Called, request, call_on, call_async,
}

-- The numbers of the pending calls have been given out.
unfoldable pub IsNumbered : RpcClient → Type 0
IsNumbered c = KeysBelow c.next_request_id c.pending

give-IsNumbered :
    (o : Option ℕ) (m : RpcMessage) (c : RpcClient) → IsNumbered c → IsNumbered (give o m c)
unfolding give IsNumbered
give-IsNumbered none m c n = n
give-IsNumbered (some h) m c n = n

answer-IsNumbered :
    (o : Option (Option ℕ)) (m : RpcMessage) (c : RpcClient)
    → IsNumbered c
    → IsNumbered (answer o m c)
unfolding answer other_message IsNumbered
answer-IsNumbered none m c n = unfold IsNumbered in give-IsNumbered c.message_handler m c n
answer-IsNumbered (some none) m c n =
    unfold IsNumbered in
    give-IsNumbered c.message_handler m (record c { pending = erase m.id c.pending })
      (KeysBelow-erase _ m.id c.pending n)
answer-IsNumbered (some (some h)) m c n = KeysBelow-erase _ m.id c.pending n

pub dispatch_message-IsNumbered :
    (m : RpcMessage) (c : RpcClient) → IsNumbered c → IsNumbered (dispatch_message m c)
unfolding dispatch_message other_message
dispatch_message-IsNumbered m c n =
    if-cases IsNumbered (m.kind == kind_response)
      (λ _. answer-IsNumbered (lookup m.id c.pending) m c n)
      (λ _. give-IsNumbered c.message_handler m c n)

erased-IsNumbered :
    (id : ℕ) (c : RpcClient) → IsNumbered c → IsNumbered (record c { pending = erase id c.pending })
unfolding IsNumbered
erased-IsNumbered id c n = KeysBelow-erase _ id c.pending n

written-IsNumbered :
    (id : ℕ) (e : ErrorCode) (c : RpcClient) → IsNumbered c → IsNumbered (written id e c)
unfolding written
written-IsNumbered id no_error c n = n
written-IsNumbered id message_size c n = erased-IsNumbered id c n
written-IsNumbered id not_connected c n = erased-IsNumbered id c n
written-IsNumbered id protocol_error c n = erased-IsNumbered id c n
written-IsNumbered id (os e) c n =
    if-cases IsNumbered (e == 0) (λ _. n) (λ _. erased-IsNumbered id c n)

hear-IsNumbered : (call : Call) (c : RpcClient) → IsNumbered c → IsNumbered (hear call c)
unfolding hear
hear-IsNumbered (on_message h m) c n = dispatch_message-IsNumbered m c n
hear-IsNumbered (on_write id e) c n = written-IsNumbered id e c n
hear-IsNumbered (on_close h) c n = unfold forget_session IsNumbered in tt
hear-IsNumbered (loop_add fd e) c n = n
hear-IsNumbered (loop_modify fd e) c n = n
hear-IsNumbered (loop_remove fd) c n = n
hear-IsNumbered (close_fd fd) c n = n
hear-IsNumbered (socket_took b) c n = n

-- Whatever the session calls, in whatever order: if the pending calls have numbers that were given
-- out, they still have.
pub hear_all-IsNumbered :
    (calls : List Call) (c : RpcClient) → IsNumbered c → IsNumbered (hear_all calls c)
unfolding hear_all
hear_all-IsNumbered [] c n = n
hear_all-IsNumbered (call ∷ calls) c n =
    hear_all-IsNumbered calls (hear call c) (hear-IsNumbered call c n)

call_on-IsNumbered :
    (s : Session) (m : RpcMessage) (handler : Option ℕ) (c : RpcClient)
    → IsNumbered c
    → c.next_request_id + 1 < 2 ^ 64
    → m.id ≡ c.next_request_id
    → IsNumbered (call_on s m handler c).client
unfolding call_on follow
call_on-IsNumbered s m handler c n small e = hear_all-IsNumbered _ _ (
    unfold IsNumbered in
    subst (λ k. KeysBelow k (insert m.id handler c.pending)) unwrapped
      (KeysBelow-insert (c.next_request_id + 1) m.id handler c.pending (omega (arith, e)) (
        KeysBelow-mono c.next_request_id (c.next_request_id + 1) c.pending (omega arith)
          (unfold IsNumbered in n))))
  where
    unwrapped : c.next_request_id + 1 ≡ (c.next_request_id + 1) % 2 ^ 64
    unwrapped = omega (arith, small)

-- If the pending calls have numbers that were given out, and the counter does not wrap around, they
-- still have after `call_async`, on an open session or a closed one.
pub call_async-IsNumbered :
    (service method payload : List ℕ) (handler : Option ℕ) (s : Session) (c : RpcClient)
    (called : Called)
    → IsNumbered c
    → c.next_request_id + 1 < 2 ^ 64
    → call_async service method payload handler (record c { session = some s }) ≡ some called
    → IsNumbered called.client
unfolding call_async
call_async-IsNumbered service method payload handler s c called n small e =
    (Keeps-if (λ (k : Called). IsNumbered k.client) s.is_open _ none
        (λ _. Keeps-some (λ (k : Called). IsNumbered k.client) _ kept)
        (λ _. Keeps-none (λ (k : Called). IsNumbered k.client))).result
      called e
  where
    up : RpcClient
    up = record c { session = some s }

    kept :
        IsNumbered (call_on s (request c.next_request_id service method payload) handler up).client
    kept =
        call_on-IsNumbered s (request c.next_request_id service method payload) handler up
          (unfold IsNumbered in n) small (unfold request in refl)

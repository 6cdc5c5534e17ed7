-- ===== src/Client/Budget.antt =====
-- How often the client calls the handlers of its calls.
use insist.Base.{
  ℕ, suc, ◌+◌, ◌%◌, ◌^◌, ◌≤◌, ◌<◌, ◌≡◌, refl, sym, ap, subst, ◌∙◌, arith, ◌==◌, ltb, if◌then◌else◌,
  if-cases, true, List, [], ◌∷◌, ◌++◌, length, drop, drop-append, Option, none, some,
}
use insist.Base.Maps.{lookup, insert, erase}
use insist.Message.{RpcMessage, blank, kind_response, kind_notify}
use insist.Wire.{encode}
use insist.Framing.{max_frame_size}
use insist.Session.{
  Session, Call, ErrorCode, Task, loop_add, loop_modify, loop_remove, close_fd, socket_took,
  on_message, on_write, on_close, no_error, message_size, not_connected, protocol_error, os, send,
}
use insist.Client.Exchange.{drop-length}
use insist.Client.{
  RpcClient, Heard, response, message, give, answer, other_message, dispatch_message, written,
  forget_session, hear, hear_all, follow, Called, request, call_on, call_async, notify,
}

-- The calls of handlers of responses.
unfoldable pub responses : List Heard → ℕ
responses [] = 0
responses (response h m ∷ hs) = suc (responses hs)
responses (message h m ∷ hs) = responses hs

responses-append : (hs gs : List Heard) → responses (hs ++ gs) ≡ responses hs + responses gs
unfolding responses
responses-append [] gs = omega arith
responses-append (response h m ∷ hs) gs = omega (arith, responses-append hs gs)
responses-append (message h m ∷ hs) gs = responses-append hs gs

-- What has been called and what may still be.
unfoldable pub budget : RpcClient → ℕ
budget c = responses c.heard + length c.pending

module _ {ℓ} {V : Type ℓ} where
  length-insert : (k : ℕ) (v : V) (m : List (ℕ × V)) → length (insert k v m) ≤ length m + 1
  unfolding insert
  length-insert k v [] = omega arith
  length-insert k v ((j, w) ∷ m) = ground (arith, length-insert k v m)

  length-erase : (k : ℕ) (m : List (ℕ × V)) → length (erase k m) ≤ length m
  unfolding erase
  length-erase k [] = omega arith
  length-erase k ((j, w) ∷ m) = ground (arith, length-erase k m)

  length-erase_found :
      (k : ℕ) (v : V) (m : List (ℕ × V)) → lookup k m ≡ some v → length (erase k m) < length m
  unfolding erase lookup
  length-erase_found k v [] found = cc
  length-erase_found k v ((j, w) ∷ m) found =
      ground (arith, length-erase k m, length-erase_found k v m)

-- What the client hears does not raise it.
abbrev Spends : RpcClient → RpcClient → Type 0
Spends c d = budget d ≤ budget c

give-Spends : (o : Option ℕ) (m : RpcMessage) (c : RpcClient) → Spends c (give o m c)
unfolding give budget responses
give-Spends none m c = omega arith
give-Spends (some h) m c = omega (arith, responses-append c.heard (message h m ∷ []))

erased-Spends : (id : ℕ) (c : RpcClient) → Spends c (record c { pending = erase id c.pending })
unfolding budget
erased-Spends id c = omega (arith, length-erase id c.pending)

answer-Spends :
    (o : Option (Option ℕ)) (m : RpcMessage) (c : RpcClient)
    → lookup m.id c.pending ≡ o
    → Spends c (answer o m c)
unfolding answer other_message budget responses
answer-Spends none m c e = give-Spends c.message_handler m c
answer-Spends (some none) m c e = omega (
  arith,
  erased-Spends m.id c,
  give-Spends c.message_handler m (record c { pending = erase m.id c.pending }),
)
answer-Spends (some (some h)) m c e = omega (
  arith,
  length-erase_found m.id (some h) c.pending e,
  responses-append c.heard (response h m ∷ []),
)

dispatch_message-Spends : (m : RpcMessage) (c : RpcClient) → Spends c (dispatch_message m c)
unfolding dispatch_message other_message
dispatch_message-Spends m c =
    if-cases (Spends c) (m.kind == kind_response)
      (λ _. answer-Spends (lookup m.id c.pending) m c refl) (λ _. give-Spends c.message_handler m c)

written-Spends : (id : ℕ) (e : ErrorCode) (c : RpcClient) → Spends c (written id e c)
unfolding written
written-Spends id no_error c = omega arith
written-Spends id message_size c = erased-Spends id c
written-Spends id not_connected c = erased-Spends id c
written-Spends id protocol_error c = erased-Spends id c
written-Spends id (os e) c =
    if-cases (Spends c) (e == 0) (λ _. omega arith) (λ _. erased-Spends id c)

hear-Spends : (call : Call) (c : RpcClient) → Spends c (hear call c)
unfolding hear
hear-Spends (on_message h m) c = dispatch_message-Spends m c
hear-Spends (on_write id e) c = written-Spends id e c
hear-Spends (on_close h) c = unfold forget_session budget in omega arith
hear-Spends (loop_add fd e) c = omega arith
hear-Spends (loop_modify fd e) c = omega arith
hear-Spends (loop_remove fd) c = omega arith
hear-Spends (close_fd fd) c = omega arith
hear-Spends (socket_took b) c = omega arith

-- Whatever a session tells the client, in any order: the handlers of responses are called at most as
-- often as calls were pending, beyond the calls of such handlers before.
pub hear_all-budget : (calls : List Call) (c : RpcClient) → budget (hear_all calls c) ≤ budget c
unfolding hear_all
hear_all-budget [] c = omega arith
hear_all-budget (call ∷ calls) c =
    omega (arith, hear_all-budget calls (hear call c), hear-Spends call c)

-- The client is connected.
abbrev pub Connected : RpcClient → Type 0
Connected c = (s : Session) × (c.session ≡ some s) × (s.is_open ≡ true)

-- A message that goes out on an open session, with a client that hears whether it is too large.
send-Connected :
    (m : RpcMessage) (s : Session) (c : RpcClient)
    → s.is_open ≡ true
    → Connected (follow s (send m (some m.id) s).0 c)
unfolding send follow hear_all hear written
send-Connected m s c up =
    if-cases (λ (r : Session × Option Task). Connected (follow s r.0 c))
      (ltb max_frame_size (length (encode m)))
      (λ _.
        subst (λ l. Connected (hear_all l (record c { session = some large })))
          (sym (drop-append s.calls told)) (large, refl, up))
      (λ _.
        subst (λ l. Connected (hear_all l (record c { session = some s })))
          (sym (drop-length s.calls)) (s, refl, up))
  where
    told : List Call
    told = on_write m.id message_size ∷ []

    large : Session
    large = record s { calls = s.calls ++ told }

-- A call of a client that is connected goes through, leaves it connected, and adds one call at most.
pub call_async-Connected :
    (service method payload : List ℕ) (h : Option ℕ) (c : RpcClient)
    → Connected c
    → (called : Called) × (call_async service method payload h c ≡ some called)
      × Connected called.client
      × (budget called.client ≤ budget c + 1)
unfolding call_async call_on follow budget
call_async-Connected service method payload h c (s, open_session, up) = (
  call_on s m h c,
  ap
        (λ (o : Option Session). elim o [
          | none ↦ none
          | some t ↦ if t.is_open then some (call_on t m h c) else none
        ])
        open_session
      ∙ ap (λ b. if b then some (call_on s m h c) else none) up,
  unfold follow in send-Connected m s numbered up,
  omega (
    arith,
    hear_all-budget (drop (length s.calls) (send m (some m.id) s).0.calls)
        (record numbered { session = some (send m (some m.id) s).0 }),
    added,
  ),
)
  where
    m : RpcMessage
    m = request c.next_request_id service method payload

    numbered : RpcClient
    numbered = record c {
      next_request_id = (c.next_request_id + 1) % 2 ^ 64;
      pending = insert m.id h c.pending;
    }

    added : budget numbered ≤ budget c + 1
    added = omega (arith, length-insert m.id h c.pending)

send-quiet : (m : RpcMessage) (s : Session) → (send m none s).0 ≡ s
unfolding send
send-quiet m s =
    if-cases (λ (r : Session × Option Task). r.0 ≡ s) (ltb max_frame_size (length (encode m)))
      (λ _. refl) (λ _. refl)

-- So does a notification, which adds no call.
pub notify-Connected :
    (service method payload : List ℕ) (c : RpcClient)
    → Connected c
    → (told : RpcClient × Option Task) × (notify service method payload c ≡ some told)
      × Connected told.0
      × (budget told.0 ≡ budget c)
unfolding notify budget
notify-Connected service method payload c (s, open_session, up) = (
  tell s,
  ap
        (λ (o : Option Session). elim o [
          | none ↦ none
          | some t ↦ if t.is_open then some (tell t) else none
        ])
        open_session
      ∙ ap (λ b. if b then some (tell s) else none) up,
  ((send m none s).0, refl, ap (λ t. t.is_open) (send-quiet m s) ∙ up),
  refl,
)
  where
    m : RpcMessage
    m = record blank { kind = kind_notify; service = service; method = method; payload = payload }

    tell : Session → RpcClient × Option Task
    tell t = (record c { session = some (send m none t).0 }, (send m none t).1)

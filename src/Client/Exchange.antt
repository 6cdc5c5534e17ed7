-- ===== src/Client/Exchange.antt =====
-- A call and its response.
use insist.Base.{
  ℕ, ◌+◌, ◌%◌, ◌^◌, ◌≤◌, ◌<◌, ◌≡◌, refl, sym, ap, ◌∙◌, arith, true, ◌==◌, if-cases, List, [], ◌∷◌,
  ◌++◌, length, drop, drop-append, append_assoc, Option, none, some,
}
use mathlib.Core.Bool.{false≢true}
use insist.Base.Maps.{
  lookup, insert, erase, lookup-insert, lookup-erase, lookup_above, erase-insert,
}
use insist.Message.{RpcMessage, kind_response}
use insist.Wire.{encode}
use insist.Framing.{max_frame_size, make_frame}
use insist.Session.{Session, on_write, message_size, send, Task, send_frame}
use insist.Client.{
  RpcClient, response, message, answer, other_message, give, dispatch_message, written, hear,
  hear_all, follow, Called, request, call_on, call_async,
}
use insist.Client.Pending.{IsNumbered}

send_fits :
    (m : RpcMessage) (o : Option ℕ) (s : Session)
    → length (encode m) ≤ max_frame_size
    → send m o s ≡ (s, some (send_frame (make_frame (encode m)) o))
unfolding send
send_fits m o s h = ground arith

send_large :
    (m : RpcMessage) (id : ℕ) (s : Session)
    → max_frame_size < length (encode m)
    → send m (some id) s ≡ (record s { calls = s.calls ++ on_write id message_size ∷ [] }, none)
unfolding send
send_large m id s h = ground arith

pub drop-length : {A : Type 0} (xs : List A) → drop (length xs) xs ≡ []
drop-length [] = refl
drop-length (x ∷ xs) = drop-length xs

follow_quiet : (s : Session) (c : RpcClient) → follow s s c ≡ record c { session = some s }
unfolding follow hear_all
follow_quiet s c = ap (λ l. hear_all l (record c { session = some s })) (drop-length s.calls)

follow_refused :
    (id : ℕ) (s : Session) (c : RpcClient)
    → (follow s (record s { calls = s.calls ++ on_write id message_size ∷ [] }) c).pending
      ≡ erase id c.pending
unfolding follow hear_all hear written
follow_refused id s c =
    ap
      (λ l.
        (hear_all l (record c {
          session = some (record s { calls = s.calls ++ on_write id message_size ∷ [] });
        })).pending)
      (drop-append s.calls (on_write id message_size ∷ []))

-- The response to a pending call.
answered :
    (r : RpcMessage) (h : ℕ) (c : RpcClient)
    → r.kind ≡ kind_response
    → lookup r.id c.pending ≡ some (some h)
    → dispatch_message r c
      ≡ record c { heard = c.heard ++ response h r ∷ []; pending = erase r.id c.pending }
unfolding dispatch_message answer
answered r h c k q =
    if-cases
      (λ (t : RpcClient).
        t ≡ record c { heard = c.heard ++ response h r ∷ []; pending = erase r.id c.pending })
      (r.kind == kind_response) (λ _. ap (λ o. answer o r c) q) (λ e. ground (arith, e, k))

-- `call_async` on an open session, with a handler, where the pending calls have numbers that were given
-- out and the encoding of the request is within the limit: the call has the next number and posts
-- the frame of its request, and a response with its number that comes next reaches the handler once
-- and leaves the table of pending calls as it was before the call.
pub call_async-dispatch_message :
    (service method payload : List ℕ) (h : ℕ) (s : Session) (c : RpcClient) (r : RpcMessage)
    → IsNumbered c
    → s.is_open ≡ true
    → length (encode (request c.next_request_id service method payload)) ≤ max_frame_size
    → r.kind ≡ kind_response
    → r.id ≡ c.next_request_id
    → (called : Called) × (call_async service method payload
          (some h)
          (record c { session = some s })
        ≡ some called)
      × (called.id ≡ c.next_request_id)
      × (called.task
          ≡ some (
              send_frame
                (make_frame (encode (request c.next_request_id service method payload)))
                (some called.id)))
      × (let done = dispatch_message r called.client in
          (done.heard ≡ c.heard ++ response h r ∷ []) × (done.pending ≡ c.pending))
unfolding call_async call_on follow
call_async-dispatch_message service method payload h s c r n up fits k q = (
  call_on s m (some h) c,
  if-cases (λ (t : Option Called). t ≡ some (call_on s m (some h) c)) s.is_open (λ _. refl)
      (λ down. absurd (false≢true (sym down ∙ up))),
  unfold request in refl,
  unfold request in ap (λ (t : Session × Option Task). t.1) (send_fits m (some m.id) s fits),
  done,
)
  where
    m : RpcMessage
    m = request c.next_request_id service method payload

    numbered : RpcClient
    numbered = record c {
      session = some s;
      next_request_id = (c.next_request_id + 1) % 2 ^ 64;
      pending = insert m.id (some h) c.pending;
    }

    client_is : (call_on s m (some h) c).client ≡ numbered
    client_is =
        ap (λ (t : Session × Option Task). follow s t.0 numbered) (send_fits m (some m.id) s fits)
        ∙ follow_quiet s numbered

    numbered_id : m.id ≡ c.next_request_id
    numbered_id = unfold request in refl

    found : lookup r.id numbered.pending ≡ some (some h)
    found = ground (arith, lookup-insert r.id m.id (some h) c.pending, q, numbered_id)

    absent : lookup m.id c.pending ≡ none
    absent =
        lookup_above c.next_request_id m.id c.pending (unfold IsNumbered in n)
          (omega (arith, numbered_id))

    restored : erase r.id numbered.pending ≡ c.pending
    restored =
        ap (λ i. erase i numbered.pending) (q ∙ sym numbered_id)
        ∙ erase-insert m.id (some h) c.pending absent

    done :
        let t = dispatch_message r (call_on s m (some h) c).client in
        (t.heard ≡ c.heard ++ response h r ∷ []) × (t.pending ≡ c.pending)
    done =
        let e = ap (dispatch_message r) client_is ∙ answered r h numbered k found in
        (ap (λ (t : RpcClient). t.heard) e, ap (λ (t : RpcClient). t.pending) e ∙ restored)

-- `call_async` on an open session, where the pending calls have numbers that were given out and the
-- encoding of the request is over the limit: it returns the next number all the same, posts nothing
-- and leaves the table of pending calls as it was.
pub call_async-too_large :
    (service method payload : List ℕ) (handler : Option ℕ) (s : Session) (c : RpcClient)
    → IsNumbered c
    → s.is_open ≡ true
    → max_frame_size < length (encode (request c.next_request_id service method payload))
    → (called : Called) × (call_async service method payload handler (record c { session = some s })
        ≡ some called)
      × (called.id ≡ c.next_request_id)
      × (called.task ≡ none)
      × (called.client.pending ≡ c.pending)
unfolding call_async call_on follow
call_async-too_large service method payload handler s c n up large = (
  call_on s m handler c,
  if-cases (λ (t : Option Called). t ≡ some (call_on s m handler c)) s.is_open (λ _. refl)
      (λ down. absurd (false≢true (sym down ∙ up))),
  numbered_id,
  ap (λ (t : Session × Option Task). t.1) (send_large m m.id s large),
  ap (λ (t : Session × Option Task). (follow s t.0 numbered).pending) (send_large m m.id s large)
      ∙ follow_refused m.id s numbered
      ∙ erase-insert m.id handler c.pending absent,
)
  where
    m : RpcMessage
    m = request c.next_request_id service method payload

    numbered : RpcClient
    numbered = record c {
      next_request_id = (c.next_request_id + 1) % 2 ^ 64;
      pending = insert m.id handler c.pending;
    }

    numbered_id : m.id ≡ c.next_request_id
    numbered_id = unfold request in refl

    absent : lookup m.id c.pending ≡ none
    absent =
        lookup_above c.next_request_id m.id c.pending (unfold IsNumbered in n)
          (omega (arith, numbered_id))

unanswered :
    (m : RpcMessage) (c : RpcClient)
    → lookup m.id c.pending ≡ none
    → dispatch_message m c ≡ give c.message_handler m c
unfolding dispatch_message answer other_message
unanswered m c q =
    if-cases (λ (t : RpcClient). t ≡ give c.message_handler m c) (m.kind == kind_response)
      (λ _. ap (λ o. answer o m c) q) (λ _. refl)

-- A response to a pending call with a handler reaches this handler; the next message with its number
-- goes to the message handler of the client, if there is one, also if it is a response again.
pub dispatch_message-twice :
    (r again : RpcMessage) (h k : ℕ) (c : RpcClient)
    → r.kind ≡ kind_response
    → again.id ≡ r.id
    → lookup r.id c.pending ≡ some (some h)
    → c.message_handler ≡ some k
    → (dispatch_message again (dispatch_message r c)).heard
      ≡ c.heard ++ response h r ∷ message k again ∷ []
dispatch_message-twice r again h k c e q found handler =
    ap (λ (t : RpcClient). (dispatch_message again t).heard) (answered r h c e found)
    ∙ ap (λ (t : RpcClient). t.heard) (unanswered again after gone)
    ∙ ap (λ o. (give o again after).heard) handler
    ∙ unfold give in append_assoc c.heard (response h r ∷ []) (message k again ∷ [])
  where
    after : RpcClient
    after = record c { heard = c.heard ++ response h r ∷ []; pending = erase r.id c.pending }

    gone : lookup again.id after.pending ≡ none
    gone = ground (arith, lookup-erase again.id r.id c.pending, q)

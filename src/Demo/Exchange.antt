-- ===== src/Demo/Exchange.antt =====
-- The answers of the demo server, and a call from the client to its response.
use insist.Base.{
  ℕ, ◌+◌, ◌^◌, ◌≤◌, ◌<◌, ◌≡◌, refl, sym, ap, subst, append-nil, ◌∙◌, arith, true, if-cases, ◌==◌,
  inl, inr, ◌⊎◌, List, [], ◌∷◌, ◌++◌, map, length, length-append, All, All-append, pos, ℤ, IsI32,
  some,
}
use insist.Message.{RpcMessage, IsByte, IsText, IsTyped, kind_response}
use insist.Wire.{encode}
use insist.Wire.Total.{IsNonNegative}
use insist.Framing.{max_frame_size}
use insist.Session.{Session, send_frame, next_message, deliver}
use insist.Session.Delivery.{IsSendable, frame, next_message-frame}
use insist.Client.{RpcClient, response, request, dispatch_message, Called, call_async}
use insist.Client.Pending.{IsNumbered}
use insist.Client.Exchange.{call_async-dispatch_message}
use insist.Demo.{codes, now_text, to_upper, response_to, not_found, handle_demo_request, same_text}

now_text-bytes : (cs : List ℕ) → All IsByte cs → All IsByte (now_text cs)
unfolding now_text
now_text-bytes [] b = tt
now_text-bytes (c ∷ []) b = if-cases (All IsByte) (c == 10) (λ _. tt) (λ _. b)
now_text-bytes (c ∷ d ∷ cs) b = (b.0, now_text-bytes (d ∷ cs) b.1)

length-now_text : (cs : List ℕ) → length (now_text cs) ≤ length cs
unfolding now_text
length-now_text [] = omega arith
length-now_text (c ∷ []) = ground arith
length-now_text (c ∷ d ∷ cs) = omega (arith, length-now_text (d ∷ cs))

upper-bytes : (cs : List ℕ) → All IsByte cs → All IsByte (map to_upper cs)
unfolding to_upper
upper-bytes [] b = tt
upper-bytes (c ∷ cs) b = (ground (arith, b.0), upper-bytes cs b.1)

length-upper : (cs : List ℕ) → length (map to_upper cs) ≡ length cs
length-upper [] = refl
length-upper (c ∷ cs) = omega (arith, length-upper cs)

empty-IsText : IsText []
empty-IsText = record { bytes = tt; fits = omega arith }

now_text-IsText : (cs : List ℕ) → IsText cs → IsText (now_text cs)
now_text-IsText cs t = record {
  bytes = now_text-bytes cs t.bytes;
  fits = omega (arith, length-now_text cs, t.fits);
}

upper-IsText : (cs : List ℕ) → IsText cs → IsText (map to_upper cs)
upper-IsText cs t = record {
  bytes = upper-bytes cs t.bytes;
  fits = omega (arith, length-upper cs, t.fits);
}

error-IsText :
    (prefix name : List ℕ)
    → IsText prefix
    → IsText name
    → length prefix + length name < 2 ^ 64
    → IsText (prefix ++ name)
error-IsText prefix name p n h = record {
  bytes = All-append IsByte prefix name p.bytes n.bytes;
  fits = omega (arith, length-append prefix name, h);
}

-- A response to the request, of the types of the fields: it repeats the number, the service and the
-- method, and either succeeds without an error text or has the status 404 and no payload.
pub record Answers (q r : RpcMessage) : Type 0 where
  pub id_kept : r.id ≡ q.id
  pub kind_is : r.kind ≡ kind_response
  pub service_kept : r.service ≡ q.service
  pub method_kept : r.method ≡ q.method
  pub outcome : ((r.status ≡ pos 0) × (r.error ≡ [])) ⊎ ((r.status ≡ pos 404) × (r.payload ≡ []))
  pub payload_text : IsText r.payload
  pub error_text : IsText r.error

module _ (clock : List ℕ) (q : RpcMessage) (now : IsText clock) (t : IsTyped q)
    (room : length q.service + length q.method + 17 < 2 ^ 64) where
  with_payload : (p : List ℕ) → IsText p → Answers q (record (response_to q) { payload = p })
  unfolding response_to
  with_payload p h = record {
    id_kept = refl;
    kind_is = refl;
    service_kept = refl;
    method_kept = refl;
    outcome = inl (refl, refl);
    payload_text = h;
    error_text = empty-IsText;
  }

  with_error : (e : List ℕ) → IsText e → Answers q (not_found e (response_to q))
  unfolding response_to not_found
  with_error e h = record {
    id_kept = refl;
    kind_is = refl;
    service_kept = refl;
    method_kept = refl;
    outcome = inr (refl, refl);
    payload_text = empty-IsText;
    error_text = h;
  }

  -- `handle_demo_request` answers every request with fields in the ranges of their C++ types, whatever
  -- its service and method, if there is room for an error text with them and `clock` is a text.
  pub handle_demo_request-Answers : Answers q (handle_demo_request clock q)
  unfolding handle_demo_request
  handle_demo_request-Answers =
      if-cases (Answers q) (same_text q.service (codes "DemoService"))
        (λ _.
          if-cases (Answers q) (same_text q.method (codes "echo"))
            (λ _. with_payload q.payload t.payload_text)
            (λ _.
              if-cases (Answers q) (same_text q.method (codes "upper"))
                (λ _. with_payload (map to_upper q.payload) (upper-IsText q.payload t.payload_text))
                (λ _.
                  if-cases (Answers q) (same_text q.method (codes "time"))
                    (λ _. with_payload (now_text clock) (now_text-IsText clock now))
                    (λ _. with_error (codes "unknown method: " ++ q.method) (
                      error-IsText (codes "unknown method: ") q.method (omega arith) t.method_text
                        (omega (arith, room)))))))
        (λ _. with_error (codes "unknown service: " ++ q.service) (
          error-IsText (codes "unknown service: ") q.service (omega arith) t.service_text
            (omega (arith, room))))

-- Both statuses of an answer satisfy what holds of 0 and of 404.
Answers-status :
    (P : ℤ → Type 0) (q r : RpcMessage) → Answers q r → P (pos 0) → P (pos 404) → P r.status
Answers-status P q r a zero found = elim a.outcome [
  | inl (e, _) ↦ subst P (sym e) zero
  | inr (e, _) ↦ subst P (sym e) found
]

-- What an answer needs to get through: the types of its fields.
pub Answers-IsTyped : (q r : RpcMessage) → IsTyped q → Answers q r → IsTyped r
Answers-IsTyped q r t a = record {
  id_u64 = omega (arith, a.id_kept, t.id_u64);
  kind_u32 = omega (arith, a.kind_is);
  service_text = subst IsText (sym a.service_kept) t.service_text;
  method_text = subst IsText (sym a.method_kept) t.method_text;
  payload_text = a.payload_text;
  status_i32 = Answers-status IsI32 q r a (omega arith) (omega arith);
  error_text = a.error_text;
}

pub Answers-IsNonNegative : (q r : RpcMessage) → Answers q r → IsNonNegative r.status
Answers-IsNonNegative q r a = Answers-status IsNonNegative q r a (omega arith) (omega arith)

-- A call from the client to its response, with the demo server at the other end. The client's session
-- is open and its pending calls have numbers that were given out, the service, the method and the
-- payload are texts, and the encodings of the request and of the answer are within the limit. Then
-- the frame that the call posts is the request to the server, the frame of the server's answer is
-- the answer to the client, and with this answer the client calls the handler of the call, and
-- leaves the table of pending calls as it was before the call.
pub demo_exchange :
    (clock service method payload : List ℕ) (h : ℕ) (s : Session) (c : RpcClient)
    → IsText clock
    → IsTyped (request c.next_request_id service method payload)
    → length service + length method + 17 < 2 ^ 64
    → IsNumbered c
    → s.is_open ≡ true
    → length (encode (request c.next_request_id service method payload)) ≤ max_frame_size
    → length (encode (handle_demo_request clock (request c.next_request_id service method payload)))
      ≤ max_frame_size
    → let q = request c.next_request_id service method payload in
      let r = handle_demo_request clock q in
      (called : Called) × (call_async service method payload
          (some h)
          (record c { session = some s })
        ≡ some called)
      × (called.task ≡ some (send_frame (frame q) (some called.id)))
      × (next_message (frame q) ≡ deliver q [])
      × (next_message (frame r) ≡ deliver r [])
      × ((dispatch_message r called.client).heard ≡ c.heard ++ response h r ∷ [])
      × ((dispatch_message r called.client).pending ≡ c.pending)
demo_exchange clock service method payload h s c now typed room n up fits answer_fits =
    let (called, a, b, d, (e, f)) =
      call_async-dispatch_message service method payload h s c r n up fits reply.kind_is
        (reply.id_kept ∙ unfold request in refl) in
    (called, a, d, arrives q q_sendable, arrives r r_sendable, e, f)
  where
    q : RpcMessage
    q = request c.next_request_id service method payload

    r : RpcMessage
    r = handle_demo_request clock q

    reply : Answers q r
    reply = handle_demo_request-Answers clock q now typed (unfold request in room)

    q_sendable : IsSendable q
    q_sendable = record { typed = typed; status = unfold request in omega arith; fits = fits }

    r_sendable : IsSendable r
    r_sendable = record {
      typed = Answers-IsTyped q r typed reply;
      status = Answers-IsNonNegative q r reply;
      fits = answer_fits;
    }

    arrives : (m : RpcMessage) → IsSendable m → next_message (frame m) ≡ deliver m []
    arrives m sendable =
        ap next_message (sym (append-nil (frame m))) ∙ next_message-frame m [] sendable

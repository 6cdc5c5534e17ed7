-- ===== src/Session/Delivery.antt =====
-- What reaches the message handler.
use insist.Base.{
  ℕ, ◌≤◌, ◌≡◌, refl, sym, ap, ◌∙◌, true, List, [], ◌∷◌, ◌++◌, map, append-nil, append_assoc, length,
  All, some, ℤ, pos, negsuc,
}
use insist.Message.{RpcMessage, IsTyped}
use insist.Wire.{encode, decode, decoded}
use insist.Wire.RoundTrip.{decode-encode}
use insist.Wire.Total.{IsNonNegative}
use insist.Framing.{max_frame_size, make_frame}
use insist.Framing.Pop.{try_pop_frame-make_frame, try_pop_frame-nil}
use insist.Session.{
  Session, on_message, emit, emit_for, deliver, wait, next_message, popped_next, decoded_next,
}
use insist.Session.Incoming.{drain, drain-wait, drain-deliver}
use insist.Session.Segments.{forget}

-- What `Session::send` puts on the wire for a message that it accepts.
abbrev pub frame : RpcMessage → List ℕ
frame m = make_frame (encode m)

abbrev pub stream : List RpcMessage → List ℕ
stream [] = []
stream (m ∷ ms) = frame m ++ stream ms

-- The messages that get through: the values of the C++ types, a status of 0 or more, and an encoding
-- within the limit.
pub record IsSendable (m : RpcMessage) : Type 0 where
  pub typed : IsTyped m
  pub status : IsNonNegative m.status
  pub fits : length (encode m) ≤ max_frame_size

pub decode-encode_sendable : (m : RpcMessage) → IsSendable m → decode (encode m) ≡ decoded m
decode-encode_sendable m s = by_status m.status s.status refl
  where
    by_status : (z : ℤ) → IsNonNegative z → m.status ≡ z → decode (encode m) ≡ decoded m
    by_status (pos n) h e = decode-encode m n s.typed e
    by_status (negsuc n) h e = elim h [ ]

pub next_message-frame :
    (m : RpcMessage) (rest : List ℕ)
    → IsSendable m
    → next_message (frame m ++ rest) ≡ deliver m rest
unfolding next_message popped_next decoded_next
next_message-frame m rest s =
    rw (try_pop_frame-make_frame (encode m) rest s.fits, popped_next, decode-encode_sendable m s)

pub next_message-nil : next_message [] ≡ wait
unfolding next_message popped_next
next_message-nil = rw (try_pop_frame-nil, popped_next)

pub drain-stream :
    (h : ℕ) (ms : List RpcMessage) (s : Session)
    → s.is_open ≡ true
    → s.message_handler ≡ some h
    → All IsSendable ms
    → drain (record s { read_buffer = stream ms })
      ≡ record s { read_buffer = []; calls = s.calls ++ map (on_message h) ms }
drain-stream h [] s up e sendable =
    drain-wait (forget s) next_message-nil
    ∙ ap (λ c. record s { read_buffer = []; calls = c }) (sym (append-nil s.calls))
drain-stream h (m ∷ ms) s up e sendable =
    drain-deliver (record s { read_buffer = stream (m ∷ ms) }) m (stream ms) up
      (next_message-frame m (stream ms) sendable.0)
    ∙ ap (λ o. drain (emit_for o (λ x. on_message x m) (record s { read_buffer = stream ms }))) e
    ∙ drain-stream h ms (emit (on_message h m) s) up e sendable.1
    ∙ ap (λ c. record s { read_buffer = []; calls = c })
        (append_assoc s.calls (on_message h m ∷ []) (map (on_message h) ms))

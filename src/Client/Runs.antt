-- ===== src/Client/Runs.antt =====
-- The theorems of the client at concrete states.
use insist.Base.{
  ℕ, ◌<◌, ◌≤◌, ◌≡◌, refl, ap, arith, List, [], ◌∷◌, length, All, zero, suc, none, some,
}
use insist.Base.Maps.{lookup}
use insist.Message.{RpcMessage, IsByte, IsText, IsTyped, blank, kind_response}
use insist.Wire.{encode, write_varint, write_varint_loop, write_tag, write_length_delimited}
use insist.Wire.Format.{length-encode_payload}
use insist.Framing.{max_frame_size, make_frame}
use insist.Session.{Session, connection, send_frame}
use insist.Client.{
  RpcClient, response, message, fresh, set_message_handler, request, dispatch_message, Called,
  call_async,
}
use insist.Client.Pending.{IsNumbered}
use insist.Client.Exchange.{
  call_async-dispatch_message, call_async-too_large, dispatch_message-twice,
}

-- A client with the message handler 6, to which the calls 1 and 2 are pending.
abbrev waits : RpcClient
waits = record (set_message_handler 6 fresh) {
  next_request_id = 3;
  pending = (1, some 8) ∷ (2, some 9) ∷ [];
}

waits-IsNumbered : IsNumbered waits
unfolding IsNumbered fresh set_message_handler
waits-IsNumbered = ground arith

abbrev line : Session
line = connection 9 5

abbrev reply : ℕ → RpcMessage
reply id = record blank { id = id; kind = kind_response }

small_fits : length (encode (request 3 (1 ∷ []) [] (7 ∷ 7 ∷ []))) ≤ max_frame_size
unfolding encode request write_varint write_varint_loop write_tag write_length_delimited
small_fits = omega arith

call_async-dispatch_message_example :
    (called : Called) × (call_async
        (1 ∷ [])
        []
        (7 ∷ 7 ∷ [])
        (some 4)
        (record waits { session = some line })
      ≡ some called)
    × (called.id ≡ 3)
    × (called.task
        ≡ some (
            send_frame (make_frame (encode (request 3 (1 ∷ []) [] (7 ∷ 7 ∷ [])))) (some called.id)))
    × (let done = dispatch_message (reply 3) called.client in
        (done.heard ≡ response 4 (reply 3) ∷ []) × (done.pending ≡ waits.pending))
unfolding fresh set_message_handler connection
call_async-dispatch_message_example =
    call_async-dispatch_message (1 ∷ []) [] (7 ∷ 7 ∷ []) 4 line waits (reply 3) waits-IsNumbered
      refl small_fits refl refl

dispatch_message-twice_example :
    (dispatch_message (reply 2) (dispatch_message (reply 2) waits)).heard
    ≡ response 9 (reply 2) ∷ message 6 (reply 2) ∷ []
unfolding fresh set_message_handler lookup
dispatch_message-twice_example =
    dispatch_message-twice (reply 2) (reply 2) 9 6 waits refl refl refl refl

-- `n` bytes.
sevens : ℕ → List ℕ
sevens zero = []
sevens (suc n) = 7 ∷ sevens n

length-sevens : (n : ℕ) → length (sevens n) ≡ n
unfolding sevens
length-sevens zero = refl
length-sevens (suc n) = omega (arith, length-sevens n)

sevens-bytes : (n : ℕ) → All IsByte (sevens n)
unfolding sevens
sevens-bytes zero = tt
sevens-bytes (suc n) = (omega arith, sevens-bytes n)

sevens-IsText : IsText (sevens 5000000)
sevens-IsText = record { bytes = sevens-bytes 5000000; fits = omega (arith, length-sevens 5000000) }

empty-IsText : IsText []
empty-IsText = omega arith

large-IsTyped : IsTyped (request 3 [] [] (sevens 5000000))
unfolding request
large-IsTyped = record {
  id_u64 = omega arith;
  kind_u32 = omega arith;
  service_text = empty-IsText;
  method_text = empty-IsText;
  payload_text = sevens-IsText;
  status_i32 = omega arith;
  error_text = empty-IsText;
}

large : max_frame_size < length (encode (request 3 [] [] (sevens 5000000)))
large = omega (
  arith,
  length-encode_payload (request 3 [] [] (sevens 5000000)) large-IsTyped,
  length-sevens 5000000,
  ap length (the_payload),
)
  where
    the_payload : (request 3 [] [] (sevens 5000000)).payload ≡ sevens 5000000
    the_payload = unfold request in refl

call_async-too_large_example :
    (called : Called) × (call_async [] []
        (sevens 5000000)
        (some 4)
        (record waits { session = some line })
      ≡ some called)
    × (called.id ≡ 3)
    × (called.task ≡ none)
    × (called.client.pending ≡ waits.pending)
unfolding fresh set_message_handler connection
call_async-too_large_example =
    call_async-too_large [] [] (sevens 5000000) (some 4) line waits waits-IsNumbered refl large

-- ===== src/Demo/Runs.antt =====
-- The demo server at concrete requests.
use insist.Base.{ℕ, ◌+◌, ◌<◌, ◌^◌, ◌≤◌, ◌≡◌, refl, arith, List, [], ◌∷◌, ◌++◌, length, some}
use insist.Message.{blank, kind_response, RpcMessage, IsText, IsTyped}
use insist.Wire.{encode, write_varint, write_varint_loop, write_tag, write_length_delimited}
use insist.Framing.{max_frame_size}
use insist.Session.{Call, on_message, connection, send_frame, next_message, deliver}
use insist.Session.Delivery.{frame}
use insist.Client.{
  RpcClient, hear_all, response, fresh, request, dispatch_message, Called, call_async,
}
use insist.Client.Pending.{IsNumbered}
use insist.Demo.{codes, to_upper, same_text, response_to, not_found, handle_demo_request}
use insist.Client.Budget.{Connected, budget, responses}
use insist.Demo.Caller.{make_calls, run_main, Counted, make_calls-Counted}
use insist.Demo.Exchange.{demo_exchange}
use insist.Demo.Replies.{Replies, handle_demo_request-Replies}

abbrev noon : List ℕ
noon = codes "12:00" ++ 10 ∷ []

noon-IsText : IsText noon
noon-IsText = omega arith

-- `upper` of `hi`.
abbrev upper_hi : RpcMessage
upper_hi = request 1 (codes "DemoService") (codes "upper") (codes "hi")

upper_hi-IsTyped : IsTyped upper_hi
unfolding request
upper_hi-IsTyped = omega arith

upper_hi-room : length upper_hi.service + length upper_hi.method + 17 < 2 ^ 64
unfolding request
upper_hi-room = omega arith

noon_line : noon ≡ codes "12:00" ++ 10 ∷ []
noon_line = refl

handle_demo_request-Replies_example :
    Replies (codes "12:00") upper_hi (handle_demo_request noon upper_hi)
handle_demo_request-Replies_example =
    handle_demo_request-Replies noon (codes "12:00") upper_hi noon_line

fresh-IsNumbered : IsNumbered fresh
unfolding IsNumbered fresh
fresh-IsNumbered = tt

upper_hi_answer :
    handle_demo_request noon upper_hi ≡ record upper_hi { kind = 2; payload = codes "HI" }
unfolding handle_demo_request request to_upper same_text response_to not_found
upper_hi_answer = refl

upper_hi_fits : length (encode upper_hi) ≤ max_frame_size
unfolding encode request write_varint write_varint_loop write_tag write_length_delimited
upper_hi_fits = omega arith

answer_fits : length (encode (handle_demo_request noon upper_hi)) ≤ max_frame_size
unfolding handle_demo_request encode request write_varint write_varint_loop write_tag
    write_length_delimited to_upper same_text response_to not_found
answer_fits = omega arith

demo_exchange_example :
    let r = handle_demo_request noon upper_hi in
    (called : Called) × (call_async
        (codes "DemoService")
        (codes "upper")
        (codes "hi")
        (some 4)
        (record fresh { session = some (connection 9 5) })
      ≡ some called)
    × (called.task ≡ some (send_frame (frame upper_hi) (some called.id)))
    × (next_message (frame upper_hi) ≡ deliver upper_hi [])
    × (next_message (frame r) ≡ deliver r [])
    × ((dispatch_message r called.client).heard ≡ response 4 r ∷ [])
    × ((dispatch_message r called.client).pending ≡ [])
unfolding fresh connection request
demo_exchange_example =
    demo_exchange noon (codes "DemoService") (codes "upper") (codes "hi") 4 (connection 9 5) fresh
      noon-IsText upper_hi-IsTyped upper_hi-room fresh-IsNumbered refl upper_hi_fits answer_fits

-- The client of the demo, connected, and its calls answered in another order than they were made.
abbrev joined : RpcClient
joined = record fresh { session = some (connection 9 5) }

joined-Connected : (Connected joined) × (budget joined ≡ 0)
unfolding connection fresh budget responses
joined-Connected = ((connection 9 5, refl, refl), refl)

abbrev to_call : ℕ → RpcMessage
to_call id = record blank { id = id; kind = kind_response }

abbrev all_answered : List Call
all_answered = on_message 0 (to_call 2) ∷ on_message 0 (to_call 3) ∷ on_message 0 (to_call 1) ∷ []

make_calls-Counted_example :
    (d : RpcClient) × (make_calls joined ≡ some d)
    × (let heard = (hear_all all_answered d).heard in Counted (responses heard) (run_main 2 heard))
make_calls-Counted_example =
    make_calls-Counted all_answered 2 joined joined-Connected.0 joined-Connected.1

-- ===== src/Demo/Caller.antt =====
-- examples/client_main.cpp: the calls of the demo client, how it counts the responses, and the end of its
-- `main`. What it prints is left out; the loop runs in a thread of its own, so the wait ends behind any
-- number of the calls that the client makes of its handlers.
use insist.Base.{
  ℕ, ◌+◌, ◌-◌, ◌≤◌, ◌≡◌, refl, sym, subst, ap, ◌∙◌, Bool, true, false, take, drop, arith, ◌>>=◌,
  zero, suc, ◌==◌, if◌then◌else◌, List, [], ◌∷◌, Option, some, ℤ, pos, negsuc,
}
use insist.Wire.{is_zero}
use insist.Session.{Call}
use insist.Client.{RpcClient, Heard, response, message, call_async, notify, hear_all}
use insist.Client.Budget.{
  responses, budget, Connected, hear_all-budget, call_async-Connected, notify-Connected,
}
use insist.Demo.{codes}

-- `remaining`, and how often the client has been closed and the loop stopped.
pub record Counter : Type 0 where
  pub remaining : ℤ
  pub closes : ℕ
  pub stops : ℕ

abbrev pub three_calls : Counter
three_calls = record { remaining = pos 3; closes = 0; stops = 0 }

-- `--remaining`
unfoldable pub decrement : ℤ → ℤ
decrement (pos zero) = negsuc 0
decrement (pos (suc n)) = pos n
decrement (negsuc n) = negsuc (n + 1)

-- The handler of the three calls.
unfoldable pub on_response : Counter → Counter
on_response k =
    let counted = record k { remaining = decrement k.remaining } in
    if is_zero counted.remaining
    then record counted { closes = k.closes + 1; stops = k.stops + 1 }
    else counted

-- The handlers that the client calls; the message handler only prints.
unfoldable pub react : List Heard → Counter → Counter
react [] k = k
react (response h m ∷ hs) k = react hs (on_response k)
react (message h m ∷ hs) k = react hs k

-- The end of `main`, when its wait is over.
unfoldable pub finish : Counter → Counter
finish k = record k { closes = k.closes + 1; stops = k.stops + 1 }

-- The handlers that the client calls, where the wait ends behind the first `waited` of them; the
-- others are called before the loop has stopped.
unfoldable pub run_main : (waited : ℕ) → List Heard → Counter
run_main waited heard = react (drop waited heard) (finish (react (take waited heard) three_calls))

-- What `main` returns.
unfoldable pub exit_code : Counter → ℕ
exit_code k = if is_zero k.remaining then 0 else 1

-- The number that names `on_response`.
abbrev on_response_id : ℕ
on_response_id = 0

-- The notification and the three calls of `main`.
unfoldable pub make_calls : RpcClient → Option RpcClient
make_calls c = do
  (ready, task) ← notify (codes "Client") (codes "ready") (codes "client can also push messages") c
  echo ←
      call_async (codes "DemoService") (codes "echo") (codes "hello mini rpc") (some on_response_id)
        ready
  upper ←
      call_async (codes "DemoService") (codes "upper") (codes "full duplex protobuf")
        (some on_response_id) echo.client
  time ← call_async (codes "DemoService") (codes "time") [] (some on_response_id) upper.client
  some time.client

times : ℕ → Counter → Counter
times zero k = k
times (suc n) k = times n (on_response k)

react-times : (hs : List Heard) (k : Counter) → react hs k ≡ times (responses hs) k
unfolding react responses times
react-times [] k = refl
react-times (response h m ∷ hs) k = react-times hs (on_response k)
react-times (message h m ∷ hs) k = react-times hs k

on_response-finish : (k : Counter) → on_response (finish k) ≡ finish (on_response k)
unfolding on_response finish
on_response-finish k = both (is_zero (decrement k.remaining))
  where
    counted : Counter
    counted = record k { remaining = decrement k.remaining }

    both :
        (t : Bool)
        → (if t
            then record (finish counted) { closes = k.closes + 1 + 1; stops = k.stops + 1 + 1 }
            else finish counted)
          ≡ finish
              (if t then record counted { closes = k.closes + 1; stops = k.stops + 1 } else counted)
    both true = refl
    both false = refl

react-finish : (hs : List Heard) (k : Counter) → react hs (finish k) ≡ finish (react hs k)
unfolding react
react-finish [] k = refl
react-finish (response h m ∷ hs) k =
    ap (react hs) (on_response-finish k) ∙ react-finish hs (on_response k)
react-finish (message h m ∷ hs) k = react-finish hs k

react-split :
    (n : ℕ) (hs : List Heard) (k : Counter) → react (drop n hs) (react (take n hs) k) ≡ react hs k
unfolding react
react-split zero hs k = refl
react-split (suc n) [] k = refl
react-split (suc n) (response h m ∷ hs) k = react-split n hs (on_response k)
react-split (suc n) (message h m ∷ hs) k = react-split n hs k

run_main-finish :
    (n : ℕ) (hs : List Heard) → run_main n hs ≡ finish (times (responses hs) three_calls)
unfolding run_main
run_main-finish n hs =
    react-finish (drop n hs) (react (take n hs) three_calls)
    ∙ ap finish (react-split n hs three_calls ∙ react-times hs three_calls)

-- The counter at the end of `main`, after `n` responses.
pub record Counted (n : ℕ) (k : Counter) : Type 0 where
  pub at_most : n ≤ 3
  pub left : k.remaining ≡ pos (3 - n)
  pub closed : k.closes ≡ (if n == 3 then 2 else 1)
  pub stopped : k.stops ≡ (if n == 3 then 2 else 1)
  pub exits : exit_code k ≡ (if n == 3 then 0 else 1)

times-Counted : (n : ℕ) → n ≤ 3 → Counted n (finish (times n three_calls))
unfolding times on_response decrement exit_code finish
times-Counted zero h = record {
  at_most = h;
  left = refl;
  closed = refl;
  stopped = refl;
  exits = refl;
}
times-Counted (suc zero) h = record {
  at_most = h;
  left = refl;
  closed = refl;
  stopped = refl;
  exits = refl;
}
times-Counted (suc (suc zero)) h = record {
  at_most = h;
  left = refl;
  closed = refl;
  stopped = refl;
  exits = refl;
}
times-Counted (suc (suc (suc zero))) h = record {
  at_most = h;
  left = refl;
  closed = refl;
  stopped = refl;
  exits = refl;
}
times-Counted (suc (suc (suc (suc n)))) h = absurd (omega (arith, h))

-- The calls go through on a client that is connected.
make_calls-Connected :
    (c : RpcClient)
    → Connected c
    → (d : RpcClient) × (make_calls c ≡ some d) × (budget d ≤ budget c + 3)
unfolding make_calls
make_calls-Connected c up =
    let (ready, told, up1, b1) =
      notify-Connected (codes "Client") (codes "ready") (codes "client can also push messages") c
        up in
    let (echo, call1, up2, b2) =
      call_async-Connected (codes "DemoService") (codes "echo") (codes "hello mini rpc")
        (some on_response_id) ready.0 up1 in
    let (upper, call2, up3, b3) =
      call_async-Connected (codes "DemoService") (codes "upper") (codes "full duplex protobuf")
        (some on_response_id) echo.client up2 in
    let (time, call3, up4, b4) =
      call_async-Connected (codes "DemoService") (codes "time") [] (some on_response_id)
        upper.client up3 in
    (time.client, simp (told, call1, call2, call3), omega (arith, b1, b2, b3, b4))

-- The demo client makes its calls on a client that is connected, and has neither heard a response nor
-- a call pending. Then all of its calls go through, and whatever the session tells the client
-- afterwards, in any order, and whenever the wait of `main` ends: `on_response` is called three times
-- at most, `remaining` is three less the number of its calls, the client is closed and the loop
-- stopped by `main`, and once more, by `on_response`, exactly if that number is three, and `main`
-- returns 0 if it is three and 1 otherwise.
pub make_calls-Counted :
    (events : List Call) (waited : ℕ) (c : RpcClient)
    → Connected c
    → budget c ≡ 0
    → (d : RpcClient) × (make_calls c ≡ some d)
      × (let heard = (hear_all events d).heard in Counted (responses heard) (run_main waited heard))
unfolding budget
make_calls-Counted events waited c up none_yet =
    let (d, calls, small) = make_calls-Connected c up in
    let heard = (hear_all events d).heard in
    (
      d,
      calls,
      subst (Counted (responses heard)) (sym (run_main-finish waited heard)) (
          times-Counted (responses heard)
            (omega (arith, hear_all-budget events d, small, none_yet))),
    )

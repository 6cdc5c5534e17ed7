-- ===== src/Demo/System.antt =====
-- What the demo server answers over a connection.
use insist.Base.{
  suc, ℕ, ◌≡◌, refl, sym, ap, subst, ◌∙◌, arith, ◌==◌, if-cases, List, [], ◌∷◌, ◌++◌, append-nil,
  append_assoc, length, drop, drop-append, All, All-append, Option, some,
}
use insist.Message.{RpcMessage, IsText, kind_request}
use insist.Wire.Format.{length-encode_texts}
use insist.Session.{Session, handle_events, on_write, message_size}
use insist.Session.Delivery.{IsSendable}
use insist.Session.Eof.{messages, messages-append, messages-quiet}
use insist.Session.Works.{Steady}
use insist.Session.Steady.{handle_events-Steady}
use insist.Session.Silent.{run_task-Silent}
use insist.Connection.{
  Port, new_bytes, gets, say, Move, says, hangs_up, runs, dispatches, dispatched, left, right,
  Reach, next, IsFresh,
}
use insist.Connection.Saying.{refused, say-cases}
use insist.Connection.Delivery.{heard, Reach-in_order}
use insist.Demo.{handle_demo_request}
use insist.Demo.Exchange.{
  Answers, handle_demo_request-Answers, Answers-IsTyped, Answers-IsNonNegative,
}
use insist.Demo.Serving.{
  IsClock, serve, serve_all, new_messages, Serves, asks, writes, answers, stops, Served, opened,
  then_serves, Answered, answered, too_long, no_request,
}

IsClock-IsText : {clock : List ℕ} → IsClock clock → IsText clock
IsClock-IsText now = record { bytes = now.bytes; fits = omega (arith, now.size) }

handle_demo_request_typed :
    (clock : List ℕ) (m : RpcMessage)
    → IsText clock
    → IsSendable m
    → Answers m (handle_demo_request clock m)
handle_demo_request_typed clock m now s =
    handle_demo_request-Answers clock m now s.typed
      (omega (arith, length-encode_texts m s.typed, s.fits))

-- A refused message leaves what the end has heard.
refused-heard : (handler : Option ℕ) (x : Port) → heard (refused handler x) ≡ heard x
refused-heard handler x =
    messages-quiet handler (λ h. on_write h message_size) x.session (λ n. refl)

-- What an end says is sendable.
Move-Sendable : {x y x' y' : Port} → Move x y x' y' → All IsSendable x.said → All IsSendable x'.said
Move-Sendable {x} (says m handler typed status) a =
    say-cases (λ p. All IsSendable p.said) m handler x (λ _. a)
      (λ fits.
        All-append IsSendable x.said (m ∷ []) a
          (record { typed = typed; status = status; fits = fits }, tt))
Move-Sendable hangs_up a = a
Move-Sendable (runs task others w e) a = a
Move-Sendable (dispatches e r w coming front) a = a

-- The other end hears nothing and says nothing.
Move-other : {x y x' y' : Port} → Move x y x' y' → (y'.said ≡ y.said) × (heard y' ≡ heard y)
Move-other (says m handler typed status) = (refl, refl)
Move-other hangs_up = (refl, refl)
Move-other (runs task others w e) = (refl, refl)
Move-other (dispatches e r w coming front) = (refl, refl)

-- The pair is reached by steps of two sessions; the server has said the welcome and the answers to
-- the messages `ms`.
pub record Serving (p : Port × Port) (hello : RpcMessage) (ms : List RpcMessage) (x y : Port)
    : Type 0 where
  pub reached : Reach p (x, y)
  pub sendable : All IsSendable x.said
  pub replies : List RpcMessage
  pub said : y.said ≡ hello ∷ replies
  pub served : Answered ms replies

module _ (p : Port × Port) (hello : RpcMessage) where
  serve-Serving :
      (clock : List ℕ) (m : RpcMessage) (ms : List RpcMessage) (x y : Port)
      → IsClock clock
      → IsSendable m
      → Serving p hello ms x y
      → Serving p hello (ms ++ m ∷ []) x (serve clock m y)
  unfolding serve
  serve-Serving clock m ms x y now sendable g =
      if-cases (λ q. Serving p hello (ms ++ m ∷ []) x q) (m.kind == kind_request)
        (λ asked. requested (ground arith))
        (λ other. record {
          reached = g.reached;
          sendable = g.sendable;
          replies = g.replies;
          said = g.said;
          served = no_request m other g.served;
        })
    where
      r : RpcMessage
      r = handle_demo_request clock m

      reply : Answers m r
      reply = handle_demo_request_typed clock m (IsClock-IsText now) sendable

      told : Reach p (x, say r (some 0) y)
      told = next g.reached (
          right (
            says r (some 0) (Answers-IsTyped m r sendable.typed reply)
              (Answers-IsNonNegative m r reply)))

      Replied : Port → Type 0
      Replied q = (rs : List RpcMessage) × (q.said ≡ hello ∷ rs) × Answered (ms ++ m ∷ []) rs

      requested : m.kind ≡ kind_request → Serving p hello (ms ++ m ∷ []) x (say r (some 0) y)
      requested asked =
          let (rs, said, done) =
            say-cases Replied r (some 0) y
              (λ long. (g.replies, g.said, too_long m clock now asked long g.served))
              (λ short. (
                g.replies ++ r ∷ [],
                ap (λ l. l ++ r ∷ []) g.said,
                answered m clock now asked short g.served,
              )) in
          record { reached = told; sendable = g.sendable; replies = rs; said = said; served = done }

  serve_all-Serving :
      (clocks : ℕ → List ℕ) (ns ms : List RpcMessage) (x y : Port)
      → ((n : ℕ) → IsClock (clocks n))
      → All IsSendable ns
      → Serving p hello ms x y
      → Serving p hello (ms ++ ns) x (serve_all clocks ns y)
  unfolding serve_all
  serve_all-Serving clocks [] ms x y now a g =
      subst (λ l. Serving p hello l x y) (sym (append-nil ms)) g
  serve_all-Serving clocks (m ∷ ns) ms x y now a g =
      subst (λ l. Serving p hello l x (serve_all (λ n. clocks (suc n)) ns (serve (clocks 0) m y)))
        (append_assoc ms (m ∷ []) ns)
        (serve_all-Serving (λ n. clocks (suc n)) ns (ms ++ m ∷ []) x (serve (clocks 0) m y)
          (λ n. now (suc n)) a.1 (serve-Serving (clocks 0) m ms x y (now 0) a.0 g))

-- Saying something is not hearing something.
pub say-heard : (m : RpcMessage) (handler : Option ℕ) (x : Port) → heard (say m handler x) ≡ heard x
say-heard m handler x =
    say-cases (λ p. heard p ≡ heard x) m handler x (λ _. refused-heard handler x) (λ _. refl)

serve-heard : (clock : List ℕ) (m : RpcMessage) (y : Port) → heard (serve clock m y) ≡ heard y
unfolding serve
serve-heard clock m y =
    if-cases (λ q. heard q ≡ heard y) (m.kind == kind_request) (λ _. say-heard _ (some 0) y)
      (λ _. refl)

serve_all-heard :
    (clocks : ℕ → List ℕ) (ms : List RpcMessage) (y : Port)
    → heard (serve_all clocks ms y) ≡ heard y
unfolding serve_all
serve_all-heard clocks [] y = refl
serve_all-heard clocks (m ∷ ms) y =
    serve_all-heard (λ n. clocks (suc n)) ms (serve (clocks 0) m y) ∙ serve-heard (clocks 0) m y

-- The session has given its new messages to the handler after the old ones.
dispatched-heard :
    {s t : Session} → Steady s t → messages t.calls ≡ messages s.calls ++ new_messages s t
unfolding new_messages
dispatched-heard {s} {t} p =
    ap messages p.works.calls
    ∙ messages-append s.calls p.works.more
    ∙ ap (λ l. messages s.calls ++ messages l)
        (sym (ap (drop (length s.calls)) p.works.calls ∙ drop-append s.calls p.works.more))

All-split :
    (xs ys : List RpcMessage) → All IsSendable (xs ++ ys) → All IsSendable xs × All IsSendable ys
All-split [] ys a = (tt, a)
All-split (x ∷ xs) ys a = let (b, c) = All-split xs ys a.1 in ((a.0, b), c)

module _ {x0 y0 : Port} (fx : IsFresh x0) (fy : IsFresh y0) (hello : RpcMessage) where
  -- The server has answered all that it has heard.
  abbrev pub ServesAll : Port × Port → Type 0
  ServesAll (x, y) = Serving (x0, y0) hello (heard y) x y

  Serves-Serving : {q r : Port × Port} → Serves q r → ServesAll q → ServesAll r
  Serves-Serving (asks m) g =
      let (said, same) = Move-other m in
      record {
        reached = next g.reached (left m);
        sendable = Move-Sendable m g.sendable;
        replies = g.replies;
        said = said ∙ g.said;
        served = subst (λ l. Answered l g.replies) (sym same) g.served;
      }
  Serves-Serving (writes {x} {y} task others w e) g = record {
    reached = next g.reached (right (runs task others w e));
    sendable = g.sendable;
    replies = g.replies;
    said = g.said;
    served =
        subst (λ l. Answered l g.replies) (sym (run_task-Silent task w y.session).heard) g.served;
  }
  Serves-Serving (answers {x} {y} clocks e r w coming now front) g =
      subst (λ l. Serving (x0, y0) hello l back (serve_all clocks news called_on)) whole
        (serve_all-Serving (x0, y0) hello clocks news (heard y) back called_on now
          (All-split (heard y) news fit).1 called)
    where
      t : Session
      t = handle_events e r w y.session

      news : List RpcMessage
      news = new_messages y.session t

      back : Port
      back = gets (new_bytes y.session t) x

      called_on : Port
      called_on = dispatched e r w coming y

      called : Serving (x0, y0) hello (heard y) back called_on
      called = record {
        reached = next g.reached (right (dispatches e r w coming front));
        sendable = g.sendable;
        replies = g.replies;
        said = g.said;
        served = g.served;
      }

      grown : heard called_on ≡ heard y ++ news
      grown = dispatched-heard (handle_events-Steady e r w y.session)

      whole : heard y ++ news ≡ heard (serve_all clocks news called_on)
      whole = sym (serve_all-heard clocks news called_on ∙ grown)

      fit : All IsSendable (heard y ++ news)
      fit =
          let ((rest, split), _) = Reach-in_order fx fy called.reached in
          subst (All IsSendable) grown
            (All-split (heard called_on) rest (subst (All IsSendable) (sym split) g.sendable)).0
  Serves-Serving (stops {x} {y}) g = record {
    reached = next g.reached (right hangs_up);
    sendable = g.sendable;
    replies = g.replies;
    said = g.said;
    served = g.served;
  }

  pub Served-Serving : {q r : Port × Port} → Served q r → ServesAll q → ServesAll r
  Served-Serving opened g = g
  Served-Serving (then_serves s d) g = Serves-Serving d (Served-Serving s g)

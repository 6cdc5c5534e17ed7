-- ===== src/Connection/Saying.antt =====
-- The two outcomes of sending a message at an end.
use insist.Base.{ℕ, ◌≤◌, ◌<◌, arith, ltb, if-cases, [], ◌∷◌, ◌++◌, length, Option, none, some}
use insist.Message.{RpcMessage}
use insist.Wire.{encode}
use insist.Framing.{max_frame_size}
use insist.Session.{Session, Task, send_frame, send, emit_for, on_write, message_size}
use insist.Session.Delivery.{frame}
use insist.Connection.{Port, say}

-- A message over the limit, of which only its write handler hears.
abbrev pub refused : Option ℕ → Port → Port
refused handler x = record x { session = emit_for handler (λ h. on_write h message_size) x.session }

abbrev pub accepted : RpcMessage → Option ℕ → Port → Port
accepted m handler x = record x {
  posted = x.posted ++ send_frame (frame m) handler ∷ [];
  said = x.said ++ m ∷ [];
}

pub say-cases :
    (P : Port → Type 0) (m : RpcMessage) (handler : Option ℕ) (x : Port)
    → (max_frame_size < length (encode m) → P (refused handler x))
    → (length (encode m) ≤ max_frame_size → P (accepted m handler x))
    → P (say m handler x)
unfolding say send
say-cases P m handler x long short =
    if-cases (λ r. P (put r)) (ltb max_frame_size (length (encode m))) (λ e. long (ground arith))
      (λ e. short (ground arith))
  where
    put : Session × Option Task → Port
    put sent = elim sent.1 [
      | none ↦ record x { session = sent.0 }
      | some task ↦ record x {
        session = sent.0;
        posted = x.posted ++ task ∷ [];
        said = x.said ++ m ∷ [];
      }
    ]

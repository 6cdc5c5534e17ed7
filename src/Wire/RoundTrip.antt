-- ===== src/Wire/RoundTrip.antt =====
-- `decode` after `encode`.
use insist.Base.{
  is_empty, ℕ, ◌≡◌, refl, ap, sym, ◌∙◌, arith, if◌then◌else◌, List, [], ◌∷◌, ◌++◌, append-nil, pos,
  negsuc,
}
use insist.Message.{RpcMessage, IsTyped, blank}
use insist.Wire.{encode, decode, decoded, rejected}
use insist.Wire.Format.{fields, encode-fields}
use insist.Wire.Step.{decode_from, decode_from-nil, decode-decode_from}
use insist.Wire.Fields.{overlay, decode_from-fields, decode_from-negative}

keep_text : (s : List ℕ) → (if is_empty s then [] else s) ≡ s
keep_text [] = refl
keep_text (b ∷ bs) = refl

pub overlay-blank : (m : RpcMessage) (n : ℕ) → m.status ≡ pos n → overlay blank m ≡ m
unfolding overlay
overlay-blank m n e =
    ground (arith, keep_text m.service, keep_text m.method, keep_text m.payload, keep_text m.error)

-- `decode` reads back what `encode` wrote for a message with fields in the ranges of their C++ types
-- and a status that is not negative.
pub decode-encode :
    (m : RpcMessage) (n : ℕ) → IsTyped m → m.status ≡ pos n → decode (encode m) ≡ decoded m
decode-encode m n t e = rw (encode-fields m t) (
    decode-decode_from (fields m)
    ∙ ap (decode_from blank) (sym (append-nil (fields m)))
    ∙ decode_from-fields blank m t n [] e
    ∙ decode_from-nil _
    ∙ ap decoded (overlay-blank m n e))

-- `decode` refuses what `encode` wrote for a message with fields in the ranges of their C++ types and
-- a negative status.
pub decode-encode_negative :
    (m : RpcMessage) (n : ℕ) → IsTyped m → m.status ≡ negsuc n → decode (encode m) ≡ rejected
decode-encode_negative m n t e = rw (encode-fields m t) (
    decode-decode_from (fields m)
    ∙ ap (decode_from blank) (sym (append-nil (fields m)))
    ∙ decode_from-negative blank m t n [] e)

-- Two encodings one after the other, of messages with fields in the ranges of their C++ types and
-- statuses that are not negative, are read as one message, in which the fields that the second
-- message sets win, as protobuf merges messages.
pub decode-append :
    (a b : RpcMessage) (n k : ℕ)
    → IsTyped a
    → IsTyped b
    → a.status ≡ pos n
    → b.status ≡ pos k
    → decode (encode a ++ encode b) ≡ decoded (overlay a b)
decode-append a b n k ta tb ea eb =
    rw (encode-fields a ta, encode-fields b tb)
      (decode-decode_from (fields a ++ fields b)
        ∙ decode_from-fields blank a ta n (fields b) ea
        ∙ rw (overlay-blank a n ea, ← append-nil (fields b)) (decode_from-fields a b tb k [] eb)
        ∙ decode_from-nil _)

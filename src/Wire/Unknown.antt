-- ===== src/Wire/Unknown.antt =====
-- Fields with numbers that rpc.proto does not have, and the size of an encoding.
use insist.Base.{
  ℕ, ◌^◌, ◌<◌, ◌≡◌, ◌∙◌, arith, List, [], ◌++◌, append-nil, append_assoc, length, length-append,
  drop-append, drop, subst, ◌⊎◌, some, pos,
}
use insist.Message.{RpcMessage, IsTyped, blank}
use insist.Wire.{
  wire_varint, wire_fixed64, wire_length_delimited, wire_fixed32, skip_field, read_field, encode,
  decode, decoded,
}
use insist.Wire.Varint.{varint, read_varint-varint}
use insist.Wire.Format.{tag, encode-fields}
use insist.Wire.Step.{
  decode_step-tag, decode_from, decode_from-nil, decode_from-step, decode-decode_from,
}
use insist.Wire.Fields.{decode_from-fields}
use insist.Wire.RoundTrip.{overlay-blank}

-- What may stand behind a tag with the wire type `w`.
pub data Body : ℕ → List ℕ → Type 0 where
  varint_body :
      {w : ℕ} {body : List ℕ} (v : ℕ) → w ≡ wire_varint → v < 2 ^ 64 → body ≡ varint v → Body w body
  fixed64_body : {w : ℕ} {body : List ℕ} → w ≡ wire_fixed64 → length body ≡ 8 → Body w body
  text_body :
      {w : ℕ} {body : List ℕ} (s : List ℕ)
      → w ≡ wire_length_delimited
      → length s < 2 ^ 64
      → body ≡ varint (length s) ++ s
      → Body w body
  fixed32_body : {w : ℕ} {body : List ℕ} → w ≡ wire_fixed32 → length body ≡ 4 → Body w body

drop_exactly : (n : ℕ) (body rest : List ℕ) → length body ≡ n → drop n (body ++ rest) ≡ rest
drop_exactly n body rest h = subst (λ k. drop k (body ++ rest) ≡ rest) h (drop-append body rest)

skip_field-Body :
    (w : ℕ) (body rest : List ℕ) → Body w body → skip_field (body ++ rest) w ≡ some rest
unfolding skip_field
skip_field-Body w body rest (varint_body v hw hv hb) = rw (hw, hb, read_varint-varint v rest hv)
skip_field-Body w body rest (fixed64_body hw hb) =
    rw hw (ground (arith, drop_exactly 8 body rest hb, length-append {0} body rest))
skip_field-Body w body rest (text_body s hw hs hb) =
    rw (hw, hb, append_assoc, read_varint-varint (length s) (s ++ rest) hs)
      (ground (arith, drop-append s rest, length-append {0} s rest))
skip_field-Body w body rest (fixed32_body hw hb) =
    rw hw (ground (arith, drop_exactly 4 body rest hb, length-append {0} body rest))

-- The numbers that no field of rpc.proto has.
abbrev pub IsUnknown : ℕ → Type 0
IsUnknown n = (n ≡ 0) ⊎ (7 < n)

Body-lt : (w : ℕ) (body : List ℕ) → Body w body → w < 8
Body-lt w body (varint_body v hw hv hb) = omega arith
Body-lt w body (fixed64_body hw hb) = omega arith
Body-lt w body (text_body s hw hs hb) = omega arith
Body-lt w body (fixed32_body hw hb) = omega arith

-- The `default` case reads past an unknown field and leaves the message as it is.
pub decode_from-unknown :
    (m : RpcMessage) (n w : ℕ) (body rest : List ℕ)
    → IsUnknown n
    → n < 2 ^ 32
    → Body w body
    → decode_from m (tag n w ++ (body ++ rest)) ≡ decode_from m rest
unfolding read_field
decode_from-unknown m n w body rest unknown hn b = decode_from-step m _ m rest (
    decode_step-tag m n w (body ++ rest) hn (Body-lt w body b)
    ∙ ground (arith, skip_field-Body w body rest b))

-- A peer with a newer schema: an unknown field in front of an encoding and one behind it do not change
-- what is read, if the message has fields in the ranges of their C++ types and a status that is not
-- negative, and the fields are whole and have numbers below 2^32.
pub decode-encode_unknown :
    (m : RpcMessage) (k n w n' w' : ℕ) (body body' : List ℕ)
    → IsTyped m
    → m.status ≡ pos k
    → IsUnknown n
    → n < 2 ^ 32
    → Body w body
    → IsUnknown n'
    → n' < 2 ^ 32
    → Body w' body'
    → decode ((tag n w ++ body) ++ (encode m ++ (tag n' w' ++ body'))) ≡ decoded m
decode-encode_unknown m k n w n' w' body body' t e un hn b un' hn' b' =
    rw (encode-fields m t, append_assoc)
      (decode-decode_from _
        ∙ decode_from-unknown blank n w body _ un hn b
        ∙ decode_from-fields blank m t k _ e
        ∙ rw (overlay-blank m k e, ← append-nil body')
            (decode_from-unknown m n' w' body' [] un' hn' b')
        ∙ decode_from-nil m)

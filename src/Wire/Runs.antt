-- ===== src/Wire/Runs.antt =====
-- Concrete runs of the codec, and its theorems at concrete messages.
use insist.Base.{ℕ, ◌≡◌, refl, ◌⊎◌, inr, arith, List, [], ◌∷◌, ◌++◌, pos, negsuc, some}
use insist.Message.{RpcMessage, IsText, IsTyped}
use insist.Wire.{
  write_varint_loop, write_varint, write_tag, write_length_delimited, encode, read_varint_loop,
  read_varint, skip_field, read_number, read_text, store_text, read_field, decode_step, decode_loop,
  decode, decoded, rejected,
}
use insist.Base.{to_u32, to_i32}
use insist.Wire.Varint.{varint}
use insist.Wire.Format.{tag}
use insist.Wire.Fields.{overlay}
use insist.Wire.RoundTrip.{decode-encode, decode-encode_negative, decode-append}
use insist.Wire.Total.{IsNonNegative, decode-ends, decode-IsTyped, decode-encode-decode}
use insist.Wire.Unknown.{fixed32_body, varint_body, decode-encode_unknown}

-- A request `echo` with the payload `hi`.
abbrev request : RpcMessage
request = record {
  id = 300;
  kind = 1;
  service = [];
  method = b'e' ∷ b'c' ∷ b'h' ∷ b'o' ∷ [];
  payload = b'h' ∷ b'i' ∷ [];
  status = pos 0;
  error = [];
}

-- A response with a status.
abbrev response : RpcMessage
response = record request { kind = 2; payload = []; status = pos 404; error = b'x' ∷ [] }

-- A response with the status -1.
abbrev negative : RpcMessage
negative = record response { status = negsuc 0 }

request-IsTyped : IsTyped request
request-IsTyped = omega arith

response-IsTyped : IsTyped response
response-IsTyped = omega arith

negative-IsTyped : IsTyped negative
negative-IsTyped = omega arith

abbrev request_bytes : List ℕ
request_bytes =
    0x08 ∷ 0xac ∷ 0x02 ∷ 0x10 ∷ 0x01 ∷ 0x22 ∷ 0x04 ∷ b'e' ∷ b'c' ∷ b'h' ∷ b'o' ∷ 0x2a ∷ 0x02 ∷ b'h'
    ∷ b'i' ∷ []

encode-request : encode request ≡ request_bytes
unfolding encode write_varint write_varint_loop write_tag write_length_delimited to_u32
encode-request = refl

decode-request : decode request_bytes ≡ decoded request
unfolding decode decode_loop decode_step read_varint read_varint_loop read_field read_number
    read_text store_text skip_field to_i32
decode-request = refl

read_300 : read_varint (0xac ∷ 0x02 ∷ 7 ∷ []) ≡ some (300, 7 ∷ [])
unfolding read_varint read_varint_loop
read_300 = refl

decode-encode_example : decode (encode request) ≡ decoded request
decode-encode_example = decode-encode request 0 request-IsTyped refl

decode-encode_negative_example : decode (encode negative) ≡ rejected
decode-encode_negative_example = decode-encode_negative negative 0 negative-IsTyped refl

decode-append_example :
    decode (encode request ++ encode response) ≡ decoded (overlay request response)
decode-append_example =
    decode-append request response 0 404 request-IsTyped response-IsTyped refl refl

decode-ends_example :
    ((m : RpcMessage) × (decode (0xff ∷ []) ≡ decoded m)) ⊎ (decode (0xff ∷ []) ≡ rejected)
decode-ends_example = decode-ends (0xff ∷ [])

request_bytes-IsText : IsText request_bytes
request_bytes-IsText = omega arith

decode-IsTyped_example : IsTyped request × IsNonNegative (pos 0)
decode-IsTyped_example = decode-IsTyped request_bytes request request_bytes-IsText decode-request

decode-encode-decode_example : decode (encode request) ≡ decoded request
decode-encode-decode_example =
    decode-encode-decode request_bytes request request_bytes-IsText decode-request

decode-encode_unknown_example :
    decode ((tag 9 5 ++ 1 ∷ 2 ∷ 3 ∷ 4 ∷ []) ++ (encode request ++ (tag 16 0 ++ varint 300)))
    ≡ decoded request
decode-encode_unknown_example =
    decode-encode_unknown request 0 9 5 16 0 (1 ∷ 2 ∷ 3 ∷ 4 ∷ []) (varint 300) request-IsTyped refl
      (inr (omega arith)) (omega arith) (fixed32_body refl refl) (inr (omega arith)) (omega arith)
      (varint_body 300 refl (omega arith) refl)

-- ===== src/Wire/Format.antt =====
-- What `encode` writes, as a plain concatenation of fields.
use insist.Base.{
  is_empty, if-cases, ℕ, ◌+◌, ◌*◌, ◌%◌, ◌^◌, ◌<◌, ◌≡◌, refl, ap, ◌∙◌, arith, bit_or, ◌==◌,
  if◌then◌else◌, Bool-cases, inl, inr, List, [], ◌∷◌, ◌++◌, append-nil, append_assoc, length,
  length-append, ◌≤◌, ℤ, pos, negsuc, to_u32, IsI32,
}
use insist.Base.Bits.{bit_or-high_low}
use insist.Message.{RpcMessage, IsTyped}
use insist.Wire.{
  write_varint, write_tag, write_length_delimited, wire_length_delimited, wire_varint, is_zero,
  encode,
}
use insist.Wire.Varint.{varint, write_varint-varint, length-varint}

unfoldable pub tag : ℕ → ℕ → List ℕ
tag field_number wire_type = varint (field_number * 8 + wire_type)

unfoldable pub number : ℕ → ℕ → List ℕ
number n v = tag n wire_varint ++ varint v

unfoldable pub text : ℕ → List ℕ → List ℕ
text n s = tag n wire_length_delimited ++ varint (length s) ++ s

-- Fields that hold their default are left out.
abbrev pub number_field : ℕ → ℕ → List ℕ
number_field n v = if v == 0 then [] else number n v

abbrev pub text_field : ℕ → List ℕ → List ℕ
text_field n s = if is_empty s then [] else text n s

-- The fields in the order of their numbers.
unfoldable pub fields : RpcMessage → List ℕ
fields m =
    number_field 1 m.id
    ++ (number_field 2 m.kind
        ++ (text_field 3 m.service
            ++ (text_field 4 m.method
                ++ (text_field 5 m.payload
                    ++ (number_field 6 (to_u32 m.status) ++ text_field 7 m.error)))))

write_tag-tag : (out : List ℕ) (n w : ℕ) → n < 2 ^ 32 → w < 8 → write_tag out n w ≡ out ++ tag n w
unfolding write_tag tag
write_tag-tag out n w hn hw =
    ap (write_varint out) value ∙ write_varint-varint out (n * 8 + w) (omega arith)
  where
    value : bit_or (n * 2 ^ 3 % 2 ^ 64) w ≡ n * 8 + w
    value = omega (arith, ap (λ (t : ℕ). bit_or t w) shifted, bit_or-high_low 3 w n (omega arith))
      where
        shifted : n * 2 ^ 3 % 2 ^ 64 ≡ n * 2 ^ 3
        shifted = omega arith

write_number :
    (out : List ℕ) (n v : ℕ)
    → n < 2 ^ 32
    → v < 2 ^ 64
    → write_varint (write_tag out n wire_varint) v ≡ out ++ number n v
unfolding number
write_number out n v hn hv =
    write_varint-varint _ v hv
    ∙ rw (write_tag-tag out n wire_varint hn (omega arith)) (append_assoc out _ _)

write_text :
    (out : List ℕ) (n : ℕ) (s : List ℕ)
    → n < 2 ^ 32
    → length s < 2 ^ 64
    → write_length_delimited out n s ≡ out ++ text n s
unfolding text write_length_delimited
write_text out n s hn hs =
    rw
      (
        write_varint-varint (write_tag out n wire_length_delimited) (length s) hs,
        write_tag-tag out n wire_length_delimited hn (omega arith),
      )
      (simp append_assoc)

opt_number :
    (out : List ℕ) (n v : ℕ)
    → n < 2 ^ 32
    → v < 2 ^ 64
    → (if v == 0 then out else write_varint (write_tag out n wire_varint) v)
      ≡ out ++ number_field n v
opt_number out n v hn hv = elim (Bool-cases (v == 0)) [
  | inl e ↦ rw e (rw append-nil)
  | inr e ↦ rw e (write_number out n v hn hv)
]

opt_text :
    (out : List ℕ) (n : ℕ) (s : List ℕ)
    → n < 2 ^ 32
    → length s < 2 ^ 64
    → (if is_empty s then out else write_length_delimited out n s) ≡ out ++ text_field n s
opt_text out n [] hn hs = rw append-nil
opt_text out n (b ∷ bs) hn hs = write_text out n (b ∷ bs) hn hs

is_zero-to_u32 : (z : ℤ) → IsI32 z → is_zero z ≡ (to_u32 z == 0)
unfolding to_u32
is_zero-to_u32 (pos n) h = ground arith
is_zero-to_u32 (negsuc n) h = ground arith

pub to_u32-lt : (z : ℤ) → to_u32 z < 2 ^ 32
unfolding to_u32
to_u32-lt (pos n) = omega arith
to_u32-lt (negsuc n) = omega arith

-- `encode` writes the fields that differ from their defaults, in order.
pub encode-fields : (m : RpcMessage) → IsTyped m → encode m ≡ fields m
unfolding encode fields
encode-fields m t =
    rw
      (
        is_zero-to_u32 m.status t.status_i32,
        opt_number [] 1 m.id (omega arith) t.id_u64,
        opt_number _ 2 m.kind (omega arith) (omega arith),
        opt_text _ 3 m.service (omega arith) t.service_text.fits,
        opt_text _ 4 m.method (omega arith) t.method_text.fits,
        opt_text _ 5 m.payload (omega arith) t.payload_text.fits,
        opt_number _ 6 (to_u32 m.status) (omega arith) (omega (arith, to_u32-lt m.status)),
        opt_text _ 7 m.error (omega arith) t.error_text.fits,
      )
      (simp append_assoc)

length-text :
    (n b : ℕ) (bs : List ℕ)
    → length (text_field n (b ∷ bs))
      ≡ length (tag n wire_length_delimited) + length (varint (length (b ∷ bs))) + length (b ∷ bs)
unfolding text
length-text n b bs = omega (
  arith,
  length-append (tag n wire_length_delimited ++ varint (length (b ∷ bs))) (b ∷ bs),
  length-append (tag n wire_length_delimited) (varint (length (b ∷ bs))),
  ap length spelled,
)
  where
    spelled :
        text_field n (b ∷ bs) ≡ (tag n wire_length_delimited ++ varint (length (b ∷ bs))) ++ b ∷ bs
    spelled = refl

length-text_field : (n : ℕ) (s : List ℕ) → length s ≤ length (text_field n s)
length-text_field n [] = omega arith
length-text_field n (b ∷ bs) = omega (arith, length-text n b bs)

-- An encoding is at least as long as the service, the method and the payload in it.
pub length-encode_texts :
    (m : RpcMessage)
    → IsTyped m
    → length m.service + length m.method + length m.payload ≤ length (encode m)
unfolding fields
length-encode_texts m t = omega (
  arith,
  ap length (encode-fields m t),
  length-append (number_field 1 m.id) _,
  length-append (number_field 2 m.kind) _,
  length-append (text_field 3 m.service) _,
  length-append (text_field 4 m.method) _,
  length-append (text_field 5 m.payload) (number_field 6 (to_u32 m.status) ++ text_field 7 m.error),
  length-text_field 3 m.service,
  length-text_field 4 m.method,
  length-text_field 5 m.payload,
)

pub length-encode_payload : (m : RpcMessage) → IsTyped m → length m.payload ≤ length (encode m)
length-encode_payload m t = omega (arith, length-encode_texts m t)

number_field-short : (n v : ℕ) → length (number_field n v) ≤ 20
unfolding number tag
number_field-short n v =
    if-cases (λ (l : List ℕ). length l ≤ 20) (v == 0) {x = []} {y = number n v} (λ _. omega arith)
      (λ _. omega (
        arith,
        length-append (tag n wire_varint) (varint v),
        length-varint (n * 8 + wire_varint),
        length-varint v,
      ))

text_field-short : (n : ℕ) (s : List ℕ) → length (text_field n s) ≤ length s + 20
unfolding tag
text_field-short n [] = omega arith
text_field-short n (b ∷ bs) = omega (
  arith,
  length-text n b bs,
  length-varint (n * 8 + wire_length_delimited),
  length-varint (length (b ∷ bs)),
)

-- An encoding is not much longer than the texts in it.
pub encode-short :
    (m : RpcMessage)
    → IsTyped m
    → length (encode m)
      ≤ length m.service + length m.method + length m.payload + length m.error + 140
unfolding fields
encode-short m t = omega (
  arith,
  ap length (encode-fields m t),
  length-append (number_field 1 m.id) _,
  length-append (number_field 2 m.kind) _,
  length-append (text_field 3 m.service) _,
  length-append (text_field 4 m.method) _,
  length-append (text_field 5 m.payload) (number_field 6 (to_u32 m.status) ++ text_field 7 m.error),
  length-append (number_field 6 (to_u32 m.status)) (text_field 7 m.error),
  number_field-short 1 m.id,
  number_field-short 2 m.kind,
  text_field-short 3 m.service,
  text_field-short 4 m.method,
  text_field-short 5 m.payload,
  number_field-short 6 (to_u32 m.status),
  text_field-short 7 m.error,
)

-- ===== src/Wire/Fields.antt =====
-- `decode` over the fields that `encode` writes.
use insist.Base.{
  is_empty, ℕ, ◌+◌, ◌-◌, ◌*◌, ◌%◌, ◌^◌, ◌<◌, ◌≡◌, refl, ap, subst, IsI32, ◌∙◌, arith, ltb, ◌==◌,
  if◌then◌else◌, Bool-cases, inl, inr, ◌⊎◌, List, [], ◌∷◌, ◌++◌, append_assoc, length,
  length-append, take-append, drop-append, true, false, some, none, pos, negsuc, to_u32, to_i32,
}
use insist.Message.{RpcMessage, IsTyped}
use insist.Wire.{
  wire_varint, wire_length_delimited, is_zero, read_number, read_text, store_text, read_field,
  rejected,
}
use insist.Wire.Varint.{varint, read_varint-varint, length-varint}
use insist.Wire.Format.{tag, number, text, number_field, text_field, fields}
use insist.Wire.Step.{decode_step-tag, decode_from, decode_from-step, decode_from-fail}

-- What a message leaves at its default is kept from the message before it.
unfoldable pub overlay : RpcMessage → RpcMessage → RpcMessage
overlay old m = record {
  id = if m.id == 0 then old.id else m.id;
  kind = if m.kind == 0 then old.kind else m.kind;
  service = if is_empty m.service then old.service else m.service;
  method = if is_empty m.method then old.method else m.method;
  payload = if is_empty m.payload then old.payload else m.payload;
  status = if is_zero m.status then old.status else m.status;
  error = if is_empty m.error then old.error else m.error;
}

read_number-varint :
    (v : ℕ) (rest : List ℕ)
    → v < 2 ^ 64
    → read_number (varint v ++ rest) wire_varint ≡ some (v, rest)
unfolding read_number
read_number-varint v rest h = read_varint-varint v rest h

read_text-text :
    (s rest : List ℕ)
    → length s < 2 ^ 64
    → read_text (varint (length s) ++ (s ++ rest)) wire_length_delimited ≡ some (s, rest)
unfolding read_text
read_text-text s rest h = ground (
  arith,
  read_varint-varint (length s) (s ++ rest) h,
  length-append {0} s rest,
  take-append {0} s rest,
  drop-append {0} s rest,
)

-- A field that is written is read by the case of its number.
decode_from-number :
    (m m' : RpcMessage) (n v : ℕ) (rest : List ℕ)
    → n < 2 ^ 32
    → read_field m (varint v ++ rest) n wire_varint ≡ some (m', rest)
    → decode_from m (number n v ++ rest) ≡ decode_from m' rest
unfolding number
decode_from-number m m' n v rest hn h =
    rw append_assoc
      (decode_from-step m _ m' rest (decode_step-tag m n wire_varint _ hn (omega arith) ∙ h))

decode_from-text :
    (m m' : RpcMessage) (n : ℕ) (s rest : List ℕ)
    → n < 2 ^ 32
    → read_field m (varint (length s) ++ (s ++ rest)) n wire_length_delimited ≡ some (m', rest)
    → decode_from m (text n s ++ rest) ≡ decode_from m' rest
unfolding text
decode_from-text m m' n s rest hn h = simp append_assoc (
    decode_from-step m _ m' rest (decode_step-tag m n wire_length_delimited _ hn (omega arith) ∙ h))

decode_from-number_fail :
    (m : RpcMessage) (n v : ℕ) (rest : List ℕ)
    → n < 2 ^ 32
    → read_field m (varint v ++ rest) n wire_varint ≡ none
    → decode_from m (number n v ++ rest) ≡ rejected
unfolding number tag
decode_from-number_fail m n v rest hn e =
    rw append_assoc
      (decode_from-fail m _ nonempty (decode_step-tag m n wire_varint _ hn (omega arith) ∙ e))
  where
    nonempty : 0 < length (tag n wire_varint ++ (varint v ++ rest))
    nonempty = omega (
      arith,
      length-append {0} (tag n wire_varint) (varint v ++ rest),
      length-varint (n * 8 + wire_varint),
    )

id_field :
    (m : RpcMessage) (v : ℕ) (rest : List ℕ)
    → v < 2 ^ 64
    → decode_from m (number_field 1 v ++ rest)
      ≡ decode_from (record m { id = if v == 0 then m.id else v }) rest
unfolding read_field
id_field m v rest h = elim (Bool-cases (v == 0)) [
  | inl e ↦ rw e
  | inr e ↦ rw e (decode_from-number m _ 1 v rest (omega arith) (rw (read_number-varint v rest h)))
]

kind_field :
    (m : RpcMessage) (v : ℕ) (rest : List ℕ)
    → v < 2 ^ 32
    → decode_from m (number_field 2 v ++ rest)
      ≡ decode_from (record m { kind = if v == 0 then m.kind else v }) rest
unfolding read_field
kind_field m v rest h = elim (Bool-cases (v == 0)) [
  | inl e ↦ rw e
  | inr e ↦
      rw e
        (decode_from-number m _ 2 v rest (omega arith) (ground (arith, read_number-varint v rest)))
]

store_field :
    (m : RpcMessage) (n : ℕ) (s rest : List ℕ)
    → (n ≡ 3) ⊎ (n ≡ 4) ⊎ (n ≡ 5) ⊎ (n ≡ 7)
    → length s < 2 ^ 64
    → decode_from m (text_field n s ++ rest)
      ≡ decode_from (if is_empty s then m else store_text m n s) rest
unfolding read_field
store_field m n [] rest hn h = refl
store_field m n (b ∷ bs) rest hn h =
    decode_from-text m _ n (b ∷ bs) rest (omega arith)
      (ground (arith, read_text-text (b ∷ bs) rest h))

status_pos :
    (m : RpcMessage) (n : ℕ) (rest : List ℕ)
    → n < 2 ^ 31
    → decode_from m (number_field 6 (to_u32 (pos n)) ++ rest)
      ≡ decode_from (record m { status = if n == 0 then m.status else pos n }) rest
unfolding read_field to_u32 to_i32
status_pos m n rest h = elim (Bool-cases (n == 0)) [
  | inl e ↦ ground arith
  | inr e ↦
      rw (same, e)
        (decode_from-number m _ 6 n rest (omega arith) (ground (arith, read_number-varint n rest)))
]
  where
    same : n % 2 ^ 32 ≡ n
    same = omega arith

-- The case of the status refuses the bit pattern of a negative number.
status_negsuc :
    (m : RpcMessage) (n : ℕ) (rest : List ℕ)
    → n < 2 ^ 31
    → decode_from m (number_field 6 (to_u32 (negsuc n)) ++ rest) ≡ rejected
unfolding read_field to_u32
status_negsuc m n rest h = rw nonzero (
    refused (2 ^ 32 - 1 - n % 2 ^ 32)
      (rw (read_number-varint (2 ^ 32 - 1 - n % 2 ^ 32) rest (omega arith), too_big)))
  where
    nonzero : (2 ^ 32 - 1 - n % 2 ^ 32 == 0) ≡ false
    nonzero = ground arith

    too_big : ltb (2 ^ 31 - 1) (2 ^ 32 - 1 - n % 2 ^ 32) ≡ true
    too_big = ground arith

    refused :
        (v : ℕ)
        → read_field m (varint v ++ rest) 6 wire_varint ≡ none
        → decode_from m (number 6 v ++ rest) ≡ rejected
    refused v e = decode_from-number_fail m 6 v rest (omega arith) e

module _ (old m : RpcMessage) (t : IsTyped m) where
  after_payload : RpcMessage
  after_payload = record (overlay old m) { status = old.status; error = old.error }

  -- The fields up to the payload.
  head_fields :
      (rest : List ℕ)
      → decode_from old (
          number_field 1 m.id
          ++ (number_field 2 m.kind
              ++ (text_field 3 m.service
                  ++ (text_field 4 m.method ++ (text_field 5 m.payload ++ rest)))))
        ≡ decode_from after_payload rest
  unfolding overlay store_text after_payload
  head_fields rest =
      id_field old m.id _ t.id_u64
      ∙ kind_field _ m.kind _ t.kind_u32
      ∙ store_field _ 3 m.service _ (omega arith) t.service_text.fits
      ∙ store_field _ 4 m.method _ (omega arith) t.method_text.fits
      ∙ store_field _ 5 m.payload rest (omega arith) t.payload_text.fits
      ∙ ground arith

  -- The fields of a message with a status of 0 or more are read over the message before it.
  pub decode_from-fields :
      (n : ℕ) (rest : List ℕ)
      → m.status ≡ pos n
      → decode_from old (fields m ++ rest) ≡ decode_from (overlay old m) rest
  unfolding fields overlay after_payload store_text
  decode_from-fields n rest e = simp append_assoc (
      head_fields _
      ∙ ap
          (λ z.
            decode_from after_payload (number_field 6 (to_u32 z) ++ (text_field 7 m.error ++ rest)))
          e
      ∙ status_pos after_payload n _ (subst IsI32 e t.status_i32)
      ∙ store_field _ 7 m.error rest (omega arith) t.error_text.fits
      ∙ ground arith)

  -- A negative status is refused.
  pub decode_from-negative :
      (n : ℕ) (rest : List ℕ) → m.status ≡ negsuc n → decode_from old (fields m ++ rest) ≡ rejected
  unfolding fields
  decode_from-negative n rest e = simp append_assoc (
      head_fields _
      ∙ ap
          (λ z.
            decode_from after_payload (number_field 6 (to_u32 z) ++ (text_field 7 m.error ++ rest)))
          e
      ∙ status_negsuc after_payload n _ (subst IsI32 e t.status_i32))

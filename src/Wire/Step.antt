-- ===== src/Wire/Step.antt =====
-- One round of `decode`, and its loop with as much fuel as there are bytes.
use insist.Base.{
  ◌∙◌, arith, bit_and, List, [], ◌∷◌, ◌++◌, length, length-drop, none, some, Option-cases, inl, inr,
  ℕ, zero, suc, ◌+◌, ◌%◌, ◌/◌, ◌*◌, ◌^◌, ◌≤◌, ◌<◌, ◌≡◌, refl, ap,
}
use insist.Base.Bits.{bit_and-low_mask}
use insist.Message.{RpcMessage, blank}
use insist.Wire.{
  read_varint, skip_field, read_number, read_text, read_field, decode_step, decode_loop, decode,
  Decoded, decoded, rejected,
}
use insist.Wire.Varint.{read_varint-varint, read_varint_takes}
use insist.Wire.Format.{tag}

-- A tag that `write_tag` wrote sends the rest to the case of its field.
pub decode_step-tag :
    (m : RpcMessage) (n w : ℕ) (rest : List ℕ)
    → n < 2 ^ 32
    → w < 8
    → decode_step m (tag n w ++ rest) ≡ read_field m rest n w
unfolding decode_step tag
decode_step-tag m n w rest hn hw = rw (read_varint-varint (n * 8 + w) rest (omega arith)) (
    ap (λ (f : ℕ). read_field m rest f (bit_and (n * 8 + w) 7 % 2 ^ 32)) field
    ∙ ap (read_field m rest n) wire)
  where
    field : (n * 8 + w) / 2 ^ 3 % 2 ^ 32 ≡ n
    field = omega arith

    wire : bit_and (n * 8 + w) 7 % 2 ^ 32 ≡ w
    wire = omega (arith, bit_and-low_mask 3 (n * 8 + w))

skip_field_takes :
    (bytes : List ℕ) (w : ℕ) (rest : List ℕ)
    → skip_field bytes w ≡ some rest
    → length rest ≤ length bytes
unfolding skip_field
skip_field_takes bytes w rest e = elim (Option-cases (read_varint bytes)) [
  | inl none_left ↦ ground (arith, none_left, length-drop {0} 8 bytes, length-drop {0} 4 bytes)
  | inr ((v, r), found) ↦ ground (
    arith,
    found,
    read_varint_takes bytes v r found,
    length-drop {0} 8 bytes,
    length-drop {0} 4 bytes,
    length-drop {0} v r,
  )
]

read_text_takes :
    (bytes : List ℕ) (w : ℕ) (p : List ℕ × List ℕ)
    → read_text bytes w ≡ some p
    → length p.1 ≤ length bytes
unfolding read_text
read_text_takes bytes w p e = elim (Option-cases (read_varint bytes)) [
  | inl none_left ↦ ground (arith, none_left)
  | inr ((v, r), found) ↦
      ground (arith, found, read_varint_takes bytes v r found, length-drop {0} v r)
]

read_number_takes :
    (bytes : List ℕ) (w : ℕ) (p : ℕ × List ℕ)
    → read_number bytes w ≡ some p
    → length p.1 ≤ length bytes
unfolding read_number
read_number_takes bytes w (value, rest) e = ground (arith, read_varint_takes bytes value rest)

read_field_takes :
    (m : RpcMessage) (bytes : List ℕ) (n w : ℕ) (m' : RpcMessage) (rest : List ℕ)
    → read_field m bytes n w ≡ some (m', rest)
    → length rest ≤ length bytes
unfolding read_field
read_field_takes m bytes n w m' rest e =
    grind (arith, read_number_takes, read_text_takes, skip_field_takes)

-- A round takes a byte at least.
pub decode_step_takes :
    (m : RpcMessage) (bytes : List ℕ) (m' : RpcMessage) (rest : List ℕ)
    → decode_step m bytes ≡ some (m', rest)
    → length rest < length bytes
unfolding decode_step
decode_step_takes m bytes m' rest e = elim (Option-cases (read_varint bytes)) [
  | inl none_left ↦ ground (arith, none_left)
  | inr ((t, r), found) ↦ ground (
    arith,
    found,
    read_varint_takes bytes t r found,
    read_field_takes m r (t / 2 ^ 3 % 2 ^ 32) (bit_and t 7 % 2 ^ 32) m' rest,
  )
]

-- The loop of `decode` with enough fuel.
pub decode_from : RpcMessage → List ℕ → Decoded
decode_from m bytes = decode_loop (length bytes) m bytes

-- More fuel than bytes makes no difference.
decode_loop_fuel :
    (f g : ℕ) (m : RpcMessage) (bytes : List ℕ)
    → length bytes ≤ f
    → length bytes ≤ g
    → decode_loop f m bytes ≡ decode_loop g m bytes
unfolding decode_loop
decode_loop_fuel f g m [] hf hg = refl
decode_loop_fuel zero g m (b ∷ bs) hf hg = absurd (omega arith)
decode_loop_fuel (suc f) zero m (b ∷ bs) hf hg = absurd (omega arith)
decode_loop_fuel (suc f) (suc g) m (b ∷ bs) hf hg = elim (Option-cases (decode_step m (b ∷ bs))) [
  | inl e ↦ rw (e, decode_loop)
  | inr ((m', rest), e) ↦
      let shorter = decode_step_takes m (b ∷ bs) m' rest e in
      rw (e, decode_loop) (decode_loop_fuel f g m' rest (omega arith) (omega arith))
]

pub decode_from-nil : (m : RpcMessage) → decode_from m [] ≡ decoded m
unfolding decode_from decode_loop
decode_from-nil m = refl

-- A round that succeeds goes on with its message and the bytes left.
pub decode_from-step :
    (m : RpcMessage) (bytes : List ℕ) (m' : RpcMessage) (rest : List ℕ)
    → decode_step m bytes ≡ some (m', rest)
    → decode_from m bytes ≡ decode_from m' rest
unfolding decode_from decode_loop
decode_from-step m [] m' rest e = absurd (omega (arith, decode_step_takes m [] m' rest e))
decode_from-step m (b ∷ bs) m' rest e =
    let shorter = decode_step_takes m (b ∷ bs) m' rest e in
    rw (e, decode_from, decode_loop)
      (decode_loop_fuel (length bs) (length rest) m' rest (omega arith) (omega arith))

-- A round that fails ends the loop.
pub decode_from-fail :
    (m : RpcMessage) (bytes : List ℕ)
    → 0 < length bytes
    → decode_step m bytes ≡ none
    → decode_from m bytes ≡ rejected
unfolding decode_from decode_loop
decode_from-fail m [] h e = absurd (omega arith)
decode_from-fail m (b ∷ bs) h e = rw (e, decode_from, decode_loop)

-- `decode` starts from the blank message.
pub decode-decode_from : (bytes : List ℕ) → decode bytes ≡ decode_from blank bytes
unfolding decode decode_from
decode-decode_from bytes = refl

-- ===== src/Wire/Total.antt =====
-- `decode` on any input: its loop ends, and what it returns lies in the ranges of the C++ types.
use insist.Base.{
  ℕ, zero, suc, ◌-◌, ◌%◌, ◌^◌, ◌≤◌, ◌<◌, ◌≡◌, ◌≢◌, refl, arith, List, [], ◌∷◌, length, length-take,
  length-drop, take, drop, All-take, All-drop, some, to_i32, Option-cases, inl, inr, ◌⊎◌, ℤ, pos,
  negsuc, IsI32, Keeps, Keeps-none, Keeps-some, Keeps-if, Keeps-bind, ltb, ◌==◌,
}
use insist.Message.{RpcMessage, blank, IsByte, IsText, IsTyped}
use insist.Wire.{
  read_varint, skip_field, read_number, read_text, read_field, store_text, decode_step, decode_loop,
  decode, encode, Decoded, decoded, rejected, out_of_fuel,
}
use insist.Wire.Varint.{read_varint_takes, read_varint-All}
use insist.Wire.Step.{decode_step_takes}
use insist.Wire.RoundTrip.{decode-encode}

decode_loop-ne-out_of_fuel :
    (fuel : ℕ) (m : RpcMessage) (bytes : List ℕ)
    → length bytes ≤ fuel
    → decode_loop fuel m bytes ≢ out_of_fuel
unfolding decode_loop
decode_loop-ne-out_of_fuel fuel m [] h = λ e. cc
decode_loop-ne-out_of_fuel zero m (b ∷ bs) h = absurd (omega arith)
decode_loop-ne-out_of_fuel (suc fuel) m (b ∷ bs) h = elim (Option-cases (decode_step m (b ∷ bs))) [
  | inl e ↦ rw (e, decode_loop) (λ p. cc)
  | inr ((m', rest), e) ↦
      let shorter = decode_step_takes m (b ∷ bs) m' rest e in
      rw (e, decode_loop) (decode_loop-ne-out_of_fuel fuel m' rest (omega arith))
]

-- `decode` ends on every input: it returns a message or `nullopt`.
pub decode-ends :
    (bytes : List ℕ) → ((m : RpcMessage) × (decode bytes ≡ decoded m)) ⊎ (decode bytes ≡ rejected)
unfolding decode
decode-ends bytes =
    ends (decode_loop (length bytes) blank bytes)
      (decode_loop-ne-out_of_fuel (length bytes) blank bytes (omega arith))
  where
    ends : (d : Decoded) → d ≢ out_of_fuel → ((m : RpcMessage) × (d ≡ decoded m)) ⊎ (d ≡ rejected)
    ends (decoded m) h = inl (m, refl)
    ends rejected h = inr refl
    ends out_of_fuel h = absurd (h refl)

-- The values of `std::int32_t` that are not negative.
abbrev pub IsNonNegative : ℤ → Type 0
IsNonNegative (pos n) = n < 2 ^ 31
IsNonNegative (negsuc n) = ⊥

-- The message so far.
record Good (m : RpcMessage) : Type 0 where
  typed : IsTyped m
  status : IsNonNegative m.status

read_number_range :
    (bytes : List ℕ) (w : ℕ) (p : ℕ × List ℕ)
    → IsText bytes
    → read_number bytes w ≡ some p
    → (p.0 < 2 ^ 64) × IsText p.1
unfolding read_number
read_number_range bytes w (v, rest) t e =
    ground (arith, read_varint_takes bytes v rest, read_varint-All IsByte bytes v rest t.bytes)

IsText-take : (n : ℕ) (s : List ℕ) → IsText s → IsText (take n s)
IsText-take n s t = record {
  bytes = All-take IsByte n s t.bytes;
  fits = omega (arith, length-take {0} n s, t.fits);
}

IsText-drop : (n : ℕ) (s : List ℕ) → IsText s → IsText (drop n s)
IsText-drop n s t = record {
  bytes = All-drop IsByte n s t.bytes;
  fits = omega (arith, length-drop {0} n s, t.fits);
}

read_varint-IsText :
    (bytes : List ℕ) (p : ℕ × List ℕ) → IsText bytes → read_varint bytes ≡ some p → IsText p.1
read_varint-IsText bytes (v, rest) t e = record {
  bytes = read_varint-All IsByte bytes v rest t.bytes e;
  fits = omega (arith, read_varint_takes bytes v rest e, t.fits);
}

read_text_range :
    (bytes : List ℕ) (w : ℕ) (p : List ℕ × List ℕ)
    → IsText bytes
    → read_text bytes w ≡ some p
    → IsText p.0 × IsText p.1
unfolding read_text
read_text_range bytes w p t e = elim (Option-cases (read_varint bytes)) [
  | inl none_left ↦ ground (arith, none_left)
  | inr ((v, r), found) ↦
      let ahead : IsText r = read_varint-IsText bytes (v, r) t found in
      ground (arith, found, IsText-take v r ahead, IsText-drop v r ahead)
]

skip_field_range :
    (bytes : List ℕ) (w : ℕ) (rest : List ℕ)
    → IsText bytes
    → skip_field bytes w ≡ some rest
    → IsText rest
unfolding skip_field
skip_field_range bytes w rest t e = elim (Option-cases (read_varint bytes)) [
  | inl none_left ↦ ground (arith, none_left, IsText-drop 8 bytes t, IsText-drop 4 bytes t)
  | inr ((v, r), found) ↦
      let ahead : IsText r = read_varint-IsText bytes (v, r) t found in
      ground
        (arith, found, ahead, IsText-drop v r ahead, IsText-drop 8 bytes t, IsText-drop 4 bytes t)
]

IsI32-of_non_negative : (z : ℤ) → IsNonNegative z → IsI32 z
IsI32-of_non_negative (pos n) h = h
IsI32-of_non_negative (negsuc n) h = elim h [ ]

to_i32-range : (v : ℕ) → v < 2 ^ 31 → IsNonNegative (to_i32 v)
unfolding to_i32
to_i32-range v h = ground arith

module _ (m : RpcMessage) (g : Good m) where
  store_text-Good : (n : ℕ) (s : List ℕ) → IsText s → Good (store_text m n s)
  unfolding store_text
  store_text-Good n s t = ground arith

  store_id-Good : (v : ℕ) → v < 2 ^ 64 → Good (record m { id = v })
  store_id-Good v h = ground arith

  store_kind-Good : (v : ℕ) → Good (record m { kind = v % 2 ^ 32 })
  store_kind-Good v = ground arith

  store_status-Good : (v : ℕ) → v < 2 ^ 31 → Good (record m { status = to_i32 v })
  store_status-Good v h =
      let range = to_i32-range v h in
      let i32 = IsI32-of_non_negative (to_i32 v) range in ground arith

  abbrev Ahead : RpcMessage × List ℕ → Type 0
  Ahead p = Good p.0 × IsText p.1

  read_field-Good : (bytes : List ℕ) (n w : ℕ) → IsText bytes → Keeps Ahead (read_field m bytes n w)
  unfolding read_field
  read_field-Good bytes n w t =
      Keeps-if Ahead (n == 1) _ _
        (λ _.
          Keeps-bind (λ p. (p.0 < 2 ^ 64) × IsText p.1) Ahead _ _ numbers
            (λ p q. Keeps-some Ahead _ (store_id-Good p.0 q.0, q.1)))
        (λ _.
          Keeps-if Ahead (n == 2) _ _
            (λ _.
              Keeps-bind (λ p. (p.0 < 2 ^ 64) × IsText p.1) Ahead _ _ numbers
                (λ p q. Keeps-some Ahead _ (store_kind-Good p.0, q.1)))
            (λ _.
              Keeps-if Ahead _ _ _
                (λ _.
                  Keeps-bind (λ p. IsText p.0 × IsText p.1) Ahead _ _ texts
                    (λ p q. Keeps-some Ahead _ (store_text-Good n p.0 q.0, q.1)))
                (λ _.
                  Keeps-if Ahead (n == 6) _ _
                    (λ _.
                      Keeps-bind (λ p. (p.0 < 2 ^ 64) × IsText p.1) Ahead _ _ numbers
                        (λ p q.
                          Keeps-if Ahead (ltb (2 ^ 31 - 1) p.0) _ _ (λ _. Keeps-none Ahead)
                            (λ small.
                              Keeps-some Ahead _ (store_status-Good p.0 (ground arith), q.1))))
                    (λ _.
                      Keeps-bind IsText Ahead _ _ skips (λ rest q. Keeps-some Ahead _ (g, q))))))
    where
      numbers : Keeps (λ (p : ℕ × List ℕ). (p.0 < 2 ^ 64) × IsText p.1) (read_number bytes w)
      numbers = record { result = λ p e. read_number_range bytes w p t e }

      texts : Keeps (λ (p : List ℕ × List ℕ). IsText p.0 × IsText p.1) (read_text bytes w)
      texts = record { result = λ p e. read_text_range bytes w p t e }

      skips : Keeps IsText (skip_field bytes w)
      skips = record { result = λ rest e. skip_field_range bytes w rest t e }

decode_step-Good :
    (m : RpcMessage) (bytes : List ℕ)
    → Good m
    → IsText bytes
    → Keeps (λ (p : RpcMessage × List ℕ). Good p.0 × IsText p.1) (decode_step m bytes)
unfolding decode_step
decode_step-Good m bytes g t =
    Keeps-bind (λ p. IsText p.1) _ _ _ (record { result = λ p e. read_varint-IsText bytes p t e })
      (λ p q. read_field-Good m g p.1 _ _ q)

decode_loop-Good :
    (fuel : ℕ) (m : RpcMessage) (bytes : List ℕ) (r : RpcMessage)
    → Good m
    → IsText bytes
    → decode_loop fuel m bytes ≡ decoded r
    → Good r
unfolding decode_loop
decode_loop-Good fuel m [] r g t e = ground arith
decode_loop-Good zero m (b ∷ bs) r g t e = cc
decode_loop-Good (suc fuel) m (b ∷ bs) r g t e = elim (Option-cases (decode_step m (b ∷ bs))) [
  | inl failed ↦ ground (arith, failed)
  | inr ((m', rest), found) ↦
      let (g', t') = (decode_step-Good m (b ∷ bs) g t).result (m', rest) found in
      decode_loop-Good fuel m' rest r g' t' (rw (found, decode_loop) at e)
]

-- A message that `decode` returns has all its fields in the ranges of their C++ types, and its
-- status is not negative.
pub decode-IsTyped :
    (bytes : List ℕ) (m : RpcMessage)
    → IsText bytes
    → decode bytes ≡ decoded m
    → IsTyped m × IsNonNegative m.status
unfolding decode
decode-IsTyped bytes m t e =
    let good = decode_loop-Good (length bytes) blank bytes m blank-Good t e in
    (good.typed, good.status)
  where
    blank-Good : Good blank
    blank-Good = omega arith

-- Whatever bytes were read, if they gave a message, it survives being written and read again.
pub decode-encode-decode :
    (bytes : List ℕ) (m : RpcMessage)
    → IsText bytes
    → decode bytes ≡ decoded m
    → decode (encode m) ≡ decoded m
decode-encode-decode bytes m t e =
    let (typed, range) = decode-IsTyped bytes m t e in again m.status range typed refl
  where
    again : (z : ℤ) → IsNonNegative z → IsTyped m → m.status ≡ z → decode (encode m) ≡ decoded m
    again (pos n) range typed same = decode-encode m n typed same
    again (negsuc n) range typed same = elim range [ ]

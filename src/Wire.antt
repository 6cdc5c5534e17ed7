-- ===== src/Wire.antt =====
-- include/minirpc/protobuf_wire.hpp and src/protobuf_wire.cpp: `ProtobufWireCodec`.
-- A `std::string` is a list of bytes. A `std::string_view` with a position in it is the list of the
-- bytes from the position on, so `bytes.size() - pos` is its length. `none` is `std::nullopt`, or
-- the `false` of a reader, after which every caller gives up.
pub mod Varint
pub mod Format
pub mod Step
pub mod Fields
pub mod RoundTrip
pub mod Total
pub mod Unknown
mod Runs
use insist.Base.{
  is_empty, ℕ, zero, suc, ◌+◌, ◌-◌, ◌*◌, ◌/◌, ◌%◌, ◌^◌, ◌<◌, bit_and, bit_or, arith, Bool, true,
  false, ◌||◌, ltb, leb, ◌==◌, if◌then◌else◌, lt_wf, dec_lt, List, [], ◌∷◌, ◌++◌, length, take,
  drop, Option, none, some, ◌>>=◌, ◌>>◌, guard, ℤ, pos, negsuc, to_u32, to_i32,
}
use insist.Message.{RpcMessage, blank, kind_unknown}
use mathlib.Core.Logic.{dite}
use mathlib.Core.WellFounded.{Acc}

abbrev pub wire_varint : ℕ
wire_varint = 0

abbrev pub wire_fixed64 : ℕ
wire_fixed64 = 1

abbrev pub wire_length_delimited : ℕ
wire_length_delimited = 2

abbrev pub wire_fixed32 : ℕ
wire_fixed32 = 5

pub shift_lt : (v : ℕ) → 127 < v → v / 2 ^ 7 < v
shift_lt v h = omega arith

-- `value >>= 7` makes the value smaller while the loop goes on.
unfoldable pub write_varint_loop : List ℕ → (value : ℕ) → Acc ◌<◌ value → List ℕ
write_varint_loop out value (Acc.intro _ smaller) =
    dite (dec_lt 127 value)
      (λ more.
        write_varint_loop (out ++ (bit_or (bit_and value 0x7f) 0x80 % 256) ∷ []) (value / 2 ^ 7)
          (smaller (value / 2 ^ 7) (shift_lt value more)))
      (λ _. out ++ (value % 256) ∷ [])

unfoldable pub write_varint : List ℕ → ℕ → List ℕ
unfolding lt_wf dec_lt
write_varint out value = write_varint_loop out value (lt_wf.apply value)

unfoldable pub write_tag : List ℕ → ℕ → ℕ → List ℕ
write_tag out field_number wire_type =
    write_varint out (bit_or (field_number * 2 ^ 3 % 2 ^ 64) wire_type)

unfoldable pub write_length_delimited : List ℕ → ℕ → List ℕ → List ℕ
write_length_delimited out field_number value =
    write_varint (write_tag out field_number wire_length_delimited) (length value) ++ value

abbrev pub is_zero : ℤ → Bool
is_zero (pos n) = n == 0
is_zero (negsuc n) = false

-- Each `if` of `encode` appends to what the ones above it wrote.
unfoldable pub encode : RpcMessage → List ℕ
encode m =
    let o1 = if m.id == 0 then [] else write_varint (write_tag [] 1 wire_varint) m.id in
    let o2 =
      if m.kind == kind_unknown then o1 else write_varint (write_tag o1 2 wire_varint) m.kind in
    let o3 = if is_empty m.service then o2 else write_length_delimited o2 3 m.service in
    let o4 = if is_empty m.method then o3 else write_length_delimited o3 4 m.method in
    let o5 = if is_empty m.payload then o4 else write_length_delimited o4 5 m.payload in
    let o6 =
      if is_zero m.status
      then o5
      else write_varint (write_tag o5 6 wire_varint) (to_u32 m.status) in
    if is_empty m.error then o6 else write_length_delimited o6 7 m.error

-- The loop of `read_varint`; the value and the bytes behind it.
pub read_varint_loop : List ℕ → ℕ → ℕ → Option (ℕ × List ℕ)
read_varint_loop [] value shift = none
read_varint_loop (byte ∷ rest) value shift =
    let value' = bit_or value (bit_and byte 0x7f * 2 ^ shift % 2 ^ 64) in
    let more = read_varint_loop rest value' (shift + 7) in
    if leb shift 63 then (if bit_and byte 0x80 == 0 then some (value', rest) else more) else none

pub read_varint : List ℕ → Option (ℕ × List ℕ)
read_varint bytes = read_varint_loop bytes 0 0

-- `pos += n`, where the bytes are there.
abbrev advance : ℕ → List ℕ → Option (List ℕ)
advance n bytes = if ltb (length bytes) n then none else some (drop n bytes)

pub skip_field : List ℕ → ℕ → Option (List ℕ)
skip_field bytes wire_type =
    if wire_type == wire_varint
    then (read_varint bytes >>= λ (ignored, rest). some rest)
    else if wire_type == wire_fixed64
    then advance 8 bytes
    else if wire_type == wire_length_delimited
    then (read_varint bytes >>= λ (size, rest). advance size rest)
    else if wire_type == wire_fixed32
    then advance 4 bytes
    else none

-- `case 1`, `case 2` and `case 6` up to the assignment.
read_number : List ℕ → ℕ → Option (ℕ × List ℕ)
read_number bytes wire_type = do guard (wire_type == wire_varint); read_varint bytes

-- `case 3`, `case 4`, `case 5` and `case 7` up to the assignment.
read_text : List ℕ → ℕ → Option (List ℕ × List ℕ)
read_text bytes wire_type = do
  guard (wire_type == wire_length_delimited)
  (size, rest) ← read_varint bytes
  guard (leb size (length rest))
  some (take size rest, drop size rest)

pub store_text : RpcMessage → ℕ → List ℕ → RpcMessage
store_text m field_number value =
    if field_number == 3
    then record m { service = value }
    else if field_number == 4
    then record m { method = value }
    else if field_number == 5
    then record m { payload = value }
    else record m { error = value }

-- The `switch` of `decode`.
pub read_field : RpcMessage → List ℕ → ℕ → ℕ → Option (RpcMessage × List ℕ)
read_field m bytes field_number wire_type =
    if field_number == 1
    then (read_number bytes wire_type >>= λ (value, rest). some (record m { id = value }, rest))
    else if field_number == 2
    then (read_number bytes wire_type >>= λ (value, rest).
        some (record m { kind = value % 2 ^ 32 }, rest))
    else if field_number == 3 || field_number == 4 || field_number == 5 || field_number == 7
    then (read_text bytes wire_type >>= λ (value, rest).
        some (store_text m field_number value, rest))
    else if field_number == 6
    then (read_number bytes wire_type >>= λ (value, rest).
        if ltb (2 ^ 31 - 1) value then none else some (record m { status = to_i32 value }, rest))
    else (skip_field bytes wire_type >>= λ rest. some (m, rest))

-- The body of the loop of `decode`.
pub decode_step : RpcMessage → List ℕ → Option (RpcMessage × List ℕ)
decode_step m bytes = do
  (tag, rest) ← read_varint bytes
  read_field m rest (tag / 2 ^ 3 % 2 ^ 32) (bit_and tag 0x07 % 2 ^ 32)

-- The result of `decode`. `out_of_fuel` is no C++ value: the model's loop ran out of rounds.
pub data Decoded : Type 0 where
  decoded : RpcMessage → Decoded
  rejected : Decoded
  out_of_fuel : Decoded

unfoldable pub decode_loop : ℕ → RpcMessage → List ℕ → Decoded
decode_loop fuel m [] = decoded m
decode_loop zero m (b ∷ bs) = out_of_fuel
decode_loop (suc fuel) m (b ∷ bs) = elim (decode_step m (b ∷ bs)) [
  | none ↦ rejected
  | some (m', rest) ↦ decode_loop fuel m' rest
]

-- A round takes a byte at least, so as many rounds as bytes are enough.
unfoldable pub decode : List ℕ → Decoded
decode bytes = decode_loop (length bytes) blank bytes

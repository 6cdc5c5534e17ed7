-- ===== src/Wire/Varint.antt =====
-- `write_varint` and `read_varint`: what is written is read back, and what is read at all is a
-- 64-bit value out of 1 to 10 bytes.
use insist.Base.{
  arith, bit_and, bit_or, ltb, List, [], ◌∷◌, ◌++◌, length, append_assoc, All, some, if◌then◌else◌,
  ℕ, zero, suc, ◌+◌, ◌%◌, ◌/◌, ◌*◌, ◌^◌, ◌≤◌, ◌<◌, ◌≡◌, ap,
}
use insist.Base.Bits.{bit_or-low_high, bit_or-lt, bit_and-low_mask, bit_and-top_bit}
use insist.Message.{IsByte}
use insist.Wire.{write_varint_loop, write_varint, read_varint_loop, read_varint}
use mathlib.Core.WellFounded.{Acc}
use native.Mathlib.Nat.{div-add-mod}
use native.Mathlib.Numerals.{towards_suc}

-- The groups of seven bits, lowest first, with the top bit set on all but the last.
pub groups : ℕ → ℕ → List ℕ
groups zero v = v ∷ []
groups (suc k) v =
    let rest = groups k (v / 128) in if ltb v 128 then v ∷ [] else (v % 128 + 128) ∷ rest

-- The format of a 64-bit value.
pub varint : ℕ → List ℕ
varint = groups 9

group_byte : (v : ℕ) → bit_or (bit_and v 0x7f) 0x80 % 256 ≡ v % 128 + 128
group_byte v = omega (
  arith,
  bit_and-low_mask 7 v,
  ap (λ (t : ℕ). bit_or t 0x80) (bit_and-low_mask 7 v),
  bit_or-low_high 7 (v % 128) 1 (omega arith),
)

write_varint_loop-groups :
    (k : ℕ) (out : List ℕ) (v : ℕ) (w : Acc ◌<◌ v)
    → v < 128 ^ suc k
    → write_varint_loop out v w ≡ out ++ groups k v
unfolding write_varint_loop groups
write_varint_loop-groups zero out v (Acc.intro _ smaller) h = ground arith
write_varint_loop-groups (suc k) out v (Acc.intro _ smaller) h = grind (
  arith,
  group_byte v,
  λ (w : Acc ◌<◌ (v / 128)).
      write_varint_loop-groups k (out ++ (v % 128 + 128) ∷ []) (v / 128) w (omega arith),
  append_assoc out ((v % 128 + 128) ∷ []) (groups k (v / 128)),
)

-- `write_varint` keeps what is there and appends the format of the value.
pub write_varint-varint : (out : List ℕ) (v : ℕ) → v < 2 ^ 64 → write_varint out v ≡ out ++ varint v
unfolding write_varint varint
write_varint-varint out v h = write_varint_loop-groups 9 out v _ (omega arith)

-- A byte that ends the number, and a byte with the top bit set over the group `g`.
last_byte :
    (b acc shift : ℕ) (rest : List ℕ)
    → b < 128
    → shift ≤ 63
    → acc < 2 ^ shift
    → acc + b * 2 ^ shift < 2 ^ 64
    → read_varint_loop (b ∷ rest) acc shift ≡ some (acc + b * 2 ^ shift, rest)
unfolding read_varint_loop
last_byte b acc shift rest hb hs ha fits =
    ground (arith, bit_and-low_mask 7 b, bit_and-top_bit b, bit_or-low_high shift acc b)

inner_byte :
    (g acc shift : ℕ) (rest : List ℕ)
    → g < 128
    → shift ≤ 63
    → acc < 2 ^ shift
    → acc + g * 2 ^ shift < 2 ^ 64
    → read_varint_loop ((g + 128) ∷ rest) acc shift
      ≡ read_varint_loop rest (acc + g * 2 ^ shift) (shift + 7)
unfolding read_varint_loop
inner_byte g acc shift rest hg hs ha fits =
    ground
      (arith, bit_and-low_mask 7 (g + 128), bit_and-top_bit (g + 128), bit_or-low_high shift acc g)

pow_seven : (s : ℕ) → 2 ^ (s + 7) ≡ 128 * 2 ^ s
pow_seven s = simp towards_suc (omega arith)

-- The lowest group of `w` and the rest, at bit `s`.
group_and_rest : (w s : ℕ) → w / 128 * 2 ^ (s + 7) + w % 128 * 2 ^ s ≡ w * 2 ^ s
group_and_rest w s = omega (
  arith,
  ap (λ (power : ℕ). w / 128 * power) (pow_seven s),
  ap (λ (value : ℕ). value * 2 ^ s) (div-add-mod w 128),
)

group_fits : (g acc s : ℕ) → g < 128 → acc < 2 ^ s → acc + g * 2 ^ s < 2 ^ (s + 7)
group_fits g acc s hg ha = grind (arith, pow_seven s)

-- `w` is what is still to be read, from bit `shift` on.
read_varint_loop-groups :
    (k w acc shift : ℕ) (rest : List ℕ)
    → w < 128 ^ suc k
    → shift + 7 * k ≤ 63
    → acc < 2 ^ shift
    → acc + w * 2 ^ shift < 2 ^ 64
    → read_varint_loop (groups k w ++ rest) acc shift ≡ some (acc + w * 2 ^ shift, rest)
unfolding groups
read_varint_loop-groups zero w acc shift rest hw hs ha fits =
    last_byte w acc shift rest hw (omega arith) ha fits
read_varint_loop-groups (suc k) w acc shift rest hw hs ha fits = ground (
  arith,
  last_byte w acc shift rest,
  group_and_rest w shift,
  inner_byte (w % 128) acc shift (groups k (w / 128) ++ rest),
  group_fits (w % 128) acc shift,
  read_varint_loop-groups k (w / 128) (acc + w % 128 * 2 ^ shift) (shift + 7) rest (omega arith),
)

-- `read_varint` reads back the value and leaves what follows.
pub read_varint-varint :
    (v : ℕ) (rest : List ℕ) → v < 2 ^ 64 → read_varint (varint v ++ rest) ≡ some (v, rest)
unfolding read_varint varint
read_varint-varint v rest h = ground (arith, read_varint_loop-groups 9 v 0 0 rest)

groups-IsByte : (k v : ℕ) → v < 128 ^ suc k → All IsByte (groups k v)
unfolding groups
groups-IsByte zero v h = omega arith
groups-IsByte (suc k) v h = ground (arith, groups-IsByte k (v / 128) (omega arith))

length-groups : (k v : ℕ) → (1 ≤ length (groups k v)) × (length (groups k v) ≤ k + 1)
unfolding groups
length-groups zero v = omega arith
length-groups (suc k) v = ground (arith, length-groups k (v / 128))

pub varint-IsByte : (v : ℕ) → v < 2 ^ 64 → All IsByte (varint v)
unfolding varint
varint-IsByte v h = groups-IsByte 9 v (omega arith)

pub length-varint : (v : ℕ) → (1 ≤ length (varint v)) × (length (varint v) ≤ 10)
unfolding varint
length-varint v = length-groups 9 v

read_varint_loop_takes :
    (bytes : List ℕ) (acc shift j v : ℕ) (rest : List ℕ)
    → shift ≡ 7 * j
    → acc < 2 ^ 64
    → read_varint_loop bytes acc shift ≡ some (v, rest)
    → (v < 2 ^ 64) × (length rest < length bytes) × (length bytes + j ≤ length rest + 10)
unfolding read_varint_loop
read_varint_loop_takes [] acc shift j v rest hs ha e = cc
read_varint_loop_takes (b ∷ bs) acc shift j v rest hs ha e =
    let group = bit_and b 0x7f * 2 ^ shift % 2 ^ 64 in
    let fits : bit_or acc group < 2 ^ 64 = bit_or-lt 64 acc group ha (omega arith) in
    ground (
      arith,
      fits,
      read_varint_loop_takes bs (bit_or acc group) (shift + 7) (j + 1) v rest (omega arith) fits,
    )

-- On any input, a number that is read has 64 bits and took 1 to 10 bytes.
pub read_varint_takes :
    (bytes : List ℕ) (v : ℕ) (rest : List ℕ)
    → read_varint bytes ≡ some (v, rest)
    → (v < 2 ^ 64) × (length rest < length bytes) × (length bytes ≤ length rest + 10)
unfolding read_varint
read_varint_takes bytes v rest e = ground (arith, read_varint_loop_takes bytes 0 0 0 v rest)

read_varint_loop-append :
    (bytes more : List ℕ) (acc shift v : ℕ) (rest : List ℕ)
    → read_varint_loop bytes acc shift ≡ some (v, rest)
    → read_varint_loop (bytes ++ more) acc shift ≡ some (v, rest ++ more)
unfolding read_varint_loop
read_varint_loop-append [] more acc shift v rest e = cc
read_varint_loop-append (b ∷ bs) more acc shift v rest e =
    let group = bit_and b 0x7f * 2 ^ shift % 2 ^ 64 in
    ground (arith, read_varint_loop-append bs more (bit_or acc group) (shift + 7) v rest)

-- `read_varint` does not look past the number.
pub read_varint-append :
    (bytes more : List ℕ) (v : ℕ) (rest : List ℕ)
    → read_varint bytes ≡ some (v, rest)
    → read_varint (bytes ++ more) ≡ some (v, rest ++ more)
unfolding read_varint
read_varint-append bytes more v rest e = read_varint_loop-append bytes more 0 0 v rest e

read_varint_loop-All :
    (P : ℕ → Type 0) (bytes : List ℕ) (acc shift v : ℕ) (rest : List ℕ)
    → All P bytes
    → read_varint_loop bytes acc shift ≡ some (v, rest)
    → All P rest
unfolding read_varint_loop
read_varint_loop-All P [] acc shift v rest h e = cc
read_varint_loop-All P (b ∷ bs) acc shift v rest h e =
    let group = bit_and b 0x7f * 2 ^ shift % 2 ^ 64 in
    ground (arith, read_varint_loop-All P bs (bit_or acc group) (shift + 7) v rest h.1)

-- What holds of every byte of the input holds of those that are left.
pub read_varint-All :
    (P : ℕ → Type 0) (bytes : List ℕ) (v : ℕ) (rest : List ℕ)
    → All P bytes
    → read_varint bytes ≡ some (v, rest)
    → All P rest
unfolding read_varint
read_varint-All P bytes v rest h e = read_varint_loop-All P bytes 0 0 v rest h e

-- `read_varint` reads back what `write_varint` wrote for a 64-bit value, and leaves what follows.
pub read_varint-write_varint :
    (v : ℕ) (rest : List ℕ) → v < 2 ^ 64 → read_varint (write_varint [] v ++ rest) ≡ some (v, rest)
read_varint-write_varint v rest h = rw (write_varint-varint [] v h) (read_varint-varint v rest h)

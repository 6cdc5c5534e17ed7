-- ===== src/Framing.antt =====
-- include/minirpc/framing.hpp: the 4-byte big-endian length in front of each message.
-- A `std::vector<char>` and a `std::string` are lists of bytes.
pub mod Header
pub mod Pop
mod Runs
use insist.Base.{
  ℕ, ◌+◌, ◌*◌, ◌/◌, ◌%◌, ◌^◌, bit_and, bit_or, ltb, if◌then◌else◌, List, [], ◌∷◌, ◌++◌, length,
  take, drop,
}

abbrev pub max_frame_size : ℕ
max_frame_size = 4 * 1024 * 1024

abbrev pub frame_header_size : ℕ
frame_header_size = 4

-- `size >> 24`, `size >> 16`, `size >> 8` and `size`, each under the mask 0xff.
unfoldable pub encode_frame_size : ℕ → List ℕ
encode_frame_size size =
    (bit_and (size / 2 ^ 24) 0xff % 256)
    ∷ (bit_and (size / 2 ^ 16) 0xff % 256)
    ∷ (bit_and (size / 2 ^ 8) 0xff % 256)
    ∷ (bit_and size 0xff % 256)
    ∷ []

-- `data[0]` to `data[3]`: the callers have checked that they are there.
unfoldable pub decode_frame_size : ℕ → ℕ → ℕ → ℕ → ℕ
decode_frame_size b0 b1 b2 b3 =
    bit_or (bit_or (bit_or (b0 * 2 ^ 24 % 2 ^ 32) (b1 * 2 ^ 16 % 2 ^ 32)) (b2 * 2 ^ 8 % 2 ^ 32)) b3

-- The size is cast to `std::uint32_t`.
unfoldable pub make_frame : List ℕ → List ℕ
make_frame payload = encode_frame_size (length payload % 2 ^ 32) ++ payload

-- `FrameReadResult`, with what `Ok` leaves in the reference arguments: the payload and the buffer.
-- The other two results leave both alone.
pub data FrameReadResult : Type 0 where
  need_more : FrameReadResult
  frame_ok : List ℕ → List ℕ → FrameReadResult
  too_large : FrameReadResult

-- `try_pop_frame` after its first test.
unfoldable pub pop_sized : ℕ → List ℕ → FrameReadResult
pop_sized size buffer =
    if ltb max_frame_size size
    then too_large
    else if ltb (length buffer) (frame_header_size + size)
    then need_more
    else frame_ok (take size (drop frame_header_size buffer))
        (drop (frame_header_size + size) buffer)

-- A buffer with fewer than four bytes holds no header.
unfoldable pub try_pop_frame : List ℕ → FrameReadResult
unfolding pop_sized
try_pop_frame (b0 ∷ b1 ∷ b2 ∷ b3 ∷ rest) =
    pop_sized (decode_frame_size b0 b1 b2 b3) (b0 ∷ b1 ∷ b2 ∷ b3 ∷ rest)
try_pop_frame _ = need_more

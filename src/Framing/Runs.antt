-- ===== src/Framing/Runs.antt =====
-- Concrete frames, and the theorems at them.
use insist.Base.{ℕ, ◌≤◌, ◌≡◌, refl, arith, List, [], ◌∷◌, ◌++◌, length}
use insist.Framing.{
  encode_frame_size, decode_frame_size, make_frame, try_pop_frame, need_more, frame_ok,
  max_frame_size,
}
use insist.Framing.Pop.{try_pop_frame-make_frame, try_pop_frame-prefix, try_pop_frame_sound}

abbrev hi_frame : List ℕ
hi_frame = 0 ∷ 0 ∷ 0 ∷ 2 ∷ b'h' ∷ b'i' ∷ []

make_hi : make_frame (b'h' ∷ b'i' ∷ []) ≡ hi_frame
unfolding make_frame encode_frame_size
make_hi = refl

pop_hi : try_pop_frame (hi_frame ++ 9 ∷ []) ≡ frame_ok (b'h' ∷ b'i' ∷ []) (9 ∷ [])
unfolding try_pop_frame decode_frame_size
pop_hi = refl

try_pop_frame-make_frame_example :
    try_pop_frame (make_frame (b'h' ∷ b'i' ∷ []) ++ 9 ∷ []) ≡ frame_ok (b'h' ∷ b'i' ∷ []) (9 ∷ [])
try_pop_frame-make_frame_example =
    try_pop_frame-make_frame (b'h' ∷ b'i' ∷ []) (9 ∷ []) (omega arith)

try_pop_frame-prefix_example : try_pop_frame (0 ∷ 0 ∷ 0 ∷ 2 ∷ b'h' ∷ []) ≡ need_more
try_pop_frame-prefix_example =
    try_pop_frame-prefix (b'h' ∷ b'i' ∷ []) (0 ∷ 0 ∷ 0 ∷ 2 ∷ b'h' ∷ []) (b'i' ∷ []) (omega arith)
      (omega arith) make_hi

try_pop_frame_sound_example :
    (hi_frame ++ 9 ∷ [] ≡ make_frame (b'h' ∷ b'i' ∷ []) ++ 9 ∷ [])
    × (length {A = ℕ} (b'h' ∷ b'i' ∷ []) ≤ max_frame_size)
try_pop_frame_sound_example =
    try_pop_frame_sound (hi_frame ++ 9 ∷ []) (b'h' ∷ b'i' ∷ []) (9 ∷ []) (omega arith) pop_hi

-- ===== src/Framing/Pop.antt =====
-- `try_pop_frame` against `make_frame`: it takes exactly the frames, waits on every proper prefix of
-- one, and is not misled by what follows.
use insist.Base.{
  ℕ, suc, ◌+◌, ◌/◌, ◌%◌, ◌^◌, ◌≤◌, ◌<◌, ◌≡◌, refl, ap, subst, ◌∙◌, arith, ltb, if◌then◌else◌, List,
  [], ◌∷◌, ◌++◌, length, length-append, length-take, length-drop, take, drop, take-append,
  drop-append, append_assoc, take-append_le, drop-append_le, take-append-drop, All,
}
use Prim.Native.Nat.{min}
use insist.Message.{IsByte}
use insist.Framing.{
  encode_frame_size, decode_frame_size, make_frame, try_pop_frame, pop_sized, need_more, frame_ok,
  too_large, max_frame_size, frame_header_size,
}
use insist.Framing.Header.{
  encode_frame_size-digits, decode_frame_size-sum, decode-encode_frame_size,
}

abbrev digits : ℕ → List ℕ
digits size = (size / 2 ^ 24) ∷ (size / 2 ^ 16 % 256) ∷ (size / 2 ^ 8 % 256) ∷ (size % 256) ∷ []

-- The four bytes of a header, in front of anything.
header_first :
    (size : ℕ) (rest : List ℕ)
    → size < 2 ^ 32
    → try_pop_frame (encode_frame_size size ++ rest)
      ≡ pop_sized size (encode_frame_size size ++ rest)
unfolding try_pop_frame
header_first size rest h = rw (encode_frame_size-digits size h) (
    ap (λ n. pop_sized n (digits size ++ rest))
      (decode-encode_frame_size size _ _ _ _ h (encode_frame_size-digits size h)))

length-encode_frame_size : (size : ℕ) → length (encode_frame_size size) ≡ 4
unfolding encode_frame_size
length-encode_frame_size size = refl

pub length-make_frame : (payload : List ℕ) → length (make_frame payload) ≡ 4 + length payload
unfolding make_frame
length-make_frame payload = omega (
  arith,
  length-append {0} (encode_frame_size (length payload % 2 ^ 32)) payload,
  length-encode_frame_size (length payload % 2 ^ 32),
)

drop_header : (size : ℕ) (xs : List ℕ) → drop 4 (encode_frame_size size ++ xs) ≡ xs
unfolding encode_frame_size
drop_header size xs = refl

drop_frame :
    (size n : ℕ) (xs : List ℕ)
    → drop (frame_header_size + n) (encode_frame_size size ++ xs) ≡ drop n xs
unfolding encode_frame_size
drop_frame size n xs = rw four
  where
    four : frame_header_size + n ≡ suc (suc (suc (suc n)))
    four = omega arith

length-framed : (size : ℕ) (xs : List ℕ) → length (encode_frame_size size ++ xs) ≡ 4 + length xs
unfolding encode_frame_size
length-framed size xs = omega arith

-- What `try_pop_frame` does behind a header.
pub framed_cases :
    (size : ℕ) (xs : List ℕ)
    → size ≤ max_frame_size
    → try_pop_frame (encode_frame_size size ++ xs)
      ≡ (if ltb (length xs) size then need_more else frame_ok (take size xs) (drop size xs))
unfolding pop_sized
framed_cases size xs h =
    header_first size xs (omega arith)
    ∙ ground (arith, drop_header size xs, drop_frame size size xs, length-framed size xs)

-- A whole frame within the limit is taken off the front, and what follows it stays in the buffer.
pub try_pop_frame-make_frame :
    (payload rest : List ℕ)
    → length payload ≤ max_frame_size
    → try_pop_frame (make_frame payload ++ rest) ≡ frame_ok payload rest
unfolding make_frame
try_pop_frame-make_frame payload rest h =
    rw (small, append_assoc)
      (framed_cases (length payload) (payload ++ rest) h
        ∙ ground (
          arith,
          length-append {0} payload rest,
          take-append {0} payload rest,
          drop-append {0} payload rest,
        ))
  where
    small : length payload % 2 ^ 32 ≡ length payload
    small = omega arith

pub try_pop_frame-nil : try_pop_frame [] ≡ need_more
unfolding try_pop_frame
try_pop_frame-nil = refl

-- A header that announces more than the limit, in 32 bits, is refused, whatever follows.
pub try_pop_frame-too_large :
    (size : ℕ) (rest : List ℕ)
    → size < 2 ^ 32
    → max_frame_size < size
    → try_pop_frame (encode_frame_size size ++ rest) ≡ too_large
unfolding pop_sized
try_pop_frame-too_large size rest h big = header_first size rest h ∙ ground arith

-- A buffer that holds a frame within the limit, cut anywhere in front of its end, has to wait.
pub try_pop_frame-prefix :
    (payload front back : List ℕ)
    → length payload ≤ max_frame_size
    → 0 < length back
    → make_frame payload ≡ front ++ back
    → try_pop_frame front ≡ need_more
unfolding make_frame encode_frame_size
try_pop_frame-prefix payload [] back h hb e = unfold try_pop_frame in refl
try_pop_frame-prefix payload (a ∷ []) back h hb e = unfold try_pop_frame in refl
try_pop_frame-prefix payload (a ∷ b ∷ []) back h hb e = unfold try_pop_frame in refl
try_pop_frame-prefix payload (a ∷ b ∷ c ∷ []) back h hb e = unfold try_pop_frame in refl
try_pop_frame-prefix payload (a ∷ b ∷ c ∷ d ∷ front) back h hb e =
    subst (λ header. try_pop_frame (header ++ front) ≡ need_more) (ap (take 4) e)
      (framed_cases (length payload % 2 ^ 32) front (omega arith)
        ∙ ground (arith, ap length (ap (drop 4) e), length-append {0} front back))

-- `pop_sized` with the header split off.
pop_sized-header :
    (size a b c d : ℕ) (xs : List ℕ)
    → pop_sized size (a ∷ b ∷ c ∷ d ∷ xs) ≡ (
        if ltb max_frame_size size
        then too_large
        else if ltb (length xs) size
        then need_more
        else frame_ok (take size xs) (drop size xs))
unfolding pop_sized
pop_sized-header size a b c d xs = rw four (ground arith)
  where
    four : frame_header_size + size ≡ suc (suc (suc (suc size)))
    four = omega arith

-- The header that stands in front of a buffer, if its bytes are bytes.
encode-decode_frame_size :
    (b0 b1 b2 b3 : ℕ)
    → b0 < 256
    → b1 < 256
    → b2 < 256
    → b3 < 256
    → (encode_frame_size (decode_frame_size b0 b1 b2 b3) ≡ b0 ∷ b1 ∷ b2 ∷ b3 ∷ [])
      × (decode_frame_size b0 b1 b2 b3 < 2 ^ 32)
encode-decode_frame_size b0 b1 b2 b3 h0 h1 h2 h3 =
    let sum = decode_frame_size-sum b0 b1 b2 b3 h0 h1 h2 h3 in
    let small : decode_frame_size b0 b1 b2 b3 < 2 ^ 32 = omega arith in
    (ground (arith, encode_frame_size-digits (decode_frame_size b0 b1 b2 b3) small), small)

make_frame-take :
    (size : ℕ) (xs : List ℕ)
    → size < 2 ^ 32
    → size ≤ length xs
    → make_frame (take size xs) ++ drop size xs ≡ encode_frame_size size ++ xs
unfolding make_frame
make_frame-take size xs h fits = rw (length-take {0} size xs, small, append_assoc, take-append-drop)
  where
    small : min size (length xs) % 2 ^ 32 ≡ size
    small = omega arith

-- What `try_pop_frame` takes off a buffer of bytes is a frame of `make_frame`, within the limit.
pub try_pop_frame_sound :
    (buffer payload rest : List ℕ)
    → All IsByte buffer
    → try_pop_frame buffer ≡ frame_ok payload rest
    → (buffer ≡ make_frame payload ++ rest) × (length payload ≤ max_frame_size)
unfolding try_pop_frame
try_pop_frame_sound [] payload rest h e = cc
try_pop_frame_sound (a ∷ []) payload rest h e = cc
try_pop_frame_sound (a ∷ b ∷ []) payload rest h e = cc
try_pop_frame_sound (a ∷ b ∷ c ∷ []) payload rest h e = cc
try_pop_frame_sound (a ∷ b ∷ c ∷ d ∷ xs) payload rest h e =
    let size = decode_frame_size a b c d in
    let (header, small) = encode-decode_frame_size a b c d h.0 h.1.0 h.1.1.0 h.1.1.1.0 in
    ground (
      arith,
      header,
      small,
      pop_sized-header size a b c d xs,
      length-take {0} size xs,
      take-append-drop {0} size xs,
      make_frame-take size xs,
      ap (λ h. h ++ xs) header,
    )

-- More bytes behind a whole frame join the rest.
pub try_pop_frame-append :
    (buffer more payload rest : List ℕ)
    → try_pop_frame buffer ≡ frame_ok payload rest
    → try_pop_frame (buffer ++ more) ≡ frame_ok payload (rest ++ more)
unfolding try_pop_frame
try_pop_frame-append [] more payload rest e = cc
try_pop_frame-append (a ∷ []) more payload rest e = cc
try_pop_frame-append (a ∷ b ∷ []) more payload rest e = cc
try_pop_frame-append (a ∷ b ∷ c ∷ []) more payload rest e = cc
try_pop_frame-append (a ∷ b ∷ c ∷ d ∷ xs) more payload rest e =
    let size = decode_frame_size a b c d in
    ground (
      arith,
      pop_sized-header size a b c d xs,
      pop_sized-header size a b c d (xs ++ more),
      length-append {0} xs more,
      take-append_le {0} size xs more,
      drop-append_le {0} size xs more,
    )

-- More bytes do not mend a header that is too large.
pub try_pop_frame-append_too_large :
    (buffer more : List ℕ)
    → try_pop_frame buffer ≡ too_large
    → try_pop_frame (buffer ++ more) ≡ too_large
unfolding try_pop_frame
try_pop_frame-append_too_large [] more e = cc
try_pop_frame-append_too_large (a ∷ []) more e = cc
try_pop_frame-append_too_large (a ∷ b ∷ []) more e = cc
try_pop_frame-append_too_large (a ∷ b ∷ c ∷ []) more e = cc
try_pop_frame-append_too_large (a ∷ b ∷ c ∷ d ∷ xs) more e = ground arith

-- A frame that is taken off makes the buffer shorter by its header at least.
pub try_pop_frame_takes :
    (buffer payload rest : List ℕ)
    → try_pop_frame buffer ≡ frame_ok payload rest
    → length rest < length buffer
unfolding try_pop_frame
try_pop_frame_takes [] payload rest e = cc
try_pop_frame_takes (a ∷ []) payload rest e = cc
try_pop_frame_takes (a ∷ b ∷ []) payload rest e = cc
try_pop_frame_takes (a ∷ b ∷ c ∷ []) payload rest e = cc
try_pop_frame_takes (a ∷ b ∷ c ∷ d ∷ xs) payload rest e =
    let size = decode_frame_size a b c d in
    ground (arith, length-drop {0} (frame_header_size + size) (a ∷ b ∷ c ∷ d ∷ xs))

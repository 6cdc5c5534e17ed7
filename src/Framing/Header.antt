-- ===== src/Framing/Header.antt =====
-- The length header.
use insist.Base.{ℕ, ◌+◌, ◌*◌, ◌/◌, ◌%◌, ◌^◌, ◌<◌, ◌≡◌, refl, ap, arith, bit_or, [], ◌∷◌}
use mathlib.Core.Path.{◌≡⟨◌⟩◌, ◌∎}
use insist.Base.Bits.{bit_and-low_mask, bit_or-high_low}
use insist.Framing.{encode_frame_size, decode_frame_size}

-- The four digits to base 256.
pub encode_frame_size-digits :
    (size : ℕ)
    → size < 2 ^ 32
    → encode_frame_size size
      ≡ (size / 2 ^ 24) ∷ (size / 2 ^ 16 % 256) ∷ (size / 2 ^ 8 % 256) ∷ (size % 256) ∷ []
unfolding encode_frame_size
encode_frame_size-digits size h = ground (
  arith,
  bit_and-low_mask 8 (size / 2 ^ 24),
  bit_and-low_mask 8 (size / 2 ^ 16),
  bit_and-low_mask 8 (size / 2 ^ 8),
  bit_and-low_mask 8 size,
)

ap₃ : (f : ℕ → ℕ → ℕ → ℕ) {a a' b b' c c' : ℕ} → a ≡ a' → b ≡ b' → c ≡ c' → f a b c ≡ f a' b' c'
ap₃ f p q r = cc

-- A field below the ones that are there.
join : (k high x low : ℕ) → x ≡ high * 2 ^ k → low < 2 ^ k → bit_or x low ≡ x + low
join k high x low e h = rw e (bit_or-high_low k low high h)

-- Big-endian: the first byte counts most.
pub decode_frame_size-sum :
    (b0 b1 b2 b3 : ℕ)
    → b0 < 256
    → b1 < 256
    → b2 < 256
    → b3 < 256
    → decode_frame_size b0 b1 b2 b3 ≡ b0 * 2 ^ 24 + b1 * 2 ^ 16 + b2 * 2 ^ 8 + b3
unfolding decode_frame_size
decode_frame_size-sum b0 b1 b2 b3 h0 h1 h2 h3 =
    bit_or (bit_or (bit_or (b0 * 2 ^ 24 % 2 ^ 32) (b1 * 2 ^ 16 % 2 ^ 32)) (b2 * 2 ^ 8 % 2 ^ 32)) b3
    ≡⟨ ap₃ (λ x y z. bit_or (bit_or (bit_or x y) z) b3) (omega arith) (omega arith) (omega arith) ⟩
      bit_or (bit_or (bit_or (b0 * 2 ^ 24) (b1 * 2 ^ 16)) (b2 * 2 ^ 8)) b3
    ≡⟨ ap (λ x. bit_or (bit_or x (b2 * 2 ^ 8)) b3)
        (join 24 b0 (b0 * 2 ^ 24) (b1 * 2 ^ 16) refl (omega arith)) ⟩
      bit_or (bit_or (b0 * 2 ^ 24 + b1 * 2 ^ 16) (b2 * 2 ^ 8)) b3
    ≡⟨ ap (λ x. bit_or x b3) (join 16 (b0 * 256 + b1) _ (b2 * 2 ^ 8) (omega arith) (omega arith)) ⟩
      bit_or (b0 * 2 ^ 24 + b1 * 2 ^ 16 + b2 * 2 ^ 8) b3
    ≡⟨ join 8 (b0 * 65536 + b1 * 256 + b2) _ b3 (omega arith) (omega arith) ⟩
      b0 * 2 ^ 24 + b1 * 2 ^ 16 + b2 * 2 ^ 8 + b3 ∎

-- The header of a size is read back as that size.
pub decode-encode_frame_size :
    (size : ℕ) (b0 b1 b2 b3 : ℕ)
    → size < 2 ^ 32
    → encode_frame_size size ≡ b0 ∷ b1 ∷ b2 ∷ b3 ∷ []
    → decode_frame_size b0 b1 b2 b3 ≡ size
decode-encode_frame_size size b0 b1 b2 b3 h e =
    ground (arith, encode_frame_size-digits size h, decode_frame_size-sum b0 b1 b2 b3)

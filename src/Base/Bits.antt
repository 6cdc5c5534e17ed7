-- ===== src/Base/Bits.antt =====
-- `&` with a mask of low bits and `|` of disjoint fields, as arithmetic.
use Prim.Native.Nat.{ℕ, zero, suc, ◌+◌, ◌-◌, ◌*◌, ◌/◌, ◌%◌, ◌^◌, ◌≤◌, ◌<◌, min, max}
use Prim.Native.Nat.{bit_and, bit_or, digits, bit_and-bitwise, bit_or-bitwise}
use mathlib.Core.Path.{◌≡◌, refl, sym, ap, ◌∙◌}
use mathlib.Core.WellFounded
use native.Mathlib.Nat.{pow-suc, one-le-pow}
use native.Mathlib.Decide.{ℕ_discrete}
use native.Mathlib.Omega.{arith}
use mathlib.Core.Bool.{Bool, true, ◌&&◌}
use insist.Base.Tests.{lt_wf, ◌==◌}

-- The digit recursion that the native operations stand for, with any fuel that is enough.
module _ (rest : ℕ → ℕ) (op : ℕ → ℕ → ℕ)
    (rest_step : (b : ℕ) → rest b ≡ rest (b / 2) * 2 + op 0 (b % 2)) where
  same_digits : (b i j x : ℕ) → x ≤ j → x ≤ i → digits rest op i x b ≡ digits rest op j x b
  same_digits b (suc i) (suc j) (suc x) hj hi =
      ap (λ (high : ℕ). high * 2 + op (suc x % 2) (b % 2))
        (same_digits (b / 2) i j (suc x / 2) (omega arith) (omega arith))
  same_digits b (suc i) (suc j) zero hj hi = refl
  same_digits b (suc i) zero (suc x) hj hi = absurd (omega arith)
  same_digits b (suc i) zero zero hj hi = refl
  same_digits b zero (suc j) (suc x) hj hi = absurd (omega arith)
  same_digits b zero (suc j) zero hj hi = refl
  same_digits b zero zero x hj hi = refl

  digits_step :
      (a b : ℕ)
      → digits rest op a a b ≡ digits rest op (a / 2) (a / 2) (b / 2) * 2 + op (a % 2) (b % 2)
  digits_step zero b = rest_step b
  digits_step (suc a) b =
      ap (λ (high : ℕ). high * 2 + op (suc a % 2) (b % 2))
        (same_digits (b / 2) a (suc a / 2) (suc a / 2) (omega arith) (omega arith))

and_step : (a b : ℕ) → bit_and a b ≡ min (a % 2) (b % 2) + 2 * bit_and (a / 2) (b / 2)
and_step a b = omega (
  arith,
  bit_and-bitwise a b,
  bit_and-bitwise (a / 2) (b / 2),
  digits_step (λ b. 0) min (λ b. omega arith) a b,
)

or_step : (a b : ℕ) → bit_or a b ≡ max (a % 2) (b % 2) + 2 * bit_or (a / 2) (b / 2)
or_step a b = omega (
  arith,
  bit_or-bitwise a b,
  bit_or-bitwise (a / 2) (b / 2),
  digits_step (λ b. b) max (λ b. omega arith) a b,
)

zero-bit_or : (b : ℕ) → bit_or 0 b ≡ b
zero-bit_or b = bit_or-bitwise 0 b

bit_or-zero : (a : ℕ) → bit_or a 0 ≡ a
bit_or-zero a =
    WellFounded.induction lt_wf {C = λ n. bit_or n 0 ≡ n} a λ n ih. halve n (λ m h. ih m h)
  where
    halve : (n : ℕ) → ((m : ℕ) → m < n → bit_or m 0 ≡ m) → bit_or n 0 ≡ n
    halve zero ih = refl
    halve (suc n) ih = omega (arith, or_step (suc n) 0, ih (suc n / 2) (omega arith))

bit_and-zero : (a : ℕ) → bit_and a 0 ≡ 0
bit_and-zero a =
    WellFounded.induction lt_wf {C = λ n. bit_and n 0 ≡ 0} a λ n ih. halve n (λ m h. ih m h)
  where
    halve : (n : ℕ) → ((m : ℕ) → m < n → bit_and m 0 ≡ 0) → bit_and n 0 ≡ 0
    halve zero ih = refl
    halve (suc n) ih = omega (arith, and_step (suc n) 0, ih (suc n / 2) (omega arith))

pow_two-suc : (q k : ℕ) → q * 2 ^ suc k ≡ 2 * (q * 2 ^ k)
pow_two-suc q k = omega (arith, ap (λ (t : ℕ). q * t) (pow-suc 2 k))

-- A low field and a field above it: `low | (high << k)`.
pub bit_or-low_high :
    (k low high : ℕ) → low < 2 ^ k → bit_or low (high * 2 ^ k) ≡ low + high * 2 ^ k
bit_or-low_high zero low high h = ground (arith, zero-bit_or high)
bit_or-low_high (suc k) low high h = ground (
  arith,
  or_step low (high * 2 ^ suc k),
  pow_two-suc high k,
  pow-suc 2 k,
  bit_or-low_high k (low / 2) high (omega (arith, pow-suc 2 k)),
)

-- The same with the high field first: `(high << k) | low`.
pub bit_or-high_low :
    (k low high : ℕ) → low < 2 ^ k → bit_or (high * 2 ^ k) low ≡ high * 2 ^ k + low
bit_or-high_low zero low high h = ground (arith, bit_or-zero high)
bit_or-high_low (suc k) low high h = ground (
  arith,
  or_step (high * 2 ^ suc k) low,
  pow_two-suc high k,
  pow-suc 2 k,
  bit_or-high_low k (low / 2) high (omega (arith, pow-suc 2 k)),
)

-- Two values of `k` bits have a union of `k` bits.
pub bit_or-lt : (k a b : ℕ) → a < 2 ^ k → b < 2 ^ k → bit_or a b < 2 ^ k
bit_or-lt zero a b ha hb = omega (arith, bit_or-zero a, ap (bit_or a) (b_zero hb))
  where
    b_zero : b < 1 → b ≡ 0
    b_zero h = omega arith
bit_or-lt (suc k) a b ha hb = omega (
  arith,
  or_step a b,
  pow-suc 2 k,
  bit_or-lt k (a / 2) (b / 2) (omega (arith, pow-suc 2 k)) (omega (arith, pow-suc 2 k)),
)

low_mask-fields : (k low high : ℕ) → low < 2 ^ k → bit_and (low + high * 2 ^ k) (2 ^ k - 1) ≡ low
low_mask-fields zero low high h = omega (arith, bit_and-zero (low + high * 1))
low_mask-fields (suc k) low high h = ground (
  arith,
  and_step (low + high * 2 ^ suc k) (2 ^ suc k - 1),
  pow_two-suc high k,
  pow-suc 2 k,
  low_mask-fields k (low / 2) high (omega (arith, pow-suc 2 k)),
)

-- A mask of `k` ones keeps the remainder by `2 ^ k`.
pub bit_and-low_mask : (k a : ℕ) → bit_and a (2 ^ k - 1) ≡ a % 2 ^ k
bit_and-low_mask k a = ground (arith, one-le-pow k 2, low_mask-fields k (a % 2 ^ k) (a / 2 ^ k))

-- Whether two functions agree below a bound, by evaluation.
module _ (f g : ℕ → ℕ) where
  agree : ℕ → Bool
  agree zero = true
  agree (suc n) = (f n == g n) && agree n

  agree→eq : (n x : ℕ) → agree n ≡ true → x < n → f x ≡ g x
  unfolding agree
  agree→eq zero x e h = absurd (omega arith)
  agree→eq (suc n) x e h = ground (arith, agree→eq n x)

pub bit_and-top_bit : (b : ℕ) → b < 256 → bit_and b 0x80 ≡ b / 128 * 128
unfolding agree
bit_and-top_bit b h = agree→eq (λ x. bit_and x 0x80) (λ x. x / 128 * 128) 256 b refl h

pub bit_and_self : (n : ℕ) → bit_and n n ≡ n
bit_and_self n = WellFounded.induction lt_wf {C = λ m. bit_and m m ≡ m} n λ m ih.
    elim (ℕ_discrete m 0) [
      | yes e ↦ ap (λ (k : ℕ). bit_and k k) e ∙ sym e
      | no h ↦ omega (arith, and_step m m, ih (m / 2) (omega (arith, h)))
    ]

-- `n & (n - 1)` of an odd number and of an even one.
odd_bits : (n : ℕ) → n % 2 ≡ 1 → bit_and n (n - 1) ≡ 2 * (n / 2)
odd_bits n odd =
    omega
      (arith, odd, and_step n (n - 1), ap (λ (k : ℕ). bit_and (n / 2) k) half, bit_and_self (n / 2))
  where
    half : (n - 1) / 2 ≡ n / 2
    half = omega (arith, odd)

even_bits : (n : ℕ) → ¬ (n % 2 ≡ 1) → 0 < n → bit_and n (n - 1) ≡ 2 * bit_and (n / 2) (n / 2 - 1)
even_bits n even positive =
    omega (arith, even, positive, and_step n (n - 1), ap (λ (k : ℕ). bit_and (n / 2) k) half)
  where
    half : (n - 1) / 2 ≡ n / 2 - 1
    half = omega (arith, even, positive)

-- A number without a bit in common with its predecessor is a power of two.
pub power-of_bits : (n : ℕ) → 0 < n → bit_and n (n - 1) ≡ 0 → (e : ℕ) × (n ≡ 2 ^ e)
power-of_bits n =
    WellFounded.induction lt_wf {C = λ m. 0 < m → bit_and m (m - 1) ≡ 0 → (e : ℕ) × (m ≡ 2 ^ e)} n
      λ m ih positive clear. elim (ℕ_discrete (m % 2) 1) [
        | yes odd ↦ (0, one m odd (omega (arith, odd_bits m odd, clear)))
        | no even ↦
            let half =
              ih (m / 2) (omega (arith, positive)) (omega (arith, positive, even))
                (omega (arith, even_bits m even positive, clear)) in
            (suc half.0, omega (arith, half.1, even, pow-suc 2 half.0))
      ]
  where
    one : (m : ℕ) → m % 2 ≡ 1 → m / 2 ≡ 0 → m ≡ 2 ^ 0
    one m odd half = omega arith

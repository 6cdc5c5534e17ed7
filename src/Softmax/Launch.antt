-- ===== src/Softmax/Launch.antt =====
-- What the benchmark launches.
use native.Mathlib.Decide.{ℕ_discrete, dec_lt}
use mathlib.Core.Path.{fun_ext}
use insist.Base.{
  ℕ, ◌+◌, ◌-◌, ◌*◌, ◌%◌, ◌^◌, ◌≤◌, ◌<◌, ◌≡◌, sym, ap, subst, ◌∙◌, arith, true, false, not, Bool,
  if◌then◌else◌, ◌==◌, ◌⊎◌, inl, inr, bit_and, pos, IsI32, to_u32,
}
use insist.Base.Bits.{power-of_bits}
use insist.Base.Loops.{for_below, for_below-reaches}
use insist.Floats.{Floats}
use insist.Floats.Exact.{IsSum}
use insist.Softmax.{softmax_naive_kernel, softmax_block_kernel}
use insist.Softmax.Row.{early, kernel-row}
use insist.Softmax.Naive.{naive-same, softmax_block_kernel-naive}
use insist.Softmax.Bench.{threads_accepted, block_accepted, ints_fit, launch}

threads-power :
    (threads : ℕ)
    → 0 < threads
    → IsI32 (pos threads)
    → threads_accepted (pos threads) ≡ true
    → (e : ℕ) × (threads ≡ 2 ^ e)
unfolding threads_accepted to_u32
threads-power threads positive small accepted = power-of_bits threads positive (
    sym (ap (λ (k : ℕ). bit_and k (threads - 1)) low)
    ∙ sym (ap (λ (k : ℕ). bit_and (threads % 2 ^ 32) k) less)
    ∙ is_zero (bit_and (threads % 2 ^ 32) ((threads % 2 ^ 32 + (2 ^ 32 - 1)) % 2 ^ 32)) accepted)
  where
    low : threads % 2 ^ 32 ≡ threads
    low = omega (arith, small)

    less : (threads % 2 ^ 32 + (2 ^ 32 - 1)) % 2 ^ 32 ≡ threads - 1
    less = omega (arith, small, positive)

    is_zero : (k : ℕ) → (k == 0) ≡ true → k ≡ 0
    is_zero k e = ground arith

module _ (fl : Floats) (x : ℕ → fl.Float) (rows cols : ℕ) where
  open fl use {Float, negative_infinity, zero_float, plus, fmaxf}

  -- The block of another row leaves the cell alone.
  other_row :
      (e i row c : ℕ) (y : ℕ → Float)
      → i < rows
      → ¬ (i ≡ row)
      → c < cols
      → softmax_block_kernel fl x rows cols (2 ^ e) early i y (row * cols + c) ≡ y (row * cols + c)
  other_row e i row c y hi apart hc =
      let (m, s, max_is, sum_is, inside, outside) = kernel-row fl x rows cols e i y hi in
      outside (row * cols + c) (side (dec_lt row i))
    where
      side : Dec (row < i) → (row * cols + c < i * cols) ⊎ (i * cols + cols ≤ row * cols + c)
      side (yes h) = inl (grind arith)
      side (no h) = inr (behind (omega (arith, h, apart)))
        where
          behind : i < row → i * cols + cols ≤ row * cols + c
          behind h = grind arith

  -- For a number of threads that `main` and the device accept, and a matrix whose indices are `int`s,
  -- if no thread reads `smem[0]` behind the write of thread 0, and where `fmaxf` and `+` are exact,
  -- that is associative and commutative with `-inf` and 0 as units: the launch leaves in every cell
  -- of the matrix what the naive kernel leaves there.
  pub launch-naive :
      (undefined : ℕ → Float) (late : ℕ → ℕ → Bool) (threads row c : ℕ) (y : ℕ → Float)
      → IsSum fmaxf negative_infinity
      → IsSum plus zero_float
      → ((i tid : ℕ) → late i tid ≡ false)
      → 0 < threads
      → threads ≤ 1024
      → threads_accepted (pos threads) ≡ true
      → rows * cols ≤ 2 ^ 31
      → cols + 1024 ≤ 2 ^ 31
      → row < rows
      → c < cols
      → launch fl undefined x rows cols threads late y (row * cols + c)
        ≡ softmax_naive_kernel fl x rows cols row 0 y (row * cols + c)
  unfolding launch
  launch-naive undefined late threads row c y exact_max exact_sum none_late positive small accepted
        fits wide hr hc =
      ap (λ l. launch fl undefined x rows cols threads l y (row * cols + c))
        (fun_ext (λ i. fun_ext (none_late i)))
      ∙ ap (λ t. choose t (ints_fit rows cols) (row * cols + c)) block
      ∙ ap (λ t. choose false t (row * cols + c)) in_range
      ∙ launched
    where
      choose : Bool → Bool → ℕ → Float
      choose refused fit =
          if refused
          then y
          else if fit
          then for_below rows (λ i. softmax_block_kernel fl x rows cols threads early i) y
          else undefined

      block : not (block_accepted threads) ≡ false
      block = unfold block_accepted in ground (arith, positive, small)

      in_range : ints_fit rows cols ≡ true
      in_range = unfold ints_fit in ground (arith, fits, wide)

      target : Float
      target = softmax_naive_kernel fl x rows cols row 0 y (row * cols + c)

      own :
          (e : ℕ) (u : ℕ → Float)
          → softmax_block_kernel fl x rows cols (2 ^ e) early row u (row * cols + c) ≡ target
      own e u =
          softmax_block_kernel-naive fl x rows cols row u e exact_max exact_sum hr c hc
          ∙ naive-same fl x rows cols row u y c hr hc

      launched :
          for_below rows
            (λ i. softmax_block_kernel fl x rows cols threads early i)
            y
            (row * cols + c)
          ≡ target
      launched =
          let (e, power) = threads-power threads positive (omega (arith, small)) accepted in
          subst
            (λ (n : ℕ).
              for_below rows (λ i. softmax_block_kernel fl x rows cols n early i) y (row * cols + c)
              ≡ target)
            (sym power)
            (for_below-reaches (λ u. u (row * cols + c) ≡ target) row rows _ y hr
              (λ i u hi same. elim (ℕ_discrete i row) [
                | yes at ↦
                    subst
                      (λ (j : ℕ).
                        softmax_block_kernel fl x rows cols (2 ^ e) early j u (row * cols + c)
                        ≡ target)
                      (sym at) (own e u)
                | no apart ↦ other_row e i row c u hi apart hc ∙ same
              ])
              (own e))

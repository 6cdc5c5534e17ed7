-- ===== src/Softmax/Runs.antt =====
-- The theorems of softmax at a matrix of two rows with six columns.
use insist.Base.{ℕ, ◌+◌, ◌*◌, ◌^◌, ◌≡◌, ◌≤◌, ◌<◌, ◌⊎◌, arith, refl, true, false, pos, to_u32}
use insist.Floats.Collects.{Collects, once_below}
use insist.Floats.Naturals.{naturals, naturals-plus, naturals-fmaxf}
use insist.Softmax.{softmax_naive_kernel, softmax_block_kernel}
use insist.Softmax.Row.{softmax_block_kernel-row}
use insist.Softmax.Bench.{threads_accepted, launch}
use insist.Softmax.Launch.{launch-naive}

-- The second row, by four threads.
softmax_block_kernel-row_example :
    (max_val : ℕ) × (sum_val : ℕ) × Collects naturals.fmaxf 0
      (λ c. (1 * 6 + c) * 3)
      (once_below 6)
      max_val
    × Collects naturals.plus 0
        (λ c. naturals.expf (naturals.minus ((1 * 6 + c) * 3) max_val))
        (once_below 6)
        sum_val
    × ((c : ℕ)
        → c < 6
        → softmax_block_kernel naturals
            (λ i. i * 3)
            2
            6
            (2 ^ 2)
            (λ tid. false)
            1
            (λ i. 0)
            (1 * 6 + c)
          ≡ naturals.over (naturals.expf (naturals.minus ((1 * 6 + c) * 3) max_val)) sum_val)
    × ((i : ℕ)
        → (i < 1 * 6) ⊎ (1 * 6 + 6 ≤ i)
        → softmax_block_kernel naturals (λ i. i * 3) 2 6 (2 ^ 2) (λ tid. false) 1 (λ i. 0) i ≡ 0)
softmax_block_kernel-row_example =
    softmax_block_kernel-row naturals (λ i. i * 3) 2 6 2 1 (λ i. 0) (λ tid. false) (λ tid. refl)
      (omega arith) (omega arith) (omega arith) (omega arith)

four_accepted : threads_accepted (pos 4) ≡ true
unfolding threads_accepted to_u32
four_accepted = refl

launch-naive_example :
    launch naturals (λ i. 7) (λ i. i * 3) 2 6 4 (λ i tid. false) (λ i. 0) (1 * 6 + 5)
    ≡ softmax_naive_kernel naturals (λ i. i * 3) 2 6 1 0 (λ i. 0) (1 * 6 + 5)
launch-naive_example =
    launch-naive naturals (λ i. i * 3) 2 6 (λ i. 7) (λ i tid. false) 4 1 5 (λ i. 0) naturals-fmaxf
      naturals-plus (λ i tid. refl) (omega arith) (omega arith) four_accepted (omega arith)
      (omega arith) (omega arith) (omega arith)

-- ===== src/Reduction/Runs.antt =====
-- The theorem of the reduction at an array of 300 elements, by blocks of 64 threads.
use insist.Base.{ℕ, ◌*◌, ◌^◌, ◌≡◌, ◌<◌, arith}
use insist.Floats.Collects.{Collects, once_below}
use insist.Floats.Trees.{total}
use insist.Floats.Naturals.{naturals}
use insist.Reduction.{grid_size, launch}
use insist.Reduction.Threads.{of_block}
use insist.Reduction.Partial.{launch-Collects}

launch-Collects_example :
    ((block : ℕ)
      → block < grid_size naturals (λ i. i) 300 (2 ^ 0 * 64)
      → Collects naturals.plus 0
          (λ i. i)
          (of_block 300 (2 ^ 0 * 64) block)
          (launch naturals (λ i. i) 300 (2 ^ 0 * 64) (λ i. 0) block))
    × ((j : ℕ)
        → total (grid_size naturals (λ i. i) 300 (2 ^ 0 * 64)) (of_block 300 (2 ^ 0 * 64)) j
          ≡ once_below 300 j)
unfolding grid_size
launch-Collects_example =
    launch-Collects naturals (λ i. i) 300 0 (λ i. 0) (omega arith) (omega arith)

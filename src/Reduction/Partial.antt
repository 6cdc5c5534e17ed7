-- ===== src/Reduction/Partial.antt =====
-- What the partial sums are sums of.
use native.Mathlib.Nat.{pow-suc}
use insist.Base.{
  ℕ, zero, suc, ◌+◌, ◌-◌, ◌*◌, ◌/◌, ◌^◌, ◌≤◌, ◌<◌, ◌≡◌, sym, ap, true, subst, ◌∙◌, arith, ltb, leb,
  ◌&&◌, if◌then◌else◌,
}
use insist.Base.Loops.{for_below}
use insist.Base.Arrays.{write, for_below-write}
use insist.Floats.{Floats}
use insist.Floats.Collects.{Collects, once_below}
use insist.Floats.Trees.{tree_loop, total, Rest, tree_loop-Rest}
use insist.Reduction.{first_sum, reduce_sum_stage1_kernel, grid_size, launch}
use insist.VectorAdd.{launchable}
use insist.VectorAdd.Sum.{blocks-fit}
use insist.Reduction.Threads.{taken, of_block, first_sum-Collects, total-of_block, warp_rounds-Rest}

above : (e : ℕ) → e < 2 ^ e * 64
above zero = omega arith
above (suc e) = omega (arith, above e, pow-suc 2 e)

module _ (fl : Floats) (x : ℕ → fl.Float) where
  open fl use {Float, zero_float, plus}

  -- The loop over strides, for `2 ^ e * 64` threads.
  half_tree-Rest :
      (e : ℕ) (count : ℕ → ℕ) (m : ℕ → Float)
      → Rest plus zero_float x (2 ^ e * 64) count m
      → Rest plus zero_float x 64 count (tree_loop plus (2 ^ e * 64) 32 (2 ^ e * 64 / 2) m)
  unfolding tree_loop
  half_tree-Rest zero count m r = r
  half_tree-Rest (suc e) count m r =
      subst
        (λ (stride : ℕ).
          Rest plus zero_float x 64 count (tree_loop plus (2 ^ suc e * 64) 32 stride m))
        half
        (tree_loop-Rest plus zero_float x e (2 ^ suc e * 64) 64 32 count m
          (omega (arith, above (suc e))) (omega arith) (omega arith)
          (subst (λ (n : ℕ). Rest plus zero_float x n count m) double r))
    where
      double : 2 ^ suc e * 64 ≡ 2 ^ e * 64 + 2 ^ e * 64
      double = omega (arith, pow-suc 2 e)

      half : 2 ^ e * 64 ≡ 2 ^ suc e * 64 / 2
      half = omega (arith, pow-suc 2 e)

-- The elements of the first `m` blocks, for blocks of `w` elements.
total-blocks :
    (n block_size m j : ℕ)
    → total m (of_block n block_size) j ≡ (if ltb j n && ltb j (m * (block_size * 2)) then 1 else 0)
unfolding total
total-blocks n block_size zero j = ground arith
total-blocks n block_size (suc m) j =
    step (m * (block_size * 2)) (suc m * (block_size * 2)) ((m + 1) * (block_size * 2))
      (total m (of_block n block_size) j) (total-blocks n block_size m j) (grind arith)
      (grind arith)
  where
    step :
        (low high high' t : ℕ)
        → t ≡ (if ltb j n && ltb j low then 1 else 0)
        → high ≡ high'
        → low ≤ high
        → t + (if leb low j && ltb j high' && ltb j n then 1 else 0)
          ≡ (if ltb j n && ltb j high then 1 else 0)
    step low high high' t e same le = ground arith

-- Blocks of `2 ^ e * 64` threads.
module _ (fl : Floats) (x : ℕ → fl.Float) (n e : ℕ) where
  open fl use {Float, zero_float, plus}

  abbrev size : ℕ
  size = 2 ^ e * 64

  threads-Rest :
      (block : ℕ)
      → (block + 1) * (size * 2) < 2 ^ 64
      → Rest plus zero_float x size (of_block n size block) (first_sum fl x n size block)
  threads-Rest block fits = (
    taken n size block,
    λ i h. first_sum-Collects fl x n size block i (grind arith),
    total-of_block fl x n size block,
  )

  kernel-Collects :
      (block : ℕ)
      → (block + 1) * (size * 2) < 2 ^ 64
      → Collects plus zero_float x
          (of_block n size block)
          (reduce_sum_stage1_kernel fl x n size block)
  unfolding reduce_sum_stage1_kernel
  kernel-Collects block fits = warp_rounds-Rest fl x n size (of_block n size block) _ (
      half_tree-Rest fl x e (of_block n size block) (first_sum fl x n size block)
        (threads-Rest block fits))

  -- For blocks of `2 ^ e * 64` threads, 1024 at most, and an array of at most 2^31 - 1 blocks: the
  -- cell that a block writes adds elements of the array, in some bracketing, namely those of the
  -- block, each once; and every element belongs to one block of the grid.
  pub launch-Collects :
      (partial : ℕ → Float)
      → 2 ^ e * 64 ≤ 1024
      → n ≤ (2 ^ 31 - 1) * (2 ^ e * 64 * 2)
      → ((block : ℕ)
          → block < grid_size fl x n size
          → Collects plus zero_float x (of_block n size block) (launch fl x n size partial block))
        × ((j : ℕ) → total (grid_size fl x n size) (of_block n size) j ≡ once_below n j)
  unfolding launch
  launch-Collects partial narrow fits = (
    λ block h.
        subst (Collects plus zero_float x (of_block n size block)) (sym (cell block h))
          (kernel-Collects block (inside block (size * 2) h bounds.1 fits (omega (arith, narrow)))),
    λ j.
        total-blocks n size (grid_size fl x n size) j
        ∙ covered j (grid_size fl x n size * (size * 2)) bounds.0,
  )
    where
      grid : ℕ
      grid = grid_size fl x n size

      bounds : (n ≤ grid * (size * 2)) × (grid * (size * 2) < n + size * 2) × (grid < 2 ^ 31)
      bounds =
          unfold grid_size in
          blocks-fit n (size * 2) (omega (arith, above e)) (omega (arith, narrow)) fits

      launched : launchable grid size ≡ true
      launched = unfold launchable in ground (arith, bounds.2, narrow)

      inside :
          (block w : ℕ)
          → block < grid
          → grid * w < n + w
          → n ≤ (2 ^ 31 - 1) * w
          → w ≤ 2048
          → (block + 1) * w < 2 ^ 64
      inside block w h end le small = omega (arith, step, end, le, small)
        where
          step : (block + 1) * w ≤ grid * w
          step = grind arith

      cell :
          (block : ℕ)
          → block < grid
          → (if launchable grid size
                then for_below grid (λ b. write b (reduce_sum_stage1_kernel fl x n size b)) partial
                else partial)
              block
            ≡ reduce_sum_stage1_kernel fl x n size block
      cell block h =
          ap
            (λ t.
              (if t
                  then for_below grid (λ b. write b (reduce_sum_stage1_kernel fl x n size b))
                      partial
                  else partial)
                block)
            launched
          ∙ for_below-write grid block (reduce_sum_stage1_kernel fl x n size) partial h

      covered : (j high : ℕ) → n ≤ high → (if ltb j n && ltb j high then 1 else 0) ≡ once_below n j
      covered j high le = ground arith

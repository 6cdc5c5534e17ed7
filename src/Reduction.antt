-- ===== src/Reduction.antt =====
-- 2026_6_25_topo_slowrank_bandwidth/bandwidth-roofline-mini/src/reduction.cu: the sum of an array, one
-- partial sum for each block. The directory 2026.6.27 demo项目 打卡 holds a copy of this file.
-- The lanes of a warp run in step, as the last rounds of the kernel rely on; between two barriers the
-- threads of a block write different cells.
pub mod Threads
pub mod Partial
mod Runs
use insist.Base.{ℕ, ◌+◌, ◌-◌, ◌*◌, ◌/◌, ◌%◌, ◌^◌, ltb, leb, ◌==◌, Bool, true, false, if◌then◌else◌}
use insist.Base.Loops.{for_below}
use insist.Base.Arrays.{write}
use insist.Floats.{Floats}
use insist.VectorAdd.{launchable}
use insist.Floats.Trees.{tree_step, tree_loop}

module _ (fl : Floats) (x : ℕ → fl.Float) (n block_size : ℕ) where
  open fl use {Float, zero_float, plus}

  -- What a thread adds up: two elements, a block apart, as far as they are there.
  unfoldable pub first_sum : (block tid : ℕ) → Float
  first_sum block tid =
      let global = (block * block_size * 2 + tid) % 2 ^ 64 in
      let sum = if ltb global n then plus zero_float (x global) else zero_float in
      if ltb ((global + block_size) % 2 ^ 64) n
      then plus sum (x ((global + block_size) % 2 ^ 64))
      else sum

  -- `vsmem[tid] += vsmem[tid + stride]` for the 32 lanes of the first warp.
  unfoldable pub warp_step : (stride : ℕ) → (ℕ → Float) → ℕ → Float
  warp_step = tree_step plus 32

  unfoldable pub warp_rounds : (ℕ → Float) → ℕ → Float
  warp_rounds smem =
      warp_step 1 (warp_step 2 (warp_step 4 (warp_step 8 (warp_step 16 (warp_step 32 smem)))))

  -- `smem[0]` at the end of the kernel; the stride is fuel enough.
  unfoldable pub reduce_sum_stage1_kernel : (block : ℕ) → Float
  reduce_sum_stage1_kernel block =
      warp_rounds (tree_loop plus block_size 32 (block_size / 2) (first_sum block)) 0

  -- `grid_size` of `main`: the sums are those of `unsigned long long`, and of the `int` these are the
  -- 32 bits.
  unfoldable pub grid_size : ℕ
  grid_size = (n + block_size * 2 - 1) % 2 ^ 64 / (block_size * 2) % 2 ^ 32

  -- The launch, where the device accepts it: every block writes its cell of `partial`.
  unfoldable pub launch : (ℕ → Float) → ℕ → Float
  launch partial =
      if launchable grid_size block_size
      then for_below grid_size (λ block. write block (reduce_sum_stage1_kernel block)) partial
      else partial

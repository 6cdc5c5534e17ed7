-- ===== src/Softmax.antt =====
-- 2026.6.27 demo项目 打卡/softmax-profile-card: kernels/softmax_naive.cu, kernels/softmax_block.cu and
-- src/softmax_bench.cu, which repeats the second kernel.
-- Between two barriers the threads of a block write different cells, so that they can be taken one after
-- the other, but for one race: the code has no barrier between the read of `max_val` from `smem[0]`
-- and the write of `local_sum` to it by thread 0. Which threads read behind this write is an argument.
pub mod Block
pub mod Row
pub mod Naive
pub mod Bench
pub mod Launch
mod Runs
use insist.Base.{ℕ, ◌+◌, ◌-◌, ◌*◌, ◌/◌, ltb, leb, ◌==◌, ◌&&◌, not, Bool, true, false, if◌then◌else◌}
use insist.Base.Loops.{for_below, for_strided}
use insist.Base.Arrays.{write}
use insist.Floats.{Floats}
use insist.Floats.Trees.{tree_loop}

module _ (fl : Floats) (x : ℕ → fl.Float) where
  open fl use {Float, zero_float, negative_infinity, plus, minus, over, fmaxf, expf}

  -- `softmax_naive_kernel`, thread 0; `base` is `row * cols`.
  unfoldable pub naive_max : (base cols : ℕ) → Float
  naive_max base cols = for_below cols (λ c max_val. fmaxf max_val (x (base + c))) negative_infinity

  -- The loop that writes the exponentials and adds them up.
  unfoldable pub naive_exps : (base cols : ℕ) → Float → (ℕ → Float) → (ℕ → Float) × Float
  naive_exps base cols max_val y =
      for_below cols
        (λ c p. let e = expf (minus (x (base + c)) max_val) in (write (base + c) e p.0, plus p.1 e))
        (y, zero_float)

  unfoldable pub softmax_naive_kernel : (rows cols row tid : ℕ) → (ℕ → Float) → ℕ → Float
  softmax_naive_kernel rows cols row tid y =
      let base = row * cols in
      let max_val = naive_max base cols in
      let (exps, sum_val) = naive_exps base cols max_val y in
      let scaled =
        for_below cols (λ c out. write (base + c) (over (out (base + c)) sum_val) out) exps in
      if leb rows row then y else if tid == 0 then scaled else y

  -- What a thread of `softmax_block_kernel` brings into shared memory; `cols` rounds are enough.
  unfoldable pub local_max : (base cols block_size tid : ℕ) → Float
  local_max base cols block_size tid =
      for_strided cols tid cols block_size (λ c m. fmaxf m (x (base + c))) negative_infinity

  -- A thread's loop that writes exponentials and adds them up.
  unfoldable pub local_exps :
      (base cols block_size : ℕ) → Float → (tid : ℕ) → (ℕ → Float) → (ℕ → Float) × Float
  local_exps base cols block_size max_val tid out =
      for_strided cols tid cols block_size
        (λ c p. let e = expf (minus (x (base + c)) max_val) in (write (base + c) e p.0, plus p.1 e))
        (out, zero_float)

  -- Shared memory after the first loop over strides; the stride itself is fuel enough.
  unfoldable pub block_max : (base cols block_size : ℕ) → ℕ → Float
  block_max base cols block_size =
      tree_loop fmaxf block_size 0 (block_size / 2) (local_max base cols block_size)

  -- The output and the shared memory when all threads have done their loop of exponentials; `max_val`
  -- is what each thread has read.
  unfoldable pub block_exps :
      (base cols block_size : ℕ)
      → (ℕ → Float)
      → (ℕ → Float) × (ℕ → Float)
      → (ℕ → Float) × (ℕ → Float)
  block_exps base cols block_size max_val = for_below block_size λ tid p.
      let (out, sum) = local_exps base cols block_size (max_val tid) tid p.0 in
      (out, write tid sum p.1)

  -- What a thread reads as `max_val`: a thread that is late finds the sum of thread 0.
  unfoldable pub max_read :
      (base cols block_size : ℕ) (late : ℕ → Bool) (smem y : ℕ → Float) (tid : ℕ) → Float
  max_read base cols block_size late smem y tid =
      if late tid && not (tid == 0)
      then (local_exps base cols block_size (smem 0) 0 y).1
      else smem 0

  -- The output after the last loop of all threads.
  unfoldable pub block_scaled : (base cols block_size : ℕ) → Float → (ℕ → Float) → ℕ → Float
  block_scaled base cols block_size sum_val = for_below block_size λ tid.
      for_strided cols tid cols block_size
        λ c out. write (base + c) (over (out (base + c)) sum_val) out

  -- The block of one row; `late` are the threads that read `smem[0]` behind the write of thread 0.
  -- The `int` `row * cols` does not overflow where `launch` of src/softmax_bench.cu lets it in.
  unfoldable pub softmax_block_kernel :
      (rows cols block_size : ℕ) (late : ℕ → Bool) (row : ℕ) → (ℕ → Float) → ℕ → Float
  softmax_block_kernel rows cols block_size late row y =
      let base = row * cols in
      let maxima = block_max base cols block_size in
      let max_val = max_read base cols block_size late maxima y in
      let (exps, smem) = block_exps base cols block_size max_val (y, maxima) in
      let sum_val = tree_loop plus block_size 0 (block_size / 2) smem 0 in
      if leb rows row then y else block_scaled base cols block_size sum_val exps

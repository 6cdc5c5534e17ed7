-- ===== src/Attention.antt =====
-- 2026-06-25_cpu_only_inference_and_practical_kernel/practical_kernel: forward attention on the device,
-- O = softmax(Q K^T / sqrt(D)) V, with a running softmax. What both kernels share stands here: the
-- warp, the state of a lane, the update by a key and the result.
-- An array is a function from its index. The lanes of a warp run in step, and each holds the same
-- `m` and `l`, which are computed from the sum that the warp broadcasts.
pub mod Simple
pub mod Tiled
pub mod Tiles
pub mod Equivalence
pub mod Online
pub mod Dot
pub mod Formula
pub mod Places
pub mod Exact
pub mod Bounds
mod Runs
use insist.Base.{
  ℕ, zero, suc, ◌+◌, ◌-◌, ◌*◌, ◌/◌, ltb, leb, ◌&&◌, Bool, if◌then◌else◌, ℤ, pos, negsuc,
}
use insist.Base.Loops.{for_below}
use insist.Base.Arrays.{write}
use insist.Floats.{Floats}

abbrev pub warp_size : ℕ
warp_size = 32

abbrev pub max_d : ℕ
max_d = 128

abbrev pub max_d_per_lane : ℕ
max_d_per_lane = (max_d + warp_size - 1) / warp_size

-- The sizes `H`, `S` and `D`, and `causal != 0`.
pub record Shape : Type 0 where
  pub heads : ℕ
  pub rows : ℕ
  pub dim : ℕ
  pub causal : Bool

-- A size that is not positive is no size.
abbrev pub size : ℤ → ℕ
size (pos n) = n
size (negsuc n) = 0

-- What a lane keeps: `m`, `l` and `acc`.
pub record Lane (A : Type 0) : Type 0 where
  pub m : A
  pub l : A
  pub acc : ℕ → A

-- In `int`s, which `solve` below only lets in where none of them overflows.
unfoldable pub bh_base : Shape → (b h : ℕ) → ℕ
bh_base sh b h = ((b * sh.heads + h) * sh.rows) * sh.dim

-- The device takes grids of at most 65535 blocks in their second and third dimension.
unfoldable pub grid_accepted : (batches : ℕ) → Shape → Bool
grid_accepted batches sh = leb sh.heads 65535 && leb batches 65535

module _ (fl : Floats) where
  open fl use {Float, zero_float, lowest_float, plus, minus, times, over, fmaxf, fast_expf}

  -- `__shfl_down_sync`: a lane whose source lies outside the warp keeps its own value.
  unfoldable pub shfl_down : ℕ → (ℕ → Float) → ℕ → Float
  shfl_down offset x lane = if ltb (lane + offset) warp_size then x (lane + offset) else x lane

  -- The loop of `warp_reduce_sum`, in all lanes at once; the fuel bounds its rounds.
  unfoldable pub shuffle_rounds : (fuel offset : ℕ) → (ℕ → Float) → ℕ → Float
  unfolding shfl_down
  shuffle_rounds zero offset x = x
  shuffle_rounds (suc fuel) offset x =
      let rest =
        shuffle_rounds fuel (offset / 2) (λ lane. plus (x lane) (shfl_down offset x lane)) in
      if ltb 0 offset then rest else x

  -- Every lane gets the sum of lane 0.
  unfoldable pub warp_reduce_sum : (ℕ → Float) → Float
  unfolding shuffle_rounds
  warp_reduce_sum x = shuffle_rounds warp_size (warp_size / 2) x 0

  unfoldable pub start : Lane Float
  start = record { m = lowest_float; l = zero_float; acc = λ t. zero_float }

  -- A lane takes a key with this score and these values into its running softmax.
  unfoldable pub absorb : Shape → (lane : ℕ) → Float → (ℕ → Float) → Lane Float → Lane Float
  absorb sh lane score value s =
      let m_new = fmaxf s.m score in
      let old_scale = fast_expf (minus s.m m_new) in
      let p = fast_expf (minus score m_new) in
      record {
        m = m_new;
        l = plus (times s.l old_scale) p;
        acc =
            for_below max_d_per_lane
              (λ t acc.
                let d = lane + t * warp_size in
                if ltb d sh.dim
                then write t (plus (times (acc t) old_scale) (times p (value d))) acc
                else acc)
              s.acc;
      }

  -- What a lane writes of its row of `O`, which begins at `offset`.
  unfoldable pub write_back : Shape → (lane offset : ℕ) → Lane Float → (ℕ → Float) → ℕ → Float
  write_back sh lane offset s o =
      for_below max_d_per_lane
        (λ t out.
          let d = lane + t * warp_size in
          if ltb d sh.dim then write (offset + d) (over (s.acc t) s.l) out else out)
        o

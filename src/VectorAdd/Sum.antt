-- ===== src/VectorAdd/Sum.antt =====
-- What the launch of `vector_add_kernel` leaves.
use native.Mathlib.Nat.{mod-eq_of_lt, div-mul-le_self, lt-div-mul-add}
use insist.Base.{
  ℕ, ◌+◌, ◌-◌, ◌*◌, ◌/◌, ◌%◌, ◌^◌, ◌≤◌, ◌<◌, ◌≡◌, ap, ◌∙◌, arith, true, ltb, ◌&&◌, if◌then◌else◌,
}
use insist.Base.Loops.{for_below, for_below-eq, for_below-mul}
use insist.Base.Arrays.{write, for_below-cell}
use insist.Floats.{Floats}
use insist.VectorAdd.{vector_add_kernel, grid_size, launchable, launch}

-- The blocks of `w` elements for `n` of them, where there are less than 2^31 of these.
pub blocks-fit :
    (n w : ℕ)
    → 0 < w
    → w ≤ 2048
    → n ≤ (2 ^ 31 - 1) * w
    → let grid = (n + w - 1) % 2 ^ 64 / w % 2 ^ 32 in
      (n ≤ grid * w) × (grid * w < n + w) × (grid < 2 ^ 31)
blocks-fit n w pos narrow fits =
    rw
      (
        mod-eq_of_lt {n = n + w - 1} {m = 2 ^ 64} (omega (arith, pos, narrow, fits)),
        mod-eq_of_lt {n = (n + w - 1) / w} {m = 2 ^ 32} (omega (arith, small)),
      )
      (
        omega (arith, pos, lt-div-mul-add {a = n + w - 1} {b = w} pos),
        omega (arith, pos, below),
        small,
      )
  where
    below : (n + w - 1) / w * w ≤ n + w - 1
    below = div-mul-le_self (n + w - 1) w

    small : (n + w - 1) / w < 2 ^ 31
    small = lower ((n + w - 1) / w) (total (2 ^ 31 - 1) fits)
      where
        total : (k : ℕ) → n ≤ k * w → (n + w - 1) / w * w < (k + 1) * w
        total k h = grind arith

        lower : (q : ℕ) → q * w < 2 ^ 31 * w → q < 2 ^ 31
        lower q h = grind arith

module _ (fl : Floats) (a b : ℕ → fl.Float) (n block_size : ℕ) where
  open fl use {Float, plus}

  -- A thread without the wrap-around of its index.
  add_at : ℕ → (ℕ → Float) → ℕ → Float
  add_at j c = if ltb j n then write j (plus (a j) (b j)) c else c

  kernel-add_at :
      (block tid : ℕ) (c : ℕ → Float)
      → block * block_size + tid < 2 ^ 64
      → vector_add_kernel fl a b n block_size block tid c ≡ add_at (block * block_size + tid) c
  unfolding vector_add_kernel add_at
  kernel-add_at block tid c below = ap (λ (j : ℕ). add_at j c) (mod-eq_of_lt below)

  -- For blocks of 1 to 1024 threads, and an array of at most 2^31 - 1 blocks: the launch leaves the
  -- sums in the first `n` cells of `c` and everything behind them as it was.
  pub launch-sums :
      (c : ℕ → Float) (i : ℕ)
      → 0 < block_size
      → block_size ≤ 1024
      → n ≤ (2 ^ 31 - 1) * block_size
      → launch fl a b n block_size c i ≡ (if ltb i n then plus (a i) (b i) else c i)
  unfolding launch add_at
  launch-sums c i pos narrow fits =
      ap (λ out. out i)
        (ap
            (λ t.
              if t
              then for_below grid
                  (λ block.
                    for_below block_size (λ tid. vector_add_kernel fl a b n block_size block tid))
                  c
              else c)
            launched
          ∙ for_below-eq grid _ _ c (λ block t hb.
            for_below-eq block_size _ _ t
              (λ tid u ht. kernel-add_at block tid u (in_range block tid hb ht)))
          ∙ for_below-mul grid block_size add_at c)
      ∙ for_below-cell (λ j. j) (grid * block_size) (λ j. ltb j n) (λ j _. plus (a j) (b j)) c i
          (λ j k e. e)
      ∙ covered (grid * block_size) (bounds).0
    where
      grid : ℕ
      grid = grid_size n block_size

      bounds : (n ≤ grid * block_size) × (grid * block_size < n + block_size) × (grid < 2 ^ 31)
      bounds = unfold grid_size in blocks-fit n block_size pos (omega (arith, narrow)) fits

      launched : launchable grid block_size ≡ true
      launched = unfold launchable in ground (arith, bounds.2, narrow)

      in_range :
          (block tid : ℕ) → block < grid → tid < block_size → block * block_size + tid < 2 ^ 64
      in_range block tid hb ht = inside (bounds).1
        where
          inside : grid * block_size < n + block_size → block * block_size + tid < 2 ^ 64
          inside h = below_end (grind arith)
            where
              below_end :
                  block * block_size + tid < grid * block_size → block * block_size + tid < 2 ^ 64
              below_end l = omega (arith, l, h, narrow, fits)

      covered :
          (m : ℕ)
          → n ≤ m
          → (if ltb i m && ltb i n then plus (a i) (b i) else c i)
            ≡ (if ltb i n then plus (a i) (b i) else c i)
      covered m h = ground arith

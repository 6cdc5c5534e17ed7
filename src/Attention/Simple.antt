-- ===== src/Attention/Simple.antt =====
-- flash_attention_simple_stand.cu: a warp for each query row, the keys one after the other.
use insist.Base.{ℕ, ◌+◌, ◌*◌, ◌^◌, ltb, leb, not, ◌==◌, ◌||◌, Bool, if◌then◌else◌, ℤ}
use insist.Base.Loops.{for_below}
use insist.Floats.{Floats}
use insist.Attention.{
  warp_size, max_d, max_d_per_lane, Shape, size, Lane, bh_base, grid_accepted, warp_reduce_sum,
  start, absorb, write_back,
}

-- `kv_end`: a causal query sees the keys up to its own row.
unfoldable pub kv_end : Shape → ℕ → ℕ
kv_end sh q_row = if sh.causal then q_row + 1 else sh.rows

module _ (fl : Floats) (sh : Shape) (q k v : ℕ → fl.Float) where
  open fl use {Float, zero_float, plus, times, rsqrt_of}

  -- The lane's part of the dot product of a query and a key.
  unfoldable pub dot_part : (base q_row k_row lane : ℕ) → Float
  dot_part base q_row k_row lane =
      for_below max_d_per_lane
        (λ t part.
          let d = lane + t * warp_size in
          if ltb d sh.dim
          then plus part (times (q (base + q_row * sh.dim + d)) (k (base + k_row * sh.dim + d)))
          else part)
        zero_float

  unfoldable pub score : (base q_row k_row : ℕ) → Float
  score base q_row k_row = times (warp_reduce_sum fl (dot_part base q_row k_row)) (rsqrt_of sh.dim)

  -- One round of the loop over the keys.
  unfoldable pub key_step : (base q_row lane k_row : ℕ) → Lane Float → Lane Float
  key_step base q_row lane k_row =
      absorb fl sh lane (score base q_row k_row) (λ d. v (base + k_row * sh.dim + d))

  unfoldable pub keys : (base q_row lane : ℕ) → Lane Float
  keys base q_row lane = for_below (kv_end sh q_row) (key_step base q_row lane) (start fl)

  -- One lane of the kernel.
  unfoldable pub flash_attention_simple_kernel : (b h q_row lane : ℕ) → (ℕ → Float) → ℕ → Float
  flash_attention_simple_kernel b h q_row lane =
      let base = bh_base sh b h in
      write_back fl sh lane (base + q_row * sh.dim) (keys base q_row lane)

  -- The blocks of the grid `(S, H, B)`, each a warp.
  unfoldable pub launch : (batches : ℕ) → (ℕ → Float) → ℕ → Float
  launch batches = for_below batches λ b. for_below sh.heads λ h.
      for_below sh.rows
        λ q_row. for_below warp_size λ lane. flash_attention_simple_kernel b h q_row lane

-- No index overflows an `int`.
unfoldable pub ints_fit : (batches : ℕ) → Shape → Bool
ints_fit batches sh = leb (batches * sh.heads * sh.rows * sh.dim) (2 ^ 31)

-- `solve`: `o` is what `O` holds before and the result what it holds afterwards. A grid that the
-- device refuses leaves it as it was. Where an `int` may overflow, the code is undefined, and the
-- argument `undefined` says what it leaves.
unfoldable pub solve :
    (fl : Floats) (undefined q k v o : ℕ → fl.Float) (b h s d : ℤ) (causal : Bool) (i : ℕ)
    → fl.Float
solve fl undefined q k v o b h s d causal =
    let sh : Shape = record { heads = size h; rows = size s; dim = size d; causal = causal } in
    if size b == 0 || size h == 0 || size s == 0 || size d == 0 || ltb max_d (size d)
    then o
    else if not (grid_accepted (size b) sh)
    then o
    else if ints_fit (size b) sh
    then launch fl sh q k v (size b) o
    else undefined

-- ===== src/Attention/Tiled.antt =====
-- tiled_flash_attention_stand_hpc.cu: a block for eight query rows, a warp for each, and tiles of
-- queries, keys and values in shared memory, which the threads of a block load together.
-- Between two barriers the threads of a block write different cells or read only, so that they can be
-- taken one after the other; what shared memory holds at first is an argument.
use insist.Base.{
  ℕ, ◌+◌, ◌-◌, ◌*◌, ◌/◌, ◌%◌, ◌^◌, ltb, leb, ◌==◌, ◌||◌, ◌&&◌, not, Bool, if◌then◌else◌, ℤ,
}
use insist.Base.Loops.{for_below, for_strided}
use insist.Base.Arrays.{write_at}
use insist.Floats.{Floats}
use insist.Attention.{
  warp_size, max_d, max_d_per_lane, Shape, size, Lane, bh_base, grid_accepted, warp_reduce_sum,
  start, absorb, write_back,
}

abbrev pub block_m : ℕ
block_m = 8

abbrev pub block_n : ℕ
block_n = 32

-- `blockDim.x`
abbrev pub threads : ℕ
threads = block_m * warp_size

-- `sK` and `sV`
pub record Tiles (A : Type 0) : Type 0 where
  pub keys : ℕ → ℕ → A
  pub values : ℕ → ℕ → A

-- `kv_end` of a block: no row of the block sees a key behind the block's own rows.
unfoldable pub kv_end : Shape → (q_block : ℕ) → ℕ
kv_end sh q_block =
    let causal_end = q_block + block_m in
    if sh.causal then if ltb sh.rows causal_end then sh.rows else causal_end else sh.rows

module _ (fl : Floats) (sh : Shape) (q k v : ℕ → fl.Float) where
  open fl use {Float, zero_float, plus, times, rsqrt_of}

  -- Step 1, one cell.
  unfoldable pub load_query : (base q_block idx : ℕ) → (ℕ → ℕ → Float) → ℕ → ℕ → Float
  load_query base q_block idx sq =
      let r = idx / sh.dim in
      let d = idx - r * sh.dim in
      let global_q = q_block + r in
      write_at r d (if ltb global_q sh.rows then q (base + global_q * sh.dim + d) else zero_float)
        sq

  -- Step 1: every thread copies with the stride of the block.
  unfoldable pub load_queries : (base q_block : ℕ) → (ℕ → ℕ → Float) → ℕ → ℕ → Float
  load_queries base q_block =
      for_below threads λ tid.
        for_strided (block_m * sh.dim) tid (block_m * sh.dim) threads (load_query base q_block)

  -- Step 5.1, one cell of both tiles.
  unfoldable pub load_key : (base kv_block idx : ℕ) → Tiles Float → Tiles Float
  load_key base kv_block idx tiles =
      let r = idx / sh.dim in
      let d = idx - r * sh.dim in
      let k_row = kv_block + r in
      let g = base + k_row * sh.dim + d in
      if ltb k_row sh.rows
      then record { keys = write_at r d (k g) tiles.keys; values = write_at r d (v g) tiles.values }
      else record {
        keys = write_at r d zero_float tiles.keys;
        values = write_at r d zero_float tiles.values;
      }

  unfoldable pub load_keys : (base kv_block : ℕ) → Tiles Float → Tiles Float
  load_keys base kv_block =
      for_below threads λ tid.
        for_strided (block_n * sh.dim) tid (block_n * sh.dim) threads (load_key base kv_block)

  module _ (sq : ℕ → ℕ → Float) (tiles : Tiles Float) (warp j : ℕ) where
    -- Step 5.2.1
    unfoldable pub dot_part : (lane : ℕ) → Float
    dot_part lane =
        for_below max_d_per_lane
          (λ t part.
            let d = lane + t * warp_size in
            if ltb d sh.dim then plus part (times (sq warp d) (tiles.keys j d)) else part)
          zero_float

    unfoldable pub score : Float
    score = times (warp_reduce_sum fl dot_part) (rsqrt_of sh.dim)

  -- Step 5.2, one key of the tile, for a lane of the warp of `q_row`.
  unfoldable pub key_step :
      (sq : ℕ → ℕ → Float) (tiles : Tiles Float) (q_row warp lane kv_block j : ℕ)
      → Lane Float
      → Lane Float
  key_step sq tiles q_row warp lane kv_block j s =
      let k_row = kv_block + j in
      let valid_q = ltb warp block_m && ltb q_row sh.rows in
      if not valid_q || leb sh.rows k_row || sh.causal && ltb q_row k_row
      then s
      else absorb fl sh lane (score sq tiles warp j) (tiles.values j) s

  -- Step 5, one round: the tiles are loaded, then every warp scans them.
  unfoldable pub tile_step :
      (sq : ℕ → ℕ → Float) (base q_row warp lane kv_block : ℕ)
      → Tiles Float × Lane Float
      → Tiles Float × Lane Float
  tile_step sq base q_row warp lane kv_block (tiles, s) =
      let loaded = load_keys base kv_block tiles in
      (loaded, for_below block_n (key_step sq loaded q_row warp lane kv_block) s)

  -- One lane of the kernel; a round takes `block_n` keys, so `kv_end` is fuel enough.
  unfoldable pub flash_attention_tiled_kernel :
      (shared : (ℕ → ℕ → Float) × Tiles Float) (b h block warp lane : ℕ) → (ℕ → Float) → ℕ → Float
  flash_attention_tiled_kernel (sq, tiles) b h block warp lane o =
      let q_block = block * block_m in
      let q_row = q_block + warp in
      let base = bh_base sh b h in
      let end = kv_end sh q_block in
      let loaded = load_queries base q_block sq in
      let (_, s) =
        for_strided end 0 end block_n (tile_step loaded base q_row warp lane) (tiles, start fl) in
      if ltb warp block_m && ltb q_row sh.rows
      then write_back fl sh lane (base + q_row * sh.dim) s o
      else o

  -- The blocks of the grid `((S + BLOCK_M - 1) / BLOCK_M, H, B)` and their threads.
  unfoldable pub launch :
      ((b h block : ℕ) → (ℕ → ℕ → Float) × Tiles Float) → (batches : ℕ) → (ℕ → Float) → ℕ → Float
  launch shared batches = for_below batches λ b. for_below sh.heads λ h.
      for_below ((sh.rows + block_m - 1) / block_m) λ block. for_below threads λ tid.
        flash_attention_tiled_kernel (shared b h block) b h block (tid / warp_size)
          (tid % warp_size)

-- No index overflows an `int`, even of a row behind the last one in a tile.
unfoldable pub ints_fit : (batches : ℕ) → Shape → Bool
ints_fit batches sh = leb (batches * sh.heads * sh.rows * sh.dim + block_n * max_d) (2 ^ 31)

-- `solve`; `shared` is what the shared memory of each block holds at first. As in the simple kernel, a
-- grid that the device refuses leaves `O` as it was, and `undefined` stands for what the code leaves
-- where an `int` may overflow.
unfoldable pub solve :
    (fl : Floats) (shared : (b h block : ℕ) → (ℕ → ℕ → fl.Float) × Tiles fl.Float)
    (undefined q k v o : ℕ → fl.Float) (b h s d : ℤ) (causal : Bool) (i : ℕ)
    → fl.Float
solve fl shared undefined q k v o b h s d causal =
    let sh : Shape = record { heads = size h; rows = size s; dim = size d; causal = causal } in
    if size b == 0 || size h == 0 || size s == 0 || size d == 0 || ltb max_d (size d)
    then o
    else if not (grid_accepted (size b) sh)
    then o
    else if ints_fit (size b) sh
    then launch fl sh q k v shared (size b) o
    else undefined

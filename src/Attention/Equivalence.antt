-- ===== src/Attention/Equivalence.antt =====
-- The tiled kernel against the simple one.
use insist.Base.{
  ℕ, ◌+◌, ◌-◌, ◌*◌, ◌/◌, ◌%◌, ◌^◌, not, ◌≤◌, ◌<◌, ◌≡◌, refl, sym, ap, ◌∙◌, arith, ltb, ◌==◌, ◌||◌,
  ◌&&◌, Bool, true, if◌then◌else◌, if-eq, if-else-eq, ℤ, ltb→lt,
}
use insist.Base.Loops.{
  for_below, for_strided, for_below-eq, for_below-add, for_below_idle, for_below-idle,
  for_below-mul, for_strided-inv,
}
use insist.Floats.{Floats}
use insist.Attention.{
  grid_accepted, warp_size, max_d, Shape, size, Lane, bh_base, start, write_back,
}
use insist.Attention.Simple
use insist.Attention.Tiled
use insist.Attention.Tiled.{block_m, block_n, threads, Tiles}
use insist.Attention.Tiles.{query_cell, load_queries-cell, load_keys-Loaded, guarded, key_step-eq}

warp_of : (warp lane : ℕ) → lane < warp_size → (warp * warp_size + lane) / warp_size ≡ warp
warp_of warp lane h = omega arith

lane_of : (warp lane : ℕ) → lane < warp_size → (warp * warp_size + lane) % warp_size ≡ lane
lane_of warp lane h = omega arith

module _ (fl : Floats) (sh : Shape) (q k v : ℕ → fl.Float) where
  open fl use {Float}

  -- A key behind the last one that the row sees changes nothing.
  guarded_idle :
      (base q_row lane i : ℕ) (s : Lane Float)
      → Simple.kv_end sh q_row ≤ i
      → guarded fl sh q k v base q_row lane i s ≡ s
  unfolding guarded Simple.kv_end
  guarded_idle base q_row lane i s h = ground arith

  guarded-key_step :
      (base q_row lane i : ℕ) (s : Lane Float)
      → q_row < sh.rows
      → i < Simple.kv_end sh q_row
      → guarded fl sh q k v base q_row lane i s ≡ Simple.key_step fl sh q k v base q_row lane i s
  unfolding guarded Simple.kv_end
  guarded-key_step base q_row lane i s row h = ground arith

  -- The keys of a row, by a loop that may go further than the row sees.
  guarded-keys :
      (base q_row lane n : ℕ)
      → q_row < sh.rows
      → Simple.kv_end sh q_row ≤ n
      → for_below n (guarded fl sh q k v base q_row lane) (start fl)
        ≡ Simple.keys fl sh q k v base q_row lane
  unfolding Simple.keys
  guarded-keys base q_row lane n row h =
      for_below-idle (Simple.kv_end sh q_row) n (guarded fl sh q k v base q_row lane) (start fl) h
        (λ i s. guarded_idle base q_row lane i s)
      ∙ for_below-eq (Simple.kv_end sh q_row) _ _ (start fl)
          (λ i s. guarded-key_step base q_row lane i s row)

  -- The rows of a block end before the keys that the block scans.
  kv_end-le :
      (block warp : ℕ)
      → warp < block_m
      → block * block_m + warp < sh.rows
      → Simple.kv_end sh (block * block_m + warp) ≤ Tiled.kv_end sh (block * block_m)
  unfolding Simple.kv_end Tiled.kv_end
  kv_end-le block warp hw row = ground arith

  module _ (base block warp lane : ℕ) (sq : ℕ → ℕ → Float) (hw : warp < block_m)
      (row : block * block_m + warp < sh.rows) where
    queries :
        (d : ℕ)
        → d < sh.dim
        → Tiled.load_queries fl sh q k v base (block * block_m) sq warp d
          ≡ q (base + (block * block_m + warp) * sh.dim + d)
    queries d h =
        load_queries-cell fl sh q k v base (block * block_m) warp d sq hw h
        ∙ unfold query_cell in ground arith

    tile_step-keys :
        (kv_block : ℕ) (tiles : Tiles Float)
        → (Tiled.tile_step fl sh q k v
            (Tiled.load_queries fl sh q k v base (block * block_m) sq)
            base
            (block * block_m + warp)
            warp
            lane
            kv_block
            (
              tiles,
              for_below kv_block
                  (guarded fl sh q k v base (block * block_m + warp) lane)
                  (start fl),
            )).1
          ≡ for_below
              (kv_block + block_n)
              (guarded fl sh q k v base (block * block_m + warp) lane)
              (start fl)
    unfolding Tiled.tile_step
    tile_step-keys kv_block tiles =
        for_below-eq block_n _ _ _ (λ j s h.
          key_step-eq fl sh q k v base kv_block (block * block_m + warp) warp j _ _ queries
            (λ d hd. load_keys-Loaded fl sh q k v base kv_block j d tiles h hd) lane s hw row)
        ∙ sym (
            for_below-add kv_block block_n (guarded fl sh q k v base (block * block_m + warp) lane)
              (start fl))

    -- The state with which the loop over the tiles ends.
    tiles-keys :
        (tiles : Tiles Float)
        → let end = Tiled.kv_end sh (block * block_m) in
          (for_strided end 0 end block_n
            (Tiled.tile_step fl sh q k v
              (Tiled.load_queries fl sh q k v base (block * block_m) sq)
              base
              (block * block_m + warp)
              warp
              lane)
            (tiles, start fl)).1
          ≡ Simple.keys fl sh q k v base (block * block_m + warp) lane
    unfolding for_below
    tiles-keys tiles =
        let end = Tiled.kv_end sh (block * block_m) in
        let step =
          Tiled.tile_step fl sh q k v (Tiled.load_queries fl sh q k v base (block * block_m) sq)
            base (block * block_m + warp) warp lane in
        let (j, h, e) =
          for_strided-inv
            (λ j (t : Tiles Float × Lane Float).
              t.1 ≡ for_below j (guarded fl sh q k v base (block * block_m + warp) lane) (start fl))
            end 0 end block_n step (tiles, start fl) (omega arith) (omega arith)
            (λ j t more e. ap (λ s. (step j (t.0, s)).1) e ∙ tile_step-keys j t.0) refl in
        e
        ∙ guarded-keys base (block * block_m + warp) lane j row
            (omega (arith, kv_end-le block warp hw row, h))

  -- A row of the grid's overhang is not there.
  row_step : (b h r lane : ℕ) → (ℕ → Float) → ℕ → Float
  row_step b h r lane o =
      if ltb r sh.rows then Simple.flash_attention_simple_kernel fl sh q k v b h r lane o else o

  kernel-row_step :
      (shared : (ℕ → ℕ → Float) × Tiles Float) (b h block warp lane : ℕ) (o : ℕ → Float)
      → warp < block_m
      → Tiled.flash_attention_tiled_kernel fl sh q k v shared b h block warp lane o
        ≡ row_step b h (block * block_m + warp) lane o
  unfolding Tiled.flash_attention_tiled_kernel Simple.flash_attention_simple_kernel row_step
  kernel-row_step (sq, tiles) b h block warp lane o hw =
      ap
        (λ c.
          if c && ltb (block * block_m + warp) sh.rows
          then write_back fl sh lane (bh_base sh b h + (block * block_m + warp) * sh.dim) final o
          else o)
        inside
      ∙ if-eq (ltb (block * block_m + warp) sh.rows) o λ row.
        ap (λ s. write_back fl sh lane (bh_base sh b h + (block * block_m + warp) * sh.dim) s o)
          (tiles-keys (bh_base sh b h) block warp lane sq hw (ltb→lt _ _ row) tiles)
    where
      inside : ltb warp block_m ≡ true
      inside = ground arith

      final : Lane Float
      final =
          (for_strided (Tiled.kv_end sh (block * block_m)) 0 (Tiled.kv_end sh (block * block_m))
            block_n
            (Tiled.tile_step fl sh q k v
              (Tiled.load_queries fl sh q k v (bh_base sh b h) (block * block_m) sq)
              (bh_base sh b h) (block * block_m + warp) warp lane)
            (tiles, start fl)).1

  rows_step : (b h r : ℕ) → (ℕ → Float) → ℕ → Float
  rows_step b h r = for_below warp_size (row_step b h r)

  -- The threads of a block are the lanes of its rows.
  block-rows :
      (shared : (ℕ → ℕ → Float) × Tiles Float) (b h block : ℕ) (o : ℕ → Float)
      → for_below threads
          (λ tid.
            Tiled.flash_attention_tiled_kernel fl sh q k v shared b h block
              (tid / warp_size)
              (tid % warp_size))
          o
        ≡ for_below block_m (λ warp. rows_step b h (block * block_m + warp)) o
  unfolding rows_step
  block-rows shared b h block o =
      sym (for_below-mul block_m warp_size f o)
      ∙ for_below-eq block_m _ _ o (λ warp t hw. for_below-eq warp_size _ _ t (λ lane u hl.
        ap (λ (i : ℕ). kernel i ((warp * warp_size + lane) % warp_size) u) (warp_of warp lane hl)
        ∙ ap (λ (i : ℕ). kernel warp i u) (lane_of warp lane hl)
        ∙ kernel-row_step shared b h block warp lane u hw))
    where
      kernel : (warp lane : ℕ) → (ℕ → Float) → ℕ → Float
      kernel = Tiled.flash_attention_tiled_kernel fl sh q k v shared b h block

      f : ℕ → (ℕ → Float) → ℕ → Float
      f tid = kernel (tid / warp_size) (tid % warp_size)

  row_step_past : (b h r lane : ℕ) (o : ℕ → Float) → sh.rows ≤ r → row_step b h r lane o ≡ o
  unfolding row_step
  row_step_past b h r lane o past = ground arith

  row_step-kernel :
      (b h r lane : ℕ) (o : ℕ → Float)
      → r < sh.rows
      → row_step b h r lane o ≡ Simple.flash_attention_simple_kernel fl sh q k v b h r lane o
  unfolding row_step
  row_step-kernel b h r lane o inside = ground arith

  -- The blocks of a head are its rows.
  head-rows :
      (shared : (block : ℕ) → (ℕ → ℕ → Float) × Tiles Float) (b h : ℕ) (o : ℕ → Float)
      → for_below
          ((sh.rows + block_m - 1) / block_m)
          (λ block. for_below threads (λ tid.
            Tiled.flash_attention_tiled_kernel fl sh q k v
              (shared block)
              b
              h
              block
              (tid / warp_size)
              (tid % warp_size)))
          o
        ≡ for_below sh.rows
            (λ r. for_below warp_size (Simple.flash_attention_simple_kernel fl sh q k v b h r))
            o
  unfolding rows_step
  head-rows shared b h o =
      for_below-eq blocks _ _ o (λ block t _. block-rows (shared block) b h block t)
      ∙ for_below-mul blocks block_m (rows_step b h) o
      ∙ for_below-idle sh.rows (blocks * block_m) (rows_step b h) o (omega arith) (λ r t past.
        for_below_idle warp_size (row_step b h r) t (λ lane u. row_step_past b h r lane u past))
      ∙ for_below-eq sh.rows _ _ o (λ r t inside.
        for_below-eq warp_size _ _ t (λ lane u _. row_step-kernel b h r lane u inside))
    where
      blocks : ℕ
      blocks = (sh.rows + block_m - 1) / block_m

  launch-eq :
      (shared : (b h block : ℕ) → (ℕ → ℕ → Float) × Tiles Float) (batches : ℕ) (o : ℕ → Float)
      → Tiled.launch fl sh q k v shared batches o ≡ Simple.launch fl sh q k v batches o
  unfolding Tiled.launch Simple.launch
  launch-eq shared batches o =
      for_below-eq batches _ _ o
        (λ b t _. for_below-eq sh.heads _ _ t (λ h u _. head-rows (shared b h) b h u))

-- Whatever the operations on floats do, whatever the arrays and the shared memory hold, causal or not,
-- and for all sizes, zero and negative ones too, as long as B * H * S * D + 4096 is at most 2^31, so
-- that no `int` overflows: the tiled `solve` leaves the same values in `O` as the simple one.
pub solve-eq :
    (fl : Floats) (shared : (b h block : ℕ) → (ℕ → ℕ → fl.Float) × Tiles fl.Float)
    (undefined undefined' q k v o : ℕ → fl.Float) (b h s d : ℤ) (causal : Bool)
    → size b * size h * size s * size d + 4096 ≤ 2 ^ 31
    → Tiled.solve fl shared undefined q k v o b h s d causal
      ≡ Simple.solve fl undefined' q k v o b h s d causal
unfolding Tiled.solve Simple.solve
solve-eq fl shared undefined undefined' q k v o b h s d causal fits =
    if-else-eq (size b == 0 || size h == 0 || size s == 0 || size d == 0 || ltb max_d (size d)) o
      (λ _. if-else-eq (not (grid_accepted (size b) sh)) o (λ _. in_range))
  where
    sh : Shape
    sh = record { heads = size h; rows = size s; dim = size d; causal = causal }

    tiled_fits : Tiled.ints_fit (size b) sh ≡ true
    tiled_fits = unfold Tiled.ints_fit in ground (arith, fits)

    simple_fits : Simple.ints_fit (size b) sh ≡ true
    simple_fits = unfold Simple.ints_fit in ground (arith, fits)

    in_range :
        (if Tiled.ints_fit (size b) sh
          then Tiled.launch fl sh q k v shared (size b) o
          else undefined)
        ≡ (if Simple.ints_fit (size b) sh then Simple.launch fl sh q k v (size b) o else undefined')
    in_range =
        ap (λ t. if t then Tiled.launch fl sh q k v shared (size b) o else undefined) tiled_fits
        ∙ launch-eq fl sh q k v shared (size b) o
        ∙ sym (ap (λ t. if t then Simple.launch fl sh q k v (size b) o else undefined') simple_fits)

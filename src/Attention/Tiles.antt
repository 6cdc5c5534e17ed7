-- ===== src/Attention/Tiles.antt =====
-- What the tiles in shared memory hold, and one key of a tile against one key of the simple kernel.
use native.Mathlib.Nat.{mul-add-div_right, div-eq_of_lt}
use insist.Base.{
  ℕ, ◌+◌, ◌-◌, ◌*◌, ◌/◌, ◌%◌, ◌<◌, ◌≡◌, sym, ap, subst, ◌∙◌, arith, ltb, leb, ◌||◌, ◌&&◌, not, true,
  false, if◌then◌else◌, if-eq, if-else-eq, ltb→lt,
}
use insist.Base.Loops.{
  for_below, for_strided, for_below-eq, for_below-reaches, for_strided-keeps, for_strided-reaches,
}
use insist.Base.Arrays.{write, write_at, write_at_self, write_at_keeps}
use mathlib.Core.Path.{fun_ext}
use insist.Floats.{Floats}
use insist.Attention.{warp_size, max_d_per_lane, Shape, Lane, warp_reduce_sum, absorb}
use insist.Attention.Simple
use insist.Attention.Tiled
use insist.Attention.Tiled.{block_m, block_n, threads, Tiles}

-- A cell of a row-major table.
row_of : (r d n : ℕ) → d < n → (r * n + d) / n ≡ r
row_of r d n h = mul-add-div_right (omega arith) r d ∙ omega (arith, div-eq_of_lt h)

-- The write for the index of a cell of a table hits this cell.
write_at-cell :
    {A : Type 0} (table : ℕ → ℕ → A) (r d n : ℕ) (a : ℕ → ℕ → A)
    → d < n
    → let i = (r * n + d) / n in
      let j = r * n + d - i * n in write_at i j (table i j) a r d ≡ table r d
write_at-cell table r d n a h =
    subst (λ i. write_at i (r * n + d - i * n) (table i (r * n + d - i * n)) a r d ≡ table r d)
      (sym (row_of r d n h))
      (subst (λ j. write_at r j (table r j) a r d ≡ table r d) col
        (write_at_self r d (table r d) a))
  where
    col : d ≡ r * n + d - r * n
    col = omega arith

-- The threads of a block, each with the stride of the block, take every index below the bound.
threads_reach {ℓ κ} :
    {S : Type ℓ} (P : S → Type κ) (idx bound : ℕ) (f : ℕ → S → S) (s : S)
    → idx < bound
    → ((i : ℕ) (t : S) → P t → P (f i t))
    → ((t : S) → P (f idx t))
    → P (for_below threads (λ tid. for_strided bound tid bound threads f) s)
threads_reach P idx bound f s h keep reach =
    for_below-reaches P (idx % 256) threads _ s (omega arith)
      (λ tid t _. for_strided-keeps P bound tid bound threads f t keep)
      (λ t.
        for_strided-reaches P (idx / 256) bound (idx % 256) bound threads f t (omega arith)
          (omega arith) keep (λ u. subst (λ i. P (f i u)) split (reach u)))
  where
    split : idx ≡ idx % 256 + idx / 256 * 256
    split = omega arith

module _ (fl : Floats) (sh : Shape) (q k v : ℕ → fl.Float) where
  open fl use {Float, zero_float}

  -- What the load of the queries puts into a cell.
  unfoldable pub query_cell : (base q_block r d : ℕ) → Float
  query_cell base q_block r d =
      if ltb (q_block + r) sh.rows then q (base + (q_block + r) * sh.dim + d) else zero_float

  load_query-keeps :
      (base q_block r d idx : ℕ) (sq : ℕ → ℕ → Float)
      → sq r d ≡ query_cell base q_block r d
      → Tiled.load_query fl sh q k v base q_block idx sq r d ≡ query_cell base q_block r d
  unfolding Tiled.load_query query_cell
  load_query-keeps base q_block r d idx sq e =
      write_at_keeps (query_cell base q_block) (idx / sh.dim) (idx - idx / sh.dim * sh.dim) r d sq e

  load_query-reaches :
      (base q_block r d : ℕ) (sq : ℕ → ℕ → Float)
      → d < sh.dim
      → Tiled.load_query fl sh q k v base q_block (r * sh.dim + d) sq r d
        ≡ query_cell base q_block r d
  unfolding Tiled.load_query query_cell
  load_query-reaches base q_block r d sq h = write_at-cell (query_cell base q_block) r d sh.dim sq h

  -- After step 1 the tile of the queries holds the rows of the block.
  pub load_queries-cell :
      (base q_block r d : ℕ) (sq : ℕ → ℕ → Float)
      → r < block_m
      → d < sh.dim
      → Tiled.load_queries fl sh q k v base q_block sq r d ≡ query_cell base q_block r d
  unfolding Tiled.load_queries
  load_queries-cell base q_block r d sq hr hd =
      threads_reach (λ t. t r d ≡ query_cell base q_block r d) (r * sh.dim + d) (block_m * sh.dim)
        (Tiled.load_query fl sh q k v base q_block) sq (grind arith)
        (λ i t. load_query-keeps base q_block r d i t)
        (λ t. load_query-reaches base q_block r d t hd)

  -- What the load of the keys puts into a cell.
  unfoldable pub key_cell : (from : ℕ → Float) (base kv_block r d : ℕ) → Float
  key_cell from base kv_block r d =
      if ltb (kv_block + r) sh.rows then from (base + (kv_block + r) * sh.dim + d) else zero_float

  -- A round of the load writes the cells that belong to its index, in both tiles.
  load_key-cells :
      (base kv_block idx : ℕ) (tiles : Tiles Float)
      → let r = idx / sh.dim in
        let d = idx - r * sh.dim in
        Tiled.load_key fl sh q k v base kv_block idx tiles ≡ record {
          keys = write_at r d (key_cell k base kv_block r d) tiles.keys;
          values = write_at r d (key_cell v base kv_block r d) tiles.values;
        }
  unfolding Tiled.load_key key_cell
  load_key-cells base kv_block idx tiles = ground arith

  unfoldable pub Loaded : (base kv_block r d : ℕ) → Tiles Float → Type 0
  Loaded base kv_block r d t =
      (t.keys r d ≡ key_cell k base kv_block r d) × (t.values r d ≡ key_cell v base kv_block r d)

  -- After step 5.1 the tiles of a round hold its rows of the keys and the values.
  pub load_keys-Loaded :
      (base kv_block r d : ℕ) (tiles : Tiles Float)
      → r < block_n
      → d < sh.dim
      → Loaded base kv_block r d (Tiled.load_keys fl sh q k v base kv_block tiles)
  unfolding Tiled.load_keys Loaded
  load_keys-Loaded base kv_block r d tiles hr hd =
      threads_reach (Loaded base kv_block r d) (r * sh.dim + d) (block_n * sh.dim)
        (Tiled.load_key fl sh q k v base kv_block) tiles (grind arith)
        (λ i t e. subst (Loaded base kv_block r d) (sym (load_key-cells base kv_block i t)) (
          write_at_keeps (key_cell k base kv_block) (i / sh.dim) (i - i / sh.dim * sh.dim) r d
              t.keys e.0,
          write_at_keeps (key_cell v base kv_block) (i / sh.dim) (i - i / sh.dim * sh.dim) r d
              t.values e.1,
        ))
        (λ t.
          subst (Loaded base kv_block r d) (sym (load_key-cells base kv_block (r * sh.dim + d) t)) (
            write_at-cell (key_cell k base kv_block) r d sh.dim t.keys hd,
            write_at-cell (key_cell v base kv_block) r d sh.dim t.values hd,
          ))

  -- An update looks at the values of the dimensions only.
  absorb-eq :
      (lane : ℕ) (sc : Float) (f g : ℕ → Float) (s : Lane Float)
      → ((d : ℕ) → d < sh.dim → f d ≡ g d)
      → absorb fl sh lane sc f s ≡ absorb fl sh lane sc g s
  unfolding absorb
  absorb-eq lane sc f g s e =
      ap
        (λ acc. record {
          m = fl.fmaxf s.m sc;
          l =
              fl.plus (fl.times s.l (fl.fast_expf (fl.minus s.m (fl.fmaxf s.m sc))))
                (fl.fast_expf (fl.minus sc (fl.fmaxf s.m sc)));
          acc = acc;
        })
        (for_below-eq max_d_per_lane _ _ s.acc λ t acc h.
          if-eq (ltb (lane + t * warp_size) sh.dim) acc λ inside.
            ap
              (λ x.
                write t
                  (fl.plus (fl.times (acc t) (fl.fast_expf (fl.minus s.m (fl.fmaxf s.m sc))))
                    (fl.times (fl.fast_expf (fl.minus sc (fl.fmaxf s.m sc))) x))
                  acc)
              (e (lane + t * warp_size) (ltb→lt _ _ inside)))

  -- A key that no rule of the tiled kernel skips.
  unfoldable pub guarded : (base q_row lane k_row : ℕ) → Lane Float → Lane Float
  guarded base q_row lane k_row s =
      if leb sh.rows k_row || sh.causal && ltb q_row k_row
      then s
      else Simple.key_step fl sh q k v base q_row lane k_row s

  module _ (base kv_block q_row warp j : ℕ) (sq : ℕ → ℕ → Float) (tiles : Tiles Float)
      (queries : (d : ℕ) → d < sh.dim → sq warp d ≡ q (base + q_row * sh.dim + d))
      (loaded : (d : ℕ) → d < sh.dim → Loaded base kv_block j d tiles) where
    key-eq :
        (d : ℕ)
        → d < sh.dim
        → kv_block + j < sh.rows
        → tiles.keys j d ≡ k (base + (kv_block + j) * sh.dim + d)
    unfolding Loaded key_cell
    key-eq d h inside = (loaded d h).0 ∙ ground arith

    value-eq :
        (d : ℕ)
        → d < sh.dim
        → kv_block + j < sh.rows
        → tiles.values j d ≡ v (base + (kv_block + j) * sh.dim + d)
    unfolding Loaded key_cell
    value-eq d h inside = (loaded d h).1 ∙ ground arith

    dot_part-eq :
        kv_block + j < sh.rows
        → Tiled.dot_part fl sh q k v sq tiles warp j
          ≡ Simple.dot_part fl sh q k v base q_row (kv_block + j)
    unfolding Tiled.dot_part Simple.dot_part
    dot_part-eq inside = fun_ext λ lane. for_below-eq max_d_per_lane _ _ zero_float λ t part h.
        if-eq (ltb (lane + t * warp_size) sh.dim) part λ within.
          ap (λ x. fl.plus part (fl.times x (tiles.keys j (lane + t * warp_size))))
            (queries (lane + t * warp_size) (ltb→lt _ _ within))
          ∙ ap (λ x. fl.plus part (fl.times (q (base + q_row * sh.dim + (lane + t * warp_size))) x))
              (key-eq (lane + t * warp_size) (ltb→lt _ _ within) inside)

    pub key_step-eq :
        (lane : ℕ) (s : Lane Float)
        → warp < block_m
        → q_row < sh.rows
        → Tiled.key_step fl sh q k v sq tiles q_row warp lane kv_block j s
          ≡ guarded base q_row lane (kv_block + j) s
    unfolding Tiled.key_step guarded Simple.key_step Simple.score Tiled.score
    key_step-eq lane s hw row =
        ap
          (λ b.
            if not b || leb sh.rows (kv_block + j) || sh.causal && ltb q_row (kv_block + j)
            then s
            else absorb fl sh lane (Tiled.score fl sh q k v sq tiles warp j) (tiles.values j) s)
          valid
        ∙ if-else-eq (leb sh.rows (kv_block + j) || sh.causal && ltb q_row (kv_block + j)) s
            λ taken.
              ap
                (λ part.
                  absorb fl sh lane (fl.times (warp_reduce_sum fl part) (fl.rsqrt_of sh.dim))
                    (tiles.values j) s)
                (dot_part-eq (inside taken))
              ∙ absorb-eq lane (Simple.score fl sh q k v base q_row (kv_block + j)) _ _ s
                  (λ d h. value-eq d h (inside taken))
      where
        valid : (ltb warp block_m && ltb q_row sh.rows) ≡ true
        valid = ground arith

        inside :
            (leb sh.rows (kv_block + j) || sh.causal && ltb q_row (kv_block + j)) ≡ false
            → kv_block + j < sh.rows
        inside h = ground (arith, h)

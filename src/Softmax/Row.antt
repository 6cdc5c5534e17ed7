-- ===== src/Softmax/Row.antt =====
-- What a block computes for its row.
use native.Mathlib.Nat.{one-le-pow}
use mathlib.Core.Path.{fun_ext}
use insist.Base.{
  ℕ, ◌+◌, ◌-◌, ◌*◌, ◌/◌, ◌^◌, ◌≤◌, ◌<◌, ◌≡◌, refl, ap, subst, ◌∙◌, arith, Bool, true, false, ltb,
  leb, if◌then◌else◌, ◌⊎◌, inl, inr,
}
use insist.Base.Loops.{
  for_below, for_strided, for_below-eq, for_below-both, for_strided-both, for_below-keeps,
  for_strided-keeps,
}
use insist.Base.Arrays.{write, for_below-write}
use insist.Floats.{Floats}
use insist.Floats.Collects.{Collects, once_below}
use insist.Floats.Strides.{on_cell, threads-on_cell}
use insist.Floats.Trees.{tree_loop}
use insist.Softmax.{
  local_max, local_exps, block_max, block_exps, max_read, block_scaled, softmax_block_kernel,
}
use insist.Softmax.Block.{block-Collects}

-- No thread is late.
abbrev pub early : ℕ → Bool
early tid = false

module _ (fl : Floats) (x : ℕ → fl.Float) (rows cols e row : ℕ) (y : ℕ → fl.Float) where
  open fl use {Float, zero_float, negative_infinity, plus, minus, over, fmaxf, expf}

  module _ (max_val : Float) where
    -- What the threads write of the exponentials, and what a thread adds up.
    exps : ℕ → Float
    exps =
        for_below (2 ^ e)
          (λ tid.
            for_strided cols tid cols (2 ^ e)
              (on_cell (row * cols) (λ c a. expf (minus (x (row * cols + c)) max_val))))
          y

    thread_sum : ℕ → Float
    thread_sum tid =
        for_strided cols tid cols (2 ^ e)
          (λ c a. plus a (expf (minus (x (row * cols + c)) max_val))) zero_float

    block_exps-eq :
        (smem : ℕ → Float)
        → block_exps fl x (row * cols) cols (2 ^ e) (λ tid. max_val) (y, smem)
          ≡ (exps, for_below (2 ^ e) (λ tid. write tid (thread_sum tid)) smem)
    unfolding block_exps local_exps exps thread_sum
    block_exps-eq smem =
        for_below-eq (2 ^ e) _ _ (y, smem)
          (λ tid p _.
            ap (λ (r : (ℕ → Float) × Float). (r.0, write tid r.1 p.1))
              (for_strided-both
                (on_cell (row * cols) (λ c a. expf (minus (x (row * cols + c)) max_val)))
                (λ c a. plus a (expf (minus (x (row * cols + c)) max_val))) cols tid cols (2 ^ e)
                p.0 zero_float))
        ∙ for_below-both
            (λ tid.
              for_strided cols tid cols (2 ^ e)
                (on_cell (row * cols) (λ c a. expf (minus (x (row * cols + c)) max_val))))
            (λ tid. write tid (thread_sum tid)) (2 ^ e) y smem

    -- The sum of the block.
    block_sum : (ℕ → Float) → Float
    block_sum smem =
        tree_loop plus (2 ^ e) 0 (2 ^ e / 2)
          (for_below (2 ^ e) (λ tid. write tid (thread_sum tid)) smem) 0

    block_sum-Collects :
        (smem : ℕ → Float)
        → Collects plus zero_float
            (λ c. expf (minus (x (row * cols + c)) max_val))
            (once_below cols)
            (block_sum smem)
    unfolding block_sum thread_sum
    block_sum-Collects smem =
        block-Collects plus zero_float (λ c. expf (minus (x (row * cols + c)) max_val)) e cols _
          (λ tid h. for_below-write (2 ^ e) tid thread_sum smem h)

  module _ (max_val sum_val : Float) where
    result : ℕ → Float
    result = block_scaled fl x (row * cols) cols (2 ^ e) sum_val (exps max_val)

    -- A cell of the row is written once by each of the two loops, and no other.
    result-cell :
        (k : ℕ)
        → result (row * cols + k) ≡ (
            if ltb k cols
            then over (expf (minus (x (row * cols + k)) max_val)) sum_val
            else y (row * cols + k))
    unfolding result block_scaled exps
    result-cell k =
        threads-on_cell (row * cols) (λ c a. over a sum_val) cols (2 ^ e) (exps max_val) k
          (one-le-pow e 2 (omega arith))
        ∙ ap (λ a. if ltb k cols then over a sum_val else a)
            (threads-on_cell (row * cols) (λ c a. expf (minus (x (row * cols + c)) max_val)) cols
              (2 ^ e) y k (one-le-pow e 2 (omega arith)))
        ∙ both_tests (ltb k cols) _ _
      where
        both_tests :
            (t : Bool) (a b : Float)
            → (if t then over (if t then a else b) sum_val else (if t then a else b))
              ≡ (if t then over a sum_val else b)
        both_tests true a b = refl
        both_tests false a b = refl

    result-before : (i : ℕ) → i < row * cols → result i ≡ y i
    unfolding result block_scaled exps
    result-before i h =
        for_below-keeps Same (2 ^ e) _ _
          (λ tid t _.
            for_strided-keeps Same cols tid cols (2 ^ e) _ t
              (λ j u. elsewhere (λ c a. over a sum_val) j u))
          (for_below-keeps Same (2 ^ e) _ y
            (λ tid t _.
              for_strided-keeps Same cols tid cols (2 ^ e) _ t
                (λ j u. elsewhere (λ c a. expf (minus (x (row * cols + c)) max_val)) j u))
            refl)
      where
        Same : (ℕ → Float) → Type 0
        Same t = t i ≡ y i

        elsewhere :
            (g : ℕ → Float → Float) (j : ℕ) (t : ℕ → Float)
            → t i ≡ y i
            → on_cell (row * cols) g j t i ≡ y i
        elsewhere g j t same = unfold write in ground arith

  kernel-result :
      (i : ℕ)
      → row < rows
      → let maxima = block_max fl x (row * cols) cols (2 ^ e) in
        softmax_block_kernel fl x rows cols (2 ^ e) early row y i
        ≡ result (maxima 0) (block_sum (maxima 0) maxima) i
  unfolding softmax_block_kernel max_read result block_sum
  kernel-result i inside =
      ap
        (λ t.
          (if t
              then y
              else finish (block_exps fl x (row * cols) cols (2 ^ e) (λ tid. maxima 0) (y, maxima)))
            i)
        exists
      ∙ ap (λ p. finish p i) (block_exps-eq (maxima 0) maxima)
    where
      maxima : ℕ → Float
      maxima = block_max fl x (row * cols) cols (2 ^ e)

      finish : (ℕ → Float) × (ℕ → Float) → ℕ → Float
      finish p =
          block_scaled fl x (row * cols) cols (2 ^ e) (tree_loop plus (2 ^ e) 0 (2 ^ e / 2) p.1 0)
            p.0

      exists : leb rows row ≡ false
      exists = ground arith

  -- The block of a row, where no thread is late.
  pub kernel-row :
      row < rows
      → (max_val : Float) × (sum_val : Float) × Collects fmaxf negative_infinity
          (λ c. x (row * cols + c))
          (once_below cols)
          max_val
        × Collects plus zero_float
            (λ c. expf (minus (x (row * cols + c)) max_val))
            (once_below cols)
            sum_val
        × ((c : ℕ)
            → c < cols
            → softmax_block_kernel fl x rows cols (2 ^ e) early row y (row * cols + c)
              ≡ over (expf (minus (x (row * cols + c)) max_val)) sum_val)
        × ((i : ℕ)
            → (i < row * cols) ⊎ (row * cols + cols ≤ i)
            → softmax_block_kernel fl x rows cols (2 ^ e) early row y i ≡ y i)
  unfolding block_max local_max
  kernel-row inside = (
    max_val,
    sum_val,
    block-Collects fmaxf negative_infinity (λ c. x (row * cols + c)) e cols _ (λ tid h. refl),
    block_sum-Collects max_val maxima,
    λ c h. kernel-result (row * cols + c) inside ∙ result-cell _ _ c ∙ within c _ _ h,
    λ i h. kernel-result i inside ∙ outside i h,
  )
    where
      within : (c : ℕ) (a b : Float) → c < cols → (if ltb c cols then a else b) ≡ a
      within c a b h = ground arith

      behind : (k : ℕ) (a b : Float) → cols ≤ k → (if ltb k cols then a else b) ≡ b
      behind k a b h = ground arith

      maxima : ℕ → Float
      maxima = block_max fl x (row * cols) cols (2 ^ e)

      max_val : Float
      max_val = maxima 0

      sum_val : Float
      sum_val = block_sum max_val maxima

      outside :
          (i : ℕ) → (i < row * cols) ⊎ (row * cols + cols ≤ i) → result max_val sum_val i ≡ y i
      outside i (inl h) = result-before max_val sum_val i h
      outside i (inr h) =
          subst (λ k. result max_val sum_val k ≡ y k) {x = row * cols + (i - row * cols)} {y = i}
            (omega (arith, h))
            (result-cell max_val sum_val (i - row * cols)
              ∙ behind (i - row * cols) _ (y (row * cols + (i - row * cols))) (omega (arith, h)))

  -- A row that exists, by a block of `2 ^ e` threads, 1024 at most, of which none reads `smem[0]` behind
  -- the write of thread 0, in a matrix whose indices are `int`s, and whatever the operations do:
  -- there are a value that combines the elements of the row by `fmaxf`, and one that adds their
  -- exponentials, each once and in some bracketing; the block divides the exponential of each
  -- element by the second, and writes nothing else.
  pub softmax_block_kernel-row :
      (late : ℕ → Bool)
      → ((tid : ℕ) → late tid ≡ false)
      → 2 ^ e ≤ 1024
      → rows * cols ≤ 2 ^ 31
      → cols + 1024 ≤ 2 ^ 31
      → row < rows
      → (max_val : Float) × (sum_val : Float) × Collects fmaxf negative_infinity
          (λ c. x (row * cols + c))
          (once_below cols)
          max_val
        × Collects plus zero_float
            (λ c. expf (minus (x (row * cols + c)) max_val))
            (once_below cols)
            sum_val
        × ((c : ℕ)
            → c < cols
            → softmax_block_kernel fl x rows cols (2 ^ e) late row y (row * cols + c)
              ≡ over (expf (minus (x (row * cols + c)) max_val)) sum_val)
        × ((i : ℕ)
            → (i < row * cols) ⊎ (row * cols + cols ≤ i)
            → softmax_block_kernel fl x rows cols (2 ^ e) late row y i ≡ y i)
  softmax_block_kernel-row late none_late small fits wide inside =
      let (m, s, max_is, sum_is, cells, others) = kernel-row inside in
      (
        m,
        s,
        max_is,
        sum_is,
        λ c h. as_early (row * cols + c) ∙ cells c h,
        λ i h. as_early i ∙ others i h,
      )
    where
      as_early :
          (i : ℕ)
          → softmax_block_kernel fl x rows cols (2 ^ e) late row y i
            ≡ softmax_block_kernel fl x rows cols (2 ^ e) early row y i
      as_early i =
          ap (λ l. softmax_block_kernel fl x rows cols (2 ^ e) l row y i) (fun_ext none_late)

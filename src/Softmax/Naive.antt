-- ===== src/Softmax/Naive.antt =====
-- The naive kernel, and the block kernel against it.
use insist.Base.{
  ℕ, ◌+◌, ◌*◌, ◌^◌, ◌<◌, ◌≡◌, sym, ap, ◌∙◌, arith, true, false, ltb, leb, if◌then◌else◌,
}
use insist.Base.Loops.{for_below, for_below-both}
use insist.Base.Arrays.{write, for_below-cell}
use insist.Floats.{Floats}
use insist.Floats.Exact.{IsSum, Collects-unique, for_below-Collects}
use insist.Softmax.{naive_max, naive_exps, softmax_naive_kernel, softmax_block_kernel}
use insist.Softmax.Row.{early, kernel-row}

module _ (fl : Floats) (x : ℕ → fl.Float) (rows cols row : ℕ) (y : ℕ → fl.Float) where
  open fl use {Float, zero_float, negative_infinity, plus, minus, over, fmaxf, expf}

  naive_sum : Float → Float
  naive_sum max_val =
      for_below cols (λ c sum_val. plus sum_val (expf (minus (x (row * cols + c)) max_val)))
        zero_float

  -- The row of the naive kernel.
  naive-cell :
      (c : ℕ)
      → row < rows
      → c < cols
      → let max_val = naive_max fl x (row * cols) cols in
        softmax_naive_kernel fl x rows cols row 0 y (row * cols + c)
        ≡ over (expf (minus (x (row * cols + c)) max_val)) (naive_sum max_val)
  unfolding softmax_naive_kernel naive_exps naive_sum
  naive-cell c inside h =
      ap
        (λ t.
          (if t then y else scaled (naive_exps fl x (row * cols) cols max_val y)) (row * cols + c))
        exists
      ∙ ap (λ p. scaled p (row * cols + c))
          (for_below-both
            (λ j out. write (row * cols + j) (expf (minus (x (row * cols + j)) max_val)) out)
            (λ j sum_val. plus sum_val (expf (minus (x (row * cols + j)) max_val))) cols y
            zero_float)
      ∙ row_cell (λ j a. over a sum_val) exps
      ∙ ap (λ a. if ltb c cols then over a sum_val else a)
          (row_cell (λ j a. expf (minus (x (row * cols + j)) max_val)) y)
      ∙ within
    where
      max_val : Float
      max_val = naive_max fl x (row * cols) cols

      sum_val : Float
      sum_val = naive_sum max_val

      exps : ℕ → Float
      exps =
          for_below cols
            (λ j out. write (row * cols + j) (expf (minus (x (row * cols + j)) max_val)) out) y

      scaled : (ℕ → Float) × Float → ℕ → Float
      scaled p =
          for_below cols (λ j out. write (row * cols + j) (over (out (row * cols + j)) p.1) out) p.0

      row_cell :
          (g : ℕ → Float → Float) (t : ℕ → Float)
          → for_below cols
              (λ j out. write (row * cols + j) (g j (out (row * cols + j))) out)
              t
              (row * cols + c)
            ≡ (if ltb c cols then g c (t (row * cols + c)) else t (row * cols + c))
      row_cell g t =
          for_below-cell (λ j. row * cols + j) cols (λ j. true) g t c (λ i j e. omega (arith, e))
          ∙ ground arith

      exists : leb rows row ≡ false
      exists = ground arith

      inside_row : ltb c cols ≡ true
      inside_row = ground arith

      within :
          (if ltb c cols
            then over
                (if ltb c cols
                  then expf (minus (x (row * cols + c)) max_val)
                  else y (row * cols + c))
                sum_val
            else (if ltb c cols
                then expf (minus (x (row * cols + c)) max_val)
                else y (row * cols + c)))
          ≡ over (expf (minus (x (row * cols + c)) max_val)) sum_val
      within =
          ap
            (λ t.
              if t
              then over
                  (if t then expf (minus (x (row * cols + c)) max_val) else y (row * cols + c))
                  sum_val
              else (if t then expf (minus (x (row * cols + c)) max_val) else y (row * cols + c)))
            inside_row

  -- Where `fmaxf` and `+` are exact, that is associative and commutative with `-inf` and 0 as units: the
  -- block kernel, with `2 ^ e` threads, leaves in every cell of a row what the naive kernel leaves.
  pub softmax_block_kernel-naive :
      (e : ℕ)
      → IsSum fmaxf negative_infinity
      → IsSum plus zero_float
      → row < rows
      → (c : ℕ) → c < cols
      → softmax_block_kernel fl x rows cols (2 ^ e) early row y (row * cols + c)
        ≡ softmax_naive_kernel fl x rows cols row 0 y (row * cols + c)
  unfolding naive_max naive_sum
  softmax_block_kernel-naive e exact_max exact_sum inside c h =
      let (m, s, max_is, sum_is, cells, _) = kernel-row fl x rows cols e row y inside in
      let same_max =
        Collects-unique fmaxf negative_infinity (λ j. x (row * cols + j)) exact_max cols max_is
          (for_below-Collects fmaxf negative_infinity (λ j. x (row * cols + j)) cols) in
      let same_sum =
        Collects-unique plus zero_float (λ j. expf (minus (x (row * cols + j)) m)) exact_sum cols
          sum_is
          (for_below-Collects plus zero_float (λ j. expf (minus (x (row * cols + j)) m)) cols) in
      cells c h
      ∙ ap (over (expf (minus (x (row * cols + c)) m))) same_sum
      ∙ ap (λ a. over (expf (minus (x (row * cols + c)) a)) (naive_sum a)) same_max
      ∙ sym (naive-cell c inside h)

-- What the row held before does not matter.
pub naive-same :
    (fl : Floats) (x : ℕ → fl.Float) (rows cols row : ℕ) (y z : ℕ → fl.Float) (c : ℕ)
    → row < rows
    → c < cols
    → softmax_naive_kernel fl x rows cols row 0 y (row * cols + c)
      ≡ softmax_naive_kernel fl x rows cols row 0 z (row * cols + c)
unfolding naive_sum
naive-same fl x rows cols row y z c inside h =
    naive-cell fl x rows cols row y c inside h ∙ sym (naive-cell fl x rows cols row z c inside h)

-- ===== src/Reduction/Threads.antt =====
-- What the threads of a block read and bring together.
use native.Mathlib.Nat.{mod-eq_of_lt}
use insist.Base.{
  ℕ, zero, suc, ◌+◌, ◌*◌, ◌%◌, ◌^◌, ◌≤◌, ◌<◌, ◌≡◌, sym, ap, subst, ◌∙◌, arith, Bool, true, false,
  ltb, leb, ◌&&◌, if◌then◌else◌,
}
use insist.Floats.{Floats}
use insist.Floats.Collects.{Collects, nothing, one, both, recount, only}
use insist.Floats.Trees.{tree_step, total, Rest, tree_step-Rest}
use insist.Reduction.{first_sum, warp_step, warp_rounds}

-- How often thread `tid` of a block takes `j`.
abbrev pub taken : (n block_size block tid j : ℕ) → ℕ
taken n block_size block tid j =
    let global = block * block_size * 2 + tid in
    (if ltb global n then only global j else 0)
    + (if ltb (global + block_size) n then only (global + block_size) j else 0)

-- The elements of a block: those between its bounds that are there.
abbrev pub of_block : (n block_size block j : ℕ) → ℕ
of_block n block_size block j =
    if leb (block * (block_size * 2)) j && ltb j ((block + 1) * (block_size * 2)) && ltb j n
    then 1
    else 0

-- Whether thread `tid` reads `j` at the distance `tid` from `b`.
reads : (n b tid j : ℕ) → ℕ
reads n b tid j = if ltb (b + tid) n then only (b + tid) j else 0

total-reads :
    (n b m j : ℕ) → total m (reads n b) j ≡ (if leb b j && ltb j (b + m) && ltb j n then 1 else 0)
unfolding total reads
total-reads n b zero j = ground arith
total-reads n b (suc m) j = ground (arith, total-reads n b m j)

module _ (fl : Floats) (x : ℕ → fl.Float) (n block_size : ℕ) where
  open fl use {Float, zero_float, plus}

  pub first_sum-Collects :
      (block tid : ℕ)
      → block * block_size * 2 + tid + block_size < 2 ^ 64
      → Collects plus zero_float x
          (taken n block_size block tid)
          (first_sum fl x n block_size block tid)
  unfolding first_sum
  first_sum-Collects block tid fits =
      subst
        (λ (g : ℕ).
          Collects plus zero_float x (taken n block_size block tid)
            (sum_from g ((g + block_size) % 2 ^ 64)))
        (sym low)
        (subst
          (λ (h : ℕ).
            Collects plus zero_float x (taken n block_size block tid)
              (sum_from (block * block_size * 2 + tid) h))
          (sym high)
          (second (ltb (block * block_size * 2 + tid + block_size) n)
            (block * block_size * 2 + tid + block_size)
            (first (ltb (block * block_size * 2 + tid) n) (block * block_size * 2 + tid))))
    where
      low : (block * block_size * 2 + tid) % 2 ^ 64 ≡ block * block_size * 2 + tid
      low = mod-eq_of_lt (omega (arith, fits))

      high :
          (block * block_size * 2 + tid + block_size) % 2 ^ 64
          ≡ block * block_size * 2 + tid + block_size
      high = mod-eq_of_lt fits

      sum_from : ℕ → ℕ → Float
      sum_from g h =
          if ltb h n
          then plus (if ltb g n then plus zero_float (x g) else zero_float) (x h)
          else (if ltb g n then plus zero_float (x g) else zero_float)

      first :
          (t : Bool) (g : ℕ)
          → Collects plus zero_float x
              (λ j. if t then only g j else 0)
              (if t then plus zero_float (x g) else zero_float)
      first true g =
          recount plus zero_float x _ (only g) _ (λ j. omega arith) (both nothing (one g))
      first false g = nothing

      second :
          (t : Bool) (g : ℕ) {c : ℕ → ℕ} {a : Float}
          → Collects plus zero_float x c a
          → Collects plus zero_float x
              (λ j. c j + (if t then only g j else 0))
              (if t then plus a (x g) else a)
      second true g p = both p (one g)
      second false g p = recount plus zero_float x _ _ _ (λ j. omega arith) p

  -- The elements that the threads below `m` take with their first, or their second, read.
  total-taken :
      (block m j : ℕ)
      → total m (taken n block_size block) j
        ≡ total m (reads n (block * block_size * 2)) j
          + total m (reads n (block * block_size * 2 + block_size)) j
  unfolding total reads
  total-taken block zero j = omega arith
  total-taken block (suc m) j =
      ap (λ (k : ℕ). k + taken n block_size block m j) (total-taken block m j)
      ∙ ap
          (λ (g : ℕ).
            total m (reads n (block * block_size * 2)) j
            + total m (reads n (block * block_size * 2 + block_size)) j
            + ((if ltb (block * block_size * 2 + m) n
                  then only (block * block_size * 2 + m) j
                  else 0)
                + (if ltb g n then only g j else 0)))
          swap
      ∙ regroup _ _ _ _
    where
      swap : block * block_size * 2 + m + block_size ≡ block * block_size * 2 + block_size + m
      swap = omega arith

      regroup : (a b c d : ℕ) → a + b + (c + d) ≡ (a + c) + (b + d)
      regroup a b c d = omega arith

  pub total-of_block :
      (block j : ℕ) → total block_size (taken n block_size block) j ≡ of_block n block_size block j
  total-of_block block j =
      total-taken block block_size j
      ∙ ap (λ (t : ℕ). t + total block_size (reads n (block * block_size * 2 + block_size)) j)
          (total-reads n (block * block_size * 2) block_size j)
      ∙ ap
          (λ (t : ℕ).
            (if leb (block * block_size * 2) j
                && ltb j (block * block_size * 2 + block_size)
                && ltb j n
              then 1
              else 0)
            + t)
          (total-reads n (block * block_size * 2 + block_size) block_size j)
      ∙ joined (block * block_size * 2) (block * (block_size * 2)) ((block + 1) * (block_size * 2))
          (grind arith) (grind arith)
    where
      joined :
          (b low high : ℕ)
          → b ≡ low
          → high ≡ low + block_size + block_size
          → (if leb b j && ltb j (b + block_size) && ltb j n then 1 else 0)
              + (if leb (b + block_size) j && ltb j (b + block_size + block_size) && ltb j n
                  then 1
                  else 0)
            ≡ (if leb low j && ltb j high && ltb j n then 1 else 0)
      joined b low high p q = ground arith

  pub warp_rounds-Rest :
      (count : ℕ → ℕ) (m : ℕ → Float)
      → Rest plus zero_float x 64 count m
      → Collects plus zero_float x count (warp_rounds fl x n block_size m 0)
  unfolding warp_rounds warp_step total
  warp_rounds-Rest count m r =
      let (c, all, sum) = step 1 (omega arith) (
        step 2 (omega arith) (
          step 4 (omega arith)
            (step 8 (omega arith) (step 16 (omega arith) (step 32 (omega arith) r))))) in
      recount plus zero_float x (c 0) count _ (λ j. omega (arith, sum j)) (all 0 (omega arith))
    where
      step :
          (s : ℕ)
          → s ≤ 32
          → {t : ℕ → Float} → Rest plus zero_float x (s + s) count t
          → Rest plus zero_float x s count (tree_step plus 32 s t)
      step s h {t} = tree_step-Rest plus zero_float x 32 s count t h

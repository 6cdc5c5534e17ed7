-- ===== src/Attention/Dot.antt =====
-- The dot product of a query and a key: the parts of the lanes and their sum over the warp.
use insist.Base.{
  ℕ, zero, suc, ◌+◌, ◌*◌, ◌≤◌, ◌<◌, ◌≡◌, subst, ◌∙◌, arith, Bool, true, false, ltb, leb, ◌&&◌,
  if◌then◌else◌,
}
use insist.Base.Loops.{for_below}
use insist.Floats.{Floats}
use insist.Floats.Collects.{Collects, nothing, one, both, recount, only, once_below}
use insist.Floats.Exact.{IsSum, Collects-unique, for_below-Collects}
use insist.Floats.Trees.{total, Rest, tree_step, tree_step-Rest}
use insist.Attention.{warp_size, max_d, Shape, shfl_down, shuffle_rounds, warp_reduce_sum}
use insist.Attention.Simple.{dot_part}

-- Whether a lane takes the column `j` in the round whose columns begin at `b`.
takes : (n b lane j : ℕ) → ℕ
takes n b lane j = if ltb (lane + b) n then only (lane + b) j else 0

total-takes :
    (n b m j : ℕ) → total m (takes n b) j ≡ (if leb b j && ltb j (m + b) && ltb j n then 1 else 0)
unfolding total takes
total-takes n b zero j = ground arith
total-takes n b (suc m) j = ground (arith, total-takes n b m j)

total-sum :
    (n : ℕ) (c e : ℕ → ℕ → ℕ) (j : ℕ) → total n (λ i k. c i k + e i k) j ≡ total n c j + total n e j
unfolding total
total-sum zero c e j = omega arith
total-sum (suc n) c e j = omega (arith, total-sum n c e j)

-- The columns of a lane.
abbrev columns : (n lane j : ℕ) → ℕ
columns n lane j = takes n 0 lane j + takes n 32 lane j + (takes n 64 lane j + takes n 96 lane j)

total-columns : (n j : ℕ) → n ≤ max_d → total warp_size (columns n) j ≡ once_below n j
total-columns n j h =
    total-sum 32 (λ i k. takes n 0 i k + takes n 32 i k) (λ i k. takes n 64 i k + takes n 96 i k) j
    ∙ omega
        (arith, total-sum 32 (takes n 0) (takes n 32) j, total-sum 32 (takes n 64) (takes n 96) j)
    ∙ join _ _ _ _ (total-takes n 0 32 j) (total-takes n 32 32 j) (total-takes n 64 32 j)
        (total-takes n 96 32 j)
  where
    join :
        (a b c d : ℕ)
        → a ≡ (if leb 0 j && ltb j (32 + 0) && ltb j n then 1 else 0)
        → b ≡ (if leb 32 j && ltb j (32 + 32) && ltb j n then 1 else 0)
        → c ≡ (if leb 64 j && ltb j (32 + 64) && ltb j n then 1 else 0)
        → d ≡ (if leb 96 j && ltb j (32 + 96) && ltb j n then 1 else 0)
        → (a + b) + (c + d) ≡ once_below n j
    join a b c d p q r s = ground arith

module _ (fl : Floats) (x : ℕ → fl.Float) where
  open fl use {Float, zero_float, plus}

  -- A round of `warp_reduce_sum`, as far as the lanes below `s` need it.
  round-Rest :
      (s : ℕ) (count : ℕ → ℕ) (m : ℕ → Float)
      → s + s ≤ warp_size
      → Rest plus zero_float x (s + s) count m
      → Rest plus zero_float x s count (λ lane. plus (m lane) (shfl_down fl s m lane))
  unfolding shfl_down tree_step
  round-Rest s count m h r =
      let (c, all, sums) = tree_step-Rest plus zero_float x s s count m (omega arith) r in
      (c, λ i below. subst (Collects plus zero_float x (c i)) (same i below) (all i below), sums)
    where
      same :
          (i : ℕ)
          → i < s
          → (if ltb i s then plus (m i) (m (i + s)) else m i)
            ≡ plus (m i) (if ltb (i + s) warp_size then m (i + s) else m i)
      same i below = ground arith

  -- The warp's sum takes what its lanes have, each once.
  warp_reduce_sum-Collects :
      (count : ℕ → ℕ) (m : ℕ → Float)
      → Rest plus zero_float x warp_size count m
      → Collects plus zero_float x count (warp_reduce_sum fl m)
  unfolding warp_reduce_sum shuffle_rounds total
  warp_reduce_sum-Collects count m r =
      let (c, all, sums) = round-Rest 1 count _ (omega arith) (
        round-Rest 2 count _ (omega arith) (
          round-Rest 4 count _ (omega arith)
            (round-Rest 8 count _ (omega arith) (round-Rest 16 count m (omega arith) r)))) in
      recount plus zero_float x (c 0) count _ (λ j. omega (arith, sums j)) (all 0 (omega arith))

  -- A round of a lane.
  take-Collects :
      (n lane b : ℕ) (c : ℕ → ℕ) (a : Float)
      → Collects plus zero_float x c a
      → Collects plus zero_float x
          (λ j. c j + takes n b lane j)
          (if ltb (lane + b) n then plus a (x (lane + b)) else a)
  unfolding takes
  take-Collects n lane b c a p = choose (ltb (lane + b) n)
    where
      choose :
          (t : Bool)
          → Collects plus zero_float x
              (λ j. c j + (if t then only (lane + b) j else 0))
              (if t then plus a (x (lane + b)) else a)
      choose true = both p (one (lane + b))
      choose false = recount plus zero_float x c _ a (λ j. omega arith) p

module _ (fl : Floats) (sh : Shape) (q k v : ℕ → fl.Float) where
  open fl use {Float, zero_float, plus, times}

  module _ (base q_row k_row : ℕ) where
    abbrev product : ℕ → Float
    product d = times (q (base + q_row * sh.dim + d)) (k (base + k_row * sh.dim + d))

    dot_part-Collects :
        (lane : ℕ)
        → Collects plus zero_float product
            (columns sh.dim lane)
            (dot_part fl sh q k v base q_row k_row lane)
    unfolding dot_part for_below
    dot_part-Collects lane =
        recount plus zero_float product _ (columns sh.dim lane) _ (λ j. omega arith)
          (take-Collects fl product sh.dim lane 96 _ _ (
            take-Collects fl product sh.dim lane 64 _ _ (
              take-Collects fl product sh.dim lane 32 _ _
                (take-Collects fl product sh.dim lane 0 _ _ nothing))))

    -- Whatever the laws of addition are, the dot product takes each column once.
    pub dot-Collects :
        sh.dim ≤ max_d
        → Collects plus zero_float product
            (once_below sh.dim)
            (warp_reduce_sum fl (dot_part fl sh q k v base q_row k_row))
    dot-Collects h =
        warp_reduce_sum-Collects fl product (once_below sh.dim)
          (dot_part fl sh q k v base q_row k_row)
          (columns sh.dim, λ lane _. dot_part-Collects lane, λ j. total-columns sh.dim j h)

    -- Where addition is exact, it is the plain sum of the products.
    pub dot-eq :
        IsSum plus zero_float
        → sh.dim ≤ max_d
        → warp_reduce_sum fl (dot_part fl sh q k v base q_row k_row)
          ≡ for_below sh.dim (λ d a. plus a (product d)) zero_float
    dot-eq exact h =
        Collects-unique plus zero_float product exact sh.dim (dot-Collects h)
          (for_below-Collects plus zero_float product sh.dim)

-- ===== src/Attention/Exact.antt =====
-- The kernels against the definition of attention.
use mathlib.Core.Path.{fun_ext}
use insist.Base.{
  ℕ, ◌+◌, ◌*◌, ◌^◌, Bool, true, not, ◌≤◌, ◌<◌, ◌≡◌, ap, ◌∙◌, arith, false, ltb, ◌==◌, ◌||◌,
  if◌then◌else◌, pos,
}
use insist.Floats.{Floats}
use insist.Floats.Exact.{IsSum}
use insist.Attention.{grid_accepted, warp_size, max_d, max_d_per_lane, Shape, Lane, bh_base}
use insist.Attention.Simple
use insist.Attention.Tiled
use insist.Attention.Tiled.{Tiles}
use insist.Attention.Online.{IsExact, sum, weight, after, after-m, after-l, after-acc}
use insist.Attention.Dot.{dot-eq}
use insist.Attention.Formula.{cell, cell-eq, seen, scaled_score, softmax_mean, attention}
use insist.Attention.Places.{lane_result, launch-table}
use insist.Attention.Equivalence.{solve-eq}

module _ (fl : Floats) (sh : Shape) (q k v : ℕ → fl.Float) (exact : IsExact fl)
    (exact_sum : IsSum fl.plus fl.zero_float) (narrow : sh.dim ≤ max_d) where
  open fl use {Float, plus, times, over, rsqrt_of}

  score-eq :
      (b h i j : ℕ)
      → Simple.score fl sh q k v (bh_base sh b h) i j ≡ scaled_score fl sh q k v b h i j
  unfolding Simple.score scaled_score sum
  score-eq b h i j =
      ap (λ a. times a (rsqrt_of sh.dim))
        (dot-eq fl sh q k v (bh_base sh b h) i j exact_sum narrow
          ∙ ap (λ f. sum fl sh.dim f)
              (fun_ext λ d.
                ap (λ x. times x (k (bh_base sh b h + j * sh.dim + d))) (ap q (cell-eq sh b h i d))
                ∙ ap (λ x. times (q (cell sh b h i d)) x) (ap k (cell-eq sh b h j d))))

  -- What a lane writes.
  lane_value :
      (b h i lane t : ℕ)
      → t < max_d_per_lane
      → lane + t * warp_size < sh.dim
      → let s = Simple.keys fl sh q k v (bh_base sh b h) i lane in
        over (s.acc t) s.l ≡ attention fl sh q k v b h i (lane + t * warp_size)
  unfolding Simple.keys Simple.key_step after attention softmax_mean seen Simple.kv_end
  lane_value b h i lane t small inside =
      ap (λ a. over a (state.l)) (after-acc fl exact sh lane scores values n t small inside)
      ∙ ap (λ l. over (sum fl n (λ j. times (weight fl (scores j) state.m) (values j d))) l)
          (after-l fl exact sh lane scores values n)
      ∙ ap
          (λ m.
            over (sum fl n (λ j. times (weight fl (scores j) m) (values j d)))
              (sum fl n (λ j. weight fl (scores j) m)))
          (after-m fl exact sh lane scores values n)
      ∙ ap (λ f. softmax_mean fl n f (λ j. values j d)) (fun_ext (score-eq b h i))
      ∙ ap (softmax_mean fl n (scaled_score fl sh q k v b h i))
          (fun_ext λ j. ap v (cell-eq sh b h j d))
    where
      n : ℕ
      n = Simple.kv_end sh i

      d : ℕ
      d = lane + t * warp_size

      scores : ℕ → Float
      scores = Simple.score fl sh q k v (bh_base sh b h) i

      values : ℕ → ℕ → Float
      values j c = v (bh_base sh b h + j * sh.dim + c)

      state : Lane Float
      state = after fl sh lane scores values n

  launch-attention :
      (batches b h i d : ℕ) (o : ℕ → Float)
      → b < batches
      → h < sh.heads
      → i < sh.rows
      → d < sh.dim
      → Simple.launch fl sh q k v batches o (cell sh b h i d) ≡ attention fl sh q k v b h i d
  unfolding lane_result
  launch-attention = launch-table fl sh q k v (attention fl sh q k v) lane_value narrow

-- In exact arithmetic, and whatever the arrays and the shared memory hold: for sizes that are
-- positive, with at most 65535 batches and heads and 128 columns, and B * H * S * D + 4096 at most
-- 2^31, every cell of `O` that the tiled `solve` leaves is that of softmax(Q K^T / sqrt(D)) V, over
-- the keys that the query sees. Exact means that addition is associative and commutative with 0,
-- that multiplication distributes over it and its factors swap, and that exp(a - b) exp(b - c) is
-- exp(a - c).
pub solve-attention :
    (fl : Floats) (shared : (b h block : ℕ) → (ℕ → ℕ → fl.Float) × Tiles fl.Float)
    (undefined q k v o : ℕ → fl.Float) (sh : Shape) (batches b h i d : ℕ)
    → IsExact fl
    → IsSum fl.plus fl.zero_float
    → batches * sh.heads * sh.rows * sh.dim + 4096 ≤ 2 ^ 31
    → batches ≤ 65535
    → sh.heads ≤ 65535
    → sh.dim ≤ max_d
    → b < batches
    → h < sh.heads
    → i < sh.rows
    → d < sh.dim
    → Tiled.solve fl shared undefined q k v o
        (pos batches)
        (pos sh.heads)
        (pos sh.rows)
        (pos sh.dim)
        sh.causal
        (cell sh b h i d)
      ≡ attention fl sh q k v b h i d
unfolding Simple.solve
solve-attention fl shared undefined q k v o sh batches b h i d exact exact_sum fits few_batches
      few_heads narrow hb hh hi hd =
    ap (λ out. out (cell sh b h i d))
      (solve-eq fl shared undefined undefined q k v o (pos batches) (pos sh.heads) (pos sh.rows)
        (pos sh.dim) sh.causal fits)
    ∙ ap
        (λ c.
          (if c then o else rest (not (grid_accepted batches sh)) (Simple.ints_fit batches sh)) at)
        valid
    ∙ ap (λ c. rest c (Simple.ints_fit batches sh) at) accepted
    ∙ ap (λ c. rest false c at) in_range
    ∙ launch-attention fl sh q k v exact exact_sum narrow batches b h i d o hb hh hi hd
  where
    at : ℕ
    at = cell sh b h i d

    rest : Bool → Bool → ℕ → fl.Float
    rest refused fit =
        if refused then o else if fit then Simple.launch fl sh q k v batches o else undefined

    valid :
        (batches == 0 || sh.heads == 0 || sh.rows == 0 || sh.dim == 0 || ltb max_d sh.dim) ≡ false
    valid = ground arith

    accepted : not (grid_accepted batches sh) ≡ false
    accepted = unfold grid_accepted in ground (arith, few_batches, few_heads)

    in_range : Simple.ints_fit batches sh ≡ true
    in_range = unfold Simple.ints_fit in ground (arith, fits)

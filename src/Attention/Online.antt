-- ===== src/Attention/Online.antt =====
-- The running softmax of a lane, in exact arithmetic.
use insist.Base.{ℕ, zero, suc, ◌+◌, ◌*◌, ◌<◌, ◌≡◌, refl, ap, ◌∙◌, arith, ltb, ◌&&◌, if◌then◌else◌}
use insist.Base.Loops.{for_below}
use insist.Base.Arrays.{for_below-cell}
use insist.Floats.{Floats}
use insist.Attention.{warp_size, max_d_per_lane, Shape, Lane, start, absorb}

-- What exact arithmetic satisfies, and `float`s satisfy up to rounding.
pub record IsExact (fl : Floats) : Type 0 where
  pub spread : (a b c : fl.Float) → fl.times (fl.plus a b) c ≡ fl.plus (fl.times a c) (fl.times b c)
  pub annihilates : (c : fl.Float) → fl.times fl.zero_float c ≡ fl.zero_float
  pub swaps : (a b c : fl.Float) → fl.times (fl.times a b) c ≡ fl.times (fl.times a c) b
  pub exp_law :
      (a b c : fl.Float)
      → fl.times (fl.fast_expf (fl.minus a b)) (fl.fast_expf (fl.minus b c))
        ≡ fl.fast_expf (fl.minus a c)

module _ (fl : Floats) where
  open fl use {Float, zero_float, lowest_float, plus, minus, times, fmaxf, fast_expf}

  -- `f 0 + ... + f (n - 1)`
  unfoldable pub sum : ℕ → (ℕ → Float) → Float
  sum n f = for_below n (λ j a. plus a (f j)) zero_float

  -- The largest of the first `n`.
  unfoldable pub maximum : ℕ → (ℕ → Float) → Float
  maximum n f = for_below n (λ j a. fmaxf a (f j)) lowest_float

  -- The weight of a score against the maximum.
  unfoldable pub weight : Float → Float → Float
  weight score m = fast_expf (minus score m)

  -- The state of the lane after `n` keys.
  unfoldable pub after :
      (sh : Shape) (lane : ℕ) (score : ℕ → Float) (value : ℕ → ℕ → Float) (n : ℕ) → Lane Float
  after sh lane score value n = for_below n (λ j. absorb fl sh lane (score j) (value j)) (start fl)

  module _ (exact : IsExact fl) where
    -- A sum against a new base.
    rescale :
        (n : ℕ) (f g : ℕ → Float) (c : Float)
        → ((j : ℕ) → times (f j) c ≡ g j)
        → times (sum n f) c ≡ sum n g
    unfolding sum for_below
    rescale zero f g c e = exact.annihilates c
    rescale (suc n) f g c e =
        exact.spread (sum n f) (f n) c
        ∙ ap (λ a. plus a (times (f n) c)) (rescale n f g c e)
        ∙ ap (plus (sum n g)) (e n)

    module _ (sh : Shape) (lane : ℕ) (score : ℕ → Float) (value : ℕ → ℕ → Float) where
      pub after-m : (n : ℕ) → (after sh lane score value n).m ≡ maximum n score
      unfolding after maximum for_below absorb start
      after-m zero = refl
      after-m (suc n) = ap (λ m. fmaxf m (score n)) (after-m n)

      pub after-l :
          (n : ℕ)
          → (after sh lane score value n).l
            ≡ sum n (λ j. weight (score j) (after sh lane score value n).m)
      unfolding after for_below absorb start sum weight
      after-l zero = refl
      after-l (suc n) =
          ap
            (λ l.
              plus (times l (weight (after sh lane score value n).m m_new))
                (weight (score n) m_new))
            (after-l n)
          ∙ ap (λ l. plus l (weight (score n) m_new))
              (rescale n (λ j. weight (score j) (after sh lane score value n).m)
                (λ j. weight (score j) m_new) _
                (λ j. exact.exp_law (score j) (after sh lane score value n).m m_new))
        where
          m_new : Float
          m_new = fmaxf (after sh lane score value n).m (score n)

      -- The cell of `acc` that stands for the column `lane + t * 32`.
      pub after-acc :
          (n t : ℕ)
          → t < max_d_per_lane
          → lane + t * warp_size < sh.dim
          → (after sh lane score value n).acc t
            ≡ sum n (λ j.
              times
                (weight (score j) (after sh lane score value n).m)
                (value j (lane + t * warp_size)))
      unfolding after for_below absorb start sum weight
      after-acc zero t small inside = refl
      after-acc (suc n) t small inside =
          for_below-cell (λ k. k) max_d_per_lane (λ k. ltb (lane + k * warp_size) sh.dim) update
            (after sh lane score value n).acc t (λ i j e. e)
          ∙ reached
          ∙ ap (λ a. plus (times a old_scale) (times p (value n d))) (after-acc n t small inside)
          ∙ ap (λ a. plus a (times p (value n d)))
              (rescale n (λ j. times (weight (score j) (after sh lane score value n).m) (value j d))
                (λ j. times (weight (score j) m_new) (value j d)) old_scale
                (λ j.
                  exact.swaps _ _ _
                  ∙ ap (λ a. times a (value j d))
                      (exact.exp_law (score j) (after sh lane score value n).m m_new)))
        where
          d : ℕ
          d = lane + t * warp_size

          m_new : Float
          m_new = fmaxf (after sh lane score value n).m (score n)

          old_scale : Float
          old_scale = weight (after sh lane score value n).m m_new

          p : Float
          p = weight (score n) m_new

          update : ℕ → Float → Float
          update k a = plus (times a old_scale) (times p (value n (lane + k * warp_size)))

          reached :
              (if ltb t max_d_per_lane && ltb d sh.dim
                then update t ((after sh lane score value n).acc t)
                else (after sh lane score value n).acc t)
              ≡ update t ((after sh lane score value n).acc t)
          reached = ground arith

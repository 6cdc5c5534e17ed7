-- ===== src/Attention/Bounds.antt =====
-- What the kernels leave alone.
use insist.Base.{
  ℕ, ◌+◌, ◌*◌, ◌≤◌, ◌≡◌, refl, ap, ◌∙◌, arith, Bool, ltb, ◌==◌, ◌||◌, not, ◌^◌, if-cases, ℤ,
}
use insist.Base.Arrays.{write}
use insist.Floats.{Floats}
use insist.Attention.{grid_accepted, warp_size, max_d, Shape, size}
use insist.Attention.Simple
use insist.Attention.Tiled
use insist.Attention.Tiled.{Tiles}
use insist.Attention.Formula.{cell, cell-lt}
use insist.Attention.Places.{launch-keeps}
use insist.Attention.Equivalence.{solve-eq}

launch-outside :
    (fl : Floats) (sh : Shape) (q k v o : ℕ → fl.Float) (batches x : ℕ)
    → batches * sh.heads * sh.rows * sh.dim ≤ x
    → Simple.launch fl sh q k v batches o x ≡ o x
unfolding write
launch-outside fl sh q k v o batches x past =
    launch-keeps fl sh q k v (λ u. u x ≡ o x) batches
      (λ b h i lane t u hb hh hi ht inside p.
        if-cases (λ a. a ≡ o x) (x == cell sh b h i (lane + t * warp_size))
          (λ hit. absurd (
            ground
              (arith, hit, past, cell-lt sh batches b h i (lane + t * warp_size) hb hh hi inside)))
          (λ _. p))
      o refl

-- For all sizes, zero and negative ones too, as long as B * H * S * D + 4096 is at most 2^31, so that
-- no `int` overflows, and whatever the operations on floats do: the tiled `solve` writes nothing
-- behind the B * H * S * D cells of `O`.
pub solve-outside :
    (fl : Floats) (shared : (b h block : ℕ) → (ℕ → ℕ → fl.Float) × Tiles fl.Float)
    (undefined q k v o : ℕ → fl.Float) (b h s d : ℤ) (causal : Bool) (x : ℕ)
    → size b * size h * size s * size d + 4096 ≤ 2 ^ 31
    → size b * size h * size s * size d ≤ x
    → Tiled.solve fl shared undefined q k v o b h s d causal x ≡ o x
unfolding Simple.solve
solve-outside fl shared undefined q k v o b h s d causal x fits past =
    ap (λ out. out x) (solve-eq fl shared undefined undefined q k v o b h s d causal fits)
    ∙ if-cases Same (size b == 0 || size h == 0 || size s == 0 || size d == 0 || ltb max_d (size d))
        (λ _. refl)
        (λ _.
          if-cases Same (not (grid_accepted (size b) sh)) (λ _. refl)
            (λ _.
              if-cases Same (Simple.ints_fit (size b) sh)
                (λ _. launch-outside fl sh q k v o (size b) x past)
                (λ wide. absurd (unfold Simple.ints_fit in ground (arith, fits)))))
  where
    Same : (ℕ → fl.Float) → Type 0
    Same out = out x ≡ o x

    sh : Shape
    sh = record { heads = size h; rows = size s; dim = size d; causal = causal }

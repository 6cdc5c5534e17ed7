-- ===== src/Attention/Runs.antt =====
-- The theorems of attention at concrete arrays.
use insist.Base.{ℕ, ◌+◌, ◌*◌, ◌≡◌, refl, arith, true, pos}
use insist.Floats.Naturals.{naturals, naturals-plus}
use insist.Attention.{Shape}
use insist.Attention.Tiled.{Tiles}
use insist.Attention.Simple
use insist.Attention.Tiled
use insist.Attention.Online.{IsExact}
use insist.Attention.Formula.{cell, attention}
use insist.Attention.Equivalence.{solve-eq}
use insist.Attention.Exact.{solve-attention}
use insist.Attention.Bounds.{solve-outside}

-- What shared memory may hold at first.
abbrev garbage : (b h block : ℕ) → (ℕ → ℕ → ℕ) × Tiles ℕ
garbage b h block = (λ r d. r + d, record { keys = λ r d. 7; values = λ r d. block })

-- Two heads of three rows with five columns, causal.
solve-eq_example :
    Tiled.solve naturals garbage
      (λ i. 9)
      (λ i. i)
      (λ i. i + 1)
      (λ i. i * i)
      (λ i. 0)
      (pos 1)
      (pos 2)
      (pos 3)
      (pos 5)
      true
    ≡ Simple.solve naturals
        (λ i. 8)
        (λ i. i)
        (λ i. i + 1)
        (λ i. i * i)
        (λ i. 0)
        (pos 1)
        (pos 2)
        (pos 3)
        (pos 5)
        true
solve-eq_example =
    solve-eq naturals garbage (λ i. 9) (λ i. 8) (λ i. i) (λ i. i + 1) (λ i. i * i) (λ i. 0) (pos 1)
      (pos 2) (pos 3) (pos 5) true (omega arith)

naturals-IsExact : IsExact naturals
naturals-IsExact = record {
  spread = λ a b c. grind arith;
  annihilates = λ c. omega arith;
  swaps = λ a b c. grind arith;
  exp_law = λ a b c. refl;
}

abbrev sizes : Shape
sizes = record { heads = 2; rows = 3; dim = 5; causal = true }

-- The third row of the second head, its fourth column.
solve-attention_example :
    Tiled.solve naturals garbage
      (λ i. 9)
      (λ i. i)
      (λ i. i + 1)
      (λ i. i * i)
      (λ i. 0)
      (pos 1)
      (pos 2)
      (pos 3)
      (pos 5)
      true
      (cell sizes 0 1 2 3)
    ≡ attention naturals sizes (λ i. i) (λ i. i + 1) (λ i. i * i) 0 1 2 3
solve-attention_example =
    solve-attention naturals garbage (λ i. 9) (λ i. i) (λ i. i + 1) (λ i. i * i) (λ i. 0) sizes 1 0
      1 2 3 naturals-IsExact naturals-plus (omega arith) (omega arith) (omega arith) (omega arith)
      (omega arith) (omega arith) (omega arith) (omega arith)

solve-outside_example :
    Tiled.solve naturals garbage
      (λ i. 9)
      (λ i. i)
      (λ i. i + 1)
      (λ i. i * i)
      (λ i. i)
      (pos 1)
      (pos 2)
      (pos 3)
      (pos 5)
      true
      30
    ≡ 30
solve-outside_example =
    solve-outside naturals garbage (λ i. 9) (λ i. i) (λ i. i + 1) (λ i. i * i) (λ i. i) (pos 1)
      (pos 2) (pos 3) (pos 5) true 30 (omega arith) (omega arith)

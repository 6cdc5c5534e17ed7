-- ===== src/Attention/Formula.antt =====
-- Attention as it is defined: O[b][h][i] = sum_j softmax(Q K^T / sqrt(D))[i][j] V[j], for arrays of the shape
-- [B][H][S][D] in row order, where a causal query sees the keys up to its own.
use native.Mathlib.Nat.{mul-add-div_right, div-eq_of_lt}
use insist.Base.{ℕ, ◌+◌, ◌*◌, ◌/◌, ◌<◌, ◌≡◌, sym, ap, ◌∙◌, arith, if◌then◌else◌}
use insist.Floats.{Floats}
use insist.Attention.{Shape, bh_base}
use insist.Attention.Online.{sum, maximum, weight}

-- The index of [b][h][i][d].
unfoldable pub cell : Shape → (b h i d : ℕ) → ℕ
cell sh b h i d = ((b * sh.heads + h) * sh.rows + i) * sh.dim + d

pub cell-eq : (sh : Shape) (b h i d : ℕ) → bh_base sh b h + i * sh.dim + d ≡ cell sh b h i d
unfolding cell bh_base
cell-eq sh b h i d = grind arith

digits : (n a r a' r' : ℕ) → r < n → r' < n → a * n + r ≡ a' * n + r' → (a ≡ a') × (r ≡ r')
digits n a r a' r' h h' e = (quotient, grind (arith, quotient))
  where
    quotient_of : (a r : ℕ) → r < n → (a * n + r) / n ≡ a
    quotient_of a r h =
        mul-add-div_right {m = n} (omega (arith, h)) a r ∙ omega (arith, div-eq_of_lt h)

    quotient : a ≡ a'
    quotient = sym (quotient_of a r h) ∙ ap (λ (m : ℕ). m / n) e ∙ quotient_of a' r' h'

-- Different cells have different indices.
pub cell-apart :
    (sh : Shape) (b h i d b' h' i' d' : ℕ)
    → h < sh.heads
    → i < sh.rows
    → d < sh.dim
    → h' < sh.heads
    → i' < sh.rows
    → d' < sh.dim
    → cell sh b h i d ≡ cell sh b' h' i' d'
    → (b ≡ b') × (h ≡ h') × (i ≡ i') × (d ≡ d')
unfolding cell
cell-apart sh b h i d b' h' i' d' hh hi hd hh' hi' hd' e =
    let (e2, ed) =
      digits sh.dim ((b * sh.heads + h) * sh.rows + i) d ((b' * sh.heads + h') * sh.rows + i') d' hd
        hd' e in
    let (e1, ei) = digits sh.rows (b * sh.heads + h) i (b' * sh.heads + h') i' hi hi' e2 in
    let (eb, eh) = digits sh.heads b h b' h' hh hh' e1 in (eb, eh, ei, ed)

digit-lt : (n a m r : ℕ) → a < m → r < n → a * n + r < m * n
digit-lt n a m r h h' = grind arith

-- All of them lie in the array.
pub cell-lt :
    (sh : Shape) (batches b h i d : ℕ)
    → b < batches
    → h < sh.heads
    → i < sh.rows
    → d < sh.dim
    → cell sh b h i d < batches * sh.heads * sh.rows * sh.dim
unfolding cell
cell-lt sh batches b h i d hb hh hi hd =
    digit-lt sh.dim ((b * sh.heads + h) * sh.rows + i) (batches * sh.heads * sh.rows) d
      (digit-lt sh.rows (b * sh.heads + h) (batches * sh.heads) i
        (digit-lt sh.heads b batches h hb hh) hi)
      hd

module _ (fl : Floats) where
  open fl use {Float, times, over}

  -- `softmax(score) * value`, with the maximum as base.
  unfoldable pub softmax_mean : (n : ℕ) (score value : ℕ → Float) → Float
  softmax_mean n score value =
      let m = maximum fl n score in
      over (sum fl n (λ j. times (weight fl (score j) m) (value j)))
        (sum fl n (λ j. weight fl (score j) m))

module _ (fl : Floats) (sh : Shape) (q k v : ℕ → fl.Float) where
  open fl use {Float, times, rsqrt_of}

  -- The number of keys that the query `i` sees.
  unfoldable pub seen : ℕ → ℕ
  seen i = if sh.causal then i + 1 else sh.rows

  unfoldable pub scaled_score : (b h i j : ℕ) → Float
  scaled_score b h i j =
      times (sum fl sh.dim (λ d. times (q (cell sh b h i d)) (k (cell sh b h j d))))
        (rsqrt_of sh.dim)

  unfoldable pub attention : (b h i d : ℕ) → Float
  attention b h i d = softmax_mean fl (seen i) (scaled_score b h i) (λ j. v (cell sh b h j d))

-- ===== src/Softmax/Block.antt =====
-- What the threads of a block bring together, with any operation.
use native.Mathlib.Nat.{pow-suc, one-le-pow}
use insist.Base.{ℕ, zero, suc, ◌+◌, ◌*◌, ◌/◌, ◌^◌, ◌<◌, ◌≡◌, refl, sym, ap, subst, ◌∙◌, arith}
use insist.Base.Loops.{for_strided}
use insist.Floats.Collects.{Collects, nothing, recount, once_below, for_strided-Collects}
use insist.Floats.Strides.{meets, for_strided-meets, all_meets, all_meets-once}
use insist.Floats.Trees.{tree_loop, total, Rest, tree_loop-Rest}

total-meets :
    (n bound step j : ℕ) → total n (λ i k. meets i bound step k) j ≡ all_meets n bound step j
unfolding total all_meets
total-meets zero bound step j = refl
total-meets (suc n) bound step j =
    ap (λ (t : ℕ). t + meets n bound step j) (total-meets n bound step j)

lt-pow : (e : ℕ) → e < 2 ^ suc e
lt-pow zero = omega arith
lt-pow (suc e) = omega (arith, lt-pow e, pow-suc 2 (suc e))

module _ {A : Type 0} (op : A → A → A) (unit : A) (x : ℕ → A) where
  -- A thread collects the elements that its loop takes.
  thread-Collects :
      (tid cols step : ℕ)
      → 0 < step
      → Collects op unit x
          (λ k. meets tid cols step k)
          (for_strided cols tid cols step (λ c a. op a (x c)) unit)
  thread-Collects tid cols step pos =
      recount op unit x _ _ _
        (λ k. for_strided-meets cols tid cols step (λ j. 0) k (omega arith) pos ∙ omega arith)
        (for_strided-Collects op unit x cols tid cols step (λ j. 0) unit nothing)

  -- Shared memory, when every thread has stored what it collected.
  Stored : (cols step : ℕ) → (ℕ → A) → Type 0
  Stored cols step smem =
      (tid : ℕ) → tid < step → smem tid ≡ for_strided cols tid cols step (λ c a. op a (x c)) unit

  threads-Rest :
      (cols step : ℕ) (smem : ℕ → A)
      → 0 < step
      → Stored cols step smem
      → Rest op unit x step (once_below cols) smem
  unfolding Stored
  threads-Rest cols step smem pos stored = (
    λ i k. meets i cols step k,
    λ i h.
        subst (Collects op unit x (λ k. meets i cols step k)) (sym (stored i h))
          (thread-Collects i cols step pos),
    λ j. total-meets step cols step j ∙ all_meets-once step cols j pos,
  )

  first_cell :
      (count : ℕ → ℕ) (m : ℕ → A) → Rest op unit x 1 count m → Collects op unit x count (m 0)
  unfolding total
  first_cell count m (c, all, sum) =
      recount op unit x (c 0) count (m 0) (λ j. omega (arith, sum j)) (all 0 (omega arith))

  -- The loop over strides, for a block of `2 ^ e` threads.
  pub block-Collects :
      (e cols : ℕ) (smem : ℕ → A)
      → ((tid : ℕ)
          → tid < 2 ^ e
          → smem tid ≡ for_strided cols tid cols (2 ^ e) (λ c a. op a (x c)) unit)
      → Collects op unit x (once_below cols) (tree_loop op (2 ^ e) 0 (2 ^ e / 2) smem 0)
  unfolding tree_loop Stored
  block-Collects zero cols smem stored =
      first_cell (once_below cols) smem (threads-Rest cols 1 smem (omega arith) stored)
  block-Collects (suc e) cols smem stored =
      first_cell (once_below cols) (tree_loop op (2 ^ suc e) 0 (2 ^ suc e / 2) smem) (
        subst
          (λ (stride : ℕ).
            Rest op unit x 1 (once_below cols) (tree_loop op (2 ^ suc e) 0 stride smem))
          half
          (tree_loop-Rest op unit x e (2 ^ suc e) 1 0 (once_below cols) smem (lt-pow e)
            (omega arith) (omega arith)
            (subst (λ (n : ℕ). Rest op unit x n (once_below cols) smem) double
              (threads-Rest cols (2 ^ suc e) smem (one-le-pow (suc e) 2 (omega arith)) stored))))
    where
      double : 2 ^ suc e ≡ 2 ^ e * 1 + 2 ^ e * 1
      double = omega (arith, pow-suc 2 e)

      half : 2 ^ e * 1 ≡ 2 ^ suc e / 2
      half = omega (arith, pow-suc 2 e)

-- ===== src/Base/Arrays.antt =====
-- Memory as a function from indices, and writes to it.
use Prim.Native.Nat.{ℕ, zero, suc, ◌<◌}
use mathlib.Core.Bool.{Bool, ◌&&◌}
use mathlib.Core.Path.{◌≡◌, sym, ap, subst, ◌∙◌}
use native.Mathlib.Decide.{ℕ_discrete}
use native.Mathlib.Omega.{arith}
use insist.Base.Loops.{for_below, for_below-reaches}
use insist.Base.Tests.{◌==◌, ltb, if◌then◌else◌, if-cases}

module _ {ℓ} {A : Type ℓ} where
  -- `a[i] = v`
  unfoldable pub write : ℕ → A → (ℕ → A) → ℕ → A
  write i v a j = if j == i then v else a j

  -- `a[r][c] = v`
  unfoldable pub write_at : ℕ → ℕ → A → (ℕ → ℕ → A) → ℕ → ℕ → A
  write_at r c v a i j = if i == r && j == c then v else a i j

  pub write_at_self : (r c : ℕ) (x : A) (a : ℕ → ℕ → A) → write_at r c x a r c ≡ x
  unfolding write_at
  write_at_self r c x a = ground arith

  -- A write that follows a table keeps every cell that follows it.
  pub write_at_keeps :
      (table : ℕ → ℕ → A) (r c i j : ℕ) (a : ℕ → ℕ → A)
      → a i j ≡ table i j
      → write_at r c (table r c) a i j ≡ table i j
  unfolding write_at
  write_at_keeps table r c i j a e =
      if-cases (λ x. x ≡ table i j) (i == r && j == c)
        (λ hit. same (ground (arith, hit)) (ground (arith, hit))) (λ _. e)
    where
      same : r ≡ i → c ≡ j → table r c ≡ table i j
      same p q = ap (λ x. table x c) p ∙ ap (table i) q

  -- A loop that writes every cell below `n`.
  pub for_below-write :
      (n k : ℕ) (value : ℕ → A) (a : ℕ → A)
      → k < n
      → for_below n (λ i. write i (value i)) a k ≡ value k
  unfolding write
  for_below-write n k value a h =
      for_below-reaches (λ t. t k ≡ value k) k n (λ i. write i (value i)) a h
        (λ i t _ same.
          if-cases (λ v. v ≡ value k) (k == i) (λ hit. ap value (ground (arith, hit))) (λ _. same))
        (λ t. ground arith)

  -- A loop that updates different cells, those that pass a test.
  pub for_below-cell :
      (at : ℕ → ℕ) (n : ℕ) (c : ℕ → Bool) (g : ℕ → A → A) (y : ℕ → A) (k : ℕ)
      → ((i j : ℕ) → at i ≡ at j → i ≡ j)
      → for_below n (λ j out. if c j then write (at j) (g j (out (at j))) out else out) y (at k)
        ≡ (if ltb k n && c k then g k (y (at k)) else y (at k))
  unfolding for_below write
  for_below-cell at zero c g y k apart = ground arith
  for_below-cell at (suc n) c g y k apart = elim (ℕ_discrete k n) [
    | yes hit ↦
        subst (λ j. step (at j) ≡ (if ltb j (suc n) && c j then g j (y (at j)) else y (at j)))
          (sym hit)
          (written
            ∙ ap (λ a. if c n then g n a else a) (for_below-cell at n c g y n apart ∙ untouched)
            ∙ sym here)
    | no away ↦
        other (λ e. away (apart k n e))
        ∙ for_below-cell at n c g y k apart
        ∙ same (omega (arith, away))
  ]
    where
      before : ℕ → A
      before = for_below n (λ j out. if c j then write (at j) (g j (out (at j))) out else out) y

      step : ℕ → A
      step = if c n then write (at n) (g n (before (at n))) before else before

      written : step (at n) ≡ (if c n then g n (before (at n)) else before (at n))
      written = ground arith

      untouched : (if ltb n n && c n then g n (y (at n)) else y (at n)) ≡ y (at n)
      untouched = ground arith

      here :
          (if ltb n (suc n) && c n then g n (y (at n)) else y (at n))
          ≡ (if c n then g n (y (at n)) else y (at n))
      here = ground arith

      other : ¬ (at k ≡ at n) → step (at k) ≡ before (at k)
      other h = ground (arith, h)

      same :
          ¬ (k ≡ n)
          → (if ltb k n && c k then g k (y (at k)) else y (at k))
            ≡ (if ltb k (suc n) && c k then g k (y (at k)) else y (at k))
      same h = ground (arith, h)

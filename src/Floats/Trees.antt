-- ===== src/Floats/Trees.antt =====
-- Reduction of shared memory by halves.
use native.Mathlib.Nat.{pow-suc, one-le-pow}
use insist.Base.{
  ℕ, zero, suc, ◌+◌, ◌*◌, ◌/◌, ◌^◌, ◌≤◌, ◌<◌, ◌≡◌, sym, ap, subst, ◌∙◌, arith, false, ltb,
  if◌then◌else◌, if-cases,
}
use insist.Floats.Collects.{Collects, both}

module _ {A : Type 0} (op : A → A → A) where
  -- `if (tid < active) smem[tid] op= smem[tid + stride]` in all threads at once.
  unfoldable pub tree_step : (active stride : ℕ) → (ℕ → A) → ℕ → A
  tree_step active stride smem tid =
      if ltb tid active then op (smem tid) (smem (tid + stride)) else smem tid

  -- `for (; stride > floor; stride >>= 1)`, with a barrier after each round.
  unfoldable pub tree_loop : (fuel floor stride : ℕ) → (ℕ → A) → ℕ → A
  tree_loop zero floor stride smem = smem
  tree_loop (suc fuel) floor stride smem =
      let rest = tree_loop fuel floor (stride / 2) (tree_step stride stride smem) in
      if ltb floor stride then rest else smem

-- How often an element occurs in the first `n` cells.
unfoldable pub total : ℕ → (ℕ → ℕ → ℕ) → ℕ → ℕ
total zero c j = 0
total (suc n) c j = total n c j + c n j

total-fold :
    (n s : ℕ) (c : ℕ → ℕ → ℕ) (j : ℕ)
    → total n (λ i k. c i k + c (i + s) k) j ≡ total n c j + total n (λ i. c (i + s)) j
unfolding total
total-fold zero s c j = omega arith
total-fold (suc n) s c j = omega (arith, total-fold n s c j)

total-add :
    (n m : ℕ) (c : ℕ → ℕ → ℕ) (j : ℕ) → total (n + m) c j ≡ total n c j + total m (λ i. c (i + n)) j
unfolding total
total-add n zero c j = ap (λ (i : ℕ). total i c j) same ∙ omega arith
  where
    same : n + 0 ≡ n
    same = omega arith
total-add n (suc m) c j =
    ap (λ (i : ℕ). total i c j) one_more
    ∙ omega (arith, total-add n m c j, ap (λ (i : ℕ). c i j) swap)
  where
    one_more : n + suc m ≡ suc (n + m)
    one_more = omega arith

    swap : n + m ≡ m + n
    swap = omega arith

module _ {A : Type 0} (op : A → A → A) (unit : A) (x : ℕ → A) where
  -- The first `n` cells combine the elements as often as the counts of the cells say.
  abbrev pub Holds : ℕ → (ℕ → ℕ → ℕ) → (ℕ → A) → Type 0
  Holds n c m = (i : ℕ) → i < n → Collects op unit x (c i) (m i)

  pub tree_step-Holds :
      (active s : ℕ) (c : ℕ → ℕ → ℕ) (m : ℕ → A)
      → s ≤ active
      → Holds (s + s) c m
      → Holds s (λ i k. c i k + c (i + s) k) (tree_step op active s m)
  unfolding tree_step
  tree_step-Holds active s c m h all i below =
      if-cases (Collects op unit x (λ k. c i k + c (i + s) k)) (ltb i active)
        (λ _. both (all i (omega arith)) (all (i + s) (omega arith)))
        (λ out. absurd (ground (arith, out)))

  -- What the whole cells below `n` collect, in some way, for the counts `c`.
  abbrev pub Rest : (n : ℕ) → (ℕ → ℕ) → (ℕ → A) → Type 0
  Rest n count m = (c : ℕ → ℕ → ℕ) × Holds n c m × ((j : ℕ) → total n c j ≡ count j)

  pub tree_step-Rest :
      (active s : ℕ) (count : ℕ → ℕ) (m : ℕ → A)
      → s ≤ active
      → Rest (s + s) count m
      → Rest s count (tree_step op active s m)
  tree_step-Rest active s count m h (c, all, sum) = (
    λ i k. c i k + c (i + s) k,
    tree_step-Holds active s c m h all,
    λ j. total-fold s s c j ∙ sym (total-add s s c j) ∙ sum j,
  )

  -- The loop from a stride `2 ^ e * g` ends with the cells below `g`.
  pub tree_loop-Rest :
      (e fuel g floor : ℕ) (count : ℕ → ℕ) (m : ℕ → A)
      → e < fuel
      → floor < g
      → g / 2 ≤ floor
      → Rest (2 ^ e * g + 2 ^ e * g) count m
      → Rest g count (tree_loop op fuel floor (2 ^ e * g) m)
  unfolding tree_loop
  tree_loop-Rest e zero g floor count m h above below r = absurd (omega arith)
  tree_loop-Rest zero (suc fuel) g floor count m h above below r =
      subst (λ (stride : ℕ). Rest g count (tree_loop op (suc fuel) floor stride m)) one
        (if-cases (Rest g count) (ltb floor g)
          (λ _. stopped fuel (tree_step op g g m) (
            tree_step-Rest g g count m (omega arith)
              (subst (λ (n : ℕ). Rest (n + n) count m) (sym one) r)))
          (λ out. absurd (ground (arith, out))))
    where
      one : g ≡ 2 ^ 0 * g
      one = omega arith

      stopped :
          (fuel : ℕ) (t : ℕ → A) → Rest g count t → Rest g count (tree_loop op fuel floor (g / 2) t)
      stopped zero t p = p
      stopped (suc fuel) t p =
          if-cases (Rest g count) (ltb floor (g / 2)) (λ more. absurd (ground (arith, more)))
            (λ _. p)
  tree_loop-Rest (suc e) (suc fuel) g floor count m h above below r =
      if-cases (Rest g count) (ltb floor (2 ^ suc e * g))
        (λ _.
          subst
            (λ (stride : ℕ).
              Rest g count
                (tree_loop op fuel floor stride (tree_step op (2 ^ suc e * g) (2 ^ suc e * g) m)))
            half
            (tree_loop-Rest e fuel g floor count _ (omega arith) above below (
              subst (λ (n : ℕ). Rest n count (tree_step op (2 ^ suc e * g) (2 ^ suc e * g) m))
                double (tree_step-Rest (2 ^ suc e * g) (2 ^ suc e * g) count m (omega arith) r))))
        (λ out. absurd (too_small out))
    where
      spread : (t : ℕ) → t * 2 * g ≡ t * g + t * g
      spread t = grind arith

      double : 2 ^ suc e * g ≡ 2 ^ e * g + 2 ^ e * g
      double = ap (λ (t : ℕ). t * g) (pow-suc 2 e) ∙ spread (2 ^ e)

      half : 2 ^ e * g ≡ 2 ^ suc e * g / 2
      half = omega (arith, double)

      positive : (t : ℕ) → 1 ≤ t → g ≤ t * g
      positive t p = grind arith

      too_small : ltb floor (2 ^ suc e * g) ≡ false → ⊥
      too_small out = ground (arith, out, positive (2 ^ suc e) (one-le-pow (suc e) 2 (omega arith)))

-- ===== src/Floats/Strides.antt =====
-- The threads of a block with the stride of the block: together they take each index once.
use native.Mathlib.Nat.{mod-lt, mod-eq_of_lt, add-mod_right, div-add-mod', mul-le-mul_right}
use native.Mathlib.Decide.{dec_lt}
use insist.Base.{
  ℕ, zero, suc, ◌+◌, ◌/◌, ◌%◌, ◌≤◌, ◌<◌, ◌≡◌, refl, sym, ap, ◌∙◌, arith, Bool, true, false, ltb,
  leb, ◌==◌, ◌&&◌, if◌then◌else◌, if-cases, ltb→lt, Bool-cases, inl, inr, ◌≢◌,
}
use insist.Base.Arrays.{write}
use insist.Base.Loops.{for_below, for_strided}
use insist.Floats.Collects.{only, once_below}

-- Whether the loop from `i` meets `k`.
abbrev pub meets : (i bound step k : ℕ) → ℕ
meets i bound step k = if leb i k && ltb k bound && k % step == i % step then 1 else 0

-- Two indices of the same remainder lie a stride apart.
apart : (i k step : ℕ) → k % step ≡ i % step → i < k → i + step ≤ k
apart i k step same h = elim (dec_lt (i / step) (k / step)) [
  | yes less ↦ grind (arith, div-add-mod' i step, div-add-mod' k step, mul-le-mul_right step less)
  | no more ↦ absurd (
      grind
        (arith, div-add-mod' i step, div-add-mod' k step, mul-le-mul_right step (not_less more)))
]
  where
    not_less : ¬ (i / step < k / step) → k / step ≤ i / step
    not_less m = omega arith

-- The loop meets its first index, and later on the indices of the same remainder.
meets-next :
    (i bound step k : ℕ)
    → 0 < step
    → i < bound
    → meets i bound step k ≡ only i k + meets (i + step) bound step k
meets-next i bound step k pos h = ground (arith, add-mod_right i step, apart i k step)

meets_none : (i bound step k : ℕ) → bound ≤ i → meets i bound step k ≡ 0
meets_none i bound step k h = ground arith

-- How often a strided loop takes each index.
pub for_strided-meets :
    (fuel i bound step : ℕ) (c : ℕ → ℕ) (k : ℕ)
    → bound ≤ i + fuel
    → 0 < step
    → for_strided fuel i bound step (λ j (e : ℕ → ℕ) l. e l + only j l) c k
      ≡ c k + meets i bound step k
unfolding for_strided
for_strided-meets zero i bound step c k enough pos =
    omega (arith, meets_none i bound step k (omega arith))
for_strided-meets (suc fuel) i bound step c k enough pos =
    if-cases (λ (e : ℕ → ℕ). e k ≡ c k + meets i bound step k) (ltb i bound)
      (λ more. omega (
        arith,
        for_strided-meets fuel (i + step) bound step (λ l. c l + only i l) k (omega arith) pos,
        meets-next i bound step k pos (ltb→lt i bound more),
      ))
      (λ out. omega (arith, meets_none i bound step k (ground (arith, out))))

-- The sum over the threads below `n`.
unfoldable pub all_meets : (n bound step k : ℕ) → ℕ
all_meets zero bound step k = 0
all_meets (suc n) bound step k = all_meets n bound step k + meets n bound step k

all_meets-below :
    (n bound step k : ℕ)
    → n ≤ step
    → all_meets n bound step k ≡ (if ltb k bound && ltb (k % step) n then 1 else 0)
unfolding all_meets
all_meets-below zero bound step k h = ground arith
all_meets-below (suc n) bound step k h =
    ground (arith, all_meets-below n bound step k, mod-eq_of_lt h, mod_le k step)
  where
    mod_le : (a b : ℕ) → a % b ≤ a
    mod_le a b = omega (arith, div-add-mod' a b)

-- All threads together take each index below the bound once.
pub all_meets-once :
    (step bound k : ℕ) → 0 < step → all_meets step bound step k ≡ once_below bound k
all_meets-once step bound k pos = ground (arith, all_meets-below step bound step k, mod-lt k pos)

iterate : {A : Type 0} → ℕ → (A → A) → A → A
iterate zero g a = a
iterate (suc n) g a = iterate n g (g a)

iterate_next :
    {A : Type 0} (i k n : ℕ) (g : A → A) (a b : A)
    → (i ≡ k → b ≡ g a)
    → (i ≢ k → b ≡ a)
    → iterate n g b ≡ iterate (only i k + n) g a
unfolding iterate
iterate_next i k n g a b hit miss = elim (Bool-cases (i == k)) [
  | inl e ↦
      ap (iterate n g) (hit (ground (arith, e)))
      ∙ ap (λ (t : ℕ). iterate t g a) {x = suc n} {y = only i k + n} (ground (arith, e))
  | inr e ↦
      ap (iterate n g) (miss (ground (arith, e)))
      ∙ ap (λ (t : ℕ). iterate t g a) {x = n} {y = only i k + n} (ground (arith, e))
]

iterate-add :
    {A : Type 0} (n m : ℕ) (g : A → A) (a : A) → iterate m g (iterate n g a) ≡ iterate (n + m) g a
unfolding iterate
iterate-add zero m g a = ap (λ (t : ℕ). iterate t g a) {x = m} {y = 0 + m} (omega arith)
iterate-add (suc n) m g a =
    iterate-add n m g (g a)
    ∙ ap (λ (t : ℕ). iterate t g a) {x = suc (n + m)} {y = suc n + m} (omega arith)

-- Loops that change the cell of their index only.
module _ {A : Type 0} (base : ℕ) (g : ℕ → A → A) where
  abbrev pub on_cell : ℕ → (ℕ → A) → ℕ → A
  on_cell j out = write (base + j) (g j (out (base + j))) out

  for_strided-cell :
      (fuel i bound step : ℕ) (y : ℕ → A) (k : ℕ)
      → bound ≤ i + fuel
      → 0 < step
      → for_strided fuel i bound step on_cell y (base + k)
        ≡ iterate (meets i bound step k) (g k) (y (base + k))
  unfolding for_strided iterate
  for_strided-cell zero i bound step y k enough pos =
      ap (λ (n : ℕ). iterate n (g k) (y (base + k))) {x = 0}
        (sym (meets_none i bound step k (omega arith)))
  for_strided-cell (suc fuel) i bound step y k enough pos =
      if-cases (λ (e : ℕ → A). e (base + k) ≡ iterate (meets i bound step k) (g k) (y (base + k)))
        (ltb i bound)
        (λ more.
          for_strided-cell fuel (i + step) bound step (on_cell i y) k (omega arith) pos
          ∙ iterate_next i k (meets (i + step) bound step k) (g k) (y (base + k)) _ hit miss
          ∙ ap (λ (n : ℕ). iterate n (g k) (y (base + k)))
              (sym (meets-next i bound step k pos (ltb→lt i bound more))))
        (λ out.
          ap (λ (n : ℕ). iterate n (g k) (y (base + k))) {x = 0}
            (sym (meets_none i bound step k (ground (arith, out)))))
    where
      hit : i ≡ k → on_cell i y (base + k) ≡ g k (y (base + k))
      hit e = ap (λ j. on_cell j y (base + k)) e ∙ unfold write in ground arith

      miss : i ≢ k → on_cell i y (base + k) ≡ y (base + k)
      miss e = unfold write in ground arith

  threads-cell :
      (n bound step : ℕ) (y : ℕ → A) (k : ℕ)
      → 0 < step
      → for_below n (λ tid. for_strided bound tid bound step on_cell) y (base + k)
        ≡ iterate (all_meets n bound step k) (g k) (y (base + k))
  unfolding for_below all_meets
  threads-cell zero bound step y k pos = unfold iterate in refl
  threads-cell (suc n) bound step y k pos =
      for_strided-cell bound n bound step _ k (omega arith) pos
      ∙ ap (iterate (meets n bound step k) (g k)) (threads-cell n bound step y k pos)
      ∙ iterate-add (all_meets n bound step k) (meets n bound step k) (g k) (y (base + k))

  -- All threads together change each cell below the bound once, and none behind it.
  pub threads-on_cell :
      (bound step : ℕ) (y : ℕ → A) (k : ℕ)
      → 0 < step
      → for_below step (λ tid. for_strided bound tid bound step on_cell) y (base + k)
        ≡ (if ltb k bound then g k (y (base + k)) else y (base + k))
  unfolding iterate
  threads-on_cell bound step y k pos =
      threads-cell step bound step y k pos
      ∙ ap (λ (n : ℕ). iterate n (g k) (y (base + k))) (all_meets-once step bound k pos)
      ∙ once (ltb k bound)
    where
      once :
          (t : Bool)
          → iterate (if t then 1 else 0) (g k) (y (base + k))
            ≡ (if t then g k (y (base + k)) else y (base + k))
      once true = refl
      once false = refl

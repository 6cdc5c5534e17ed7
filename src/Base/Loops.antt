-- ===== src/Base/Loops.antt =====
-- Counted loops, and loops with a stride.
use Prim.Native.Nat.{ℕ, zero, suc, ◌+◌, ◌-◌, ◌*◌, ◌≤◌, ◌<◌}
use mathlib.Core.Path.{◌≡◌, refl, sym, ap, subst, ◌∙◌}
use mathlib.Core.Bool.{Bool, true, false}
use mathlib.Core.Logic.{◌⊎◌, inl, inr}
use native.Mathlib.Omega.{arith}
use native.Mathlib.Decide.{dec_lt}
use insist.Base.Tests.{ltb, ltb→lt, if◌then◌else◌, if-cases}

lt_suc-cases : (a b : ℕ) → a < suc b → (a ≡ b) ⊎ (a < b)
lt_suc-cases a b p = elim (dec_lt a b) [ yes h ↦ inr h | no h ↦ inl (omega arith) ]

module _ {ℓ} {S : Type ℓ} where
  -- `for (i = 0; i < n; ++i) s = body(i, s)`
  unfoldable pub for_below : ℕ → (ℕ → S → S) → S → S
  for_below zero body s = s
  for_below (suc n) body s = body n (for_below n body s)

  -- `for (i = start; i < bound; i += step) s = body(i, s)`, with fuel for the rounds.
  unfoldable pub for_strided : (fuel start bound step : ℕ) → (ℕ → S → S) → S → S
  for_strided zero i bound step body s = s
  for_strided (suc fuel) i bound step body s =
      let rest = for_strided fuel (i + step) bound step body (body i s) in
      if ltb i bound then rest else s

  pub for_below-eq :
      (n : ℕ) (f g : ℕ → S → S) (s : S)
      → ((i : ℕ) (t : S) → i < n → f i t ≡ g i t)
      → for_below n f s ≡ for_below n g s
  unfolding for_below
  for_below-eq zero f g s e = refl
  for_below-eq (suc n) f g s e =
      ap (f n) (for_below-eq n f g s (λ i t h. e i t (omega arith))) ∙ e n _ (omega arith)

  pub for_below-add :
      (n k : ℕ) (f : ℕ → S → S) (s : S)
      → for_below (n + k) f s ≡ for_below k (λ j. f (n + j)) (for_below n f s)
  unfolding for_below
  for_below-add n zero f s = ap (λ (i : ℕ). for_below i f s) (omega arith)
  for_below-add n (suc k) f s =
      ap (λ (i : ℕ). for_below i f s) step ∙ ap (f (n + k)) (for_below-add n k f s)
    where
      step : n + suc k ≡ suc (n + k)
      step = omega arith

  -- Rounds that do nothing.
  pub for_below_idle :
      (n : ℕ) (f : ℕ → S → S) (s : S) → ((i : ℕ) (t : S) → f i t ≡ t) → for_below n f s ≡ s
  unfolding for_below
  for_below_idle zero f s idle = refl
  for_below_idle (suc n) f s idle = idle n _ ∙ for_below_idle n f s idle

  -- They can be left out at the end.
  pub for_below-idle :
      (n k : ℕ) (f : ℕ → S → S) (s : S)
      → n ≤ k
      → ((i : ℕ) (t : S) → n ≤ i → f i t ≡ t)
      → for_below k f s ≡ for_below n f s
  for_below-idle n k f s h idle =
      ap (λ (i : ℕ). for_below i f s) split
      ∙ for_below-add n (k - n) f s
      ∙ for_below_idle (k - n) (λ j. f (n + j)) _ (λ i t. idle (n + i) t (omega arith))
    where
      split : k ≡ n + (k - n)
      split = omega arith

  -- A loop over tiles of `m` rounds.
  pub for_below-mul :
      (n m : ℕ) (f : ℕ → S → S) (s : S)
      → for_below n (λ i. for_below m (λ j. f (i * m + j))) s ≡ for_below (n * m) f s
  unfolding for_below
  for_below-mul zero m f s = ap (λ (i : ℕ). for_below i f s) none
    where
      none : 0 ≡ 0 * m
      none = omega arith
  for_below-mul (suc n) m f s =
      ap (for_below m (λ j. f (n * m + j))) (for_below-mul n m f s)
      ∙ sym (for_below-add (n * m) m f s)
      ∙ ap (λ (i : ℕ). for_below i f s) one_more
    where
      one_more : n * m + m ≡ suc n * m
      one_more = grind arith

  pub for_below-keeps {κ} :
      (P : S → Type κ) (n : ℕ) (f : ℕ → S → S) (s : S)
      → ((i : ℕ) (t : S) → i < n → P t → P (f i t))
      → P s
      → P (for_below n f s)
  unfolding for_below
  for_below-keeps P zero f s keep p = p
  for_below-keeps P (suc n) f s keep p =
      keep n _ (omega arith) (for_below-keeps P n f s (λ i t h. keep i t (omega arith)) p)

  -- What one round brings about and every round keeps, holds at the end.
  pub for_below-reaches {κ} :
      (P : S → Type κ) (x n : ℕ) (f : ℕ → S → S) (s : S)
      → x < n
      → ((i : ℕ) (t : S) → i < n → P t → P (f i t))
      → ((t : S) → P (f x t))
      → P (for_below n f s)
  unfolding for_below
  for_below-reaches P x zero f s h keep reach = absurd (omega arith)
  for_below-reaches P x (suc n) f s h keep reach = elim (lt_suc-cases x n h) [
    | inl e ↦ subst (λ i. P (f i (for_below n f s))) e (reach _)
    | inr l ↦
        keep n _ (omega arith)
          (for_below-reaches P x n f s l (λ i t h. keep i t (omega arith)) reach)
  ]

  pub for_strided-keeps {κ} :
      (P : S → Type κ) (fuel i bound step : ℕ) (f : ℕ → S → S) (s : S)
      → ((j : ℕ) (t : S) → P t → P (f j t))
      → P s
      → P (for_strided fuel i bound step f s)
  unfolding for_strided
  for_strided-keeps P zero i bound step f s keep p = p
  for_strided-keeps P (suc fuel) i bound step f s keep p =
      if-cases P (ltb i bound)
        (λ _. for_strided-keeps P fuel (i + step) bound step f (f i s) keep (keep i s p)) (λ _. p)

  -- The same for a strided loop, that visits `i + k * step`.
  pub for_strided-reaches {κ} :
      (P : S → Type κ) (k fuel i bound step : ℕ) (f : ℕ → S → S) (s : S)
      → k < fuel
      → i + k * step < bound
      → ((j : ℕ) (t : S) → P t → P (f j t))
      → ((t : S) → P (f (i + k * step) t))
      → P (for_strided fuel i bound step f s)
  unfolding for_strided
  for_strided-reaches P k zero i bound step f s h inside keep reach = absurd (omega arith)
  for_strided-reaches P zero (suc fuel) i bound step f s h inside keep reach =
      if-cases P (ltb i bound)
        (λ _.
          for_strided-keeps P fuel _ bound step f _ keep
            (subst (λ j. P (f j s)) (omega arith) (reach s)))
        (λ out. absurd (ground (arith, out)))
  for_strided-reaches P (suc k) (suc fuel) i bound step f s h inside keep reach =
      if-cases P (ltb i bound)
        (λ _.
          for_strided-reaches P k fuel (i + step) bound step f (f i s) (omega arith) (grind arith)
            keep (λ t. subst (λ j. P (f j t)) (grind arith) (reach t)))
        (λ out. absurd (beyond out))
    where
      beyond : ltb i bound ≡ false → ⊥
      beyond out = grind (arith, no)

  -- The invariant rule: with fuel enough the loop ends at an index that is not below the bound.
  pub for_strided-inv {κ} :
      (P : ℕ → S → Type κ) (fuel i bound step : ℕ) (f : ℕ → S → S) (s : S)
      → bound ≤ i + fuel
      → 0 < step
      → ((j : ℕ) (t : S) → j < bound → P j t → P (j + step) (f j t))
      → P i s
      → (j : ℕ) × (bound ≤ j) × P j (for_strided fuel i bound step f s)
  unfolding for_strided
  for_strided-inv P zero i bound step f s enough pos keep p = (i, omega arith, p)
  for_strided-inv P (suc fuel) i bound step f s enough pos keep p =
      if-cases (λ t. (j : ℕ) × (bound ≤ j) × P j t) (ltb i bound)
        (λ more.
          for_strided-inv P fuel (i + step) bound step f (f i s) (omega arith) pos keep
            (keep i s (ltb→lt i bound more) p))
        (λ out. (i, ground (arith, out), p))

-- A loop over two variables that do not meet is a loop over each.
module _ {ℓ κ} {S : Type ℓ} {T : Type κ} (f : ℕ → S → S) (g : ℕ → T → T) where
  pub for_below-both :
      (n : ℕ) (s : S) (t : T)
      → for_below n (λ j (p : S × T). (f j p.0, g j p.1)) (s, t)
        ≡ (for_below n f s, for_below n g t)
  unfolding for_below
  for_below-both zero s t = refl
  for_below-both (suc n) s t = ap (λ (p : S × T). (f n p.0, g n p.1)) (for_below-both n s t)

  pub for_strided-both :
      (fuel i bound step : ℕ) (s : S) (t : T)
      → for_strided fuel i bound step (λ j (p : S × T). (f j p.0, g j p.1)) (s, t)
        ≡ (for_strided fuel i bound step f s, for_strided fuel i bound step g t)
  unfolding for_strided
  for_strided-both zero i bound step s t = refl
  for_strided-both (suc fuel) i bound step s t =
      choose (ltb i bound) (for_strided-both fuel (i + step) bound step (f i s) (g i t))
    where
      choose :
          (c : Bool) {p : S × T} {a : S} {b : T}
          → p ≡ (a, b)
          → (if c then p else (s, t)) ≡ ((if c then a else s), (if c then b else t))
      choose true e = e
      choose false e = refl

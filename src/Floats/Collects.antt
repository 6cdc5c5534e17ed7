-- ===== src/Floats/Collects.antt =====
-- What a reduction computes, whatever the laws of its operation are: a value that combines elements in
-- some bracketing, and which elements, how often.
use mathlib.Core.Path.{fun_ext}
use insist.Base.{ℕ, zero, suc, ◌+◌, ◌≡◌, subst, Bool, true, false, ltb, ◌==◌, if◌then◌else◌}
use insist.Base.Loops.{for_strided}

-- How often an element occurs: once if it is `i`.
abbrev pub only : ℕ → ℕ → ℕ
only i j = if i == j then 1 else 0

-- The elements below `n`, each once.
abbrev pub once_below : ℕ → ℕ → ℕ
once_below n j = if ltb j n then 1 else 0

module _ {A : Type 0} (op : A → A → A) (unit : A) (x : ℕ → A) where
  -- `a` combines the elements `x i`, each as often as the count says, and the unit any number of times.
  pub data Collects : (ℕ → ℕ) → A → Type 0 where
    nothing : Collects (λ j. 0) unit
    one : (i : ℕ) → Collects (only i) (x i)
    both :
        {c e : ℕ → ℕ} {a b : A} → Collects c a → Collects e b → Collects (λ j. c j + e j) (op a b)

  pub recount : (c e : ℕ → ℕ) (a : A) → ((j : ℕ) → c j ≡ e j) → Collects c a → Collects e a
  recount c e a same h = subst (λ f. Collects f a) (fun_ext same) h

  -- An accumulating loop.
  pub for_strided-Collects :
      (fuel i bound step : ℕ) (c : ℕ → ℕ) (a : A)
      → Collects c a
      → Collects
          (for_strided fuel i bound step (λ j (e : ℕ → ℕ) k. e k + only j k) c)
          (for_strided fuel i bound step (λ j b. op b (x j)) a)
  unfolding for_strided
  for_strided-Collects zero i bound step c a h = h
  for_strided-Collects (suc fuel) i bound step c a h =
      if-both (ltb i bound)
        (for_strided-Collects fuel (i + step) bound step (λ k. c k + only i k) (op a (x i))
          (both h (one i)))
        h
    where
      if-both :
          (t : Bool) {c d : ℕ → ℕ} {a b : A}
          → Collects c a
          → Collects d b
          → Collects (if t then c else d) (if t then a else b)
      if-both true p q = p
      if-both false p q = q

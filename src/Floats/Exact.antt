-- ===== src/Floats/Exact.antt =====
-- Exact arithmetic: where an operation is associative and commutative and has a unit, what a reduction
-- computes depends on its elements only.
use insist.Base.{ℕ, zero, suc, ◌+◌, ◌≤◌, ◌<◌, ◌≡◌, refl, sym, ap, ◌∙◌, arith}
use native.Mathlib.Decide.{dec_lt}
use insist.Base.Loops.{for_below}
use insist.Floats.Collects.{Collects, nothing, one, both, recount, only, once_below}

pub record IsSum {A : Type 0} (op : A → A → A) (unit : A) : Type 0 where
  pub assoc : (a b c : A) → op (op a b) c ≡ op a (op b c)
  pub comm : (a b : A) → op a b ≡ op b a
  pub unit_left : (a : A) → op unit a ≡ a

module _ {A : Type 0} (op : A → A → A) (unit : A) (x : ℕ → A) (laws : IsSum op unit) where
  repeat : ℕ → A → A
  repeat zero a = unit
  repeat (suc n) a = op a (repeat n a)

  unit_right : (a : A) → op a unit ≡ a
  unit_right a = laws.comm a unit ∙ laws.unit_left a

  repeat-add : (n m : ℕ) (a : A) → repeat (n + m) a ≡ op (repeat n a) (repeat m a)
  unfolding repeat
  repeat-add zero m a =
      ap (λ (k : ℕ). repeat k a) {x = zero + m} {y = m} (omega arith)
      ∙ sym (laws.unit_left (repeat m a))
  repeat-add (suc n) m a =
      ap (λ (k : ℕ). repeat k a) {x = suc n + m} {y = suc (n + m)} (omega arith)
      ∙ ap (op a) (repeat-add n m a)
      ∙ sym (laws.assoc a (repeat n a) (repeat m a))

  -- The elements below `n`, each as often as `c` says, in the order of their indices.
  weighted : ℕ → (ℕ → ℕ) → A
  weighted zero c = unit
  weighted (suc n) c = op (weighted n c) (repeat (c n) (x n))

  interchange : (a b c d : A) → op (op a b) (op c d) ≡ op (op a c) (op b d)
  interchange a b c d =
      laws.assoc a b (op c d)
      ∙ ap (op a) (sym (laws.assoc b c d) ∙ ap (λ t. op t d) (laws.comm b c) ∙ laws.assoc c b d)
      ∙ sym (laws.assoc a c (op b d))

  weighted-add :
      (n : ℕ) (c e : ℕ → ℕ) → weighted n (λ j. c j + e j) ≡ op (weighted n c) (weighted n e)
  unfolding weighted
  weighted-add zero c e = sym (laws.unit_left unit)
  weighted-add (suc n) c e =
      ap (λ t. op t (repeat (c n + e n) (x n))) (weighted-add n c e)
      ∙ ap (op (op (weighted n c) (weighted n e))) (repeat-add (c n) (e n) (x n))
      ∙ interchange (weighted n c) (weighted n e) (repeat (c n) (x n)) (repeat (e n) (x n))

  weighted-nothing : (n : ℕ) → weighted n (λ j. 0) ≡ unit
  unfolding weighted repeat
  weighted-nothing zero = refl
  weighted-nothing (suc n) = unit_right _ ∙ weighted-nothing n

  repeat_none : (k : ℕ) (a : A) → k ≡ 0 → repeat k a ≡ unit
  unfolding repeat
  repeat_none k a e = ap (λ (n : ℕ). repeat n a) e

  repeat_once : (k : ℕ) (a : A) → k ≡ 1 → repeat k a ≡ a
  unfolding repeat
  repeat_once k a e = ap (λ (n : ℕ). repeat n a) e ∙ unit_right a

  weighted_behind : (n i : ℕ) → n ≤ i → weighted n (only i) ≡ unit
  unfolding weighted
  weighted_behind zero i h = refl
  weighted_behind (suc n) i h =
      ap (op (weighted n (only i))) (repeat_none (only i n) (x n) (ground arith))
      ∙ unit_right _
      ∙ weighted_behind n i (omega arith)

  weighted-only : (n i : ℕ) → i < n → weighted n (only i) ≡ x i
  unfolding weighted
  weighted-only zero i h = absurd (omega arith)
  weighted-only (suc n) i h = elim (dec_lt i n) [
    | yes less ↦
        ap (op (weighted n (only i))) (repeat_none (only i n) (x n) (ground arith))
        ∙ unit_right _
        ∙ weighted-only n i less
    | no last ↦
        ap (λ t. op t (repeat (only i n) (x n))) (weighted_behind n i (omega arith))
        ∙ laws.unit_left _
        ∙ repeat_once (only i n) (x n) (ground (arith, at_end last))
        ∙ ap x (sym (at_end last))
  ]
    where
      at_end : ¬ (i < n) → i ≡ n
      at_end q = omega arith

  Collects-weighted :
      (n : ℕ) {c : ℕ → ℕ} {a : A}
      → Collects op unit x c a
      → ((j : ℕ) → n ≤ j → c j ≡ 0)
      → a ≡ weighted n c
  Collects-weighted n nothing none_behind = sym (weighted-nothing n)
  Collects-weighted n (one i) none_behind = elim (dec_lt i n) [
    | yes less ↦ sym (weighted-only n i less)
    | no past ↦ absurd (ground (arith, none_behind i (omega (arith, past))))
  ]
  Collects-weighted n (both {c} {e} {a} {b} p q) none_behind =
      ap (λ t. op t b) (Collects-weighted n p (λ j h. omega (arith, none_behind j h)))
      ∙ ap (op (weighted n c)) (Collects-weighted n q (λ j h. omega (arith, none_behind j h)))
      ∙ sym (weighted-add n c e)

  -- Two ways to combine the elements below `n`, each once, give the same.
  pub Collects-unique :
      (n : ℕ) {a b : A}
      → Collects op unit x (once_below n) a
      → Collects op unit x (once_below n) b
      → a ≡ b
  Collects-unique n p q =
      Collects-weighted n p (λ j h. ground arith)
      ∙ sym (Collects-weighted n q (λ j h. ground arith))

module _ {A : Type 0} (op : A → A → A) (unit : A) (x : ℕ → A) where
  -- The plain loop over the elements is one way.
  pub for_below-Collects :
      (n : ℕ) → Collects op unit x (once_below n) (for_below n (λ j a. op a (x j)) unit)
  unfolding for_below
  for_below-Collects zero =
      recount op unit x (λ j. 0) (once_below 0) unit (λ j. ground arith) nothing
  for_below-Collects (suc n) =
      recount op unit x (λ j. once_below n j + only n j) (once_below (suc n)) _ (λ j. ground arith)
        (both (for_below-Collects n) (one n))

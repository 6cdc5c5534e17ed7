-- ===== src/Base/Tests.antt =====
-- Boolean tests on the native numbers, the conditional, case lemmas and well-founded `<`.
use Prim.Native.Nat.{ℕ, zero, suc, ◌<◌, compare, Ordering}
use mathlib.Core.Path.{◌≡◌, refl}
use mathlib.Core.Logic.{◌↔◌, ◌⊎◌, inl, inr}
use mathlib.Core.Bool.{Bool, true, false}
use mathlib.Core.Option.{Option, none, some}
use mathlib.Core.WellFounded.{Acc, WellFounded}
use native.Mathlib.Omega.{arith}

abbrev pub ltb : ℕ → ℕ → Bool
ltb a b = elim (compare a b) [ Ordering.lt ↦ true | _ ↦ false ]

abbrev pub leb : ℕ → ℕ → Bool
leb a b = elim (compare a b) [ Ordering.gt ↦ false | _ ↦ true ]

infix 50 ◌==◌
abbrev pub ◌==◌ : ℕ → ℕ → Bool
a == b = elim (compare a b) [ Ordering.eq ↦ true | _ ↦ false ]

infix 1 if◌then◌else◌
abbrev pub if◌then◌else◌ {ℓ} : {A : Type ℓ} → Bool → A → A → A
if true then x else y = x
if false then x else y = y

pub ltb→lt : (a b : ℕ) → ltb a b ≡ true → a < b
ltb→lt a b h = ground arith

pub ==_iff : (a b : ℕ) → ((a == b) ≡ true) ↔ (a ≡ b)
==_iff a b = ground arith

-- To split on a computed value and keep the equation.
pub Bool-cases : (b : Bool) → (b ≡ true) ⊎ (b ≡ false)
Bool-cases true = inl refl
Bool-cases false = inr refl

pub Option-cases {ℓ} : {A : Type ℓ} (o : Option A) → (o ≡ none) ⊎ ((a : A) × (o ≡ some a))
Option-cases none = inl refl
Option-cases (some a) = inr (a, refl)

-- What holds in both branches holds of the conditional.
pub if-cases {ℓ κ} :
    {A : Type ℓ} (P : A → Type κ) (c : Bool) {x y : A}
    → (c ≡ true → P x)
    → (c ≡ false → P y)
    → P (if c then x else y)
if-cases P true p q = p refl
if-cases P false p q = q refl

Acc-of_lt : (bound n : ℕ) → n < bound → Acc ◌<◌ n
Acc-of_lt zero n h = elim h [ ]
Acc-of_lt (suc bound) n h = Acc.intro n (λ m below. Acc-of_lt bound m (omega arith))

unfoldable pub lt_wf : WellFounded ◌<◌
unfolding Acc-of_lt
lt_wf = record { apply = λ n. Acc-of_lt (suc n) n (omega arith) }

pub if-eq {ℓ} :
    {A : Type ℓ} (c : Bool) {x y : A} (z : A)
    → (c ≡ true → x ≡ y)
    → (if c then x else z) ≡ (if c then y else z)
if-eq true z e = e refl
if-eq false z e = refl

pub if-else-eq {ℓ} :
    {A : Type ℓ} (c : Bool) {x y : A} (z : A)
    → (c ≡ false → x ≡ y)
    → (if c then z else x) ≡ (if c then z else y)
if-else-eq true z e = refl
if-else-eq false z e = e refl

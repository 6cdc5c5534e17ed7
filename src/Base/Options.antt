-- ===== src/Base/Options.antt =====
-- Chains of steps that may fail.
use mathlib.Core.Path.{◌≡◌, refl, subst}
use mathlib.Core.Bool.{Bool, true, false}
use mathlib.Core.Option.{Option, none, some}
use insist.Base.Tests.{if◌then◌else◌}

infixl 5 ◌>>=◌ ◌>>◌
abbrev pub ◌>>=◌ {ℓ κ} : {A : Type ℓ} {B : Type κ} → Option A → (A → Option B) → Option B
none >>= f = none
some a >>= f = f a

abbrev pub ◌>>◌ {ℓ} : {B : Type ℓ} → Option (Unit {0}) → Option B → Option B
m >> k = m >>= λ _. k

-- `if (!test) return nullopt;`
abbrev pub guard : Bool → Option (Unit {0})
guard true = some tt
guard false = none

-- What a successful chain went through.
pub >>=-eq-some {ℓ κ} :
    {A : Type ℓ} {B : Type κ} (m : Option A) (f : A → Option B) {b : B}
    → (m >>= f) ≡ some b
    → (a : A) × (m ≡ some a) × (f a ≡ some b)
>>=-eq-some none f h = cc
>>=-eq-some (some a) f h = (a, refl, h)

-- Every result of `o` satisfies `Q`.
pub record Keeps {ℓ κ} {B : Type ℓ} (Q : B → Type κ) (o : Option B) : Type (ℓ ⊔ κ) where
  pub result : (b : B) → o ≡ some b → Q b

module _ {ℓ κ} {B : Type ℓ} (Q : B → Type κ) where
  pub Keeps-none : Keeps Q none
  Keeps-none = record { result = λ b e. cc }

  pub Keeps-some : (b : B) → Q b → Keeps Q (some b)
  Keeps-some b q = record { result = λ c e. subst Q (cc) q }

  pub Keeps-if :
      (c : Bool) (x y : Option B)
      → (c ≡ true → Keeps Q x)
      → (c ≡ false → Keeps Q y)
      → Keeps Q (if c then x else y)
  Keeps-if true x y p q = p refl
  Keeps-if false x y p q = q refl

pub Keeps-bind {ℓ κ μ ν} :
    {A : Type ℓ} {B : Type κ} (P : A → Type μ) (Q : B → Type ν) (m : Option A) (f : A → Option B)
    → Keeps P m
    → ((a : A) → P a → Keeps Q (f a))
    → Keeps Q (m >>= f)
Keeps-bind P Q none f h k = Keeps-none Q
Keeps-bind P Q (some a) f h k = k a (h.result a refl)

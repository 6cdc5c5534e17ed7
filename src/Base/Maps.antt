-- ===== src/Base/Maps.antt =====
-- `std::unordered_map` with integer keys, as an association list with at most one entry for a key.
-- The order of the entries stands for the unspecified order of iteration.
use Prim.Native.Nat.{ℕ, ◌≤◌, ◌<◌}
use mathlib.Core.Path.{◌≡◌, refl}
use mathlib.Core.Option.{Option, none, some}
use mathlib.Core.List.{List, [], ◌∷◌, ◌++◌}
use native.Mathlib.Omega.{arith}
use insist.Base.Tests.{◌==◌, if◌then◌else◌}

module _ {ℓ} {V : Type ℓ} where
  -- `find`
  unfoldable pub lookup : ℕ → List (ℕ × V) → Option V
  lookup k [] = none
  lookup k ((i, v) ∷ rest) = if i == k then some v else lookup k rest

  -- `map[k] = v`
  unfoldable pub insert : ℕ → V → List (ℕ × V) → List (ℕ × V)
  insert k new [] = (k, new) ∷ []
  insert k new ((i, old) ∷ rest) = if i == k then (k, new) ∷ rest else (i, old) ∷ insert k new rest

  -- `map.erase(k)`
  unfoldable pub erase : ℕ → List (ℕ × V) → List (ℕ × V)
  erase k [] = []
  erase k ((i, old) ∷ rest) = if i == k then erase k rest else (i, old) ∷ erase k rest

  pub lookup-insert :
      (j k : ℕ) (v : V) (m : List (ℕ × V))
      → lookup j (insert k v m) ≡ (if k == j then some v else lookup j m)
  unfolding insert lookup
  lookup-insert j k v [] = refl
  lookup-insert j k v ((i, w) ∷ m) = ground (arith, lookup-insert j k v m)

  pub lookup-erase :
      (j k : ℕ) (m : List (ℕ × V)) → lookup j (erase k m) ≡ (if k == j then none else lookup j m)
  unfolding lookup erase
  lookup-erase j k [] = ground arith
  lookup-erase j k ((i, w) ∷ m) = ground (arith, lookup-erase j k m)

  -- Every key lies below the bound.
  abbrev pub KeysBelow : ℕ → List (ℕ × V) → Type 0
  KeysBelow n [] = Unit {0}
  KeysBelow n ((j, v) ∷ m) = (j < n) × KeysBelow n m

  pub KeysBelow-mono : (n k : ℕ) (m : List (ℕ × V)) → n ≤ k → KeysBelow n m → KeysBelow k m
  KeysBelow-mono n k [] h b = tt
  KeysBelow-mono n k ((j, v) ∷ m) h b = (omega arith, KeysBelow-mono n k m h b.1)

  pub KeysBelow-insert :
      (n k : ℕ) (v : V) (m : List (ℕ × V)) → k < n → KeysBelow n m → KeysBelow n (insert k v m)
  unfolding insert
  KeysBelow-insert n k v [] h b = (h, tt)
  KeysBelow-insert n k v ((j, w) ∷ m) h b = ground (arith, KeysBelow-insert n k v m h b.1)

  pub KeysBelow-erase : (n k : ℕ) (m : List (ℕ × V)) → KeysBelow n m → KeysBelow n (erase k m)
  unfolding erase
  KeysBelow-erase n k [] b = tt
  KeysBelow-erase n k ((j, w) ∷ m) b = ground (arith, KeysBelow-erase n k m b.1)

  pub lookup_above : (n k : ℕ) (m : List (ℕ × V)) → KeysBelow n m → n ≤ k → lookup k m ≡ none
  unfolding lookup
  lookup_above n k [] b h = refl
  lookup_above n k ((j, v) ∷ m) b h = ground (arith, lookup_above n k m b.1 h)

  -- Erasing a key that is absent changes nothing.
  pub erase_absent : (k : ℕ) (m : List (ℕ × V)) → lookup k m ≡ none → erase k m ≡ m
  unfolding lookup erase
  erase_absent k [] h = refl
  erase_absent k ((j, v) ∷ m) h = ground (arith, erase_absent k m)

  -- A fresh entry that is erased leaves the map as it was.
  pub erase-insert :
      (k : ℕ) (v : V) (m : List (ℕ × V)) → lookup k m ≡ none → erase k (insert k v m) ≡ m
  unfolding lookup insert erase
  erase-insert k v [] h = ground arith
  erase-insert k v ((j, w) ∷ m) h = ground (arith, erase-insert k v m)

  -- A fresh entry goes to the end.
  pub insert_absent :
      (k : ℕ) (v : V) (m : List (ℕ × V)) → lookup k m ≡ none → insert k v m ≡ m ++ (k, v) ∷ []
  unfolding lookup insert
  insert_absent k v [] h = refl
  insert_absent k v ((j, w) ∷ m) h = ground (arith, insert_absent k v m)

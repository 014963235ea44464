-- ===== src/Base/Assoc.antt =====
-- A hash map with numeric keys as an association list: `lookup` is `find`, `emplace` adds a key that
-- is missing, `assign` writes through an iterator and `erase` removes one. The order of the list
-- is the order of iteration.
use Prim.Native.Nat.{ℕ}
use mathlib.Core.Path.{◌≡◌, refl}
use mathlib.Core.Logic.{◌⊎◌}
use mathlib.Core.List.{List, [], ◌∷◌}
use mathlib.Core.Option.{Option, none, some}
use native.Mathlib.Omega.{arith}
use telldb.Base.Tests.{◌==◌, if◌then◌else◌}

module _ {ℓ} {V : Type ℓ} where
  unfoldable pub lookup : ℕ → List (ℕ × V) → Option V
  lookup k [] = none
  lookup k ((j, v) ∷ m) = if j == k then some v else lookup k m

  -- `emplace`: nothing happens to a key that is present.
  unfoldable pub emplace : ℕ → V → List (ℕ × V) → List (ℕ × V)
  emplace k v [] = (k, v) ∷ []
  emplace k v ((j, w) ∷ m) = if j == k then (j, w) ∷ m else (j, w) ∷ emplace k v m

  unfoldable pub assign : ℕ → V → List (ℕ × V) → List (ℕ × V)
  assign k v [] = []
  assign k v ((j, w) ∷ m) = if j == k then (j, v) ∷ m else (j, w) ∷ assign k v m

  unfoldable pub erase : ℕ → List (ℕ × V) → List (ℕ × V)
  erase k [] = []
  erase k ((j, w) ∷ m) = if j == k then m else (j, w) ∷ erase k m

  pub lookup-emplace :
      (k j : ℕ) (v : V) (m : List (ℕ × V))
      → lookup k m ≡ none
      → lookup j (emplace k v m) ≡ (if k == j then some v else lookup j m)
  unfolding lookup emplace
  lookup-emplace k j v [] h = refl
  lookup-emplace k j v ((i, w) ∷ m) h = ground (arith, lookup-emplace k j v m)

  -- `emplace` at any key.
  pub lookup-emplace_any :
      (k j : ℕ) (v : V) (m : List (ℕ × V))
      → lookup j (emplace k v m)
        ≡ elim (lookup j m) [ some x ↦ some x | none ↦ if k == j then some v else none ]
  unfolding lookup emplace
  lookup-emplace_any k j v [] = ground arith
  lookup-emplace_any k j v ((i, w) ∷ m) = ground (arith, lookup-emplace_any k j v m)

  pub emplace_cases :
      (k j : ℕ) (v e : V) (m : List (ℕ × V))
      → lookup j (emplace k v m) ≡ some e
      → (lookup j m ≡ some e) ⊎ (v ≡ e)
  emplace_cases k j v e m h = ground (arith, lookup-emplace_any k j v m)

  pub lookup-assign :
      (k j : ℕ) (v w : V) (m : List (ℕ × V))
      → lookup k m ≡ some w
      → lookup j (assign k v m) ≡ (if k == j then some v else lookup j m)
  unfolding lookup assign
  lookup-assign k j v w [] h = ground arith
  lookup-assign k j v w ((i, u) ∷ m) h = ground (arith, lookup-assign k j v w m)

  pub lookup-assign-none :
      (k j : ℕ) (v : V) (m : List (ℕ × V)) → lookup j m ≡ none → lookup j (assign k v m) ≡ none
  unfolding lookup assign
  lookup-assign-none k j v [] h = refl
  lookup-assign-none k j v ((i, u) ∷ m) h = ground (arith, lookup-assign-none k j v m)

  -- No key twice.
  abbrev pub Distinct : List (ℕ × V) → Type ℓ
  Distinct [] = Unit
  Distinct ((k, v) ∷ m) = (lookup k m ≡ none) × Distinct m

  pub lookup-erase :
      (k j : ℕ) (m : List (ℕ × V))
      → Distinct m
      → lookup j (erase k m) ≡ (if k == j then none else lookup j m)
  unfolding lookup erase
  lookup-erase k j [] d = ground arith
  lookup-erase k j ((i, w) ∷ m) d = ground (arith, lookup-erase k j m d.1)

  pub emplace-Distinct :
      (k : ℕ) (v : V) (m : List (ℕ × V)) → lookup k m ≡ none → Distinct m → Distinct (emplace k v m)
  unfolding lookup emplace
  emplace-Distinct k v [] h d = (refl, tt)
  emplace-Distinct k v ((i, w) ∷ m) h d =
      ground (arith, lookup-emplace k i v m, emplace-Distinct k v m)

  pub assign-Distinct : (k : ℕ) (v : V) (m : List (ℕ × V)) → Distinct m → Distinct (assign k v m)
  unfolding lookup assign
  assign-Distinct k v [] d = tt
  assign-Distinct k v ((i, w) ∷ m) d =
      ground (arith, assign-Distinct k v m d.1, lookup-assign-none k i v m)

  pub erase-Distinct : (k : ℕ) (m : List (ℕ × V)) → Distinct m → Distinct (erase k m)
  unfolding lookup erase
  erase-Distinct k [] d = tt
  erase-Distinct k ((i, w) ∷ m) d = ground (arith, erase-Distinct k m d.1, lookup-erase k i m d.1)

  -- `emplace` at any key.
  pub emplace_any-Distinct :
      (k : ℕ) (v : V) (m : List (ℕ × V)) → Distinct m → Distinct (emplace k v m)
  unfolding emplace lookup
  emplace_any-Distinct k v [] d = (refl, tt)
  emplace_any-Distinct k v ((j, w) ∷ m) d =
      ground (arith, d, lookup-emplace_any k j v m, emplace_any-Distinct k v m)

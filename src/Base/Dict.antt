-- ===== src/Base/Dict.antt =====
-- A HashMap with integer keys (u32, u64 and the newtypes over them) as an association list: what
-- std::collections::HashMap documents of get, insert and remove.
use Prim.Native.Nat.{ℕ, ◌+◌}
use mathlib.Core.Path.{◌≡◌, refl}
use mathlib.Core.List.{List, [], ◌∷◌}
use mathlib.Core.Option.{Option, none, some}
use native.Mathlib.Omega.{arith}
use msgtrans_rust.Base.Tests.{◌==◌, if◌then◌else◌}
use msgtrans_rust.Base.Lists.{length}

module _ {ℓ} {V : Type ℓ} where
  unfoldable pub lookup : ℕ → List (ℕ × V) → Option V
  lookup k [] = none
  lookup k ((j, x) ∷ d) = if j == k then some x else lookup k d

  unfoldable pub insert : ℕ → V → List (ℕ × V) → List (ℕ × V)
  insert k x [] = (k, x) ∷ []
  insert k x ((j, y) ∷ d) = if j == k then (k, x) ∷ d else (j, y) ∷ insert k x d

  unfoldable pub remove : ℕ → List (ℕ × V) → List (ℕ × V)
  remove k [] = []
  remove k ((j, y) ∷ d) = let rest = remove k d in if j == k then rest else (j, y) ∷ rest

  pub lookup-insert :
      (k j : ℕ) (x : V) (d : List (ℕ × V))
      → lookup j (insert k x d) ≡ (if k == j then some x else lookup j d)
  unfolding lookup insert
  lookup-insert k j x [] = refl
  lookup-insert k j x ((i, y) ∷ d) = ground (arith, lookup-insert k j x d)

  pub lookup-remove :
      (k j : ℕ) (d : List (ℕ × V)) → lookup j (remove k d) ≡ (if k == j then none else lookup j d)
  unfolding lookup remove
  lookup-remove k j [] = ground arith
  lookup-remove k j ((i, y) ∷ d) = ground (arith, lookup-remove k j d)

  -- The keys are distinct, as in every HashMap.
  abbrev pub Fresh : ℕ → List (ℕ × V) → Type ℓ
  Fresh k d = lookup k d ≡ none

  abbrev pub Distinct : List (ℕ × V) → Type ℓ
  Distinct [] = Unit
  Distinct ((k, x) ∷ d) = Fresh k d × Distinct d

  pub insert-Distinct : (k : ℕ) (x : V) (d : List (ℕ × V)) → Distinct d → Distinct (insert k x d)
  unfolding insert lookup
  insert-Distinct k x [] h = (refl, tt)
  insert-Distinct k x ((j, y) ∷ d) h =
      ground (arith, lookup-insert k j x d, insert-Distinct k x d h.1)

  pub remove-Distinct : (k : ℕ) (d : List (ℕ × V)) → Distinct d → Distinct (remove k d)
  unfolding remove lookup
  remove-Distinct k [] h = tt
  remove-Distinct k ((j, y) ∷ d) h = ground (arith, lookup-remove k j d, remove-Distinct k d h.1)

  -- The number of entries after an insertion and after a removal.
  pub length-insert-Fresh :
      (k : ℕ) (x : V) (d : List (ℕ × V)) → Fresh k d → length (insert k x d) ≡ length d + 1
  unfolding insert lookup
  length-insert-Fresh k x [] h = omega arith
  length-insert-Fresh k x ((j, y) ∷ d) h = ground (arith, length-insert-Fresh k x d)

  pub length-insert_present :
      (k : ℕ) (x y : V) (d : List (ℕ × V)) → lookup k d ≡ some y → length (insert k x d) ≡ length d
  unfolding insert lookup
  length-insert_present k x y [] h = cc
  length-insert_present k x y ((j, u) ∷ d) h = ground (arith, length-insert_present k x y d)

  pub remove-Fresh : (k : ℕ) (d : List (ℕ × V)) → Fresh k d → remove k d ≡ d
  unfolding remove lookup
  remove-Fresh k [] h = refl
  remove-Fresh k ((j, y) ∷ d) h = ground (arith, remove-Fresh k d)

  pub length-remove_present :
      (k : ℕ) (y : V) (d : List (ℕ × V))
      → Distinct d
      → lookup k d ≡ some y
      → length (remove k d) + 1 ≡ length d
  unfolding remove lookup
  length-remove_present k y [] u h = cc
  length-remove_present k y ((j, x) ∷ d) u h =
      ground (arith, remove-Fresh k d, length-remove_present k y d u.1)

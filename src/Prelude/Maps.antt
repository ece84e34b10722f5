-- ===== src/Prelude/Maps.antt =====
-- A Go map with string keys, as an association list. The order of the list stands for the order
-- in which a `range` loop visits the map, which Go leaves open.
use mathlib.Core.Path.{◌≡◌, refl}
use mathlib.Core.List.{List, [], ◌∷◌}
use mathlib.Core.Option.{Option, none, some}
use Prim.Native.Nat.{suc}
use multi_region.Prelude.Lists.{length}
use native.Mathlib.Omega.{arith}
use multi_region.Prelude.Tests.{if◌then◌else◌}
use multi_region.Prelude.Strings.{Bytes, beq, beq_iff}

abbrev pub Map {ℓ} : Type ℓ → Type ℓ
Map V = List (Bytes × V)

module _ {ℓ} {V : Type ℓ} where
  unfoldable pub lookup : Bytes → Map V → Option V
  lookup k [] = none
  lookup k ((j, v) ∷ m) = if beq j k then some v else lookup k m

  -- `m[k] = v`: a present key keeps its place, a new one goes to the end.
  unfoldable pub insert : Bytes → V → Map V → Map V
  insert k v [] = (k, v) ∷ []
  insert k v ((j, w) ∷ m) = if beq j k then (j, v) ∷ m else (j, w) ∷ insert k v m

  -- `delete(m, k)`.
  unfoldable pub delete : Bytes → Map V → Map V
  delete k [] = []
  delete k ((j, w) ∷ m) = if beq j k then delete k m else (j, w) ∷ delete k m

  unfoldable pub keys : Map V → List Bytes
  keys [] = []
  keys ((j, w) ∷ m) = j ∷ keys m

  pub lookup-insert :
      (k j : Bytes) (v : V) (m : Map V)
      → lookup j (insert k v m) ≡ (if beq k j then some v else lookup j m)
  unfolding lookup insert
  lookup-insert k j v [] = refl
  lookup-insert k j v ((i, w) ∷ m) =
      ground (arith, beq_iff k j, beq_iff i k, beq_iff i j, lookup-insert k j v m)

  pub lookup-delete :
      (k j : Bytes) (m : Map V) → lookup j (delete k m) ≡ (if beq k j then none else lookup j m)
  unfolding lookup delete
  lookup-delete k j [] = ground arith
  lookup-delete k j ((i, w) ∷ m) =
      ground (arith, beq_iff k j, beq_iff i k, beq_iff i j, lookup-delete k j m)

  -- No key stands in two entries, as in any Go map.
  abbrev pub HasNodupKeys : Map V → Type ℓ
  HasNodupKeys [] = Unit
  HasNodupKeys ((k, v) ∷ m) = (lookup k m ≡ none) × HasNodupKeys m

  pub HasNodupKeys-insert :
      (k : Bytes) (v : V) (m : Map V) → HasNodupKeys m → HasNodupKeys (insert k v m)
  unfolding insert lookup
  HasNodupKeys-insert k v [] h = (refl, tt)
  HasNodupKeys-insert k v ((j, w) ∷ m) h =
      ground (arith, lookup-insert k j v m, beq_iff j k, beq_iff k j, HasNodupKeys-insert k v m)

  pub HasNodupKeys-delete : (k : Bytes) (m : Map V) → HasNodupKeys m → HasNodupKeys (delete k m)
  unfolding delete
  HasNodupKeys-delete k [] h = tt
  HasNodupKeys-delete k ((j, w) ∷ m) h =
      ground (arith, lookup-delete k j m, beq_iff j k, beq_iff k j, HasNodupKeys-delete k m)

  pub length-insert_new :
      (k : Bytes) (v : V) (m : Map V) → lookup k m ≡ none → length (insert k v m) ≡ suc (length m)
  unfolding insert lookup
  length-insert_new k v [] h = refl
  length-insert_new k v ((j, w) ∷ m) h = ground (arith, length-insert_new k v m)

  length-delete-none : (k : Bytes) (m : Map V) → lookup k m ≡ none → length (delete k m) ≡ length m
  unfolding delete lookup
  length-delete-none k [] h = refl
  length-delete-none k ((j, w) ∷ m) h = ground (arith, length-delete-none k m)

  pub length-delete :
      (k : Bytes) (v : V) (m : Map V)
      → lookup k m ≡ some v
      → HasNodupKeys m
      → suc (length (delete k m)) ≡ length m
  unfolding delete lookup
  length-delete k v [] e h = cc
  length-delete k v ((j, w) ∷ m) e h =
      ground
        (arith, beq_iff j k, length-delete-none j m, length-delete-none k m, length-delete k v m)

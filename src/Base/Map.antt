-- ===== src/Base/Map.antt =====
-- Go maps with string keys, as association lists. The order of `range` is the order of the list;
-- what theorems say of a map they say of `lookup`, which has no order.
use mathlib.Core.Path.{◌≡◌, refl}
use mathlib.Core.Logic.{ite}
use mathlib.Core.Option.{Option, none, some}
use mathlib.Core.List.{List, [], ◌∷◌}
use native.Mathlib.Omega.{arith}
use nameq.Base.Text.{Text, Text-discrete}

abbrev pub Map {ℓ} : Type ℓ → Type ℓ
Map V = List (Text × V)

module _ {ℓ} {V : Type ℓ} where
  -- `m[k]`, with its `found`.
  unfoldable pub lookup : Text → Map V → Option V
  lookup k [] = none
  lookup k ((j, v) ∷ m) = ite (Text-discrete j k) (some v) (lookup k m)

  -- `m[k] = v`
  unfoldable pub insert : Text → V → Map V → Map V
  insert k v [] = (k, v) ∷ []
  insert k v ((j, w) ∷ m) = ite (Text-discrete j k) ((k, v) ∷ m) ((j, w) ∷ insert k v m)

  -- `delete(m, k)`
  unfoldable pub erase : Text → Map V → Map V
  erase k [] = []
  erase k ((j, w) ∷ m) = let rest = erase k m in ite (Text-discrete j k) rest ((j, w) ∷ rest)

  pub lookup-insert :
      (k j : Text) (v : V) (m : Map V)
      → lookup j (insert k v m) ≡ ite (Text-discrete k j) (some v) (lookup j m)
  unfolding lookup insert
  lookup-insert k j v [] = refl
  lookup-insert k j v ((i, w) ∷ m) = ground (arith, lookup-insert k j v m)

  pub lookup-erase :
      (k j : Text) (m : Map V) → lookup j (erase k m) ≡ ite (Text-discrete k j) none (lookup j m)
  unfolding lookup erase
  lookup-erase k j [] = ground arith
  lookup-erase k j ((i, w) ∷ m) = ground (arith, lookup-erase k j m)

module _ {ℓ} {V : Type ℓ} where
  -- No key is listed twice: the list is a map.
  abbrev pub IsMap : Map V → Type ℓ
  IsMap [] = Unit
  IsMap ((k, v) ∷ m) = (lookup k m ≡ none) × IsMap m

  abbrev pub values : Map V → List V
  values [] = []
  values ((k, v) ∷ m) = v ∷ values m

  abbrev pub keys : Map V → List Text
  keys [] = []
  keys ((k, v) ∷ m) = k ∷ keys m

  pub insert-IsMap : (k : Text) (v : V) (m : Map V) → IsMap m → IsMap (insert k v m)
  unfolding lookup insert
  insert-IsMap k v [] h = ground arith
  insert-IsMap k v ((j, w) ∷ m) h = ground (arith, insert-IsMap k v m h.1, lookup-insert k j v m)

  pub erase-IsMap : (k : Text) (m : Map V) → IsMap m → IsMap (erase k m)
  unfolding erase
  erase-IsMap k [] h = h
  erase-IsMap k ((j, w) ∷ m) h = ground (arith, erase-IsMap k m h.1, lookup-erase k j m)

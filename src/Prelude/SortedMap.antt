-- ===== src/Prelude/SortedMap.antt =====
-- `BTreeMap<String, V>`: the entries in the order of their keys. The order of `str` is that of its
-- octets, which is the order of its code points.
pub mod Order
pub mod Laws
use Prim.Native.Nat.{ℕ}
use mathlib.Core.Bool.{Bool, true, false, ◌&&◌, ◌||◌}
use mathlib.Core.List.{List, [], ◌∷◌}
use mathlib.Core.Option.{Option, none, some}
use rust_nntp.Prelude.Tests.{ltb, ◌==◌, if◌then◌else◌}
use rust_nntp.Prelude.Text.{Bytes}

unfoldable pub same : Bytes → Bytes → Bool
same [] [] = true
same [] (d ∷ t) = false
same (c ∷ s) [] = false
same (c ∷ s) (d ∷ t) = c == d && same s t

unfoldable pub before : Bytes → Bytes → Bool
before s [] = false
before [] (d ∷ t) = true
before (c ∷ s) (d ∷ t) = ltb c d || (c == d && before s t)

abbrev pub Map {ℓ} : Type ℓ → Type ℓ
Map V = List (Bytes × V)

module _ {ℓ} {V : Type ℓ} where
  -- `get`
  unfoldable pub lookup : Bytes → Map V → Option V
  lookup k [] = none
  lookup k ((j, v) ∷ m) = if same k j then some v else lookup k m

  -- `f` at `entry(k).or_insert(d)`
  unfoldable pub upsert : Bytes → V → (V → V) → Map V → Map V
  upsert k d f [] = (k, f d) ∷ []
  upsert k d f ((j, v) ∷ m) =
      if same k j
      then (j, f v) ∷ m
      else if before k j
      then (k, f d) ∷ (j, v) ∷ m
      else (j, v) ∷ upsert k d f m

  -- `f` at `get_mut(k)`, if there is an entry
  unfoldable pub adjust : Bytes → (V → V) → Map V → Map V
  adjust k f [] = []
  adjust k f ((j, v) ∷ m) = if same k j then (j, f v) ∷ m else (j, v) ∷ adjust k f m

  abbrev pub get_or : V → Option V → V
  get_or d none = d
  get_or d (some v) = v

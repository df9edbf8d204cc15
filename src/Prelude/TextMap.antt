-- ===== src/Prelude/TextMap.antt =====
-- A JavaScript `Map` keyed by strings: its entries in insertion order. `set` on a key that is there
-- replaces the value in place.
use mathlib.Core.Path.{◌≡◌, refl}
use mathlib.Core.Logic.{◌≢◌}
use mathlib.Core.Option.{Option, none, some}
use mathlib.Core.List.{List, [], ◌∷◌}
use native.Mathlib.Omega.{arith}
use bam.Prelude.Tests.{if◌then◌else◌}
use bam.Prelude.Buffers.{Text, ◌===◌, ===_iff}

abbrev pub TextMap {ℓ} : Type ℓ → Type ℓ
TextMap V = List (Text × V)

module _ {ℓ} {V : Type ℓ} where
  unfoldable pub lookup : Text → TextMap V → Option V
  unfolding ◌===◌
  lookup k [] = none
  lookup k ((j, v) ∷ m) = let rest = lookup k m in if j === k then some v else rest

  unfoldable pub insert : Text → V → TextMap V → TextMap V
  unfolding ◌===◌
  insert k v [] = (k, v) ∷ []
  insert k v ((j, w) ∷ m) = let rest = insert k v m in if j === k then (j, v) ∷ m else (j, w) ∷ rest

  pub lookup-cons_self : (k : Text) (v : V) (m : TextMap V) → lookup k ((k, v) ∷ m) ≡ some v
  unfolding lookup
  lookup-cons_self k v m = ground (arith, ===_iff k k)

  pub lookup-cons_ne :
      (k j : Text) (v : V) (m : TextMap V) → j ≢ k → lookup k ((j, v) ∷ m) ≡ lookup k m
  unfolding lookup
  lookup-cons_ne k j v m h = ground (arith, ===_iff j k)

  pub lookup-insert :
      (k j : Text) (v : V) (m : TextMap V)
      → lookup j (insert k v m) ≡ (if k === j then some v else lookup j m)
  unfolding lookup insert
  lookup-insert k j v [] = refl
  lookup-insert k j v ((i, w) ∷ m) =
      ground (arith, ===_iff i k, ===_iff i j, ===_iff k j, lookup-insert k j v m)

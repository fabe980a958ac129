-- ===== src/Base/KeySets.antt =====
-- The keys of a map whose keys are strings, in the order of its entries.
use distributed_systems_engi.Base.Tests.{Bool-cases}
use distributed_systems_engi.Base.Keys.{◌==◌, ==-iff}
use distributed_systems_engi.Base.Maps.{Map, lookup, insert, is_some, lookup-insert}
use distributed_systems_engi.Base.Text.{Str, str_eq}
use distributed_systems_engi.Base.Sort.{elem, Distinct}
use mathlib.Core.Path.{◌≡◌, refl, ◌∙◌}
use mathlib.Core.Logic.{inl, inr}
use mathlib.Core.Bool.{false, ◌||◌}
use mathlib.Core.List.{List, [], ◌∷◌}
use native.Mathlib.Omega.{arith}

unfoldable pub keys_of : {V : Type 0} → Map Str V → List Str
keys_of [] = []
keys_of ((k, v) ∷ m) = k ∷ keys_of m

module _ {V : Type 0} where
  pub elem-keys_of : (k : Str) (m : Map Str V) → elem k (keys_of m) ≡ is_some (lookup k m)
  unfolding elem keys_of lookup
  elem-keys_of k [] = refl
  elem-keys_of k ((j, v) ∷ m) = ground (arith, elem-keys_of k m)

  pub keys_of-insert :
      (k l : Str) (v : V) (m : Map Str V)
      → elem l (keys_of (insert k v m)) ≡ ((k == l) || elem l (keys_of m))
  keys_of-insert k l v m =
      elem-keys_of l (insert k v m) ∙ ground (arith, lookup-insert k l v m, elem-keys_of l m)

  pub insert-Distinct :
      (k : Str) (v : V) (m : Map Str V) → Distinct (keys_of m) → Distinct (keys_of (insert k v m))
  unfolding keys_of insert
  insert-Distinct k v [] h = unfold elem in (refl, tt)
  insert-Distinct k v ((j, w) ∷ m) h = elim (Bool-cases (j == k)) [
    | inl same ↦ rw same h
    | inr other ↦
        let k-ne-j : (k == j) ≡ false = ground (arith, ==-iff k j, ==-iff j k) in
        rw other (keys_of-insert k j v m ∙ ground (arith, h.0, k-ne-j), insert-Distinct k v m h.1)
  ]

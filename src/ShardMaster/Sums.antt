-- ===== src/ShardMaster/Sums.antt =====
-- Sums over the groups of src/shardmaster/server.go, and the keys of its map of groups.
use distributed_systems_engi.Base.{
  ℕ, ◌+◌, ◌-◌, ◌*◌, ◌≤◌, ◌≡◌, refl, List, [], ◌∷◌, ℤ, ◌==◌, ==-iff, int_eq, Map, is_some, lookup,
  insert, delete, if◌then◌else◌, length, ltb, arith, String, All, occurs, nat_eq,
}
use distributed_systems_engi.ShardMaster.{gids_of, remove}

unfoldable pub sum : (ℤ → ℕ) → List ℤ → ℕ
sum f [] = 0
sum f (g ∷ gs) = f g + sum f gs

pub sum-le :
    (f d f' : ℤ → ℕ) (gs : List ℤ) → ((g : ℤ) → f' g ≤ f g + d g) → sum f' gs ≤ sum f gs + sum d gs
unfolding sum
sum-le f d f' [] h = omega arith
sum-le f d f' (g ∷ gs) h = omega (arith, h g, sum-le f d f' gs h)

pub sum-ge :
    (f d f' : ℤ → ℕ) (gs : List ℤ) → ((g : ℤ) → f g + d g ≤ f' g) → sum f gs + sum d gs ≤ sum f' gs
unfolding sum
sum-ge f d f' [] h = omega arith
sum-ge f d f' (g ∷ gs) h = omega (arith, h g, sum-ge f d f' gs h)

-- What stands above a bound in each term
pub sum-above :
    (f : ℤ → ℕ) (k : ℕ) (gs : List ℤ)
    → All (λ g. k ≤ f g) gs
    → sum f gs ≡ length gs * k + sum (λ g. f g - k) gs
unfolding sum
sum-above f k [] h = omega arith
sum-above f k (g ∷ gs) h = omega (arith, h.0, sum-above f k gs h.1)

pub sum-ones : (f : ℤ → ℕ) (gs : List ℤ) → All (λ g. 1 ≤ f g) gs → length gs ≤ sum f gs
unfolding sum
sum-ones f [] h = omega arith
sum-ones f (g ∷ gs) h = omega (arith, h.0, sum-ones f gs h.1)

-- 1 for the group, and 0 for the others
abbrev pub hit : ℤ → ℤ → ℕ
hit y g = if y == g then 1 else 0

-- How often a group is among the keys.
abbrev pub times : ℤ → List ℤ → ℕ
times y gs = sum (hit y) gs

pub times-insert :
    (k g : ℤ) (v : List String) (m : Map ℤ (List String))
    → times g (gids_of (insert k v m))
      ≡ (if is_some (lookup k m) then times g (gids_of m) else times g (gids_of m) + hit k g)
unfolding sum gids_of insert lookup
times-insert k g v [] = ground (arith, ==-iff k g, ==-iff g k)
times-insert k g v ((j, w) ∷ m) =
    ground (arith, times-insert k g v m, ==-iff j k, ==-iff g j, ==-iff k g)

pub times-delete :
    (k g : ℤ) (m : Map ℤ (List String))
    → times g (gids_of (delete k m)) ≡ (if k == g then 0 else times g (gids_of m))
unfolding sum gids_of delete
times-delete k g [] = ground arith
times-delete k g ((j, w) ∷ m) =
    ground (arith, times-delete k g m, ==-iff j k, ==-iff g j, ==-iff k g)

pub times-lookup :
    (g : ℤ) (m : Map ℤ (List String)) → is_some (lookup g m) ≡ ltb 0 (times g (gids_of m))
unfolding sum gids_of lookup
times-lookup g [] = refl
times-lookup g ((j, w) ∷ m) = ground (arith, times-lookup g m, ==-iff j g, ==-iff g j)

pub length-gids_of : (m : Map ℤ (List String)) → length (gids_of m) ≡ length m
unfolding gids_of
length-gids_of [] = refl
length-gids_of ((j, w) ∷ m) = omega (arith, length-gids_of m)

pub occurs-remove :
    (i j : ℕ) (js : List ℕ) → occurs j (remove i js) ≡ (if i == j then 0 else occurs j js)
unfolding occurs remove
occurs-remove i j [] = ground arith
occurs-remove i j (k ∷ js) =
    ground (arith, occurs-remove i j js, ==-iff i k, ==-iff k j, ==-iff i j)

pub length-remove : (i : ℕ) (js : List ℕ) → length (remove i js) + occurs i js ≡ length js
unfolding occurs remove
length-remove i [] = refl
length-remove i (k ∷ js) = ground (arith, length-remove i js, ==-iff i k, ==-iff k i)

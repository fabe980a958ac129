-- ===== src/ShardMaster/Groups.antt =====
-- The groups of a config of src/shardmaster/server.go as the keys of a map, and configs whose shards all
-- have one of them.
use distributed_systems_engi.Base.{
  ◌≤◌, ◌<◌, ◌≡◌, ◌≢◌, true, false, List, [], ◌∷◌, ℤ, pos, ==-iff, int_eq, nat_eq, Map, is_some,
  lookup, insert, lookup-insert, lookup-delete, delete, length, All, arith, String,
}
use distributed_systems_engi.ShardMaster.{Config, gids_of, n_shards}
use distributed_systems_engi.ShardMaster.Sums.{times, times-insert, times-delete, times-lookup}
use distributed_systems_engi.ShardMaster.Spread.{IsGroup}
use distributed_systems_engi.ShardMaster.Handover.{HasOwner}

-- The keys of a map: each once, and none of them 0.
pub record IsKeyed (groups : Map ℤ (List String)) : Type 0 where
  pub once : (g : ℤ) → times g (gids_of groups) ≤ 1
  pub no_zero : is_some (lookup (pos 0) groups) ≡ false

-- Each of the shards has a group of the config.
pub record IsServed (c : Config) : Type 0 where
  pub keyed : IsKeyed c.groups
  pub size : length c.shards ≡ n_shards
  pub served : All (λ g. is_some (lookup g c.groups) ≡ true) c.shards

pub insert-IsKeyed :
    (k : ℤ) (v : List String) (groups : Map ℤ (List String))
    → k ≢ pos 0
    → IsKeyed groups
    → IsKeyed (insert k v groups)
insert-IsKeyed k v groups nz h = record {
  once =
      λ g. ground (arith, times-insert k g v groups, h.once g, times-lookup k groups, ==-iff k g);
  no_zero = ground (arith, lookup-insert k (pos 0) v groups, h.no_zero, ==-iff k (pos 0), nz);
}

pub delete-IsKeyed :
    (k : ℤ) (groups : Map ℤ (List String)) → IsKeyed groups → IsKeyed (delete k groups)
delete-IsKeyed k groups h = record {
  once = λ g. ground (arith, times-delete k g groups, h.once g);
  no_zero = ground (arith, lookup-delete k (pos 0) groups, h.no_zero);
}

pub keyed-IsGroup :
    (groups : Map ℤ (List String)) (g : ℤ)
    → IsKeyed groups
    → is_some (lookup g groups) ≡ true
    → IsGroup (gids_of groups) g
keyed-IsGroup groups g h k =
    (λ e. ground (arith, h.no_zero, e, k), ground (arith, h.once g, times-lookup g groups, k))

pub some_key :
    (groups : Map ℤ (List String)) (g : ℤ) → is_some (lookup g groups) ≡ true → 0 < length groups
unfolding lookup
some_key [] g k = cc
some_key (e ∷ groups) g k = omega arith

pub owned_served :
    (groups : Map ℤ (List String)) (ss : List ℤ)
    → All (λ g. g ≢ pos 0) ss
    → All (HasOwner groups) ss
    → All (λ g. is_some (lookup g groups) ≡ true) ss
owned_served groups [] nz h = tt
owned_served groups (s ∷ ss) nz h = (ground (arith, nz.0, h.0), owned_served groups ss nz.1 h.1)

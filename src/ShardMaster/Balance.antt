-- ===== src/ShardMaster/Balance.antt =====
-- How many shards a group has after `JoinHandle` and `LeaveHandle` of src/shardmaster/server.go.
use distributed_systems_engi.Base.{
  ℕ, zero, suc, ◌+◌, ◌-◌, ◌/◌, ◌≤◌, ◌≡◌, ◌≢◌, refl, ap, inl, inr, false, ◌&&◌, ◌||◌, not, none,
  some, List, [], ◌∷◌, ℤ, pos, ltb, eqb, ◌==◌, ==-iff, int_eq, Map, lookup, insert, lookup-insert,
  delete, if◌then◌else◌, length, All, set_at, Bool-cases, arith, String, eqb_ℤ_iff,
}
use distributed_systems_engi.ShardMaster.{
  Config, Op, Tally, Order, count, bump, assign, is_new, no_owners, start_tally, keep_on_join,
  keep_on_leave, keep_all, place, place_all, gids_of, share, join_config, leave_config, n_shards,
}

-- The number of shards of a group
unfoldable pub load : ℤ → List ℤ → ℕ
load g [] = 0
load g (s ∷ ss) = let rest = load g ss in if s == g then suc rest else rest

load-set_at-le :
    (g y : ℤ) (i : ℕ) (ss : List ℤ) → load g (set_at i y ss) ≤ load g ss + (if y == g then 1 else 0)
unfolding load set_at
load-set_at-le g y i [] = omega arith
load-set_at-le g y zero (s ∷ ss) = ground arith
load-set_at-le g y (suc i) (s ∷ ss) = ground (arith, load-set_at-le g y i ss)

load-no_owners : (g : ℤ) (n : ℕ) → g ≢ pos 0 → load g (no_owners n) ≡ 0
unfolding load no_owners
load-no_owners g zero h = refl
load-no_owners g (suc n) h = ground (arith, load-no_owners g n h, ==-iff (pos 0) g, h)

pub count-bump :
    (g y : ℤ) (t : Tally) → count g (bump y t) ≡ (if y == g then suc (count y t) else count g t)
count-bump g y t = ground (arith, lookup-insert y g (suc (count y t)) t.counter)

module _ (g : ℤ) (owner : g ≢ pos 0) (aver : ℕ) where
  -- What the loops keep for the group
  abbrev IsFair : Tally → Type 0
  IsFair t = (load g t.shards ≤ count g t) × (count g t ≤ aver + 1)

  give-IsFair :
      (y : ℤ) (i : ℕ) (t : Tally) → count y t ≤ aver → IsFair t → IsFair (assign i y (bump y t))
  give-IsFair y i t room h = elim (Bool-cases (y == g)) [
    | inl same ↦
        let e : count y t ≡ count g t = ap (λ x. count x t) ((==-iff y g).0 same) in
        ground (arith, same, e, count-bump g y t, load-set_at-le g y i t.shards)
    | inr other ↦ ground (arith, other, count-bump g y t, load-set_at-le g y i t.shards)
  ]

  keep_on_join-IsFair :
      (gid : ℤ) (i : ℕ) (old : ℤ) (t : Tally)
      → old ≢ pos 0
      → IsFair t
      → IsFair (keep_on_join gid aver i old t)
  unfolding keep_on_join
  keep_on_join-IsFair gid i old t taken h =
      elim (Bool-cases (is_new old && ltb (count old t) aver)) [
        | inl small ↦ rw small (give-IsFair old i t (ground (arith, small)) h)
        | inr no1 ↦ elim (Bool-cases (is_new old && (eqb (count old t) aver && ltb 0 t.remain))) [
          | inl extra ↦
              rw (no1, extra)
                (give-IsFair old i (record t { remain = t.remain - 1 }) (ground (arith, extra)) h)
          | inr no2 ↦ ground (arith, no1, no2, taken, eqb_ℤ_iff old (pos 0), h)
        ]
      ]

  keep_on_leave-IsFair :
      (gid : ℤ) (i : ℕ) (old : ℤ) (t : Tally) → IsFair t → IsFair (keep_on_leave gid aver i old t)
  unfolding keep_on_leave
  keep_on_leave-IsFair gid i old t h =
      elim (Bool-cases (is_new old && (not (old == gid) && ltb (count old t) aver))) [
        | inl small ↦ rw small (give-IsFair old i t (ground (arith, small)) h)
        | inr no1 ↦
            elim (Bool-cases
              (is_new old && (not (old == gid) && (eqb (count old t) aver && ltb 0 t.remain)))) [
                | inl extra ↦
                    rw (no1, extra)
                      (give-IsFair old i (record t { remain = t.remain - 1 })
                        (ground (arith, extra)) h)
                | inr no2 ↦
                    let freed = load-set_at-le g (pos 0) i t.shards in
                    let zero_other : (pos 0 == g) ≡ false =
                      ground (arith, ==-iff (pos 0) g, owner) in
                    ground (arith, no1, no2, freed, zero_other, h)
              ]
      ]

  keep_all-IsFair :
      (keep : ℕ → ℤ → Tally → Tally) (Q : ℤ → Type 0)
      → ((i : ℕ) (old : ℤ) (t : Tally) → Q old → IsFair t → IsFair (keep i old t))
      → (i : ℕ) (olds : List ℤ) (t : Tally) → All Q olds
      → IsFair t
      → IsFair (keep_all keep i olds t)
  unfolding keep_all
  keep_all-IsFair keep Q step i [] t hq h = h
  keep_all-IsFair keep Q step i (old ∷ olds) t hq h =
      keep_all-IsFair keep Q step (suc i) olds (keep i old t) hq.1 (step i old t hq.0 h)

  place-IsFair :
      (shard : ℕ) (gids : List ℤ) (t : Tally) → IsFair t → IsFair (place aver shard gids t)
  unfolding place
  place-IsFair shard [] t h = h
  place-IsFair shard (gid ∷ gids) t h =
      let rest = place-IsFair shard gids t h in
      elim (Bool-cases (ltb (count gid t) aver || (eqb (count gid t) aver && ltb 0 t.remain))) [
        | inl room ↦ rw room (give-IsFair gid shard t (ground (arith, room)) h)
        | inr full ↦ rw full rest
      ]

  place_all-IsFair :
      (o : Order) (gids : List ℤ) (shards : List ℕ) (t : Tally)
      → IsFair t
      → IsFair (place_all o aver gids shards t)
  unfolding place_all
  place_all-IsFair o gids [] t h = h
  place_all-IsFair o gids (shard ∷ shards) t h =
      place_all-IsFair o gids shards (place aver shard (o.gid_order shard gids) t)
        (place-IsFair shard (o.gid_order shard gids) t h)

  start-IsFair : (groups : ℕ) → IsFair (start_tally groups)
  start-IsFair groups =
      let none_yet : lookup {V = ℕ} g [] ≡ none = unfold lookup in refl in
      ground (arith, load-no_owners g n_shards owner, none_yet)

All-any : (ss : List ℤ) → All (λ s. s ≡ s) ss
All-any [] = tt
All-any (s ∷ ss) = (refl, All-any ss)

-- The two loops, where the first keeps what it shall
share-load-le :
    (g : ℤ) (o : Order) (keep : ℕ → ℕ → ℤ → Tally → Tally) (Q : ℤ → Type 0) (old : List ℤ)
    (groups : Map ℤ (List String))
    → (owner : g ≢ pos 0)
    → ((aver i : ℕ) (s : ℤ) (t : Tally)
        → Q s
        → IsFair g owner aver t
        → IsFair g owner aver (keep aver i s t))
    → All Q old
    → load g (share o keep old groups) ≤ n_shards / length groups + 1
unfolding share
share-load-le g o keep Q old groups owner step hq =
    let aver = n_shards / length groups in
    let first =
      keep_all-IsFair g owner aver (keep aver) Q (step aver) 0 old (start_tally (length groups)) hq
        (start-IsFair g owner aver (length groups)) in
    let kept = keep_all (keep aver) 0 old (start_tally (length groups)) in
    let (most, fair) =
      place_all-IsFair g owner aver o (gids_of groups) (o.shard_order kept.all_shards) kept first in
    omega (arith, most, fair)

-- After a join to a config in which each shard has a group, in any order of the map ranges, no group
-- has more than one shard above the average, rounded down.
pub join_config-load-le :
    (o : Order) (op : Op) (conf_num : ℕ) (latest : Config) (g : ℤ)
    → g ≢ pos 0
    → All (λ s. s ≢ pos 0) latest.shards
    → let new = join_config o op conf_num latest in
      load g new.shards ≤ n_shards / length new.groups + 1
unfolding join_config
join_config-load-le o op conf_num latest g owner all_taken =
    share-load-le g o (keep_on_join op.gid) (λ s. s ≢ pos 0) latest.shards
      (insert op.gid op.servers latest.groups) owner
      (λ aver i s t hs h. keep_on_join-IsFair g owner aver op.gid i s t hs h) all_taken

-- After a leave that does not panic, in any order of the map ranges, no group has more than one shard
-- above the average of those that stay, rounded down.
pub leave_config-load-le :
    (o : Order) (op : Op) (conf_num : ℕ) (latest new : Config) (g : ℤ)
    → g ≢ pos 0
    → leave_config o op conf_num latest ≡ some new
    → load g new.shards ≤ n_shards / length new.groups + 1
unfolding leave_config
leave_config-load-le o op conf_num latest new g owner e =
    let groups = delete op.gid latest.groups in
    let fair =
      share-load-le g o (keep_on_leave op.gid) (λ s. s ≡ s) latest.shards groups owner
        (λ aver i s t hs h. keep_on_leave-IsFair g owner aver op.gid i s t h)
        (All-any latest.shards) in
    ground (arith, e, fair)

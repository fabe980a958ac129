-- ===== src/ShardMaster/Serving.antt =====
-- After `JoinHandle` and `LeaveHandle` of src/shardmaster/server.go every shard has a group.
use mathlib.Core.Path.{subst}
use distributed_systems_engi.Base.{
  ℕ, occurs-upto, ◌∙◌, ◌/◌, ◌%◌, ◌<◌, ◌≡◌, ◌≢◌, refl, sym, ap, ◌⊎◌, inl, inr, true, false, some,
  List, [], ◌∷◌, ◌++◌, ℤ, pos, ◌==◌, ==-iff, int_eq, nat_eq, Map, is_some, lookup, insert,
  lookup-insert, lookup-delete, delete, length, All, arith, String, eqb_ℤ_iff, occurs, All-mono,
  string_eq, some-injective,
}
use distributed_systems_engi.ShardMaster.{
  Config, Op, Tally, Order, no_owners, start_tally, keep_on_join, keep_on_leave, keep_all, gids_of,
  share, join_config, leave_config, n_shards, ShardMaster, Pass, exec_op, returns, latest,
}
use distributed_systems_engi.ShardMaster.Sums.{sum, length-gids_of}
use distributed_systems_engi.ShardMaster.Spread.{
  IsGroup, Keeps, Inv, keep_on_join-Keeps, keep_on_leave-Keeps, keep_all-Inv, All-get_elem?,
}
use distributed_systems_engi.ShardMaster.Handover.{
  HasOwner, IsOwned, gids_of-All, join_config-IsOwned, leave_config-hands_off, leave_config-some,
  left_config,
}
use native.Mathlib.Nat.{div-add-mod, mod-lt}
use distributed_systems_engi.ShardMaster.Filling.{
  VisitsEach, occurs-nil, shuffled-Inv, start-Inv, place_all-Inv,
}
use distributed_systems_engi.ShardMaster.Groups.{
  IsKeyed, IsServed, insert-IsKeyed, delete-IsKeyed, keyed-IsGroup, some_key, owned_served,
}
use distributed_systems_engi.ShardMaster.Updates.{
  Update, joins, leaves, moves, nothing, exec_op-keeps, latest-append,
}

-- The two loops, where the first keeps what it shall
share-placed :
    (o : Order) (keep : ℕ → ℕ → ℤ → Tally → Tally) (Q : ℤ → Type 0) (old : List ℤ)
    (groups : Map ℤ (List String))
    → ((aver extra i : ℕ) (g : ℤ) (t : Tally)
        → Q g
        → 0 < occurs i t.all_shards
        → Inv (gids_of groups) aver extra t.all_shards t
        → Keeps (gids_of groups) aver extra i t (keep aver i g t))
    → VisitsEach o
    → All Q old
    → length old ≡ n_shards
    → IsKeyed groups
    → 0 < length groups
    → All (λ g. g ≢ pos 0) (share o keep old groups) × (length (share o keep old groups) ≡ n_shards)
unfolding share
share-placed o keep Q old groups step v hq ten keyed some_group =
    let gs = gids_of groups in
    let aver = n_shards / length groups in
    let extra = n_shards % length groups in
    let kept = keep_all (keep aver) 0 old (start_tally (length groups)) in
    let first =
      keep_all-Inv gs aver extra Q (keep aver) (step aver extra) 0 old (start_tally (length groups))
        hq (λ j ge lt. ground (arith, occurs-upto j n_shards 0, ten))
        (start-Inv gs (length groups)) in
    let last =
      place_all-Inv gs aver extra (omega (arith, length-gids_of groups))
        (omega (arith, length-gids_of groups, mod-lt n_shards some_group))
        (rw (length-gids_of groups) (div-add-mod n_shards (length groups))) o
        (o.shard_order kept.all_shards) kept v
        (gids_of-All (IsGroup gs) groups (λ g k. keyed-IsGroup groups g keyed k))
        (shuffled-Inv gs aver extra o kept v first) in
    (
      All-get_elem? (λ g. g ≢ pos 0) _ (λ j g e z. nowhere j (last.placed j (e ∙ ap some z))),
      last.size,
    )
  where
    nowhere : (j : ℕ) → 0 < occurs j [] → ⊥
    nowhere j h = absurd (occurs-nil j h)

-- A join, in any order in which the maps are visited: where each of the ten shards had no group or a
-- group of the config, whose ids are not 0 and are not repeated, then each has a group of the new
-- config, whose ids are so too, if the id of the group that joins is not 0.
pub join_config-IsServed :
    (o : Order) (op : Op) (n : ℕ) (c : Config)
    → VisitsEach o
    → IsOwned c
    → IsKeyed c.groups
    → length c.shards ≡ n_shards
    → op.gid ≢ pos 0
    → IsServed (join_config o op n c)
unfolding join_config
join_config-IsServed o op n c v owned keyed ten nz =
    let groups = insert op.gid op.servers c.groups in
    let keyed' = insert-IsKeyed op.gid op.servers c.groups nz keyed in
    let placed =
      share-placed o (keep_on_join op.gid) (HasOwner c.groups) c.shards groups
        (λ aver extra i g t q here h.
          keep_on_join-Keeps (gids_of groups) aver extra op.gid i g t nz (grown g q) here h)
        v owned ten keyed' (some_key groups op.gid joined) in
    record {
      keyed = keyed';
      size = placed.1;
      served = owned_served groups _ placed.0 (join_config-IsOwned o op n c v.gid_only owned).0;
    }
  where
    joined : is_some (lookup op.gid (insert op.gid op.servers c.groups)) ≡ true
    joined =
        ground (arith, lookup-insert op.gid op.gid op.servers c.groups, eqb_ℤ_iff op.gid op.gid)

    grown :
        (g : ℤ)
        → HasOwner c.groups g
        → (g ≡ pos 0) ⊎ IsGroup (gids_of (insert op.gid op.servers c.groups)) g
    grown g (inl none') = inl none'
    grown g (inr k) = inr (
        keyed-IsGroup (insert op.gid op.servers c.groups) g
          (insert-IsKeyed op.gid op.servers c.groups nz keyed)
          (ground (arith, lookup-insert op.gid g op.servers c.groups, k)))

-- A leave that does not panic, in any order in which the maps are visited: where each of the ten shards
-- had a group of the config, each has a group of the new config, if the id that leaves is not 0.
pub leave_config-IsServed :
    (o : Order) (op : Op) (n : ℕ) (c c' : Config)
    → VisitsEach o
    → IsServed c
    → op.gid ≢ pos 0
    → leave_config o op n c ≡ some c'
    → IsServed c'
leave_config-IsServed o op n c c' v h nz e =
    let groups = delete op.gid c.groups in
    let (some_left, q) = leave_config-some o op n c c' e in
    let placed =
      share-placed o (keep_on_leave op.gid) (λ g. is_some (lookup g c.groups) ≡ true) c.shards
        groups
        (λ aver extra i g t k here p.
          keep_on_leave-Keeps (gids_of groups) aver extra op.gid i g t (taken g k) (stays g k) here
            p)
        v h.served h.size (delete-IsKeyed op.gid c.groups h.keyed) some_left in
    let owned : IsOwned c = All-mono _ (HasOwner c.groups) (λ g k. inr k) c.shards h.served in
    let off =
      leave_config-hands_off o op n c (left_config o op n c) v.gid_only owned nz
        (e ∙ ap some (sym q)) in
    subst IsServed q (record {
      keyed = delete-IsKeyed op.gid c.groups h.keyed;
      size = placed.1;
      served = owned_served groups _ placed.0 (All-mono _ (HasOwner groups) (λ g k. k.0) _ off.0);
    })
  where
    taken : (g : ℤ) → is_some (lookup g c.groups) ≡ true → g ≢ pos 0
    taken g k z = ground (arith, h.keyed.no_zero, z, k)

    stays :
        (g : ℤ)
        → is_some (lookup g c.groups) ≡ true
        → g ≢ op.gid
        → IsGroup (gids_of (delete op.gid c.groups)) g
    stays g k ne =
        keyed-IsGroup (delete op.gid c.groups) g (delete-IsKeyed op.gid c.groups h.keyed)
          (ground (arith, lookup-delete op.gid g c.groups, k, ne, ==-iff op.gid g))

-- A config has no groups yet, or each shard has one.
abbrev pub IsFine : Config → Type 0
IsFine c = ((c.groups ≡ []) × (c.shards ≡ no_owners n_shards)) ⊎ IsServed c

-- The latest config is so.
abbrev pub LatestServes : List Config → Type 0
LatestServes cs = (c : Config) → latest cs ≡ some c → IsFine c

-- What the operations of the log must be: no move, and no group with id 0
pub record IsPlain (op : Op) : Type 0 where
  pub no_move : (op.type == "Move") ≡ false
  pub join_id : (op.type == "Join") ≡ true → op.gid ≢ pos 0
  pub leave_id : (op.type == "Leave") ≡ true → op.gid ≢ pos 0

no_groups-IsKeyed : IsKeyed []
unfolding gids_of sum lookup
no_groups-IsKeyed = record { once = λ g. omega arith; no_zero = refl }

IsFine-join :
    (o : Order) (op : Op) (n : ℕ) (c : Config)
    → VisitsEach o
    → op.gid ≢ pos 0
    → IsFine c
    → IsServed (join_config o op n c)
IsFine-join o op n c v nz (inl (g, s)) =
    join_config-IsServed o op n c v (rw s (unfold no_owners in ground arith))
      (rw g no_groups-IsKeyed) (rw s (unfold no_owners in refl)) nz
IsFine-join o op n c v nz (inr h) =
    join_config-IsServed o op n c v
      (All-mono _ (HasOwner c.groups) (λ g k. inr k) c.shards h.served) h.keyed h.size nz

IsFine-leave :
    (o : Order) (op : Op) (n : ℕ) (c d : Config)
    → VisitsEach o
    → op.gid ≢ pos 0
    → leave_config o op n c ≡ some d
    → IsFine c
    → IsServed d
unfolding delete
IsFine-leave o op n c d v nz made (inl (g, s)) =
    absurd (omega (arith, rw g at (leave_config-some o op n c d made).0))
IsFine-leave o op n c d v nz made (inr h) = leave_config-IsServed o op n c d v h nz made

Added-LatestServes : (cs : List Config) (c : Config) → IsServed c → LatestServes (cs ++ c ∷ [])
Added-LatestServes cs c h d e = subst IsFine (some-injective (sym (latest-append cs c) ∙ e)) (inr h)

Update-LatestServes :
    (o : Order) (op : Op) (cs cs' : List Config)
    → VisitsEach o
    → IsPlain op
    → LatestServes cs
    → Update o op cs cs'
    → LatestServes cs'
Update-LatestServes o op cs _ v plain h (joins c t e) =
    Added-LatestServes cs _ (IsFine-join o op (length cs) c v (plain.join_id t) (h c e))
Update-LatestServes o op cs _ v plain h (leaves c d t e made) =
    Added-LatestServes cs d (IsFine-leave o op (length cs) c d v (plain.leave_id t) made (h c e))
Update-LatestServes o op cs _ v plain h (moves c t e) = absurd (cc (t, plain.no_move))
Update-LatestServes o op cs _ v plain h nothing = h

-- Where a log has no move and no group with id 0, `range` visits each key once, and `ExecOp` returns:
-- if in the latest config of the replica, when that has any groups, each of the ten shards has one of
-- them, then it is so afterwards.
pub exec_op-LatestServes :
    (log : ℤ → Op) (orders : ℤ → Order) (args : Op) (ps : List Pass) (sm sm' : ShardMaster)
    → ((i : ℤ) → VisitsEach (orders i))
    → ((i : ℤ) → IsPlain (log i))
    → LatestServes sm.configs
    → exec_op log orders args ps sm ≡ returns sm'
    → LatestServes sm'.configs
exec_op-LatestServes log orders args ps sm sm' v plain =
    exec_op-keeps LatestServes log orders
      (λ i cs cs' h u. Update-LatestServes (orders i) (log i) cs cs' (v i) (plain i) h u) args ps sm
      sm'

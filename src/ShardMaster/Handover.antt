-- ===== src/ShardMaster/Handover.antt =====
-- Whose the shards are after `JoinHandle`, `LeaveHandle` and `MoveHandle` of
-- src/shardmaster/server.go.
use mathlib.Core.Path.{subst}
use distributed_systems_engi.Base.{
  ℕ, zero, suc, ◌+◌, ◌<◌, ◌/◌, ◌≡◌, ◌≢◌, refl, sym, ◌⊎◌, inl, inr, true, ◌&&◌, some, List, [], ◌∷◌,
  ℤ, pos, ltb, eqb, ◌==◌, ==-iff, int_eq, Map, is_some, lookup, insert, lookup-insert, delete,
  lookup-delete, if◌then◌else◌, length, All, All-set_at, Bool-cases, arith, String, eqb_ℤ_iff,
  get_elem?, some-injective,
}
use distributed_systems_engi.ShardMaster.{
  Config, Op, Tally, Order, no_owners, start_tally, keep_on_join, keep_on_leave, keep_all, place,
  place_all, gids_of, share, join_config, leave_config, move_shard, move_config, n_shards,
}

-- What Go says of a `range`: it visits keys of the map only.
abbrev pub Visits : Order → Type 1
Visits o =
    (P : ℤ → Type 0) (shard : ℕ) (gids : List ℤ) → All P gids → All P (o.gid_order shard gids)

module _ (P : ℤ → Type 0) (zero_ok : P (pos 0)) where
  no_owners-All : (n : ℕ) → All P (no_owners n)
  unfolding no_owners
  no_owners-All zero = tt
  no_owners-All (suc n) = (zero_ok, no_owners-All n)

  keep_on_join-All :
      (gid : ℤ) (aver i : ℕ) (old : ℤ) (t : Tally)
      → P gid
      → P old
      → All P t.shards
      → All P (keep_on_join gid aver i old t).shards
  unfolding keep_on_join
  keep_on_join-All gid aver i old t hg ho h =
      let kept = All-set_at P i old t.shards ho h in
      let given = All-set_at P i gid t.shards hg h in ground (arith, kept, given)

  -- A shard that is kept has another owner than the group that leaves.
  keep_on_leave-All :
      (gid : ℤ) (aver i : ℕ) (old : ℤ) (t : Tally)
      → (old ≢ gid → P old)
      → All P t.shards
      → All P (keep_on_leave gid aver i old t).shards
  unfolding keep_on_leave
  keep_on_leave-All gid aver i old t ho h = elim (Bool-cases (old == gid)) [
    | inl leaves ↦ rw leaves (ground (arith, All-set_at P i (pos 0) t.shards zero_ok h))
    | inr stays ↦
        let kept = All-set_at P i old t.shards (ho (ground (arith, ==-iff old gid))) h in
        let free = All-set_at P i (pos 0) t.shards zero_ok h in
        rw stays (ground (arith, kept, free))
  ]

  keep_all-All :
      (Q : ℤ → Type 0) (keep : ℕ → ℤ → Tally → Tally)
      → ((i : ℕ) (old : ℤ) (t : Tally) → Q old → All P t.shards → All P (keep i old t).shards)
      → (i : ℕ) (olds : List ℤ) (t : Tally) → All Q olds
      → All P t.shards
      → All P (keep_all keep i olds t).shards
  unfolding keep_all
  keep_all-All Q keep step i [] t hq h = h
  keep_all-All Q keep step i (old ∷ olds) t hq h =
      keep_all-All Q keep step (suc i) olds (keep i old t) hq.1 (step i old t hq.0 h)

  place-All :
      (aver shard : ℕ) (gids : List ℤ) (t : Tally)
      → All P gids
      → All P t.shards
      → All P (place aver shard gids t).shards
  unfolding place
  place-All aver shard [] t hg h = h
  place-All aver shard (gid ∷ gids) t hg h =
      let rest = place-All aver shard gids t hg.1 h in
      let given = All-set_at P shard gid t.shards hg.0 h in ground (arith, rest, given)

  place_all-All :
      (o : Order) (aver : ℕ) (gids : List ℤ) (shards : List ℕ) (t : Tally)
      → Visits o
      → All P gids
      → All P t.shards
      → All P (place_all o aver gids shards t).shards
  unfolding place_all
  place_all-All o aver gids [] t v hg h = h
  place_all-All o aver gids (shard ∷ shards) t v hg h =
      place_all-All o aver gids shards (place aver shard (o.gid_order shard gids) t) v hg
        (place-All aver shard (o.gid_order shard gids) t (v P shard gids hg) h)

  share-All :
      (Q : ℤ → Type 0) (o : Order) (keep : ℕ → ℕ → ℤ → Tally → Tally) (old : List ℤ)
      (groups : Map ℤ (List String))
      → ((aver i : ℕ) (g : ℤ) (t : Tally) → Q g → All P t.shards → All P (keep aver i g t).shards)
      → Visits o
      → All Q old
      → All P (gids_of groups)
      → All P (share o keep old groups)
  unfolding share
  share-All Q o keep old groups step v hq hg =
      let aver = n_shards / length groups in
      let kept = keep_all (keep aver) 0 old (start_tally (length groups)) in
      place_all-All o aver (gids_of groups) (o.shard_order kept.all_shards) kept v hg (
        keep_all-All Q (keep aver) (step aver) 0 old (start_tally (length groups)) hq
          (no_owners-All n_shards))

pub gids_of-All :
    (Q : ℤ → Type 0) (m : Map ℤ (List String))
    → ((g : ℤ) → is_some (lookup g m) ≡ true → Q g)
    → All Q (gids_of m)
unfolding gids_of lookup
gids_of-All Q [] h = tt
gids_of-All Q ((j, servers) ∷ m) h = (
  h j (ground (arith, eqb_ℤ_iff j j)),
  gids_of-All Q m (λ g k. h g (ground (arith, eqb_ℤ_iff j g))),
)

-- A shard has no group, or one of these groups.
abbrev pub HasOwner : Map ℤ (List String) → ℤ → Type 0
HasOwner groups g = (g ≡ pos 0) ⊎ (is_some (lookup g groups) ≡ true)

abbrev pub IsOwned : Config → Type 0
IsOwned c = All (HasOwner c.groups) c.shards

-- A join, in whatever order the maps are visited: where each shard had no group or a group of the
-- config, it has no group or a group of the new config, which are the old groups and the one that
-- joins.
pub join_config-IsOwned :
    (o : Order) (op : Op) (n : ℕ) (c : Config)
    → Visits o
    → IsOwned c
    → IsOwned (join_config o op n c)
      × ((g : ℤ)
          → lookup g (join_config o op n c).groups
            ≡ (if op.gid == g then some op.servers else lookup g c.groups))
unfolding join_config
join_config-IsOwned o op n c v h =
    let groups = insert op.gid op.servers c.groups in
    let grown : (g : ℤ) → HasOwner c.groups g → HasOwner groups g =
      λ g k. ground (arith, k, lookup-insert op.gid g op.servers c.groups) in
    let joined : HasOwner groups op.gid =
      inr (
        ground (arith, lookup-insert op.gid op.gid op.servers c.groups, eqb_ℤ_iff op.gid op.gid)) in
    (
      share-All (HasOwner groups) (inl refl) (HasOwner c.groups) o (keep_on_join op.gid) c.shards
          groups
          (λ aver i g t k.
            keep_on_join-All (HasOwner groups) (inl refl) op.gid aver i g t joined (grown g k))
          v h (gids_of-All (HasOwner groups) groups (λ g k. inr k)),
      λ g. lookup-insert op.gid g op.servers c.groups,
    )

-- The config that a leave makes
abbrev pub left_config : Order → Op → ℕ → Config → Config
left_config o op n c = record {
  num = n + 1;
  shards = share o (keep_on_leave op.gid) c.shards (delete op.gid c.groups);
  groups = delete op.gid c.groups;
}

pub leave_config-some :
    (o : Order) (op : Op) (n : ℕ) (c c' : Config)
    → leave_config o op n c ≡ some c'
    → (0 < length (delete op.gid c.groups)) × (left_config o op n c ≡ c')
unfolding leave_config
leave_config-some o op n c c' e = elim (Bool-cases (eqb (length (delete op.gid c.groups)) 0)) [
  | inl none_left ↦ absurd (cc (rw none_left at e))
  | inr some_left ↦ (ground (arith, some_left), some-injective (rw some_left at e))
]

-- A leave that does not panic, in whatever order the maps are visited: where each shard had no
-- group or a group of the config, it has no group or one of the groups that stay, and the group
-- that leaves, whose id is not 0, has no shard.
pub leave_config-hands_off :
    (o : Order) (op : Op) (n : ℕ) (c c' : Config)
    → Visits o
    → IsOwned c
    → op.gid ≢ pos 0
    → leave_config o op n c ≡ some c'
    → All (λ g. HasOwner (delete op.gid c.groups) g × (g ≢ op.gid)) c'.shards
      × (c'.groups ≡ delete op.gid c.groups)
unfolding leave_config
leave_config-hands_off o op n c c' v h nz e =
    let groups = delete op.gid c.groups in
    let P : ℤ → Type 0 = λ g. HasOwner groups g × (g ≢ op.gid) in
    let free : P (pos 0) = (inl refl, λ q. nz (sym q)) in
    let kept : (g : ℤ) → HasOwner c.groups g → g ≢ op.gid → P g =
      λ g k ne. (ground (arith, k, lookup-delete op.gid g c.groups, eqb_ℤ_iff op.gid g), ne) in
    let stays : (g : ℤ) → is_some (lookup g groups) ≡ true → P g = λ g k. (inr k, gone g k) in
    let shards =
      share-All P free (HasOwner c.groups) o (keep_on_leave op.gid) c.shards groups
        (λ aver i g t k. keep_on_leave-All P free op.gid aver i g t (kept g k)) v h
        (gids_of-All P groups stays) in
    let (some_left, q) = leave_config-some o op n c c' e in
    subst (λ x. All P x.shards × (x.groups ≡ groups)) q (shards, refl)
  where
    gone : (g : ℤ) → is_some (lookup g (delete op.gid c.groups)) ≡ true → g ≢ op.gid
    gone g k q = ground (arith, lookup-delete op.gid g c.groups, eqb_ℤ_iff op.gid g)

move_shard_lem :
    (shard gid : ℤ) (k i m : ℕ) (olds : List ℤ)
    → m ≡ k + i
    → get_elem? (move_shard shard gid k olds) i
      ≡ (if pos m == shard && ltb i (length olds) then some gid else get_elem? olds i)
unfolding move_shard
move_shard_lem shard gid k i m [] e = ground arith
move_shard_lem shard gid k zero m (old ∷ olds) e = ground arith
move_shard_lem shard gid k (suc i) m (old ∷ olds) e =
    ground (arith, move_shard_lem shard gid (suc k) i m olds)

-- A move gives the shard to the group, if there is such a shard, and leaves the other shards and the
-- groups alone.
pub move_config-moves :
    (op : Op) (n i : ℕ) (c : Config)
    → (get_elem? (move_config op n c).shards i ≡ (
        if pos i == op.shard && ltb i (length c.shards) then some op.gid else get_elem? c.shards i))
      × ((move_config op n c).groups ≡ c.groups)
unfolding move_config
move_config-moves op n i c = (move_shard_lem op.shard op.gid 0 i i c.shards (omega arith), refl)

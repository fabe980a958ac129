-- ===== src/ShardMaster/Filling.antt =====
-- The second loop of `JoinHandle` and `LeaveHandle` of src/shardmaster/server.go: while a shard is to be
-- placed, some group has room.
use distributed_systems_engi.Base.{
  ℕ, upto, occurs-upto, length-upto, ℕ_discrete, zero, suc, ◌+◌, ◌-◌, ◌*◌, ◌/◌, ◌%◌, ◌≤◌, ◌<◌, ◌≡◌,
  refl, ◌⊎◌, inl, inr, Bool, true, false, ◌&&◌, ◌||◌, none, some, List, [], ◌∷◌, ℤ, pos, ltb, eqb,
  ==-iff, int_eq, nat_eq, lookup, length, get_elem?, All, Bool-cases, arith, occurs, All-mono,
}
use distributed_systems_engi.ShardMaster.{
  Tally, Order, count, bump, assign, no_owners, start_tally, place, place_all, n_shards,
}
use distributed_systems_engi.ShardMaster.Sums.{sum, sum-le, sum-above, sum-ones}
use distributed_systems_engi.ShardMaster.Spread.{IsGroup, Inv, give-Inv}

-- What Go says of the two `range`s of the second loop: each key of the map is visited, once.
pub record VisitsEach (o : Order) : Type 1 where
  pub shard_length : (js : List ℕ) → length (o.shard_order js) ≡ length js
  pub shard_occurs : (j : ℕ) (js : List ℕ) → occurs j (o.shard_order js) ≡ occurs j js
  pub gid_only :
      (P : ℤ → Type 0) (shard : ℕ) (gs : List ℤ) → All P gs → All P (o.gid_order shard gs)
  pub gid_all : (P : ℤ → Type 0) (shard : ℕ) (gs : List ℤ) → All P (o.gid_order shard gs) → All P gs

module _ (gs : List ℤ) (aver extra : ℕ) (some_group : 0 < length gs) (few : extra < length gs)
    (sizes : length gs * aver + extra ≡ n_shards) where
  -- The test of the inner loop: the group can take one more.
  abbrev has_room : Tally → ℤ → Bool
  has_room t g = ltb (count g t) aver || (eqb (count g t) aver && ltb 0 t.remain)

  abbrev IsFull : Tally → ℤ → Type 0
  IsFull t g = has_room t g ≡ false

  -- While a shard is to be placed, some group has room.
  some_room :
      (rest : List ℕ) (t : Tally) → Inv gs aver extra rest t → 0 < length rest → ¬ All (IsFull t) gs
  some_room rest t h left full = elim (ℕ_discrete t.remain 0) [
    | yes none_left ↦
        let reached =
          sum-above (λ g. count g t) aver gs
            (All-mono (IsFull t) (λ g. aver ≤ count g t) (λ g f. ground (arith, f)) gs full) in
        omega (arith, h.spread, h.spare, reached, sizes)
    | no some_left ↦
        let reached =
          sum-above (λ g. count g t) aver gs
            (All-mono (IsFull t) (λ g. aver ≤ count g t) (λ g f. ground (arith, f)) gs full) in
        let passed =
          sum-ones (λ g. count g t - aver) gs
            (All-mono (IsFull t) (λ g. 1 ≤ count g t - aver) (λ g f. ground (arith, f)) gs full) in
        omega (arith, h.spread, reached, passed, sizes, few)
  ]

  -- The inner loop gives the shard to the first group that has room.
  place_cases :
      (shard : ℕ) (js : List ℤ) (t : Tally)
      → All (IsGroup gs) js
      → All (IsFull t) js
        ⊎ ((y : ℤ) × IsGroup gs y
            × (has_room t y ≡ true)
            × (place aver shard js t ≡ assign shard y (bump y t)))
  unfolding place
  place_cases shard [] t hs = inl tt
  place_cases shard (g ∷ js) t hs = elim (Bool-cases (has_room t g)) [
    | inl room ↦ inr (g, hs.0, room, rw room refl)
    | inr full ↦ elim (place_cases shard js t hs.1) [
      | inl rest ↦ inl (full, rest)
      | inr (y, group, room, e) ↦ inr (y, group, room, rw full e)
    ]
  ]

  pub place_all-Inv :
      (o : Order) (shards : List ℕ) (t : Tally)
      → VisitsEach o
      → All (IsGroup gs) gs
      → Inv gs aver extra shards t
      → Inv gs aver extra [] (place_all o aver gs shards t)
  unfolding place_all
  place_all-Inv o [] t v groups h = h
  place_all-Inv o (shard ∷ shards) t v groups h =
      elim (place_cases shard (o.gid_order shard gs) t (v.gid_only _ shard gs groups)) [
        | inl full ↦
            absurd
              (some_room (shard ∷ shards) t h (omega arith) (v.gid_all (IsFull t) shard gs full))
        | inr (y, group, room, e) ↦ rw e (
            place_all-Inv o shards (assign shard y (bump y t)) v groups (
              give-Inv gs aver extra y shard t.remain (shard ∷ shards) shards t group (omega arith)
                (omega arith) (λ j ne. unfold occurs in ground (arith, ==-iff shard j, ne)) h))
      ]

pub occurs-nil : (j : ℕ) → 0 < occurs j [] → ⊥
unfolding occurs
occurs-nil j h = omega arith

pub shuffled-Inv :
    (gs : List ℤ) (aver extra : ℕ) (o : Order) (t : Tally)
    → VisitsEach o
    → Inv gs aver extra t.all_shards t
    → Inv gs aver extra (o.shard_order t.all_shards) t
shuffled-Inv gs aver extra o t v h = record {
  size = h.size;
  spread = omega (arith, h.spread, v.shard_length t.all_shards);
  spare = h.spare;
  placed = λ j e. omega (arith, h.placed j e, v.shard_occurs j t.all_shards);
}

sum-zero : (gs : List ℤ) → sum (λ g. 0) gs ≡ 0
unfolding sum
sum-zero [] = refl
sum-zero (g ∷ gs) = omega (arith, sum-zero gs)

no_owners-short : (n j : ℕ) (g : ℤ) → get_elem? (no_owners n) j ≡ some g → j < n
unfolding no_owners
no_owners-short zero j g e = cc
no_owners-short (suc n) zero g e = omega arith
no_owners-short (suc n) (suc j) g e = omega (arith, no_owners-short n j g e)

-- Before the first loop no shard has a group, and all are to be placed.
pub start-Inv :
    (gs : List ℤ) (groups : ℕ)
    → Inv gs (n_shards / groups) (n_shards % groups) (upto n_shards 0) (start_tally groups)
start-Inv gs groups =
    let none_yet : (g : ℤ) → lookup {V = ℕ} g [] ≡ none = λ g. unfold lookup in refl in
    let empty : sum (λ g. count g (start_tally groups)) gs ≤ sum (λ g. 0) gs + sum (λ g. 0) gs =
      sum-le (λ g. 0) (λ g. 0) (λ g. count g (start_tally groups)) gs
        (λ g. rw (none_yet g) (omega arith)) in
    record {
      size = unfold no_owners in refl;
      spread = omega (arith, empty, sum-zero gs, length-upto n_shards 0);
      spare = omega arith;
      placed =
          λ j e. ground (arith, occurs-upto j n_shards 0, no_owners-short n_shards j (pos 0) e);
    }

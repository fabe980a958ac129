-- ===== src/ShardMaster/Spread.antt =====
-- What the loops of `JoinHandle` and `LeaveHandle` of src/shardmaster/server.go keep between the shards
-- placed, those left over, and `remain`; and that the first loop keeps it.
use mathlib.Core.Path.{subst}
use distributed_systems_engi.Base.{
  ℕ, length-set_at, ℕ_discrete, ◌∙◌, zero, suc, ◌+◌, ◌-◌, ◌≤◌, ◌<◌, ◌≡◌, ◌≢◌, refl, sym, ap, ◌⊎◌,
  inl, inr, false, ◌&&◌, not, some, List, [], ◌∷◌, ℤ, pos, ltb, eqb, ◌==◌, ==-iff, int_eq, nat_eq,
  if◌then◌else◌, length, get_elem?, All, set_at, Bool-cases, arith, occurs,
}
use distributed_systems_engi.ShardMaster.{
  Tally, count, bump, assign, is_new, remove, keep_on_join, keep_on_leave, keep_all, n_shards,
}
use distributed_systems_engi.ShardMaster.Balance.{count-bump}
use distributed_systems_engi.ShardMaster.Sums.{
  sum, sum-le, sum-ge, hit, times, occurs-remove, length-remove,
}

get_elem?-set_at_self :
    (i : ℕ) (y z : ℤ) (xs : List ℤ) → get_elem? (set_at i y xs) i ≡ some z → y ≡ z
unfolding set_at
get_elem?-set_at_self i y z [] e = cc
get_elem?-set_at_self zero y z (x ∷ xs) e = cc
get_elem?-set_at_self (suc i) y z (x ∷ xs) e = get_elem?-set_at_self i y z xs e

get_elem?-set_at_ne :
    (i j : ℕ) (y : ℤ) (xs : List ℤ) → i ≢ j → get_elem? (set_at i y xs) j ≡ get_elem? xs j
unfolding set_at
get_elem?-set_at_ne i j y [] ne = refl
get_elem?-set_at_ne zero zero y (x ∷ xs) ne = absurd (ne refl)
get_elem?-set_at_ne zero (suc j) y (x ∷ xs) ne = refl
get_elem?-set_at_ne (suc i) zero y (x ∷ xs) ne = refl
get_elem?-set_at_ne (suc i) (suc j) y (x ∷ xs) ne =
    get_elem?-set_at_ne i j y xs (λ e. ne (ap suc e))

pub All-get_elem? :
    (P : ℤ → Type 0) (xs : List ℤ) → ((j : ℕ) (x : ℤ) → get_elem? xs j ≡ some x → P x) → All P xs
All-get_elem? P [] h = tt
All-get_elem? P (x ∷ xs) h = (h 0 x refl, All-get_elem? P xs (λ j. h (suc j)))

module _ (gs : List ℤ) where
  -- The shards that the groups have taken
  abbrev pub total : Tally → ℕ
  total t = sum (λ g. count g t) gs

  -- One of the groups, which has an id
  abbrev pub IsGroup : ℤ → Type 0
  IsGroup g = (g ≢ pos 0) × (times g gs ≡ 1)

  total-bump : (y : ℤ) (t : Tally) → times y gs ≡ 1 → total (bump y t) ≤ total t + 1
  total-bump y t e = omega (
    arith,
    e,
    sum-le (λ g. count g t) (hit y) (λ g. count g (bump y t)) gs
        (λ g. ground (arith, count-bump g y t, ==-iff y g)),
  )

module _ (gs : List ℤ) (aver extra : ℕ) where
  -- What the groups have above the average
  abbrev pub above : Tally → ℕ
  above t = sum (λ g. count g t - aver) gs

  -- What the loops keep, where the shards `rest` are still to be placed
  pub record Inv (rest : List ℕ) (t : Tally) : Type 0 where
    pub size : length t.shards ≡ n_shards
    pub spread : total gs t + length rest ≤ n_shards
    pub spare : extra ≤ above t + t.remain
    pub placed : (j : ℕ) → get_elem? t.shards j ≡ some (pos 0) → 0 < occurs j rest

  -- One more above the average, where the group has reached it
  above-bump :
      (y : ℤ) (t : Tally)
      → times y gs ≡ 1
      → above t + (if ltb (count y t) aver then 0 else 1) ≤ above (bump y t)
  above-bump y t e = elim (Bool-cases (ltb (count y t) aver)) [
    | inl low ↦ rw low (
        omega (
          arith,
          sum-ge (λ g. count g t - aver) (λ g. 0) (λ g. count g (bump y t) - aver) gs
              (λ g. ground (arith, count-bump g y t, ==-iff y g)),
        ))
    | inr high ↦ rw high (
        omega (
          arith,
          e,
          sum-ge (λ g. count g t - aver) (hit y) (λ g. count g (bump y t) - aver) gs
              (λ g. ground (arith, high, count-bump g y t, ==-iff y g)),
        ))
  ]

  -- A shard that is given to a group stays placed, and the others are as they were.
  assign-placed :
      (y : ℤ) (i : ℕ) (rest rest' : List ℕ) (ss : List ℤ)
      → y ≢ pos 0
      → ((j : ℕ) → i ≢ j → occurs j rest ≤ occurs j rest')
      → ((j : ℕ) → get_elem? ss j ≡ some (pos 0) → 0 < occurs j rest)
      → (j : ℕ) → get_elem? (set_at i y ss) j ≡ some (pos 0)
      → 0 < occurs j rest'
  assign-placed y i rest rest' ss nz others h j e = elim (ℕ_discrete i j) [
    | yes same ↦ absurd (
        nz (
          get_elem?-set_at_self i y (pos 0) ss
            (subst (λ k. get_elem? (set_at i y ss) k ≡ some (pos 0)) (sym same) e)))
    | no other ↦ omega (arith, others j other, h j (sym (get_elem?-set_at_ne i j y ss other) ∙ e))
  ]

  -- The shard goes to group `y`, for which `remain` falls by at most what it adds above the average.
  pub give-Inv :
      (y : ℤ) (i rem : ℕ) (rest rest' : List ℕ) (t : Tally)
      → IsGroup gs y
      → t.remain ≤ rem + (if ltb (count y t) aver then 0 else 1)
      → length rest' + 1 ≤ length rest
      → ((j : ℕ) → i ≢ j → occurs j rest ≤ occurs j rest')
      → Inv rest t
      → Inv rest' (assign i y (bump y (record t { remain = rem })))
  give-Inv y i rem rest rest' t (nz, once) left shorter others h = record {
    size = length-set_at i y t.shards ∙ h.size;
    spread = omega (arith, h.spread, total-bump gs y t once, shorter);
    spare = omega (arith, h.spare, above-bump y t once, left);
    placed = assign-placed y i rest rest' t.shards nz others h.placed;
  }

  -- One pass of the first loop at shard `i`, which is still to be placed
  abbrev pub Keeps : ℕ → Tally → Tally → Type 0
  Keeps i t t' =
      Inv t'.all_shards t' × ((j : ℕ) → i ≢ j → occurs j t.all_shards ≤ occurs j t'.all_shards)

  Keeps-same : (i : ℕ) (t : Tally) → Inv t.all_shards t → Keeps i t t
  Keeps-same i t h = (h, λ j ne. omega arith)

  remove-others : (i : ℕ) (js : List ℕ) (j : ℕ) → i ≢ j → occurs j js ≤ occurs j (remove i js)
  remove-others i js j ne = ground (arith, occurs-remove i j js, ==-iff i j, ne)

  remove-shorter : (i : ℕ) (js : List ℕ) → 0 < occurs i js → length (remove i js) + 1 ≤ length js
  remove-shorter i js here = omega (arith, length-remove i js)

  give-Keeps :
      (y : ℤ) (i rem : ℕ) (t : Tally)
      → IsGroup gs y
      → t.remain ≤ rem + (if ltb (count y t) aver then 0 else 1)
      → 0 < occurs i t.all_shards
      → Inv t.all_shards t
      → Keeps i t (assign i y (bump y (record t { remain = rem })))
  give-Keeps y i rem t group left here h = (
    give-Inv y i rem t.all_shards (remove i t.all_shards) t group left
        (remove-shorter i t.all_shards here) (remove-others i t.all_shards) h,
    remove-others i t.all_shards,
  )

  -- A shard without a group goes to the group that joins, which does not count it.
  assign-Keeps :
      (y : ℤ) (i : ℕ) (t : Tally)
      → y ≢ pos 0
      → 0 < occurs i t.all_shards
      → Inv t.all_shards t
      → Keeps i t (assign i y t)
  assign-Keeps y i t nz here h = (
    record {
      size = length-set_at i y t.shards ∙ h.size;
      spread = omega (arith, h.spread, remove-shorter i t.all_shards here);
      spare = h.spare;
      placed =
          assign-placed y i t.all_shards (remove i t.all_shards) t.shards nz
            (remove-others i t.all_shards) h.placed;
    },
    remove-others i t.all_shards,
  )

  pub keep_on_join-Keeps :
      (gid : ℤ) (i : ℕ) (old : ℤ) (t : Tally)
      → gid ≢ pos 0
      → (old ≡ pos 0) ⊎ IsGroup gs old
      → 0 < occurs i t.all_shards
      → Inv t.all_shards t
      → Keeps i t (keep_on_join gid aver i old t)
  unfolding keep_on_join
  keep_on_join-Keeps gid i old t nz (inl none') here h = rw none' (assign-Keeps gid i t nz here h)
  keep_on_join-Keeps gid i old t nz (inr group) here h =
      elim (Bool-cases (is_new old && ltb (count old t) aver)) [
        | inl small ↦ rw small (give-Keeps old i t.remain t group (omega arith) here h)
        | inr no1 ↦ elim (Bool-cases (is_new old && (eqb (count old t) aver && ltb 0 t.remain))) [
          | inl extra' ↦
              rw (no1, extra')
                (give-Keeps old i (t.remain - 1) t group (ground (arith, extra')) here h)
          | inr no2 ↦
              let taken : (old == pos 0) ≡ false = ground (arith, group.0, ==-iff old (pos 0)) in
              rw (no1, no2, taken) (Keeps-same i t h)
        ]
      ]

  pub keep_on_leave-Keeps :
      (gid : ℤ) (i : ℕ) (old : ℤ) (t : Tally)
      → old ≢ pos 0
      → (old ≢ gid → IsGroup gs old)
      → 0 < occurs i t.all_shards
      → Inv t.all_shards t
      → Keeps i t (keep_on_leave gid aver i old t)
  unfolding keep_on_leave
  keep_on_leave-Keeps gid i old t nz group here h =
      let taken : (old == pos 0) ≡ false = ground (arith, nz, ==-iff old (pos 0)) in
      elim (Bool-cases (is_new old && (not (old == gid) && ltb (count old t) aver))) [
        | inl small ↦ rw small (
            give-Keeps old i t.remain t (group (ground (arith, small, ==-iff old gid)))
              (omega arith) here h)
        | inr no1 ↦
            elim (Bool-cases
              (is_new old && (not (old == gid) && (eqb (count old t) aver && ltb 0 t.remain)))) [
                | inl extra' ↦
                    rw (no1, extra')
                      (give-Keeps old i (t.remain - 1) t
                        (group (ground (arith, extra', ==-iff old gid))) (ground (arith, extra'))
                        here h)
                | inr no2 ↦ rw (no1, no2, taken) (Keeps-same i t h)
              ]
      ]

  pub keep_all-Inv :
      (Q : ℤ → Type 0) (keep : ℕ → ℤ → Tally → Tally)
      → ((i : ℕ) (old : ℤ) (t : Tally)
          → Q old
          → 0 < occurs i t.all_shards
          → Inv t.all_shards t
          → Keeps i t (keep i old t))
      → (i : ℕ) (olds : List ℤ) (t : Tally) → All Q olds
      → ((j : ℕ) → i ≤ j → j < i + length olds → 0 < occurs j t.all_shards)
      → Inv t.all_shards t
      → Inv (keep_all keep i olds t).all_shards (keep_all keep i olds t)
  unfolding keep_all
  keep_all-Inv Q keep step i [] t hq ahead h = h
  keep_all-Inv Q keep step i (old ∷ olds) t hq ahead h =
      let (h', others) = step i old t hq.0 (ahead i (omega arith) (omega arith)) h in
      keep_all-Inv Q keep step (suc i) olds (keep i old t) hq.1
        (λ j ge lt. omega (arith, others j (λ e. omega arith), ahead j (omega arith) (omega arith)))
        h'

-- ===== src/ShardMaster/Replica.antt =====
-- Replicas of the agreed log (`ExecOp` of src/shardmaster/server.go): the state of a replica is what one
-- pass over the log up to its instance makes of the initial state.
use mathlib.Core.Path.{subst}
use distributed_systems_engi.Base.{
  ℕ, zero, suc, ◌+◌, ◌≡◌, refl, ◌∙◌, ap, inl, inr, true, ◌&&◌, some, List, [], ◌∷◌, arith, ℤ, pos,
  negsuc, ◌+ℤ◌, ◌≤ℤ◌, int_eq, string_eq, All, Bool-cases, Option-cases, some-injective,
}
use distributed_systems_engi.ShardMaster.{
  Op, Order, Pass, ShardMaster, start_server, join_handle, leave_handle, move_handle, append_config,
  update_conf, catch_up, caught_up, gap, same_op, exec_op, returns,
}

-- The instance number of a replica plays no part in serving operations.
abbrev pub at_ins : ℤ → ShardMaster → ShardMaster
at_ins m sm = record sm { min_ins = m }

update_conf-at_ins :
    (m : ℤ) (o : Order) (op : Op) (sm s : ShardMaster)
    → update_conf o op sm ≡ some s
    → update_conf o op (at_ins m sm) ≡ some (at_ins m s)
unfolding update_conf join_handle leave_handle move_handle append_config
update_conf-at_ins m o op sm s e = ground (arith, e)

catch_up-at_ins :
    (log : ℤ → Op) (orders : ℤ → Order) (m : ℤ) (n : ℕ) (i : ℤ) (sm s : ShardMaster)
    → catch_up log orders n i sm ≡ some s
    → catch_up log orders n i (at_ins m sm) ≡ some (at_ins m s)
unfolding catch_up
catch_up-at_ins log orders m zero i sm s e = ground (arith, e)
catch_up-at_ins log orders m (suc n) i sm s e =
    elim (Option-cases (update_conf (orders i) (log i) sm)) [
      | inl failed ↦ absurd (ground (arith, e, failed))
      | inr (t, made) ↦
          rw (update_conf-at_ins m (orders i) (log i) sm t made, catch_up)
            (catch_up-at_ins log orders m n (i +ℤ pos 1) t s (ground (arith, e, made)))
    ]

catch_up-add :
    (log : ℤ → Op) (orders : ℤ → Order) (a b k : ℕ) (i j : ℤ) (sm s : ShardMaster)
    → k ≡ a + b
    → j ≡ i +ℤ pos a
    → catch_up log orders a i sm ≡ some s
    → catch_up log orders k i sm ≡ catch_up log orders b j s
unfolding catch_up
catch_up-add log orders zero b k i j sm s ek ej e =
    let p : k ≡ b = omega (arith, ek) in
    let q : j ≡ i = ground (arith, ej) in let r : sm ≡ s = some-injective e in rw (p, q, r) refl
catch_up-add log orders (suc a) b zero i j sm s ek ej e = absurd (omega arith)
catch_up-add log orders (suc a) b (suc k) i j sm s ek ej e =
    elim (Option-cases (update_conf (orders i) (log i) sm)) [
      | inl failed ↦ absurd (ground (arith, e, failed))
      | inr (t, made) ↦
          rw (made, catch_up)
            (catch_up-add log orders a b k (i +ℤ pos 1) j t s (omega arith) (ground (arith, ej))
              (ground (arith, e, made)))
    ]

-- A replica is what the log up to its instance makes of the initial state, in one pass.
abbrev pub IsReplica : (ℤ → Op) → (ℤ → Order) → ShardMaster → Type 0
IsReplica log orders sm =
    (negsuc 0 ≤ℤ sm.min_ins)
    × (catch_up log orders (gap (negsuc 0) sm.min_ins) (pos 0) start_server
        ≡ some (at_ins (negsuc 0) sm))

-- Where a pass can propose: not below the instance of the replica.
abbrev pub IsAhead : ShardMaster → Pass → Type 0
IsAhead sm p = sm.min_ins ≤ℤ p.ins

-- How `ExecOp` returns: as a replica, at no lower instance, one that was decided with its own operation.
pub record Executed (log : ℤ → Op) (orders : ℤ → Order) (args : Op) (sm sm' : ShardMaster)
    : Type 0 where
  pub replica : IsReplica log orders sm'
  pub ahead : sm.min_ins ≤ℤ sm'.min_ins
  pub own : same_op (log sm'.min_ins) args ≡ true

catch_up-IsReplica :
    (log : ℤ → Op) (orders : ℤ → Order) (b : ℤ) (sm s : ShardMaster)
    → IsReplica log orders sm
    → sm.min_ins ≤ℤ b
    → catch_up log orders (gap sm.min_ins b) (sm.min_ins +ℤ pos 1) sm ≡ some s
    → IsReplica log orders (at_ins b s)
catch_up-IsReplica log orders b sm s (lo, h) le e = (
  omega arith,
  catch_up-add log orders (gap (negsuc 0) sm.min_ins) (gap sm.min_ins b) (gap (negsuc 0) b) (pos 0)
        (sm.min_ins +ℤ pos 1) start_server (at_ins (negsuc 0) sm) (omega arith) (ground arith) h
      ∙ catch_up-at_ins log orders (negsuc 0) (gap sm.min_ins b) (sm.min_ins +ℤ pos 1) sm s e,
)

-- Over `ExecOp`, with the orders in which `range` visits the maps at each instance: if no pass proposes
-- below the instance of the replica, and `ExecOp` returns, the configs and the records of the replica are
-- still what the agreed log up to its instance makes of the initial state, and that instance was decided
-- with the own operation.
pub exec_op-Executed :
    (log : ℤ → Op) (orders : ℤ → Order) (args : Op) (ps : List Pass) (sm sm' : ShardMaster)
    → IsReplica log orders sm
    → All (IsAhead sm) ps
    → exec_op log orders args ps sm ≡ returns sm'
    → Executed log orders args sm sm'
unfolding exec_op caught_up
exec_op-Executed log orders args [] sm sm' h ahead e = cc
exec_op-Executed log orders args (p ∷ ps) sm sm' h (le, ahead) e =
    elim (Bool-cases (p.is_decided && same_op (log p.ins) args)) [
      | inr other ↦ exec_op-Executed log orders args ps sm sm' h ahead (ground (arith, e, other))
      | inl own ↦
          elim (Option-cases
            (catch_up log orders (gap sm.min_ins p.ins) (sm.min_ins +ℤ pos 1) sm)) [
              | inl failed ↦ absurd (ground (arith, e, own, failed))
              | inr (s, done) ↦
                  let q : returns (at_ins p.ins s) ≡ returns sm' = ground (arith, e, own, done) in
                  subst (Executed log orders args sm) (returned q) (record {
                    replica = catch_up-IsReplica log orders p.ins sm s h le done;
                    ahead = le;
                    own = ground (arith, own);
                  })
            ]
    ]
  where
    returned : {s s' : ShardMaster} → returns s ≡ returns s' → s ≡ s'
    returned e = cc

-- Two replicas at the same instance that visit the maps in the same orders hold the same configs.
pub replicas_agree :
    (log : ℤ → Op) (orders : ℤ → Order) (a b : ShardMaster)
    → IsReplica log orders a
    → IsReplica log orders b
    → a.min_ins ≡ b.min_ins
    → a.configs ≡ b.configs
replicas_agree log orders a b (la, ha) (lb, hb) e =
    let q : some (at_ins (negsuc 0) a) ≡ some (at_ins (negsuc 0) b) = cc in
    ap (λ s. s.configs) (some-injective q)

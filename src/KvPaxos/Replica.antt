-- ===== src/KvPaxos/Replica.antt =====
-- Replicas of the agreed log (`ExecOp` of src/kvpaxos/server.go): a replica's state is what the log up
-- to its instance makes of the initial state.
use mathlib.Core.Path.{subst}
use distributed_systems_engi.Base.{
  ℕ, zero, suc, ◌+◌, ◌≡◌, refl, ◌∙◌, sym, ap, inl, inr, true, ◌&&◌, some, List, [], ◌∷◌, ◌++◌,
  arith, ℤ, pos, negsuc, ◌+ℤ◌, ◌≤ℤ◌, int_eq, All, Bool-cases, Option-cases, Bool, some-injective,
  ◌<ℤ◌,
}
use distributed_systems_engi.KvPaxos.{
  Op, KvPaxos, start_server, is_hit, update_record, update_data, wait_for, catch_up, gap,
  same_request, Pass, exec_op,
}
use distributed_systems_engi.KvPaxos.Record.{serve}

-- The operations of `n` instances from `i`.
unfoldable pub ops_from : (ℤ → Op) → ℕ → ℤ → List Op
ops_from log zero i = []
ops_from log (suc n) i = log i ∷ ops_from log n (i +ℤ pos 1)

catch_up-eq-serve :
    (log : ℤ → Op) (looks : ℤ → List Bool) (n : ℕ) (i : ℤ) (kv kv' : KvPaxos)
    → catch_up log looks n i kv ≡ some kv'
    → serve (ops_from log n i) kv ≡ kv'
unfolding catch_up ops_from serve
catch_up-eq-serve log looks zero i kv kv' e = some-injective e
catch_up-eq-serve log looks (suc n) i kv kv' e =
    catch_up-eq-serve log looks n (i +ℤ pos 1) (update_data (log i) kv) kv'
      (ground (arith, e, Bool-cases (wait_for (looks i))))

-- Each wait for one of `n` instances from `i` ends.
catch_up-ends :
    (log : ℤ → Op) (looks : ℤ → List Bool) (n : ℕ) (i : ℤ) (kv : KvPaxos)
    → ((j : ℤ) → j <ℤ i +ℤ pos n → wait_for (looks j) ≡ true)
    → (kv' : KvPaxos) × (catch_up log looks n i kv ≡ some kv')
unfolding catch_up
catch_up-ends log looks zero i kv h = (kv, refl)
catch_up-ends log looks (suc n) i kv h =
    let (kv', e) =
      catch_up-ends log looks n (i +ℤ pos 1) (update_data (log i) kv)
        (λ j lt. h j (ground arith)) in
    (kv', rw (h i (ground arith)) e)

serve-append : (xs ys : List Op) (kv : KvPaxos) → serve (xs ++ ys) kv ≡ serve ys (serve xs kv)
unfolding serve
serve-append [] ys kv = refl
serve-append (x ∷ xs) ys kv = serve-append xs ys (update_data x kv)

-- The instance number of a replica plays no part in serving operations.
abbrev at_ins : ℤ → KvPaxos → KvPaxos
at_ins m kv = record kv { min_ins = m }

update_data-at_ins :
    (m : ℤ) (op : Op) (kv : KvPaxos) → update_data op (at_ins m kv) ≡ at_ins m (update_data op kv)
unfolding update_data update_record is_hit
update_data-at_ins m op kv = ground arith

serve-at_ins :
    (m : ℤ) (ops : List Op) (kv : KvPaxos) → serve ops (at_ins m kv) ≡ at_ins m (serve ops kv)
unfolding serve
serve-at_ins m [] kv = refl
serve-at_ins m (op ∷ ops) kv =
    ap (serve ops) (update_data-at_ins m op kv) ∙ serve-at_ins m ops (update_data op kv)

ops_from-add :
    (log : ℤ → Op) (m n k : ℕ) (i : ℤ)
    → k ≡ m + n
    → ops_from log k i ≡ ops_from log m i ++ ops_from log n (i +ℤ pos m)
unfolding ops_from
ops_from-add log zero n k i e =
    let p : k ≡ n = omega arith in let q : i +ℤ pos 0 ≡ i = ground arith in rw (p, q)
ops_from-add log (suc m) n zero i e = absurd (omega arith)
ops_from-add log (suc m) n (suc k) i e =
    let q : i +ℤ pos 1 +ℤ pos m ≡ i +ℤ pos (suc m) = ground arith in
    ap (λ ops. log i ∷ ops)
      (ops_from-add log m n k (i +ℤ pos 1) (omega arith)
        ∙ ap (λ j. ops_from log m (i +ℤ pos 1) ++ ops_from log n j) q)

-- The log up to and including instance `m`
unfoldable pub log_to : (ℤ → Op) → ℤ → List Op
log_to log m = ops_from log (gap (negsuc 0) m) (pos 0)

-- A replica holds what the log up to its instance makes of the initial state.
abbrev pub IsReplica : (ℤ → Op) → KvPaxos → Type 0
IsReplica log kv =
    (negsuc 0 ≤ℤ kv.min_ins) × (kv ≡ at_ins kv.min_ins (serve (log_to log kv.min_ins) start_server))

log_to-gap :
    (log : ℤ → Op) (a b : ℤ)
    → negsuc 0 ≤ℤ a
    → a ≤ℤ b
    → log_to log b ≡ log_to log a ++ ops_from log (gap a b) (a +ℤ pos 1)
unfolding log_to
log_to-gap log a b h le =
    let q : pos 0 +ℤ pos (gap (negsuc 0) a) ≡ a +ℤ pos 1 = ground arith in
    ops_from-add log (gap (negsuc 0) a) (gap a b) (gap (negsuc 0) b) (pos 0) (omega arith)
    ∙ ap (λ j. log_to log a ++ ops_from log (gap a b) j) q

-- What `ExecOp` does when its instance `b` is decided with its own operation.
caught_up :
    (log : ℤ → Op) (looks : ℤ → List Bool) (kv kv' : KvPaxos) (b : ℤ)
    → IsReplica log kv
    → kv.min_ins ≤ℤ b
    → catch_up log looks (gap kv.min_ins b) (kv.min_ins +ℤ pos 1) kv ≡ some kv'
    → IsReplica log (at_ins b kv')
caught_up log looks kv kv' b (lo, h) le ran =
    let m = kv.min_ins in
    let ops = ops_from log (gap m b) (m +ℤ pos 1) in
    let base = serve (log_to log m) start_server in
    let split : serve (log_to log b) start_server ≡ serve ops base =
      ap (λ l. serve l start_server) (log_to-gap log m b lo le)
      ∙ serve-append (log_to log m) ops start_server in
    (
      omega arith,
      ap (at_ins b) (
            sym (catch_up-eq-serve log looks (gap m b) (m +ℤ pos 1) kv kv' ran)
            ∙ ap (serve ops) h
            ∙ serve-at_ins m ops base)
          ∙ ap (at_ins b) (sym split),
    )

-- Where a pass can propose: not below the instance of the replica.
abbrev pub IsAhead : KvPaxos → Pass → Type 0
IsAhead kv p = kv.min_ins ≤ℤ p.ins

-- Where `ExecOp` returns, the replica has gone on to an instance `b` of one of its passes, which
-- was decided with its own request, and it holds what the log up to `b` makes.
pub record Executed (log : ℤ → Op) (args : Op) (kv kv' : KvPaxos) : Type 0 where
  pub replica : IsReplica log kv'
  pub ahead : kv.min_ins ≤ℤ kv'.min_ins
  pub own : same_request (log kv'.min_ins) args ≡ true

-- A replica of the log stays one over `ExecOp`: if no pass proposes below the instance of the
-- replica, and `ExecOp` returns, the new state is what the log up to the new instance makes of the
-- initial state, and that instance was decided with the request of the operation.
pub exec_op-IsReplica :
    (log : ℤ → Op) (args : Op) (ps : List Pass) (kv kv' : KvPaxos)
    → IsReplica log kv
    → All (IsAhead kv) ps
    → exec_op log args ps kv ≡ some kv'
    → Executed log args kv kv'
unfolding exec_op
exec_op-IsReplica log args [] kv kv' h ahead e = cc
exec_op-IsReplica log args (p ∷ ps) kv kv' h (le, ahead) e =
    elim (Bool-cases (p.is_decided && same_request (log p.ins) args)) [
      | inl own ↦
          elim (Option-cases
            (catch_up log p.looks (gap kv.min_ins p.ins) (kv.min_ins +ℤ pos 1) kv)) [
              | inl stuck ↦ absurd (ground (arith, e, own, stuck))
              | inr (x, ran) ↦
                  let q : at_ins p.ins x ≡ kv' = some-injective (ground (arith, e, own, ran)) in
                  subst (Executed log args kv) q (record {
                    replica = caught_up log p.looks kv x p.ins h le ran;
                    ahead = le;
                    own = ground (arith, own);
                  })
            ]
      | inr other ↦ exec_op-IsReplica log args ps kv kv' h ahead (ground (arith, e, other))
    ]

-- Each wait of the pass for an instance up to its own ends.
abbrev pub IsLearnt : Pass → Type 0
IsLearnt p = (i : ℤ) → i ≤ℤ p.ins → wait_for (p.looks i) ≡ true

exec_op-returns :
    (log : ℤ → Op) (args : Op) (ps qs : List Pass) (p : Pass) (kv : KvPaxos)
    → negsuc 0 ≤ℤ kv.min_ins
    → All (IsAhead kv) (ps ++ p ∷ qs)
    → All IsLearnt (ps ++ p ∷ qs)
    → p.is_decided ≡ true
    → same_request (log p.ins) args ≡ true
    → (kv' : KvPaxos) × (exec_op log args (ps ++ p ∷ qs) kv ≡ some kv')
unfolding exec_op
exec_op-returns log args [] qs p kv lo (le, ahead) (learnt, more) d o =
    let (x, ran) =
      catch_up-ends log p.looks (gap kv.min_ins p.ins) (kv.min_ins +ℤ pos 1) kv
        (λ j lt. learnt j (ground arith)) in
    (at_ins p.ins x, rw (d, o) (ground (arith, ran)))
exec_op-returns log args (r ∷ ps) qs p kv lo (le, ahead) (learnt, more) d o =
    elim (Bool-cases (r.is_decided && same_request (log r.ins) args)) [
      | inl own ↦
          let (x, ran) =
            catch_up-ends log r.looks (gap kv.min_ins r.ins) (kv.min_ins +ℤ pos 1) kv
              (λ j lt. learnt j (ground arith)) in
          (at_ins r.ins x, rw own (ground (arith, ran)))
      | inr other ↦
          let (kv', e) = exec_op-returns log args ps qs p kv lo ahead more d o in (kv', rw other e)
    ]

-- At a replica of the log, where no pass proposes below the instance of the replica, each wait for a
-- missed instance ends, and some pass is decided with the own request: `ExecOp` returns, the new state is
-- what the log up to the new instance makes of the initial state, and that instance was decided with the
-- request of the operation.
pub exec_op-executes :
    (log : ℤ → Op) (args : Op) (ps qs : List Pass) (p : Pass) (kv : KvPaxos)
    → IsReplica log kv
    → All (IsAhead kv) (ps ++ p ∷ qs)
    → All IsLearnt (ps ++ p ∷ qs)
    → p.is_decided ≡ true
    → same_request (log p.ins) args ≡ true
    → (kv' : KvPaxos) × (exec_op log args (ps ++ p ∷ qs) kv ≡ some kv') × Executed log args kv kv'
exec_op-executes log args ps qs p kv h ahead learnt d o =
    let (kv', e) = exec_op-returns log args ps qs p kv h.0 ahead learnt d o in
    (kv', e, exec_op-IsReplica log args (ps ++ p ∷ qs) kv kv' h ahead e)

-- Two replicas of the same log at the same instance hold the same data and the same record of requests.
pub replicas_agree :
    (log : ℤ → Op) (a b : KvPaxos)
    → IsReplica log a
    → IsReplica log b
    → a.min_ins ≡ b.min_ins
    → a ≡ b
replicas_agree log a b (la, ha) (lb, hb) e =
    ha ∙ ap (λ m. at_ins m (serve (log_to log m) start_server)) e ∙ sym hb

-- ===== src/Paxos/Protocol/Serve.antt =====
-- The handlers `Prepare` and `Accept` at one peer, as steps of the protocol, keep the invariant.
use distributed_systems_engi.Base.{
  ℕ, ◌<◌, ◌≡◌, ap, inl, inr, Bool, true, false, ◌&&◌, ◌||◌, Option, arith, Str, Bool-cases, ◌==◌,
  ==-iff, str_eq,
}
use distributed_systems_engi.Paxos.{
  Instance, is_pending, prepare_instance, accept_instance, rank, bigger, bigger-rank,
}
use distributed_systems_engi.Paxos.Protocol.{accepting, System, take_promise, take_vote}
use distributed_systems_engi.Paxos.Protocol.Quorum.{update, update_self}
use distributed_systems_engi.Paxos.Protocol.Invariant.{Inv}
use distributed_systems_engi.Paxos.Protocol.Moves.{AccOk, RoundOk, Inv-acc}
use distributed_systems_engi.Paxos.Protocol.Steps.{AccOk-same, AccOk-prepare, AccOk-accept}
use distributed_systems_engi.Paxos.Protocol.Replies.{RoundOk-promise, RoundOk-vote}

module _ {V : Type 0} where
  prepare-report :
      (num : Str) (a : Instance V)
      → let (a', r) = prepare_instance num a in
        r.rejected ≡ false
        → (a'.n_p ≡ num)
          × (r.num ≡ a'.n_a)
          × (r.val ≡ a'.v_a)
          × (is_pending a'.status ≡ true)
          × (bigger num a.n_p ≡ true)
          × (a'.n_a ≡ a.n_a)
  unfolding prepare_instance
  prepare-report num a h = ground arith

  accept-report :
      (num : Str) (v : Option V) (a : Instance V)
      → let (a', r) = accept_instance num v a in
        r.rejected ≡ false → (a'.n_a ≡ num) × (a'.n_p ≡ num)
  unfolding accept_instance
  accept-report num v a h = ground arith

module _ {V : Type 0} {n : ℕ} {s : System V} (h : Inv n s) where
  prepare-AccOk : (k i : ℕ) → AccOk n s i (prepare_instance (s.rnd k).num (s.acc i)).0
  unfolding prepare_instance
  prepare-AccOk k i =
      elim (Bool-cases (is_pending (s.acc i).status && bigger (s.rnd k).num (s.acc i).n_p)) [
        | inl grants ↦ rw grants (AccOk-prepare h k i (ground arith))
        | inr refuses ↦ rw refuses (AccOk-same h i)
      ]

  accept-AccOk :
      (k i : ℕ)
      → (s.rnd k).phase ≡ accepting
      → AccOk n s i (accept_instance (s.rnd k).num (s.rnd k).best.val (s.acc i)).0
  unfolding accept_instance
  accept-AccOk k i q =
      let num = (s.rnd k).num in
      let a = s.acc i in
      elim (Bool-cases (is_pending a.status && (bigger num a.n_p || num == a.n_p))) [
        | inl grants ↦ rw grants (
            AccOk-accept h k i q
              (ground (
                arith,
                bigger-rank (h.num_wf k) (h.n_p_wf i),
                ==-iff num a.n_p,
                λ (e : num ≡ a.n_p). ap rank e,
              ))
              (ground arith))
        | inr refuses ↦ rw refuses (AccOk-same h i)
      ]

  below :
      (k i : ℕ)
      → bigger (s.rnd k).num (s.acc i).n_p ≡ true
      → rank (s.acc i).n_a < rank (s.rnd k).num
  below k i b = ground (arith, bigger-rank (h.num_wf k) (h.n_p_wf i), h.n_a_le i)

  pub prepare-acc :
      (k i : ℕ)
      → Inv n (record s { acc = update s.acc i (prepare_instance (s.rnd k).num (s.acc i)).0 })
  prepare-acc k i = Inv-acc h i _ (prepare-AccOk k i)

  pub prepare-RoundOk :
      (k i : ℕ) (d : Bool)
      → RoundOk n
          (record s { acc = update s.acc i (prepare_instance (s.rnd k).num (s.acc i)).0 })
          k
          (take_promise d i (prepare_instance (s.rnd k).num (s.acc i)).1 (s.rnd k))
  prepare-RoundOk k i d =
      let a' = (prepare_instance (s.rnd k).num (s.acc i)).0 in
      RoundOk-promise (prepare-acc k i) d k i (prepare_instance (s.rnd k).num (s.acc i)).1
        λ granted.
          let (p, q, r, t, b, e) = prepare-report (s.rnd k).num (s.acc i) granted in
          rw (update_self s.acc i a') (p, q, r, t, rw e (below k i b))

  pub accept-acc :
      (k i : ℕ)
      → (s.rnd k).phase ≡ accepting
      → Inv n (record s {
        acc = update s.acc i (accept_instance (s.rnd k).num (s.rnd k).best.val (s.acc i)).0;
      })
  accept-acc k i q = Inv-acc h i _ (accept-AccOk k i q)

  pub accept-RoundOk :
      (k i : ℕ) (d : Bool)
      → (s.rnd k).phase ≡ accepting
      → RoundOk n
          (record s {
            acc = update s.acc i (accept_instance (s.rnd k).num (s.rnd k).best.val (s.acc i)).0;
          })
          k
          (take_vote d i (accept_instance (s.rnd k).num (s.rnd k).best.val (s.acc i)).1 (s.rnd k))
  accept-RoundOk k i d q =
      let a' = (accept_instance (s.rnd k).num (s.rnd k).best.val (s.acc i)).0 in
      RoundOk-vote (accept-acc k i q) d k i _ q λ granted.
        rw (update_self s.acc i a')
          (accept-report (s.rnd k).num (s.rnd k).best.val (s.acc i) granted)

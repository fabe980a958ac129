-- ===== src/Paxos/Protocol/Steps.antt =====
-- Every step of the protocol keeps the invariant.
use distributed_systems_engi.Base.{
  ℕ, ◌<◌, ◌≤◌, ◌≡◌, ◌≢◌, refl, sym, ◌∙◌, ℕ_discrete, inl, inr, true, Option, [], ◌∷◌, arith, Str,
  str_eq,
}
use distributed_systems_engi.Paxos.{
  is_pending, decide_instance, IsNum, none_yet, rank, rank-nil, rank-injective, bigger, bigger-rank,
}
use distributed_systems_engi.Paxos.Protocol.{
  idle, preparing, accepting, System, Majority, Sent, here, there, begin_round,
}
use distributed_systems_engi.Paxos.Protocol.Invariant.{Chosen, Inv, Extends-refl, Chosen-mono}
use distributed_systems_engi.Paxos.Protocol.Moves.{AccOk, RoundOk, from_mono}

rank-pos : {a : Str} → IsNum a → a ≢ [] → 0 < rank a
rank-pos {a} h ne = elim (ℕ_discrete (rank a) 0) [
  | yes z ↦ absurd (ne (rank-injective h none_yet (z ∙ sym rank-nil)))
  | no nz ↦ omega arith
]

module _ {V : Type 0} {n : ℕ} {s : System V} (h : Inv n s) where
  pub AccOk-same : (i : ℕ) → AccOk n s i (s.acc i)
  AccOk-same i = record {
    n_p_wf = h.n_p_wf i;
    n_a_wf = h.n_a_wf i;
    n_a_le = h.n_a_le i;
    n_p_grows = omega arith;
    n_a_grows = omega arith;
    held = h.held i;
    decided = h.decided i;
  }

  pub RoundOk-same : (k : ℕ) → RoundOk n s k (s.rnd k)
  RoundOk-same k = record {
    num_wf = h.num_wf k;
    begun = h.begun k;
    unbegun = h.unbegun k;
    unique = λ j p e. h.unique j k (omega arith) e;
    extends = Extends-refl (s.rnd k);
    voted_active = h.voted_active k;
    voted_le = h.voted_le k;
    acked_voted = h.acked_voted k;
    promised_le = h.promised_le k;
    promised_best = h.promised_best k;
    voted_best = λ j i. h.promised_best j i k;
    best_wf = h.best_wf k;
    best_lt = h.best_lt k;
    best_from = h.best_from k;
    quorum = h.quorum k;
  }

  pub RoundOk-begin :
      (k : ℕ) (num : Str) (v : Option V)
      → (s.rnd k).phase ≡ idle
      → IsNum num
      → num ≢ []
      → ((j : ℕ) → (s.rnd j).num ≢ num)
      → RoundOk n s k (begin_round num v)
  RoundOk-begin k num v q wf ne fresh' = record {
    num_wf = wf;
    begun = λ p. rank-pos wf ne;
    unbegun = λ p. cc;
    unique = λ j p e. absurd (fresh' j (rank-injective (h.num_wf j) wf e));
    extends = record {
      active = λ p. cc;
      num = λ p. cc;
      val = λ p. cc;
      votes = λ i p. cc (q, h.voted_active k i p);
    };
    voted_active = λ i p. cc;
    voted_le = λ i p. cc;
    acked_voted = λ i p. cc;
    promised_le = λ i p. cc;
    promised_best = λ i j p. cc;
    voted_best = λ j i p r. cc;
    best_wf = none_yet;
    best_lt = λ p. omega (arith, rank-nil, rank-pos wf ne);
    best_from = inl rank-nil;
    quorum = λ p. cc;
  }

  pub RoundOk-promote :
      (k : ℕ)
      → (s.rnd k).phase ≡ preparing
      → Majority n (s.rnd k).promised
      → RoundOk n s k (record (s.rnd k) { phase = accepting })
  RoundOk-promote k q most =
      let ne : (s.rnd k).phase ≢ idle = λ e. cc in
      record {
        num_wf = h.num_wf k;
        begun = λ p. h.begun k ne;
        unbegun = λ p. cc;
        unique = λ j p e. h.unique j k (omega arith) e;
        extends = record { active = λ p. refl; num = λ p. refl; val = λ p. refl; votes = λ i p. p };
        voted_active = λ i p. refl;
        voted_le = h.voted_le k;
        acked_voted = h.acked_voted k;
        promised_le = h.promised_le k;
        promised_best = h.promised_best k;
        voted_best = λ j i. h.promised_best j i k;
        best_wf = h.best_wf k;
        best_lt = λ p. h.best_lt k ne;
        best_from = h.best_from k;
        quorum = λ p. most;
      }

  -- A peer that grants `Prepare` raises its promise to the number of the round.
  pub AccOk-prepare :
      (k i : ℕ)
      → bigger (s.rnd k).num (s.acc i).n_p ≡ true
      → AccOk n s i (record (s.acc i) { n_p = (s.rnd k).num })
  AccOk-prepare k i g =
      let lt : rank (s.acc i).n_p < rank (s.rnd k).num =
        ground (arith, bigger-rank (h.num_wf k) (h.n_p_wf i)) in
      record {
        n_p_wf = h.num_wf k;
        n_a_wf = h.n_a_wf i;
        n_a_le = omega (arith, h.n_a_le i, lt);
        n_p_grows = omega (arith, lt);
        n_a_grows = omega arith;
        held = h.held i;
        decided = h.decided i;
      }

  -- A peer that grants `Accept` takes the number and the value of the round.
  pub AccOk-accept :
      (k i : ℕ)
      → (s.rnd k).phase ≡ accepting
      → rank (s.acc i).n_p ≤ rank (s.rnd k).num
      → is_pending (s.acc i).status ≡ true
      → AccOk n s i
          (record (s.acc i) { n_p = (s.rnd k).num; n_a = (s.rnd k).num; v_a = (s.rnd k).best.val })
  AccOk-accept k i q le pend = record {
    n_p_wf = h.num_wf k;
    n_a_wf = h.num_wf k;
    n_a_le = omega arith;
    n_p_grows = le;
    n_a_grows = omega (arith, h.n_a_le i, le);
    held = λ p. inr (record { of = k; active = q; same_num = refl; same_val = refl });
    decided = λ p. cc;
  }

  pub AccOk-decide :
      (i : ℕ) (v : Option V) → Sent v s.sent → AccOk n s i (decide_instance v (s.acc i))
  unfolding decide_instance
  AccOk-decide i v p = record {
    n_p_wf = h.n_p_wf i;
    n_a_wf = h.n_a_wf i;
    n_a_le = h.n_a_le i;
    n_p_grows = omega arith;
    n_a_grows = omega arith;
    held = λ q. cc;
    decided = λ q. h.sent v p;
  }

  -- One more message, with a chosen value.
  pub Inv-sent : (v : Option V) → Chosen n s v → Inv n (record s { sent = v ∷ s.sent })
  Inv-sent v c =
      let same = λ (j : ℕ). Extends-refl (s.rnd j) in
      record {
        num_wf = h.num_wf;
        begun = h.begun;
        unbegun = h.unbegun;
        unique = h.unique;
        n_p_wf = h.n_p_wf;
        n_a_wf = h.n_a_wf;
        n_a_le = h.n_a_le;
        held = λ i p. from_mono same (h.held i p);
        voted_active = h.voted_active;
        voted_le = h.voted_le;
        acked_voted = h.acked_voted;
        promised_le = h.promised_le;
        promised_best = h.promised_best;
        best_wf = h.best_wf;
        best_lt = h.best_lt;
        best_from = λ k. from_mono same (h.best_from k);
        quorum = h.quorum;
        decided = λ i p. Chosen-mono same (h.decided i p);
        sent = λ w p. Chosen-mono same (Sent-cons p);
      }
    where
      Sent-cons : {w : Option V} → Sent w (v ∷ s.sent) → Chosen n s w
      Sent-cons here = c
      Sent-cons (there p) = h.sent _ p

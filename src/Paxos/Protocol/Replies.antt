-- ===== src/Paxos/Protocol/Replies.antt =====
-- What a promise or a vote of a peer does to a round of src/paxos/paxos.go, for the invariant.
use distributed_systems_engi.Base.{
  ℕ, ◌<◌, ◌≤◌, ◌≡◌, ◌≢◌, refl, ap, ◌⊎◌, inl, inr, Bool, true, false, not, ◌&&◌, arith, Bool-cases,
  str_eq,
}
use distributed_systems_engi.Paxos.{
  PreReply, AccReply, is_pending, IsNum, rank, bigger, bigger-rank,
}
use distributed_systems_engi.Paxos.Proposer.{Best, note_promise}
use distributed_systems_engi.Paxos.Protocol.{
  Phase, idle, preparing, accepting, is_preparing, System, take_promise, take_vote,
}
use distributed_systems_engi.Paxos.Protocol.Quorum.{update_all}
use distributed_systems_engi.Paxos.Protocol.Invariant.{Backed, Inv}
use distributed_systems_engi.Paxos.Protocol.Moves.{RoundOk}
use distributed_systems_engi.Paxos.Protocol.Steps.{RoundOk-same}

module _ {V : Type 0} {n : ℕ} {s : System V} (h : Inv n s) where
  -- The vote of a peer whose accepted number is that of the round.
  pub RoundOk-vote :
      (d : Bool) (k i : ℕ) (r : AccReply V)
      → (s.rnd k).phase ≡ accepting
      → (r.rejected ≡ false → ((s.acc i).n_a ≡ (s.rnd k).num) × ((s.acc i).n_p ≡ (s.rnd k).num))
      → RoundOk n s k (take_vote d i r (s.rnd k))
  unfolding take_vote
  RoundOk-vote d k i r q g = elim (Bool-cases r.rejected) [
    | inl refused ↦ rw refused (RoundOk-same h k)
    | inr granted ↦
        let (n_a, n_p) = g granted in
        rw granted (record {
          num_wf = h.num_wf k;
          begun = h.begun k;
          unbegun = h.unbegun k;
          unique = λ j p e. h.unique j k (omega arith) e;
          extends = record {
            active = λ p. p;
            num = λ p. refl;
            val = λ p. refl;
            votes = λ j p. ground arith;
          };
          voted_active = λ j p. q;
          voted_le =
              update_all (λ j b. b ≡ true → rank (s.rnd k).num ≤ rank (s.acc j).n_a) (s.rnd k).voted
                i true (λ p. rw n_a (omega arith)) (h.voted_le k);
          acked_voted = λ j p. ground (arith, h.acked_voted k j);
          promised_le = h.promised_le k;
          promised_best = h.promised_best k;
          voted_best = λ j.
              update_all
                (λ l b.
                  (s.rnd j).promised l ≡ true
                  → b ≡ true
                  → rank (s.rnd k).num < rank (s.rnd j).num
                  → rank (s.rnd k).num ≤ rank (s.rnd j).best.num)
                (s.rnd k).voted i true
                (λ p t lt. absurd (omega (arith, h.promised_le j i p, ap rank n_p)))
                (λ l. h.promised_best j l k);
          best_wf = h.best_wf k;
          best_lt = h.best_lt k;
          best_from = h.best_from k;
          quorum = h.quorum k;
        })
  ]

  -- What a promise does to the best report: it ends above both, and stays backed.
  note_promise-best :
      (r : PreReply V) (b : Best V)
      → IsNum r.num
      → IsNum b.num
      → (rank r.num ≡ 0) ⊎ Backed s r.num r.val
      → (rank b.num ≡ 0) ⊎ Backed s b.num b.val
      → let b' = note_promise r b in
        IsNum b'.num
        × (rank r.num ≤ rank b'.num)
        × (rank b.num ≤ rank b'.num)
        × ((rank b'.num ≡ 0) ⊎ Backed s b'.num b'.val)
        × ((rank b'.num ≡ rank r.num) ⊎ (rank b'.num ≡ rank b.num))
  unfolding note_promise
  note_promise-best r b wr wb hr hb = elim (Bool-cases (bigger r.num b.num)) [
    | inl up ↦ rw up (wr, omega arith, ground (arith, bigger-rank wr wb), hr, inl refl)
    | inr down ↦ rw down (wb, ground (arith, bigger-rank wr wb), omega arith, hb, inr refl)
  ]

  -- A promise of a peer, with what it reports.
  pub RoundOk-promise :
      (d : Bool) (k i : ℕ) (r : PreReply V)
      → (r.rejected ≡ false
          → ((s.acc i).n_p ≡ (s.rnd k).num)
            × (r.num ≡ (s.acc i).n_a)
            × (r.val ≡ (s.acc i).v_a)
            × (is_pending (s.acc i).status ≡ true)
            × (rank (s.acc i).n_a < rank (s.rnd k).num))
      → RoundOk n s k (take_promise d i r (s.rnd k))
  unfolding take_promise
  RoundOk-promise d k i r g =
      elim (Bool-cases (d && (is_preparing (s.rnd k).phase && not r.rejected))) [
        | inr out ↦ rw out (RoundOk-same h k)
        | inl taken ↦
            let (n_p, num, val, pend, lt) = g (ground arith) in
            let q : (s.rnd k).phase ≡ preparing = is_preparing-eq (s.rnd k).phase (ground arith) in
            let from : (rank r.num ≡ 0) ⊎ Backed s r.num r.val = rw (num, val) (h.held i pend) in
            let (wf, ge_r, ge_b, from', or) =
              note_promise-best r (s.rnd k).best (rw num (h.n_a_wf i)) (h.best_wf k) from
                (h.best_from k) in
            let eq_r : rank r.num ≡ rank (s.acc i).n_a = ap rank num in
            let ne : (s.rnd k).phase ≢ idle = λ e. cc in
            rw taken (record {
              num_wf = h.num_wf k;
              begun = h.begun k;
              unbegun = h.unbegun k;
              unique = λ j p e. h.unique j k (omega arith) e;
              extends = record {
                active = λ p. p;
                num = λ p. refl;
                val = λ p. cc;
                votes = λ j p. p;
              };
              voted_active = h.voted_active k;
              voted_le = h.voted_le k;
              acked_voted = h.acked_voted k;
              promised_le =
                  update_all (λ j b. b ≡ true → rank (s.rnd k).num ≤ rank (s.acc j).n_p)
                    (s.rnd k).promised i true (λ p. rw n_p (omega arith)) (h.promised_le k);
              promised_best =
                  update_all
                    (λ l b.
                      (j : ℕ)
                      → b ≡ true
                      → (s.rnd j).voted l ≡ true
                      → rank (s.rnd j).num < rank (s.rnd k).num
                      → rank (s.rnd j).num ≤ rank (note_promise r (s.rnd k).best).num)
                    (s.rnd k).promised i true
                    (λ j p v below. omega (arith, h.voted_le j i v, ge_r, eq_r))
                    (λ l j p v below. omega (arith, h.promised_best k l j p v below, ge_b));
              voted_best = λ j l. h.promised_best j l k;
              best_wf = wf;
              best_lt = λ p. omega (arith, or, h.best_lt k ne, lt, eq_r);
              best_from = from';
              quorum = λ p. cc;
            })
      ]
    where
      is_preparing-eq : (p : Phase) → is_preparing p ≡ true → p ≡ preparing
      is_preparing-eq idle e = cc
      is_preparing-eq preparing e = refl
      is_preparing-eq accepting e = cc

-- ===== src/Paxos/Protocol/Moves.antt =====
-- The invariant under a change of one peer, of one round, and of the messages sent.
use distributed_systems_engi.Base.{
  ℕ, ◌<◌, ◌≤◌, ◌≡◌, ◌≢◌, refl, sym, ◌⊎◌, inl, inr, true, false, Option, arith, Str,
}
use distributed_systems_engi.Paxos.{Instance, is_pending, IsNum, rank}
use distributed_systems_engi.Paxos.Protocol.{idle, accepting, Round, System, Majority}
use distributed_systems_engi.Paxos.Protocol.Quorum.{update, update_all}
use distributed_systems_engi.Paxos.Protocol.Invariant.{
  Backed, Chosen, Inv, Extends, Extends-refl, Extends-update, Backed-mono, Chosen-mono,
}

module _ {V : Type 0} (n : ℕ) (s : System V) where
  -- What a new state of peer `i` must satisfy.
  pub record AccOk (i : ℕ) (a : Instance V) : Type 0 where
    pub n_p_wf : IsNum a.n_p
    pub n_a_wf : IsNum a.n_a
    pub n_a_le : rank a.n_a ≤ rank a.n_p
    pub n_p_grows : rank (s.acc i).n_p ≤ rank a.n_p
    pub n_a_grows : rank (s.acc i).n_a ≤ rank a.n_a
    pub held : is_pending a.status ≡ true → (rank a.n_a ≡ 0) ⊎ Backed s a.n_a a.v_a
    pub decided : is_pending a.status ≡ false → Chosen n s a.v_a

  -- What a new state of round `k` must satisfy.
  pub record RoundOk (k : ℕ) (r : Round V) : Type 0 where
    pub num_wf : IsNum r.num
    pub begun : r.phase ≢ idle → 0 < rank r.num
    pub unbegun : r.phase ≡ idle → rank r.num ≡ 0
    pub unique : (j : ℕ) → 0 < rank r.num → rank (s.rnd j).num ≡ rank r.num → j ≡ k
    pub extends : Extends (s.rnd k) r
    pub voted_active : (i : ℕ) → r.voted i ≡ true → r.phase ≡ accepting
    pub voted_le : (i : ℕ) → r.voted i ≡ true → rank r.num ≤ rank (s.acc i).n_a
    pub acked_voted : (i : ℕ) → r.acked i ≡ true → r.voted i ≡ true
    pub promised_le : (i : ℕ) → r.promised i ≡ true → rank r.num ≤ rank (s.acc i).n_p
    pub promised_best :
        (i j : ℕ)
        → r.promised i ≡ true
        → (s.rnd j).voted i ≡ true
        → rank (s.rnd j).num < rank r.num
        → rank (s.rnd j).num ≤ rank r.best.num
    pub voted_best :
        (j i : ℕ)
        → (s.rnd j).promised i ≡ true
        → r.voted i ≡ true
        → rank r.num < rank (s.rnd j).num
        → rank r.num ≤ rank (s.rnd j).best.num
    pub best_wf : IsNum r.best.num
    pub best_lt : r.phase ≢ idle → rank r.best.num < rank r.num
    pub best_from : (rank r.best.num ≡ 0) ⊎ Backed s r.best.num r.best.val
    pub quorum : r.phase ≡ accepting → Majority n r.promised

module _ {V : Type 0} {s t : System V} (ext : (j : ℕ) → Extends (s.rnd j) (t.rnd j)) where
  pub from_mono :
      {P : Type 0} {num : Str} {val : Option V} → P ⊎ Backed s num val → P ⊎ Backed t num val
  from_mono (inl p) = inl p
  from_mono (inr b) = inr (Backed-mono ext b)

module _ {V : Type 0} {n : ℕ} {s : System V} (h : Inv n s) where
  pub Inv-acc :
      (i : ℕ) (a : Instance V) → AccOk n s i a → Inv n (record s { acc = update s.acc i a })
  Inv-acc i a ok =
      let same = λ (j : ℕ). Extends-refl (s.rnd j) in
      record {
        num_wf = h.num_wf;
        begun = h.begun;
        unbegun = h.unbegun;
        unique = h.unique;
        n_p_wf = update_all (λ j x. IsNum x.n_p) s.acc i a ok.n_p_wf h.n_p_wf;
        n_a_wf = update_all (λ j x. IsNum x.n_a) s.acc i a ok.n_a_wf h.n_a_wf;
        n_a_le = update_all (λ j x. rank x.n_a ≤ rank x.n_p) s.acc i a ok.n_a_le h.n_a_le;
        held =
            update_all
              (λ j x.
                is_pending x.status ≡ true
                → (rank x.n_a ≡ 0) ⊎ Backed (record s { acc = update s.acc i a }) x.n_a x.v_a)
              s.acc i a (λ p. from_mono same (ok.held p)) (λ j p. from_mono same (h.held j p));
        voted_active = h.voted_active;
        voted_le = λ k.
            update_all (λ j x. (s.rnd k).voted j ≡ true → rank (s.rnd k).num ≤ rank x.n_a) s.acc i a
              (λ p. omega (arith, h.voted_le k i p, ok.n_a_grows)) (h.voted_le k);
        acked_voted = h.acked_voted;
        promised_le = λ k.
            update_all (λ j x. (s.rnd k).promised j ≡ true → rank (s.rnd k).num ≤ rank x.n_p) s.acc
              i a (λ p. omega (arith, h.promised_le k i p, ok.n_p_grows)) (h.promised_le k);
        promised_best = h.promised_best;
        best_wf = h.best_wf;
        best_lt = h.best_lt;
        best_from = λ k. from_mono same (h.best_from k);
        quorum = h.quorum;
        decided =
            update_all
              (λ j x.
                is_pending x.status ≡ false → Chosen n (record s { acc = update s.acc i a }) x.v_a)
              s.acc i a (λ p. Chosen-mono same (ok.decided p))
              (λ j p. Chosen-mono same (h.decided j p));
        sent = λ v p. Chosen-mono same (h.sent v p);
      }

  pub Inv-round :
      (k : ℕ) (r : Round V) → RoundOk n s k r → Inv n (record s { rnd = update s.rnd k r })
  Inv-round k r ok =
      let ext = Extends-update s.rnd k r ok.extends in
      record {
        num_wf = update_all (λ j x. IsNum x.num) s.rnd k r ok.num_wf h.num_wf;
        begun = update_all (λ j x. x.phase ≢ idle → 0 < rank x.num) s.rnd k r ok.begun h.begun;
        unbegun =
            update_all (λ j x. x.phase ≡ idle → rank x.num ≡ 0) s.rnd k r ok.unbegun h.unbegun;
        unique = unique';
        n_p_wf = h.n_p_wf;
        n_a_wf = h.n_a_wf;
        n_a_le = h.n_a_le;
        held = λ i p. from_mono ext (h.held i p);
        voted_active =
            update_all (λ j x. (i : ℕ) → x.voted i ≡ true → x.phase ≡ accepting) s.rnd k r
              ok.voted_active h.voted_active;
        voted_le =
            update_all (λ j x. (i : ℕ) → x.voted i ≡ true → rank x.num ≤ rank (s.acc i).n_a) s.rnd k
              r ok.voted_le h.voted_le;
        acked_voted =
            update_all (λ j x. (i : ℕ) → x.acked i ≡ true → x.voted i ≡ true) s.rnd k r
              ok.acked_voted h.acked_voted;
        promised_le =
            update_all (λ j x. (i : ℕ) → x.promised i ≡ true → rank x.num ≤ rank (s.acc i).n_p)
              s.rnd k r ok.promised_le h.promised_le;
        promised_best = promised_best';
        best_wf = update_all (λ j x. IsNum x.best.num) s.rnd k r ok.best_wf h.best_wf;
        best_lt =
            update_all (λ j x. x.phase ≢ idle → rank x.best.num < rank x.num) s.rnd k r ok.best_lt
              h.best_lt;
        best_from =
            update_all
              (λ j x.
                (rank x.best.num ≡ 0)
                ⊎ Backed (record s { rnd = update s.rnd k r }) x.best.num x.best.val)
              s.rnd k r (from_mono ext ok.best_from) (λ j. from_mono ext (h.best_from j));
        quorum =
            update_all (λ j x. x.phase ≡ accepting → Majority n x.promised) s.rnd k r ok.quorum
              h.quorum;
        decided = λ i p. Chosen-mono ext (h.decided i p);
        sent = λ v p. Chosen-mono ext (h.sent v p);
      }
    where
      new : ℕ → Round V
      new = update s.rnd k r

      unique' : (j l : ℕ) → 0 < rank (new j).num → rank (new j).num ≡ rank (new l).num → j ≡ l
      unique' =
          update_all (λ j x. (l : ℕ) → 0 < rank x.num → rank x.num ≡ rank (new l).num → j ≡ l) s.rnd
            k r
            (update_all (λ l y. 0 < rank r.num → rank r.num ≡ rank y.num → k ≡ l) s.rnd k r
              (λ p e. refl) (λ l p e. sym (ok.unique l p (sym e))))
            (λ j.
              update_all (λ l y. 0 < rank (s.rnd j).num → rank (s.rnd j).num ≡ rank y.num → j ≡ l)
                s.rnd k r (λ p e. ok.unique j (omega arith) e) (h.unique j))

      Past : ℕ → Round V → Round V → Type 0
      Past i x y =
          x.promised i ≡ true
          → y.voted i ≡ true
          → rank y.num < rank x.num
          → rank y.num ≤ rank x.best.num

      promised_best' : (l i j : ℕ) → Past i (new l) (new j)
      promised_best' =
          update_all (λ l x. (i j : ℕ) → Past i x (new j)) s.rnd k r
            (λ i.
              update_all (λ j y. Past i r y) s.rnd k r (λ p q lt. absurd (omega arith))
                (ok.promised_best i))
            (λ l i.
              update_all (λ j y. Past i (s.rnd l) y) s.rnd k r (ok.voted_best l i)
                (h.promised_best l i))

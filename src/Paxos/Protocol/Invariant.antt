-- ===== src/Paxos/Protocol/Invariant.antt =====
-- What holds between the steps of the protocol: who has promised and voted what.
use distributed_systems_engi.Base.{
  ℕ, ◌<◌, ◌≤◌, ◌≡◌, ◌≢◌, refl, ◌∙◌, ◌⊎◌, inl, true, false, Option, [], arith, Str,
}
use distributed_systems_engi.Paxos.{is_pending, IsNum, none_yet, rank, rank-nil}
use distributed_systems_engi.Paxos.Protocol.{idle, accepting, Round, System, Majority, Sent, init}
use distributed_systems_engi.Paxos.Protocol.Quorum.{update, count_mono, update_all}

module _ {V : Type 0} where
  -- Some round that is past its promises has this number and this value.
  pub record Backed (s : System V) (num : Str) (val : Option V) : Type 0 where
    pub of : ℕ
    pub active : (s.rnd of).phase ≡ accepting
    pub same_num : (s.rnd of).num ≡ num
    pub same_val : (s.rnd of).best.val ≡ val

  -- A majority has voted for a round with this value.
  pub record Chosen (n : ℕ) (s : System V) (val : Option V) : Type 0 where
    pub of : ℕ
    pub active : (s.rnd of).phase ≡ accepting
    pub most : Majority n (s.rnd of).voted
    pub same_val : (s.rnd of).best.val ≡ val

  pub record Inv (n : ℕ) (s : System V) : Type 0 where
    pub num_wf : (k : ℕ) → IsNum (s.rnd k).num
    pub begun : (k : ℕ) → (s.rnd k).phase ≢ idle → 0 < rank (s.rnd k).num
    pub unbegun : (k : ℕ) → (s.rnd k).phase ≡ idle → rank (s.rnd k).num ≡ 0
    pub unique :
        (j k : ℕ) → 0 < rank (s.rnd j).num → rank (s.rnd j).num ≡ rank (s.rnd k).num → j ≡ k
    pub n_p_wf : (i : ℕ) → IsNum (s.acc i).n_p
    pub n_a_wf : (i : ℕ) → IsNum (s.acc i).n_a
    pub n_a_le : (i : ℕ) → rank (s.acc i).n_a ≤ rank (s.acc i).n_p
    pub held :
        (i : ℕ)
        → is_pending (s.acc i).status ≡ true
        → (rank (s.acc i).n_a ≡ 0) ⊎ Backed s (s.acc i).n_a (s.acc i).v_a
    pub voted_active : (k i : ℕ) → (s.rnd k).voted i ≡ true → (s.rnd k).phase ≡ accepting
    pub voted_le : (k i : ℕ) → (s.rnd k).voted i ≡ true → rank (s.rnd k).num ≤ rank (s.acc i).n_a
    pub acked_voted : (k i : ℕ) → (s.rnd k).acked i ≡ true → (s.rnd k).voted i ≡ true
    pub promised_le :
        (k i : ℕ) → (s.rnd k).promised i ≡ true → rank (s.rnd k).num ≤ rank (s.acc i).n_p
    pub promised_best :
        (k i j : ℕ)
        → (s.rnd k).promised i ≡ true
        → (s.rnd j).voted i ≡ true
        → rank (s.rnd j).num < rank (s.rnd k).num
        → rank (s.rnd j).num ≤ rank (s.rnd k).best.num
    pub best_wf : (k : ℕ) → IsNum (s.rnd k).best.num
    pub best_lt : (k : ℕ) → (s.rnd k).phase ≢ idle → rank (s.rnd k).best.num < rank (s.rnd k).num
    pub best_from :
        (k : ℕ) → (rank (s.rnd k).best.num ≡ 0) ⊎ Backed s (s.rnd k).best.num (s.rnd k).best.val
    pub quorum : (k : ℕ) → (s.rnd k).phase ≡ accepting → Majority n (s.rnd k).promised
    pub decided : (i : ℕ) → is_pending (s.acc i).status ≡ false → Chosen n s (s.acc i).v_a
    pub sent : (v : Option V) → Sent v s.sent → Chosen n s v

  -- What no step takes back: the number and the value of a round past its promises, and its votes.
  pub record Extends (r r' : Round V) : Type 0 where
    pub active : r.phase ≡ accepting → r'.phase ≡ accepting
    pub num : r.phase ≡ accepting → r'.num ≡ r.num
    pub val : r.phase ≡ accepting → r'.best.val ≡ r.best.val
    pub votes : (i : ℕ) → r.voted i ≡ true → r'.voted i ≡ true

  pub Extends-refl : (r : Round V) → Extends r r
  Extends-refl r = record { active = λ h. h; num = λ h. refl; val = λ h. refl; votes = λ i h. h }

  pub Extends-update :
      (f : ℕ → Round V) (k : ℕ) (r : Round V)
      → Extends (f k) r
      → (j : ℕ) → Extends (f j) (update f k r j)
  Extends-update f k r h = update_all (λ j x. Extends (f j) x) f k r h (λ j. Extends-refl (f j))

  module _ {s t : System V} (ext : (j : ℕ) → Extends (s.rnd j) (t.rnd j)) where
    pub Backed-mono : {num : Str} {val : Option V} → Backed s num val → Backed t num val
    Backed-mono b =
        let e = ext b.of in
        record {
          of = b.of;
          active = e.active b.active;
          same_num = e.num b.active ∙ b.same_num;
          same_val = e.val b.active ∙ b.same_val;
        }

    pub Chosen-mono : {n : ℕ} {val : Option V} → Chosen n s val → Chosen n t val
    Chosen-mono {n} b =
        let e = ext b.of in
        record {
          of = b.of;
          active = e.active b.active;
          most = omega (arith, b.most, count_mono (s.rnd b.of).voted (t.rnd b.of).voted n e.votes);
          same_val = e.val b.active ∙ b.same_val;
        }

  not-Sent : (v : Option V) → Sent v [] → ⊥
  not-Sent v h = elim h [ ]

  pub Inv-init : (n : ℕ) → Inv n init
  Inv-init n = record {
    num_wf = λ k. none_yet;
    begun = λ k h. absurd (h refl);
    unbegun = λ k h. rank-nil;
    unique = λ j k h e. absurd (omega (arith, h, rank-nil));
    n_p_wf = λ i. none_yet;
    n_a_wf = λ i. none_yet;
    n_a_le = λ i. omega arith;
    held = λ i h. inl rank-nil;
    voted_active = λ k i h. cc;
    voted_le = λ k i h. cc;
    acked_voted = λ k i h. cc;
    promised_le = λ k i h. cc;
    promised_best = λ k i j h. cc;
    best_wf = λ k. none_yet;
    best_lt = λ k h. absurd (h refl);
    best_from = λ k. inl rank-nil;
    quorum = λ k h. cc;
    decided = λ i h. cc;
    sent = λ v h. absurd (not-Sent v h);
  }
